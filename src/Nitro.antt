-- ===== src/Nitro.antt =====
-- packages/nitro-protocol: the client of the contracts.
pub mod AssetHolder
pub mod Transition
pub mod ChannelMode
pub mod ChannelStorage
mod Tests
mod TransitionTests
