-- ===== src/WalletCore.antt =====
-- packages/wallet-core: the data of channels, outcomes and the direct-funding protocol.
pub mod Types
pub mod Outcome
pub mod DirectFunder
pub mod StateUtils
pub mod WireFormat
mod Tests
mod StateTests
mod WireTests
