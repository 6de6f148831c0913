-- ===== src/Server.antt =====
-- packages/server-wallet: the state channel wallet that runs beside an application's server.
pub mod EngineResponse
pub mod AllocationOutcome
pub mod LedgerRequest
pub mod LedgerState
pub mod LedgerProtocol
pub mod ValidateTransition
pub mod Channel
pub mod Store
pub mod Database
pub mod Opening
pub mod Defunder
pub mod Closing
pub mod Status
mod Tests
mod ProtocolTests
mod ChannelTests
mod CrankTests
mod ClosingTests
mod EngineTests
