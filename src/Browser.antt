-- ===== src/Browser.antt =====
-- packages/browser-wallet: the wallet that runs in a page.
pub mod ChannelEntry
mod Tests
