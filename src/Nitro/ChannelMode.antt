-- ===== src/Nitro/ChannelMode.antt =====
-- packages/nitro-protocol/src/channel-mode.ts: the mode of a channel on chain.
use statechannels.Common.{ℕ, ◌==◌, leb, if◌then◌else◌}

-- `ChannelMode`
pub data ChannelMode : Type 0 where
  open_ challenge finalized : ChannelMode

-- `getChannelMode`
unfoldable pub get_channel_mode : ℕ → ℕ → ChannelMode
get_channel_mode finalizes_at now =
    if finalizes_at == 0 then open_ else (if leb finalizes_at now then finalized else challenge)
