-- ===== src/Server/Start.antt =====
-- DefaultConfig and New of internal/server/server.go, without the socket that New binds.
use rbr_mp_server.Common.{◌*◌, ◌/◌, ◌≡◌, [], ◌∷◌, Bool, true, false, if◌then◌else◌, arith}
use rbr_mp_server.Common.Int.{pos, leb_ℤ, ltb_ℤ}
use rbr_mp_server.Common.Text.{Text}
use rbr_mp_server.Clock.{Time, Duration, second}
use rbr_mp_server.Server.Types.{Config, BanList, Server}
use rbr_mp_server.Server.Bans.{Json, Disk, loaded, unreadable, unparsable, load_bans}

-- ":40100"
abbrev pub default_addr : Text
default_addr = b':' ∷ b'4' ∷ b'0' ∷ b'1' ∷ b'0' ∷ b'0' ∷ []

-- "bans.json"
abbrev pub default_bans_path : Text
default_bans_path = b'b' ∷ b'a' ∷ b'n' ∷ b's' ∷ b'.' ∷ b'j' ∷ b's' ∷ b'o' ∷ b'n' ∷ []

unfoldable pub default_config : Config
default_config = record {
  addr = default_addr;
  tick_at = pos (second / 30);
  timeout = pos (5 * second);
  stale = pos (2 * second);
  verbose = false;
  stats = pos (10 * second);
  bans_path = default_bans_path;
}

-- `if d <= 0 { d = fallback }`
unfoldable pub or_default : Duration → Duration → Duration
or_default d fallback = if leb_ℤ d (pos 0) then fallback else d

unfoldable pub path_or_default : Text → Text
path_or_default [] = default_bans_path
path_or_default (c ∷ cs) = c ∷ cs

unfoldable pub normalize : Config → Config
unfolding or_default path_or_default
normalize cfg = record cfg {
  tick_at = or_default cfg.tick_at (pos (second / 30));
  timeout = or_default cfg.timeout (pos (5 * second));
  stale = or_default cfg.stale (pos (2 * second));
  bans_path = path_or_default cfg.bans_path;
}

unfoldable pub fresh_server : Config → BanList → Time → Server
fresh_server cfg bans now = record {
  cfg = cfg;
  clients = [];
  next_id = 1;
  bans = bans;
  recently_kicked = [];
  last_ban_notice = [];
  started = now;
  rx_count = 0;
  tx_count = 0;
  rx_bytes = 0;
  tx_bytes = 0;
}

pub data Started : Type 0 where
  started : Server → Started
  failed : Started

-- `bound` is whether the socket could be bound.
unfoldable pub new : Json → Bool → Disk → Bool → Config → Time → Started
unfolding normalize fresh_server
new j readable disk bound cfg now =
    let c = normalize cfg in
    elim (load_bans j readable c.bans_path disk) [
      | unreadable ↦ failed
      | unparsable ↦ failed
      | loaded bans ↦ if bound then started (fresh_server c bans now) else failed
    ]

-- Whatever it is told, a server ticks, times out and judges staleness by positive durations.
pub normalize_positive :
    (cfg : Config)
    → (ltb_ℤ (pos 0) (normalize cfg).tick_at ≡ true)
      × (ltb_ℤ (pos 0) (normalize cfg).timeout ≡ true)
      × (ltb_ℤ (pos 0) (normalize cfg).stale ≡ true)
unfolding normalize
normalize_positive cfg = (ground arith, ground arith, ground arith)
