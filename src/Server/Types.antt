-- ===== src/Server/Types.antt =====
-- The data of internal/server/server.go and bans.go. What the code observes of a *net.UDPAddr are
-- two texts, `addr.IP.String()` and `addr.String()`. Log lines are not part of the model.
use rbr_mp_server.Common.{ℕ, ◌*◌, List, Bool}
use rbr_mp_server.Common.Int.{pos}
use rbr_mp_server.Common.Text.{Text}
use rbr_mp_server.Clock.{Time, Duration, second, millisecond}
use rbr_mp_server.History.Ring.{History}

pub record UdpAddr : Type 0 where
  pub ip : Text
  pub text : Text

pub record Config : Type 0 where
  pub addr : Text
  pub tick_at : Duration
  pub timeout : Duration
  pub stale : Duration
  pub verbose : Bool
  pub stats : Duration
  pub bans_path : Text

abbrev pub ping_every : Duration
ping_every = pos (2 * second)

abbrev pub kick_window : Duration
kick_window = pos (10 * second)

abbrev pub ban_notice_every : Duration
ban_notice_every = pos (5 * second)

abbrev pub chat_every : Duration
chat_every = pos (300 * millisecond)

abbrev pub history_age : ℕ
history_age = 3 * second

pub record Client : Type 0 where
  pub id : ℕ
  pub name : Text
  pub car : Text
  pub addr : UdpAddr
  pub addr_key : Text
  pub joined_at : Time
  pub last_seen : Time
  pub history : History
  pub last_client_time_ms : ℕ
  pub last_seq : ℕ
  pub packets : ℕ
  pub dropped : ℕ
  pub last_chat : Time
  pub rtt_ms : ℕ
  pub ping_token : ℕ
  pub ping_sent_at : Time
  pub last_ping_at : Time

pub record BanEntry : Type 0 where
  pub ip : Text
  pub name : Text
  pub reason : Text
  pub banned_at : Time
  pub banned_by : Text

pub record BanList : Type 0 where
  pub path : Text
  pub entries : List (Text × BanEntry)

pub record Server : Type 0 where
  pub cfg : Config
  pub clients : List (Text × Client)
  pub next_id : ℕ
  pub bans : BanList
  pub recently_kicked : List (Text × Time)
  pub last_ban_notice : List (Text × Time)
  pub started : Time
  pub rx_count : ℕ
  pub tx_count : ℕ
  pub rx_bytes : ℕ
  pub tx_bytes : ℕ

-- A datagram to be sent.
pub record Outgoing : Type 0 where
  pub addr : UdpAddr
  pub bytes : List ℕ
