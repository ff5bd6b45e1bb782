-- ===== src/Examples/Data.antt =====
-- A server with two players, Ann and Bob, for the tests of internal/server/.
use rbr_mp_server.Common.{ℕ, ◌+◌, ◌*◌, ◌≤◌, refl, [], ◌∷◌, none, some, false, arith}
use rbr_mp_server.Common.Int.{pos, negsuc}
use rbr_mp_server.Common.Text.{Text, text_eq}
use rbr_mp_server.Common.GoMap.{insert}
use rbr_mp_server.Clock.{Time, second, millisecond}
use rbr_mp_server.History.Sample.{Sample}
use rbr_mp_server.History.Ring.{History}
use rbr_mp_server.History.Bounds.{IsHistory}
use rbr_mp_server.Protocol.Types.{Transform, Telemetry, State, IsTransform, IsTelemetry, IsState}
use rbr_mp_server.Server.Types.{UdpAddr, Config, Client, BanEntry, BanList, Server}
use rbr_mp_server.Server.Admin.{Library}
use rbr_mp_server.Server.Sessions.{Fits, Sessions, insert_new}
use rbr_mp_server.Server.Run.{no_client}
use rbr_mp_server.Server.Invariant.{Inv}
use rbr_mp_server.Server.Handle.{Network}

abbrev pub pose : Transform
pose = record {
  position = 0x3F800000 ∷ 0x40000000 ∷ 0x40400000 ∷ [];
  rot = 0x3F800000 ∷ 0 ∷ 0 ∷ 0 ∷ 0x3F800000 ∷ 0 ∷ 0 ∷ 0 ∷ 0x3F800000 ∷ [];
}

abbrev pub dials : Telemetry
dials = record {
  vel = 0x41200000 ∷ 0 ∷ 0 ∷ [];
  speed = 0x41200000;
  rpm = 0x45BB8000;
  steer = 0;
  gear = negsuc 0;
  wheel_omega = 1 ∷ 2 ∷ 3 ∷ 4 ∷ [];
}

pub pose-IsTransform : IsTransform pose
pose-IsTransform = record {
  position = record { size = refl; words = ground arith };
  rot = record { size = refl; words = ground arith };
}

pub dials-IsTelemetry : IsTelemetry dials
dials-IsTelemetry = record {
  vel = record { size = refl; words = ground arith };
  speed = omega arith;
  rpm = omega arith;
  steer = omega arith;
  gear = ground arith;
  wheel_omega = record { size = refl; words = ground arith };
}

abbrev pub moving : State
moving = record {
  player_id = 1;
  seq = 7;
  client_time_ms = 900;
  transform = pose;
  telemetry = dials;
}

pub moving-IsState : IsState moving
moving-IsState = record {
  player_id = omega arith;
  seq = omega arith;
  client_time_ms = omega arith;
  transform = pose-IsTransform;
  telemetry = dials-IsTelemetry;
}

abbrev pub sample_at : Time → Sample
sample_at t = record { recv_at = t; client_time_ms = 900; transform = pose; telemetry = dials }

-- 100, 200 and 300 ms past the start of the clock.
abbrev pub early : Time
early = 100 * millisecond

abbrev pub middle : Time
middle = 200 * millisecond

abbrev pub late : Time
late = 300 * millisecond

abbrev pub drive : History
drive = record {
  samples = sample_at early ∷ sample_at late ∷ [];
  max_age = 3 * second;
  max_len = 4096;
}

pub drive-IsHistory : IsHistory drive
drive-IsHistory = record { sorted = ground arith; cap = refl; bounded = omega arith }

abbrev pub ann_addr : UdpAddr
ann_addr = record { ip = b'a' ∷ []; text = b'a' ∷ b':' ∷ b'1' ∷ [] }

abbrev pub bob_addr : UdpAddr
bob_addr = record { ip = b'b' ∷ []; text = b'b' ∷ b':' ∷ b'1' ∷ [] }

abbrev pub player : ℕ → Text → UdpAddr → Client
player id name addr = record {
  id = id;
  name = name;
  car = [];
  addr = addr;
  addr_key = addr.text;
  joined_at = early;
  last_seen = late;
  history = drive;
  last_client_time_ms = 900;
  last_seq = 7;
  packets = 2;
  dropped = 0;
  last_chat = 0;
  rtt_ms = 0;
  ping_token = 0;
  ping_sent_at = 0;
  last_ping_at = 0;
}

abbrev pub ann : Client
ann = player 1 (b'A' ∷ b'n' ∷ b'n' ∷ []) ann_addr

abbrev pub bob : Client
bob = player 2 (b'B' ∷ b'o' ∷ b'b' ∷ []) bob_addr

abbrev pub config : Config
config = record {
  addr = b':' ∷ b'9' ∷ [];
  verbose = false;
  stats = pos (10 * second);
  tick_at = pos (33 * millisecond);
  timeout = pos (5 * second);
  stale = pos (2 * second);
  bans_path = b'f' ∷ [];
}

abbrev pub no_bans : BanList
no_bans = record { path = b'f' ∷ []; entries = [] }

-- Bob's address was banned earlier.
abbrev pub bob_ban : BanEntry
bob_ban = record { ip = b'b' ∷ []; name = []; reason = b'x' ∷ []; banned_at = 5; banned_by = [] }

abbrev pub bob_banned : BanList
bob_banned = record { path = b'f' ∷ []; entries = (b'b' ∷ [], bob_ban) ∷ [] }

abbrev pub room : Server
room = record {
  cfg = config;
  clients = (ann_addr.text, ann) ∷ (bob_addr.text, bob) ∷ [];
  next_id = 3;
  bans = no_bans;
  recently_kicked = [];
  last_ban_notice = [];
  started = 1;
  rx_count = 4;
  tx_count = 2;
  rx_bytes = 400;
  tx_bytes = 40;
}

player-Fits :
    (id : ℕ) (name : Text) (addr : UdpAddr) → 1 ≤ id → Fits addr.text (id + 1) (player id name addr)
player-Fits id name addr first = record {
  keyed = refl;
  replies = refl;
  positive = first;
  given = omega arith;
  history = drive-IsHistory;
}

room-Sessions : Sessions room.clients 3
unfolding insert text_eq
room-Sessions =
    insert_new (insert ann_addr.text ann []) 2
      (insert_new [] 1 empty ann_addr.text ann (player-Fits 1 ann.name ann_addr (omega arith)) refl)
      bob_addr.text bob (player-Fits 2 bob.name bob_addr (omega arith)) refl
  where
    empty : Sessions [] 1
    empty = record {
      map = tt;
      each = λ k c e. absurd (no_client k c e);
      ids = λ k i c d e _ _. absurd (no_client k c e);
    }

pub room-Inv : Inv room
room-Inv = record { sessions = room-Sessions; positive = omega arith }

-- Names are compared byte for byte, and every text is an IP.
abbrev pub library : Library
library = record { equal_fold = text_eq; parse_ip = some }

-- Every datagram is sent whole, or none is.
abbrev pub silent : Network
silent o = none
