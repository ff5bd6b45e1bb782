-- ===== src/Protocol/Types.antt =====
-- The constants and message types of internal/protocol/protocol.go. A float32 is its bit pattern,
-- which is what `math.Float32bits` and `Float32frombits` exchange; an array of floats is a list
-- whose length the predicates below fix; a Go string is a list of bytes.
use rbr_mp_server.Common.{ℕ, ◌<◌, ◌^◌, ◌≡◌, List, All, length}
use rbr_mp_server.Common.Int.{ℤ, IsI32}
use rbr_mp_server.Common.Text.{Text}

abbrev pub magic : ℕ
magic = 0x504D524F

abbrev pub version : ℕ
version = 3

abbrev pub type_hello : ℕ
type_hello = 1

abbrev pub type_welcome : ℕ
type_welcome = 2

abbrev pub type_state : ℕ
type_state = 3

abbrev pub type_snapshot : ℕ
type_snapshot = 4

abbrev pub type_bye : ℕ
type_bye = 5

abbrev pub type_chat : ℕ
type_chat = 6

abbrev pub type_ping : ℕ
type_ping = 7

abbrev pub type_pong : ℕ
type_pong = 8

abbrev pub type_kick : ℕ
type_kick = 9

abbrev pub kick_reason_len : ℕ
kick_reason_len = 64

abbrev pub chat_text_len : ℕ
chat_text_len = 128

abbrev pub name_len : ℕ
name_len = 24

abbrev pub header_size : ℕ
header_size = 8

pub data Error : Type 0 where
  short bad_magic bad_version : Error

pub record Transform : Type 0 where
  pub position : List ℕ
  pub rot : List ℕ

pub record Telemetry : Type 0 where
  pub vel : List ℕ
  pub speed : ℕ
  pub rpm : ℕ
  pub steer : ℕ
  pub gear : ℤ
  pub wheel_omega : List ℕ

pub record Hello : Type 0 where
  pub name : Text
  pub car : Text

pub record Welcome : Type 0 where
  pub player_id : ℕ
  pub tick_rate_hz : ℕ
  pub echo_delay_ms : ℕ
  pub server_time_ms : ℕ

-- The embedded Transform and Telemetry are fields.
pub record State : Type 0 where
  pub player_id : ℕ
  pub seq : ℕ
  pub client_time_ms : ℕ
  pub transform : Transform
  pub telemetry : Telemetry

pub record Entity : Type 0 where
  pub id : ℕ
  pub flags : ℕ
  pub name : Text
  pub car : Text
  pub transform : Transform
  pub telemetry : Telemetry
  pub sample_time_ms : ℕ
  pub ping_ms : ℕ

pub record Chat : Type 0 where
  pub player_id : ℕ
  pub name : Text
  pub text : Text

pub record Snapshot : Type 0 where
  pub server_time_ms : ℕ
  pub last_client_time_ms : ℕ
  pub self_ping_ms : ℕ
  pub entities : List Entity

pub record Ping : Type 0 where
  pub token : ℕ

pub record Pong : Type 0 where
  pub token : ℕ

pub record Kick : Type 0 where
  pub reason : Text

-- The ranges of the Go types.
abbrev pub IsU16 : ℕ → Type 0
IsU16 v = v < 2 ^ 16

abbrev pub IsU32 : ℕ → Type 0
IsU32 v = v < 2 ^ 32

-- A value of `[n]float32`.
pub record IsFloats (n : ℕ) (xs : List ℕ) : Type 0 where
  pub size : length xs ≡ n
  pub words : All IsU32 xs

pub record IsTransform (t : Transform) : Type 0 where
  pub position : IsFloats 3 t.position
  pub rot : IsFloats 9 t.rot

pub record IsTelemetry (t : Telemetry) : Type 0 where
  pub vel : IsFloats 3 t.vel
  pub speed : IsU32 t.speed
  pub rpm : IsU32 t.rpm
  pub steer : IsU32 t.steer
  pub gear : IsI32 t.gear
  pub wheel_omega : IsFloats 4 t.wheel_omega

pub record IsWelcome (w : Welcome) : Type 0 where
  pub player_id : IsU32 w.player_id
  pub tick_rate_hz : IsU16 w.tick_rate_hz
  pub echo_delay_ms : IsU16 w.echo_delay_ms
  pub server_time_ms : IsU32 w.server_time_ms

pub record IsState (s : State) : Type 0 where
  pub player_id : IsU32 s.player_id
  pub seq : IsU32 s.seq
  pub client_time_ms : IsU32 s.client_time_ms
  pub transform : IsTransform s.transform
  pub telemetry : IsTelemetry s.telemetry

pub record IsEntity (e : Entity) : Type 0 where
  pub id : IsU32 e.id
  pub flags : IsU16 e.flags
  pub transform : IsTransform e.transform
  pub telemetry : IsTelemetry e.telemetry
  pub sample_time_ms : IsU32 e.sample_time_ms
  pub ping_ms : IsU16 e.ping_ms

pub record IsSnapshot (s : Snapshot) : Type 0 where
  pub server_time_ms : IsU32 s.server_time_ms
  pub last_client_time_ms : IsU32 s.last_client_time_ms
  pub self_ping_ms : IsU16 s.self_ping_ms
  pub few : length s.entities < 2 ^ 16
  pub entities : All IsEntity s.entities
