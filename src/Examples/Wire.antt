-- ===== src/Examples/Wire.antt =====
-- internal/protocol/protocol.go at concrete messages and datagrams.
use mathlib.Core.Logic.{◌↔◌}
use rbr_mp_server.Common.{
  ℕ, ◌≡◌, List, [], ◌∷◌, ◌++◌, map, none, some, if◌then◌else◌, ltb, length, drop, arith, All,
}
use rbr_mp_server.Protocol.Types.{
  Hello, Welcome, State, Entity, Chat, Snapshot, Kick, short, IsU16, IsU32, IsWelcome, IsEntity,
  IsSnapshot, name_len, chat_text_len, kick_reason_len,
}
use rbr_mp_server.Protocol.Types
use rbr_mp_server.Protocol.Writer.{header}
use rbr_mp_server.Protocol.Encode.{
  encode_hello, encode_welcome, encode_state, encode_chat, encode_ping, encode_pong, encode_kick,
  encode_snapshot,
}
use rbr_mp_server.Protocol.Decode.{
  ok, parse_header, decode_hello, decode_welcome, decode_state, decode_chat, decode_ping,
  decode_pong, decode_kick, decode_snapshot,
}
use rbr_mp_server.Protocol.FixedText.{wire_text}
use rbr_mp_server.Protocol.RoundTrip.{decode-encode}
use rbr_mp_server.Protocol.RoundTrip.Snapshot.{wire_entity, decode_snapshot-encode_snapshot}
use rbr_mp_server.Protocol.Takes.{decode_errors}
use rbr_mp_server.Protocol.Header.{IsByte, parse_header-ok_iff}
use rbr_mp_server.Examples.Data.{
  pose, dials, moving, pose-IsTransform, dials-IsTelemetry, moving-IsState,
}

abbrev greeting : Hello
greeting = record { name = b'A' ∷ b'n' ∷ b'n' ∷ []; car = b'C' ∷ b'4' ∷ [] }

abbrev line : Chat
line = record { player_id = 1; name = b'A' ∷ []; text = b'h' ∷ b'i' ∷ [] }

abbrev farewell : Kick
farewell = record { reason = b'b' ∷ b'y' ∷ b'e' ∷ [] }

abbrev arrival : Welcome
arrival = record { player_id = 1; tick_rate_hz = 30; echo_delay_ms = 0; server_time_ms = 70000 }

arrival-IsWelcome : IsWelcome arrival
arrival-IsWelcome = record {
  player_id = omega arith;
  tick_rate_hz = omega arith;
  echo_delay_ms = omega arith;
  server_time_ms = omega arith;
}

abbrev token : Types.Pong
token = record { token = 0xDEADBEEF }

abbrev probe : Types.Ping
probe = record { token = 7 }

abbrev car : Entity
car = record {
  id = 2;
  flags = 0;
  name = b'B' ∷ [];
  car = [];
  transform = pose;
  telemetry = dials;
  sample_time_ms = 900;
  ping_ms = 40;
}

car-IsEntity : IsEntity car
car-IsEntity = record {
  id = omega arith;
  flags = omega arith;
  transform = pose-IsTransform;
  telemetry = dials-IsTelemetry;
  sample_time_ms = omega arith;
  ping_ms = omega arith;
}

abbrev view : Snapshot
view = record {
  server_time_ms = 1000;
  last_client_time_ms = 900;
  self_ping_ms = 30;
  entities = car ∷ car ∷ [];
}

view-IsSnapshot : IsSnapshot view
view-IsSnapshot = record {
  server_time_ms = omega arith;
  last_client_time_ms = omega arith;
  self_ping_ms = omega arith;
  few = omega arith;
  entities = (car-IsEntity, (car-IsEntity, tt));
}

-- A Bye: the header alone.
abbrev bye_bytes : List ℕ
bye_bytes = 79 ∷ 82 ∷ 77 ∷ 80 ∷ 3 ∷ 0 ∷ 5 ∷ 0 ∷ []

bye_bytes-IsByte : All IsByte bye_bytes
bye_bytes-IsByte = ground arith

decode_snapshot-encode_snapshot_example :
    decode_snapshot (encode_snapshot view ++ (1 ∷ []))
    ≡ (record view { entities = map wire_entity view.entities }, none)
decode_snapshot-encode_snapshot_example =
    decode_snapshot-encode_snapshot view (1 ∷ []) view-IsSnapshot

decode-encode_example :
    (decode_hello (encode_hello greeting ++ (1 ∷ [])) ≡ (
      record { name = wire_text name_len greeting.name; car = wire_text name_len greeting.car },
      none,
    ))
    × (decode_chat (encode_chat line ++ (1 ∷ [])) ≡ (
      record line { name = wire_text name_len line.name; text = wire_text chat_text_len line.text },
      none,
    ))
    × (decode_kick (encode_kick farewell ++ (1 ∷ []))
        ≡ (record { reason = wire_text kick_reason_len farewell.reason }, none))
    × (decode_welcome (encode_welcome arrival ++ (1 ∷ [])) ≡ (arrival, none))
    × (decode_ping (encode_ping probe ++ (1 ∷ [])) ≡ (probe, none))
    × (decode_pong (encode_pong token ++ (1 ∷ [])) ≡ (token, none))
    × (decode_state (encode_state moving ++ (1 ∷ [])) ≡ (moving, none))
decode-encode_example =
    decode-encode greeting line farewell arrival probe token moving (1 ∷ []) (omega arith)
      arrival-IsWelcome (omega arith) (omega arith) moving-IsState

parse_header-ok_iff_example :
    (parse_header bye_bytes ≡ ok 5) ↔ (IsU16 5 × (bye_bytes ≡ header [] 5 ++ drop 8 bye_bytes))
parse_header-ok_iff_example = parse_header-ok_iff bye_bytes 5 bye_bytes-IsByte

decode_errors_example :
    ((decode_hello bye_bytes).1 ≡ (if ltb (length bye_bytes) 56 then some short else none))
    × ((decode_welcome bye_bytes).1 ≡ (if ltb (length bye_bytes) 20 then some short else none))
    × ((decode_state bye_bytes).1 ≡ (if ltb (length bye_bytes) 112 then some short else none))
    × ((decode_chat bye_bytes).1 ≡ (if ltb (length bye_bytes) 164 then some short else none))
    × ((decode_ping bye_bytes).1 ≡ (if ltb (length bye_bytes) 12 then some short else none))
    × ((decode_pong bye_bytes).1 ≡ (if ltb (length bye_bytes) 12 then some short else none))
    × ((decode_kick bye_bytes).1 ≡ (if ltb (length bye_bytes) 72 then some short else none))
decode_errors_example = decode_errors bye_bytes
