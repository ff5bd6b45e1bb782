-- ===== src/Protocol/Decode.antt =====
-- ParseHeader and the Decode functions of internal/protocol/protocol.go. A decoder returns the
-- value that it has built together with the reader's error, as the Go functions do.
use rbr_mp_server.Common.{
  ℕ, zero, suc, List, [], ◌∷◌, ◌++◌, Option, none, some, if◌then◌else◌, ltb, ◌==◌, not, length,
  drop,
}
use rbr_mp_server.Protocol.Types.{
  Error, short, bad_magic, bad_version, Hello, Welcome, State, Entity, Chat, Snapshot, Ping, Pong,
  Kick, magic, version, header_size, kick_reason_len,
}
use rbr_mp_server.Protocol.Reader.{
  Reader, M, ◌>>=◌, return, get16, get32, read, u16, u32, name, chat_text, until_nul, transform,
  telemetry,
}

pub data Parsed : Type 0 where
  ok : ℕ → Parsed
  err : Error → Parsed

unfoldable pub parse_header : List ℕ → Parsed
parse_header b =
    if ltb (length b) header_size
    then err short
    else if not (get32 b == magic)
    then err bad_magic
    else if not (get16 (drop 4 b) == version)
    then err bad_version
    else ok (get16 (drop 6 b))

-- `r := &reader{b: b, i: HeaderSize}`
abbrev pub start : List ℕ → Reader
start b = record { b = b; i = header_size; err = none }

-- The value and `r.err` after the reads.
unfoldable pub run : {A : Type 0} → M A → List ℕ → A × Option Error
run m b = ((m (start b)).0, (m (start b)).1.err)

unfoldable pub read_hello : M Hello
read_hello = do n ← name; c ← name; return (record { name = n; car = c })

unfoldable pub decode_hello : List ℕ → Hello × Option Error
decode_hello = run read_hello

unfoldable pub read_welcome : M Welcome
read_welcome = do
  i ← u32
  t ← u16
  e ← u16
  s ← u32
  return (record { player_id = i; tick_rate_hz = t; echo_delay_ms = e; server_time_ms = s })

unfoldable pub decode_welcome : List ℕ → Welcome × Option Error
decode_welcome = run read_welcome

unfoldable pub read_state : M State
read_state = do
  i ← u32
  s ← u32
  c ← u32
  t ← transform
  l ← telemetry
  return (record { player_id = i; seq = s; client_time_ms = c; transform = t; telemetry = l })

unfoldable pub decode_state : List ℕ → State × Option Error
decode_state = run read_state

unfoldable pub read_chat : M Chat
read_chat = do
  i ← u32
  n ← name
  t ← chat_text
  return (record { player_id = i; name = n; text = t })

unfoldable pub decode_chat : List ℕ → Chat × Option Error
decode_chat = run read_chat

unfoldable pub read_ping : M Ping
read_ping = do t ← u32; return (record { token = t })

unfoldable pub decode_ping : List ℕ → Ping × Option Error
decode_ping = run read_ping

unfoldable pub read_pong : M Pong
read_pong = do t ← u32; return (record { token = t })

unfoldable pub decode_pong : List ℕ → Pong × Option Error
decode_pong = run read_pong

-- `return Kick{}, r.err` where the bytes are missing.
unfoldable pub read_kick : M Kick
read_kick = do reason ← read kick_reason_len [] until_nul; return (record { reason = reason })

unfoldable pub decode_kick : List ℕ → Kick × Option Error
decode_kick = run read_kick

unfoldable pub read_entity : M Entity
read_entity = do
  i ← u32
  f ← u16
  _ ← u16
  n ← name
  c ← name
  t ← transform
  l ← telemetry
  s ← u32
  p ← u16
  _ ← u16
  return (record {
    id = i;
    flags = f;
    name = n;
    car = c;
    transform = t;
    telemetry = l;
    sample_time_ms = s;
    ping_ms = p;
  })

-- The loop `for i := 0; i < n; i++`, over the entities read so far; it stops at the first error.
unfoldable pub read_entities : ℕ → List Entity → M (List Entity)
read_entities zero es r = (es, r)
read_entities (suc n) es r =
    let (e, r') = read_entity r in
    let rest = read_entities n (es ++ (e ∷ [])) r' in
    elim r'.err [ some x ↦ (es, r') | none ↦ rest ]

-- What follows the snapshot's own header, where the early return keeps the entities empty.
unfoldable pub read_body : ℕ → M (List Entity)
read_body n r = elim r.err [ some x ↦ ([], r) | none ↦ read_entities n [] r ]

unfoldable pub read_snapshot : M Snapshot
read_snapshot = do
  t ← u32
  l ← u32
  n ← u16
  p ← u16
  es ← read_body n
  return (record { server_time_ms = t; last_client_time_ms = l; self_ping_ms = p; entities = es })

unfoldable pub decode_snapshot : List ℕ → Snapshot × Option Error
decode_snapshot = run read_snapshot
