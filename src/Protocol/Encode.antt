-- ===== src/Protocol/Encode.antt =====
-- The Encode functions of internal/protocol/protocol.go.
use rbr_mp_server.Common.{ℕ, ◌%◌, ◌^◌, List, [], ◌∷◌, length}
use rbr_mp_server.Protocol.Types.{
  Hello, Welcome, State, Entity, Chat, Snapshot, Ping, Pong, Kick, type_hello, type_welcome,
  type_state, type_snapshot, type_chat, type_ping, type_pong, type_kick,
}
use rbr_mp_server.Protocol.Writer.{
  u16, u32, name, chat_text, kick_reason, transform, telemetry, header,
}

unfoldable pub encode_hello : Hello → List ℕ
encode_hello h = name (name (header [] type_hello) h.name) h.car

unfoldable pub encode_welcome : Welcome → List ℕ
encode_welcome v =
    let w = header [] type_welcome in
    let w = u32 w v.player_id in
    let w = u16 w v.tick_rate_hz in let w = u16 w v.echo_delay_ms in u32 w v.server_time_ms

unfoldable pub encode_state : State → List ℕ
encode_state s =
    let w = header [] type_state in
    let w = u32 w s.player_id in
    let w = u32 w s.seq in
    let w = u32 w s.client_time_ms in let w = transform w s.transform in telemetry w s.telemetry

unfoldable pub encode_chat : Chat → List ℕ
encode_chat c =
    let w = header [] type_chat in
    let w = u32 w c.player_id in let w = name w c.name in chat_text w c.text

unfoldable pub encode_ping : Ping → List ℕ
encode_ping p = u32 (header [] type_ping) p.token

unfoldable pub encode_pong : Pong → List ℕ
encode_pong p = u32 (header [] type_pong) p.token

unfoldable pub encode_kick : Kick → List ℕ
encode_kick k = kick_reason (header [] type_kick) k.reason

-- The body of the loop over the entities.
unfoldable pub encode_entity : List ℕ → Entity → List ℕ
encode_entity w e =
    let w = u32 w e.id in
    let w = u16 w e.flags in
    let w = u16 w 0 in
    let w = name w e.name in
    let w = name w e.car in
    let w = transform w e.transform in
    let w = telemetry w e.telemetry in
    let w = u32 w e.sample_time_ms in let w = u16 w e.ping_ms in u16 w 0

unfoldable pub encode_entities : List ℕ → List Entity → List ℕ
encode_entities w [] = w
encode_entities w (e ∷ es) = encode_entities (encode_entity w e) es

-- `uint16(len(s.Entities))` wraps.
unfoldable pub encode_snapshot : Snapshot → List ℕ
encode_snapshot s =
    let w = header [] type_snapshot in
    let w = u32 w s.server_time_ms in
    let w = u32 w s.last_client_time_ms in
    let w = u16 w (length s.entities % 2 ^ 16) in
    let w = u16 w s.self_ping_ms in encode_entities w s.entities
