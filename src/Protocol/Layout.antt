-- ===== src/Protocol/Layout.antt =====
-- The bytes behind the header of each message, as the concatenation of its fields. The encoders of
-- `Encode`, which append field by field to what is written so far, are shown to write these.
use mathlib.Core.List.{append-nil, append_assoc}
use rbr_mp_server.Common.{ℕ, ◌%◌, ◌^◌, ◌≡◌, sym, ◌∙◌, List, [], ◌∷◌, ◌++◌, length}
use rbr_mp_server.Common.Int.{to_u32}
use rbr_mp_server.Protocol.Types.{
  Transform, Telemetry, Hello, Welcome, State, Entity, Chat, Snapshot, Kick, name_len,
  chat_text_len, kick_reason_len, type_hello, type_welcome, type_state, type_snapshot, type_chat,
  type_ping, type_pong, type_kick,
}
use rbr_mp_server.Protocol.Writer.{
  le16, le32, text_buf, u16, u32, i32, f32, name, chat_text, kick_reason, floats, transform,
  telemetry, header,
}
use rbr_mp_server.Protocol.Encode.{
  encode_hello, encode_welcome, encode_state, encode_chat, encode_ping, encode_pong, encode_kick,
  encode_entity, encode_entities, encode_snapshot,
}
use rbr_mp_server.Protocol.Types

abbrev pub floats_layout : List ℕ → List ℕ
floats_layout [] = []
floats_layout (v ∷ vs) = le32 v ++ floats_layout vs

abbrev pub transform_layout : Transform → List ℕ
transform_layout t = floats_layout t.position ++ (floats_layout t.rot ++ [])

abbrev pub telemetry_layout : Telemetry → List ℕ
telemetry_layout t =
    floats_layout t.vel
    ++ (le32 t.speed
        ++ (le32 t.rpm
            ++ (le32 t.steer ++ (le32 (to_u32 t.gear) ++ (floats_layout t.wheel_omega ++ [])))))

abbrev pub hello_layout : Hello → List ℕ
hello_layout h = text_buf name_len h.name ++ (text_buf name_len h.car ++ [])

abbrev pub welcome_layout : Welcome → List ℕ
welcome_layout v =
    le32 v.player_id
    ++ (le16 v.tick_rate_hz ++ (le16 v.echo_delay_ms ++ (le32 v.server_time_ms ++ [])))

abbrev pub state_layout : State → List ℕ
state_layout s =
    le32 s.player_id
    ++ (le32 s.seq
        ++ (le32 s.client_time_ms
            ++ (transform_layout s.transform ++ (telemetry_layout s.telemetry ++ []))))

abbrev pub chat_layout : Chat → List ℕ
chat_layout c =
    le32 c.player_id ++ (text_buf name_len c.name ++ (text_buf chat_text_len c.text ++ []))

abbrev pub entity_layout : Entity → List ℕ
entity_layout e =
    le32 e.id
    ++ (le16 e.flags
        ++ (le16 0
            ++ (text_buf name_len e.name
                ++ (text_buf name_len e.car
                    ++ (transform_layout e.transform
                        ++ (telemetry_layout e.telemetry
                            ++ (le32 e.sample_time_ms ++ (le16 e.ping_ms ++ (le16 0 ++ [])))))))))

abbrev pub entities_layout : List Entity → List ℕ
entities_layout [] = []
entities_layout (e ∷ es) = entity_layout e ++ entities_layout es

abbrev pub snapshot_layout : Snapshot → List ℕ
snapshot_layout s =
    le32 s.server_time_ms
    ++ (le32 s.last_client_time_ms
        ++ (le16 (length s.entities % 2 ^ 16)
            ++ (le16 s.self_ping_ms ++ (entities_layout s.entities ++ []))))

floats-layout : (w vs : List ℕ) → floats w vs ≡ w ++ floats_layout vs
unfolding floats f32
floats-layout w [] = sym (append-nil w)
floats-layout w (v ∷ vs) =
    floats-layout (w ++ le32 v) vs ∙ append_assoc w (le32 v) (floats_layout vs)

transform-layout : (w : List ℕ) (t : Transform) → transform w t ≡ w ++ transform_layout t
unfolding transform
transform-layout w t = simp (floats-layout, append_assoc, append-nil)

telemetry-layout : (w : List ℕ) (t : Telemetry) → telemetry w t ≡ w ++ telemetry_layout t
unfolding telemetry f32 i32 u32
telemetry-layout w t = simp (floats-layout, append_assoc, append-nil)

entity-layout : (w : List ℕ) (e : Entity) → encode_entity w e ≡ w ++ entity_layout e
unfolding encode_entity u32 u16 name
entity-layout w e = simp (transform-layout, telemetry-layout, append_assoc, append-nil)

entities-layout : (w : List ℕ) (es : List Entity) → encode_entities w es ≡ w ++ entities_layout es
unfolding encode_entities
entities-layout w [] = sym (append-nil w)
entities-layout w (e ∷ es) = rw (entity-layout w e) (
    entities-layout (w ++ entity_layout e) es
    ∙ append_assoc w (entity_layout e) (entities_layout es))

ruleset layouts =
    (floats-layout, transform-layout, telemetry-layout, entities-layout, append_assoc, append-nil)

-- The encoders with the header kept whole.
pub encode_hello-layout : (h : Hello) → encode_hello h ≡ header [] type_hello ++ hello_layout h
unfolding encode_hello name
encode_hello-layout h = simp layouts

pub encode_welcome-layout :
    (v : Welcome) → encode_welcome v ≡ header [] type_welcome ++ welcome_layout v
unfolding encode_welcome u32 u16
encode_welcome-layout v = simp layouts

pub encode_state-layout : (s : State) → encode_state s ≡ header [] type_state ++ state_layout s
unfolding encode_state u32
encode_state-layout s = simp layouts

pub encode_chat-layout : (c : Chat) → encode_chat c ≡ header [] type_chat ++ chat_layout c
unfolding encode_chat u32 name chat_text
encode_chat-layout c = simp layouts

pub encode_ping-layout :
    (p : Types.Ping) → encode_ping p ≡ header [] type_ping ++ (le32 p.token ++ [])
unfolding encode_ping u32
encode_ping-layout p = simp layouts

pub encode_pong-layout :
    (p : Types.Pong) → encode_pong p ≡ header [] type_pong ++ (le32 p.token ++ [])
unfolding encode_pong u32
encode_pong-layout p = simp layouts

pub encode_kick-layout :
    (k : Kick) → encode_kick k ≡ header [] type_kick ++ (text_buf kick_reason_len k.reason ++ [])
unfolding encode_kick kick_reason
encode_kick-layout k = simp layouts

pub encode_snapshot-layout :
    (s : Snapshot) → encode_snapshot s ≡ header [] type_snapshot ++ snapshot_layout s
unfolding encode_snapshot u32 u16
encode_snapshot-layout s = simp layouts
