-- ===== src/Protocol/Sizes.antt =====
-- The sizes of the datagrams that the encoders of internal/protocol/protocol.go write.
use rbr_mp_server.Common.{ℕ, ◌+◌, ◌*◌, ◌≡◌, refl, List, [], ◌∷◌, arith, length, All, length-append}
use rbr_mp_server.Protocol.Types.{
  Transform, Telemetry, Hello, State, Entity, Chat, Snapshot, Kick, IsTransform, IsTelemetry,
  IsEntity,
}
use rbr_mp_server.Protocol.Writer.{header, u16, u32, le16, le32}
use rbr_mp_server.Protocol.Encode.{
  encode_hello, encode_state, encode_chat, encode_kick, encode_snapshot,
}
use rbr_mp_server.Protocol.Layout.{
  floats_layout, transform_layout, telemetry_layout, entity_layout, entities_layout,
  encode_hello-layout, encode_state-layout, encode_chat-layout, encode_kick-layout,
  encode_snapshot-layout,
}
use rbr_mp_server.Protocol.FixedText.{length-text_buf}

pub length-header : (t : ℕ) → length (header [] t) ≡ 8
unfolding header u16 u32 le16 le32
length-header t = refl

pub length-le16 : (v : ℕ) → length (le16 v) ≡ 2
unfolding le16
length-le16 v = refl

pub length-le32 : (v : ℕ) → length (le32 v) ≡ 4
unfolding le32
length-le32 v = refl

length-floats_layout : (vs : List ℕ) → length (floats_layout vs) ≡ 4 * length vs
length-floats_layout [] = refl
length-floats_layout (v ∷ vs) =
    omega (arith, length-append (le32 v) (floats_layout vs), length-le32 v, length-floats_layout vs)

ruleset lengths =
    (length-append, length-le16, length-le32, length-floats_layout, length-text_buf, length-header)

length-transform_layout : (t : Transform) → IsTransform t → length (transform_layout t) ≡ 48
length-transform_layout t h = simp lengths (omega (arith, h.position.size, h.rot.size))

length-telemetry_layout : (t : Telemetry) → IsTelemetry t → length (telemetry_layout t) ≡ 44
length-telemetry_layout t h = simp lengths (omega (arith, h.vel.size, h.wheel_omega.size))

pub length-encode_hello : (h : Hello) → length (encode_hello h) ≡ 56
length-encode_hello h = rw (encode_hello-layout h) (simp lengths (omega arith))

pub length-encode_state :
    (s : State) → IsTransform s.transform → IsTelemetry s.telemetry → length (encode_state s) ≡ 112
length-encode_state s t l = rw (encode_state-layout s) (
    simp
      (
        length-transform_layout s.transform t,
        length-telemetry_layout s.telemetry l,
        length-header,
        length-append,
        length-le32,
      )
      (omega arith))

pub length-encode_chat : (c : Chat) → length (encode_chat c) ≡ 164
length-encode_chat c = rw (encode_chat-layout c) (simp lengths (omega arith))

pub length-encode_kick : (k : Kick) → length (encode_kick k) ≡ 72
length-encode_kick k = rw (encode_kick-layout k) (simp lengths (omega arith))

length-entity_layout : (e : Entity) → IsEntity e → length (entity_layout e) ≡ 156
length-entity_layout e h =
    simp
      (
        length-transform_layout e.transform h.transform,
        length-telemetry_layout e.telemetry h.telemetry,
        length-append,
        length-le16,
        length-le32,
        length-text_buf,
      )
      (omega arith)

length-entities_layout :
    (es : List Entity) → All IsEntity es → length (entities_layout es) ≡ 156 * length es
length-entities_layout [] h = refl
length-entities_layout (e ∷ es) h = omega (
  arith,
  length-append (entity_layout e) (entities_layout es),
  length-entity_layout e h.0,
  length-entities_layout es h.1,
)

pub length-encode_snapshot :
    (s : Snapshot)
    → All IsEntity s.entities
    → length (encode_snapshot s) ≡ 20 + 156 * length s.entities
length-encode_snapshot s h = rw (encode_snapshot-layout s) (
    simp
      (length-append, length-le16, length-le32, length-header, length-entities_layout s.entities h)
      (omega arith))

-- The fixed sizes of the wire protocol: 56 bytes for every Hello, 164 for every Chat and 72 for
-- every Kick, 112 for a State and 20 + 156 n for a Snapshot of n entities, where the arrays of
-- floats have their sizes.
pub length-encode :
    (h : Hello) (c : Chat) (k : Kick) (s : State) (p : Snapshot)
    → IsTransform s.transform
    → IsTelemetry s.telemetry
    → All IsEntity p.entities
    → (length (encode_hello h) ≡ 56)
      × (length (encode_chat c) ≡ 164)
      × (length (encode_kick k) ≡ 72)
      × (length (encode_state s) ≡ 112)
      × (length (encode_snapshot p) ≡ 20 + 156 * length p.entities)
length-encode h c k s p t l es = (
  length-encode_hello h,
  length-encode_chat c,
  length-encode_kick k,
  length-encode_state s t l,
  length-encode_snapshot p es,
)
