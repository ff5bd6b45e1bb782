-- ===== src/Protocol/RoundTrip/Snapshot.antt =====
-- EncodeSnapshot and DecodeSnapshot: the entity loop.
use rbr_mp_server.Common.{
  ℕ, suc, ◌%◌, ◌^◌, ◌≡◌, sym, ◌∙◌, List, [], ◌∷◌, ◌++◌, map, none, arith, length, append_assoc,
  append-nil, All,
}
use rbr_mp_server.Protocol.Types.{Entity, Snapshot, IsEntity, IsSnapshot, name_len}
use rbr_mp_server.Protocol.Encode.{encode_snapshot}
use rbr_mp_server.Protocol.Writer.{le16}
use rbr_mp_server.Protocol.Reader.{Reader, u16}
use rbr_mp_server.Protocol.Decode.{
  decode_snapshot, read_entity, read_entities, read_body, read_snapshot,
}
use rbr_mp_server.Protocol.Layout.{entity_layout, entities_layout, encode_snapshot-layout}
use rbr_mp_server.Protocol.Reads.{
  Reads, Reads-bind, Reads-return, Reads-u16, Reads-u32, Reads-transform, Reads-telemetry,
}
use rbr_mp_server.Protocol.FixedText.{wire_text, Reads-name}
use rbr_mp_server.Protocol.RoundTrip.{run-Reads}

-- An entity as it is received: its texts are those that the wire carries.
abbrev pub wire_entity : Entity → Entity
wire_entity e = record e { name = wire_text name_len e.name; car = wire_text name_len e.car }

Reads-entity : (e : Entity) → IsEntity e → Reads read_entity (entity_layout e) (wire_entity e)
unfolding read_entity
Reads-entity e h = Reads-bind _ _ (Reads-u32 e.id h.id) (
    Reads-bind _ _ (Reads-u16 e.flags h.flags) (
      Reads-bind _ _ (Reads-u16 0 (omega arith)) (
        Reads-bind _ _ (Reads-name e.name) (
          Reads-bind _ _ (Reads-name e.car) (
            Reads-bind _ _ (Reads-transform e.transform h.transform) (
              Reads-bind _ _ (Reads-telemetry e.telemetry h.telemetry) (
                Reads-bind _ _ (Reads-u32 e.sample_time_ms h.sample_time_ms) (
                  Reads-bind _ _ (Reads-u16 e.ping_ms h.ping_ms)
                    (Reads-bind _ _ (Reads-u16 0 (omega arith)) (Reads-return _))))))))))

-- One round of the loop in which the entity was read without an error.
read_entities_step :
    (n : ℕ) (acc : List Entity) (r : Reader)
    → (read_entity r).1.err ≡ none
    → read_entities (suc n) acc r
      ≡ read_entities n (acc ++ ((read_entity r).0 ∷ [])) (read_entity r).1
unfolding read_entities
read_entities_step n acc r h = rw (h, read_entities)

Reads-entities :
    (es acc : List Entity)
    → All IsEntity es
    → Reads (read_entities (length es) acc) (entities_layout es) (acc ++ map wire_entity es)
Reads-entities [] acc h = record {
  on = λ r rest at. unfold read_entities in (sym (append-nil acc), at);
}
Reads-entities (e ∷ es) acc h = record {
  on = λ r rest at.
      let (v, at') = (Reads-entity e h.0).on r (entities_layout es ++ rest) (record {
        bytes = at.bytes ∙ append_assoc (entity_layout e) (entities_layout es) rest;
        clean = at.clean;
      }) in
      let (w, at'') =
        (Reads-entities es (acc ++ (wire_entity e ∷ [])) h.1).on (read_entity r).1 rest at' in
      rw (read_entities_step (length es) acc r at'.clean, v)
        (w ∙ append_assoc acc (wire_entity e ∷ []) (map wire_entity es), at'');
}

pub read_body_clean : (n : ℕ) (r : Reader) → r.err ≡ none → read_body n r ≡ read_entities n [] r
unfolding read_body
read_body_clean n r h = ground arith

Reads-body :
    (es : List Entity)
    → All IsEntity es
    → Reads (read_body (length es)) (entities_layout es) (map wire_entity es)
Reads-body es h = record {
  on = λ r rest at.
      rw (read_body_clean (length es) r at.clean) ((Reads-entities es [] h).on r rest at);
}

-- A Snapshot whose numbers fit their Go types and that has fewer than 2 ^ 16 entities comes back,
-- whatever bytes follow: every entity stands in its place, with its name and car as `wire_text`
-- cuts them.
pub decode_snapshot-encode_snapshot :
    (s : Snapshot) (rest : List ℕ)
    → IsSnapshot s
    → decode_snapshot (encode_snapshot s ++ rest)
      ≡ (record s { entities = map wire_entity s.entities }, none)
unfolding decode_snapshot read_snapshot
decode_snapshot-encode_snapshot s rest h = rw (encode_snapshot-layout s) (
    run-Reads _ _ rest (
      Reads-bind _ _ (Reads-u32 s.server_time_ms h.server_time_ms) (
        Reads-bind _ _ (Reads-u32 s.last_client_time_ms h.last_client_time_ms) (
          Reads-bind _ _ count (
            Reads-bind _ _ (Reads-u16 s.self_ping_ms h.self_ping_ms)
              (Reads-bind _ _ (Reads-body s.entities h.entities) (Reads-return _)))))))
  where
    fits : length s.entities % 2 ^ 16 ≡ length s.entities
    fits = omega (arith, h.few)

    count : Reads u16 (le16 (length s.entities % 2 ^ 16)) (length s.entities)
    count = rw fits (Reads-u16 (length s.entities) h.few)
