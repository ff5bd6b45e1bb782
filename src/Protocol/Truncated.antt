-- ===== src/Protocol/Truncated.antt =====
-- DecodeSnapshot of internal/protocol/protocol.go on a datagram that was cut short.
use native.Mathlib.Decide.{dec_le}
use rbr_mp_server.Common.{
  ℕ, zero, suc, ◌+◌, ◌*◌, ◌-◌, ◌%◌, ◌^◌, ◌≤◌, ◌<◌, ◌≡◌, refl, sym, ap, subst, ◌∙◌, List, [], ◌∷◌,
  ◌++◌, some, arith, length, take, drop, length-append, length-drop, length-take, drop-drop,
  append_assoc, append-nil,
}
use rbr_mp_server.Protocol.Types.{Entity, Snapshot, IsSnapshot, short, type_snapshot}
use rbr_mp_server.Protocol.Writer.{header, le16, le32}
use rbr_mp_server.Protocol.Writer
use rbr_mp_server.Protocol.Reader.{M, ◌>>=◌, return, u16}
use rbr_mp_server.Protocol.Encode.{encode_snapshot}
use rbr_mp_server.Protocol.Decode.{
  run, start, read_entity, read_entities, read_body, read_snapshot, decode_snapshot,
}
use rbr_mp_server.Protocol.Layout.{entities_layout, encode_snapshot-layout}
use rbr_mp_server.Protocol.Reads.{At, Reads, Reads-u16, Reads-u32}
use rbr_mp_server.Protocol.Takes.{
  Outcome, Takes, Takes-bind, Takes-map, Takes-u16, Takes-u32, Takes-name, Takes-transform,
  Takes-telemetry,
}
use rbr_mp_server.Protocol.Sizes.{length-header, length-le16, length-le32}
use rbr_mp_server.Protocol.RoundTrip.Snapshot.{read_body_clean}

-- With these bytes left, and no others, the read ends in ErrShort.
record Breaks {A : Type 0} (m : M A) (ys : List ℕ) : Type 0 where
  on : (r : _) → At r ys → (m r).1.err ≡ some short

Breaks-bind :
    {A B : Type 0} (m : M A) (f : A → M B) {xs ys : List ℕ} {v : A}
    → Reads m xs v
    → Breaks (f v) ys
    → Breaks (m >>= f) (xs ++ ys)
unfolding ◌>>=◌
Breaks-bind m f {xs} {ys} {v} h k = record {
  on = λ r at.
      let (e, at') = h.on r ys at in
      subst (λ a. (f a (m r).1).1.err ≡ some short) (sym e) (k.on (m r).1 at');
}

Breaks-map :
    {A B : Type 0} (m : M A) (f : A → B) {ys : List ℕ}
    → Breaks m ys
    → Breaks (m >>= λ a. return (f a)) ys
unfolding ◌>>=◌ return
Breaks-map m f h = record { on = λ r at. h.on r at }

Takes-entity : Takes read_entity 156
unfolding read_entity
Takes-entity = Takes-bind _ _ 4 152 (omega arith) Takes-u32 λ _.
    Takes-bind _ _ 2 150 (omega arith) Takes-u16 λ _.
      Takes-bind _ _ 2 148 (omega arith) Takes-u16 λ _.
        Takes-bind _ _ 24 124 (omega arith) Takes-name λ _.
          Takes-bind _ _ 24 100 (omega arith) Takes-name λ _.
            Takes-bind _ _ 48 52 (omega arith) Takes-transform λ _.
              Takes-bind _ _ 44 8 (omega arith) Takes-telemetry λ _.
                Takes-bind _ _ 4 4 (omega arith) Takes-u32
                  λ _. Takes-bind _ _ 2 2 (omega arith) Takes-u16 λ _. Takes-map _ _ 2 Takes-u16

-- The loop over the entities fails where the bytes of one are missing.
Breaks-entities :
    (n : ℕ) (acc : List Entity) (ys : List ℕ)
    → length ys < 156 * n
    → Breaks (read_entities n acc) ys
unfolding read_entities
Breaks-entities zero acc ys h = absurd (omega arith)
Breaks-entities (suc n) acc ys h = record {
  on = λ r at.
      let o : Outcome r (read_entity r).1 156 = Takes-entity.on r in
      let left : length ys ≡ length r.b - r.i = sym (ap length at.bytes) ∙ length-drop r.i r.b in
      elim (dec_le 156 (length ys)) [
        | no miss ↦
            let e = o.lacks (omega arith) at.clean (omega (arith, left)) in rw (e, read_entities) e
        | yes fit ↦
            let (clean, i) = o.fits at.clean (omega (arith, left)) in
            let rest =
              Breaks-entities n (acc ++ ((read_entity r).0 ∷ [])) (drop 156 ys)
                (omega (arith, length-drop 156 ys)) in
            rw (clean, read_entities)
              (rest.on (read_entity r).1 (record {
                bytes = rw (o.same, i) (sym (drop-drop r.i 156 r.b) ∙ ap (drop 156) at.bytes);
                clean = clean;
              }))
      ];
}

Breaks-body : (n : ℕ) (ys : List ℕ) → length ys < 156 * n → Breaks (read_body n) ys
Breaks-body n ys h = record {
  on = λ r at. rw (read_body_clean n r at.clean) ((Breaks-entities n [] ys h).on r at);
}

-- The part of a snapshot before its entities.
abbrev head : Snapshot → List ℕ
head s =
    header [] type_snapshot
    ++ (le32 s.server_time_ms
        ++ (le32 s.last_client_time_ms
            ++ (le16 (length s.entities % 2 ^ 16) ++ le16 s.self_ping_ms)))

-- The same, with the bytes `ys` of the entities that are left.
abbrev cut_to : Snapshot → List ℕ → List ℕ
cut_to s ys =
    header [] type_snapshot
    ++ (le32 s.server_time_ms
        ++ (le32 s.last_client_time_ms
            ++ (le16 (length s.entities % 2 ^ 16) ++ (le16 s.self_ping_ms ++ ys))))

take-past :
    (xs ys : List ℕ) (n : ℕ) → length xs ≤ n → take n (xs ++ ys) ≡ xs ++ take (n - length xs) ys
take-past [] ys n h = ap (λ k. take k ys) (omega arith)
take-past (x ∷ xs) ys zero h = absurd (omega arith)
take-past (x ∷ xs) ys (suc n) h =
    ap (◌∷◌ x) (take-past xs ys n (omega arith) ∙ ap (λ k. xs ++ take k ys) (omega arith))

length-head : (s : Snapshot) → length (head s) ≡ 20
length-head s = simp (length-append, length-le16, length-le32, length-header) (omega arith)

-- What is left of a snapshot in a buffer that holds the part before its entities.
pub take-encode_snapshot :
    (s : Snapshot) (n : ℕ)
    → 20 ≤ n
    → take n (encode_snapshot s) ≡ cut_to s (take (n - 20) (entities_layout s.entities))
take-encode_snapshot s n h =
    ap (take n) (whole ∙ joined (entities_layout s.entities))
    ∙ take-past (head s) (entities_layout s.entities) n (omega (arith, length-head s))
    ∙ ap (λ k. head s ++ take (n - k) (entities_layout s.entities)) (length-head s)
    ∙ sym (joined (take (n - 20) (entities_layout s.entities)))
  where
    whole : encode_snapshot s ≡ cut_to s (entities_layout s.entities)
    whole = encode_snapshot-layout s ∙ ap (cut_to s) (append-nil (entities_layout s.entities))

    joined : (ys : List ℕ) → cut_to s ys ≡ head s ++ ys
    joined ys = simp append_assoc

run-Breaks :
    {A : Type 0} (m : M A) (t : ℕ) (ys : List ℕ)
    → Breaks m ys
    → (run m (header [] t ++ ys)).1 ≡ some short
unfolding run header Writer.u16 Writer.u32 le16 le32
run-Breaks m t ys h = h.on (start (header [] t ++ ys)) (record { bytes = refl; clean = refl })

-- A buffer that holds the part before the entities, but not all of them.
pub decode_snapshot-take :
    (s : Snapshot) (n : ℕ)
    → IsSnapshot s
    → 20 ≤ n
    → n < 20 + 156 * length s.entities
    → (decode_snapshot (take n (encode_snapshot s))).1 ≡ some short
unfolding decode_snapshot read_snapshot
decode_snapshot-take s n h low high =
    let ys = take (n - 20) (entities_layout s.entities) in
    let few : length ys < 156 * length s.entities =
      omega (arith, length-take (n - 20) (entities_layout s.entities)) in
    rw (take-encode_snapshot s n low) (
      run-Breaks _ type_snapshot _ (
        Breaks-bind _ _ (Reads-u32 s.server_time_ms h.server_time_ms) (
          Breaks-bind _ _ (Reads-u32 s.last_client_time_ms h.last_client_time_ms) (
            Breaks-bind _ _ count (
              Breaks-bind _ _ (Reads-u16 s.self_ping_ms h.self_ping_ms)
                (Breaks-map _ _ (Breaks-body (length s.entities) ys few)))))))
  where
    fits : length s.entities % 2 ^ 16 ≡ length s.entities
    fits = omega (arith, h.few)

    count : Reads u16 (le16 (length s.entities % 2 ^ 16)) (length s.entities)
    count = rw fits (Reads-u16 (length s.entities) h.few)
