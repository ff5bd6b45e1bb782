-- ===== src/Protocol/Ranges/Messages.antt =====
-- The decoders of internal/protocol/protocol.go on bytes that no encoder wrote: the ranges of what
-- they return.
use rbr_mp_server.Common.{
  ℕ, zero, suc, ◌+◌, ◌≤◌, ◌≡◌, refl, sym, subst, ◌∙◌, List, [], ◌∷◌, ◌++◌, some, Option-cases, inl,
  inr, arith, length, All, All-append, length-append,
}
use rbr_mp_server.Protocol.Types.{
  Error, Entity, IsU16, IsU32, IsTransform, IsTelemetry, IsWelcome, IsState, IsEntity, IsSnapshot,
}
use rbr_mp_server.Protocol.Header.{IsByte}
use rbr_mp_server.Protocol.Reader.{Reader, M}
use rbr_mp_server.Protocol.RoundTrip.Snapshot.{read_body_clean}
use rbr_mp_server.Protocol.Decode.{
  run, read_welcome, decode_welcome, read_state, decode_state, read_entity, read_entities,
  read_body, read_snapshot, decode_snapshot,
}
use rbr_mp_server.Protocol.Ranges.{
  Yields, Yields-return, Yields-bind, Any, Yields-u16, Yields-u32, Yields-name, Yields-transform,
  Yields-telemetry,
}

Yields-IsWelcome : Yields read_welcome IsWelcome
unfolding read_welcome
Yields-IsWelcome = Yields-bind _ _ IsU32 IsWelcome Yields-u32 (λ _ i.
    Yields-bind _ _ IsU16 IsWelcome Yields-u16 (λ _ t.
      Yields-bind _ _ IsU16 IsWelcome Yields-u16 (λ _ e.
        Yields-bind _ _ IsU32 IsWelcome Yields-u32 (λ _ s.
          Yields-return IsWelcome _
            (record { player_id = i; tick_rate_hz = t; echo_delay_ms = e; server_time_ms = s })))))

Yields-IsState : Yields read_state IsState
unfolding read_state
Yields-IsState = Yields-bind _ _ IsU32 IsState Yields-u32 (λ _ i.
    Yields-bind _ _ IsU32 IsState Yields-u32 (λ _ s.
      Yields-bind _ _ IsU32 IsState Yields-u32 (λ _ c.
        Yields-bind _ _ IsTransform IsState Yields-transform (λ _ t.
          Yields-bind _ _ IsTelemetry IsState Yields-telemetry (λ _ l.
            Yields-return IsState _ (record {
              player_id = i;
              seq = s;
              client_time_ms = c;
              transform = t;
              telemetry = l;
            }))))))

Yields-entity : Yields read_entity IsEntity
unfolding read_entity
Yields-entity = Yields-bind _ _ IsU32 IsEntity Yields-u32 (λ _ i.
    Yields-bind _ _ IsU16 IsEntity Yields-u16 (λ _ f.
      Yields-bind _ _ IsU16 IsEntity Yields-u16 (λ _ _.
        Yields-bind _ _ Any IsEntity Yields-name (λ _ _.
          Yields-bind _ _ Any IsEntity Yields-name (λ _ _.
            Yields-bind _ _ IsTransform IsEntity Yields-transform (λ _ t.
              Yields-bind _ _ IsTelemetry IsEntity Yields-telemetry (λ _ l.
                Yields-bind _ _ IsU32 IsEntity Yields-u32 (λ _ s.
                  Yields-bind _ _ IsU16 IsEntity Yields-u16 (λ _ p.
                    Yields-bind _ _ IsU16 IsEntity Yields-u16 (λ _ _.
                      Yields-return IsEntity _ (record {
                        id = i;
                        flags = f;
                        transform = t;
                        telemetry = l;
                        sample_time_ms = s;
                        ping_ms = p;
                      })))))))))))

-- At most `n` entities, each in range.
record Few (n : ℕ) (es : List Entity) : Type 0 where
  few : length es ≤ n
  each : All IsEntity es

Few-more :
    (n : ℕ) (acc : List Entity) (e : Entity)
    → Few n acc
    → IsEntity e
    → Few (n + 1) (acc ++ (e ∷ []))
Few-more n acc e f h = record {
  few = omega (arith, f.few, length-append acc (e ∷ []));
  each = All-append IsEntity acc (e ∷ []) f.each (h, tt);
}

Few-at : (n m : ℕ) (es : List Entity) → n ≤ m → Few n es → Few m es
Few-at n m es le f = record { few = omega (arith, f.few); each = f.each }

Yields-entities :
    (n k : ℕ) (acc : List Entity) → Few k acc → Yields (read_entities n acc) (Few (k + n))
unfolding read_entities
Yields-entities zero k acc f = record { on = λ r _. (Few-at k _ acc (omega arith) f, refl) }
Yields-entities (suc n) k acc f = record {
  on = λ r bytes.
      let (h, same) = Yields-entity.on r bytes in
      let bytes' : All IsByte (read_entity r).1.b = subst (All IsByte) (sym same) bytes in
      let (g, same') =
        (Yields-entities n (k + 1) (acc ++ ((read_entity r).0 ∷ [])) (Few-more k acc _ f h)).on
          (read_entity r).1 bytes' in
      elim (Option-cases (read_entity r).1.err) [
        | inr (x, p) ↦ rw (p, read_entities) (Few-at k _ acc (omega arith) f, same)
        | inl p ↦ rw (p, read_entities) (Few-at (k + 1 + n) _ _ (omega arith) g, same' ∙ same)
      ];
}

read_body_error : (n : ℕ) (r : Reader) (e : Error) → r.err ≡ some e → read_body n r ≡ ([], r)
unfolding read_body
read_body_error n r e p = ground arith

Yields-body : (n : ℕ) → Yields (read_body n) (Few n)
Yields-body n = record {
  on = λ r bytes. elim (Option-cases r.err) [
    | inr (x, p) ↦ rw (read_body_error n r x p) (record { few = omega arith; each = tt }, refl)
    | inl p ↦
        let (g, same) =
          (Yields-entities n 0 [] (record { few = omega arith; each = tt })).on r bytes in
        rw (read_body_clean n r p) (Few-at (0 + n) n _ (omega arith) g, same)
  ];
}

Yields-IsSnapshot : Yields read_snapshot IsSnapshot
unfolding read_snapshot
Yields-IsSnapshot = Yields-bind _ _ IsU32 IsSnapshot Yields-u32 (λ _ t.
    Yields-bind _ _ IsU32 IsSnapshot Yields-u32 (λ _ l.
      Yields-bind _ _ IsU16 IsSnapshot Yields-u16 (λ n h.
        Yields-bind _ _ IsU16 IsSnapshot Yields-u16 (λ _ p.
          Yields-bind _ _ (Few n) IsSnapshot (Yields-body n) (λ _ es.
            Yields-return IsSnapshot _ (record {
              server_time_ms = t;
              last_client_time_ms = l;
              self_ping_ms = p;
              few = omega (arith, es.few, h);
              entities = es.each;
            }))))))

run-Yields :
    {A : Type 0} (m : M A) (P : A → Type 0) (b : List ℕ) → Yields m P → All IsByte b → P (run m b).0
unfolding run
run-Yields m P b y bytes = (y.on _ bytes).0

pub decode_state-IsState : (b : List ℕ) → All IsByte b → IsState (decode_state b).0
unfolding decode_state
decode_state-IsState b bytes = run-Yields read_state IsState b Yields-IsState bytes

-- Whatever bytes arrive, cut short, too long or made up, the Welcome, the State and the Snapshot
-- that are decoded from them have every number in the range of its Go type and every array of
-- floats in its size, with an error or without, and a Snapshot has fewer than 2 ^ 16 entities.
pub decode-ranges :
    (b : List ℕ)
    → All IsByte b
    → IsWelcome (decode_welcome b).0 × IsState (decode_state b).0 × IsSnapshot (decode_snapshot b).0
unfolding decode_welcome decode_snapshot
decode-ranges b bytes = (
  run-Yields read_welcome IsWelcome b Yields-IsWelcome bytes,
  decode_state-IsState b bytes,
  run-Yields read_snapshot IsSnapshot b Yields-IsSnapshot bytes,
)
