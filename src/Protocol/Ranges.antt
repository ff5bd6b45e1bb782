-- ===== src/Protocol/Ranges.antt =====
-- The reads of internal/protocol/protocol.go on bytes that no encoder wrote: the ranges of what they
-- return.
pub mod Messages
use rbr_mp_server.Common.{
  ℕ, zero, suc, ◌+◌, ◌≤◌, ◌<◌, ◌≡◌, refl, sym, subst, ◌∙◌, List, [], ◌∷◌, ◌++◌, some, Option-cases,
  Bool-cases, inl, inr, arith, length, take, drop, get_or, ltb, All, All-append, length-append,
}
use rbr_mp_server.Common.Int.{IsI32, to_i32}
use rbr_mp_server.Protocol.Types.{
  Error, Entity, IsU16, IsU32, IsFloats, IsTransform, IsTelemetry, IsWelcome, IsState, IsEntity,
  IsSnapshot,
}
use rbr_mp_server.Protocol.Header.{IsByte}
use rbr_mp_server.Protocol.Reader.{
  Reader, M, ◌>>=◌, return, get16, get32, need, advance, read, u16, u32, i32, f32, name, chat_text,
  floats, transform, telemetry,
}
use rbr_mp_server.Protocol.RoundTrip.Snapshot.{read_body_clean}
use rbr_mp_server.Protocol.Decode.{
  run, read_welcome, decode_welcome, read_state, decode_state, read_entity, read_entities,
  read_body, read_snapshot, decode_snapshot,
}

-- On a datagram of bytes, wherever the cursor stands and whatever the error is, the read returns
-- a value that has the property, and leaves the datagram alone.
pub record Yields {A : Type 0} (m : M A) (P : A → Type 0) : Type 0 where
  pub on : (r : Reader) → All IsByte r.b → P (m r).0 × ((m r).1.b ≡ r.b)

pub Yields-return : {A : Type 0} (P : A → Type 0) (v : A) → P v → Yields (return v) P
unfolding return
Yields-return P v h = record { on = λ r _. (h, refl) }

pub Yields-bind :
    {A B : Type 0} (m : M A) (f : A → M B) (P : A → Type 0) (Q : B → Type 0)
    → Yields m P
    → ((a : A) → P a → Yields (f a) Q)
    → Yields (m >>= f) Q
unfolding ◌>>=◌
Yields-bind m f P Q h k = record {
  on = λ r bytes.
      let (p, same) = h.on r bytes in
      let (q, same') = (k (m r).0 p).on (m r).1 (subst (All IsByte) (sym same) bytes) in
      (q, same' ∙ same);
}

get_or-lt : (xs : List ℕ) (i : ℕ) → All IsByte xs → get_or xs i 0 < 256
get_or-lt [] i h = omega arith
get_or-lt (x ∷ xs) zero h = h.0
get_or-lt (x ∷ xs) (suc i) h = get_or-lt xs i h.1

All-take : (n : ℕ) (xs : List ℕ) → All IsByte xs → All IsByte (take n xs)
All-take zero xs h = tt
All-take (suc n) [] h = tt
All-take (suc n) (x ∷ xs) h = (h.0, All-take n xs h.1)

All-drop : (n : ℕ) (xs : List ℕ) → All IsByte xs → All IsByte (drop n xs)
All-drop zero xs h = h
All-drop (suc n) [] h = tt
All-drop (suc n) (x ∷ xs) h = All-drop n xs h.1

pub Yields-read :
    {A : Type 0} (n : ℕ) (d : A) (get : List ℕ → A) (P : A → Type 0)
    → P d
    → ((xs : List ℕ) → All IsByte xs → P (get xs))
    → Yields (read n d get) P
unfolding read need advance
Yields-read n d get P h k = record {
  on = λ r bytes. elim (Option-cases r.err) [
    | inr (e, p) ↦ rw p (h, refl)
    | inl p ↦ elim (Bool-cases (ltb (length r.b) (r.i + n))) [
      | inl q ↦ rw (p, q) (h, refl)
      | inr q ↦ rw (p, q) (k _ (All-take n _ (All-drop r.i r.b bytes)), refl)
    ]
  ];
}

pub get16-U16 : (xs : List ℕ) → All IsByte xs → IsU16 (get16 xs)
unfolding get16
get16-U16 xs h = omega (arith, get_or-lt xs 0 h, get_or-lt xs 1 h)

get32-U32 : (xs : List ℕ) → All IsByte xs → IsU32 (get32 xs)
unfolding get32
get32-U32 xs h =
    omega (arith, get_or-lt xs 0 h, get_or-lt xs 1 h, get_or-lt xs 2 h, get_or-lt xs 3 h)

to_i32-IsI32 : (w : ℕ) → IsU32 w → IsI32 (to_i32 w)
unfolding to_i32
to_i32-IsI32 w h = ground arith

pub Yields-u16 : Yields u16 IsU16
unfolding u16
Yields-u16 = Yields-read 2 0 get16 IsU16 (omega arith) get16-U16

pub Yields-u32 : Yields u32 IsU32
unfolding u32
Yields-u32 = Yields-read 4 0 get32 IsU32 (omega arith) get32-U32

Yields-f32 : Yields f32 IsU32
unfolding f32
Yields-f32 = Yields-u32

Yields-i32 : Yields i32 IsI32
unfolding i32
Yields-i32 =
    Yields-bind u32 _ IsU32 IsI32 Yields-u32 (λ v h. Yields-return IsI32 _ (to_i32-IsI32 v h))

-- A text has no range: it is cut by the size of its field.
abbrev pub Any : {A : Type 0} → A → Type 0
Any _ = ℕ

pub Yields-name : Yields name Any
unfolding name
Yields-name = Yields-read _ _ _ Any 0 (λ _ _. 0)

Yields-chat_text : Yields chat_text Any
unfolding chat_text
Yields-chat_text = Yields-read _ _ _ Any 0 (λ _ _. 0)

Yields-floats : (n : ℕ) → Yields (floats n) (IsFloats n)
unfolding floats
Yields-floats zero = Yields-return (IsFloats 0) [] (record { size = refl; words = tt })
Yields-floats (suc n) = Yields-bind f32 _ IsU32 (IsFloats (suc n)) Yields-f32 (λ v h.
    Yields-bind (floats n) _ (IsFloats n) (IsFloats (suc n)) (Yields-floats n) (λ vs hs.
      Yields-return (IsFloats (suc n)) (v ∷ vs)
        (record { size = omega (arith, hs.size); words = (h, hs.words) })))

pub Yields-transform : Yields transform IsTransform
unfolding transform
Yields-transform = Yields-bind _ _ (IsFloats 3) IsTransform (Yields-floats 3) (λ position p.
    Yields-bind _ _ (IsFloats 9) IsTransform (Yields-floats 9)
      (λ rot q. Yields-return IsTransform _ (record { position = p; rot = q })))

pub Yields-telemetry : Yields telemetry IsTelemetry
unfolding telemetry
Yields-telemetry = Yields-bind _ _ (IsFloats 3) IsTelemetry (Yields-floats 3) (λ _ vel.
    Yields-bind _ _ IsU32 IsTelemetry Yields-f32 (λ _ speed.
      Yields-bind _ _ IsU32 IsTelemetry Yields-f32 (λ _ rpm.
        Yields-bind _ _ IsU32 IsTelemetry Yields-f32 (λ _ steer.
          Yields-bind _ _ IsI32 IsTelemetry Yields-i32 (λ _ gear.
            Yields-bind _ _ (IsFloats 4) IsTelemetry (Yields-floats 4) (λ _ omegas.
              Yields-return IsTelemetry _ (record {
                vel = vel;
                speed = speed;
                rpm = rpm;
                steer = steer;
                gear = gear;
                wheel_omega = omegas;
              })))))))
