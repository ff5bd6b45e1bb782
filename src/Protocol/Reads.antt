-- ===== src/Protocol/Reads.antt =====
-- What a read returns on the bytes that were written for it: the laws of the reader's methods.
use rbr_mp_server.Common.{
  ℕ, zero, suc, ◌+◌, ◌≤◌, ◌≡◌, refl, sym, ap, subst, ◌∙◌, List, [], ◌∷◌, ◌++◌, none, arith, length,
  take, drop, length-append, length-drop, take-all, drop-all, drop-drop, append_assoc,
}
use rbr_mp_server.Common.Int.{ℤ, IsI32, to_u32, to_u32-lt, to_i32-to_u32}
use rbr_mp_server.Protocol.Types.{
  Transform, Telemetry, IsU16, IsU32, IsFloats, IsTransform, IsTelemetry,
}
use rbr_mp_server.Protocol.Writer.{le16, le32}
use rbr_mp_server.Protocol.Reader.{
  Reader, M, ◌>>=◌, return, get16, get32, read, u16, u32, i32, f32, floats, transform, telemetry,
}
use rbr_mp_server.Protocol.Layout.{floats_layout, transform_layout, telemetry_layout}

-- The reader has met no error, and the bytes at its cursor are these.
pub record At (r : Reader) (xs : List ℕ) : Type 0 where
  pub bytes : drop r.i r.b ≡ xs
  pub clean : r.err ≡ none

-- On the bytes `xs`, whatever follows them, the read returns `v` and stops behind them.
pub record Reads {A : Type 0} (m : M A) (xs : List ℕ) (v : A) : Type 0 where
  pub on : (r : Reader) (rest : List ℕ) → At r (xs ++ rest) → ((m r).0 ≡ v) × At (m r).1 rest

pub Reads-return : {A : Type 0} (v : A) → Reads (return v) [] v
unfolding return
Reads-return v = record { on = λ r rest at. (refl, at) }

pub Reads-bind :
    {A B : Type 0} (m : M A) (f : A → M B) {xs ys : List ℕ} {v : A} {w : B}
    → Reads m xs v
    → Reads (f v) ys w
    → Reads (m >>= f) (xs ++ ys) w
unfolding ◌>>=◌
Reads-bind {B} m f {xs} {ys} {v} {w} h k = record {
  on = λ r rest at. after r rest (
      h.on r (ys ++ rest)
        (record { bytes = at.bytes ∙ append_assoc xs ys rest; clean = at.clean }));
}
  where
    after :
        (r : Reader) (rest : List ℕ)
        → ((m r).0 ≡ v) × At (m r).1 (ys ++ rest)
        → ((f (m r).0 (m r).1).0 ≡ w) × At (f (m r).0 (m r).1).1 rest
    after r rest (e, a) = rw e (k.on (m r).1 rest a)

-- The value is given by an equal one.
pub Reads-map :
    {A B : Type 0} (m : M A) (f : A → B) {xs : List ℕ} {v : A} {w : B}
    → f v ≡ w
    → Reads m xs v
    → Reads (m >>= λ a. return (f a)) xs w
unfolding ◌>>=◌ return
Reads-map m f e h = record { on = λ r rest at. let (e', a) = h.on r rest at in (ap f e' ∙ e, a) }

room :
    (r : Reader) (n : ℕ) (xs rest : List ℕ)
    → length xs ≡ n
    → 1 ≤ n
    → At r (xs ++ rest)
    → r.i + n ≤ length r.b
room r n xs rest size pos at =
    omega (arith, ap length at.bytes, length-drop r.i r.b, length-append xs rest)

pub read_fits :
    {A : Type 0} (n : ℕ) (d : A) (get : List ℕ → A) (r : Reader)
    → r.err ≡ none
    → r.i + n ≤ length r.b
    → read n d get r ≡ (get (take n (drop r.i r.b)), record r { i = r.i + n })
unfolding read
read_fits n d get r clean fits = ground arith

pub Reads-read :
    {A : Type 0} (n : ℕ) (d : A) (get : List ℕ → A) (xs : List ℕ)
    → length xs ≡ n
    → 1 ≤ n
    → Reads (read n d get) xs (get xs)
Reads-read n d get xs size pos = record {
  on = λ r rest at. rw (read_fits n d get r at.clean (room r n xs rest size pos at)) (
    ap get (rw at.bytes (take-all xs rest n (sym size))),
    record {
      bytes = sym (drop-drop r.i n r.b) ∙ ap (drop n) at.bytes ∙ drop-all xs rest n (sym size);
      clean = at.clean;
    },
  );
}

get16-le16 : (v : ℕ) → IsU16 v → get16 (le16 v) ≡ v
unfolding get16 le16
get16-le16 v h = omega arith

get32-le32 : (v : ℕ) → IsU32 v → get32 (le32 v) ≡ v
unfolding get32 le32
get32-le32 v h = omega arith

pub Reads-u16 : (v : ℕ) → IsU16 v → Reads u16 (le16 v) v
unfolding u16 le16
Reads-u16 v h =
    subst (Reads u16 (le16 v)) (get16-le16 v h) (Reads-read 2 0 get16 (le16 v) refl (omega arith))

pub Reads-u32 : (v : ℕ) → IsU32 v → Reads u32 (le32 v) v
unfolding u32 le32
Reads-u32 v h =
    subst (Reads u32 (le32 v)) (get32-le32 v h) (Reads-read 4 0 get32 (le32 v) refl (omega arith))

pub Reads-f32 : (v : ℕ) → IsU32 v → Reads f32 (le32 v) v
unfolding f32
Reads-f32 = Reads-u32

pub Reads-i32 : (v : ℤ) → IsI32 v → Reads i32 (le32 (to_u32 v)) v
unfolding i32
Reads-i32 v h = Reads-map _ _ (to_i32-to_u32 v h) (Reads-u32 (to_u32 v) (to_u32-lt v))

pub Reads-floats : (n : ℕ) (vs : List ℕ) → IsFloats n vs → Reads (floats n) (floats_layout vs) vs
unfolding floats
Reads-floats zero [] h = Reads-return []
Reads-floats zero (v ∷ vs) h = absurd (omega arith)
Reads-floats (suc n) [] h = absurd (omega arith)
Reads-floats (suc n) (v ∷ vs) h =
    Reads-bind _ _ (Reads-f32 v h.words.0)
      (Reads-map _ _ refl (Reads-floats n vs (record { size = omega arith; words = h.words.1 })))

pub Reads-transform : (t : Transform) → IsTransform t → Reads transform (transform_layout t) t
unfolding transform
Reads-transform t h =
    Reads-bind _ _ (Reads-floats 3 t.position h.position)
      (Reads-bind _ _ (Reads-floats 9 t.rot h.rot) (Reads-return t))

pub Reads-telemetry : (t : Telemetry) → IsTelemetry t → Reads telemetry (telemetry_layout t) t
unfolding telemetry
Reads-telemetry t h = Reads-bind _ _ (Reads-floats 3 t.vel h.vel) (
    Reads-bind _ _ (Reads-f32 t.speed h.speed) (
      Reads-bind _ _ (Reads-f32 t.rpm h.rpm) (
        Reads-bind _ _ (Reads-f32 t.steer h.steer) (
          Reads-bind _ _ (Reads-i32 t.gear h.gear)
            (Reads-bind _ _ (Reads-floats 4 t.wheel_omega h.wheel_omega) (Reads-return t))))))
