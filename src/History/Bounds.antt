-- ===== src/History/Bounds.antt =====
-- The invariants of the ring: strictly ascending receive times, and the hard cap on its length.
use native.Mathlib.Decide.{dec_lt}
use rbr_mp_server.Common.{
  ℕ, zero, suc, ◌-◌, ◌≤◌, ◌<◌, ◌≡◌, refl, sym, subst, inl, inr, List, [], ◌∷◌, ◌++◌, none, some,
  if◌then◌else◌, ltb, arith, length, drop, get_elem?, length-append, length-drop, Option-cases,
}
use rbr_mp_server.Clock.{Time}
use rbr_mp_server.History.Sample.{Sample}
use rbr_mp_server.History.Ring.{
  History, default_max_len, new_history, last, older, dropped, push, add, latest,
}

-- The receive times ascend strictly, from above `t` on.
abbrev pub Ascends : Time → List Sample → Type 0
Ascends t [] = Unit {0}
Ascends t (s ∷ ss) = (t < s.recv_at) × Ascends s.recv_at ss

abbrev pub IsSorted : List Sample → Type 0
IsSorted [] = Unit {0}
IsSorted (s ∷ ss) = Ascends s.recv_at ss

pub record IsHistory (h : History) : Type 0 where
  pub sorted : IsSorted h.samples
  pub cap : h.max_len ≡ default_max_len
  pub bounded : length h.samples ≤ default_max_len

Ascends-IsSorted : (t : ℕ) (ss : List Sample) → Ascends t ss → IsSorted ss
Ascends-IsSorted t [] h = tt
Ascends-IsSorted t (s ∷ ss) h = h.1

drop-IsSorted : (n : ℕ) (ss : List Sample) → IsSorted ss → IsSorted (drop n ss)
drop-IsSorted zero ss h = h
drop-IsSorted (suc n) [] h = tt
drop-IsSorted (suc n) (s ∷ ss) h = drop-IsSorted n ss (Ascends-IsSorted s.recv_at ss h)

append-IsSorted :
    (ss : List Sample) (newest s : Sample)
    → IsSorted ss
    → last ss ≡ some newest
    → newest.recv_at < s.recv_at
    → IsSorted (ss ++ (s ∷ []))
unfolding last
append-IsSorted [] newest s h e p = cc
append-IsSorted (a ∷ []) newest s h e p = ground arith
append-IsSorted (a ∷ b ∷ ss) newest s h e p = (h.0, append-IsSorted (b ∷ ss) newest s h.1 e p)

last-append : (ss : List Sample) (s : Sample) → last (ss ++ (s ∷ [])) ≡ some s
unfolding last
last-append [] s = refl
last-append (a ∷ []) s = refl
last-append (a ∷ b ∷ ss) s = last-append (b ∷ ss) s

last-drop :
    (n : ℕ) (ss : List Sample) (s : Sample)
    → last ss ≡ some s
    → n < length ss
    → last (drop n ss) ≡ some s
unfolding last
last-drop zero ss s e h = e
last-drop (suc n) [] s e h = cc
last-drop (suc n) (a ∷ []) s e h = absurd (omega arith)
last-drop (suc n) (a ∷ b ∷ ss) s e h = last-drop n (b ∷ ss) s e (omega arith)

pub last-none : (ss : List Sample) → last ss ≡ none → ss ≡ []
unfolding last
last-none [] e = refl
last-none (a ∷ []) e = cc
last-none (a ∷ b ∷ ss) e = cc (last-none (b ∷ ss) e)

older-le : (cutoff : Time) (ss : List Sample) → older cutoff ss ≤ length ss
unfolding older
older-le cutoff [] = omega arith
older-le cutoff (s ∷ ss) = ground (arith, older-le cutoff ss)

-- The pruning leaves at least one sample, and at most the cap.
dropped_bounds :
    (cutoff : Time) (max_len : ℕ) (ss : List Sample)
    → 0 < length ss
    → 0 < max_len
    → (dropped cutoff max_len ss < length ss) × (length ss - dropped cutoff max_len ss ≤ max_len)
unfolding dropped
dropped_bounds cutoff max_len ss h p = ground (arith, older-le cutoff ss)

push-bounded :
    (h : History) (s : Sample)
    → h.max_len ≡ default_max_len
    → length (push h s).samples ≤ default_max_len
unfolding push
push-bounded h s cap =
    let ss = h.samples ++ (s ∷ []) in
    let k = dropped (s.recv_at - h.max_age) h.max_len ss in
    omega (
      arith,
      length-append h.samples (s ∷ []),
      length-drop k ss,
      dropped_bounds (s.recv_at - h.max_age) h.max_len ss
          (omega (arith, length-append h.samples (s ∷ []))) (omega (arith, cap)),
    )

push-IsHistory :
    (h : History) (s : Sample)
    → IsHistory h
    → IsSorted (h.samples ++ (s ∷ []))
    → IsHistory (push h s)
push-IsHistory h s v sorted = record {
  sorted =
      unfold push in
      drop-IsSorted (dropped (s.recv_at - h.max_age) h.max_len (h.samples ++ (s ∷ []))) _ sorted;
  cap = unfold push in v.cap;
  bounded = push-bounded h s v.cap;
}

pub new_history-IsHistory : (max_age : ℕ) → IsHistory (new_history max_age)
unfolding new_history
new_history-IsHistory max_age = record { sorted = tt; cap = refl; bounded = omega arith }

-- The three branches of `add`.
pub add_empty : (h : History) (s : Sample) → last h.samples ≡ none → add h s ≡ push h s
unfolding add
add_empty h s e = simp (e, add)

pub add_later :
    (h : History) (s newest : Sample)
    → last h.samples ≡ some newest
    → newest.recv_at < s.recv_at
    → add h s ≡ push h s
add_later h s newest e p = unfold add in ground arith

pub add_stale :
    (h : History) (s newest : Sample)
    → last h.samples ≡ some newest
    → s.recv_at ≤ newest.recv_at
    → add h s ≡ h
add_stale h s newest e p = unfold add in ground arith

-- `add` keeps a history well formed: its receive times ascend strictly and there are at most 4096.
pub add-IsHistory : (h : History) (s : Sample) → IsHistory h → IsHistory (add h s)
add-IsHistory h s v = elim (Option-cases (last h.samples)) [
  | inl e ↦ rw (add_empty h s e) (
      push-IsHistory h s v
        (subst (λ ss. IsSorted (ss ++ (s ∷ []))) (sym (last-none h.samples e)) tt))
  | inr (newest, e) ↦ elim (dec_lt newest.recv_at s.recv_at) [
    | yes p ↦
        rw (add_later h s newest e p)
          (push-IsHistory h s v (append-IsSorted h.samples newest s v.sorted e p))
    | no p ↦ rw (add_stale h s newest e (omega arith)) v
  ]
]

-- What `latest` returns after an accepted sample is that sample.
pub latest-push :
    (h : History) (s : Sample) → h.max_len ≡ default_max_len → latest (push h s) ≡ some s
unfolding push latest
latest-push h s cap =
    let ss = h.samples ++ (s ∷ []) in
    last-drop (dropped (s.recv_at - h.max_age) h.max_len ss) ss s (last-append h.samples s)
      (dropped_bounds (s.recv_at - h.max_age) h.max_len ss
        (omega (arith, length-append h.samples (s ∷ []))) (omega (arith, cap))).0

-- After `add` to a well-formed history the newest sample is the given one if it is later than all
-- held, and is the one held before otherwise.
pub latest-add :
    (h : History) (s : Sample)
    → IsHistory h
    → latest (add h s) ≡ elim (latest h) [
      | none ↦ some s
      | some newest ↦ if ltb newest.recv_at s.recv_at then some s else some newest
    ]
unfolding latest
latest-add h s v = elim (Option-cases (last h.samples)) [
  | inl e ↦ rw (add_empty h s e, e) (unfold latest in latest-push h s v.cap)
  | inr (newest, e) ↦ elim (dec_lt newest.recv_at s.recv_at) [
    | yes p ↦ rw (add_later h s newest e p) (ground (arith, latest-push h s v.cap))
    | no p ↦ rw (add_stale h s newest e (omega arith)) (ground arith)
  ]
]

-- The samples that the loop over the old ones counts are all before the cutoff.
pub older_prefix :
    (cutoff : Time) (ss : List Sample) (i : ℕ) (s : Sample)
    → i < older cutoff ss
    → get_elem? ss i ≡ some s
    → s.recv_at < cutoff
unfolding older
older_prefix cutoff [] i s h e = cc
older_prefix cutoff (a ∷ ss) zero s h e = ground arith
older_prefix cutoff (a ∷ ss) (suc i) s h e = ground (arith, older_prefix cutoff ss i s)
