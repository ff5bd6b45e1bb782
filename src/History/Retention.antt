-- ===== src/History/Retention.antt =====
-- What `Add` of internal/server/history.go keeps.
use native.Mathlib.Decide.{dec_lt}
use rbr_mp_server.Common.{
  ℕ, zero, suc, ◌+◌, ◌-◌, ◌≤◌, ◌<◌, ◌≡◌, refl, ap, ◌∙◌, List, [], ◌∷◌, ◌++◌, some, arith, length,
  drop, get_elem?, length-append,
}
use rbr_mp_server.Clock.{Time}
use rbr_mp_server.History.Sample.{Sample}
use rbr_mp_server.History.Ring.{History, older, dropped, push}
use rbr_mp_server.History.Bounds.{older_prefix}

get_elem?-drop : (k j : ℕ) (ss : List Sample) → get_elem? (drop k ss) j ≡ get_elem? ss (k + j)
get_elem?-drop zero j ss = ap (get_elem? ss) (omega arith)
get_elem?-drop (suc k) j [] = refl
get_elem?-drop (suc k) j (s ∷ ss) =
    let shift : suc (k + j) ≡ suc k + j = omega arith in
    get_elem?-drop k j ss ∙ ap (get_elem? (s ∷ ss)) shift

older-le_young :
    (cutoff : Time) (ss : List Sample) (i : ℕ) (x : Sample)
    → get_elem? ss i ≡ some x
    → cutoff ≤ x.recv_at
    → older cutoff ss ≤ i
older-le_young cutoff ss i x e young = elim (dec_lt i (older cutoff ss)) [
  | yes p ↦ absurd (omega (arith, older_prefix cutoff ss i x p e))
  | no p ↦ omega arith
]

dropped-le :
    (cutoff : Time) (m : ℕ) (ss : List Sample)
    → length ss ≤ m
    → dropped cutoff m ss ≤ older cutoff ss - 1
unfolding dropped
dropped-le cutoff m ss h = ground arith

held :
    (h : History) (s x : Sample) (i : ℕ)
    → dropped (s.recv_at - h.max_age) h.max_len (h.samples ++ (s ∷ [])) ≤ i
    → get_elem? (h.samples ++ (s ∷ [])) i ≡ some x
    → (j : ℕ) × (get_elem? (push h s).samples j ≡ some x)
unfolding push
held h s x i le e =
    let ss = h.samples ++ (s ∷ []) in
    let k = dropped (s.recv_at - h.max_age) h.max_len ss in
    let back : k + (i - k) ≡ i = omega arith in
    (i - k, get_elem?-drop k (i - k) ss ∙ ap (get_elem? ss) back ∙ e)

-- While the ring is below its cap, `push` keeps every sample from the one before the first young
-- sample on: with `y` at index `j` not older than `max_age`, any sample `x` at an index of at
-- least `j - 1` is still held. The indices count the new sample at the end.
pub push-keeps :
    (h : History) (s x y : Sample) (i j : ℕ)
    → length h.samples < h.max_len
    → get_elem? (h.samples ++ (s ∷ [])) i ≡ some x
    → get_elem? (h.samples ++ (s ∷ [])) j ≡ some y
    → s.recv_at ≤ y.recv_at + h.max_age
    → j ≤ i + 1
    → (k : ℕ) × (get_elem? (push h s).samples k ≡ some x)
push-keeps h s x y i j few ex ey young le =
    let ss = h.samples ++ (s ∷ []) in
    let cutoff = s.recv_at - h.max_age in
    held h s x i
      (omega (
        arith,
        dropped-le cutoff h.max_len ss (omega (arith, length-append h.samples (s ∷ []))),
        older-le_young cutoff ss j y ey (omega arith),
      ))
      ex
