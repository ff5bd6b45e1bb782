-- ===== src/History/Bracket.antt =====
-- `At` of internal/server/history.go finds the two samples around the instant, for every history.
use native.Mathlib.Decide.{dec_lt}
use rbr_mp_server.Common.{
  ℕ, zero, suc, ◌+◌, ◌-◌, ◌/◌, ◌≤◌, ◌<◌, ◌≡◌, refl, ap, sym, subst, ◌∙◌, inl, inr, List, [], ◌∷◌,
  none, some, arith, length, get_elem?, Option-cases,
}
use rbr_mp_server.Clock.{Time, sub_time}
use rbr_mp_server.History.Sample.{Sample}
use rbr_mp_server.History.Ring.{History, last}
use rbr_mp_server.History.Bounds.{last-none}
use rbr_mp_server.History.Lerp.{Floats, lerp_sample}
use rbr_mp_server.History.Lookup.{
  Found, absent, found, search_after, fraction, between, bracket, at_bracket, at_time,
}

get_elem?-lt : (ss : List Sample) (i : ℕ) → i < length ss → (s : Sample) × (get_elem? ss i ≡ some s)
get_elem?-lt [] i h = absurd (omega arith)
get_elem?-lt (s ∷ ss) zero h = (s, refl)
get_elem?-lt (s ∷ ss) (suc i) h = get_elem?-lt ss i (omega arith)

-- A sample `a` at `i - 1` that is not after the instant, and a sample `b` at `i` that is.
record Splits (ss : List Sample) (at : Time) (i : ℕ) : Type 0 where
  a : Sample
  b : Sample
  low : get_elem? ss (i - 1) ≡ some a
  low_at : a.recv_at ≤ at
  high : get_elem? ss i ≡ some b
  high_at : at < b.recv_at

-- The search from `lo` to `hi` with such samples at `lo - 1` and `hi` ends between two of them.
search-Splits :
    (fuel : ℕ) (ss : List Sample) (at : Time) (lo hi : ℕ) (a b : Sample)
    → lo ≤ hi
    → hi ≤ lo + fuel
    → hi < length ss
    → get_elem? ss (lo - 1) ≡ some a
    → a.recv_at ≤ at
    → get_elem? ss hi ≡ some b
    → at < b.recv_at
    → (i : ℕ) × (search_after fuel ss at lo hi ≡ some i) × Splits ss at i
unfolding search_after
search-Splits zero ss at lo hi a b le full lt low low_at high high_at =
    let same : lo ≡ hi = omega arith in
    (
      lo,
      ground arith,
      record {
        a = a;
        b = b;
        low = low;
        low_at = low_at;
        high = subst (λ k. get_elem? ss k ≡ some b) (sym same) high;
        high_at = high_at;
      },
    )
search-Splits (suc fuel) ss at lo hi a b le full lt low low_at high high_at = elim (dec_lt lo hi) [
  | no p ↦
      let same : lo ≡ hi = omega arith in
      (
        lo,
        ground arith,
        record {
          a = a;
          b = b;
          low = low;
          low_at = low_at;
          high = subst (λ k. get_elem? ss k ≡ some b) (sym same) high;
          high_at = high_at;
        },
      )
  | yes p ↦
      let mid = (lo + hi) / 2 in
      let (m, at_mid) = get_elem?-lt ss mid (omega arith) in
      elim (dec_lt at m.recv_at) [
        | yes after ↦
            let (i, e, s) =
              search-Splits fuel ss at lo mid a m (omega arith) (omega arith) (omega arith) low
                low_at at_mid after in
            (i, ground arith, s)
        | no before ↦
            let back : suc mid - 1 ≡ mid = omega arith in
            let (i, e, s) =
              search-Splits fuel ss at (suc mid) hi m b (omega arith) (omega arith) lt
                (subst (λ k. get_elem? ss k ≡ some m) (sym back) at_mid) (omega arith) high
                high_at in
            (i, ground arith, s)
      ]
]

last-get_elem? :
    (ss : List Sample) (s : Sample) → last ss ≡ some s → get_elem? ss (length ss - 1) ≡ some s
unfolding last
last-get_elem? [] s e = cc
last-get_elem? (a ∷ []) s e = e
last-get_elem? (a ∷ b ∷ ss) s e =
    let shift : suc (suc (length ss)) - 1 ≡ suc (suc (length ss) - 1) = omega arith in
    rw shift (last-get_elem? (b ∷ ss) s e)

module _ (o : Floats) where
  -- What `At` answers: nothing before the first sample, the newest sample from its instant on, and
  -- the interpolation of two neighbours around the instant otherwise.
  pub data Answer (h : History) (at : Time) (r : Found) : Type 0 where
    before_all :
        r ≡ absent
        → ((s : Sample) → get_elem? h.samples 0 ≡ some s → at < s.recv_at)
        → Answer h at r
    frozen :
        (newest : Sample)
        → r ≡ found newest
        → last h.samples ≡ some newest
        → newest.recv_at ≤ at
        → Answer h at r
    inside :
        (i : ℕ) (a b : Sample)
        → r ≡ found (lerp_sample o a b (fraction o at a b))
        → get_elem? h.samples i ≡ some a
        → get_elem? h.samples (suc i) ≡ some b
        → a.recv_at ≤ at
        → at < b.recv_at
        → Answer h at r

  between_lerp :
      (at : Time) (a b : Sample)
      → a.recv_at < b.recv_at
      → between o at a b ≡ found (lerp_sample o a b (fraction o at a b))
  unfolding between sub_time
  between_lerp at a b h = ground arith

  bracket_pair :
      (ss : List Sample) (at : Time) (i : ℕ) (a b : Sample)
      → get_elem? ss i ≡ some a
      → get_elem? ss (suc i) ≡ some b
      → bracket o ss at (suc i) ≡ between o at a b
  unfolding bracket
  bracket_pair ss at i a b low high = ground arith

  bracket-Answer :
      (h : History) (at : Time) (i : ℕ)
      → Splits h.samples at i
      → Answer h at (bracket o h.samples at i)
  bracket-Answer h at zero s = absurd (omega (arith, clash))
    where
      clash : s.a.recv_at ≡ s.b.recv_at
      clash = cc (s.low, s.high)
  bracket-Answer h at (suc i) s = inside i s.a s.b found_it low s.high s.low_at s.high_at
    where
      back : suc i - 1 ≡ i
      back = omega arith

      low : get_elem? h.samples i ≡ some s.a
      low = subst (λ k. get_elem? h.samples k ≡ some s.a) back s.low

      found_it :
          bracket o h.samples at (suc i) ≡ found (lerp_sample o s.a s.b (fraction o at s.a s.b))
      found_it =
          bracket_pair h.samples at i s.a s.b low s.high
          ∙ between_lerp at s.a s.b (omega (arith, s.low_at, s.high_at))

  at_time_empty : (h : History) (at : Time) → get_elem? h.samples 0 ≡ none → at_time o h at ≡ absent
  unfolding at_time
  at_time_empty h at e = ground arith

  module _ (h : History) (at : Time) (first newest : Sample)
      (e : get_elem? h.samples 0 ≡ some first) (l : last h.samples ≡ some newest) where
    at_time_early : at < first.recv_at → at_time o h at ≡ absent
    unfolding at_time
    at_time_early p = ground arith

    at_time_late : first.recv_at ≤ at → newest.recv_at ≤ at → at_time o h at ≡ found newest
    unfolding at_time
    at_time_late p q = ground arith

    at_time_search :
        (i : ℕ)
        → first.recv_at ≤ at
        → at < newest.recv_at
        → search_after (length h.samples) h.samples at 0 (length h.samples - 1) ≡ some i
        → at_time o h at ≡ bracket o h.samples at i
    unfolding at_time at_bracket
    at_time_search i p q s = ground arith

    searched : first.recv_at ≤ at → at < newest.recv_at → Answer h at (at_time o h at)
    searched p q =
        let (i, s, split) =
          search-Splits (length h.samples) h.samples at 0 (length h.samples - 1) first newest
            (omega arith) (omega arith) (omega (arith, nonempty h.samples e)) e p
            (last-get_elem? h.samples newest l) q in
        rw (at_time_search i p q s) (bracket-Answer h at i split)
      where
        nonempty : (ss : List Sample) → get_elem? ss 0 ≡ some first → 0 < length ss
        nonempty [] x = cc
        nonempty (a ∷ ss) x = omega arith

    answered : Answer h at (at_time o h at)
    answered = elim (dec_lt at first.recv_at) [
      | yes p ↦
          before_all (at_time_early p) (λ s x. subst (λ (t : Sample). at < t.recv_at) (same s x) p)
      | no p ↦ elim (dec_lt at newest.recv_at) [
        | yes q ↦ searched (omega arith) q
        | no q ↦ frozen newest (at_time_late (omega arith) (omega arith)) l (omega arith)
      ]
    ]
      where
        same : (s : Sample) → get_elem? h.samples 0 ≡ some s → first ≡ s
        same s x = cc

  -- `At` answers on every history: nothing if the instant is before the first sample or there is
  -- none, the newest sample if the instant is not before it, and otherwise the interpolation of
  -- two neighbours around the instant. It reads nothing out of range, and its fuel is enough.
  pub at_time-Answer : (h : History) (at : Time) → Answer h at (at_time o h at)
  at_time-Answer h at = elim (Option-cases (get_elem? h.samples 0)) [
    | inl e ↦ before_all (at_time_empty h at e) (λ s x. cc)
    | inr (first, e) ↦ elim (Option-cases (last h.samples)) [
      | inl l ↦
          before_all (at_time_empty h at (rw (last-none h.samples l)))
            (λ s x. cc (ap (λ (ss : List Sample). get_elem? ss 0) (last-none h.samples l)))
      | inr (newest, l) ↦ answered h at first newest e l
    ]
  ]
