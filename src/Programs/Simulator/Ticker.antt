-- ===== src/Programs/Simulator/Ticker.antt =====
-- The ticker of cmd/rbrmp-sim/main.go and its sequence numbers.
use native.Mathlib.Nat.{div-eq_of_lt, lt-mul-div-succ}
use native.Mathlib.Decide.{dec_lt}
use rbr_mp_server.Common.{
  ℕ, zero, suc, ◌+◌, ◌/◌, ◌%◌, ◌^◌, ◌<◌, ◌≡◌, ◌↔◌, refl, sym, ◌∙◌, inl, inr, none, some, false,
  arith, ◌==◌, Bool-cases,
}
use rbr_mp_server.Common.Int.{ℤ, pos, negsuc, ◌≤ℤ◌}
use rbr_mp_server.Clock.{Duration, second}
use rbr_mp_server.Server.Session.{newer, compare_seq}
use rbr_mp_server.Server.Sequence.{ahead, compare_seq_circle}
use rbr_mp_server.Programs.Simulator.Loop.{send_period}

period_zero : (n : ℕ) → second / suc n ≡ 0 → second < suc n
period_zero n e = omega (arith, rw e at (lt-mul-div-succ second {b = suc n} (omega arith)))

period_positive : (n : ℕ) → second < suc n → second / suc n ≡ 0
period_positive n h = div-eq_of_lt h

-- Starting with `-rate` at n panics exactly where n is not between 1 and 10 ^ 9: at 0 by a division by
-- zero, elsewhere since the ticker's period is not positive. In that range the period is a second
-- divided by n, rounded down.
pub send_period_panics :
    (rate : ℤ)
    → (send_period rate ≡ none ↔ ((pos 1 ≤ℤ rate) × (rate ≤ℤ pos second) → ⊥))
      × ((q : Duration)
          → send_period rate ≡ some q
          → (n : ℕ) × (rate ≡ pos n) × (q ≡ pos (second / n)))
unfolding send_period
send_period_panics (negsuc n) = ((λ _ h. absurd (omega (arith, h.0)), λ _. refl), λ q e. cc)
send_period_panics (pos zero) = ((λ _ h. absurd (omega (arith, h.0)), λ _. refl), λ q e. cc)
send_period_panics (pos (suc n)) = elim (Bool-cases (second / suc n == 0)) [
  | inl z ↦
      let big : second < suc n = period_zero n (ground (arith, z)) in
      rw z ((λ _ h. absurd (omega (arith, h.1, big)), λ _. refl), λ q e. absurd (some_is_none e))
  | inr z ↦ rw z (
    (λ e. absurd (some_is_none (sym e)), λ h. absurd (h (omega arith, small z))),
    λ q e. (suc n, refl, period_is e),
  )
]
  where
    some_is_none : {q : Duration} → none ≡ some q → ⊥
    some_is_none e = cc

    period_is : {p q : Duration} → some p ≡ some q → q ≡ p
    period_is e = ground arith

    small : (second / suc n == 0) ≡ false → pos (suc n) ≤ℤ pos second
    small z = elim (dec_lt second (suc n)) [
      | yes lt ↦ absurd (ground (arith, z, period_positive n lt))
      | no ge ↦ omega arith
    ]

-- The server takes the State after any other as a newer one, across the wrap of the counter.
pub next_seq_newer : (n : ℕ) → n < 2 ^ 32 → compare_seq ((n + 1) % 2 ^ 32) n ≡ newer
next_seq_newer n h =
    let one_ahead : ahead ((n + 1) % 2 ^ 32) n ≡ 1 = omega arith in
    compare_seq_circle ((n + 1) % 2 ^ 32) n ∙ rw one_ahead refl
