-- ===== src/Common/Decimal/Laws.antt =====
-- Decimal text is read back as the number that was printed.
use native.Mathlib.Nat.{pow-suc}
use rbr_mp_server.Common.{
  ℕ, zero, suc, ◌+◌, ◌-◌, ◌*◌, ◌/◌, ◌%◌, ◌^◌, ◌<◌, ◌≡◌, refl, sym, ap, ◌∙◌, [], ◌∷◌, some, true,
  ◌==◌, arith, Bool-cases, inl, inr,
}
use rbr_mp_server.Common.Text.{Text}
use rbr_mp_server.Common.Decimal.{
  digits_onto, format_uint, is_digit, parse_digits, in_range, parse_uint,
}

digit : (d : ℕ) → d < 10 → is_digit (d + b'0') ≡ true
digit d h = ground arith

parse_digits-cons :
    (a d : ℕ) (acc : Text)
    → d < 10
    → parse_digits a ((d + b'0') ∷ acc) ≡ parse_digits (a * 10 + d) acc
unfolding parse_digits
parse_digits-cons a d acc h = let back : d + b'0' - b'0' ≡ d = omega arith in rw (digit d h, back)

digits_onto_last :
    (fuel n : ℕ) (acc : Text) → n / 10 ≡ 0 → digits_onto (suc fuel) n acc ≡ (n % 10 + b'0') ∷ acc
unfolding digits_onto
digits_onto_last fuel n acc h = ground arith

digits_onto_more :
    (fuel n : ℕ) (acc : Text)
    → 0 < n / 10
    → digits_onto (suc fuel) n acc ≡ digits_onto fuel (n / 10) ((n % 10 + b'0') ∷ acc)
unfolding digits_onto
digits_onto_more fuel n acc h = ground arith

parse_last :
    (fuel n : ℕ) (acc : Text)
    → n / 10 ≡ 0
    → parse_digits 0 (digits_onto (suc fuel) n acc) ≡ parse_digits n acc
parse_last fuel n acc small =
    let value : 0 * 10 + n % 10 ≡ n = omega arith in
    rw (digits_onto_last fuel n acc small, parse_digits-cons 0 (n % 10) acc (omega arith))
      (ap (λ k. parse_digits k acc) value)

parse_digits-digits_onto :
    (fuel n : ℕ) (acc : Text)
    → n < 10 ^ suc fuel
    → parse_digits 0 (digits_onto (suc fuel) n acc) ≡ parse_digits n acc
parse_digits-digits_onto zero n acc h = parse_last zero n acc (omega arith)
parse_digits-digits_onto (suc fuel) n acc h = elim (Bool-cases (n / 10 == 0)) [
  | inl e ↦ parse_last (suc fuel) n acc (ground arith)
  | inr e ↦
      let value : n / 10 * 10 + n % 10 ≡ n = omega arith in
      rw (digits_onto_more (suc fuel) n acc (ground arith)) (
        parse_digits-digits_onto fuel (n / 10) ((n % 10 + b'0') ∷ acc)
          (omega (arith, pow-suc 10 (suc fuel)))
        ∙ parse_digits-cons (n / 10) (n % 10) acc (omega arith)
        ∙ ap (λ k. parse_digits k acc) value)
]

nonempty :
    (fuel n : ℕ) (acc : Text) → (c : ℕ) × (cs : Text) × (digits_onto (suc fuel) n acc ≡ c ∷ cs)
nonempty zero n acc = elim (Bool-cases (n / 10 == 0)) [
  | inl e ↦ (n % 10 + b'0', acc, digits_onto_last zero n acc (ground arith))
  | inr e ↦ (
    n % 10 + b'0',
    acc,
    digits_onto_more zero n acc (ground arith) ∙ (unfold digits_onto in refl),
  )
]
nonempty (suc fuel) n acc = elim (Bool-cases (n / 10 == 0)) [
  | inl e ↦ (n % 10 + b'0', acc, digits_onto_last (suc fuel) n acc (ground arith))
  | inr e ↦
      let (c, cs, p) = nonempty fuel (n / 10) ((n % 10 + b'0') ∷ acc) in
      (c, cs, digits_onto_more (suc fuel) n acc (ground arith) ∙ p)
]

-- Every uint32 is read back from its decimal text.
pub parse_uint-format_uint : (n : ℕ) → n < 2 ^ 32 → parse_uint (format_uint n) ≡ some n
unfolding format_uint
parse_uint-format_uint n h =
    let (c, cs, e) = nonempty 9 n [] in
    read (digits_onto 10 n []) c cs e (parse_digits-digits_onto 9 n [] (omega arith))
  where
    read :
        (t : Text) (c : ℕ) (cs : Text)
        → t ≡ c ∷ cs
        → parse_digits 0 t ≡ parse_digits n []
        → parse_uint t ≡ some n
    read t c cs e p =
        unfold parse_uint in rw e (ap in_range (ap (parse_digits 0) (sym e) ∙ p) ∙ ground arith)
