-- ===== src/Common/Decimal.antt =====
-- Decimal text: `%d` of an unsigned number, and strconv.ParseUint(s, 10, 32).
pub mod Laws
use rbr_mp_server.Common.{
  ℕ, zero, suc, ◌+◌, ◌-◌, ◌*◌, ◌/◌, ◌%◌, ◌^◌, List, [], ◌∷◌, ◌++◌, Option, none, some, Bool, true,
  false, ◌&&◌, if◌then◌else◌, ltb, leb, ◌==◌,
}
use rbr_mp_server.Common.Text.{Text}

-- The digits of `n`, in front of `acc`; the fuel is at least the number of digits.
unfoldable pub digits_onto : ℕ → ℕ → Text → Text
digits_onto zero n acc = acc
digits_onto (suc fuel) n acc =
    let d = n % 10 + b'0' in
    let rest = digits_onto fuel (n / 10) (d ∷ acc) in if n / 10 == 0 then d ∷ acc else rest

-- `%d` of a uint32, which has at most ten digits.
unfoldable pub format_uint : ℕ → Text
unfolding digits_onto
format_uint n = digits_onto 10 n []

abbrev pub is_digit : ℕ → Bool
is_digit c = leb b'0' c && leb c b'9'

unfoldable pub parse_digits : ℕ → Text → Option ℕ
parse_digits acc [] = some acc
parse_digits acc (c ∷ cs) =
    let rest = parse_digits (acc * 10 + (c - b'0')) cs in if is_digit c then rest else none

in_range : Option ℕ → Option ℕ
in_range none = none
in_range (some v) = if ltb v (2 ^ 32) then some v else none

-- An empty text, a character that is no digit and a value of 2 ^ 32 or more are errors.
unfoldable pub parse_uint : Text → Option ℕ
unfolding parse_digits in_range
parse_uint [] = none
parse_uint (c ∷ cs) = in_range (parse_digits 0 (c ∷ cs))
