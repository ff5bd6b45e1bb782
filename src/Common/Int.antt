-- ===== src/Common/Int.antt =====
-- Signed integers over the native numbers: Go's int32, int64 and time.Duration.
use rbr_mp_server.Common.{
  ℕ, suc, ◌+◌, ◌-◌, ◌%◌, ◌^◌, ◌≤◌, ◌<◌, ◌≡◌, Bool, arith, ltb, leb, if◌then◌else◌,
}

-- `negsuc n` is -(n + 1).
pub data ℤ : Type 0 where
  pos : ℕ → ℤ
  negsuc : ℕ → ℤ

abbrev pub pos_part : ℤ → ℕ
pos_part (pos n) = n
pos_part (negsuc n) = 0

abbrev pub neg_part : ℤ → ℕ
neg_part (pos n) = 0
neg_part (negsuc n) = suc n

-- a < b and a ≤ b.
abbrev pub ltb_ℤ : ℤ → ℤ → Bool
ltb_ℤ a b = ltb (pos_part a + neg_part b) (pos_part b + neg_part a)

abbrev pub leb_ℤ : ℤ → ℤ → Bool
leb_ℤ a b = leb (pos_part a + neg_part b) (pos_part b + neg_part a)

infix 50 ◌≤ℤ◌
abbrev pub ◌≤ℤ◌ : ℤ → ℤ → Type 0
a ≤ℤ b = pos_part a + neg_part b ≤ pos_part b + neg_part a

-- `int32(w)` of a uint32 and `uint32(v)` of an int32, in two's complement.
unfoldable pub to_i32 : ℕ → ℤ
to_i32 w = if ltb w (2 ^ 31) then pos w else negsuc (2 ^ 32 - w - 1)

unfoldable pub to_u32 : ℤ → ℕ
to_u32 (pos n) = n % 2 ^ 32
to_u32 (negsuc n) = 2 ^ 32 - 1 - n % 2 ^ 32

abbrev pub IsI32 : ℤ → Type 0
IsI32 v = (negsuc (2 ^ 31 - 1) ≤ℤ v) × (v ≤ℤ pos (2 ^ 31 - 1))

pub to_u32-lt : (v : ℤ) → to_u32 v < 2 ^ 32
unfolding to_u32
to_u32-lt (pos n) = omega arith
to_u32-lt (negsuc n) = omega arith

pub to_i32-to_u32 : (v : ℤ) → IsI32 v → to_i32 (to_u32 v) ≡ v
unfolding to_i32 to_u32
to_i32-to_u32 (pos n) h = ground arith
to_i32-to_u32 (negsuc n) h = ground arith
