-- ===== src/Clock.antt =====
-- Go's time.Time and time.Duration. An instant counts nanoseconds from the zero time, `time.Time{}`,
-- so that `IsZero` is a test against 0; a Duration is an int64 of nanoseconds.
use rbr_mp_server.Common.{
  ℕ, suc, ◌+◌, ◌-◌, ◌/◌, ◌^◌, ◌<◌, ◌≡◌, Bool, arith, ltb, leb, ◌==◌, if◌then◌else◌, min, true,
}
use rbr_mp_server.Common.Int.{ℤ, pos, negsuc, ltb_ℤ, leb_ℤ}

abbrev pub Time : Type 0
Time = ℕ

abbrev pub Duration : Type 0
Duration = ℤ

abbrev pub zero_time : Time
zero_time = 0

abbrev pub is_zero : Time → Bool
is_zero t = t == 0

abbrev pub second : ℕ
second = 1_000_000_000

abbrev pub millisecond : ℕ
millisecond = 1_000_000

-- `t.Sub(u)`, which saturates at the ends of an int64.
unfoldable pub sub_time : Time → Time → Duration
sub_time t u =
    if leb u t then pos (min (t - u) (2 ^ 63 - 1)) else negsuc (min (u - t - 1) (2 ^ 63 - 1))

-- `d.Milliseconds()`, which truncates towards zero.
unfoldable pub milliseconds : Duration → ℤ
milliseconds (pos n) = pos (n / millisecond)
milliseconds (negsuc n) =
    let q : ℕ = suc n / millisecond in if q == 0 then pos 0 else negsuc (q - 1)

-- `t.Sub(u) < d`, `>= d` and `> d`.
abbrev pub within : Time → Time → Duration → Bool
within t u d = ltb_ℤ (sub_time t u) d

abbrev pub at_least : Time → Time → Duration → Bool
at_least t u d = leb_ℤ d (sub_time t u)

abbrev pub longer : Time → Time → Duration → Bool
longer t u d = ltb_ℤ d (sub_time t u)

-- For the durations that an int64 holds these are the comparisons of the instants themselves.
pub within-lt : (t u d : ℕ) → 0 < d → d < 2 ^ 63 → within t u (pos d) ≡ ltb t (u + d)
unfolding sub_time
within-lt t u d p h = ground arith

pub at_least-le : (t u d : ℕ) → 0 < d → d < 2 ^ 63 → at_least t u (pos d) ≡ leb (u + d) t
unfolding sub_time
at_least-le t u d p h = ground arith

pub longer-lt : (t u d : ℕ) → d < 2 ^ 63 - 1 → longer t u (pos d) ≡ ltb (u + d) t
unfolding sub_time
longer-lt t u d h = ground arith

-- At the very instant the time that has passed is 0.
pub within_self : (t d : ℕ) → 0 < d → within t t (pos d) ≡ true
unfolding sub_time
within_self t d h = ground arith
