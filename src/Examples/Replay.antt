-- ===== src/Examples/Replay.antt =====
-- The ring of internal/server/history.go at concrete samples.
use rbr_mp_server.Common.{ℕ, ◌+◌, ◌*◌, ◌-◌, ◌≡◌, refl, some, ltb, get_elem?, arith}
use rbr_mp_server.Common.Int.{pos}
use rbr_mp_server.History.Ring.{push}
use rbr_mp_server.History.Lerp.{Floats}
use rbr_mp_server.History.Lookup.{at_time}
use rbr_mp_server.History.Bracket.{Answer, at_time-Answer}
use rbr_mp_server.History.Retention.{push-keeps}
use rbr_mp_server.Examples.Data.{drive, sample_at, early, middle, late}

-- Arithmetic on natural numbers in place of the floating-point operations.
abbrev natural : Floats
natural = record {
  add = λ a b. a + b;
  sub = λ a b. a - b;
  mul = λ a b. a * b;
  div = λ a b. a;
  less = λ a b. ltb a b;
  mul64 = λ a b. a * b;
  div64 = λ a b. a;
  sqrt64 = λ a. a;
  widen = λ a. a;
  narrow = λ a. a;
  of_i32 = λ v. 0;
  to_u32 = λ a. a;
  of_duration = λ d. 0;
  to_duration = λ a. pos a;
  seconds = λ d. 0;
}

at_time-Answer_example : Answer natural drive middle (at_time natural drive middle)
at_time-Answer_example = at_time-Answer natural drive middle

push-keeps_example :
    (k : ℕ) × (get_elem? (push drive (sample_at (late + 1))).samples k ≡ some (sample_at early))
push-keeps_example =
    push-keeps drive (sample_at (late + 1)) (sample_at early) (sample_at late) 0 1 (omega arith)
      refl refl (omega arith) (omega arith)
