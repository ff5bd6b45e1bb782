-- ===== src/Programs/Simulator.antt =====
-- cmd/rbrmp-sim/main.go: the circle that the fake car drives. Floating-point arithmetic is a
-- parameter: the operations of Go's float64 and of its math package on bit patterns.
pub mod Receive
pub mod Loop
pub mod Ticker
pub mod Counters
pub mod NoEcho
use rbr_mp_server.Common.{ℕ, List, [], ◌∷◌, Bool, if◌then◌else◌, get_or}
use rbr_mp_server.Common.Int.{ℤ, pos}
use rbr_mp_server.Clock.{Duration}
use rbr_mp_server.Protocol.Types.{Telemetry}

-- `literal` is a decimal constant of the source, in units of 10 ^ -2; `of_int` converts an int64.
pub record Math : Type 0 where
  pub literal : ℤ → ℕ
  pub of_int : ℤ → ℕ
  pub add : ℕ → ℕ → ℕ
  pub sub : ℕ → ℕ → ℕ
  pub mul : ℕ → ℕ → ℕ
  pub div : ℕ → ℕ → ℕ
  pub neg : ℕ → ℕ
  pub sin : ℕ → ℕ
  pub cos : ℕ → ℕ
  pub sqrt : ℕ → ℕ
  pub leq : ℕ → ℕ → Bool
  pub less : ℕ → ℕ → Bool
  pub seconds : Duration → ℕ
  pub narrow : ℕ → ℕ
  pub widen : ℕ → ℕ
  pub add32 : ℕ → ℕ → ℕ
  pub sub32 : ℕ → ℕ → ℕ

-- 0, 1 and -1 as float32.
abbrev pub zero32 : ℕ
zero32 = 0

abbrev pub one32 : ℕ
one32 = 0x3F800000

abbrev pub minus_one32 : ℕ
minus_one32 = 0xBF800000

-- -0.25 as float32.
abbrev pub held_steer : ℕ
held_steer = 0xBE800000

module _ (o : Math) where
  open o use {
    literal, add, sub, mul, div, neg, sin, cos, sqrt, leq, less, seconds, narrow, widen, add32,
    sub32,
  }

  abbrev zero64 : ℕ
  zero64 = literal (pos 0)

  -- Radians travelled: `speed * t.Seconds() / radius`.
  unfoldable pub angle : Duration → ℕ → ℕ → ℕ
  angle t speed radius = div (mul speed (seconds t)) radius

  -- carAt
  unfoldable pub car_at : Duration → ℕ → ℕ → List ℕ → List ℕ
  unfolding angle
  car_at t speed radius origin =
      if leq radius zero64
      then add32 (get_or origin 0 0) (narrow (mul speed (seconds t)))
        ∷ get_or origin 1 0
        ∷ get_or origin 2 0
        ∷ []
      else add32 (get_or origin 0 0) (narrow (mul radius (sin (angle t speed radius))))
        ∷ add32 (get_or origin 1 0)
            (narrow (mul radius (sub (literal (pos 100)) (cos (angle t speed radius)))))
        ∷ get_or origin 2 0
        ∷ []

  -- headingAt
  unfoldable pub heading_at : Duration → ℕ → ℕ → List ℕ
  unfolding angle
  heading_at t speed radius =
      let fx = cos (angle t speed radius) in
      let fy = sin (angle t speed radius) in
      let lx = neg fy in
      let ly = fx in
      if leq radius zero64
      then zero32 ∷ minus_one32 ∷ zero32 ∷ minus_one32 ∷ zero32 ∷ zero32 ∷ zero32 ∷ zero32 ∷ one32
        ∷ []
      else narrow lx
        ∷ narrow ly
        ∷ zero32
        ∷ narrow (neg fx)
        ∷ narrow (neg fy)
        ∷ zero32
        ∷ zero32
        ∷ zero32
        ∷ one32
        ∷ []

  -- telemetryAt
  unfoldable pub telemetry_at : Duration → ℕ → ℕ → Telemetry
  unfolding angle
  telemetry_at t speed radius =
      let wheel = narrow (div speed (literal (pos 31))) in
      let still = leq radius zero64 in
      let vx = if still then speed else mul speed (cos (angle t speed radius)) in
      let vy = if still then zero64 else mul speed (sin (angle t speed radius)) in
      record {
        vel = narrow vx ∷ narrow vy ∷ zero32 ∷ [];
        speed = narrow speed;
        rpm = narrow (
            add (literal (pos 450_000))
              (mul (literal (pos 150_000)) (sin (mul (seconds t) (literal (pos 200))))));
        steer = if less zero64 radius then held_steer else zero32;
        gear = pos 4;
        wheel_omega = wheel ∷ wheel ∷ wheel ∷ wheel ∷ [];
      }

  -- `float64(a[i] - b[i])`
  unfoldable pub apart : List ℕ → List ℕ → ℕ → ℕ
  apart a b i = widen (sub32 (get_or a i 0) (get_or b i 0))

  unfoldable pub dist : List ℕ → List ℕ → ℕ
  unfolding apart
  dist a b =
      let dx = apart a b 0 in
      let dy = apart a b 1 in
      let dz = apart a b 2 in sqrt (add (add (mul dx dx) (mul dy dy)) (mul dz dz))
