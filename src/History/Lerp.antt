-- ===== src/History/Lerp.antt =====
-- lerp, lerpSample and orthonormalize of internal/server/history.go. Floating-point arithmetic is
-- a parameter: the operations of Go's float32 and float64 on bit patterns.
use rbr_mp_server.Common.{
  Option, none, some, ℕ, suc, ◌+◌, ◌-◌, ◌%◌, ◌^◌, List, [], ◌∷◌, Bool, if◌then◌else◌, get_or,
}
use rbr_mp_server.Common.Int.{ℤ, pos, negsuc, to_i32}
use rbr_mp_server.Clock.{Time, Duration, sub_time}
use rbr_mp_server.Protocol.Types.{Telemetry}
use rbr_mp_server.History.Sample.{Sample}

-- `add` … `less` are the operators on float32, `mul64` and `div64` those on float64, and the others
-- the conversions of the language and of its time and math packages.
pub record Floats : Type 0 where
  pub add : ℕ → ℕ → ℕ
  pub sub : ℕ → ℕ → ℕ
  pub mul : ℕ → ℕ → ℕ
  pub div : ℕ → ℕ → ℕ
  pub less : ℕ → ℕ → Bool
  pub mul64 : ℕ → ℕ → ℕ
  pub div64 : ℕ → ℕ → ℕ
  pub sqrt64 : ℕ → ℕ
  pub widen : ℕ → ℕ
  pub narrow : ℕ → ℕ
  pub of_i32 : ℤ → ℕ
  pub to_u32 : ℕ → ℕ
  pub of_duration : Duration → ℕ
  pub to_duration : ℕ → Duration
  pub seconds : Duration → ℕ

-- 0.5 and 1e-6 as float32.
abbrev pub half : ℕ
half = 0x3F000000

abbrev pub epsilon : ℕ
epsilon = 0x358637BD

-- `t.Add(d)`
unfoldable pub add_time : Time → Duration → Time
add_time t (pos n) = t + n
add_time t (negsuc n) = t - suc n

pub record Vec3 : Type 0 where
  pub x : ℕ
  pub y : ℕ
  pub z : ℕ

-- The three elements from the index `i` on of a [9]float32.
unfoldable pub row : List ℕ → ℕ → Vec3
row m i = record { x = get_or m i 0; y = get_or m (i + 1) 0; z = get_or m (i + 2) 0 }

module _ (o : Floats) where
  open o use {add, sub, mul, div, less, mul64, sqrt64, widen, narrow, of_i32, to_u32}

  unfoldable pub lerp : ℕ → ℕ → ℕ → ℕ
  lerp a b t = add a (mul (sub b a) t)

  -- The loop over an array: `out[i] = lerp(a[i], b[i], t)`.
  unfoldable pub lerp_all : List ℕ → List ℕ → ℕ → List ℕ
  lerp_all [] ys t = []
  lerp_all (x ∷ xs) [] t = []
  lerp_all (x ∷ xs) (y ∷ ys) t = lerp x y t ∷ lerp_all xs ys t

  unfoldable pub dot : Vec3 → Vec3 → ℕ
  dot a b = add (add (mul a.x b.x) (mul a.y b.y)) (mul a.z b.z)

  unfoldable pub cross : Vec3 → Vec3 → Vec3
  cross a b = record {
    x = sub (mul a.y b.z) (mul a.z b.y);
    y = sub (mul a.z b.x) (mul a.x b.z);
    z = sub (mul a.x b.y) (mul a.y b.x);
  }

  -- The vector over its length, or `none` where Go returns false and leaves the vector alone.
  unfoldable pub normalize : Vec3 → Option Vec3
  normalize v =
      let square = add (add (mul v.x v.x) (mul v.y v.y)) (mul v.z v.z) in
      let l = narrow (sqrt64 (widen square)) in
      if less l epsilon then none else some (record { x = div v.x l; y = div v.y l; z = div v.z l })

  -- `y[i] -= d * x[i]`
  unfoldable pub subtract_along : ℕ → Vec3 → Vec3 → Vec3
  subtract_along d x y = record {
    x = sub y.x (mul d x.x);
    y = sub y.y (mul d x.y);
    z = sub y.z (mul d x.z);
  }

  unfoldable pub orthonormalize : List ℕ → List ℕ
  orthonormalize m = elim (normalize (row m 0)) [
    | none ↦ m
    | some x ↦ elim (normalize (subtract_along (dot x (row m 3)) x (row m 3))) [
      | none ↦ m
      | some y ↦ let z = cross x y in x.x ∷ x.y ∷ x.z ∷ y.x ∷ y.y ∷ y.z ∷ z.x ∷ z.y ∷ z.z ∷ []
    ]
  ]

  unfoldable pub lerp_telemetry : Telemetry → Telemetry → ℕ → Telemetry
  lerp_telemetry a b t = record {
    vel = lerp_all a.vel b.vel t;
    speed = lerp a.speed b.speed t;
    rpm = lerp a.rpm b.rpm t;
    steer = lerp a.steer b.steer t;
    gear = if less t half then a.gear else b.gear;
    wheel_omega = lerp_all a.wheel_omega b.wheel_omega t;
  }

  unfoldable pub lerp_sample : Sample → Sample → ℕ → Sample
  lerp_sample a b t =
      let span = sub_time b.recv_at a.recv_at in
      let delta = to_i32 ((b.client_time_ms + 2 ^ 32 - a.client_time_ms) % 2 ^ 32) in
      record {
        recv_at = add_time a.recv_at (o.to_duration (mul64 (o.of_duration span) (widen t)));
        client_time_ms = (a.client_time_ms + to_u32 (mul (of_i32 delta) t)) % 2 ^ 32;
        transform = record {
          position = lerp_all a.transform.position b.transform.position t;
          rot = orthonormalize (lerp_all a.transform.rot b.transform.rot t);
        };
        telemetry = lerp_telemetry a.telemetry b.telemetry t;
      }
