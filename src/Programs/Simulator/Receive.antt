-- ===== src/Programs/Simulator/Receive.antt =====
-- The receiving goroutine of cmd/rbrmp-sim/main.go: what it reports of a datagram.
use rbr_mp_server.Common.{
  ℕ, suc, ◌+◌, ◌-◌, ◌%◌, List, [], ◌∷◌, Option, none, some, Bool, not, ◌==◌, leb, if◌then◌else◌,
  take,
}
use rbr_mp_server.Common.Int.{ℤ, pos, negsuc, to_u32}
use rbr_mp_server.Clock.{Time, sub_time, milliseconds}
use rbr_mp_server.Protocol.Types.{Entity, Snapshot, type_welcome, type_snapshot}
use rbr_mp_server.Protocol.Decode.{ok, err, parse_header, decode_welcome, decode_snapshot}
use rbr_mp_server.Programs.Simulator.{Math, car_at, dist}

-- The flags -speed, -radius and -at, and when the program started.
pub record Drive : Type 0 where
  pub speed : ℕ
  pub radius : ℕ
  pub origin : List ℕ
  pub start : Time

-- `report`, of a Welcome or of a Snapshot.
pub data Report : Type 0 where
  welcomed : ℕ → ℕ → Report
  measured : ℤ → Option (ℤ × ℕ) → ℕ → Report

-- `int64(a) - int64(b)` of two uint32.
unfoldable pub difference : ℕ → ℕ → ℤ
difference a b = if leb b a then pos (a - b) else negsuc (b - a - 1)

-- `e.Flags&protocol.FlagEcho != 0`, where FlagEcho is 1.
unfoldable pub is_echo : Entity → Bool
is_echo e = not (e.flags % 2 == 0)

-- `uint32(time.Since(start).Milliseconds())`
unfoldable pub client_ms : Drive → Time → ℕ
client_ms d t = to_u32 (milliseconds (sub_time t d.start))

-- `buf := make([]byte, 8192)`: conn.Read drops the rest of a datagram that does not fit.
abbrev pub buffer_size : ℕ
buffer_size = 8192

module _ (o : Math) (d : Drive) where
  -- The loop over the entities: the age and the lag of the last echo, and how many are none. `clock`
  -- is when the loop reads the clock for its n-th entity.
  unfoldable pub look : ℕ → (ℕ → Time) → ℕ → List Entity → Option (ℤ × ℕ) → ℕ → Option (ℤ × ℕ) × ℕ
  unfolding is_echo difference
  look now clock n [] echo others = (echo, others)
  look now clock n (e ∷ es) echo others =
      let where_now = car_at o (sub_time (clock n) d.start) d.speed d.radius d.origin in
      let seen = some (difference now e.sample_time_ms, dist o where_now e.transform.position) in
      let with_echo = look now clock (suc n) es seen others in
      let with_other = look now clock (suc n) es echo (others + 1) in
      if is_echo e then with_echo else with_other

  -- `at` is when the goroutine reads the clock for the round trip.
  unfoldable pub measure : Time → (ℕ → Time) → Snapshot → Report
  unfolding look client_ms difference
  measure at clock s =
      let now = client_ms d at in
      let (echo, others) = look now clock 0 s.entities none 0 in
      measured (difference now s.last_client_time_ms) echo others

  -- A datagram that arrives, and the switch on its message type; `none` where the loop goes on
  -- without a report.
  unfoldable pub receive : Time → (ℕ → Time) → List ℕ → Option Report
  unfolding measure
  receive at clock datagram =
      let b = take buffer_size datagram in
      elim (parse_header b) [
        | err e ↦ none
        | ok t ↦
            if t == type_welcome
            then (elim (decode_welcome b).1 [
              | some e ↦ none
              | none ↦
                  some (welcomed (decode_welcome b).0.player_id (decode_welcome b).0.echo_delay_ms)
            ])
            else if t == type_snapshot
            then (elim (decode_snapshot b).1 [
              | some e ↦ none
              | none ↦ some (measure at clock (decode_snapshot b).0)
            ])
            else none
      ]
