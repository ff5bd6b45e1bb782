-- ===== src/Programs/Simulator/Loop.antt =====
-- The flags and the main loop of cmd/rbrmp-sim/main.go: sending, counting and printing.
use rbr_mp_server.Common.{
  ℕ, zero, suc, ◌+◌, ◌/◌, ◌%◌, ◌^◌, List, [], ◌∷◌, ◌++◌, Option, none, some, Bool, true, false,
  ◌&&◌, ◌||◌, ◌==◌, ltb, if◌then◌else◌,
}
use rbr_mp_server.Common.Int.{ℤ, pos, negsuc, ltb_ℤ}
use rbr_mp_server.Clock.{Time, Duration, second, sub_time}
use rbr_mp_server.History.Lerp.{add_time}
use rbr_mp_server.Protocol.Types.{State}
use rbr_mp_server.Protocol.Encode.{encode_state}
use rbr_mp_server.Programs.Simulator.{Math, car_at, heading_at, telemetry_at}
use rbr_mp_server.Programs.Simulator.Receive.{Drive, Report, welcomed, measured, client_ms}

-- `time.NewTicker(time.Second / time.Duration(*rate))`: the period, or `none` for a panic, of the
-- division by zero or of the ticker, whose period must be positive.
unfoldable pub send_period : ℤ → Option Duration
send_period (pos zero) = none
send_period (pos (suc n)) = let q = second / suc n in if q == 0 then none else some (pos q)
send_period (negsuc n) = none

-- The variables of `main` that the loop writes.
pub record Sim : Type 0 where
  pub seq : ℕ
  pub player_id : ℕ
  pub echo_delay : ℕ
  pub samples : ℕ
  pub echo_samples : ℕ
  pub sum_rtt : ℕ
  pub sum_age : ℕ
  pub sum_lag : ℕ
  pub total_rtt : ℕ
  pub total_age : ℕ
  pub total_samples : ℕ
  pub total_echo_samples : ℕ

-- What the line of a second says of the echo.
pub data Echo : Type 0 where
  unmentioned invisible : Echo
  behind : ℕ → ℕ → Echo

pub data Printed : Type 0 where
  joined : ℕ → ℕ → Printed
  round_trip : ℕ → ℕ → Echo → Printed
  no_snapshots never_appeared : Printed
  average : ℕ → ℕ → Printed
  echo_age : ℕ → ℕ → ℕ → Printed

-- Which channel the `select` takes. A send carries the times of its clock readings: for the
-- deadline, the position, the client time, the heading and the telemetry.
pub data Event : Type 0 where
  send : Time → Time → Time → Time → Time → Event
  report : Report → Event
  print : Event

-- The state after an event, whether `main` returns, the datagram, and the lines.
pub record Turn : Type 0 where
  pub sim : Sim
  pub returns : Bool
  pub datagrams : List (List ℕ)
  pub printed : List Printed

unfoldable pub quietly : Sim → Turn
quietly s = record { sim = s; returns = false; datagrams = []; printed = [] }

module _ (o : Math) (d : Drive) (quiet : Bool) (run : Duration) where
  open o use {of_int, add, div}

  abbrev zero64 : ℕ
  zero64 = o.literal (pos 0)

  unfoldable pub start_sim : Sim
  start_sim = record {
    seq = 0;
    player_id = 0;
    echo_delay = 0;
    samples = 0;
    echo_samples = 0;
    sum_rtt = zero64;
    sum_age = zero64;
    sum_lag = zero64;
    total_rtt = zero64;
    total_age = zero64;
    total_samples = 0;
    total_echo_samples = 0;
  }

  -- `!deadline.IsZero() && time.Now().After(deadline)`
  unfoldable pub expired : Time → Bool
  expired now = ltb_ℤ (pos 0) run && ltb (add_time d.start run) now

  unfoldable pub summarise : Sim → List Printed
  summarise s =
      if s.total_samples == 0
      then no_snapshots ∷ []
      else average s.total_samples (div s.total_rtt (of_int (pos s.total_samples)))
        ∷ (if s.total_echo_samples == 0
            then (if ltb 0 s.echo_delay then never_appeared ∷ [] else [])
            else echo_age s.total_echo_samples (div s.total_age (of_int (pos s.total_echo_samples)))
                s.echo_delay
              ∷ [])

  -- The State of the moment.
  unfoldable pub state_of : Sim → Time → Time → Time → Time → State
  state_of s pos_at clock_at turned_at shown_at = record {
    player_id = s.player_id;
    seq = s.seq;
    client_time_ms = client_ms d clock_at;
    transform = record {
      position = car_at o (sub_time pos_at d.start) d.speed d.radius d.origin;
      rot = heading_at o (sub_time turned_at d.start) d.speed d.radius;
    };
    telemetry = telemetry_at o (sub_time shown_at d.start) d.speed d.radius;
  }

  -- `case <-send.C`
  unfoldable pub on_send : Sim → Time → Time → Time → Time → Time → Turn
  unfolding expired summarise state_of
  on_send s now pos_at clock_at turned_at shown_at =
      let s' = record s { seq = (s.seq + 1) % 2 ^ 32 } in
      if expired now
      then record { sim = s; returns = true; datagrams = []; printed = summarise s }
      else record {
        sim = s';
        returns = false;
        datagrams = encode_state (state_of s' pos_at clock_at turned_at shown_at) ∷ [];
        printed = [];
      }

  unfoldable pub count : Sim → ℤ → Sim
  count s rtt = record s {
    samples = s.samples + 1;
    sum_rtt = add s.sum_rtt (of_int rtt);
    total_rtt = add s.total_rtt (of_int rtt);
    total_samples = s.total_samples + 1;
  }

  unfoldable pub count_echo : Sim → ℤ × ℕ → Sim
  count_echo s (age, lag) = record s {
    echo_samples = s.echo_samples + 1;
    total_echo_samples = s.total_echo_samples + 1;
    sum_age = add s.sum_age (of_int age);
    sum_lag = add s.sum_lag lag;
    total_age = add s.total_age (of_int age);
  }

  -- `case r := <-reports`
  unfoldable pub on_report : Sim → Report → Turn
  unfolding quietly count count_echo
  on_report s (welcomed id delay) = record {
    sim = record s { player_id = id; echo_delay = delay };
    returns = false;
    datagrams = [];
    printed = if quiet then [] else joined id delay ∷ [];
  }
  on_report s (measured rtt none others) = quietly (count s rtt)
  on_report s (measured rtt (some echo) others) = quietly (count_echo (count s rtt) echo)

  -- The counters of the second.
  unfoldable pub cleared : Sim → Sim
  cleared s = record s {
    samples = 0;
    echo_samples = 0;
    sum_rtt = zero64;
    sum_age = zero64;
    sum_lag = zero64;
  }

  unfoldable pub echo_part : Sim → Echo
  echo_part s =
      if ltb 0 s.echo_samples
      then behind (div s.sum_age (of_int (pos s.echo_samples)))
          (div s.sum_lag (of_int (pos s.echo_samples)))
      else if ltb 0 s.echo_delay
      then invisible
      else unmentioned

  -- `case <-print.C`
  unfoldable pub on_print : Sim → Turn
  unfolding quietly cleared echo_part
  on_print s = if quiet || (s.samples == 0) then quietly (cleared s) else record {
    sim = cleared s;
    returns = false;
    datagrams = [];
    printed = round_trip (div s.sum_rtt (of_int (pos s.samples))) s.samples (echo_part s) ∷ [];
  }

  unfoldable pub turn : Sim → Event → Turn
  unfolding on_send on_report on_print
  turn s (send now pos_at clock_at turned_at shown_at) =
      on_send s now pos_at clock_at turned_at shown_at
  turn s (report r) = on_report s r
  turn s print = on_print s

  -- The `for` loop, until `main` returns.
  unfoldable pub loop : Sim → List Event → Turn
  unfolding turn quietly
  loop s [] = quietly s
  loop s (e ∷ es) =
      let t = turn s e in
      let rest = loop t.sim es in
      if t.returns then t else record rest {
        datagrams = t.datagrams ++ rest.datagrams;
        printed = t.printed ++ rest.printed;
      }
