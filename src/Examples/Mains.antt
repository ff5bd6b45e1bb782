-- ===== src/Examples/Mains.antt =====
-- The programs of cmd/rbrmp-server/ and cmd/rbrmp-sim/ at concrete inputs.
use rbr_mp_server.Common.{
  if◌then◌else◌, ℕ, ◌+◌, ◌*◌, ◌/◌, ◌%◌, ◌^◌, ◌≡◌, ◌↔◌, refl, List, [], ◌∷◌, none, some, true, false,
  leb, ltb, arith, length,
}
use rbr_mp_server.Common.Int.{pos, negsuc, ◌≤ℤ◌}
use rbr_mp_server.Common.Text.{Text}
use rbr_mp_server.Common.GoMap.{lookup, values}
use rbr_mp_server.Common.Sort.{insert_by, sort_by, In, here}
use rbr_mp_server.Clock.{Duration, second}
use rbr_mp_server.Server.Types.{Server}
use rbr_mp_server.Server.Bans.{load_bans}
use rbr_mp_server.Server.Start.{new, normalize, or_default, path_or_default, fresh_server}
use rbr_mp_server.Server.Tick.{snapshot, live_clients}
use rbr_mp_server.Server.Relay.Sending.{snapshot_datagram}
use rbr_mp_server.Programs.ServerMain
use rbr_mp_server.Programs.ServerMain.{
  Flags, closed_socket, tick_refused, tick_period, config_of, rcon_password_of, serve, run_status,
}
use rbr_mp_server.Programs.ServerMain.Started.{IsServing, main-IsServing}
use rbr_mp_server.Programs.Simulator.{Math}
use rbr_mp_server.Programs.Simulator.Receive.{
  Drive, welcomed, measured, difference, client_ms, receive,
}
use rbr_mp_server.Programs.Simulator.Loop.{
  Event, send, report, print, send_period, start_sim, loop, expired,
}
use rbr_mp_server.Programs.Simulator.NoEcho.{receive-snapshot_datagram}
use rbr_mp_server.Programs.Simulator.Counters.{
  sends_in, measured_in, echoes_in, IsCounted, loop_counts,
}
use rbr_mp_server.Programs.Simulator.Ticker.{send_period_panics}
use rbr_mp_server.History.Lerp.{add_time}
use rbr_mp_server.Examples.Data.{ann, room, late}
use rbr_mp_server.Examples.Delivery.{room-Good}
use rbr_mp_server.Examples.Files.{json}

abbrev flags : Flags
flags = record {
  addr = b':' ∷ b'9' ∷ [];
  tick_hz = pos 60;
  timeout = pos (5 * second);
  stale = pos (2 * second);
  stats = pos 0;
  verbose = true;
  bans_path = b'f' ∷ [];
  rcon_password = [];
}

abbrev secret : Text
secret = b'p' ∷ []

abbrev served : Server
served = fresh_server (normalize (config_of flags)) (record { path = b'f' ∷ []; entries = [] }) 9

abbrev ended : ServerMain.Ended
ended = ServerMain.main json true [] true true closed_socket 9 secret flags

runs : ended.server ≡ some served
unfolding ServerMain.main tick_refused new load_bans lookup rcon_password_of serve run_status
    normalize config_of or_default path_or_default tick_period
runs = refl

main-IsServing_example :
    (pos 1 ≤ℤ flags.tick_hz) × (flags.tick_hz ≤ℤ pos 240) × IsServing flags 9 served ended.rcon
main-IsServing_example =
    main-IsServing json true [] true true closed_socket 9 secret flags served runs

-- A stand-in for floating-point arithmetic.
abbrev natural : Math
natural = record {
  literal = λ v. 0;
  of_int = λ v. 1;
  add = λ a b. a + b;
  sub = λ a b. a;
  mul = λ a b. a * b;
  div = λ a b. a;
  neg = λ a. a;
  sin = λ a. a;
  cos = λ a. a;
  sqrt = λ a. a;
  leq = λ a b. leb a b;
  less = λ a b. ltb a b;
  seconds = λ d. 1;
  narrow = λ a. a;
  widen = λ a. a;
  add32 = λ a b. a + b;
  sub32 = λ a b. a;
}

abbrev circle : Drive
circle = record { speed = 20; radius = 50; origin = 0 ∷ 0 ∷ 0 ∷ []; start = 5 }

ann_live : In ann (live_clients room)
unfolding live_clients values sort_by insert_by
ann_live = here refl

receive-snapshot_datagram_example :
    let others = length (snapshot room (late + 7) (live_clients room) ann).entities in
    receive natural circle (late + 9) (λ n. late + 9) (snapshot_datagram room (late + 7) ann).bytes
    ≡ (if leb others 52
        then some (measured (difference (client_ms circle (late + 9)) 900) none others)
        else none)
receive-snapshot_datagram_example =
    receive-snapshot_datagram natural circle room (late + 7) (late + 9) ann (λ n. late + 9)
      room-Good (omega arith) ann_live

abbrev happened : List Event
happened =
    report (welcomed 3 0)
    ∷ send 6 6 6 6 6
    ∷ report (measured (pos 12) none 2)
    ∷ report (measured (pos 14) (some (pos 3, 4)) 2)
    ∷ print
    ∷ send 9 9 9 9 9
    ∷ []

loop_counts_example :
    let t =
      loop natural circle false
        (pos second)
        (start_sim natural circle false (pos second))
        happened in
    (t.returns ≡ false)
    × (length t.datagrams ≡ sends_in happened)
    × (t.sim.seq ≡ sends_in happened % 2 ^ 32)
    × (t.sim.total_samples ≡ measured_in happened)
    × (t.sim.total_echo_samples ≡ echoes_in happened)
    × IsCounted natural circle false (pos second) t.sim
loop_counts_example =
    loop_counts natural circle false (pos second) happened (
      tt,
      (unfold expired add_time in refl, (tt, (tt, (tt, (unfold expired add_time in refl, tt))))),
    )

send_period_panics_example :
    (send_period (negsuc 9) ≡ none ↔ ((pos 1 ≤ℤ negsuc 9) × (negsuc 9 ≤ℤ pos second) → ⊥))
    × ((q : Duration)
        → send_period (negsuc 9) ≡ some q
        → (n : ℕ) × (negsuc 9 ≡ pos n) × (q ≡ pos (second / n)))
send_period_panics_example = send_period_panics (negsuc 9)
