-- ===== src/Programs/Simulator/Counters.antt =====
-- The main loop of cmd/rbrmp-sim/main.go: its counters.
use rbr_mp_server.Common.{
  ℕ, ◌+◌, ◌%◌, ◌^◌, ◌≤◌, ◌<◌, ◌≡◌, refl, inl, inr, List, [], ◌∷◌, none, some, Bool, false, ◌||◌,
  arith, length, All, ◌==◌, Bool-cases, length-append,
}
use rbr_mp_server.Clock.{Duration}
use rbr_mp_server.Programs.Simulator.{Math}
use rbr_mp_server.Programs.Simulator.Receive.{Drive, welcomed, measured}
use rbr_mp_server.Programs.Simulator.Loop.{
  Sim, Event, send, report, print, Printed, Turn, quietly, start_sim, expired, on_send, count,
  count_echo, on_report, cleared, on_print, turn, loop,
}

-- What happened, counted from the events alone.
unfoldable pub sends_in : List Event → ℕ
sends_in [] = 0
sends_in (send a b c d e ∷ es) = sends_in es + 1
sends_in (report r ∷ es) = sends_in es
sends_in (print ∷ es) = sends_in es

unfoldable pub measured_in : List Event → ℕ
measured_in [] = 0
measured_in (send a b c d e ∷ es) = measured_in es
measured_in (report (welcomed id delay) ∷ es) = measured_in es
measured_in (report (measured rtt echo others) ∷ es) = measured_in es + 1
measured_in (print ∷ es) = measured_in es

unfoldable pub echoes_in : List Event → ℕ
echoes_in [] = 0
echoes_in (send a b c d e ∷ es) = echoes_in es
echoes_in (report (welcomed id delay) ∷ es) = echoes_in es
echoes_in (report (measured rtt none others) ∷ es) = echoes_in es
echoes_in (report (measured rtt (some echo) others) ∷ es) = echoes_in es + 1
echoes_in (print ∷ es) = echoes_in es

module _ (o : Math) (d : Drive) (quiet : Bool) (run : Duration) where
  -- No send comes after the deadline.
  abbrev pub InTime : Event → Type 0
  InTime (send now a b c e) = expired o d quiet run now ≡ false
  InTime (report r) = Unit {0}
  InTime print = Unit {0}

  -- The counters of a second are among those of the whole run, and every echo is a sample.
  pub record IsCounted (s : Sim) : Type 0 where
    pub echoes : s.echo_samples ≤ s.samples
    pub second_only : s.samples ≤ s.total_samples
    pub all_echoes : s.total_echo_samples ≤ s.total_samples
    pub seq : s.seq < 2 ^ 32

  -- What one event adds.
  record Adds (s : Sim) (e : Event) (t : Turn) : Type 0 where
    goes_on : t.returns ≡ false
    counted : IsCounted t.sim
    seq : t.sim.seq ≡ (s.seq + sends_in (e ∷ [])) % 2 ^ 32
    samples : t.sim.total_samples ≡ s.total_samples + measured_in (e ∷ [])
    echoes : t.sim.total_echo_samples ≡ s.total_echo_samples + echoes_in (e ∷ [])
    datagrams : length t.datagrams ≡ sends_in (e ∷ [])

  cleared-Adds :
      (s : Sim) (lines : List Printed)
      → IsCounted s
      → Adds s print (record {
        sim = cleared o d quiet run s;
        returns = false;
        datagrams = [];
        printed = lines;
      })
  unfolding cleared sends_in measured_in echoes_in
  cleared-Adds s lines k = record {
    goes_on = refl;
    counted = record {
      echoes = omega arith;
      second_only = omega arith;
      all_echoes = k.all_echoes;
      seq = k.seq;
    };
    seq = omega (arith, k.seq);
    samples = omega arith;
    echoes = omega arith;
    datagrams = refl;
  }

  turn-Adds : (s : Sim) (e : Event) → InTime e → IsCounted s → Adds s e (turn o d quiet run s e)
  unfolding turn on_send on_report on_print quietly count count_echo cleared sends_in measured_in
      echoes_in
  turn-Adds s (send now a b c e) h k = rw h (record {
    goes_on = refl;
    counted = record {
      echoes = k.echoes;
      second_only = k.second_only;
      all_echoes = k.all_echoes;
      seq = omega arith;
    };
    seq = refl;
    samples = omega arith;
    echoes = omega arith;
    datagrams = refl;
  })
  turn-Adds s (report (welcomed id delay)) h k = record {
    goes_on = refl;
    counted = record {
      echoes = k.echoes;
      second_only = k.second_only;
      all_echoes = k.all_echoes;
      seq = k.seq;
    };
    seq = omega (arith, k.seq);
    samples = omega arith;
    echoes = omega arith;
    datagrams = refl;
  }
  turn-Adds s (report (measured rtt none others)) h k = record {
    goes_on = refl;
    counted = record {
      echoes = omega (arith, k.echoes);
      second_only = omega (arith, k.second_only);
      all_echoes = omega (arith, k.all_echoes);
      seq = k.seq;
    };
    seq = omega (arith, k.seq);
    samples = omega arith;
    echoes = omega arith;
    datagrams = refl;
  }
  turn-Adds s (report (measured rtt (some (age, lag)) others)) h k = record {
    goes_on = refl;
    counted = record {
      echoes = omega (arith, k.echoes);
      second_only = omega (arith, k.second_only);
      all_echoes = omega (arith, k.all_echoes);
      seq = k.seq;
    };
    seq = omega (arith, k.seq);
    samples = omega arith;
    echoes = omega arith;
    datagrams = refl;
  }
  turn-Adds s print h k = elim (Bool-cases (quiet || (s.samples == 0))) [
    | inl t ↦ rw t (cleared-Adds s [] k)
    | inr t ↦ rw t (cleared-Adds s _ k)
  ]

  -- The whole loop, where no send comes after the deadline.
  pub record Counts (s : Sim) (es : List Event) (t : Turn) : Type 0 where
    pub goes_on : t.returns ≡ false
    pub counted : IsCounted t.sim
    pub seq : t.sim.seq ≡ (s.seq + sends_in es) % 2 ^ 32
    pub samples : t.sim.total_samples ≡ s.total_samples + measured_in es
    pub echoes : t.sim.total_echo_samples ≡ s.total_echo_samples + echoes_in es
    pub datagrams : length t.datagrams ≡ sends_in es

  sends_cons : (e : Event) (es : List Event) → sends_in (e ∷ es) ≡ sends_in (e ∷ []) + sends_in es
  unfolding sends_in
  sends_cons (send a b c d e) es = omega arith
  sends_cons (report r) es = omega arith
  sends_cons print es = omega arith

  measured_cons :
      (e : Event) (es : List Event) → measured_in (e ∷ es) ≡ measured_in (e ∷ []) + measured_in es
  unfolding measured_in
  measured_cons (send a b c d e) es = omega arith
  measured_cons (report (welcomed id delay)) es = omega arith
  measured_cons (report (measured rtt echo others)) es = omega arith
  measured_cons print es = omega arith

  echoes_cons :
      (e : Event) (es : List Event) → echoes_in (e ∷ es) ≡ echoes_in (e ∷ []) + echoes_in es
  unfolding echoes_in
  echoes_cons (send a b c d e) es = omega arith
  echoes_cons (report (welcomed id delay)) es = omega arith
  echoes_cons (report (measured rtt none others)) es = omega arith
  echoes_cons (report (measured rtt (some echo) others)) es = omega arith
  echoes_cons print es = omega arith

  loop-Counts :
      (s : Sim) (es : List Event)
      → All InTime es
      → IsCounted s
      → Counts s es (loop o d quiet run s es)
  unfolding loop quietly
  loop-Counts s [] h k =
      unfold sends_in measured_in echoes_in in
      record {
        goes_on = refl;
        counted = k;
        seq = omega (arith, k.seq);
        samples = omega arith;
        echoes = omega arith;
        datagrams = refl;
      }
  loop-Counts s (e ∷ es) h k =
      let t = turn o d quiet run s e in
      let a = turn-Adds s e h.0 k in
      let c = loop-Counts t.sim es h.1 a.counted in
      let rest = loop o d quiet run t.sim es in
      rw a.goes_on (record {
        goes_on = c.goes_on;
        counted = c.counted;
        seq = omega (arith, c.seq, a.seq, sends_cons e es);
        samples = omega (arith, c.samples, a.samples, measured_cons e es);
        echoes = omega (arith, c.echoes, a.echoes, echoes_cons e es);
        datagrams = omega (
          arith,
          length-append t.datagrams rest.datagrams,
          a.datagrams,
          c.datagrams,
          sends_cons e es,
        );
      })

  start-IsCounted : IsCounted (start_sim o d quiet run)
  unfolding start_sim
  start-IsCounted = record {
    echoes = omega arith;
    second_only = omega arith;
    all_echoes = omega arith;
    seq = omega arith;
  }

  -- The main loop from its start, for events in any number and order with no send after the
  -- deadline: it does not return; it has sent one State for every send; the sequence number is
  -- their number, modulo 2 ^ 32; the totals of the summary are the snapshots that were reported and
  -- those of them with an echo; and the counters of the second are at most those totals, with no
  -- more echoes than snapshots.
  pub loop_counts :
      (es : List Event)
      → All InTime es
      → let t = loop o d quiet run (start_sim o d quiet run) es in
        (t.returns ≡ false)
        × (length t.datagrams ≡ sends_in es)
        × (t.sim.seq ≡ sends_in es % 2 ^ 32)
        × (t.sim.total_samples ≡ measured_in es)
        × (t.sim.total_echo_samples ≡ echoes_in es)
        × IsCounted t.sim
  loop_counts es h =
      let c = loop-Counts (start_sim o d quiet run) es h start-IsCounted in
      let (seq, samples, echoes) = start_zero in
      (
        c.goes_on,
        c.datagrams,
        omega (arith, c.seq, seq),
        omega (arith, c.samples, samples),
        omega (arith, c.echoes, echoes),
        c.counted,
      )
    where
      start_zero :
          ((start_sim o d quiet run).seq ≡ 0)
          × ((start_sim o d quiet run).total_samples ≡ 0)
          × ((start_sim o d quiet run).total_echo_samples ≡ 0)
      start_zero = unfold start_sim in (refl, refl, refl)
