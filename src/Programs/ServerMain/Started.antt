-- ===== src/Programs/ServerMain/Started.antt =====
-- What cmd/rbrmp-server/main.go guarantees of the server that it runs.
use rbr_mp_server.Common.{
  ℕ, zero, suc, ◌+◌, ◌-◌, ◌⊎◌, ◌/◌, ◌%◌, ◌^◌, ◌≤◌, ◌<◌, ◌≡◌, ◌≢◌, refl, sym, ap, subst, ◌∙◌, inl,
  inr, [], ◌∷◌, Option, some, Bool, true, false, ◌&&◌, ◌==◌, arith, Bool-cases, ltb,
}
use rbr_mp_server.Common.Int.{ℤ, pos, negsuc, ◌≤ℤ◌}
use rbr_mp_server.Common.Text.{Text}
use rbr_mp_server.Clock.{Time, second}
use rbr_mp_server.Server.Types.{Config, BanList, Server}
use rbr_mp_server.Server.Bans.{Json, Disk, Loaded, loaded, unreadable, unparsable, load_bans}
use rbr_mp_server.Server.Session.{tick_rate}
use rbr_mp_server.Server.Start.{Started, new, started, failed, or_default, normalize, fresh_server}
use rbr_mp_server.Programs.ServerMain.{
  Flags, tick_refused, tick_period, config_of, rcon_password_of, RunEnd, Ended, gave_up, serve,
  main,
}

-- Every number below `n` passes the test.
unfoldable all_below : ℕ → (ℕ → Bool) → Bool
all_below zero p = true
all_below (suc n) p = p n && all_below n p

all_below-lt : (n k : ℕ) (p : ℕ → Bool) → all_below n p ≡ true → k < n → p k ≡ true
unfolding all_below
all_below-lt zero k p h lt = absurd (omega arith)
all_below-lt (suc n) k p h lt = elim (Bool-cases (k == n)) [
  | inl e ↦ let same : k ≡ n = ground arith in rw same (ground arith)
  | inr e ↦ all_below-lt n k p (ground arith) (ground arith)
]

-- The rate that 1 + k ticks per second are announced as.
abbrev announced : ℕ → Bool
announced k = second / (second / (k + 1)) % 2 ^ 16 == k + 1

all_announced : all_below 240 announced ≡ true
unfolding all_below
all_announced = refl

-- For every rate that `main` lets through, the Welcome announces that rate, although the period is
-- rounded down to whole nanoseconds and the rate is computed back from it.
pub tick_rate-tick_period : (n : ℕ) → 1 ≤ n → n ≤ 240 → tick_rate (tick_period (pos n)) ≡ n
unfolding tick_rate tick_period
tick_rate-tick_period n low high =
    let found = all_below-lt 240 (n - 1) announced all_announced (omega arith) in
    let back : n - 1 + 1 ≡ n = omega arith in
    subst (λ m. second / (second / m) % 2 ^ 16 ≡ m) back (ground (arith, found))

Loaded-cases :
    (l : Loaded) → ((bans : BanList) × (l ≡ loaded bans)) ⊎ ((l ≡ unreadable) ⊎ (l ≡ unparsable))
Loaded-cases (loaded bans) = inl (bans, refl)
Loaded-cases unreadable = inr (inl refl)
Loaded-cases unparsable = inr (inr refl)

new_started :
    (j : Json) (readable : Bool) (disk : Disk) (bound : Bool) (cfg : Config) (now : Time)
    (s : Server)
    → new j readable disk bound cfg now ≡ started s
    → (bans : BanList) × (s ≡ fresh_server (normalize cfg) bans now)
unfolding new
new_started j readable disk bound cfg now s e =
    elim (Loaded-cases (load_bans j readable (normalize cfg).bans_path disk)) [
      | inl (bans, l) ↦ (bans, ground (arith, Bool-cases bound))
      | inr (inl l) ↦ absurd (ground arith)
      | inr (inr l) ↦ absurd (ground arith)
    ]

Started-cases : (r : Started) → (r ≡ failed) ⊎ ((s : Server) × (r ≡ started s))
Started-cases failed = inl refl
Started-cases (started s) = inr (s, refl)

rate_allowed : (hz : ℤ) → tick_refused hz ≡ false → (n : ℕ) × (hz ≡ pos n) × (1 ≤ n) × (n ≤ 240)
unfolding tick_refused
rate_allowed (pos n) h = (n, refl, ground arith, ground arith)
rate_allowed (negsuc n) h = absurd (ground arith)

serve_runs :
    (pw : Text) (listening : Bool) (e : RunEnd) (s t : Server)
    → (serve pw listening e s).server ≡ some t
    → (t ≡ s) × ((serve pw listening e s).rcon ≢ some [])
unfolding serve gave_up
serve_runs [] listening e s t h = (ground arith, λ p. cc)
serve_runs (c ∷ cs) true e s t h = (ground arith, λ p. cc)
serve_runs (c ∷ cs) false e s t h = absurd (ground arith)

abbrev nonzero : ℕ → Bool
nonzero k = ltb 0 (second / (k + 1))

all_nonzero : all_below 240 nonzero ≡ true
unfolding all_below
all_nonzero = refl

period_positive : (n : ℕ) → 1 ≤ n → n ≤ 240 → 0 < second / n
period_positive n low high =
    let found = all_below-lt 240 (n - 1) nonzero all_nonzero (omega arith) in
    let back : n - 1 + 1 ≡ n = omega arith in
    subst (λ m. 0 < second / m) back (ground (arith, found))

kept : (q : ℕ) → 0 < q → or_default (pos q) (pos (second / 30)) ≡ pos q
unfolding or_default
kept q h = ground arith

-- The period of an allowed rate is positive, so that `New` leaves it.
normalized_rate :
    (f : Flags) (n : ℕ)
    → f.tick_hz ≡ pos n
    → 1 ≤ n
    → n ≤ 240
    → tick_rate (normalize (config_of f)).tick_at ≡ n
unfolding normalize config_of or_default tick_period
normalized_rate f n e low high =
    let positive : 0 < second / n = period_positive n low high in
    rw e (ap tick_rate (kept (second / n) positive) ∙ tick_rate-tick_period n low high)

no_server : (k : ℕ) (s : Server) → (gave_up k).server ≡ some s → ⊥
unfolding gave_up
no_server k s p = cc

-- What `main` has checked and built when it runs a server.
pub record IsServing (f : Flags) (now : Time) (s : Server) (rcon : Option Text) : Type 0 where
  pub hz : ℕ
  pub asked : f.tick_hz ≡ pos hz
  pub announced : tick_rate s.cfg.tick_at ≡ hz
  pub bans : BanList
  pub fresh : s ≡ fresh_server (normalize (config_of f)) bans now
  pub guarded : rcon ≢ some []

-- Whatever the flags, the environment and the outside world are: a server that `main` runs is a
-- fresh one with the flags' configuration; its tick rate is the one that was asked for, between 1
-- and 240 Hz, and the one that its Welcomes announce; and the console is never served with an empty
-- password.
pub main-IsServing :
    (j : Json) (readable : Bool) (disk : Disk) (bound listening : Bool) (e : RunEnd) (now : Time)
    (env : Text) (f : Flags) (s : Server)
    → (main j readable disk bound listening e now env f).server ≡ some s
    → (pos 1 ≤ℤ f.tick_hz)
      × (f.tick_hz ≤ℤ pos 240)
      × IsServing f now s (main j readable disk bound listening e now env f).rcon
main-IsServing j readable disk bound listening e now env f s h =
    elim (Bool-cases (tick_refused f.tick_hz)) [
      | inl bad ↦ absurd (no_server 2 s (ap (λ (r : Ended). r.server) (sym (main_refused bad)) ∙ h))
      | inr good ↦ elim (Started-cases (new j readable disk bound (config_of f) now)) [
        | inl none_made ↦
            absurd
              (no_server 1 s (ap (λ (r : Ended). r.server) (sym (main_failed good none_made)) ∙ h))
        | inr (made, p) ↦
            let (n, asked, low, high) = rate_allowed f.tick_hz good in
            let run = main_serves good made p in
            let pw = rcon_password_of f.rcon_password env in
            let (same, guarded) =
              serve_runs pw listening e made s (ap (λ (r : Ended). r.server) (sym run) ∙ h) in
            let (bans, fresh) = new_started j readable disk bound (config_of f) now made p in
            let built = same ∙ fresh in
            (
              rw asked (omega arith),
              rw asked (omega arith),
              record {
                hz = n;
                asked = asked;
                announced =
                    ap (λ (t : Server). tick_rate t.cfg.tick_at) built
                    ∙ unfold fresh_server in normalized_rate f n asked low high;
                bans = bans;
                fresh = built;
                guarded = subst (λ (r : Ended). r.rcon ≢ some []) (sym run) guarded;
              },
            )
      ]
    ]
  where
    main_refused :
        tick_refused f.tick_hz ≡ true → main j readable disk bound listening e now env f ≡ gave_up 2
    main_refused bad = unfold main in rw bad refl

    main_failed :
        tick_refused f.tick_hz ≡ false
        → new j readable disk bound (config_of f) now ≡ failed
        → main j readable disk bound listening e now env f ≡ gave_up 1
    main_failed good p = unfold main in rw (good, p) refl

    main_serves :
        tick_refused f.tick_hz ≡ false
        → (made : Server) → new j readable disk bound (config_of f) now ≡ started made
        → main j readable disk bound listening e now env f
          ≡ serve (rcon_password_of f.rcon_password env) listening e made
    main_serves good made p = unfold main in rw (good, p) refl
