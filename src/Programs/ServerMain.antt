-- ===== src/Programs/ServerMain.antt =====
-- cmd/rbrmp-server/main.go: the flags, the server that it starts, and its exit status. Log lines and
-- the signal handler, which closes the socket, are not part of the model.
pub mod Started
use rbr_mp_server.Common.{
  ℕ, ◌+◌, ◌*◌, ◌/◌, List, [], ◌∷◌, Option, none, some, Bool, ◌||◌, if◌then◌else◌,
}
use rbr_mp_server.Common.Int.{ℤ, pos, negsuc, leb_ℤ, ltb_ℤ}
use rbr_mp_server.Common.Text.{Text}
use rbr_mp_server.Clock.{Time, Duration, second}
use rbr_mp_server.Server.Types.{Config, Server}
use rbr_mp_server.Server.Bans.{Json, Disk}
use rbr_mp_server.Server.Start.{new, started, failed}

-- The flags after flag.Parse, of those that the model of the server reads.
pub record Flags : Type 0 where
  pub addr : Text
  pub tick_hz : ℤ
  pub timeout : Duration
  pub stale : Duration
  pub stats : Duration
  pub verbose : Bool
  pub bans_path : Text
  pub rcon_password : Text

-- `*tickHz <= 0 || *tickHz > 240`
unfoldable pub tick_refused : ℤ → Bool
tick_refused hz = leb_ℤ hz (pos 0) || ltb_ℤ (pos 240) hz

-- `time.Second / time.Duration(*tickHz)`, where the check has let the number through.
unfoldable pub tick_period : ℤ → Duration
tick_period (pos n) = pos (second / n)
tick_period (negsuc n) = negsuc (second / (n + 1))

unfoldable pub config_of : Flags → Config
unfolding tick_period
config_of f = record {
  addr = f.addr;
  tick_at = tick_period f.tick_hz;
  timeout = f.timeout;
  stale = f.stale;
  verbose = f.verbose;
  stats = f.stats;
  bans_path = f.bans_path;
}

-- The flag, or RBRMP_RCON_PASSWORD from the environment.
unfoldable pub rcon_password_of : Text → Text → Text
rcon_password_of [] env = env
rcon_password_of (c ∷ cs) env = c ∷ cs

-- How Run returned: with net.ErrClosed, or with another error.
pub data RunEnd : Type 0 where
  closed_socket failed_read : RunEnd

-- The exit status, the server that was run, and the password with which the console was served.
pub record Ended : Type 0 where
  pub status : ℕ
  pub server : Option Server
  pub rcon : Option Text

unfoldable pub gave_up : ℕ → Ended
gave_up n = record { status = n; server = none; rcon = none }

unfoldable pub run_status : RunEnd → ℕ
run_status closed_socket = 0
run_status failed_read = 1

-- `listening` is whether the console's TCP address could be bound.
unfoldable pub serve : Text → Bool → RunEnd → Server → Ended
unfolding gave_up run_status
serve [] listening e s = record { status = run_status e; server = some s; rcon = none }
serve (c ∷ cs) listening e s =
    if listening
    then record { status = run_status e; server = some s; rcon = some (c ∷ cs) }
    else gave_up 1

-- `main`; the other parameters are those of `new`.
unfoldable pub main : Json → Bool → Disk → Bool → Bool → RunEnd → Time → Text → Flags → Ended
unfolding tick_refused config_of rcon_password_of gave_up serve
main j readable disk bound listening e now env f =
    if tick_refused f.tick_hz
    then gave_up 2
    else elim (new j readable disk bound (config_of f) now) [
      | failed ↦ gave_up 1
      | started s ↦ serve (rcon_password_of f.rcon_password env) listening e s
    ]
