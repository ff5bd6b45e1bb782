-- ===== src/Programs/ConsoleClient/Serving.antt =====
-- The bytes that cmd/clirbrmp/main.go writes, as the scanner of internal/server/rcon.go reads them.
use rbr_mp_server.Common.{
  ℕ, zero, suc, ◌+◌, ◌≤◌, ◌<◌, ◌≡◌, refl, ap, ◌∙◌, List, [], ◌∷◌, ◌++◌, map, arith, length,
  length-append, All,
}
use rbr_mp_server.Common.Text.{Text}
use rbr_mp_server.Server.Types.{Server}
use rbr_mp_server.Server.Bans.{Json}
use rbr_mp_server.Server.Admin.{Library}
use rbr_mp_server.Console.Listing.{Formats}
use rbr_mp_server.Console.Command.{Moment, Request}
use rbr_mp_server.Console.Session
use rbr_mp_server.Console.Session.{
  auth_prefix, before, ended_at, commands, rcon_session, rcon_max_line, requests, rcon_connection,
}
use rbr_mp_server.Console.Scanner.{read_lines}
use rbr_mp_server.Console.Fuel.{IsWhole, read_lines_next}
use rbr_mp_server.Programs.ConsoleClient.Dialogue.{line_of, on_the_wire}

pub length-on_the_wire : (ts : List Text) → length ts ≤ length (on_the_wire ts)
unfolding on_the_wire
length-on_the_wire [] = omega arith
length-on_the_wire (t ∷ ts) = omega (
  arith,
  length-on_the_wire ts,
  length-append (t ++ (b'\n' ∷ [])) (on_the_wire ts),
  length-append t (b'\n' ∷ []),
)

all_read :
    (fuel : ℕ) (ts : List Text)
    → length ts < fuel
    → All (IsWhole rcon_max_line) ts
    → read_lines rcon_max_line fuel (on_the_wire ts) ≡ ts
unfolding on_the_wire
all_read zero ts few h = absurd (omega arith)
all_read (suc fuel) [] few h = unfold read_lines in refl
all_read (suc fuel) (t ∷ ts) few h =
    read_lines_next rcon_max_line fuel t (on_the_wire ts) h.0
    ∙ ap (◌∷◌ t) (all_read fuel ts (omega arith) h.1)

-- The server's scanner, with its buffer of 4096 bytes, reads the lines that the client has written,
-- one for one, if each has no newline in it, does not end in a carriage return and fits the buffer.
pub read_lines-on_the_wire :
    (ts : List Text)
    → All (IsWhole rcon_max_line) ts
    → read_lines rcon_max_line (length (on_the_wire ts) + 1) (on_the_wire ts) ≡ ts
read_lines-on_the_wire ts h =
    all_read (length (on_the_wire ts) + 1) ts (omega (arith, length-on_the_wire ts)) h

abbrev pub moment_of : Request → Moment
moment_of r = record { now = r.now; later = r.later; files = r.files }

requests-map : (rs : List Request) → requests (map line_of rs) (map moment_of rs) ≡ rs
unfolding requests
requests-map [] = refl
requests-map (r ∷ rs) = ap (◌∷◌ r) (requests-map rs)

-- The server's side of a connection on which the client writes the lines of these requests.
abbrev pub serving : Library → Json → Formats → Text → Server → List Request → Session.Outcome
serving lib j fmt pw s rs =
    rcon_connection lib j fmt pw s (map moment_of rs) (on_the_wire (map line_of rs))

pub serving-rcon_session :
    (lib : Library) (j : Json) (fmt : Formats) (pw : Text) (s : Server) (rs : List Request)
    → All (IsWhole rcon_max_line) (map line_of rs)
    → serving lib j fmt pw s rs ≡ rcon_session lib j fmt pw s rs
unfolding rcon_connection
serving-rcon_session lib j fmt pw s rs whole =
    ap (λ ts. rcon_session lib j fmt pw s (requests ts (map moment_of rs)))
      (read_lines-on_the_wire (map line_of rs) whole)
    ∙ ap (rcon_session lib j fmt pw s) (requests-map rs)
