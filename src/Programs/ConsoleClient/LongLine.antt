-- ===== src/Programs/ConsoleClient/LongLine.antt =====
-- A line that is too long for the scanner of rconSession in internal/server/rcon.go.
use rbr_mp_server.Common.{
  ℕ, zero, suc, ◌+◌, ◌≤◌, ◌<◌, ◌≡◌, ◌≢◌, refl, ap, ◌∙◌, List, [], ◌∷◌, ◌++◌, map, arith, length,
  length-append, append_assoc, All,
}
use rbr_mp_server.Common.Text.{Text}
use rbr_mp_server.Server.Types.{Server}
use rbr_mp_server.Server.Bans.{Json}
use rbr_mp_server.Server.Admin.{Library}
use rbr_mp_server.Console.Listing.{Formats}
use rbr_mp_server.Console.Command.{Moment, Request}
use rbr_mp_server.Console.Scanner.{too_long, fitting, scan, read_lines}
use rbr_mp_server.Console.Session.{rcon_session, rcon_max_line, requests, rcon_connection}
use rbr_mp_server.Console.Fuel.{IsWhole, read_lines_next}
use rbr_mp_server.Console.Framing.{scan_cut, cut_line-append}
use rbr_mp_server.Programs.ConsoleClient.Dialogue.{line_of, on_the_wire}
use rbr_mp_server.Programs.ConsoleClient.Serving.{moment_of, length-on_the_wire}

scan_long :
    (limit : ℕ) (t rest : Text)
    → All (λ c. c ≢ b'\n') t
    → limit ≤ length t
    → scan limit (t ++ (b'\n' ∷ rest)) ≡ too_long
scan_long limit t rest inner long =
    scan_cut limit (t ++ (b'\n' ∷ rest)) t rest (cut_line-append t rest inner)
    ∙ unfold fitting in ground arith

read_up_to :
    (fuel : ℕ) (ts : List Text) (t rest : Text)
    → length ts < fuel
    → All (IsWhole rcon_max_line) ts
    → All (λ c. c ≢ b'\n') t
    → rcon_max_line ≤ length t
    → read_lines rcon_max_line fuel (on_the_wire ts ++ (t ++ (b'\n' ∷ rest))) ≡ ts
unfolding on_the_wire read_lines
read_up_to zero ts t rest few h inner long = absurd (omega arith)
read_up_to (suc fuel) [] t rest few h inner long =
    rw (scan_long rcon_max_line t rest inner long, read_lines) refl
read_up_to (suc fuel) (u ∷ us) t rest few h inner long =
    let more = on_the_wire us ++ (t ++ (b'\n' ∷ rest)) in
    ap (read_lines rcon_max_line (suc fuel))
      (append_assoc (u ++ (b'\n' ∷ [])) (on_the_wire us) (t ++ (b'\n' ∷ rest)))
    ∙ read_lines_next rcon_max_line fuel u more h.0
    ∙ ap (◌∷◌ u) (read_up_to fuel us t rest (omega arith) h.1 inner long)

requests-more :
    (rs : List Request) (ms : List Moment) → requests (map line_of rs) (map moment_of rs ++ ms) ≡ rs
unfolding requests
requests-more [] ms = refl
requests-more (r ∷ rs) ms = ap (◌∷◌ r) (requests-more rs ms)

-- A line of 4096 bytes or more ends the connection: the server runs the lines before it, which fit
-- its scanner, have no newline in them and do not end in a carriage return, exactly as if the
-- client had hung up there. Neither the long line nor anything that is written after it has an
-- effect or an answer.
pub long_line_hangs_up :
    (lib : Library) (j : Json) (fmt : Formats) (pw : Text) (s : Server) (rs : List Request)
    (ms : List Moment) (t rest : Text)
    → All (IsWhole rcon_max_line) (map line_of rs)
    → All (λ c. c ≢ b'\n') t
    → rcon_max_line ≤ length t
    → rcon_connection lib j fmt pw s
        (map moment_of rs ++ ms)
        (on_the_wire (map line_of rs) ++ (t ++ (b'\n' ∷ rest)))
      ≡ rcon_session lib j fmt pw s rs
unfolding rcon_connection
long_line_hangs_up lib j fmt pw s rs ms t rest whole inner long =
    let sent = on_the_wire (map line_of rs) ++ (t ++ (b'\n' ∷ rest)) in
    ap (λ ts. rcon_session lib j fmt pw s (requests ts (map moment_of rs ++ ms)))
      (read_up_to (length sent + 1) (map line_of rs) t rest
        (omega (
          arith,
          length-on_the_wire (map line_of rs),
          length-append (on_the_wire (map line_of rs)) (t ++ (b'\n' ∷ rest)),
        ))
        whole inner long)
    ∙ ap (rcon_session lib j fmt pw s) (requests-more rs ms)
