-- ===== src/Console/Session.antt =====
-- rconSession of internal/server/rcon.go: a connection, its scanner, and the lines that this gives.
use rbr_mp_server.Common.{
  ℕ, ◌+◌, ◌*◌, length, List, [], ◌∷◌, ◌++◌, none, some, Bool, true, false, if◌then◌else◌,
}
use rbr_mp_server.Common.Text.{Text, text_eq}
use rbr_mp_server.Server.Types.{Server, Outgoing}
use rbr_mp_server.Server.Bans.{Json}
use rbr_mp_server.Server.Admin.{Library}
use rbr_mp_server.Console.Words.{trim_space}
use rbr_mp_server.Console.Response.{cut_prefix, write_response}
use rbr_mp_server.Console.Scanner.{read_lines}
use rbr_mp_server.Console.Messages.{quit_cmd}
use rbr_mp_server.Console.Listing.{Formats}
use rbr_mp_server.Console.Command.{Moment, Request, rcon_command}

-- "AUTH " and "auth failed"
abbrev pub auth_prefix : Text
auth_prefix = b'A' ∷ b'U' ∷ b'T' ∷ b'H' ∷ b' ' ∷ []

abbrev pub auth_failed : Text
auth_failed = b'a' ∷ b'u' ∷ b't' ∷ b'h' ∷ b' ' ∷ b'f' ∷ b'a' ∷ b'i' ∷ b'l' ∷ b'e' ∷ b'd' ∷ []

-- What a session has done when it ends: the state, the datagrams, the bytes that it wrote to the
-- connection, and whether it panicked.
pub record Outcome : Type 0 where
  pub server : Server
  pub sent : List Outgoing
  pub output : Text
  pub panicked : Bool

unfoldable pub ended_at : Server → Outcome
ended_at s = record { server = s; sent = []; output = []; panicked = false }

unfoldable pub panicked_at : Server → Outcome
panicked_at s = record { server = s; sent = []; output = []; panicked = true }

-- `rconMaxLine`
abbrev pub rcon_max_line : ℕ
rcon_max_line = 4 * 1024

-- The lines that come, each at its moment. After the last moment no line comes in time any more.
unfoldable pub requests : List Text → List Moment → List Request
requests [] ms = []
requests (t ∷ ts) [] = []
requests (t ∷ ts) (m ∷ ms) =
    record { line = t; now = m.now; later = m.later; files = m.files } ∷ requests ts ms

-- Something that is sent and written before the rest of the session.
unfoldable pub before : List Outgoing → Text → Outcome → Outcome
before sent output o = record o { sent = sent ++ o.sent; output = output ++ o.output }

module _ (lib : Library) (j : Json) (fmt : Formats) where
  -- The loop over the commands.
  unfoldable pub commands : Server → List Request → Outcome
  unfolding ended_at panicked_at before
  commands s [] = ended_at s
  commands s (r ∷ rs) =
      let line = trim_space r.line in
      let blank = commands s rs in
      if text_eq line []
      then before [] (write_response [] none) blank
      else elim (rcon_command lib j fmt s (record r { line = line })) [
        | none ↦ panicked_at s
        | some reply ↦
            let next = commands reply.server rs in
            before reply.sent (write_response reply.lines reply.error)
              (if text_eq line quit_cmd then ended_at reply.server else next)
      ]

  -- The first line must be "AUTH " and the password.
  unfoldable pub rcon_session : Text → Server → List Request → Outcome
  unfolding commands ended_at before
  rcon_session password s [] = ended_at s
  rcon_session password s (r ∷ rs) = elim (cut_prefix auth_prefix (trim_space r.line)) [
    | none ↦ before [] (write_response [] (some auth_failed)) (ended_at s)
    | some pw ↦
        if text_eq pw password
        then before [] (write_response [] none) (commands s rs)
        else before [] (write_response [] (some auth_failed)) (ended_at s)
  ]

  -- A connection that the client writes these bytes to: the session gets the lines of its scanner,
  -- and ends where there are no more or one does not fit the buffer.
  unfoldable pub rcon_connection : Text → Server → List Moment → Text → Outcome
  unfolding rcon_session requests
  rcon_connection password s moments stream =
      rcon_session password s
        (requests (read_lines rcon_max_line (length stream + 1) stream) moments)
