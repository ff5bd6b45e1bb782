-- ===== src/Console/Response.antt =====
-- How rconSession of internal/server/rcon.go writes a response, and how `response` of
-- cmd/clirbrmp/main.go reads it.
use rbr_mp_server.Common.{
  ℕ, zero, suc, ◌*◌, List, [], ◌∷◌, ◌++◌, Option, none, some, if◌then◌else◌, ◌==◌,
}
use rbr_mp_server.Common.Text.{Text, text_eq}
use rbr_mp_server.Console.Scanner.{token, ended, too_long, scan}

-- "OK" and "ERR "
abbrev pub ok_line : Text
ok_line = b'O' ∷ b'K' ∷ []

abbrev pub err_prefix : Text
err_prefix = b'E' ∷ b'R' ∷ b'R' ∷ b' ' ∷ []

unfoldable pub payload_line : Text → Text
payload_line p = b'|' ∷ b' ' ∷ (p ++ (b'\n' ∷ []))

unfoldable pub terminator : Option Text → Text
terminator none = ok_line ++ (b'\n' ∷ [])
terminator (some e) = err_prefix ++ (e ++ (b'\n' ∷ []))

unfoldable pub write_response : List Text → Option Text → Text
unfolding payload_line terminator
write_response [] err = terminator err
write_response (p ∷ ps) err = payload_line p ++ write_response ps err

-- `strings.CutPrefix(line, prefix)`
unfoldable pub cut_prefix : Text → Text → Option Text
cut_prefix [] line = some line
cut_prefix (p ∷ ps) [] = none
cut_prefix (p ∷ ps) (c ∷ cs) = let rest = cut_prefix ps cs in if p == c then rest else none

-- `strings.TrimPrefix(line, "| ")`
unfoldable pub strip_bar : Text → Text
unfolding cut_prefix
strip_bar line = elim (cut_prefix (b'|' ∷ b' ' ∷ []) line) [ none ↦ line | some rest ↦ rest ]

-- What `response` returns: no error, the server's error, errClosed or the scanner's error.
pub data Verdict : Type 0 where
  accepted : Verdict
  refused : Text → Verdict
  closed broken : Verdict

-- `sc.Buffer(make([]byte, 64*1024), 64*1024)`
abbrev pub client_limit : ℕ
client_limit = 64 * 1024

-- What a line is in a response.
pub data Line : Type 0 where
  last_ok : Line
  last_err : Text → Line
  payload : Text → Line

unfoldable pub classify : Text → Line
unfolding strip_bar
classify line =
    if text_eq line ok_line
    then last_ok
    else elim (cut_prefix err_prefix line) [ some e ↦ last_err e | none ↦ payload (strip_bar line) ]

-- The payload lines that the client prints, the verdict, and the bytes that are left. A line takes at
-- least one byte, so that as much fuel as there are bytes is enough.
unfoldable pub response : ℕ → Text → List Text × Verdict × Text
unfolding scan classify
response zero stream = ([], closed, stream)
response (suc fuel) stream = elim (scan client_limit stream) [
  | ended ↦ ([], closed, [])
  | too_long ↦ ([], broken, stream)
  | token line rest ↦
      let (out, verdict, left) = response fuel rest in
      elim (classify line) [
        | last_ok ↦ ([], accepted, rest)
        | last_err e ↦ ([], refused e, rest)
        | payload p ↦ (p ∷ out, verdict, left)
      ]
]
