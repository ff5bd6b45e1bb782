-- ===== src/Console/Scanner.antt =====
-- bufio.Scanner with ScanLines and a buffer of `limit` bytes, as internal/server/rcon.go and
-- cmd/clirbrmp/main.go use it, on all the bytes that a connection brings.
use rbr_mp_server.Common.{
  ℕ, zero, suc, List, [], ◌∷◌, Option, none, some, if◌then◌else◌, ltb, ◌==◌, length,
}
use rbr_mp_server.Common.Text.{Text}

-- The bytes before the first newline, and those after it.
unfoldable pub cut_line : Text → Option (Text × Text)
cut_line [] = none
cut_line (c ∷ cs) =
    let more = cut_line cs in
    if c == b'\n'
    then some ([], cs)
    else elim more [ none ↦ none | some (line, rest) ↦ some (c ∷ line, rest) ]

-- Without one carriage return at the end.
unfoldable pub drop_cr : Text → Text
drop_cr [] = []
drop_cr (c ∷ []) = if c == b'\r' then [] else c ∷ []
drop_cr (c ∷ d ∷ cs) = c ∷ drop_cr (d ∷ cs)

-- What Scan makes of the stream: a line and the rest, the end, or an error.
pub data Scanned : Type 0 where
  token : Text → Text → Scanned
  ended too_long : Scanned

-- A line and its newline fit the buffer.
unfoldable pub fitting : ℕ → Text → Text → Scanned
unfolding drop_cr
fitting limit line rest = if ltb (length line) limit then token (drop_cr line) rest else too_long

unfoldable pub scan : ℕ → Text → Scanned
unfolding cut_line fitting
scan limit [] = ended
scan limit (c ∷ cs) = elim (cut_line (c ∷ cs)) [
  | some (line, rest) ↦ fitting limit line rest
  | none ↦ fitting limit (c ∷ cs) []
]

-- The lines of a stream, up to its end or to the first line that is too long. A line takes at least
-- one byte, so that as much fuel as there are bytes is enough.
unfoldable pub read_lines : ℕ → ℕ → Text → List Text
unfolding scan
read_lines limit zero stream = []
read_lines limit (suc fuel) stream = elim (scan limit stream) [
  | ended ↦ []
  | too_long ↦ []
  | token line rest ↦ let more = read_lines limit fuel rest in line ∷ more
]
