-- ===== src/Programs/ConsoleClient.antt =====
-- cmd/clirbrmp/main.go: the password, the connection, the one-shot command and the interactive loop.
-- What the prompt and the log lines say is not part of the model.
pub mod Dialogue
pub mod Serving
pub mod Login
pub mod LongLine
use rbr_mp_server.Common.{
  ℕ, zero, suc, ◌+◌, List, [], ◌∷◌, ◌++◌, map, Option, none, some, Bool, true, false, ◌||◌,
  if◌then◌else◌, length, take,
}
use rbr_mp_server.Common.Text.{Text, text_eq}
use rbr_mp_server.Console.Words.{trim_space, join_words}
use rbr_mp_server.Console.Messages.{quit_cmd}
use rbr_mp_server.Console.Response.{
  Verdict, accepted, refused, closed, broken, client_limit, last_ok, last_err, payload, classify,
  response,
}
use rbr_mp_server.Console.Scanner.{drop_cr}
use rbr_mp_server.Console.Session.{auth_prefix}

-- The connection and the scanner on it: the bytes that the server writes, how many writes to it go
-- through, and what a scanner that has failed with ErrTooLong still holds in its buffer.
pub record Conn : Type 0 where
  pub incoming : Text
  pub writes_left : ℕ
  pub failed : Option Text

-- The error that `run` returns: that of the write, or of `response`.
pub data Result : Type 0 where
  unwritten : Result
  answered : Verdict → Result

-- What the program prints: a payload line, its help text, or an error.
pub data Shown : Type 0 where
  line : Text → Shown
  help : Shown
  complaint : Result → Shown

-- `fmt.Fprintf(conn, "%s\n", line)`: the bytes written, if the write goes through.
unfoldable pub write_line : Conn → Text → Option (Conn × Text)
write_line c text = elim c.writes_left [
  | zero ↦ none
  | suc n ↦ some (record c { writes_left = n }, text ++ (b'\n' ∷ []))
]

-- The scanner after `response`: a line that was too long has filled its buffer.
unfoldable pub settled : Verdict → Conn → Text → Conn
settled accepted c left = record c { incoming = left }
settled (refused e) c left = record c { incoming = left }
settled closed c left = record c { incoming = left }
settled broken c left = record c { incoming = left; failed = some (take client_limit left) }

-- `response` on a scanner that has failed: Scan gives what is in the buffer once, and then nothing.
unfoldable pub response_failed : Text → List Text × Verdict
response_failed [] = ([], broken)
response_failed (x ∷ xs) = elim (classify (drop_cr (x ∷ xs))) [
  | last_ok ↦ ([], accepted)
  | last_err e ↦ ([], refused e)
  | payload p ↦ (p ∷ [], broken)
]

-- `response(sc, out)`. Every line takes a byte of the stream.
unfoldable pub read_response : Conn → List Text × Verdict × Conn
unfolding settled response_failed
read_response c =
    let (out, verdict, left) = response (length c.incoming + 1) c.incoming in
    elim c.failed [
      | none ↦ (out, verdict, settled verdict c left)
      | some held ↦
          let (out', verdict') = response_failed held in
          (out', verdict', record c { failed = some [] })
    ]

-- What `run` wrote, printed and returned.
pub record Called : Type 0 where
  pub conn : Conn
  pub sent : Text
  pub printed : List Text
  pub result : Result

unfoldable pub call : Conn → Text → Called
unfolding write_line read_response
call c text = elim (write_line c text) [
  | none ↦ record { conn = c; sent = []; printed = []; result = unwritten }
  | some (c', bytes) ↦
      let (out, verdict, c'') = read_response c' in
      record { conn = c''; sent = bytes; printed = out; result = answered verdict }
]

abbrev pub is_nil : Result → Bool
is_nil (answered accepted) = true
is_nil (answered (refused e)) = false
is_nil (answered closed) = false
is_nil (answered broken) = false
is_nil unwritten = false

-- `if _, netErr := err.(net.Error); netErr || err == errClosed { return }`: a failed write is a
-- net.Error; the scanner's ErrTooLong is not.
abbrev pub is_fatal : Result → Bool
is_fatal unwritten = true
is_fatal (answered accepted) = false
is_fatal (answered (refused e)) = false
is_fatal (answered closed) = true
is_fatal (answered broken) = false

-- "help" and "exit"
abbrev pub help_word : Text
help_word = b'h' ∷ b'e' ∷ b'l' ∷ b'p' ∷ []

abbrev pub exit_word : Text
exit_word = b'e' ∷ b'x' ∷ b'i' ∷ b't' ∷ []

-- The bytes that the program has written to the connection, what it has printed, and its exit status.
pub record Outcome : Type 0 where
  pub sent : Text
  pub shown : List Shown
  pub status : ℕ

unfoldable pub stopped : ℕ → Outcome
stopped n = record { sent = []; shown = []; status = n }

unfoldable pub after : Text → List Shown → Outcome → Outcome
after sent shown o = record o { sent = sent ++ o.sent; shown = shown ++ o.shown }

-- The lines that one command prints, and its error.
unfoldable pub report : Called → List Shown
report r = map line r.printed ++ (if is_nil r.result then [] else complaint r.result ∷ [])

-- The interactive loop, over the lines that the user types until the end of the input.
unfoldable pub interactive : Conn → List Text → Outcome
unfolding call stopped after report
interactive c [] = stopped 0
interactive c (t ∷ ts) =
    let text = trim_space t in
    let skip = interactive c ts in
    let r = call c text in
    let next = interactive r.conn ts in
    let bye = call c quit_cmd in
    if text_eq text []
    then skip
    else if text_eq text help_word
    then after [] (help ∷ []) skip
    else if text_eq text exit_word || text_eq text quit_cmd
    then after bye.sent (map line bye.printed) (stopped 0)
    else after r.sent (report r) (if is_fatal r.result then stopped 0 else next)

-- The command of the command line.
unfoldable pub one_shot : Conn → Text → Outcome
unfolding call report after stopped
one_shot c text =
    let r = call c text in after r.sent (report r) (stopped (if is_nil r.result then 0 else 1))

-- `pw := *password; if pw == "" { pw = os.Getenv("RBRMP_RCON_PASSWORD") }`
unfoldable pub choose_password : Text → Text → Text
choose_password [] env = env
choose_password (c ∷ cs) env = c ∷ cs

-- After the greeting: the command of the command line, or the prompt.
unfoldable pub work : Conn → List Text → List Text → Outcome
unfolding one_shot interactive
work c [] typed = interactive c typed
work c (a ∷ as_given) typed = one_shot c (join_words (a ∷ as_given))

-- The connection is authenticated: "AUTH " and the password, whose response must be OK.
unfoldable pub greet : Conn → Text → List Text → List Text → Outcome
unfolding call work after stopped
greet c pw args typed =
    let r = call c (auth_prefix ++ pw) in
    let rest = work r.conn args typed in
    after r.sent []
      (if is_nil r.result then rest else after [] (complaint r.result ∷ []) (stopped 1))

-- `main`, where `dialed` is the connection unless it could not be made. Without a password, the
-- program stops before it dials.
unfoldable pub main : Text → Text → Option Conn → List Text → List Text → Outcome
unfolding choose_password greet stopped
main flag env dialed args typed = elim (choose_password flag env) [
  | [] ↦ stopped 1
  | c ∷ cs ↦ elim dialed [ none ↦ stopped 1 | some conn ↦ greet conn (c ∷ cs) args typed ]
]
