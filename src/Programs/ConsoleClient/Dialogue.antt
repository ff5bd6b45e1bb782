-- ===== src/Programs/ConsoleClient/Dialogue.antt =====
-- cmd/clirbrmp/main.go and rconSession of internal/server/rcon.go at the two ends of one connection.
use rbr_mp_server.Common.{
  ℕ, zero, suc, ◌+◌, ◌≤◌, ◌<◌, ◌≡◌, refl, ap, ◌∙◌, List, [], ◌∷◌, ◌++◌, map, Option, none, some,
  false, arith, length, All, length-append, append-nil,
}
use rbr_mp_server.Common.Text.{Text, text_eq}
use rbr_mp_server.Server.Types.{Server}
use rbr_mp_server.Server.Bans.{Json}
use rbr_mp_server.Server.Admin.{Library}
use rbr_mp_server.Console.Words.{trim_space}
use rbr_mp_server.Console.Messages.{quit_cmd}
use rbr_mp_server.Console.Listing.{Formats}
use rbr_mp_server.Console.Command.{Request, Reply, rcon_command}
use rbr_mp_server.Console.Response.{payload_line, write_response, Verdict, refused}
use rbr_mp_server.Console.Session.{ended_at, before, commands}
use rbr_mp_server.Console.Safe.{commands_reply}
use rbr_mp_server.Console.Framing.{IsLine, IsError, verdict_of, response-write_response}
use rbr_mp_server.Programs.ConsoleClient.{
  Conn, answered, Shown, line, complaint, settled, write_line, read_response, call, is_fatal,
  help_word, exit_word, stopped, after, report, interactive,
}

-- A response has more bytes than payload lines.
length-write_response :
    (ps : List Text) (e : Option Text) → length ps ≤ length (write_response ps e)
unfolding write_response payload_line
length-write_response [] e = omega arith
length-write_response (p ∷ ps) e = omega (
  arith,
  length-append (b'|' ∷ b' ' ∷ (p ++ (b'\n' ∷ []))) (write_response ps e),
  length-write_response ps e,
)

-- The connection with `n` writes left, on which the server has written, or will write, `incoming`.
abbrev pub conn : Text → ℕ → Conn
conn incoming n = record { incoming = incoming; writes_left = n; failed = none }

read_whole :
    (n : ℕ) (ps : List Text) (e : Option Text) (rest : Text)
    → All IsLine ps
    → IsError e
    → read_response (conn (write_response ps e ++ rest) n) ≡ (ps, verdict_of e, conn rest n)
unfolding read_response
read_whole n ps e rest h k =
    let stream = write_response ps e ++ rest in
    let enough : length ps < length stream + 1 =
      omega (arith, length-write_response ps e, length-append (write_response ps e) rest) in
    ap (λ (r : List Text × Verdict × Text). (r.0, r.1, settled r.1 (conn stream n) r.2))
      (response-write_response (length stream + 1) ps e rest enough h k)
    ∙ ap (λ (c : Conn). (ps, verdict_of e, c)) (settled_answer e)
  where
    settled_answer :
        (e' : Option Text)
        → settled (verdict_of e') (conn (write_response ps e ++ rest) n) rest ≡ conn rest n
    settled_answer none = unfold settled in refl
    settled_answer (some x) = unfold settled in refl

-- One call: the line goes out, and exactly its response is read.
pub call-answered :
    (text : Text) (n : ℕ) (ps : List Text) (e : Option Text) (rest : Text)
    → All IsLine ps
    → IsError e
    → call (conn (write_response ps e ++ rest) (suc n)) text ≡ record {
      conn = conn rest n;
      sent = text ++ (b'\n' ∷ []);
      printed = ps;
      result = answered (verdict_of e);
    }
unfolding call write_line
call-answered text n ps e rest h k =
    ap
      (λ (r : List Text × Verdict × Conn). record {
        conn = r.2;
        sent = text ++ (b'\n' ∷ []);
        printed = r.0;
        result = answered r.1;
      })
      (read_whole n ps e rest h k)

-- What the user sees of one response.
abbrev pub shown_of : List Text → Option Text → List Shown
shown_of ps none = map line ps
shown_of ps (some e) = map line ps ++ (complaint (answered (refused e)) ∷ [])

pub report-answered :
    (c : Conn) (sent : Text) (ps : List Text) (e : Option Text)
    → report (record { conn = c; sent = sent; printed = ps; result = answered (verdict_of e) })
      ≡ shown_of ps e
unfolding report
report-answered c sent ps none = append-nil (map line ps)
report-answered c sent ps (some e) = refl

not_fatal : (e : Option Text) → is_fatal (answered (verdict_of e)) ≡ false
not_fatal none = refl
not_fatal (some e) = refl

-- A line that the loop passes on to the server as it is.
pub record IsCommand (text : Text) : Type 0 where
  pub trimmed : trim_space text ≡ text
  pub typed : text_eq text [] ≡ false
  pub not_help : text_eq text help_word ≡ false
  pub not_exit : text_eq text exit_word ≡ false
  pub not_quit : text_eq text quit_cmd ≡ false

interactive_step :
    (c : Conn) (text : Text) (ts : List Text)
    → IsCommand text
    → is_fatal (call c text).result ≡ false
    → let r = call c text in
      interactive c (text ∷ ts) ≡ after r.sent (report r) (interactive r.conn ts)
unfolding interactive
interactive_step c text ts h alive =
    rw (h.trimmed, h.typed, h.not_help, h.not_exit, h.not_quit, alive) refl

-- The lines as they are written to the connection.
unfoldable pub on_the_wire : List Text → Text
on_the_wire [] = []
on_the_wire (t ∷ ts) = (t ++ (b'\n' ∷ [])) ++ on_the_wire ts

abbrev pub line_of : Request → Text
line_of r = r.line

module _ (lib : Library) (j : Json) (fmt : Formats) where
  -- The commands as procedure calls: each is run on the server that the one before it left, and the
  -- user sees the payload lines and the error of each, in their order.
  pub data Talks : Server → List Request → List Shown → Server → Type 0 where
    silence : (s : Server) → Talks s [] [] s
    exchange :
        (s t : Server) (r : Request) (reply : Reply) (rs : List Request) (shown : List Shown)
        → IsCommand r.line
        → rcon_command lib j fmt s (record r { line = trim_space r.line }) ≡ some reply
        → All IsLine reply.lines
        → IsError reply.error
        → Talks reply.server rs shown t
        → Talks s (r ∷ rs) (shown_of reply.lines reply.error ++ shown) t

  pub commands_step :
      (s : Server) (r : Request) (rs : List Request) (reply : Reply)
      → IsCommand r.line
      → rcon_command lib j fmt s (record r { line = trim_space r.line }) ≡ some reply
      → commands lib j fmt s (r ∷ rs)
        ≡ before reply.sent
            (write_response reply.lines reply.error)
            (commands lib j fmt reply.server rs)
  commands_step s r rs reply h e =
      commands_reply lib j fmt s r rs reply (rw h.trimmed h.typed) e
      ∙ rw (h.trimmed, h.not_quit) refl

  -- The two ends of the connection.
  pub record Agree (s t : Server) (rs : List Request) (shown : List Shown) (n : ℕ) : Type 0 where
    pub printed :
        (interactive (conn (commands lib j fmt s rs).output n) (map line_of rs)).shown ≡ shown
    pub status : (interactive (conn (commands lib j fmt s rs).output n) (map line_of rs)).status ≡ 0
    pub sent :
        (interactive (conn (commands lib j fmt s rs).output n) (map line_of rs)).sent
        ≡ on_the_wire (map line_of rs)
    pub server : (commands lib j fmt s rs).server ≡ t

  exchange-Agree :
      (s t : Server) (r : Request) (reply : Reply) (rs : List Request) (shown : List Shown) (n : ℕ)
      → IsCommand r.line
      → rcon_command lib j fmt s (record r { line = trim_space r.line }) ≡ some reply
      → All IsLine reply.lines
      → IsError reply.error
      → Agree reply.server t rs shown n
      → Agree s t (r ∷ rs) (shown_of reply.lines reply.error ++ shown) (suc n)
  unfolding before after on_the_wire
  exchange-Agree s t r reply rs shown n h e hl he a =
      let c =
        conn (write_response reply.lines reply.error ++ (commands lib j fmt reply.server rs).output)
          (suc n) in
      let answer =
        call-answered r.line n reply.lines reply.error (commands lib j fmt reply.server rs).output
          hl he in
      let alive : is_fatal (call c r.line).result ≡ false = rw answer (not_fatal reply.error) in
      let report_is : report (call c r.line) ≡ shown_of reply.lines reply.error =
        rw answer (report-answered _ _ reply.lines reply.error) in
      let step = interactive_step c r.line (map line_of rs) h alive in
      let run = commands_step s r rs reply h e in
      record {
        printed = rw (run, step, report_is, answer, a.printed) refl;
        status = rw (run, step, answer) a.status;
        sent = rw (run, step, answer, a.sent) refl;
        server = rw run a.server;
      }

  -- A user at the prompt and the server: where each typed line is a command and each reply is free
  -- of line breaks, the two ends of the connection agree with the commands as procedure calls.
  pub Talks-Agree :
      {s t : Server} {rs : List Request} {shown : List Shown} (n : ℕ)
      → Talks s rs shown t
      → length rs ≤ n
      → Agree s t rs shown n
  unfolding interactive commands stopped ended_at on_the_wire
  Talks-Agree n (silence s) few = record {
    printed = refl;
    status = refl;
    sent = refl;
    server = refl;
  }
  Talks-Agree zero (exchange s t r reply rs shown h e hl he w) few = absurd (omega arith)
  Talks-Agree (suc n) (exchange s t r reply rs shown h e hl he w) few =
      exchange-Agree s t r reply rs shown n h e hl he (Talks-Agree n w (omega arith))
