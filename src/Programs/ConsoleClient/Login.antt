-- ===== src/Programs/ConsoleClient/Login.antt =====
-- `main` of cmd/clirbrmp/main.go against rconSession of internal/server/rcon.go.
use rbr_mp_server.Common.{
  ℕ, suc, ◌≤◌, ◌≡◌, ◌≢◌, refl, ap, ◌∙◌, List, [], ◌∷◌, ◌++◌, map, Option, none, some, true, false,
  if◌then◌else◌, length, All, append-nil,
}
use rbr_mp_server.Common.Text.{Text, text_eq, text_eq_refl}
use rbr_mp_server.Server.Types.{Server}
use rbr_mp_server.Server.Bans.{Json}
use rbr_mp_server.Server.Admin.{Library}
use rbr_mp_server.Console.Words.{trim_space, join_words}
use rbr_mp_server.Console.Listing.{Formats}
use rbr_mp_server.Console.Command.{Request, Reply, rcon_command}
use rbr_mp_server.Console.Response.{write_response, cut_prefix}
use rbr_mp_server.Console.Session
use rbr_mp_server.Console.Session.{
  auth_prefix, before, ended_at, commands, rcon_session, rcon_max_line, requests, rcon_connection,
}
use rbr_mp_server.Console.Messages.{quit_cmd}
use rbr_mp_server.Console.Safe.{commands_reply}
use rbr_mp_server.Console.Fuel.{IsWhole}
use rbr_mp_server.Console.Framing.{IsLine, IsError, verdict_of}
use rbr_mp_server.Programs.ConsoleClient.{
  Conn, answered, Shown, Called, call, is_nil, after, stopped, report, interactive, one_shot,
  choose_password, work, greet, main,
}
use rbr_mp_server.Programs.ConsoleClient.Dialogue.{
  conn, call-answered, report-answered, shown_of, line_of, on_the_wire, Talks, Talks-Agree,
}
use rbr_mp_server.Programs.ConsoleClient.Serving.{serving, serving-rcon_session}

main_connected :
    (flag env pw : Text) (c : Conn) (args typed : List Text)
    → choose_password flag env ≡ pw
    → pw ≢ []
    → main flag env (some c) args typed ≡ greet c pw args typed
unfolding main greet
main_connected flag env [] c args typed e ne = absurd (ne refl)
main_connected flag env (x ∷ xs) c args typed e ne = rw (e, main) refl

greet_ok :
    (c : Conn) (pw : Text) (args typed : List Text)
    → is_nil (call c (auth_prefix ++ pw)).result ≡ true
    → let r = call c (auth_prefix ++ pw) in
      greet c pw args typed ≡ after r.sent [] (work r.conn args typed)
unfolding greet
greet_ok c pw args typed h = rw h refl

work_one_shot :
    (c : Conn) (word : Text) (words typed : List Text)
    → let r = call c (join_words (word ∷ words)) in
      work c (word ∷ words) typed
      ≡ after r.sent (report r) (stopped (if is_nil r.result then 0 else 1))
unfolding work one_shot
work_one_shot c word words typed = refl

stopped_shown : (n : ℕ) (shown : List Shown) → shown ++ (stopped n).shown ≡ shown
unfolding stopped
stopped_shown n shown = append-nil shown

stopped_sent : (n : ℕ) → (stopped n).sent ≡ []
unfolding stopped
stopped_sent n = refl

exit_of :
    (e : Option Text)
    → (stopped (if is_nil (answered (verdict_of e)) then 0 else 1)).status
      ≡ elim e [ none ↦ 0 | some x ↦ 1 ]
unfolding stopped
exit_of none = refl
exit_of (some e) = refl

module _ (lib : Library) (j : Json) (fmt : Formats) (pw : Text) (s : Server) (login : Request)
    (written : login.line ≡ auth_prefix ++ pw) (trimmed : trim_space login.line ≡ login.line) where
  logged_in :
      (rs : List Request)
      → rcon_session lib j fmt pw s (login ∷ rs)
        ≡ before [] (write_response [] none) (commands lib j fmt s rs)
  unfolding rcon_session before
  logged_in rs =
      let here : trim_space login.line ≡ auth_prefix ++ pw = trimmed ∙ written in
      let cut : cut_prefix auth_prefix (auth_prefix ++ pw) ≡ some pw = unfold cut_prefix in refl in
      rw (here, cut, text_eq_refl pw, rcon_session) refl

  -- After the greeting the client works on what the server says next.
  greeted :
      (n : ℕ) (rs : List Request) (args typed : List Text)
      → greet (conn (rcon_session lib j fmt pw s (login ∷ rs)).output (suc n)) pw args typed
        ≡ after
            ((auth_prefix ++ pw) ++ (b'\n' ∷ []))
            []
            (work (conn (commands lib j fmt s rs).output n) args typed)
  greeted n rs args typed =
      let stream = write_response [] none ++ (commands lib j fmt s rs).output in
      let answer =
        call-answered (auth_prefix ++ pw) n [] none (commands lib j fmt s rs).output tt tt in
      let output_is : (rcon_session lib j fmt pw s (login ∷ rs)).output ≡ stream =
        ap (λ (o : Session.Outcome). o.output) (logged_in rs) ∙ unfold before in refl in
      let fine : is_nil (call (conn stream (suc n)) (auth_prefix ++ pw)).result ≡ true =
        rw answer refl in
      rw output_is (
        greet_ok (conn stream (suc n)) pw args typed fine
        ∙ ap (λ (r : Called). after r.sent [] (work r.conn args typed)) answer)

  module _ (flag env : Text) (chosen : choose_password flag env ≡ pw) (given : pw ≢ []) where
    lines_talk :
        {t : Server} {rs : List Request} {shown : List Shown} (n : ℕ)
        → Talks lib j fmt s rs shown t
        → length rs ≤ n
        → let server_side = rcon_session lib j fmt pw s (login ∷ rs) in
          let client_side =
            main flag env (some (conn server_side.output (suc n))) [] (map line_of rs) in
          (client_side.shown ≡ shown)
          × (client_side.status ≡ 0)
          × (client_side.sent ≡ on_the_wire (map line_of (login ∷ rs)))
          × (server_side.server ≡ t)
    unfolding after before on_the_wire
    lines_talk {rs} n w few =
        let a = Talks-Agree lib j fmt n w few in
        let start =
          main_connected flag env pw
            (conn (rcon_session lib j fmt pw s (login ∷ rs)).output (suc n)) [] (map line_of rs)
            chosen given
          ∙ greeted n rs [] (map line_of rs) in
        let prompt : work (conn (commands lib j fmt s rs).output n) [] (map line_of rs)
            ≡ interactive (conn (commands lib j fmt s rs).output n) (map line_of rs) =
          unfold work in refl in
        (
          rw (start, prompt) a.printed,
          rw (start, prompt) a.status,
          rw (start, prompt, a.sent, written) refl,
          rw (logged_in rs) a.server,
        )

    -- The console as remote procedure calls. The client has the server's password, from its flag or
    -- from the environment, and the server gets on its connection the bytes that the client writes:
    -- the login, which no white space surrounds, and then what the user types, lines that are
    -- commands and whose replies have no line breaks in them. Each of these lines has no newline in
    -- it, does not end in a carriage return and fits the 4096 bytes of the server's scanner. Then
    -- the user sees what the commands reply when they are called one after the other on the server,
    -- nothing more and nothing less; the program ends with status 0; it has written exactly these
    -- lines; and the server is left as the last call leaves it. (The connection takes as many
    -- writes as there are lines, and no line comes too late.)
    pub session-Talks :
        {t : Server} {rs : List Request} {shown : List Shown} (n : ℕ)
        → Talks lib j fmt s rs shown t
        → length rs ≤ n
        → All (IsWhole rcon_max_line) (map line_of (login ∷ rs))
        → let server_side = serving lib j fmt pw s (login ∷ rs) in
          let client_side =
            main flag env (some (conn server_side.output (suc n))) [] (map line_of rs) in
          (client_side.shown ≡ shown)
          × (client_side.status ≡ 0)
          × (client_side.sent ≡ on_the_wire (map line_of (login ∷ rs)))
          × (server_side.server ≡ t)
    session-Talks {rs} n w few whole =
        rw (serving-rcon_session lib j fmt pw s (login ∷ rs) whole) (lines_talk n w few)

    line_status :
        (n : ℕ) (r : Request) (reply : Reply) (word : Text) (words typed : List Text)
        → r.line ≡ join_words (word ∷ words)
        → text_eq (trim_space r.line) [] ≡ false
        → rcon_command lib j fmt s (record r { line = trim_space r.line }) ≡ some reply
        → All IsLine reply.lines
        → IsError reply.error
        → let server_side = rcon_session lib j fmt pw s (login ∷ r ∷ []) in
          let client_side =
            main flag env (some (conn server_side.output (suc (suc n)))) (word ∷ words) typed in
          (client_side.shown ≡ shown_of reply.lines reply.error)
          × (client_side.status ≡ elim reply.error [ none ↦ 0 | some e ↦ 1 ])
          × (client_side.sent ≡ on_the_wire (login.line ∷ r.line ∷ []))
    unfolding after before on_the_wire
    line_status n r reply word words typed line full e hl he =
        let rest =
          (if text_eq (trim_space r.line) quit_cmd
            then ended_at reply.server
            else commands lib j fmt reply.server []) in
        let stream = write_response reply.lines reply.error ++ rest.output in
        let output_is : (commands lib j fmt s (r ∷ [])).output ≡ stream =
          ap (λ (o : Session.Outcome). o.output) (commands_reply lib j fmt s r [] reply full e)
          ∙ unfold before in refl in
        let start =
          main_connected flag env pw
            (conn (rcon_session lib j fmt pw s (login ∷ r ∷ [])).output (suc (suc n)))
            (word ∷ words) typed chosen given
          ∙ greeted (suc n) (r ∷ []) (word ∷ words) typed in
        let answer =
          call-answered (join_words (word ∷ words)) n reply.lines reply.error rest.output hl he in
        let done = work_one_shot (conn stream (suc n)) word words typed in
        let verdict =
          report-answered (conn rest.output n) (join_words (word ∷ words) ++ (b'\n' ∷ []))
            reply.lines reply.error in
        (
          rw (start, output_is, done, answer) (stopped_shown _ _ ∙ verdict),
          rw (start, output_is, done, answer) (exit_of reply.error),
          rw (start, output_is, done, answer, written, line, stopped_sent _) refl,
        )

    -- One command on the command line, and the exit status. The client logs in as above, and the
    -- words on its command line, with blanks between them, are a line that is not blank, that fits
    -- the server's scanner as above, and whose reply has no line breaks in it. Then it prints the
    -- payload lines of the reply, and its error if there is one; it ends with status 0 if the server
    -- reports no error and with 1 if it does, whatever stands on its standard input; and it has
    -- written the login and that line.
    pub one_shot_status :
        (n : ℕ) (r : Request) (reply : Reply) (word : Text) (words typed : List Text)
        → r.line ≡ join_words (word ∷ words)
        → text_eq (trim_space r.line) [] ≡ false
        → rcon_command lib j fmt s (record r { line = trim_space r.line }) ≡ some reply
        → All IsLine reply.lines
        → IsError reply.error
        → All (IsWhole rcon_max_line) (map line_of (login ∷ r ∷ []))
        → let server_side = serving lib j fmt pw s (login ∷ r ∷ []) in
          let client_side =
            main flag env (some (conn server_side.output (suc (suc n)))) (word ∷ words) typed in
          (client_side.shown ≡ shown_of reply.lines reply.error)
          × (client_side.status ≡ elim reply.error [ none ↦ 0 | some e ↦ 1 ])
          × (client_side.sent ≡ on_the_wire (login.line ∷ r.line ∷ []))
    one_shot_status n r reply word words typed line full e hl he whole =
        rw (serving-rcon_session lib j fmt pw s (login ∷ r ∷ []) whole)
          (line_status n r reply word words typed line full e hl he)
