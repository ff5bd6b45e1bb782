-- ===== src/Examples/Programs.antt =====
-- The programs of cmd/ at concrete inputs.
use rbr_mp_server.Common.{
  ℕ, zero, suc, replicate, length-replicate, All, ◌≡◌, ◌≢◌, refl, List, [], ◌∷◌, ◌++◌, map, none,
  some, arith,
}
use rbr_mp_server.Common.Text.{Text, text_eq}
use rbr_mp_server.Server.Chat.{say}
use rbr_mp_server.Console.Words.{
  space_at, trim_left, unless_blank, trim_right, trim_space, flush, split, fields, join_words,
}
use rbr_mp_server.Console.Messages.{say_usage}
use rbr_mp_server.Console.Scanner.{drop_cr}
use rbr_mp_server.Console.Command.{Request, Reply, say_command, switch, usage, rcon_command}
use rbr_mp_server.Console.Session.{rcon_session, rcon_connection, rcon_max_line}
use rbr_mp_server.Console.Framing.{IsLine}
use rbr_mp_server.Console.Fuel.{IsWhole}
use rbr_mp_server.Programs.ConsoleClient.Serving.{serving, moment_of}
use rbr_mp_server.Programs.ConsoleClient.LongLine.{long_line_hangs_up}
use rbr_mp_server.Programs.ConsoleClient.{Shown, complaint, answered, choose_password}
use rbr_mp_server.Programs.ConsoleClient
use rbr_mp_server.Programs.ConsoleClient.Dialogue.{
  conn, shown_of, line_of, on_the_wire, IsCommand, Talks, silence, exchange,
}
use rbr_mp_server.Programs.ConsoleClient.Login.{session-Talks, one_shot_status}
use rbr_mp_server.Examples.Data.{room, library}
use rbr_mp_server.Examples.Files.{json}
use rbr_mp_server.Examples.Formats.{formats, typed, login, password}

-- "say hi" and "say"
abbrev greeting : Request
greeting = typed (b's' ∷ b'a' ∷ b'y' ∷ b' ' ∷ b'h' ∷ b'i' ∷ [])

abbrev bare : Request
bare = typed (b's' ∷ b'a' ∷ b'y' ∷ [])

abbrev greeted : Reply
greeted = record { server = room; sent = say room (b'h' ∷ b'i' ∷ []); lines = []; error = none }

abbrev scolded : Reply
scolded = record { server = room; sent = []; lines = []; error = some say_usage }

greeting_reply :
    rcon_command library json formats room (record greeting { line = trim_space greeting.line })
    ≡ some greeted
unfolding rcon_command fields split flush space_at trim_space trim_left trim_right unless_blank
    switch text_eq say_command join_words
greeting_reply = refl

bare_reply :
    rcon_command library json formats room (record bare { line = trim_space bare.line })
    ≡ some scolded
unfolding rcon_command fields split flush space_at trim_space trim_left trim_right unless_blank
    switch text_eq say_command usage
bare_reply = refl

greeting-IsCommand : IsCommand greeting.line
greeting-IsCommand =
    unfold trim_space trim_left trim_right unless_blank space_at text_eq in
    record { trimmed = refl; typed = refl; not_help = refl; not_exit = refl; not_quit = refl }

bare-IsCommand : IsCommand bare.line
bare-IsCommand =
    unfold trim_space trim_left trim_right unless_blank space_at text_eq in
    record { trimmed = refl; typed = refl; not_help = refl; not_exit = refl; not_quit = refl }

say_usage-IsLine : IsLine say_usage
say_usage-IsLine = record {
  inner = ground arith;
  final = unfold drop_cr in refl;
  short = omega arith;
}

abbrev answers : List Shown
answers = shown_of [] none ++ (shown_of [] (some say_usage) ++ [])

talk : Talks library json formats room (greeting ∷ bare ∷ []) answers room
talk =
    exchange room room greeting greeted (bare ∷ []) (shown_of [] (some say_usage) ++ [])
      greeting-IsCommand greeting_reply tt tt
      (exchange room room bare scolded [] [] bare-IsCommand bare_reply tt say_usage-IsLine
        (silence room))

chosen : choose_password [] password ≡ password
unfolding choose_password
chosen = refl

given : password ≢ []
given e = cc

login_trimmed : trim_space login.line ≡ login.line
unfolding trim_space trim_left trim_right unless_blank space_at
login_trimmed = refl

login-IsWhole : IsWhole rcon_max_line login.line
login-IsWhole = record { inner = ground arith; final = unfold drop_cr in refl; short = omega arith }

greeting-IsWhole : IsWhole rcon_max_line greeting.line
greeting-IsWhole = record {
  inner = ground arith;
  final = unfold drop_cr in refl;
  short = omega arith;
}

bare-IsWhole : IsWhole rcon_max_line bare.line
bare-IsWhole = record { inner = ground arith; final = unfold drop_cr in refl; short = omega arith }

session-Talks_example :
    let server_side = serving library json formats password room (login ∷ greeting ∷ bare ∷ []) in
    let client_side =
      ConsoleClient.main [] password
        (some (conn server_side.output 4))
        []
        (map line_of (greeting ∷ bare ∷ [])) in
    (client_side.shown ≡ answers)
    × (client_side.status ≡ 0)
    × (client_side.sent ≡ on_the_wire (map line_of (login ∷ greeting ∷ bare ∷ [])))
    × (server_side.server ≡ room)
session-Talks_example =
    session-Talks library json formats password room login refl login_trimmed [] password chosen
      given 3 talk (omega arith) (login-IsWhole, (greeting-IsWhole, (bare-IsWhole, tt)))

one_shot_status_example :
    let server_side = serving library json formats password room (login ∷ bare ∷ []) in
    let client_side =
      ConsoleClient.main [] password
        (some (conn server_side.output 2))
        ((b's' ∷ b'a' ∷ b'y' ∷ []) ∷ [])
        [] in
    (client_side.shown ≡ shown_of [] (some say_usage))
    × (client_side.status ≡ elim (some say_usage) [ none ↦ 0 | some e ↦ 1 ])
    × (client_side.sent ≡ on_the_wire (login.line ∷ bare.line ∷ []))
one_shot_status_example =
    one_shot_status library json formats password room login refl login_trimmed [] password chosen
      given 0 bare scolded (b's' ∷ b'a' ∷ b'y' ∷ []) [] [] (unfold join_words in refl)
      (unfold trim_space trim_left trim_right unless_blank space_at text_eq in refl) bare_reply tt
      say_usage-IsLine (login-IsWhole, (bare-IsWhole, tt))

-- "aa…a", 5000 times.
abbrev endless : Text
endless = replicate 5000 b'a'

replicate-inner : (n : ℕ) → All (λ (c : ℕ). c ≢ b'\n') (replicate n b'a')
replicate-inner zero = tt
replicate-inner (suc n) = (omega arith, replicate-inner n)

long_line_hangs_up_example :
    rcon_connection library json formats password room
      (map moment_of (login ∷ greeting ∷ []) ++ (moment_of bare ∷ []))
      (on_the_wire (map line_of (login ∷ greeting ∷ [])) ++ (endless ++ (b'\n' ∷ bare.line)))
    ≡ rcon_session library json formats password room (login ∷ greeting ∷ [])
long_line_hangs_up_example =
    long_line_hangs_up library json formats password room (login ∷ greeting ∷ [])
      (moment_of bare ∷ []) endless bare.line (login-IsWhole, (greeting-IsWhole, tt))
      (replicate-inner 5000) (omega (arith, length-replicate {A = ℕ} 5000 b'a'))
