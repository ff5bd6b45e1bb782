-- ===== src/Examples/Rcon.antt =====
-- The admin console of internal/server/rcon.go with two players.
use rbr_mp_server.Common.{◌+◌, ◌≡◌, refl, ◌≢◌, [], ◌∷◌, ◌++◌, map, none, some, false, arith}
use rbr_mp_server.Common.Text.{Text}
use rbr_mp_server.Common.Decimal.{digits_onto, format_uint}
use rbr_mp_server.Common.GoMap.{values}
use rbr_mp_server.Common.Sort.{insert_by, sort_by}
use rbr_mp_server.Server.Types.{Client, Server}
use rbr_mp_server.Server.Tick.{live_clients}
use rbr_mp_server.Server.Invariant.{Inv}
use rbr_mp_server.Console.Words.{space_at, trim_left, unless_blank, trim_right, trim_space}
use rbr_mp_server.Console.Scanner.{drop_cr}
use rbr_mp_server.Console.Response.{ok_line, write_response, accepted, refused, response}
use rbr_mp_server.Console.Listing.{player_line, rcon_players}
use rbr_mp_server.Console.Command.{Request}
use rbr_mp_server.Console.Session.{auth_prefix, auth_failed, rcon_session}
use rbr_mp_server.Console.Framing.{IsLine, response-write_response, response_forged}
use rbr_mp_server.Console.Forged.{players_forged}
use rbr_mp_server.Console.Safe.{rcon_session-Inv, rcon_session_locked}
use rbr_mp_server.Console.Padded.{padded_password}
use rbr_mp_server.Examples.Data.{ann, ann_addr, room, room-Inv, library, late}
use rbr_mp_server.Examples.Files.{json}
use rbr_mp_server.Examples.Formats.{formats, typed, login, password}

abbrev kick_ann : Request
kick_ann = typed (b'k' ∷ b'i' ∷ b'c' ∷ b'k' ∷ b' ' ∷ b'1' ∷ [])

abbrev blank : Request
blank = typed (b' ' ∷ b'\t' ∷ [])

rcon_session-Inv_example :
    let o = rcon_session library json formats password room (login ∷ blank ∷ kick_ann ∷ []) in
    (o.panicked ≡ false) × Inv o.server
rcon_session-Inv_example =
    rcon_session-Inv library json formats password room (login ∷ blank ∷ kick_ann ∷ []) room-Inv

wrong_line : trim_space kick_ann.line ≢ auth_prefix ++ password
unfolding trim_space trim_left trim_right unless_blank space_at
wrong_line = λ e. cc

rcon_session_locked_example :
    rcon_session library json formats password room (kick_ann ∷ kick_ann ∷ []) ≡ record {
      server = room;
      sent = [];
      output = write_response [] (some auth_failed);
      panicked = false;
    }
rcon_session_locked_example =
    rcon_session_locked library json formats password room kick_ann (kick_ann ∷ []) wrong_line

abbrev first_line : Text
first_line = b'1' ∷ b' ' ∷ b'A' ∷ []

first_line-IsLine : IsLine first_line
first_line-IsLine = record {
  inner = ground arith;
  final = unfold drop_cr in refl;
  short = omega arith;
}

response-write_response_example :
    response 5 (write_response (first_line ∷ first_line ∷ []) (some first_line) ++ ok_line)
    ≡ (first_line ∷ first_line ∷ [], refused first_line, ok_line)
response-write_response_example =
    response-write_response 5 (first_line ∷ first_line ∷ []) (some first_line) ok_line (omega arith)
      (first_line-IsLine, (first_line-IsLine, tt)) first_line-IsLine

response_forged_example :
    response (3 + 2) (
      write_response
        ((first_line ++ (b'\n' ∷ (ok_line ++ (b'\n' ∷ (b'B' ∷ []))))) ∷ first_line ∷ [])
        none
      ++ [])
    ≡ (
      first_line ∷ [],
      accepted,
      (b'B' ∷ []) ++ (b'\n' ∷ (write_response (first_line ∷ []) none ++ [])),
    )
response_forged_example =
    response_forged 3 first_line (b'B' ∷ []) (first_line ∷ []) none [] first_line-IsLine

-- A player whose Hello brought "A\nOK\nB".
abbrev forger : Client
forger = record ann { name = b'A' ∷ b'\n' ∷ b'O' ∷ b'K' ∷ b'\n' ∷ b'B' ∷ [] }

abbrev alone : Server
alone = record room { clients = (ann_addr.text, forger) ∷ [] }

alone_live : live_clients alone ≡ forger ∷ []
unfolding live_clients values sort_by insert_by
alone_live = refl

one-IsLine : IsLine ((format_uint 1 ++ (b' ' ∷ [])) ++ (b'A' ∷ []))
one-IsLine = unfold format_uint digits_onto in first_line-IsLine

players_forged_example :
    (tail : Text) × (response (3 + 2) (write_response (rcon_players alone late) none ++ ok_line) ≡ (
      ((format_uint 1 ++ (b' ' ∷ [])) ++ (b'A' ∷ [])) ∷ [],
      accepted,
      ((b'B' ∷ []) ++ tail)
          ++ (b'\n' ∷ (write_response (map (player_line late) []) none ++ ok_line)),
    ))
players_forged_example =
    players_forged alone late forger [] (b'A' ∷ []) (b'B' ∷ []) 3 ok_line alone_live refl one-IsLine

padded_password_example :
    rcon_session library json formats (password ++ (b' ' ∷ [])) room (login ∷ kick_ann ∷ [])
    ≡ record {
      server = room;
      sent = [];
      output = write_response [] (some auth_failed);
      panicked = false;
    }
padded_password_example = padded_password library json formats password room login (kick_ann ∷ [])
