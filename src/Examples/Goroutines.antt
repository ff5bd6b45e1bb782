-- ===== src/Examples/Goroutines.antt =====
-- The goroutines of internal/server/server.go with two players: Bob is kicked while a datagram of his is being
-- handled.
use rbr_mp_server.Common.{ℕ, ◌+◌, ◌*◌, ◌≡◌, refl, none, some, List, [], ◌∷◌, arith}
use rbr_mp_server.Common.Text.{text_eq}
use rbr_mp_server.Common.GoMap.{lookup}
use rbr_mp_server.Common.Decimal.{format_uint}
use rbr_mp_server.Clock.{second}
use rbr_mp_server.Protocol.Encode.{encode_hello}
use rbr_mp_server.Server.Types.{Server}
use rbr_mp_server.Server.Tick.{tick}
use rbr_mp_server.Server.Admin.{kick}
use rbr_mp_server.Server.Start.{fresh_server}
use rbr_mp_server.Server.Sessions.{Sessions}
use rbr_mp_server.Server.FindClient.{find_client_by_id}
use rbr_mp_server.Server.Interleave.{
  Pc, waiting, received, System, system, advance, count_rx, Action, arrives, advances, ticks,
  arrive, go_on, on_tick, Run, begin, continue,
}
use rbr_mp_server.Server.Interleave.Tables.{interleaved-Sessions}
use rbr_mp_server.Server.Interleave.KickWindow.{interleaved_kick_window}
use rbr_mp_server.Examples.Data.{
  bob, bob_addr, config, no_bans, room, room-Inv, library, silent, late,
}
use rbr_mp_server.Examples.Files.{json}

abbrev hello : List ℕ
hello = encode_hello (record { name = bob.name; car = [] })

-- A datagram arrives; the ticker comes between its ban check and the rest.
abbrev fresh : Server
fresh = fresh_server config no_bans 1

abbrev checked : System
checked = advance (count_rx fresh hello) (received hello bob_addr late)

abbrev ticked : System
ticked = system (tick checked.server (late + 1)).0 checked.pc

abbrev finished : System
finished = advance ticked.server ticked.pc

abbrev history : List Action
history = advances ∷ ticks (late + 1) ∷ advances ∷ arrives hello bob_addr late ∷ []

first-Run : Run library json silent (system fresh waiting) history finished
first-Run =
    continue advances
      (continue (ticks (late + 1))
        (continue advances
          (continue (arrives hello bob_addr late) begin (arrive fresh hello bob_addr late))
          (go_on (count_rx fresh hello) (received hello bob_addr late)))
        (on_tick checked.server checked.pc (late + 1)))
      (go_on ticked.server ticked.pc)

interleaved-Sessions_example : Sessions finished.server.clients finished.server.next_id
interleaved-Sessions_example =
    interleaved-Sessions library json silent config no_bans 1 history finished first-Run
      (omega arith)

-- Bob's Hello has been received when Bob is kicked; it is checked after that.
abbrev kicked : Server
kicked = (kick library room (format_uint 2) [] late).0

abbrev in_hand : Pc
in_hand = received hello bob_addr late

abbrev passed : System
passed = advance kicked in_hand

abbrev late_tick : System
late_tick = system (tick passed.server (late + 9 * second)).0 passed.pc

abbrev dropped : System
dropped = advance late_tick.server late_tick.pc

abbrev after_kick : List Action
after_kick = advances ∷ ticks (late + 9 * second) ∷ advances ∷ []

second-Run : Run library json silent (system kicked in_hand) after_kick dropped
second-Run =
    continue advances
      (continue (ticks (late + 9 * second)) (continue advances begin (go_on kicked in_hand))
        (on_tick passed.server passed.pc (late + 9 * second)))
      (go_on late_tick.server late_tick.pc)

bob_session : lookup bob_addr.text room.clients ≡ some bob
unfolding lookup text_eq
bob_session = refl

interleaved_kick_window_example : lookup bob_addr.text dropped.server.clients ≡ none
interleaved_kick_window_example =
    interleaved_kick_window library json silent room in_hand bob (format_uint 2) [] late after_kick
      dropped room-Inv tt
      (find_client_by_id library room bob_addr.text bob room-Inv (omega arith) bob_session)
      (omega arith) (omega arith) (tt, (omega arith, (tt, tt))) second-Run
