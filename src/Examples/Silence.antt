-- ===== src/Examples/Silence.antt =====
-- internal/server/server.go with two players: Ann falls silent while Bob goes on, and the statistics of it.
use rbr_mp_server.Common.{◌+◌, ◌*◌, ◌≡◌, ◌≢◌, refl, none, List, [], ◌∷◌, ℕ, arith}
use rbr_mp_server.Common.Text.{text_eq}
use rbr_mp_server.Common.GoMap.{lookup}
use rbr_mp_server.Clock.{second, sub_time}
use rbr_mp_server.Protocol.Encode.{encode_hello}
use rbr_mp_server.Server.Handle.{handle}
use rbr_mp_server.Server.Tick.{tick}
use rbr_mp_server.Server.Run.{Event, datagram, ticks, says, run}
use rbr_mp_server.Server.Isolation.{handle_isolated}
use rbr_mp_server.Server.Isolation.Silence.{silent_session_ends}
use rbr_mp_server.Examples.Data.{
  ann, ann_addr, bob, bob_addr, room, room-Inv, library, silent, late,
}
use rbr_mp_server.Examples.Files.{json}
use rbr_mp_server.Server.Stats.{Float64}

abbrev hello : List ℕ
hello = encode_hello (record { name = bob.name; car = b'X' ∷ [] })

apart : bob_addr.text ≢ ann_addr.text
apart e = absurd (ground arith)

handle_isolated_example :
    lookup ann_addr.text (handle room hello bob_addr late).0.clients
    ≡ lookup ann_addr.text room.clients
handle_isolated_example = handle_isolated room hello bob_addr late ann_addr.text room-Inv apart

abbrev meanwhile : List Event
meanwhile =
    datagram hello bob_addr (late + 1)
    ∷ ticks (late + second)
    ∷ says (b'h' ∷ [])
    ∷ datagram hello bob_addr (late + 4 * second)
    ∷ []

silent_session_ends_example :
    lookup ann_addr.text
      (tick (run library json silent room meanwhile) (late + 6 * second)).0.clients
    ≡ none
silent_session_ends_example =
    silent_session_ends library json silent room ann_addr.text ann meanwhile (late + 6 * second)
      room-Inv (unfold lookup text_eq in refl) (omega arith) (apart, (tt, (tt, (apart, tt))))
      (unfold sub_time in refl)

-- A Float64 whose operations are those of whole numbers.
abbrev whole : Float64
whole = record { of_uint = λ n. n; seconds = λ d. 10; div = λ a b. a + b; kilo = 1024 }
