-- ===== src/Server/Interleave.antt =====
-- The goroutines of internal/server/server.go on one Server: the receive loop of Run, the ticker and the
-- admin console. A step is one critical section under `mu`, with the code up to the next lock; the
-- sections that only read (Players, Status, Bans, Say's) leave no trace.
pub mod Sections
pub mod Tables
pub mod KickWindow
use rbr_mp_server.Common.{
  ℕ, ◌+◌, ◌%◌, ◌^◌, List, [], ◌∷◌, Option, none, some, Bool, if◌then◌else◌, ◌==◌, length,
}
use rbr_mp_server.Common.Text.{Text}
use rbr_mp_server.Clock.{Time}
use rbr_mp_server.Protocol.Types.{
  Error, Hello, State, type_hello, type_state, type_pong, type_chat, type_bye,
}
use rbr_mp_server.Protocol.Decode.{
  ok, err, parse_header, decode_hello, decode_state, decode_pong, decode_chat,
}
use rbr_mp_server.Server.Types.{UdpAddr, BanEntry, Server, Outgoing}
use rbr_mp_server.Server.Bans.{Json, Outcomes, get}
use rbr_mp_server.Server.Session.{join, state, pong, bye}
use rbr_mp_server.Server.Chat.{chat}
use rbr_mp_server.Server.Handle.{Network, kicked_recently, refuse, send}
use rbr_mp_server.Server.Tick.{tick}
use rbr_mp_server.Server.Admin.{Library, kick, record_ban, unban}

-- Where the receive goroutine stands: in ReadFromUDP, before the ban check of `handle`, behind it,
-- or behind kickedRecently with a decoded Hello or State.
pub data Pc : Type 0 where
  waiting : Pc
  received : List ℕ → UdpAddr → Time → Pc
  permitted : List ℕ → UdpAddr → Time → Pc
  joining : UdpAddr → Hello → Time → Pc
  stating : UdpAddr → State → Time → Pc

pub record System : Type 0 where
  pub server : Server
  pub pc : Pc

abbrev pub system : Server → Pc → System
system s pc = record { server = s; pc = pc }

-- The receive goroutine goes on with a decoded message, or drops the datagram.
unfoldable pub decoded_at : {A : Type 0} → A × Option Error → Server → (A → System) → System
decoded_at (a, none) s f = f a
decoded_at (a, some e) s f = system s waiting

-- The switch of `handle`: kickedRecently for a Hello and a State, the handler itself for the others.
unfoldable pub route : Server → List ℕ → UdpAddr → Time → ℕ → System
unfolding decoded_at
route s b addr now t =
    if t == type_hello
    then (if kicked_recently s addr now
        then system s waiting
        else decoded_at (decode_hello b) s (λ h. system s (joining addr h now)))
    else if t == type_state
    then (if kicked_recently s addr now
        then system s waiting
        else decoded_at (decode_state b) s (λ st. system s (stating addr st now)))
    else if t == type_pong
    then decoded_at (decode_pong b) s (λ p. system (pong s addr p now) waiting)
    else if t == type_chat
    then decoded_at (decode_chat b) s (λ ch. system (chat s addr ch now).0 waiting)
    else if t == type_bye
    then system (bye s addr) waiting
    else system s waiting

-- The next critical section of the receive goroutine.
unfoldable pub advance : Server → Pc → System
unfolding route
advance s waiting = system s waiting
advance s (received b addr now) = elim (get s.bans addr.ip) [
  | some ban ↦ system (refuse s addr ban now).0 waiting
  | none ↦ system s (permitted b addr now)
]
advance s (permitted b addr now) = elim (parse_header b) [
  | err e ↦ system s waiting
  | ok t ↦ route s b addr now t
]
advance s (joining addr h now) = system (join s addr h now).0 waiting
advance s (stating addr st now) = system (state s addr st now).0 waiting

-- `s.rxCount++; s.rxBytes += uint64(n)`
unfoldable pub count_rx : Server → List ℕ → Server
count_rx s b = record s {
  rx_count = (s.rx_count + 1) % 2 ^ 64;
  rx_bytes = (s.rx_bytes + length b) % 2 ^ 64;
}

pub data Action : Type 0 where
  arrives : List ℕ → UdpAddr → Time → Action
  advances : Action
  ticks : Time → Action
  kicks : Text → Text → Time → Action
  bans : Outcomes → BanEntry → Action
  unbans : Outcomes → Text → Action
  sends : Outgoing → Action

module _ (lib : Library) (j : Json) (net : Network) where
  -- A datagram arrives only while the goroutine waits for one. Ban is two sections, the entry and
  -- then Kick; a send counts what it wrote.
  pub data Step : Action → System → System → Type 0 where
    arrive :
        (s : Server) (b : List ℕ) (addr : UdpAddr) (now : Time)
        → Step (arrives b addr now) (system s waiting) (system (count_rx s b) (received b addr now))
    go_on : (s : Server) (pc : Pc) → Step advances (system s pc) (advance s pc)
    on_tick :
        (s : Server) (pc : Pc) (now : Time)
        → Step (ticks now) (system s pc) (system (tick s now).0 pc)
    on_kick :
        (s : Server) (pc : Pc) (who reason : Text) (now : Time)
        → Step (kicks who reason now) (system s pc) (system (kick lib s who reason now).0 pc)
    on_ban :
        (s : Server) (pc : Pc) (f : Outcomes) (e : BanEntry)
        → Step (bans f e) (system s pc) (system (record_ban lib j f s e).0 pc)
    on_unban :
        (s : Server) (pc : Pc) (f : Outcomes) (ip : Text)
        → Step (unbans f ip) (system s pc) (system (unban j f s ip).0 pc)
    on_send :
        (s : Server) (pc : Pc) (o : Outgoing)
        → Step (sends o) (system s pc) (system (send net s o) pc)

  -- The executions: what happened, in which order, and where it led.
  pub data Run (x : System) : List Action → System → Type 0 where
    begin : Run x [] x
    continue :
        {trace : List Action} {y z : System} (a : Action)
        → Run x trace y
        → Step a y z
        → Run x (a ∷ trace) z
