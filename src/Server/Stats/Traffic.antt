-- ===== src/Server/Stats/Traffic.antt =====
-- What the lines of statsLoop in internal/server/server.go say of the traffic.
use rbr_mp_server.Common.{ℕ, ◌+◌, ◌%◌, ◌^◌, ◌<◌, ◌≡◌, refl, List, [], ◌∷◌, length, map}
use rbr_mp_server.Clock.{Time, Duration}
use rbr_mp_server.Server.Types.{Server}
use rbr_mp_server.Server.Bans.{Json}
use rbr_mp_server.Server.Handle.{Network, send_all}
use rbr_mp_server.Server.Tick.{tick}
use rbr_mp_server.Server.Admin.{Library}
use rbr_mp_server.Server.Run.{Event, datagram, ticks, kicks, bans, unbans, says, step, run}
use rbr_mp_server.Server.Stats.{Float64, Line, per_second, kilobytes, tick_loop}

-- The datagrams among the events, and their bytes.
unfoldable pub packet : Event → ℕ
packet (datagram b addr now) = 1
packet (ticks now) = 0
packet (kicks who reason now) = 0
packet (bans f who reason now later) = 0
packet (unbans f ip) = 0
packet (says text) = 0

unfoldable pub size : Event → ℕ
size (datagram b addr now) = length b
size (ticks now) = 0
size (kicks who reason now) = 0
size (bans f who reason now later) = 0
size (unbans f ip) = 0
size (says text) = 0

unfoldable pub total : (Event → ℕ) → List Event → ℕ
total f [] = 0
total f (e ∷ es) = f e + total f es

-- The counters of what came in hold a uint64.
record IsCounter (s : Server) : Type 0 where
  rx_count : s.rx_count < 2 ^ 64
  rx_bytes : s.rx_bytes < 2 ^ 64

-- What came in is added to the counters.
record Adds (s : Server) (n m : ℕ) (t : Server) : Type 0 where
  fits : IsCounter t
  packets : t.rx_count ≡ (s.rx_count + n) % 2 ^ 64
  bytes : t.rx_bytes ≡ (s.rx_bytes + m) % 2 ^ 64

module _ (lib : Library) (j : Json) (net : Network) where
  -- The server as it is after each of several lists of events.
  unfoldable pub readings : Server → List (List Event) → List Server
  readings s [] = []
  readings s (es ∷ rest) = run lib j net s es ∷ readings (run lib j net s es) rest

  -- The ticker's loop is the history of its ticks.
  tick_loop-run :
      (s : Server) (ts : List Time) → tick_loop net s ts ≡ run lib j net s (map ticks ts)
  unfolding tick_loop run step
  tick_loop-run s [] = refl
  tick_loop-run s (now ∷ ts) = tick_loop-run (send_all net (tick s now).0 (tick s now).1) ts

  module _ (o : Float64) (every : Duration) where
    -- The part of a line on what came in.
    abbrev pub incoming : Line → ℕ × ℕ
    incoming l = (l.packets_in, l.kilobytes_in)

    abbrev pub came_in : List Event → ℕ × ℕ
    came_in es =
        (per_second o every (total packet es % 2 ^ 64), kilobytes o every (total size es % 2 ^ 64))
