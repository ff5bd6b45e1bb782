-- ===== src/Server/Run.antt =====
-- Histories of the server of internal/server/server.go: what the network, the ticker and the admin
-- console do to it, one critical section after the other.
use rbr_mp_server.Common.{ℕ, ◌+◌, ◌%◌, ◌^◌, ◌<◌, ◌≡◌, List, [], ◌∷◌, some, arith, length}
use rbr_mp_server.Common.Text.{Text}
use rbr_mp_server.Common.GoMap.{lookup}
use rbr_mp_server.Clock.{Time}
use rbr_mp_server.Server.Types.{UdpAddr, Client, Config, BanList, Server, Outgoing}
use rbr_mp_server.Server.Bans.{Json, Outcomes}
use rbr_mp_server.Server.Chat.{say}
use rbr_mp_server.Server.Handle.{Network, handle, send_all, receive}
use rbr_mp_server.Server.Tick.{tick}
use rbr_mp_server.Server.Admin.{Library, kick, ban, unban}
use rbr_mp_server.Server.Start.{fresh_server}
use rbr_mp_server.Server.Sessions.{Sessions}
use rbr_mp_server.Server.Invariant.{Inv, Keeps, HasIds}
use rbr_mp_server.Server.Invariant.Handlers.{Keeps-refl}
use rbr_mp_server.Server.Invariant.Datagram.{handle-Keeps, send_all_frame, Inv-frame}
use rbr_mp_server.Server.Invariant.Timers.{tick-Keeps}
use rbr_mp_server.Server.Invariant.Console.{kick-Keeps, ban-Keeps, unban-Keeps}

pub data Event : Type 0 where
  datagram : List ℕ → UdpAddr → Time → Event
  ticks : Time → Event
  kicks : Text → Text → Time → Event
  bans : Outcomes → Text → Text → Time → Time → Event
  unbans : Outcomes → Text → Event
  says : Text → Event

pub no_client : (k : Text) (c : Client) → lookup k [] ≡ some c → ⊥
unfolding lookup
no_client k c e = cc

module _ (lib : Library) (j : Json) (net : Network) where
  unfoldable pub step : Server → Event → Server
  step s (datagram b addr now) = receive net s b addr now
  step s (ticks now) = let (t, out) = tick s now in send_all net t out
  step s (kicks who reason now) = let (t, out, _) = kick lib s who reason now in send_all net t out
  step s (bans f who reason now later) =
      let (t, out, _, _) = ban lib j f s who reason now later in send_all net t out
  step s (unbans f ip) = (unban j f s ip).0
  step s (says text) = send_all net s (say s text)

  unfoldable pub run : Server → List Event → Server
  run s [] = s
  run s (e ∷ es) = run (step s e) es

  send_all-Keeps : (s t : Server) (out : List Outgoing) → Keeps s t → Keeps s (send_all net t out)
  send_all-Keeps s t out k =
      let (ec, en) = send_all_frame net t out in
      let k' = Inv-frame t (send_all net t out) ec en k.inv in
      record { inv = k'.inv; ids = omega (arith, k.ids, en) }

  pub step-Keeps : (s : Server) (e : Event) → HasIds s → Inv s → Keeps s (step s e)
  unfolding step
  step-Keeps s (datagram b addr now) ids v =
      unfold receive in
      let s1 = record s {
        rx_count = (s.rx_count + 1) % 2 ^ 64;
        rx_bytes = (s.rx_bytes + length b) % 2 ^ 64;
      } in
      let v1 : Inv s1 = record { sessions = v.sessions; positive = v.positive } in
      let k = handle-Keeps s1 b addr now ids v1 in
      send_all-Keeps s (handle s1 b addr now).0 (handle s1 b addr now).1
        (record { inv = k.inv; ids = k.ids })
  step-Keeps s (ticks now) ids v =
      send_all-Keeps s (tick s now).0 (tick s now).1 (tick-Keeps s now v)
  step-Keeps s (kicks who reason now) ids v =
      send_all-Keeps s _ _ (kick-Keeps lib s who reason now v)
  step-Keeps s (bans f who reason now later) ids v =
      send_all-Keeps s _ _ (ban-Keeps lib j f s who reason now later v)
  step-Keeps s (unbans f ip) ids v = unban-Keeps j f s ip v
  step-Keeps s (says text) ids v = send_all-Keeps s s (say s text) (Keeps-refl s v)

  pub run-Inv :
      (s : Server) (es : List Event) → s.next_id + length es < 2 ^ 32 → Inv s → Inv (run s es)
  unfolding run
  run-Inv s [] few v = v
  run-Inv s (e ∷ es) few v =
      let k = step-Keeps s e (omega arith) v in run-Inv (step s e) es (omega (arith, k.ids)) k.inv

  pub fresh_server-Inv :
      (cfg : Config) (bans : BanList) (now : Time) → Inv (fresh_server cfg bans now)
  unfolding fresh_server
  fresh_server-Inv cfg l now = record {
    sessions = record {
      map = tt;
      each = λ k c e. absurd (no_client k c e);
      ids = λ k i c d e _ _. absurd (no_client k c e);
    };
    positive = omega arith;
  }

  -- From a fresh server, after fewer than 2 ^ 32 - 1 events of any kind in any order, the session
  -- table is well formed: every session stands under the address that it replies to, no two
  -- sessions share an id, every id was given out and is not 0, and every history is sorted and
  -- capped.
  pub run-Sessions :
      (cfg : Config) (bans : BanList) (now : Time) (es : List Event)
      → 1 + length es < 2 ^ 32
      → let s = run (fresh_server cfg bans now) es in Sessions s.clients s.next_id
  run-Sessions cfg l now es few =
      (run-Inv (fresh_server cfg l now) es (unfold fresh_server in few)
        (fresh_server-Inv cfg l now)).sessions
