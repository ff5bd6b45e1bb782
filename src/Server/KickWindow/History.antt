-- ===== src/Server/KickWindow/History.antt =====
-- The kick window over whole histories of the server of internal/server/server.go.
use rbr_mp_server.Common.{
  ◌+◌, ◌%◌, ◌^◌, ◌≤◌, ◌<◌, ◌≡◌, refl, ap, ◌∙◌, List, [], ◌∷◌, none, some, arith, length,
}
use rbr_mp_server.Common.Text.{Text}
use rbr_mp_server.Common.GoMap.{lookup, IsMap}
use rbr_mp_server.Clock.{Time}
use rbr_mp_server.Server.Types.{Client, Server, Outgoing}
use rbr_mp_server.Server.Bans.{Json}
use rbr_mp_server.Server.Chat.{say}
use rbr_mp_server.Server.Handle.{Network, send, send_all, receive, handle}
use rbr_mp_server.Server.Tick.{tick}
use rbr_mp_server.Server.Admin.{Library, find_client, unban}
use rbr_mp_server.Server.Run.{
  Event, datagram, ticks, kicks, bans, unbans, says, step, run, step-Keeps,
}
use rbr_mp_server.Server.Invariant.{Inv}
use rbr_mp_server.Server.Invariant.Datagram.{send_all_frame}
use rbr_mp_server.Server.Invariant.Console.{unban_frame}
use rbr_mp_server.Server.KickWindow.{Out, Soon, handle-Out, tick-Out}
use rbr_mp_server.Server.KickWindow.Admin.{kick-Out, kick-Out_self, ban-Out}

-- The event happens within the kick window that opened at `from`.
abbrev pub During : Time → Event → Type 0
During from (datagram b addr now) = Soon from now
During from (ticks now) = Soon from now
During from (kicks who reason now) = from ≤ now
During from (bans f who reason now later) = from ≤ later
During from (unbans f ip) = Unit
During from (says text) = Unit

abbrev pub AllDuring : Time → List Event → Type 0
AllDuring from [] = Unit
AllDuring from (e ∷ es) = During from e × AllDuring from es

send_all_kicks :
    (net : Network) (s : Server) (os : List Outgoing)
    → (send_all net s os).recently_kicked ≡ s.recently_kicked
unfolding send_all
send_all_kicks net s [] = refl
send_all_kicks net s (o ∷ os) = ground (arith, send_all_kicks net (send net s o) os)

pub same_tables :
    (k : Text) (from : Time) (s t : Server)
    → t.clients ≡ s.clients
    → t.recently_kicked ≡ s.recently_kicked
    → Out k from s
    → Out k from t
same_tables k from s t ec ek o = record {
  absent = ap (λ (m : List (Text × Client)). lookup k m) ec ∙ o.absent;
  at = o.at;
  noted = ap (λ (m : List (Text × Time)). lookup k m) ek ∙ o.noted;
  since = o.since;
  kicks = rw ek o.kicks;
}

send_all-Out :
    (k : Text) (from : Time) (net : Network) (s : Server) (os : List Outgoing)
    → Out k from s
    → Out k from (send_all net s os)
send_all-Out k from net s os o =
    same_tables k from s (send_all net s os) (send_all_frame net s os).0 (send_all_kicks net s os) o

module _ (lib : Library) (j : Json) (net : Network) where
  step-Out :
      (k : Text) (from : Time) (s : Server) (e : Event)
      → Inv s
      → Out k from s
      → During from e
      → Out k from (step lib j net s e)
  unfolding step
  step-Out k from s (datagram b addr now) v o d =
      unfold receive in
      let s1 = record s {
        rx_count = (s.rx_count + 1) % 2 ^ 64;
        rx_bytes = (s.rx_bytes + length b) % 2 ^ 64;
      } in
      send_all-Out k from net (handle s1 b addr now).0 (handle s1 b addr now).1
        (handle-Out k from s1 b addr now (same_tables k from s s1 refl refl o) d)
  step-Out k from s (ticks now) v o d =
      send_all-Out k from net (tick s now).0 (tick s now).1 (tick-Out k from s now v o d)
  step-Out k from s (kicks who reason now) v o d =
      send_all-Out k from net _ _ (kick-Out lib k from s who reason now o d)
  step-Out k from s (bans f who reason now later) v o d =
      send_all-Out k from net _ _ (ban-Out lib k from j f s who reason now later o d)
  step-Out k from s (unbans f ip) v o d =
      let (ec, _, ek) = unban_frame j f s ip in same_tables k from s (unban j f s ip).0 ec ek o
  step-Out k from s (says text) v o d = send_all-Out k from net s (say s text) o

  run-Out :
      (k : Text) (from : Time) (s : Server) (es : List Event)
      → s.next_id + length es < 2 ^ 32
      → Inv s
      → Out k from s
      → AllDuring from es
      → Out k from (run lib j net s es)
  unfolding run
  run-Out k from s [] few v o d = o
  run-Out k from s (e ∷ es) few v o d =
      let kept = step-Keeps lib j net s e (omega arith) v in
      run-Out k from (step lib j net s e) es (omega (arith, kept.ids)) kept.inv
        (step-Out k from s e v o d.0) d.1

  -- A kicked player stays out: once Kick on a well-formed server has found the client `c` at the
  -- time `from`, no datagram or tick in the next ten seconds and no admin command from then on, in
  -- any number and order, each handled whole before the next, puts a session back under its
  -- address. (As many ids as there are events must be left, and the table of kicks has an address
  -- once.)
  pub kick_window_holds :
      (s : Server) (c : Client) (who reason : Text) (from : Time) (es : List Event)
      → Inv s
      → IsMap s.recently_kicked
      → find_client lib s who ≡ some c
      → s.next_id + 1 + length es < 2 ^ 32
      → AllDuring from es
      → lookup c.addr_key (run lib j net (step lib j net s (kicks who reason from)) es).clients
        ≡ none
  kick_window_holds s c who reason from es v m e few d =
      let kept = step-Keeps lib j net s (kicks who reason from) (omega arith) v in
      (run-Out c.addr_key from (step lib j net s (kicks who reason from)) es
        (omega (arith, kept.ids)) kept.inv kicked d).absent
    where
      kicked : Out c.addr_key from (step lib j net s (kicks who reason from))
      kicked =
          unfold step in
          send_all-Out c.addr_key from net _ _ (kick-Out_self lib s c who reason from m e)
