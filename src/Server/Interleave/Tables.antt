-- ===== src/Server/Interleave/Tables.antt =====
-- The session table in every interleaving of the goroutines of internal/server/server.go.
use rbr_mp_server.Common.{◌+◌, ◌^◌, ◌≤◌, ◌<◌, ◌≡◌, refl, List, arith, length}
use rbr_mp_server.Clock.{Time}
use rbr_mp_server.Server.Types.{Config, BanEntry, BanList, Server, Outgoing}
use rbr_mp_server.Server.Bans.{Json, Outcomes}
use rbr_mp_server.Server.Handle.{Network, refuse, send}
use rbr_mp_server.Server.Admin.{Library, record_ban}
use rbr_mp_server.Server.Start.{fresh_server}
use rbr_mp_server.Server.Sessions.{Sessions}
use rbr_mp_server.Server.Run.{fresh_server-Inv}
use rbr_mp_server.Server.Invariant.{Inv, Keeps, HasIds}
use rbr_mp_server.Server.Invariant.Handlers.{
  join-Keeps, state-Keeps, Keeps-refl, pong-Keeps, bye-Keeps,
}
use rbr_mp_server.Server.Invariant.ChatLine.{chat-Keeps}
use rbr_mp_server.Server.Invariant.Datagram.{refuse_frame, Inv-frame}
use rbr_mp_server.Server.Invariant.Timers.{tick-Keeps}
use rbr_mp_server.Server.Invariant.Console.{kick-Keeps, unban-Keeps}
use rbr_mp_server.Server.Interleave.{
  Pc, waiting, System, system, advance, count_rx, Action, Step, arrive, go_on, on_tick, on_kick,
  on_ban, on_unban, on_send, Run, begin, continue,
}
use rbr_mp_server.Server.Interleave.Sections.{advance_cases}

advance-Keeps : (s : Server) (pc : Pc) → HasIds s → Inv s → Keeps s (advance s pc).server
advance-Keeps s pc ids v =
    let same = Keeps-refl s v in
    advance_cases (λ x. Keeps s x.server) s pc same
      (λ b addr now ban _.
        let (ec, en, _, _) = refuse_frame s addr ban now in
        Inv-frame s (refuse s addr ban now).0 ec en v)
      (λ b addr now _. same) (λ b addr now h _ _. same) (λ b addr now st _ _. same)
      (λ b addr now p. pong-Keeps s addr p now v) (λ b addr now ch. chat-Keeps s addr ch now v)
      (λ addr. bye-Keeps s addr v) (λ addr h now _. join-Keeps s addr h now ids v)
      (λ addr st now _. state-Keeps s addr st now ids v)

pub send_frame :
    (net : Network) (s : Server) (o : Outgoing)
    → ((send net s o).clients ≡ s.clients)
      × ((send net s o).next_id ≡ s.next_id)
      × ((send net s o).recently_kicked ≡ s.recently_kicked)
unfolding send
send_frame net s o = ground arith

module _ (lib : Library) (j : Json) (net : Network) where
  pub record_ban_frame :
      (f : Outcomes) (s : Server) (e : BanEntry)
      → ((record_ban lib j f s e).0.clients ≡ s.clients)
        × ((record_ban lib j f s e).0.next_id ≡ s.next_id)
        × ((record_ban lib j f s e).0.recently_kicked ≡ s.recently_kicked)
  unfolding record_ban
  record_ban_frame f s e = (refl, refl, refl)

  pub Step-Keeps :
      {a : Action} {x y : System}
      → Step lib j net a x y
      → HasIds x.server
      → Inv x.server
      → Keeps x.server y.server
  Step-Keeps (arrive s b addr now) ids v =
      Inv-frame s (count_rx s b) (unfold count_rx in refl) (unfold count_rx in refl) v
  Step-Keeps (go_on s pc) ids v = advance-Keeps s pc ids v
  Step-Keeps (on_tick s pc now) ids v = tick-Keeps s now v
  Step-Keeps (on_kick s pc who reason now) ids v = kick-Keeps lib s who reason now v
  Step-Keeps (on_ban s pc f e) ids v =
      let (ec, en, _) = record_ban_frame f s e in Inv-frame s (record_ban lib j f s e).0 ec en v
  Step-Keeps (on_unban s pc f ip) ids v = unban-Keeps j f s ip v
  Step-Keeps (on_send s pc o) ids v =
      let (ec, en, _) = send_frame net s o in Inv-frame s (send net s o) ec en v

  -- The invariant, and how many ids an execution can have given out.
  pub Run-Keeps :
      {x y : System} {trace : List Action}
      → Run lib j net x trace y
      → x.server.next_id + length trace < 2 ^ 32
      → Inv x.server
      → Inv y.server × (y.server.next_id ≤ x.server.next_id + length trace)
  Run-Keeps begin few v = (v, omega arith)
  Run-Keeps (continue a r step) few v =
      let (v', le) = Run-Keeps r (omega arith) v in
      let k = Step-Keeps step (omega (arith, few, le)) v' in (k.inv, omega (arith, k.ids, le))

  -- In every interleaving of the critical sections of the receive loop, the ticker, the sends and
  -- the admin console, of fewer than 2 ^ 32 - 1 sections from a fresh server, the session table is
  -- well formed: every session stands under the address that it replies to, no two sessions share
  -- an id, every id was given out and is not 0, and every history is sorted and capped.
  pub interleaved-Sessions :
      (cfg : Config) (bans : BanList) (now : Time) (trace : List Action) (y : System)
      → Run lib j net (system (fresh_server cfg bans now) waiting) trace y
      → 1 + length trace < 2 ^ 32
      → Sessions y.server.clients y.server.next_id
  interleaved-Sessions cfg l now trace y r few =
      (Run-Keeps r (unfold fresh_server in few) (fresh_server-Inv lib j net cfg l now)).0.sessions
