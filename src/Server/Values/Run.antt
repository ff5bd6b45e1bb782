-- ===== src/Server/Values/Run.antt =====
-- Histories of internal/server/server.go: the values of the sessions stay in range.
use rbr_mp_server.Common.{
  ◌+◌, ◌%◌, ◌^◌, ◌<◌, ◌≤◌, inl, inr, List, [], ◌∷◌, ◌++◌, arith, length, All, Option-cases,
}
use rbr_mp_server.Common.Text.{Text}
use rbr_mp_server.Clock.{Time}
use rbr_mp_server.Protocol.Header.{IsByte}
use rbr_mp_server.Server.Types.{Config, BanList, Server, Outgoing}
use rbr_mp_server.Server.Bans.{Json, Outcomes}
use rbr_mp_server.Server.Chat.{say}
use rbr_mp_server.Server.Handle.{Network, handle, send_all, receive, banned_prefix}
use rbr_mp_server.Server.Tick.{tick}
use rbr_mp_server.Server.Admin.{
  Library, find_client, kick_client, kick, ban_target, ban, unban, reason_or, default_kick,
  default_ban,
}
use rbr_mp_server.Server.Start.{fresh_server}
use rbr_mp_server.Server.Invariant.{Inv}
use rbr_mp_server.Server.Invariant.Datagram.{send_all_frame}
use rbr_mp_server.Server.Invariant.Console.{
  kick_found, kick_missing, ban_missing, ban_address, ban_player, banned, record_ban_frame,
  unban_frame,
}
use rbr_mp_server.Server.KickWindow.Admin.{kick_client_tables}
use rbr_mp_server.Server.Values.{AllRanged, AllRanged-frame}
use rbr_mp_server.Server.Values.Handlers.{handle-AllRanged, tick-AllRanged, removed-AllRanged}
use rbr_mp_server.Server.Run.{
  Event, datagram, ticks, kicks, bans, unbans, says, step, run, step-Keeps, no_client,
  fresh_server-Inv,
}

-- A datagram consists of bytes.
abbrev pub HasBytes : Event → Type 0
HasBytes (datagram b addr now) = All IsByte b
HasBytes (ticks now) = Unit {0}
HasBytes (kicks who reason now) = Unit {0}
HasBytes (bans f who reason now later) = Unit {0}
HasBytes (unbans f ip) = Unit {0}
HasBytes (says text) = Unit {0}

-- A well-formed server whose sessions are in range.
pub record Good (s : Server) : Type 0 where
  pub inv : Inv s
  pub ranged : AllRanged s

module _ (lib : Library) (j : Json) (net : Network) where
  send_all-AllRanged :
      (s : Server) (out : List Outgoing) → AllRanged s → AllRanged (send_all net s out)
  send_all-AllRanged s out r = AllRanged-frame s (send_all net s out) (send_all_frame net s out).0 r

  kick-AllRanged :
      (s : Server) (who reason : Text) (now : Time)
      → AllRanged s
      → AllRanged (kick lib s who reason now).0
  kick-AllRanged s who reason now r = elim (Option-cases (find_client lib s who)) [
    | inl e ↦ rw (kick_missing lib s who reason now e) r
    | inr (c, e) ↦
        let t = (kick_client lib s c (reason_or default_kick reason) now).0 in
        rw (kick_found lib s who reason now c e) (
          removed-AllRanged s t c.addr_key
            (kick_client_tables lib s c (reason_or default_kick reason) now).0 r)
  ]

  ban-AllRanged :
      (f : Outcomes) (s : Server) (who reason : Text) (now later : Time)
      → AllRanged s
      → AllRanged (ban lib j f s who reason now later).0
  ban-AllRanged f s who reason now later r = elim (Option-cases (ban_target lib s who)) [
    | inl e ↦ rw (ban_missing lib j f s who reason now later e) r
    | inr (target, e) ↦
        let t = banned lib j f s who reason now later target in
        let r' : AllRanged t =
          AllRanged-frame s t (record_ban_frame lib j f s who reason now later target).0 r in
        elim (Option-cases (find_client lib s who)) [
          | inl g ↦ rw (ban_address lib j f s who reason now later target e g).0 r'
          | inr (c, g) ↦
              rw (ban_player lib j f s who reason now later target c e g).0
                (kick-AllRanged t who (banned_prefix ++ reason_or default_ban reason) later r')
        ]
  ]

  step-AllRanged :
      (s : Server) (e : Event) → HasBytes e → Inv s → AllRanged s → AllRanged (step lib j net s e)
  unfolding step
  step-AllRanged s (datagram b addr now) bytes v r =
      unfold receive in
      let s1 = record s {
        rx_count = (s.rx_count + 1) % 2 ^ 64;
        rx_bytes = (s.rx_bytes + length b) % 2 ^ 64;
      } in
      send_all-AllRanged (handle s1 b addr now).0 (handle s1 b addr now).1
        (handle-AllRanged s1 b addr now bytes r)
  step-AllRanged s (ticks now) bytes v r =
      send_all-AllRanged (tick s now).0 (tick s now).1 (tick-AllRanged s now v r)
  step-AllRanged s (kicks who reason now) bytes v r =
      send_all-AllRanged (kick lib s who reason now).0 (kick lib s who reason now).1
        (kick-AllRanged s who reason now r)
  step-AllRanged s (bans f who reason now later) bytes v r =
      send_all-AllRanged (ban lib j f s who reason now later).0
        (ban lib j f s who reason now later).1 (ban-AllRanged f s who reason now later r)
  step-AllRanged s (unbans f ip) bytes v r =
      AllRanged-frame s (unban j f s ip).0 (unban_frame j f s ip).0 r
  step-AllRanged s (says text) bytes v r = send_all-AllRanged s (say s text) r

  pub run-Good :
      (s : Server) (es : List Event)
      → s.next_id + length es < 2 ^ 32
      → All HasBytes es
      → Good s
      → Good (run lib j net s es) × ((run lib j net s es).next_id ≤ s.next_id + length es)
  unfolding run
  run-Good s [] few bytes g = (g, omega arith)
  run-Good s (e ∷ es) few bytes g =
      let k = step-Keeps lib j net s e (omega arith) g.inv in
      let (g', le) =
        run-Good (step lib j net s e) es (omega (arith, k.ids)) bytes.1
          (record { inv = k.inv; ranged = step-AllRanged s e bytes.0 g.inv g.ranged }) in
      (g', omega (arith, le, k.ids))

  pub fresh_server-Good : (cfg : Config) (l : BanList) (now : Time) → Good (fresh_server cfg l now)
  fresh_server-Good cfg l now = record {
    inv = fresh_server-Inv lib j net cfg l now;
    ranged = unfold fresh_server in λ k c e. absurd (no_client k c e);
  }
