-- ===== src/Server/Isolation/Silence.antt =====
-- The reaper of internal/server/server.go: a session that nothing arrives for is forgotten, whatever else
-- goes on.
use rbr_mp_server.Common.{
  ◌+◌, ◌%◌, ◌^◌, ◌<◌, ◌≡◌, sym, ap, ◌∙◌, ◌≢◌, inl, inr, true, none, some, List, [], ◌∷◌, ◌++◌,
  arith, length, All, Option-cases, Bool-cases,
}
use rbr_mp_server.Common.Text.{Text}
use rbr_mp_server.Common.GoMap.{lookup}
use rbr_mp_server.Common.GoMap.Cases.{delete_cases}
use rbr_mp_server.Clock.{Time, longer}
use rbr_mp_server.Server.Types.{Client, Server, Outgoing}
use rbr_mp_server.Server.Bans.{Json, Outcomes}
use rbr_mp_server.Server.Session.{uptime_ms}
use rbr_mp_server.Server.Chat.{say}
use rbr_mp_server.Server.Handle.{Network, send_all, handle, receive, banned_prefix}
use rbr_mp_server.Server.Tick.{tick}
use rbr_mp_server.Server.Admin.{
  Library, find_client, kick, ban_target, ban, unban, reason_or, default_kick, default_ban,
}
use rbr_mp_server.Server.Run.{
  Event, datagram, ticks, kicks, bans, unbans, says, step, run, step-Keeps, run-Inv,
}
use rbr_mp_server.Server.Invariant.{Inv}
use rbr_mp_server.Server.Invariant.Datagram.{send_all_frame}
use rbr_mp_server.Server.Invariant.Timers.{
  after_ping, after_ping_values, tick-stays, tick_forgets, tick_absent,
}
use rbr_mp_server.Server.Invariant.Console.{
  kick_found, kick_missing, ban_missing, ban_address, ban_player, banned, record_ban_frame,
  unban_frame,
}
use rbr_mp_server.Server.KickWindow.Admin.{kick_client_tables}
use rbr_mp_server.Server.Isolation.{handle_isolated}
use rbr_mp_server.Server.Isolation.Settings.{run_cfg}

-- The event is no datagram of the address.
abbrev pub Quiet : Text → Event → Type 0
Quiet k (datagram b addr now) = addr.text ≢ k
Quiet k (ticks now) = Unit {0}
Quiet k (kicks who reason now) = Unit {0}
Quiet k (bans f who reason now later) = Unit {0}
Quiet k (unbans f ip) = Unit {0}
Quiet k (says text) = Unit {0}

-- If there still is a session under `k`, it was last seen at `t`.
abbrev Seen : Text → Time → Server → Type 0
Seen k t s = (c : Client) → lookup k s.clients ≡ some c → c.last_seen ≡ t

Seen-frame :
    (k : Text) (t : Time) (s u : Server)
    → lookup k u.clients ≡ lookup k s.clients
    → Seen k t s
    → Seen k t u
Seen-frame k t s u e h c l = h c (sym e ∙ l)

clients_frame :
    (k : Text) (t : Time) (s u : Server) → u.clients ≡ s.clients → Seen k t s → Seen k t u
clients_frame k t s u e h = Seen-frame k t s u (ap (λ (m : List (Text × Client)). lookup k m) e) h

tick-Seen :
    (k : Text) (t : Time) (s : Server) (now : Time) → Inv s → Seen k t s → Seen k t (tick s now).0
tick-Seen k t s now v h c l = elim (Option-cases (lookup k s.clients)) [
  | inl e ↦ absurd (cc (l, tick_absent s now k v e))
  | inr (d, e) ↦ elim (Bool-cases (longer now d.last_seen s.cfg.timeout)) [
    | inl old ↦ absurd (cc (l, tick_forgets s now k d v e old))
    | inr young ↦
        let same : c ≡ after_ping (uptime_ms s now) now d =
          ground (arith, l, tick-stays s now k d v e young) in
        let (_, _, _, _, seen, _) = after_ping_values (uptime_ms s now) now d in
        ap (λ (x : Client). x.last_seen) same ∙ seen ∙ h d e
  ]
]

module _ (lib : Library) (j : Json) (net : Network) where
  kick-Seen :
      (k : Text) (t : Time) (s : Server) (who reason : Text) (now : Time)
      → Seen k t s
      → Seen k t (kick lib s who reason now).0
  kick-Seen k t s who reason now h = elim (Option-cases (find_client lib s who)) [
    | inl e ↦ rw (kick_missing lib s who reason now e) h
    | inr (c, e) ↦ rw (kick_found lib s who reason now c e) (λ d l.
        h d
          (delete_cases s.clients c.addr_key k d (
            ap (λ (m : List (Text × Client)). lookup k m)
              (sym (kick_client_tables lib s c (reason_or default_kick reason) now).0)
            ∙ l)).1)
  ]

  ban-Seen :
      (k : Text) (t : Time) (f : Outcomes) (s : Server) (who reason : Text) (now later : Time)
      → Seen k t s
      → Seen k t (ban lib j f s who reason now later).0
  ban-Seen k t f s who reason now later h = elim (Option-cases (ban_target lib s who)) [
    | inl e ↦ rw (ban_missing lib j f s who reason now later e) h
    | inr (target, e) ↦
        let u = banned lib j f s who reason now later target in
        let h' : Seen k t u =
          clients_frame k t s u (record_ban_frame lib j f s who reason now later target).0 h in
        elim (Option-cases (find_client lib s who)) [
          | inl g ↦ rw (ban_address lib j f s who reason now later target e g).0 h'
          | inr (c, g) ↦
              rw (ban_player lib j f s who reason now later target c e g).0
                (kick-Seen k t u who (banned_prefix ++ reason_or default_ban reason) later h')
        ]
  ]

  send_all-Seen :
      (k : Text) (t : Time) (s : Server) (out : List Outgoing)
      → Seen k t s
      → Seen k t (send_all net s out)
  send_all-Seen k t s out h =
      clients_frame k t s (send_all net s out) (send_all_frame net s out).0 h

  step-Seen :
      (k : Text) (t : Time) (s : Server) (e : Event)
      → Inv s
      → Quiet k e
      → Seen k t s
      → Seen k t (step lib j net s e)
  unfolding step
  step-Seen k t s (datagram b addr now) v q h =
      unfold receive in
      let s1 = record s {
        rx_count = (s.rx_count + 1) % 2 ^ 64;
        rx_bytes = (s.rx_bytes + length b) % 2 ^ 64;
      } in
      let v1 : Inv s1 = record { sessions = v.sessions; positive = v.positive } in
      send_all-Seen k t (handle s1 b addr now).0 (handle s1 b addr now).1
        (Seen-frame k t s (handle s1 b addr now).0 (handle_isolated s1 b addr now k v1 q) h)
  step-Seen k t s (ticks now) v q h =
      send_all-Seen k t (tick s now).0 (tick s now).1 (tick-Seen k t s now v h)
  step-Seen k t s (kicks who reason now) v q h =
      send_all-Seen k t (kick lib s who reason now).0 (kick lib s who reason now).1
        (kick-Seen k t s who reason now h)
  step-Seen k t s (bans f who reason now later) v q h =
      send_all-Seen k t (ban lib j f s who reason now later).0
        (ban lib j f s who reason now later).1 (ban-Seen k t f s who reason now later h)
  step-Seen k t s (unbans f ip) v q h =
      clients_frame k t s (unban j f s ip).0 (unban_frame j f s ip).0 h
  step-Seen k t s (says text) v q h = send_all-Seen k t s (say s text) h

  run-Seen :
      (k : Text) (t : Time) (s : Server) (es : List Event)
      → s.next_id + length es < 2 ^ 32
      → Inv s
      → All (Quiet k) es
      → Seen k t s
      → Seen k t (run lib j net s es)
  unfolding run
  run-Seen k t s [] few v q h = h
  run-Seen k t s (e ∷ es) few v q h =
      let kept = step-Keeps lib j net s e (omega arith) v in
      run-Seen k t (step lib j net s e) es (omega (arith, kept.ids)) kept.inv q.1
        (step-Seen k t s e v q.0 h)

  -- A silent player is forgotten. A session of a well-formed server was last seen at some time;
  -- then come events of any kind in any order, none of them a datagram of its address; and then a
  -- tick comes for which the session has been silent for longer than the timeout of the
  -- configuration. After that tick there is no session under the address. (As many ids as there
  -- are events must be left.)
  pub silent_session_ends :
      (s : Server) (k : Text) (c : Client) (es : List Event) (now : Time)
      → Inv s
      → lookup k s.clients ≡ some c
      → s.next_id + length es < 2 ^ 32
      → All (Quiet k) es
      → longer now c.last_seen s.cfg.timeout ≡ true
      → lookup k (tick (run lib j net s es) now).0.clients ≡ none
  silent_session_ends s k c es now v l few q old =
      let u = run lib j net s es in
      let v' = run-Inv lib j net s es few v in
      let h : Seen k c.last_seen s =
        λ d l'. let same : d ≡ c = ground (arith, l, l') in ap (λ (x : Client). x.last_seen) same in
      let h' = run-Seen k c.last_seen s es few v q h in
      elim (Option-cases (lookup k u.clients)) [
        | inl e ↦ tick_absent u now k v' e
        | inr (d, e) ↦
            let gone : longer now d.last_seen u.cfg.timeout ≡ true =
              rw (h' d e, run_cfg lib j net s es) old in
            tick_forgets u now k d v' e gone
      ]
