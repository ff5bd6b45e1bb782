-- ===== src/Server/Values/Handlers.antt =====
-- join, state, pong, chat, bye, handle and tick of internal/server/server.go keep the values of the
-- sessions in range.
use rbr_mp_server.Common.{
  ◌≡◌, refl, sym, ap, subst, ◌∙◌, inl, inr, Option, some, List, [], ℕ, arith, All, Option-cases,
  Bool-cases, ◌==◌, ◌||◌, not,
}
use rbr_mp_server.Common.Text.{Text}
use rbr_mp_server.Common.GoMap.{lookup, delete, keep}
use rbr_mp_server.Common.GoMap.Cases.{delete_cases, keep_cases, update_all_cases}
use rbr_mp_server.Clock.{Time, within, is_zero}
use rbr_mp_server.Protocol.Types.{
  Error, Hello, State, Chat, IsU32, IsTransform, IsTelemetry, IsState,
}
use rbr_mp_server.Protocol.Types
use rbr_mp_server.Protocol.Header.{IsByte}
use rbr_mp_server.Protocol.Ranges.Messages.{decode_state-IsState}
use rbr_mp_server.Server.Values.{
  IsRanged, AllRanged, IsRanged-frame, AllRanged-frame, store-AllRanged, client_locked-IsRanged,
  take_state-IsRanged,
}
use rbr_mp_server.Server.Types.{UdpAddr, Client, Server, chat_every}
use rbr_mp_server.Server.Session.{
  client_locked, store, take_state, rename, join, state, pong, bye, uptime_ms,
}
use rbr_mp_server.Server.Chat.{relay, chat}
use rbr_mp_server.Server.Handle.{refuse, handle}
use rbr_mp_server.Server.Tick.{tick}
use rbr_mp_server.Server.Invariant.{Inv}
use rbr_mp_server.Server.Invariant.Handlers.{
  rename_frame, pong_unknown, pong_known, bye_unknown, bye_known,
}
use rbr_mp_server.Server.Invariant.ChatLine.{chat_text_unknown, chat_text_known, chat_cases}
use rbr_mp_server.Server.Invariant.Datagram.{handle_cases, dispatch_cases, refuse_frame}
use rbr_mp_server.Server.Invariant.Timers.{after_ping, after_ping_values, alive, tick-clients}

rename-IsRanged : (c : Client) (h : Hello) → IsRanged c → IsRanged (rename c h)
rename-IsRanged c h r =
    IsRanged-frame c (rename c h) (unfold rename in ground arith) (rename_frame c h).3 r

pub join-AllRanged :
    (s : Server) (addr : UdpAddr) (h : Hello) (now : Time)
    → AllRanged s
    → AllRanged (join s addr h now).0
unfolding join
join-AllRanged s addr h now r =
    let (all, one) = client_locked-IsRanged s addr h.name now r in
    let r = client_locked s addr h.name now in
    let c = record r.1 { last_seen = now } in
    store-AllRanged r.0 addr (rename c h) all
      (rename-IsRanged c h (IsRanged-frame r.1 c refl refl one))

pub state-AllRanged :
    (s : Server) (addr : UdpAddr) (st : State) (now : Time)
    → AllRanged s
    → IsState st
    → AllRanged (state s addr st now).0
unfolding state
state-AllRanged s addr st now r v =
    let (all, one) = client_locked-IsRanged s addr [] now r in
    let r = client_locked s addr [] now in
    let c = record r.1 { last_seen = now } in
    store-AllRanged r.0 addr (take_state c st now) all
      (take_state-IsRanged c st now (IsRanged-frame r.1 c refl refl one) v)

-- Writing back the client that was found, with the same history.
stored :
    (s : Server) (addr : UdpAddr) (c c' : Client)
    → AllRanged s
    → lookup addr.text s.clients ≡ some c
    → c'.last_client_time_ms ≡ c.last_client_time_ms
    → c'.history ≡ c.history
    → AllRanged (store s addr c')
stored s addr c c' r l et eh =
    store-AllRanged s addr c' r (IsRanged-frame c c' et eh (r addr.text c l))

pub pong-AllRanged :
    (s : Server) (addr : UdpAddr) (p : Types.Pong) (now : Time)
    → AllRanged s
    → AllRanged (pong s addr p now)
pong-AllRanged s addr p now r = elim (Option-cases (lookup addr.text s.clients)) [
  | inl e ↦ rw (pong_unknown s addr p now e) r
  | inr (c, e) ↦
      rw (pong_known s addr p now c e)
        (elim (Bool-cases (is_zero c.ping_sent_at || not (p.token == c.ping_token))) [
          | inl t ↦ rw t r
          | inr f ↦ rw f (stored s addr c _ r e refl refl)
        ])
]

pub chat-AllRanged :
    (s : Server) (addr : UdpAddr) (ch : Chat) (now : Time)
    → AllRanged s
    → AllRanged (chat s addr ch now).0
chat-AllRanged s addr ch now r =
    chat_cases (λ r. AllRanged r.0) s addr ch now r
      (elim (Option-cases (lookup addr.text s.clients)) [
        | inl e ↦ rw (chat_text_unknown s addr ch.text now e) r
        | inr (c, e) ↦
            rw (chat_text_known s addr ch.text now c e)
              (elim (Bool-cases (within now c.last_chat chat_every)) [
                | inl t ↦ rw t r
                | inr f ↦ rw f (unfold relay in stored s addr c _ r e refl refl)
              ])
      ])

-- Removing sessions.
pub removed-AllRanged :
    (s t : Server) (k : Text) → t.clients ≡ delete k s.clients → AllRanged s → AllRanged t
removed-AllRanged s t k e r j c l =
    r j c
      (delete_cases s.clients k j c (ap (λ (m : List (Text × Client)). lookup j m) (sym e) ∙ l)).1

pub bye-AllRanged : (s : Server) (addr : UdpAddr) → AllRanged s → AllRanged (bye s addr)
bye-AllRanged s addr r = elim (Option-cases (lookup addr.text s.clients)) [
  | inl e ↦ rw (bye_unknown s addr e) r
  | inr (c, e) ↦
      rw (bye_known s addr c e)
        (removed-AllRanged s (record s { clients = delete c.addr_key s.clients }) c.addr_key refl r)
]

pub handle-AllRanged :
    (s : Server) (b : List ℕ) (addr : UdpAddr) (now : Time)
    → All IsByte b
    → AllRanged s
    → AllRanged (handle s b addr now).0
handle-AllRanged s b addr now bytes r =
    handle_cases (λ r. AllRanged r.0) s b addr now
      (λ ban _. AllRanged-frame s (refuse s addr ban now).0 (refuse_frame s addr ban now).0 r)
      (λ _. r)
      (λ t _ _.
        dispatch_cases (λ r. AllRanged r.0) s b addr now t r
          (λ h _ _ _. join-AllRanged s addr h now r)
          (λ st _ _ e. state-AllRanged s addr st now r (
            subst IsState (ap (λ (x : State × Option Error). x.0) e)
              (decode_state-IsState b bytes)))
          (λ p _ _. pong-AllRanged s addr p now r) (λ ch _ _. chat-AllRanged s addr ch now r)
          (λ _. bye-AllRanged s addr r))

pub tick-AllRanged : (s : Server) (now : Time) → Inv s → AllRanged s → AllRanged (tick s now).0
tick-AllRanged s now v r k c l =
    let (d, l', e) =
      update_all_cases (keep (alive s now) s.clients) (after_ping (uptime_ms s now) now) k c
        (ap (λ (m : List (Text × Client)). lookup k m) (sym (tick-clients s now)) ∙ l) in
    let (l'', _) = keep_cases s.clients (alive s now) k d v.sessions.map l' in
    let (et, eh, _, _, _, _) = after_ping_values (uptime_ms s now) now d in
    subst IsRanged e (IsRanged-frame d (after_ping (uptime_ms s now) now d) et eh (r k d l''))
