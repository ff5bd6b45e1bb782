-- ===== src/Server/Isolation.antt =====
-- What a datagram does to the sessions of other addresses in internal/server/server.go, and what ends a
-- session that has fallen silent.
pub mod Settings
pub mod Silence
use rbr_mp_server.Common.{
  ℕ, ◌+◌, ◌%◌, ◌^◌, ◌≤◌, ◌<◌, ◌≡◌, refl, sym, ap, subst, ◌∙◌, ◌≢◌, inl, inr, true, false, none,
  some, List, [], ◌∷◌, ◌++◌, arith, length, All, ◌==◌, ◌||◌, not, if◌then◌else◌, Option-cases,
  Bool-cases,
}
use rbr_mp_server.Common.Text.{Text}
use rbr_mp_server.Common.GoMap.{lookup, delete}
use rbr_mp_server.Common.GoMap.Cases.{lookup-insert_ne, lookup-delete_ne, delete_cases}
use rbr_mp_server.Clock.{Time, within, is_zero, longer}
use rbr_mp_server.Protocol.Types.{Hello, State, Chat}
use rbr_mp_server.Protocol.Types
use rbr_mp_server.Server.Types.{UdpAddr, Client, Server, Outgoing, chat_every}
use rbr_mp_server.Server.Session.{client_locked, store, join, state, pong, bye, uptime_ms}
use rbr_mp_server.Server.Chat.{relay, chat}
use rbr_mp_server.Server.Handle.{refuse, handle}
use rbr_mp_server.Server.Invariant.{Inv}
use rbr_mp_server.Server.Invariant.Handlers.{pong_unknown, pong_known, bye_unknown, bye_known}
use rbr_mp_server.Server.Invariant.ChatLine.{chat_text_unknown, chat_text_known, chat_cases}
use rbr_mp_server.Server.Invariant.Datagram.{handle_cases, dispatch_cases, refuse_frame}

module _ (k : Text) (s : Server) where
  -- The session under `k` is as it was.
  abbrev pub Same : Server → Type 0
  Same t = lookup k t.clients ≡ lookup k s.clients

  store_others : (addr : UdpAddr) (c : Client) → addr.text ≢ k → Same (store s addr c)
  unfolding store
  store_others addr c ne = lookup-insert_ne s.clients addr.text k c ne

  client_locked_others :
      (addr : UdpAddr) (name : Text) (now : Time)
      → addr.text ≢ k
      → Same (client_locked s addr name now).0
  unfolding client_locked
  client_locked_others addr name now ne = elim (Option-cases (lookup addr.text s.clients)) [
    | inl l ↦ rw (l, client_locked) (lookup-insert_ne s.clients addr.text k _ ne)
    | inr (c, l) ↦ rw (l, client_locked) refl
  ]

  join_others :
      (addr : UdpAddr) (h : Hello) (now : Time) → addr.text ≢ k → Same (join s addr h now).0
  unfolding join store
  join_others addr h now ne =
      lookup-insert_ne (client_locked s addr h.name now).0.clients addr.text k _ ne
      ∙ client_locked_others addr h.name now ne

  pub state_others :
      (addr : UdpAddr) (st : State) (now : Time) → addr.text ≢ k → Same (state s addr st now).0
  unfolding state store
  state_others addr st now ne =
      lookup-insert_ne (client_locked s addr [] now).0.clients addr.text k _ ne
      ∙ client_locked_others addr [] now ne

  pong_others :
      (addr : UdpAddr) (p : Types.Pong) (now : Time) → addr.text ≢ k → Same (pong s addr p now)
  pong_others addr p now ne = elim (Option-cases (lookup addr.text s.clients)) [
    | inl e ↦ rw (pong_unknown s addr p now e) refl
    | inr (c, e) ↦
        rw (pong_known s addr p now c e)
          (elim (Bool-cases (is_zero c.ping_sent_at || not (p.token == c.ping_token))) [
            | inl t ↦ rw t refl
            | inr f ↦ rw f (store_others addr _ ne)
          ])
  ]

  chat_others :
      (addr : UdpAddr) (ch : Chat) (now : Time) → addr.text ≢ k → Same (chat s addr ch now).0
  chat_others addr ch now ne =
      chat_cases (λ r. Same r.0) s addr ch now refl
        (elim (Option-cases (lookup addr.text s.clients)) [
          | inl e ↦ rw (chat_text_unknown s addr ch.text now e) refl
          | inr (c, e) ↦
              rw (chat_text_known s addr ch.text now c e)
                (elim (Bool-cases (within now c.last_chat chat_every)) [
                  | inl t ↦ rw t refl
                  | inr f ↦ rw f (unfold relay in store_others addr _ ne)
                ])
        ])

  bye_others : (addr : UdpAddr) → Inv s → addr.text ≢ k → Same (bye s addr)
  bye_others addr v ne = elim (Option-cases (lookup addr.text s.clients)) [
    | inl e ↦ rw (bye_unknown s addr e) refl
    | inr (c, e) ↦
        let key = (v.sessions.each addr.text c e).keyed in
        rw (bye_known s addr c e) (lookup-delete_ne s.clients c.addr_key k (λ p. ne (sym key ∙ p)))
  ]

-- A datagram touches the session of its own address only: on a well-formed server, whatever its
-- bytes are, the session of every other address is after `handle` what it was before, or still
-- missing.
pub handle_isolated :
    (s : Server) (b : List ℕ) (addr : UdpAddr) (now : Time) (k : Text)
    → Inv s
    → addr.text ≢ k
    → lookup k (handle s b addr now).0.clients ≡ lookup k s.clients
handle_isolated s b addr now k v ne =
    handle_cases (λ r. Same k s r.0) s b addr now
      (λ ban _. ap (λ (m : List (Text × Client)). lookup k m) (refuse_frame s addr ban now).0)
      (λ _. refl)
      (λ t _ _.
        dispatch_cases (λ r. Same k s r.0) s b addr now t refl
          (λ h _ _ _. join_others k s addr h now ne) (λ st _ _ _. state_others k s addr st now ne)
          (λ p _ _. pong_others k s addr p now ne) (λ ch _ _. chat_others k s addr ch now ne)
          (λ _. bye_others k s addr v ne))
