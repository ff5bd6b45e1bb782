-- ===== src/Server/Interleave/Sections.antt =====
-- The critical sections of the receive goroutine of internal/server/server.go, one after the other, against
-- `handle`.
use rbr_mp_server.Common.{
  ℕ, ◌≡◌, refl, inl, inr, false, Option, none, some, List, arith, ◌==◌, Option-cases, Bool-cases,
}
use rbr_mp_server.Clock.{Time}
use rbr_mp_server.Protocol.Types.{
  Error, Hello, State, Chat, type_hello, type_state, type_pong, type_chat, type_bye,
}
use rbr_mp_server.Protocol.Types
use rbr_mp_server.Protocol.Decode.{
  ok, err, parse_header, decode_hello, decode_state, decode_pong, decode_chat,
}
use rbr_mp_server.Server.Types.{UdpAddr, BanEntry, Server, Outgoing}
use rbr_mp_server.Server.Bans.{get}
use rbr_mp_server.Server.Session.{join, state, pong, bye}
use rbr_mp_server.Server.Chat.{chat}
use rbr_mp_server.Server.Handle.{kicked_recently, decoded, refuse, dispatch, handle}
use rbr_mp_server.Server.Invariant.Datagram.{
  if_cases, Parsed-cases, handle_banned, handle_accepted, handle_rejected,
}
use rbr_mp_server.Server.Interleave.{
  Pc, waiting, received, permitted, joining, stating, System, system, decoded_at, route, advance,
}

-- The goroutine on its own, until it waits for the next datagram: three sections at most.
unfoldable pub settle : System → System
settle x = let y = advance x.server x.pc in let z = advance y.server y.pc in advance z.server z.pc

decoded_settles :
    {A : Type 0} (x : A × Option Error) (s : Server) (f : A → System)
    (g : A → Server × List Outgoing)
    → ((a : A) → advance (f a).server (f a).pc ≡ system (g a).0 waiting)
    → advance (decoded_at x s f).server (decoded_at x s f).pc ≡ system (decoded x s g).0 waiting
unfolding decoded_at
decoded_settles (a, none) s f g h = h a
decoded_settles (a, some e) s f g h = unfold advance in refl

route_settles :
    (s : Server) (b : List ℕ) (addr : UdpAddr) (now : Time) (t : ℕ)
    → let x = route s b addr now t in
      advance x.server x.pc ≡ system (dispatch s b addr now t).0 waiting
unfolding route dispatch advance
route_settles s b addr now t = elim (Bool-cases (t == type_hello)) [
  | inl e ↦ rw e (elim (Bool-cases (kicked_recently s addr now)) [
    | inl k ↦ rw k refl
    | inr k ↦ rw k (decoded_settles (decode_hello b) s _ _ (λ h. refl))
  ])
  | inr e ↦ rw e (elim (Bool-cases (t == type_state)) [
    | inl e' ↦ rw e' (elim (Bool-cases (kicked_recently s addr now)) [
      | inl k ↦ rw k refl
      | inr k ↦ rw k (decoded_settles (decode_state b) s _ _ (λ st. refl))
    ])
    | inr e' ↦ rw e' (elim (Bool-cases (t == type_pong)) [
      | inl p ↦ rw p (decoded_settles (decode_pong b) s _ _ (λ p. refl))
      | inr p ↦ rw p (elim (Bool-cases (t == type_chat)) [
        | inl c ↦ rw c (decoded_settles (decode_chat b) s _ _ (λ ch. refl))
        | inr c ↦ rw c (elim (Bool-cases (t == type_bye)) [ inl y ↦ rw y refl | inr y ↦ rw y refl ])
      ])
    ])
  ])
]

advance_banned :
    (s : Server) (b : List ℕ) (addr : UdpAddr) (now : Time) (ban : BanEntry)
    → get s.bans addr.ip ≡ some ban
    → advance s (received b addr now) ≡ system (refuse s addr ban now).0 waiting
unfolding advance
advance_banned s b addr now ban e = ground arith

advance_free :
    (s : Server) (b : List ℕ) (addr : UdpAddr) (now : Time)
    → get s.bans addr.ip ≡ none
    → advance s (received b addr now) ≡ system s (permitted b addr now)
unfolding advance
advance_free s b addr now e = ground arith

advance_rejected :
    (s : Server) (b : List ℕ) (addr : UdpAddr) (now : Time) (x : Error)
    → parse_header b ≡ err x
    → advance s (permitted b addr now) ≡ system s waiting
unfolding advance
advance_rejected s b addr now x e = ground arith

advance_accepted :
    (s : Server) (b : List ℕ) (addr : UdpAddr) (now : Time) (t : ℕ)
    → parse_header b ≡ ok t
    → advance s (permitted b addr now) ≡ route s b addr now t
unfolding advance
advance_accepted s b addr now t e = ground arith

-- Where no other goroutine comes between, the critical sections of the receive goroutine are
-- `handle`: from any datagram, any server and any time they leave the same server, and the
-- goroutine waits again after three at most.
pub settle-handle :
    (s : Server) (b : List ℕ) (addr : UdpAddr) (now : Time)
    → settle (system s (received b addr now)) ≡ system (handle s b addr now).0 waiting
unfolding settle
settle-handle s b addr now = elim (Option-cases (get s.bans addr.ip)) [
  | inr (ban, e) ↦
      rw (advance_banned s b addr now ban e, handle_banned s b addr now ban e)
        (unfold advance in refl)
  | inl e ↦ rw (advance_free s b addr now e) (elim (Parsed-cases (parse_header b)) [
    | inl (t, p) ↦
        rw (advance_accepted s b addr now t p, handle_accepted s b addr now t e p)
          (route_settles s b addr now t)
    | inr (x, p) ↦
        rw (advance_rejected s b addr now x p, handle_rejected s b addr now x e p)
          (unfold advance in refl)
  ])
]

decoded_cases {ℓ} :
    {A : Type 0} (P : System → Type ℓ) (x : A × Option Error) (s : Server) (f : A → System)
    → P (system s waiting)
    → ((a : A) → P (f a))
    → P (decoded_at x s f)
unfolding decoded_at
decoded_cases P (a, none) s f dropped handled = handled a
decoded_cases P (a, some e) s f dropped handled = dropped

route_cases {ℓ} :
    (P : System → Type ℓ) (s : Server) (b : List ℕ) (addr : UdpAddr) (now : Time) (t : ℕ)
    → P (system s waiting)
    → ((h : Hello) → kicked_recently s addr now ≡ false → P (system s (joining addr h now)))
    → ((st : State) → kicked_recently s addr now ≡ false → P (system s (stating addr st now)))
    → ((p : Types.Pong) → P (system (pong s addr p now) waiting))
    → ((ch : Chat) → P (system (chat s addr ch now).0 waiting))
    → P (system (bye s addr) waiting)
    → P (route s b addr now t)
unfolding route
route_cases P s b addr now t dropped on_hello on_state on_pong on_chat on_bye =
    if_cases P (t == type_hello) _ _
      (λ _.
        if_cases P (kicked_recently s addr now) _ _ (λ _. dropped)
          (λ k. decoded_cases P (decode_hello b) s _ dropped (λ h. on_hello h k)))
      (λ _.
        if_cases P (t == type_state) _ _
          (λ _.
            if_cases P (kicked_recently s addr now) _ _ (λ _. dropped)
              (λ k. decoded_cases P (decode_state b) s _ dropped (λ st. on_state st k)))
          (λ _.
            if_cases P (t == type_pong) _ _
              (λ _. decoded_cases P (decode_pong b) s _ dropped on_pong)
              (λ _.
                if_cases P (t == type_chat) _ _
                  (λ _. decoded_cases P (decode_chat b) s _ dropped on_chat)
                  (λ _. if_cases P (t == type_bye) _ _ (λ _. on_bye) (λ _. dropped)))))

-- A rule for what the next critical section does.
pub advance_cases {ℓ} :
    (P : System → Type ℓ) (s : Server) (pc : Pc)
    → P (system s waiting)
    → ((b : List ℕ) (addr : UdpAddr) (now : Time) (ban : BanEntry)
        → pc ≡ received b addr now
        → P (system (refuse s addr ban now).0 waiting))
    → ((b : List ℕ) (addr : UdpAddr) (now : Time)
        → pc ≡ received b addr now
        → P (system s (permitted b addr now)))
    → ((b : List ℕ) (addr : UdpAddr) (now : Time) (h : Hello)
        → pc ≡ permitted b addr now
        → kicked_recently s addr now ≡ false
        → P (system s (joining addr h now)))
    → ((b : List ℕ) (addr : UdpAddr) (now : Time) (st : State)
        → pc ≡ permitted b addr now
        → kicked_recently s addr now ≡ false
        → P (system s (stating addr st now)))
    → ((b : List ℕ) (addr : UdpAddr) (now : Time) (p : Types.Pong)
        → P (system (pong s addr p now) waiting))
    → ((b : List ℕ) (addr : UdpAddr) (now : Time) (ch : Chat)
        → P (system (chat s addr ch now).0 waiting))
    → ((addr : UdpAddr) → P (system (bye s addr) waiting))
    → ((addr : UdpAddr) (h : Hello) (now : Time)
        → pc ≡ joining addr h now
        → P (system (join s addr h now).0 waiting))
    → ((addr : UdpAddr) (st : State) (now : Time)
        → pc ≡ stating addr st now
        → P (system (state s addr st now).0 waiting))
    → P (advance s pc)
advance_cases P s waiting on_drop on_ban on_pass on_hello on_state on_pong on_chat on_bye on_join
      on_take =
    unfold advance in on_drop
advance_cases P s (joining addr h now) on_drop on_ban on_pass on_hello on_state on_pong on_chat
      on_bye on_join on_take =
    unfold advance in on_join addr h now refl
advance_cases P s (stating addr st now) on_drop on_ban on_pass on_hello on_state on_pong on_chat
      on_bye on_join on_take =
    unfold advance in on_take addr st now refl
advance_cases P s (received b addr now) on_drop on_ban on_pass on_hello on_state on_pong on_chat
      on_bye on_join on_take =
    elim (Option-cases (get s.bans addr.ip)) [
      | inr (ban, e) ↦ rw (advance_banned s b addr now ban e) (on_ban b addr now ban refl)
      | inl e ↦ rw (advance_free s b addr now e) (on_pass b addr now refl)
    ]
advance_cases P s (permitted b addr now) on_drop on_ban on_pass on_hello on_state on_pong on_chat
      on_bye on_join on_take =
    elim (Parsed-cases (parse_header b)) [
      | inl (t, p) ↦ rw (advance_accepted s b addr now t p) (
          route_cases P s b addr now t on_drop (λ h. on_hello b addr now h refl)
            (λ st. on_state b addr now st refl) (on_pong b addr now) (on_chat b addr now)
            (on_bye addr))
      | inr (x, p) ↦ rw (advance_rejected s b addr now x p) on_drop
    ]
