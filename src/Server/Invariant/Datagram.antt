-- ===== src/Server/Invariant/Datagram.antt =====
-- handle and the receive loop of internal/server/server.go keep the invariant on every datagram.
use rbr_mp_server.Common.{
  ℕ, ◌≡◌, refl, ◌⊎◌, inl, inr, Bool, true, false, Option, none, some, List, [], ◌∷◌, arith, ◌==◌,
  if◌then◌else◌, Option-cases,
}
use rbr_mp_server.Clock.{Time}
use rbr_mp_server.Protocol.Types.{
  Error, Hello, State, Chat, type_hello, type_state, type_pong, type_chat, type_bye,
}
use rbr_mp_server.Protocol.Types
use rbr_mp_server.Protocol.Decode.{
  Parsed, ok, err, parse_header, decode_hello, decode_state, decode_pong, decode_chat,
}
use rbr_mp_server.Server.Types.{UdpAddr, BanEntry, Server, Outgoing}
use rbr_mp_server.Server.Bans.{get}
use rbr_mp_server.Server.Session.{join, state, pong, bye}
use rbr_mp_server.Server.Chat.{chat}
use rbr_mp_server.Server.Handle.{
  kicked_recently, refuse, decoded, dispatch, handle, Network, send, send_all,
}
use rbr_mp_server.Server.Invariant.{Inv, Keeps, HasIds}
use rbr_mp_server.Server.Invariant.Handlers.{
  join-Keeps, state-Keeps, Keeps-refl, pong-Keeps, bye-Keeps,
}
use rbr_mp_server.Server.Invariant.ChatLine.{chat-Keeps}

pub if_cases {ℓ} :
    {A : Type 0} (P : A → Type ℓ) (b : Bool) (x y : A)
    → (b ≡ true → P x)
    → (b ≡ false → P y)
    → P (if b then x else y)
if_cases P true x y h k = h refl
if_cases P false x y h k = k refl

decoded_cases {ℓ} :
    {A : Type 0} (P : Server × List Outgoing → Type ℓ) (x : A × Option Error) (s : Server)
    (f : A → Server × List Outgoing)
    → P (s, [])
    → ((a : A) → x ≡ (a, none) → P (f a))
    → P (decoded x s f)
decoded_cases P (a, none) s f dropped handled = handled a refl
decoded_cases P (a, some e) s f dropped handled = dropped

-- A rule for every property of what `dispatch` does: the datagram is ignored, or it goes to the
-- handler of its type.
pub dispatch_cases {ℓ} :
    (P : Server × List Outgoing → Type ℓ) (s : Server) (b : List ℕ) (addr : UdpAddr) (now : Time)
    (t : ℕ)
    → P (s, [])
    → ((h : Hello)
        → t ≡ type_hello
        → kicked_recently s addr now ≡ false
        → decode_hello b ≡ (h, none)
        → P (join s addr h now))
    → ((st : State)
        → t ≡ type_state
        → kicked_recently s addr now ≡ false
        → decode_state b ≡ (st, none)
        → P (state s addr st now))
    → ((p : Types.Pong) → t ≡ type_pong → decode_pong b ≡ (p, none) → P (pong s addr p now, []))
    → ((ch : Chat) → t ≡ type_chat → decode_chat b ≡ (ch, none) → P (chat s addr ch now))
    → (t ≡ type_bye → P (bye s addr, []))
    → P (dispatch s b addr now t)
unfolding dispatch
dispatch_cases P s b addr now t dropped on_hello on_state on_pong on_chat on_bye =
    if_cases P (t == type_hello) _ _
      (λ e.
        if_cases P (kicked_recently s addr now) _ _ (λ _. dropped)
          (λ k. decoded_cases P (decode_hello b) s _ dropped (λ h. on_hello h (ground arith) k)))
      (λ _.
        if_cases P (t == type_state) _ _
          (λ e.
            if_cases P (kicked_recently s addr now) _ _ (λ _. dropped)
              (λ k.
                decoded_cases P (decode_state b) s _ dropped (λ st. on_state st (ground arith) k)))
          (λ _.
            if_cases P (t == type_pong) _ _
              (λ e. decoded_cases P (decode_pong b) s _ dropped (λ p. on_pong p (ground arith)))
              (λ _.
                if_cases P (t == type_chat) _ _
                  (λ e.
                    decoded_cases P (decode_chat b) s _ dropped (λ ch. on_chat ch (ground arith)))
                  (λ _.
                    if_cases P (t == type_bye) _ _ (λ e. on_bye (ground arith)) (λ _. dropped)))))

pub handle_banned :
    (s : Server) (b : List ℕ) (addr : UdpAddr) (now : Time) (ban : BanEntry)
    → get s.bans addr.ip ≡ some ban
    → handle s b addr now ≡ refuse s addr ban now
handle_banned s b addr now ban e = unfold handle in ground arith

pub handle_rejected :
    (s : Server) (b : List ℕ) (addr : UdpAddr) (now : Time) (x : Error)
    → get s.bans addr.ip ≡ none
    → parse_header b ≡ err x
    → handle s b addr now ≡ (s, [])
handle_rejected s b addr now x e p = unfold handle in ground arith

pub handle_accepted :
    (s : Server) (b : List ℕ) (addr : UdpAddr) (now : Time) (t : ℕ)
    → get s.bans addr.ip ≡ none
    → parse_header b ≡ ok t
    → handle s b addr now ≡ dispatch s b addr now t
handle_accepted s b addr now t e p = unfold handle in ground arith

pub Parsed-cases : (p : Parsed) → ((t : ℕ) × (p ≡ ok t)) ⊎ ((e : Error) × (p ≡ err e))
Parsed-cases (ok t) = inl (t, refl)
Parsed-cases (err e) = inr (e, refl)

-- The rule for `handle`.
pub handle_cases {ℓ} :
    (P : Server × List Outgoing → Type ℓ) (s : Server) (b : List ℕ) (addr : UdpAddr) (now : Time)
    → ((ban : BanEntry) → get s.bans addr.ip ≡ some ban → P (refuse s addr ban now))
    → (get s.bans addr.ip ≡ none → P (s, []))
    → ((t : ℕ) → get s.bans addr.ip ≡ none → parse_header b ≡ ok t → P (dispatch s b addr now t))
    → P (handle s b addr now)
handle_cases P s b addr now on_banned on_rejected on_accepted =
    elim (Option-cases (get s.bans addr.ip)) [
      | inr (ban, e) ↦ rw (handle_banned s b addr now ban e) (on_banned ban e)
      | inl e ↦ elim (Parsed-cases (parse_header b)) [
        | inl (t, p) ↦ rw (handle_accepted s b addr now t e p) (on_accepted t e p)
        | inr (x, p) ↦ rw (handle_rejected s b addr now x e p) (on_rejected e)
      ]
    ]

-- A refusal notes the time at most.
pub refuse_frame :
    (s : Server) (addr : UdpAddr) (ban : BanEntry) (now : Time)
    → ((refuse s addr ban now).0.clients ≡ s.clients)
      × ((refuse s addr ban now).0.next_id ≡ s.next_id)
      × ((refuse s addr ban now).0.bans ≡ s.bans)
      × ((refuse s addr ban now).0.recently_kicked ≡ s.recently_kicked)
unfolding refuse
refuse_frame s addr ban now = ground arith

-- What the invariant speaks of.
pub Inv-frame : (s t : Server) → t.clients ≡ s.clients → t.next_id ≡ s.next_id → Inv s → Keeps s t
Inv-frame s t ec en v = record {
  inv = record { sessions = rw (ec, en) v.sessions; positive = rw en v.positive };
  ids = omega arith;
}

-- While an id is left, a datagram of any bytes from any address keeps the session table well
-- formed, and one id at most is given out.
pub handle-Keeps :
    (s : Server) (b : List ℕ) (addr : UdpAddr) (now : Time)
    → HasIds s
    → Inv s
    → Keeps s (handle s b addr now).0
handle-Keeps s b addr now ids v =
    handle_cases (λ r. Keeps s r.0) s b addr now
      (λ ban _.
        let (ec, en, _, _) = refuse_frame s addr ban now in
        Inv-frame s (refuse s addr ban now).0 ec en v)
      (λ _. Keeps-refl s v)
      (λ t _ _.
        dispatch_cases (λ r. Keeps s r.0) s b addr now t (Keeps-refl s v)
          (λ h _ _ _. join-Keeps s addr h now ids v) (λ st _ _ _. state-Keeps s addr st now ids v)
          (λ p _ _. pong-Keeps s addr p now v) (λ ch _ _. chat-Keeps s addr ch now v)
          (λ _. bye-Keeps s addr v))

-- Sending changes the counters only.
pub send_all_frame :
    (net : Network) (s : Server) (os : List Outgoing)
    → ((send_all net s os).clients ≡ s.clients) × ((send_all net s os).next_id ≡ s.next_id)
unfolding send_all
send_all_frame net s [] = (refl, refl)
send_all_frame net s (o ∷ os) =
    ground (arith, send_all_frame net (send net s o) os, Option-cases (net o))
