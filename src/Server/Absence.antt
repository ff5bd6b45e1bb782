-- ===== src/Server/Absence.antt =====
-- How a session can come into being in internal/server/server.go: only by a Hello or a State from its
-- address that is neither banned nor recently kicked. No other handler brings a session back.
use rbr_mp_server.Common.{
  ◌≡◌, ap, ◌∙◌, ◌≢◌, inl, inr, none, some, List, [], arith, not, ◌||◌, ◌==◌, Option-cases,
  Bool-cases,
}
use rbr_mp_server.Common.Text.{Text}
use rbr_mp_server.Common.GoMap.{lookup, delete, lookup-delete}
use rbr_mp_server.Common.GoMap.Cases.{lookup-insert_ne}
use rbr_mp_server.Clock.{Time, within, is_zero}
use rbr_mp_server.Protocol.Types.{Hello, State, Chat}
use rbr_mp_server.Protocol.Types
use rbr_mp_server.Server.Types.{UdpAddr, Client, Server, chat_every}
use rbr_mp_server.Server.Session.{client_locked, store, join, state, pong, bye}
use rbr_mp_server.Server.Chat.{relay, chat}
use rbr_mp_server.Server.Tick.{tick}
use rbr_mp_server.Server.Invariant.{Inv}
use rbr_mp_server.Server.Invariant.Handlers.{pong_unknown, pong_known, bye_unknown, bye_known}
use rbr_mp_server.Server.Invariant.ChatLine.{chat_text_unknown, chat_text_known, chat_cases}
use rbr_mp_server.Server.Invariant.Timers.{tick-lookup}

-- No session stands under the key.
abbrev pub Absent : Text → Server → Type 0
Absent k s = lookup k s.clients ≡ none

pub delete-Absent :
    {V : Type 0} (k j : Text) (m : List (Text × V))
    → lookup k m ≡ none
    → lookup k (delete j m) ≡ none
delete-Absent k j m e = ground (arith, lookup-delete j k m)

store-Absent :
    (k : Text) (s : Server) (addr : UdpAddr) (c : Client)
    → addr.text ≢ k
    → Absent k s
    → Absent k (store s addr c)
unfolding store
store-Absent k s addr c ne e = lookup-insert_ne s.clients addr.text k c ne ∙ e

client_locked-Absent :
    (k : Text) (s : Server) (addr : UdpAddr) (name : Text) (now : Time)
    → addr.text ≢ k
    → Absent k s
    → Absent k (client_locked s addr name now).0
unfolding client_locked
client_locked-Absent k s addr name now ne e = elim (Option-cases (lookup addr.text s.clients)) [
  | inl l ↦ rw (l, client_locked) (lookup-insert_ne s.clients addr.text k _ ne ∙ e)
  | inr (c, l) ↦ rw (l, client_locked) e
]

-- A Hello or a State makes a session for its own address only.
pub join-Absent :
    (k : Text) (s : Server) (addr : UdpAddr) (h : Hello) (now : Time)
    → addr.text ≢ k
    → Absent k s
    → Absent k (join s addr h now).0
join-Absent k s addr h now ne e =
    unfold join in
    store-Absent k (client_locked s addr h.name now).0 addr _ ne
      (client_locked-Absent k s addr h.name now ne e)

pub state-Absent :
    (k : Text) (s : Server) (addr : UdpAddr) (st : State) (now : Time)
    → addr.text ≢ k
    → Absent k s
    → Absent k (state s addr st now).0
state-Absent k s addr st now ne e =
    unfold state in
    store-Absent k (client_locked s addr [] now).0 addr _ ne
      (client_locked-Absent k s addr [] now ne e)

-- The others make none at all.
apart :
    (k : Text) (s : Server) (addr : UdpAddr) (c : Client)
    → Absent k s
    → lookup addr.text s.clients ≡ some c
    → addr.text ≢ k
apart k s addr c e l p = cc (e, l, ap (λ (x : Text). lookup x s.clients) p)

pub pong-Absent :
    (k : Text) (s : Server) (addr : UdpAddr) (p : Types.Pong) (now : Time)
    → Absent k s
    → Absent k (pong s addr p now)
pong-Absent k s addr p now e = elim (Option-cases (lookup addr.text s.clients)) [
  | inl l ↦ rw (pong_unknown s addr p now l) e
  | inr (c, l) ↦
      rw (pong_known s addr p now c l)
        (elim (Bool-cases (is_zero c.ping_sent_at || not (p.token == c.ping_token))) [
          | inl t ↦ rw t e
          | inr f ↦ rw f (store-Absent k s addr _ (apart k s addr c e l) e)
        ])
]

pub bye-Absent : (k : Text) (s : Server) (addr : UdpAddr) → Absent k s → Absent k (bye s addr)
bye-Absent k s addr e = elim (Option-cases (lookup addr.text s.clients)) [
  | inl l ↦ rw (bye_unknown s addr l) e
  | inr (c, l) ↦ rw (bye_known s addr c l) (delete-Absent k c.addr_key s.clients e)
]

pub chat-Absent :
    (k : Text) (s : Server) (addr : UdpAddr) (ch : Chat) (now : Time)
    → Absent k s
    → Absent k (chat s addr ch now).0
chat-Absent k s addr ch now e =
    chat_cases (λ r. Absent k r.0) s addr ch now e
      (elim (Option-cases (lookup addr.text s.clients)) [
        | inl l ↦ rw (chat_text_unknown s addr ch.text now l) e
        | inr (c, l) ↦
            rw (chat_text_known s addr ch.text now c l)
              (elim (Bool-cases (within now c.last_chat chat_every)) [
                | inl t ↦ rw t e
                | inr f ↦ rw f (unfold relay in store-Absent k s addr _ (apart k s addr c e l) e)
              ])
      ])

pub tick-Absent :
    (k : Text) (s : Server) (now : Time) → Inv s → Absent k s → Absent k (tick s now).0
tick-Absent k s now v e = tick-lookup s now k v ∙ rw e
