-- ===== src/Server/Invariant/ChatLine.antt =====
-- chat of internal/server/server.go keeps the invariant.
use rbr_mp_server.Common.{
  ◌≡◌, refl, inl, inr, none, some, List, [], ◌∷◌, arith, if◌then◌else◌, Option-cases, Bool-cases,
}
use rbr_mp_server.Common.Text.{Text}
use rbr_mp_server.Common.GoMap.{lookup}
use rbr_mp_server.Clock.{Time, within}
use rbr_mp_server.Protocol.Types.{Chat}
use rbr_mp_server.Server.Types.{UdpAddr, Client, Server, Outgoing, chat_every}
use rbr_mp_server.Server.Chat.{relay, chat_text, chat}
use rbr_mp_server.Server.Invariant.{Inv, Keeps}
use rbr_mp_server.Server.Invariant.Handlers.{Keeps-refl, store-Keeps}

pub chat_text_known :
    (s : Server) (addr : UdpAddr) (text : Text) (now : Time) (c : Client)
    → lookup addr.text s.clients ≡ some c
    → chat_text s addr text now
      ≡ (if within now c.last_chat chat_every then (s, []) else relay s addr c text now)
unfolding chat_text
chat_text_known s addr text now c e = ground arith

pub chat_text_unknown :
    (s : Server) (addr : UdpAddr) (text : Text) (now : Time)
    → lookup addr.text s.clients ≡ none
    → chat_text s addr text now ≡ (s, [])
unfolding chat_text
chat_text_unknown s addr text now e = ground arith

chat_text-Keeps :
    (s : Server) (addr : UdpAddr) (text : Text) (now : Time)
    → Inv s
    → Keeps s (chat_text s addr text now).0
chat_text-Keeps s addr text now v = elim (Option-cases (lookup addr.text s.clients)) [
  | inl e ↦ rw (chat_text_unknown s addr text now e) (Keeps-refl s v)
  | inr (c, e) ↦
      rw (chat_text_known s addr text now c e)
        (elim (Bool-cases (within now c.last_chat chat_every)) [
          | inl t ↦ rw t (Keeps-refl s v)
          | inr f ↦ rw f (unfold relay in store-Keeps s addr c _ v e refl refl refl refl)
        ])
]

-- The dispatch of an empty text.
pub chat_cases {ℓ} :
    (P : Server × List Outgoing → Type ℓ) (s : Server) (addr : UdpAddr) (ch : Chat) (now : Time)
    → P (s, [])
    → P (chat_text s addr ch.text now)
    → P (chat s addr ch now)
unfolding chat
chat_cases P s addr ch now dropped sent = go ch.text refl
  where
    go : (t : Text) → ch.text ≡ t → P (chat s addr ch now)
    go [] e = rw (e, chat) dropped
    go (x ∷ xs) e = rw (e, chat) sent

pub chat-Keeps :
    (s : Server) (addr : UdpAddr) (ch : Chat) (now : Time) → Inv s → Keeps s (chat s addr ch now).0
chat-Keeps s addr ch now v =
    chat_cases (λ r. Keeps s r.0) s addr ch now (Keeps-refl s v)
      (chat_text-Keeps s addr ch.text now v)
