-- ===== src/Server/Chat.antt =====
-- chat and Say of internal/server/server.go.
use rbr_mp_server.Common.{ℕ, List, [], ◌∷◌, none, some, if◌then◌else◌}
use rbr_mp_server.Common.Text.{Text}
use rbr_mp_server.Common.GoMap.{lookup, values}
use rbr_mp_server.Clock.{Time, within}
use rbr_mp_server.Protocol.Types.{Chat}
use rbr_mp_server.Protocol.Encode.{encode_chat}
use rbr_mp_server.Server.Types.{UdpAddr, Client, Server, Outgoing, chat_every}
use rbr_mp_server.Server.Session.{store}

-- `for _, other := range s.clients { out = append(out, outgoing{addr: other.addr, data: data}) }`
unfoldable pub to_all : List Client → List ℕ → List Outgoing
to_all [] bytes = []
to_all (c ∷ cs) bytes = record { addr = c.addr; bytes = bytes } ∷ to_all cs bytes

unfoldable pub relay : Server → UdpAddr → Client → Text → Time → Server × List Outgoing
unfolding store to_all
relay s addr c text now =
    let s1 = store s addr (record c { last_chat = now; last_seen = now }) in
    (
      s1,
      to_all (values s1.clients)
          (encode_chat (record { player_id = c.id; name = c.name; text = text })),
    )

unfoldable pub chat_text : Server → UdpAddr → Text → Time → Server × List Outgoing
unfolding relay
chat_text s addr text now = elim (lookup addr.text s.clients) [
  | none ↦ (s, [])
  | some c ↦ if within now c.last_chat chat_every then (s, []) else relay s addr c text now
]

-- An empty text is dropped before anything else.
unfoldable pub chat : Server → UdpAddr → Chat → Time → Server × List Outgoing
unfolding chat_text
chat s addr ch now = elim ch.text [ [] ↦ (s, []) | t ∷ ts ↦ chat_text s addr ch.text now ]

-- "SERVER"
abbrev pub server_name : Text
server_name = b'S' ∷ b'E' ∷ b'R' ∷ b'V' ∷ b'E' ∷ b'R' ∷ []

unfoldable pub say : Server → Text → List Outgoing
unfolding to_all
say s [] = []
say s (t ∷ ts) =
    to_all (values s.clients)
      (encode_chat (record { player_id = 0; name = server_name; text = t ∷ ts }))
