-- ===== src/Server/Handle.antt =====
-- handle and kickedRecently of internal/server/server.go, the receive loop of Run and send.
use rbr_mp_server.Common.{
  ℕ, ◌+◌, ◌%◌, ◌^◌, List, [], ◌∷◌, ◌++◌, Option, none, some, Bool, false, if◌then◌else◌, ◌==◌,
  length,
}
use rbr_mp_server.Common.Text.{Text}
use rbr_mp_server.Common.GoMap.{lookup, insert}
use rbr_mp_server.Clock.{Time, zero_time, at_least, within}
use rbr_mp_server.Protocol.Types.{Error, type_hello, type_state, type_pong, type_chat, type_bye}
use rbr_mp_server.Protocol.Encode.{encode_kick}
use rbr_mp_server.Protocol.Decode.{
  ok, err, parse_header, decode_hello, decode_state, decode_pong, decode_chat,
}
use rbr_mp_server.Server.Types.{UdpAddr, BanEntry, Server, Outgoing, kick_window, ban_notice_every}
use rbr_mp_server.Server.Bans.{get}
use rbr_mp_server.Server.Session.{join, state, pong, bye}
use rbr_mp_server.Server.Chat.{chat}

-- `m[k]` without its `ok`: a missing key reads as the zero time.
unfoldable pub time_of : Text → List (Text × Time) → Time
time_of k m = elim (lookup k m) [ none ↦ zero_time | some t ↦ t ]

unfoldable pub kicked_recently : Server → UdpAddr → Time → Bool
kicked_recently s addr now = elim (lookup addr.text s.recently_kicked) [
  | none ↦ false
  | some at ↦ within now at kick_window
]

-- "banned: "
abbrev pub banned_prefix : Text
banned_prefix = b'b' ∷ b'a' ∷ b'n' ∷ b'n' ∷ b'e' ∷ b'd' ∷ b':' ∷ b' ' ∷ []

-- A datagram from a banned address.
unfoldable pub refuse : Server → UdpAddr → BanEntry → Time → Server × List Outgoing
unfolding time_of
refuse s addr ban now =
    if at_least now (time_of addr.text s.last_ban_notice) ban_notice_every
    then (
      record s { last_ban_notice = insert addr.text now s.last_ban_notice },
      record { addr = addr; bytes = encode_kick (record { reason = banned_prefix ++ ban.reason }) }
          ∷ [],
    )
    else (s, [])

-- `x, err := Decode(b); if err != nil { return }; s.handler(x)`
abbrev pub decoded :
    {A : Type 0} → A × Option Error → Server → (A → Server × List Outgoing) → Server × List Outgoing
decoded (a, none) s f = f a
decoded (a, some e) s f = (s, [])

-- The switch on the message type.
unfoldable pub dispatch : Server → List ℕ → UdpAddr → Time → ℕ → Server × List Outgoing
unfolding kicked_recently
dispatch s b addr now t =
    if t == type_hello
    then (if kicked_recently s addr now
        then (s, [])
        else decoded (decode_hello b) s (λ h. join s addr h now))
    else if t == type_state
    then (if kicked_recently s addr now
        then (s, [])
        else decoded (decode_state b) s (λ st. state s addr st now))
    else if t == type_pong
    then decoded (decode_pong b) s (λ p. (pong s addr p now, []))
    else if t == type_chat
    then decoded (decode_chat b) s (λ ch. chat s addr ch now)
    else if t == type_bye
    then (bye s addr, [])
    else (s, [])

unfoldable pub handle : Server → List ℕ → UdpAddr → Time → Server × List Outgoing
unfolding refuse
handle s b addr now = elim (get s.bans addr.ip) [
  | some ban ↦ refuse s addr ban now
  | none ↦ elim (parse_header b) [ err e ↦ (s, []) | ok t ↦ dispatch s b addr now t ]
]

-- What WriteToUDP answers: the bytes written, or `none` for an error.
abbrev pub Network : Type 0
Network = Outgoing → Option ℕ

unfoldable pub send : Network → Server → Outgoing → Server
send net s o = elim (net o) [
  | none ↦ s
  | some n ↦ record s { tx_count = (s.tx_count + 1) % 2 ^ 64; tx_bytes = (s.tx_bytes + n) % 2 ^ 64 }
]

unfoldable pub send_all : Network → Server → List Outgoing → Server
unfolding send
send_all net s [] = s
send_all net s (o ∷ os) = send_all net (send net s o) os

-- One round of the loop of Run.
unfoldable pub receive : Network → Server → List ℕ → UdpAddr → Time → Server
unfolding send_all
receive net s b addr now =
    let s1 = record s {
      rx_count = (s.rx_count + 1) % 2 ^ 64;
      rx_bytes = (s.rx_bytes + length b) % 2 ^ 64;
    } in
    let (s2, out) = handle s1 b addr now in send_all net s2 out
