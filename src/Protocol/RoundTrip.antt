-- ===== src/Protocol/RoundTrip.antt =====
-- Each decoder of internal/protocol/protocol.go on what the encoder of its message wrote.
pub mod Snapshot
use rbr_mp_server.Common.{
  ℕ, ◌≡◌, refl, sym, ap, ◌∙◌, List, [], ◌∷◌, ◌++◌, Option, none, some, arith, length, append_assoc,
}
use rbr_mp_server.Protocol.Types.{
  Error, Hello, Welcome, State, Chat, Kick, IsU32, IsWelcome, IsState, name_len, chat_text_len,
  kick_reason_len,
}
use rbr_mp_server.Protocol.Types
use rbr_mp_server.Protocol.Writer.{u16, u32, le16, le32, header}
use rbr_mp_server.Protocol.Reader.{M}
use rbr_mp_server.Protocol.Encode.{
  encode_hello, encode_welcome, encode_state, encode_chat, encode_ping, encode_pong, encode_kick,
}
use rbr_mp_server.Protocol.Decode.{
  run, start, decode_hello, decode_welcome, decode_state, decode_chat, decode_ping, decode_pong,
  decode_kick, read_hello, read_welcome, read_state, read_chat, read_ping, read_pong, read_kick,
}
use rbr_mp_server.Protocol.Layout.{
  encode_hello-layout, encode_welcome-layout, encode_state-layout, encode_chat-layout,
  encode_ping-layout, encode_pong-layout, encode_kick-layout,
}
use rbr_mp_server.Protocol.Reads.{
  Reads, Reads-bind, Reads-return, Reads-u16, Reads-u32, Reads-transform, Reads-telemetry,
}
use rbr_mp_server.Protocol.FixedText.{wire_text, Reads-name, Reads-chat_text, Reads-kick_reason}

-- A decoder that reads `xs` returns its value from any datagram that has `xs` behind the header.
pub run-Reads :
    {A : Type 0} (m : M A) (t : ℕ) {xs : List ℕ} {v : A} (rest : List ℕ)
    → Reads m xs v
    → run m ((header [] t ++ xs) ++ rest) ≡ (v, none)
unfolding run header u16 u32 le16 le32
run-Reads m t {xs} {v} rest h =
    let (e, at) =
      h.on (start ((header [] t ++ xs) ++ rest)) rest (record { bytes = refl; clean = refl }) in
    λ i. (e i, at.clean i)

-- A Hello comes back, whatever bytes follow, with its name and car as `wire_text` cuts them.
pub decode_hello-encode_hello :
    (h : Hello) (rest : List ℕ)
    → decode_hello (encode_hello h ++ rest)
      ≡ (record { name = wire_text name_len h.name; car = wire_text name_len h.car }, none)
unfolding decode_hello read_hello
decode_hello-encode_hello h rest = rw (encode_hello-layout h) (
    run-Reads _ _ rest
      (Reads-bind _ _ (Reads-name h.name) (Reads-bind _ _ (Reads-name h.car) (Reads-return _))))

-- A Welcome whose numbers fit their Go types comes back unchanged, whatever bytes follow.
pub decode_welcome-encode_welcome :
    (v : Welcome) (rest : List ℕ)
    → IsWelcome v
    → decode_welcome (encode_welcome v ++ rest) ≡ (v, none)
unfolding decode_welcome read_welcome
decode_welcome-encode_welcome v rest h = rw (encode_welcome-layout v) (
    run-Reads _ _ rest (
      Reads-bind _ _ (Reads-u32 v.player_id h.player_id) (
        Reads-bind _ _ (Reads-u16 v.tick_rate_hz h.tick_rate_hz) (
          Reads-bind _ _ (Reads-u16 v.echo_delay_ms h.echo_delay_ms)
            (Reads-bind _ _ (Reads-u32 v.server_time_ms h.server_time_ms) (Reads-return _))))))

-- A State whose numbers fit their Go types comes back unchanged, every float by its bit pattern,
-- whatever bytes follow.
pub decode_state-encode_state :
    (s : State) (rest : List ℕ) → IsState s → decode_state (encode_state s ++ rest) ≡ (s, none)
unfolding decode_state read_state
decode_state-encode_state s rest h = rw (encode_state-layout s) (
    run-Reads _ _ rest (
      Reads-bind _ _ (Reads-u32 s.player_id h.player_id) (
        Reads-bind _ _ (Reads-u32 s.seq h.seq) (
          Reads-bind _ _ (Reads-u32 s.client_time_ms h.client_time_ms) (
            Reads-bind _ _ (Reads-transform s.transform h.transform)
              (Reads-bind _ _ (Reads-telemetry s.telemetry h.telemetry) (Reads-return _)))))))

-- A Chat with a 32-bit player id comes back, whatever bytes follow, with its name and text as
-- `wire_text` cuts them.
pub decode_chat-encode_chat :
    (c : Chat) (rest : List ℕ)
    → IsU32 c.player_id
    → decode_chat (encode_chat c ++ rest)
      ≡ (record c { name = wire_text name_len c.name; text = wire_text chat_text_len c.text }, none)
unfolding decode_chat read_chat
decode_chat-encode_chat c rest h = rw (encode_chat-layout c) (
    run-Reads _ _ rest (
      Reads-bind _ _ (Reads-u32 c.player_id h) (
        Reads-bind _ _ (Reads-name c.name)
          (Reads-bind _ _ (Reads-chat_text c.text) (Reads-return _)))))

-- The 32-bit token of a Ping comes back verbatim.
pub decode_ping-encode_ping :
    (p : Types.Ping) (rest : List ℕ)
    → IsU32 p.token
    → decode_ping (encode_ping p ++ rest) ≡ (p, none)
unfolding decode_ping read_ping
decode_ping-encode_ping p rest h =
    rw (encode_ping-layout p)
      (run-Reads _ _ rest (Reads-bind _ _ (Reads-u32 p.token h) (Reads-return _)))

-- The 32-bit token of a Pong comes back verbatim, whatever bytes follow.
pub decode_pong-encode_pong :
    (p : Types.Pong) (rest : List ℕ)
    → IsU32 p.token
    → decode_pong (encode_pong p ++ rest) ≡ (p, none)
unfolding decode_pong read_pong
decode_pong-encode_pong p rest h =
    rw (encode_pong-layout p)
      (run-Reads _ _ rest (Reads-bind _ _ (Reads-u32 p.token h) (Reads-return _)))

-- A Kick comes back, whatever bytes follow, with its reason as `wire_text` cuts it.
pub decode_kick-encode_kick :
    (k : Kick) (rest : List ℕ)
    → decode_kick (encode_kick k ++ rest)
      ≡ (record { reason = wire_text kick_reason_len k.reason }, none)
unfolding decode_kick read_kick
decode_kick-encode_kick k rest =
    rw (encode_kick-layout k)
      (run-Reads _ _ rest (Reads-bind _ _ (Reads-kick_reason k.reason) (Reads-return _)))

-- The other messages come back as well, whatever bytes follow, if their numbers fit their Go types:
-- a Hello, a Chat and a Kick with their texts as `wire_text` cuts them, a Welcome, a Ping, a Pong and a
-- State unchanged, with every float by its bit pattern.
pub decode-encode :
    (h : Hello) (c : Chat) (k : Kick) (w : Welcome) (q : Types.Ping) (p : Types.Pong) (s : State)
    (rest : List ℕ)
    → IsU32 c.player_id
    → IsWelcome w
    → IsU32 q.token
    → IsU32 p.token
    → IsState s
    → (decode_hello (encode_hello h ++ rest)
        ≡ (record { name = wire_text name_len h.name; car = wire_text name_len h.car }, none))
      × (decode_chat (encode_chat c ++ rest) ≡ (
        record c { name = wire_text name_len c.name; text = wire_text chat_text_len c.text },
        none,
      ))
      × (decode_kick (encode_kick k ++ rest)
          ≡ (record { reason = wire_text kick_reason_len k.reason }, none))
      × (decode_welcome (encode_welcome w ++ rest) ≡ (w, none))
      × (decode_ping (encode_ping q ++ rest) ≡ (q, none))
      × (decode_pong (encode_pong p ++ rest) ≡ (p, none))
      × (decode_state (encode_state s ++ rest) ≡ (s, none))
decode-encode h c k w q p s rest hc hw hq hp hs = (
  decode_hello-encode_hello h rest,
  decode_chat-encode_chat c rest hc,
  decode_kick-encode_kick k rest,
  decode_welcome-encode_welcome w rest hw,
  decode_ping-encode_ping q rest hq,
  decode_pong-encode_pong p rest hp,
  decode_state-encode_state s rest hs,
)
