-- ===== src/Server/Relay/ChatLines.antt =====
-- chat of internal/server/server.go, from the datagram that comes in to those that go out.
use mathlib.Core.List.{append-nil}
use rbr_mp_server.Common.{
  ℕ, ◌+◌, ◌*◌, ◌<◌, ◌≡◌, refl, sym, ap, subst, ◌∙◌, ◌≢◌, true, false, none, some, List, [], ◌∷◌,
  map, arith, All,
}
use rbr_mp_server.Common.Text.{Text}
use rbr_mp_server.Common.GoMap.{lookup, values}
use rbr_mp_server.Common.GoMap.Cases.{lookup-insert_self}
use rbr_mp_server.Clock.{Time, millisecond, within, within-lt}
use rbr_mp_server.Protocol.Types.{Chat, IsU32, type_chat, name_len, chat_text_len}
use rbr_mp_server.Protocol.Encode.{encode_chat}
use rbr_mp_server.Protocol.Decode.{ok, parse_header, decode_chat}
use rbr_mp_server.Protocol.Layout.{chat_layout, encode_chat-layout}
use rbr_mp_server.Protocol.Header.{parse_header-header}
use rbr_mp_server.Protocol.FixedText.{wire_text, wire_text-wire_text}
use rbr_mp_server.Protocol.RoundTrip.{decode_chat-encode_chat}
use rbr_mp_server.Server.Types.{UdpAddr, Client, Server, Outgoing, chat_every}
use rbr_mp_server.Server.Bans.{get}
use rbr_mp_server.Server.Session.{store}
use rbr_mp_server.Server.Chat.{to_all, relay, chat_text, chat}
use rbr_mp_server.Server.Handle.{dispatch, handle}
use rbr_mp_server.Server.Invariant.ChatLine.{chat_text_known, chat_cases}
use rbr_mp_server.Server.Invariant.Datagram.{handle_accepted}

abbrev pub receivers : List Outgoing → List UdpAddr
receivers = map λ o. o.addr

abbrev pub addresses : List Client → List UdpAddr
addresses = map λ c. c.addr

to_all-receivers : (cs : List Client) (b : List ℕ) → receivers (to_all cs b) ≡ addresses cs
unfolding to_all
to_all-receivers [] b = refl
to_all-receivers (c ∷ cs) b = ap (◌∷◌ c.addr) (to_all-receivers cs b)

to_all-bytes :
    (P : List ℕ → Type 0) (cs : List Client) (b : List ℕ) → P b → All (λ o. P o.bytes) (to_all cs b)
unfolding to_all
to_all-bytes P [] b p = tt
to_all-bytes P (c ∷ cs) b p = (p, to_all-bytes P cs b p)

parse-encode_chat : (ch : Chat) → parse_header (encode_chat ch) ≡ ok type_chat
parse-encode_chat ch =
    rw (encode_chat-layout ch) (parse_header-header type_chat (chat_layout ch) (omega arith))

decode-encode_chat :
    (c : Chat)
    → IsU32 c.player_id
    → decode_chat (encode_chat c)
      ≡ (record c { name = wire_text name_len c.name; text = wire_text chat_text_len c.text }, none)
decode-encode_chat c h =
    ap decode_chat (sym (append-nil (encode_chat c))) ∙ decode_chat-encode_chat c [] h

-- A chat line that arrives is handed to `chat` with its texts as the wire carries them.
handle-encode_chat :
    (s : Server) (ch : Chat) (addr : UdpAddr) (now : Time)
    → get s.bans addr.ip ≡ none
    → IsU32 ch.player_id
    → handle s (encode_chat ch) addr now
      ≡ chat s addr
          (record ch { name = wire_text name_len ch.name; text = wire_text chat_text_len ch.text })
          now
handle-encode_chat s ch addr now free h =
    handle_accepted s (encode_chat ch) addr now type_chat free (parse-encode_chat ch) ∙ dispatched
  where
    dispatched :
        dispatch s (encode_chat ch) addr now type_chat
        ≡ chat s addr
            (record ch {
              name = wire_text name_len ch.name;
              text = wire_text chat_text_len ch.text;
            })
            now
    dispatched = unfold dispatch in rw (decode-encode_chat ch h)

chat_nonempty :
    (s : Server) (addr : UdpAddr) (ch : Chat) (now : Time)
    → ch.text ≢ []
    → chat s addr ch now ≡ chat_text s addr ch.text now
unfolding chat
chat_nonempty s addr ch now ne = ground arith

relay_bans :
    (s : Server) (addr : UdpAddr) (c : Client) (text : Text) (now : Time)
    → (relay s addr c text now).0.bans ≡ s.bans
unfolding relay store
relay_bans s addr c text now = refl

relay_stored :
    (s : Server) (addr : UdpAddr) (c : Client) (text : Text) (now : Time)
    → lookup addr.text (relay s addr c text now).0.clients
      ≡ some (record c { last_chat = now; last_seen = now })
unfolding relay store
relay_stored s addr c text now = lookup-insert_self s.clients addr.text _

module _ (s : Server) (addr : UdpAddr) (ch : Chat) (now : Time) (c : Client)
    (free : get s.bans addr.ip ≡ none) (word : IsU32 ch.player_id)
    (session : lookup addr.text s.clients ≡ some c)
    (nonempty : wire_text chat_text_len ch.text ≢ []) where
  handle-relay :
      within now c.last_chat chat_every ≡ false
      → handle s (encode_chat ch) addr now ≡ relay s addr c (wire_text chat_text_len ch.text) now
  handle-relay slow =
      handle-encode_chat s ch addr now free word
      ∙ chat_nonempty s addr _ now nonempty
      ∙ chat_text_known s addr (wire_text chat_text_len ch.text) now c session
      ∙ rw slow

  -- A chat line with a text, from an address that is not banned and whose session has been quiet
  -- for 300 ms, goes out once to every session, the sender's included, under the sender's own id
  -- and name, whatever id and name the datagram claims. The sender counts as seen.
  pub chat_relayed :
      IsU32 c.id
      → within now c.last_chat chat_every ≡ false
      → let r = handle s (encode_chat ch) addr now in
        let line : Chat = record {
          player_id = c.id;
          name = wire_text name_len c.name;
          text = wire_text chat_text_len ch.text;
        } in
        (receivers r.1 ≡ addresses (values r.0.clients))
        × All (λ o. decode_chat o.bytes ≡ (line, none)) r.1
        × (lookup addr.text r.0.clients ≡ some (record c { last_chat = now; last_seen = now }))
  chat_relayed id slow = rw (handle-relay slow) (
    unfold relay in to_all-receivers _ _,
    unfold relay in
        to_all-bytes (λ b. decode_chat b ≡ (line, none)) _ _
          (subst
            (λ t.
              decode_chat (
                encode_chat (record {
                  player_id = c.id;
                  name = c.name;
                  text = wire_text chat_text_len ch.text;
                }))
              ≡ (record { player_id = c.id; name = wire_text name_len c.name; text = t }, none))
            (wire_text-wire_text chat_text_len ch.text)
            (decode-encode_chat
              (record { player_id = c.id; name = c.name; text = wire_text chat_text_len ch.text })
              id)),
    relay_stored s addr c (wire_text chat_text_len ch.text) now,
  )
    where
      line : Chat
      line = record {
        player_id = c.id;
        name = wire_text name_len c.name;
        text = wire_text chat_text_len ch.text;
      }

  -- After such a line has been relayed, another one from the same address within 300 ms changes
  -- nothing and is sent to nobody.
  pub chat_flood :
      (again : Chat) (later : Time)
      → within now c.last_chat chat_every ≡ false
      → IsU32 again.player_id
      → later < now + 300 * millisecond
      → let r = handle s (encode_chat ch) addr now in
        handle r.0 (encode_chat again) addr later ≡ (r.0, [])
  chat_flood again later slow word' soon =
      rw (handle-relay slow) (handle-encode_chat t again addr later free' word' ∙ dropped again')
    where
      t : Server
      t = (relay s addr c (wire_text chat_text_len ch.text) now).0

      free' : get t.bans addr.ip ≡ none
      free' = rw (relay_bans s addr c (wire_text chat_text_len ch.text) now) free

      again' : Chat
      again' = record again {
        name = wire_text name_len again.name;
        text = wire_text chat_text_len again.text;
      }

      quick : within later now chat_every ≡ true
      quick = within-lt later now (300 * millisecond) (omega arith) (omega arith) ∙ ground arith

      dropped : (x : Chat) → chat t addr x later ≡ (t, [])
      dropped x =
          chat_cases (λ r. r ≡ (t, [])) t addr x later refl
            (chat_text_known t addr x.text later _
                (relay_stored s addr c (wire_text chat_text_len ch.text) now)
              ∙ rw quick)
