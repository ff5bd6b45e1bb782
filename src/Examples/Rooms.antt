-- ===== src/Examples/Rooms.antt =====
-- internal/server/server.go with two players: sessions, chat, snapshots and pings.
use rbr_mp_server.Common.{
  ◌+◌, ◌*◌, ◌-◌, ◌/◌, ◌^◌, ◌≡◌, refl, ◌≢◌, ◌↔◌, [], ◌∷◌, none, some, true, false, if◌then◌else◌,
  ◌∙◌, ltb, leb, ◌==◌, All, arith,
}
use rbr_mp_server.Common.Text.{Text, text_eq, text_eq_iff}
use rbr_mp_server.Common.GoMap.{lookup, values}
use rbr_mp_server.Common.Int.{to_u32}
use rbr_mp_server.Protocol.Reader.{until_nul}
use rbr_mp_server.Server.Bans.{get}
use rbr_mp_server.Common.Sort.{In, Rises}
use rbr_mp_server.Clock.{
  Time, second, millisecond, zero_time, longer, within, sub_time, milliseconds,
}
use rbr_mp_server.Protocol.Types.{Chat, Entity, name_len, chat_text_len}
use rbr_mp_server.Protocol.Encode.{encode_chat}
use rbr_mp_server.Protocol.Decode.{decode_chat}
use rbr_mp_server.Protocol.FixedText.{wire_text}
use rbr_mp_server.Server.Types.{Client, Server, chat_every}
use rbr_mp_server.Server.Invariant.{Inv}
use rbr_mp_server.Server.Session.{newer, restarted, reordered, uptime_ms, compare_seq, pong}
use rbr_mp_server.Server.Handle.{handle}
use rbr_mp_server.Server.Tick.{tick, ping_due, pinged, snapshot, live_clients}
use rbr_mp_server.Server.Invariant.Timers.{after_ping, tick-lookup}
use rbr_mp_server.Server.Relay.EntityList.{Shows}
use rbr_mp_server.Server.Relay.Snapshots.{snapshot_entities, live_clients_unordered}
use rbr_mp_server.Server.Relay.ChatLines.{receivers, addresses, chat_relayed, chat_flood}
use rbr_mp_server.Server.Sequence.{ahead, compare_seq_circle}
use rbr_mp_server.Server.PingPong.{round_trip_measured}
use rbr_mp_server.Examples.Data.{ann, ann_addr, bob, bob_addr, config, room, room-Inv, late}

abbrev said : Chat
said = record { player_id = 99; name = b'B' ∷ []; text = b'h' ∷ b'i' ∷ [] }

abbrev now : Time
now = late + 2 * second

snapshot_entities_example :
    let es = (snapshot room now (live_clients room) ann).entities in
    Rises (λ (e : Entity). e.id) es
    × All (λ e. e.id ≢ ann.id) es
    × ((e : Entity)
        → In e es
          ↔ (k : Text) × (other : Client) × (lookup k room.clients ≡ some other)
            × Shows room now ann other e)
snapshot_entities_example = snapshot_entities room now ann room-Inv

-- The same sessions, as another iteration over the map finds them.
abbrev other_way : Server
other_way = record room { clients = (bob_addr.text, bob) ∷ (ann_addr.text, ann) ∷ [] }

same_sessions : (k : Text) → lookup k room.clients ≡ lookup k other_way.clients
unfolding lookup
same_sessions k =
    ground (arith, text_eq_iff ann_addr.text k, text_eq_iff bob_addr.text k, other_addr)
  where
    other_addr : ann_addr.text ≢ bob_addr.text
    other_addr e = absurd (ground arith)

other_way-Inv : Inv other_way
other_way-Inv = record {
  sessions = record {
    map = (unfold lookup text_eq in refl, (unfold lookup in refl, tt));
    each = λ k c e. room-Inv.sessions.each k c (same_sessions k ∙ e);
    ids = λ k i c d e f. room-Inv.sessions.ids k i c d (same_sessions k ∙ e) (same_sessions i ∙ f);
  };
  positive = omega arith;
}

live_clients_unordered_example : live_clients room ≡ live_clients other_way
live_clients_unordered_example =
    live_clients_unordered room other_way room-Inv other_way-Inv same_sessions

tick-lookup_example :
    lookup bob_addr.text (tick room now).0.clients ≡ elim (lookup bob_addr.text room.clients) [
      | none ↦ none
      | some c ↦
          if longer now c.last_seen config.timeout
          then none
          else some (after_ping (uptime_ms room now) now c)
    ]
tick-lookup_example = tick-lookup room now bob_addr.text room-Inv

compare_seq_circle_example : compare_seq 3 (2 ^ 32 - 2) ≡ (
    if ahead 3 (2 ^ 32 - 2) == 0
    then reordered
    else if ltb (ahead 3 (2 ^ 32 - 2)) (2 ^ 31)
    then newer
    else if leb (2 ^ 32 - 1000) (ahead 3 (2 ^ 32 - 2))
    then reordered
    else restarted)
compare_seq_circle_example = compare_seq_circle 3 (2 ^ 32 - 2)

ann_free : get room.bans ann_addr.ip ≡ none
unfolding get lookup
ann_free = refl

said_text : wire_text chat_text_len said.text ≢ []
said_text = unfold until_nul in cc

quiet : within now ann.last_chat chat_every ≡ false
quiet = unfold sub_time in refl

awake : longer now ann.last_seen room.cfg.timeout ≡ false
awake = unfold sub_time in refl

due : ping_due ann now ≡ true
due = unfold ping_due sub_time in refl

other_token : 5 ≢ uptime_ms room now
other_token = unfold uptime_ms sub_time milliseconds to_u32 in omega arith

ann_session : lookup ann_addr.text room.clients ≡ some ann
unfolding lookup text_eq
ann_session = refl

chat_relayed_example :
    let r = handle room (encode_chat said) ann_addr now in
    let line : Chat = record {
      player_id = 1;
      name = wire_text name_len ann.name;
      text = wire_text chat_text_len said.text;
    } in
    (receivers r.1 ≡ addresses (values r.0.clients))
    × All (λ o. decode_chat o.bytes ≡ (line, none)) r.1
    × (lookup ann_addr.text r.0.clients ≡ some (record ann { last_chat = now; last_seen = now }))
chat_relayed_example =
    chat_relayed room ann_addr said now ann ann_free (omega arith) ann_session said_text
      (omega arith) quiet

chat_flood_example :
    let r = handle room (encode_chat said) ann_addr now in
    handle r.0 (encode_chat said) ann_addr (now + 5) ≡ (r.0, [])
chat_flood_example =
    chat_flood room ann_addr said now ann ann_free (omega arith) ann_session said_text said
      (now + 5) quiet (omega arith) (omega arith)

round_trip_measured_example :
    let t = (tick room now).0 in
    let u = pong t ann_addr (record { token = uptime_ms room now }) (now + 40 * millisecond) in
    (lookup ann_addr.text u.clients
      ≡ some (record (pinged ann (uptime_ms room now) now) {
        rtt_ms = (now + 40 * millisecond - now) / millisecond;
        ping_sent_at = zero_time;
      }))
    × (pong t ann_addr (record { token = 5 }) (now + 40 * millisecond) ≡ t)
    × (pong u ann_addr (record { token = 6 }) (now + 9) ≡ u)
round_trip_measured_example =
    round_trip_measured room ann_addr ann now room-Inv ann_session awake due (omega arith)
      (now + 40 * millisecond) (now + 9) (record { token = 5 }) (record { token = 6 }) (omega arith)
      (omega arith) other_token
