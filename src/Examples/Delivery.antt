-- ===== src/Examples/Delivery.antt =====
-- internal/server/server.go with two players: a State of Ann reaches Bob.
use rbr_mp_server.Common.{
  ◌+◌, ◌*◌, ◌≡◌, ◌≢◌, refl, subst, inr, none, some, List, [], ◌∷◌, map, All, arith,
}
use rbr_mp_server.Common.Text.{text_eq}
use rbr_mp_server.Common.GoMap.{lookup, insert, keep, values}
use rbr_mp_server.Common.GoMap.Cases.{values-In}
use rbr_mp_server.Common.Int.{to_i32}
use rbr_mp_server.Common.Sort.{sort_by, insert_by, In, here, All-In}
use rbr_mp_server.Clock.{Time, millisecond, sub_time}
use rbr_mp_server.History.Sample.{Sample}
use rbr_mp_server.History.Ring.{new_history, last, latest}
use rbr_mp_server.Protocol.Header.{IsByte}
use rbr_mp_server.Protocol.Writer.{text_buf, header, u16, u32, le16, le32, name}
use rbr_mp_server.Protocol.Reader
use rbr_mp_server.Protocol.Reader.{get16, get32, read, need, advance, until_nul, ◌>>=◌, return}
use rbr_mp_server.Protocol.Decode
use rbr_mp_server.Protocol.Types.{Hello, State, IsState}
use rbr_mp_server.Protocol.Encode.{encode_state, encode_hello}
use rbr_mp_server.Protocol.Decode.{
  parse_header, read_hello, decode_hello, decode_welcome, decode_state, decode_snapshot,
}
use rbr_mp_server.Protocol.RoundTrip.Snapshot.{wire_entity}
use rbr_mp_server.Server.Types.{Client, history_age}
use rbr_mp_server.Server.Bans.{get}
use rbr_mp_server.Server.Session.{
  new_client, default_name, client_locked, store, rename, join, newer, compare_seq,
}
use rbr_mp_server.Server.Handle.{dispatch, send, send_all, receive, kicked_recently, handle}
use rbr_mp_server.Server.Tick.{reap, ping_all, ping_due, pinged, snapshot, live_clients, tick}
use rbr_mp_server.Server.Start.{fresh_server}
use rbr_mp_server.Server.Run.{Event, datagram, step, run}
use rbr_mp_server.Server.Values.{IsSample, IsRanged}
use rbr_mp_server.Server.Values.Run.{Good}
use rbr_mp_server.Server.Relay.Accepted.{Accepts}
use rbr_mp_server.Server.Relay.Sending.{snapshot_datagram}
use rbr_mp_server.Server.Relay.Delivery.{Delivered, relay_delivers, run_snapshots_decode}
use rbr_mp_server.Examples.Data.{
  ann, ann_addr, bob, bob_addr, config, no_bans, room, room-Inv, moving, pose-IsTransform,
  dials-IsTelemetry, sample_at, library, silent, early, late,
}
use rbr_mp_server.Examples.Files.{json}

abbrev next : State
next = record moving { seq = 8 }

next-IsState : IsState next
next-IsState = record {
  player_id = omega arith;
  seq = omega arith;
  client_time_ms = omega arith;
  transform = pose-IsTransform;
  telemetry = dials-IsTelemetry;
}

abbrev now : Time
now = late + 100 * millisecond

abbrev at : Time
at = late + 120 * millisecond

sample_at-IsSample : (t : Time) → IsSample (sample_at t)
sample_at-IsSample t = record {
  client_time_ms = omega arith;
  transform = pose-IsTransform;
  telemetry = dials-IsTelemetry;
}

pub room-Good : Good room
room-Good = record {
  inv = room-Inv;
  ranged = λ k c e. All-In IsRanged (values room.clients) all (values-In k room.clients e);
}
  where
    ann-IsRanged : IsRanged ann
    ann-IsRanged = record {
      last_client_time_ms = omega arith;
      samples = (sample_at-IsSample early, (sample_at-IsSample late, tt));
    }

    bob-IsRanged : IsRanged bob
    bob-IsRanged = record {
      last_client_time_ms = omega arith;
      samples = (sample_at-IsSample early, (sample_at-IsSample late, tt));
    }

    all : All IsRanged (values room.clients)
    all = unfold values in (ann-IsRanged, (bob-IsRanged, tt))

ann_session : lookup ann_addr.text room.clients ≡ some ann
unfolding lookup text_eq
ann_session = refl

bob_session : lookup bob_addr.text room.clients ≡ some bob
unfolding lookup text_eq
bob_session = refl

ann-newest : (x : Sample) → latest ann.history ≡ some x → x.recv_at ≡ late
unfolding latest last
ann-newest x p = ground arith

next_newer : compare_seq 8 7 ≡ newer
unfolding compare_seq to_i32
next_newer = refl

next-Accepts : Accepts ann next now
next-Accepts = record {
  order = inr (λ p. cc (next_newer, p));
  later = λ x p. omega (arith, ann-newest x p);
}

ann-Accepts : (c : Client) → lookup ann_addr.text room.clients ≡ some c → Accepts c next now
ann-Accepts c e =
    subst (λ (d : Client). Accepts d next now) (ground (arith, ann_session)) next-Accepts

relay_delivers_example :
    let t = (handle room (encode_state next) ann_addr now).0 in
    (c : Client) × (lookup ann_addr.text t.clients ≡ some c) × Delivered (tick t at).1 bob c next
relay_delivers_example =
    relay_delivers room ann_addr next now at bob_addr.text bob room-Good (omega arith)
      (unfold get lookup in refl) (unfold kicked_recently lookup in refl) next-IsState ann-Accepts
      bob_session apart (unfold sub_time in refl) (unfold sub_time in refl)
      (unfold sub_time in refl)
  where
    apart : ann_addr.text ≢ bob_addr.text
    apart e = absurd (ground arith)

-- Ann says hello to a fresh server, and is sent a snapshot by the next tick, too early for a ping.
abbrev hello : Hello
hello = record { name = b'A' ∷ []; car = [] }

abbrev arrivals : List Event
arrivals = datagram (encode_hello hello) ann_addr late ∷ []

abbrev arrived : Client
arrived = record {
  id = 1;
  name = b'A' ∷ [];
  car = [];
  addr = ann_addr;
  addr_key = ann_addr.text;
  joined_at = late;
  last_seen = late;
  history = new_history history_age;
  last_client_time_ms = 0;
  last_seq = 0;
  packets = 0;
  dropped = 0;
  last_chat = 0;
  rtt_ms = 0;
  ping_token = 0;
  ping_sent_at = 0;
  last_ping_at = 0;
}

hello_bytes : All IsByte (encode_hello hello)
unfolding encode_hello header u16 u32 le16 le32 name text_buf
hello_bytes = ground arith

after_hello :
    In arrived
      (live_clients (tick (run library json silent (fresh_server config no_bans 1) arrivals) now).0)
unfolding new_history run step receive handle get lookup parse_header get32 get16 dispatch
    decode_hello Decode.run read_hello Reader.name read need advance until_nul ◌>>=◌ return join
    client_locked store rename new_client insert default_name send_all send tick reap keep ping_all
    ping_due pinged sub_time live_clients sort_by insert_by values fresh_server encode_hello header
    u16 u32 le16 le32 name text_buf text_eq
after_hello = here refl

run_snapshots_decode_example :
    let s = run library json silent (fresh_server config no_bans 1) arrivals in
    let t = (tick s now).0 in
    let sn = snapshot t now (live_clients t) arrived in
    In (snapshot_datagram t now arrived) (tick s now).1
    × (decode_snapshot (snapshot_datagram t now arrived).bytes
        ≡ (record sn { entities = map wire_entity sn.entities }, none))
run_snapshots_decode_example =
    run_snapshots_decode library json silent config no_bans 1 now arrivals arrived (omega arith)
      (hello_bytes, tt) after_hello
