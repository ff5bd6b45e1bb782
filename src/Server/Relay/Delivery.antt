-- ===== src/Server/Relay/Delivery.antt =====
-- The server's purpose, end to end: what one client sends to internal/server/server.go reaches another client
-- and is read back with internal/protocol/protocol.go.
use rbr_mp_server.Common.{
  ◌+◌, ◌^◌, ◌≤◌, ◌<◌, ◌≡◌, refl, ap, ◌∙◌, ◌≢◌, false, none, some, List, map, arith, length, All,
}
use rbr_mp_server.Common.Text.{Text}
use rbr_mp_server.Common.GoMap.{lookup}
use rbr_mp_server.Common.Sort.{In}
use rbr_mp_server.Clock.{Time, longer}
use rbr_mp_server.History.Sample.{Sample}
use rbr_mp_server.History.Ring.{latest}
use rbr_mp_server.Protocol.Types.{State, Entity, Snapshot, IsState, name_len}
use rbr_mp_server.Protocol.Encode.{encode_state}
use rbr_mp_server.Protocol.Decode.{decode_snapshot}
use rbr_mp_server.Protocol.FixedText.{wire_text}
use rbr_mp_server.Protocol.RoundTrip.Snapshot.{wire_entity}
use rbr_mp_server.Server.Types.{UdpAddr, Client, Config, BanList, Server, Outgoing}
use rbr_mp_server.Server.Bans.{get, Json}
use rbr_mp_server.Server.Session.{uptime_ms, sample_of, client_locked, store, state}
use rbr_mp_server.Server.Handle.{Network, kicked_recently, handle}
use rbr_mp_server.Server.Admin.{Library}
use rbr_mp_server.Server.Start.{fresh_server}
use rbr_mp_server.Server.Run.{Event, run}
use rbr_mp_server.Server.Tick.{entity_of, snapshot, live_clients, tick}
use rbr_mp_server.Server.Invariant.{Inv, HasIds}
use rbr_mp_server.Server.Invariant.Handlers.{state-Keeps}
use rbr_mp_server.Server.Invariant.Timers.{tick-stays, after_ping, after_ping_values, tick-next_id}
use rbr_mp_server.Server.Values.Handlers.{state-AllRanged}
use rbr_mp_server.Server.Values.Run.{HasBytes, Good, run-Good, fresh_server-Good}
use rbr_mp_server.Server.Relay.Snapshots.{live_clients-In, snapshot_entities}
use rbr_mp_server.Server.Isolation.{state_others}
use rbr_mp_server.Server.Relay.Accepted.{Accepts, Heard, handle-state, state-Heard}
use rbr_mp_server.Server.Relay.Sending.{
  In-map, tick-sends, tick-Good, tick-cfg, received, snapshot_datagram,
}

state-Good :
    (s : Server) (addr : UdpAddr) (st : State) (now : Time)
    → HasIds s
    → IsState st
    → Good s
    → Good (state s addr st now).0
state-Good s addr st now ids v g = record {
  inv = (state-Keeps s addr st now ids g.inv).inv;
  ranged = state-AllRanged s addr st now g.ranged v;
}

state-cfg :
    (s : Server) (addr : UdpAddr) (st : State) (now : Time) → (state s addr st now).0.cfg ≡ s.cfg
unfolding state store client_locked
state-cfg s addr st now = ground arith

-- What the entity `e` says of the car is what the State said, under the name of the client.
pub record Carries (e : Entity) (c : Client) (st : State) : Type 0 where
  pub id : e.id ≡ c.id
  pub name : e.name ≡ wire_text name_len c.name
  pub transform : e.transform ≡ st.transform
  pub telemetry : e.telemetry ≡ st.telemetry
  pub sample_time_ms : e.sample_time_ms ≡ st.client_time_ms

-- A datagram among `out` to the address of `me` that decodes without an error, to a snapshot with
-- an entity that carries the State.
pub record Delivered (out : List Outgoing) (me c : Client) (st : State) : Type 0 where
  pub datagram : Outgoing
  pub sent : In datagram out
  pub address : datagram.addr ≡ me.addr
  pub snapshot : Snapshot
  pub decoded : decode_snapshot datagram.bytes ≡ (snapshot, none)
  pub entity : Entity
  pub shown : In entity snapshot.entities
  pub carries : Carries entity c st

-- Two sessions of a well-formed server: the fresh newest sample of one is in the snapshot of the
-- other.
shown_to :
    (s : Server) (now : Time) (k j : Text) (me other : Client) (x : Sample)
    → Inv s
    → lookup k s.clients ≡ some me
    → lookup j s.clients ≡ some other
    → j ≢ k
    → latest other.history ≡ some x
    → longer now other.last_seen s.cfg.stale ≡ false
    → In (entity_of other x) (snapshot s now (live_clients s) me).entities
shown_to s now k j me other x v lk lj ne newest fresh =
    let (_, _, members) = snapshot_entities s now me v in
    (members (entity_of other x)).1 (
      j,
      other,
      lj,
      record {
        another = λ e. ne (v.sessions.ids j k other me lj lk e);
        fresh = fresh;
        sample = x;
        newest = newest;
        entity = refl;
      },
    )

entity_of-Carries :
    (c c' : Client) (st : State) (now : Time)
    → c'.id ≡ c.id
    → c'.name ≡ c.name
    → Carries (wire_entity (entity_of c' (sample_of st now))) c st
unfolding entity_of sample_of
entity_of-Carries c c' st now id name = record {
  id = id;
  name = ap (λ (x : Text). wire_text name_len x) name;
  transform = refl;
  telemetry = refl;
  sample_time_ms = refl;
}

-- A tick after which the sender's newest sample is the State delivers it to `me`.
tick_delivers :
    (t : Server) (from : UdpAddr) (st : State) (now at : Time) (k : Text) (me : Client)
    → Good t
    → t.next_id ≤ 2 ^ 16
    → (h : Heard t from st now) → lookup k t.clients ≡ some me
    → from.text ≢ k
    → longer at me.last_seen t.cfg.timeout ≡ false
    → longer at now t.cfg.timeout ≡ false
    → longer at now t.cfg.stale ≡ false
    → Delivered (tick t at).1 me h.client st
tick_delivers t from st now at k me g few h l ne there_me there_from fresh =
    let u = (tick t at).0 in
    let gu : Good u = tick-Good t at g in
    let me' = after_ping (uptime_ms t at) at me in
    let from' = after_ping (uptime_ms t at) at h.client in
    let sn = snapshot u at (live_clients u) me' in
    let (_, _, addr, _, _, _) = after_ping_values (uptime_ms t at) at me in
    let (_, history, _, id, heard, name) = after_ping_values (uptime_ms t at) at h.client in
    let l' = tick-stays t at k me g.inv l there_me in
    let found =
      tick-stays t at from.text h.client g.inv h.found
        (ap (λ (x : Time). longer at x t.cfg.timeout) h.seen ∙ there_from) in
    let live = live_clients-In u k me' l' in
    let shown =
      shown_to u at k from.text me' from' (sample_of st now) gu.inv l' found ne
        (ap latest history ∙ h.newest)
        (rw (tick-cfg t at)
          (ap (λ (x : Time). longer at x t.cfg.stale) (heard ∙ h.seen) ∙ fresh)) in
    record {
      datagram = snapshot_datagram u at me';
      sent = tick-sends t at me' live;
      address = addr;
      snapshot = record sn { entities = map wire_entity sn.entities };
      decoded = received u at me' gu (rw (tick-next_id t at) few) live;
      entity = wire_entity (entity_of from' (sample_of st now));
      shown = In-map wire_entity sn.entities shown;
      carries = entity_of-Carries h.client from' st now id name;
    }

-- End to end, on a server whose table is well formed and in range and that has given out fewer than
-- 2 ^ 16 ids. A State comes from an address that is neither banned nor recently kicked, and the
-- session of that address, if there is one, accepts it. Another session was heard within the
-- timeout when the next tick comes, and the State is then neither older than the timeout nor than
-- the stale time. Then that tick sends the other session a datagram that decodes without an error,
-- to a snapshot with an entity that has the id of the sender's session, its name as the wire cuts
-- it, and the transform, the telemetry and the client time of the State.
pub relay_delivers :
    (s : Server) (from : UdpAddr) (st : State) (now at : Time) (k : Text) (me : Client)
    → Good s
    → s.next_id < 2 ^ 16
    → get s.bans from.ip ≡ none
    → kicked_recently s from now ≡ false
    → IsState st
    → ((c : Client) → lookup from.text s.clients ≡ some c → Accepts c st now)
    → lookup k s.clients ≡ some me
    → from.text ≢ k
    → longer at me.last_seen s.cfg.timeout ≡ false
    → longer at now s.cfg.timeout ≡ false
    → longer at now s.cfg.stale ≡ false
    → let t = (handle s (encode_state st) from now).0 in
      (c : Client) × (lookup from.text t.clients ≡ some c) × Delivered (tick t at).1 me c st
relay_delivers s from st now at k me g few free welcome v accepts l ne there_me there_from fresh =
    let ids : HasIds s = omega arith in
    let t = (state s from st now).0 in
    let h = state-Heard s from st now ids g.inv accepts in
    let cfg = state-cfg s from st now in
    rw (handle-state s from st now free welcome v) (
      h.client,
      h.found,
      tick_delivers t from st now at k me (state-Good s from st now ids v g)
          (omega (arith, few, (state-Keeps s from st now ids g.inv).ids)) h
          (state_others k s from st now ne ∙ l) ne (rw cfg there_me) (rw cfg there_from)
          (rw cfg fresh),
    )

module _ (lib : Library) (j : Json) (net : Network) where
  -- From a fresh server, after at most 2 ^ 16 - 1 events of any kind in any order whose datagrams
  -- consist of bytes, a tick sends every session that it leaves its snapshot, and that datagram
  -- decodes without an error to the same snapshot, all entities in their places, with the names
  -- and the cars as the wire cuts them.
  pub run_snapshots_decode :
      (cfg : Config) (bans : BanList) (started at : Time) (es : List Event) (me : Client)
      → 1 + length es ≤ 2 ^ 16
      → All HasBytes es
      → In me (live_clients (tick (run lib j net (fresh_server cfg bans started) es) at).0)
      → let s = run lib j net (fresh_server cfg bans started) es in
        let t = (tick s at).0 in
        let sn = snapshot t at (live_clients t) me in
        In (snapshot_datagram t at me) (tick s at).1
        × (decode_snapshot (snapshot_datagram t at me).bytes
            ≡ (record sn { entities = map wire_entity sn.entities }, none))
  run_snapshots_decode cfg l started at es me few bytes i =
      let s0 = fresh_server cfg l started in
      let first : s0.next_id ≡ 1 = unfold fresh_server in refl in
      let (g, le) =
        run-Good lib j net s0 es (omega (arith, few, first)) bytes
          (fresh_server-Good lib j net cfg l started) in
      let s = run lib j net s0 es in
      (
        tick-sends s at me i,
        received (tick s at).0 at me (tick-Good s at g)
            (omega (arith, le, few, first, tick-next_id s at)) i,
      )
