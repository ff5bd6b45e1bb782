-- ===== src/Server/Tick.antt =====
-- tick and clampPing of internal/server/server.go.
use rbr_mp_server.Common.{
  ℕ, ◌%◌, ◌^◌, List, [], ◌∷◌, ◌++◌, Option, none, some, Bool, true, false, not, ◌&&◌, if◌then◌else◌,
  ltb, ◌==◌,
}
use rbr_mp_server.Common.Text.{Text}
use rbr_mp_server.Common.GoMap.{keep, values}
use rbr_mp_server.Common.Sort.{sort_by}
use rbr_mp_server.Clock.{Time, is_zero, within, at_least, longer}
use rbr_mp_server.History.Sample.{Sample}
use rbr_mp_server.History.Ring.{latest}
use rbr_mp_server.Protocol.Types.{Entity, Snapshot}
use rbr_mp_server.Protocol.Encode.{encode_ping, encode_snapshot}
use rbr_mp_server.Server.Types.{Client, Server, Outgoing, ping_every, kick_window, ban_notice_every}
use rbr_mp_server.Server.Session.{uptime_ms}

unfoldable pub clamp_ping : ℕ → ℕ
clamp_ping ms = if ltb 65535 ms then 65535 else ms % 2 ^ 16

-- The first part of tick: silent clients, old kicks and old ban notices are forgotten.
unfoldable pub reap : Server → Time → Server
reap s now = record s {
  clients = keep (λ c. not (longer now c.last_seen s.cfg.timeout)) s.clients;
  recently_kicked = keep (λ at. not (at_least now at kick_window)) s.recently_kicked;
  last_ban_notice = keep (λ at. not (at_least now at ban_notice_every)) s.last_ban_notice;
}

-- The two `continue`s of the ping loop, negated.
unfoldable pub ping_due : Client → Time → Bool
ping_due c now =
    if within now c.last_ping_at ping_every
    then false
    else if not (is_zero c.ping_sent_at) && not (longer now c.ping_sent_at ping_every)
    then false
    else true

unfoldable pub pinged : Client → ℕ → Time → Client
pinged c token now = record c { ping_token = token; ping_sent_at = now; last_ping_at = now }

-- The loop that pings whoever is due: the clients, and the datagrams.
unfoldable pub ping_all : List (Text × Client) → ℕ → Time → List (Text × Client) × List Outgoing
unfolding ping_due pinged
ping_all [] token now = ([], [])
ping_all ((k, c) ∷ m) token now =
    let (m', out) = ping_all m token now in
    if ping_due c now
    then (
      (k, pinged c token now) ∷ m',
      record { addr = c.addr; bytes = encode_ping (record { token = token }) } ∷ out,
    )
    else ((k, c) ∷ m', out)

unfoldable pub entity_of : Client → Sample → Entity
unfolding clamp_ping
entity_of c sample = record {
  id = c.id;
  flags = 0;
  name = c.name;
  car = c.car;
  transform = sample.transform;
  telemetry = sample.telemetry;
  sample_time_ms = sample.client_time_ms;
  ping_ms = clamp_ping c.rtt_ms;
}

-- The entity of `other` in the snapshot of `me`, unless the loop skips it.
unfoldable pub seen : Server → Time → Client → Client → Option Entity
seen s now me other =
    if other.id == me.id
    then none
    else if longer now other.last_seen s.cfg.stale
    then none
    else elim (latest other.history) [ none ↦ none | some sample ↦ some (entity_of other sample) ]

unfoldable pub entities : Server → Time → Client → List Client → List Entity
entities s now me [] = []
entities s now me (other ∷ others) =
    let rest = entities s now me others in
    elim (seen s now me other) [ none ↦ rest | some e ↦ e ∷ rest ]

unfoldable pub snapshot : Server → Time → List Client → Client → Snapshot
snapshot s now live me = record {
  server_time_ms = uptime_ms s now;
  last_client_time_ms = me.last_client_time_ms;
  self_ping_ms = clamp_ping me.rtt_ms;
  entities = entities s now me live;
}

unfoldable pub snapshots : Server → Time → List Client → List Client → List Outgoing
snapshots s now live [] = []
snapshots s now live (me ∷ rest) =
    record { addr = me.addr; bytes = encode_snapshot (snapshot s now live me) }
    ∷ snapshots s now live rest

-- The clients in ascending order of their ids.
unfoldable pub live_clients : Server → List Client
live_clients s = sort_by (λ c. c.id) (values s.clients)

unfoldable pub tick : Server → Time → Server × List Outgoing
unfolding reap ping_all live_clients snapshots
tick s now =
    let s1 = reap s now in
    let (clients, pings) = ping_all s1.clients (uptime_ms s1 now) now in
    let s2 = record s1 { clients = clients } in
    let live = live_clients s2 in (s2, pings ++ snapshots s2 now live live)
