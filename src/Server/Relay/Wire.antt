-- ===== src/Server/Relay/Wire.antt =====
-- tick of internal/server/server.go and internal/protocol/protocol.go: a snapshot that is built from
-- sessions in range fits the wire.
use rbr_mp_server.Common.{
  ℕ, ◌+◌, ◌-◌, ◌^◌, ◌≤◌, ◌<◌, ◌≡◌, sym, subst, inl, inr, some, List, [], ◌∷◌, arith, length, All,
  Option-cases,
}
use rbr_mp_server.Common.Int.{to_u32-lt}
use rbr_mp_server.Common.Sort.{In, All_of_In, All_imp, Rises}
use rbr_mp_server.Clock.{Time}
use rbr_mp_server.History.Sample.{Sample}
use rbr_mp_server.History.Ring.{History, last, latest}
use rbr_mp_server.Protocol.Types.{Entity, IsU16, IsEntity, IsSnapshot}
use rbr_mp_server.Server.Types.{Client, Server}
use rbr_mp_server.Server.Session.{uptime_ms}
use rbr_mp_server.Server.Tick.{clamp_ping, entity_of, seen, entities, snapshot, live_clients}
use rbr_mp_server.Server.Relay.EntityList.{client_id, In-entities, entities_hit, entities_miss}
use rbr_mp_server.Server.Relay.Snapshots.{live_clients-Rises, In-live_clients}
use rbr_mp_server.Server.Invariant.{Inv}
use rbr_mp_server.Server.Values.{IsSample}
use rbr_mp_server.Server.Values.Run.{Good}

-- Strictly ascending numbers between two bounds are few.
length-Rises :
    (cs : List Client) (lo hi : ℕ)
    → lo ≤ hi
    → Rises client_id cs
    → All (λ c. lo ≤ c.id) cs
    → All (λ c. c.id < hi) cs
    → length cs ≤ hi - lo
length-Rises [] lo hi le r a b = omega arith
length-Rises (c ∷ cs) lo hi le r a b = omega (
  arith,
  length-Rises cs (c.id + 1) hi (omega (arith, b.0)) r.1
      (All_imp (λ (d : Client). c.id < d.id) (λ d. c.id + 1 ≤ d.id) cs (λ d h. omega arith) r.0)
      b.1,
  a.0,
  b.0,
)

-- There are fewer sessions than ids that were given out.
pub length-live_clients : (s : Server) → Inv s → length (live_clients s) < s.next_id
length-live_clients s v = omega (
  arith,
  v.positive,
  length-Rises (live_clients s) 1 s.next_id v.positive (live_clients-Rises s v)
      (All_of_In (λ (c : Client). 1 ≤ c.id) (live_clients s)
        (λ c i. let (k, l) = In-live_clients s c v i in (v.sessions.each k c l).positive))
      (All_of_In (λ (c : Client). c.id < s.next_id) (live_clients s)
        (λ c i. let (k, l) = In-live_clients s c v i in (v.sessions.each k c l).given)),
)

length-entities :
    (s : Server) (now : Time) (me : Client) (others : List Client)
    → length (entities s now me others) ≤ length others
length-entities s now me [] = unfold entities in omega arith
length-entities s now me (o ∷ others) = elim (Option-cases (seen s now me o)) [
  | inl e ↦ rw (entities_miss s now me o others e) (omega (arith, length-entities s now me others))
  | inr (x, e) ↦
      rw (entities_hit s now me o others x e) (omega (arith, length-entities s now me others))
]

clamp_ping-IsU16 : (ms : ℕ) → IsU16 (clamp_ping ms)
unfolding clamp_ping
clamp_ping-IsU16 ms = ground arith

All-last : (xs : List Sample) (x : Sample) → All IsSample xs → last xs ≡ some x → IsSample x
unfolding last
All-last [] x h e = absurd (cc)
All-last (y ∷ []) x h e = subst IsSample (ground arith) h.0
All-last (y ∷ z ∷ xs) x h e = All-last (z ∷ xs) x h.1 e

latest-IsSample :
    (h : History) (x : Sample) → All IsSample h.samples → latest h ≡ some x → IsSample x
unfolding latest
latest-IsSample h x all e = All-last h.samples x all e

entity_of-IsEntity :
    (c : Client) (x : Sample) → c.id < 2 ^ 32 → IsSample x → IsEntity (entity_of c x)
unfolding entity_of
entity_of-IsEntity c x id h = record {
  id = id;
  flags = omega arith;
  transform = h.transform;
  telemetry = h.telemetry;
  sample_time_ms = h.client_time_ms;
  ping_ms = clamp_ping-IsU16 c.rtt_ms;
}

-- The snapshot of any session of a server in range fits the wire while fewer than 2 ^ 16 ids have
-- been given out.
pub snapshot-IsSnapshot :
    (s : Server) (now : Time) (me : Client)
    → Good s
    → s.next_id ≤ 2 ^ 16
    → In me (live_clients s)
    → IsSnapshot (snapshot s now (live_clients s) me)
unfolding snapshot
snapshot-IsSnapshot s now me g few i = record {
  server_time_ms = unfold uptime_ms in to_u32-lt _;
  last_client_time_ms =
      let (k, l) = In-live_clients s me g.inv i in (g.ranged k me l).last_client_time_ms;
  self_ping_ms = clamp_ping-IsU16 me.rtt_ms;
  few = omega (arith, length-entities s now me (live_clients s), length-live_clients s g.inv);
  entities = All_of_In IsEntity (entities s now me (live_clients s)) (λ e j. shown e j);
}
  where
    shown : (e : Entity) → In e (entities s now me (live_clients s)) → IsEntity e
    shown e j =
        let (o, m, w) = In-entities s now me (live_clients s) e j in
        let (k, l) = In-live_clients s o g.inv m in
        subst IsEntity (sym w.entity) (
          entity_of-IsEntity o w.sample (omega (arith, (g.inv.sessions.each k o l).given, few))
            (latest-IsSample o.history w.sample (g.ranged k o l).samples w.newest))
