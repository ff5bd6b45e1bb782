-- ===== src/Server/Relay/Sending.antt =====
-- The snapshots that tick of internal/server/server.go sends: to whom, and what the receiver decodes.
use rbr_mp_server.Common.{◌^◌, ◌≤◌, ◌≡◌, refl, ap, none, List, [], ◌∷◌, ◌++◌, map, append-nil}
use rbr_mp_server.Common.Sort.{In, here, there}
use rbr_mp_server.Clock.{Time}
use rbr_mp_server.Protocol.Encode.{encode_snapshot}
use rbr_mp_server.Protocol.Decode.{decode_snapshot}
use rbr_mp_server.Protocol.RoundTrip.Snapshot.{wire_entity, decode_snapshot-encode_snapshot}
use rbr_mp_server.Server.Types.{Client, Server, Outgoing}
use rbr_mp_server.Server.Session.{uptime_ms}
use rbr_mp_server.Server.Tick.{reap, ping_all, snapshot, snapshots, live_clients, tick}
use rbr_mp_server.Server.Invariant.Timers.{tick-Keeps}
use rbr_mp_server.Server.Values.Handlers.{tick-AllRanged}
use rbr_mp_server.Server.Values.Run.{Good}
use rbr_mp_server.Server.Relay.Wire.{snapshot-IsSnapshot}

In-after : {A : Type 0} {x : A} (xs ys : List A) → In x ys → In x (xs ++ ys)
In-after [] ys i = i
In-after (x ∷ xs) ys i = there (In-after xs ys i)

pub In-map : {A B : Type 0} (f : A → B) {x : A} (xs : List A) → In x xs → In (f x) (map f xs)
In-map f (y ∷ xs) (here e) = here (ap f e)
In-map f (y ∷ xs) (there i) = there (In-map f xs i)
In-map f [] i = elim i [ ]

-- The datagram with the snapshot of `me`.
abbrev pub snapshot_datagram : Server → Time → Client → Outgoing
snapshot_datagram s now me = record {
  addr = me.addr;
  bytes = encode_snapshot (snapshot s now (live_clients s) me);
}

In-snapshots :
    (s : Server) (now : Time) (me : Client) (live cs : List Client)
    → In me cs
    → In
        (record { addr = me.addr; bytes = encode_snapshot (snapshot s now live me) })
        (snapshots s now live cs)
unfolding snapshots
In-snapshots s now me live [] i = elim i [ ]
In-snapshots s now me live (c ∷ cs) (here e) = here (
    ap (λ (c : Client). record { addr = c.addr; bytes = encode_snapshot (snapshot s now live c) })
      e)
In-snapshots s now me live (c ∷ cs) (there i) = there (In-snapshots s now me live cs i)

-- Everybody who is left after a tick is sent a snapshot.
pub tick-sends :
    (s : Server) (now : Time) (me : Client)
    → In me (live_clients (tick s now).0)
    → In (snapshot_datagram (tick s now).0 now me) (tick s now).1
unfolding tick
tick-sends s now me i =
    In-after (ping_all (reap s now).clients (uptime_ms (reap s now) now) now).1 _
      (In-snapshots (tick s now).0 now me (live_clients (tick s now).0) _ i)

pub tick-Good : (s : Server) (now : Time) → Good s → Good (tick s now).0
tick-Good s now g = record {
  inv = (tick-Keeps s now g.inv).inv;
  ranged = tick-AllRanged s now g.inv g.ranged;
}

pub tick-cfg : (s : Server) (now : Time) → (tick s now).0.cfg ≡ s.cfg
unfolding tick reap
tick-cfg s now = refl

-- The receiver decodes the datagram to the snapshot, its texts cut as `wire_text` cuts them.
pub received :
    (s : Server) (now : Time) (me : Client)
    → Good s
    → s.next_id ≤ 2 ^ 16
    → In me (live_clients s)
    → let sn = snapshot s now (live_clients s) me in
      decode_snapshot (snapshot_datagram s now me).bytes
      ≡ (record sn { entities = map wire_entity sn.entities }, none)
received s now me g few i =
    let sn = snapshot s now (live_clients s) me in
    rw⁻¹ (append-nil (encode_snapshot sn))
      (decode_snapshot-encode_snapshot sn [] (snapshot-IsSnapshot s now me g few i))
