-- ===== src/Server/Relay/Snapshots.antt =====
-- tick of internal/server/server.go: whom a snapshot shows, and who gets one.
use mathlib.Core.Path.{ap₂}
use rbr_mp_server.Common.{◌<◌, ◌≡◌, refl, sym, ap, ◌∙◌, ◌≢◌, ◌↔◌, some, List, [], ◌∷◌, arith, All}
use rbr_mp_server.Common.Text.{Text}
use rbr_mp_server.Common.GoMap.{lookup, values, IsMap}
use rbr_mp_server.Common.GoMap.Cases.{In-values, values-In, lookup-head, lookup-later}
use rbr_mp_server.Common.Sort.{
  In, here, there, All-In, All_of_In, Rises, Distinct, sort_by-Rises, In-sort_by, sort_by-In,
}
use rbr_mp_server.Clock.{Time}
use rbr_mp_server.Protocol.Types.{Entity}
use rbr_mp_server.Server.Types.{Client, Server}
use rbr_mp_server.Server.Tick.{entities, snapshot, live_clients}
use rbr_mp_server.Server.Invariant.{Inv}
use rbr_mp_server.Server.Relay.EntityList.{
  client_id, Shows, Shows-id, In-entities, entities-In, entities-Rises,
}

-- The ids in a well-formed session table are distinct.
values-Distinct :
    (m : List (Text × Client))
    → IsMap m
    → ((k j : Text) (c d : Client)
        → lookup k m ≡ some c
        → lookup j m ≡ some d
        → c.id ≡ d.id
        → k ≡ j)
    → Distinct client_id (values m)
unfolding values
values-Distinct [] is ids = tt
values-Distinct ((k, c) ∷ m) is ids = (
  All_of_In (λ (d : Client). c.id ≢ d.id) (values m)
      (λ d i e.
        let (j, l) = In-values m is.1 i in
        let (apart, l') = lookup-later k j c d m is.0 l in
        apart (ids k j c d (lookup-head k c m) l' e)),
  values-Distinct m is.1 (λ j l a b la lb e.
      ids j l a b (lookup-later k j c a m is.0 la).1 (lookup-later k l c b m is.0 lb).1 e),
)

-- The clients that a snapshot is built from stand in strictly ascending order of their ids.
pub live_clients-Rises : (s : Server) → Inv s → Rises client_id (live_clients s)
unfolding live_clients
live_clients-Rises s v =
    sort_by-Rises client_id (values s.clients)
      (values-Distinct s.clients v.sessions.map v.sessions.ids)

-- They are the sessions of the table.
pub live_clients-In :
    (s : Server) (k : Text) (c : Client) → lookup k s.clients ≡ some c → In c (live_clients s)
unfolding live_clients
live_clients-In s k c e = In-sort_by client_id (values s.clients) (values-In k s.clients e)

pub In-live_clients :
    (s : Server) (c : Client)
    → Inv s
    → In c (live_clients s)
    → (k : Text) × (lookup k s.clients ≡ some c)
unfolding live_clients
In-live_clients s c v i =
    In-values s.clients v.sessions.map (sort_by-In client_id (values s.clients) i)

-- The entities of the snapshot that the session `me` of a well-formed server gets: they ascend
-- strictly by id; none has the receiver's own id; and an entity is there exactly when it shows the
-- newest sample of another session that was seen within the stale time.
pub snapshot_entities :
    (s : Server) (now : Time) (me : Client)
    → Inv s
    → let es = (snapshot s now (live_clients s) me).entities in
      Rises (λ (e : Entity). e.id) es
      × All (λ e. e.id ≢ me.id) es
      × ((e : Entity)
          → In e es
            ↔ (k : Text) × (other : Client) × (lookup k s.clients ≡ some other)
              × Shows s now me other e)
unfolding snapshot
snapshot_entities s now me v = (
  entities-Rises s now me (live_clients s) (live_clients-Rises s v),
  All_of_In (λ (e : Entity). e.id ≢ me.id) (entities s now me (live_clients s))
      (λ e i p.
        let (o, _, w) = In-entities s now me (live_clients s) e i in
        w.another (sym (Shows-id s now me o e w) ∙ p)),
  λ e. (
    λ i.
        let (o, m, w) = In-entities s now me (live_clients s) e i in
        let (k, l) = In-live_clients s o v m in (k, o, l, w),
    λ (k, o, l, w). entities-In s now me o (live_clients s) e (live_clients-In s k o l) w,
  ),
)

-- Two strictly ascending lists with the same members are the same list.
Rises-unique :
    (xs ys : List Client)
    → Rises client_id xs
    → Rises client_id ys
    → ((c : Client) → In c xs → In c ys)
    → ((c : Client) → In c ys → In c xs)
    → xs ≡ ys
Rises-unique [] [] r q f g = refl
Rises-unique [] (y ∷ ys) r q f g = elim (g y (here refl)) [ ]
Rises-unique (x ∷ xs) [] r q f g = elim (f x (here refl)) [ ]
Rises-unique (x ∷ xs) (y ∷ ys) r q f g = ap₂ ◌∷◌ heads (Rises-unique xs ys r.1 q.1 forth back)
  where
    above : (zs : List Client) (z c : Client) → All (λ d. z.id < d.id) zs → In c zs → z.id < c.id
    above zs z c h i = All-In (λ (d : Client). z.id < d.id) zs h i

    same_heads : In x (y ∷ ys) → In y (x ∷ xs) → x ≡ y
    same_heads (here e) j = e
    same_heads (there i) (here e) = sym e
    same_heads (there i) (there j) = absurd (omega (arith, above ys y x q.0 i, above xs x y r.0 j))

    heads : x ≡ y
    heads = same_heads (f x (here refl)) (g y (here refl))

    later : (c : Client) (zs : List Client) (z : Client) → z.id < c.id → In c (z ∷ zs) → In c zs
    later c zs z h (here e) = absurd (omega (arith, h, ap (λ (d : Client). d.id) e))
    later c zs z h (there i) = i

    forth : (c : Client) → In c xs → In c ys
    forth c i =
        later c ys y (omega (arith, above xs x c r.0 i, ap (λ (d : Client). d.id) heads))
          (f c (there i))

    back : (c : Client) → In c ys → In c xs
    back c i =
        later c xs x (omega (arith, above ys y c q.0 i, ap (λ (d : Client). d.id) heads))
          (g c (there i))

-- The order in which Go iterates over the map does not matter: two well-formed servers whose
-- tables find the same sessions build their snapshots from the same list of clients.
pub live_clients_unordered :
    (s t : Server)
    → Inv s
    → Inv t
    → ((k : Text) → lookup k s.clients ≡ lookup k t.clients)
    → live_clients s ≡ live_clients t
live_clients_unordered s t v w same =
    Rises-unique (live_clients s) (live_clients t) (live_clients-Rises s v) (live_clients-Rises t w)
      (λ c i. let (k, l) = In-live_clients s c v i in live_clients-In t k c (sym (same k) ∙ l))
      (λ c i. let (k, l) = In-live_clients t c w i in live_clients-In s k c (same k ∙ l))
