-- ===== src/Server/Relay/EntityList.antt =====
-- tick of internal/server/server.go: the entity list of one receiver.
use rbr_mp_server.Common.{
  ℕ, ◌<◌, ◌≡◌, refl, sym, ap, subst, ◌∙◌, ◌≢◌, false, none, some, List, [], ◌∷◌, arith, All,
  Option-cases, inl, inr,
}
use rbr_mp_server.Common.Sort.{In, here, there, All-In, All_of_In, Rises}
use rbr_mp_server.Clock.{Time, longer}
use rbr_mp_server.History.Sample.{Sample}
use rbr_mp_server.History.Ring.{latest}
use rbr_mp_server.Protocol.Types.{Entity}
use rbr_mp_server.Server.Types.{Client, Server}
use rbr_mp_server.Server.Tick.{entity_of, seen, entities}

abbrev pub client_id : Client → ℕ
client_id c = c.id

-- `other` is shown to `me` as `e`: it is another player, seen within the stale time, and `e` is its
-- newest sample under its own id and name.
pub record Shows (s : Server) (now : Time) (me other : Client) (e : Entity) : Type 0 where
  pub another : other.id ≢ me.id
  pub fresh : longer now other.last_seen s.cfg.stale ≡ false
  pub sample : Sample
  pub newest : latest other.history ≡ some sample
  pub entity : e ≡ entity_of other sample

seen-Shows :
    (s : Server) (now : Time) (me other : Client) (e : Entity)
    → seen s now me other ≡ some e
    → Shows s now me other e
seen-Shows s now me other e h = elim (Option-cases (latest other.history)) [
  | inl l ↦ absurd (unfold seen in ground arith)
  | inr (x, l) ↦ record {
    another = unfold seen in ground arith;
    fresh = unfold seen in ground arith;
    sample = x;
    newest = l;
    entity = unfold seen in ground arith;
  }
]

Shows-seen :
    (s : Server) (now : Time) (me other : Client) (e : Entity)
    → Shows s now me other e
    → seen s now me other ≡ some e
unfolding seen
Shows-seen s now me other e h = ground (arith, h.another, h.fresh, h.newest, h.entity)

pub entities_hit :
    (s : Server) (now : Time) (me other : Client) (others : List Client) (e : Entity)
    → seen s now me other ≡ some e
    → entities s now me (other ∷ others) ≡ e ∷ entities s now me others
entities_hit s now me other others e h = unfold entities in ground arith

pub entities_miss :
    (s : Server) (now : Time) (me other : Client) (others : List Client)
    → seen s now me other ≡ none
    → entities s now me (other ∷ others) ≡ entities s now me others
entities_miss s now me other others h = unfold entities in ground arith

In-nil : {A : Type 0} {x : A} → In x [] → ⊥
In-nil i = elim i [ ]

entities_none :
    (s : Server) (now : Time) (me : Client) (e : Entity) → In e (entities s now me []) → ⊥
unfolding entities
entities_none s now me e i = In-nil i

entity_of-id : (c : Client) (x : Sample) → (entity_of c x).id ≡ c.id
unfolding entity_of
entity_of-id c x = refl

-- The entity list of `me` over the given clients: who is in it, and in which order.
pub In-entities :
    (s : Server) (now : Time) (me : Client) (others : List Client) (e : Entity)
    → In e (entities s now me others)
    → (other : Client) × In other others × Shows s now me other e
In-entities s now me [] e i = absurd (entities_none s now me e i)
In-entities s now me (other ∷ others) e i = elim (Option-cases (seen s now me other)) [
  | inl h ↦
      let (o, m, w) =
        In-entities s now me others e (rw (entities_miss s now me other others h) at i) in
      (o, there m, w)
  | inr (x, h) ↦
      split x h (rw (entities_hit s now me other others x h) at i)
        (λ j. In-entities s now me others e j)
]
  where
    split :
        (x : Entity)
        → seen s now me other ≡ some x
        → In e (x ∷ entities s now me others)
        → (In e (entities s now me others) → (o : Client) × In o others × Shows s now me o e)
        → (o : Client) × In o (other ∷ others) × Shows s now me o e
    split x h (here p) rest = (other, here refl, seen-Shows s now me other e (h ∙ ap some (sym p)))
    split x h (there j) rest = let (o, m, w) = rest j in (o, there m, w)

pub entities-In :
    (s : Server) (now : Time) (me other : Client) (others : List Client) (e : Entity)
    → In other others
    → Shows s now me other e
    → In e (entities s now me others)
entities-In s now me other [] e m w = elim m [ ]
entities-In s now me other (o ∷ others) e (here p) w =
    rw
      (entities_hit s now me o others e
        (Shows-seen s now me o e (subst (λ x. Shows s now me x e) p w)))
      (here refl)
entities-In s now me other (o ∷ others) e (there m) w = elim (Option-cases (seen s now me o)) [
  | inl h ↦ rw (entities_miss s now me o others h) (entities-In s now me other others e m w)
  | inr (x, h) ↦
      rw (entities_hit s now me o others x h) (there (entities-In s now me other others e m w))
]

pub Shows-id :
    (s : Server) (now : Time) (me other : Client) (e : Entity)
    → Shows s now me other e
    → e.id ≡ other.id
Shows-id s now me other e w = ap (λ (x : Entity). x.id) w.entity ∙ entity_of-id other w.sample

-- A property of the id of every client holds of the id of every entity.
All-entities :
    (P : ℕ → Type 0) (s : Server) (now : Time) (me : Client) (others : List Client)
    → All (λ c. P c.id) others
    → All (λ e. P e.id) (entities s now me others)
All-entities P s now me others h =
    All_of_In (λ (e : Entity). P e.id) (entities s now me others)
      (λ e i.
        let (o, m, w) = In-entities s now me others e i in
        subst P (sym (Shows-id s now me o e w)) (All-In (λ (c : Client). P c.id) others h m))

pub entities-Rises :
    (s : Server) (now : Time) (me : Client) (others : List Client)
    → Rises client_id others
    → Rises (λ (e : Entity). e.id) (entities s now me others)
entities-Rises s now me [] r = unfold entities in tt
entities-Rises s now me (o ∷ others) r = elim (Option-cases (seen s now me o)) [
  | inl h ↦ rw (entities_miss s now me o others h) (entities-Rises s now me others r.1)
  | inr (x, h) ↦ rw (entities_hit s now me o others x h) (
    subst (λ n. All (λ (e : Entity). n < e.id) (entities s now me others))
        (sym (Shows-id s now me o x (seen-Shows s now me o x h)))
        (All-entities (λ n. o.id < n) s now me others r.0),
    entities-Rises s now me others r.1,
  )
]
