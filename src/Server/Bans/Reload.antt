-- ===== src/Server/Bans/Reload.antt =====
-- loadBans of internal/server/bans.go after a save.
use rbr_mp_server.Common.{
  ℕ, ◌≡◌, refl, sym, ap, subst, ◌∙◌, ◌⊎◌, inl, inr, true, none, some, List, [], ◌∷◌, ◌++◌, arith,
  Option-cases, Bool-cases, All,
}
use rbr_mp_server.Common.Text.{Text, text_eq, text_eq_iff}
use rbr_mp_server.Common.GoMap.{lookup, insert, values, IsMap}
use rbr_mp_server.Common.GoMap.Cases.{
  insert_cases, lookup-insert_self, lookup-insert_ne, values-In, In-values,
}
use rbr_mp_server.Common.Sort.{In, here, there, In-sort_by, sort_by-In, sort_by, All_of_In}
use rbr_mp_server.Common.Utf8.{IsUtf8}
use rbr_mp_server.Server.Types.{BanEntry, BanList}
use rbr_mp_server.Server.Bans.{
  list, Json, Disk, load_entries, load_bans, loaded, Outcomes, save, apply_ops,
}
use rbr_mp_server.Server.Bans.Save.{IsTemp, save_result}

abbrev pub Entries : Type 0
Entries = List (Text × BanEntry)

-- Every entry stands under its own IP, once.
pub record IsBans (m : Entries) : Type 0 where
  pub map : IsMap m
  pub keyed : (ip : Text) (e : BanEntry) → lookup ip m ≡ some e → e.ip ≡ ip

-- The entries of the list are those of the map `r`.
abbrev From : Entries → List BanEntry → Type 0
From r es = (e : BanEntry) → In e es → lookup e.ip r ≡ some e

-- An entry of `r` that is there stays.
load_keeps :
    (r m : Entries) (es : List BanEntry) (ip : Text) (x : BanEntry)
    → From r es
    → lookup ip r ≡ some x
    → lookup ip m ≡ some x
    → lookup ip (load_entries m es) ≡ some x
unfolding load_entries
load_keeps r m [] ip x f er em = em
load_keeps r m (e ∷ es) ip x f er em =
    load_keeps r (insert e.ip e m) es ip x (λ y i. f y (there i)) er
      (elim (Bool-cases (text_eq e.ip ip)) [
        | inl t ↦
            let p = (text_eq_iff e.ip ip).0 t in
            subst (λ (k : Text). lookup k (insert e.ip e m) ≡ some x) p
              (lookup-insert_self m e.ip e
                ∙ sym (f e (here refl))
                ∙ ap (λ (k : Text). lookup k r) p
                ∙ er)
        | inr n ↦ lookup-insert_ne m e.ip ip e (λ p. cc (n, (text_eq_iff e.ip ip).1 p)) ∙ em
      ])

-- Every entry of the list is loaded.
load_finds :
    (r m : Entries) (es : List BanEntry) (x : BanEntry)
    → From r es
    → In x es
    → lookup x.ip (load_entries m es) ≡ some x
unfolding load_entries
load_finds r m [] x f i = elim i [ ]
load_finds r m (e ∷ es) x f (here p) =
    load_keeps r (insert e.ip e m) es x.ip x (λ y i. f y (there i)) (f x (here p))
      (subst (λ (y : BanEntry). lookup y.ip (insert e.ip e m) ≡ some y) (sym p)
        (lookup-insert_self m e.ip e))
load_finds r m (e ∷ es) x f (there i) = load_finds r (insert e.ip e m) es x (λ y j. f y (there j)) i

-- Nothing else is.
load_only :
    (r m : Entries) (es : List BanEntry) (ip : Text) (x : BanEntry)
    → From r es
    → lookup ip (load_entries m es) ≡ some x
    → (lookup ip m ≡ some x) ⊎ (lookup ip r ≡ some x)
unfolding load_entries
load_only r m [] ip x f e = inl e
load_only r m (b ∷ es) ip x f e =
    step (load_only r (insert b.ip b m) es ip x (λ y i. f y (there i)) e)
  where
    step :
        (lookup ip (insert b.ip b m) ≡ some x) ⊎ (lookup ip r ≡ some x)
        → (lookup ip m ≡ some x) ⊎ (lookup ip r ≡ some x)
    step (inr l) = inr l
    step (inl l) = elim (insert_cases m b.ip ip b x l) [
      | inl (p, q) ↦ inr (ap (λ (k : Text). lookup k r) (sym p) ∙ f b (here refl) ∙ ap some q)
      | inr (_, l') ↦ inl l'
    ]

list-From : (l : BanList) → IsBans l.entries → From l.entries (list l)
unfolding list
list-From l v e i =
    let (k, f) =
      In-values l.entries v.map (sort_by-In (λ (b : BanEntry). b.banned_at) (values l.entries) i) in
    ap (λ (x : Text). lookup x l.entries) (v.keyed k e f) ∙ f

-- Loading the entries in the order of the file gives back the map.
reload-lookup :
    (l : BanList) (ip : Text)
    → IsBans l.entries
    → lookup ip (load_entries [] (list l)) ≡ lookup ip l.entries
reload-lookup l ip v = elim (Option-cases (lookup ip l.entries)) [
  | inr (e, f) ↦
      subst (λ (k : Text). lookup k (load_entries [] (list l)) ≡ some e) (v.keyed ip e f)
        (load_finds l.entries [] (list l) e (list-From l v) (member e f))
      ∙ sym f
  | inl f ↦ elim (Option-cases (lookup ip (load_entries [] (list l)))) [
    | inl g ↦ g ∙ sym f
    | inr (x, g) ↦ absurd (clash x f (load_only l.entries [] (list l) ip x (list-From l v) g))
  ]
]
  where
    member : (e : BanEntry) → lookup ip l.entries ≡ some e → In e (list l)
    member e f =
        unfold list in
        In-sort_by (λ (b : BanEntry). b.banned_at) (values l.entries) (values-In ip l.entries f)

    clash :
        (x : BanEntry)
        → lookup ip l.entries ≡ none
        → (lookup ip [] ≡ some x) ⊎ (lookup ip l.entries ≡ some x)
        → ⊥
    clash x f (inl e) = unfold lookup in cc
    clash x f (inr e) = cc

-- The texts of an entry are valid UTF-8. (encoding/json writes U+FFFD for a byte that is not.)
pub record IsText (e : BanEntry) : Type 0 where
  pub ip : IsUtf8 e.ip
  pub name : IsUtf8 e.name
  pub reason : IsUtf8 e.reason
  pub banned_by : IsUtf8 e.banned_by

-- The ban list survives a restart: where `save` returned nil, loading the file gives a list that
-- bans the same IPs with the same entries. (The texts of the entries are valid UTF-8, encoding/json
-- reads back what it wrote of such texts, the temporary file is new, and the entries stand under
-- their IPs.)
pub load_bans-save :
    (j : Json) (f : Outcomes) (l : BanList) (d : Disk)
    → ((es : List BanEntry) (text : List ℕ)
        → All IsText es
        → j.marshal es ≡ some text
        → j.unmarshal (text ++ (b'\n' ∷ [])) ≡ some es)
    → ((temp : Text) → f.temp ≡ some temp → IsTemp l.path temp d)
    → IsBans l.entries
    → ((ip : Text) (e : BanEntry) → lookup ip l.entries ≡ some e → IsText e)
    → (save j f l).1 ≡ true
    → (m : Entries) × (load_bans j true l.path (apply_ops (save j f l).0 d)
        ≡ loaded (record { path = l.path; entries = m }))
      × ((ip : Text) → lookup ip m ≡ lookup ip l.entries)
load_bans-save j f l d json fresh v texts ok =
    let (b, (text, m, e), found) = (save_result j f l d fresh).0 ok in
    (
      load_entries [] (list l),
      reads (apply_ops (save j f l).0 d) b (found) (ap j.unmarshal e ∙ json (list l) text all m),
      λ ip. reload-lookup l ip v,
    )
  where
    all : All IsText (list l)
    all =
        unfold list in
        All_of_In IsText (sort_by (λ (b : BanEntry). b.banned_at) (values l.entries)) (λ e i.
          let (k, g) =
            In-values l.entries v.map
              (sort_by-In (λ (b : BanEntry). b.banned_at) (values l.entries) i) in
          texts k e g)

    reads :
        (d' : Disk) (b : List ℕ)
        → lookup l.path d' ≡ some b
        → j.unmarshal b ≡ some (list l)
        → load_bans j true l.path d'
          ≡ loaded (record { path = l.path; entries = load_entries [] (list l) })
    reads d' b e u = unfold load_bans in ground arith
