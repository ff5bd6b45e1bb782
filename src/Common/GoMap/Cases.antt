-- ===== src/Common/GoMap/Cases.antt =====
-- What is found in a map after an operation, by cases.
use rbr_mp_server.Common.{
  ◌≡◌, sym, ◌∙◌, ap, ◌≢◌, ◌⊎◌, inl, inr, Bool, true, none, some, List, [], ◌∷◌, arith, Bool-cases,
  Option-cases,
}
use rbr_mp_server.Common.Text.{Text, text_eq, text_eq_iff, text_eq_refl}
use rbr_mp_server.Common.Sort.{In, here, there}
use rbr_mp_server.Common.GoMap.{
  lookup, insert, delete, keep, values, update_all, IsMap, lookup-insert, lookup-delete,
  lookup-keep, lookup-update_all,
}

module _ {ℓ} {V : Type ℓ} (m : List (Text × V)) where
  pub insert_cases :
      (k j : Text) (v d : V)
      → lookup j (insert k v m) ≡ some d
      → ((k ≡ j) × (v ≡ d)) ⊎ ((k ≢ j) × (lookup j m ≡ some d))
  insert_cases k j v d e = elim (Bool-cases (text_eq k j)) [
    | inl t ↦ inl ((text_eq_iff k j).0 t, ground (arith, lookup-insert k j v m))
    | inr f ↦ inr (λ p. cc (f, (text_eq_iff k j).1 p), ground (arith, lookup-insert k j v m))
  ]

  pub delete_cases :
      (k j : Text) (d : V) → lookup j (delete k m) ≡ some d → (k ≢ j) × (lookup j m ≡ some d)
  delete_cases k j d e = elim (Bool-cases (text_eq k j)) [
    | inl t ↦ absurd (cc (rw t at (sym (lookup-delete k j m) ∙ e)))
    | inr f ↦ (λ p. cc (f, (text_eq_iff k j).1 p), ground (arith, lookup-delete k j m))
  ]

  pub keep_cases :
      (p : V → Bool) (k : Text) (d : V)
      → IsMap m
      → lookup k (keep p m) ≡ some d
      → (lookup k m ≡ some d) × (p d ≡ true)
  keep_cases p k d h e = elim (Option-cases (lookup k m)) [
    | inl l ↦ ground (arith, lookup-keep p k m h)
    | inr (v, l) ↦ ground (arith, lookup-keep p k m h)
  ]

  pub update_all_cases :
      (f : V → V) (k : Text) (d : V)
      → lookup k (update_all f m) ≡ some d
      → (v : V) × (lookup k m ≡ some v) × (f v ≡ d)
  update_all_cases f k d e = elim (Option-cases (lookup k m)) [
    | inl l ↦ absurd (ground (arith, lookup-update_all f k m))
    | inr (v, l) ↦ (v, l, ground (arith, lookup-update_all f k m))
  ]

  pub lookup-insert_self : (k : Text) (v : V) → lookup k (insert k v m) ≡ some v
  lookup-insert_self k v = rw (lookup-insert k k v m, text_eq_refl k)

  pub lookup-insert_ne : (k j : Text) (v : V) → k ≢ j → lookup j (insert k v m) ≡ lookup j m
  lookup-insert_ne k j v ne = ground (arith, lookup-insert k j v m, text_eq_iff k j)

  pub lookup-delete_self : (k : Text) → lookup k (delete k m) ≡ none
  lookup-delete_self k = rw (lookup-delete k k m, text_eq_refl k)

  pub lookup-delete_ne : (k j : Text) → k ≢ j → lookup j (delete k m) ≡ lookup j m
  lookup-delete_ne k j ne = ground (arith, lookup-delete k j m, text_eq_iff k j)

-- The values of a map are what its keys find.
module _ {ℓ} {V : Type ℓ} where
  pub lookup-head : (k : Text) (v : V) (m : List (Text × V)) → lookup k ((k, v) ∷ m) ≡ some v
  unfolding lookup
  lookup-head k v m = rw (text_eq_refl k)

  lookup-tail :
      (k j : Text) (v : V) (m : List (Text × V)) → k ≢ j → lookup j ((k, v) ∷ m) ≡ lookup j m
  unfolding lookup
  lookup-tail k j v m ne = ground (arith, text_eq_iff k j)

  -- What is found behind the first entry is found in the whole map.
  pub lookup-later :
      (k j : Text) (v d : V) (m : List (Text × V))
      → lookup k m ≡ none
      → lookup j m ≡ some d
      → (k ≢ j) × (lookup j ((k, v) ∷ m) ≡ some d)
  lookup-later k j v d m e l = (apart, lookup-tail k j v m apart ∙ l)
    where
      apart : k ≢ j
      apart p = cc (ap (λ (x : Text). lookup x m) p, e, l)

  pub In-values :
      {d : V} (m : List (Text × V)) → IsMap m → In d (values m) → (k : Text) × (lookup k m ≡ some d)
  unfolding values
  In-values [] h i = elim i [ ]
  In-values ((k, v) ∷ m) h (here e) = (k, lookup-head k v m ∙ ap some (sym e))
  In-values {d} ((k, v) ∷ m) h (there i) =
      let (j, l) = In-values m h.1 i in (j, (lookup-later k j v d m h.0 l).1)

  pub values-In : {d : V} (k : Text) (m : List (Text × V)) → lookup k m ≡ some d → In d (values m)
  unfolding values lookup
  values-In k [] e = cc
  values-In {d} k ((j, v) ∷ m) e = elim (Bool-cases (text_eq j k)) [
    | inl t ↦ here (ground arith)
    | inr f ↦ there (values-In k m (ground arith))
  ]
