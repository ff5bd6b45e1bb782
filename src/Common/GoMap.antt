-- ===== src/Common/GoMap.antt =====
-- Go maps keyed by strings, as association lists. A `range` loop visits the entries in the order of
-- the list: a theorem about every list is one about every iteration order.
pub mod Cases
use rbr_mp_server.Common.{
  ℕ, ◌≡◌, refl, ap, ◌≢◌, Bool, true, false, Option, none, some, List, [], ◌∷◌, arith, if◌then◌else◌,
  length, ◌≤◌, Bool-cases, inl, inr, ◌⊎◌, sym, ◌∙◌,
}
use rbr_mp_server.Common.Text.{Text, text_eq, text_eq_iff}

module _ {ℓ} {V : Type ℓ} where
  -- `m[k]` with its `ok`.
  unfoldable pub lookup : Text → List (Text × V) → Option V
  lookup k [] = none
  lookup k ((j, v) ∷ m) = if text_eq j k then some v else lookup k m

  -- `m[k] = v`
  unfoldable pub insert : Text → V → List (Text × V) → List (Text × V)
  insert k v [] = (k, v) ∷ []
  insert k v ((j, w) ∷ m) = if text_eq j k then (j, v) ∷ m else (j, w) ∷ insert k v m

  -- `delete(m, k)`
  unfoldable pub delete : Text → List (Text × V) → List (Text × V)
  delete k [] = []
  delete k ((j, w) ∷ m) = if text_eq j k then delete k m else (j, w) ∷ delete k m

  -- A `range` loop that deletes the entries whose value fails the test.
  unfoldable pub keep : (V → Bool) → List (Text × V) → List (Text × V)
  keep p [] = []
  keep p ((j, w) ∷ m) = if p w then (j, w) ∷ keep p m else keep p m

  -- A `range` loop that collects the values.
  unfoldable pub values : List (Text × V) → List V
  values [] = []
  values ((j, w) ∷ m) = w ∷ values m

  -- A `range` loop that updates every value in place.
  unfoldable pub update_all : (V → V) → List (Text × V) → List (Text × V)
  update_all f [] = []
  update_all f ((j, w) ∷ m) = (j, f w) ∷ update_all f m

  -- Every key stands once.
  abbrev pub IsMap : List (Text × V) → Type ℓ
  IsMap [] = Unit {ℓ}
  IsMap ((j, w) ∷ m) = (lookup j m ≡ none) × IsMap m

  pub lookup-insert :
      (k j : Text) (v : V) (m : List (Text × V))
      → lookup j (insert k v m) ≡ (if text_eq k j then some v else lookup j m)
  unfolding lookup insert
  lookup-insert k j v [] = refl
  lookup-insert k j v ((i, w) ∷ m) =
      ground (arith, text_eq_iff k j, text_eq_iff i k, text_eq_iff i j, lookup-insert k j v m)

  pub lookup-delete :
      (k j : Text) (m : List (Text × V))
      → lookup j (delete k m) ≡ (if text_eq k j then none else lookup j m)
  unfolding lookup delete
  lookup-delete k j [] = ground arith
  lookup-delete k j ((i, w) ∷ m) =
      ground (arith, text_eq_iff k j, text_eq_iff i k, text_eq_iff i j, lookup-delete k j m)

  pub lookup-update_all :
      (f : V → V) (k : Text) (m : List (Text × V))
      → lookup k (update_all f m) ≡ elim (lookup k m) [ none ↦ none | some v ↦ some (f v) ]
  unfolding lookup update_all
  lookup-update_all f k [] = refl
  lookup-update_all f k ((i, w) ∷ m) = ground (arith, lookup-update_all f k m)

  lookup-keep-none :
      (p : V → Bool) (k : Text) (m : List (Text × V))
      → lookup k m ≡ none
      → lookup k (keep p m) ≡ none
  unfolding lookup keep
  lookup-keep-none p k [] h = refl
  lookup-keep-none p k ((i, w) ∷ m) h = ground (arith, lookup-keep-none p k m)

  pub lookup-keep :
      (p : V → Bool) (k : Text) (m : List (Text × V))
      → IsMap m
      → lookup k (keep p m)
        ≡ elim (lookup k m) [ none ↦ none | some v ↦ if p v then some v else none ]
  unfolding lookup keep
  lookup-keep p k [] h = refl
  lookup-keep p k ((i, w) ∷ m) h =
      ground (arith, text_eq_iff i k, lookup-keep p k m h.1, lookup-keep-none p k m)

  pub insert-IsMap : (k : Text) (v : V) (m : List (Text × V)) → IsMap m → IsMap (insert k v m)
  unfolding insert
  insert-IsMap k v [] h = (unfold lookup in refl, tt)
  insert-IsMap k v ((i, w) ∷ m) h =
      ground
        (arith, text_eq_iff i k, text_eq_iff k i, lookup-insert k i v m, insert-IsMap k v m h.1)

  pub delete-IsMap : (k : Text) (m : List (Text × V)) → IsMap m → IsMap (delete k m)
  unfolding delete
  delete-IsMap k [] h = tt
  delete-IsMap k ((i, w) ∷ m) h = ground (arith, lookup-delete k i m, delete-IsMap k m h.1)

  pub keep-IsMap : (p : V → Bool) (m : List (Text × V)) → IsMap m → IsMap (keep p m)
  unfolding keep
  keep-IsMap p [] h = tt
  keep-IsMap p ((i, w) ∷ m) h = ground (arith, lookup-keep-none p i m, keep-IsMap p m h.1)

  pub update_all-IsMap : (f : V → V) (m : List (Text × V)) → IsMap m → IsMap (update_all f m)
  unfolding update_all
  update_all-IsMap f [] h = tt
  update_all-IsMap f ((i, w) ∷ m) h =
      ground (arith, lookup-update_all f i m, update_all-IsMap f m h.1)
