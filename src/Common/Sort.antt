-- ===== src/Common/Sort.antt =====
-- sort.Slice by a number: the list sorted by insertion. Go's sort is not stable, so among equal
-- keys the order is the model's; with distinct keys there is one sorted list.
use native.Mathlib.Decide.{dec_lt}
use rbr_mp_server.Common.{
  ℕ, ◌≤◌, ◌<◌, ◌≡◌, ◌≢◌, refl, subst, List, [], ◌∷◌, if◌then◌else◌, leb, arith, All, sym,
}

-- Membership, with its place.
pub data In {ℓ} {A : Type ℓ} (x : A) : List A → Type ℓ where
  here : {y : A} {ys : List A} → x ≡ y → In x (y ∷ ys)
  there : {y : A} {ys : List A} → In x ys → In x (y ∷ ys)

module _ {ℓ κ} {A : Type ℓ} (P : A → Type κ) where
  pub All-In : {x : A} (xs : List A) → All P xs → In x xs → P x
  All-In [] h m = elim m [ ]
  All-In (y ∷ ys) h (here e) = subst P (sym e) h.0
  All-In (y ∷ ys) h (there m) = All-In ys h.1 m

  pub All_of_In : (xs : List A) → ((x : A) → In x xs → P x) → All P xs
  All_of_In [] h = tt
  All_of_In (x ∷ xs) h = (h x (here refl), All_of_In xs (λ y m. h y (there m)))

  pub All_imp {ι} : (Q : A → Type ι) (xs : List A) → ((x : A) → P x → Q x) → All P xs → All Q xs
  All_imp Q [] f h = tt
  All_imp Q (x ∷ xs) f h = (f x h.0, All_imp Q xs f h.1)

module _ {ℓ} {A : Type ℓ} (key : A → ℕ) where
  unfoldable pub insert_by : A → List A → List A
  insert_by x [] = x ∷ []
  insert_by x (y ∷ ys) = if leb (key x) (key y) then x ∷ y ∷ ys else y ∷ insert_by x ys

  unfoldable pub sort_by : List A → List A
  unfolding insert_by
  sort_by [] = []
  sort_by (x ∷ xs) = insert_by x (sort_by xs)

  -- The keys ascend strictly.
  abbrev pub Rises : List A → Type 0
  Rises [] = Unit {0}
  Rises (x ∷ xs) = All (λ y. key x < key y) xs × Rises xs

  -- No two elements share a key.
  abbrev pub Distinct : List A → Type 0
  Distinct [] = Unit {0}
  Distinct (x ∷ xs) = All (λ y. key x ≢ key y) xs × Distinct xs

  insert_by_front : (x y : A) (ys : List A) → key x ≤ key y → insert_by x (y ∷ ys) ≡ x ∷ y ∷ ys
  unfolding insert_by
  insert_by_front x y ys h = ground arith

  insert_by_later :
      (x y : A) (ys : List A) → key y < key x → insert_by x (y ∷ ys) ≡ y ∷ insert_by x ys
  unfolding insert_by
  insert_by_later x y ys h = ground arith

  All-insert_by {κ} :
      (P : A → Type κ) (x : A) (ys : List A) → P x → All P ys → All P (insert_by x ys)
  All-insert_by P x [] p h = unfold insert_by in (p, tt)
  All-insert_by P x (y ∷ ys) p h = elim (dec_lt (key y) (key x)) [
    | yes lt ↦ rw (insert_by_later x y ys lt) (h.0, All-insert_by P x ys p h.1)
    | no ge ↦ rw (insert_by_front x y ys (omega arith)) (p, h)
  ]

  pub All-sort_by {κ} : (P : A → Type κ) (xs : List A) → All P xs → All P (sort_by xs)
  unfolding sort_by
  All-sort_by P [] h = tt
  All-sort_by P (x ∷ xs) h = All-insert_by P x (sort_by xs) h.0 (All-sort_by P xs h.1)

  insert_by-Rises :
      (x : A) (ys : List A) → All (λ y. key x ≢ key y) ys → Rises ys → Rises (insert_by x ys)
  insert_by-Rises x [] d r = unfold insert_by in (tt, tt)
  insert_by-Rises x (y ∷ ys) d r = elim (dec_lt (key y) (key x)) [
    | yes lt ↦
        rw (insert_by_later x y ys lt)
          (All-insert_by (λ z. key y < key z) x ys lt r.0, insert_by-Rises x ys d.1 r.1)
    | no ge ↦
        let first : key x < key y = omega (arith, d.0) in
        rw (insert_by_front x y ys (omega arith)) (
          (first, All_imp (λ z. key y < key z) (λ z. key x < key z) ys (λ z h. omega arith) r.0),
          r,
        )
  ]

  -- Distinct keys come out in strictly ascending order.
  pub sort_by-Rises : (xs : List A) → Distinct xs → Rises (sort_by xs)
  unfolding sort_by
  sort_by-Rises [] d = tt
  sort_by-Rises (x ∷ xs) d =
      insert_by-Rises x (sort_by xs) (All-sort_by (λ y. key x ≢ key y) xs d.0)
        (sort_by-Rises xs d.1)

  In-insert_by_self : (x : A) (ys : List A) → In x (insert_by x ys)
  In-insert_by_self x [] = unfold insert_by in here refl
  In-insert_by_self x (y ∷ ys) = elim (dec_lt (key y) (key x)) [
    | yes lt ↦ rw (insert_by_later x y ys lt) (there (In-insert_by_self x ys))
    | no ge ↦ rw (insert_by_front x y ys (omega arith)) (here refl)
  ]

  In-insert_by : (x : A) {z : A} (ys : List A) → In z ys → In z (insert_by x ys)
  In-insert_by x [] m = elim m [ ]
  In-insert_by x (y ∷ ys) (here e) = elim (dec_lt (key y) (key x)) [
    | yes lt ↦ rw (insert_by_later x y ys lt) (here e)
    | no ge ↦ rw (insert_by_front x y ys (omega arith)) (there (here e))
  ]
  In-insert_by x (y ∷ ys) (there m) = elim (dec_lt (key y) (key x)) [
    | yes lt ↦ rw (insert_by_later x y ys lt) (there (In-insert_by x ys m))
    | no ge ↦ rw (insert_by_front x y ys (omega arith)) (there (there m))
  ]

  -- Sorting loses nothing.
  pub In-sort_by : {z : A} (xs : List A) → In z xs → In z (sort_by xs)
  unfolding sort_by
  In-sort_by [] m = elim m [ ]
  In-sort_by (x ∷ xs) (here e) =
      subst (λ y. In y (insert_by x (sort_by xs))) (sym e) (In-insert_by_self x (sort_by xs))
  In-sort_by (x ∷ xs) (there m) = In-insert_by x (sort_by xs) (In-sort_by xs m)

  -- Nor does it make anything up.
  pub sort_by-In : {z : A} (xs : List A) → In z (sort_by xs) → In z xs
  sort_by-In {z} xs m =
      All-In (λ y. In y xs) (sort_by xs)
        (All-sort_by (λ y. In y xs) xs (All_of_In (λ y. In y xs) xs (λ y i. i))) m
