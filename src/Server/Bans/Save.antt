-- ===== src/Server/Bans/Save.antt =====
-- `save` of internal/server/bans.go: the bans file across failures and crashes.
use rbr_mp_server.Common.{
  ℕ, zero, suc, ◌≡◌, refl, sym, ap, subst, ◌∙◌, ◌≢◌, ◌⊎◌, inl, inr, Bool, true, false, Option, none,
  some, List, [], ◌∷◌, ◌++◌, arith, take, Option-cases, Bool-cases,
}
use rbr_mp_server.Common.Text.{Text, text_eq, text_eq_iff}
use rbr_mp_server.Common.GoMap.{lookup, insert, delete}
use rbr_mp_server.Common.GoMap.Cases.{
  lookup-insert_ne, lookup-insert_self, lookup-delete_ne, lookup-delete_self,
}
use rbr_mp_server.Server.Types.{BanList}
use rbr_mp_server.Server.Bans.{
  list, Json, Disk, FileOp, create, remove_file, write, rename, apply_op, apply_ops, Outcomes,
  clean_up, save_temp, save,
}

-- What os.CreateTemp promises: the temporary file is new, and is not the bans file.
pub record IsTemp (path temp : Text) (d : Disk) : Type 0 where
  pub other : temp ≢ path
  pub new : lookup temp d ≡ none

module _ (path temp : Text) (d : Disk) (fresh : IsTemp path temp d) where
  created : (p : Text) → temp ≢ p → lookup p (insert temp [] d) ≡ lookup p d
  created p ne = lookup-insert_ne d temp p [] ne

  written :
      (p : Text) (b : List ℕ) → temp ≢ p → lookup p (insert temp b (insert temp [] d)) ≡ lookup p d
  written p b ne = lookup-insert_ne (insert temp [] d) temp p b ne ∙ created p ne

  -- A save that fails leaves every file as it was, and at no point touches the bans file.
  undone :
      (p : Text) (b : List ℕ)
      → lookup p (delete temp (insert temp b (insert temp [] d))) ≡ lookup p d
  undone p b = elim (Bool-cases (text_eq temp p)) [
    | inl t ↦
        subst (λ (x : Text). lookup x (delete temp (insert temp b (insert temp [] d))) ≡ lookup x d)
          ((text_eq_iff temp p).0 t)
          (lookup-delete_self (insert temp b (insert temp [] d)) temp ∙ sym fresh.new)
    | inr f ↦
        let ne : temp ≢ p = λ e. cc (f, (text_eq_iff temp p).1 e) in
        lookup-delete_ne (insert temp b (insert temp [] d)) temp p ne ∙ written p b ne
  ]

  removed_prefix :
      (n : ℕ) (b : List ℕ)
      → lookup path (apply_ops (take n (create temp ∷ write temp b ∷ remove_file temp ∷ [])) d)
        ≡ lookup path d
  unfolding apply_ops
  removed_prefix zero b = refl
  removed_prefix (suc zero) b = created path fresh.other
  removed_prefix (suc (suc zero)) b = written path b fresh.other
  removed_prefix (suc (suc (suc zero))) b = undone path b
  removed_prefix (suc (suc (suc (suc n)))) b = undone path b

  left_prefix :
      (n : ℕ) (b : List ℕ)
      → lookup path (apply_ops (take n (create temp ∷ write temp b ∷ [])) d) ≡ lookup path d
  unfolding apply_ops
  left_prefix zero b = refl
  left_prefix (suc zero) b = created path fresh.other
  left_prefix (suc (suc zero)) b = written path b fresh.other
  left_prefix (suc (suc (suc n))) b = written path b fresh.other

  failing_prefix :
      (f : Outcomes) (n : ℕ) (b : List ℕ)
      → lookup path (apply_ops (take n (create temp ∷ write temp b ∷ clean_up f temp)) d)
        ≡ lookup path d
  unfolding clean_up
  failing_prefix f n b = elim (Bool-cases f.remove_fails) [
    | inl r ↦ rw r (left_prefix n b)
    | inr r ↦ rw r (removed_prefix n b)
  ]

  renamed :
      (b : List ℕ)
      → lookup path (apply_op (rename temp path) (insert temp b (insert temp [] d))) ≡ some b
  unfolding apply_op insert
  renamed b =
      let m = insert temp b (insert temp [] d) in
      ap (lookup path) (moved m (lookup-insert_self (insert temp [] d) temp b))
      ∙ lookup-insert_self (delete temp m) path b
    where
      moved :
          (m : Disk)
          → lookup temp m ≡ some b
          → apply_op (rename temp path) m ≡ insert path b (delete temp m)
      moved m e = rw (e, apply_op)

  succeeding_prefix :
      (n : ℕ) (b : List ℕ)
      → let after =
          lookup path (apply_ops (take n (create temp ∷ write temp b ∷ rename temp path ∷ [])) d) in
        (after ≡ lookup path d) ⊎ (after ≡ some b)
  unfolding apply_ops
  succeeding_prefix zero b = inl refl
  succeeding_prefix (suc zero) b = inl (created path fresh.other)
  succeeding_prefix (suc (suc zero)) b = inl (written path b fresh.other)
  succeeding_prefix (suc (suc (suc zero))) b = inr (renamed b)
  succeeding_prefix (suc (suc (suc (suc n)))) b = inr (renamed b)

  save_temp_crash :
      (f : Outcomes) (b : List ℕ) (n : ℕ)
      → let after = lookup path (apply_ops (take n (save_temp f path temp b).0) d) in
        (after ≡ lookup path d) ⊎ (after ≡ some b)
  unfolding save_temp
  save_temp_crash f b n = elim (Option-cases f.write_fails) [
    | inr (part, w) ↦ inl (rw (w, save_temp) (failing_prefix f n part))
    | inl w ↦ elim (Bool-cases f.close_fails) [
      | inl c ↦ inl (rw (w, save_temp, c) (failing_prefix f n b))
      | inr c ↦ elim (Bool-cases f.rename_fails) [
        | inl r ↦ inl (rw (w, save_temp, c, r) (failing_prefix f n b))
        | inr r ↦ rw (w, save_temp, c, r) (succeeding_prefix n b)
      ]
    ]
  ]

  -- What is on the disk when the call returns, by its result.
  abbrev Final : Outcomes → List ℕ → List FileOp × Bool → Type 0
  Final f b r =
      (r.1 ≡ true → lookup path (apply_ops r.0 d) ≡ some b)
      × (r.1 ≡ false
          → ((p : Text) → temp ≢ p → lookup p (apply_ops r.0 d) ≡ lookup p d)
            × (f.remove_fails ≡ false → (p : Text) → lookup p (apply_ops r.0 d) ≡ lookup p d))

  failed-Final :
      (f : Outcomes) (b part : List ℕ)
      → Final f b (create temp ∷ write temp part ∷ clean_up f temp, false)
  unfolding clean_up
  failed-Final f b part = elim (Bool-cases f.remove_fails) [
    | inl r ↦ rw r (λ e. cc, λ _. (λ p ne. unfold apply_ops in written p part ne, λ e. cc))
    | inr r ↦ rw r (
      λ e. cc,
      λ _. (λ p ne. unfold apply_ops in undone p part, λ _ p. unfold apply_ops in undone p part),
    )
  ]

  save_temp-Final : (f : Outcomes) (b : List ℕ) → Final f b (save_temp f path temp b)
  unfolding save_temp
  save_temp-Final f b = elim (Option-cases f.write_fails) [
    | inr (part, w) ↦ rw (w, save_temp) (failed-Final f b part)
    | inl w ↦ elim (Bool-cases f.close_fails) [
      | inl c ↦ rw (w, save_temp, c) (failed-Final f b b)
      | inr c ↦ elim (Bool-cases f.rename_fails) [
        | inl r ↦ rw (w, save_temp, c, r) (failed-Final f b b)
        | inr r ↦ rw (w, save_temp, c, r) ((λ _. unfold apply_ops in renamed b, λ e. cc))
      ]
    ]
  ]

-- What `save` writes: the JSON of the entries and a newline.
abbrev pub Contents : Json → BanList → List ℕ → Type 0
Contents j l b = (text : List ℕ) × (j.marshal (list l) ≡ some text) × (b ≡ text ++ (b'\n' ∷ []))

save_cases {ℓ} :
    (P : List FileOp × Bool → Type ℓ) (j : Json) (f : Outcomes) (l : BanList)
    → P ([], false)
    → ((b : List ℕ) (temp : Text)
        → Contents j l b
        → f.temp ≡ some temp
        → P (save_temp f l.path temp b))
    → P (save j f l)
save_cases P j f l nothing something = elim (Option-cases (j.marshal (list l))) [
  | inl m ↦ subst P (sym (no_json m)) nothing
  | inr (text, m) ↦ elim (Option-cases f.temp) [
    | inl t ↦ subst P (sym (no_temp text m t)) nothing
    | inr (temp, t) ↦
        subst P (sym (both text temp m t)) (something (text ++ (b'\n' ∷ [])) temp (text, m, refl) t)
  ]
]
  where
    no_json : j.marshal (list l) ≡ none → save j f l ≡ ([], false)
    no_json m = unfold save in ground arith

    no_temp :
        (text : List ℕ) → j.marshal (list l) ≡ some text → f.temp ≡ none → save j f l ≡ ([], false)
    no_temp text m t = unfold save in ground arith

    both :
        (text : List ℕ) (temp : Text)
        → j.marshal (list l) ≡ some text
        → f.temp ≡ some temp
        → save j f l ≡ save_temp f l.path temp (text ++ (b'\n' ∷ []))
    both text temp m t = unfold save in ground arith

module _ (j : Json) (f : Outcomes) (l : BanList) (d : Disk)
    (fresh : (temp : Text) → f.temp ≡ some temp → IsTemp l.path temp d) where
  -- However the calls of `save` turn out, and after whichever of them the process dies, the bans
  -- file holds its old contents or the whole new list: it is never torn. (The temporary file is
  -- new and is not the bans file.)
  pub save_crash :
      (n : ℕ)
      → let after = lookup l.path (apply_ops (take n (save j f l).0) d) in
        (after ≡ lookup l.path d) ⊎ ((b : List ℕ) × Contents j l b × (after ≡ some b))
  save_crash n =
      save_cases
        (λ r.
          (lookup l.path (apply_ops (take n r.0) d) ≡ lookup l.path d)
          ⊎ ((b : List ℕ) × Contents j l b × (lookup l.path (apply_ops (take n r.0) d) ≡ some b)))
        j f l (inl (nothing n))
        (λ b temp c t. weaken b c (save_temp_crash l.path temp d (fresh temp t) f b n))
    where
      nothing : (n : ℕ) → lookup l.path (apply_ops (take n []) d) ≡ lookup l.path d
      nothing zero = unfold apply_ops in refl
      nothing (suc n) = unfold apply_ops in refl

      weaken :
          {x : Option (List ℕ)} (b : List ℕ)
          → Contents j l b
          → (x ≡ lookup l.path d) ⊎ (x ≡ some b)
          → (x ≡ lookup l.path d) ⊎ ((b : List ℕ) × Contents j l b × (x ≡ some b))
      weaken b c (inl e) = inl e
      weaken b c (inr e) = inr (b, c, e)

  -- When `save` returns nil the bans file holds the new list. When it returns an error every file
  -- but the temporary one is as it was, and so is that one, which is then gone again, if os.Remove
  -- did not fail. (The temporary file is new and is not the bans file.)
  pub save_result :
      let r = save j f l in
      (r.1 ≡ true → (b : List ℕ) × Contents j l b × (lookup l.path (apply_ops r.0 d) ≡ some b))
      × (r.1 ≡ false
          → ((p : Text) → f.temp ≢ some p → lookup p (apply_ops r.0 d) ≡ lookup p d)
            × (f.remove_fails ≡ false → (p : Text) → lookup p (apply_ops r.0 d) ≡ lookup p d))
  save_result =
      save_cases
        (λ r.
          (r.1 ≡ true → (b : List ℕ) × Contents j l b × (lookup l.path (apply_ops r.0 d) ≡ some b))
          × (r.1 ≡ false
              → ((p : Text) → f.temp ≢ some p → lookup p (apply_ops r.0 d) ≡ lookup p d)
                × (f.remove_fails ≡ false → (p : Text) → lookup p (apply_ops r.0 d) ≡ lookup p d)))
        j f l (λ e. cc, λ _. (λ p _. unfold apply_ops in refl, λ _ p. unfold apply_ops in refl))
        (λ b temp c t.
          let (good, bad) = save_temp-Final l.path temp d (fresh temp t) f b in
          (λ e. (b, c, good e), λ e. (λ p ne. (bad e).0 p (λ q. ne (t ∙ ap some q)), (bad e).1)))
