-- ===== src/Console/Total.antt =====
-- `fields[0]` in rconCommand of internal/server/rcon.go: a line that TrimSpace leaves is not blank.
use rbr_mp_server.Common.{
  ℕ, zero, suc, ◌-◌, ◌≡◌, refl, sym, ap, subst, ◌∙◌, ◌≢◌, [], ◌∷◌, ◌++◌, true, false, ◌==◌, ==_iff,
  Bool-cases, inl, inr, arith,
}
use rbr_mp_server.Common.Text.{Text}
use rbr_mp_server.Console.Words.{
  space_at, trim_left, trim_right, trim_space, unless_blank, flush, split, fields,
}

-- A word that has begun comes out.
split-some : (n x : ℕ) (word cs : Text) → split n (x ∷ word) cs ≢ []
unfolding split flush
split-some n x word [] = λ e. cc
split-some (suc n) x word (c ∷ cs) = split-some n x word cs
split-some zero x word (c ∷ cs) = let inside = split-some 0 x (word ++ (c ∷ [])) cs in ground arith

fields-some : (c : ℕ) (cs : Text) → space_at (c ∷ cs) ≡ 0 → fields (c ∷ cs) ≢ []
unfolding fields split
fields-some c cs h = let word = split-some 0 c [] cs in ground arith

trim_left_stop : (d : ℕ) (t : Text) → (space_at (d ∷ t) == 0) ≡ true → trim_left 0 (d ∷ t) ≡ d ∷ t
unfolding trim_left
trim_left_stop d t z = rw z refl

trim_left_go :
    (d : ℕ) (t : Text)
    → (space_at (d ∷ t) == 0) ≡ false
    → trim_left 0 (d ∷ t) ≡ trim_left (space_at (d ∷ t) - 1) t
unfolding trim_left
trim_left_go d t f = rw f refl

-- What is left of a text begins with no white space.
trim_left-front : (n c : ℕ) (t cs : Text) → trim_left n t ≡ c ∷ cs → space_at (c ∷ cs) ≡ 0
unfolding trim_left
trim_left-front n c [] cs e = absurd (ground arith)
trim_left-front (suc n) c (d ∷ t) cs e = trim_left-front n c t cs e
trim_left-front zero c (d ∷ t) cs e = elim (Bool-cases (space_at (d ∷ t) == 0)) [
  | inl z ↦
      subst (λ u. space_at u ≡ 0) (sym (trim_left_stop d t z) ∙ e)
        ((==_iff (space_at (d ∷ t)) 0).0 z)
  | inr f ↦ trim_left-front (space_at (d ∷ t) - 1) c t cs (sym (trim_left_go d t f) ∙ e)
]

trim_left_front : (c : ℕ) (cs : Text) → space_at (c ∷ cs) ≡ 0 → trim_left 0 (c ∷ cs) ≡ c ∷ cs
trim_left_front c cs h = trim_left_stop c cs ((==_iff (space_at (c ∷ cs)) 0).1 h)

trim_right-front :
    (c : ℕ) (cs : Text) → space_at (c ∷ cs) ≡ 0 → trim_right (c ∷ cs) ≡ c ∷ trim_right cs
unfolding trim_right
trim_right-front c cs h = rw (trim_left_front c cs h) (unfold unless_blank in refl)

-- TrimSpace cuts off at the end.
trim_right-prefix : (t : Text) → (z : Text) × (t ≡ trim_right t ++ z)
unfolding trim_right unless_blank
trim_right-prefix [] = ([], refl)
trim_right-prefix (c ∷ cs) =
    let (z, e) = trim_right-prefix cs in unless_blank-prefix (trim_left 0 (c ∷ cs)) z e
  where
    unless_blank-prefix :
        (u z : Text)
        → cs ≡ trim_right cs ++ z
        → (y : Text) × (c ∷ cs ≡ unless_blank u c (trim_right cs) ++ y)
    unless_blank-prefix [] z e = (c ∷ cs, refl)
    unless_blank-prefix (d ∷ ds) z e = (z, ap (◌∷◌ c) e)

-- No white space at the front is none in a beginning.
space_at-prefix : (c : ℕ) (p z : Text) → space_at (c ∷ (p ++ z)) ≡ 0 → space_at (c ∷ p) ≡ 0
unfolding space_at
space_at-prefix c [] [] h = h
space_at-prefix c [] (d ∷ []) h = ground arith
space_at-prefix c [] (d ∷ e ∷ z) h = ground arith
space_at-prefix c (d ∷ []) [] h = h
space_at-prefix c (d ∷ []) (e ∷ z) h = ground arith
space_at-prefix c (d ∷ e ∷ p) z h = h

front_kept : (c : ℕ) (cs : Text) → space_at (c ∷ cs) ≡ 0 → space_at (c ∷ trim_right cs) ≡ 0
front_kept c cs h =
    let (z, e) = trim_right-prefix cs in
    space_at-prefix c (trim_right cs) z (subst (λ t. space_at (c ∷ t) ≡ 0) e h)

fields-trim_right :
    (u : Text)
    → ((c : ℕ) (cs : Text) → u ≡ c ∷ cs → space_at (c ∷ cs) ≡ 0)
    → trim_right u ≢ []
    → fields (trim_right u) ≢ []
fields-trim_right [] h ne = absurd (ne (unfold trim_right in refl))
fields-trim_right (c ∷ cs) h ne =
    let e = trim_right-front c cs (h c cs refl) in
    subst (λ t. fields t ≢ []) (sym e)
      (fields-some c (trim_right cs) (front_kept c cs (h c cs refl)))

-- A line that TrimSpace does not make empty has a first word: `fields[0]` is in range.
pub fields-trim_space : (line : Text) → trim_space line ≢ [] → fields (trim_space line) ≢ []
unfolding trim_space
fields-trim_space line ne =
    fields-trim_right (trim_left 0 line) (λ c cs e. trim_left-front 0 c line cs e) ne
