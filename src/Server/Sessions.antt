-- ===== src/Server/Sessions.antt =====
-- The session table of internal/server/server.go (`Server.clients` with `nextID`): its invariant,
-- and the operations on the table that keep it.
use rbr_mp_server.Common.{
  ℕ, ◌+◌, ◌≤◌, ◌<◌, ◌≡◌, refl, sym, ap, subst, ◌∙◌, inl, inr, Bool, some, List, arith,
}
use rbr_mp_server.Common.Text.{Text}
use rbr_mp_server.Common.GoMap.{
  lookup, insert, delete, keep, update_all, IsMap, insert-IsMap, delete-IsMap, keep-IsMap,
  update_all-IsMap,
}
use rbr_mp_server.Common.GoMap.Cases.{insert_cases, delete_cases, keep_cases, update_all_cases}
use rbr_mp_server.History.Bounds.{IsHistory}
use rbr_mp_server.Server.Types.{Client}

-- A client that stands under the key `k`, with an id that was given out before `n`.
pub record Fits (k : Text) (n : ℕ) (c : Client) : Type 0 where
  pub keyed : c.addr_key ≡ k
  pub replies : c.addr.text ≡ k
  pub positive : 1 ≤ c.id
  pub given : c.id < n
  pub history : IsHistory c.history

pub record Sessions (m : List (Text × Client)) (n : ℕ) : Type 0 where
  pub map : IsMap m
  pub each : (k : Text) (c : Client) → lookup k m ≡ some c → Fits k n c
  pub ids :
      (k j : Text) (c d : Client) → lookup k m ≡ some c → lookup j m ≡ some d → c.id ≡ d.id → k ≡ j

Fits-mono : (k : Text) (n : ℕ) (c : Client) → Fits k n c → Fits k (n + 1) c
Fits-mono k n c f = record {
  keyed = f.keyed;
  replies = f.replies;
  positive = f.positive;
  given = omega (arith, f.given);
  history = f.history;
}

module _ (m : List (Text × Client)) (n : ℕ) (v : Sessions m n) where
  -- Every entry of the new table is one of the old table, with the same id.
  from_old :
      (m' : List (Text × Client))
      → IsMap m'
      → ((k : Text) (c : Client) → lookup k m' ≡ some c → Fits k n c)
      → ((k : Text) (c : Client)
          → lookup k m' ≡ some c
          → (d : Client) × (lookup k m ≡ some d) × (d.id ≡ c.id))
      → Sessions m' n
  from_old m' is each old = record {
    map = is;
    each = each;
    ids = λ k j c d lc ld e.
        let (c', lc', ec) = old k c lc in
        let (d', ld', ed) = old j d ld in v.ids k j c' d' lc' ld' (ec ∙ e ∙ sym ed);
  }

  pub insert_old :
      (k : Text) (c c' : Client)
      → lookup k m ≡ some c
      → Fits k n c'
      → c.id ≡ c'.id
      → Sessions (insert k c' m) n
  insert_old k c c' l f same =
      from_old (insert k c' m) (insert-IsMap k c' m v.map)
        (λ j d e. elim (insert_cases m k j c' d e) [
          | inl (p, q) ↦ subst (λ x. Fits j n x) q (subst (λ x. Fits x n c') p f)
          | inr (_, q) ↦ v.each j d q
        ])
        (λ j d e. elim (insert_cases m k j c' d e) [
          | inl (p, q) ↦
              (c, subst (λ x. lookup x m ≡ some c) p l, same ∙ ap (λ (x : Client). x.id) q)
          | inr (_, q) ↦ (d, q, refl)
        ])

  pub delete_old : (k : Text) → Sessions (delete k m) n
  delete_old k =
      from_old (delete k m) (delete-IsMap k m v.map)
        (λ j d e. v.each j d (delete_cases m k j d e).1)
        (λ j d e. (d, (delete_cases m k j d e).1, refl))

  pub keep_old : (p : Client → Bool) → Sessions (keep p m) n
  keep_old p =
      from_old (keep p m) (keep-IsMap p m v.map)
        (λ j d e. v.each j d (keep_cases m p j d v.map e).0)
        (λ j d e. (d, (keep_cases m p j d v.map e).0, refl))

  pub update_old :
      (f : Client → Client)
      → ((k : Text) (c : Client) → Fits k n c → Fits k n (f c) × (c.id ≡ (f c).id))
      → Sessions (update_all f m) n
  update_old f keeps =
      from_old (update_all f m) (update_all-IsMap f m v.map)
        (λ j d e.
          let (c, l, q) = update_all_cases m f j d e in
          subst (λ x. Fits j n x) q (keeps j c (v.each j c l)).0)
        (λ j d e.
          let (c, l, q) = update_all_cases m f j d e in
          (c, l, (keeps j c (v.each j c l)).1 ∙ ap (λ (x : Client). x.id) q))

  -- A new session, with the next id.
  pub insert_new :
      (k : Text) (c : Client) → Fits k (n + 1) c → c.id ≡ n → Sessions (insert k c m) (n + 1)
  insert_new k c f last = record {
    map = insert-IsMap k c m v.map;
    each = λ j d e. elim (insert_cases m k j c d e) [
      | inl (p, q) ↦ subst (λ x. Fits j (n + 1) x) q (subst (λ x. Fits x (n + 1) c) p f)
      | inr (_, q) ↦ Fits-mono j n d (v.each j d q)
    ];
    ids = λ i j a b la lb e. elim (insert_cases m k i c a la) [
      | inl (p, q) ↦ elim (insert_cases m k j c b lb) [
        | inl (p', q') ↦ sym p ∙ p'
        | inr (_, q') ↦
            absurd (omega (arith, last, ap (λ (x : Client). x.id) q, (v.each j b q').given))
      ]
      | inr (_, q) ↦ elim (insert_cases m k j c b lb) [
        | inl (p', q') ↦
            absurd (omega (arith, last, ap (λ (x : Client). x.id) q', (v.each i a q).given))
        | inr (_, q') ↦ v.ids i j a b q q' e
      ]
    ];
  }
