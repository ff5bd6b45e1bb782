-- ===== src/Server/FindClient.antt =====
-- findClientLocked of internal/server/server.go: the id that `players` prints names its player.
use rbr_mp_server.Common.{
  ℕ, ◌^◌, ◌<◌, ◌≡◌, refl, sym, ap, ◌∙◌, Bool, true, false, List, [], ◌∷◌, Option, some, arith, ◌==◌,
  ==_iff, Bool-cases, inl, inr,
}
use rbr_mp_server.Common.Text.{Text}
use rbr_mp_server.Common.GoMap.{lookup, values}
use rbr_mp_server.Common.GoMap.Cases.{values-In, In-values}
use rbr_mp_server.Common.Decimal.{format_uint, parse_uint}
use rbr_mp_server.Common.Decimal.Laws.{parse_uint-format_uint}
use rbr_mp_server.Common.Sort.{In, here, there}
use rbr_mp_server.Server.Types.{Client, Server}
use rbr_mp_server.Server.Admin.{Library, first_client, by_id, find_client}
use rbr_mp_server.Server.Invariant.{Inv}

same_some : {c d : Client} → some c ≡ some d → c ≡ d
same_some e = cc

first_client_hit :
    (p : Client → Bool) (c : Client) (cs : List Client)
    → p c ≡ true
    → first_client p (c ∷ cs) ≡ some c
first_client_hit p c cs h = unfold first_client in rw h

first_client_miss :
    (p : Client → Bool) (c : Client) (cs : List Client)
    → p c ≡ false
    → first_client p (c ∷ cs) ≡ first_client p cs
first_client_miss p c cs h = unfold first_client in rw h

-- What the loop returns passes the test and is in the list.
first_client-In :
    (p : Client → Bool) (c : Client) (cs : List Client)
    → first_client p cs ≡ some c
    → In c cs × (p c ≡ true)
first_client-In p c [] e = unfold first_client in cc
first_client-In p c (d ∷ cs) e = elim (Bool-cases (p d)) [
  | inl h ↦
      let q : d ≡ c = same_some (sym (first_client_hit p d cs h) ∙ e) in
      (here (sym q), ap p (sym q) ∙ h)
  | inr h ↦
      let (i, t) = first_client-In p c cs (sym (first_client_miss p d cs h) ∙ e) in (there i, t)
]

-- It returns one if there is one.
first_client-found :
    (p : Client → Bool) {c : Client} (cs : List Client)
    → In c cs
    → p c ≡ true
    → (d : Client) × (first_client p cs ≡ some d)
first_client-found p [] i t = elim i [ ]
first_client-found p (d ∷ cs) (here q) t = (d, first_client_hit p d cs (ap p (sym q) ∙ t))
first_client-found p (d ∷ cs) (there i) t = elim (Bool-cases (p d)) [
  | inl h ↦ (d, first_client_hit p d cs h)
  | inr h ↦ let (x, e) = first_client-found p cs i t in (x, first_client_miss p d cs h ∙ e)
]

by_id-some :
    (t : Option ℕ) (id : ℕ) (cs : List Client)
    → t ≡ some id
    → by_id t cs ≡ first_client (λ d. d.id == id) cs
by_id-some t id cs p = unfold by_id in rw p

module _ (lib : Library) (s : Server) where
  by_id_first :
      (who : Text) (c : Client)
      → by_id (parse_uint who) (values s.clients) ≡ some c
      → find_client lib s who ≡ some c
  by_id_first who c f = unfold find_client in ground arith

  -- On a well-formed server a session with a 32-bit id is found by the decimal text of the id,
  -- whatever the other players are called.
  pub find_client_by_id :
      (k : Text) (c : Client)
      → Inv s
      → c.id < 2 ^ 32
      → lookup k s.clients ≡ some c
      → find_client lib s (format_uint c.id) ≡ some c
  find_client_by_id k c v word e =
      let (d, f) =
        first_client-found test (values s.clients) (values-In k s.clients e)
          ((==_iff c.id c.id).1 refl) in
      by_id_first (format_uint c.id) c (
        by_id-some (parse_uint (format_uint c.id)) c.id (values s.clients)
          (parse_uint-format_uint c.id word)
        ∙ f
        ∙ ap some (same d f))
    where
      test : Client → Bool
      test d = d.id == c.id

      same : (d : Client) → first_client test (values s.clients) ≡ some d → d ≡ c
      same d f =
          let (i, t) = first_client-In test d (values s.clients) f in
          let (j, l) = In-values s.clients v.sessions.map i in
          same_some (
            sym l
            ∙ ap (λ (x : Text). lookup x s.clients)
                (v.sessions.ids j k d c l e ((==_iff d.id c.id).0 t))
            ∙ e)
