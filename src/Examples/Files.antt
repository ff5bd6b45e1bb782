-- ===== src/Examples/Files.antt =====
-- A stand-in for encoding/json and a disk, for the tests of internal/server/bans.go.
use rbr_mp_server.Common.{
  ℕ, append_assoc, subst, ◌≡◌, refl, List, [], ◌∷◌, ◌++◌, length, take, drop, take-all, drop-all,
  zero, suc, Option, none, some, false,
}
use rbr_mp_server.Common.Text.{Text}
use rbr_mp_server.Server.Types.{BanEntry}
use rbr_mp_server.Server.Bans.{Json, Outcomes, Disk}

abbrev pub put_text : Text → List ℕ → List ℕ
put_text t rest = length t ∷ (t ++ rest)

abbrev pub get_text : List ℕ → Text × List ℕ
get_text [] = ([], [])
get_text (n ∷ r) = (take n r, drop n r)

get_text-put_text :
    (t : Text) (rest tail : List ℕ) → get_text (put_text t rest ++ tail) ≡ (t, rest ++ tail)
get_text-put_text t rest tail =
    rw
      (
        append_assoc t rest tail,
        take-all t (rest ++ tail) (length t) refl,
        drop-all t (rest ++ tail) (length t) refl,
      )
      refl

-- An encoder of one entry at most.
abbrev pub marshal : List BanEntry → Option (List ℕ)
marshal [] = some (0 ∷ [])
marshal (e ∷ []) = some (
    1 ∷ e.banned_at ∷ put_text e.ip (put_text e.name (put_text e.reason (put_text e.banned_by []))))
marshal (e ∷ f ∷ es) = none

abbrev pub unmarshal : List ℕ → Option (List BanEntry)
unmarshal [] = none
unmarshal (n ∷ []) = none
unmarshal (zero ∷ at ∷ r) = some []
unmarshal (suc n ∷ at ∷ r) =
    let (ip, r1) = get_text r in
    let (name, r2) = get_text r1 in
    let (reason, r3) = get_text r2 in
    let (by, r4) = get_text r3 in
    some (record { ip = ip; name = name; reason = reason; banned_at = at; banned_by = by } ∷ [])

abbrev pub json : Json
json = record { marshal = marshal; unmarshal = unmarshal }

same_some : {a b : List ℕ} → some a ≡ some b → a ≡ b
same_some e = cc

unmarshal-one :
    (e : BanEntry) (tail text : List ℕ)
    → marshal (e ∷ []) ≡ some text
    → unmarshal (text ++ tail) ≡ some (e ∷ [])
unmarshal-one e tail text h =
    subst (λ t. unmarshal (t ++ tail) ≡ some (e ∷ [])) (same_some h)
      (rw
        (
          append_assoc e.ip (put_text e.name (put_text e.reason (put_text e.banned_by []))) tail,
          take-all e.ip (put_text e.name (put_text e.reason (put_text e.banned_by [])) ++ tail)
              (length e.ip) refl,
          drop-all e.ip (put_text e.name (put_text e.reason (put_text e.banned_by [])) ++ tail)
              (length e.ip) refl,
          append_assoc e.name (put_text e.reason (put_text e.banned_by [])) tail,
          take-all e.name (put_text e.reason (put_text e.banned_by []) ++ tail) (length e.name)
              refl,
          drop-all e.name (put_text e.reason (put_text e.banned_by []) ++ tail) (length e.name)
              refl,
          append_assoc e.reason (put_text e.banned_by []) tail,
          take-all e.reason (put_text e.banned_by [] ++ tail) (length e.reason) refl,
          drop-all e.reason (put_text e.banned_by [] ++ tail) (length e.reason) refl,
          append_assoc e.banned_by [] tail,
          take-all e.banned_by tail (length e.banned_by) refl,
        )
        refl)

pub unmarshal-marshal :
    (es : List BanEntry) (text : List ℕ)
    → marshal es ≡ some text
    → unmarshal (text ++ (b'\n' ∷ [])) ≡ some es
unmarshal-marshal [] text h =
    subst (λ t. unmarshal (t ++ (b'\n' ∷ [])) ≡ some []) (same_some h) refl
unmarshal-marshal (e ∷ []) text h = unmarshal-one e (b'\n' ∷ []) text h
unmarshal-marshal (e ∷ f ∷ es) text h = cc

-- Every call of `save` succeeds.
abbrev pub all_well : Outcomes
all_well = record {
  temp = some (b't' ∷ []);
  write_fails = none;
  close_fails = false;
  rename_fails = false;
  remove_fails = false;
}

abbrev pub disk : Disk
disk = (b'f' ∷ [], 9 ∷ []) ∷ []
