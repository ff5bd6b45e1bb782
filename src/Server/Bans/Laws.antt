-- ===== src/Server/Bans/Laws.antt =====
-- The ban list of internal/server/bans.go as a map from IPs.
use rbr_mp_server.Common.{
  ◌≡◌, sym, ap, ◌∙◌, inl, inr, none, some, if◌then◌else◌, Option-cases, Bool-cases,
}
use rbr_mp_server.Common.Text.{Text, text_eq, text_eq_iff}
use rbr_mp_server.Common.GoMap.{lookup, lookup-insert, lookup-delete}
use rbr_mp_server.Server.Types.{BanEntry, BanList}
use rbr_mp_server.Server.Bans.{get, add, remove}

-- The last entry for an IP counts, and the other IPs are not touched.
pub get-add :
    (l : BanList) (e : BanEntry) (ip : Text)
    → get (add l e) ip ≡ (if text_eq e.ip ip then some e else get l ip)
unfolding get add
get-add l e ip = lookup-insert e.ip ip e l.entries

pub get-remove :
    (l : BanList) (ip j : Text) → get (remove l ip).0 j ≡ (if text_eq ip j then none else get l j)
unfolding get remove
get-remove l ip j = elim (Option-cases (lookup ip l.entries)) [
  | inl e ↦
      rw (e, remove)
        (elim (Bool-cases (text_eq ip j)) [
          | inl t ↦ rw t (ap (λ (x : Text). lookup x l.entries) (sym ((text_eq_iff ip j).0 t)) ∙ e)
          | inr f ↦ rw f
        ])
  | inr (x, e) ↦ rw (e, remove) (lookup-delete ip j l.entries)
]
