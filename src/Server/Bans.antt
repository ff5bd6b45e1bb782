-- ===== src/Server/Bans.antt =====
-- internal/server/bans.go: the ban list in memory, and the file that it persists to.
pub mod Laws
pub mod Save
pub mod Reload
use rbr_mp_server.Common.{
  ℕ, List, [], ◌∷◌, ◌++◌, Option, none, some, Bool, true, false, if◌then◌else◌,
}
use rbr_mp_server.Common.Text.{Text}
use rbr_mp_server.Common.GoMap.{lookup, insert, delete, values}
use rbr_mp_server.Common.Sort.{sort_by}
use rbr_mp_server.Server.Types.{BanEntry, BanList}

unfoldable pub get : BanList → Text → Option BanEntry
get l ip = lookup ip l.entries

unfoldable pub add : BanList → BanEntry → BanList
add l e = record l { entries = insert e.ip e l.entries }

-- The list after the call, and whether the IP was banned.
unfoldable pub remove : BanList → Text → BanList × Bool
remove l ip = elim (lookup ip l.entries) [
  | none ↦ (l, false)
  | some e ↦ (record l { entries = delete ip l.entries }, true)
]

-- The entries, the oldest ban first.
unfoldable pub list : BanList → List BanEntry
list l = sort_by (λ e. e.banned_at) (values l.entries)

-- The loop of loadBans over the decoded entries: a later entry of an IP replaces an earlier one.
unfoldable pub load_entries : List (Text × BanEntry) → List BanEntry → List (Text × BanEntry)
load_entries m [] = m
load_entries m (e ∷ es) = load_entries (insert e.ip e m) es

-- encoding/json on a list of entries; `none` is an error.
pub record Json : Type 0 where
  pub marshal : List BanEntry → Option (List ℕ)
  pub unmarshal : List ℕ → Option (List BanEntry)

-- The files of the bans directory, by path.
abbrev pub Disk : Type 0
Disk = List (Text × List ℕ)

-- The system calls of `save` that change a file.
pub data FileOp : Type 0 where
  create remove_file : Text → FileOp
  write : Text → List ℕ → FileOp
  rename : Text → Text → FileOp

unfoldable pub apply_op : FileOp → Disk → Disk
apply_op (create p) d = insert p [] d
apply_op (remove_file p) d = delete p d
apply_op (write p bytes) d = insert p bytes d
apply_op (rename p q) d = elim (lookup p d) [ none ↦ d | some bytes ↦ insert q bytes (delete p d) ]

unfoldable pub apply_ops : List FileOp → Disk → Disk
unfolding apply_op
apply_ops [] d = d
apply_ops (o ∷ os) d = apply_ops os (apply_op o d)

-- What the operating system answers to each call: the name of the temporary file, or a failure.
-- A write that fails has written a part. The error of os.Remove is ignored.
pub record Outcomes : Type 0 where
  pub temp : Option Text
  pub write_fails : Option (List ℕ)
  pub close_fails : Bool
  pub rename_fails : Bool
  pub remove_fails : Bool

-- `os.Remove(tmpName)`
unfoldable pub clean_up : Outcomes → Text → List FileOp
clean_up f temp = if f.remove_fails then [] else remove_file temp ∷ []

-- Once the temporary file is there: the calls, and whether `save` returns nil.
unfoldable pub save_temp : Outcomes → Text → Text → List ℕ → List FileOp × Bool
unfolding clean_up
save_temp f path temp content = elim f.write_fails [
  | some part ↦ (create temp ∷ write temp part ∷ clean_up f temp, false)
  | none ↦
      if f.close_fails
      then (create temp ∷ write temp content ∷ clean_up f temp, false)
      else if f.rename_fails
      then (create temp ∷ write temp content ∷ clean_up f temp, false)
      else (create temp ∷ write temp content ∷ rename temp path ∷ [], true)
]

unfoldable pub save : Json → Outcomes → BanList → List FileOp × Bool
unfolding list save_temp
save j f l = elim (j.marshal (list l)) [
  | none ↦ ([], false)
  | some text ↦ elim f.temp [
    | none ↦ ([], false)
    | some temp ↦ save_temp f l.path temp (text ++ (b'\n' ∷ []))
  ]
]

pub data Loaded : Type 0 where
  loaded : BanList → Loaded
  unreadable unparsable : Loaded

-- `readable` is whether os.ReadFile can read a file that is there.
unfoldable pub load_bans : Json → Bool → Text → Disk → Loaded
unfolding load_entries
load_bans j readable path d = elim (lookup path d) [
  | none ↦ loaded (record { path = path; entries = [] })
  | some bytes ↦ elim readable [
    | false ↦ unreadable
    | true ↦ elim (j.unmarshal bytes) [
      | none ↦ unparsable
      | some es ↦ loaded (record { path = path; entries = load_entries [] es })
    ]
  ]
]
