-- ===== src/History/Ring.antt =====
-- NewHistory, Add, Len and Latest of internal/server/history.go.
use rbr_mp_server.Common.{
  ℕ, suc, ◌-◌, List, [], ◌∷◌, ◌++◌, Option, none, some, if◌then◌else◌, ltb, length, drop,
}
use rbr_mp_server.Clock.{Time}
use rbr_mp_server.History.Sample.{Sample}

pub record History : Type 0 where
  pub samples : List Sample
  pub max_age : ℕ
  pub max_len : ℕ

abbrev pub default_max_len : ℕ
default_max_len = 4096

unfoldable pub new_history : ℕ → History
new_history max_age = record { samples = []; max_age = max_age; max_len = default_max_len }

unfoldable pub last : List Sample → Option Sample
last [] = none
last (s ∷ []) = some s
last (s ∷ t ∷ ss) = last (t ∷ ss)

-- `for drop < len(h.samples) && h.samples[drop].RecvAt.Before(cutoff) { drop++ }`
unfoldable pub older : Time → List Sample → ℕ
older cutoff [] = 0
older cutoff (s ∷ ss) = let n = older cutoff ss in if ltb s.recv_at cutoff then suc n else 0

-- How many samples `Add` drops from the front. `over` is negative in Go where this is 0, and the
-- test fails in both.
unfoldable pub dropped : Time → ℕ → List Sample → ℕ
dropped cutoff max_len ss =
    let drop = older cutoff ss - 1 in
    let over = length ss - max_len in if ltb drop over then over else drop

-- The append and the pruning, once the sample is accepted.
unfoldable pub push : History → Sample → History
unfolding dropped older
push h s =
    let ss = h.samples ++ (s ∷ []) in
    record h { samples = drop (dropped (s.recv_at - h.max_age) h.max_len ss) ss }

unfoldable pub add : History → Sample → History
unfolding push last
add h s = elim (last h.samples) [
  | none ↦ push h s
  | some newest ↦ if ltb newest.recv_at s.recv_at then push h s else h
]

unfoldable pub len : History → ℕ
len h = length h.samples

unfoldable pub latest : History → Option Sample
unfolding last
latest h = last h.samples
