-- ===== src/History/Lookup.antt =====
-- `At` of internal/server/history.go: the pose at an instant, by binary search.
use rbr_mp_server.Common.{
  ℕ, zero, suc, ◌+◌, ◌-◌, ◌/◌, List, Option, none, some, if◌then◌else◌, ltb, length, get_elem?,
}
use rbr_mp_server.Common.Int.{pos, leb_ℤ}
use rbr_mp_server.Clock.{Time, sub_time}
use rbr_mp_server.History.Sample.{Sample}
use rbr_mp_server.History.Ring.{History, last}
use rbr_mp_server.History.Lerp.{Floats, lerp_sample}

-- The pair `(Sample, ok)`. `fault` is no Go value: an index out of range, or a search out of fuel.
pub data Found : Type 0 where
  absent fault : Found
  found : Sample → Found

-- `for lo < hi { mid := (lo + hi) / 2; … }`; `none` is a fault.
unfoldable pub search_after : ℕ → List Sample → Time → ℕ → ℕ → Option ℕ
search_after zero ss at lo hi = if ltb lo hi then none else some lo
search_after (suc fuel) ss at lo hi =
    let mid = (lo + hi) / 2 in
    let left = search_after fuel ss at lo mid in
    let right = search_after fuel ss at (suc mid) hi in
    let step : Option ℕ = elim (get_elem? ss mid) [
      | none ↦ none
      | some s ↦ if ltb at s.recv_at then left else right
    ] in
    if ltb lo hi then step else some lo

module _ (o : Floats) where
  -- `t := float32(at.Sub(a.RecvAt).Seconds() / span.Seconds())`
  unfoldable pub fraction : Time → Sample → Sample → ℕ
  fraction at a b =
      o.narrow
        (o.div64 (o.seconds (sub_time at a.recv_at)) (o.seconds (sub_time b.recv_at a.recv_at)))

  -- The pose between two neighbours.
  unfoldable pub between : Time → Sample → Sample → Found
  between at a b =
      if leb_ℤ (sub_time b.recv_at a.recv_at) (pos 0)
      then found b
      else found (lerp_sample o a b (fraction at a b))

  -- `b := h.samples[lo]; a := h.samples[lo-1]`, where both indices are in range.
  unfoldable pub bracket : List Sample → Time → ℕ → Found
  bracket ss at zero = fault
  bracket ss at (suc lo) = elim (get_elem? ss (suc lo)) [
    | none ↦ fault
    | some b ↦ elim (get_elem? ss lo) [ none ↦ fault | some a ↦ between at a b ]
  ]

  unfoldable pub at_bracket : List Sample → Time → Option ℕ → Found
  at_bracket ss at none = fault
  at_bracket ss at (some lo) = bracket ss at lo

  unfoldable pub at_time : History → Time → Found
  at_time h at = elim (get_elem? h.samples 0) [
    | none ↦ absent
    | some first ↦ elim (last h.samples) [
      | none ↦ fault
      | some newest ↦
          if ltb at first.recv_at
          then absent
          else if ltb at newest.recv_at
          then at_bracket h.samples at
              (search_after (length h.samples) h.samples at 0 (length h.samples - 1))
          else found newest
    ]
  ]
