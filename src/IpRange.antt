-- ===== src/IpRange.antt =====
-- src/iprange.rs: the sorted, merged set of IP ranges. An address is its number in the unified
-- space of 128 bits, a range a pair of inclusive ends.
pub mod Merge
pub mod Member
use pathdns.Base.{
  ℕ, zero, suc, ◌+◌, ◌-◌, ◌^◌, min, List, [], ◌∷◌, ◌++◌, Bool, true, false, ◌&&◌, ltb, leb,
  if◌then◌else◌, length, get_or,
}

abbrev pub Range : Type 0
Range = ℕ × ℕ

abbrev pub u128_max : ℕ
u128_max = 2 ^ 128 - 1

abbrev pub saturating_add : ℕ → ℕ → ℕ
saturating_add a b = min (a + b) u128_max

-- `slice::partition_point`, on a slice that the test partitions: how many items pass before the
-- first that fails.
unfoldable pub partition_point : (Range → Bool) → List Range → ℕ
partition_point p [] = 0
partition_point p (r ∷ rs) = if p r then suc (partition_point p rs) else 0

-- `IpRangeSet::contains`; the index is behind the test of `idx`.
unfoldable pub contains : List Range → ℕ → Bool
unfolding partition_point
contains ranges v =
    let idx = partition_point (λ r. leb r.0 v) ranges in
    ltb 0 idx && leb v (get_or ranges (idx - 1) (0, 0)).1

-- `IpRangeSetBuilder::push_range`.
unfoldable pub push_range : List Range → ℕ → ℕ → List Range
push_range ranges from to = if leb from to then ranges ++ ((from, to) ∷ []) else ranges

-- `sort_unstable_by_key` on the lower end: one of the orders that it may leave equal keys in.
unfoldable pub insert_by_from : Range → List Range → List Range
insert_by_from r [] = r ∷ []
insert_by_from r (x ∷ xs) = if leb r.0 x.0 then r ∷ x ∷ xs else x ∷ insert_by_from r xs

unfoldable pub sort_by_from : List Range → List Range
unfolding insert_by_from
sort_by_from [] = []
sort_by_from (r ∷ rs) = insert_by_from r (sort_by_from rs)

-- The body of the loop of `build`: `merged.last_mut()` is extended, or the range pushed.
unfoldable pub merge_push : List Range → Range → List Range
merge_push [] r = r ∷ []
merge_push (last ∷ []) (from, to) =
    if leb from (saturating_add last.1 1)
    then (last.0, if ltb last.1 to then to else last.1) ∷ []
    else last ∷ (from, to) ∷ []
merge_push (x ∷ y ∷ merged) r = x ∷ merge_push (y ∷ merged) r

unfoldable pub merge_all : List Range → List Range → List Range
unfolding merge_push
merge_all merged [] = merged
merge_all merged (r ∷ rs) = merge_all (merge_push merged r) rs

-- `IpRangeSetBuilder::build`.
unfoldable pub build : List Range → List Range
unfolding sort_by_from merge_all
build ranges = merge_all [] (sort_by_from ranges)
