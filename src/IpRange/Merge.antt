-- ===== src/IpRange/Merge.antt =====
-- The invariant of the merged list, and that `build` of src/iprange.rs establishes it.
use pathdns.Base.{
  ℕ, ◌+◌, ◌≤◌, ◌<◌, ◌≡◌, ◌∙◌, List, [], ◌∷◌, Bool, false, ◌&&◌, ◌||◌, leb, All, All-mono,
  Bool-cases, inl, inr, arith, refl,
}
use pathdns.IpRange.{Range, u128_max, insert_by_from, sort_by_from, merge_push, merge_all, build}

-- A range of addresses: its ends in order, in 128 bits.
abbrev pub IsRange : Range → Type 0
IsRange r = (r.0 ≤ r.1) × (r.1 ≤ u128_max)

-- Disjoint ranges in order, with a gap of an address at least between any two.
abbrev pub IsMerged : List Range → Type 0
IsMerged [] = Unit
IsMerged (r ∷ rs) = IsRange r × All (λ s. r.1 + 1 < s.0) rs × IsMerged rs

-- In order of the lower ends.
abbrev pub IsSorted : List Range → Type 0
IsSorted [] = Unit
IsSorted (r ∷ rs) = All (λ s. r.0 ≤ s.0) rs × IsSorted rs

-- Whether some range of the list holds the address: the meaning of a list of ranges.
abbrev pub in_range : ℕ → Range → Bool
in_range v r = leb r.0 v && leb v r.1

abbrev pub covers : List Range → ℕ → Bool
covers [] v = false
covers (r ∷ rs) v = in_range v r || covers rs v

All-insert :
    (P : Range → Type 0) (r : Range) (xs : List Range)
    → P r
    → All P xs
    → All P (insert_by_from r xs)
unfolding insert_by_from
All-insert P r [] h k = (h, tt)
All-insert P r (x ∷ xs) h k = ground (arith, All-insert P r xs h k.1)

insert-IsSorted : (r : Range) (xs : List Range) → IsSorted xs → IsSorted (insert_by_from r xs)
unfolding insert_by_from
insert-IsSorted r [] h = (tt, tt)
insert-IsSorted r (x ∷ xs) h = elim (Bool-cases (leb r.0 x.0)) [
  | inl le ↦ rw le ((ground arith, All-mono _ _ xs (λ s k. ground arith) h.0), h)
  | inr gt ↦ rw gt (All-insert (λ s. x.0 ≤ s.0) r xs (ground arith) h.0, insert-IsSorted r xs h.1)
]

covers-insert :
    (r : Range) (xs : List Range) (v : ℕ)
    → covers (insert_by_from r xs) v ≡ in_range v r || covers xs v
unfolding insert_by_from
covers-insert r [] v = refl
covers-insert r (x ∷ xs) v = ground (arith, covers-insert r xs v)

sort-IsSorted : (rs : List Range) → IsSorted (sort_by_from rs)
unfolding sort_by_from
sort-IsSorted [] = tt
sort-IsSorted (r ∷ rs) = insert-IsSorted r (sort_by_from rs) (sort-IsSorted rs)

All-sort : (P : Range → Type 0) (rs : List Range) → All P rs → All P (sort_by_from rs)
unfolding sort_by_from
All-sort P [] h = tt
All-sort P (r ∷ rs) h = All-insert P r (sort_by_from rs) h.0 (All-sort P rs h.1)

covers-sort : (rs : List Range) (v : ℕ) → covers (sort_by_from rs) v ≡ covers rs v
unfolding sort_by_from
covers-sort [] v = refl
covers-sort (r ∷ rs) v = covers-insert r (sort_by_from rs) v ∙ rw (covers-sort rs v)

-- Merging invents no lower end.
All-merge_push :
    (P : ℕ → Type 0) (m : List Range) (r : Range)
    → All (λ s. P s.0) m
    → P r.0
    → All (λ s. P s.0) (merge_push m r)
unfolding merge_push
All-merge_push P [] r h k = (k, tt)
All-merge_push P (x ∷ []) (from, to) h k = ground arith
All-merge_push P (x ∷ y ∷ m) r h k = (h.0, All-merge_push P (y ∷ m) r h.1 k)

-- One range more, with a lower end that no range of the list exceeds.
merge_push-IsMerged :
    (m : List Range) (r : Range)
    → IsMerged m
    → IsRange r
    → All (λ s. s.0 ≤ r.0) m
    → IsMerged (merge_push m r)
unfolding merge_push
merge_push-IsMerged [] r h k l = (k, tt, tt)
merge_push-IsMerged (x ∷ []) (from, to) h k l = ground arith
merge_push-IsMerged (x ∷ y ∷ m) r h k l = (
  h.0,
  All-merge_push (λ n. x.1 + 1 < n) (y ∷ m) r h.1 (omega arith),
  merge_push-IsMerged (y ∷ m) r h.2 k l.1,
)

covers-merge_push :
    (m : List Range) (r : Range) (v : ℕ)
    → IsMerged m
    → IsRange r
    → All (λ s. s.0 ≤ r.0) m
    → v ≤ u128_max
    → covers (merge_push m r) v ≡ covers m v || in_range v r
unfolding merge_push
covers-merge_push [] r v h k l b = ground arith
covers-merge_push (x ∷ []) (from, to) v h k l b = ground arith
covers-merge_push (x ∷ y ∷ m) r v h k l b =
    ground (arith, covers-merge_push (y ∷ m) r v h.2 k l.1 b)

merge_all-IsMerged :
    (m rs : List Range)
    → IsMerged m
    → All IsRange rs
    → IsSorted rs
    → All (λ r. All (λ s. s.0 ≤ r.0) m) rs
    → IsMerged (merge_all m rs)
      × ((v : ℕ) → v ≤ u128_max → covers (merge_all m rs) v ≡ covers m v || covers rs v)
unfolding merge_all
merge_all-IsMerged m [] h k s l = (h, λ v b. ground arith)
merge_all-IsMerged m (r ∷ rs) h k s l =
    let (merged, same) =
      merge_all-IsMerged (merge_push m r) rs (merge_push-IsMerged m r h k.0 l.0) k.1 s.1
        (later rs s.0 l.1) in
    (merged, λ v b. ground (arith, same v b, covers-merge_push m r v h k.0 l.0 b))
  where
    later :
        (rs : List Range)
        → All (λ s. r.0 ≤ s.0) rs
        → All (λ q. All (λ s. s.0 ≤ q.0) m) rs
        → All (λ q. All (λ s. s.0 ≤ q.0) (merge_push m r)) rs
    later [] a c = tt
    later (q ∷ qs) a c = (All-merge_push (λ n. n ≤ q.0) m r c.0 a.0, later qs a.1 c.1)

All-empty : (rs : List Range) → All (λ r. All {A = Range} (λ s. s.0 ≤ r.0) []) rs
All-empty [] = tt
All-empty (r ∷ rs) = (tt, All-empty rs)

-- For ranges that are each in order and within 128 bits, the ranges of the built set are in order
-- and disjoint, with a gap between any two.
pub build-IsMerged : (rs : List Range) → All IsRange rs → IsMerged (build rs)
unfolding build
build-IsMerged rs h =
    (merge_all-IsMerged [] (sort_by_from rs) tt (All-sort IsRange rs h) (sort-IsSorted rs)
      (All-empty (sort_by_from rs))).0

-- A built set holds the addresses of the ranges that went in, and no other.
pub covers-build :
    (rs : List Range) (v : ℕ) → All IsRange rs → v ≤ u128_max → covers (build rs) v ≡ covers rs v
unfolding build
covers-build rs v h b =
    (merge_all-IsMerged [] (sort_by_from rs) tt (All-sort IsRange rs h) (sort-IsSorted rs)
        (All-empty (sort_by_from rs))).1
      v b
    ∙ covers-sort rs v
