-- ===== src/IpRange/Member.antt =====
-- `IpRangeSet::contains` of src/iprange.rs against the meaning of the set.
use pathdns.Base.{
  ℕ, suc, ◌-◌, ◌≤◌, ◌<◌, ◌≡◌, ◌∙◌, List, [], ◌∷◌, false, leb, All, All-mono, Bool-cases, inl, inr,
  leb→le, le→leb, lt→ltb, arith, refl,
}
use pathdns.IpRange.{Range, u128_max, partition_point, contains, build}
use pathdns.IpRange.Merge.{IsRange, IsMerged, covers, build-IsMerged, covers-build}

-- All ranges lie above the address.
covers_above : (rs : List Range) (v : ℕ) → All (λ s. v < s.0) rs → covers rs v ≡ false
covers_above [] v h = refl
covers_above (r ∷ rs) v h = ground (arith, covers_above rs v h.1)

contains-covers_next :
    (r s : Range) (ss : List Range) (v : ℕ)
    → r.0 ≤ v
    → s.0 ≤ v
    → contains (r ∷ s ∷ ss) v ≡ contains (s ∷ ss) v
unfolding contains
contains-covers_next r s ss v h k =
    let n : ℕ = partition_point (λ q. leb q.0 v) ss in
    let e : suc (suc n) - 1 ≡ suc n = omega arith in
    let f : suc n - 1 ≡ n = omega arith in
    rw (le→leb r.0 v h, le→leb s.0 v k)
      (rw (e, f, lt→ltb 0 (suc (suc n)) (omega arith), lt→ltb 0 (suc n) (omega arith)))

contains-covers : (rs : List Range) (v : ℕ) → IsMerged rs → contains rs v ≡ covers rs v
unfolding contains
contains-covers [] v h = refl
contains-covers (r ∷ []) v h = ground arith
contains-covers (r ∷ s ∷ ss) v h = elim (Bool-cases (leb s.0 v)) [
  | inl le ↦
      rw
        (
          contains-covers_next r s ss v (ground arith) (leb→le s.0 v le),
          contains-covers (s ∷ ss) v h.2,
        )
        (ground arith)
  | inr gt ↦
      ground
        (arith, covers_above (s ∷ ss) v (ground arith, All-mono _ _ ss (λ q k. ground arith) h.2.1))
]

-- For ranges that are each in order and within 128 bits, and a value of 128 bits, the binary
-- search in the built set holds exactly when some pushed range contains the value.
pub contains-build :
    (rs : List Range) (v : ℕ) → All IsRange rs → v ≤ u128_max → contains (build rs) v ≡ covers rs v
contains-build rs v h b = contains-covers (build rs) v (build-IsMerged rs h) ∙ covers-build rs v h b
