-- ===== src/Resolver/Attribution.antt =====
-- The round trip of `RuleAttribution` of src/resolver.rs through the 16 bits that the cache keeps.
use pathdns.Base.{◌%◌, ◌<◌, ◌≡◌, refl, arith}
use pathdns.Base.BitSets.{below-bit_and, bit_or-below, add-bit_and, add-bit_and-ones}
use pathdns.Resolver.{
  RuleAttribution, by_rule, by_final, final_unknown, no_rule, to_wire, from_wire,
}

-- The places that 16 bits tell apart: the two highest marked ones are taken.
abbrev pub IsSmall : RuleAttribution → Type 0
IsSmall (by_rule idx) = idx < 32768
IsSmall (by_final idx) = idx < 32766
IsSmall final_unknown = Unit
IsSmall no_rule = Unit

-- For a rule index below 32768, a server index below 32766 and the two other attributions,
-- `from_wire` gives back what `to_wire` wrote.
pub from_wire-to_wire : (a : RuleAttribution) → IsSmall a → from_wire (to_wire a) ≡ a
unfolding from_wire to_wire
from_wire-to_wire (by_rule idx) h =
    let same : idx % 65536 ≡ idx = omega arith in
    rw (same, from_wire, below-bit_and 15 idx (omega arith)) (ground arith)
from_wire-to_wire (by_final idx) h =
    let same : idx % 65536 ≡ idx = omega arith in
    rw
      (
        same,
        bit_or-below 15 idx (omega arith),
        from_wire,
        add-bit_and 15 idx (omega arith),
        add-bit_and-ones 15 idx (omega arith),
      )
      (ground arith)
from_wire-to_wire final_unknown h = refl
from_wire-to_wire no_rule h = refl
