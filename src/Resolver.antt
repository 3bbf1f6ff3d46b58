-- ===== src/Resolver.antt =====
-- The resolver, src/resolver.rs: where an answer came from (`RuleAttribution`). The modules below hold
-- the exchanges with the upstreams, the fast path, the choice of the target and the way of a query
-- that leads or follows. The counters and events of the query log are left out.
pub mod Exchange
pub mod Filters
pub mod Fast
pub mod Race
pub mod Attribution
pub mod Dedupe
pub mod Select
pub mod Context
pub mod Whole
pub mod Ends
pub mod Steps
pub mod Leader
pub mod Verdicts
use pathdns.Base.{ℕ, ◌%◌, ◌^◌, bit_and, bit_or, Bool, not, ◌==◌, if◌then◌else◌}

-- Which rule or server an answer came through.
pub data RuleAttribution : Type 0 where
  by_rule : ℕ → RuleAttribution
  by_final : ℕ → RuleAttribution
  final_unknown : RuleAttribution
  no_rule : RuleAttribution

unfoldable pub to_wire : RuleAttribution → ℕ
to_wire (by_rule idx) = idx % 2 ^ 16
to_wire (by_final idx) = bit_or 0x8000 (idx % 2 ^ 16)
to_wire final_unknown = 65534
to_wire no_rule = 65535

unfoldable pub from_wire : ℕ → RuleAttribution
from_wire rule_id =
    if rule_id == 65535
    then no_rule
    else if rule_id == 65534
    then final_unknown
    else if not (bit_and rule_id 0x8000 == 0)
    then by_final (bit_and rule_id 0x7fff)
    else by_rule rule_id
