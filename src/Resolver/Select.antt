-- ===== src/Resolver/Select.antt =====
-- The choice of the target in `resolve_query` of src/resolver.rs: the rule of the route index, and else
-- the fallback. The name of the question as text is an argument.
pub mod Targets
use pathdns.Base.{ℕ, List, Bool, Option, none, some, Outcome, ok, ◌>>=◌, if◌then◌else◌, get_elem?}
use pathdns.Cache.Backend.{Store}
use pathdns.Route.{Db, RouteIndex, route}
use pathdns.Router.{PoolRule, RouteTarget, target, RoutingConfig, classify_target}

module _ (Pool : Type 0) where
  unfoldable pub target_or_final :
      RoutingConfig Pool → ℕ → Option (PoolRule Pool) → Outcome (RouteTarget Pool)
  target_or_final hot qtype (some rule) = ok (target Pool rule)
  target_or_final hot qtype none = classify_target Pool hot qtype

  module _ (Regex : Type 0) (is_match : Regex → List ℕ → Bool)
      (wildcard_domain_regex : List ℕ → Option Regex) (S : Store (List ℕ) ℕ) where
    open S use {State}

    -- By `constant_target()`; the database is what the snapshot holds.
    unfoldable pub select_from :
        Option (Option ℕ)
        → RouteIndex Regex is_match wildcard_domain_regex State
        → RoutingConfig Pool
        → Option (Db Regex is_match wildcard_domain_regex)
        → List ℕ
        → ℕ
        → Outcome (RouteIndex Regex is_match wildcard_domain_regex State × RouteTarget Pool)
    unfolding target_or_final
    select_from (some none) routing_index hot rule_sets qname qtype = do
      t ← classify_target Pool hot qtype
      ok (routing_index, t)
    select_from (some (some idx)) routing_index hot rule_sets qname qtype = do
      t ← target_or_final hot qtype (get_elem? hot.rules idx)
      ok (routing_index, t)
    select_from none routing_index hot rule_sets qname qtype = do
      r ←
          route Regex is_match wildcard_domain_regex S routing_index hot.rules qname
            (if hot.needs_ruleset then rule_sets else none)
      t ← target_or_final hot qtype r.1
      ok (r.0, t)

    unfoldable pub select_target :
        RouteIndex Regex is_match wildcard_domain_regex State
        → RoutingConfig Pool
        → Option (Db Regex is_match wildcard_domain_regex)
        → List ℕ
        → ℕ
        → Outcome (RouteIndex Regex is_match wildcard_domain_regex State × RouteTarget Pool)
    unfolding select_from
    select_target routing_index hot rule_sets qname qtype =
        select_from routing_index.constant_route routing_index hot rule_sets qname qtype
