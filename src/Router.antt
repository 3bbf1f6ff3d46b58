-- ===== src/Router.antt =====
-- The choice of the target of a query: src/router.rs, `resolve_fallback` and the types of servers of
-- src/server.rs, and the fixed answers and fallbacks of src/config/mod.rs. An upstream pool is an
-- argument. A name kept twice, as text and shared, stands once.
pub mod Fallback
use pathdns.Base.{
  ℕ, zero, suc, ◌-◌, List, [], ◌∷◌, ◌++◌, map, Bool, true, false, ◌&&◌, ◌||◌, Option, none, some,
  Outcome, ok, reject, panic, ◌>>=◌, ◌==◌, if◌then◌else◌, length, get_elem?,
}
use pathdns.Dns.Question.{eq_bytes}
use pathdns.Ruleset.{AnswerIpMatcher, is_empty}
use pathdns.Route.{Rule}

pub data FixedAnswer : Type 0 where
  fixed_a : List ℕ → ℕ → FixedAnswer
  fixed_aaaa : List ℕ → ℕ → FixedAnswer

pub record FixedAnswerSet : Type 0 where
  pub rcode : Option ℕ
  pub rcode_ttl : ℕ
  pub answers : List FixedAnswer

pub data ServerKind (Pool : Type 0) : Type 0 where
  upstream : Pool → ServerKind Pool
  fixed : FixedAnswerSet → ServerKind Pool

pub record Server (Pool : Type 0) : Type 0 where
  pub name : List ℕ
  pub index : ℕ
  pub kind : ServerKind Pool
  pub strip_ecs : Bool

-- "final".
abbrev pub final_text : List ℕ
final_text = 102 ∷ 105 ∷ 110 ∷ 97 ∷ 108 ∷ []

-- `final_name_arc`: "final->" and the name.
unfoldable pub final_name : {Pool : Type 0} → Server Pool → List ℕ
final_name s = final_text ++ (45 ∷ 62 ∷ s.name)

-- How `route.final` stands in the configuration, and how it is resolved to places.
pub data FallbackTarget : Type 0 where
  last_rule : FallbackTarget
  to_server : List ℕ → FallbackTarget
  dual : List ℕ → List ℕ → AnswerIpMatcher → FallbackTarget

pub data ResolvedFallback : Type 0 where
  rule_fallback : ℕ → ResolvedFallback
  server_fallback : ℕ → ResolvedFallback
  race_fallback : ℕ → ℕ → ResolvedFallback
  cidr_fallback : ℕ → ℕ → ResolvedFallback

-- `v[i]` of a list of servers or rules.
unfoldable pub index {ℓ} : {A : Type ℓ} → List A → ℕ → Outcome A
index xs i = elim (get_elem? xs i) [ none ↦ panic | some x ↦ ok x ]

module _ (Pool : Type 0) where
  abbrev pub PoolRule : Type 0
  PoolRule = Rule (ServerKind Pool)

  pub data RouteTarget : Type 0 where
    rule_target : PoolRule → ℕ → RouteTarget
    server_target : Server Pool → ℕ → RouteTarget
    race_target : Server Pool → Server Pool → RouteTarget
    cidr_test : Server Pool → Server Pool → RouteTarget

  -- `Rule::target`.
  abbrev pub target : PoolRule → RouteTarget
  target rule = rule_target rule rule.index

  -- `RoutingConfig`; of the configuration what stands under `fallback`.
  pub record RoutingConfig : Type 0 where
    pub fallback_target : FallbackTarget
    pub noip_as_primary_ip : Bool
    pub servers : List (Server Pool)
    pub rules : List PoolRule
    pub needs_ruleset : Bool
    pub fallback : ResolvedFallback

  -- `upstream_name_arc`.
  unfoldable pub upstream_name_arc : RouteTarget → List ℕ
  unfolding final_name
  upstream_name_arc (rule_target rule i) = rule.server
  upstream_name_arc (server_target s i) = final_name s
  upstream_name_arc (race_target primary secondary) = final_text
  upstream_name_arc (cidr_test primary secondary) = final_text

  unfoldable pub skip_cache : RouteTarget → Bool
  skip_cache (rule_target rule i) = rule.cache_policy.skip
  skip_cache (server_target s i) = false
  skip_cache (race_target primary secondary) = false
  skip_cache (cidr_test primary secondary) = false

  unfoldable pub resolved_kind : RouteTarget → Option (Server Pool) → Option (ServerKind Pool)
  resolved_kind (rule_target rule i) winner = some rule.kind
  resolved_kind (server_target s i) winner = some s.kind
  resolved_kind (race_target primary secondary) none = none
  resolved_kind (race_target primary secondary) (some w) = some w.kind
  resolved_kind (cidr_test primary secondary) none = none
  resolved_kind (cidr_test primary secondary) (some w) = some w.kind

  unfoldable pub strip_ecs : RouteTarget → Bool
  strip_ecs (rule_target rule i) = rule.strip_ecs
  strip_ecs (server_target s i) = s.strip_ecs
  strip_ecs (race_target primary secondary) = primary.strip_ecs && secondary.strip_ecs
  strip_ecs (cidr_test primary secondary) = primary.strip_ecs && secondary.strip_ecs

  -- `RouteTarget::Race` or `CidrTest` of the servers at two places.
  unfoldable pub pair_of :
      (Server Pool → Server Pool → RouteTarget) → List (Server Pool) → ℕ → ℕ → Outcome RouteTarget
  unfolding index
  pair_of make servers p s = do
    primary ← index servers p
    secondary ← index servers s
    ok (make primary secondary)

  unfoldable pub classify_at :
      ResolvedFallback → List PoolRule → List (Server Pool) → ℕ → Outcome RouteTarget
  unfolding index pair_of
  classify_at (rule_fallback idx) rules servers qtype = do
    rule ← index rules idx
    ok (rule_target rule idx)
  classify_at (server_fallback idx) rules servers qtype = do
    s ← index servers idx
    ok (server_target s idx)
  classify_at (race_fallback p s) rules servers qtype = pair_of race_target servers p s
  classify_at (cidr_fallback p s) rules servers qtype =
      if qtype == 1 || qtype == 28
      then pair_of cidr_test servers p s
      else pair_of race_target servers p s

  unfoldable pub classify_target : RoutingConfig → ℕ → Outcome RouteTarget
  unfolding classify_at
  classify_target hot qtype = classify_at hot.fallback hot.rules hot.servers qtype

  -- `servers.iter().position(|s| s.name == name)`, counted from a place on.
  unfoldable pub position : List ℕ → List (Server Pool) → ℕ → Outcome ℕ
  position name [] i = reject
  position name (s ∷ servers) i =
      if eq_bytes s.name name then ok i else position name servers (suc i)

  unfoldable pub resolve_fallback :
      FallbackTarget → List PoolRule → List (Server Pool) → Outcome ResolvedFallback
  unfolding position
  resolve_fallback last_rule rules servers =
      if length rules == 0 then reject else ok (rule_fallback (length rules - 1))
  resolve_fallback (to_server name) rules servers = do
    idx ← position name servers 0
    ok (server_fallback idx)
  resolve_fallback (dual primary secondary answer_ip) rules servers = do
    p ← position primary servers 0
    s ← position secondary servers 0
    ok (if is_empty answer_ip then race_fallback p s else cidr_fallback p s)
