-- ===== src/Tests/Routes.antt =====
-- Routing and the resolver on a few rules and servers. A regular expression stands here for the one
-- name that it matches, an upstream pool for the packet that it answers.
use pathdns.Base.{
  ℕ, ◌+◌, ◌*◌, ◌≡◌, List, [], ◌∷◌, map, Bool, true, false, Outcome, ok, reject, inl, inr, length,
  refl, arith,
}
use pathdns.Cache.{ResolvedCachePolicy, second}
use pathdns.Cache.Backend.{Store}
use pathdns.Cache.Lookup.{holding}
use pathdns.Cache.Holds.{Holds}
use pathdns.Cache.Serve.{IsSound}
use pathdns.Dns.Question.{eq_bytes}
use pathdns.Persist.Fields.{eq_bytes_sound, eq_bytes_refl}
use pathdns.Ruleset.{RuleSetDb, domain, is_empty}
use pathdns.Route.{
  RuleMatcher, domain_entry, tag_entry, Rule, build, build_loop, add_entry, compile_matchers,
  intern_all, intern,
}
use pathdns.Route.Linear.{linear_route}
use pathdns.Route.First.{run_routes, run_routes-linear_route, shown}
use pathdns.Domain.{get_name}
use pathdns.Router.{
  Server, upstream, RoutingConfig, dual, cidr_fallback, RouteTarget, classify_target,
  resolve_fallback, position,
}
use pathdns.Router.Fallback.{IsFallback, classify_target-IsFallback}
use pathdns.Resolver.{by_final, to_wire, from_wire}
use pathdns.Resolver.Attribution.{from_wire-to_wire}
use pathdns.Resolver.Exchange.{QueryContext, exchange_kind, race}
use pathdns.Resolver.Select.Targets.{run_selects, AreSelected, run_selects-AreSelected}
use pathdns.Resolver.Race.{IsRaced, race-IsRaced}
use pathdns.Resolver.Fast.{FastPathOutcome, try_fast_path_into}
use pathdns.Resolver.Fast.Path.{IsFast, try_fast_path_into-IsFast}
use pathdns.Tests.Cache.{entries_by_key, cache_off, State, stocked, stocked-Holds}
use pathdns.Tests.OneEntry.{one_entry}
use pathdns.Tests.Packets.{query, response, query-IsBytes}
use pathdns.Tests.Routing.{no_regex}

abbrev routes : Store (List ℕ) ℕ
routes = one_entry eq_bytes eq_bytes_sound eq_bytes_refl

abbrev policy : ResolvedCachePolicy
policy = record { skip = false; nodata_ttl = 0; min_ttl = 60; max_ttl = 200 }

abbrev rule_of : {K : Type 0} → K → ℕ → List RuleMatcher → Rule K
rule_of kind i matcher = record {
  index = i;
  server = b's' ∷ [];
  kind = kind;
  cache_policy = policy;
  filters = [];
  matcher = matcher;
  strip_ecs = false;
}

abbrev rule_at : ℕ → List RuleMatcher → Rule ℕ
rule_at i matcher = rule_of i i matcher

-- `+.b`, then the names with the tag `x` but not `y`, then all.
abbrev rules : List (Rule ℕ)
rules =
    rule_at 0 (domain_entry (b'+' ∷ b'.' ∷ b'b' ∷ []) ∷ [])
    ∷ rule_at 1 (tag_entry ((b'x' ∷ []) ∷ []) ((b'y' ∷ []) ∷ []) ∷ [])
    ∷ rule_at 2 []
    ∷ []

abbrev db : RuleSetDb (List ℕ) eq_bytes no_regex
db = record {
  tags = (b'x' ∷ [], domain (record { full = (b'c' ∷ [], tt) ∷ []; suffix = []; regex = [] })) ∷ [];
}

abbrev name_b : List ℕ
name_b = b'a' ∷ b'.' ∷ b'b' ∷ []

abbrev calls : List (List ℕ × Bool)
calls = (name_b, true) ∷ (b'c' ∷ [], false) ∷ (b'c' ∷ [], true) ∷ (name_b, true) ∷ []

two_tags : length (build (List ℕ) eq_bytes no_regex routes rules 100).tag_names ≡ 2
unfolding build build_loop add_entry compile_matchers intern_all intern get_name eq_bytes
two_tags = refl

run_routes-linear_route_example :
    run_routes ℕ
      (List ℕ)
      eq_bytes
      no_regex
      routes
      (build (List ℕ) eq_bytes no_regex routes rules 100)
      rules
      db
      calls
    ≡ ok (
        map
          (λ call.
            linear_route
              (List ℕ)
              eq_bytes
              no_regex
              (shown ℕ (List ℕ) eq_bytes no_regex db call.1)
              call.0
              rules)
          calls)
run_routes-linear_route_example =
    run_routes-linear_route ℕ (List ℕ) eq_bytes no_regex routes rules 100 db calls (omega arith)
      (omega (arith, two_tags))

abbrev server_at : ℕ → List ℕ → Server (List ℕ)
server_at i answer = record {
  name = (b'0' + i) ∷ [];
  index = i;
  kind = upstream answer;
  strip_ecs = false;
}

abbrev primary : Server (List ℕ)
primary = server_at 0 []

abbrev secondary : Server (List ℕ)
secondary = server_at 1 response

abbrev hot : RoutingConfig (List ℕ)
hot = record {
  fallback_target =
      dual (b'0' ∷ []) (b'1' ∷ []) (record { include = (b'x' ∷ []) ∷ []; exclude = [] });
  noip_as_primary_ip = false;
  servers = primary ∷ secondary ∷ [];
  rules = [];
  needs_ruleset = true;
  fallback = cidr_fallback 0 1;
}

hot_resolved : resolve_fallback (List ℕ) hot.fallback_target hot.rules hot.servers ≡ ok hot.fallback
unfolding resolve_fallback position is_empty eq_bytes
hot_resolved = refl

classify_target-IsFallback_example :
    (target : RouteTarget (List ℕ)) × (classify_target (List ℕ) hot 28 ≡ ok target)
    × IsFallback (List ℕ) hot.fallback_target hot.rules hot.servers 28 target
classify_target-IsFallback_example =
    classify_target-IsFallback (List ℕ) hot hot.fallback_target 28 hot_resolved

-- A pool without an answer fails.
abbrev exchange : List ℕ → List ℕ → Outcome (List ℕ)
exchange [] packet = reject
exchange (x ∷ xs) packet = ok (x ∷ xs)

abbrev ctx : QueryContext
ctx = record { packet = query; question_end = 19; qtype = 1; qname = b'a' ∷ [] }

primary_fails : exchange_kind (List ℕ) exchange ctx primary.kind ≡ reject
unfolding exchange_kind
primary_fails = refl

secondary_answers : exchange_kind (List ℕ) exchange ctx secondary.kind ≡ ok response
unfolding exchange_kind
secondary_answers = refl

race-IsRaced_example :
    IsRaced
      (exchange_kind (List ℕ) exchange ctx primary.kind)
      0
      (exchange_kind (List ℕ) exchange ctx secondary.kind)
      1
      (race (List ℕ) exchange ctx true primary secondary)
race-IsRaced_example =
    race-IsRaced (List ℕ) exchange ctx true primary secondary (inr primary_fails)
      (inl (response, secondary_answers))

from_wire-to_wire_example : from_wire (to_wire (by_final 7)) ≡ by_final 7
from_wire-to_wire_example = from_wire-to_wire (by_final 7) (omega arith)

try_fast_path_into-IsFast_example :
    (cache' : State) × (outcome : FastPathOutcome) × (try_fast_path_into entries_by_key
        (holding entries_by_key cache_off stocked)
        query
        true
        (15 * second)
      ≡ ok (holding entries_by_key cache_off cache', outcome))
    × Holds entries_by_key (λ k e. IsSound e) cache'
    × IsFast entries_by_key (λ k e. IsSound e) stocked query true (15 * second) outcome
try_fast_path_into-IsFast_example =
    try_fast_path_into-IsFast entries_by_key (λ k e. IsSound e) cache_off stocked query true
      (15 * second) (λ k e h. h) stocked-Holds query-IsBytes

-- A name with the tag `x` goes to the rule, any other to the fallback.
abbrev tagged : RoutingConfig (List ℕ)
tagged = record hot {
  rules = rule_of (upstream response) 0 (tag_entry ((b'x' ∷ []) ∷ []) [] ∷ []) ∷ [];
}

tagged_resolved :
    resolve_fallback (List ℕ) hot.fallback_target tagged.rules tagged.servers ≡ ok tagged.fallback
unfolding resolve_fallback position is_empty eq_bytes
tagged_resolved = refl

one_tag : length (build (List ℕ) eq_bytes no_regex routes tagged.rules 100).tag_names ≡ 1
unfolding build build_loop add_entry compile_matchers intern_all intern get_name eq_bytes
one_tag = refl

abbrev queries : List (List ℕ × ℕ × Bool)
queries = (b'c' ∷ [], 1, false) ∷ (b'c' ∷ [], 1, true) ∷ (name_b, 16, true) ∷ []

run_selects-AreSelected_example :
    (targets : List (RouteTarget (List ℕ))) × (run_selects
        (List ℕ)
        (List ℕ)
        eq_bytes
        no_regex
        routes
        (build (List ℕ) eq_bytes no_regex routes tagged.rules 100)
        tagged
        db
        queries
      ≡ ok targets)
    × AreSelected
        (List ℕ)
        (List ℕ)
        eq_bytes
        no_regex
        routes
        tagged
        hot.fallback_target
        db
        queries
        targets
run_selects-AreSelected_example =
    run_selects-AreSelected (List ℕ) (List ℕ) eq_bytes no_regex routes tagged hot.fallback_target
      100 db queries tagged_resolved (omega arith) (omega (arith, one_tag))
