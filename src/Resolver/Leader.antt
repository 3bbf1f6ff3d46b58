-- ===== src/Resolver/Leader.antt =====
-- The leader of a query in `exchange_with_dedupe` of src/resolver.rs, from its key to its end, with
-- the exchange and the filters. Other clients may register while the exchange is on its way: `table`
-- is the table at its end. `routing_unchanged` and `unchanged` say that no reload came before the
-- verdict and before the addition to the cache; the verdicts are read at
-- `started` and added to at `now_unix`, in seconds, the cache at `now`, in nanoseconds.
pub mod Answers
use pathdns.Base.{ℕ, List, [], Bool, Option, Outcome, ok, ◌>>=◌}
use pathdns.Cache.Backend.{Store}
use pathdns.Cache.{Entry, DnsCache}
use pathdns.Verdict.{VerdictEntry, VerdictCache}
use pathdns.Singleflight.{InflightTable}
use pathdns.Router.{RouteTarget, RoutingConfig}
use pathdns.Resolver.Exchange.{QueryContext, Rules}
use pathdns.Resolver.Filters.{AddIps, StepOutcome, resolve_with_filters}
use pathdns.Resolver.Dedupe.{QueryInfo, dedupe_key, flight_key, lead}

-- What the filters gave to the sets.
unfoldable pub added_ips : Outcome (List AddIps × StepOutcome) → List AddIps
added_ips (ok (adds, step)) = adds
added_ips _ = []

unfoldable pub step_of : Outcome (List AddIps × StepOutcome) → Outcome StepOutcome
step_of m = do r ← m; ok r.1

module _ (Pool : Type 0) (exchange : Pool → List ℕ → Outcome (List ℕ)) (Regex : Type 0)
    (is_match : Regex → List ℕ → Bool) (wildcard_domain_regex : List ℕ → Option Regex)
    (S : Store ℕ Entry) (V : Store (List ℕ) VerdictEntry) where
  -- What the leader leaves: both caches, the table, the addresses for the sets and its answer.
  pub record Led : Type 0 where
    pub cache : DnsCache S.State
    pub verdicts : VerdictCache V.State
    pub table : InflightTable
    pub adds : List AddIps
    pub answer : Outcome (Option (List ℕ))

  unfoldable pub lead_query :
      DnsCache S.State
      → VerdictCache V.State
      → InflightTable
      → QueryContext
      → QueryInfo
      → RoutingConfig Pool
      → Option (Rules Pool exchange Regex is_match wildcard_domain_regex)
      → Option (Rules Pool exchange Regex is_match wildcard_domain_regex)
      → Bool
      → Bool
      → ℕ
      → Bool
      → Bool
      → ℕ
      → ℕ
      → ℕ
      → RouteTarget Pool
      → Outcome Led
  unfolding step_of added_ips
  lead_query cache verdicts table ctx info hot hot_rule_sets rule_sets has_ipset primary_first
        routing_gen routing_unchanged unchanged started now_unix now target =
      do
        ck ← dedupe_key Pool ctx info target
        let (verdicts', result) =
            resolve_with_filters Pool exchange Regex is_match wildcard_domain_regex V verdicts ctx
              hot hot_rule_sets rule_sets has_ipset primary_first routing_unchanged started now_unix
              target
        (cache', table', answer) ←
            lead Pool S cache table ctx info target hot.servers ck (flight_key ck routing_gen)
              unchanged now (step_of result)
        ok (record {
          cache = cache';
          verdicts = verdicts';
          table = table';
          adds = added_ips result;
          answer = answer;
        })
