-- ===== src/Resolver/Filters.antt =====
-- The filters of a rule on its way through src/resolver.rs: `resolve_with_filters`.
use pathdns.Base.{ℕ, List, [], ◌∷◌, Bool, Option, none, some, Outcome, ok, ◌>>=◌, if◌then◌else◌}
use pathdns.Dns.Rr.{answer_ips, IpAddr}
use pathdns.Cache.Backend.{Store}
use pathdns.Verdict.{VerdictEntry, VerdictCache}
use pathdns.ResponseFilter.{accept, drop_reply, forward, first_match}
use pathdns.Router.{
  index, RouteTarget, rule_target, server_target, race_target, cidr_test, RoutingConfig, PoolRule,
}
use pathdns.Resolver.Exchange.{QueryContext, exchange_kind, Rules, do_upstream_exchange}

-- What a query comes to: a response, with the winner of a fallback and the server that a filter
-- forwarded it to, or silence. The name of the source, for the query log, is left out.
pub data StepOutcome : Type 0 where
  response : List ℕ → Option ℕ → Option ℕ → StepOutcome
  drop_query : StepOutcome

-- A call of `add_filter_ips`: the rule, the filter and the addresses.
pub record AddIps : Type 0 where
  pub rule_idx : ℕ
  pub filter_idx : ℕ
  pub ips : List IpAddr

-- The addresses of an accepted response for the sets, where there are any.
unfoldable pub accept_ips : Bool → List ℕ → ℕ → ℕ → ℕ → Outcome (List AddIps)
accept_ips has_ipset resp question_end rule_idx filter_idx =
    if has_ipset
    then (do
      ips ← answer_ips resp question_end
      elim ips [
        | [] ↦ ok []
        | ip ∷ rest ↦
            ok (record { rule_idx = rule_idx; filter_idx = filter_idx; ips = ip ∷ rest } ∷ [])
      ])
    else ok []

module _ (Pool : Type 0) (exchange : Pool → List ℕ → Outcome (List ℕ)) (Regex : Type 0)
    (is_match : Regex → List ℕ → Bool) (wildcard_domain_regex : List ℕ → Option Regex) where
  abbrev Db : Type 0
  Db = Rules Pool exchange Regex is_match wildcard_domain_regex

  -- The first filter of the rule that matches the response, and its action. A forwarded query
  -- goes to a server, so it leaves the verdicts alone.
  unfoldable pub apply_filters :
      QueryContext
      → RoutingConfig Pool
      → Option Db
      → Bool
      → PoolRule Pool
      → ℕ
      → List ℕ
      → Option ℕ
      → Outcome (List AddIps × StepOutcome)
  unfolding accept_ips index exchange_kind
  apply_filters ctx hot rule_sets has_ipset rule idx resp winner = do
    m ←
        first_match Regex is_match wildcard_domain_regex rule.filters rule_sets resp
          ctx.question_end
    elim m [
      | none ↦ ok ([], response resp winner none)
      | some (filter_idx, filter) ↦ elim filter.action [
        | drop_reply ↦ ok ([], drop_query)
        | forward target_idx ↦ (do
          s ← index hot.servers target_idx
          b ← exchange_kind Pool exchange ctx s.kind
          ok ([], response b none (some target_idx)))
        | accept ↦ (do
          adds ← accept_ips has_ipset resp ctx.question_end idx filter_idx
          ok (adds, response resp winner none))
      ]
    ]

  -- The part of `resolve_with_filters` behind the first exchange.
  unfoldable pub filtered :
      QueryContext
      → RoutingConfig Pool
      → Option Db
      → Bool
      → RouteTarget Pool
      → List ℕ
      → Option ℕ
      → Outcome (List AddIps × StepOutcome)
  unfolding apply_filters
  filtered ctx hot rule_sets has_ipset (rule_target rule idx) resp winner =
      apply_filters ctx hot rule_sets has_ipset rule idx resp winner
  filtered ctx hot rule_sets has_ipset (server_target s i) resp winner =
      ok ([], response resp winner none)
  filtered ctx hot rule_sets has_ipset (race_target p s) resp winner =
      ok ([], response resp winner none)
  filtered ctx hot rule_sets has_ipset (cidr_test p s) resp winner =
      ok ([], response resp winner none)

  module _ (S : Store (List ℕ) VerdictEntry) where
    open S use {State}

    unfoldable pub resolve_with_filters :
        VerdictCache State
        → QueryContext
        → RoutingConfig Pool
        → Option Db
        → Option Db
        → Bool
        → Bool
        → Bool
        → ℕ
        → ℕ
        → RouteTarget Pool
        → VerdictCache State × Outcome (List AddIps × StepOutcome)
    unfolding do_upstream_exchange filtered
    resolve_with_filters vc ctx hot hot_rule_sets rule_sets has_ipset first unchanged started now
          target =
        let (vc', m) =
          do_upstream_exchange Pool exchange Regex is_match wildcard_domain_regex S vc ctx hot
            hot_rule_sets first unchanged started now target in
        (vc', do r ← m; filtered ctx hot rule_sets has_ipset target r.0 r.1)
