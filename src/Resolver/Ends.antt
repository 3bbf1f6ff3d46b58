-- ===== src/Resolver/Ends.antt =====
-- Every exchange of src/resolver.rs ends with a whole response or an error: `race`,
-- `resolve_none_rule_with_cidr` and `do_upstream_exchange`.
use pathdns.Base.{
  ℕ, List, [], ◌∷◌, Bool, true, false, Option, none, some, Outcome, ok, reject, panic, stuck, ◌>>=◌,
  let_else, Returns, ◌==◌, Bool-cases, inl, inr,
}
use pathdns.Dns.Header.{rcode}
use pathdns.Dns.Rr.{IpAddr}
use pathdns.Ruleset.{AnswerIpMatcher, matches_answer_ip}
use pathdns.ResponseFilter.First.{answer_ips_total}
use pathdns.Cache.Backend.{Store}
use pathdns.Verdict.{VerdictEntry, VerdictCache, get_verdict}
use pathdns.Router.{
  ServerKind, upstream, fixed, Server, RouteTarget, rule_target, server_target, race_target,
  cidr_test, RoutingConfig,
}
use pathdns.Resolver.Exchange.{
  QueryContext, pick_race_winner, race_from, exchange_kind, race, Rules, test_of, decide,
  test_primary, resolve_none_rule_with_cidr, do_upstream_exchange,
}
use pathdns.Resolver.Context.{IsQueryContext}
use pathdns.Resolver.Whole.{IsWholeReply, IsFixedSet, synth_fixed_answer-Returns}

-- The fixed answers of a server are well formed.
abbrev pub IsKind : {Pool : Type 0} → ServerKind Pool → Type 0
IsKind (upstream pool) = Unit {0}
IsKind (fixed set) = IsFixedSet set

abbrev pub IsTarget : {Pool : Type 0} → RouteTarget Pool → Type 0
IsTarget (rule_target rule i) = IsKind rule.kind
IsTarget (server_target s i) = IsKind s.kind
IsTarget (race_target p s) = IsKind p.kind × IsKind s.kind
IsTarget (cidr_test p s) = IsKind p.kind × IsKind s.kind

module _ (ctx : QueryContext) where
  -- The response of an exchange, with what goes along.
  abbrev pub Replies : {A : Type 0} → Outcome (List ℕ × A) → Type 0
  Replies m = Returns (λ r. IsWholeReply ctx r.0) m

  pick_race_winner-Replies :
      (a : Outcome (List ℕ)) (i : ℕ) (b : Outcome (List ℕ)) (j : ℕ)
      → Returns (IsWholeReply ctx) a
      → Returns (IsWholeReply ctx) b
      → Replies (pick_race_winner a i b j)
  unfolding pick_race_winner
  pick_race_winner-Replies a i (ok r) j h k = elim (Bool-cases (rcode r == 2)) [
    | inr e ↦ rw e k
    | inl e ↦ rw e (go a h)
  ]
    where
      go :
          (a : Outcome (List ℕ))
          → Returns (IsWholeReply ctx) a
          → Replies (let_else a (ok (r, j)) (λ sf. ok (sf, i)))
      go (ok sf) h = h
      go reject h = k
      go panic h = h
      go stuck h = h
  pick_race_winner-Replies (ok sf) i reject j h k = h
  pick_race_winner-Replies reject i reject j h k = tt
  pick_race_winner-Replies panic i reject j h k = h
  pick_race_winner-Replies stuck i reject j h k = h
  pick_race_winner-Replies a i panic j h k = k
  pick_race_winner-Replies a i stuck j h k = k

  race_from-Replies :
      (a : Outcome (List ℕ)) (i : ℕ) (b : Outcome (List ℕ)) (j : ℕ)
      → Returns (IsWholeReply ctx) a
      → Returns (IsWholeReply ctx) b
      → Replies (race_from a i b j)
  unfolding race_from
  race_from-Replies (ok r) i b j h k = elim (Bool-cases (rcode r == 2)) [
    | inr e ↦ rw e h
    | inl e ↦ rw e (pick_race_winner-Replies (ok r) i b j h k)
  ]
  race_from-Replies reject i b j h k = pick_race_winner-Replies reject i b j h k
  race_from-Replies panic i b j h k = h
  race_from-Replies stuck i b j h k = h

  tagged :
      {A : Type 0} (m : Outcome (List ℕ)) (x : A)
      → Returns (IsWholeReply ctx) m
      → Replies (do b ← m; ok (b, x))
  tagged (ok r) x h = h
  tagged reject x h = tt
  tagged panic x h = h
  tagged stuck x h = h

  with_winner-Replies :
      (m : Outcome (List ℕ × ℕ)) → Replies m → Replies (do r ← m; ok (r.0, some r.1))
  with_winner-Replies (ok r) h = h
  with_winner-Replies reject h = tt
  with_winner-Replies panic h = h
  with_winner-Replies stuck h = h

  or_first :
      (second : Outcome (List ℕ)) (j : ℕ) (resp : List ℕ) (i : ℕ)
      → Returns (IsWholeReply ctx) second
      → IsWholeReply ctx resp
      → Replies (let_else second (ok (resp, i)) (λ b. ok (b, j)))
  or_first (ok b) j resp i h k = h
  or_first reject j resp i h k = k
  or_first panic j resp i h k = h
  or_first stuck j resp i h k = h

  module _ (Pool : Type 0) (exchange : Pool → List ℕ → Outcome (List ℕ))
      (pools : (pool : Pool) → Returns (IsWholeReply ctx) (exchange pool ctx.packet))
      (c : IsQueryContext ctx) where
    pub exchange_kind-Returns :
        (kind : ServerKind Pool)
        → IsKind kind
        → Returns (IsWholeReply ctx) (exchange_kind Pool exchange ctx kind)
    unfolding exchange_kind
    exchange_kind-Returns (upstream pool) k = pools pool
    exchange_kind-Returns (fixed set) k = synth_fixed_answer-Returns ctx c set k

    race-Replies :
        (first : Bool) (p s : Server Pool)
        → IsKind p.kind
        → IsKind s.kind
        → Replies (race Pool exchange ctx first p s)
    unfolding race
    race-Replies true p s h k =
        race_from-Replies _ p.index _ s.index (exchange_kind-Returns p.kind h)
          (exchange_kind-Returns s.kind k)
    race-Replies false p s h k =
        race_from-Replies _ s.index _ p.index (exchange_kind-Returns s.kind k)
          (exchange_kind-Returns p.kind h)

    module _ (Regex : Type 0) (is_match : Regex → List ℕ → Bool) (wild : List ℕ → Option Regex)
        (S : Store (List ℕ) VerdictEntry) where
      open S use {State}

      abbrev Test : Type 0
      Test = AnswerIpMatcher × Rules Pool exchange Regex is_match wild

      decide-Replies :
          (vc : VerdictCache State) (qname : List ℕ) (test : Test) (noip unchanged : Bool) (now : ℕ)
          (resp : List ℕ) (ips : List IpAddr) (i : ℕ) (second : Outcome (List ℕ)) (j : ℕ)
          → IsWholeReply ctx resp
          → Returns (IsWholeReply ctx) second
          → Replies
              (decide Pool exchange Regex is_match wild S vc qname test noip unchanged now resp ips
                i second j).1
      unfolding decide
      decide-Replies vc qname (m, rs) true unchanged now resp [] i second j h k = h
      decide-Replies vc qname (m, rs) false unchanged now resp [] i second j h k =
          or_first second j resp i k h
      decide-Replies vc qname (m, rs) noip unchanged now resp (ip ∷ ips) i second j h k =
          elim (Bool-cases (matches_answer_ip Regex is_match wild rs m (ip ∷ ips))) [
            | inl e ↦ rw e h
            | inr e ↦ rw e (or_first second j resp i k h)
          ]

      test_primary-Replies :
          (vc : VerdictCache State) (test : Test) (noip unchanged : Bool) (now : ℕ)
          (first : Outcome (List ℕ)) (i : ℕ) (second : Outcome (List ℕ)) (j : ℕ)
          → Returns (IsWholeReply ctx) first
          → Returns (IsWholeReply ctx) second
          → Replies
              (test_primary Pool exchange Regex is_match wild S vc ctx test noip unchanged now first
                i second j).1
      unfolding test_primary
      test_primary-Replies vc test noip unchanged now (ok resp) i second j h k =
          let (ips, e) = answer_ips_total resp ctx.question_end h.0 in
          rw (test_primary, e)
            (decide-Replies vc ctx.qname test noip unchanged now resp ips i second j h k)
      test_primary-Replies vc test noip unchanged now reject i second j h k = tagged second j k
      test_primary-Replies vc test noip unchanged now panic i second j h k = h
      test_primary-Replies vc test noip unchanged now stuck i second j h k = h

      resolve_none_rule_with_cidr-Replies :
          (vc : VerdictCache State) (hot : RoutingConfig Pool)
          (rule_sets : Option (Rules Pool exchange Regex is_match wild)) (first unchanged : Bool)
          (started now : ℕ) (p s : Server Pool)
          → IsKind p.kind
          → IsKind s.kind
          → Replies
              (resolve_none_rule_with_cidr Pool exchange Regex is_match wild S vc ctx hot rule_sets
                first unchanged started now p s).1
      unfolding resolve_none_rule_with_cidr
      resolve_none_rule_with_cidr-Replies vc hot rule_sets first unchanged started now p s h k =
          by_test (test_of Pool exchange Regex is_match wild hot.fallback_target rule_sets)
            (get_verdict S vc ctx.qname started)
        where
          by_test :
              (test : Option Test) (verdict : Option Bool)
              → Replies
                  (elim test as (λ x. VerdictCache State × Outcome (List ℕ × ℕ)) [
                    | none ↦ (vc, race Pool exchange ctx first p s)
                    | some test ↦ elim verdict [
                      | some true ↦
                          (vc, do b ← exchange_kind Pool exchange ctx p.kind; ok (b, p.index))
                      | some false ↦
                          (vc, do b ← exchange_kind Pool exchange ctx s.kind; ok (b, s.index))
                      | none ↦
                          test_primary Pool exchange Regex is_match wild S vc ctx test
                            hot.noip_as_primary_ip unchanged now
                            (exchange_kind Pool exchange ctx p.kind)
                            p.index
                            (exchange_kind Pool exchange ctx s.kind)
                            s.index
                    ]
                  ]).1
          by_test none verdict = race-Replies first p s h k
          by_test (some test) (some true) = tagged _ p.index (exchange_kind-Returns p.kind h)
          by_test (some test) (some false) = tagged _ s.index (exchange_kind-Returns s.kind k)
          by_test (some test) none =
              test_primary-Replies vc test hot.noip_as_primary_ip unchanged now _ p.index _ s.index
                (exchange_kind-Returns p.kind h) (exchange_kind-Returns s.kind k)

      pub do_upstream_exchange-Replies :
          (vc : VerdictCache State) (hot : RoutingConfig Pool)
          (rule_sets : Option (Rules Pool exchange Regex is_match wild)) (first unchanged : Bool)
          (started now : ℕ) (target : RouteTarget Pool)
          → IsTarget target
          → Replies
              (do_upstream_exchange Pool exchange Regex is_match wild S vc ctx hot rule_sets first
                unchanged started now target).1
      unfolding do_upstream_exchange
      do_upstream_exchange-Replies vc hot rule_sets first unchanged started now (race_target p s)
            (h, k) =
          with_winner-Replies _ (race-Replies first p s h k)
      do_upstream_exchange-Replies vc hot rule_sets first unchanged started now (cidr_test p s)
            (h, k) =
          with_winner-Replies _ (
            resolve_none_rule_with_cidr-Replies vc hot rule_sets first unchanged started now p s h
              k)
      do_upstream_exchange-Replies vc hot rule_sets first unchanged started now (rule_target rule i)
            h =
          tagged _ none (exchange_kind-Returns rule.kind h)
      do_upstream_exchange-Replies vc hot rule_sets first unchanged started now (server_target s i)
            h =
          tagged _ none (exchange_kind-Returns s.kind h)
