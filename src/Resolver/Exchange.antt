-- ===== src/Resolver/Exchange.antt =====
-- The exchanges of src/resolver.rs: fixed answers, the race of two servers, the test of the primary's
-- addresses, and the filters of a rule. What an upstream pool answers to a packet is an argument, `ok` or
-- `reject`, and so is which of the two futures of a race is done first.
use pathdns.Base.{
  ℕ, List, [], ◌∷◌, Bool, true, false, not, Option, none, some, Outcome, ok, reject, panic, stuck,
  ◌>>=◌, let_else, ◌==◌, if◌then◌else◌,
}
use pathdns.Dns.Header.{rcode}
use pathdns.Dns.Rr.{answer_ips, IpAddr}
use pathdns.Dns.Builder.{a_reply, aaaa_reply, empty_reply, rcode_reply}
use pathdns.Cache.Backend.{Store}
use pathdns.Ruleset.{AnswerIpMatcher, is_empty, matches_answer_ip}
use pathdns.Verdict.{VerdictEntry, VerdictCache, get_verdict}
use pathdns.Verdict
use pathdns.Route.{Db}
use pathdns.Router.{
  FixedAnswer, fixed_a, fixed_aaaa, FixedAnswerSet, ServerKind, upstream, fixed, Server,
  FallbackTarget, last_rule, to_server, dual, RouteTarget, rule_target, server_target, race_target,
  cidr_test, RoutingConfig,
}

-- `synth_fixed_answer`: the last address of each family counts.
unfoldable pub last_fixed :
    List FixedAnswer
    → Option (List ℕ × ℕ)
    → Option (List ℕ × ℕ)
    → Option (List ℕ × ℕ) × Option (List ℕ × ℕ)
last_fixed [] a aaaa = (a, aaaa)
last_fixed (fixed_a addr ttl ∷ answers) a aaaa = last_fixed answers (some (addr, ttl)) aaaa
last_fixed (fixed_aaaa addr ttl ∷ answers) a aaaa = last_fixed answers a (some (addr, ttl))

unfoldable pub fixed_record :
    List ℕ → ℕ → ℕ → Option (List ℕ × ℕ) × Option (List ℕ × ℕ) → Outcome (List ℕ)
fixed_record packet question_end qtype (a, aaaa) =
    if qtype == 1
    then (elim a [
      | some (addr, ttl) ↦ a_reply packet question_end addr ttl
      | none ↦ empty_reply packet question_end
    ])
    else if qtype == 28
    then (elim aaaa [
      | some (addr, ttl) ↦ aaaa_reply packet question_end addr ttl
      | none ↦ empty_reply packet question_end
    ])
    else empty_reply packet question_end

unfoldable pub synth_fixed_answer : List ℕ → ℕ → ℕ → FixedAnswerSet → Outcome (List ℕ)
unfolding last_fixed fixed_record
synth_fixed_answer packet question_end qtype set = elim set.answers [
  | _ ∷ _ ↦ fixed_record packet question_end qtype (last_fixed set.answers none none)
  | [] ↦ elim set.rcode [
    | none ↦ empty_reply packet question_end
    | some code ↦
        if code == 0 then empty_reply packet question_end else rcode_reply packet question_end code
  ]
]

-- The fields of `QueryContext` that an exchange reads; `qname` is the name of the question as text.
pub record QueryContext : Type 0 where
  pub packet : List ℕ
  pub question_end : ℕ
  pub qtype : ℕ
  pub qname : List ℕ

-- A panic in a future ends the program.
unfoldable pub pick_race_winner : Outcome (List ℕ) → ℕ → Outcome (List ℕ) → ℕ → Outcome (List ℕ × ℕ)
pick_race_winner first first_idx (ok r) second_idx =
    if not (rcode r == 2)
    then ok (r, second_idx)
    else let_else first (ok (r, second_idx)) (λ sf. ok (sf, first_idx))
pick_race_winner first first_idx reject second_idx =
    let_else first reject (λ sf. ok (sf, first_idx))
pick_race_winner first first_idx panic second_idx = panic
pick_race_winner first first_idx stuck second_idx = stuck

-- The branch of `select!` for the future that is done first.
unfoldable pub race_from : Outcome (List ℕ) → ℕ → Outcome (List ℕ) → ℕ → Outcome (List ℕ × ℕ)
unfolding pick_race_winner
race_from (ok r) first_idx second second_idx =
    if not (rcode r == 2)
    then ok (r, first_idx)
    else pick_race_winner (ok r) first_idx second second_idx
race_from reject first_idx second second_idx = pick_race_winner reject first_idx second second_idx
race_from panic first_idx second second_idx = panic
race_from stuck first_idx second second_idx = stuck

module _ (Pool : Type 0) (exchange : Pool → List ℕ → Outcome (List ℕ)) where
  unfoldable pub exchange_kind : QueryContext → ServerKind Pool → Outcome (List ℕ)
  unfolding synth_fixed_answer
  exchange_kind ctx (upstream pool) = exchange pool ctx.packet
  exchange_kind ctx (fixed set) = synth_fixed_answer ctx.packet ctx.question_end ctx.qtype set

  unfoldable pub race : QueryContext → Bool → Server Pool → Server Pool → Outcome (List ℕ × ℕ)
  unfolding race_from exchange_kind
  race ctx primary_first primary secondary =
      let p = exchange_kind ctx primary.kind in
      let s = exchange_kind ctx secondary.kind in
      if primary_first
      then race_from p primary.index s secondary.index
      else race_from s secondary.index p primary.index

  module _ (Regex : Type 0) (is_match : Regex → List ℕ → Bool)
      (wildcard_domain_regex : List ℕ → Option Regex) where
    abbrev pub Rules : Type 0
    Rules = Db Regex is_match wildcard_domain_regex

    -- The matcher of the fallback and the database, if both are there.
    unfoldable pub test_of : FallbackTarget → Option Rules → Option (AnswerIpMatcher × Rules)
    test_of (dual p s m) (some rs) = if is_empty m then none else some (m, rs)
    test_of (dual p s m) none = none
    test_of last_rule rule_sets = none
    test_of (to_server name) rule_sets = none

    module _ (S : Store (List ℕ) VerdictEntry) where
      open S use {State}

      -- `secondary_resp.map(..).or(Ok((resp, primary.index)))`.
      abbrev pub or_primary : Outcome (List ℕ) → ℕ → List ℕ → ℕ → Outcome (List ℕ × ℕ)
      or_primary second second_idx resp first_idx =
          let_else second (ok (resp, first_idx)) (λ b. ok (b, second_idx))

      -- The decision by the primary's answer: the verdict cache after it, and the answer.
      unfoldable pub decide :
          VerdictCache State
          → List ℕ
          → AnswerIpMatcher × Rules
          → Bool
          → Bool
          → ℕ
          → List ℕ
          → List IpAddr
          → ℕ
          → Outcome (List ℕ)
          → ℕ
          → VerdictCache State × Outcome (List ℕ × ℕ)
      decide vc qname (m, rs) noip_as_primary unchanged now resp [] p_idx second s_idx =
          if noip_as_primary
          then (vc, ok (resp, p_idx))
          else (vc, or_primary second s_idx resp p_idx)
      decide vc qname (m, rs) noip_as_primary unchanged now resp (ip ∷ ips) p_idx second s_idx =
          if matches_answer_ip Regex is_match wildcard_domain_regex rs m (ip ∷ ips)
          then (if unchanged then Verdict.add S vc qname true now else vc, ok (resp, p_idx))
          else (
            if unchanged then Verdict.add S vc qname false now else vc,
            or_primary second s_idx resp p_idx,
          )

      -- Both exchanges run; the branches by what the primary's comes to.
      unfoldable pub test_primary :
          VerdictCache State
          → QueryContext
          → AnswerIpMatcher × Rules
          → Bool
          → Bool
          → ℕ
          → Outcome (List ℕ)
          → ℕ
          → Outcome (List ℕ)
          → ℕ
          → VerdictCache State × Outcome (List ℕ × ℕ)
      unfolding decide
      test_primary vc ctx test noip unchanged now (ok resp) p_idx second s_idx =
          elim (answer_ips resp ctx.question_end) [
            | ok ips ↦ decide vc ctx.qname test noip unchanged now resp ips p_idx second s_idx
            | reject ↦ (vc, reject)
            | panic ↦ (vc, panic)
            | stuck ↦ (vc, stuck)
          ]
      test_primary vc ctx test noip unchanged now reject p_idx second s_idx =
          (vc, do b ← second; ok (b, s_idx))
      test_primary vc ctx test noip unchanged now panic p_idx second s_idx = (vc, panic)
      test_primary vc ctx test noip unchanged now stuck p_idx second s_idx = (vc, stuck)

      -- `unchanged`: no reload while the query is on its way, from `started` to `now`.
      unfoldable pub resolve_none_rule_with_cidr :
          VerdictCache State
          → QueryContext
          → RoutingConfig Pool
          → Option Rules
          → Bool
          → Bool
          → ℕ
          → ℕ
          → Server Pool
          → Server Pool
          → VerdictCache State × Outcome (List ℕ × ℕ)
      unfolding test_of race test_primary exchange_kind
      resolve_none_rule_with_cidr vc ctx hot rule_sets primary_first unchanged started now primary
            secondary =
          elim (test_of hot.fallback_target rule_sets) [
            | none ↦ (vc, race ctx primary_first primary secondary)
            | some test ↦ elim (get_verdict S vc ctx.qname started) [
              | some true ↦ (vc, do b ← exchange_kind ctx primary.kind; ok (b, primary.index))
              | some false ↦ (vc, do b ← exchange_kind ctx secondary.kind; ok (b, secondary.index))
              | none ↦
                  test_primary vc ctx test hot.noip_as_primary_ip unchanged now
                    (exchange_kind ctx primary.kind) primary.index
                    (exchange_kind ctx secondary.kind) secondary.index
            ]
          ]

      -- `result.map(|(b, idx)| (b, Some(idx)))`.
      abbrev pub with_winner : Outcome (List ℕ × ℕ) → Outcome (List ℕ × Option ℕ)
      with_winner m = do r ← m; ok (r.0, some r.1)

      -- `hot_rule_sets` is the database of the snapshot, which the test by addresses reads.
      unfoldable pub do_upstream_exchange :
          VerdictCache State
          → QueryContext
          → RoutingConfig Pool
          → Option Rules
          → Bool
          → Bool
          → ℕ
          → ℕ
          → RouteTarget Pool
          → VerdictCache State × Outcome (List ℕ × Option ℕ)
      unfolding resolve_none_rule_with_cidr
      do_upstream_exchange vc ctx hot hot_rule_sets first unchanged started now (race_target p s) =
          (vc, with_winner (race ctx first p s))
      do_upstream_exchange vc ctx hot hot_rule_sets first unchanged started now (cidr_test p s) =
          let (vc', m) =
            resolve_none_rule_with_cidr vc ctx hot hot_rule_sets first unchanged started now p s in
          (vc', with_winner m)
      do_upstream_exchange vc ctx hot hot_rule_sets first unchanged started now
            (rule_target rule i) =
          (vc, do b ← exchange_kind ctx rule.kind; ok (b, none))
      do_upstream_exchange vc ctx hot hot_rule_sets first unchanged started now
            (server_target s i) =
          (vc, do b ← exchange_kind ctx s.kind; ok (b, none))
