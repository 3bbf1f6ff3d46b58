-- ===== src/Resolver/Verdicts.antt =====
-- The test of addresses over two queries for one name: `resolve_none_rule_with_cidr` of
-- src/resolver.rs with the verdict cache between them.
use pathdns.Base.{
  ℕ, ◌≡◌, ◌⊎◌, ◌∙◌, List, [], ◌∷◌, Bool, true, false, Option, none, some, Outcome, ok, ◌>>=◌,
  if◌then◌else◌, Bool-cases, inl, inr, refl,
}
use pathdns.Dns.Rr.{IpAddr, answer_ips}
use pathdns.Ruleset.{AnswerIpMatcher, matches_answer_ip}
use pathdns.Ruleset.AnswerIp.{Hits, matches_answer_ip_iff}
use pathdns.Cache.Backend.{Store}
use pathdns.Verdict.{VerdictEntry, VerdictCache, is_expired, get_verdict}
use pathdns.Verdict
use pathdns.Verdict.Deadline.{get_verdict-add}
use pathdns.Router.{Server, RoutingConfig}
use pathdns.Resolver.Exchange.{
  QueryContext, exchange_kind, Rules, test_of, or_primary, decide, test_primary,
  resolve_none_rule_with_cidr,
}

module _ (Pool : Type 0) (exchange : Pool → List ℕ → Outcome (List ℕ)) (Regex : Type 0)
    (is_match : Regex → List ℕ → Bool) (wild : List ℕ → Option Regex)
    (S : Store (List ℕ) VerdictEntry) where
  open S use {State, same}

  -- The response of one server alone, with its index.
  abbrev pub asked : QueryContext → Server Pool → Outcome (List ℕ × ℕ)
  asked ctx server = do b ← exchange_kind Pool exchange ctx server.kind; ok (b, server.index)

  -- The addresses are those of a name for the primary.
  abbrev pub IsPrimary :
      Rules Pool exchange Regex is_match wild → AnswerIpMatcher → List IpAddr → Type 0
  IsPrimary rs m ips =
      ((m.include ≡ []) ⊎ Hits Regex is_match wild rs m.include ips)
      × (Hits Regex is_match wild rs m.exclude ips → ⊥)

  first_call :
      (vc : VerdictCache State) (ctx : QueryContext) (hot : RoutingConfig Pool)
      (rule_sets : Option (Rules Pool exchange Regex is_match wild)) (primary_first : Bool)
      (started now : ℕ) (p s : Server Pool) (m : AnswerIpMatcher)
      (rs : Rules Pool exchange Regex is_match wild) (resp : List ℕ) (ip : IpAddr)
      (ips : List IpAddr)
      → test_of Pool exchange Regex is_match wild hot.fallback_target rule_sets ≡ some (m, rs)
      → get_verdict S vc ctx.qname started ≡ none
      → exchange_kind Pool exchange ctx p.kind ≡ ok resp
      → answer_ips resp ctx.question_end ≡ ok (ip ∷ ips)
      → resolve_none_rule_with_cidr Pool exchange Regex is_match wild S vc ctx hot rule_sets
          primary_first true started now p s
        ≡ (if matches_answer_ip Regex is_match wild rs m (ip ∷ ips)
            then (Verdict.add S vc ctx.qname true now, ok (resp, p.index))
            else (
              Verdict.add S vc ctx.qname false now,
              or_primary Pool exchange Regex is_match wild S
                  (exchange_kind Pool exchange ctx s.kind)
                  s.index
                  resp
                  p.index,
            ))
  unfolding resolve_none_rule_with_cidr test_primary decide
  first_call vc ctx hot rule_sets first started now p s m rs resp ip ips t v e a =
      rw (resolve_none_rule_with_cidr, t, v, e, test_primary, a) refl

  later_call :
      (vc : VerdictCache State) (ctx : QueryContext) (hot : RoutingConfig Pool)
      (rule_sets : Option (Rules Pool exchange Regex is_match wild))
      (primary_first unchanged : Bool) (started now : ℕ) (p s : Server Pool) (m : AnswerIpMatcher)
      (rs : Rules Pool exchange Regex is_match wild) (is_primary : Bool)
      → test_of Pool exchange Regex is_match wild hot.fallback_target rule_sets ≡ some (m, rs)
      → get_verdict S vc ctx.qname started ≡ some is_primary
      → resolve_none_rule_with_cidr Pool exchange Regex is_match wild S vc ctx hot rule_sets
          primary_first unchanged started now p s
        ≡ (vc, asked ctx (if is_primary then p else s))
  unfolding resolve_none_rule_with_cidr
  later_call vc ctx hot rule_sets first unchanged started now p s m rs true t v =
      rw (resolve_none_rule_with_cidr, t, v) refl
  later_call vc ctx hot rule_sets first unchanged started now p s m rs false t v =
      rw (resolve_none_rule_with_cidr, t, v) refl

  -- The later query for the name finds no verdict, or the chosen server alone is asked.
  abbrev pub Sticks :
      VerdictCache State
      → QueryContext
      → ℕ
      → ℕ
      → Server Pool
      → VerdictCache State × Outcome (List ℕ × ℕ)
      → Type 0
  Sticks vc ctx now later chosen second =
      (get_verdict S vc ctx.qname later ≡ none)
      ⊎ ((is_expired vc.ttl_secs now later ≡ false) × (second ≡ (vc, asked ctx chosen)))

  module _ (same_refl : (name : List ℕ) → same name name ≡ true) (hot : RoutingConfig Pool)
      (rule_sets : Option (Rules Pool exchange Regex is_match wild)) (m : AnswerIpMatcher)
      (rs : Rules Pool exchange Regex is_match wild)
      (t : test_of Pool exchange Regex is_match wild hot.fallback_target rule_sets ≡ some (m, rs))
      (p s : Server Pool) where
    -- One query, as `resolve_none_rule_with_cidr` resolves it.
    abbrev pub call :
        VerdictCache State
        → QueryContext
        → Bool
        → Bool
        → ℕ
        → ℕ
        → VerdictCache State × Outcome (List ℕ × ℕ)
    call vc ctx primary_first unchanged started now =
        resolve_none_rule_with_cidr Pool exchange Regex is_match wild S vc ctx hot rule_sets
          primary_first unchanged started now p s

    kept :
        (ttl_secs : ℕ) (cache : State) (ctx after : QueryContext) (primary_first unchanged : Bool)
        (now later end : ℕ) (is_primary : Bool)
        → after.qname ≡ ctx.qname
        → let vc =
            Verdict.add S
              (record { inner = some cache; ttl_secs = ttl_secs })
              ctx.qname
              is_primary
              now in
          Sticks vc after now later
            (if is_primary then p else s)
            (call vc after primary_first unchanged later end)
    unfolding Verdict.add
    kept ttl cache ctx after first unchanged now later end is_primary e =
        elim (get_verdict-add S ttl cache ctx.qname after.qname is_primary now later) [
          | inl gone ↦ inl gone
          | inr held ↦ elim (Bool-cases (is_expired ttl now later)) [
            | inl old ↦ inl (held ∙ (rw (e, same_refl ctx.qname, old) refl))
            | inr live ↦ inr (
              live,
              later_call _ after hot rule_sets first unchanged later end p s m rs is_primary t
                  (held ∙ (rw (e, same_refl ctx.qname, live) refl)),
            )
          ]
        ]

    -- Take two queries for one name under a configuration that tests addresses with a matcher
    -- that is not empty, a verdict cache that is on and answers no verdict to the first, whose
    -- map compares names by a reflexive test, a first query with no reload on its way, and a
    -- response of its primary in which `answer_ips` finds an address. If the matcher has no
    -- include tags or some of the addresses lies in the ranges of one, and none lies in those of
    -- an exclude tag, the first query is answered with the primary's response; else with the
    -- secondary's, or with the primary's if the secondary fails. The second query finds no
    -- verdict; or the lifetime of the first's verdict has not passed, only the server that was so
    -- chosen is asked, and the verdict cache stays as it is.
    pub resolve_none_rule_with_cidr-Sticks :
        (ttl_secs : ℕ) (cache : State) (ctx after : QueryContext)
        (primary_first primary_first' unchanged : Bool) (started now later end : ℕ) (resp : List ℕ)
        (ip : IpAddr) (ips : List IpAddr)
        → after.qname ≡ ctx.qname
        → get_verdict S (record { inner = some cache; ttl_secs = ttl_secs }) ctx.qname started
          ≡ none
        → exchange_kind Pool exchange ctx p.kind ≡ ok resp
        → answer_ips resp ctx.question_end ≡ ok (ip ∷ ips)
        → let first =
            call
              (record { inner = some cache; ttl_secs = ttl_secs })
              ctx
              primary_first
              true
              started
              now in
          let second = call first.0 after primary_first' unchanged later end in
          (IsPrimary rs m (ip ∷ ips)
            × (first.1 ≡ ok (resp, p.index))
            × Sticks first.0 after now later p second)
          ⊎ ((IsPrimary rs m (ip ∷ ips) → ⊥)
              × (first.1
                  ≡ or_primary Pool exchange Regex is_match wild S
                      (exchange_kind Pool exchange ctx s.kind)
                      s.index
                      resp
                      p.index)
              × Sticks first.0 after now later s second)
    resolve_none_rule_with_cidr-Sticks ttl cache ctx after a b unchanged started now later end resp
          ip ips same_name v e f =
        let vc : VerdictCache State = record { inner = some cache; ttl_secs = ttl } in
        let start = first_call vc ctx hot rule_sets a started now p s m rs resp ip ips t v e f in
        elim (Bool-cases (matches_answer_ip Regex is_match wild rs m (ip ∷ ips))) [
          | inl hit ↦ inl (
              rw (start, hit)
                (
                  (matches_answer_ip_iff Regex is_match wild rs m (ip ∷ ips)).0 hit,
                  refl,
                  kept ttl cache ctx after b unchanged now later end true same_name,
                ))
          | inr miss ↦ inr (
              rw (start, miss)
                (
                  λ h.
                      let hit = (matches_answer_ip_iff Regex is_match wild rs m (ip ∷ ips)).1 h in
                      cc,
                  refl,
                  kept ttl cache ctx after b unchanged now later end false same_name,
                ))
        ]
