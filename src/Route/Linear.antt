-- ===== src/Route/Linear.antt =====
-- The reading of rules that the comments of src/route_index.rs, src/domain.rs and src/config/mod.rs
-- give, without an index: the rules are tried from the first on, a rule with no matchers takes every
-- name, and any other takes a name that one of its matchers takes.
use pathdns.Base.{
  ℕ, List, [], ◌∷◌, Bool, false, not, ◌&&◌, ◌||◌, Option, none, some, ok, ◌==◌, if◌then◌else◌,
}
use pathdns.Dns.Question.{eq_bytes}
use pathdns.Domain.{
  dot, PatternKind, suffix_pattern, full_pattern, wildcard, invalid, classify_pattern,
}
use pathdns.Ruleset
use pathdns.Ruleset.{any}
use pathdns.Route.{RuleMatcher, domain_entry, tag_entry, Rule, Db, is_empty_list}

-- The right-hand parts of a name that stand behind a dot.
unfoldable pub after_dots : List ℕ → List (List ℕ)
after_dots [] = []
after_dots (c ∷ cs) = if c == dot then cs ∷ after_dots cs else after_dots cs

module _ (Regex : Type 0) (is_match : Regex → List ℕ → Bool)
    (wildcard_domain_regex : List ℕ → Option Regex) where
  -- `+.host` takes the host and the names below it, a bare host itself only.
  unfoldable pub pattern_hits : PatternKind Regex is_match wildcard_domain_regex → List ℕ → Bool
  unfolding after_dots
  pattern_hits (suffix_pattern n) qname = any (λ s. eq_bytes n s) (qname ∷ after_dots qname)
  pattern_hits (full_pattern n) qname = eq_bytes n qname
  pattern_hits (wildcard re) qname = is_match re qname
  pattern_hits invalid qname = false

  unfoldable pub tag_hits : Db Regex is_match wildcard_domain_regex → List ℕ → List ℕ → Bool
  tag_hits rs qname tag = elim (Ruleset.matches Regex is_match wildcard_domain_regex rs tag qname) [
    | ok b ↦ b
    | _ ↦ false
  ]

  -- A tag entry takes a name that some included tag has, where there are any, and no excluded one;
  -- without the database it takes none.
  unfoldable pub matcher_hits :
      Option (Db Regex is_match wildcard_domain_regex) → List ℕ → RuleMatcher → Bool
  unfolding pattern_hits tag_hits
  matcher_hits rule_sets qname (domain_entry pattern) =
      pattern_hits (classify_pattern Regex is_match wildcard_domain_regex pattern) qname
  matcher_hits none qname (tag_entry include exclude) = false
  matcher_hits (some rs) qname (tag_entry include exclude) =
      (is_empty_list include || any (tag_hits rs qname) include)
      && not (any (tag_hits rs qname) exclude)

  unfoldable pub rule_hits :
      Option (Db Regex is_match wildcard_domain_regex) → List ℕ → List RuleMatcher → Bool
  unfolding matcher_hits
  rule_hits rule_sets qname matcher =
      is_empty_list matcher || any (matcher_hits rule_sets qname) matcher

  unfoldable pub linear_route :
      {K : Type 0}
      → Option (Db Regex is_match wildcard_domain_regex)
      → List ℕ
      → List (Rule K)
      → Option (Rule K)
  unfolding rule_hits
  linear_route rule_sets qname [] = none
  linear_route rule_sets qname (rule ∷ rules) =
      if rule_hits rule_sets qname rule.matcher
      then some rule
      else linear_route rule_sets qname rules
