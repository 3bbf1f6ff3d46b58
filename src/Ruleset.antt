-- ===== src/Ruleset.antt =====
-- The rule-set database once it is loaded, src/ruleset.rs: `matches`, `matches_ip`,
-- `matches_any_ip`, `matches_answer_ip` and `apply_domain_pattern`; with the addresses as src/iprange.rs
-- normalises them. A tag stands in the map with a domain matcher or a set of ranges.
pub mod AnswerIp
use pathdns.Base.{
  ℕ, ◌+◌, ◌*◌, ◌^◌, List, [], ◌∷◌, Bool, true, false, not, ◌&&◌, ◌||◌, Option, none, some, Outcome,
  ok, ◌>>=◌, if◌then◌else◌,
}
use pathdns.Base.Bytes.{be_number}
use pathdns.Dns.Rr.{IpAddr, v4, v6}
use pathdns.IpRange
use pathdns.IpRange.{Range}
use pathdns.Domain.{
  DomainMatcher, PatternKind, suffix_pattern, full_pattern, wildcard, invalid, classify_pattern,
  insert_full, insert_suffix, insert_regex, get_name, lookup_specific, lookup_fuzzy,
}

-- `to_u128`: an IPv4 address in its mapped form.
unfoldable pub to_u128 : IpAddr → ℕ
unfolding be_number
to_u128 (v4 octets) = 0xffff * 2 ^ 32 + be_number octets
to_u128 (v6 octets) = be_number octets

-- `AnswerIpMatcher` of src/config/mod.rs.
pub record AnswerIpMatcher : Type 0 where
  pub include : List (List ℕ)
  pub exclude : List (List ℕ)

unfoldable pub is_empty : AnswerIpMatcher → Bool
is_empty m = elim m.include [ [] ↦ elim m.exclude [ [] ↦ true | _ ∷ _ ↦ false ] | _ ∷ _ ↦ false ]

abbrev pub is_some {ℓ} : {A : Type ℓ} → Option A → Bool
is_some none = false
is_some (some a) = true

-- `iter().any`.
unfoldable pub any {ℓ} : {A : Type ℓ} → (A → Bool) → List A → Bool
any p [] = false
any p (x ∷ xs) = p x || any p xs

module _ (Regex : Type 0) (is_match : Regex → List ℕ → Bool)
    (wildcard_domain_regex : List ℕ → Option Regex) where
  abbrev pub TagMatchers : Type 0
  TagMatchers = DomainMatcher Regex is_match wildcard_domain_regex (Unit {0})

  pub data TagEntry : Type 0 where
    domain : TagMatchers → TagEntry
    ip_cidr : List Range → TagEntry

  pub record RuleSetDb : Type 0 where
    pub tags : List (List ℕ × TagEntry)

  unfoldable pub apply_domain_pattern : TagMatchers → List ℕ → TagMatchers × Bool
  apply_domain_pattern matchers pattern =
      elim (classify_pattern Regex is_match wildcard_domain_regex pattern) [
        | suffix_pattern n ↦
            (insert_suffix Regex is_match wildcard_domain_regex matchers n tt, true)
        | full_pattern n ↦ (insert_full Regex is_match wildcard_domain_regex matchers n tt, true)
        | wildcard re ↦ (insert_regex Regex is_match wildcard_domain_regex matchers re tt, true)
        | invalid ↦ (matchers, false)
      ]

  unfoldable pub matches : RuleSetDb → List ℕ → List ℕ → Outcome Bool
  matches self tag name = elim (get_name self.tags tag) [
    | none ↦ ok false
    | some (ip_cidr set) ↦ ok false
    | some (domain m) ↦ do
      specific ← lookup_specific Regex is_match wildcard_domain_regex m name
      ok (
          is_some specific
          || is_some (lookup_fuzzy Regex is_match wildcard_domain_regex m.regex name))
  ]

  unfoldable pub matches_ip : RuleSetDb → List ℕ → IpAddr → Bool
  unfolding to_u128
  matches_ip self tag ip = elim (get_name self.tags tag) [
    | none ↦ false
    | some (domain m) ↦ false
    | some (ip_cidr set) ↦ IpRange.contains set (to_u128 ip)
  ]

  unfoldable pub matches_any_ip : RuleSetDb → List ℕ → List IpAddr → Bool
  unfolding any
  matches_any_ip self tag ips = any (λ ip. matches_ip self tag ip) ips

  -- `m.include.is_empty() || m.include.iter().any(..)`.
  unfoldable pub include_ok : RuleSetDb → List (List ℕ) → List IpAddr → Bool
  unfolding any
  include_ok self [] ips = true
  include_ok self (t ∷ ts) ips = any (λ tag. matches_any_ip self tag ips) (t ∷ ts)

  unfoldable pub matches_answer_ip : RuleSetDb → AnswerIpMatcher → List IpAddr → Bool
  matches_answer_ip self m ips =
      include_ok self m.include ips && not (any (λ tag. matches_any_ip self tag ips) m.exclude)
