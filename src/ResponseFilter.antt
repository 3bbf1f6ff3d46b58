-- ===== src/ResponseFilter.antt =====
-- The filters of a rule on a resolved response, src/response_filter.rs. A set of numbers is a list.
pub mod First
use pathdns.Base.{
  ℕ, suc, List, [], ◌∷◌, Bool, true, false, not, ◌&&◌, Option, none, some, Outcome, ok, ◌>>=◌,
  let_else, if◌then◌else◌,
}
use pathdns.Dns.Header.{rcode}
use pathdns.Dns.Rr
use pathdns.Dns.Rr.{answer_ips, answer_rr_types, question_qclass}
use pathdns.Ruleset.{AnswerIpMatcher, RuleSetDb, is_empty, any, matches_answer_ip}

pub data FilterAction : Type 0 where
  accept : FilterAction
  drop_reply : FilterAction
  forward : ℕ → FilterAction

pub record ResponseFilter : Type 0 where
  pub answer_ip : AnswerIpMatcher
  pub response_type : List ℕ
  pub response_rcode : List ℕ
  pub response_qclass : List ℕ
  pub action : FilterAction

abbrev pub is_nil : List ℕ → Bool
is_nil [] = true
is_nil (_ ∷ _) = false

module _ (Regex : Type 0) (is_match : Regex → List ℕ → Bool)
    (wildcard_domain_regex : List ℕ → Option Regex) where
  abbrev Db : Type 0
  Db = RuleSetDb Regex is_match wildcard_domain_regex

  -- `rule_sets.is_some_and(..)`.
  unfoldable pub ip_hit : Option Db → AnswerIpMatcher → List Rr.IpAddr → Bool
  ip_hit none m ips = false
  ip_hit (some rs) m ips = matches_answer_ip Regex is_match wildcard_domain_regex rs m ips

  -- The four tests of `matches`, each passed where the filter does not constrain it.
  unfoldable pub ip_test : ResponseFilter → Option Db → List ℕ → ℕ → Outcome Bool
  ip_test self rule_sets resp question_end =
      if is_empty self.answer_ip
      then ok true
      else (do ips ← answer_ips resp question_end; ok (ip_hit rule_sets self.answer_ip ips))

  unfoldable pub type_test : ResponseFilter → List ℕ → ℕ → Outcome Bool
  type_test self resp question_end = if is_nil self.response_type then ok true else (do
    types ← answer_rr_types resp question_end
    ok (any (λ t. Rr.contains self.response_type t) types))

  unfoldable pub rcode_test : ResponseFilter → List ℕ → Bool
  rcode_test self resp =
      if is_nil self.response_rcode then true else Rr.contains self.response_rcode (rcode resp)

  unfoldable pub qclass_test : ResponseFilter → List ℕ → ℕ → Outcome Bool
  qclass_test self resp question_end =
      if is_nil self.response_qclass
      then ok true
      else let_else (question_qclass resp question_end) (ok (Rr.contains self.response_qclass 0))
          (λ qc. ok (Rr.contains self.response_qclass qc))

  unfoldable pub matches : ResponseFilter → Option Db → List ℕ → ℕ → Outcome Bool
  matches self rule_sets resp question_end = do
    ip ← ip_test self rule_sets resp question_end
    if not ip then ok false else (do
      types ← type_test self resp question_end
      if not types
          then ok false
          else if not (rcode_test self resp)
          then ok false
          else qclass_test self resp question_end)

  -- `enumerate().find(..)`, from the index `i` on.
  unfoldable pub find_match :
      List ResponseFilter → ℕ → Option Db → List ℕ → ℕ → Outcome (Option (ℕ × ResponseFilter))
  find_match [] i rule_sets resp question_end = ok none
  find_match (f ∷ fs) i rule_sets resp question_end = do
    hit ← matches f rule_sets resp question_end
    let rest = find_match fs (suc i) rule_sets resp question_end
    if hit then ok (some (i, f)) else rest

  unfoldable pub first_match :
      List ResponseFilter → Option Db → List ℕ → ℕ → Outcome (Option (ℕ × ResponseFilter))
  unfolding find_match
  first_match filters rule_sets resp question_end = find_match filters 0 rule_sets resp question_end
