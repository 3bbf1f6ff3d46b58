-- ===== src/Tests/Routing.antt =====
-- Names, rule sets and response filters. A regular expression stands here for the one name that it
-- matches.
use pathdns.Base.{ℕ, ◌≡◌, ◌⊎◌, ◌↔◌, List, [], ◌∷◌, true, Option, none, some, ok}
use pathdns.Dns.Question.{eq_bytes}
use pathdns.Dns.Rr.{v4}
use pathdns.Domain.{DomainMatcher, lookup_specific}
use pathdns.Domain.Specific.{IsSpecific, lookup_specific-IsSpecific}
use pathdns.Ruleset.{AnswerIpMatcher, RuleSetDb, ip_cidr, matches_answer_ip}
use pathdns.Ruleset.AnswerIp.{Hits, matches_answer_ip_iff}
use pathdns.ResponseFilter.{ResponseFilter, accept, drop_reply, first_match}
use pathdns.ResponseFilter.First.{IsFirst, first_match-IsFirst}
use pathdns.Tests.Packets.{response, response-IsBytes}

abbrev pub no_regex : List ℕ → Option (List ℕ)
no_regex pattern = none

abbrev matcher : DomainMatcher (List ℕ) eq_bytes no_regex ℕ
matcher = record {
  full = [];
  suffix = (b'c' ∷ [], 1) ∷ (b'b' ∷ b'.' ∷ b'c' ∷ [], 2) ∷ [];
  regex = [];
}

lookup_specific-IsSpecific_example :
    (o : Option ℕ) × (lookup_specific
        (List ℕ)
        eq_bytes
        no_regex
        matcher
        (b'a' ∷ b'.' ∷ b'b' ∷ b'.' ∷ b'c' ∷ [])
      ≡ ok o)
    × IsSpecific matcher.full matcher.suffix (b'a' ∷ b'.' ∷ b'b' ∷ b'.' ∷ b'c' ∷ []) o
lookup_specific-IsSpecific_example =
    lookup_specific-IsSpecific (List ℕ) eq_bytes no_regex matcher
      (b'a' ∷ b'.' ∷ b'b' ∷ b'.' ∷ b'c' ∷ [])

abbrev db : RuleSetDb (List ℕ) eq_bytes no_regex
db = record { tags = (b'x' ∷ [], ip_cidr ((0xffff01020300, 0xffff010203ff) ∷ [])) ∷ [] }

abbrev x_only : AnswerIpMatcher
x_only = record { include = (b'x' ∷ []) ∷ []; exclude = [] }

matches_answer_ip_iff_example :
    (matches_answer_ip (List ℕ) eq_bytes no_regex db x_only (v4 (1 ∷ 2 ∷ 3 ∷ 4 ∷ []) ∷ []) ≡ true)
    ↔ (((x_only.include ≡ [])
          ⊎ Hits (List ℕ) eq_bytes no_regex db x_only.include (v4 (1 ∷ 2 ∷ 3 ∷ 4 ∷ []) ∷ []))
        × (Hits (List ℕ) eq_bytes no_regex db x_only.exclude (v4 (1 ∷ 2 ∷ 3 ∷ 4 ∷ []) ∷ []) → ⊥))
matches_answer_ip_iff_example =
    matches_answer_ip_iff (List ℕ) eq_bytes no_regex db x_only (v4 (1 ∷ 2 ∷ 3 ∷ 4 ∷ []) ∷ [])

abbrev filters : List ResponseFilter
filters =
    record {
      answer_ip = record { include = []; exclude = (b'x' ∷ []) ∷ [] };
      response_type = [];
      response_rcode = [];
      response_qclass = [];
      action = drop_reply;
    }
    ∷ record {
      answer_ip = x_only;
      response_type = 1 ∷ [];
      response_rcode = 0 ∷ [];
      response_qclass = 1 ∷ [];
      action = accept;
    }
    ∷ []

first_match-IsFirst_example :
    (o : Option (ℕ × ResponseFilter)) × (first_match
        (List ℕ)
        eq_bytes
        no_regex
        filters
        (some db)
        response
        19
      ≡ ok o)
    × IsFirst (List ℕ) eq_bytes no_regex (some db) response 19 filters 0 o
first_match-IsFirst_example =
    first_match-IsFirst (List ℕ) eq_bytes no_regex filters (some db) response 19 response-IsBytes
