-- ===== src/Tests/Addresses.antt =====
-- Two queries for one name whose primary answers an address outside the ranges of the tag `x`.
use pathdns.Base.{
  ℕ, ◌+◌, ◌*◌, ◌^◌, ◌≡◌, ◌⊎◌, List, [], ◌∷◌, true, false, Option, none, some, Outcome, ok, refl,
}
use pathdns.Base.Bytes.{u32_at}
use pathdns.Dns.Rr.{v4, answer_ips, answer_ips_loop, parse_rr, push_ip}
use pathdns.Dns.Question.{eq_bytes}
use pathdns.Persist.Fields.{eq_bytes_refl}
use pathdns.Ruleset.{RuleSetDb, AnswerIpMatcher, ip_cidr, is_empty}
use pathdns.Verdict.{VerdictEntry, VerdictCache, get_verdict}
use pathdns.Router.{Server, upstream, RoutingConfig, dual, cidr_fallback}
use pathdns.Resolver.Exchange.{QueryContext, test_of, exchange_kind, or_primary}
use pathdns.Resolver.Verdicts.{IsPrimary, Sticks, call, resolve_none_rule_with_cidr-Sticks}
use pathdns.Tests.Packets.{query, response, queries}
use pathdns.Tests.Routing.{no_regex}
use pathdns.Tests.Verdicts.{verdicts}

abbrev ctx : QueryContext
ctx = record { packet = query; question_end = 19; qtype = 1; qname = b'a' ∷ [] }

abbrev exchange : ℕ → List ℕ → Outcome (List ℕ)
exchange pool packet = ok response

abbrev Cached : Type 0
Cached = VerdictCache (Option (List ℕ × VerdictEntry))

abbrev server_at : ℕ → Server ℕ
server_at i = record { name = (b'0' + i) ∷ []; index = i; kind = upstream i; strip_ecs = false }

-- 10.0.0.0/8.
abbrev db : RuleSetDb (List ℕ) eq_bytes no_regex
db = record {
  tags =
      (b'x' ∷ [], ip_cidr ((0xffff * 2 ^ 32 + 0x0a000000, 0xffff * 2 ^ 32 + 0x0affffff) ∷ [])) ∷ [];
}

abbrev m : AnswerIpMatcher
m = record { include = (b'x' ∷ []) ∷ []; exclude = [] }

abbrev hot : RoutingConfig ℕ
hot = record {
  fallback_target = dual (b'0' ∷ []) (b'1' ∷ []) m;
  noip_as_primary_ip = false;
  servers = server_at 0 ∷ server_at 1 ∷ [];
  rules = [];
  needs_ruleset = true;
  fallback = cidr_fallback 0 1;
}

abbrev no_verdicts : Cached
no_verdicts = record { inner = some none; ttl_secs = 3600 }

tested : test_of ℕ exchange (List ℕ) eq_bytes no_regex hot.fallback_target (some db) ≡ some (m, db)
unfolding test_of is_empty
tested = refl

unknown : get_verdict verdicts no_verdicts ctx.qname 999 ≡ none
unfolding get_verdict
unknown = refl

answered : exchange_kind ℕ exchange ctx (upstream 0) ≡ ok response
unfolding exchange_kind
answered = refl

addresses : answer_ips response 19 ≡ ok (v4 (1 ∷ 2 ∷ 3 ∷ 4 ∷ []) ∷ [])
unfolding queries answer_ips answer_ips_loop parse_rr u32_at push_ip
addresses = refl

abbrev calls : Cached → ℕ → ℕ → Cached × Outcome (List ℕ × ℕ)
calls vc started now =
    call ℕ exchange (List ℕ) eq_bytes no_regex verdicts eq_bytes_refl hot (some db) m db tested
      (server_at 0) (server_at 1) vc ctx true true started now

abbrev Kept : Server ℕ → Type 0
Kept chosen =
    Sticks ℕ exchange (List ℕ) eq_bytes no_regex verdicts (calls no_verdicts 999 1000).0 ctx 1000
      1200 chosen (calls (calls no_verdicts 999 1000).0 1200 1201)

abbrev ForPrimary : Type 0
ForPrimary =
    IsPrimary ℕ exchange (List ℕ) eq_bytes no_regex verdicts db m (v4 (1 ∷ 2 ∷ 3 ∷ 4 ∷ []) ∷ [])

resolve_none_rule_with_cidr-Sticks_example :
    (ForPrimary × ((calls no_verdicts 999 1000).1 ≡ ok (response, 0)) × Kept (server_at 0))
    ⊎ ((ForPrimary → ⊥)
        × ((calls no_verdicts 999 1000).1
            ≡ or_primary ℕ exchange
                (List ℕ)
                eq_bytes
                no_regex
                verdicts
                (exchange_kind ℕ exchange ctx (upstream 1))
                1
                response
                0)
        × Kept (server_at 1))
resolve_none_rule_with_cidr-Sticks_example =
    resolve_none_rule_with_cidr-Sticks ℕ exchange (List ℕ) eq_bytes no_regex verdicts eq_bytes_refl
      hot (some db) m db tested (server_at 0) (server_at 1) 3600 none ctx ctx true true true 999
      1000 1200 1201 response (v4 (1 ∷ 2 ∷ 3 ∷ 4 ∷ [])) [] refl unknown answered addresses
