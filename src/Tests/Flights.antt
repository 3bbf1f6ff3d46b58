-- ===== src/Tests/Flights.antt =====
-- The leader and a follower of one query.
use pathdns.Base.{
  ℕ, ◌*◌, ◌≡◌, List, [], ◌∷◌, true, false, Option, none, some, Outcome, ok, refl, arith,
}
use pathdns.Cache.{DnsCache, second}
use pathdns.Cache.Lookup.{holding}
use pathdns.Singleflight
use pathdns.Singleflight.{InflightTable, Delivery, bytes}
use pathdns.Router.{
  Server, upstream, server_target, race_target, RouteTarget, RoutingConfig, to_server,
  server_fallback,
}
use pathdns.Resolver.Exchange.{QueryContext}
use pathdns.Resolver.Filters.{StepOutcome, response}
use pathdns.Resolver.Dedupe.{QueryInfo, follower_reply, lead}
use pathdns.Resolver.Dedupe.Follower.{Follows, follower_reply-Follows}
use pathdns.Resolver.Dedupe.Stored.{IsStored}
use pathdns.Resolver.Dedupe.Leader.{HasEnded, IsPublished, IsLed, lead-IsLed}
use pathdns.Resolver.Context.{IsQueryContext}
use pathdns.Resolver.Leader.{Led, lead_query}
use pathdns.Resolver.Leader.Answers.{IsAnswer, lead_query-IsAnswer}
use pathdns.Resolver.Filters.{resolve_with_filters}
use pathdns.Resolver.Leader.{step_of}
use pathdns.Resolver.Dedupe.{dedupe_key, flight_key}
use pathdns.Tests.Verdicts.{verdicts}
use pathdns.Tests.Routing.{no_regex}
use pathdns.Dns.Question.{eq_bytes}
use pathdns.Verdict.{VerdictEntry, VerdictCache}
use pathdns.Tests.Cache.{entries_by_key, cache_off, variant, State, stocked, stocked-Holds}
use pathdns.Tests.Packets
use pathdns.Tests.Packets.{query, query-IsBytes, query_parsed, response-IsBytes}

abbrev ctx : QueryContext
ctx = record { packet = query; question_end = 19; qtype = 1; qname = b'a' ∷ [] }

abbrev info : QueryInfo
info = record {
  id = 0x1234;
  qname_wire_hash = 15065593090998171989;
  qname_wire_hash_end = 3;
  variant = variant;
  precomputed_cache_keys = some (7, none);
}

abbrev server : Server ℕ
server = record { name = b's' ∷ []; index = 0; kind = upstream 5; strip_ecs = true }

abbrev cache : DnsCache State
cache = holding entries_by_key cache_off stocked

-- A leader and a follower are registered.
abbrev table : InflightTable
table = (Singleflight.register (Singleflight.register Singleflight.new 7).0 7).0

abbrev result : Outcome StepOutcome
result = ok (response Packets.response none none)

abbrev asked : IsQueryContext ctx
asked = record {
  fast = Packets.info;
  bytes = query-IsBytes;
  short = omega arith;
  accepted = query_parsed;
  ends = refl;
}

lead-IsLed_example :
    (after : DnsCache State) × (table' : InflightTable) × (d : Delivery) × (answer : Option
      (List ℕ))
    × (lead ℕ entries_by_key cache table ctx info
          (server_target server 0)
          (server ∷ [])
          7
          7
          true
          (15 * second)
          result
        ≡ ok (after, table', ok answer))
    × IsStored ℕ entries_by_key cache (server_target server 0) true after
    × HasEnded table 7 table' d
    × IsPublished d answer
    × IsLed ctx result answer
lead-IsLed_example =
    lead-IsLed ℕ entries_by_key cache table ctx info (server_target server 0) (server ∷ []) 7 7 true
      (15 * second) result asked (omega arith) stocked-Holds
      (response-IsBytes, omega arith, omega arith)

follower_reply-Follows_example :
    (answer : Option (List ℕ)) × (follower_reply ctx info (bytes Packets.response) ≡ ok answer)
    × Follows ctx info (bytes Packets.response) answer
follower_reply-Follows_example =
    follower_reply-Follows ctx info (bytes Packets.response) query-IsBytes (omega arith)
      (omega arith) (omega arith) response-IsBytes

abbrev hot : RoutingConfig ℕ
hot = record {
  fallback_target = to_server (b's' ∷ []);
  noip_as_primary_ip = false;
  servers = server ∷ [];
  rules = [];
  needs_ruleset = false;
  fallback = server_fallback 0;
}

abbrev exchange : ℕ → List ℕ → Outcome (List ℕ)
exchange pool packet = ok Packets.response

abbrev verdict_cache : VerdictCache (Option (List ℕ × VerdictEntry))
verdict_cache = record { inner = none; ttl_secs = 3600 }

abbrev raced : RouteTarget ℕ
raced = race_target server server

lead_query-IsAnswer_example :
    (led : Led ℕ exchange (List ℕ) eq_bytes no_regex entries_by_key verdicts) × (ck : ℕ)
    × (d : Delivery) × (answer : Option (List ℕ)) × (lead_query ℕ exchange
          (List ℕ)
          eq_bytes
          no_regex
          entries_by_key
          verdicts
          cache
          verdict_cache
          table
          ctx
          info
          hot
          none
          none
          false
          true
          3
          true
          true
          999
          1000
          (15 * second)
          raced
        ≡ ok led)
    × (led.answer ≡ ok answer)
    × IsStored ℕ entries_by_key cache raced true led.cache
    × (dedupe_key ℕ ctx info raced ≡ ok ck)
    × HasEnded table (flight_key ck 3) led.table d
    × IsPublished d answer
    × IsAnswer ctx
        (step_of
          (resolve_with_filters ℕ exchange
            (List ℕ)
            eq_bytes
            no_regex
            verdicts
            verdict_cache
            ctx
            hot
            none
            none
            false
            true
            true
            999
            1000
            raced).1)
        answer
lead_query-IsAnswer_example =
    lead_query-IsAnswer ℕ exchange (List ℕ) eq_bytes no_regex entries_by_key verdicts cache
      verdict_cache table ctx info hot none none false true 3 true true 999 1000 (15 * second) raced
      asked (λ pool. (response-IsBytes, omega arith, omega arith)) (tt, tt) (tt, tt) tt
      (omega arith) stocked-Holds
