-- ===== src/Resolver/Leader/Answers.antt =====
-- Every leader of a query ends, and each waiter gets what it answers: `exchange_with_dedupe` of
-- src/resolver.rs.
use pathdns.Base.{
  ℕ, ◌≡◌, List, Bool, Option, none, some, Outcome, ok, reject, panic, stuck, Returns, Bool-cases,
  inl, inr, length, take, drop, ◌-◌, All, refl, sym, subst, arith,
}
use pathdns.Base.Bytes.{slice, slice_lem, slice_ext}
use pathdns.Cache.Backend.{Store}
use pathdns.Cache.{Entry, DnsCache}
use pathdns.Cache.Key.{
  cache_key_from_qname_hash, has_invalid_shape, invalid_shape_key, finish_cache_key,
}
use pathdns.Verdict.{VerdictEntry, VerdictCache}
use pathdns.Singleflight.{Delivery, InflightTable}
use pathdns.Router.{RouteTarget, RoutingConfig}
use pathdns.Dns.Variant.{QueryVariant}
use pathdns.Resolver.Exchange.{QueryContext, Rules}
use pathdns.Resolver.Filters.{AddIps, StepOutcome, response, drop_query, resolve_with_filters}
use pathdns.Resolver.Context.{IsQueryContext, question_from, question_to}
use pathdns.Resolver.Whole.{IsWholeReply}
use pathdns.Resolver.Ends.{IsKind, IsTarget}
use pathdns.Resolver.Steps.{IsWholeStep, HasServers, resolve_with_filters-Steps}
use pathdns.Resolver.Dedupe.{QueryInfo, ecs_in_query, dedupe_key, flight_key}
use pathdns.Resolver.Dedupe.Stored.{HasBound, SoundCache, IsStored}
use pathdns.Resolver.Dedupe.Leader.{HasEnded, IsPublished, IsLed, lead-IsLed}
use pathdns.Resolver.Leader.{Led, added_ips, step_of, lead_query}

-- Silence, only if a filter drops the reply, or a packet with the client's own question.
abbrev pub IsAnswer : QueryContext → Outcome StepOutcome → Option (List ℕ) → Type 0
IsAnswer ctx result none = result ≡ ok drop_query
IsAnswer ctx result (some out) =
    slice out 12 ctx.question_end ≡ slice ctx.packet 12 ctx.question_end

dedupe_key_total :
    (Pool : Type 0) (ctx : QueryContext) (c : IsQueryContext ctx) (info : QueryInfo)
    (target : RouteTarget Pool)
    → (ck : ℕ) × (dedupe_key Pool ctx info target ≡ ok ck)
unfolding dedupe_key cache_key_from_qname_hash
dedupe_key_total Pool ctx c info target = go info.precomputed_cache_keys
  where
    hashed :
        (v : QueryVariant) (strips : Bool)
        → (ck : ℕ) × (cache_key_from_qname_hash ctx.packet ctx.question_end info.qname_wire_hash
              info.qname_wire_hash_end v strips
            ≡ ok ck)
    hashed v strips = elim (Bool-cases (has_invalid_shape ctx.packet ctx.question_end)) [
      | inl odd ↦ (invalid_shape_key ctx.packet ctx.question_end, rw odd refl)
      | inr fine ↦
          let question = take (ctx.question_end - 12) (drop 12 ctx.packet) in
          (
            finish_cache_key info.qname_wire_hash question info.qname_wire_hash_end v strips,
            rw
                (
                  fine,
                  slice_lem ctx.packet 12 ctx.question_end (question_from ctx c)
                      (question_to ctx c),
                )
                refl,
          )
    ]

    go :
        (keys : Option (ℕ × Option ℕ))
        → (ck : ℕ) × (dedupe_key Pool ctx (record info { precomputed_cache_keys = keys }) target
            ≡ ok ck)
    go none = hashed info.variant (ecs_in_query Pool target info)
    go (some (regular, stripped)) = (_, refl)

step_of-Returns :
    (ctx : QueryContext) (m : Outcome (List AddIps × StepOutcome))
    → Returns (λ r. IsWholeStep ctx r.1) m
    → Returns (IsWholeStep ctx) (step_of m)
unfolding step_of
step_of-Returns ctx (ok r) h = h
step_of-Returns ctx reject h = tt
step_of-Returns ctx panic h = h
step_of-Returns ctx stuck h = h

IsLed-IsAnswer :
    (ctx : QueryContext) (c : IsQueryContext ctx) (result : Outcome StepOutcome)
    (answer : Option (List ℕ))
    → Returns (IsWholeStep ctx) result
    → IsLed ctx result answer
    → IsAnswer ctx result answer
IsLed-IsAnswer ctx c (ok (response resp winner forwarded)) answer (b, long, short)
      (out, e, (same, question, rest)) =
    subst (IsAnswer ctx (ok (response resp winner forwarded))) (sym e) (
      slice_ext out ctx.packet 12 ctx.question_end (question_from ctx c) (omega arith)
        (question_to ctx c) (λ j a b. question j a b))
IsLed-IsAnswer ctx c (ok drop_query) answer w e = subst (IsAnswer ctx (ok drop_query)) (sym e) refl
IsLed-IsAnswer ctx c reject answer w (out, e, r) =
    subst (IsAnswer ctx reject) (sym e) r.same_question
IsLed-IsAnswer ctx c panic answer w l = absurd w
IsLed-IsAnswer ctx c stuck answer w l = absurd w

-- Take a query of bytes, shorter than 2^16, that `parse_query_fast` accepts; pools that answer it
-- with an error or with a response of bytes, shorter than 2^32, that reaches to the end of the
-- question; servers and a target whose fixed answers fit their fields; filters of the target that
-- forward to servers that are there; lower TTL bounds below 2^32; and a cache whose entries are
-- all sound. Then the leader of the query ends without a panic, and its answer is silence, only
-- if a filter drops the query, or a packet with the client's own question. Each follower that
-- waits under the key of `dedupe_key`, mixed with the routing generation, is sent just that
-- answer, and this key is free. All entries of the cache are sound, and it is as before if the
-- first target skips the cache, it is off or a reload came.
pub lead_query-IsAnswer :
    (Pool : Type 0) (exchange : Pool → List ℕ → Outcome (List ℕ)) (Regex : Type 0)
    (is_match : Regex → List ℕ → Bool) (wild : List ℕ → Option Regex) (S : Store ℕ Entry)
    (V : Store (List ℕ) VerdictEntry) (cache : DnsCache S.State) (verdicts : VerdictCache V.State)
    (table : InflightTable) (ctx : QueryContext) (info : QueryInfo) (hot : RoutingConfig Pool)
    (hot_rule_sets rule_sets : Option (Rules Pool exchange Regex is_match wild))
    (has_ipset primary_first : Bool) (routing_gen : ℕ) (routing_unchanged unchanged : Bool)
    (started now_unix now : ℕ) (target : RouteTarget Pool)
    → IsQueryContext ctx
    → ((pool : Pool) → Returns (IsWholeReply ctx) (exchange pool ctx.packet))
    → All (λ s. IsKind s.kind) hot.servers
    → IsTarget target
    → HasServers (length hot.servers) target
    → HasBound Pool cache target
    → SoundCache Pool S cache
    → (led : Led Pool exchange Regex is_match wild S V) × (ck : ℕ) × (d : Delivery)
      × (answer : Option (List ℕ)) × (lead_query Pool exchange Regex is_match wild S V cache
            verdicts table ctx info hot hot_rule_sets rule_sets has_ipset primary_first routing_gen
            routing_unchanged unchanged started now_unix now target
          ≡ ok led)
      × (led.answer ≡ ok answer)
      × IsStored Pool S cache target unchanged led.cache
      × (dedupe_key Pool ctx info target ≡ ok ck)
      × HasEnded table (flight_key ck routing_gen) led.table d
      × IsPublished d answer
      × IsAnswer ctx
          (step_of
            (resolve_with_filters Pool exchange Regex is_match wild V verdicts ctx hot hot_rule_sets
              rule_sets has_ipset primary_first routing_unchanged started now_unix target).1)
          answer
unfolding lead_query
lead_query-IsAnswer Pool exchange Regex is_match wild S V cache verdicts table ctx info hot
      hot_rule_sets rule_sets has_ipset primary_first routing_gen routing_unchanged unchanged
      started now_unix now target c pools kinds t g bound all =
    let (ck, k) = dedupe_key_total Pool ctx c info target in
    let filtered =
      resolve_with_filters Pool exchange Regex is_match wild V verdicts ctx hot hot_rule_sets
        rule_sets has_ipset primary_first routing_unchanged started now_unix target in
    let w = step_of-Returns ctx filtered.1 (
      resolve_with_filters-Steps ctx c Pool exchange pools Regex is_match wild hot kinds V verdicts
        hot_rule_sets rule_sets has_ipset primary_first routing_unchanged started now_unix target t
        g) in
    let (after, table', d, answer, e, stored, ended, sent, led) =
      lead-IsLed Pool S cache table ctx info target hot.servers ck (flight_key ck routing_gen)
        unchanged now (step_of filtered.1) c bound all w in
    (
      record {
        cache = after;
        verdicts = filtered.0;
        table = table';
        adds = added_ips filtered.1;
        answer = ok answer;
      },
      ck,
      d,
      answer,
      rw (k, e) refl,
      refl,
      stored,
      k,
      ended,
      sent,
      IsLed-IsAnswer ctx c (step_of filtered.1) answer w led,
    )
