-- ===== src/Resolver/Dedupe.antt =====
-- One exchange for all queries of the same key, src/resolver.rs: `exchange_with_dedupe`, with the
-- way of a follower and the end of the leader. What the wait of a follower comes to is an argument,
-- `closed` also where the deadline passes, and so is the number of reloads.
pub mod Follower
pub mod Stored
pub mod Leader
use pathdns.Base.{
  ℕ, ◌-◌, ◌*◌, ◌%◌, ◌^◌, bit_xor, List, [], ◌∷◌, Bool, true, false, not, ◌&&◌, Option, none, some,
  Outcome, ok, reject, panic, stuck, ◌>>=◌, let_else, leb, ◌==◌, if◌then◌else◌, length, take, drop,
}
use pathdns.Base.Bytes.{slice}
use pathdns.Base.Splice.{splice}
use pathdns.Dns.Name.{question_end}
use pathdns.Dns.Header.{set_id}
use pathdns.Dns.Question.{eq_ignore_ascii_case}
use pathdns.Dns.Builder.{servfail_reply}
use pathdns.Dns.Variant.{QueryVariant, extract_variant}
use pathdns.Dns.Ecs.{strip_edns_ecs, strip_opt_rdata}
use pathdns.Cache.Backend.{Store}
use pathdns.Cache.{Entry, CacheInsert, ResolvedCachePolicy, DnsCache, resolve_policy}
use pathdns.Ruleset.{is_some}
use pathdns.Cache
use pathdns.Cache.Key.{cache_key_from_qname_hash}
use pathdns.Singleflight.{
  Delivery, bytes, no_reply, closed, InflightTable, publish_bytes, publish_drop,
}
use pathdns.Singleflight
use pathdns.Router.{
  ServerKind, upstream, fixed, Server, RouteTarget, rule_target, server_target, race_target,
  cidr_test, skip_cache, resolved_kind, strip_ecs,
}
use pathdns.Base.{get_elem?}
use pathdns.Resolver.{RuleAttribution, by_rule, by_final, final_unknown, to_wire}
use pathdns.Resolver.Exchange.{QueryContext}
use pathdns.Resolver.Filters.{StepOutcome, response, drop_query}

-- `dns::QueryInfo`, without what `QueryContext` has.
pub record QueryInfo : Type 0 where
  pub id : ℕ
  pub qname_wire_hash : ℕ
  pub qname_wire_hash_end : ℕ
  pub variant : QueryVariant
  pub precomputed_cache_keys : Option (ℕ × Option ℕ)

-- `servfail_reply(..).unwrap_or_default()`.
unfoldable pub servfail_or_empty : QueryContext → Outcome (List ℕ)
servfail_or_empty ctx = let_else (servfail_reply ctx.packet ctx.question_end) (ok []) ok

-- `[u8]::eq_ignore_ascii_case`.
unfoldable pub slices_match : List ℕ → List ℕ → Bool
slices_match [] [] = true
slices_match [] (y ∷ ys) = false
slices_match (x ∷ xs) [] = false
slices_match (x ∷ xs) (y ∷ ys) = eq_ignore_ascii_case x y && slices_match xs ys

-- The leader's response has the question of this client.
unfoldable pub has_question : List ℕ → QueryContext → Outcome Bool
unfolding slices_match
has_question resp ctx = elim (question_end resp) [
  | reject ↦ ok false
  | panic ↦ panic
  | stuck ↦ stuck
  | ok leader_qend ↦
      if not (leader_qend == ctx.question_end && leb ctx.question_end (length resp))
      then ok false
      else (do
        theirs ← slice resp 12 ctx.question_end
        ours ← slice ctx.packet 12 ctx.question_end
        ok (slices_match theirs ours))
]

-- `resp[12..question_end].copy_from_slice(ctx.question())`.
unfoldable pub restore_question : List ℕ → QueryContext → Outcome (List ℕ)
restore_question resp ctx = do
  question ← slice ctx.packet 12 ctx.question_end
  old ← slice resp 12 ctx.question_end
  ok (splice resp 12 question)

-- A response for the client, or silence.
unfoldable pub follower_reply : QueryContext → QueryInfo → Delivery → Outcome (Option (List ℕ))
unfolding servfail_or_empty has_question restore_question
follower_reply ctx info closed = do servfail ← servfail_or_empty ctx; ok (some servfail)
follower_reply ctx info no_reply = ok none
follower_reply ctx info (bytes resp) = do
  same ← has_question resp ctx
  if not same
      then (do servfail ← servfail_or_empty ctx; ok (some servfail))
      else (do out ← set_id resp info.id; out ← restore_question out ctx; ok (some out))

-- `sf_ck`: the key of the cache mixed with the generation of the routing state.
unfoldable pub flight_key : ℕ → ℕ → ℕ
flight_key ck routing_gen = bit_xor ck (routing_gen * 0x9e3779b97f4a7c15 % 2 ^ 64)

module _ (Pool : Type 0) where
  abbrev pub ecs_in_query : RouteTarget Pool → QueryInfo → Bool
  ecs_in_query target info = strip_ecs Pool target && is_some info.variant.ecs_src

  abbrev pub unwrap_key : Option ℕ → ℕ → ℕ
  unwrap_key none d = d
  unwrap_key (some k) d = k

  unfoldable pub dedupe_key : QueryContext → QueryInfo → RouteTarget Pool → Outcome ℕ
  dedupe_key ctx info target = elim info.precomputed_cache_keys [
    | some (regular_key, stripped_key) ↦
        ok (if ecs_in_query target info then unwrap_key stripped_key regular_key else regular_key)
    | none ↦
        cache_key_from_qname_hash ctx.packet ctx.question_end info.qname_wire_hash
          info.qname_wire_hash_end info.variant (ecs_in_query target info)
  ]

  -- `winner_idx.and_then(|idx| hot.servers.get(idx))`.
  unfoldable pub server_of : List (Server Pool) → Option ℕ → Option (Server Pool)
  server_of servers none = none
  server_of servers (some idx) = get_elem? servers idx

  -- The policy and the attribution of a response.
  unfoldable pub credit :
      {State : Type 0}
      → DnsCache State
      → RouteTarget Pool
      → Option (Server Pool)
      → ResolvedCachePolicy × RuleAttribution
  credit cache (rule_target rule idx) winner = (rule.cache_policy, by_rule idx)
  credit cache (server_target s idx) winner = (resolve_policy cache none, by_final idx)
  credit cache (race_target p s) none = (resolve_policy cache none, final_unknown)
  credit cache (race_target p s) (some w) = (resolve_policy cache none, by_final w.index)
  credit cache (cidr_test p s) none = (resolve_policy cache none, final_unknown)
  credit cache (cidr_test p s) (some w) = (resolve_policy cache none, by_final w.index)

  -- `fixed_kind`: of the server that was asked.
  unfoldable pub fixed_kind :
      RouteTarget Pool → Option (Server Pool) → Option (Server Pool) → Option (ServerKind Pool)
  fixed_kind target winner (some forwarded) = some forwarded.kind
  fixed_kind target winner none = resolved_kind Pool target winner

  unfoldable pub with_fixed_ttl :
      Option (ServerKind Pool) → ResolvedCachePolicy → ResolvedCachePolicy
  with_fixed_ttl none policy = policy
  with_fixed_ttl (some (upstream pool)) policy = policy
  with_fixed_ttl (some (fixed set)) policy = elim set.answers [
    | [] ↦ record policy { nodata_ttl = set.rcode_ttl }
    | _ ∷ _ ↦ policy
  ]

  -- The query and the variant that the entry is stored with.
  unfoldable pub stored_query :
      QueryContext → QueryInfo → RouteTarget Pool → Outcome (List ℕ × QueryVariant)
  stored_query ctx info target =
      if ecs_in_query target info
      then let_else (strip_edns_ecs ctx.packet) (ok (ctx.packet, info.variant))
          (λ stripped. do v ← extract_variant stripped ctx.question_end; ok (stripped, v))
      else ok (ctx.packet, info.variant)

  module _ (S : Store ℕ Entry) where
    open S use {State}

    -- The addition to the cache, unless the target skips it, the cache is off or a reload came.
    unfoldable pub store_response :
        DnsCache State
        → QueryContext
        → QueryInfo
        → RouteTarget Pool
        → List (Server Pool)
        → ℕ
        → Bool
        → List ℕ
        → Option ℕ
        → Option ℕ
        → ℕ
        → Outcome (DnsCache State)
    unfolding server_of credit fixed_kind with_fixed_ttl stored_query
    store_response cache ctx info target servers ck unchanged resp winner_idx forwarded_idx now =
        if not (skip_cache Pool target) && is_some cache.cache && unchanged
        then (do
          let winner = server_of servers winner_idx
          let kind = fixed_kind target winner (server_of servers forwarded_idx)
          let (policy, attribution) = credit cache target winner
          (query, variant) ← stored_query ctx info target
          sanitized ← let_else (strip_opt_rdata resp) (ok resp) ok
          Cache.add S cache
              (record {
                key = ck;
                qname = ctx.qname;
                question_end = ctx.question_end;
                query = query;
                variant = variant;
                packet = sanitized;
              })
              (with_fixed_ttl kind policy) (to_wire attribution) now)
        else ok cache

    -- The end of the leader: the cache, the table and the answer. `SingleflightLeader` takes the key
    -- away where nothing was published.
    unfoldable pub lead :
        DnsCache State
        → InflightTable
        → QueryContext
        → QueryInfo
        → RouteTarget Pool
        → List (Server Pool)
        → ℕ
        → ℕ
        → Bool
        → ℕ
        → Outcome StepOutcome
        → Outcome (DnsCache State × InflightTable × Outcome (Option (List ℕ)))
    unfolding store_response restore_question
    lead cache table ctx info target servers ck sf_ck unchanged now
          (ok (response resp winner forwarded)) =
        do
          cache' ←
              store_response cache ctx info target servers ck unchanged resp winner forwarded now
          out ← restore_question resp ctx
          ok (cache', publish_bytes table sf_ck out, ok (some out))
    lead cache table ctx info target servers ck sf_ck unchanged now (ok drop_query) =
        ok (cache, publish_drop table sf_ck, ok none)
    lead cache table ctx info target servers ck sf_ck unchanged now reject =
        let_else (servfail_reply ctx.packet ctx.question_end)
          (ok (cache, Singleflight.remove table sf_ck, reject))
          (λ servfail. ok (cache, publish_bytes table sf_ck servfail, ok (some servfail)))
    lead cache table ctx info target servers ck sf_ck unchanged now panic = panic
    lead cache table ctx info target servers ck sf_ck unchanged now stuck = stuck
