-- ===== src/Resolver/Dedupe/Stored.antt =====
-- What the leader of a query puts in the cache, in `exchange_with_dedupe` of src/resolver.rs.
use pathdns.Base.{
  ℕ, ◌+◌, ◌-◌, ◌^◌, ◌≤◌, ◌<◌, ◌≡◌, inl, inr, List, [], ◌∷◌, ◌++◌, Bool, true, false, not, ◌&&◌,
  Option, none, some, ok, let_else, ◌==◌, Bool-cases, Returns-cases, length, take, drop,
  length-take, length-drop, length-append, refl, arith,
}
use pathdns.Base.Octets.{IsBytes-take, IsBytes-drop, IsBytes-append}
use pathdns.Base.Bytes.{IsBytes, slice_lem}
use pathdns.Dns.Ecs.{located, strip_opt_rdata}
use pathdns.Dns.Ecs.Located.{LocatedAt, located-LocatedAt}
use pathdns.Ruleset.{is_some}
use pathdns.Cache.Backend.{Store}
use pathdns.Cache.{Entry, CacheInsert, ResolvedCachePolicy, DnsCache, resolve_policy, entry_of}
use pathdns.Cache
use pathdns.Cache.Serve.{IsSound}
use pathdns.Cache.Holds.{Holds, insert-Holds}
use pathdns.Cache.Add.{IsInsert, IsSoundOption, entry_of-IsSound}
use pathdns.Router.{
  FixedAnswer, ServerKind, upstream, fixed, Server, RouteTarget, rule_target, server_target,
  race_target, cidr_test, skip_cache,
}
use pathdns.Resolver.{to_wire}
use pathdns.Dns.Variant.{QueryVariant}
use pathdns.Dns.Variant.Total.{extract_variant_total}
use pathdns.Dns.Ecs.{strip_edns_ecs}
use pathdns.Dns.Ecs.Stripped.{strip_edns_ecs-Reaches}
use pathdns.Resolver.Context.{
  IsQueryContext, question_from, question_to, name_end, question_end-name_end, context-OneQuestion,
}
use pathdns.Resolver.Exchange.{QueryContext}
use pathdns.Resolver.Dedupe.{
  QueryInfo, ecs_in_query, server_of, credit, fixed_kind, with_fixed_ttl, stored_query,
  store_response,
}

-- The copy for the cache, without the data of the OPT record.
sanitized :
    (p : List ℕ)
    → IsBytes p
    → (q : List ℕ) × (let_else (strip_opt_rdata p) (ok p) ok ≡ ok q)
      × IsBytes q
      × (length q ≤ length p)
unfolding strip_opt_rdata
sanitized p b = elim (Returns-cases (LocatedAt p) (located p) (located-LocatedAt p b)) [
  | inr e ↦ (p, rw e refl, b, omega arith)
  | inl (loc, e, l) ↦ elim (Bool-cases (loc.rdata_end == loc.rdata_start)) [
    | inl none_there ↦ (p, rw (e, none_there) refl, b, omega arith)
    | inr some_there ↦
        let front : ℕ = loc.name_end + 8 - 0 in
        let back : ℕ = length p - loc.rdata_end in
        let x =
          slice_lem p 0 (loc.name_end + 8) (omega arith)
            (omega (arith, l.start_at, l.end_at, l.inside)) in
        let y = slice_lem p loc.rdata_end (length p) l.inside (omega arith) in
        (
          take front p ++ (0 ∷ 0 ∷ take back (drop loc.rdata_end p)),
          rw (e, some_there, x, y) refl,
          IsBytes-append (take front p) _ (IsBytes-take front p b)
              (omega arith, (omega arith, IsBytes-take back _ (IsBytes-drop loc.rdata_end p b))),
          omega (
            arith,
            length-append (take front p) (0 ∷ 0 ∷ take back (drop loc.rdata_end p)),
            length-take front p,
            length-take back (drop loc.rdata_end p),
            length-drop loc.rdata_end p,
            l.start_at,
            l.end_at,
            l.inside,
          ),
        )
  ]
]

module _ (Pool : Type 0) where
  -- The lower TTL bound of a policy that a response can be stored with fits its field.
  abbrev pub HasBound : {State : Type 0} → DnsCache State → RouteTarget Pool → Type 0
  HasBound cache (rule_target rule i) = rule.cache_policy.min_ttl < 2 ^ 32
  HasBound cache (server_target s i) = cache.min_ttl < 2 ^ 32
  HasBound cache (race_target p s) = cache.min_ttl < 2 ^ 32
  HasBound cache (cidr_test p s) = cache.min_ttl < 2 ^ 32

  with_fixed_ttl-min_ttl :
      (kind : Option (ServerKind Pool)) (policy : ResolvedCachePolicy)
      → (with_fixed_ttl Pool kind policy).min_ttl ≡ policy.min_ttl
  unfolding with_fixed_ttl
  with_fixed_ttl-min_ttl none policy = refl
  with_fixed_ttl-min_ttl (some (upstream pool)) policy = refl
  with_fixed_ttl-min_ttl (some (fixed set)) policy = go set.answers
    where
      go :
          (xs : List FixedAnswer)
          → (elim xs as (λ x. ResolvedCachePolicy) [
            | [] ↦ record policy { nodata_ttl = set.rcode_ttl }
            | _ ∷ _ ↦ policy
          ]).min_ttl
            ≡ policy.min_ttl
      go [] = refl
      go (x ∷ xs) = refl

  credit-min_ttl :
      {State : Type 0} (cache : DnsCache State) (target : RouteTarget Pool)
      (winner : Option (Server Pool))
      → HasBound cache target
      → (credit Pool cache target winner).0.min_ttl < 2 ^ 32
  unfolding credit resolve_policy
  credit-min_ttl cache (rule_target rule i) winner h = h
  credit-min_ttl cache (server_target s i) winner h = h
  credit-min_ttl cache (race_target p s) none h = h
  credit-min_ttl cache (race_target p s) (some w) h = h
  credit-min_ttl cache (cidr_test p s) none h = h
  credit-min_ttl cache (cidr_test p s) (some w) h = h

  module _ (S : Store ℕ Entry) where
    open S use {State}

    -- All entries are sound, where the cache is on.
    abbrev HoldsIn : Option State → Type 0
    HoldsIn none = Unit {0}
    HoldsIn (some cache) = Holds S (λ k e. IsSound e) cache

    abbrev pub SoundCache : DnsCache State → Type 0
    SoundCache cache = HoldsIn cache.cache

    abbrev with_entry : DnsCache State → ℕ → State → Option Entry → DnsCache State
    with_entry self key cache none = record self { cache = some cache }
    with_entry self key cache (some e) = record self { cache = some (S.insert key e cache) }

    add-SoundCache :
        (self : DnsCache State) (ins : CacheInsert) (policy : ResolvedCachePolicy) (rule_id now : ℕ)
        → IsInsert ins policy
        → SoundCache self
        → (after : DnsCache State) × (Cache.add S self ins policy rule_id now ≡ ok after)
          × SoundCache after
    unfolding Cache.add
    add-SoundCache self ins policy rule_id now i all = go self.cache all
      where
        put :
            (cache : State) (o : Option Entry)
            → IsSoundOption o
            → Holds S (λ k e. IsSound e) cache
            → SoundCache (with_entry self ins.key cache o)
        put cache none h all = all
        put cache (some e) h all = insert-Holds S (λ k e. IsSound e) ins.key e cache h all

        added :
            (cache : State) (o : Option Entry)
            → entry_of ins policy rule_id now ≡ ok o
            → Cache.add S (record self { cache = some cache }) ins policy rule_id now
              ≡ ok (with_entry self ins.key cache o)
        added cache none e = rw (Cache.add, e) refl
        added cache (some x) e = rw (Cache.add, e) refl

        go :
            (c : Option State)
            → HoldsIn c
            → (after : DnsCache State) × (Cache.add S
                  (record self { cache = c })
                  ins
                  policy
                  rule_id
                  now
                ≡ ok after)
              × SoundCache after
        go none all = (record self { cache = none }, refl, tt)
        go (some cache) all =
            let (o, e, h) = entry_of-IsSound ins policy rule_id now i in
            (with_entry self ins.key cache o, added cache o e, put cache o h all)

    -- What was known of the cache before is known after, and a guard that fails leaves it.
    abbrev pub IsStored : DnsCache State → RouteTarget Pool → Bool → DnsCache State → Type 0
    IsStored cache target unchanged after =
        SoundCache after
        × ((not (skip_cache Pool target) && is_some cache.cache && unchanged) ≡ false
            → after ≡ cache)

    module _ (cache : DnsCache State) (ctx : QueryContext) (c : IsQueryContext ctx)
        (info : QueryInfo) (target : RouteTarget Pool) (servers : List (Server Pool)) (ck : ℕ)
        (unchanged : Bool) (now : ℕ) (bound : HasBound cache target) (all : SoundCache cache) where
      -- The stored query has room for the question, with the client subnet or without.
      stored_query_total :
          (s : List ℕ × QueryVariant) × (stored_query Pool ctx info target ≡ ok s)
          × (ctx.question_end ≤ length s.0)
      unfolding stored_query
      stored_query_total = elim (Bool-cases (ecs_in_query Pool target info)) [
        | inr keeps ↦ ((ctx.packet, info.variant), rw keeps refl, question_to ctx c)
        | inl strips ↦
            elim (Returns-cases _ (strip_edns_ecs ctx.packet)
              (strip_edns_ecs-Reaches ctx.packet (name_end ctx c) (context-OneQuestion ctx c))) [
                | inr e ↦ ((ctx.packet, info.variant), rw (strips, e) refl, question_to ctx c)
                | inl (out, e, (b, h)) ↦
                    let (v, f) = extract_variant_total out ctx.question_end b in
                    ((out, v), rw (strips, e, f) refl, omega (arith, question_end-name_end ctx c))
              ]
      ]

      abbrev inserted : List ℕ × QueryVariant → List ℕ → CacheInsert
      inserted s p = record {
        key = ck;
        qname = ctx.qname;
        question_end = ctx.question_end;
        query = s.0;
        variant = s.1;
        packet = p;
      }

      pub store_response-IsStored :
          (resp : List ℕ) (winner_idx forwarded_idx : Option ℕ)
          → IsBytes resp
          → length resp < 2 ^ 32
          → (after : DnsCache State) × (store_response Pool S cache ctx info target servers ck
                unchanged resp winner_idx forwarded_idx now
              ≡ ok after)
            × IsStored cache target unchanged after
      unfolding store_response
      store_response-IsStored resp winner_idx forwarded_idx b short =
          elim (Bool-cases (not (skip_cache Pool target) && is_some cache.cache && unchanged)) [
            | inr off ↦ (cache, rw off refl, (all, λ h. refl))
            | inl on ↦
                let (s, d, room) = stored_query_total in
                let (p, e, pb, le) = sanitized resp b in
                let winner = server_of Pool servers winner_idx in
                let kind = fixed_kind Pool target winner (server_of Pool servers forwarded_idx) in
                let policy = with_fixed_ttl Pool kind (credit Pool cache target winner).0 in
                let (after, f, h) =
                  add-SoundCache cache (inserted s p) policy
                    (to_wire (credit Pool cache target winner).1) now
                    (record {
                      question_from = question_from ctx c;
                      question_to = room;
                      bytes = pb;
                      short = omega arith;
                      min_ttl =
                          rw (with_fixed_ttl-min_ttl kind (credit Pool cache target winner).0)
                            (credit-min_ttl cache target winner bound);
                    })
                    all in
                (after, rw (on, d, e) f, (h, λ g. absurd (clash on g)))
          ]
        where
          clash : {b : Bool} → b ≡ true → b ≡ false → ⊥
          clash e f = cc
