-- ===== src/Cache/Fallback.antt =====
-- The lookup with its second probe under the key without the client subnet (src/cache.rs).
use pathdns.Base.{
  ℕ, ◌-◌, take, drop, ◌^◌, ◌≤◌, length, ◌<◌, ◌≡◌, ◌⊎◌, List, Bool, true, false, Option, none, some,
  Outcome, ok, Returns-ok, Bool-cases, inl, inr, refl, arith,
}
use pathdns.Base.Bytes.{IsBytes, slice_lem, word16-lt}
use pathdns.Dns.Query.{FastQueryInfo, parse_query_fast}
use pathdns.Dns.Query.Accepts.{IsQuestion, parse_query_fast-IsQuestion}
use pathdns.Dns.Variant.{QueryVariant, extract_variant}
use pathdns.Dns.Variant.Total.{extract_variant_total}
use pathdns.Cache.Backend.{Store}
use pathdns.Cache.Key.{
  invalid_shape_key, finish_cache_key, cache_key_from_qname_hash, has_invalid_shape,
}
use pathdns.Cache.{
  Entry, KeyedLookup, DnsCache, CacheLookupMeta, CacheProbe, keyed, is_some, lookup_into_keyed,
  probe_stripped, get_into_with_ecs_fallback,
}
use pathdns.Cache.Serve.{IsSound}
use pathdns.Cache.Lookup.{holding}
use pathdns.Cache.Holds.{Holds}
use pathdns.Cache.Runs.{IsAnswer}
use pathdns.Cache.Missed.{IsMissed, Loses, IfMissed, Loses-IsMissed, lookup-IfMissed}

cache_key_total :
    (query : List ℕ) (question_end hash hash_end : ℕ) (v : QueryVariant) (strip_ecs : Bool)
    → (key : ℕ) × (cache_key_from_qname_hash query question_end hash hash_end v strip_ecs ≡ ok key)
unfolding cache_key_from_qname_hash
cache_key_total query question_end hash hash_end v strip =
    elim (Bool-cases (has_invalid_shape query question_end)) [
      | inl e ↦ (invalid_shape_key query question_end, rw e refl)
      | inr e ↦ (
        finish_cache_key hash (take (question_end - 12) (drop 12 query)) hash_end v strip,
        rw (e, slice_lem query 12 question_end (ground arith) (ground arith)) refl,
      )
    ]

module _ (S : Store ℕ Entry) where
  open S use {State}

  abbrev Result : Type 0
  Result = Outcome (DnsCache State × Option (List ℕ × CacheLookupMeta) × CacheProbe)

  -- The properties and the key of the query with all of them; and, only for a query with a client
  -- subnet, its key without the subnet.
  abbrev pub IsStripped : List ℕ → FastQueryInfo → QueryVariant → Option ℕ → Type 0
  IsStripped query fast v none = Unit {0}
  IsStripped query fast v (some key) =
      (is_some S v.ecs_src ≡ true)
      × (cache_key_from_qname_hash query fast.question_end fast.qname_wire_hash
            fast.qname_wire_hash_end v true
          ≡ ok key)

  pub record HasKeys (query : List ℕ) (fast : FastQueryInfo) (probe : CacheProbe) : Type 0 where
    pub variant : extract_variant query fast.question_end ≡ ok probe.variant
    pub regular :
        cache_key_from_qname_hash query fast.question_end fast.qname_wire_hash
          fast.qname_wire_hash_end probe.variant false
        ≡ ok probe.regular_key
    pub stripped : IsStripped query fast probe.variant probe.stripped_key

  -- The request under one of the keys.
  abbrev pub regular_request : List ℕ → FastQueryInfo → Bool → CacheProbe → KeyedLookup
  regular_request query fast collect probe =
      keyed S query fast probe.variant collect probe.regular_key false

  abbrev pub stripped_request : List ℕ → FastQueryInfo → Bool → CacheProbe → ℕ → KeyedLookup
  stripped_request query fast collect probe key = keyed S query fast probe.variant collect key true

  -- What the second probe comes to.
  abbrev pub IsSecond :
      (ℕ → Entry → Type 0) → State → KeyedLookup → ℕ → Option (List ℕ × CacheLookupMeta) → Type 0
  IsSecond P cache request now none = IsMissed S cache request now
  IsSecond P cache request now (some hit) = IsAnswer P request now (some hit)

  -- A hit under the regular key; or a miss under it and either no client subnet, and a miss, or what
  -- the probe under the key without the subnet comes to.
  abbrev pub IsProbed :
      (ℕ → Entry → Type 0)
      → State
      → List ℕ
      → FastQueryInfo
      → Bool
      → ℕ
      → Option (List ℕ × CacheLookupMeta)
      → CacheProbe
      → Type 0
  IsProbed P cache query fast collect now answer probe =
      HasKeys query fast probe
      × (((hit : List ℕ × CacheLookupMeta) × (answer ≡ some hit)
            × IsAnswer P (regular_request query fast collect probe) now (some hit))
          ⊎ (IsMissed S cache (regular_request query fast collect probe) now
              × (((is_some S probe.variant.ecs_src ≡ false) × (answer ≡ none))
                  ⊎ ((key : ℕ) × (probe.stripped_key ≡ some key)
                      × IsSecond P cache (stripped_request query fast collect probe key) now
                          answer))))

  abbrev Probed :
      (ℕ → Entry → Type 0)
      → DnsCache State
      → State
      → List ℕ
      → FastQueryInfo
      → Bool
      → ℕ
      → Result
      → Type 0
  Probed P self before query fast collect now r =
      (cache : State) × (answer : Option (List ℕ × CacheLookupMeta)) × (probe : CacheProbe) × (r
        ≡ ok (holding S self cache, answer, probe))
      × Holds S P cache
      × IsProbed P before query fast collect now answer probe

  second :
      (P : ℕ → Entry → Type 0) (before cache after : State) (request : KeyedLookup) (now : ℕ)
      (answer : Option (List ℕ × CacheLookupMeta))
      → Loses S before cache now
      → IsAnswer P request now answer
      → IfMissed S cache after request now answer
      → IsSecond P before request now answer
  second P before cache after request now none lost a m =
      Loses-IsMissed S before cache request now lost m.0
  second P before cache after request now (some hit) lost a m = a

  module _ (P : ℕ → Entry → Type 0) (self : DnsCache State) (query : List ℕ) (fast : FastQueryInfo)
      (collect : Bool) (now : ℕ) (sound : (k : ℕ) (e : Entry) → P k e → IsSound e)
      (id : fast.id < 2 ^ 16) (from : 12 ≤ fast.question_end)
      (reach : fast.question_end ≤ length query) where
    probe_stripped-Probed :
        (before cache : State) (v : QueryVariant) (key : ℕ)
        → extract_variant query fast.question_end ≡ ok v
        → cache_key_from_qname_hash query fast.question_end fast.qname_wire_hash
            fast.qname_wire_hash_end v false
          ≡ ok key
        → Holds S P cache
        → Loses S before cache now
        → IsMissed S before (keyed S query fast v collect key false) now
        → Probed P self before query fast collect now
            (probe_stripped S (holding S self cache) query fast v key collect now)
    unfolding probe_stripped
    probe_stripped-Probed before cache v key x k all lost missed =
        elim (Bool-cases (is_some S v.ecs_src)) [
          | inr e ↦ (
            cache,
            none,
            record { variant = v; regular_key = key; stripped_key = none },
            rw (probe_stripped, e) refl,
            all,
            (record { variant = x; regular = k; stripped = tt }, inr (missed, inl (e, refl))),
          )
          | inl e ↦
              let (sk, j) =
                cache_key_total query fast.question_end fast.qname_wire_hash
                  fast.qname_wire_hash_end v true in
              let (cache', answer, l, h, a, m) =
                lookup-IfMissed S P self cache (keyed S query fast v collect sk true) now sound id
                  from reach all in
              (
                cache',
                answer,
                record { variant = v; regular_key = key; stripped_key = some sk },
                rw (probe_stripped, e, j, l) refl,
                h,
                (
                  record { variant = x; regular = k; stripped = (e, j) },
                  inr (missed, inr (sk, refl, second P before cache cache' _ now answer lost a m)),
                ),
              )
        ]

    get_into-Probed :
        (cache : State)
        → IsBytes query
        → Holds S P cache
        → Probed P self cache query fast collect now
            (get_into_with_ecs_fallback S (holding S self cache) query fast collect now)
    unfolding get_into_with_ecs_fallback
    get_into-Probed cache bytes all =
        let (v, x) = extract_variant_total query fast.question_end bytes in
        let (key, k) =
          cache_key_total query fast.question_end fast.qname_wire_hash fast.qname_wire_hash_end v
            false in
        let (cache', answer, l, h, a, m) =
          lookup-IfMissed S P self cache (keyed S query fast v collect key false) now sound id from
            reach all in
        go v key x k cache' answer l h a m
      where
        go :
            (v : QueryVariant) (key : ℕ)
            → extract_variant query fast.question_end ≡ ok v
            → cache_key_from_qname_hash query fast.question_end fast.qname_wire_hash
                fast.qname_wire_hash_end v false
              ≡ ok key
            → (cache' : State) (answer : Option (List ℕ × CacheLookupMeta))
            → lookup_into_keyed S
                (holding S self cache)
                (keyed S query fast v collect key false)
                now
              ≡ ok (holding S self cache', answer)
            → Holds S P cache'
            → IsAnswer P (keyed S query fast v collect key false) now answer
            → IfMissed S cache cache' (keyed S query fast v collect key false) now answer
            → Probed P self cache query fast collect now
                (get_into_with_ecs_fallback S (holding S self cache) query fast collect now)
        go v key x k cache' (some hit) l h a m = (
          cache',
          some hit,
          record { variant = v; regular_key = key; stripped_key = none },
          rw (get_into_with_ecs_fallback, x, k, l) refl,
          h,
          (record { variant = x; regular = k; stripped = tt }, inl (hit, refl, a)),
        )
        go v key x k cache' none l h a (missed, lost) =
            rw (get_into_with_ecs_fallback, x, k, l)
              (probe_stripped-Probed cache cache' v key x k h lost missed)

  -- In a cache that is on, whose entries all have a property that makes them sound, and for a
  -- query of bytes that `parse_query_fast` accepts, `get_into_with_ecs_fallback` returns, and
  -- every entry still has the property. It returns the properties that `extract_variant` finds in
  -- the query and the regular key that `cache_key_from_qname_hash` makes of the query and these.
  -- A packet that it answers is served, as `IsServed` says, from an entry with the property that
  -- matches and has not run out, under the regular key; or, only if no such entry was held under
  -- the regular key and the query carries a client subnet, under the key without the subnet,
  -- which it then returns. It answers none only if no entry that matches and has not run out was
  -- held under the regular key and, for a query with a client subnet, under the key without it.
  pub get_into_with_ecs_fallback-IsProbed :
      (P : ℕ → Entry → Type 0) (self : DnsCache State) (cache : State) (query : List ℕ)
      (fast : FastQueryInfo) (collect : Bool) (now : ℕ)
      → ((k : ℕ) (e : Entry) → P k e → IsSound e)
      → Holds S P cache
      → IsBytes query
      → parse_query_fast query ≡ ok fast
      → (cache' : State) × (answer : Option (List ℕ × CacheLookupMeta)) × (probe : CacheProbe)
        × (get_into_with_ecs_fallback S (holding S self cache) query fast collect now
            ≡ ok (holding S self cache', answer, probe))
        × Holds S P cache'
        × IsProbed P cache query fast collect now answer probe
  get_into_with_ecs_fallback-IsProbed P self cache query fast collect now sound all bytes parsed =
      let q : IsQuestion query fast =
        Returns-ok _ _ fast (parse_query_fast-IsQuestion query bytes) parsed in
      get_into-Probed P self query fast collect now sound
        (omega (arith, q.id_at, word16-lt query 0 bytes)) (omega (arith, q.end_at)) q.inside cache
        bytes all
