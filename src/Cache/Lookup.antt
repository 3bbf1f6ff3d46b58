-- ===== src/Cache/Lookup.antt =====
-- The outcomes of a lookup in the response cache (src/cache.rs).
use pathdns.Base.{
  ℕ, ◌-◌, ◌^◌, ◌≤◌, ◌<◌, ◌≡◌, ◌⊎◌, min, List, length, take, drop, Bool, true, false, not, ◌==◌,
  Option, none, some, Outcome, ok, Bool-cases, leb, ltb, if◌then◌else◌, leb→le, inl, inr, refl, ap,
  sym, subst, ◌∙◌, arith,
}
use pathdns.Base.Bytes.{slice_lem}
use pathdns.Dns.Question.{questions_match, questions_match_total}
use pathdns.Cache.Backend.{Store}
use pathdns.Cache.{
  Entry, KeyedLookup, CacheLookupMeta, DnsCache, eq_flags, eq_variant, queries_match_v, age_at,
  lookup_entry, lookup_into_keyed,
}
use pathdns.Cache.Serve.{IsSound, IsServed, served, serve_lem, served-IsServed}

-- The question section of a query that ends at `question_end`.
abbrev pub section : List ℕ → ℕ → List ℕ
section query question_end = take (question_end - 12) (drop 12 query)

-- The entry answers the question, under the same EDNS properties.
pub record IsMatch (entry : Entry) (request : KeyedLookup) : Type 0 where
  pub same_end : entry.question_end ≡ request.question_end
  pub same_question :
      questions_match
        (section entry.query request.question_end)
        (section request.query request.question_end)
      ≡ ok true
  pub same_variant :
      (if request.strip_ecs
        then eq_flags entry.variant request.variant
        else eq_variant entry.variant request.variant)
      ≡ true

opposite : {b : Bool} → b ≡ true → b ≡ false → ⊥
opposite h k = cc

module _ (entry : Entry) (request : KeyedLookup) where
  abbrev same_properties : Bool
  same_properties =
      if request.strip_ecs
      then eq_flags entry.variant request.variant
      else eq_variant entry.variant request.variant

  abbrev matched : Outcome Bool
  matched =
      queries_match_v entry.variant request.variant entry.question_end entry.query request.query
        request.question_end request.strip_ecs

  module _ (sound : IsSound entry) (from : 12 ≤ request.question_end)
      (reach : request.question_end ≤ length request.query) where
    matched_same :
        (r : Bool)
        → (entry.question_end == request.question_end) ≡ true
        → questions_match
            (section entry.query request.question_end)
            (section request.query request.question_end)
          ≡ ok r
        → matched ≡ (if not r then ok false else ok same_properties)
    unfolding queries_match_v
    matched_same r e q =
        let long : ltb (length request.query) request.question_end ≡ false = ground arith in
        let whole : ltb (length request.query) 12 ≡ false = ground arith in
        let stored : ltb (length entry.query) 12 ≡ false =
          ground (arith, sound.question_from, sound.question_to) in
        let same : entry.question_end ≡ request.question_end = ground arith in
        let a =
          slice_lem entry.query 12 request.question_end from (omega (arith, sound.question_to)) in
        let b = slice_lem request.query 12 request.question_end from reach in
        rw (queries_match_v, e, long, whole, stored, a, b, q) refl

    -- The comparison ends, and tells whether the entry matches.
    matched-IsMatch :
        ((matched ≡ ok true) × IsMatch entry request)
        ⊎ ((matched ≡ ok false) × (IsMatch entry request → ⊥))
    matched-IsMatch =
        let (r, q) =
          questions_match_total (section entry.query request.question_end)
            (section request.query request.question_end) in
        elim (Bool-cases (entry.question_end == request.question_end)) [
          | inr e ↦ inr (
            unfold queries_match_v in rw (queries_match_v, e) (ground arith),
            λ m. ground (arith, m.same_end),
          )
          | inl e ↦ go r e q
        ]
      where
        go :
            (r : Bool)
            → (entry.question_end == request.question_end) ≡ true
            → questions_match
                (section entry.query request.question_end)
                (section request.query request.question_end)
              ≡ ok r
            → ((matched ≡ ok true) × IsMatch entry request)
              ⊎ ((matched ≡ ok false) × (IsMatch entry request → ⊥))
        go true e q = elim (Bool-cases same_properties) [
          | inl p ↦ inl (
            matched_same true e q ∙ ap ok p,
            record { same_end = ground arith; same_question = q; same_variant = p },
          )
          | inr p ↦ inr (matched_same true e q ∙ ap ok p, λ m. opposite m.same_variant p)
        ]
        go false e q = inr (matched_same false e q, λ m. absurd (differ q m.same_question))
          where
            differ : {m : Outcome Bool} → m ≡ ok false → m ≡ ok true → ⊥
            differ a b = cc

module _ (S : Store ℕ Entry) where
  open S use {State, get, remove}

  abbrev pub Answer : Type 0
  Answer = Outcome (DnsCache State × Option (List ℕ × CacheLookupMeta))

  -- What a lookup comes to that finds an entry.
  abbrev pub Lookup : DnsCache State → State → KeyedLookup → Entry → ℕ → Answer → Type 0
  Lookup self cache request entry now r =
      ((IsMatch entry request → ⊥) × (r ≡ ok (self, none)))
      ⊎ (IsMatch entry request
          × (entry.ttl ≤ age_at now entry.inserted)
          × (r ≡ ok (record self { cache = some (remove request.key cache) }, none)))
      ⊎ (IsMatch entry request
          × (age_at now entry.inserted < entry.ttl)
          × ((out : List ℕ) × (about : CacheLookupMeta) × (r ≡ ok (self, some (out, about)))
              × IsServed entry request (min (age_at now entry.inserted) (2 ^ 32 - 1)) out
              × (about.rule_id ≡ entry.rule_id)))

  lookup_entry-Lookup :
      (self : DnsCache State) (cache : State) (request : KeyedLookup) (entry : Entry) (now : ℕ)
      → IsSound entry
      → 12 ≤ request.question_end
      → request.question_end ≤ length request.query
      → request.client_id < 2 ^ 16
      → Lookup self cache request entry now
          (lookup_entry S self cache request (section request.query request.question_end) entry now)
  unfolding lookup_entry
  lookup_entry-Lookup self cache request entry now sound from reach id =
      elim (matched-IsMatch entry request sound from reach) [
        | inr (e, differ) ↦ inl (differ, rw (lookup_entry, e) refl)
        | inl (e, m) ↦ elim (Bool-cases (leb entry.ttl (age_at now entry.inserted))) [
          | inl old ↦ inr (inl (m, leb→le _ _ old, rw (lookup_entry, e, old) refl))
          | inr fresh ↦
              let elapsed : ℕ = min (age_at now entry.inserted) (2 ^ 32 - 1) in
              inr (
                inr (
                  m,
                  ground (arith, fresh),
                  (
                    served entry request elapsed sound id m.same_end reach,
                    record {
                      qname = if request.collect_qname then some entry.qname else none;
                      rule_id = entry.rule_id;
                    },
                    rw
                        (
                          lookup_entry,
                          e,
                          fresh,
                          serve_lem entry request elapsed sound id m.same_end reach,
                        )
                        refl,
                    served-IsServed entry request elapsed sound id m.same_end reach,
                    refl,
                  ),
                ))
        ]
      ]

  -- The cache with the map `cache`, switched on.
  abbrev pub holding : DnsCache State → State → DnsCache State
  holding self cache = record self { cache = some cache }

  lookup_into_keyed_found :
      (self : DnsCache State) (cache : State) (request : KeyedLookup) (entry : Entry) (now : ℕ)
      → get request.key cache ≡ some entry
      → 12 ≤ request.question_end
      → request.question_end ≤ length request.query
      → lookup_into_keyed S (holding self cache) request now
        ≡ lookup_entry S
            (holding self cache)
            cache
            request
            (section request.query request.question_end)
            entry
            now
  unfolding lookup_into_keyed
  lookup_into_keyed_found self cache request entry now g from reach =
      let a : ltb request.question_end 12 ≡ false = ground arith in
      let b : ltb (length request.query) request.question_end ≡ false = ground arith in
      let s = slice_lem request.query 12 request.question_end from reach in
      rw (lookup_into_keyed, a, b, s, g) refl

  -- When the map holds a sound entry under the request's key, the question ends between 12 and
  -- the query's length and the client's id has 16 bits, `lookup_into_keyed` misses without a
  -- change if the entry does not match, removes the entry and misses if it matches and is as old
  -- as its TTL, and serves the entry as `IsServed` says, with its rule id and without a change,
  -- if it matches and is younger.
  pub lookup_into_keyed-Lookup :
      (self : DnsCache State) (cache : State) (request : KeyedLookup) (entry : Entry) (now : ℕ)
      → get request.key cache ≡ some entry
      → IsSound entry
      → 12 ≤ request.question_end
      → request.question_end ≤ length request.query
      → request.client_id < 2 ^ 16
      → Lookup
          (holding self cache)
          cache
          request
          entry
          now
          (lookup_into_keyed S (holding self cache) request now)
  lookup_into_keyed-Lookup self cache request entry now g sound from reach id =
      subst (λ r. Lookup (holding self cache) cache request entry now r)
        (sym (lookup_into_keyed_found self cache request entry now g from reach))
        (lookup_entry-Lookup (holding self cache) cache request entry now sound from reach id)
