-- ===== src/Cache/Missed.antt =====
-- What a miss of the response cache says of its entries (src/cache.rs).
use pathdns.Base.{
  ℕ, ◌^◌, ◌≤◌, ◌<◌, ◌≡◌, ◌⊎◌, ◌∙◌, List, length, Bool, true, false, Option, none, some, ok, ltb,
  ◌||◌, if◌then◌else◌, inl, inr, refl, sym, subst, arith,
}
use pathdns.Base.Bytes.{slice_lem}
use pathdns.Cache.Backend.{Store}
use pathdns.Cache.{Entry, KeyedLookup, CacheLookupMeta, DnsCache, age_at, lookup_into_keyed}
use pathdns.Cache.Serve.{IsSound}
use pathdns.Cache.Lookup.{IsMatch, holding, lookup_into_keyed-Lookup}
use pathdns.Cache.Holds.{Holds, remove-Holds}
use pathdns.Cache.Runs.{IsAnswer}

module _ (S : Store ℕ Entry) where
  open S use {State, get, remove, same, same-sound, get-remove}

  -- The entry under the request's key, if any, does not match or has run out.
  abbrev pub IsMissed : State → KeyedLookup → ℕ → Type 0
  IsMissed cache request now =
      (e : Entry)
      → get request.key cache ≡ some e
      → IsMatch e request
      → e.ttl ≤ age_at now e.inserted

  -- Only entries that have run out are lost.
  abbrev pub Loses : State → State → ℕ → Type 0
  Loses before after now =
      (key : ℕ) (e : Entry)
      → get key before ≡ some e
      → (get key after ≡ some e) ⊎ (e.ttl ≤ age_at now e.inserted)

  abbrev pub IfMissed : State → State → KeyedLookup → ℕ → Option (List ℕ × CacheLookupMeta) → Type 0
  IfMissed before after request now none = IsMissed before request now × Loses before after now
  IfMissed before after request now (some answer) = Unit {0}

  pub Loses-IsMissed :
      (before after : State) (request : KeyedLookup) (now : ℕ)
      → Loses before after now
      → IsMissed after request now
      → IsMissed before request now
  Loses-IsMissed before after request now lost missed e g m = elim (lost request.key e g) [
    | inl still ↦ missed e still m
    | inr old ↦ old
  ]

  one_entry : {a b : Entry} {o : Option Entry} → o ≡ some a → o ≡ some b → a ≡ b
  one_entry g h = cc

  removed-Loses :
      (cache : State) (key : ℕ) (f : Entry) (now : ℕ)
      → get key cache ≡ some f
      → f.ttl ≤ age_at now f.inserted
      → Loses cache (remove key cache) now
  removed-Loses cache key f now g old j e h = go (same key j) refl (get-remove key j cache)
    where
      go :
          (c : Bool)
          → same key j ≡ c
          → get j (remove key cache) ≡ (if c then none else get j cache)
          → (get j (remove key cache) ≡ some e) ⊎ (e.ttl ≤ age_at now e.inserted)
      go true s r =
          let here : get key cache ≡ some e =
            subst (λ k. get k cache ≡ some e) (sym (same-sound key j s)) h in
          inr (subst (λ x. x.ttl ≤ age_at now x.inserted) (one_entry g here) old)
      go false s r = inl (r ∙ h)

  -- A lookup whose question fits the query, with what a miss says.
  pub lookup-IfMissed :
      (P : ℕ → Entry → Type 0) (self : DnsCache State) (cache : State) (request : KeyedLookup)
      (now : ℕ)
      → ((k : ℕ) (e : Entry) → P k e → IsSound e)
      → request.client_id < 2 ^ 16
      → 12 ≤ request.question_end
      → request.question_end ≤ length request.query
      → Holds S P cache
      → (cache' : State) × (answer : Option (List ℕ × CacheLookupMeta)) × (lookup_into_keyed S
            (holding S self cache)
            request
            now
          ≡ ok (holding S self cache', answer))
        × Holds S P cache'
        × IsAnswer P request now answer
        × IfMissed cache cache' request now answer
  unfolding lookup_into_keyed
  lookup-IfMissed P self cache request now sound id from reach all = go (get request.key cache) refl
    where
      go :
          (o : Option Entry)
          → get request.key cache ≡ o
          → (cache' : State) × (answer : Option (List ℕ × CacheLookupMeta)) × (lookup_into_keyed S
                (holding S self cache)
                request
                now
              ≡ ok (holding S self cache', answer))
            × Holds S P cache'
            × IsAnswer P request now answer
            × IfMissed cache cache' request now answer
      go none g =
          let inside : (ltb request.question_end 12
                || ltb (length request.query) request.question_end)
              ≡ false =
            ground arith in
          let s = slice_lem request.query 12 request.question_end from reach in
          (
            cache,
            none,
            rw (lookup_into_keyed, inside, s, g) refl,
            all,
            tt,
            (λ e h. absurd (nothing g h), λ j e h. inl h),
          )
        where
          nothing : {e : Entry} {o : Option Entry} → o ≡ none → o ≡ some e → ⊥
          nothing a b = cc
      go (some f) g =
          elim (lookup_into_keyed-Lookup S self cache request f now g
            (sound request.key f (all request.key f g)) from reach id) [
              | inl (differ, r) ↦ (
                cache,
                none,
                r,
                all,
                tt,
                (
                  λ e h m. absurd (differ (subst (λ x. IsMatch x request) (one_entry h g) m)),
                  λ j e h. inl h,
                ),
              )
              | inr (inl (_, old, r)) ↦ (
                remove request.key cache,
                none,
                r,
                remove-Holds S P request.key cache all,
                tt,
                (
                  λ e h m. subst (λ x. x.ttl ≤ age_at now x.inserted) (one_entry g h) old,
                  removed-Loses cache request.key f now g old,
                ),
              )
              | inr (inr (m, fresh, (out, about, r, served, id))) ↦ (
                cache,
                some (out, about),
                r,
                all,
                (f, all request.key f g, m, fresh, served, id),
                tt,
              )
            ]
