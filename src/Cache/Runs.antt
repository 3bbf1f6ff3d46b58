-- ===== src/Cache/Runs.antt =====
-- The response cache (src/cache.rs) over any sequence of calls.
use pathdns.Base.{
  true, ℕ, min, ◌-◌, ◌^◌, ◌≤◌, ◌<◌, ◌≡◌, ◌⊎◌, ◌∙◌, List, [], ◌∷◌, length, All, Option, none, some,
  Outcome, ok, ◌>>=◌, Bool-cases, ltb, ◌||◌, false, inl, inr, refl, sym, subst, arith,
}
use pathdns.Base.Bytes.{slice_lem}
use pathdns.Cache.Backend.{Store}
use pathdns.Cache.{
  age_at, Entry, CacheInsert, ResolvedCachePolicy, KeyedLookup, CacheLookupMeta, DnsCache, new,
  entry_of, add, invalidate_all, lookup_into_keyed,
}
use pathdns.Cache.Serve.{IsSound, IsServed}
use pathdns.Cache.Lookup.{IsMatch, holding, lookup_into_keyed-Lookup}
use pathdns.Cache.Add.{IsInsert, IsSoundOption, entry_of-IsSound}
use pathdns.Cache.Holds.{Holds, insert-Holds, remove-Holds, clear-Holds}

-- A call of the cache, with the time at which it is made.
pub data Call : Type 0 where
  add_response : CacheInsert → ResolvedCachePolicy → ℕ → ℕ → Call
  look_up : KeyedLookup → ℕ → Call
  invalidate : Call

-- What the callers see to: responses of bytes, ids of 16 bits.
abbrev pub IsCall : Call → Type 0
IsCall (add_response ins policy rule_id now) = IsInsert ins policy
IsCall (look_up request now) = request.client_id < 2 ^ 16
IsCall invalidate = Unit

-- The entry was made by an addition under the key.
abbrev pub Makes : Call → ℕ → Entry → Type 0
Makes (add_response ins policy rule_id now) key e =
    (ins.key ≡ key) × (entry_of ins policy rule_id now ≡ ok (some e))
Makes (look_up request now) key e = ⊥
Makes invalidate key e = ⊥

-- A call that does not empty the cache.
abbrev pub IsKept : Call → Type 0
IsKept (add_response ins policy rule_id now) = Unit
IsKept (look_up request now) = Unit
IsKept invalidate = ⊥

-- Made by an addition behind which the cache is not emptied.
abbrev pub MadeBy : List Call → ℕ → Entry → Type 0
MadeBy [] key e = ⊥
MadeBy (c ∷ cs) key e = (Makes c key e × All IsKept cs) ⊎ MadeBy cs key e

Makes-IsSound : (c : Call) (key : ℕ) (e : Entry) → IsCall c → Makes c key e → IsSound e
Makes-IsSound (add_response ins policy rule_id now) key e i (k, m) =
    let (o, w, s) = entry_of-IsSound ins policy rule_id now i in go o s (sym w ∙ m)
  where
    go : (o : Option Entry) → IsSoundOption o → ok o ≡ ok (some e) → IsSound e
    go none s h = absurd (cc)
    go (some f) s h = subst IsSound (injective h) s
      where
        injective : ok (some f) ≡ ok (some e) → f ≡ e
        injective q = cc
Makes-IsSound (look_up request now) key e i m = absurd m
Makes-IsSound invalidate key e i m = absurd m

-- What is sent comes from an entry with property `P` under the key, which matches and has not run out.
abbrev pub IsAnswer :
    (ℕ → Entry → Type 0) → KeyedLookup → ℕ → Option (List ℕ × CacheLookupMeta) → Type 0
IsAnswer P request now none = Unit
IsAnswer P request now (some (out, about)) =
    (e : Entry) × P request.key e
    × IsMatch e request
    × (age_at now e.inserted < e.ttl)
    × IsServed e request (min (age_at now e.inserted) (2 ^ 32 - 1)) out
    × (about.rule_id ≡ e.rule_id)

module _ (S : Store ℕ Entry) where
  open S use {State, with_capacity, get, insert, remove, clear, get-with_capacity}

  abbrev pub step : Call → DnsCache State → Outcome (DnsCache State)
  step (add_response ins policy rule_id now) self = add S self ins policy rule_id now
  step (look_up request now) self = do (self', _) ← lookup_into_keyed S self request now; ok self'
  step invalidate self = ok (invalidate_all S self)

  abbrev pub run : List Call → DnsCache State → Outcome (DnsCache State)
  run [] self = ok self
  run (c ∷ cs) self = step c self >>= run cs

  add-Holds :
      (P : ℕ → Entry → Type 0) (self : DnsCache State) (cache : State) (ins : CacheInsert)
      (policy : ResolvedCachePolicy) (rule_id now : ℕ)
      → IsInsert ins policy
      → Holds S P cache
      → (cache' : State) × (add S (holding S self cache) ins policy rule_id now
          ≡ ok (holding S self cache'))
        × Holds S (λ k e. P k e ⊎ Makes (add_response ins policy rule_id now) k e) cache'
  unfolding add
  add-Holds P self cache ins policy rule_id now i all =
      let (o, w, s) = entry_of-IsSound ins policy rule_id now i in go o w
    where
      go :
          (o : Option Entry)
          → entry_of ins policy rule_id now ≡ ok o
          → (cache' : State) × (add S (holding S self cache) ins policy rule_id now
              ≡ ok (holding S self cache'))
            × Holds S (λ k e. P k e ⊎ Makes (add_response ins policy rule_id now) k e) cache'
      go none w = (cache, rw (add, w) refl, λ k e g. inl (all k e g))
      go (some f) w = (
        insert ins.key f cache,
        rw (add, w) refl,
        insert-Holds S (λ k e. P k e ⊎ Makes (add_response ins policy rule_id now) k e) ins.key f
            cache (inr (refl, w)) (λ k e g. inl (all k e g)),
      )

  -- A lookup ends, in a map whose entries are sound, and adds nothing.
  pub lookup-Holds :
      (P : ℕ → Entry → Type 0) (self : DnsCache State) (cache : State) (request : KeyedLookup)
      (now : ℕ)
      → ((k : ℕ) (e : Entry) → P k e → IsSound e)
      → request.client_id < 2 ^ 16
      → Holds S P cache
      → (cache' : State) × (answer : Option (List ℕ × CacheLookupMeta)) × (lookup_into_keyed S
            (holding S self cache)
            request
            now
          ≡ ok (holding S self cache', answer))
        × Holds S P cache'
        × IsAnswer P request now answer
  unfolding lookup_into_keyed
  lookup-Holds P self cache request now sound id all =
      elim (Bool-cases
        (ltb request.question_end 12 || ltb (length request.query) request.question_end)) [
          | inl e ↦ (cache, none, rw (lookup_into_keyed, e) refl, all, tt)
          | inr e ↦ go (get request.key cache) refl e (ground arith) (ground arith)
        ]
    where
      go :
          (o : Option Entry)
          → get request.key cache ≡ o
          → (ltb request.question_end 12 || ltb (length request.query) request.question_end) ≡ false
          → 12 ≤ request.question_end
          → request.question_end ≤ length request.query
          → (cache' : State) × (answer : Option (List ℕ × CacheLookupMeta)) × (lookup_into_keyed S
                (holding S self cache)
                request
                now
              ≡ ok (holding S self cache', answer))
            × Holds S P cache'
            × IsAnswer P request now answer
      go none g e from reach =
          let s = slice_lem request.query 12 request.question_end from reach in
          (cache, none, rw (lookup_into_keyed, e, s, g) refl, all, tt)
      go (some f) g e from reach =
          elim (lookup_into_keyed-Lookup S self cache request f now g
            (sound request.key f (all request.key f g)) from reach id) [
              | inl (_, r) ↦ (cache, none, r, all, tt)
              | inr (inl (_, _, r)) ↦
                  (remove request.key cache, none, r, remove-Holds S P request.key cache all, tt)
              | inr (inr (m, fresh, (out, about, r, served, id))) ↦
                  (cache, some (out, about), r, all, (f, all request.key f g, m, fresh, served, id))
            ]

  step-Holds :
      (P : ℕ → Entry → Type 0) (self : DnsCache State) (cache : State) (c : Call)
      → ((k : ℕ) (e : Entry) → P k e → IsSound e)
      → IsCall c
      → Holds S P cache
      → (cache' : State) × (step c (holding S self cache) ≡ ok (holding S self cache'))
        × Holds S (λ k e. (P k e × IsKept c) ⊎ Makes c k e) cache'
  unfolding invalidate_all
  step-Holds P self cache (add_response ins policy rule_id now) sound i all =
      let (cache', e, h) = add-Holds P self cache ins policy rule_id now i all in
      (cache', e, λ k f g. kept (h k f g))
    where
      kept : {A B : Type 0} → A ⊎ B → (A × Unit {0}) ⊎ B
      kept (inl a) = inl (a, tt)
      kept (inr b) = inr b
  step-Holds P self cache (look_up request now) sound i all =
      let (cache', answer, e, h, _) = lookup-Holds P self cache request now sound i all in
      (cache', rw e refl, λ k f g. inl (h k f g, tt))
  step-Holds P self cache invalidate sound i all =
      (clear cache, refl, λ k f g. absurd (clear-Holds S (λ k e. ⊥) cache k f g))

  run-Holds :
      (cs : List Call) (P : ℕ → Entry → Type 0) (self : DnsCache State) (cache : State)
      → ((k : ℕ) (e : Entry) → P k e → IsSound e)
      → All IsCall cs
      → Holds S P cache
      → (cache' : State) × (run cs (holding S self cache) ≡ ok (holding S self cache'))
        × Holds S (λ k e. (P k e × All IsKept cs) ⊎ MadeBy cs k e) cache'
  run-Holds [] P self cache sound i all = (cache, refl, λ k e g. inl (all k e g, tt))
  run-Holds (c ∷ cs) P self cache sound i all =
      let (one, e, h) = step-Holds P self cache c sound i.0 all in
      let (two, e', h') =
        run-Holds cs (λ k f. (P k f × IsKept c) ⊎ Makes c k f) self one (either c sound i.0) i.1
          h in
      (two, rw (e, e') refl, λ k f g. assoc (h' k f g))
    where
      either :
          (c : Call)
          → ((k : ℕ) (e : Entry) → P k e → IsSound e)
          → IsCall c
          → (k : ℕ) (e : Entry) → (P k e × IsKept c) ⊎ Makes c k e
          → IsSound e
      either c s i k e (inl (p, q)) = s k e p
      either c s i k e (inr m) = Makes-IsSound c k e i m

      assoc : {A K B L C : Type 0} → (((A × K) ⊎ B) × L) ⊎ C → (A × (K × L)) ⊎ ((B × L) ⊎ C)
      assoc (inl (inl (a, k), l)) = inl (a, (k, l))
      assoc (inl (inr b, l)) = inr (inl (b, l))
      assoc (inr c) = inr (inr c)

  -- Make a response cache of positive capacity, over any map that keeps the laws of `Store`, and
  -- run any list of additions, lookups and invalidations on it, in which added packets are of
  -- bytes and shorter than 2^32, their questions end between 12 and the query's length, lower TTL
  -- bounds are below 2^32 and client ids have 16 bits. All calls return, and so does a further
  -- lookup with such an id. What it answers comes from an entry that one of the additions made
  -- under the lookup's key, with no invalidation after it, that matches the request and whose age
  -- in seconds is less than its TTL; the packet sent is as `IsServed` says: the entry's, with the
  -- client's id and question, and with each listed TTL less the age.
  pub lookup_after_run :
      (capacity min_ttl max_ttl : ℕ) (cs : List Call) (request : KeyedLookup) (now : ℕ)
      → 0 < capacity
      → All IsCall cs
      → request.client_id < 2 ^ 16
      → (before : DnsCache State) × (after : DnsCache State) × (answer : Option
          (List ℕ × CacheLookupMeta))
        × (run cs (new S capacity min_ttl max_ttl) ≡ ok before)
        × (lookup_into_keyed S before request now ≡ ok (after, answer))
        × IsAnswer (MadeBy cs) request now answer
  unfolding new
  lookup_after_run capacity min_ttl max_ttl cs request now positive i id =
      let empty : State = with_capacity capacity in
      let self : DnsCache State = record { cache = none; min_ttl = min_ttl; max_ttl = max_ttl } in
      let on : ltb 0 capacity ≡ true = ground arith in
      let (cache, e, h) =
        run-Holds cs (λ k f. ⊥) self empty (λ k f x. absurd x) i
          (λ k f g. absurd (contradict (get-with_capacity capacity k) g)) in
      let held : Holds S (MadeBy cs) cache = λ k f g. only_right (h k f g) in
      let (cache', answer, r, _, a) =
        lookup-Holds (MadeBy cs) self cache request now (made_sound cs i) id held in
      (holding S self cache, holding S self cache', answer, rw on e, r, a)
    where
      contradict : {o : Option Entry} {f : Entry} → o ≡ none → o ≡ some f → ⊥
      contradict a b = cc

      only_right : {A B : Type 0} → (⊥ × A) ⊎ B → B
      only_right (inl a) = absurd a.0
      only_right (inr b) = b

      made_sound :
          (cs : List Call) → All IsCall cs → (k : ℕ) (f : Entry) → MadeBy cs k f → IsSound f
      made_sound [] i k f m = absurd m
      made_sound (c ∷ cs) i k f (inl (m, q)) = Makes-IsSound c k f i.0 m
      made_sound (c ∷ cs) i k f (inr m) = made_sound cs i.1 k f m
