-- ===== src/Route/First.antt =====
-- `RouteIndex::route` of src/route_index.rs against the scan of the rules, over any sequence of calls
-- on one index.
use pathdns.Base.{
  ℕ, ◌≤◌, ◌<◌, ◌≡◌, ◌⊎◌, inl, inr, List, [], ◌∷◌, map, Bool, true, false, not, ◌||◌, Option, none,
  some, Outcome, ok, ◌>>=◌, ◌==◌, if◌then◌else◌, Bool-cases, length, get_elem?, refl, sym, ap, ◌∙◌,
  arith,
}
use pathdns.Cache.Backend.{Store}
use pathdns.Ruleset.{is_some}
use pathdns.Route.{
  Rule, usize_max, Db, RouteIndex, build, route_uncached, route_looked, route_from, route,
}
use pathdns.Route.Linear.{linear_route}
use pathdns.Route.Place
use pathdns.Route.Place.{get_elem?-eq_none}

module _ (K : Type 0) (Regex : Type 0) (is_match : Regex → List ℕ → Bool)
    (wild : List ℕ → Option Regex) where
  -- The database, once it is loaded.
  abbrev pub shown : Db Regex is_match wild → Bool → Option (Db Regex is_match wild)
  shown db true = some db
  shown db false = none

  module _ (S : Store (List ℕ) ℕ) where
    open S use {State}

    -- Calls of `route` one after the other on one index: names, and whether the database is there.
    unfoldable pub run_routes :
        RouteIndex Regex is_match wild State
        → List (Rule K)
        → Db Regex is_match wild
        → List (List ℕ × Bool)
        → Outcome (List (Option (Rule K)))
    unfolding route
    run_routes self rules db [] = ok []
    run_routes self rules db ((qname, loaded) ∷ calls) = do
      r ← route Regex is_match wild S self rules qname (shown db loaded)
      rest ← run_routes r.0 rules db calls
      ok (r.1 ∷ rest)

  module _ (S : Store (List ℕ) ℕ) (rules : List (Rule K)) (capacity : ℕ)
      (db : Db Regex is_match wild) (short : length rules < usize_max)
      (few : length (build Regex is_match wild S rules capacity).tag_names ≤ 65536) where
    open S use {State}

    abbrev I : RouteIndex Regex is_match wild State
    I = Place.I K Regex is_match wild S rules capacity db short few

    abbrev line : Option (Db Regex is_match wild) → List ℕ → ℕ
    line = Place.line K Regex is_match wild S rules capacity db short few

    abbrev with_cache : State → RouteIndex Regex is_match wild State
    with_cache = Place.with_cache K Regex is_match wild S rules capacity db short few

    abbrev answer : Option (Db Regex is_match wild) → List ℕ → Option (Rule K)
    answer = Place.answer K Regex is_match wild S rules capacity db short few

    -- Every cached place is the one that the scan finds with the database.
    abbrev CacheOk : State → Type 0
    CacheOk c = (qname : List ℕ) (i : ℕ) → S.get qname c ≡ some i → i ≡ line (some db) qname

    CacheOk-insert :
        (qname : List ℕ) (c : State) → CacheOk c → CacheOk (S.insert qname (line (some db) qname) c)
    CacheOk-insert qname c h other i g = go (S.get-insert qname other (line (some db) qname) c)
      where
        none≢some : none ≡ some i → ⊥
        none≢some e = cc

        some-injective : {a b : ℕ} → some a ≡ some b → a ≡ b
        some-injective e = cc

        go :
            (S.get other (S.insert qname (line (some db) qname) c) ≡ none)
              ⊎ (S.get other (S.insert qname (line (some db) qname) c)
                  ≡ (if S.same qname other then some (line (some db) qname) else S.get other c))
            → i ≡ line (some db) other
        go (inl e) = absurd (none≢some (sym e ∙ g))
        go (inr e) = elim (Bool-cases (S.same qname other)) [
          | inl b ↦
              some-injective (sym (rw b at (sym e ∙ g)))
              ∙ ap (line (some db)) (S.same-sound qname other b)
          | inr b ↦ h other i (rw b at (sym e ∙ g))
        ]

    -- A call whose answer is the scan's, and which leaves a sound cache.
    abbrev IsRouted : State → List ℕ → Bool → Type 0
    IsRouted c qname loaded =
        (c' : State) × (route Regex is_match wild S (with_cache c) rules qname (shown db loaded)
          ≡ ok (with_cache c', answer (shown db loaded) qname))
        × CacheOk c'

    usable :
        (loaded : Bool) (qname : List ℕ)
        → (is_some (shown db loaded) || not I.needs_ruleset) ≡ true
        → line (some db) qname ≡ line (shown db loaded) qname
    usable true qname b = refl
    usable false qname b =
        sym (Place.line_untagged K Regex is_match wild S rules capacity db short few qname (off b))
      where
        off : {n : Bool} → not n ≡ true → n ≡ false
        off h = ground arith

    computed :
        (cached : Bool) (qname : List ℕ) (loaded : Bool) (c : State)
        → route_uncached Regex is_match wild S (with_cache c) rules qname (shown db loaded) cached
          ≡ ok (
            with_cache (if cached then S.insert qname (line (shown db loaded) qname) c else c),
            answer (shown db loaded) qname,
          )
    unfolding route_uncached
    computed true qname loaded c =
        rw
          (
            Place.uncached K Regex is_match wild S rules capacity db short few (shown db loaded)
                qname c,
            Place.rule_at K Regex is_match wild S rules capacity db short few (shown db loaded)
                qname _ refl,
          )
          refl
    computed false qname loaded c =
        rw
          (
            Place.uncached K Regex is_match wild S rules capacity db short few (shown db loaded)
                qname c,
            Place.rule_at K Regex is_match wild S rules capacity db short few (shown db loaded)
                qname _ refl,
          )
          refl

    abbrev looked :
        Option ℕ
        → Bool
        → State
        → List ℕ
        → Bool
        → Outcome (RouteIndex Regex is_match wild State × Option (Rule K))
    looked got cached c qname loaded =
        route_looked Regex is_match wild S got cached (with_cache c) rules qname (shown db loaded)

    by_cache :
        (qname : List ℕ) (loaded cached : Bool) (c : State)
        → CacheOk c
        → (cached ≡ true → line (some db) qname ≡ line (shown db loaded) qname)
        → (c' : State) × (looked (if cached then S.get qname c else none) cached c qname loaded
            ≡ ok (with_cache c', answer (shown db loaded) qname))
          × CacheOk c'
    unfolding route_looked
    by_cache qname loaded false c h same = (c, computed false qname loaded c, h)
    by_cache qname loaded true c h same = go (S.get qname c) refl
      where
        hit :
            (i : ℕ)
            → i ≡ line (shown db loaded) qname
            → (if i == usize_max then none else get_elem? rules i) ≡ answer (shown db loaded) qname
        hit i e = elim (Bool-cases (i == usize_max)) [
          | inl m ↦ rw m (
              sym (get_elem?-eq_none rules i (ground arith))
              ∙ Place.rule_at K Regex is_match wild S rules capacity db short few (shown db loaded)
                  qname i e)
          | inr m ↦ rw m (
              Place.rule_at K Regex is_match wild S rules capacity db short few (shown db loaded)
                qname i e)
        ]

        go :
            (o : Option ℕ)
            → S.get qname c ≡ o
            → (c' : State) × (looked (S.get qname c) true c qname loaded
                ≡ ok (with_cache c', answer (shown db loaded) qname))
              × CacheOk c'
        go none g = (
          S.insert qname (line (some db) qname) c,
          ap (λ o. looked o true c qname loaded) g
              ∙ computed true qname loaded c
              ∙ ap (λ (i : ℕ). ok (with_cache (S.insert qname i c), answer (shown db loaded) qname))
                  (sym (same refl)),
          CacheOk-insert qname c h,
        )
        go (some i) g = (
          c,
          ap (λ o. looked o true c qname loaded) g
              ∙ ap (λ x. ok (with_cache c, x)) (hit i (h qname i g ∙ same refl)),
          h,
        )

    -- One call answers what the scan of the rules does, and leaves a sound cache.
    route_lem : (qname : List ℕ) (loaded : Bool) (c : State) → CacheOk c → IsRouted c qname loaded
    unfolding route route_from
    route_lem qname loaded c h = go I.constant_route refl
      where
        go :
            (o : Option (Option ℕ))
            → I.constant_route ≡ o
            → (c' : State) × (route_from Regex is_match wild S I.constant_route
                  (with_cache c)
                  rules
                  qname
                  (shown db loaded)
                ≡ ok (with_cache c', answer (shown db loaded) qname))
              × CacheOk c'
        go (some none) e = (
          c,
          ap (λ o. route_from Regex is_match wild S o (with_cache c) rules qname (shown db loaded))
                e
              ∙ ap (λ x. ok (with_cache c, x))
                  (sym (get_elem?-eq_none rules usize_max (omega arith))
                    ∙ Place.rule_at K Regex is_match wild S rules capacity db short few
                        (shown db loaded) qname usize_max
                        (sym (
                          Place.constant K Regex is_match wild S rules capacity db short few none
                            (shown db loaded) qname e))),
          h,
        )
        go (some (some i)) e = (
          c,
          ap (λ o. route_from Regex is_match wild S o (with_cache c) rules qname (shown db loaded))
                e
              ∙ ap (λ x. ok (with_cache c, x))
                  (Place.rule_at K Regex is_match wild S rules capacity db short few
                    (shown db loaded) qname i
                    (sym (
                      Place.constant K Regex is_match wild S rules capacity db short few (some i)
                        (shown db loaded) qname e))),
          h,
        )
        go none e =
            let (c', f, h') =
              by_cache qname loaded (is_some (shown db loaded) || not I.needs_ruleset) c h
                (usable loaded qname) in
            (
              c',
              ap
                    (λ o.
                      route_from Regex is_match wild S o (with_cache c) rules qname
                        (shown db loaded))
                    e
                  ∙ f,
              h',
            )

    run_lem :
        (calls : List (List ℕ × Bool)) (c : State)
        → CacheOk c
        → run_routes S (with_cache c) rules db calls
          ≡ ok (map (λ call. answer (shown db call.1) call.0) calls)
    unfolding run_routes
    run_lem [] c h = refl
    run_lem ((qname, loaded) ∷ calls) c h =
        let (c', e, h') = route_lem qname loaded c h in rw (e, run_lem calls c' h') refl

  -- For any map that keeps the laws of `Store`, any rules, fewer than 2^64 - 1, with at most
  -- 65536 different tags, and any list of calls of `route` on the index that `build` makes of
  -- them, each for a name and with the loaded database or without one, all calls return, and each
  -- answers what the scan of the rules from the first on does: the first rule that takes the
  -- name. The scan tests a domain pattern by itself and asks the database about a tag.
  pub run_routes-linear_route :
      (S : Store (List ℕ) ℕ) (rules : List (Rule K)) (capacity : ℕ) (db : Db Regex is_match wild)
      (calls : List (List ℕ × Bool))
      → length rules < usize_max
      → length (build Regex is_match wild S rules capacity).tag_names ≤ 65536
      → run_routes S (build Regex is_match wild S rules capacity) rules db calls
        ≡ ok (map (λ call. linear_route Regex is_match wild (shown db call.1) call.0 rules) calls)
  unfolding build
  run_routes-linear_route S rules capacity db calls short few =
      run_lem S rules capacity db short few calls _
        (λ qname i g. absurd (none≢some (sym (S.get-with_capacity _ qname) ∙ g)))
    where
      none≢some : {i : ℕ} → none ≡ some i → ⊥
      none≢some e = cc
