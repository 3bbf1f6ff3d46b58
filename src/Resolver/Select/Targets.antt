-- ===== src/Resolver/Select/Targets.antt =====
-- The targets that `resolve_query` of src/resolver.rs chooses, over any sequence of queries on one
-- index, against the scan of the rules.
use pathdns.Base.{
  ℕ, ◌≤◌, ◌<◌, ◌≡◌, ◌⊎◌, inl, inr, List, [], ◌∷◌, map, Bool, true, false, ◌&&◌, Option, none, some,
  Outcome, ok, ◌>>=◌, bind-ok, if◌then◌else◌, length, refl, sym, ap, ◌∙◌,
}
use pathdns.Cache.Backend.{Store}
use pathdns.Route.{usize_max, Db, RouteIndex, build, route_from, route}
use pathdns.Route.Linear.{linear_route}
use pathdns.Route.First.{shown, run_routes, run_routes-linear_route}
use pathdns.Router.{
  PoolRule, ServerKind, FallbackTarget, RouteTarget, target, RoutingConfig, resolve_fallback,
}
use pathdns.Router.Fallback.{IsFallback, classify_target-IsFallback}
use pathdns.Resolver.Select.{target_or_final, select_from, select_target}

module _ (Pool : Type 0) (Regex : Type 0) (is_match : Regex → List ℕ → Bool)
    (wild : List ℕ → Option Regex) where
  -- The database in the snapshot, once it is loaded.
  abbrev pub in_snapshot : Db Regex is_match wild → Bool → Option (Db Regex is_match wild)
  in_snapshot = shown (ServerKind Pool) Regex is_match wild

  module _ (S : Store (List ℕ) ℕ) where
    open S use {State}

    -- Queries one after the other on one index: the name, the type, and whether the database is
    -- there.
    unfoldable pub run_selects :
        RouteIndex Regex is_match wild State
        → RoutingConfig Pool
        → Db Regex is_match wild
        → List (List ℕ × ℕ × Bool)
        → Outcome (List (RouteTarget Pool))
    unfolding select_target
    run_selects routing_index hot db [] = ok []
    run_selects routing_index hot db ((qname, qtype, loaded) ∷ queries) = do
      r ←
          select_target Pool Regex is_match wild S routing_index hot (in_snapshot db loaded) qname
            qtype
      rest ← run_selects r.0 hot db queries
      ok (r.1 ∷ rest)

    -- One match on the constant: `route` decides by it in the same way.
    select_target-route :
        (routing_index : RouteIndex Regex is_match wild State) (hot : RoutingConfig Pool)
        (rule_sets : Option (Db Regex is_match wild)) (qname : List ℕ) (qtype : ℕ)
        → select_target Pool Regex is_match wild S routing_index hot rule_sets qname qtype ≡ (do
          r ←
              route Regex is_match wild S routing_index hot.rules qname
                (if hot.needs_ruleset then rule_sets else none)
          t ← target_or_final Pool hot qtype r.1
          ok (r.0, t))
    unfolding select_target select_from route route_from target_or_final
    select_target-route routing_index hot rule_sets qname qtype =
        go routing_index.constant_route refl
      where
        go :
            (o : Option (Option ℕ))
            → routing_index.constant_route ≡ o
            → select_from Pool Regex is_match wild S o routing_index hot rule_sets qname qtype ≡ (do
              r ←
                  route_from Regex is_match wild S o routing_index hot.rules qname
                    (if hot.needs_ruleset then rule_sets else none)
              t ← target_or_final Pool hot qtype r.1
              ok (r.0, t))
        go none e =
            ap
              (λ c. do
                r ←
                    route_from Regex is_match wild S c routing_index hot.rules qname
                      (if hot.needs_ruleset then rule_sets else none)
                t ← target_or_final Pool hot qtype r.1
                ok (r.0, t))
              e
        go (some none) e = refl
        go (some (some i)) e = refl

    module _ (hot : RoutingConfig Pool) (final : FallbackTarget) (db : Db Regex is_match wild) where
      abbrev rule_sets_at : Bool → Option (Db Regex is_match wild)
      rule_sets_at loaded = if hot.needs_ruleset then in_snapshot db loaded else none

      -- The first rule that takes the name, and if none does, the fallback.
      abbrev pub IsSelected : List ℕ × ℕ × Bool → RouteTarget Pool → Type 0
      IsSelected (qname, qtype, loaded) t =
          ((rule : PoolRule Pool) × (linear_route Regex is_match wild (rule_sets_at loaded) qname
                hot.rules
              ≡ some rule)
            × (t ≡ target Pool rule))
          ⊎ ((linear_route Regex is_match wild (rule_sets_at loaded) qname hot.rules ≡ none)
              × IsFallback Pool final hot.rules hot.servers qtype t)

      abbrev pub AreSelected : List (List ℕ × ℕ × Bool) → List (RouteTarget Pool) → Type 0
      AreSelected [] [] = Unit {0}
      AreSelected [] (t ∷ ts) = ⊥
      AreSelected (q ∷ qs) [] = ⊥
      AreSelected (q ∷ qs) (t ∷ ts) = IsSelected q t × AreSelected qs ts

      -- The query as a call of `route`.
      abbrev routed : List ℕ × ℕ × Bool → List ℕ × Bool
      routed (qname, qtype, loaded) = (qname, hot.needs_ruleset && loaded)

      rule_sets_at_lem :
          (loaded : Bool) → in_snapshot db (hot.needs_ruleset && loaded) ≡ rule_sets_at loaded
      rule_sets_at_lem loaded = go hot.needs_ruleset
        where
          go :
              (b : Bool)
              → in_snapshot db (b && loaded) ≡ (if b then in_snapshot db loaded else none)
          go true = refl
          go false = refl

      abbrev scanned : List ℕ × Bool → Option (PoolRule Pool)
      scanned (qname, loaded) =
          linear_route Regex is_match wild (in_snapshot db loaded) qname hot.rules

      finished :
          resolve_fallback Pool final hot.rules hot.servers ≡ ok hot.fallback
          → (qname : List ℕ) (qtype : ℕ) (loaded : Bool) (o : Option (PoolRule Pool))
          → linear_route Regex is_match wild (rule_sets_at loaded) qname hot.rules ≡ o
          → (t : RouteTarget Pool) × (target_or_final Pool hot qtype o ≡ ok t)
            × IsSelected (qname, qtype, loaded) t
      unfolding target_or_final
      finished resolved qname qtype loaded (some rule) e =
          (target Pool rule, refl, inl (rule, e, refl))
      finished resolved qname qtype loaded none e =
          let (t, f, h) = classify_target-IsFallback Pool hot final qtype resolved in
          (t, f, inr (e, h))

      step_lem :
          (qname : List ℕ) (qtype : ℕ) (loaded : Bool) (queries : List (List ℕ × ℕ × Bool))
          (routing_index : RouteIndex Regex is_match wild State)
          (r : RouteIndex Regex is_match wild State × Option (PoolRule Pool)) (t : RouteTarget Pool)
          (ts : List (RouteTarget Pool))
          → route Regex is_match wild S routing_index hot.rules qname (rule_sets_at loaded) ≡ ok r
          → target_or_final Pool hot qtype r.1 ≡ ok t
          → run_selects r.0 hot db queries ≡ ok ts
          → run_selects routing_index hot db ((qname, qtype, loaded) ∷ queries) ≡ ok (t ∷ ts)
      unfolding run_selects
      step_lem qname qtype loaded queries routing_index r t ts f j k =
          rw (select_target-route routing_index hot (in_snapshot db loaded) qname qtype, f, j, k)
            refl

      run_selects_from :
          resolve_fallback Pool final hot.rules hot.servers ≡ ok hot.fallback
          → (queries : List (List ℕ × ℕ × Bool))
            (routing_index : RouteIndex Regex is_match wild State)
          → run_routes
              (ServerKind Pool)
              Regex
              is_match
              wild
              S
              routing_index
              hot.rules
              db
              (map routed queries)
            ≡ ok (map scanned (map routed queries))
          → (ts : List (RouteTarget Pool)) × (run_selects routing_index hot db queries ≡ ok ts)
            × AreSelected queries ts
      unfolding run_selects run_routes
      run_selects_from resolved [] routing_index e = ([], refl, tt)
      run_selects_from resolved ((qname, qtype, loaded) ∷ queries) routing_index e =
          let after : RouteIndex Regex is_match wild State
              → Outcome (List (Option (PoolRule Pool))) =
            λ index.
              run_routes (ServerKind Pool) Regex is_match wild S index hot.rules db
                (map routed queries) in
          let (r, f, g) =
            bind-ok {A = RouteIndex Regex is_match wild State × Option (PoolRule Pool)}
              (route Regex is_match wild S routing_index hot.rules qname
                (in_snapshot db (hot.needs_ruleset && loaded)))
              (λ r. do rest ← after r.0; ok (r.1 ∷ rest))
              (map scanned (map routed ((qname, qtype, loaded) ∷ queries))) e in
          let (rest, h, i) =
            bind-ok (after r.0) (λ rest. ok (r.1 ∷ rest))
              (map scanned (map routed ((qname, qtype, loaded) ∷ queries))) g in
          let (first, tail) = cons_injective (ok_injective i) in
          let (t, j, selected) = finished resolved qname qtype loaded r.1 (
            ap (λ rs. linear_route Regex is_match wild rs qname hot.rules)
              (sym (rule_sets_at_lem loaded))
            ∙ sym first) in
          let (ts, k, all) = run_selects_from resolved queries r.0 (h ∙ ap ok tail) in
          (
            t ∷ ts,
            step_lem qname qtype loaded queries routing_index r t ts
                (ap (λ rs. route Regex is_match wild S routing_index hot.rules qname rs)
                    (sym (rule_sets_at_lem loaded))
                  ∙ f)
                j k,
            (selected, all),
          )
        where
          ok_injective : {A : Type 0} {a b : A} → ok a ≡ ok b → a ≡ b
          ok_injective e = cc

          cons_injective :
              {A : Type 0} {a b : A} {xs ys : List A} → a ∷ xs ≡ b ∷ ys → (a ≡ b) × (xs ≡ ys)
          cons_injective e = (cc, cc)

  -- Take a routing state of fewer than 2^64 - 1 rules, with at most 65536 different tags, that
  -- holds what `resolve_fallback` resolved. Whatever queries come one after the other on the
  -- index that `build` makes, with the database loaded or not, `select_target` returns for each,
  -- without a panic: the target of the first rule that takes the name in the scan of the rules,
  -- and where none does, the target that `route.final` names for the type. The scan has the
  -- database only if it is loaded and the state needs it.
  pub run_selects-AreSelected :
      (S : Store (List ℕ) ℕ) (hot : RoutingConfig Pool) (final : FallbackTarget) (capacity : ℕ)
      (db : Db Regex is_match wild) (queries : List (List ℕ × ℕ × Bool))
      → resolve_fallback Pool final hot.rules hot.servers ≡ ok hot.fallback
      → length hot.rules < usize_max
      → length (build Regex is_match wild S hot.rules capacity).tag_names ≤ 65536
      → (targets : List (RouteTarget Pool)) × (run_selects S
            (build Regex is_match wild S hot.rules capacity)
            hot
            db
            queries
          ≡ ok targets)
        × AreSelected S hot final db queries targets
  run_selects-AreSelected S hot final capacity db queries resolved short few =
      run_selects_from S hot final db resolved queries _ (
        run_routes-linear_route (ServerKind Pool) Regex is_match wild S hot.rules capacity db _
          short few)
