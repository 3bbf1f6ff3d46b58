-- ===== src/Router/Fallback.antt =====
-- What the fallback comes to at query time: `resolve_fallback` of src/server.rs and then
-- `classify_target` of src/router.rs.
use pathdns.Base.{
  ℕ, suc, ◌+◌, ◌-◌, ◌≡◌, inl, inr, List, [], ◌∷◌, false, ◌||◌, some, Outcome, ok, reject, bind-ok,
  ◌==◌, if◌then◌else◌, Bool-cases, length, get_elem?, get_or, get_elem?-eq_get_or, refl, subst,
  arith,
}
use pathdns.Dns.Question.{eq_bytes}
use pathdns.Persist.Fields.{eq_bytes_sound}
use pathdns.Ruleset.{is_empty}
use pathdns.Router.{
  Server, FallbackTarget, last_rule, to_server, dual, ResolvedFallback, race_fallback,
  cidr_fallback, index, PoolRule, RouteTarget, rule_target, server_target, race_target, cidr_test,
  RoutingConfig, pair_of, classify_at, classify_target, position, resolve_fallback,
}

ok-injective {ℓ} : {A : Type ℓ} {a b : A} → ok a ≡ ok b → a ≡ b
ok-injective e = cc

last_of :
    {A : Type 0} (xs : List A)
    → (length xs == 0) ≡ false
    → (x : A) × (get_elem? xs (length xs - 1) ≡ some x)
last_of [] e = absurd (ground arith)
last_of (x ∷ xs) e = (
  get_or (x ∷ xs) (length (x ∷ xs) - 1) x,
  get_elem?-eq_get_or (x ∷ xs) (length (x ∷ xs) - 1) x (omega arith),
)

index-ok : {A : Type 0} (xs : List A) (i : ℕ) (x : A) → get_elem? xs i ≡ some x → index xs i ≡ ok x
unfolding index
index-ok xs i x e = rw (index, e) refl

module _ (Pool : Type 0) where
  -- The server of a name, at its place.
  abbrev pub IsNamed : List (Server Pool) → List ℕ → ℕ → Server Pool → Type 0
  IsNamed servers name i s = (get_elem? servers i ≡ some s) × (s.name ≡ name)

  -- The meaning of `route.final` for a query of one type.
  abbrev pub IsFallback :
      FallbackTarget → List (PoolRule Pool) → List (Server Pool) → ℕ → RouteTarget Pool → Type 0
  IsFallback last_rule rules servers qtype t =
      (r : PoolRule Pool) × (get_elem? rules (length rules - 1) ≡ some r)
      × (t ≡ rule_target r (length rules - 1))
  IsFallback (to_server name) rules servers qtype t =
      (i : ℕ) × (s : Server Pool) × IsNamed servers name i s × (t ≡ server_target s i)
  IsFallback (dual primary secondary answer_ip) rules servers qtype t =
      (i : ℕ) × (p : Server Pool) × (j : ℕ) × (s : Server Pool) × IsNamed servers primary i p
      × IsNamed servers secondary j s
      × (t ≡ (
          if is_empty answer_ip
          then race_target p s
          else if qtype == 1 || qtype == 28
          then cidr_test p s
          else race_target p s))

  position-IsNamed :
      (name : List ℕ) (servers : List (Server Pool)) (start i : ℕ)
      → position Pool name servers start ≡ ok i
      → (k : ℕ) × (i ≡ start + k) × ((s : Server Pool) × IsNamed servers name k s)
  unfolding position
  position-IsNamed name [] start i e = cc
  position-IsNamed name (s ∷ servers) start i e = elim (Bool-cases (eq_bytes s.name name)) [
    | inl b ↦ (
      0,
      omega (arith, ok-injective {A = ℕ} (rw (position, b) at e)),
      (s, (refl, eq_bytes_sound s.name name b)),
    )
    | inr b ↦
        let (k, f, r) = position-IsNamed name servers (suc start) i (rw (position, b) at e) in
        (suc k, omega arith, r)
  ]

  place :
      (name : List ℕ) (servers : List (Server Pool)) (i : ℕ)
      → position Pool name servers 0 ≡ ok i
      → (s : Server Pool) × IsNamed servers name i s
  place name servers i e =
      let (k, f, (s, (g, n))) = position-IsNamed name servers 0 i e in
      let same : k ≡ i = omega arith in (s, (subst (λ j. get_elem? servers j ≡ some s) same g, n))

  abbrev Classified :
      FallbackTarget
      → List (PoolRule Pool)
      → List (Server Pool)
      → ℕ
      → Outcome (RouteTarget Pool)
      → Type 0
  Classified t rules servers qtype call =
      (target : RouteTarget Pool) × (call ≡ ok target) × IsFallback t rules servers qtype target

  pair_of-ok :
      (make : Server Pool → Server Pool → RouteTarget Pool) (servers : List (Server Pool)) (i j : ℕ)
      (p s : Server Pool)
      → get_elem? servers i ≡ some p
      → get_elem? servers j ≡ some s
      → pair_of Pool make servers i j ≡ ok (make p s)
  unfolding pair_of
  pair_of-ok make servers i j p s e f = rw (index-ok servers i p e, index-ok servers j s f) refl

  classify_at-Classified :
      (t : FallbackTarget) (rules : List (PoolRule Pool)) (servers : List (Server Pool)) (qtype : ℕ)
      (f : ResolvedFallback)
      → resolve_fallback Pool t rules servers ≡ ok f
      → Classified t rules servers qtype (classify_at Pool f rules servers qtype)
  unfolding classify_at resolve_fallback
  classify_at-Classified last_rule rules servers qtype f e = elim (Bool-cases (length rules == 0)) [
    | inl n ↦ absurd (reject≢ok (rw n at e))
    | inr n ↦
        let (r, g) = last_of rules n in
        subst
          (λ x. Classified last_rule rules servers qtype (classify_at Pool x rules servers qtype))
          (ok-injective (rw n at e))
          (
            rule_target r (length rules - 1),
            rw (index-ok rules (length rules - 1) r g) refl,
            (r, g, refl),
          )
  ]
    where
      reject≢ok : reject ≡ ok f → ⊥
      reject≢ok h = cc
  classify_at-Classified (to_server name) rules servers qtype f e =
      let (i, g, h) = bind-ok (position Pool name servers 0) _ f e in
      let (s, n) = place name servers i g in
      subst
        (λ x.
          Classified (to_server name) rules servers qtype (classify_at Pool x rules servers qtype))
        (ok-injective h) (server_target s i, rw (index-ok servers i s n.0) refl, (i, s, n, refl))
  classify_at-Classified (dual primary secondary m) rules servers qtype f e =
      let (i, g, h) = bind-ok (position Pool primary servers 0) _ f e in
      let (j, g', h') = bind-ok (position Pool secondary servers 0) _ f h in
      let (p, n) = place primary servers i g in
      let (s, n') = place secondary servers j g' in
      subst
        (λ x.
          Classified (dual primary secondary m) rules servers qtype
            (classify_at Pool x rules servers qtype))
        (ok-injective h') (_, chosen i j p s n.0 n'.0, (i, p, j, s, n, n', refl))
    where
      chosen :
          (i j : ℕ) (p s : Server Pool)
          → get_elem? servers i ≡ some p
          → get_elem? servers j ≡ some s
          → classify_at Pool
              (if is_empty m then race_fallback i j else cidr_fallback i j)
              rules
              servers
              qtype
            ≡ ok (
                if is_empty m
                then race_target p s
                else if qtype == 1 || qtype == 28
                then cidr_test p s
                else race_target p s)
      chosen i j p s e f = elim (Bool-cases (is_empty m)) [
        | inl b ↦ rw b (pair_of-ok race_target servers i j p s e f)
        | inr b ↦ elim (Bool-cases (qtype == 1 || qtype == 28)) [
          | inl q ↦ rw (b, q) (pair_of-ok cidr_test servers i j p s e f)
          | inr q ↦ rw (b, q) (pair_of-ok race_target servers i j p s e f)
        ]
      ]

  -- When the routing state holds what `resolve_fallback` resolved for its rules and servers,
  -- `classify_target` returns, without a panic, the target that `route.final` names: the last
  -- rule; the server of the given name; or the servers of the two given names, to be tested by
  -- the primary's addresses if the matcher is not empty and the type is A or AAAA, and to race
  -- otherwise.
  pub classify_target-IsFallback :
      (hot : RoutingConfig Pool) (t : FallbackTarget) (qtype : ℕ)
      → resolve_fallback Pool t hot.rules hot.servers ≡ ok hot.fallback
      → (target : RouteTarget Pool) × (classify_target Pool hot qtype ≡ ok target)
        × IsFallback t hot.rules hot.servers qtype target
  unfolding classify_target
  classify_target-IsFallback hot t qtype e =
      classify_at-Classified t hot.rules hot.servers qtype hot.fallback e
