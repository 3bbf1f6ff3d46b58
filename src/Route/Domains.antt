-- ===== src/Route/Domains.antt =====
-- What a compiled `DomainMatcher` of src/domain.rs takes: what one of the patterns takes that were
-- put in.
use pathdns.Base.{
  ℕ, zero, suc, ◌<◌, ◌≡◌, ◌⊎◌, inl, inr, List, [], ◌∷◌, ◌++◌, Bool, true, false, ◌||◌, Option, none,
  some, ok, ◌==◌, Bool-cases, Option-cases, if◌then◌else◌, length, refl, ap, sym, ◌∙◌, arith,
}
use pathdns.Dns.Question.{eq_bytes}
use pathdns.Domain.{
  dot, get_name, PatternKind, after_dot, suffix_loop, lookup_specific, lookup_fuzzy, suffix_pattern,
  full_pattern, wildcard, invalid, classify_pattern, insert_full, insert_suffix, insert_regex,
}
use pathdns.Ruleset
use pathdns.Ruleset.{is_some, any, RuleSetDb, domain, ip_cidr}
use pathdns.Route.{Matchers, put_pattern}
use pathdns.Route.Linear.{after_dots, pattern_hits, tag_hits}

abbrev U : Type 0
U = Unit {0}

module _ {A : Type 0} where
  pub any-append : (p : A → Bool) (xs ys : List A) → any p (xs ++ ys) ≡ (any p xs || any p ys)
  unfolding any
  any-append p [] ys = refl
  any-append p (x ∷ xs) ys = ground (arith, any-append p xs ys)

any_or :
    {A : Type 0} (p q : A → Bool) (xs : List A) → any (λ x. p x || q x) xs ≡ (any p xs || any q xs)
unfolding any
any_or p q [] = refl
any_or p q (x ∷ xs) = ground (arith, any_or p q xs)

any_never : {A : Type 0} (xs : List A) → any (λ x. false) xs ≡ false
unfolding any
any_never [] = refl
any_never (x ∷ xs) = any_never xs

-- The names a map has, each asked for by the same list of keys.
any_swap :
    {A B : Type 0} (p : A → B → Bool) (xs : List A) (ys : List B)
    → any (λ x. any (p x) ys) xs ≡ any (λ y. any (λ x. p x y) xs) ys
unfolding any
any_swap p [] ys = sym (any_never ys)
any_swap p (x ∷ xs) ys =
    ap (λ b. any (p x) ys || b) (any_swap p xs ys)
    ∙ sym (any_or (p x) (λ y. any (λ z. p z y) xs) ys)

get_name-any :
    {V : Type 0} (m : List (List ℕ × V)) (name : List ℕ)
    → is_some (get_name m name) ≡ any (λ e. eq_bytes e.0 name) m
unfolding get_name any
get_name-any [] name = refl
get_name-any ((key, v) ∷ m) name = ground (arith, get_name-any m name)

-- The first part behind a dot, and those of it.
after_dots_cases :
    (name : List ℕ)
    → ((after_dot name ≡ none) × (after_dots name ≡ []))
      ⊎ ((rest : List ℕ) × (after_dot name ≡ some rest)
          × (after_dots name ≡ rest ∷ after_dots rest)
          × (length rest < length name))
unfolding after_dot after_dots
after_dots_cases [] = inl (refl, refl)
after_dots_cases (c ∷ cs) = elim (Bool-cases (c == dot)) [
  | inl d ↦ inr (cs, rw d refl, rw d refl, omega arith)
  | inr d ↦ elim (after_dots_cases cs) [
    | inl (a, b) ↦ inl (rw d a, rw d b)
    | inr (rest, a, b, h) ↦ inr (rest, rw d a, rw d b, omega arith)
  ]
]

module _ (Regex : Type 0) (is_match : Regex → List ℕ → Bool) (wild : List ℕ → Option Regex) where
  abbrev Map : Type 0
  Map = List (List ℕ × U)

  abbrev has : Map → List ℕ → Bool
  has m s = any (λ e. eq_bytes e.0 s) m

  hit :
      (m : Map) (name : List ℕ) (v : U) (others : List (List ℕ))
      → get_name m name ≡ some v
      → true ≡ any (has m) (name ∷ others)
  unfolding any
  hit m name v others g =
      ap (λ b. b || any (has m) others) (sym (ap is_some g) ∙ get_name-any m name)

  miss :
      (m : Map) (name : List ℕ) (others : List (List ℕ))
      → get_name m name ≡ none
      → any (has m) (name ∷ others) ≡ any (has m) others
  unfolding any
  miss m name others g =
      ap (λ b. b || any (has m) others) (sym (get_name-any m name) ∙ ap is_some g)

  suffix_loop-any :
      (fuel : ℕ) (m : Map) (name : List ℕ)
      → length name < fuel
      → (o : Option U) × (suffix_loop Regex is_match wild fuel m name ≡ ok o)
        × (is_some o ≡ any (has m) (name ∷ after_dots name))
  unfolding suffix_loop any
  suffix_loop-any zero m name h = absurd (omega arith)
  suffix_loop-any (suc fuel) m name h = elim (Option-cases (get_name m name)) [
    | inr (v, g) ↦ (some v, rw (suffix_loop, g) refl, hit m name v (after_dots name) g)
    | inl g ↦ elim (after_dots_cases name) [
      | inl (a, b) ↦ (
        none,
        rw (suffix_loop, g, a) refl,
        sym (miss m name (after_dots name) g ∙ ap (any (has m)) b),
      )
      | inr (rest, a, b, k) ↦
          let (o, e, i) = suffix_loop-any fuel m rest (omega arith) in
          (
            o,
            rw (suffix_loop, g, a) e,
            i ∙ sym (miss m name (after_dots name) g ∙ ap (any (has m)) b),
          )
    ]
  ]

  -- The name is one of the full names, a part of it is one of the suffixes, or an expression takes
  -- it.
  unfoldable pub held : Matchers Regex is_match wild → List ℕ → Bool
  held self qname =
      any (λ e. eq_bytes e.0 qname) self.full
      || any (λ e. any (λ s. eq_bytes e.0 s) (qname ∷ after_dots qname)) self.suffix
      || any (λ e. is_match e.0 qname) self.regex

  lookup_fuzzy-any :
      (rs : List (Regex × U)) (qname : List ℕ)
      → is_some (lookup_fuzzy Regex is_match wild rs qname) ≡ any (λ e. is_match e.0 qname) rs
  unfolding lookup_fuzzy any
  lookup_fuzzy-any [] qname = refl
  lookup_fuzzy-any ((re, v) ∷ rs) qname = ground (arith, lookup_fuzzy-any rs qname)

  suffix_test :
      (m : Map) (qname : List ℕ)
      → (o : Option U) × ((if length m == 0
            then ok none
            else suffix_loop Regex is_match wild (suc (length qname)) m qname)
          ≡ ok o)
        × (is_some o ≡ any (λ e. any (λ s. eq_bytes e.0 s) (qname ∷ after_dots qname)) m)
  suffix_test [] qname = (none, refl, unfold any in refl)
  suffix_test (x ∷ m) qname =
      let (o, e, i) = suffix_loop-any (suc (length qname)) (x ∷ m) qname (omega arith) in
      (
        o,
        not_empty o (suc (length m) == 0) (ground arith) e,
        i ∙ sym (any_swap (λ e s. eq_bytes e.0 s) (x ∷ m) (qname ∷ after_dots qname)),
      )
    where
      not_empty :
          (o : Option U) (b : Bool)
          → b ≡ false
          → suffix_loop Regex is_match wild (suc (length qname)) (x ∷ m) qname ≡ ok o
          → (if b
              then ok none
              else suffix_loop Regex is_match wild (suc (length qname)) (x ∷ m) qname)
            ≡ ok o
      not_empty o b h e = rw h e

  -- The two lookups together, as `matches` and `match_entry_matches` make them.
  pub lookups-held :
      (self : Matchers Regex is_match wild) (qname : List ℕ)
      → (o : Option U) × (lookup_specific Regex is_match wild self qname ≡ ok o)
        × ((is_some o || is_some (lookup_fuzzy Regex is_match wild self.regex qname))
            ≡ held self qname)
  unfolding lookup_specific held
  lookups-held self qname = elim (Option-cases (get_name self.full qname)) [
    | inr (v, g) ↦ (
      some v,
      rw (lookup_specific, g) refl,
      one _ _ (sym (ap is_some g) ∙ get_name-any self.full qname),
    )
    | inl g ↦
        let (o, e, i) = suffix_test self.suffix qname in
        (
          o,
          rw (lookup_specific, g) e,
          both (sym (ap is_some g) ∙ get_name-any self.full qname) i
              (lookup_fuzzy-any self.regex qname),
        )
  ]
    where
      one : {f : Bool} (s r : Bool) → true ≡ f → true ≡ (f || s || r)
      one s r e = ground arith

      both : {f s r s' r' : Bool} → false ≡ f → s ≡ s' → r ≡ r' → (s || r) ≡ (f || s' || r')
      both e i j = ground arith

  -- One more pattern takes what it takes, and nothing else.
  pub put_pattern-held :
      (domains : Matchers Regex is_match wild) (pattern qname : List ℕ)
      → held (put_pattern Regex is_match wild pattern domains) qname ≡ (
          held domains qname
          || pattern_hits Regex is_match wild (classify_pattern Regex is_match wild pattern) qname)
  unfolding held put_pattern insert_full insert_suffix insert_regex any pattern_hits
  put_pattern-held domains pattern qname = go (classify_pattern Regex is_match wild pattern) refl
    where
      go :
          (k : PatternKind Regex is_match wild)
          → classify_pattern Regex is_match wild pattern ≡ k
          → held (put_pattern Regex is_match wild pattern domains) qname ≡ (
              held domains qname
              || pattern_hits Regex is_match wild
                  (classify_pattern Regex is_match wild pattern)
                  qname)
      go (suffix_pattern n) e = rw (put_pattern, e) (ground arith)
      go (full_pattern n) e = rw (put_pattern, e) (ground arith)
      go (wildcard re) e =
          rw (put_pattern, e)
            (ground (arith, any-append (λ x. is_match x.0 qname) domains.regex ((re, tt) ∷ [])))
      go invalid e = rw (put_pattern, e) (ground arith)

  pub matches_total :
      (db : RuleSetDb Regex is_match wild) (tag qname : List ℕ)
      → Ruleset.matches Regex is_match wild db tag qname
        ≡ ok (tag_hits Regex is_match wild db qname tag)
  unfolding tag_hits Ruleset.matches
  matches_total db tag qname = go (get_name db.tags tag) refl
    where
      returned :
          (b : Bool)
          → Ruleset.matches Regex is_match wild db tag qname ≡ ok b
          → Ruleset.matches Regex is_match wild db tag qname
            ≡ ok (tag_hits Regex is_match wild db qname tag)
      returned b e = rw (tag_hits, e) refl

      go :
          (o : Option (Ruleset.TagEntry Regex is_match wild))
          → get_name db.tags tag ≡ o
          → Ruleset.matches Regex is_match wild db tag qname
            ≡ ok (tag_hits Regex is_match wild db qname tag)
      go none e = returned false (rw (Ruleset.matches, e) refl)
      go (some (ip_cidr set)) e = returned false (rw (Ruleset.matches, e) refl)
      go (some (domain m)) e =
          let (o, found, same) = lookups-held m qname in
          returned (is_some o || is_some (lookup_fuzzy Regex is_match wild m.regex qname))
            (rw (Ruleset.matches, e, found) refl)
