-- ===== src/Route/Compile.antt =====
-- The compiled form of one rule in `RouteIndex::build` of src/route_index.rs: the ids that `intern`
-- gives name the tags of the rule, and the entry takes the names that one of its matchers takes.
use pathdns.Base.{
  ℕ, ◌+◌, ◌%◌, ◌≤◌, ◌<◌, ◌≡◌, inl, inr, List, [], ◌∷◌, ◌++◌, Bool, false, ◌||◌, Option, none, some,
  Bool-cases, length, get_or, All, refl, sym, ap, subst, ◌∙◌, arith, length-append,
  get_or-append_right, All-snoc,
}
use mathlib.Core.List.{append_assoc, append-nil}
use pathdns.Dns.Question.{eq_bytes}
use pathdns.Persist.Fields.{eq_bytes_sound}
use pathdns.Domain.{get_name}
use pathdns.Ruleset.{any}
use pathdns.Route.{
  RuleMatcher, domain_entry, tag_entry, TagGroup, is_empty_list, Interner, intern, intern_all, Db,
  Matchers, put_pattern, compile_matchers,
}
use pathdns.Route.Linear.{tag_hits, matcher_hits}
use pathdns.Route.Domains.{any-append, held, put_pattern-held}
use pathdns.Route.Answers.{group_value, tags_value}

-- The names grow at their end only.
abbrev pub Extends : List (List ℕ) → List (List ℕ) → Type 0
Extends names all = (more : List (List ℕ)) × (names ++ more ≡ all)

pub Extends-refl : (names : List (List ℕ)) → Extends names names
Extends-refl names = ([], append-nil names)

Extends-before :
    (names : List (List ℕ)) (name : List ℕ) (all : List (List ℕ))
    → Extends (names ++ (name ∷ [])) all
    → Extends names all
Extends-before names name all (more, e) =
    (name ∷ more, sym (append_assoc names (name ∷ []) more) ∙ e)

intern-Extends :
    (st : Interner) (name : List ℕ) (all : List (List ℕ))
    → Extends (intern st name).0.tag_names all
    → Extends st.tag_names all
unfolding intern
intern-Extends st name all e = go (get_name st.tag_ids name) refl
  where
    go : (o : Option ℕ) → get_name st.tag_ids name ≡ o → Extends st.tag_names all
    go (some id) g = rw (intern, g) at e
    go none g = Extends-before st.tag_names name all (rw (intern, g) at e)

intern_all-Extends :
    (st : Interner) (names : List (List ℕ)) (all : List (List ℕ))
    → Extends (intern_all st names).0.tag_names all
    → Extends st.tag_names all
unfolding intern_all
intern_all-Extends st [] all e = e
intern_all-Extends st (name ∷ names) all e =
    intern-Extends st name all (intern_all-Extends (intern st name).0 names all e)

module _ (Regex : Type 0) (is_match : Regex → List ℕ → Bool) (wild : List ℕ → Option Regex) where
  pub compile_matchers-Extends :
      (ms : List RuleMatcher) (st : Interner) (domains : Matchers Regex is_match wild)
      (tags : List TagGroup) (all : List (List ℕ))
      → Extends (compile_matchers Regex is_match wild ms st domains tags).0.tag_names all
      → Extends st.tag_names all
  unfolding compile_matchers
  compile_matchers-Extends [] st domains tags all e = e
  compile_matchers-Extends (domain_entry pattern ∷ ms) st domains tags all e =
      compile_matchers-Extends ms st (put_pattern Regex is_match wild pattern domains) tags all e
  compile_matchers-Extends (tag_entry include exclude ∷ ms) st domains tags all e =
      intern_all-Extends st include all (
        intern_all-Extends (intern_all st include).0 exclude all (
          compile_matchers-Extends ms (intern_all (intern_all st include).0 exclude).0 domains _ all
            e))

-- All the tags of the rules, of which there are no more than ids.
module _ (all : List (List ℕ)) (few : length all ≤ 65536) where
  -- An id is a place in the names, where the name stands.
  abbrev pub IsId : ℕ → List ℕ → Type 0
  IsId id name = (id < length all) × (get_or all id [] ≡ name)

  abbrev pub IsInterner : Interner → Type 0
  IsInterner st = (name : List ℕ) (id : ℕ) → get_name st.tag_ids name ≡ some id → IsId id name

  some-injective : {a b : ℕ} → some a ≡ some b → a ≡ b
  some-injective e = cc

  fresh_number :
      (names : List (List ℕ)) (name : List ℕ)
      → Extends (names ++ (name ∷ [])) all
      → IsId (length names % 65536) name
  fresh_number names name (more, e) =
      let longer : length names + 1 + length more ≡ length all = omega (
        arith,
        ap length e,
        length-append (names ++ (name ∷ [])) more,
        length-append names (name ∷ []),
      ) in
      let same : length names % 65536 ≡ length names = omega arith in
      let split : names ++ (name ∷ more) ≡ all = sym (append_assoc names (name ∷ []) more) ∙ e in
      (
        omega arith,
        rw same (
            subst (λ t. get_or t (length names) [] ≡ name) split
              (get_or-append_right names (name ∷ more) 0 (length names) [] (omega arith))),
      )

  intern_lem :
      (st : Interner) (name : List ℕ)
      → Extends (intern st name).0.tag_names all
      → IsInterner st
      → IsInterner (intern st name).0 × IsId (intern st name).1 name
  unfolding intern get_name
  intern_lem st name e h = go (get_name st.tag_ids name) refl
    where
      go :
          (o : Option ℕ)
          → get_name st.tag_ids name ≡ o
          → IsInterner (intern st name).0 × IsId (intern st name).1 name
      go (some id) g = rw (intern, g) (h, h name id g)
      go none g =
          let new = fresh_number st.tag_names name (rw (intern, g) at e) in
          rw (intern, g)
            (
              λ other id f. elim (Bool-cases (eq_bytes name other)) [
                | inl b ↦
                    subst (λ n. IsId id n) (eq_bytes_sound name other b)
                      (subst (λ i. IsId i name) (some-injective (rw b at f)) new)
                | inr b ↦ h other id (rw b at f)
              ],
              new,
            )

  -- The ids of the names, in order.
  abbrev pub AreNames : List ℕ → List (List ℕ) → Type 0
  AreNames [] [] = Unit {0}
  AreNames [] (name ∷ names) = ⊥
  AreNames (id ∷ ids) [] = ⊥
  AreNames (id ∷ ids) (name ∷ names) = IsId id name × AreNames ids names

  intern_all_lem :
      (st : Interner) (names : List (List ℕ))
      → Extends (intern_all st names).0.tag_names all
      → IsInterner st
      → IsInterner (intern_all st names).0 × AreNames (intern_all st names).1 names
  unfolding intern_all
  intern_all_lem st [] e h = (h, tt)
  intern_all_lem st (name ∷ names) e h =
      let (h', i) = intern_lem st name (intern_all-Extends (intern st name).0 names all e) h in
      let (h'', is) = intern_all_lem (intern st name).0 names e h' in (h'', (i, is))

  AreNames-valid :
      (ids : List ℕ) (names : List (List ℕ)) → AreNames ids names → All (λ id. id < length all) ids
  AreNames-valid [] [] h = tt
  AreNames-valid [] (name ∷ names) h = absurd h
  AreNames-valid (id ∷ ids) [] h = absurd h
  AreNames-valid (id ∷ ids) (name ∷ names) h = (h.0.0, AreNames-valid ids names h.1)

  AreNames-empty :
      (ids : List ℕ) (names : List (List ℕ))
      → AreNames ids names
      → is_empty_list ids ≡ is_empty_list names
  AreNames-empty [] [] h = refl
  AreNames-empty [] (name ∷ names) h = absurd h
  AreNames-empty (id ∷ ids) [] h = absurd h
  AreNames-empty (id ∷ ids) (name ∷ names) h = refl

  AreNames-any :
      (p : List ℕ → Bool) (ids : List ℕ) (names : List (List ℕ))
      → AreNames ids names
      → any (λ id. p (get_or all id [])) ids ≡ any p names
  unfolding any
  AreNames-any p [] [] h = refl
  AreNames-any p [] (name ∷ names) h = absurd h
  AreNames-any p (id ∷ ids) [] h = absurd h
  AreNames-any p (id ∷ ids) (name ∷ names) h = rw (h.0.1, AreNames-any p ids names h.1) refl

  module _ (Regex : Type 0) (is_match : Regex → List ℕ → Bool) (wild : List ℕ → Option Regex)
      (qname : List ℕ) where
    group-tag_entry :
        (rule_sets : Option (Db Regex is_match wild)) (include exclude : List (List ℕ))
        (include_ids exclude_ids : List ℕ) (tags : List TagGroup)
        → AreNames include_ids include
        → AreNames exclude_ids exclude
        → tags_value Regex is_match wild qname all rule_sets
            (tags ++ (record { include_ids = include_ids; exclude_ids = exclude_ids } ∷ []))
          ≡ (tags_value Regex is_match wild qname all rule_sets tags
              || matcher_hits Regex is_match wild rule_sets qname (tag_entry include exclude))
    unfolding matcher_hits any
    group-tag_entry none include exclude include_ids exclude_ids tags i e = refl
    group-tag_entry (some rs) include exclude include_ids exclude_ids tags i e =
        any-append (group_value Regex is_match wild rs qname all) tags
          (record { include_ids = include_ids; exclude_ids = exclude_ids } ∷ [])
        ∙ rw
            (
              AreNames-any (tag_hits Regex is_match wild rs qname) include_ids include i,
              AreNames-any (tag_hits Regex is_match wild rs qname) exclude_ids exclude e,
              AreNames-empty include_ids include i,
            )
            (ground arith)

    with_pattern : (k h p t m : Bool) → k ≡ (h || p) → (k || t || m) ≡ (h || t || (p || m))
    with_pattern k h p t m e = ground arith

    with_group : (u t p h m : Bool) → u ≡ (t || p) → (h || u || m) ≡ (h || t || (p || m))
    with_group u t p h m e = ground arith

    abbrev Groups : List TagGroup → Type 0
    Groups tags =
        All
          (λ g.
            All (λ id. id < length all) g.include_ids × All (λ id. id < length all) g.exclude_ids)
          tags

    abbrev taken :
        Option (Db Regex is_match wild) → Matchers Regex is_match wild → List TagGroup → Bool
    taken rule_sets domains tags =
        held Regex is_match wild domains qname
        || tags_value Regex is_match wild qname all rule_sets tags

    -- What an entry takes after a rule's matchers are compiled: what it took, and what they take.
    pub compile_matchers_lem :
        (rule_sets : Option (Db Regex is_match wild)) (ms : List RuleMatcher) (st : Interner)
        (domains : Matchers Regex is_match wild) (tags : List TagGroup)
        → Extends (compile_matchers Regex is_match wild ms st domains tags).0.tag_names all
        → IsInterner st
        → Groups tags
        → IsInterner (compile_matchers Regex is_match wild ms st domains tags).0
          × Groups (compile_matchers Regex is_match wild ms st domains tags).2
          × (taken rule_sets
                (compile_matchers Regex is_match wild ms st domains tags).1
                (compile_matchers Regex is_match wild ms st domains tags).2
              ≡ (taken rule_sets domains tags
                  || any (matcher_hits Regex is_match wild rule_sets qname) ms))
    unfolding compile_matchers any matcher_hits
    compile_matchers_lem rule_sets [] st domains tags e h g = (h, g, or_false _)
      where
        or_false : (b : Bool) → b ≡ (b || false)
        or_false b = ground arith
    compile_matchers_lem rule_sets (domain_entry pattern ∷ ms) st domains tags e h g =
        let (h', g', v) =
          compile_matchers_lem rule_sets ms st (put_pattern Regex is_match wild pattern domains)
            tags e h g in
        (
          h',
          g',
          v ∙ with_pattern _ _ _ _ _ (put_pattern-held Regex is_match wild domains pattern qname),
        )
    compile_matchers_lem rule_sets (tag_entry include exclude ∷ ms) st domains tags e h g =
        let st' = (intern_all st include).0 in
        let st'' = (intern_all st' exclude).0 in
        let e'' : Extends st''.tag_names all =
          compile_matchers-Extends Regex is_match wild ms st'' domains _ all e in
        let e' = intern_all-Extends st' exclude all e'' in
        let (h', is) = intern_all_lem st include e' h in
        let (h'', es) = intern_all_lem st' exclude e'' h' in
        let (last, g', v) =
          compile_matchers_lem rule_sets ms st'' domains _ e h''
            (All-snoc _ tags _ g (AreNames-valid _ include is, AreNames-valid _ exclude es)) in
        (
          last,
          g',
          v ∙ with_group _ _ _ _ _ (group-tag_entry rule_sets include exclude _ _ tags is es),
        )
