-- ===== src/Route/Place.antt =====
-- The place of the first rule that takes a name, as `RouteIndex::route` of src/route_index.rs finds it
-- without its cache.
use pathdns.Base.{
  ℕ, zero, suc, ◌+◌, ◌≤◌, ◌<◌, ◌≡◌, ◌⊎◌, inl, inr, List, [], ◌∷◌, Bool, true, false, not, ◌&&◌,
  ◌||◌, Option, none, some, ok, ◌==◌, if◌then◌else◌, Bool-cases, length, get_elem?, refl, sym, ap,
  subst, ◌∙◌, arith,
}
use pathdns.Cache.Backend.{Store}
use pathdns.Domain.{get_name}
use pathdns.Ruleset.{any}
use pathdns.Route.{
  Rule, TagMemo, TagGroup, new_memo, is_empty_list, is_none, usize_max, unwrap_or, Db, MatchEntry,
  RouteIndex, build, scan_entries, route_index_uncached,
}
use pathdns.Route.Linear.{rule_hits, linear_route}
use pathdns.Route.Memo.{IsMemo, new_memo-IsMemo}
use pathdns.Route.Answers.{hits_of, tags_value}
use pathdns.Route.Compile.{Extends-refl}
use pathdns.Route.Scan.{
  catch_from, Compiled, first_entry, scan_entries-first_entry, linear_idx, first_entry-zero,
  first_entry-linear_idx,
}
use pathdns.Route.Build.{build_loop-catch_from, build_loop-Compiled}

pub get_elem?-eq_none : {A : Type 0} (xs : List A) (i : ℕ) → length xs ≤ i → get_elem? xs i ≡ none
get_elem?-eq_none [] i h = refl
get_elem?-eq_none (x ∷ xs) zero h = absurd (omega arith)
get_elem?-eq_none (x ∷ xs) (suc i) h = get_elem?-eq_none xs i (omega arith)

module _ (K : Type 0) (Regex : Type 0) (is_match : Regex → List ℕ → Bool)
    (wild : List ℕ → Option Regex) where
  linear_at :
      (rule_sets : Option (Db Regex is_match wild)) (qname : List ℕ) (all : List (List ℕ)) (i : ℕ)
      (rs : List (Rule K))
      → ((linear_route Regex is_match wild rule_sets qname rs ≡ none)
          × (linear_idx K Regex is_match wild all qname rule_sets i rs ≡ usize_max))
        ⊎ ((k : ℕ) × (linear_idx K Regex is_match wild all qname rule_sets i rs ≡ i + k)
            × (get_elem? rs k ≡ linear_route Regex is_match wild rule_sets qname rs)
            × (k < length rs))
  unfolding linear_route linear_idx
  linear_at rule_sets qname all i [] = inl (refl, refl)
  linear_at rule_sets qname all i (r ∷ rs) =
      elim (Bool-cases (rule_hits Regex is_match wild rule_sets qname r.matcher)) [
        | inl e ↦ inr (0, rw e (omega arith), rw e refl, omega arith)
        | inr e ↦ elim (linear_at rule_sets qname all (suc i) rs) [
          | inl (a, b) ↦ inl (rw e a, rw e b)
          | inr (k, a, b, c) ↦ inr (suc k, rw (e, a) (omega arith), rw e b, omega arith)
        ]
      ]

  pub linear_get :
      (rule_sets : Option (Db Regex is_match wild)) (qname : List ℕ) (all : List (List ℕ))
      (rs : List (Rule K))
      → length rs < usize_max
      → get_elem? rs (linear_idx K Regex is_match wild all qname rule_sets 0 rs)
        ≡ linear_route Regex is_match wild rule_sets qname rs
  linear_get rule_sets qname all rs h = elim (linear_at rule_sets qname all 0 rs) [
    | inl (a, b) ↦ rw (a, b) (get_elem?-eq_none rs usize_max (omega arith))
    | inr (k, a, b, c) ↦ ap (get_elem? rs) (a ∙ omega arith) ∙ b
  ]

  module _ (S : Store (List ℕ) ℕ) (rules : List (Rule K)) (capacity : ℕ)
      (db : Db Regex is_match wild) (short : length rules < usize_max)
      (few : length (build Regex is_match wild S rules capacity).tag_names ≤ 65536) where
    open S use {State}

    abbrev pub I : RouteIndex Regex is_match wild State
    I = build Regex is_match wild S rules capacity

    abbrev pub line : Option (Db Regex is_match wild) → List ℕ → ℕ
    line rule_sets qname = linear_idx K Regex is_match wild I.tag_names qname rule_sets 0 rules

    entries-Compiled :
        (rule_sets : Option (Db Regex is_match wild)) (qname : List ℕ)
        → Compiled K Regex is_match wild I.tag_names qname rule_sets 0 rules I.match_entries
    unfolding build get_name
    entries-Compiled rule_sets qname =
        let (es, e, c) =
          build_loop-Compiled K Regex is_match wild I.tag_names few qname rule_sets rules 0
            (record {
              names = record { tag_ids = []; tag_names = [] };
              match_entries = [];
              catch_all_idx = none;
            })
            (Extends-refl I.tag_names) (λ name id h. absurd (none≢some h)) in
        subst (λ xs. Compiled K Regex is_match wild I.tag_names qname rule_sets 0 rules xs) (sym e)
          c
      where
        none≢some : {id : ℕ} → none ≡ some id → ⊥
        none≢some h = cc

    catch_all : unwrap_or I.catch_all_idx usize_max ≡ catch_from 0 rules
    unfolding build
    catch_all = build_loop-catch_from K Regex is_match wild I.tag_names rules 0 _

    found :
        (rule_sets : Option (Db Regex is_match wild)) (qname : List ℕ)
        → first_entry K Regex is_match wild I.tag_names qname rule_sets
            (unwrap_or I.catch_all_idx usize_max)
            I.match_entries
          ≡ line rule_sets qname
    found rule_sets qname = rw catch_all (
        first_entry-linear_idx K Regex is_match wild I.tag_names qname rule_sets (omega arith)
          (entries-Compiled rule_sets qname))

    -- The index with another content of the cache.
    abbrev pub with_cache : State → RouteIndex Regex is_match wild State
    with_cache c = record I { route_cache = c }

    scan_cases :
        (rule_sets : Option (Db Regex is_match wild)) (qname : List ℕ) (c : ℕ) (memo : TagMemo)
        (es : List (MatchEntry Regex is_match wild))
        → Compiled K Regex is_match wild I.tag_names qname rule_sets 0 rules es
        → IsMemo (hits_of Regex is_match wild qname I.tag_names rule_sets) memo
        → (if is_empty_list es
            then ok c
            else scan_entries Regex is_match wild es c qname rule_sets memo I.tag_names)
          ≡ ok (first_entry K Regex is_match wild I.tag_names qname rule_sets c es)
    unfolding first_entry
    scan_cases rule_sets qname c memo [] k m = refl
    scan_cases rule_sets qname c memo (e ∷ es) k m =
        scan_entries-first_entry K Regex is_match wild I.tag_names qname rule_sets c memo k m

    pub uncached :
        (rule_sets : Option (Db Regex is_match wild)) (qname : List ℕ) (c : State)
        → route_index_uncached Regex is_match wild S
            (with_cache c)
            qname
            rule_sets
            (new_memo I.num_tags)
          ≡ ok (line rule_sets qname)
    unfolding route_index_uncached
    uncached rule_sets qname c =
        scan_cases rule_sets qname (unwrap_or I.catch_all_idx usize_max) (new_memo I.num_tags)
          I.match_entries (entries-Compiled rule_sets qname) (new_memo-IsMemo _ I.num_tags)
        ∙ ap ok (found rule_sets qname)

    -- Without tag entries the database makes no difference.
    first_entry_untagged :
        (qname : List ℕ) (c : ℕ) (es : List (MatchEntry Regex is_match wild))
        → any (λ e. not (is_empty_list e.tags)) es ≡ false
        → first_entry K Regex is_match wild I.tag_names qname none c es
          ≡ first_entry K Regex is_match wild I.tag_names qname (some db) c es
    unfolding first_entry any
    first_entry_untagged qname c [] n = refl
    first_entry_untagged qname c (e ∷ es) n =
        rw (untagged e.tags (ground arith), first_entry_untagged qname c es (ground arith)) refl
      where
        untagged :
            (gs : List TagGroup)
            → not (is_empty_list gs) ≡ false
            → tags_value Regex is_match wild qname I.tag_names none gs
              ≡ tags_value Regex is_match wild qname I.tag_names (some db) gs
        untagged [] n = refl
        untagged (g ∷ gs) n = absurd (cc)

    pub line_untagged :
        (qname : List ℕ) → I.needs_ruleset ≡ false → line none qname ≡ line (some db) qname
    unfolding build
    line_untagged qname n =
        sym (found none qname)
        ∙ first_entry_untagged qname _ I.match_entries n
        ∙ found (some db) qname

    leading :
        (o : Option ℕ) → (not (is_none o) && unwrap_or o 1 == 0) ≡ true → unwrap_or o usize_max ≡ 0
    leading none h = absurd (cc)
    leading (some i) h = ground arith

    -- A constant route is the place that the scan finds for every name.
    pub constant :
        (o : Option ℕ) (rule_sets : Option (Db Regex is_match wild)) (qname : List ℕ)
        → I.constant_route ≡ some o
        → line rule_sets qname ≡ unwrap_or o usize_max
    unfolding build
    constant o rule_sets qname e =
        elim (Bool-cases (
          (not (is_none I.catch_all_idx) && unwrap_or I.catch_all_idx 1 == 0)
          || is_empty_list I.match_entries)) [
            | inr b ↦ absurd (none≢some (rw b at e))
            | inl b ↦
                sym (found rule_sets qname)
                ∙ stays b
                ∙ ap (λ x. unwrap_or x usize_max) (some-injective (rw b at e))
          ]
      where
        none≢some : {A : Type 0} {a : A} → none ≡ some a → ⊥
        none≢some h = cc

        some-injective : {A : Type 0} {a b : A} → some a ≡ some b → a ≡ b
        some-injective h = cc

        alone :
            (i : ℕ) (es : List (MatchEntry Regex is_match wild))
            → is_empty_list es ≡ true
            → first_entry K Regex is_match wild I.tag_names qname rule_sets i es ≡ i
        alone i [] h = unfold first_entry in refl
        alone i (x ∷ es) h = absurd (cc)

        stays :
            ((not (is_none I.catch_all_idx) && unwrap_or I.catch_all_idx 1 == 0)
                || is_empty_list I.match_entries)
              ≡ true
            → first_entry K Regex is_match wild I.tag_names qname rule_sets
                (unwrap_or I.catch_all_idx usize_max)
                I.match_entries
              ≡ unwrap_or I.catch_all_idx usize_max
        stays b = elim (Bool-cases (is_empty_list I.match_entries)) [
          | inl n ↦ alone _ I.match_entries n
          | inr n ↦
              rw (leading I.catch_all_idx (or_left n b))
                (first_entry-zero K Regex is_match wild I.tag_names qname rule_sets I.match_entries)
        ]
          where
            or_left : {a b : Bool} → b ≡ false → (a || b) ≡ true → a ≡ true
            or_left n h = ground arith

    abbrev pub answer : Option (Db Regex is_match wild) → List ℕ → Option (Rule K)
    answer rule_sets qname = linear_route Regex is_match wild rule_sets qname rules

    pub rule_at :
        (rule_sets : Option (Db Regex is_match wild)) (qname : List ℕ) (i : ℕ)
        → i ≡ line rule_sets qname
        → get_elem? rules i ≡ answer rule_sets qname
    rule_at rule_sets qname i e =
        ap (get_elem? rules) e ∙ linear_get rule_sets qname I.tag_names rules short
