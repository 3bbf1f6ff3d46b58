-- ===== src/Route/Build.antt =====
-- What the loop of `RouteIndex::build` of src/route_index.rs makes of the rules.
use pathdns.Base.{
  ℕ, suc, ◌≤◌, ◌≡◌, List, [], ◌∷◌, ◌++◌, Bool, true, false, ◌||◌, Option, none, some, if◌then◌else◌,
  Bool-cases, inl, inr, length, refl, sym, ap, ◌∙◌,
}
use mathlib.Core.List.{append_assoc, append-nil}
use pathdns.Ruleset.{any}
use pathdns.Route.{
  RuleMatcher, Rule, is_empty_list, usize_max, unwrap_or, Db, MatchEntry, Building, add_entry,
  build_loop,
}
use pathdns.Route.Linear.{matcher_hits, rule_hits}
use pathdns.Route.Domains.{held}
use pathdns.Route.Answers.{entry_value, IsEntry, tags_value}
use pathdns.Route.Compile.{Extends, compile_matchers-Extends, IsInterner, compile_matchers_lem}
use pathdns.Route.Scan.{Compiled, done, skip, item, catch_from}

module _ (K : Type 0) (Regex : Type 0) (is_match : Regex → List ℕ → Bool)
    (wild : List ℕ → Option Regex) (all : List (List ℕ)) where
  add_entry-Extends :
      (i : ℕ) (ms : List RuleMatcher) (b : Building Regex is_match wild)
      → Extends (add_entry Regex is_match wild i ms b).names.tag_names all
      → Extends b.names.tag_names all
  unfolding add_entry
  add_entry-Extends i [] b e = e
  add_entry-Extends i (m ∷ ms) b e =
      compile_matchers-Extends Regex is_match wild (m ∷ ms) b.names _ _ all e

  build_loop-Extends :
      (rs : List (Rule K)) (i : ℕ) (b : Building Regex is_match wild)
      → Extends (build_loop Regex is_match wild rs i b).names.tag_names all
      → Extends b.names.tag_names all
  unfolding build_loop
  build_loop-Extends [] i b e = e
  build_loop-Extends (r ∷ rs) i b e =
      add_entry-Extends i r.matcher b
        (build_loop-Extends rs (suc i) (add_entry Regex is_match wild i r.matcher b) e)

  -- The catch-all is the first rule without matchers.
  pub build_loop-catch_from :
      (rs : List (Rule K)) (i : ℕ) (b : Building Regex is_match wild)
      → unwrap_or (build_loop Regex is_match wild rs i b).catch_all_idx usize_max
        ≡ unwrap_or b.catch_all_idx (catch_from i rs)
  unfolding build_loop add_entry catch_from
  build_loop-catch_from [] i b = refl
  build_loop-catch_from (r ∷ rs) i b =
      build_loop-catch_from rs (suc i) (add_entry Regex is_match wild i r.matcher b)
      ∙ step r.matcher (catch_from (suc i) rs)
    where
      step :
          (ms : List RuleMatcher) (c : ℕ)
          → unwrap_or (add_entry Regex is_match wild i ms b).catch_all_idx c
            ≡ unwrap_or b.catch_all_idx (if is_empty_list ms then i else c)
      step [] c = refl
      step (m ∷ ms) c = refl

  module _ (few : length all ≤ 65536) (qname : List ℕ)
      (rule_sets : Option (Db Regex is_match wild)) where
    blank :
        (held Regex is_match wild (record { full = []; suffix = []; regex = [] }) qname
          || tags_value Regex is_match wild qname all rule_sets [])
        ≡ false
    unfolding held any
    blank = go rule_sets
      where
        go :
            (o : Option (Db Regex is_match wild))
            → (held Regex is_match wild (record { full = []; suffix = []; regex = [] }) qname
                || tags_value Regex is_match wild qname all o [])
              ≡ false
        go none = refl
        go (some rs) = refl

    -- The entry of a rule with matchers, behind those that are there.
    record IsAdded (i : ℕ) (ms : List RuleMatcher) (b : Building Regex is_match wild) : Type 0 where
      entry : MatchEntry Regex is_match wild
      added : (add_entry Regex is_match wild i ms b).match_entries ≡ b.match_entries ++ (entry ∷ [])
      place : entry.rule_idx ≡ i
      valid : IsEntry Regex is_match wild qname all entry
      takes :
          entry_value Regex is_match wild qname all rule_sets entry
          ≡ rule_hits Regex is_match wild rule_sets qname ms
      names : IsInterner all few (add_entry Regex is_match wild i ms b).names

    add_entry-IsAdded :
        (i : ℕ) (ms : List RuleMatcher) (b : Building Regex is_match wild)
        → is_empty_list ms ≡ false
        → Extends (add_entry Regex is_match wild i ms b).names.tag_names all
        → IsInterner all few b.names
        → IsAdded i ms b
    unfolding add_entry rule_hits
    add_entry-IsAdded i [] b n e h = absurd (cc)
    add_entry-IsAdded i (m ∷ ms) b n e h =
        let (h', g, v) =
          compile_matchers_lem all few Regex is_match wild qname rule_sets (m ∷ ms) b.names
            (record { full = []; suffix = []; regex = [] }) [] e h tt in
        record {
          entry = _;
          added = refl;
          place = refl;
          valid = g;
          takes =
              v
              ∙ ap (λ x. x || any (matcher_hits Regex is_match wild rule_sets qname) (m ∷ ms))
                  blank;
          names = h';
        }

    add_entry_skip :
        (i : ℕ) (ms : List RuleMatcher) (b : Building Regex is_match wild)
        → is_empty_list ms ≡ true
        → IsInterner all few b.names
        → ((add_entry Regex is_match wild i ms b).match_entries ≡ b.match_entries)
          × IsInterner all few (add_entry Regex is_match wild i ms b).names
    unfolding add_entry
    add_entry_skip i [] b n h = (refl, h)
    add_entry_skip i (m ∷ ms) b n h = absurd (cc)

    -- The entries of the rules from a place on, put behind those that are there.
    pub build_loop-Compiled :
        (rs : List (Rule K)) (i : ℕ) (b : Building Regex is_match wild)
        → Extends (build_loop Regex is_match wild rs i b).names.tag_names all
        → IsInterner all few b.names
        → (es : List (MatchEntry Regex is_match wild)) × ((build_loop Regex is_match wild rs i
              b).match_entries
            ≡ b.match_entries ++ es)
          × Compiled K Regex is_match wild all qname rule_sets i rs es
    unfolding build_loop
    build_loop-Compiled [] i b e h = ([], sym (append-nil b.match_entries), done)
    build_loop-Compiled (r ∷ rs) i b e h =
        let b' = add_entry Regex is_match wild i r.matcher b in
        elim (Bool-cases (is_empty_list r.matcher)) [
          | inl n ↦
              let (same, h') = add_entry_skip i r.matcher b n h in
              let (es, p, c) = build_loop-Compiled rs (suc i) b' e h' in
              (es, p ∙ ap (λ xs. xs ++ es) same, skip n c)
          | inr n ↦
              let a = add_entry-IsAdded i r.matcher b n (build_loop-Extends rs (suc i) b' e) h in
              let (es, p, c) = build_loop-Compiled rs (suc i) b' e a.names in
              (
                a.entry ∷ es,
                p ∙ ap (λ xs. xs ++ es) a.added ∙ append_assoc b.match_entries (a.entry ∷ []) es,
                item n a.place a.valid a.takes c,
              )
        ]
