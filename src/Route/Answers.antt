-- ===== src/Route/Answers.antt =====
-- The tests of tags and entries of src/route_index.rs with the memo: each returns what it comes to
-- without it.
use pathdns.Base.{
  ℕ, ◌/◌, ◌<◌, ◌≡◌, inl, inr, List, [], ◌∷◌, Bool, true, false, not, ◌&&◌, ◌||◌, Option, none, some,
  Outcome, ok, if◌then◌else◌, Bool-cases, Option-cases, length, get_or, get_elem?, All, refl, ap,
  ◌∙◌, get_elem?-eq_get_or,
}
use pathdns.Ruleset.{any}
use pathdns.Route.{
  TagMemo, note, TagGroup, is_empty_list, name_at, Db, MatchEntry, ask, check, any_check,
  tag_group_matches, any_group, match_entry_matches,
}
use pathdns.Route.Linear.{tag_hits}
use pathdns.Route.Domains.{held, lookups-held, matches_total}
use pathdns.Route.Memo.{bit, IsMemo, note-IsMemo}

module _ (Regex : Type 0) (is_match : Regex → List ℕ → Bool) (wild : List ℕ → Option Regex)
    (rs : Db Regex is_match wild) (qname : List ℕ) (tag_names : List (List ℕ)) where
  abbrev pub hits : ℕ → Bool
  hits id = tag_hits Regex is_match wild rs qname (get_or tag_names id [])

  -- A call with the memo returns the value, and a memo as good as the one that it got.
  abbrev pub Answers : Outcome (TagMemo × Bool) → Bool → Type 0
  Answers call v = (memo : TagMemo) × (call ≡ ok (memo, v)) × IsMemo hits memo

  ask_lem :
      (memo : TagMemo) (id : ℕ)
      → ask Regex is_match wild memo rs id (get_or tag_names id []) qname
        ≡ ok (note memo (id / 64) (bit id) (hits id), hits id)
  unfolding ask
  ask_lem memo id = rw (matches_total Regex is_match wild rs (get_or tag_names id []) qname) refl

  note-none :
      (memo : TagMemo) (id : ℕ)
      → get_elem? memo.chunks (id / 64) ≡ none
      → note memo (id / 64) (bit id) (hits id) ≡ memo
  unfolding note
  note-none memo id g = rw (note, g) refl

  check-Answers :
      (memo : TagMemo) (id : ℕ)
      → IsMemo hits memo
      → Answers (check Regex is_match wild memo rs id (get_or tag_names id []) qname) (hits id)
  unfolding check
  check-Answers memo id all = elim (Option-cases (get_elem? memo.chunks (id / 64))) [
    | inl g ↦ (
      memo,
      rw (check, g) (ask_lem memo id ∙ ap (λ m. ok (m, hits id)) (note-none memo id g)),
      all,
    )
    | inr (chunk, g) ↦ elim (all id chunk g) [
      | inl (s, m) ↦ (
        note memo (id / 64) (bit id) (hits id),
        rw (check, g, s) (ask_lem memo id),
        note-IsMemo hits memo id chunk g m all,
      )
      | inr (s, m) ↦ (memo, rw (check, g, s, m) refl, all)
    ]
  ]

  abbrev pub AreIds : List ℕ → Type 0
  AreIds ids = All (λ id. id < length tag_names) ids

  any_check-Answers :
      (ids : List ℕ) (memo : TagMemo)
      → AreIds ids
      → IsMemo hits memo
      → Answers (any_check Regex is_match wild ids memo rs tag_names qname) (any hits ids)
  unfolding any_check name_at any
  any_check-Answers [] memo valid all = (memo, refl, all)
  any_check-Answers (id ∷ ids) memo valid all =
      let (memo', e, all') = check-Answers memo id all in
      let (last, e', all'') = any_check-Answers ids memo' valid.1 all' in
      elim (Bool-cases (hits id)) [
        | inl v ↦ (
          memo',
          rw (any_check, name_at, get_elem?-eq_get_or tag_names id [] valid.0, e, v) refl,
          all',
        )
        | inr v ↦ (
          last,
          rw (any_check, name_at, get_elem?-eq_get_or tag_names id [] valid.0, e, v) e',
          all'',
        )
      ]

  abbrev pub group_value : TagGroup → Bool
  group_value g =
      (is_empty_list g.include_ids || any hits g.include_ids) && not (any hits g.exclude_ids)

  abbrev pub IsGroup : TagGroup → Type 0
  IsGroup g = AreIds g.include_ids × AreIds g.exclude_ids

  positive-Answers :
      (ids : List ℕ) (memo : TagMemo)
      → AreIds ids
      → IsMemo hits memo
      → Answers
          (if is_empty_list ids
            then ok (memo, true)
            else any_check Regex is_match wild ids memo rs tag_names qname)
          (is_empty_list ids || any hits ids)
  positive-Answers [] memo valid all = (memo, refl, all)
  positive-Answers (id ∷ ids) memo valid all = any_check-Answers (id ∷ ids) memo valid all

  tag_group_matches-Answers :
      (g : TagGroup) (memo : TagMemo)
      → IsGroup g
      → IsMemo hits memo
      → Answers (tag_group_matches Regex is_match wild g qname rs memo tag_names) (group_value g)
  unfolding tag_group_matches
  tag_group_matches-Answers g memo valid all =
      let (memo', e, all') = positive-Answers g.include_ids memo valid.0 all in
      let (last, e', all'') = any_check-Answers g.exclude_ids memo' valid.1 all' in
      elim (Bool-cases (is_empty_list g.include_ids || any hits g.include_ids)) [
        | inl v ↦ (last, rw (tag_group_matches, e, v, e') refl, all'')
        | inr v ↦ (memo', rw (tag_group_matches, e, v) refl, all')
      ]

  any_group-Answers :
      (gs : List TagGroup) (memo : TagMemo)
      → All IsGroup gs
      → IsMemo hits memo
      → Answers (any_group Regex is_match wild gs qname rs memo tag_names) (any group_value gs)
  unfolding any_group any
  any_group-Answers [] memo valid all = (memo, refl, all)
  any_group-Answers (g ∷ gs) memo valid all =
      let (memo', e, all') = tag_group_matches-Answers g memo valid.0 all in
      let (last, e', all'') = any_group-Answers gs memo' valid.1 all' in
      elim (Bool-cases (group_value g)) [
        | inl v ↦ (memo', rw (any_group, e, v) refl, all')
        | inr v ↦ (last, rw (any_group, e, v) e', all'')
      ]

module _ (Regex : Type 0) (is_match : Regex → List ℕ → Bool) (wild : List ℕ → Option Regex)
    (qname : List ℕ) (tag_names : List (List ℕ)) where
  -- Without the database no tag matches.
  abbrev pub hits_of : Option (Db Regex is_match wild) → ℕ → Bool
  hits_of none id = false
  hits_of (some rs) id = hits Regex is_match wild rs qname tag_names id

  abbrev pub tags_value : Option (Db Regex is_match wild) → List TagGroup → Bool
  tags_value none gs = false
  tags_value (some rs) gs = any (group_value Regex is_match wild rs qname tag_names) gs

  abbrev pub entry_value : Option (Db Regex is_match wild) → MatchEntry Regex is_match wild → Bool
  entry_value rule_sets e = held Regex is_match wild e.domains qname || tags_value rule_sets e.tags

  -- The ids of an entry's groups are those of names.
  abbrev pub IsEntry : MatchEntry Regex is_match wild → Type 0
  IsEntry e =
      All
        (λ g.
          All (λ id. id < length tag_names) g.include_ids
          × All (λ id. id < length tag_names) g.exclude_ids)
        e.tags

  pub match_entry_matches-Answers :
      (rule_sets : Option (Db Regex is_match wild)) (e : MatchEntry Regex is_match wild)
      (memo : TagMemo)
      → IsEntry e
      → IsMemo (hits_of rule_sets) memo
      → (memo' : TagMemo) × (match_entry_matches Regex is_match wild e qname rule_sets memo
            tag_names
          ≡ ok (memo', entry_value rule_sets e))
        × IsMemo (hits_of rule_sets) memo'
  unfolding match_entry_matches
  match_entry_matches-Answers none e memo valid all =
      let (o, f, same) = lookups-held Regex is_match wild e.domains qname in
      elim (Bool-cases (held Regex is_match wild e.domains qname)) [
        | inl h ↦ (memo, rw (match_entry_matches, f, same, h) refl, all)
        | inr h ↦ (memo, rw (match_entry_matches, f, same, h) refl, all)
      ]
  match_entry_matches-Answers (some rs) e memo valid all =
      let (o, f, same) = lookups-held Regex is_match wild e.domains qname in
      elim (Bool-cases (held Regex is_match wild e.domains qname)) [
        | inl h ↦ (memo, rw (match_entry_matches, f, same, h) refl, all)
        | inr h ↦
            let (last, g, all') =
              any_group-Answers Regex is_match wild rs qname tag_names e.tags memo valid all in
            (last, rw (match_entry_matches, f, same, h) g, all')
      ]
