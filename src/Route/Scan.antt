-- ===== src/Route/Scan.antt =====
-- `RouteIndex::build` and `route_index_uncached` of src/route_index.rs: the index of the first rule
-- that takes the name.
use pathdns.Base.{
  ℕ, suc, ◌+◌, ◌≤◌, ◌<◌, ◌≡◌, inl, inr, List, [], ◌∷◌, Bool, true, false, Option, ok, ltb,
  if◌then◌else◌, Bool-cases, length, refl, sym, subst, arith,
}
use pathdns.Route.{
  RuleMatcher, Rule, TagMemo, is_empty_list, usize_max, Db, MatchEntry, scan_entries,
}
use pathdns.Route.Linear.{rule_hits}
use pathdns.Route.Memo.{IsMemo}
use pathdns.Route.Answers.{hits_of, entry_value, IsEntry, match_entry_matches-Answers}

-- The place of the first rule without matchers.
unfoldable pub catch_from : {K : Type 0} → ℕ → List (Rule K) → ℕ
catch_from i [] = usize_max
catch_from i (r ∷ rs) = if is_empty_list r.matcher then i else catch_from (suc i) rs

catch_from_here :
    {K : Type 0} (i : ℕ) (r : Rule K) (rs : List (Rule K))
    → is_empty_list r.matcher ≡ true
    → catch_from i (r ∷ rs) ≡ i
unfolding catch_from
catch_from_here i r rs n = rw n refl

catch_from_on :
    {K : Type 0} (i : ℕ) (r : Rule K) (rs : List (Rule K))
    → is_empty_list r.matcher ≡ false
    → catch_from i (r ∷ rs) ≡ catch_from (suc i) rs
unfolding catch_from
catch_from_on i r rs n = rw n refl

catch_from-le :
    {K : Type 0} (i : ℕ) (rs : List (Rule K)) → i + length rs < usize_max → i ≤ catch_from i rs
unfolding catch_from
catch_from-le i [] h = omega arith
catch_from-le i (r ∷ rs) h = elim (Bool-cases (is_empty_list r.matcher)) [
  | inl e ↦ rw e (omega arith)
  | inr e ↦ rw e (omega (arith, catch_from-le (suc i) rs))
]

module _ (K : Type 0) (Regex : Type 0) (is_match : Regex → List ℕ → Bool)
    (wild : List ℕ → Option Regex) (all : List (List ℕ)) (qname : List ℕ)
    (rule_sets : Option (Db Regex is_match wild)) where
  abbrev Entry : Type 0
  Entry = MatchEntry Regex is_match wild

  abbrev value : Entry → Bool
  value e = entry_value Regex is_match wild qname all rule_sets e

  abbrev takes : List RuleMatcher → Bool
  takes ms = rule_hits Regex is_match wild rule_sets qname ms

  -- The entries are the rules with matchers, in order, from a place on.
  pub data Compiled : ℕ → List (Rule K) → List Entry → Type 0 where
    done : {i : ℕ} → Compiled i [] []
    skip :
        {i : ℕ} {r : Rule K} {rs : List (Rule K)} {es : List Entry}
        → is_empty_list r.matcher ≡ true
        → Compiled (suc i) rs es
        → Compiled i (r ∷ rs) es
    item :
        {i : ℕ} {r : Rule K} {rs : List (Rule K)} {e : Entry} {es : List Entry}
        → is_empty_list r.matcher ≡ false
        → e.rule_idx ≡ i
        → IsEntry Regex is_match wild qname all e
        → value e ≡ takes r.matcher
        → Compiled (suc i) rs es
        → Compiled i (r ∷ rs) (e ∷ es)

  -- The loop over the entries, without the memo.
  unfoldable pub first_entry : ℕ → List Entry → ℕ
  first_entry c [] = c
  first_entry c (e ∷ es) =
      if ltb c e.rule_idx then c else if value e then e.rule_idx else first_entry c es

  pub scan_entries-first_entry :
      {i : ℕ} {rs : List (Rule K)} {es : List Entry} (c : ℕ) (memo : TagMemo)
      → Compiled i rs es
      → IsMemo (hits_of Regex is_match wild qname all rule_sets) memo
      → scan_entries Regex is_match wild es c qname rule_sets memo all ≡ ok (first_entry c es)
  unfolding scan_entries first_entry
  scan_entries-first_entry c memo done m = refl
  scan_entries-first_entry c memo (skip n k) m = scan_entries-first_entry c memo k m
  scan_entries-first_entry c memo (item {e = e} {es = es} n j v t k) m =
      let (memo', f, m') =
        match_entry_matches-Answers Regex is_match wild qname all rule_sets e memo v m in
      let rest = scan_entries-first_entry c memo' k m' in
      elim (Bool-cases (ltb c e.rule_idx)) [
        | inl b ↦ rw b refl
        | inr b ↦ elim (Bool-cases (value e)) [
          | inl w ↦ rw (scan_entries, b, f, w) refl
          | inr w ↦ rw (scan_entries, b, f, w) rest
        ]
      ]

  unfoldable pub linear_idx : ℕ → List (Rule K) → ℕ
  linear_idx i [] = usize_max
  linear_idx i (r ∷ rs) = if takes r.matcher then i else linear_idx (suc i) rs

  Compiled-le :
      {i : ℕ} {rs : List (Rule K)} {e : Entry} {es : List Entry}
      → Compiled i rs (e ∷ es)
      → i ≤ e.rule_idx
  Compiled-le (skip n k) = omega (arith, Compiled-le k)
  Compiled-le (item n j v t k) = omega arith

  first_entry_before :
      (i : ℕ) (rs : List (Rule K)) (es : List Entry) → Compiled (suc i) rs es → first_entry i es ≡ i
  unfolding first_entry
  first_entry_before i rs [] k = refl
  first_entry_before i rs (e ∷ es) k = ground (arith, Compiled-le k)

  pub first_entry-zero : (es : List Entry) → first_entry 0 es ≡ 0
  unfolding first_entry
  first_entry-zero [] = refl
  first_entry-zero (e ∷ es) = ground (arith, first_entry-zero es)

  empty_takes : (ms : List RuleMatcher) → is_empty_list ms ≡ true → takes ms ≡ true
  unfolding rule_hits
  empty_takes [] e = refl
  empty_takes (m ∷ ms) e = absurd (cc)

  -- The scan of the index finds what the scan of the rules finds.
  pub first_entry-linear_idx :
      {i : ℕ} {rs : List (Rule K)} {es : List Entry}
      → i + length rs < usize_max
      → Compiled i rs es
      → first_entry (catch_from i rs) es ≡ linear_idx i rs
  unfolding first_entry linear_idx catch_from
  first_entry-linear_idx h done = refl
  first_entry-linear_idx {i} h (skip {r = r} {rs = rs} {es = es} n k) =
      rw (n, empty_takes r.matcher n) (first_entry_before i rs es k)
  first_entry-linear_idx {i} h (item {r = r} {rs = rs} {e = e} {es = es} n j v t k) =
      subst (λ c. first_entry c (e ∷ es) ≡ linear_idx i (r ∷ rs)) (sym (catch_from_on i r rs n))
        (later (catch_from (suc i) rs) (omega (arith, catch_from-le (suc i) rs))
          (first_entry-linear_idx (omega arith) k))
    where
      later :
          (c : ℕ)
          → e.rule_idx ≤ c
          → first_entry c es ≡ linear_idx (suc i) rs
          → first_entry c (e ∷ es) ≡ linear_idx i (r ∷ rs)
      later c below rest = elim (Bool-cases (value e)) [
        | inl w ↦ rw (← t, not_before c e.rule_idx below, w) j
        | inr w ↦ rw (← t, not_before c e.rule_idx below, w) rest
      ]
        where
          not_before : (c b : ℕ) → b ≤ c → ltb c b ≡ false
          not_before c b h = ground arith
