-- ===== src/Route.antt =====
-- The route index, src/route_index.rs: `RouteIndex::build`, `RouteIndex::route` and the memo of tag
-- tests, with `Rule` of src/server.rs and `RuleMatcher` of src/config/mod.rs. What a server is at
-- query time is an argument of `Rule`. The cache of routes is a `Store`, a parameter.
pub mod Linear
pub mod Domains
pub mod Memo
pub mod Answers
pub mod Compile
pub mod Scan
pub mod Build
pub mod Place
pub mod First
use pathdns.Base.{
  ℕ, zero, suc, ◌+◌, ◌-◌, ◌/◌, ◌%◌, ◌^◌, max, bit_and, bit_or, List, [], ◌∷◌, ◌++◌, Bool, true,
  false, not, ◌&&◌, ◌||◌, Option, none, some, Outcome, ok, panic, ◌>>=◌, ltb, ◌==◌, if◌then◌else◌,
  length, get_elem?, set, replicate,
}
use pathdns.Domain.{
  DomainMatcher, suffix_pattern, full_pattern, wildcard, invalid, classify_pattern, insert_full,
  insert_suffix, insert_regex, get_name, lookup_specific, lookup_fuzzy,
}
use pathdns.Ruleset.{TagMatchers, RuleSetDb, is_some, any}
use pathdns.Ruleset
use pathdns.Cache.{ResolvedCachePolicy}
use pathdns.Cache.Backend.{Store}
use pathdns.ResponseFilter.{ResponseFilter}

pub data RuleMatcher : Type 0 where
  domain_entry : List ℕ → RuleMatcher
  tag_entry : List (List ℕ) → List (List ℕ) → RuleMatcher

-- `server_arc` is a shared copy of `server`.
pub record Rule (Kind : Type 0) : Type 0 where
  pub index : ℕ
  pub server : List ℕ
  pub kind : Kind
  pub cache_policy : ResolvedCachePolicy
  pub filters : List ResponseFilter
  pub matcher : List RuleMatcher
  pub strip_ecs : Bool

pub record TagMemoChunk : Type 0 where
  pub seen : ℕ
  pub matched : ℕ

pub record TagMemo : Type 0 where
  pub chunks : List TagMemoChunk

unfoldable pub new_memo : ℕ → TagMemo
new_memo num_tags = record {
  chunks = replicate ((num_tags + 63) / 64) (record { seen = 0; matched = 0 });
}

-- `chunk.seen |= bit; if v { chunk.matched |= bit; }`, where the chunk exists.
unfoldable pub note : TagMemo → ℕ → ℕ → Bool → TagMemo
note self chunk_idx bit v = elim (get_elem? self.chunks chunk_idx) [
  | none ↦ self
  | some chunk ↦ record {
    chunks = set self.chunks chunk_idx (record {
      seen = bit_or chunk.seen bit;
      matched = if v then bit_or chunk.matched bit else chunk.matched;
    });
  }
]

pub record TagGroup : Type 0 where
  pub include_ids : List ℕ
  pub exclude_ids : List ℕ

-- The maps that the closure `intern` of `build` keeps.
pub record Interner : Type 0 where
  pub tag_ids : List (List ℕ × ℕ)
  pub tag_names : List (List ℕ)

unfoldable pub intern : Interner → List ℕ → Interner × ℕ
intern self name = elim (get_name self.tag_ids name) [
  | some id ↦ (self, id)
  | none ↦
      let id : ℕ = length self.tag_names % 65536 in
      (
        record { tag_ids = (name, id) ∷ self.tag_ids; tag_names = self.tag_names ++ (name ∷ []) },
        id,
      )
]

-- `iter().map(|t| intern(t)).collect()`.
unfoldable pub intern_all : Interner → List (List ℕ) → Interner × List ℕ
intern_all self [] = (self, [])
intern_all self (name ∷ names) =
    let (self', id) = intern self name in
    let (last, ids) = intern_all self' names in (last, id ∷ ids)

-- `usize::MAX`.
abbrev pub usize_max : ℕ
usize_max = 18446744073709551615

abbrev pub unwrap_or : Option ℕ → ℕ → ℕ
unwrap_or none d = d
unwrap_or (some n) d = n

abbrev pub is_none {ℓ} : {A : Type ℓ} → Option A → Bool
is_none none = true
is_none (some a) = false

abbrev pub is_empty_list {ℓ} : {A : Type ℓ} → List A → Bool
is_empty_list [] = true
is_empty_list (x ∷ xs) = false

unfoldable pub route_cache_min_capacity : ℕ
route_cache_min_capacity = 4096

-- `tag_names[id as usize]`.
unfoldable pub name_at : List (List ℕ) → ℕ → Outcome (List ℕ)
name_at tag_names id = elim (get_elem? tag_names id) [ none ↦ panic | some name ↦ ok name ]

module _ (Regex : Type 0) (is_match : Regex → List ℕ → Bool)
    (wildcard_domain_regex : List ℕ → Option Regex) where
  abbrev pub Db : Type 0
  Db = RuleSetDb Regex is_match wildcard_domain_regex

  abbrev pub Matchers : Type 0
  Matchers = TagMatchers Regex is_match wildcard_domain_regex

  pub record MatchEntry : Type 0 where
    pub rule_idx : ℕ
    pub domains : Matchers
    pub tags : List TagGroup

  -- `TagMemo::check`: the answer that the memo has, or the database's, which it keeps.
  unfoldable pub ask : TagMemo → Db → ℕ → List ℕ → List ℕ → Outcome (TagMemo × Bool)
  unfolding note
  ask self rs tag_id tag_name qname = do
    v ← Ruleset.matches Regex is_match wildcard_domain_regex rs tag_name qname
    ok (note self (tag_id / 64) (2 ^ (tag_id % 64)) v, v)

  unfoldable pub check : TagMemo → Db → ℕ → List ℕ → List ℕ → Outcome (TagMemo × Bool)
  unfolding ask
  check self rs tag_id tag_name qname = elim (get_elem? self.chunks (tag_id / 64)) [
    | none ↦ ask self rs tag_id tag_name qname
    | some chunk ↦
        if not (bit_and chunk.seen (2 ^ (tag_id % 64)) == 0)
        then ok (self, not (bit_and chunk.matched (2 ^ (tag_id % 64)) == 0))
        else ask self rs tag_id tag_name qname
  ]

  -- `iter().any(|&id| memo.check(..))`, which stops at the first tag that matches.
  unfoldable pub any_check :
      List ℕ → TagMemo → Db → List (List ℕ) → List ℕ → Outcome (TagMemo × Bool)
  unfolding name_at check
  any_check [] memo rs tag_names qname = ok (memo, false)
  any_check (id ∷ ids) memo rs tag_names qname = do
    name ← name_at tag_names id
    r ← check memo rs id name qname
    let rest = any_check ids r.0 rs tag_names qname
    if r.1 then ok (r.0, true) else rest

  unfoldable pub tag_group_matches :
      TagGroup → List ℕ → Db → TagMemo → List (List ℕ) → Outcome (TagMemo × Bool)
  unfolding any_check
  tag_group_matches group qname rs memo tag_names = do
    positive ←
        (if is_empty_list group.include_ids
          then ok (memo, true)
          else any_check group.include_ids memo rs tag_names qname)
    if not positive.1 then ok (positive.0, false) else (do
      negative ← any_check group.exclude_ids positive.0 rs tag_names qname
      ok (negative.0, not negative.1))

  -- `entry.tags.iter().any(..)`.
  unfoldable pub any_group :
      List TagGroup → List ℕ → Db → TagMemo → List (List ℕ) → Outcome (TagMemo × Bool)
  unfolding tag_group_matches
  any_group [] qname rs memo tag_names = ok (memo, false)
  any_group (group ∷ groups) qname rs memo tag_names = do
    r ← tag_group_matches group qname rs memo tag_names
    let rest = any_group groups qname rs r.0 tag_names
    if r.1 then ok (r.0, true) else rest

  unfoldable pub match_entry_matches :
      MatchEntry → List ℕ → Option Db → TagMemo → List (List ℕ) → Outcome (TagMemo × Bool)
  unfolding any_group
  match_entry_matches entry qname rule_sets memo tag_names = do
    specific ← lookup_specific Regex is_match wildcard_domain_regex entry.domains qname
    let fuzzy = lookup_fuzzy Regex is_match wildcard_domain_regex entry.domains.regex qname
    if is_some specific || is_some fuzzy then ok (memo, true) else (elim rule_sets [
      | none ↦ ok (memo, false)
      | some rs ↦ any_group entry.tags qname rs memo tag_names
    ])

  -- A domain pattern of a matcher, as `build` puts it in.
  unfoldable pub put_pattern : List ℕ → Matchers → Matchers
  put_pattern pattern domains =
      elim (classify_pattern Regex is_match wildcard_domain_regex pattern) [
        | suffix_pattern n ↦ insert_suffix Regex is_match wildcard_domain_regex domains n tt
        | full_pattern n ↦ insert_full Regex is_match wildcard_domain_regex domains n tt
        | wildcard re ↦ insert_regex Regex is_match wildcard_domain_regex domains re tt
        | invalid ↦ domains
      ]

  -- The body of the loop over a rule's matchers in `build`.
  unfoldable pub compile_matchers :
      List RuleMatcher → Interner → Matchers → List TagGroup → Interner × Matchers × List TagGroup
  unfolding intern_all put_pattern
  compile_matchers [] names domains tags = (names, domains, tags)
  compile_matchers (domain_entry pattern ∷ ms) names domains tags =
      compile_matchers ms names (put_pattern pattern domains) tags
  compile_matchers (tag_entry include exclude ∷ ms) names domains tags =
      let (names', include_ids) = intern_all names include in
      let (last, exclude_ids) = intern_all names' exclude in
      compile_matchers ms last domains
        (tags ++ (record { include_ids = include_ids; exclude_ids = exclude_ids } ∷ []))

  -- The variables of the loop over the rules in `build`.
  pub record Building : Type 0 where
    pub names : Interner
    pub match_entries : List MatchEntry
    pub catch_all_idx : Option ℕ

  unfoldable pub add_entry : ℕ → List RuleMatcher → Building → Building
  unfolding compile_matchers
  add_entry idx [] b = record b { catch_all_idx = some (unwrap_or b.catch_all_idx idx) }
  add_entry idx (m ∷ ms) b =
      let (names, domains, tags) =
        compile_matchers (m ∷ ms) b.names (record { full = []; suffix = []; regex = [] }) [] in
      record {
        names = names;
        match_entries =
            b.match_entries ++ (record { rule_idx = idx; domains = domains; tags = tags } ∷ []);
        catch_all_idx = b.catch_all_idx;
      }

  unfoldable pub build_loop : {K : Type 0} → List (Rule K) → ℕ → Building → Building
  unfolding add_entry
  build_loop [] idx b = b
  build_loop (rule ∷ rules) idx b = build_loop rules (suc idx) (add_entry idx rule.matcher b)

  pub record RouteIndex (State : Type 0) : Type 0 where
    pub match_entries : List MatchEntry
    pub catch_all_idx : Option ℕ
    pub needs_ruleset : Bool
    pub constant_route : Option (Option ℕ)
    pub tag_names : List (List ℕ)
    pub num_tags : ℕ
    pub route_cache : State

  -- The loop of `route_index_uncached`.
  unfoldable pub scan_entries :
      List MatchEntry → ℕ → List ℕ → Option Db → TagMemo → List (List ℕ) → Outcome ℕ
  unfolding match_entry_matches
  scan_entries [] catch_all qname rule_sets memo tag_names = ok catch_all
  scan_entries (entry ∷ entries) catch_all qname rule_sets memo tag_names =
      if ltb catch_all entry.rule_idx then ok catch_all else (do
        r ← match_entry_matches entry qname rule_sets memo tag_names
        let rest = scan_entries entries catch_all qname rule_sets r.0 tag_names
        if r.1 then ok entry.rule_idx else rest)

  module _ (S : Store (List ℕ) ℕ) where
    open S use {State}

    unfoldable pub build : {K : Type 0} → List (Rule K) → ℕ → RouteIndex State
    unfolding build_loop route_cache_min_capacity
    build rules dns_cache_capacity =
        let b = build_loop rules 0 (record {
          names = record { tag_ids = []; tag_names = [] };
          match_entries = [];
          catch_all_idx = none;
        }) in
        record {
          match_entries = b.match_entries;
          catch_all_idx = b.catch_all_idx;
          needs_ruleset = any (λ e. not (is_empty_list e.tags)) b.match_entries;
          constant_route =
              if (not (is_none b.catch_all_idx) && unwrap_or b.catch_all_idx 1 == 0)
                || is_empty_list b.match_entries
              then some b.catch_all_idx
              else none;
          tag_names = b.names.tag_names;
          num_tags = length b.names.tag_names;
          route_cache = S.with_capacity (max dns_cache_capacity route_cache_min_capacity);
        }

    unfoldable pub route_index_uncached :
        RouteIndex State → List ℕ → Option Db → TagMemo → Outcome ℕ
    unfolding scan_entries
    route_index_uncached self qname rule_sets tag_memo =
        let catch_all : ℕ = unwrap_or self.catch_all_idx usize_max in
        if is_empty_list self.match_entries
        then ok catch_all
        else scan_entries self.match_entries catch_all qname rule_sets tag_memo self.tag_names

    -- The part of `route` behind a miss in the cache, or without the cache.
    unfoldable pub route_uncached :
        {K : Type 0}
        → RouteIndex State
        → List (Rule K)
        → List ℕ
        → Option Db
        → Bool
        → Outcome (RouteIndex State × Option (Rule K))
    unfolding route_index_uncached new_memo
    route_uncached self rules qname rule_sets use_cache = do
      idx ← route_index_uncached self qname rule_sets (new_memo self.num_tags)
      ok (
        if use_cache
            then record self { route_cache = S.insert qname idx self.route_cache }
            else self,
        get_elem? rules idx,
      )

    -- `route` behind the look into the cache, which is `none` where the cache is not used.
    unfoldable pub route_looked :
        {K : Type 0}
        → Option ℕ
        → Bool
        → RouteIndex State
        → List (Rule K)
        → List ℕ
        → Option Db
        → Outcome (RouteIndex State × Option (Rule K))
    unfolding route_uncached
    route_looked none use_cache self rules qname rule_sets =
        route_uncached self rules qname rule_sets use_cache
    route_looked (some idx) use_cache self rules qname rule_sets =
        ok (self, if idx == usize_max then none else get_elem? rules idx)

    -- `route` by the constant decision.
    unfoldable pub route_from :
        {K : Type 0}
        → Option (Option ℕ)
        → RouteIndex State
        → List (Rule K)
        → List ℕ
        → Option Db
        → Outcome (RouteIndex State × Option (Rule K))
    unfolding route_looked
    route_from (some none) self rules qname rule_sets = ok (self, none)
    route_from (some (some idx)) self rules qname rule_sets = ok (self, get_elem? rules idx)
    route_from none self rules qname rule_sets =
        let use_cache = is_some rule_sets || not self.needs_ruleset in
        route_looked (if use_cache then S.get qname self.route_cache else none) use_cache self rules
          qname rule_sets

    unfoldable pub route :
        {K : Type 0}
        → RouteIndex State
        → List (Rule K)
        → List ℕ
        → Option Db
        → Outcome (RouteIndex State × Option (Rule K))
    unfolding route_from
    route self rules qname rule_sets = route_from self.constant_route self rules qname rule_sets
