-- ===== src/Domain.antt =====
-- Domain names as text, src/domain.rs: `normalize_domain`, `classify_pattern` and `DomainMatcher`.
-- A string is its characters, as numbers; `str_len` counts the bytes of its UTF-8. A compiled `Regex` and
-- `wildcard_domain_regex`, which builds one, are arguments.
pub mod Specific
use pathdns.Base.{
  ℕ, zero, suc, ◌+◌, List, [], ◌∷◌, ◌++◌, map, Bool, true, false, not, ◌&&◌, ◌||◌, Option, none,
  some, Outcome, ok, reject, stuck, leb, ltb, ◌==◌, if◌then◌else◌, length, drop,
}
use pathdns.Hasher.{to_ascii_lowercase}
use pathdns.Dns.Question.{eq_bytes}

-- '.'.
abbrev pub dot : ℕ
dot = 46

-- `char::len_utf8` and `str::len`.
abbrev pub len_utf8 : ℕ → ℕ
len_utf8 c = if ltb c 0x80 then 1 else if ltb c 0x800 then 2 else if ltb c 0x10000 then 3 else 4

unfoldable pub str_len : List ℕ → ℕ
str_len [] = 0
str_len (c ∷ cs) = len_utf8 c + str_len cs

-- `char::is_whitespace`.
abbrev pub is_whitespace : ℕ → Bool
is_whitespace c =
    (leb 9 c && leb c 13)
    || c == 32
    || c == 0x85
    || c == 0xa0
    || c == 0x1680
    || (leb 0x2000 c && leb c 0x200a)
    || c == 0x2028
    || c == 0x2029
    || c == 0x202f
    || c == 0x205f
    || c == 0x3000

unfoldable pub trim_start_matches : (ℕ → Bool) → List ℕ → List ℕ
trim_start_matches p [] = []
trim_start_matches p (c ∷ cs) = if p c then trim_start_matches p cs else c ∷ cs

-- A character that the test passes goes when all behind it have gone.
unfoldable pub trim_end_matches : (ℕ → Bool) → List ℕ → List ℕ
trim_end_matches p [] = []
trim_end_matches p (c ∷ cs) = elim (trim_end_matches p cs) [
  | [] ↦ if p c then [] else c ∷ []
  | d ∷ ds ↦ c ∷ d ∷ ds
]

unfoldable pub trim : List ℕ → List ℕ
trim s = trim_end_matches is_whitespace (trim_start_matches is_whitespace s)

-- `split`: the part before the first separator, and the further ones.
unfoldable pub split_once : ℕ → List ℕ → List ℕ × List (List ℕ)
split_once sep [] = ([], [])
split_once sep (c ∷ cs) =
    let (part, parts) = split_once sep cs in
    if c == sep then ([], part ∷ parts) else (c ∷ part, parts)

unfoldable pub split : ℕ → List ℕ → List (List ℕ)
split sep s = let (part, parts) = split_once sep s in part ∷ parts

unfoldable pub any_bad_label : List (List ℕ) → Bool
any_bad_label [] = false
any_bad_label (label ∷ labels) =
    str_len label == 0 || ltb 63 (str_len label) || any_bad_label labels

unfoldable pub normalize_domain : List ℕ → Option (List ℕ)
normalize_domain name =
    let s = map to_ascii_lowercase (trim_end_matches (λ c. c == dot) (trim name)) in
    if str_len s == 0 || ltb 253 (str_len s) || any_bad_label (split dot s) then none else some s

-- A map from names, as an association list: the last insertion of a name counts.
unfoldable pub get_name {ℓ} : {V : Type ℓ} → List (List ℕ × V) → List ℕ → Option V
get_name [] name = none
get_name ((key, v) ∷ m) name = if eq_bytes key name then some v else get_name m name

unfoldable pub is_prefix : List ℕ → List ℕ → Bool
is_prefix [] cs = true
is_prefix (p ∷ ps) [] = false
is_prefix (p ∷ ps) (c ∷ cs) = p == c && is_prefix ps cs

unfoldable pub strip_prefix : List ℕ → List ℕ → Option (List ℕ)
strip_prefix p s = if is_prefix p s then some (drop (length p) s) else none

-- `str::find('.')`, as what follows the dot.
unfoldable pub after_dot : List ℕ → Option (List ℕ)
after_dot [] = none
after_dot (c ∷ cs) = if c == dot then some cs else after_dot cs

module _ (Regex : Type 0) (is_match : Regex → List ℕ → Bool)
    (wildcard_domain_regex : List ℕ → Option Regex) where
  pub record DomainMatcher (V : Type 0) : Type 0 where
    pub full : List (List ℕ × V)
    pub suffix : List (List ℕ × V)
    pub regex : List (Regex × V)

  pub data PatternKind : Type 0 where
    suffix_pattern : List ℕ → PatternKind
    full_pattern : List ℕ → PatternKind
    wildcard : Regex → PatternKind
    invalid : PatternKind

  -- `map_or(Invalid, kind)`.
  abbrev pub map_or_invalid : Option (List ℕ) → (List ℕ → PatternKind) → PatternKind
  map_or_invalid none kind = invalid
  map_or_invalid (some name) kind = kind name

  unfoldable pub classify_pattern : List ℕ → PatternKind
  classify_pattern pattern = elim (strip_prefix (43 ∷ dot ∷ []) pattern) [
    | some rest ↦ map_or_invalid (normalize_domain rest) suffix_pattern
    | none ↦ elim (strip_prefix (dot ∷ []) pattern) [
      | some rest ↦ map_or_invalid (normalize_domain rest) suffix_pattern
      | none ↦ elim (wildcard_domain_regex pattern) [
        | some re ↦ wildcard re
        | none ↦ map_or_invalid (normalize_domain pattern) full_pattern
      ]
    ]
  ]

  module _ {V : Type 0} where
    unfoldable pub insert_full : DomainMatcher V → List ℕ → V → DomainMatcher V
    insert_full self name value = record self { full = (name, value) ∷ self.full }

    unfoldable pub insert_suffix : DomainMatcher V → List ℕ → V → DomainMatcher V
    insert_suffix self name value = record self { suffix = (name, value) ∷ self.suffix }

    unfoldable pub insert_regex : DomainMatcher V → Regex → V → DomainMatcher V
    insert_regex self re value = record self { regex = self.regex ++ ((re, value) ∷ []) }

    -- The `loop` over the right-hand segments of the name.
    unfoldable pub suffix_loop : ℕ → List (List ℕ × V) → List ℕ → Outcome (Option V)
    suffix_loop zero suffix segment = stuck
    suffix_loop (suc fuel) suffix segment = elim (get_name suffix segment) [
      | some v ↦ ok (some v)
      | none ↦ elim (after_dot segment) [
        | none ↦ ok none
        | some rest ↦ suffix_loop fuel suffix rest
      ]
    ]

    unfoldable pub lookup_specific : DomainMatcher V → List ℕ → Outcome (Option V)
    lookup_specific self qname = elim (get_name self.full qname) [
      | some v ↦ ok (some v)
      | none ↦
          if length self.suffix == 0
          then ok none
          else suffix_loop (suc (length qname)) self.suffix qname
    ]

    unfoldable pub lookup_fuzzy : List (Regex × V) → List ℕ → Option V
    lookup_fuzzy [] qname = none
    lookup_fuzzy ((re, v) ∷ rs) qname = if is_match re qname then some v else lookup_fuzzy rs qname
