-- ===== src/Domain/Specific.antt =====
-- The most specific pattern that `DomainMatcher::lookup_specific` of src/domain.rs finds.
use pathdns.Base.{
  ℕ, zero, suc, ◌<◌, ◌≡◌, ◌⊎◌, List, [], ◌∷◌, Bool, true, false, Option, none, some, ok, Bool-cases,
  ◌==◌, length, inl, inr, refl, sym, ap, ◌∙◌, subst, arith,
}
use pathdns.Domain.{dot, get_name, after_dot, suffix_loop, DomainMatcher, lookup_specific}

-- A dot stands in the name right before the segment.
abbrev pub Follows : List ℕ → List ℕ → Type 0
Follows [] s = ⊥
Follows (c ∷ cs) s = ((c ≡ dot) × (cs ≡ s)) ⊎ Follows cs s

-- A right-hand part of the name that begins with a label.
abbrev pub IsSegment : List ℕ → List ℕ → Type 0
IsSegment name s = (name ≡ s) ⊎ Follows name s

Follows-shorter : (name s : List ℕ) → Follows name s → length s < length name
Follows-shorter [] s f = absurd f
Follows-shorter (c ∷ cs) s (inl (d, e)) = omega (arith, ap length e)
Follows-shorter (c ∷ cs) s (inr f) = omega (arith, Follows-shorter cs s f)

after_dot-none : (name s : List ℕ) → after_dot name ≡ none → Follows name s → ⊥
unfolding after_dot
after_dot-none [] s e f = f
after_dot-none (c ∷ cs) s e (inl (d, g)) = ground arith
after_dot-none (c ∷ cs) s e (inr f) = after_dot-none cs s (ground arith) f

after_dot_here : (c : ℕ) (cs : List ℕ) → (c == dot) ≡ true → after_dot (c ∷ cs) ≡ some cs
unfolding after_dot
after_dot_here c cs d = rw d refl

after_dot_on : (c : ℕ) (cs : List ℕ) → (c == dot) ≡ false → after_dot (c ∷ cs) ≡ after_dot cs
unfolding after_dot
after_dot_on c cs d = rw d refl

some-injective : {cs rest : List ℕ} → some cs ≡ some rest → cs ≡ rest
some-injective e = cc

Follows-trans : (name rest s : List ℕ) → Follows name rest → Follows rest s → Follows name s
Follows-trans [] rest s f g = f
Follows-trans (c ∷ cs) rest s (inl (d, e)) g = inr (subst (λ r. Follows r s) (sym e) g)
Follows-trans (c ∷ cs) rest s (inr f) g = inr (Follows-trans cs rest s f g)

after_dot-Follows : (name rest : List ℕ) → after_dot name ≡ some rest → Follows name rest
unfolding after_dot
after_dot-Follows [] rest e = cc
after_dot-Follows (c ∷ cs) rest e = elim (Bool-cases (c == dot)) [
  | inl d ↦ inl (ground arith, some-injective (sym (after_dot_here c cs d) ∙ e))
  | inr d ↦ inr (after_dot-Follows cs rest (sym (after_dot_on c cs d) ∙ e))
]

after_dot_first :
    (name rest s : List ℕ) → after_dot name ≡ some rest → Follows name s → IsSegment rest s
unfolding after_dot
after_dot_first [] rest s e f = absurd f
after_dot_first (c ∷ cs) rest s e (inl (d, g)) =
    inl (sym (some-injective (sym (after_dot_here c cs (ground arith)) ∙ e)) ∙ g)
after_dot_first (c ∷ cs) rest s e (inr f) = elim (Bool-cases (c == dot)) [
  | inl d ↦ inr (subst (λ r. Follows r s) (some-injective (sym (after_dot_here c cs d) ∙ e)) f)
  | inr d ↦ after_dot_first cs rest s (sym (after_dot_on c cs d) ∙ e) f
]

module _ {V : Type 0} (m : List (List ℕ × V)) where
  -- What is found for a name: the value of the longest of its segments that the map has.
  abbrev pub IsBest : List ℕ → Option V → Type 0
  IsBest name none = (s : List ℕ) → IsSegment name s → get_name m s ≡ none
  IsBest name (some v) =
      (s : List ℕ) × IsSegment name s
      × (get_name m s ≡ some v)
      × ((t : List ℕ) → IsSegment name t → length s < length t → get_name m t ≡ none)

  IsBest-after :
      (name rest : List ℕ) (o : Option V)
      → get_name m name ≡ none
      → after_dot name ≡ some rest
      → IsBest rest o
      → IsBest name o
  IsBest-after name rest none g e b = none_there
    where
      none_there : (s : List ℕ) → IsSegment name s → get_name m s ≡ none
      none_there s (inl same) = subst (λ t. get_name m t ≡ none) same g
      none_there s (inr f) = b s (after_dot_first name rest s e f)
  IsBest-after name rest (some v) g e (s, seg, found, longest) = (s, inr (reach seg), found, above)
    where
      reach : IsSegment rest s → Follows name s
      reach (inl same) = subst (λ t. Follows name t) same (after_dot-Follows name rest e)
      reach (inr f) = Follows-trans name rest s (after_dot-Follows name rest e) f

      above : (t : List ℕ) → IsSegment name t → length s < length t → get_name m t ≡ none
      above t (inl same) h = subst (λ u. get_name m u ≡ none) same g
      above t (inr f) h = longest t (after_dot_first name rest t e f) h

module _ (Regex : Type 0) (is_match : Regex → List ℕ → Bool) (wild : List ℕ → Option Regex)
    {V : Type 0} (m : List (List ℕ × V)) where
  suffix_loop-IsBest :
      (fuel : ℕ) (name : List ℕ)
      → length name < fuel
      → (o : Option V) × (suffix_loop Regex is_match wild fuel m name ≡ ok o) × IsBest m name o
  unfolding suffix_loop
  suffix_loop-IsBest zero name h = absurd (omega arith)
  suffix_loop-IsBest (suc fuel) name h =
      go (λ rest k. suffix_loop-IsBest fuel rest k) (get_name m name) refl
    where
      further :
          ((rest : List ℕ)
            → length rest < fuel
            → (o : Option V) × (suffix_loop Regex is_match wild fuel m rest ≡ ok o)
              × IsBest m rest o)
          → (d : Option (List ℕ)) → get_name m name ≡ none
          → after_dot name ≡ d
          → (o : Option V) × (suffix_loop Regex is_match wild (suc fuel) m name ≡ ok o)
            × IsBest m name o
      further again none g e = (none, rw (suffix_loop, g, e) refl, only)
        where
          only : (s : List ℕ) → IsSegment name s → get_name m s ≡ none
          only s (inl same) = subst (λ t. get_name m t ≡ none) same g
          only s (inr f) = absurd (after_dot-none name s e f)
      further again (some rest) g e =
          let shorter : length rest < length name =
            Follows-shorter name rest (after_dot-Follows name rest e) in
          let (o, q, b) = again rest (omega arith) in
          (o, rw (suffix_loop, g, e) q, IsBest-after m name rest o g e b)

      go :
          ((rest : List ℕ)
            → length rest < fuel
            → (o : Option V) × (suffix_loop Regex is_match wild fuel m rest ≡ ok o)
              × IsBest m rest o)
          → (o : Option V) → get_name m name ≡ o
          → (o : Option V) × (suffix_loop Regex is_match wild (suc fuel) m name ≡ ok o)
            × IsBest m name o
      go again (some v) g = (
        some v,
        rw (suffix_loop, g) refl,
        (name, inl refl, g, λ t seg h. absurd (too_long t seg h)),
      )
        where
          too_long : (t : List ℕ) → IsSegment name t → length name < length t → ⊥
          too_long t (inl same) h = omega (arith, ap length same)
          too_long t (inr f) h = omega (arith, Follows-shorter name t f)
      go again none g = further again (after_dot name) g refl

-- The exact name first, then the longest segment that is a suffix pattern.
abbrev pub IsSpecific :
    {V : Type 0} → List (List ℕ × V) → List (List ℕ × V) → List ℕ → Option V → Type 0
IsSpecific full suffix name none = (get_name full name ≡ none) × IsBest suffix name none
IsSpecific full suffix name (some v) =
    (get_name full name ≡ some v) ⊎ ((get_name full name ≡ none) × IsBest suffix name (some v))

module _ (Regex : Type 0) (is_match : Regex → List ℕ → Bool) (wild : List ℕ → Option Regex)
    {V : Type 0} where
  -- `lookup_specific` ends on any name. It returns the value of the exact pattern for the name
  -- where there is one; else the value of the longest right-hand part of the name, from the whole
  -- name or from behind a dot on, that is a suffix pattern; and none only if no such part is.
  pub lookup_specific-IsSpecific :
      (self : DomainMatcher Regex is_match wild V) (qname : List ℕ)
      → (o : Option V) × (lookup_specific Regex is_match wild self qname ≡ ok o)
        × IsSpecific self.full self.suffix qname o
  unfolding lookup_specific get_name
  lookup_specific-IsSpecific self qname = go (get_name self.full qname) refl
    where
      best :
          (o : Option V)
          → get_name self.full qname ≡ none
          → IsBest self.suffix qname o
          → IsSpecific self.full self.suffix qname o
      best none g b = (g, b)
      best (some v) g b = inr (g, b)

      blank : (m : List (List ℕ × V)) → (length m == 0) ≡ true → (s : List ℕ) → get_name m s ≡ none
      blank [] e s = refl
      blank (x ∷ m) e s = absurd (ground arith)

      go :
          (o : Option V)
          → get_name self.full qname ≡ o
          → (o : Option V) × (lookup_specific Regex is_match wild self qname ≡ ok o)
            × IsSpecific self.full self.suffix qname o
      go (some v) g = (some v, rw (lookup_specific, g) refl, inl g)
      go none g = elim (Bool-cases (length self.suffix == 0)) [
        | inl e ↦ (none, rw (lookup_specific, g, e) refl, (g, λ s seg. blank self.suffix e s))
        | inr e ↦
            let (o, q, b) =
              suffix_loop-IsBest Regex is_match wild self.suffix (suc (length qname)) qname
                (omega arith) in
            (o, rw (lookup_specific, g, e) q, best o g b)
      ]
