-- ===== src/Ruleset/AnswerIp.antt =====
-- When an `answer-ip` field matches (src/ruleset.rs).
use pathdns.Base.{
  ℕ, ◌≡◌, ◌⊎◌, ◌↔◌, List, [], ◌∷◌, Bool, true, false, Option, refl, inl, inr, not, ◌&&◌, Bool-cases,
  arith,
}
use pathdns.Dns.Rr.{IpAddr}
use pathdns.Ruleset.{
  AnswerIpMatcher, RuleSetDb, any, matches_ip, matches_any_ip, include_ok, matches_answer_ip,
}

module _ {A : Type 0} where
  -- Some item of the list has the property.
  abbrev pub Some : (A → Type 0) → List A → Type 0
  Some P [] = ⊥
  Some P (x ∷ xs) = P x ⊎ Some P xs

  pub any-Some : (p : A → Bool) (xs : List A) → any p xs ≡ true → Some (λ x. p x ≡ true) xs
  unfolding any
  any-Some p [] h = absurd (cc)
  any-Some p (x ∷ xs) h = elim (Bool-cases (p x)) [
    | inl e ↦ inl e
    | inr e ↦ inr (any-Some p xs (ground arith))
  ]

  pub Some-any : (p : A → Bool) (xs : List A) → Some (λ x. p x ≡ true) xs → any p xs ≡ true
  unfolding any
  Some-any p [] h = absurd h
  Some-any p (x ∷ xs) (inl e) = rw e refl
  Some-any p (x ∷ xs) (inr h) = ground (arith, Some-any p xs h)

  pub Some-mono : (P Q : A → Type 0) (xs : List A) → ((x : A) → P x → Q x) → Some P xs → Some Q xs
  Some-mono P Q [] f h = h
  Some-mono P Q (x ∷ xs) f (inl h) = inl (f x h)
  Some-mono P Q (x ∷ xs) f (inr h) = inr (Some-mono P Q xs f h)

module _ (Regex : Type 0) (is_match : Regex → List ℕ → Bool) (wild : List ℕ → Option Regex) where
  abbrev Db : Type 0
  Db = RuleSetDb Regex is_match wild

  -- Some address of the answer lies in the ranges of some of the tags.
  abbrev pub Hits : Db → List (List ℕ) → List IpAddr → Type 0
  Hits db tags ips =
      Some (λ tag. Some (λ ip. matches_ip Regex is_match wild db tag ip ≡ true) ips) tags

  abbrev any_tag : Db → List (List ℕ) → List IpAddr → Bool
  any_tag db tags ips = any (λ tag. matches_any_ip Regex is_match wild db tag ips) tags

  any_tag-Hits :
      (db : Db) (tags : List (List ℕ)) (ips : List IpAddr)
      → (any_tag db tags ips ≡ true) ↔ Hits db tags ips
  unfolding matches_any_ip
  any_tag-Hits db tags ips = (
    λ h. Some-mono _ _ tags (λ tag k. any-Some _ ips k) (any-Some _ tags h),
    λ h. Some-any _ tags (Some-mono _ _ tags (λ tag k. Some-any _ ips k) h),
  )

  include_iff :
      (db : Db) (tags : List (List ℕ)) (ips : List IpAddr)
      → (include_ok Regex is_match wild db tags ips ≡ true) ↔ ((tags ≡ []) ⊎ Hits db tags ips)
  unfolding include_ok
  include_iff db [] ips = (λ h. inl refl, λ h. refl)
  include_iff db (t ∷ ts) ips = (λ h. inr ((any_tag-Hits db (t ∷ ts) ips).0 h), λ h. back h)
    where
      back : ((t ∷ ts) ≡ []) ⊎ Hits db (t ∷ ts) ips → any_tag db (t ∷ ts) ips ≡ true
      back (inl e) = absurd (cc)
      back (inr h) = (any_tag-Hits db (t ∷ ts) ips).1 h

  exclude_iff :
      (db : Db) (tags : List (List ℕ)) (ips : List IpAddr)
      → (not (any_tag db tags ips) ≡ true) ↔ (Hits db tags ips → ⊥)
  exclude_iff db tags ips = (
    λ h k. absurd (opposite h ((any_tag-Hits db tags ips).1 k)),
    λ h. elim (Bool-cases (any_tag db tags ips)) [
      | inl e ↦ absurd (h ((any_tag-Hits db tags ips).0 e))
      | inr e ↦ rw e refl
    ],
  )
    where
      opposite : {b : Bool} → not b ≡ true → b ≡ true → ⊥
      opposite {b = true} h k = cc
      opposite {b = false} h k = cc

  both_iff : (a b : Bool) → ((a && b) ≡ true) ↔ ((a ≡ true) × (b ≡ true))
  both_iff true b = (λ h. (refl, h), λ h. h.1)
  both_iff false b = (λ h. absurd (cc), λ h. h.0)

  -- `matches_answer_ip` holds exactly if there are no include tags or some address lies in the
  -- ranges of some include tag, and no address lies in the ranges of an exclude tag.
  pub matches_answer_ip_iff :
      (db : Db) (m : AnswerIpMatcher) (ips : List IpAddr)
      → (matches_answer_ip Regex is_match wild db m ips ≡ true)
        ↔ (((m.include ≡ []) ⊎ Hits db m.include ips) × (Hits db m.exclude ips → ⊥))
  unfolding matches_answer_ip
  matches_answer_ip_iff db m ips = (
    λ h.
        let (a, b) = (both_iff _ _).0 h in
        ((include_iff db m.include ips).0 a, (exclude_iff db m.exclude ips).0 b),
    λ h.
        (both_iff _ _).1
          ((include_iff db m.include ips).1 h.0, (exclude_iff db m.exclude ips).1 h.1),
  )

  -- Of a tag and its exclusion exactly one holds.
  pub matches_answer_ip_complement :
      (db : Db) (tag : List ℕ) (ips : List IpAddr)
      → matches_answer_ip Regex is_match wild db (record { include = tag ∷ []; exclude = [] }) ips
        ≡ not (
            matches_answer_ip Regex is_match wild db
              (record { include = []; exclude = tag ∷ [] })
              ips)
  unfolding matches_answer_ip include_ok any
  matches_answer_ip_complement db tag ips = ground arith
