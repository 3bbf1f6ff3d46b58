-- ===== src/Tests/OneEntry.antt =====
-- A map with room for one entry: every insertion of another key evicts.
use pathdns.Base.{
  ◌≡◌, ◌⊎◌, List, [], ◌∷◌, Option, none, some, Bool, true, false, if◌then◌else◌, Bool-cases, inl,
  inr, refl, sym, subst, ◌∙◌, All,
}
use pathdns.Cache.Backend.{Store}

module _ {K V : Type 0} (same : K → K → Bool) (same-sound : (k j : K) → same k j ≡ true → k ≡ j)
    (same_refl : (k : K) → same k k ≡ true) where
  abbrev read : K → Option (K × V) → Option V
  read j none = none
  read j (some (k, v)) = if same k j then some v else none

  abbrev drop_key : K → Option (K × V) → Option (K × V)
  drop_key k none = none
  drop_key k (some (j, v)) = if same k j then none else some (j, v)

  abbrev listed : Option (K × V) → List (K × V)
  listed none = []
  listed (some e) = e ∷ []

  pub read_inserted :
      (k j : K) (v : V) (s : Option (K × V))
      → (read j (some (k, v)) ≡ none)
        ⊎ (read j (some (k, v)) ≡ (if same k j then some v else read j s))
  read_inserted k j v s = elim (Bool-cases (same k j)) [
    | inl e ↦ inr (rw e refl)
    | inr e ↦ inl (rw e refl)
  ]

  pub read_dropped :
      (k j : K) (s : Option (K × V)) → read j (drop_key k s) ≡ (if same k j then none else read j s)
  read_dropped k j none = elim (Bool-cases (same k j)) [ inl e ↦ rw e refl | inr e ↦ rw e refl ]
  read_dropped k j (some (i, v)) = elim (Bool-cases (same k i)) [
    | inr e ↦ elim (Bool-cases (same k j)) [
      | inr f ↦ rw (e, f) refl
      | inl f ↦ rw (e, f, apart (same-sound k j f) e) refl
    ]
    | inl e ↦ elim (Bool-cases (same k j)) [
      | inl f ↦ rw (e, f) refl
      | inr f ↦ rw (e, f, subst (λ x. same x j ≡ false) (same-sound k i e) f) refl
    ]
  ]
    where
      clash : {b : Bool} → b ≡ true → b ≡ false → ⊥
      clash g h = cc

      apart : k ≡ j → same k i ≡ false → same i j ≡ false
      apart p e = elim (Bool-cases (same i j)) [
        | inr g ↦ g
        | inl g ↦
            absurd
              (clash (subst (λ x. same k x ≡ true) (p ∙ sym (same-sound i j g)) (same_refl k)) e)
      ]

  pub read_listed : (s : Option (K × V)) → All (λ e. read e.0 s ≡ some e.1) (listed s)
  read_listed none = tt
  read_listed (some (k, v)) = (rw (same_refl k) refl, tt)

  abbrev pub one_entry : Store K V
  one_entry = record {
    State = Option (K × V);
    same = same;
    with_capacity = λ n. none;
    get = read;
    insert = λ k v s. some (k, v);
    remove = drop_key;
    clear = λ s. none;
    entries = listed;
    same-sound = same-sound;
    get-with_capacity = λ n j. refl;
    get-insert = read_inserted;
    get-remove = read_dropped;
    get-clear = λ j s. refl;
    get-entries = read_listed;
  }
