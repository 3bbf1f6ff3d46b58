-- ===== src/Route/Memo.antt =====
-- The memo of tag tests of src/route_index.rs: every answer that it gives is the database's, so the
-- tests of a rule come to what they come to without it.
use pathdns.Base.{
  ℕ, ◌+◌, ◌/◌, ◌%◌, ◌^◌, ◌≡◌, ◌≢◌, ◌⊎◌, inl, inr, Bool, true, false, not, some, ◌==◌, if◌then◌else◌,
  Bool-cases, get_elem?, set, refl, sym, ap, subst, ◌∙◌, bit_and, bit_or, arith, get_elem?-set_self,
  get_elem?-set_ne, get_elem?-replicate,
}
use pathdns.Base.BitSets.{zero-bit_and, test_set_self, test_set_other}
use pathdns.Route.{TagMemoChunk, TagMemo, new_memo, note}

abbrev pub bit : ℕ → ℕ
bit id = 2 ^ (id % 64)

abbrev pub tests : ℕ → ℕ → Bool
tests word id = not (bit_and word (bit id) == 0)

module _ (hits : ℕ → Bool) where
  -- A tag that has not been asked for, or the answer for it.
  abbrev BitOk : TagMemoChunk → ℕ → Type 0
  BitOk chunk id =
      ((tests chunk.seen id ≡ false) × (tests chunk.matched id ≡ false))
      ⊎ ((tests chunk.seen id ≡ true) × (tests chunk.matched id ≡ hits id))

  abbrev pub IsMemo : TagMemo → Type 0
  IsMemo memo =
      (id : ℕ) (chunk : TagMemoChunk)
      → get_elem? memo.chunks (id / 64) ≡ some chunk
      → BitOk chunk id

  tests_set_self : (word id : ℕ) → tests (bit_or word (bit id)) id ≡ true
  tests_set_self word id = ground (arith, test_set_self (id % 64) word)

  tests_set_other :
      (word id j : ℕ) → id % 64 ≢ j % 64 → tests (bit_or word (bit id)) j ≡ tests word j
  tests_set_other word id j d =
      ap (λ (t : ℕ). not (t == 0)) (test_set_other (id % 64) (j % 64) word d)

  pub new_memo-IsMemo : (n : ℕ) → IsMemo (new_memo n)
  unfolding new_memo
  new_memo-IsMemo n id chunk h =
      subst (λ c. BitOk c id) (get_elem?-replicate ((n + 63) / 64) (id / 64) _ h)
        (inl (blank, blank))
    where
      blank : tests 0 id ≡ false
      blank = rw (zero-bit_and (bit id)) refl

  abbrev noted : TagMemoChunk → ℕ → TagMemoChunk
  noted chunk id = record {
    seen = bit_or chunk.seen (bit id);
    matched = if hits id then bit_or chunk.matched (bit id) else chunk.matched;
  }

  noted_self :
      (chunk : TagMemoChunk) (id : ℕ) → tests chunk.matched id ≡ false → BitOk (noted chunk id) id
  noted_self chunk id h = elim (Bool-cases (hits id)) [
    | inl v ↦ inr (tests_set_self chunk.seen id, rw (v, tests_set_self chunk.matched id) refl)
    | inr v ↦ inr (tests_set_self chunk.seen id, rw v h)
  ]

  noted_other :
      (chunk : TagMemoChunk) (id j : ℕ)
      → id % 64 ≢ j % 64
      → BitOk chunk j
      → BitOk (noted chunk id) j
  noted_other chunk id j d b = elim b [
    | inl (s, m) ↦ inl (tests_set_other chunk.seen id j d ∙ s, same ∙ m)
    | inr (s, m) ↦ inr (tests_set_other chunk.seen id j d ∙ s, same ∙ m)
  ]
    where
      same :
          tests (if hits id then bit_or chunk.matched (bit id) else chunk.matched) j
          ≡ tests chunk.matched j
      same = elim (Bool-cases (hits id)) [
        | inl v ↦ rw v (tests_set_other chunk.matched id j d)
        | inr v ↦ rw v refl
      ]

  pub note-IsMemo :
      (memo : TagMemo) (id : ℕ) (chunk : TagMemoChunk)
      → get_elem? memo.chunks (id / 64) ≡ some chunk
      → tests chunk.matched id ≡ false
      → IsMemo memo
      → IsMemo (note memo (id / 64) (bit id) (hits id))
  unfolding note
  note-IsMemo memo id chunk g fresh all j c h = elim (Bool-cases (id / 64 == j / 64)) [
    | inr far ↦ all j c (
        sym (get_elem?-set_ne memo.chunks (id / 64) (j / 64) (noted chunk id) (ground arith))
        ∙ opened)
    | inl near ↦
        subst (λ x. BitOk x j) (here (ground arith))
          (elim (Bool-cases (id % 64 == j % 64)) [
            | inl same ↦
                subst (λ i. BitOk (noted chunk id) i) (id_eq (ground arith) (ground arith))
                  (noted_self chunk id fresh)
            | inr other ↦ noted_other chunk id j (ground arith) (
                all j chunk
                  (subst (λ (i : ℕ). get_elem? memo.chunks i ≡ some chunk) (ground arith) g))
          ])
  ]
    where
      opened : get_elem? (set memo.chunks (id / 64) (noted chunk id)) (j / 64) ≡ some c
      opened = rw (note, g) at h

      some-injective : {a b : TagMemoChunk} → some a ≡ some b → a ≡ b
      some-injective e = cc

      here : id / 64 ≡ j / 64 → noted chunk id ≡ c
      here e = some-injective (
          sym (get_elem?-set_self memo.chunks (id / 64) (noted chunk id) g)
          ∙ ap (λ i. get_elem? (set memo.chunks (id / 64) (noted chunk id)) i) e
          ∙ opened)

      id_eq : id / 64 ≡ j / 64 → id % 64 ≡ j % 64 → id ≡ j
      id_eq p q = omega arith
