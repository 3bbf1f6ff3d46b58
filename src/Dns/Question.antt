-- ===== src/Dns/Question.antt =====
-- `questions_match` of src/dns/mod.rs: the comparison of two question sections.
use pathdns.Base.{
  inl, inr, arith, ◌<◌, ◌≡◌, Bool-cases, refl, ap, ◌⊎◌, reject, ℕ, zero, suc, ◌+◌, ◌-◌, List, [],
  ◌∷◌, Bool, true, false, not, ◌&&◌, ◌||◌, Outcome, ok, stuck, guard, let_else, ◌>>=◌, ◌>>◌, ltb,
  ◌==◌, if◌then◌else◌, length,
}
use pathdns.Base.Bytes.{byte, get, slice, slice_lem}
use pathdns.Hasher.{to_ascii_lowercase}

-- `==` of byte slices.
unfoldable pub eq_bytes : List ℕ → List ℕ → Bool
eq_bytes [] [] = true
eq_bytes [] (y ∷ ys) = false
eq_bytes (x ∷ xs) [] = false
eq_bytes (x ∷ xs) (y ∷ ys) = x == y && eq_bytes xs ys

unfoldable pub eq_ignore_ascii_case : ℕ → ℕ → Bool
eq_ignore_ascii_case a b = to_ascii_lowercase a == to_ascii_lowercase b

-- The `for` loop over a label: where it leaves `pos`; `reject` for its `return false`.
unfoldable pub match_label : ℕ → List ℕ → List ℕ → ℕ → Outcome ℕ
unfolding get eq_ignore_ascii_case
match_label zero a b pos = ok pos
match_label (suc n) a b pos = do
  ba ← get a pos
  bb ← get b pos
  guard (eq_ignore_ascii_case ba bb)
  match_label n a b (pos + 1)

-- The `loop` over the labels.
unfoldable pub match_labels : ℕ → List ℕ → List ℕ → ℕ → Outcome Bool
unfolding get match_label
match_labels zero a b pos = stuck
match_labels (suc fuel) a b pos =
    if ltb (length a - 4) pos
    then ok false
    else let_else (get a pos) (ok false) λ la. let_else (get b pos) (ok false) λ lb.
      if not (la == lb)
      then ok false
      else if la == 0
      then ok true
      else let_else (match_label la a b (pos + 1)) (ok false) λ pos'. match_labels fuel a b pos'

unfoldable pub questions_match : List ℕ → List ℕ → Outcome Bool
unfolding slice eq_bytes match_labels
questions_match a b = if not (length a == length b) || ltb (length a) 4 then ok false else (do
  tail_a ← slice a (length a - 4) (length a)
  tail_b ← slice b (length b - 4) (length b)
  if not (eq_bytes tail_a tail_b) then ok false else match_labels (suc (length a)) a b 0)

match_label-end :
    (n : ℕ) (a b : List ℕ) (pos : ℕ)
    → (match_label n a b pos ≡ ok (pos + n)) ⊎ (match_label n a b pos ≡ reject)
unfolding match_label get
match_label-end zero a b pos = inl (ap ok (omega arith))
match_label-end (suc n) a b pos =
    let rest = match_label-end n a b (pos + 1) in
    let e : pos + 1 + n ≡ pos + suc n = omega arith in
    elim (Bool-cases (ltb pos (length a))) [
      | inr x ↦ rw x (inr refl)
      | inl x ↦ elim (Bool-cases (ltb pos (length b))) [
        | inr y ↦ rw (x, y) (inr refl)
        | inl y ↦ elim (Bool-cases (eq_ignore_ascii_case (byte a pos) (byte b pos))) [
          | inr z ↦ rw (x, y, z) (inr refl)
          | inl z ↦ elim rest [
            | inl r ↦ rw (x, y, z, r, e) (inl refl)
            | inr r ↦ rw (x, y, z, r) (inr refl)
          ]
        ]
      ]
    ]

match_labels_total :
    (fuel : ℕ) (a b : List ℕ) (pos : ℕ)
    → 0 < fuel
    → length a < pos + fuel
    → (r : Bool) × (match_labels fuel a b pos ≡ ok r)
unfolding match_labels get
match_labels_total zero a b pos p h = absurd (omega arith)
match_labels_total (suc fuel) a b pos p h = elim (Bool-cases (ltb (length a - 4) pos)) [
  | inl w ↦ rw w (false, refl)
  | inr w ↦ elim (Bool-cases (ltb pos (length a))) [
    | inr x ↦ rw (w, x) (false, refl)
    | inl x ↦ elim (Bool-cases (ltb pos (length b))) [
      | inr y ↦ rw (w, x, y) (false, refl)
      | inl y ↦ elim (Bool-cases (byte a pos == byte b pos)) [
        | inr z ↦ rw (w, x, y, z) (false, refl)
        | inl z ↦ elim (Bool-cases (byte a pos == 0)) [
          | inl o ↦ rw (w, x, y, z, o) (true, refl)
          | inr o ↦ elim (match_label-end (byte a pos) a b (pos + 1)) [
            | inr r ↦ rw (w, x, y, z, o, r) (false, refl)
            | inl r ↦
                rw (w, x, y, z, o, r)
                  (match_labels_total fuel a b (pos + 1 + byte a pos) (ground arith) (ground arith))
          ]
        ]
      ]
    ]
  ]
]

-- The comparison ends, without a panic, on any two byte strings.
pub questions_match_total : (a b : List ℕ) → (r : Bool) × (questions_match a b ≡ ok r)
unfolding questions_match
questions_match_total a b = elim (Bool-cases (not (length a == length b) || ltb (length a) 4)) [
  | inl s ↦ rw s (false, refl)
  | inr s ↦
      let ta = slice_lem a (length a - 4) (length a) (omega arith) (omega arith) in
      let tb = slice_lem b (length b - 4) (length b) (omega arith) (omega arith) in
      rw (s, ta, tb)
        (if_total _ (match_labels_total (suc (length a)) a b 0 (omega arith) (omega arith)))
]
  where
    if_total :
        (c : Bool) {m : Outcome Bool}
        → (r : Bool) × (m ≡ ok r)
        → (r : Bool) × ((if c then ok false else m) ≡ ok r)
    if_total true h = (false, refl)
    if_total false h = h
