-- ===== src/QpsRing/Window.antt =====
-- The counts that a snapshot shows (src/querylog/ring.rs).
use mathlib.Core.List.{append_assoc, append-nil}
use pathdns.Base.{
  ℕ, ◌+◌, ◌-◌, ◌≤◌, ◌<◌, ◌≡◌, ◌∙◌, min, sym, ap, List, [], ◌∷◌, ◌++◌, ◌==◌, length, length-append,
  length-drop, drop, drop-append, drop-drop, Bool-cases, inl, inr, refl, arith,
}
use pathdns.QpsRing.{QpsRing, empty_ring, push_count, snapshot}

abbrev pub last_counts : ℕ → List ℕ → List ℕ
last_counts n counts = drop (length counts - n) counts

-- One push after the other.
abbrev pub push_all : QpsRing → List ℕ → QpsRing
push_all ring [] = ring
push_all ring (count ∷ counts) = push_all (push_count ring count) counts

push_count-last_counts :
    (all : List ℕ) (count : ℕ)
    → push_count (last_counts 3600 all) count ≡ last_counts 3600 (all ++ (count ∷ []))
unfolding push_count
push_count-last_counts all count =
    let n : ℕ = length all in
    let held : length (last_counts 3600 all) ≡ n - (n - 3600) = length-drop (n - 3600) all in
    let now : length (all ++ (count ∷ [])) ≡ n + 1 = length-append all (count ∷ []) in
    elim (Bool-cases (length (last_counts 3600 all) == 3600)) [
      | inl full ↦
          let enough : 3600 ≤ n = ground arith in
          rw (full, now, drop-drop (n - 3600) 1 (n + 1 - 3600) all (omega arith))
            (sym (drop-append (n + 1 - 3600) all (count ∷ []) (omega arith)))
      | inr room ↦
          let few : n < 3600 = ground arith in
          let z : n - 3600 ≡ 0 = omega arith in
          let m : n + 1 - 3600 ≡ 0 = omega arith in rw (room, now, m, z) refl
    ]

push_all-last_counts :
    (all counts : List ℕ)
    → push_all (last_counts 3600 all) counts ≡ last_counts 3600 (all ++ counts)
push_all-last_counts all [] = rw append-nil refl
push_all-last_counts all (count ∷ counts) =
    ap (λ ring. push_all ring counts) (push_count-last_counts all count)
    ∙ push_all-last_counts (all ++ (count ∷ [])) counts
    ∙ ap (last_counts 3600) (append_assoc all (count ∷ []) counts)

-- When any counts have been pushed into a new `QpsRing`, `snapshot` of `n` returns the last `n`
-- of them, at most 3600, in order, and all where there are fewer.
pub snapshot-push_all :
    (counts : List ℕ) (n : ℕ)
    → snapshot (push_all empty_ring counts) n ≡ last_counts (min n 3600) counts
unfolding snapshot
snapshot-push_all counts n =
    let held : length (last_counts 3600 counts) ≡ length counts - (length counts - 3600) =
      length-drop (length counts - 3600) counts in
    rw (push_all-last_counts [] counts) (
      drop-drop (length counts - 3600)
        (length (last_counts 3600 counts) - min (min n 3600) (length (last_counts 3600 counts)))
        (length counts - min n 3600) counts (omega arith))
