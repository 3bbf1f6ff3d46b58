-- ===== src/Base/Splice.antt =====
-- `p[i..i + n].copy_from_slice(&bytes)`: some bytes written over those at an offset.
use Prim.Native.Nat.{ℕ, ◌+◌, ◌-◌, ◌^◌, ◌≤◌, ◌<◌}
use mathlib.Core.Path.{◌≡◌, refl, ◌∙◌}
use mathlib.Core.Logic.{◌⊎◌, inl, inr}
use mathlib.Core.List.{List, ◌++◌}
use native.Mathlib.Omega.{arith}
use pathdns.Base.Lists.{
  length, take, drop, length-append, length-take, length-drop, get_or-take, get_or-drop,
  get_or-append_left, get_or-append_right,
}
use pathdns.Base.Bytes.{byte, word32, bytes32}

unfoldable pub splice : List ℕ → ℕ → List ℕ → List ℕ
splice p i bytes = take i p ++ (bytes ++ drop (i + length bytes) p)

module _ (p : List ℕ) (i : ℕ) (bytes : List ℕ) (fits : i + length bytes ≤ length p) where
  pub length-splice : length (splice p i bytes) ≡ length p
  unfolding splice
  length-splice = omega (
    arith,
    length-append (take i p) (bytes ++ drop (i + length bytes) p),
    length-append bytes (drop (i + length bytes) p),
    length-take i p,
    length-drop (i + length bytes) p,
  )

  length-front : length (take i p) ≡ i
  length-front = omega (arith, length-take i p)

  pub byte-splice_before : (j : ℕ) → j < i → byte (splice p i bytes) j ≡ byte p j
  unfolding splice byte
  byte-splice_before j h =
      get_or-append_left (take i p) (bytes ++ drop (i + length bytes) p) j 0
        (omega (arith, length-front))
      ∙ get_or-take i p j 0 h

  pub byte-splice_at :
      (j k : ℕ) → i + j ≡ k → j < length bytes → byte (splice p i bytes) k ≡ byte bytes j
  unfolding splice byte
  byte-splice_at j k e h =
      get_or-append_right (take i p) (bytes ++ drop (i + length bytes) p) j k 0
        (omega (arith, length-front))
      ∙ get_or-append_left bytes (drop (i + length bytes) p) j 0 h

  pub byte-splice_after : (j : ℕ) → i + length bytes ≤ j → byte (splice p i bytes) j ≡ byte p j
  unfolding splice byte
  byte-splice_after j h =
      get_or-append_right (take i p) (bytes ++ drop (i + length bytes) p) (j - i) j 0
        (omega (arith, length-front))
      ∙ get_or-append_right bytes (drop (i + length bytes) p) (j - i - length bytes) (j - i) 0
          (omega arith)
      ∙ get_or-drop (i + length bytes) p (j - i - length bytes) j 0 (omega arith)

-- The four bytes of a number, read back, and any other four.
pub word32-splice :
    (p : List ℕ) (i v : ℕ) → i + 4 ≤ length p → v < 2 ^ 32 → word32 (splice p i (bytes32 v)) i ≡ v
unfolding word32 byte
word32-splice p i v h small = omega (
  arith,
  byte-splice_at p i (bytes32 v) h 0 i (omega arith) (omega arith),
  byte-splice_at p i (bytes32 v) h 1 (i + 1) refl (omega arith),
  byte-splice_at p i (bytes32 v) h 2 (i + 2) refl (omega arith),
  byte-splice_at p i (bytes32 v) h 3 (i + 3) refl (omega arith),
)

-- A byte outside the field.
pub byte-splice_apart :
    (p : List ℕ) (i j : ℕ) (bytes : List ℕ)
    → i + length bytes ≤ length p
    → ((j < i) ⊎ (i + length bytes ≤ j))
    → byte (splice p i bytes) j ≡ byte p j
byte-splice_apart p i j bytes h (inl k) = byte-splice_before p i bytes h j k
byte-splice_apart p i j bytes h (inr k) = byte-splice_after p i bytes h j k
