-- ===== src/Dns/Query/Labels.antt =====
-- An uncompressed domain name as a list of labels, and its hash.
use pathdns.Base.{ℕ, ◌+◌, ◌≤◌, ◌<◌, ◌≡◌, List, [], ◌∷◌, length, take, drop, arith}
use pathdns.Base.Bytes.{byte}
use pathdns.Hasher.{write_byte, write_lowered}

-- The name at `i`, of labels of 1 to 63 bytes, ends before `e`.
pub data LabelsAt (p : List ℕ) : ℕ → List (List ℕ) → ℕ → Type 0 where
  root : {i e : ℕ} → i < length p → byte p i ≡ 0 → i + 1 ≡ e → LabelsAt p i [] e
  label :
      {i e : ℕ} {l : List ℕ} {ls : List (List ℕ)}
      → i < length p
      → 0 < byte p i
      → byte p i < 64
      → i + 1 + byte p i ≤ length p
      → take (byte p i) (drop (i + 1) p) ≡ l
      → LabelsAt p (i + 1 + byte p i) ls e
      → LabelsAt p i (l ∷ ls) e

-- The hash of the wire form, with the labels in lower case.
unfoldable pub hash_labels : ℕ → List (List ℕ) → ℕ
hash_labels h [] = write_byte h 0
hash_labels h (l ∷ ls) = hash_labels (write_lowered (write_byte h (length l)) l) ls

pub LabelsAt-bounds :
    {p : List ℕ} {i e : ℕ} {ls : List (List ℕ)} → LabelsAt p i ls e → (i < e) × (e ≤ length p)
LabelsAt-bounds (root h z q) = omega arith
LabelsAt-bounds (label a b c d q r) = omega (arith, LabelsAt-bounds r)
