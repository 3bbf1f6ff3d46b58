-- ===== src/Dns/Name/Walk.antt =====
-- What `skip_name` accepts, as a relation on packets, and that the walk ends.
use pathdns.Base.{
  ℕ, zero, suc, ◌+◌, ◌≤◌, ◌<◌, ◌≡◌, ◌↔◌, List, Outcome, ok, Returns, Returns-mono, Returns-ok,
  length, arith, refl,
}
use pathdns.Base.Bytes.{IsBytes, byte, byte-lt}
use pathdns.Base.Bits.{label_kind}
use pathdns.Dns.Name.{skip_name_loop, skip_name}

-- RFC 1035: labels of at most 63 bytes, then the root label or a pointer. `NameAt p i e` says that
-- the name at `i` ends before `e`, all of it inside the packet.
pub data NameAt (p : List ℕ) : ℕ → ℕ → Type 0 where
  root : {i e : ℕ} → i < length p → byte p i ≡ 0 → i + 1 ≡ e → NameAt p i e
  pointer : {i e : ℕ} → i + 1 < length p → 192 ≤ byte p i → i + 2 ≡ e → NameAt p i e
  label :
      {i e : ℕ}
      → i < length p
      → 0 < byte p i
      → byte p i < 64
      → i + 1 + byte p i ≤ length p
      → NameAt p (i + 1 + byte p i) e
      → NameAt p i e

pub NameAt-bounds : {p : List ℕ} {i e : ℕ} → NameAt p i e → (i < e) × (e ≤ length p)
NameAt-bounds (root h z q) = omega arith
NameAt-bounds (pointer h z q) = omega arith
NameAt-bounds (label a b c d r) = omega (arith, NameAt-bounds r)

root_at : (p : List ℕ) (i : ℕ) → i < length p → byte p i ≡ 0 → NameAt p i (i + 1)
root_at p i h z = root h z refl

pointer_at : (p : List ℕ) (i : ℕ) → i + 1 < length p → 192 ≤ byte p i → NameAt p i (i + 2)
pointer_at p i h z = pointer h z refl

-- A label goes in front of what the rest of the walk found.
label_Returns :
    (p : List ℕ) (i : ℕ) (m : Outcome ℕ)
    → i < length p
    → 0 < byte p i
    → byte p i < 64
    → i + 1 + byte p i ≤ length p
    → Returns (λ e. NameAt p (i + 1 + byte p i) e) m
    → Returns (λ e. NameAt p i e) m
label_Returns p i m a b c d = Returns-mono _ _ m (λ e r. label a b c d r)

skip_name_loop-NameAt :
    (fuel : ℕ) (p : List ℕ) (i : ℕ)
    → IsBytes p
    → length p < fuel + i
    → 0 < fuel
    → Returns (λ e. NameAt p i e) (skip_name_loop fuel p i)
unfolding skip_name_loop
skip_name_loop-NameAt zero p i b h z = absurd (omega arith)
skip_name_loop-NameAt (suc f) p i b h z = ground (
  arith,
  byte-lt p i b,
  label_kind (byte p i) (byte-lt p i b),
  root_at p i,
  pointer_at p i,
  label_Returns p i (skip_name_loop f p (i + 1 + byte p i)),
  skip_name_loop-NameAt f p (i + 1 + byte p i) b,
)

-- On any packet the walk ends without a panic, and only at the end of a name.
pub skip_name-NameAt :
    (p : List ℕ) (i : ℕ) → IsBytes p → Returns (λ e. NameAt p i e) (skip_name p i)
unfolding skip_name
skip_name-NameAt p i b = skip_name_loop-NameAt (suc (length p)) p i b (omega arith) (omega arith)

skip_name_loop_of_NameAt :
    (fuel : ℕ) (p : List ℕ) {i e : ℕ}
    → IsBytes p
    → NameAt p i e
    → length p < fuel + i
    → 0 < fuel
    → skip_name_loop fuel p i ≡ ok e
unfolding skip_name_loop
skip_name_loop_of_NameAt zero p b r h z = absurd (omega arith)
skip_name_loop_of_NameAt (suc f) p {i} b (root q z e) h y = ground arith
skip_name_loop_of_NameAt (suc f) p {i} b (pointer q z e) h y =
    ground (arith, byte-lt p i b, label_kind (byte p i) (byte-lt p i b))
skip_name_loop_of_NameAt (suc f) p {i} b (label a c d k r) h y = ground (
  arith,
  byte-lt p i b,
  label_kind (byte p i) (byte-lt p i b),
  skip_name_loop_of_NameAt f p b r (omega arith) (omega (arith, NameAt-bounds r)),
)

-- On a packet of bytes, `skip_name` returns an end for a start exactly when a domain name, that
-- ends there, stands at the start.
pub skip_name_iff : (p : List ℕ) (i e : ℕ) → IsBytes p → (skip_name p i ≡ ok e) ↔ NameAt p i e
unfolding skip_name
skip_name_iff p i e b = (
  λ h. Returns-ok (λ e. NameAt p i e) _ e (skip_name-NameAt p i b) h,
  λ r. skip_name_loop_of_NameAt (suc (length p)) p b r (omega arith) (omega arith),
)
