-- ===== src/Base/BitSets.antt =====
-- A machine word as a set of bits: setting one bit with `|` and testing one with `&`, for bits at
-- any position.
use Prim.Native.Nat.{
  ℕ, zero, suc, ◌+◌, ◌*◌, ◌/◌, ◌%◌, ◌^◌, ◌-◌, ◌<◌, ◌≤◌, min, max, digits, bitwise, bit_and, bit_or,
  bit_and-bitwise, bit_or-bitwise,
}
use mathlib.Core.Path.{◌≡◌, refl, ap}
use mathlib.Core.Logic.{◌≢◌}
use native.Mathlib.Nat.{pow-suc, one-le-pow}
use native.Mathlib.Omega.{arith}

-- More fuel than the number changes nothing.
digits_enough :
    (z : ℕ → ℕ) (f : ℕ → ℕ → ℕ) (n a b : ℕ) → a ≤ n → digits z f n a b ≡ digits z f a a b
digits_enough z f n a b h = two z f n a a b h (omega arith)
  where
    two :
        (z : ℕ → ℕ) (f : ℕ → ℕ → ℕ) (n m a b : ℕ)
        → a ≤ n
        → a ≤ m
        → digits z f n a b ≡ digits z f m a b
    two z f zero zero zero b p q = refl
    two z f zero (suc m) zero b p q = refl
    two z f (suc n) zero zero b p q = refl
    two z f (suc n) (suc m) zero b p q = refl
    two z f zero m (suc a) b p q = absurd (omega arith)
    two z f (suc n) zero (suc a) b p q = absurd (omega arith)
    two z f (suc n) (suc m) (suc a) b p q =
        ap (λ (t : ℕ). t * 2 + f (suc a % 2) (b % 2))
          (two z f n m (suc a / 2) (b / 2) (omega arith) (omega arith))

bitwise_halves :
    (z : ℕ → ℕ) (f : ℕ → ℕ → ℕ) (a b : ℕ)
    → bitwise z f (suc a) b ≡ bitwise z f (suc a / 2) (b / 2) * 2 + f (suc a % 2) (b % 2)
bitwise_halves z f a b =
    ap (λ (t : ℕ). t * 2 + f (suc a % 2) (b % 2))
      (digits_enough z f a (suc a / 2) (b / 2) (omega arith))

bit_or_halves : (a b : ℕ) → bit_or a b ≡ bit_or (a / 2) (b / 2) * 2 + max (a % 2) (b % 2)
bit_or_halves zero b = omega (arith, bit_or-bitwise 0 b, bit_or-bitwise 0 (b / 2))
bit_or_halves (suc a) b = omega (
  arith,
  bit_or-bitwise (suc a) b,
  bit_or-bitwise (suc a / 2) (b / 2),
  bitwise_halves (λ y. y) max a b,
)

bit_and_halves : (a b : ℕ) → bit_and a b ≡ bit_and (a / 2) (b / 2) * 2 + min (a % 2) (b % 2)
bit_and_halves zero b = omega (arith, bit_and-bitwise 0 b, bit_and-bitwise 0 (b / 2))
bit_and_halves (suc a) b = omega (
  arith,
  bit_and-bitwise (suc a) b,
  bit_and-bitwise (suc a / 2) (b / 2),
  bitwise_halves (λ y. 0) min a b,
)

pub zero-bit_and : (b : ℕ) → bit_and 0 b ≡ 0
zero-bit_and b = bit_and-bitwise 0 b

bit_and-zero_upto : (n a : ℕ) → a ≤ n → bit_and a 0 ≡ 0
bit_and-zero_upto n zero h = refl
bit_and-zero_upto zero (suc a) h = absurd (omega arith)
bit_and-zero_upto (suc n) (suc a) h =
    omega (arith, bit_and_halves (suc a) 0, bit_and-zero_upto n (suc a / 2) (omega arith))

bit_and-zero : (a : ℕ) → bit_and a 0 ≡ 0
bit_and-zero a = bit_and-zero_upto a a (omega arith)

bit_or-zero_upto : (n a : ℕ) → a ≤ n → bit_or a 0 ≡ a
bit_or-zero_upto n zero h = refl
bit_or-zero_upto zero (suc a) h = absurd (omega arith)
bit_or-zero_upto (suc n) (suc a) h =
    omega (arith, bit_or_halves (suc a) 0, bit_or-zero_upto n (suc a / 2) (omega arith))

bit_or-zero : (a : ℕ) → bit_or a 0 ≡ a
bit_or-zero a = bit_or-zero_upto a a (omega arith)

two_pow_halves : (k : ℕ) → (2 ^ suc k / 2 ≡ 2 ^ k) × (2 ^ suc k % 2 ≡ 0)
two_pow_halves k = (omega (arith, pow-suc 2 k), omega (arith, pow-suc 2 k))

-- The word without its lowest bit, under `x | 1 << k` and `x & 1 << k`.
or_above : (x k : ℕ) → bit_or x (2 ^ suc k) ≡ bit_or (x / 2) (2 ^ k) * 2 + x % 2
or_above x k =
    let (h, r) = two_pow_halves k in
    omega (arith, bit_or_halves x (2 ^ suc k), ap (λ (t : ℕ). bit_or (x / 2) t) h)

and_above : (x k : ℕ) → bit_and x (2 ^ suc k) ≡ bit_and (x / 2) (2 ^ k) * 2
and_above x k =
    let (h, r) = two_pow_halves k in
    omega (arith, bit_and_halves x (2 ^ suc k), ap (λ (t : ℕ). bit_and (x / 2) t) h)

or_lowest : (x : ℕ) → bit_or x 1 ≡ x / 2 * 2 + 1
or_lowest x = omega (arith, bit_or_halves x 1, bit_or-zero (x / 2))

and_lowest : (x : ℕ) → bit_and x 1 ≡ x % 2
and_lowest x = omega (arith, bit_and_halves x 1, bit_and-zero (x / 2))

-- The bit that was set tests as set.
pub test_set_self : (k x : ℕ) → bit_and (bit_or x (2 ^ k)) (2 ^ k) ≢ 0
test_set_self zero x e = omega (arith, or_lowest x, and_lowest (bit_or x 1))
test_set_self (suc k) x e = test_set_self k (x / 2) (
    omega
      (arith, and_above (bit_or x (2 ^ suc k)) k, ap (λ (t : ℕ). bit_and t (2 ^ k)) (halved x k)))
  where
    halved : (x k : ℕ) → bit_or x (2 ^ suc k) / 2 ≡ bit_or (x / 2) (2 ^ k)
    halved x k = omega (arith, or_above x k)

-- Every other bit tests as before.
pub test_set_other : (k j x : ℕ) → k ≢ j → bit_and (bit_or x (2 ^ k)) (2 ^ j) ≡ bit_and x (2 ^ j)
test_set_other zero zero x d = absurd (d refl)
test_set_other zero (suc j) x d =
    omega
      (arith, and_above (bit_or x 1) j, and_above x j, ap (λ (t : ℕ). bit_and t (2 ^ j)) (halved x))
  where
    halved : (x : ℕ) → bit_or x 1 / 2 ≡ x / 2
    halved x = omega (arith, or_lowest x)
test_set_other (suc k) zero x d =
    omega (arith, and_lowest (bit_or x (2 ^ suc k)), and_lowest x, or_above x k)
test_set_other (suc k) (suc j) x d = omega (
  arith,
  and_above (bit_or x (2 ^ suc k)) j,
  and_above x j,
  ap (λ (t : ℕ). bit_and t (2 ^ j)) (halved x k),
  test_set_other k j (x / 2) (λ e. d (ap suc e)),
)
  where
    halved : (x k : ℕ) → bit_or x (2 ^ suc k) / 2 ≡ bit_or (x / 2) (2 ^ k)
    halved x k = omega (arith, or_above x k)

-- A word and the bit above it: the bit is not in the word, joins it as a sum, and comes off again.
pub below-bit_and : (k x : ℕ) → x < 2 ^ k → bit_and x (2 ^ k) ≡ 0
below-bit_and zero x h = omega (arith, and_lowest x)
below-bit_and (suc k) x h =
    omega (arith, and_above x k, below-bit_and k (x / 2) (omega (arith, pow-suc 2 k)))

pub bit_or-below : (k x : ℕ) → x < 2 ^ k → bit_or (2 ^ k) x ≡ 2 ^ k + x
bit_or-below zero x h = let same : x ≡ 0 = omega arith in rw same refl
bit_or-below (suc k) x h =
    let (half, even) = two_pow_halves k in
    omega (
      arith,
      pow-suc 2 k,
      bit_or_halves (2 ^ suc k) x,
      ap (λ (t : ℕ). bit_or t (x / 2)) half,
      bit_or-below k (x / 2) (omega (arith, pow-suc 2 k)),
    )

half_sum : (k x : ℕ) → (2 ^ suc k + x) / 2 ≡ 2 ^ k + x / 2
half_sum k x = omega (arith, pow-suc 2 k)

pub add-bit_and : (k x : ℕ) → x < 2 ^ k → bit_and (2 ^ k + x) (2 ^ k) ≡ 2 ^ k
add-bit_and zero x h = omega (arith, and_lowest (1 + x))
add-bit_and (suc k) x h = omega (
  arith,
  pow-suc 2 k,
  and_above (2 ^ suc k + x) k,
  ap (λ (t : ℕ). bit_and t (2 ^ k)) (half_sum k x),
  add-bit_and k (x / 2) (omega (arith, pow-suc 2 k)),
)

ones_halves : (k : ℕ) → ((2 ^ suc k - 1) / 2 ≡ 2 ^ k - 1) × ((2 ^ suc k - 1) % 2 ≡ 1)
ones_halves k =
    (omega (arith, pow-suc 2 k, one-le-pow k 2), omega (arith, pow-suc 2 k, one-le-pow k 2))

pub add-bit_and-ones : (k x : ℕ) → x < 2 ^ k → bit_and (2 ^ k + x) (2 ^ k - 1) ≡ x
add-bit_and-ones zero x h = omega (arith, bit_and-zero (1 + x))
add-bit_and-ones (suc k) x h =
    let (half, odd) = ones_halves k in
    omega (
      arith,
      pow-suc 2 k,
      bit_and_halves (2 ^ suc k + x) (2 ^ suc k - 1),
      ap (λ (t : ℕ). bit_and t ((2 ^ suc k - 1) / 2)) (half_sum k x),
      ap (λ (t : ℕ). bit_and (2 ^ k + x / 2) t) half,
      add-bit_and-ones k (x / 2) (omega (arith, pow-suc 2 k)),
    )
