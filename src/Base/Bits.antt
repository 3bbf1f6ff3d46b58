-- ===== src/Base/Bits.antt =====
-- Masks on one byte as arithmetic: each is a table over all bytes, checked by evaluation.
use Prim.Native.Nat.{ℕ, zero, suc, ◌+◌, ◌*◌, ◌/◌, ◌%◌, ◌<◌, bit_and, bit_or}
use mathlib.Core.Path.{◌≡◌, refl}
use mathlib.Core.Bool.{Bool, true, ◌&&◌}
use native.Mathlib.Omega.{arith}
use pathdns.Base.Tests.{◌==◌}

module _ (f g : ℕ → ℕ) where
  same_below : ℕ → Bool
  same_below zero = true
  same_below (suc n) = f n == g n && same_below n

  same_below→eq : (n : ℕ) → same_below n ≡ true → (i : ℕ) → i < n → f i ≡ g i
  unfolding same_below
  same_below→eq zero e i h = absurd (omega arith)
  same_below→eq (suc n) e i h = ground (arith, same_below→eq n (ground arith) i)

-- `b & 0xc0`: the two top bits, which tell labels from pointers.
pub label_kind : (b : ℕ) → b < 256 → bit_and b 0xc0 ≡ b / 64 * 64
unfolding same_below
label_kind = same_below→eq _ _ 256 refl

-- `b & 0x80`: QR in byte 2, RA in byte 3.
pub top_bit : (b : ℕ) → b < 256 → bit_and b 0x80 ≡ b / 128 * 128
unfolding same_below
top_bit = same_below→eq _ _ 256 refl

pub set_top_bit : (b : ℕ) → b < 128 → bit_or b 0x80 ≡ b + 128
unfolding same_below
set_top_bit = same_below→eq _ _ 128 refl

-- `b & 0x02` and `b | 0x02`: TC in byte 2.
pub tc_bit : (b : ℕ) → b < 256 → bit_and b 0x02 ≡ b / 2 % 2 * 2
unfolding same_below
tc_bit = same_below→eq _ _ 256 refl

pub set_tc_bit : (b : ℕ) → b < 256 → bit_or b 0x02 ≡ b / 4 * 4 + 2 + b % 2
unfolding same_below
set_tc_bit = same_below→eq _ _ 256 refl

-- `b & 0x01`: RD in byte 2.
pub low_bit : (b : ℕ) → b < 256 → bit_and b 0x01 ≡ b % 2
unfolding same_below
low_bit = same_below→eq _ _ 256 refl

pub reply_flags : (b : ℕ) → b < 256 → bit_or 0x80 (bit_and b 0x01) ≡ 128 + b % 2
unfolding same_below
reply_flags = same_below→eq _ _ 256 refl

-- `b & 0x0f` and `b & 0xf0`: the nibbles of byte 3.
pub low_nibble : (b : ℕ) → b < 256 → bit_and b 0x0f ≡ b % 16
unfolding same_below
low_nibble = same_below→eq _ _ 256 refl

pub high_nibble : (b : ℕ) → b < 256 → bit_and b 0xf0 ≡ b / 16 * 16
unfolding same_below
high_nibble = same_below→eq _ _ 256 refl

pub ra_rcode : (b : ℕ) → b < 16 → bit_or 0x80 b ≡ 128 + b
unfolding same_below
ra_rcode = same_below→eq _ _ 16 refl
