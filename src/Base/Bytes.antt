-- ===== src/Base/Bytes.antt =====
-- Packets: byte slices as lists of numbers, with the slice operations of the program.
use Prim.Native.Nat.{ℕ, zero, suc, ◌+◌, ◌-◌, ◌*◌, ◌/◌, ◌%◌, ◌^◌, ◌≤◌, ◌<◌}
use mathlib.Core.Path.{◌≡◌, refl, sym, ap, ap₂, ◌∙◌}
use mathlib.Core.List.{List, [], ◌∷◌, ◌++◌}
use mathlib.Core.Bool.{◌&&◌}
use native.Mathlib.Omega.{arith}
use pathdns.Base.Tests.{ltb, leb, ◌==◌, if◌then◌else◌}
use pathdns.Base.Lists.{
  length, get_or, set, take, drop, All, length-set, get_or-set_self, get_or-set_ne,
  get_or-append_left, get_or-append_right, get_or-take, get_or-drop, length-drop,
}
use pathdns.Base.Results.{Outcome, ok, reject, panic, ◌>>=◌}

abbrev pub IsByte : ℕ → Type 0
IsByte b = b < 256

abbrev pub IsBytes : List ℕ → Type 0
IsBytes p = All IsByte p

-- The byte at `i`; 0 out of bounds, where no caller reads it.
unfoldable pub byte : List ℕ → ℕ → ℕ
byte p i = get_or p i 0

-- `p[i]`.
unfoldable pub at : List ℕ → ℕ → Outcome ℕ
at p i = if ltb i (length p) then ok (byte p i) else panic

-- `*p.get(i)?`.
unfoldable pub get : List ℕ → ℕ → Outcome ℕ
get p i = if ltb i (length p) then ok (byte p i) else reject

-- `p[i] = v`.
unfoldable pub put : List ℕ → ℕ → ℕ → Outcome (List ℕ)
put p i v = if ltb i (length p) then ok (set p i v) else panic

-- `p[a..b]`.
unfoldable pub slice : List ℕ → ℕ → ℕ → Outcome (List ℕ)
slice p a b = if leb a b && leb b (length p) then ok (take (b - a) (drop a p)) else panic

-- `u16::from_be_bytes` and `u32::from_be_bytes`, of bytes and of bytes read at an offset.
abbrev pub be16 : ℕ → ℕ → ℕ
be16 a b = a * 256 + b

abbrev pub be32 : ℕ → ℕ → ℕ → ℕ → ℕ
be32 a b c d = ((a * 256 + b) * 256 + c) * 256 + d

unfoldable pub word16 : List ℕ → ℕ → ℕ
word16 p i = be16 (byte p i) (byte p (i + 1))

unfoldable pub word32 : List ℕ → ℕ → ℕ
word32 p i = be32 (byte p i) (byte p (i + 1)) (byte p (i + 2)) (byte p (i + 3))

unfoldable pub u16_at : List ℕ → ℕ → Outcome ℕ
unfolding at word16
u16_at p i = do a ← at p i; b ← at p (i + 1); ok (be16 a b)

unfoldable pub u32_at : List ℕ → ℕ → Outcome ℕ
unfolding at word32
u32_at p i = do a ← at p i; b ← at p (i + 1); c ← at p (i + 2); d ← at p (i + 3); ok (be32 a b c d)

-- `u16::to_be_bytes` and `u32::to_be_bytes`.
abbrev pub bytes16 : ℕ → List ℕ
bytes16 v = v / 256 ∷ v % 256 ∷ []

abbrev pub bytes32 : ℕ → List ℕ
bytes32 v = v / 2 ^ 24 ∷ v / 2 ^ 16 % 256 ∷ v / 256 % 256 ∷ v % 256 ∷ []

-- The same, little-endian, of any width.
unfoldable pub le_bytes : ℕ → ℕ → List ℕ
le_bytes zero v = []
le_bytes (suc n) v = v % 256 ∷ le_bytes n (v / 256)

unfoldable pub le_number : List ℕ → ℕ
le_number [] = 0
le_number (b ∷ bs) = b + 256 * le_number bs

abbrev pub le16 : ℕ → List ℕ
le16 v = v % 256 ∷ v / 256 % 256 ∷ []

-- Big-endian bytes of any width, as `from_be_bytes` and `to_be_bytes` of the wider integers.
unfoldable pub be_number : List ℕ → ℕ
be_number [] = 0
be_number (b ∷ bs) = b * 256 ^ length bs + be_number bs

unfoldable pub be_bytes : ℕ → ℕ → List ℕ
be_bytes zero v = []
be_bytes (suc n) v = v / 256 ^ n % 256 ∷ be_bytes n v

unfoldable pub zeros : ℕ → List ℕ
zeros zero = []
zeros (suc n) = 0 ∷ zeros n

-- `p.get(a..b).unwrap_or(&[])`.
abbrev pub get_range : List ℕ → ℕ → ℕ → List ℕ
get_range p a b = if leb a b && leb b (length p) then take (b - a) (drop a p) else []

-- In bounds, a read is the byte.
pub at_lem : (p : List ℕ) (i : ℕ) → i < length p → at p i ≡ ok (byte p i)
unfolding at
at_lem p i h = ground arith

pub u16_at_lem : (p : List ℕ) (i : ℕ) → i + 2 ≤ length p → u16_at p i ≡ ok (word16 p i)
unfolding u16_at word16
u16_at_lem p i h = ground arith

pub u32_at_lem : (p : List ℕ) (i : ℕ) → i + 4 ≤ length p → u32_at p i ≡ ok (word32 p i)
unfolding u32_at word32
u32_at_lem p i h = ground arith

pub byte-lt : (p : List ℕ) (i : ℕ) → IsBytes p → byte p i < 256
unfolding byte
byte-lt [] i h = omega arith
byte-lt (x ∷ xs) zero h = h.0
byte-lt (x ∷ xs) (suc i) h = byte-lt xs i h.1

pub word16-lt : (p : List ℕ) (i : ℕ) → IsBytes p → word16 p i < 2 ^ 16
unfolding word16
word16-lt p i h = omega (arith, byte-lt p i h, byte-lt p (i + 1) h)

pub word32-lt : (p : List ℕ) (i : ℕ) → IsBytes p → word32 p i < 2 ^ 32
unfolding word32
word32-lt p i h =
    omega (arith, byte-lt p i h, byte-lt p (i + 1) h, byte-lt p (i + 2) h, byte-lt p (i + 3) h)

pub slice_lem :
    (p : List ℕ) (a b : ℕ) → a ≤ b → b ≤ length p → slice p a b ≡ ok (take (b - a) (drop a p))
unfolding slice
slice_lem p a b h k = ground arith

pub put_lem : (p : List ℕ) (i v : ℕ) → i < length p → put p i v ≡ ok (set p i v)
unfolding put
put_lem p i v h = ground arith

-- A write in a buffer of known length; for chains of writes.
pub put-set :
    (n : ℕ) (p : List ℕ) (i v : ℕ)
    → length p ≡ n
    → i < n
    → (put p i v ≡ ok (set p i v)) × (length (set p i v) ≡ n)
put-set n p i v e h = (put_lem p i v (omega arith), omega (arith, length-set p i v))

-- A byte after a write, whichever it is.
pub byte-set :
    (p : List ℕ) (i j v : ℕ) → i < length p → byte (set p i v) j ≡ (if i == j then v else byte p j)
unfolding byte
byte-set p i j v h = ground (arith, get_or-set_self p i v 0 h, get_or-set_ne p i j v 0)

pub byte-append_left : (p q : List ℕ) (i : ℕ) → i < length p → byte (p ++ q) i ≡ byte p i
unfolding byte
byte-append_left p q i h = get_or-append_left p q i 0 h

pub byte-append_right : (p q : List ℕ) (i j : ℕ) → length p + i ≡ j → byte (p ++ q) j ≡ byte q i
unfolding byte
byte-append_right p q i j h = get_or-append_right p q i j 0 h

pub byte-take : (n : ℕ) (p : List ℕ) (i : ℕ) → i < n → byte (take n p) i ≡ byte p i
unfolding byte
byte-take n p i h = get_or-take n p i 0 h

-- Slices of two packets that have the same bytes.
take_ext :
    (n : ℕ) (p q : List ℕ)
    → n ≤ length p
    → n ≤ length q
    → ((j : ℕ) → j < n → get_or p j 0 ≡ get_or q j 0)
    → take n p ≡ take n q
take_ext zero p q h k e = refl
take_ext (suc n) [] q h k e = absurd (omega arith)
take_ext (suc n) (x ∷ p) [] h k e = absurd (omega arith)
take_ext (suc n) (x ∷ p) (y ∷ q) h k e =
    ap₂ ◌∷◌ (e 0 (omega arith))
      (take_ext n p q (omega arith) (omega arith) (λ j l. e (suc j) (omega arith)))

pub slice_ext :
    (p q : List ℕ) (a b : ℕ)
    → a ≤ b
    → b ≤ length p
    → b ≤ length q
    → ((j : ℕ) → a ≤ j → j < b → byte p j ≡ byte q j)
    → slice p a b ≡ slice q a b
unfolding slice byte
slice_ext p q a b h k l e =
    slice_lem p a b h k
    ∙ ap ok (
        take_ext (b - a) (drop a p) (drop a q) (omega (arith, length-drop a p))
          (omega (arith, length-drop a q))
          (λ j m.
            get_or-drop a p j (a + j) 0 refl
            ∙ e (a + j) (omega arith) (omega arith)
            ∙ sym (get_or-drop a q j (a + j) 0 refl)))
    ∙ sym (slice_lem q a b h l)
