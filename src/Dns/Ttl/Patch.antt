-- ===== src/Dns/Ttl/Patch.antt =====
-- What `patch_ttls_at` of src/dns/ttl.rs writes.
use pathdns.Base.{
  ℕ, ◌+◌, ◌-◌, ◌≤◌, ◌<◌, ◌≡◌, ◌∙◌, ◌^◌, ◌⊎◌, List, [], ◌∷◌, length, arith, refl, inl, All, leb,
  if◌then◌else◌,
}
use pathdns.Base.Bytes.{byte, word32, bytes32}
use pathdns.Base.Splice.{splice, length-splice, word32-splice, byte-splice_apart}
use pathdns.Dns.Ttl.{TtlOffsets, patch_ttls_at}
use pathdns.Dns.Ttl.Sections.{Spaced}

abbrev pub Fits : List ℕ → TtlOffsets → Type 0
Fits p os = All (λ o. o.0 + 4 ≤ length p) os

-- The byte at `j` lies in none of the fields.
abbrev pub Apart : ℕ → TtlOffsets → Type 0
Apart j os = All (λ o. (j < o.0) ⊎ (o.0 + 4 ≤ j)) os

-- One round.
abbrev patch_one : List ℕ → ℕ → ℕ → List ℕ
patch_one p x v = if leb (x + 4) (length p) then splice p x (bytes32 v) else p

length-patch_one : (p : List ℕ) (x v : ℕ) → length (patch_one p x v) ≡ length p
length-patch_one p x v = ground (arith, length-splice p x (bytes32 v))

byte-patch_one :
    (p : List ℕ) (x v j : ℕ) → ((j < x) ⊎ (x + 4 ≤ j)) → byte (patch_one p x v) j ≡ byte p j
byte-patch_one p x v j h = ground (arith, byte-splice_apart p x j (bytes32 v))

-- The packet keeps its length.
pub length-patch_ttls_at :
    (p : List ℕ) (os : TtlOffsets) (elapsed : ℕ) → length (patch_ttls_at p os elapsed) ≡ length p
unfolding patch_ttls_at
length-patch_ttls_at p [] elapsed = refl
length-patch_ttls_at p ((x, t) ∷ os) elapsed =
    length-patch_ttls_at (patch_one p x (t - elapsed)) os elapsed
    ∙ length-patch_one p x (t - elapsed)

-- A byte outside all the listed fields is the same after `patch_ttls_at` as before.
pub byte-patch_ttls_at :
    (p : List ℕ) (os : TtlOffsets) (elapsed j : ℕ)
    → Apart j os
    → byte (patch_ttls_at p os elapsed) j ≡ byte p j
unfolding patch_ttls_at
byte-patch_ttls_at p [] elapsed j h = refl
byte-patch_ttls_at p ((x, t) ∷ os) elapsed j h =
    byte-patch_ttls_at (patch_one p x (t - elapsed)) os elapsed j h.1
    ∙ byte-patch_one p x (t - elapsed) j h.0

Apart-of_later : (x k : ℕ) (os : TtlOffsets) → All (λ q. x + 4 ≤ q.0) os → k < 4 → Apart (x + k) os
Apart-of_later x k [] h l = tt
Apart-of_later x k (o ∷ os) h l = (inl (omega arith), Apart-of_later x k os h.1 l)

word32-patch_later :
    (p : List ℕ) (os : TtlOffsets) (elapsed x : ℕ)
    → All (λ q. x + 4 ≤ q.0) os
    → word32 (patch_ttls_at p os elapsed) x ≡ word32 p x
unfolding word32
word32-patch_later p os elapsed x h = omega (
  arith,
  byte-patch_ttls_at p os elapsed x (Apart_here os h),
  byte-patch_ttls_at p os elapsed (x + 1) (Apart-of_later x 1 os h (omega arith)),
  byte-patch_ttls_at p os elapsed (x + 2) (Apart-of_later x 2 os h (omega arith)),
  byte-patch_ttls_at p os elapsed (x + 3) (Apart-of_later x 3 os h (omega arith)),
)
  where
    Apart_here : (os : TtlOffsets) → All (λ q. x + 4 ≤ q.0) os → Apart x os
    Apart_here [] h = tt
    Apart_here (o ∷ os) h = (inl (omega arith), Apart_here os h.1)

word32-patch_one :
    (p : List ℕ) (x v : ℕ) → x + 4 ≤ length p → v < 2 ^ 32 → word32 (patch_one p x v) x ≡ v
word32-patch_one p x v h k = ground (arith, word32-splice p x v)

Fits-patch_one : (p : List ℕ) (x v : ℕ) (os : TtlOffsets) → Fits p os → Fits (patch_one p x v) os
Fits-patch_one p x v [] h = tt
Fits-patch_one p x v (o ∷ os) h =
    (omega (arith, length-patch_one p x v), Fits-patch_one p x v os h.1)

-- When the listed fields do not overlap, fit the packet and have TTLs of 32 bits, each holds
-- after `patch_ttls_at` its TTL less the elapsed seconds, and 0 once these have passed.
pub word32-patch_ttls_at :
    (p : List ℕ) (os : TtlOffsets) (elapsed : ℕ)
    → Spaced os
    → Fits p os
    → All (λ o. o.1 < 2 ^ 32) os
    → All (λ o. word32 (patch_ttls_at p os elapsed) o.0 ≡ o.1 - elapsed) os
unfolding patch_ttls_at
word32-patch_ttls_at p [] elapsed s f w = tt
word32-patch_ttls_at p ((x, t) ∷ os) elapsed s f w = (
  word32-patch_later (patch_one p x (t - elapsed)) os elapsed x s.0
      ∙ word32-patch_one p x (t - elapsed) f.0 (omega arith),
  word32-patch_ttls_at (patch_one p x (t - elapsed)) os elapsed s.1
      (Fits-patch_one p x (t - elapsed) os f.1) w.1,
)
