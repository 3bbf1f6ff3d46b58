-- ===== src/Dns/Ttl/Effective.antt =====
-- What `effective_ttl_and_offsets` of src/dns/ttl.rs returns, and what a client is then served.
use pathdns.Base.{
  ℕ, ◌+◌, ◌-◌, ◌≤◌, ◌<◌, ◌≡◌, ◌≢◌, ap, ◌^◌, ◌⊎◌, List, [], ◌∷◌, map, min, max, true, Outcome, ok,
  Returns, Returns-ok, Returns-bind, ◌>>=◌, length, length-map, take, arith, refl, inl, inr, All,
  if◌then◌else◌, ◌==◌, Bool-cases,
}
use pathdns.Base.Bytes.{IsBytes, word16, word32, word32-lt, u16_at_lem}
use pathdns.Dns.Header.{is_good_reply}
use pathdns.Dns.Ttl.{
  TtlOffsets, Scan, ttl_offsets_and_soa, clamp, unwrap_or, least_ttl, negative_ttl, positive_ttl,
  effective_ttl_and_offsets, patch_ttls_at,
}
use pathdns.Dns.Ttl.Sections.{Spaced, Noted, ttl_offsets_and_soa-Noted}
use pathdns.Dns.Ttl.Patch.{Fits, word32-patch_ttls_at}

-- A TTL within the configured bounds, where 0 stands for no upper bound. The upper bound wins over
-- a lower bound that exceeds it.
abbrev pub IsClamped : ℕ → ℕ → ℕ → Type 0
IsClamped min_ttl max_ttl t =
    ((max_ttl ≡ 0) × (min_ttl ≤ t)) ⊎ ((t ≤ max_ttl) × ((min_ttl ≤ t) ⊎ (t ≡ max_ttl)))

clamp-IsClamped : (mn mx raw : ℕ) → IsClamped mn mx (clamp mn mx raw)
unfolding clamp
clamp-IsClamped mn mx raw = grind arith

pub clamp-lt : (mn mx raw k : ℕ) → mn < k → raw < k → clamp mn mx raw < k
unfolding clamp
clamp-lt mn mx raw k h l = ground arith

-- What both branches make of the noted fields: the same places, other TTLs.
retime : (ℕ → ℕ) → TtlOffsets → TtlOffsets
retime f = map (λ o. (o.0, f o.1))

All-retime :
    (f : ℕ → ℕ) (P Q : ℕ × ℕ → Type 0) (os : TtlOffsets)
    → ((o : ℕ × ℕ) → P o → Q (o.0, f o.1))
    → All P os
    → All Q (retime f os)
unfolding retime
All-retime f P Q [] k h = tt
All-retime f P Q (o ∷ os) k h = (k o h.0, All-retime f P Q os k h.1)

Spaced-retime : (f : ℕ → ℕ) (os : TtlOffsets) → Spaced os → Spaced (retime f os)
unfolding retime
Spaced-retime f [] h = tt
Spaced-retime f (o ∷ os) h = (
  All-retime f (λ q. o.0 + 4 ≤ q.0) (λ q. o.0 + 4 ≤ q.0) os (λ q k. k) h.0,
  Spaced-retime f os h.1,
)

-- The list of fields that a response is cached with: inside the packet, apart from one another, and
-- with clamped TTLs, which `f` makes of the numbers in the packet.
pub record Cached (start : ℕ) (p : List ℕ) (mn mx : ℕ) (f : ℕ → ℕ) (os : TtlOffsets) : Type 0 where
  pub passed : start ≤ length p
  pub behind : All (λ o. start + 5 ≤ o.0) os
  pub fits : Fits p os
  pub spaced : Spaced os
  pub clamped : All (λ o. IsClamped mn mx o.1) os
  pub times : All (λ o. o.1 ≡ f (word32 p o.0)) os

Cached-retime :
    (start : ℕ) (p : List ℕ) (mn mx : ℕ) (g : ℕ → ℕ) (s : Scan)
    → Noted start p (length p) s
    → Cached start p mn mx (λ w. clamp mn mx (g w)) (retime (λ w. clamp mn mx (g w)) s.offsets)
Cached-retime start p mn mx g s n = record {
  passed = n.passed;
  behind = All-retime _ (λ o. start + 5 ≤ o.0) _ s.offsets (λ o h. h) n.behind;
  fits = All-retime _ (λ o. o.0 + 4 ≤ length p) _ s.offsets (λ o h. h) n.placed;
  spaced = Spaced-retime _ s.offsets n.spaced;
  clamped =
      All-retime _ (λ o. o.0 + 4 ≤ length p) _ s.offsets (λ o h. clamp-IsClamped mn mx (g o.1))
        n.placed;
  times =
      All-retime _ (λ o. o.1 ≡ word32 p o.0) _ s.offsets (λ o h. ap (λ w. clamp mn mx (g w)) h)
        n.read;
}

clamp-le : (mn mx raw : ℕ) → clamp mn mx (min raw 10800) ≤ max 10800 mn
unfolding clamp
clamp-le mn mx raw = ground arith

abbrev negative : ℕ → Scan → ℕ
negative nd s = unwrap_or s.soa_ttl nd

Cached-negative :
    (start : ℕ) (p : List ℕ) (nd mn mx : ℕ) (s : Scan)
    → Noted start p (length p) s
    → Cached start p mn mx (λ w. (negative_ttl nd mn mx s).0) (negative_ttl nd mn mx s).1
unfolding negative_ttl retime
Cached-negative start p nd mn mx s n =
    Cached-retime start p mn mx (λ w. min (negative nd s) 10800) s n

-- The pass that a result comes from.
abbrev scan_of : List ℕ → ℕ → Outcome Scan
scan_of p q = ttl_offsets_and_soa p q (word16 p 6) (word16 p 8) (word16 p 10)

good_reply_length : (p : List ℕ) → is_good_reply p ≡ true → 12 ≤ length p
unfolding is_good_reply
good_reply_length p h = ground arith

effective-scan_of :
    (p : List ℕ) (q nd mn mx : ℕ)
    → is_good_reply p ≡ true
    → effective_ttl_and_offsets p q nd mn mx ≡ (
        scan_of p q >>= λ s.
        if word16 p 6 == 0 then ok (negative_ttl nd mn mx s) else positive_ttl nd mn mx s)
unfolding effective_ttl_and_offsets
effective-scan_of p q nd mn mx h =
    let l : 12 ≤ length p = good_reply_length p h in
    rw
      (h, u16_at_lem p 6 (omega arith), u16_at_lem p 8 (omega arith), u16_at_lem p 10 (omega arith))
      refl

positive_ttl-retime :
    (start : ℕ) (p : List ℕ) (nd mn mx : ℕ) (s : Scan)
    → Noted start p (length p) s
    → positive_ttl nd mn mx s
      ≡ ok (
        unwrap_or (least_ttl (take s.an_offsets (retime (clamp mn mx) s.offsets))) nd,
        retime (clamp mn mx) s.offsets,
      )
unfolding positive_ttl retime
positive_ttl-retime start p nd mn mx s n =
    ground (arith, n.counted, length-map {B = ℕ × ℕ} s.offsets (λ o. (o.0, clamp mn mx o.1)))

-- What the result is, for an answer and for a negative response (ANCOUNT 0).
abbrev pub IsResult : ℕ → List ℕ → ℕ → ℕ → ℕ × TtlOffsets → Type 0
IsResult q p mn mx r =
    ((word16 p 6 ≢ 0) × Cached q p mn mx (clamp mn mx) r.1)
    ⊎ ((word16 p 6 ≡ 0)
        × (r.0 ≤ max 10800 mn)
        × IsClamped mn mx r.0
        × Cached q p mn mx (λ w. r.0) r.1)

module _ (p : List ℕ) (q nd mn mx : ℕ) (bytes : IsBytes p) (small : length p < 2 ^ 32) where
  scan-IsResult :
      (s : Scan)
      → Noted q p (length p) s
      → Returns
          (IsResult q p mn mx)
          (if word16 p 6 == 0 then ok (negative_ttl nd mn mx s) else positive_ttl nd mn mx s)
  unfolding negative_ttl
  scan-IsResult s n = elim (Bool-cases (word16 p 6 == 0)) [
    | inl e ↦ rw e (
        inr (
          ground arith,
          clamp-le mn mx (negative nd s),
          clamp-IsClamped mn mx (min (negative nd s) 10800),
          Cached-negative q p nd mn mx s n,
        ))
    | inr e ↦
        rw (e, positive_ttl-retime q p nd mn mx s n)
          (inl (ground arith, Cached-retime q p mn mx (λ w. w) s n))
  ]

  -- On any packet of bytes shorter than 2^32 `effective_ttl_and_offsets` ends without a panic.
  -- When it returns for a nonzero answer count, every listed field lies inside the packet and
  -- apart from the others, with the clamped TTL that stands there; for an answer count of 0 every
  -- listed field has the entry's TTL, which is within the bounds and at most the larger of three
  -- hours and the lower bound.
  pub effective-IsResult : Returns (IsResult q p mn mx) (effective_ttl_and_offsets p q nd mn mx)
  effective-IsResult = elim (Bool-cases (is_good_reply p)) [
    | inl good ↦ rw (effective-scan_of p q nd mn mx good) (
        Returns-bind (λ s. Noted q p (length p) s) (IsResult q p mn mx) (scan_of p q) _
          (ttl_offsets_and_soa-Noted p q (word16 p 6) (word16 p 8) (word16 p 10) bytes small)
          (λ s e n. scan-IsResult s n))
    | inr bad ↦ unfold effective_ttl_and_offsets in rw (bad) tt
  ]

-- When `effective_ttl_and_offsets` returns for a packet of bytes shorter than 2^32 with a nonzero
-- answer count, and the lower TTL bound is below 2^32, patching the packet by `patch_ttls_at`
-- leaves at every listed offset the original TTL clamped to the bounds less the elapsed seconds,
-- and 0 once these have passed.
pub served_ttl :
    (p : List ℕ) (q nd mn mx elapsed : ℕ) (r : ℕ × TtlOffsets)
    → IsBytes p
    → length p < 2 ^ 32
    → mn < 2 ^ 32
    → effective_ttl_and_offsets p q nd mn mx ≡ ok r
    → word16 p 6 ≢ 0
    → All (λ o. word32 (patch_ttls_at p r.1 elapsed) o.0 ≡ clamp mn mx (word32 p o.0) - elapsed) r.1
served_ttl p q nd mn mx elapsed r b small hmn e answer =
    go (Returns-ok (IsResult q p mn mx) _ r (effective-IsResult p q nd mn mx b small) e)
  where
    from_times :
        (os : TtlOffsets)
        → All (λ o. o.1 ≡ clamp mn mx (word32 p o.0)) os
        → All (λ o. o.1 < 2 ^ 32) os
    from_times [] h = tt
    from_times (o ∷ os) h = (
      omega (arith, h.0, clamp-lt mn mx (word32 p o.0) (2 ^ 32) hmn (word32-lt p o.0 b)),
      from_times os h.1,
    )

    join :
        (p' : List ℕ) (os : TtlOffsets)
        → All (λ o. word32 p' o.0 ≡ o.1 - elapsed) os
        → All (λ o. o.1 ≡ clamp mn mx (word32 p o.0)) os
        → All (λ o. word32 p' o.0 ≡ clamp mn mx (word32 p o.0) - elapsed) os
    join p' [] h k = tt
    join p' (o ∷ os) h k = (omega (arith, h.0, k.0), join p' os h.1 k.1)

    go :
        IsResult q p mn mx r
        → All
            (λ o. word32 (patch_ttls_at p r.1 elapsed) o.0 ≡ clamp mn mx (word32 p o.0) - elapsed)
            r.1
    go (inl (_, c)) =
        join (patch_ttls_at p r.1 elapsed) r.1
          (word32-patch_ttls_at p r.1 elapsed c.spaced c.fits (from_times r.1 c.times)) c.times
    go (inr (z, _, _, _)) = absurd (answer z)
