-- ===== src/Dns/Ttl/Sections.antt =====
-- The pass over all sections of a response (`ttl_offsets_and_soa` of src/dns/ttl.rs).
use pathdns.Base.{
  ℕ, zero, suc, ◌+◌, ◌≤◌, ◌<◌, ◌≡◌, ◌%◌, ◌^◌, List, [], ◌∷◌, ◌++◌, Returns, Returns-bind, length,
  length-append, arith, Bool-cases, ◌==◌, inl, inr, All, All-mono, All-snoc, none,
}
use pathdns.Base.Bytes.{IsBytes, word32, u16_at_lem, u32_at_lem}
use pathdns.Dns.Name.{skip_name}
use pathdns.Dns.Name.Walk.{NameAt, skip_name-NameAt, NameAt-bounds}
use pathdns.Dns.Ttl.{
  TtlOffsets, Scan, Fixed, extract_soa_minimum, read_fixed, note_offset, note_soa, scan_loop,
  ttl_offsets_and_soa,
}

-- Each field of four bytes ends before the next one begins.
abbrev pub Spaced : TtlOffsets → Type 0
Spaced [] = Unit
Spaced (o ∷ os) = All (λ q. o.0 + 4 ≤ q.0) os × Spaced os

-- What has been noted when the pass from `start` stands at `pos`.
pub record Noted (start : ℕ) (p : List ℕ) (pos : ℕ) (s : Scan) : Type 0 where
  pub passed : start ≤ pos
  pub behind : All (λ o. start + 5 ≤ o.0) s.offsets
  pub counted : s.an_offsets ≤ length s.offsets
  pub placed : All (λ o. o.0 + 4 ≤ pos) s.offsets
  pub read : All (λ o. o.1 ≡ word32 p o.0) s.offsets
  pub spaced : Spaced s.offsets

Spaced-snoc :
    (os : TtlOffsets) (x t : ℕ)
    → All (λ o. o.0 + 4 ≤ x) os
    → Spaced os
    → Spaced (os ++ ((x, t) ∷ []))
Spaced-snoc [] x t h k = (tt, tt)
Spaced-snoc (o ∷ os) x t h k =
    (All-snoc (λ q. o.0 + 4 ≤ q.0) os (x, t) k.0 h.0, Spaced-snoc os x t h.1 k.1)

-- A record as the loop reads it.
pub record FixedAt (p : List ℕ) (pos : ℕ) (rr : Fixed) : Type 0 where
  pub after_name : pos + 1 ≤ rr.fixed
  pub rr_ttl_at : rr.rr_ttl ≡ word32 p (rr.fixed + 4)
  pub end_at : rr.fixed + 10 ≤ rr.rdata_end
  pub inside : rr.rdata_end ≤ length p

read_fixed-FixedAt :
    (p : List ℕ) (pos : ℕ) → IsBytes p → Returns (λ rr. FixedAt p pos rr) (read_fixed p pos)
unfolding read_fixed
read_fixed-FixedAt p pos b =
    Returns-bind (λ e. NameAt p pos e) (λ rr. FixedAt p pos rr) (skip_name p pos) _
      (skip_name-NameAt p pos b)
      λ n e r.
        ground (arith, NameAt-bounds r, u16_at_lem p n, u32_at_lem p (n + 4), u16_at_lem p (n + 8))

extract_soa_minimum-Returns :
    (p : List ℕ) (i e : ℕ)
    → IsBytes p
    → e ≤ length p
    → Returns (λ _. Unit {0}) (extract_soa_minimum p i e)
unfolding extract_soa_minimum
extract_soa_minimum-Returns p i e b h =
    Returns-bind (λ m. NameAt p i m) (λ _. Unit {0}) (skip_name p i) _ (skip_name-NameAt p i b)
      λ m e r.
        Returns-bind (λ n. NameAt p m n) (λ _. Unit {0}) (skip_name p m) _ (skip_name-NameAt p m b)
          λ n e' r'. ground (arith, u32_at_lem p (n + 16))

-- A round notes the record's TTL field behind the others.
note_offset-Noted :
    (start : ℕ) (p : List ℕ) (pos i an : ℕ) (rr : Fixed) (s : Scan)
    → length p < 2 ^ 32
    → FixedAt p pos rr
    → Noted start p pos s
    → Noted start p rr.rdata_end (note_offset i an rr s)
unfolding note_offset
note_offset-Noted start p pos i an rr s small f n =
    let x : ℕ = (rr.fixed + 4) % 2 ^ 32 in
    let e : x ≡ rr.fixed + 4 = omega arith in
    let t : rr.rr_ttl ≡ word32 p x = rw e f.rr_ttl_at in
    let passed : start ≤ rr.rdata_end = omega (arith, n.passed, f.after_name, f.end_at) in
    let later : All (λ o. o.0 + 4 ≤ rr.rdata_end) s.offsets =
      All-mono _ _ s.offsets (λ o h. omega arith) n.placed in
    let before : All (λ o. o.0 + 4 ≤ x) s.offsets =
      All-mono _ _ s.offsets (λ o h. omega arith) n.placed in
    elim (Bool-cases (rr.rr_type == 41)) [
      | inl opt ↦ rw opt (record {
        passed = passed;
        behind = n.behind;
        counted = n.counted;
        placed = later;
        read = n.read;
        spaced = n.spaced;
      })
      | inr other ↦ rw other (record {
        passed = passed;
        behind =
            All-snoc (λ o. start + 5 ≤ o.0) s.offsets (x, rr.rr_ttl) n.behind
              (omega (arith, n.passed, f.after_name));
        counted = ground (arith, n.counted, length-append s.offsets ((x, rr.rr_ttl) ∷ []));
        placed =
            All-snoc (λ o. o.0 + 4 ≤ rr.rdata_end) s.offsets (x, rr.rr_ttl) later (omega arith);
        read = All-snoc (λ o. o.1 ≡ word32 p o.0) s.offsets (x, rr.rr_ttl) n.read t;
        spaced = Spaced-snoc s.offsets x rr.rr_ttl before n.spaced;
      })
    ]

note_soa-Noted :
    (start : ℕ) (p : List ℕ) (pos i an ns : ℕ) (rr : Fixed) (s : Scan)
    → IsBytes p
    → rr.rdata_end ≤ length p
    → Noted start p pos s
    → Returns (λ s. Noted start p pos s) (note_soa p i an ns rr s)
unfolding note_soa
note_soa-Noted start p pos i an ns rr s b h n =
    ground (arith, n, extract_soa_minimum-Returns p rr.rdata rr.rdata_end b h)

scan_loop-Noted :
    (start n i : ℕ) (p : List ℕ) (an ns pos : ℕ) (s : Scan)
    → IsBytes p
    → length p < 2 ^ 32
    → Noted start p pos s
    → pos ≤ length p
    → Returns (λ s. Noted start p (length p) s) (scan_loop n i p an ns pos s)
unfolding scan_loop
scan_loop-Noted start zero i p an ns pos s b small n h = record {
  passed = omega (arith, n.passed);
  behind = n.behind;
  counted = n.counted;
  placed = All-mono _ _ s.offsets (λ o k. omega arith) n.placed;
  read = n.read;
  spaced = n.spaced;
}
scan_loop-Noted start (suc k) i p an ns pos s b small n h =
    Returns-bind (λ rr. FixedAt p pos rr) (λ s. Noted start p (length p) s) (read_fixed p pos) _
      (read_fixed-FixedAt p pos b)
      λ rr e f.
        Returns-bind (λ s. Noted start p rr.rdata_end s) (λ s. Noted start p (length p) s)
          (note_soa p i an ns rr (note_offset i an rr s)) _
          (note_soa-Noted start p rr.rdata_end i an ns rr (note_offset i an rr s) b f.inside
            (note_offset-Noted start p pos i an rr s small f n))
          λ s' e' n'. scan_loop-Noted start k (i + 1) p an ns rr.rdata_end s' b small n' f.inside

-- On any packet the pass over its sections ends without a panic, and what it notes are TTL fields
-- inside the packet and behind the question, none of which overlap, each with the number that stands there.
pub ttl_offsets_and_soa-Noted :
    (p : List ℕ) (question_end an ns ar : ℕ)
    → IsBytes p
    → length p < 2 ^ 32
    → Returns (λ s. Noted question_end p (length p) s) (ttl_offsets_and_soa p question_end an ns ar)
unfolding ttl_offsets_and_soa
ttl_offsets_and_soa-Noted p q an ns ar b small = ground (
  arith,
  scan_loop-Noted q (an + ns + ar) 0 p an ns q
      (record { offsets = []; an_offsets = 0; soa_ttl = none }) b small
      (record {
        passed = omega arith;
        behind = tt;
        counted = omega arith;
        placed = tt;
        read = tt;
        spaced = tt;
      }),
)
