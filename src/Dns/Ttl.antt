-- ===== src/Dns/Ttl.antt =====
-- The TTLs of a response, src/dns/ttl.rs: `ttl_offsets_and_soa`, `extract_soa_minimum`,
-- `effective_ttl_and_offsets` and `patch_ttls_at`.
pub mod Sections
pub mod Patch
pub mod Effective
use pathdns.Base.{
  ℕ, zero, suc, ◌+◌, ◌-◌, ◌%◌, ◌^◌, min, max, List, [], ◌∷◌, ◌++◌, map, Bool, true, false, not,
  ◌&&◌, ◌||◌, Option, none, some, Outcome, ok, reject, panic, guard, ◌>>=◌, ◌>>◌, let_else, leb,
  ltb, ◌==◌, if◌then◌else◌, length, take, drop,
}
use pathdns.Base.Bytes.{u16_at, u32_at, bytes32}
use pathdns.Base.Splice.{splice}
use pathdns.Dns.Name.{skip_name}
use pathdns.Dns.Header.{is_good_reply}

-- Pairs of an offset and a TTL.
abbrev pub TtlOffsets : Type 0
TtlOffsets = List (ℕ × ℕ)

unfoldable pub extract_soa_minimum : List ℕ → ℕ → ℕ → Outcome ℕ
extract_soa_minimum packet rdata rdata_end = do
  p ← skip_name packet rdata
  p ← skip_name packet p
  guard (not (ltb rdata_end (p + 20)))
  u32_at packet (p + 16)

-- The variables of the loop of `ttl_offsets_and_soa`.
pub record Scan : Type 0 where
  pub offsets : TtlOffsets
  pub an_offsets : ℕ
  pub soa_ttl : Option ℕ

-- One record's header, as the loop reads it: where its fixed part starts, type, TTL, data.
pub record Fixed : Type 0 where
  pub fixed : ℕ
  pub rr_type : ℕ
  pub rr_ttl : ℕ
  pub rdata : ℕ
  pub rdata_end : ℕ

unfoldable pub read_fixed : List ℕ → ℕ → Outcome Fixed
read_fixed packet pos = do
  fixed ← skip_name packet pos
  guard (not (ltb (length packet) (fixed + 10)))
  rr_type ← u16_at packet fixed
  rr_ttl ← u32_at packet (fixed + 4)
  rdlen ← u16_at packet (fixed + 8)
  let rdata = fixed + 10
  let rdata_end = rdata + rdlen
  guard (not (ltb (length packet) rdata_end))
  ok (record {
    fixed = fixed;
    rr_type = rr_type;
    rr_ttl = rr_ttl;
    rdata = rdata;
    rdata_end = rdata_end;
  })

-- `if rr_type != 41 { … }`: an OPT record has no TTL. The offset is cast to a u32.
unfoldable pub note_offset : ℕ → ℕ → Fixed → Scan → Scan
note_offset i an rr s = if rr.rr_type == 41 then s else record s {
  offsets = s.offsets ++ (((rr.fixed + 4) % 2 ^ 32, rr.rr_ttl) ∷ []);
  an_offsets = if ltb i an then s.an_offsets + 1 else s.an_offsets;
}

abbrev is_none {ℓ} : {A : Type ℓ} → Option A → Bool
is_none none = true
is_none (some a) = false

-- The first SOA of the authority section gives the negative TTL.
unfoldable pub note_soa : List ℕ → ℕ → ℕ → ℕ → Fixed → Scan → Outcome Scan
note_soa packet i an ns rr s =
    if rr.rr_type == 6 && is_none s.soa_ttl && leb an i && ltb i (an + ns)
    then let_else (extract_soa_minimum packet rr.rdata rr.rdata_end) (ok s)
        (λ minimum. ok (record s { soa_ttl = some (min rr.rr_ttl minimum) }))
    else ok s

-- The rounds `i` to `i + n - 1`.
unfoldable pub scan_loop : ℕ → ℕ → List ℕ → ℕ → ℕ → ℕ → Scan → Outcome Scan
scan_loop zero i packet an ns pos s = ok s
scan_loop (suc n) i packet an ns pos s = do
  rr ← read_fixed packet pos
  s ← note_soa packet i an ns rr (note_offset i an rr s)
  scan_loop n (i + 1) packet an ns rr.rdata_end s

unfoldable pub ttl_offsets_and_soa : List ℕ → ℕ → ℕ → ℕ → ℕ → Outcome Scan
ttl_offsets_and_soa packet question_end an ns ar = do
  guard (not (ltb (length packet) 12 || ltb (length packet) question_end))
  scan_loop (an + ns + ar) 0 packet an ns question_end
      (record { offsets = []; an_offsets = 0; soa_ttl = none })

-- The closure `clamp`; 0 stands for no upper bound.
unfoldable pub clamp : ℕ → ℕ → ℕ → ℕ
clamp min_ttl max_ttl raw = let v = max raw min_ttl in if ltb 0 max_ttl then min v max_ttl else v

abbrev unwrap_or {ℓ} : {A : Type ℓ} → Option A → A → A
unwrap_or none d = d
unwrap_or (some a) d = a

-- `.map(|&(_, t)| t).min()`.
unfoldable pub least_ttl : TtlOffsets → Option ℕ
least_ttl [] = none
least_ttl ((_, t) ∷ os) = some (elim (least_ttl os) [ none ↦ t | some u ↦ min t u ])

-- `offsets[..n]`.
unfoldable pub front : TtlOffsets → ℕ → Outcome TtlOffsets
front os n = if leb n (length os) then ok (take n os) else panic

-- The two branches: a negative answer gives every record the same TTL.
unfoldable pub negative_ttl : ℕ → ℕ → ℕ → Scan → ℕ × TtlOffsets
unfolding clamp
negative_ttl nodata_ttl min_ttl max_ttl s =
    let effective = clamp min_ttl max_ttl (min (unwrap_or s.soa_ttl nodata_ttl) 10800) in
    (effective, map (λ o. (o.0, effective)) s.offsets)

unfoldable pub positive_ttl : ℕ → ℕ → ℕ → Scan → Outcome (ℕ × TtlOffsets)
unfolding clamp front least_ttl
positive_ttl nodata_ttl min_ttl max_ttl s = do
  let offsets = map (λ o. (o.0, clamp min_ttl max_ttl o.1)) s.offsets
  answer ← front offsets s.an_offsets
  ok (unwrap_or (least_ttl answer) nodata_ttl, offsets)

unfoldable pub effective_ttl_and_offsets : List ℕ → ℕ → ℕ → ℕ → ℕ → Outcome (ℕ × TtlOffsets)
effective_ttl_and_offsets packet question_end nodata_ttl min_ttl max_ttl = do
  guard (is_good_reply packet)
  an ← u16_at packet 6
  ns ← u16_at packet 8
  ar ← u16_at packet 10
  s ← ttl_offsets_and_soa packet question_end an ns ar
  if an == 0
      then ok (negative_ttl nodata_ttl min_ttl max_ttl s)
      else positive_ttl nodata_ttl min_ttl max_ttl s

unfoldable pub patch_ttls_at : List ℕ → TtlOffsets → ℕ → List ℕ
unfolding splice
patch_ttls_at packet [] elapsed = packet
patch_ttls_at packet ((offset, original_ttl) ∷ offsets) elapsed =
    patch_ttls_at
      (if leb (offset + 4) (length packet)
        then splice packet offset (bytes32 (original_ttl - elapsed))
        else packet)
      offsets elapsed
