-- ===== src/Dns/Rr/Bounds.antt =====
-- Records are read inside the packet, and no reader of the answer section can panic.
use pathdns.Base.{
  ℕ, ◌+◌, ◌≤◌, ◌≡◌, List, Returns, Returns-cases, leb, ◌&&◌, if◌then◌else◌, ok, reject, inl, inr,
  ◌>>=◌, length, arith, refl,
}
use pathdns.Base.Bytes.{IsBytes, word16, word32, u16_at_lem, u32_at_lem}
use pathdns.Dns.Name.{skip_name}
use pathdns.Dns.Name.Walk.{NameAt, skip_name-NameAt, NameAt-bounds}
use pathdns.Dns.Rr.{Rr, parse_rr}

-- A record that stands at `i`: its owner name ends before `n`, ten bytes of fixed header follow, and
-- the data of the length that the header states.
pub record RrAt (p : List ℕ) (i : ℕ) (rr : Rr) : Type 0 where
  pub n : ℕ
  pub name : NameAt p i n
  pub rr_type_at : rr.rr_type ≡ word16 p n
  pub class_at : rr.class ≡ word16 p (n + 2)
  pub ttl_at : rr.ttl ≡ word32 p (n + 4)
  pub rdata_at : rr.rdata ≡ n + 10
  pub rr_end_at : rr.rr_end ≡ n + 10 + word16 p (n + 8)
  pub inside : rr.rr_end ≤ length p

-- What `parse_rr` answers when the owner name ends before `n`.
unfoldable pub header_at : List ℕ → ℕ → Rr
header_at p n = record {
  rr_type = word16 p n;
  class = word16 p (n + 2);
  ttl = word32 p (n + 4);
  rdata = n + 10;
  rr_end = n + 10 + word16 p (n + 8);
}

pub parse_rr-header_at :
    (p : List ℕ) (i n : ℕ)
    → skip_name p i ≡ ok n
    → parse_rr p i ≡ (
        if leb (n + 10) (length p) && leb (n + 10 + word16 p (n + 8)) (length p)
        then ok (header_at p n)
        else reject)
unfolding parse_rr header_at
parse_rr-header_at p i n e =
    ground (arith, u16_at_lem p n, u16_at_lem p (n + 2), u32_at_lem p (n + 4), u16_at_lem p (n + 8))

header_at-RrAt :
    (p : List ℕ) (i n : ℕ)
    → NameAt p i n
    → n + 10 + word16 p (n + 8) ≤ length p
    → RrAt p i (header_at p n)
unfolding header_at
header_at-RrAt p i n r h = record {
  n = n;
  name = r;
  rr_type_at = refl;
  class_at = refl;
  ttl_at = refl;
  rdata_at = refl;
  rr_end_at = refl;
  inside = h;
}

-- On any packet of bytes and any offset `parse_rr` ends without a panic, and returns only a
-- record that stands whole at the offset, after a domain name, with the fields that the packet
-- holds.
pub parse_rr-RrAt : (p : List ℕ) (i : ℕ) → IsBytes p → Returns (λ rr. RrAt p i rr) (parse_rr p i)
parse_rr-RrAt p i b =
    elim (Returns-cases (λ e. NameAt p i e) (skip_name p i) (skip_name-NameAt p i b)) [
      | inl (n, e, r) ↦ rw (parse_rr-header_at p i n e) (ground (arith, header_at-RrAt p i n))
      | inr e ↦ unfold parse_rr in rw (e, ◌>>=◌) tt
    ]

pub RrAt-bounds :
    {p : List ℕ} {i : ℕ} {rr : Rr}
    → RrAt p i rr
    → (i + 11 ≤ rr.rdata) × (rr.rdata ≤ rr.rr_end) × (rr.rr_end ≤ length p)
RrAt-bounds r = omega (arith, NameAt-bounds r.name)
