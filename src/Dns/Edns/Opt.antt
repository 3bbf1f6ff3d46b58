-- ===== src/Dns/Edns/Opt.antt =====
-- The OPT record that `find_opt_record` of src/dns/mod.rs finds, and the client's size limit.
use pathdns.Base.{
  ℕ, zero, suc, ◌+◌, ◌≤◌, ◌≡◌, max, List, Bool, true, false, ok, reject, Returns, Returns-cases,
  length, arith, Bool-cases, if◌then◌else◌, ltb, leb, ◌==◌, refl, inl, inr,
}
use pathdns.Base.Bytes.{IsBytes, word16, u16_at_lem}
use pathdns.Dns.Name.{skip_name}
use pathdns.Dns.Name.Walk.{NameAt, skip_name-NameAt}
use pathdns.Dns.Edns.{
  OptRecord, find_opt_loop, find_opt_record, client_udp_payload_size, has_opt_record,
}

-- An OPT record, type 41, whole inside the packet, behind an owner name.
pub record OptAt (p : List ℕ) (opt : OptRecord) : Type 0 where
  pub owner : ℕ
  pub name : NameAt p owner opt.name_end
  pub rr_type_at : word16 p opt.name_end ≡ 41
  pub rdata_at : opt.rdata_start ≡ opt.name_end + 10
  pub rdata_end_at : opt.rdata_end ≡ opt.rdata_start + word16 p (opt.name_end + 8)
  pub inside : opt.rdata_end ≤ length p

opt_of : List ℕ → ℕ → OptRecord
opt_of p n = record { name_end = n; rdata_start = n + 10; rdata_end = n + 10 + word16 p (n + 8) }

opt_of-OptAt :
    (p : List ℕ) (i n : ℕ)
    → NameAt p i n
    → word16 p n ≡ 41
    → n + 10 + word16 p (n + 8) ≤ length p
    → OptAt p (opt_of p n)
unfolding opt_of
opt_of-OptAt p i n r t h = record {
  owner = i;
  name = r;
  rr_type_at = t;
  rdata_at = refl;
  rdata_end_at = refl;
  inside = h;
}

-- One round, once the owner name has been passed.
find_opt_loop_step :
    (k : ℕ) (p : List ℕ) (pos n : ℕ)
    → skip_name p pos ≡ ok n
    → find_opt_loop (suc k) p pos ≡ (
        if leb (n + 10 + word16 p (n + 8)) (length p)
        then (if word16 p n == 41
            then ok (opt_of p n)
            else find_opt_loop k p (n + 10 + word16 p (n + 8)))
        else reject)
unfolding find_opt_loop opt_of
find_opt_loop_step k p pos n e = elim (Bool-cases (ltb (length p) (n + 10))) [
  | inl short ↦ rw (e, short) (ground arith)
  | inr fits ↦
      rw (e, fits, u16_at_lem p n (ground arith), u16_at_lem p (n + 8) (ground arith))
        (ground arith)
]

find_opt_loop-OptAt :
    (n : ℕ) (p : List ℕ) (pos : ℕ)
    → IsBytes p
    → Returns (λ opt. OptAt p opt) (find_opt_loop n p pos)
unfolding find_opt_loop
find_opt_loop-OptAt zero p pos b = tt
find_opt_loop-OptAt (suc k) p pos b =
    elim (Returns-cases (λ e. NameAt p pos e) (skip_name p pos) (skip_name-NameAt p pos b)) [
      | inl (n, e, r) ↦ rw (find_opt_loop_step k p pos n e) (
          ground
            (arith, opt_of-OptAt p pos n r, find_opt_loop-OptAt k p (n + 10 + word16 p (n + 8)) b))
      | inr e ↦ rw e tt
    ]

-- On any packet of bytes and any offset `find_opt_record` ends without a panic, and finds only an
-- OPT record that stands whole in the packet after a domain name.
pub find_opt_record-OptAt :
    (p : List ℕ) (q : ℕ) → IsBytes p → Returns (λ opt. OptAt p opt) (find_opt_record p q)
unfolding find_opt_record
find_opt_record-OptAt p q b =
    ground (arith, u16_at_lem p 10, find_opt_loop-OptAt (word16 p 10) p q b)

-- The limit is at least 512, and the advertised size where that is more.
pub client_udp_payload_size_bounds :
    (p : List ℕ) (q : ℕ)
    → IsBytes p
    → (size : ℕ) × (client_udp_payload_size p q ≡ ok size) × (512 ≤ size)
unfolding client_udp_payload_size
client_udp_payload_size_bounds p q b =
    elim (Returns-cases (λ opt. OptAt p opt) (find_opt_record p q) (find_opt_record-OptAt p q b)) [
      | inl (opt, e, h) ↦ (
        max (word16 p (opt.name_end + 2)) 512,
        rw (
          e,
          u16_at_lem p (opt.name_end + 2) (omega (arith, h.inside, h.rdata_at, h.rdata_end_at)),
        ),
        omega arith,
      )
      | inr e ↦ (512, rw e, omega arith)
    ]

pub has_opt_record_total :
    (p : List ℕ) (q : ℕ) → IsBytes p → (b : Bool) × (has_opt_record p q ≡ ok b)
unfolding has_opt_record
has_opt_record_total p q b =
    elim (Returns-cases (λ opt. OptAt p opt) (find_opt_record p q) (find_opt_record-OptAt p q b)) [
      | inl (opt, e, h) ↦ (true, rw e)
      | inr e ↦ (false, rw e)
    ]
