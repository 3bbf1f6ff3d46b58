-- ===== src/Dns/Variant.antt =====
-- The EDNS properties of a query that its cached response depends on, src/dns/mod.rs:
-- `QueryVariant`, `EcsSrc`, `extract_variant`, `extract_opt_data`, `parse_ecs_src`.
-- An address of `n` bytes is its big-endian number where the code makes it one; the mask
-- `!0 << (w - plen)` clears the low bits, which is written as a division and a product.
pub mod Total
use pathdns.Base.{
  ℕ, zero, suc, ◌+◌, ◌-◌, ◌*◌, ◌/◌, ◌%◌, ◌^◌, min, bit_and, List, [], ◌∷◌, ◌++◌, Bool, true, false,
  not, ◌&&◌, Option, none, some, Outcome, ok, reject, panic, stuck, guard, let_else, ◌>>=◌, ◌>>◌,
  leb, ltb, ◌==◌, if◌then◌else◌, length, take, drop,
}
use pathdns.Base.Bytes.{at, slice, get_range, u16_at, be_number, be_bytes, le16, zeros}
use pathdns.Hasher
use pathdns.Dns.Edns.{OptRecord, find_opt_record}

-- `addr` holds 16 bytes; an IPv4 network stands in the last four.
pub record EcsSrc : Type 0 where
  pub addr : List ℕ
  pub prefix_len : ℕ

pub record QueryVariant : Type 0 where
  pub has_opt : Bool
  pub do_bit : Bool
  pub edns_version : ℕ
  pub rd : Bool
  pub ad : Bool
  pub cd : Bool
  pub ecs_src : Option EcsSrc
  pub extra_opts_hash : ℕ

abbrev pub no_edns : Bool → Bool → Bool → QueryVariant
no_edns rd ad cd = record {
  has_opt = false;
  do_bit = false;
  edns_version = 0;
  rd = rd;
  ad = ad;
  cd = cd;
  ecs_src = none;
  extra_opts_hash = 0;
}

-- `x & (!0 << (w - plen))` on `w` bits, and 0 where `plen` is 0.
unfoldable pub mask_prefix : ℕ → ℕ → ℕ → ℕ
mask_prefix w plen x = if plen == 0 then 0 else x / 2 ^ (w - plen) * 2 ^ (w - plen)

-- `raw[..n].copy_from_slice(&addr_data[..n])` on `size` zero bytes, with `n` as large as fits.
unfoldable pub padded : ℕ → List ℕ → List ℕ
unfolding zeros
padded size addr_data = let n = min (length addr_data) size in take n addr_data ++ zeros (size - n)

unfoldable pub parse_ecs_src : List ℕ → Outcome EcsSrc
unfolding mask_prefix padded be_number be_bytes zeros
parse_ecs_src opt_data = do
  guard (not (ltb (length opt_data) 4))
  family ← u16_at opt_data 0
  prefix_len ← at opt_data 2
  let addr_data = drop 4 opt_data
  if family == 1
      then (let plen = min prefix_len 32 in
          ok (record {
            addr = zeros 12 ++ be_bytes 4 (mask_prefix 32 plen (be_number (padded 4 addr_data)));
            prefix_len = plen;
          }))
      else if family == 2
      then (let plen = min prefix_len 128 in
          ok (record {
            addr = be_bytes 16 (mask_prefix 128 plen (be_number (padded 16 addr_data)));
            prefix_len = plen;
          }))
      else reject

abbrev to_option {ℓ} : {A : Type ℓ} → Outcome A → Outcome (Option A)
to_option m = let_else m (ok none) (λ a. ok (some a))

-- The `while` loop of `extract_opt_data`: the ECS source and the other option codes so far.
unfoldable pub opt_data_loop :
    ℕ → List ℕ → ℕ → Option EcsSrc → List ℕ → Outcome (Option EcsSrc × List ℕ)
unfolding parse_ecs_src
opt_data_loop zero rdata pos ecs_src codes = stuck
opt_data_loop (suc fuel) rdata pos ecs_src codes =
    if leb (pos + 4) (length rdata)
    then (do
      code ← u16_at rdata pos
      opt_len ← u16_at rdata (pos + 2)
      let end = pos + 4 + opt_len
      let skip = opt_data_loop fuel rdata end ecs_src codes
      let collect = opt_data_loop fuel rdata end ecs_src (codes ++ (code ∷ []))
      if ltb (length rdata) end
          then ok (ecs_src, codes)
          else if code == 8 && leb 4 opt_len
          then (do
            option ← slice rdata (pos + 4) end
            src ← to_option (parse_ecs_src option)
            opt_data_loop fuel rdata end src codes)
          else if not (code == 12)
          then collect
          else skip)
    else ok (ecs_src, codes)

-- `sort_unstable` of numbers: equal ones are the same.
unfoldable pub insert_sorted : ℕ → List ℕ → List ℕ
insert_sorted x [] = x ∷ []
insert_sorted x (y ∷ ys) = if leb x y then x ∷ y ∷ ys else y ∷ insert_sorted x ys

unfoldable pub sort_codes : List ℕ → List ℕ
unfolding insert_sorted
sort_codes [] = []
sort_codes (x ∷ xs) = insert_sorted x (sort_codes xs)

unfoldable pub write_codes : ℕ → List ℕ → ℕ
write_codes h [] = h
write_codes h (c ∷ codes) = write_codes (Hasher.write h (le16 c)) codes

unfoldable pub codes_hash : List ℕ → ℕ
unfolding sort_codes write_codes
codes_hash [] = 0
codes_hash (c ∷ codes) = write_codes Hasher.new (sort_codes (c ∷ codes))

unfoldable pub extract_opt_data : List ℕ → Outcome (Option EcsSrc × ℕ)
unfolding opt_data_loop codes_hash
extract_opt_data rdata = do
  (ecs_src, codes) ← opt_data_loop (suc (length rdata)) rdata 0 none []
  ok (ecs_src, codes_hash codes)

unfoldable pub extract_variant : List ℕ → ℕ → Outcome QueryVariant
unfolding extract_opt_data
extract_variant packet question_end =
    if ltb (length packet) 12 then ok (no_edns false false false) else (do
      b2 ← at packet 2
      b3 ← at packet 3
      let rd = not (bit_and b2 0x01 == 0)
      let ad = not (bit_and b3 0x20 == 0)
      let cd = not (bit_and b3 0x10 == 0)
      let_else (find_opt_record packet question_end) (ok (no_edns rd ad cd)) λ opt. do
        edns_version ← at packet (opt.name_end + 5)
        flags ← at packet (opt.name_end + 6)
        (ecs_src, extra) ← extract_opt_data (get_range packet opt.rdata_start opt.rdata_end)
        ok (record {
          has_opt = true;
          do_bit = not (bit_and flags 0x80 == 0);
          edns_version = edns_version;
          rd = rd;
          ad = ad;
          cd = cd;
          ecs_src = ecs_src;
          extra_opts_hash = extra;
        }))
