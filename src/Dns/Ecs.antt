-- ===== src/Dns/Ecs.antt =====
-- The client-subnet option, src/dns/ecs.rs: `locate_opt`, `strip_opt_rdata`, `strip_edns_ecs`,
-- `inject_or_replace_ecs` and `encode_ecs_option`. `Ok(None)` of `locate_opt` is `ok none`. The loops
-- over the options of `strip_ecs_from_opt` and of `inject_or_replace_ecs` are the same but for the
-- flag, which the second does not read.
pub mod Located
pub mod Options
pub mod Rewrite
pub mod Stripped
use pathdns.Base.{
  ℕ, zero, suc, ◌+◌, ◌-◌, ◌/◌, ◌%◌, ◌^◌, min, List, [], ◌∷◌, ◌++◌, Bool, true, false, not, Option,
  none, some, Outcome, ok, reject, stuck, guard, ◌>>=◌, ◌>>◌, leb, ltb, ◌==◌, if◌then◌else◌, length,
  take,
}
use pathdns.Base.Bytes.{at, put, slice, u16_at, zeros}
use pathdns.Dns.Name.{skip_name}
use pathdns.Dns.Rr.{IpAddr, v4, v6}

-- `EcsSubnet` of src/config/mod.rs.
pub record EcsSubnet : Type 0 where
  pub addr : IpAddr
  pub prefix_len : ℕ

abbrev pub ecs_option_code : ℕ
ecs_option_code = 8

pub record OptLocation : Type 0 where
  pub name_end : ℕ
  pub rdata_start : ℕ
  pub rdata_end : ℕ

unfoldable pub skip_questions : ℕ → List ℕ → ℕ → Outcome ℕ
skip_questions zero packet pos = ok pos
skip_questions (suc qd) packet pos = do
  end ← skip_name packet pos
  guard (leb (end + 4) (length packet))
  skip_questions qd packet (end + 4)

unfoldable pub skip_records : ℕ → List ℕ → ℕ → Outcome ℕ
skip_records zero packet pos = ok pos
skip_records (suc n) packet pos = do
  fixed ← skip_name packet pos
  guard (not (ltb (length packet) (fixed + 10)))
  rdlen ← u16_at packet (fixed + 8)
  guard (leb (fixed + (10 + rdlen)) (length packet))
  skip_records n packet (fixed + (10 + rdlen))

unfoldable pub locate_loop : ℕ → List ℕ → ℕ → Outcome (Option OptLocation)
locate_loop zero packet pos = ok none
locate_loop (suc ar) packet pos = do
  name_end ← skip_name packet pos
  guard (not (ltb (length packet) (name_end + 10)))
  rr_type ← u16_at packet name_end
  rdlen ← u16_at packet (name_end + 8)
  let rdata_start = name_end + 10
  let rdata_end = rdata_start + rdlen
  guard (leb rdata_end (length packet))
  let rest = locate_loop ar packet rdata_end
  if rr_type == 41
      then ok
          (some (record { name_end = name_end; rdata_start = rdata_start; rdata_end = rdata_end }))
      else rest

unfoldable pub locate_opt : List ℕ → Outcome (Option OptLocation)
locate_opt packet = do
  guard (not (ltb (length packet) 12))
  ar ← u16_at packet 10
  if ar == 0 then ok none else (do
    qd ← u16_at packet 4
    an ← u16_at packet 6
    ns ← u16_at packet 8
    pos ← skip_questions qd packet 12
    pos ← skip_records (an + ns) packet pos
    locate_loop ar packet pos)

-- `locate_opt(packet)??`.
unfoldable pub located : List ℕ → Outcome OptLocation
located packet = do found ← locate_opt packet; elim found [ none ↦ reject | some loc ↦ ok loc ]

-- `(n as u16).to_be_bytes()`.
abbrev pub cast_bytes16 : ℕ → List ℕ
cast_bytes16 n = n / 256 % 256 ∷ n % 256 ∷ []

unfoldable pub strip_opt_rdata : List ℕ → Outcome (List ℕ)
strip_opt_rdata packet = do
  loc ← located packet
  guard (not (loc.rdata_end == loc.rdata_start))
  front ← slice packet 0 (loc.name_end + 8)
  back ← slice packet loc.rdata_end (length packet)
  ok (front ++ (0 ∷ 0 ∷ back))

-- The options but those of the code: `new_rdata`, and whether one was left out.
unfoldable pub keep_loop : ℕ → List ℕ → ℕ → List ℕ → Bool → Outcome (List ℕ × Bool)
keep_loop zero rdata pos new_rdata found_ecs = stuck
keep_loop (suc fuel) rdata pos new_rdata found_ecs =
    if leb (pos + 4) (length rdata)
    then (do
      code ← u16_at rdata pos
      opt_len ← u16_at rdata (pos + 2)
      let end = pos + 4 + opt_len
      guard (not (ltb (length rdata) end))
      let left_out = keep_loop fuel rdata end new_rdata true
      option ← slice rdata pos end
      let kept = keep_loop fuel rdata end (new_rdata ++ option) found_ecs
      if code == ecs_option_code then left_out else kept)
    else ok (new_rdata, found_ecs)

unfoldable pub keep_options : List ℕ → Outcome (List ℕ × Bool)
unfolding keep_loop
keep_options rdata = keep_loop (suc (length rdata)) rdata 0 [] false

-- The packet with other data in its OPT record, and the length of that in front of it.
unfoldable pub replace_rdata : List ℕ → OptLocation → List ℕ → Outcome (List ℕ)
replace_rdata packet loc new_rdata = do
  let new_rdlen = length new_rdata % 2 ^ 16
  let rdlen_pos = loc.rdata_start - 2
  front ← slice packet 0 loc.rdata_start
  back ← slice packet loc.rdata_end (length packet)
  out ← put (front ++ (new_rdata ++ back)) rdlen_pos (new_rdlen / 256)
  put out (rdlen_pos + 1) (new_rdlen % 256)

unfoldable pub strip_ecs_from_opt : List ℕ → OptLocation → Outcome (List ℕ)
strip_ecs_from_opt packet loc = do
  rdata ← slice packet loc.rdata_start loc.rdata_end
  (new_rdata, found_ecs) ← keep_options rdata
  guard found_ecs
  replace_rdata packet loc new_rdata

unfoldable pub strip_edns_ecs : List ℕ → Outcome (List ℕ)
strip_edns_ecs packet = do loc ← located packet; strip_ecs_from_opt packet loc

abbrev pub family : IpAddr → ℕ
family (v4 octets) = 1
family (v6 octets) = 2

-- `addr_bytes`: the four or sixteen octets.
abbrev pub addr_bytes : IpAddr → List ℕ
addr_bytes (v4 octets) = octets
addr_bytes (v6 octets) = octets

unfoldable pub encode_ecs_option : EcsSubnet → List ℕ
encode_ecs_option subnet =
    let byte_count = min ((subnet.prefix_len + 7) / 8) (length (addr_bytes subnet.addr)) in
    cast_bytes16 ecs_option_code
    ++ (cast_bytes16 (4 + byte_count)
        ++ (cast_bytes16 (family subnet.addr)
            ++ (subnet.prefix_len ∷ 0 ∷ take byte_count (addr_bytes subnet.addr))))

-- The OPT record that is put behind a packet without one.
abbrev pub new_opt : List ℕ → List ℕ
new_opt ecs_opt =
    0x00 ∷ cast_bytes16 41
    ++ (cast_bytes16 4096 ++ (zeros 4 ++ (cast_bytes16 (length ecs_opt) ++ ecs_opt)))

unfoldable pub append_opt : List ℕ → List ℕ → Outcome (List ℕ)
append_opt packet ecs_opt = do
  ar ← u16_at packet 10
  let new_ar = (ar + 1) % 2 ^ 16
  out ← put (packet ++ new_opt ecs_opt) 10 (new_ar / 256)
  put out 11 (new_ar % 256)

unfoldable pub inject_or_replace_ecs : List ℕ → EcsSubnet → Outcome (List ℕ)
inject_or_replace_ecs packet subnet = do
  guard (not (ltb (length packet) 12))
  let ecs_opt = encode_ecs_option subnet
  found ← locate_opt packet
  elim found [
    | none ↦ append_opt packet ecs_opt
    | some loc ↦ do
      rdata ← slice packet loc.rdata_start loc.rdata_end
      (new_rdata, _) ← keep_options rdata
      replace_rdata packet loc (new_rdata ++ ecs_opt)
  ]
