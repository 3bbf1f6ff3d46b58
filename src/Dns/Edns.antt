-- ===== src/Dns/Edns.antt =====
-- EDNS and UDP truncation, src/dns/mod.rs: `find_opt_record`, `client_udp_payload_size`,
-- `has_opt_record` and `maybe_truncate_for_udp`.
pub mod Opt
pub mod Truncate
pub mod Reply
use pathdns.Base.{
  ℕ, zero, suc, ◌+◌, max, bit_or, List, [], ◌∷◌, ◌++◌, Bool, true, false, not, ◌||◌, Outcome, ok,
  reject, guard, ◌>>=◌, ◌>>◌, let_else, leb, ltb, ◌==◌, if◌then◌else◌, length,
}
use pathdns.Base.Bytes.{at, put, slice, u16_at}
use pathdns.Dns.Name.{skip_name, question_end}

-- The triple `(name_end, rdata_start, rdata_end)`.
pub record OptRecord : Type 0 where
  pub name_end : ℕ
  pub rdata_start : ℕ
  pub rdata_end : ℕ

unfoldable pub find_opt_loop : ℕ → List ℕ → ℕ → Outcome OptRecord
find_opt_loop zero packet pos = reject
find_opt_loop (suc n) packet pos = do
  name_end ← skip_name packet pos
  guard (not (ltb (length packet) (name_end + 10)))
  rr_type ← u16_at packet name_end
  rdlen ← u16_at packet (name_end + 8)
  let rdata_start = name_end + 10
  let rdata_end = rdata_start + rdlen
  guard (leb rdata_end (length packet))
  let rest = find_opt_loop n packet rdata_end
  if rr_type == 41
      then ok (record { name_end = name_end; rdata_start = rdata_start; rdata_end = rdata_end })
      else rest

unfoldable pub find_opt_record : List ℕ → ℕ → Outcome OptRecord
find_opt_record packet question_end = do
  guard (not (ltb (length packet) 12))
  arcount ← u16_at packet 10
  guard (not (arcount == 0 || leb (length packet) question_end))
  find_opt_loop arcount packet question_end

unfoldable pub client_udp_payload_size : List ℕ → ℕ → Outcome ℕ
client_udp_payload_size packet question_end =
    let_else (find_opt_record packet question_end) (ok 512)
      λ opt. do size ← u16_at packet (opt.name_end + 2); ok (max size 512)

unfoldable pub has_opt_record : List ℕ → ℕ → Outcome Bool
has_opt_record packet question_end =
    let_else (find_opt_record packet question_end) (ok false) λ opt. ok true

-- `TC_OPT_RR`.
abbrev pub tc_opt_rr : List ℕ
tc_opt_rr = 0x00 ∷ 0x00 ∷ 0x29 ∷ 0x04 ∷ 0xD0 ∷ 0x00 ∷ 0x00 ∷ 0x00 ∷ 0x00 ∷ 0x00 ∷ 0x00 ∷ []

-- The stub that is built from `&resp[..qe]`.
unfoldable pub tc_stub : List ℕ → ℕ → Bool → Outcome (List ℕ)
tc_stub resp qe client_edns = do
  stub ← slice resp 0 qe
  flags ← at stub 2
  stub ← put stub 2 (bit_or flags 0x02)
  stub ← put stub 6 0
  stub ← put stub 7 0
  stub ← put stub 8 0
  stub ← put stub 9 0
  let stub = if client_edns then stub ++ tc_opt_rr else stub
  stub ← put stub 10 0
  put stub 11 (if client_edns then 1 else 0)

unfoldable pub maybe_truncate_for_udp : List ℕ → List ℕ → Outcome (List ℕ)
maybe_truncate_for_udp resp query = let_else (question_end query) (ok resp) λ qe. do
  max_size ← client_udp_payload_size query qe
  if leb (length resp) max_size
      then ok resp
      else if ltb (length resp) qe || ltb qe 12
      then ok resp
      else (do client_edns ← has_opt_record query qe; tc_stub resp qe client_edns)
