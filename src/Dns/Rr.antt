-- ===== src/Dns/Rr.antt =====
-- Resource records: `parse_rr`, `answer_ips`, `answer_rr_types` and `question_qclass` of
-- src/dns/ttl.rs, `extract_answer_records` of src/dns/mod.rs.
pub mod Bounds
pub mod Answers
use pathdns.Base.{
  ℕ, zero, suc, ◌+◌, ◌-◌, List, [], ◌∷◌, ◌++◌, Bool, true, false, not, ◌&&◌, ◌||◌, Outcome, ok,
  reject, guard, ◌>>=◌, ◌>>◌, let_else, leb, ltb, ◌==◌, if◌then◌else◌, length, Option, some, none,
}
use pathdns.Base.Bytes.{at, slice, u16_at, u32_at}
use pathdns.Dns.Name.{skip_name}

-- The tuple that `parse_rr` returns; `rdata` is where the record's data begin.
pub record Rr : Type 0 where
  pub rr_type : ℕ
  pub class : ℕ
  pub ttl : ℕ
  pub rdata : ℕ
  pub rr_end : ℕ

-- `IpAddr`, by its octets.
pub data IpAddr : Type 0 where
  v4 : List ℕ → IpAddr
  v6 : List ℕ → IpAddr

unfoldable pub parse_rr : List ℕ → ℕ → Outcome Rr
parse_rr packet pos = do
  name_end ← skip_name packet pos
  guard (not (ltb (length packet) (name_end + 10)))
  rr_type ← u16_at packet name_end
  class ← u16_at packet (name_end + 2)
  ttl ← u32_at packet (name_end + 4)
  rdlen ← u16_at packet (name_end + 8)
  let rdata_start = name_end + 10
  let rr_end = rdata_start + rdlen
  guard (not (ltb (length packet) rr_end))
  ok (record { rr_type = rr_type; class = class; ttl = ttl; rdata = rdata_start; rr_end = rr_end })

-- The body of the loop of `answer_ips`.
unfoldable pub push_ip : List ℕ → Rr → List IpAddr → Outcome (List IpAddr)
push_ip packet rr ips =
    if rr.rr_type == 1 && rr.rr_end - rr.rdata == 4
    then (do
      a ← at packet rr.rdata
      b ← at packet (rr.rdata + 1)
      c ← at packet (rr.rdata + 2)
      d ← at packet (rr.rdata + 3)
      ok (ips ++ (v4 (a ∷ b ∷ c ∷ d ∷ []) ∷ [])))
    else if rr.rr_type == 28 && rr.rr_end - rr.rdata == 16
    then (do octets ← slice packet rr.rdata rr.rr_end; ok (ips ++ (v6 octets ∷ [])))
    else ok ips

unfoldable pub answer_ips_loop : ℕ → List ℕ → ℕ → List IpAddr → Outcome (List IpAddr)
answer_ips_loop zero packet pos ips = ok ips
answer_ips_loop (suc n) packet pos ips =
    let_else (parse_rr packet pos) (ok ips)
      λ rr. do ips ← push_ip packet rr ips; answer_ips_loop n packet rr.rr_end ips

unfoldable pub answer_ips : List ℕ → ℕ → Outcome (List IpAddr)
answer_ips packet question_end =
    if ltb (length packet) 12 || ltb (length packet) question_end
    then ok []
    else (do an ← u16_at packet 6; answer_ips_loop an packet question_end [])

unfoldable pub contains : List ℕ → ℕ → Bool
contains [] t = false
contains (x ∷ xs) t = x == t || contains xs t

unfoldable pub answer_rr_types_loop : ℕ → List ℕ → ℕ → List ℕ → Outcome (List ℕ)
answer_rr_types_loop zero packet pos types = ok types
answer_rr_types_loop (suc n) packet pos types = let_else (parse_rr packet pos) (ok types) λ rr.
    answer_rr_types_loop n packet rr.rr_end
      (if contains types rr.rr_type then types else types ++ (rr.rr_type ∷ []))

unfoldable pub answer_rr_types : List ℕ → ℕ → Outcome (List ℕ)
answer_rr_types packet question_end =
    if ltb (length packet) 12 || ltb (length packet) question_end
    then ok []
    else (do an ← u16_at packet 6; answer_rr_types_loop an packet question_end [])

unfoldable pub question_qclass : List ℕ → ℕ → Outcome ℕ
question_qclass packet question_end = do
  guard (not (ltb question_end 2 || ltb (length packet) question_end))
  u16_at packet (question_end - 2)

unfoldable pub extract_answer_records_loop :
    ℕ → List ℕ → ℕ → List (ℕ × ℕ × List ℕ) → Outcome (List (ℕ × ℕ × List ℕ))
extract_answer_records_loop zero resp offset results = ok results
extract_answer_records_loop (suc n) resp offset results =
    let_else (parse_rr resp offset) (ok results) λ rr. do
      data_bytes ← slice resp rr.rdata rr.rr_end
      extract_answer_records_loop n resp rr.rr_end
          (results ++ ((rr.rr_type, rr.ttl, data_bytes) ∷ []))

unfoldable pub extract_answer_records : List ℕ → ℕ → Outcome (List (ℕ × ℕ × List ℕ))
extract_answer_records resp question_end =
    if ltb (length resp) 12 || ltb (length resp) question_end
    then ok []
    else (do ancount ← u16_at resp 6; extract_answer_records_loop ancount resp question_end [])
