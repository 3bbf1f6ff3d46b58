-- ===== src/Dns/Rr/Answers.antt =====
-- The readers of the answer section against one description of it: the records that can be read in
-- a row from the end of the question on.
use pathdns.Base.{
  ℕ, zero, suc, ◌+◌, ◌-◌, ◌≤◌, ◌≡◌, ◌∙◌, ap, List, [], ◌∷◌, ◌++◌, map, ◌&&◌, ok, reject,
  Returns-cases, length, arith, inl, inr, ◌==◌, if◌then◌else◌, take, drop,
}
use mathlib.Core.List.{append-nil, append_assoc}
use pathdns.Base.Bytes.{IsBytes, byte, word16, at_lem, u16_at_lem, slice_lem}
use pathdns.Dns.Rr.{
  Rr, IpAddr, v4, v6, parse_rr, push_ip, answer_ips_loop, answer_ips, extract_answer_records_loop,
  extract_answer_records,
}
use pathdns.Dns.Rr.Bounds.{RrAt, RrAt-bounds, parse_rr-RrAt}

-- At most `n` records in a row from `pos`, up to the first that does not parse.
walk : ℕ → List ℕ → ℕ → List Rr
walk zero p pos = []
walk (suc n) p pos = elim (parse_rr p pos) [ ok rr ↦ rr ∷ walk n p rr.rr_end | _ ↦ [] ]

walk-ok :
    (n : ℕ) (p : List ℕ) (pos : ℕ) (rr : Rr)
    → parse_rr p pos ≡ ok rr
    → walk (suc n) p pos ≡ rr ∷ walk n p rr.rr_end
unfolding walk
walk-ok n p pos rr e = rw (e, walk)

walk-reject : (n : ℕ) (p : List ℕ) (pos : ℕ) → parse_rr p pos ≡ reject → walk (suc n) p pos ≡ []
unfolding walk
walk-reject n p pos e = rw (e, walk)

-- The answer section: as many records as ANCOUNT says.
pub answers : List ℕ → ℕ → List Rr
unfolding walk
answers p question_end = walk (word16 p 6) p question_end

-- The data of a record, and the address that they are.
pub rdata_of : List ℕ → Rr → List ℕ
rdata_of p rr = take (rr.rr_end - rr.rdata) (drop rr.rdata p)

pub ips_of : List ℕ → List Rr → List IpAddr
ips_of p [] = []
ips_of p (rr ∷ rrs) =
    let rest = ips_of p rrs in
    if rr.rr_type == 1 && rr.rr_end - rr.rdata == 4
    then v4 (
        byte p rr.rdata
        ∷ byte p (rr.rdata + 1)
        ∷ byte p (rr.rdata + 2)
        ∷ byte p (rr.rdata + 3)
        ∷ [])
      ∷ rest
    else if rr.rr_type == 28 && rr.rr_end - rr.rdata == 16
    then v6 (rdata_of p rr) ∷ rest
    else rest

pub record_of : List ℕ → Rr → ℕ × ℕ × List ℕ
record_of p rr = (rr.rr_type, rr.ttl, rdata_of p rr)

push_ip-ips_of :
    (p : List ℕ) (pos : ℕ) (rr : Rr) (ips : List IpAddr)
    → RrAt p pos rr
    → push_ip p rr ips ≡ ok (ips ++ ips_of p (rr ∷ []))
unfolding push_ip ips_of rdata_of
push_ip-ips_of p pos rr ips r = ground (
  arith,
  RrAt-bounds r,
  append-nil ips,
  at_lem p rr.rdata,
  at_lem p (rr.rdata + 1),
  at_lem p (rr.rdata + 2),
  at_lem p (rr.rdata + 3),
  slice_lem p rr.rdata rr.rr_end,
)

ips_of-cons :
    (p : List ℕ) (rr : Rr) (rrs : List Rr)
    → ips_of p (rr ∷ rrs) ≡ ips_of p (rr ∷ []) ++ ips_of p rrs
unfolding ips_of
ips_of-cons p rr rrs = ground arith

answer_ips_loop-walk :
    (n : ℕ) (p : List ℕ) (pos : ℕ) (ips : List IpAddr)
    → IsBytes p
    → answer_ips_loop n p pos ips ≡ ok (ips ++ ips_of p (walk n p pos))
unfolding answer_ips_loop
answer_ips_loop-walk zero p pos ips b = unfold walk ips_of in rw append-nil
answer_ips_loop-walk (suc n) p pos ips b =
    elim (Returns-cases (λ rr. RrAt p pos rr) (parse_rr p pos) (parse_rr-RrAt p pos b)) [
      | inl (rr, e, r) ↦
          let more : List IpAddr = ips_of p (walk n p rr.rr_end) in
          let here : List IpAddr = ips_of p (rr ∷ []) in
          rw (walk-ok n p pos rr e, e, push_ip-ips_of p pos rr ips r)
            (answer_ips_loop-walk n p rr.rr_end (ips ++ here) b
              ∙ ap ok (append_assoc ips here more)
              ∙ rw (← ips_of-cons p rr (walk n p rr.rr_end)))
      | inr e ↦ rw (walk-reject n p pos e, e) (unfold ips_of in rw append-nil)
    ]

-- On a packet of bytes with a whole header and a question end inside it, `answer_ips` returns the
-- addresses of the A and AAAA records of the answer section, in order, up to the first record
-- that `parse_rr` refuses.
pub answer_ips-answers :
    (p : List ℕ) (question_end : ℕ)
    → IsBytes p
    → 12 ≤ length p
    → question_end ≤ length p
    → answer_ips p question_end ≡ ok (ips_of p (answers p question_end))
unfolding answer_ips answers
answer_ips-answers p q b h k =
    ground (arith, u16_at_lem p 6, answer_ips_loop-walk (word16 p 6) p q [] b)

extract_loop-walk :
    (n : ℕ) (p : List ℕ) (pos : ℕ) (out : List (ℕ × ℕ × List ℕ))
    → IsBytes p
    → extract_answer_records_loop n p pos out ≡ ok (out ++ map (record_of p) (walk n p pos))
unfolding extract_answer_records_loop record_of rdata_of
extract_loop-walk zero p pos out b = unfold walk in rw append-nil
extract_loop-walk (suc n) p pos out b =
    elim (Returns-cases (λ rr. RrAt p pos rr) (parse_rr p pos) (parse_rr-RrAt p pos b)) [
      | inl (rr, e, r) ↦
          let more : List (ℕ × ℕ × List ℕ) = map (record_of p) (walk n p rr.rr_end) in
          let (_, lo, hi) = RrAt-bounds r in
          rw (walk-ok n p pos rr e, e, slice_lem p rr.rdata rr.rr_end lo hi)
            (extract_loop-walk n p rr.rr_end (out ++ (record_of p rr ∷ [])) b
              ∙ ap ok (append_assoc out (record_of p rr ∷ []) more))
      | inr e ↦ rw (walk-reject n p pos e, e, append-nil)
    ]

-- On a packet of bytes with a whole header and a question end inside it, `extract_answer_records`
-- returns the type, TTL and data of the records of the answer section, in order, up to the first
-- record that `parse_rr` refuses.
pub extract_answer_records-answers :
    (p : List ℕ) (question_end : ℕ)
    → IsBytes p
    → 12 ≤ length p
    → question_end ≤ length p
    → extract_answer_records p question_end ≡ ok (map (record_of p) (answers p question_end))
unfolding extract_answer_records answers
extract_answer_records-answers p q b h k =
    ground (arith, u16_at_lem p 6, extract_loop-walk (word16 p 6) p q [] b)
