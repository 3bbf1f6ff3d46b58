-- ===== src/Dns/Builder/Answers.antt =====
-- Answers built by `a_reply` and `aaaa_reply` of src/dns/builder.rs, read back by src/dns/ttl.rs.
use pathdns.Base.{
  ℕ, ◌+◌, ◌-◌, ◌^◌, ◌≤◌, ◌<◌, ◌≡◌, ◌∙◌, ap, sym, List, [], ◌∷◌, ◌++◌, false, ◌||◌, ok, ltb, length,
  length-append, set, drop, drop-drop, drop-append_length, take_of_length, arith, refl,
}
use pathdns.Base.Bytes.{
  byte, word16, word32, put, slice, bytes32, at_lem, slice_lem, put-set, byte-set, byte-append_left,
  byte-append_right, u16_at_lem,
}
use pathdns.Dns.Name.{skip_name}
use pathdns.Dns.Rr.{
  Rr, IpAddr, v4, v6, parse_rr, push_ip, answer_ips_loop, answer_ips, extract_answer_records_loop,
  extract_answer_records,
}
use pathdns.Dns.Rr.Bounds.{header_at, parse_rr-header_at}
use pathdns.Dns.Builder.{a_reply, aaaa_reply}
use pathdns.Dns.Builder.Headers.{base_of, from_query-base_of, with_ra, set_ra-with_ra, byte-base_of}

skip_pointer :
    (p : List ℕ) (i : ℕ) → i + 1 < length p → byte p i ≡ 0xC0 → skip_name p i ≡ ok (i + 2)
unfolding skip_name
skip_pointer p i h e = ground arith

-- An answer record behind `base`, whose name is a pointer to the question.
unfoldable pub record_bytes : ℕ → ℕ → ℕ → List ℕ → List ℕ
record_bytes t ttl n octets =
    0xC0 ∷ 0x0C ∷ 0x00 ∷ t ∷ 0x00 ∷ 0x01 ∷ (bytes32 ttl ++ (0x00 ∷ n ∷ octets))

module _ (base : List ℕ) (qe t ttl n : ℕ) (octets : List ℕ) (at_qe : length base ≡ qe)
    (size : length octets ≡ n) (small : ttl < 2 ^ 32) where
  unfoldable pub whole : List ℕ
  whole = base ++ record_bytes t ttl n octets

  pub length-whole : length whole ≡ qe + 12 + n
  unfolding whole record_bytes
  length-whole = omega (arith, length-append base (record_bytes t ttl n octets))

  byte-whole : (j k : ℕ) → qe + j ≡ k → byte whole k ≡ byte (record_bytes t ttl n octets) j
  unfolding whole
  byte-whole j k e = byte-append_right base (record_bytes t ttl n octets) j k (omega arith)

  name : byte whole qe ≡ 0xC0
  unfolding byte record_bytes
  name = byte-whole 0 qe (omega arith)

  fields :
      (word16 whole (qe + 2) ≡ t)
      × (word16 whole (qe + 2 + 2) ≡ 1)
      × (word32 whole (qe + 2 + 4) ≡ ttl)
      × (word16 whole (qe + 2 + 8) ≡ n)
  unfolding byte word16 word32 record_bytes
  fields = (
    omega (arith, byte-whole 2 (qe + 2) refl, byte-whole 3 (qe + 2 + 1) (omega arith)),
    omega (
      arith,
      byte-whole 4 (qe + 2 + 2) (omega arith),
      byte-whole 5 (qe + 2 + 2 + 1) (omega arith),
    ),
    omega (
      arith,
      byte-whole 6 (qe + 2 + 4) (omega arith),
      byte-whole 7 (qe + 2 + 4 + 1) (omega arith),
      byte-whole 8 (qe + 2 + 4 + 2) (omega arith),
      byte-whole 9 (qe + 2 + 4 + 3) (omega arith),
    ),
    omega (
      arith,
      byte-whole 10 (qe + 2 + 8) (omega arith),
      byte-whole 11 (qe + 2 + 8 + 1) (omega arith),
    ),
  )

  unfoldable pub answer_rr : Rr
  answer_rr = record { rr_type = t; class = 1; ttl = ttl; rdata = qe + 12; rr_end = qe + 12 + n }

  pub parse_rr-whole : parse_rr whole qe ≡ ok answer_rr
  unfolding answer_rr header_at
  parse_rr-whole =
      let start : skip_name whole qe ≡ ok (qe + 2) =
        skip_pointer whole qe (omega (arith, length-whole)) name in
      parse_rr-header_at whole qe (qe + 2) start ∙ ground (arith, length-whole, fields)

  octets_left : drop (qe + 12) whole ≡ octets
  unfolding whole record_bytes
  octets_left =
      sym (drop-drop qe 12 (qe + 12) whole refl)
      ∙ ap (drop 12) (drop-append_length qe base (record_bytes t ttl n octets) at_qe)

  -- The data of the record are the octets.
  pub slice-whole : slice whole (qe + 12) (qe + 12 + n) ≡ ok octets
  unfolding slice
  slice-whole =
      let m : qe + 12 + n - (qe + 12) ≡ n = omega arith in
      slice_lem whole (qe + 12) (qe + 12 + n) (omega arith) (omega (arith, length-whole))
      ∙ rw (m, octets_left) (rw (take_of_length n octets size))

  -- The readers find the one answer that the header announces.
  module _ (one : word16 whole 6 ≡ 1) (lo : 12 ≤ qe) where
    room : (ltb (length whole) 12 || ltb (length whole) qe) ≡ false
    room = ground (arith, length-whole)

    pub extract-whole : extract_answer_records whole qe ≡ ok ((t, ttl, octets) ∷ [])
    unfolding extract_answer_records extract_answer_records_loop answer_rr
    extract-whole =
        rw (room, u16_at_lem whole 6 (omega (arith, length-whole)), one)
          (rw (parse_rr-whole, slice-whole))

    answer_ips-whole :
        (ip : IpAddr)
        → push_ip whole answer_rr [] ≡ ok (ip ∷ [])
        → answer_ips whole qe ≡ ok (ip ∷ [])
    unfolding answer_ips answer_ips_loop
    answer_ips-whole ip e =
        rw (room, u16_at_lem whole 6 (omega (arith, length-whole)), one) (rw (parse_rr-whole, e))

-- The buffer of a reply with one answer, before the answer is appended.
abbrev pub one_answer : (query : List ℕ) (qe : ℕ) → 12 ≤ qe → qe ≤ length query → List ℕ
one_answer query qe lo hi = set (with_ra query qe lo hi) 7 1

module _ (query : List ℕ) (qe : ℕ) (lo : 12 ≤ qe) (hi : qe ≤ length query) where
  pub one_answer_lem :
      (put (with_ra query qe lo hi) 7 1 ≡ ok (one_answer query qe lo hi))
      × (length (one_answer query qe lo hi) ≡ qe)
  one_answer_lem =
      put-set qe (with_ra query qe lo hi) 7 1 (set_ra-with_ra query qe lo hi).1 (omega arith)

  one_answer_count :
      (t ttl n : ℕ) (octets : List ℕ)
      → word16 (one_answer query qe lo hi ++ record_bytes t ttl n octets) 6 ≡ 1
  unfolding word16 with_ra
  one_answer_count t ttl n octets =
      let base = one_answer query qe lo hi in
      let tail = record_bytes t ttl n octets in
      let (_, m) = set_ra-with_ra query qe lo hi in
      let (_, l) = one_answer_lem in
      let (_, k) = from_query-base_of query qe lo hi in
      let b6 : byte base 6 ≡ 0 =
        byte-set (with_ra query qe lo hi) 7 6 1 (omega arith)
        ∙ byte-set (base_of query qe) 3 6 0x80 (omega arith)
        ∙ byte-base_of query qe lo hi 6 (omega arith) in
      let b7 : byte base 7 ≡ 1 = byte-set (with_ra query qe lo hi) 7 7 1 (omega arith) in
      omega (
        arith,
        byte-append_left base tail 6 (omega arith),
        byte-append_left base tail 7 (omega arith),
        b6,
        b7,
      )

-- Reading the four octets one by one, and sixteen at once.
push_v4 :
    (base : List ℕ) (qe ttl a b c d : ℕ) (l : length base ≡ qe) (small : ttl < 2 ^ 32)
    → push_ip
        (whole base qe 1 ttl 4 (a ∷ b ∷ c ∷ d ∷ []) l refl small)
        (answer_rr base qe 1 ttl 4 (a ∷ b ∷ c ∷ d ∷ []) l refl small)
        []
      ≡ ok (v4 (a ∷ b ∷ c ∷ d ∷ []) ∷ [])
unfolding push_ip answer_rr record_bytes byte
push_v4 base qe ttl a b c d l small =
    let octets = a ∷ b ∷ c ∷ d ∷ [] in
    let r = whole base qe 1 ttl 4 octets l refl small in
    let n : length r ≡ qe + 12 + 4 = length-whole base qe 1 ttl 4 octets l refl small in
    let at_ = byte-whole base qe 1 ttl 4 octets l refl small in
    let m : qe + 12 + 4 - (qe + 12) ≡ 4 = omega arith in
    rw
      (
        m,
        at_lem r (qe + 12) (omega arith),
        at_lem r (qe + 12 + 1) (omega arith),
        at_lem r (qe + 12 + 2) (omega arith),
        at_lem r (qe + 12 + 3) (omega arith),
      )
      (rw (
        at_ 12 (qe + 12) refl,
        at_ 13 (qe + 12 + 1) (omega arith),
        at_ 14 (qe + 12 + 2) (omega arith),
        at_ 15 (qe + 12 + 3) (omega arith),
      ))

push_v6 :
    (base : List ℕ) (qe ttl : ℕ) (octets : List ℕ) (l : length base ≡ qe)
    (sixteen : length octets ≡ 16) (small : ttl < 2 ^ 32)
    → push_ip
        (whole base qe 28 ttl 16 octets l sixteen small)
        (answer_rr base qe 28 ttl 16 octets l sixteen small)
        []
      ≡ ok (v6 octets ∷ [])
unfolding push_ip answer_rr
push_v6 base qe ttl octets l sixteen small =
    let m : qe + 12 + 16 - (qe + 12) ≡ 16 = omega arith in
    rw (m, slice-whole base qe 28 ttl 16 octets l sixteen small)

-- For a question end between 12 and the query's length and a TTL of 32 bits, `a_reply` returns a
-- packet in which `answer_ips` finds exactly the given address and `extract_answer_records`
-- exactly one record of type 1 with the given TTL and address.
pub a_reply-answer_ips :
    (query : List ℕ) (qe a b c d ttl : ℕ)
    → 12 ≤ qe
    → qe ≤ length query
    → ttl < 2 ^ 32
    → (r : List ℕ) × (a_reply query qe (a ∷ b ∷ c ∷ d ∷ []) ttl ≡ ok r)
      × (answer_ips r qe ≡ ok (v4 (a ∷ b ∷ c ∷ d ∷ []) ∷ []))
      × (extract_answer_records r qe ≡ ok ((1, ttl, a ∷ b ∷ c ∷ d ∷ []) ∷ []))
unfolding a_reply whole
a_reply-answer_ips query qe a b c d ttl lo hi small =
    let octets = a ∷ b ∷ c ∷ d ∷ [] in
    let base = one_answer query qe lo hi in
    let (p7, l) = one_answer_lem query qe lo hi in
    let one = one_answer_count query qe lo hi 1 ttl 4 octets in
    let (built, _) = from_query-base_of query qe lo hi in
    let (ra, _) = set_ra-with_ra query qe lo hi in
    (
      whole base qe 1 ttl 4 octets l refl small,
      unfold record_bytes in rw (built, ra, p7),
      answer_ips-whole base qe 1 ttl 4 octets l refl small one lo (v4 octets)
          (push_v4 base qe ttl a b c d l small),
      extract-whole base qe 1 ttl 4 octets l refl small one lo,
    )

-- For a question end between 12 and the query's length, 16 octets and a TTL of 32 bits,
-- `aaaa_reply` returns a packet in which `answer_ips` finds exactly the address of these octets
-- and `extract_answer_records` exactly one record of type 28 with the given TTL and octets.
pub aaaa_reply-answer_ips :
    (query : List ℕ) (qe : ℕ) (octets : List ℕ) (ttl : ℕ)
    → 12 ≤ qe
    → qe ≤ length query
    → length octets ≡ 16
    → ttl < 2 ^ 32
    → (r : List ℕ) × (aaaa_reply query qe octets ttl ≡ ok r)
      × (answer_ips r qe ≡ ok (v6 octets ∷ []))
      × (extract_answer_records r qe ≡ ok ((28, ttl, octets) ∷ []))
unfolding aaaa_reply whole
aaaa_reply-answer_ips query qe octets ttl lo hi sixteen small =
    let base = one_answer query qe lo hi in
    let (p7, l) = one_answer_lem query qe lo hi in
    let one = one_answer_count query qe lo hi 28 ttl 16 octets in
    let (built, _) = from_query-base_of query qe lo hi in
    let (ra, _) = set_ra-with_ra query qe lo hi in
    (
      whole base qe 28 ttl 16 octets l sixteen small,
      unfold record_bytes in rw (built, ra, p7),
      answer_ips-whole base qe 28 ttl 16 octets l sixteen small one lo (v6 octets)
          (push_v6 base qe ttl octets l sixteen small),
      extract-whole base qe 28 ttl 16 octets l sixteen small one lo,
    )
