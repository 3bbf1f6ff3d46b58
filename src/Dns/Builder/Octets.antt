-- ===== src/Dns/Builder/Octets.antt =====
-- The replies of src/dns/builder.rs are packets of bytes, of a known length.
use pathdns.Base.{
  ℕ, ◌+◌, ◌%◌, ◌^◌, ◌≤◌, ◌<◌, ◌≡◌, List, ◌++◌, Outcome, ok, length, length-append, take, refl,
  arith,
}
use pathdns.Base.Bytes.{IsBytes, byte, byte-lt}
use pathdns.Base.Bits.{reply_flags}
use pathdns.Base.Octets.{IsBytes-take, IsBytes-append, IsBytes-set, IsBytes-sets}
use pathdns.Dns.Builder.{from_query_writes, empty_reply, rcode_reply, a_reply, aaaa_reply}
use pathdns.Dns.Builder.Headers.{
  base_of, from_query-base_of, with_ra, set_ra-with_ra, with_rcode, set_rcode-with_rcode,
}
use pathdns.Dns.Builder.Answers.{one_answer, one_answer_lem, record_bytes}

-- A call that makes a packet of bytes of the length.
abbrev pub Makes : ℕ → Outcome (List ℕ) → Type 0
Makes n call = (r : List ℕ) × (call ≡ ok r) × IsBytes r × (length r ≡ n)

module _ (query : List ℕ) (qe : ℕ) (bytes : IsBytes query) (lo : 12 ≤ qe)
    (hi : qe ≤ length query) where
  with_ra-IsBytes : IsBytes (with_ra query qe lo hi)
  unfolding with_ra base_of
  with_ra-IsBytes =
      let flags = reply_flags (byte query 2) (byte-lt query 2 bytes) in
      IsBytes-set (base_of query qe) 3 0x80
        (IsBytes-sets (take qe query) (from_query_writes (byte query 2))
          (IsBytes-take qe query bytes) (omega arith))
        (omega arith)

  pub empty_reply-Makes : Makes qe (empty_reply query qe)
  unfolding empty_reply
  empty_reply-Makes =
      let (built, _) = from_query-base_of query qe lo hi in
      let (ra, n) = set_ra-with_ra query qe lo hi in
      (with_ra query qe lo hi, rw (built, ra) refl, with_ra-IsBytes, n)

  pub rcode_reply-Makes : (rc : ℕ) → rc < 256 → Makes qe (rcode_reply query qe rc)
  unfolding rcode_reply with_rcode
  rcode_reply-Makes rc small =
      let (built, _) = from_query-base_of query qe lo hi in
      let (ra, _) = set_ra-with_ra query qe lo hi in
      let (code, n) = set_rcode-with_rcode query qe lo hi rc small in
      (
        with_rcode query qe lo hi rc,
        rw (built, ra, code) refl,
        IsBytes-set (with_ra query qe lo hi) 3 (128 + rc % 16) with_ra-IsBytes (omega arith),
        n,
      )

  -- The header with one answer, and the record.
  with_record :
      (record_of : List ℕ) (n : ℕ)
      → IsBytes record_of
      → length record_of ≡ n
      → IsBytes (one_answer query qe lo hi ++ record_of)
        × (length (one_answer query qe lo hi ++ record_of) ≡ qe + n)
  with_record record_of n b e =
      let (_, l) = one_answer_lem query qe lo hi in
      (
        IsBytes-append (one_answer query qe lo hi) record_of
            (IsBytes-set (with_ra query qe lo hi) 7 1 with_ra-IsBytes (omega arith)) b,
        omega (arith, length-append (one_answer query qe lo hi) record_of),
      )

  pub a_reply-Makes :
      (octets : List ℕ) (ttl : ℕ)
      → IsBytes octets
      → ttl < 2 ^ 32
      → Makes (qe + (12 + length octets)) (a_reply query qe octets ttl)
  unfolding a_reply record_bytes
  a_reply-Makes octets ttl b small =
      let (built, _) = from_query-base_of query qe lo hi in
      let (ra, _) = set_ra-with_ra query qe lo hi in
      let (one, _) = one_answer_lem query qe lo hi in
      let (c, l) =
        with_record (record_bytes 1 ttl 4 octets) (12 + length octets) (ground (arith, b))
          (omega arith) in
      (one_answer query qe lo hi ++ record_bytes 1 ttl 4 octets, rw (built, ra, one) refl, c, l)

  pub aaaa_reply-Makes :
      (octets : List ℕ) (ttl : ℕ)
      → IsBytes octets
      → ttl < 2 ^ 32
      → Makes (qe + (12 + length octets)) (aaaa_reply query qe octets ttl)
  unfolding aaaa_reply record_bytes
  aaaa_reply-Makes octets ttl b small =
      let (built, _) = from_query-base_of query qe lo hi in
      let (ra, _) = set_ra-with_ra query qe lo hi in
      let (one, _) = one_answer_lem query qe lo hi in
      let (c, l) =
        with_record (record_bytes 28 ttl 16 octets) (12 + length octets) (ground (arith, b))
          (omega arith) in
      (one_answer query qe lo hi ++ record_bytes 28 ttl 16 octets, rw (built, ra, one) refl, c, l)
