-- ===== src/Dns/Builder/Headers.antt =====
-- The header of a locally made response (src/dns/builder.rs).
use pathdns.Base.{
  ℕ, ◌+◌, ◌-◌, ◌%◌, ◌≤◌, ◌<◌, ◌≡◌, ◌∙◌, ap, bit_and, bit_or, List, true, false, ◌||◌, ok, ltb, ◌==◌,
  if◌then◌else◌, length, length-take, set, take, arith,
}
use pathdns.Base.Bytes.{
  IsBytes, byte, word16, slice, at_lem, slice_lem, slice_ext, byte-lt, byte-take, put-set, byte-set,
}
use pathdns.Base.Bits.{reply_flags, ra_rcode, low_nibble, top_bit}
use pathdns.Base.Writes.{sets, written, InBounds, puts-sets, length-sets, byte-sets}
use pathdns.Dns.Header.{is_reply, rcode}
use pathdns.Dns.Builder.{from_query_writes, from_query, set_ra, set_rcode, rcode_reply}

-- The buffer of `from_query`.
unfoldable pub base_of : List ℕ → ℕ → List ℕ
base_of query qe = sets (take qe query) (from_query_writes (byte query 2))

module _ (query : List ℕ) (qe : ℕ) (lo : 12 ≤ qe) (hi : qe ≤ length query) where
  length-front : length (take qe query) ≡ qe
  length-front = omega (arith, length-take qe query)

  in_bounds : InBounds (length (take qe query)) (from_query_writes (byte query 2))
  in_bounds = let e = length-front in omega arith

  pub from_query-base_of :
      (from_query query qe ≡ ok (base_of query qe)) × (length (base_of query qe) ≡ qe)
  unfolding from_query base_of
  from_query-base_of =
      let room : (ltb (length query) 12 || ltb qe 12 || ltb (length query) qe) ≡ false =
        ground arith in
      let z : qe - 0 ≡ qe = omega arith in
      (
        rw (
          room,
          slice_lem query 0 qe (omega arith) hi,
          z,
          at_lem query 2 (omega arith),
          puts-sets (take qe query) _ in_bounds,
        ),
        length-sets (take qe query) _ ∙ length-front,
      )

  pub byte-base_of :
      (j : ℕ)
      → j < qe
      → byte (base_of query qe) j ≡ written (from_query_writes (byte query 2)) j (byte query j)
  unfolding base_of
  byte-base_of j h =
      byte-sets (take qe query) (from_query_writes (byte query 2)) j in_bounds
      ∙ ap (written (from_query_writes (byte query 2)) j) (byte-take qe query j h)

  unfoldable pub with_ra : List ℕ
  with_ra = set (base_of query qe) 3 0x80

  pub set_ra-with_ra : (set_ra (base_of query qe) ≡ ok with_ra) × (length with_ra ≡ qe)
  unfolding set_ra with_ra
  set_ra-with_ra =
      let (_, n) = from_query-base_of in
      let (p, m) = put-set qe (base_of query qe) 3 0x80 n (omega arith) in
      (rw (at_lem (base_of query qe) 3 (omega arith), byte-base_of 3 (omega arith), p), m)

  unfoldable pub with_rcode : ℕ → List ℕ
  with_rcode rc = set with_ra 3 (128 + rc % 16)

  pub set_rcode-with_rcode :
      (rc : ℕ)
      → rc < 256
      → (set_rcode with_ra rc ≡ ok (with_rcode rc)) × (length (with_rcode rc) ≡ qe)
  unfolding set_rcode with_rcode with_ra
  set_rcode-with_rcode rc small =
      let (_, n) = from_query-base_of in
      let (_, m) = set_ra-with_ra in
      let (p, l) = put-set qe with_ra 3 (128 + rc % 16) m (omega arith) in
      let b : byte with_ra 3 ≡ 0x80 = byte-set (base_of query qe) 3 3 0x80 (omega arith) in
      let v : bit_or 0x80 (bit_and rc 0x0f) ≡ 128 + rc % 16 =
        rw (low_nibble rc small) (ra_rcode (rc % 16) (omega arith)) in
      (rw (at_lem with_ra 3 (omega arith), b, v, p), l)

  byte-with_rcode :
      (rc j : ℕ)
      → j < qe
      → byte (with_rcode rc) j ≡ (
          if j == 3
          then 128 + rc % 16
          else written (from_query_writes (byte query 2)) j (byte query j))
  unfolding with_rcode with_ra
  byte-with_rcode rc j h =
      let (_, n) = from_query-base_of in
      let (_, m) = set_ra-with_ra in
      rw
        (
          byte-set with_ra 3 j (128 + rc % 16) (omega arith),
          byte-set (base_of query qe) 3 j 0x80 (omega arith),
          byte-base_of j h,
        )
        (ground arith)

-- A reply without records: its id, question and RD are the query's, it is a response with RA and
-- the given RCODE, and all other flags and counts are those of a response with one question.
pub record IsReplyTo (query : List ℕ) (qe rc : ℕ) (r : List ℕ) : Type 0 where
  pub size : length r ≡ qe
  pub reply : is_reply r ≡ true
  pub code : rcode r ≡ rc % 16
  pub flags : (byte r 2 ≡ 128 + byte query 2 % 2) × (byte r 3 ≡ 128 + rc % 16)
  pub same_id : slice r 0 2 ≡ slice query 0 2
  pub same_question : slice r 12 qe ≡ slice query 12 qe
  pub counts : (word16 r 4 ≡ 1) × (word16 r 6 ≡ 0) × (word16 r 8 ≡ 0) × (word16 r 10 ≡ 0)

with_rcode-IsReplyTo :
    (query : List ℕ) (qe : ℕ) (lo : 12 ≤ qe) (hi : qe ≤ length query) (rc : ℕ)
    → IsBytes query
    → rc < 256
    → IsReplyTo query qe rc (with_rcode query qe lo hi rc)
unfolding word16 is_reply rcode
with_rcode-IsReplyTo query qe lo hi rc b small =
    let r = with_rcode query qe lo hi rc in
    let n : length r ≡ qe = (set_rcode-with_rcode query qe lo hi rc small).1 in
    let at_ = byte-with_rcode query qe lo hi rc in
    let b2 : byte r 2 ≡ 128 + byte query 2 % 2 =
      at_ 2 (omega arith) ∙ reply_flags (byte query 2) (byte-lt query 2 b) in
    record {
      size = n;
      reply = ground (arith, b2, top_bit (byte r 2) (omega arith));
      code =
          ground (
            arith,
            at_ 3 (omega arith),
            low_nibble (byte r 3) (omega (arith, at_ 3 (omega arith))),
          );
      flags = (b2, at_ 3 (omega arith));
      same_id =
          slice_ext r query 0 2 (omega arith) (omega arith) (omega arith)
            (λ j l m. at_ j (omega arith) ∙ ground arith);
      same_question = slice_ext r query 12 qe lo (omega arith) hi (λ j l m. at_ j m ∙ ground arith);
      counts = (
        omega (arith, at_ 4 (omega arith), at_ 5 (omega arith)),
        omega (arith, at_ 6 (omega arith), at_ 7 (omega arith)),
        omega (arith, at_ 8 (omega arith), at_ 9 (omega arith)),
        omega (arith, at_ 10 (omega arith), at_ 11 (omega arith)),
      );
    }

-- For a query of bytes, a question end between 12 and its length and a code below 256,
-- `rcode_reply` returns a packet that is a reply to the query with that code, in the sense of
-- `IsReplyTo`.
pub rcode_reply-IsReplyTo :
    (query : List ℕ) (qe rc : ℕ)
    → IsBytes query
    → 12 ≤ qe
    → qe ≤ length query
    → rc < 256
    → (r : List ℕ) × (rcode_reply query qe rc ≡ ok r) × IsReplyTo query qe rc r
unfolding rcode_reply
rcode_reply-IsReplyTo query qe rc b lo hi small =
    let (built, _) = from_query-base_of query qe lo hi in
    let (ra, _) = set_ra-with_ra query qe lo hi in
    let (set_, n) = set_rcode-with_rcode query qe lo hi rc small in
    (
      with_rcode query qe lo hi rc,
      rw (built, ra, set_),
      with_rcode-IsReplyTo query qe lo hi rc b small,
    )
