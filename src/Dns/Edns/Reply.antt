-- ===== src/Dns/Edns/Reply.antt =====
-- What a UDP client is sent in place of a response that is too long for it.
use pathdns.Base.{
  ℕ, ◌+◌, ◌*◌, ◌/◌, ◌%◌, ◌≤◌, ◌<◌, ◌≡◌, ◌∙◌, ◌⊎◌, bit_and, bit_or, List, Bool, true, false, ok,
  Returns-ok, length, arith, Bool-cases, if◌then◌else◌, ltb, leb, ◌||◌, ap, sym, refl, inl, inr,
}
use pathdns.Base.Bytes.{IsBytes, byte, word16, word32, slice, slice_ext, byte-lt}
use pathdns.Base.Bits.{set_tc_bit, tc_bit}
use pathdns.Dns.Header.{is_truncated}
use pathdns.Dns.Name.{skip_name, question_end}
use pathdns.Dns.Name.Walk.{NameAt, skip_name_iff}
use pathdns.Dns.Query.{FastQueryInfo, parse_query_fast}
use pathdns.Dns.Query.Labels.{LabelsAt, root, label}
use pathdns.Dns.Query.Accepts.{IsQuestion, parse_query_fast-IsQuestion}
use pathdns.Dns.Edns.{tc_opt_rr, client_udp_payload_size, has_opt_record, maybe_truncate_for_udp}
use pathdns.Dns.Edns.Opt.{OptAt, client_udp_payload_size_bounds, has_opt_record_total}
use pathdns.Dns.Edns.Truncate.{
  stub_of, stub_length, stub_byte, byte-stub_of_opt, tc_stub-stub_of, byte-stub_of,
}

pub LabelsAt-NameAt : {p : List ℕ} {i e : ℕ} {ls : List (List ℕ)} → LabelsAt p i ls e → NameAt p i e
LabelsAt-NameAt (root a z q) = NameAt.root a z q
LabelsAt-NameAt (label a b c d q r) = NameAt.label a b c d (LabelsAt-NameAt r)

-- Both parsers agree on where an accepted question ends.
pub question_end_of_parse :
    (p : List ℕ) (info : FastQueryInfo)
    → IsBytes p
    → parse_query_fast p ≡ ok info
    → question_end p ≡ ok info.question_end
unfolding question_end
question_end_of_parse p info b e =
    let k : IsQuestion p info = Returns-ok _ _ info (parse_query_fast-IsQuestion p b) e in
    let found : skip_name p 12 ≡ ok (12 + info.qname_wire_hash_end) =
      (skip_name_iff p 12 (12 + info.qname_wire_hash_end) b).1 (LabelsAt-NameAt k.qname) in
    ground (arith, found, k.inside, k.end_at)

tc_bit_set : (b : ℕ) → b < 256 → bit_and (bit_or b 0x02) 0x02 ≡ 2
tc_bit_set b h =
    let e : bit_or b 0x02 ≡ b / 4 * 4 + 2 + b % 2 = set_tc_bit b h in
    tc_bit (bit_or b 0x02) (omega arith) ∙ omega arith

-- Behind the question stands, if at all, an OPT record, type 41, with the root as its owner, that
-- advertises 1232 bytes and has no extended code, flags or data.
abbrev pub HasOpt : List ℕ → ℕ → Bool → Type 0
HasOpt r qe true =
    OptAt r (record { name_end = qe + 1; rdata_start = qe + 11; rdata_end = qe + 11 })
    × (byte r qe ≡ 0)
    × (word16 r (qe + 3) ≡ 1232)
    × (word32 r (qe + 5) ≡ 0)
HasOpt r qe false = length r ≡ qe

stub_of-HasOpt :
    (resp : List ℕ) (qe : ℕ) (edns : Bool)
    → 12 ≤ qe
    → qe ≤ length resp
    → HasOpt (stub_of resp qe edns) qe edns
unfolding word16 word32 byte
stub_of-HasOpt resp qe false h k = (tc_stub-stub_of resp qe false h k).1
stub_of-HasOpt resp qe true h k =
    let n : length (stub_of resp qe true) ≡ qe + 11 = (tc_stub-stub_of resp qe true h k).1 in
    let at_ : (j i : ℕ) → qe + j ≡ i → j < 11 → byte (stub_of resp qe true) i ≡ byte tc_opt_rr j =
      λ j i e l. ap (byte (stub_of resp qe true)) (sym e) ∙ byte-stub_of_opt resp qe j h k l in
    let root = at_ 0 qe (omega arith) (omega arith) in
    let type_high = at_ 1 (qe + 1) refl (omega arith) in
    let type_low = at_ 2 (qe + 1 + 1) (omega arith) (omega arith) in
    let size_high = at_ 3 (qe + 3) refl (omega arith) in
    let size_low = at_ 4 (qe + 3 + 1) (omega arith) (omega arith) in
    let code = at_ 5 (qe + 5) refl (omega arith) in
    let version = at_ 6 (qe + 5 + 1) (omega arith) (omega arith) in
    let flags_high = at_ 7 (qe + 5 + 2) (omega arith) (omega arith) in
    let flags_low = at_ 8 (qe + 5 + 3) (omega arith) (omega arith) in
    let len_high = at_ 9 (qe + 1 + 8) (omega arith) (omega arith) in
    let len_low = at_ 10 (qe + 1 + 8 + 1) (omega arith) (omega arith) in
    (
      record {
        owner = qe;
        name = NameAt.root (omega arith) (root ∙ refl) refl;
        rr_type_at = omega arith;
        rdata_at = omega arith;
        rdata_end_at = omega arith;
        inside = omega arith;
      },
      root,
      omega arith,
      omega arith,
    )

-- A truncated reply to a query whose question ends at `qe`: TC is set, no record is left but perhaps
-- an OPT record, and the id and the question are those of the response.
pub record IsTruncated (resp r : List ℕ) (qe : ℕ) (edns : Bool) : Type 0 where
  pub tc : is_truncated r ≡ true
  pub ancount : word16 r 6 ≡ 0
  pub nscount : word16 r 8 ≡ 0
  pub arcount : word16 r 10 ≡ (if edns then 1 else 0)
  pub same_id : slice r 0 2 ≡ slice resp 0 2
  pub same_question : slice r 12 qe ≡ slice resp 12 qe
  pub size : length r ≡ stub_length qe edns
  pub opt : HasOpt r qe edns

stub_of-IsTruncated :
    (resp : List ℕ) (qe : ℕ) (edns : Bool)
    → IsBytes resp
    → 12 ≤ qe
    → qe ≤ length resp
    → IsTruncated resp (stub_of resp qe edns) qe edns
unfolding word16 is_truncated
stub_of-IsTruncated resp qe edns b h k =
    let (_, n) = tc_stub-stub_of resp qe edns h k in
    let n' : qe ≤ length (stub_of resp qe edns) = ground arith in
    let at_ : (j : ℕ) → j < qe → byte (stub_of resp qe edns) j ≡ stub_byte resp edns j =
      λ j. byte-stub_of resp qe edns j h k in
    record {
      tc = ground (arith, at_ 2 (omega arith), tc_bit_set (byte resp 2) (byte-lt resp 2 b));
      ancount = omega (arith, at_ 6 (omega arith), at_ 7 (omega arith));
      nscount = omega (arith, at_ 8 (omega arith), at_ 9 (omega arith));
      arcount = ground (arith, at_ 10 (omega arith), at_ 11 (omega arith));
      same_id =
          slice_ext (stub_of resp qe edns) resp 0 2 (omega arith) (omega arith) (omega arith)
            (λ j l m. at_ j (omega arith) ∙ ground arith);
      same_question =
          slice_ext (stub_of resp qe edns) resp 12 qe h n' k (λ j l m. at_ j m ∙ ground arith);
      size = n;
      opt = stub_of-HasOpt resp qe edns h k;
    }

-- For a query that `parse_query_fast` accepts and any response, both of bytes,
-- `maybe_truncate_for_udp` returns a packet of at most the size that `client_udp_payload_size`
-- finds in the query: the response unchanged when it fits, and else a reply with TC set, the
-- response's id and question, no answer and authority records, and, exactly when the query has an
-- OPT record, one in the additional section: a whole record of type 41 with the root as its
-- owner, that advertises 1232 bytes and has no extended code, flags or data.
pub maybe_truncate_for_udp-IsTruncated :
    (resp query : List ℕ) (info : FastQueryInfo)
    → IsBytes resp
    → IsBytes query
    → parse_query_fast query ≡ ok info
    → (size : ℕ) × (r : List ℕ) × (edns : Bool) × (client_udp_payload_size query info.question_end
        ≡ ok size)
      × (has_opt_record query info.question_end ≡ ok edns)
      × (maybe_truncate_for_udp resp query ≡ ok r)
      × (length r ≤ size)
      × (((length resp ≤ size) × (r ≡ resp))
          ⊎ ((size < length resp) × IsTruncated resp r info.question_end edns))
unfolding maybe_truncate_for_udp
maybe_truncate_for_udp-IsTruncated resp query info b b' e =
    let k : IsQuestion query info = Returns-ok _ _ info (parse_query_fast-IsQuestion query b') e in
    let qe : ℕ = info.question_end in
    let (size, s, least) = client_udp_payload_size_bounds query qe b' in
    let (edns, o) = has_opt_record_total query qe b' in
    elim (Bool-cases (leb (length resp) size)) [
      | inl fits ↦ (
        size,
        resp,
        edns,
        s,
        o,
        rw (question_end_of_parse query info b' e, s, fits),
        ground arith,
        inl (ground arith, refl),
      )
      | inr long ↦
          let lo : 12 ≤ qe = omega (arith, k.end_at) in
          let hi : qe ≤ length resp = ground (arith, k.end_at, k.short) in
          let (t, n) = tc_stub-stub_of resp qe edns lo hi in
          let room : (ltb (length resp) qe || ltb qe 12) ≡ false = ground arith in
          (
            size,
            stub_of resp qe edns,
            edns,
            s,
            o,
            rw (question_end_of_parse query info b' e, s, long, room, o, t),
            ground (arith, k.end_at, k.short),
            inr (ground arith, stub_of-IsTruncated resp qe edns b lo hi),
          )
    ]
