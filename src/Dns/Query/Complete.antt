-- ===== src/Dns/Query/Complete.antt =====
-- Every well-formed standard query is accepted by `parse_query_fast` of src/dns/query.rs.
use pathdns.Base.{ℕ, zero, suc, ◌+◌, ◌-◌, ◌/◌, ◌≤◌, ◌<◌, ◌≡◌, List, ok, length, arith, refl}
use pathdns.Base.Bytes.{IsBytes, byte, word16, byte-lt, at_lem}
use pathdns.Base.Bits.{label_kind}
use pathdns.Hasher
use pathdns.Hasher.{write_byte, write_lowered}
use pathdns.Dns.Query.{skip_query_loop, question_tail, skip_query_question, parse_query_fast}
use pathdns.Dns.Query.Labels.{LabelsAt, root, label, hash_labels, LabelsAt-bounds}
use pathdns.Dns.Query.Accepts.{
  label_of, label_of_eq, length-label_of, slice-label_of, parse_query_fast-header,
}

skip_query_loop_of_LabelsAt :
    (fuel : ℕ) (p : List ℕ) (start h : ℕ) {i e : ℕ} {ls : List (List ℕ)}
    → IsBytes p
    → LabelsAt p i ls e
    → length p < fuel + i
    → start ≤ i
    → e ≤ start + 255
    → skip_query_loop fuel p start i h ≡ ok (e, hash_labels h ls)
unfolding skip_query_loop hash_labels
skip_query_loop_of_LabelsAt zero p start h b r m st k = absurd (omega (arith, LabelsAt-bounds r))
skip_query_loop_of_LabelsAt (suc f) p start h {i} b (root a z q) m st k = ground (arith, at_lem p i)
skip_query_loop_of_LabelsAt (suc f) p start h {i} {e} b (label {ls = rest} a c d l q r) m st k =
    ground (
      arith,
      at_lem p i,
      byte-lt p i b,
      label_kind (byte p i) (byte-lt p i b),
      slice-label_of p i l,
      length-label_of p i l,
      label_of_eq p i q,
      LabelsAt-bounds r,
      skip_query_loop_of_LabelsAt f p start (write_lowered (write_byte h (byte p i)) (label_of p i))
          b r (omega arith) (omega arith) k,
    )

-- A packet of bytes with the QR bit clear, opcode 0 and one question, whose uncompressed name
-- takes at most 255 bytes and is followed by a whole type and class, is accepted by
-- `parse_query_fast`, with the result written out.
pub parse_query_fast_of_LabelsAt :
    (p : List ℕ) (n : ℕ) (labels : List (List ℕ))
    → IsBytes p
    → byte p 2 / 8 ≡ 0
    → word16 p 4 ≡ 1
    → LabelsAt p 12 labels (12 + n)
    → n ≤ 255
    → 12 + n + 4 ≤ length p
    → parse_query_fast p
      ≡ ok (record {
        id = word16 p 0;
        qtype = word16 p (12 + n);
        question_end = 12 + n + 4;
        qname_wire_hash = hash_labels Hasher.new labels;
        qname_wire_hash_end = n;
      })
parse_query_fast_of_LabelsAt p n ls b op qd r short fits =
    parse_query_fast-header p (12 + n + 4) (hash_labels Hasher.new ls) n b (omega arith) op qd found
      fits refl
  where
    loop :
        skip_query_loop (suc (length p)) p 12 12 Hasher.new ≡ ok (12 + n, hash_labels Hasher.new ls)
    loop =
        skip_query_loop_of_LabelsAt (suc (length p)) p 12 Hasher.new b r (omega arith) (omega arith)
          (omega arith)

    tail : question_tail p (12 + n) ≡ ok (12 + n + 4)
    tail = unfold question_tail in ground arith

    covered : 12 + n - 12 ≡ n
    covered = omega arith

    found : skip_query_question p 12 ≡ ok (12 + n + 4, hash_labels Hasher.new ls, n)
    found = unfold skip_query_question in rw (loop) (rw (tail, covered))
