-- ===== src/Dns/Query/Hash.antt =====
-- The hash of the validating walk against the reference, `write_qname_wire` of src/hasher.rs.
use pathdns.Base.{
  ℕ, zero, suc, ◌+◌, ◌-◌, ◌≤◌, ◌<◌, ◌≡◌, ◌∙◌, ap, min, List, ok, ◌>>=◌, length, length-take,
  length-drop, take, drop, take-drop-take, drop-drop, get_or-take, get_or-drop, arith, refl,
  Returns-ok,
}
use pathdns.Base.Bytes.{IsBytes, byte, slice, slice_lem}
use pathdns.Hasher
use pathdns.Hasher.{write_byte, write_lowered, write_qname_wire_loop, write_qname_wire}
use pathdns.Dns.Query.{FastQueryInfo, parse_query_fast}
use pathdns.Dns.Query.Labels.{LabelsAt, root, label, hash_labels, LabelsAt-bounds}
use pathdns.Dns.Query.Accepts.{
  label_of, label_of_eq, length-label_of, slice-label_of, IsQuestion, parse_query_fast-IsQuestion,
}

write_qname_wire_loop_of_LabelsAt :
    (fuel : ℕ) (q : List ℕ) (h : ℕ) {i e : ℕ} {ls : List (List ℕ)}
    → LabelsAt q i ls e
    → length q < fuel + i
    → write_qname_wire_loop fuel q i h ≡ ok (e, hash_labels h ls)
unfolding write_qname_wire_loop hash_labels
write_qname_wire_loop_of_LabelsAt zero q h r m = absurd (omega (arith, LabelsAt-bounds r))
write_qname_wire_loop_of_LabelsAt (suc f) q h {i} (root a z e) m = ground arith
write_qname_wire_loop_of_LabelsAt (suc f) q h {i} (label a c d l e r) m =
    let stop : min (i + 1 + byte q i) (length q) ≡ i + 1 + byte q i = omega arith in
    ground (
      arith,
      stop,
      slice-label_of q i l,
      length-label_of q i l,
      label_of_eq q i e,
      write_qname_wire_loop_of_LabelsAt f q (write_lowered (write_byte h (byte q i)) (label_of q i))
          r (omega arith),
    )

-- The question section of a packet, `packet[12..12 + m]`.
question : List ℕ → ℕ → List ℕ
question p m = take m (drop 12 p)

length-question : (p : List ℕ) (m : ℕ) → 12 + m ≤ length p → length (question p m) ≡ m
unfolding question
length-question p m h = omega (arith, length-take m (drop 12 p), length-drop 12 p)

byte-question : (p : List ℕ) (m i j : ℕ) → 12 + i ≡ j → i < m → byte (question p m) i ≡ byte p j
unfolding question byte
byte-question p m i j e h = get_or-take m (drop 12 p) i 0 h ∙ get_or-drop 12 p i j 0 e

piece-question :
    (p : List ℕ) (m i j n : ℕ)
    → 12 + i ≡ j
    → i + n ≤ m
    → take n (drop i (question p m)) ≡ take n (drop j p)
unfolding question
piece-question p m i j n e h =
    take-drop-take n i m (drop 12 p) h ∙ ap (take n) (drop-drop 12 i j p e)

-- A name inside the question section is a name of that slice.
LabelsAt-question :
    (p : List ℕ) (m i : ℕ) {j f : ℕ} {ls : List (List ℕ)}
    → LabelsAt p j ls f
    → 12 + i ≡ j
    → f ≤ 12 + m
    → 12 + m ≤ length p
    → LabelsAt (question p m) i ls (f - 12)
LabelsAt-question p m i {j} (root a z e) at_j k fits =
    root (omega (arith, length-question p m fits)) (byte-question p m i j at_j (omega arith) ∙ z)
      (omega arith)
LabelsAt-question p m i {j} (label a c d l e r) at_j k fits =
    let (lo, hi) = LabelsAt-bounds r in
    let here : byte (question p m) i ≡ byte p j = byte-question p m i j at_j (omega arith) in
    label (omega (arith, length-question p m fits)) (omega arith) (omega arith)
      (omega (arith, length-question p m fits))
      (rw here (piece-question p m (i + 1) (j + 1) (byte p j) (omega arith) (omega arith) ∙ e))
      (LabelsAt-question p m (i + 1 + byte (question p m) i) r (omega arith) k fits)

-- When `parse_query_fast` accepts a packet of bytes, its hash and the offset where the hash's
-- coverage ends are those that `Fnv1a::write_qname_wire` computes on the question section on its
-- own.
pub qname_wire_hash-write_qname_wire :
    (p : List ℕ) (info : FastQueryInfo)
    → IsBytes p
    → parse_query_fast p ≡ ok info
    → (slice p 12 info.question_end >>= write_qname_wire Hasher.new)
      ≡ ok (info.qname_wire_hash_end, info.qname_wire_hash)
unfolding write_qname_wire question
qname_wire_hash-write_qname_wire p info b e =
    let k : IsQuestion p info = Returns-ok _ _ info (parse_query_fast-IsQuestion p b) e in
    let m : ℕ = info.question_end - 12 in
    let n : ℕ = info.qname_wire_hash_end in
    let fits : 12 + m ≤ length p = omega (arith, k.inside, k.end_at) in
    let name : LabelsAt (question p m) 0 k.labels (12 + n - 12) =
      LabelsAt-question p m 0 k.qname refl (omega (arith, k.end_at)) fits in
    let n' : 12 + n - 12 ≡ n = omega arith in
    rw (slice_lem p 12 info.question_end (omega (arith, k.end_at)) k.inside, k.hash_at)
      (write_qname_wire_loop_of_LabelsAt (suc (length (question p m))) (question p m) Hasher.new
          name (omega arith)
        ∙ rw n')
