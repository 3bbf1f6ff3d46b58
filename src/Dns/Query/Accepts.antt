-- ===== src/Dns/Query/Accepts.antt =====
-- What `parse_query_fast` of src/dns/query.rs accepts, and the hash that it computes on the way.
use pathdns.Base.{
  ℕ, zero, suc, ◌+◌, ◌-◌, ◌/◌, ◌^◌, ◌≤◌, ◌<◌, ◌≡◌, ◌⊎◌, ◌↔◌, List, [], ◌∷◌, bit_and, true, false,
  Outcome, ok, reject, Returns, Returns-bind, Returns-mono, Returns-cases, ltb, ◌==◌, length,
  length-take, length-drop, take, drop, arith, refl, inl, inr, Bool-cases,
}
use pathdns.Base.Bytes.{IsBytes, byte, word16, slice, byte-lt, at_lem, slice_lem, u16_at_lem}
use pathdns.Base.Bits.{label_kind, top_bit, low_nibble}
use pathdns.Hasher
use pathdns.Hasher.{write_byte, write_lowered}
use pathdns.Dns.Header.{is_query, get_id}
use pathdns.Dns.Query.{FastQueryInfo, skip_query_loop, skip_query_question, parse_query_fast}
use pathdns.Dns.Query.Labels.{LabelsAt, root, label, hash_labels, LabelsAt-bounds}

-- How the loop ends: behind a name, with its hash, or at the packet's end.
LoopEnd : List ℕ → ℕ → ℕ → ℕ → ℕ × ℕ → Type 0
LoopEnd p start i h r =
    ((ls : List (List ℕ)) × LabelsAt p i ls r.0 × (r.1 ≡ hash_labels h ls) × (r.0 ≤ start + 255))
    ⊎ (length p ≤ r.0)

LoopEnd-root :
    (p : List ℕ) (start i h : ℕ)
    → i < length p
    → byte p i ≡ 0
    → i + 1 ≤ start + 255
    → LoopEnd p start i h (i + 1, write_byte h (byte p i))
unfolding LoopEnd hash_labels
LoopEnd-root p start i h a z k = inl ([], root a z refl, rw z, k)

unfoldable pub label_of : List ℕ → ℕ → List ℕ
label_of p i = take (byte p i) (drop (i + 1) p)

pub label_of_eq :
    (p : List ℕ) (i : ℕ) {l : List ℕ} → take (byte p i) (drop (i + 1) p) ≡ l → label_of p i ≡ l
unfolding label_of
label_of_eq p i e = e

pub length-label_of :
    (p : List ℕ) (i : ℕ) → i + 1 + byte p i ≤ length p → length (label_of p i) ≡ byte p i
unfolding label_of
length-label_of p i h =
    omega (arith, length-take (byte p i) (drop (i + 1) p), length-drop (i + 1) p)

LoopEnd-label :
    (p : List ℕ) (start i h : ℕ) (r : ℕ × ℕ)
    → i < length p
    → 0 < byte p i
    → byte p i < 64
    → i + 1 + byte p i ≤ length p
    → LoopEnd p start (i + 1 + byte p i) (write_lowered (write_byte h (byte p i)) (label_of p i)) r
    → LoopEnd p start i h r
unfolding LoopEnd hash_labels label_of
LoopEnd-label p start i h r a b c d (inl (ls, at_rest, e, k)) =
    inl (label_of p i ∷ ls, label a b c d refl at_rest, rw (length-label_of p i d) e, k)
LoopEnd-label p start i h r a b c d (inr k) = inr k

LoopEnd-label_mono :
    (p : List ℕ) (start i h : ℕ) (m : Outcome (ℕ × ℕ))
    → i < length p
    → 0 < byte p i
    → byte p i < 64
    → i + 1 + byte p i ≤ length p
    → Returns
        (λ r.
          LoopEnd p start
            (i + 1 + byte p i)
            (write_lowered (write_byte h (byte p i)) (label_of p i))
            r)
        m
    → Returns (λ r. LoopEnd p start i h r) m
LoopEnd-label_mono p start i h m a b c d =
    Returns-mono _ _ m (λ r. LoopEnd-label p start i h r a b c d)

LoopEnd-out : (p : List ℕ) (start i h : ℕ) → length p ≤ i → LoopEnd p start i h (i, h)
unfolding LoopEnd
LoopEnd-out p start i h k = inr k

pub slice-label_of :
    (p : List ℕ) (i : ℕ)
    → i + 1 + byte p i ≤ length p
    → slice p (i + 1) (i + 1 + byte p i) ≡ ok (label_of p i)
unfolding label_of slice
slice-label_of p i h =
    let e : i + 1 + byte p i - (i + 1) ≡ byte p i = omega arith in
    rw (slice_lem p (i + 1) (i + 1 + byte p i) (omega arith) h, e)

skip_query_loop-LoopEnd :
    (fuel : ℕ) (p : List ℕ) (start i h : ℕ)
    → IsBytes p
    → length p < fuel + i
    → 0 < fuel
    → start ≤ i
    → i + 1 ≤ start + 255
    → Returns (λ r. LoopEnd p start i h r) (skip_query_loop fuel p start i h)
unfolding skip_query_loop
skip_query_loop-LoopEnd zero p start i h b m z st k = absurd (omega arith)
skip_query_loop-LoopEnd (suc f) p start i h b m z st k = ground (
  arith,
  LoopEnd-out p start i h,
  LoopEnd-root p start i h,
  at_lem p i,
  byte-lt p i b,
  label_kind (byte p i) (byte-lt p i b),
  slice-label_of p i,
  LoopEnd-label_mono p start i h (
      skip_query_loop f p start (i + 1 + byte p i)
        (write_lowered (write_byte h (byte p i)) (label_of p i))),
  skip_query_loop-LoopEnd f p start (i + 1 + byte p i)
      (write_lowered (write_byte h (byte p i)) (label_of p i)) b,
)

-- What an accepted query is, in its bytes: the QR bit clear, opcode QUERY, one question, whose name
-- is uncompressed and at most 255 bytes long, and what the parser says of it.
pub record IsQuestion (p : List ℕ) (info : FastQueryInfo) : Type 0 where
  pub labels : List (List ℕ)
  pub qname : LabelsAt p 12 labels (12 + info.qname_wire_hash_end)
  pub short : info.qname_wire_hash_end ≤ 255
  pub query : byte p 2 / 8 ≡ 0
  pub one_question : word16 p 4 ≡ 1
  pub end_at : info.question_end ≡ 12 + info.qname_wire_hash_end + 4
  pub inside : info.question_end ≤ length p
  pub hash_at : info.qname_wire_hash ≡ hash_labels Hasher.new labels
  pub qtype_at : info.qtype ≡ word16 p (12 + info.qname_wire_hash_end)
  pub id_at : info.id ≡ word16 p 0

skip_query_question-Returns :
    (p : List ℕ)
    → IsBytes p
    → 12 ≤ length p
    → Returns
        (λ r.
          (ls : List (List ℕ)) × LabelsAt p 12 ls (12 + r.2)
          × (r.1 ≡ hash_labels Hasher.new ls)
          × (r.2 ≤ 255)
          × (r.0 ≡ 12 + r.2 + 4)
          × (r.0 ≤ length p)
          × (1 ≤ r.2))
        (skip_query_question p 12)
unfolding skip_query_question
skip_query_question-Returns p b h =
    Returns-bind (λ r. LoopEnd p 12 12 Hasher.new r) _
      (skip_query_loop (suc (length p)) p 12 12 Hasher.new) _
      (skip_query_loop-LoopEnd (suc (length p)) p 12 12 Hasher.new b (omega arith) (omega arith)
        (omega arith) (omega arith))
      λ r e k. elim (Bool-cases (ltb (length p) (r.0 + 4))) [
        | inl long ↦ rw long tt
        | inr fits ↦ rw fits (finish r (unfold LoopEnd in k) fits)
      ]
  where
    finish :
        (r : ℕ × ℕ)
        → ((ls : List (List ℕ)) × LabelsAt p 12 ls r.0
            × (r.1 ≡ hash_labels Hasher.new ls)
            × (r.0 ≤ 12 + 255))
          ⊎ (length p ≤ r.0)
        → ltb (length p) (r.0 + 4) ≡ false
        → (ls : List (List ℕ)) × LabelsAt p 12 ls (12 + (r.0 - 12))
          × (r.1 ≡ hash_labels Hasher.new ls)
          × (r.0 - 12 ≤ 255)
          × (r.0 + 4 ≡ 12 + (r.0 - 12) + 4)
          × (r.0 + 4 ≤ length p)
          × (1 ≤ r.0 - 12)
    finish r (inl (ls, at_name, e, k)) f =
        let (lo, hi) = LabelsAt-bounds at_name in
        let q : 12 + (r.0 - 12) ≡ r.0 = omega arith in
        (ls, rw q at_name, e, omega arith, omega arith, ground arith, omega arith)
    finish r (inr k) f = absurd (ground arith)

pub is_query_iff :
    (p : List ℕ) → IsBytes p → (is_query p ≡ true) ↔ ((12 ≤ length p) × (byte p 2 < 128))
unfolding is_query
is_query_iff p b = ground (arith, byte-lt p 2 b, top_bit (byte p 2) (byte-lt p 2 b))

opcode_iff : (b : ℕ) → b < 128 → ((bit_and (b / 2 ^ 3) 0x0f == 0) ≡ true) ↔ (b / 8 ≡ 0)
opcode_iff b h = ground (arith, low_nibble (b / 8) (omega arith))

get_id_lem : (p : List ℕ) → 12 ≤ length p → get_id p ≡ ok (word16 p 0)
unfolding get_id
get_id_lem p h = ground (arith, u16_at_lem p 0)

-- The parser once the question has been found.
pub parse_query_fast-header :
    (p : List ℕ) (qend h hash_end : ℕ)
    → IsBytes p
    → 12 ≤ length p
    → byte p 2 / 8 ≡ 0
    → word16 p 4 ≡ 1
    → skip_query_question p 12 ≡ ok (qend, h, hash_end)
    → qend ≤ length p
    → qend ≡ 12 + hash_end + 4
    → parse_query_fast p
      ≡ ok (record {
        id = word16 p 0;
        qtype = word16 p (12 + hash_end);
        question_end = qend;
        qname_wire_hash = h;
        qname_wire_hash_end = hash_end;
      })
unfolding parse_query_fast
parse_query_fast-header p qend h hash_end b l op qd e k q =
    let q' : qend - 4 ≡ 12 + hash_end = omega arith in
    rw ((is_query_iff p b).1 (l, omega arith), at_lem p 2 (omega arith))
      (rw ((opcode_iff (byte p 2) (omega arith)).1 op, u16_at_lem p 4 (omega arith), qd, e)
        (rw (q', u16_at_lem p (12 + hash_end) (omega arith), get_id_lem p l)))

parse_query_fast-reject :
    (p : List ℕ)
    → IsBytes p
    → ((12 ≤ length p) × (byte p 2 / 8 ≡ 0) × (word16 p 4 ≡ 1)) ⊎ (parse_query_fast p ≡ reject)
unfolding parse_query_fast
parse_query_fast-reject p b = elim (Bool-cases (is_query p)) [
  | inr e ↦ inr (rw e)
  | inl e ↦
      let (l, small) = (is_query_iff p b).0 e in
      elim (Bool-cases (bit_and (byte p 2 / 2 ^ 3) 0x0f == 0)) [
        | inr f ↦ inr (rw (e, at_lem p 2 (omega arith), f))
        | inl f ↦ elim (Bool-cases (word16 p 4 == 1)) [
          | inr g ↦ inr (rw (e, at_lem p 2 (omega arith), f, u16_at_lem p 4 (omega arith), g))
          | inl g ↦ inl (l, (opcode_iff (byte p 2) small).0 f, ground arith)
        ]
      ]
]

-- On any packet of bytes `parse_query_fast` ends without a panic, and when it returns, the packet
-- has the QR bit clear, opcode 0 and one question, whose uncompressed name of at most 255 bytes
-- ends where the result says, followed by type and class inside the packet, and the returned hash
-- is that of the lowercased labels.
pub parse_query_fast-IsQuestion :
    (p : List ℕ) → IsBytes p → Returns (λ info. IsQuestion p info) (parse_query_fast p)
parse_query_fast-IsQuestion p b = elim (parse_query_fast-reject p b) [
  | inr e ↦ rw e tt
  | inl (l, op, qd) ↦
      elim (Returns-cases _ (skip_query_question p 12) (skip_query_question-Returns p b l)) [
        | inr e ↦
            unfold parse_query_fast in
            rw
              (
                (is_query_iff p b).1 (l, omega arith),
                at_lem p 2 (omega arith),
                (opcode_iff (byte p 2) (omega arith)).1 op,
                u16_at_lem p 4 (omega arith),
                qd,
                e,
              )
              tt
        | inl ((qend, h, hash_end), e, (ls, name, hash, short, q, k, _)) ↦
            rw (parse_query_fast-header p qend h hash_end b l op qd e k q) (record {
              labels = ls;
              qname = name;
              short = short;
              query = op;
              one_question = qd;
              end_at = q;
              inside = k;
              hash_at = hash;
              qtype_at = refl;
              id_at = refl;
            })
      ]
]
