-- ===== src/Inflight/Complete.antt =====
-- `complete` of src/upstream/inflight.rs: what a packet from the upstream does.
use pathdns.Inflight.Table.{in_flight}
use pathdns.Base.{
  ltb, leb, set, Returns, Returns-cases, ok, length, bit_and, not, ℕ, ◌+◌, ◌%◌, ◌/◌, ◌^◌, ◌≤◌, ◌≡◌,
  ◌∙◌, inl, inr, List, [], ◌∷◌, ◌++◌, true, false, none, some, ◌==◌, if◌then◌else◌, Option-cases,
  Bool-cases, arith, refl, ap,
}
use pathdns.Base.Bytes.{get_range, IsBytes, word16, byte, at_lem, u16_at_lem, put-set}
use pathdns.Dns.Header.{is_reply, get_id, set_id}
use pathdns.Dns.Name.{question_end, skip_name}
use pathdns.Dns.Name.Walk.{NameAt, skip_name-NameAt}
use pathdns.Dns.Question.{questions_match, questions_match_total}
use pathdns.Base.Assoc.{lookup, lookup-set_erase}
use pathdns.Inflight.{
  Entry, InflightRegistry, shard, complete, complete_entry, complete_id, Completion, delivered,
  no_waiter, mismatch, resp_question,
}

-- The id, opcode and question count of a packet that `complete` looks at, and the question.
pub record Answers (r : InflightRegistry) (packet : List ℕ) (id : ℕ) (entry : Entry) : Type 0 where
  pub reply : is_reply packet ≡ true
  pub id_at : word16 packet 0 ≡ id
  pub one_question : word16 packet 4 ≡ 1
  pub waits : in_flight r id ≡ some entry

-- What `complete` comes to.
abbrev pub IsCompleted : InflightRegistry → List ℕ → InflightRegistry × List ℕ × Completion → Type 0
IsCompleted r packet (r', packet', no_waiter) = (r' ≡ r) × (packet' ≡ packet)
IsCompleted r packet (r', packet', mismatch id) =
    (r' ≡ r)
    × (packet' ≡ packet)
    × ((entry : Entry) × (q : List ℕ) × Answers r packet id entry
        × (resp_question packet ≡ ok q)
        × (questions_match q entry.question ≡ ok false))
IsCompleted r packet (r', packet', delivered) =
    (id : ℕ) × (entry : Entry) × (q : List ℕ) × Answers r packet id entry
    × (resp_question packet ≡ ok q)
    × (questions_match q entry.question ≡ ok true)
    × (set_id packet entry.client_id ≡ ok packet')
    × ((j : ℕ) → in_flight r' j ≡ (if id == j then none else in_flight r j))
    × (r'.log ≡ r.log ++ ((entry.tx, packet') ∷ []))
    × (r'.cap ≡ r.cap)
    × (r'.next_token ≡ r.next_token)

is_reply-length : (packet : List ℕ) → is_reply packet ≡ true → 12 ≤ length packet
unfolding is_reply
is_reply-length packet h = ground arith

get_id_lem : (packet : List ℕ) → 2 ≤ length packet → get_id packet ≡ ok (word16 packet 0)
unfolding get_id
get_id_lem packet h = ground (arith, u16_at_lem packet 0)

resp_question_total :
    (packet : List ℕ) → IsBytes packet → (q : List ℕ) × (resp_question packet ≡ ok q)
unfolding resp_question question_end
resp_question_total packet b = elim (Bool-cases (leb 12 (length packet))) [
  | inr h ↦ rw (h) ([], refl)
  | inl h ↦
      elim (Returns-cases (λ e. NameAt packet 12 e) (skip_name packet 12)
        (skip_name-NameAt packet 12 b)) [
          | inr e ↦ rw (h, e) ([], refl)
          | inl (n, e, r) ↦ elim (Bool-cases (leb (n + 4) (length packet))) [
            | inr k ↦ rw (h, e, k) ([], refl)
            | inl k ↦ rw (h, e, k) (get_range packet 12 (n + 4), refl)
          ]
        ]
]

set_id_total :
    (packet : List ℕ) (id : ℕ) → 2 ≤ length packet → (p : List ℕ) × (set_id packet id ≡ ok p)
unfolding set_id
set_id_total packet id h =
    let (a, n) = put-set (length packet) packet 0 (id / 256) refl (omega arith) in
    let (c, m) = put-set (length packet) (set packet 0 (id / 256)) 1 (id % 256) n (omega arith) in
    let g : not (ltb (length packet) 2) ≡ true = ground arith in
    (set (set packet 0 (id / 256)) 1 (id % 256), rw (set_id, g, a, c) refl)

complete_entry-IsCompleted :
    (r : InflightRegistry) (packet : List ℕ) (id : ℕ) (entry : Entry)
    → IsBytes packet
    → 12 ≤ length packet
    → Answers r packet id entry
    → Returns (IsCompleted r packet) (complete_entry r packet id entry)
unfolding complete_entry in_flight
complete_entry-IsCompleted r packet id entry b h a =
    let (q, e) = resp_question_total packet b in
    let (p, s) = set_id_total packet entry.client_id (omega arith) in
    let (found, m) = questions_match_total q entry.question in
    elim (Bool-cases found) [
      | inl t ↦
          let m' : questions_match q entry.question ≡ ok true = m ∙ ap ok t in
          rw (e, m', s)
            (
              id,
              entry,
              q,
              a,
              e,
              m',
              s,
              (λ j. lookup-set_erase shard r.shards id j),
              refl,
              refl,
              refl,
            )
      | inr t ↦
          let m' : questions_match q entry.question ≡ ok false = m ∙ ap ok t in
          rw (e, m') (refl, refl, (entry, q, a, e, m'))
    ]

complete_id-IsCompleted :
    (r : InflightRegistry) (packet : List ℕ)
    → IsBytes packet
    → is_reply packet ≡ true
    → word16 packet 4 ≡ 1
    → Returns (IsCompleted r packet) (complete_id r packet (word16 packet 0))
unfolding complete_id in_flight
complete_id-IsCompleted r packet b y c =
    elim (Option-cases (lookup (word16 packet 0) (r.shards (shard (word16 packet 0))))) [
      | inl e ↦ rw (e, complete_id) (refl, refl)
      | inr (entry, e) ↦
          rw (e, complete_id)
            (complete_entry-IsCompleted r packet (word16 packet 0) entry b
              (is_reply-length packet y)
              (record { reply = y; id_at = refl; one_question = c; waits = e }))
    ]

-- On any packet of bytes `complete` ends without a panic. If it answers no waiter or a mismatch,
-- the registry and the packet stay as they are, and at a mismatch the question of the packet
-- differs from that of the entry under its id; if it delivers, the packet is a reply with one
-- question that matches the entry under its id, that entry alone is removed, and what is sent
-- into its channel is the packet with the client's id.
pub complete-IsCompleted :
    (r : InflightRegistry) (packet : List ℕ)
    → IsBytes packet
    → Returns (IsCompleted r packet) (complete r packet)
unfolding complete in_flight
complete-IsCompleted r packet b = elim (Bool-cases (is_reply packet)) [
  | inr n ↦ rw (n, complete) (refl, refl)
  | inl y ↦
      let h : 12 ≤ length packet = is_reply-length packet y in
      let f = at_lem packet 2 (omega arith) in
      let q = u16_at_lem packet 4 (omega arith) in
      let i = get_id_lem packet (omega arith) in
      elim (Bool-cases (not (bit_and (byte packet 2 / 2 ^ 3) 0x0f == 0))) [
        | inl o ↦ rw (complete, y, f, o) (refl, refl)
        | inr o ↦ elim (Bool-cases (not (word16 packet 4 == 1))) [
          | inl c ↦ rw (complete, y, f, o, q, c) (refl, refl)
          | inr c ↦
              rw (complete, y, f, o, q, c, i) (complete_id-IsCompleted r packet b y (ground arith))
        ]
      ]
]
