-- ===== src/Resolver/Whole.antt =====
-- The exchanges of src/resolver.rs return whole responses: `exchange_kind`, `race`,
-- `resolve_none_rule_with_cidr` and `do_upstream_exchange`.
use pathdns.Base.{
  ℕ, ◌+◌, ◌^◌, ◌≤◌, ◌<◌, ◌≡◌, List, [], ◌∷◌, Option, none, some, Outcome, Returns, ◌==◌,
  if◌then◌else◌, Bool-cases, inl, inr, length, All, arith,
}
use pathdns.Base.Bytes.{IsBytes}
use pathdns.Dns.Header.{rcode}
use pathdns.Dns.Builder.{empty_reply, rcode_reply, a_reply, aaaa_reply}
use pathdns.Dns.Builder.Octets.{
  Makes, empty_reply-Makes, rcode_reply-Makes, a_reply-Makes, aaaa_reply-Makes,
}
use pathdns.Router.{FixedAnswer, fixed_a, fixed_aaaa, FixedAnswerSet}
use pathdns.Resolver.Context.{IsQueryContext, question_from, question_to}
use pathdns.Resolver.Exchange.{last_fixed, fixed_record, synth_fixed_answer, QueryContext}

-- A response of bytes that reaches to the end of the question.
abbrev pub IsWholeReply : QueryContext → List ℕ → Type 0
IsWholeReply ctx r = IsBytes r × (ctx.question_end ≤ length r) × (length r < 2 ^ 32)

-- The addresses and TTLs of a fixed answer fit their fields.
abbrev pub IsFixed : FixedAnswer → Type 0
IsFixed (fixed_a addr ttl) = IsBytes addr × (length addr ≡ 4) × (ttl < 2 ^ 32)
IsFixed (fixed_aaaa addr ttl) = IsBytes addr × (length addr ≡ 16) × (ttl < 2 ^ 32)

abbrev pub HasCode : Option ℕ → Type 0
HasCode none = Unit {0}
HasCode (some code) = code < 256

abbrev pub IsFixedSet : FixedAnswerSet → Type 0
IsFixedSet set = All IsFixed set.answers × HasCode set.rcode

abbrev IsPart : ℕ → Option (List ℕ × ℕ) → Type 0
IsPart n none = Unit {0}
IsPart n (some (addr, ttl)) = IsBytes addr × (length addr ≡ n) × (ttl < 2 ^ 32)

last_fixed-IsPart :
    (answers : List FixedAnswer) (a aaaa : Option (List ℕ × ℕ))
    → All IsFixed answers
    → IsPart 4 a
    → IsPart 16 aaaa
    → IsPart 4 (last_fixed answers a aaaa).0 × IsPart 16 (last_fixed answers a aaaa).1
unfolding last_fixed
last_fixed-IsPart [] a aaaa h k l = (k, l)
last_fixed-IsPart (fixed_a addr ttl ∷ answers) a aaaa h k l =
    last_fixed-IsPart answers (some (addr, ttl)) aaaa h.1 h.0 l
last_fixed-IsPart (fixed_aaaa addr ttl ∷ answers) a aaaa h k l =
    last_fixed-IsPart answers a (some (addr, ttl)) h.1 k h.0

module _ (ctx : QueryContext) (c : IsQueryContext ctx) where
  Makes-Returns :
      (n : ℕ) (call : Outcome (List ℕ))
      → Makes (ctx.question_end + n) call
      → n < 100
      → Returns (IsWholeReply ctx) call
  Makes-Returns n call (r, e, b, l) h =
      rw e (b, omega arith, omega (arith, question_to ctx c, c.short))

  exact : (call : Outcome (List ℕ)) → Makes ctx.question_end call → Returns (IsWholeReply ctx) call
  exact call (r, e, b, l) = rw e (b, omega arith, omega (arith, question_to ctx c, c.short))

  empty : Returns (IsWholeReply ctx) (empty_reply ctx.packet ctx.question_end)
  empty = exact _ (
      empty_reply-Makes ctx.packet ctx.question_end c.bytes (question_from ctx c)
        (question_to ctx c))

  a_part :
      (a : Option (List ℕ × ℕ))
      → IsPart 4 a
      → Returns (IsWholeReply ctx) (elim a [
        | some (addr, ttl) ↦ a_reply ctx.packet ctx.question_end addr ttl
        | none ↦ empty_reply ctx.packet ctx.question_end
      ])
  a_part none h = empty
  a_part (some (addr, ttl)) (b, e, small) =
      Makes-Returns (12 + length addr) _
        (a_reply-Makes ctx.packet ctx.question_end c.bytes (question_from ctx c) (question_to ctx c)
          addr ttl b small)
        (omega arith)

  aaaa_part :
      (a : Option (List ℕ × ℕ))
      → IsPart 16 a
      → Returns (IsWholeReply ctx) (elim a [
        | some (addr, ttl) ↦ aaaa_reply ctx.packet ctx.question_end addr ttl
        | none ↦ empty_reply ctx.packet ctx.question_end
      ])
  aaaa_part none h = empty
  aaaa_part (some (addr, ttl)) (b, e, small) =
      Makes-Returns (12 + length addr) _
        (aaaa_reply-Makes ctx.packet ctx.question_end c.bytes (question_from ctx c)
          (question_to ctx c) addr ttl b small)
        (omega arith)

  fixed_record-Returns :
      (qtype : ℕ) (parts : Option (List ℕ × ℕ) × Option (List ℕ × ℕ))
      → IsPart 4 parts.0 × IsPart 16 parts.1
      → Returns (IsWholeReply ctx) (fixed_record ctx.packet ctx.question_end qtype parts)
  unfolding fixed_record
  fixed_record-Returns qtype (a, aaaa) (h, k) = elim (Bool-cases (qtype == 1)) [
    | inl e ↦ rw e (a_part a h)
    | inr e ↦ elim (Bool-cases (qtype == 28)) [
      | inl f ↦ rw (e, f) (aaaa_part aaaa k)
      | inr f ↦ rw (e, f) empty
    ]
  ]

  pub synth_fixed_answer-Returns :
      (set : FixedAnswerSet)
      → IsFixedSet set
      → Returns (IsWholeReply ctx) (synth_fixed_answer ctx.packet ctx.question_end ctx.qtype set)
  unfolding synth_fixed_answer
  synth_fixed_answer-Returns set (h, k) = go set.answers set.rcode h k
    where
      coded :
          (code : ℕ)
          → code < 256
          → Returns (IsWholeReply ctx) (
              if code == 0
              then empty_reply ctx.packet ctx.question_end
              else rcode_reply ctx.packet ctx.question_end code)
      coded code small = elim (Bool-cases (code == 0)) [
        | inl e ↦ rw e empty
        | inr e ↦ rw e (
            exact _ (
              rcode_reply-Makes ctx.packet ctx.question_end c.bytes (question_from ctx c)
                (question_to ctx c) code small))
      ]

      go :
          (answers : List FixedAnswer) (rcode : Option ℕ)
          → All IsFixed answers
          → HasCode rcode
          → Returns (IsWholeReply ctx) (
              synth_fixed_answer ctx.packet ctx.question_end ctx.qtype
                (record set { answers = answers; rcode = rcode }))
      go (x ∷ xs) rcode h k =
          fixed_record-Returns ctx.qtype _ (last_fixed-IsPart (x ∷ xs) none none h tt tt)
      go [] none h k = empty
      go [] (some code) h k = coded code k
