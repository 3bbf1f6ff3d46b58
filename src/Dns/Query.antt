-- ===== src/Dns/Query.antt =====
-- Query parsing, src/dns/query.rs: `skip_query_question`, `question_tail`, `parse_query_fast`.
pub mod Labels
pub mod Accepts
pub mod Complete
pub mod Hash
use pathdns.Base.{
  ℕ, zero, suc, ◌+◌, ◌-◌, ◌/◌, ◌%◌, ◌^◌, List, bit_and, Bool, not, ◌||◌, Outcome, ok, reject, stuck,
  guard, ◌>>=◌, ◌>>◌, leb, ltb, ◌==◌, if◌then◌else◌, length,
}
use pathdns.Base.Bytes.{at, slice, u16_at}
use pathdns.Hasher
use pathdns.Hasher.{write_byte, write_lowered}
use pathdns.Dns.Header.{is_query, get_id}

-- `FastQueryInfo`.
pub record FastQueryInfo : Type 0 where
  pub id : ℕ
  pub qtype : ℕ
  pub question_end : ℕ
  pub qname_wire_hash : ℕ
  pub qname_wire_hash_end : ℕ

-- The `while` loop of `skip_query_question`: where it leaves `pos` and the hash.
unfoldable pub skip_query_loop : ℕ → List ℕ → ℕ → ℕ → ℕ → Outcome (ℕ × ℕ)
skip_query_loop zero packet start pos h = stuck
skip_query_loop (suc fuel) packet start pos h =
    if ltb pos (length packet)
    then (do
      len ← at packet pos
      if len == 0
          then ok (pos + 1, write_byte h len)
          else if not (bit_and len 0xc0 == 0)
          then reject
          else if ltb 63 len || ltb (length packet) (pos + 1 + len)
          then reject
          else (do
            label ← slice packet (pos + 1) (pos + 1 + len)
            guard (not (ltb 255 (pos + 1 + len - start + 1)))
            skip_query_loop fuel packet start (pos + 1 + len)
                (write_lowered (write_byte h len) label)))
    else ok (pos, h)

unfoldable pub question_tail : List ℕ → ℕ → Outcome ℕ
question_tail packet pos = do guard (not (ltb (length packet) (pos + 4))); ok (pos + 4)

-- The end of the question, the hash, and where the hash's coverage ends.
unfoldable pub skip_query_question : List ℕ → ℕ → Outcome (ℕ × ℕ × ℕ)
unfolding question_tail
skip_query_question packet start = do
  (pos, h) ← skip_query_loop (suc (length packet)) packet start start Hasher.new
  qend ← question_tail packet pos
  ok (qend, h, pos - start)

unfoldable pub parse_query_fast : List ℕ → Outcome FastQueryInfo
parse_query_fast packet = do
  guard (is_query packet)
  flags ← at packet 2
  guard (bit_and (flags / 2 ^ 3) 0x0f == 0)
  qdcount ← u16_at packet 4
  guard (qdcount == 1)
  (qend, h, hash_end) ← skip_query_question packet 12
  qtype ← u16_at packet (qend - 4)
  id ← get_id packet
  ok (record {
    id = id;
    qtype = qtype;
    question_end = qend;
    qname_wire_hash = h;
    qname_wire_hash_end = hash_end;
  })
