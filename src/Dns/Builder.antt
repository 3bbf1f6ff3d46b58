-- ===== src/Dns/Builder.antt =====
-- Locally made responses, src/dns/builder.rs: `ResponseBuilder` and the replies built with it.
pub mod Headers
pub mod Answers
pub mod Octets
use pathdns.Base.{
  ℕ, zero, suc, ◌+◌, ◌/◌, ◌%◌, ◌^◌, bit_and, bit_or, List, [], ◌∷◌, ◌++◌, ◌||◌, not, Outcome, ok,
  reject, guard, ◌>>=◌, ◌>>◌, ltb, if◌then◌else◌, length,
}
use pathdns.Base.Bytes.{byte, at, put, slice, bytes32}
use pathdns.Base.Writes.{puts, Write}

-- The writes of `ResponseBuilder::from_query`; `flags` is byte 2 of the query.
abbrev pub from_query_writes : ℕ → List Write
from_query_writes flags =
    (2, bit_or 0x80 (bit_and flags 0x01))
    ∷ (3, 0)
    ∷ (4, 0)
    ∷ (5, 1)
    ∷ (6, 0)
    ∷ (7, 0)
    ∷ (8, 0)
    ∷ (9, 0)
    ∷ (10, 0)
    ∷ (11, 0)
    ∷ []

unfoldable pub from_query : List ℕ → ℕ → Outcome (List ℕ)
from_query query question_end = do
  guard (not (ltb (length query) 12 || ltb question_end 12 || ltb (length query) question_end))
  buf ← slice query 0 question_end
  flags ← at query 2
  puts buf (from_query_writes flags)

unfoldable pub set_ra : List ℕ → Outcome (List ℕ)
set_ra buf = do b ← at buf 3; put buf 3 (bit_or b 0x80)

unfoldable pub set_rcode : List ℕ → ℕ → Outcome (List ℕ)
set_rcode buf rcode = do b ← at buf 3; put buf 3 (bit_or (bit_and b 0xf0) (bit_and rcode 0x0f))

unfoldable pub empty_reply : List ℕ → ℕ → Outcome (List ℕ)
empty_reply query question_end = do b ← from_query query question_end; set_ra b

unfoldable pub rcode_reply : List ℕ → ℕ → ℕ → Outcome (List ℕ)
rcode_reply query question_end rcode = do
  b ← from_query query question_end
  b ← set_ra b
  set_rcode b rcode

unfoldable pub servfail_reply : List ℕ → ℕ → Outcome (List ℕ)
servfail_reply query question_end = do
  b ← from_query query question_end
  b ← set_ra b
  set_rcode b 2

unfoldable pub notimp_reply : List ℕ → ℕ → Outcome (List ℕ)
notimp_reply query question_end = do b ← from_query query question_end; b ← set_ra b; set_rcode b 4

unfoldable pub notimp_opcode_reply : List ℕ → List ℕ
notimp_opcode_reply query =
    if ltb (length query) 12
    then []
    else (byte query 0
        ∷ byte query 1
        ∷ bit_or 0x80 (bit_and (byte query 2) 0x79)
        ∷ 0x84
        ∷ 0
        ∷ 0
        ∷ 0
        ∷ 0
        ∷ 0
        ∷ 0
        ∷ 0
        ∷ 0
        ∷ [])

unfoldable pub a_reply : List ℕ → ℕ → List ℕ → ℕ → Outcome (List ℕ)
a_reply query question_end octets ttl = do
  b ← from_query query question_end
  b ← set_ra b
  b ← put b 7 1
  ok (b ++ (0xC0 ∷ 0x0C ∷ 0x00 ∷ 0x01 ∷ 0x00 ∷ 0x01 ∷ (bytes32 ttl ++ (0x00 ∷ 0x04 ∷ octets))))

unfoldable pub aaaa_reply : List ℕ → ℕ → List ℕ → ℕ → Outcome (List ℕ)
aaaa_reply query question_end octets ttl = do
  b ← from_query query question_end
  b ← set_ra b
  b ← put b 7 1
  ok (b ++ (0xC0 ∷ 0x0C ∷ 0x00 ∷ 0x1C ∷ 0x00 ∷ 0x01 ∷ (bytes32 ttl ++ (0x00 ∷ 0x10 ∷ octets))))
