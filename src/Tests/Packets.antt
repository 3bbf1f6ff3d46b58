-- ===== src/Tests/Packets.antt =====
-- A query for `a`, type A, class IN, with id 0x1234 and RD set; the same with an OPT record that
-- advertises 4096 bytes; and a response with one address for 300 seconds.
use pathdns.Base.{ℕ, ◌≡◌, List, [], ◌∷◌, ◌++◌, ok, reject, refl, arith}
use pathdns.Base.Bytes.{IsBytes, at, get, put, slice, u16_at, byte}
use pathdns.Dns.Name.{skip_name}
use pathdns.Dns.Header.{is_query, get_id}
use pathdns.Hasher
use pathdns.Dns.Query.{FastQueryInfo, parse_query_fast, skip_query_question, skip_query_loop}

abbrev pub question : List ℕ
question = 1 ∷ b'A' ∷ 0 ∷ 0 ∷ 1 ∷ 0 ∷ 1 ∷ []

abbrev pub header : ℕ → ℕ → ℕ → ℕ → List ℕ
header flags2 flags3 an ar = 0x12 ∷ 0x34 ∷ flags2 ∷ flags3 ∷ 0 ∷ 1 ∷ 0 ∷ an ∷ 0 ∷ 0 ∷ 0 ∷ ar ∷ []

abbrev pub query : List ℕ
query = header 1 0 0 0 ++ question

abbrev pub edns_query : List ℕ
edns_query = header 1 0 0 1 ++ (question ++ (0 ∷ 0 ∷ 41 ∷ 0x10 ∷ 0 ∷ 0 ∷ 0 ∷ 0 ∷ 0 ∷ 0 ∷ 0 ∷ []))

abbrev pub response : List ℕ
response =
    header 0x81 0x80 1 0
    ++ (question ++ (0xC0 ∷ 0x0C ∷ 0 ∷ 1 ∷ 0 ∷ 1 ∷ 0 ∷ 0 ∷ 1 ∷ 0x2C ∷ 0 ∷ 4 ∷ 1 ∷ 2 ∷ 3 ∷ 4 ∷ []))

pub query-IsBytes : IsBytes query
query-IsBytes = omega arith

pub edns_query-IsBytes : IsBytes edns_query
edns_query-IsBytes = omega arith

pub response-IsBytes : IsBytes response
response-IsBytes = omega arith

-- All functions that read a query, opened.
unfoldable pub queries : Unit {0}
unfolding byte at get put slice u16_at skip_name is_query get_id parse_query_fast
    skip_query_question skip_query_loop
queries = tt

abbrev pub info : FastQueryInfo
info = record {
  id = 0x1234;
  qtype = 1;
  question_end = 19;
  qname_wire_hash = 15065593090998171989;
  qname_wire_hash_end = 3;
}

pub query_parsed : parse_query_fast query ≡ ok info
unfolding queries Hasher.new Hasher.write_byte Hasher.write_lowered Hasher.to_ascii_lowercase
query_parsed = refl

pub edns_query_parsed : parse_query_fast edns_query ≡ ok info
unfolding queries Hasher.new Hasher.write_byte Hasher.write_lowered Hasher.to_ascii_lowercase
edns_query_parsed = refl

-- A response is no query.
response_rejected : parse_query_fast response ≡ reject
unfolding queries
response_rejected = refl
