-- ===== src/Tests/Queries.antt =====
-- Queries.
use pathdns.Base.{◌/◌, ◌≡◌, ◌↔◌, [], ◌∷◌, ok, ◌>>=◌, Returns, refl, arith}
use pathdns.Base.Bytes.{byte, word16, slice}
use pathdns.Hasher
use pathdns.Hasher.{write_qname_wire}
use pathdns.Dns.Name.{skip_name}
use pathdns.Dns.Name.Walk.{NameAt, skip_name_iff}
use pathdns.Dns.Query.{parse_query_fast}
use pathdns.Dns.Query.Labels.{LabelsAt, root, label, hash_labels}
use pathdns.Dns.Query.Accepts.{IsQuestion, parse_query_fast-IsQuestion}
use pathdns.Dns.Query.Complete.{parse_query_fast_of_LabelsAt}
use pathdns.Dns.Query.Hash.{qname_wire_hash-write_qname_wire}
use pathdns.Tests.Packets.{query, response, info, query-IsBytes, response-IsBytes, query_parsed}

skip_name_iff_example : (skip_name response 19 ≡ ok 21) ↔ NameAt response 19 21
skip_name_iff_example = skip_name_iff response 19 21 response-IsBytes

parse_query_fast-IsQuestion_example : Returns (λ i. IsQuestion query i) (parse_query_fast query)
parse_query_fast-IsQuestion_example = parse_query_fast-IsQuestion query query-IsBytes

query_labels : LabelsAt query 12 ((b'A' ∷ []) ∷ []) 15
unfolding byte
query_labels =
    label (omega arith) (omega arith) (omega arith) (omega arith) refl
      (root (omega arith) refl refl)

parse_query_fast_of_LabelsAt_example :
    parse_query_fast query
    ≡ ok (record {
      id = word16 query 0;
      qtype = word16 query 15;
      question_end = 19;
      qname_wire_hash = hash_labels Hasher.new ((b'A' ∷ []) ∷ []);
      qname_wire_hash_end = 3;
    })
parse_query_fast_of_LabelsAt_example =
    parse_query_fast_of_LabelsAt query 3 ((b'A' ∷ []) ∷ []) query-IsBytes standard one query_labels
      (omega arith) (omega arith)
  where
    standard : byte query 2 / 8 ≡ 0
    standard = unfold byte in refl

    one : word16 query 4 ≡ 1
    one = unfold word16 byte in refl

qname_wire_hash-write_qname_wire_example :
    (slice query 12 19 >>= write_qname_wire Hasher.new) ≡ ok (3, 15065593090998171989)
qname_wire_hash-write_qname_wire_example =
    qname_wire_hash-write_qname_wire query info query-IsBytes query_parsed
