-- ===== src/Tests/Replies.antt =====
-- Replies that are made here.
use pathdns.Base.{
  ℕ, zero, suc, ◌*◌, ◌%◌, ◌++◌, length-append, refl, ◌≤◌, ◌<◌, ◌≡◌, ◌⊎◌, List, [], ◌∷◌, Bool, ok,
  length, arith,
}
use pathdns.Base.Bytes.{IsBytes}
use pathdns.Base.Octets.{IsBytes-append}
use pathdns.Dns.Rr.{v4, answer_ips, extract_answer_records}
use pathdns.Dns.Edns.{client_udp_payload_size, has_opt_record, maybe_truncate_for_udp}
use pathdns.Dns.Edns.Reply.{IsTruncated, maybe_truncate_for_udp-IsTruncated}
use pathdns.Dns.Builder.{a_reply}
use pathdns.Dns.Builder.Answers.{a_reply-answer_ips}
use pathdns.Tests.Packets.{
  query, question, header, edns_query, edns_query-IsBytes, info, edns_query_parsed,
}

-- A response of 255 addresses, 4099 bytes, to the query that takes 4096.
abbrev address : ℕ → List ℕ
address n = 0xC0 ∷ 0x0C ∷ 0 ∷ 1 ∷ 0 ∷ 1 ∷ 0 ∷ 0 ∷ 1 ∷ 0x2C ∷ 0 ∷ 4 ∷ 1 ∷ 2 ∷ 3 ∷ n % 256 ∷ []

addresses : ℕ → List ℕ
addresses zero = []
addresses (suc n) = address n ++ addresses n

addresses-IsBytes : (n : ℕ) → IsBytes (addresses n)
unfolding addresses
addresses-IsBytes zero = tt
addresses-IsBytes (suc n) =
    IsBytes-append (address n) (addresses n) (omega arith) (addresses-IsBytes n)

length-addresses : (n : ℕ) → length (addresses n) ≡ 16 * n
unfolding addresses
length-addresses zero = refl
length-addresses (suc n) =
    omega (arith, length-append (address n) (addresses n), length-addresses n)

abbrev front : List ℕ
front = header 0x81 0x80 255 0 ++ question

abbrev long_response : List ℕ
long_response = front ++ addresses 255

too_long : 4096 < length long_response
too_long = omega (arith, length-append front (addresses 255), length-addresses 255)

maybe_truncate_for_udp-IsTruncated_example :
    (size : ℕ) × (r : List ℕ) × (edns : Bool) × (client_udp_payload_size edns_query 19 ≡ ok size)
    × (has_opt_record edns_query 19 ≡ ok edns)
    × (maybe_truncate_for_udp long_response edns_query ≡ ok r)
    × (length r ≤ size)
    × (((length long_response ≤ size) × (r ≡ long_response))
        ⊎ ((size < length long_response) × IsTruncated long_response r 19 edns))
maybe_truncate_for_udp-IsTruncated_example =
    maybe_truncate_for_udp-IsTruncated long_response edns_query info
      (IsBytes-append front (addresses 255) (omega arith) (addresses-IsBytes 255))
      edns_query-IsBytes edns_query_parsed

a_reply-answer_ips_example :
    (r : List ℕ) × (a_reply query 19 (10 ∷ 0 ∷ 0 ∷ 1 ∷ []) 60 ≡ ok r)
    × (answer_ips r 19 ≡ ok (v4 (10 ∷ 0 ∷ 0 ∷ 1 ∷ []) ∷ []))
    × (extract_answer_records r 19 ≡ ok ((1, 60, 10 ∷ 0 ∷ 0 ∷ 1 ∷ []) ∷ []))
a_reply-answer_ips_example =
    a_reply-answer_ips query 19 10 0 0 1 60 (omega arith) (omega arith) (omega arith)

abbrev loopback : List ℕ
loopback = 0 ∷ 0 ∷ 0 ∷ 0 ∷ 0 ∷ 0 ∷ 0 ∷ 0 ∷ 0 ∷ 0 ∷ 0 ∷ 0 ∷ 0 ∷ 0 ∷ 0 ∷ 1 ∷ []
