-- ===== src/Cache/Key/Agree.antt =====
-- Which queries share a key of the response cache (src/cache.rs).
use pathdns.Base.{ℕ, ◌≡◌, ◌∙◌, List, Bool, false, ok, Returns-ok, ◌>>=◌, refl, ap, sym, arith}
use pathdns.Base.Bytes.{IsBytes, slice_lem}
use pathdns.Hasher
use pathdns.Hasher.{write_byte, write_lowered, to_ascii_lowercase, write_qname_wire}
use pathdns.Dns.Query.{FastQueryInfo, parse_query_fast}
use pathdns.Dns.Query.Accepts.{IsQuestion, parse_query_fast-IsQuestion}
use pathdns.Dns.Query.Hash.{qname_wire_hash-write_qname_wire}
use pathdns.Dns.Variant.{QueryVariant}
use pathdns.Cache.Key.{cache_key_with_variant, cache_key_from_qname_hash, has_invalid_shape}

-- When `parse_query_fast` accepts a packet of bytes, the cache key computed from its running hash
-- is the one that the reference function of the cache's tests computes from the packet, for any
-- variant and with or without the client subnet.
pub cache_key-agree :
    (p : List ℕ) (info : FastQueryInfo) (v : QueryVariant) (strip_ecs : Bool)
    → IsBytes p
    → parse_query_fast p ≡ ok info
    → cache_key_with_variant p info.question_end v strip_ecs
      ≡ cache_key_from_qname_hash p info.question_end info.qname_wire_hash info.qname_wire_hash_end
          v strip_ecs
unfolding cache_key_with_variant cache_key_from_qname_hash
cache_key-agree p info v strip b e =
    let k : IsQuestion p info = Returns-ok _ _ info (parse_query_fast-IsQuestion p b) e in
    let s = slice_lem p 12 info.question_end (omega (arith, k.end_at)) k.inside in
    let h =
      ap (λ m. m >>= write_qname_wire Hasher.new) (sym s)
      ∙ qname_wire_hash-write_qname_wire p info b e in
    let fine : has_invalid_shape p info.question_end ≡ false = ground (arith, k.end_at, k.inside) in
    rw (fine, s, h) refl
