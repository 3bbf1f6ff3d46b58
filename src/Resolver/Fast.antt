-- ===== src/Resolver/Fast.antt =====
-- The fast path of src/resolver.rs, `try_fast_path_into`: a packet that is answered at once, handed on
-- or dropped. The response is what stands in the arena when it is taken.
pub mod Path
use pathdns.Base.{
  ℕ, ◌-◌, ◌/◌, ◌^◌, bit_and, List, [], Bool, not, ◌&&◌, Option, none, some, Outcome, ok, reject,
  panic, stuck, ◌>>=◌, let_else, leb, ◌==◌, if◌then◌else◌, length,
}
use pathdns.Base.Bytes.{byte, u16_at}
use pathdns.Dns.Query.{FastQueryInfo, parse_query_fast}
use pathdns.Dns.Builder.{notimp_reply, notimp_opcode_reply}
use pathdns.Cache.Backend.{Store}
use pathdns.Cache.{Entry, DnsCache, CacheProbe, CacheLookupMeta, get_into_with_ecs_fallback}

pub data FastPathOutcome : Type 0 where
  fast_response : List ℕ → FastPathOutcome
  miss : FastQueryInfo → CacheProbe → FastPathOutcome
  drop_packet : FastPathOutcome

-- A whole header of a query with another opcode than QUERY.
unfoldable pub other_opcode : List ℕ → Bool
other_opcode packet =
    leb 12 (length packet)
    && bit_and (byte packet 2) 0x80 == 0
    && not (bit_and (byte packet 2 / 2 ^ 3) 0x0f == 0)

-- `state.cache.get_into_with_ecs_fallback(..)`: the hit's packet, or the miss.
unfoldable pub fast_outcome :
    Option (List ℕ × CacheLookupMeta) → FastQueryInfo → CacheProbe → FastPathOutcome
fast_outcome (some hit) info probe = fast_response hit.0
fast_outcome none info probe = miss info probe

module _ (S : Store ℕ Entry) where
  open S use {State}

  unfoldable pub parsed_fast_path :
      DnsCache State
      → List ℕ
      → FastQueryInfo
      → Bool
      → ℕ
      → Outcome (DnsCache State × FastPathOutcome)
  unfolding fast_outcome
  parsed_fast_path cache packet info collecting now = do
    qclass ← u16_at packet (info.question_end - 2)
    if not (qclass == 1) && not (qclass == 255)
        then (do
          resp ← let_else (notimp_reply packet info.question_end) (ok []) ok
          ok (cache, fast_response resp))
        else (do
          (cache', hit, probe) ← get_into_with_ecs_fallback S cache packet info collecting now
          ok (cache', fast_outcome hit info probe))

  unfoldable pub try_fast_path_into :
      DnsCache State → List ℕ → Bool → ℕ → Outcome (DnsCache State × FastPathOutcome)
  unfolding other_opcode parsed_fast_path
  try_fast_path_into cache packet collecting now =
      if other_opcode packet
      then ok (cache, fast_response (notimp_opcode_reply packet))
      else elim (parse_query_fast packet) [
        | ok info ↦ parsed_fast_path cache packet info collecting now
        | reject ↦ ok (cache, drop_packet)
        | panic ↦ panic
        | stuck ↦ stuck
      ]
