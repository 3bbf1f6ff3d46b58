-- ===== src/Dns/Header.antt =====
-- The header of a DNS message: src/dns/query.rs (`get_id`, `set_id`, `is_query`, `is_reply`,
-- `is_truncated`) and src/dns/ttl.rs (`rcode`, `is_good_reply`).
-- A read that stands behind a length test in the same condition is written `byte`.
use pathdns.Base.{
  ℕ, ◌/◌, ◌%◌, List, bit_and, Bool, false, not, ◌&&◌, ◌||◌, Outcome, guard, ◌>>=◌, ◌>>◌, leb, ltb,
  ◌==◌, if◌then◌else◌, length,
}
use pathdns.Base.Bytes.{byte, put, u16_at}

unfoldable pub get_id : List ℕ → Outcome ℕ
get_id packet = do guard (not (ltb (length packet) 2)); u16_at packet 0

unfoldable pub set_id : List ℕ → ℕ → Outcome (List ℕ)
unfolding put
set_id packet id = do
  guard (not (ltb (length packet) 2))
  packet ← put packet 0 (id / 256)
  put packet 1 (id % 256)

unfoldable pub is_query : List ℕ → Bool
is_query packet = leb 12 (length packet) && bit_and (byte packet 2) 0x80 == 0

unfoldable pub is_reply : List ℕ → Bool
is_reply packet = leb 12 (length packet) && not (bit_and (byte packet 2) 0x80 == 0)

unfoldable pub is_truncated : List ℕ → Bool
is_truncated packet = leb 4 (length packet) && not (bit_and (byte packet 2) 0x02 == 0)

unfoldable pub rcode : List ℕ → ℕ
rcode packet = if ltb (length packet) 4 then 0 else bit_and (byte packet 3) 0x0f

unfoldable pub is_good_reply : List ℕ → Bool
unfolding is_reply rcode
is_good_reply packet =
    if not (is_reply packet) || ltb (length packet) 12
    then false
    else (rcode packet == 0 || rcode packet == 3)
