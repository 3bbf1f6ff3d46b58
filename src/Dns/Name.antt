-- ===== src/Dns/Name.antt =====
-- `skip_name` and `question_end` of src/dns/mod.rs: the walk over one domain name.
pub mod Walk
use pathdns.Base.{
  ℕ, zero, suc, ◌+◌, List, bit_and, not, Outcome, ok, reject, stuck, guard, ◌>>=◌, ◌>>◌, ltb, leb,
  ◌==◌, if◌then◌else◌, length,
}
use pathdns.Base.Bytes.{get}

-- The `loop`; a round starts at `pos`. The label's end is bound before the tests, as the code's own
-- recursive call has to be.
unfoldable pub skip_name_loop : ℕ → List ℕ → ℕ → Outcome ℕ
unfolding get
skip_name_loop zero packet pos = stuck
skip_name_loop (suc fuel) packet pos = do
  len ← get packet pos
  let rest = skip_name_loop fuel packet (pos + 1 + len)
  if len == 0
      then ok (pos + 1)
      else if bit_and len 0xc0 == 0xc0
      then (do _ ← get packet (pos + 1); ok (pos + 2))
      else if not (bit_and len 0xc0 == 0)
      then reject
      else if ltb (length packet) (pos + 1 + len)
      then reject
      else rest

-- A round moves on by at least two bytes and stays inside the packet.
unfoldable pub skip_name : List ℕ → ℕ → Outcome ℕ
unfolding skip_name_loop
skip_name packet pos = skip_name_loop (suc (length packet)) packet pos

unfoldable pub question_end : List ℕ → Outcome ℕ
question_end packet = do
  guard (leb 12 (length packet))
  end ← skip_name packet 12
  guard (leb (end + 4) (length packet))
  ok (end + 4)
