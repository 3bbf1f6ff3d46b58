-- ===== src/Tests/Upstream.antt =====
-- Queries that wait for an upstream.
use pathdns.Base.{ℕ, ◌≡◌, List, [], ◌∷◌, true, ok, Returns, refl, arith}
use pathdns.Base.Bytes.{at, get, put, slice, u16_at, byte, word16}
use pathdns.Base.Assoc.{lookup, insert, erase, set_shard}
use pathdns.Dns.Name.{skip_name, question_end}
use pathdns.Dns.Header.{is_reply, get_id, set_id}
use pathdns.Dns.Question.{questions_match}
use pathdns.Hasher.{to_ascii_lowercase}
use pathdns.Inflight
use pathdns.Inflight.{
  InflightRegistry, InflightGuard, Registration, registered, Completion, delivered,
}
use pathdns.Inflight.Table.{in_flight}
use pathdns.Inflight.Complete.{IsCompleted, complete-IsCompleted}
use pathdns.Inflight.Tokens.{done}
use pathdns.Inflight.Guards.{stale_guard}
use pathdns.Inflight.Permits.{Balanced, starts, registers, permits_balance}
use pathdns.Tests.Packets.{question}

abbrev empty_registry : InflightRegistry
empty_registry = Inflight.new 1 2

abbrev answer : List ℕ
answer =
    0x9b ∷ 0x66 ∷ 0x81 ∷ 0x80 ∷ 0 ∷ 1 ∷ 0 ∷ 0 ∷ 0 ∷ 0 ∷ 0 ∷ 0 ∷ 1 ∷ b'a' ∷ 0 ∷ 0 ∷ 1 ∷ 0 ∷ 1 ∷ []

abbrev answer_to_client : List ℕ
answer_to_client =
    0x12 ∷ 0x34 ∷ 0x81 ∷ 0x80 ∷ 0 ∷ 1 ∷ 0 ∷ 0 ∷ 0 ∷ 0 ∷ 0 ∷ 0 ∷ 1 ∷ b'a' ∷ 0 ∷ 0 ∷ 1 ∷ 0 ∷ 1 ∷ []

abbrev guard_of_query : InflightGuard
guard_of_query = record { id = 0x9b66; token = 0; permit = true }

abbrev waiting_registry : InflightRegistry
waiting_registry = (Inflight.register empty_registry 0x1234 question).0

waiting :
    Inflight.register empty_registry 0x1234 question
    ≡ (waiting_registry, registered 0x9b66 0 guard_of_query)
unfolding Inflight.new Inflight.register
waiting = refl

-- The entry is gone; the next id and token, the channel and the permit stay taken.
abbrev answered_registry : InflightRegistry
answered_registry = record waiting_registry {
  shards =
      set_shard waiting_registry.shards (Inflight.shard 0x9b66)
        (erase 0x9b66 (waiting_registry.shards (Inflight.shard 0x9b66)));
  log = (0, answer_to_client) ∷ [];
}

-- The response spells the name in lower case, the query in upper case.
answered :
    Inflight.complete waiting_registry answer ≡ ok (answered_registry, answer_to_client, delivered)
unfolding Inflight.new Inflight.register Inflight.complete lookup insert is_reply byte at u16_at get
    put slice get_id set_id question_end skip_name questions_match to_ascii_lowercase
answered = refl

-- At the id that the guard had.
stale_guard_example :
    in_flight (Inflight.drop_guard answered_registry guard_of_query) 0x9b66
    ≡ in_flight answered_registry 0x9b66
unfolding Inflight.new word16 byte
stale_guard_example =
    stale_guard 1 2 0x1234 0 0x9b66 question answer answer_to_client guard_of_query empty_registry
      waiting_registry waiting_registry answered_registry answered_registry done (omega arith)
      waiting done (omega arith) refl answered done 0x9b66

complete-IsCompleted_example :
    Returns (IsCompleted waiting_registry answer) (Inflight.complete waiting_registry answer)
complete-IsCompleted_example = complete-IsCompleted waiting_registry answer (omega arith)

permits_balance_example : Balanced 2 waiting_registry.cap (guard_of_query ∷ [])
permits_balance_example =
    permits_balance 1 2 waiting_registry (guard_of_query ∷ []) (omega arith)
      (registers 0x1234 0x9b66 0 question guard_of_query starts waiting)
