-- ===== src/Inflight.antt =====
-- src/upstream/inflight.rs: the queries that wait for an answer on one upstream connection.
-- A oneshot channel is its number, with a log of what is sent into it; the semaphore is the number
-- of its free permits. A shard's lock is held for the whole of each access.
pub mod Table
pub mod Complete
pub mod Tokens
pub mod Guards
pub mod Permits
use pathdns.Base.{
  ℕ, zero, suc, ◌+◌, ◌-◌, ◌*◌, ◌/◌, ◌%◌, ◌^◌, leb, ltb, List, [], ◌∷◌, ◌++◌, Bool, true, false, not,
  ◌&&◌, bit_and, bit_xor, Option, none, some, Outcome, ok, let_else, ◌>>=◌, ◌==◌, if◌then◌else◌,
  length, take, drop,
}
use pathdns.Base.Bytes.{get_range, at, u16_at}
use pathdns.Base.Assoc.{Assoc, lookup, insert, erase, set_shard}
use pathdns.Dns.Header.{get_id, set_id, is_reply}
use pathdns.Dns.Name.{question_end}
use pathdns.Dns.Question.{questions_match}

pub record Entry : Type 0 where
  pub tx : ℕ
  pub client_id : ℕ
  pub question : List ℕ
  pub token : ℕ

pub record InflightRegistry : Type 0 where
  pub shards : ℕ → Assoc Entry
  pub next_id : ℕ
  pub next_token : ℕ
  pub cap : Option ℕ
  pub next_channel : ℕ
  pub log : List (ℕ × List ℕ)

pub record InflightGuard : Type 0 where
  pub id : ℕ
  pub token : ℕ
  pub permit : Bool

pub data Completion : Type 0 where
  delivered : Completion
  no_waiter : Completion
  mismatch : ℕ → Completion

-- What `register` returns: an upstream id, a receiver and a guard, or one of its two errors.
pub data Registration : Type 0 where
  registered : ℕ → ℕ → InflightGuard → Registration
  cap_reached : Registration
  table_full : Registration

-- `(id as usize) & (SHARDS - 1)`, of 64 shards.
abbrev pub shard : ℕ → ℕ
shard id = id % 64

-- `seed` stands for `random_id_seed()`.
unfoldable pub new : ℕ → ℕ → InflightRegistry
new seed max_inflight = record {
  shards = λ i. [];
  next_id = seed;
  next_token = 0;
  cap = if ltb 0 max_inflight then some max_inflight else none;
  next_channel = 0;
  log = [];
}

-- `mix16` of src/upstream/mod.rs.
unfoldable pub mix16 : ℕ → ℕ
mix16 x =
    let y = x * 0x45d9f3b % 2 ^ 32 in
    let id = bit_xor y (y / 2 ^ 16) % 2 ^ 16 in if id == 0 then 1 else id

-- The `for` loop of `register`: the id under which the entry is stored, if one is free.
unfoldable pub register_loop : ℕ → InflightRegistry → Entry → InflightRegistry × Option ℕ
unfolding mix16 lookup insert
register_loop zero registry entry = (registry, none)
register_loop (suc n) registry entry =
    let id = mix16 registry.next_id in
    let m = registry.shards (shard id) in
    let registry' = record registry { next_id = (registry.next_id + 1) % 2 ^ 32 } in
    let rest = register_loop n registry' entry in
    elim (lookup id m) [
      | none ↦ (
        record registry' { shards = set_shard registry.shards (shard id) (insert id entry m) },
        some id,
      )
      | some _ ↦ rest
    ]

-- `try_acquire_owned`, with whether a permit is held: without a cap there is none.
unfoldable pub try_acquire : Option ℕ → Option (Option ℕ × Bool)
try_acquire none = some (none, false)
try_acquire (some zero) = none
try_acquire (some (suc n)) = some (some n, true)

-- The drop of a permit.
unfoldable pub release : Bool → Option ℕ → Option ℕ
release true (some n) = some (suc n)
release true none = none
release false cap = cap

-- The end of `register`: the guard takes the permit, or the permit is dropped.
unfoldable pub guarded :
    ℕ → ℕ → Bool → InflightRegistry × Option ℕ → InflightRegistry × Registration
unfolding release
guarded tx token permit (registry, some id) =
    (registry, registered id tx (record { id = id; token = token; permit = permit }))
guarded tx token permit (registry, none) =
    (record registry { cap = release permit registry.cap }, table_full)

unfoldable pub register : InflightRegistry → ℕ → List ℕ → InflightRegistry × Registration
unfolding try_acquire register_loop guarded
register registry client_id question = elim (try_acquire registry.cap) [
  | none ↦ (registry, cap_reached)
  | some (cap', permit) ↦
      let token = registry.next_token in
      let tx = registry.next_channel in
      guarded tx token permit (
        register_loop (2 ^ 16 - 1)
          (record registry { cap = cap'; next_channel = tx + 1; next_token = (token + 1) % 2 ^ 64 })
          (record { tx = tx; client_id = client_id; question = question; token = token }))
]

-- The question of the response, empty where there is none.
unfoldable pub resp_question : List ℕ → Outcome (List ℕ)
unfolding question_end
resp_question packet = let_else (question_end packet) (ok []) λ end. ok (get_range packet 12 end)

-- The part of `complete` under the lock, for the entry that stands under the id.
unfoldable pub complete_entry :
    InflightRegistry → List ℕ → ℕ → Entry → Outcome (InflightRegistry × List ℕ × Completion)
unfolding resp_question erase
complete_entry registry packet id entry = do
  q ← resp_question packet
  matches ← questions_match q entry.question
  if not matches
      then ok (registry, packet, mismatch id)
      else (let_else (set_id packet entry.client_id) (ok packet) ok >>= λ packet'. ok (
        record registry {
          shards = set_shard registry.shards (shard id) (erase id (registry.shards (shard id)));
          log = registry.log ++ ((entry.tx, packet') ∷ []);
        },
        packet',
        delivered,
      ))

unfoldable pub complete_id :
    InflightRegistry → List ℕ → ℕ → Outcome (InflightRegistry × List ℕ × Completion)
unfolding complete_entry
complete_id registry packet id = elim (lookup id (registry.shards (shard id))) [
  | none ↦ ok (registry, packet, no_waiter)
  | some entry ↦ complete_entry registry packet id entry
]

unfoldable pub complete :
    InflightRegistry → List ℕ → Outcome (InflightRegistry × List ℕ × Completion)
unfolding complete_id
complete registry packet =
    if not (is_reply packet)
    then ok (registry, packet, no_waiter)
    else (at packet 2 >>= λ flags.
        if not (bit_and (flags / 2 ^ 3) 0x0f == 0)
        then ok (registry, packet, no_waiter)
        else (u16_at packet 4 >>= λ qdcount.
            if not (qdcount == 1)
            then ok (registry, packet, no_waiter)
            else let_else (get_id packet) (ok (registry, packet, no_waiter))
                λ id. complete_id registry packet id))

unfoldable pub clear : InflightRegistry → InflightRegistry
clear registry = record registry { shards = λ i. [] }

-- `Drop for InflightGuard`: the entry goes if it is still this registration's, the permit returns.
unfoldable pub drop_guard : InflightRegistry → InflightGuard → InflightRegistry
unfolding release erase
drop_guard registry guard =
    let m = registry.shards (shard guard.id) in
    record registry {
      shards = elim (lookup guard.id m) [
        | some entry ↦
            if entry.token == guard.token
            then set_shard registry.shards (shard guard.id) (erase guard.id m)
            else registry.shards
        | none ↦ registry.shards
      ];
      cap = release guard.permit registry.cap;
    }

-- All shards below `n`.
abbrev pub all_empty : ℕ → (ℕ → Assoc Entry) → Bool
all_empty zero shards = true
all_empty (suc n) shards = elim (shards n) [ [] ↦ all_empty n shards | _ ∷ _ ↦ false ]

unfoldable pub is_empty : InflightRegistry → Bool
is_empty registry = all_empty 64 registry.shards
