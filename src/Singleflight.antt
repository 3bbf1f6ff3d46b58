-- ===== src/Singleflight.antt =====
-- src/singleflight.rs: one upstream query for all clients that ask for the same cache key.
-- A oneshot channel is its number; what is sent into it goes to a log, and so does the drop of a
-- sender. A shard is an association list, and its lock is held for the whole of each access.
pub mod Shards
pub mod Followers
use pathdns.Base.{
  ℕ, zero, suc, ◌+◌, ◌%◌, List, [], ◌∷◌, ◌++◌, map, Bool, true, false, Option, none, some, ◌==◌,
  if◌then◌else◌,
}
use pathdns.Base.Assoc.{Assoc, lookup, insert, erase, set_shard}

abbrev pub CacheKey : Type 0
CacheKey = ℕ

-- `Waiters`: the channels of the followers.
abbrev pub Waiters : Type 0
Waiters = List ℕ

-- What a receiver comes to: a response, a deliberate silence, or an error.
pub data Delivery : Type 0 where
  bytes : List ℕ → Delivery
  no_reply : Delivery
  closed : Delivery

abbrev pub Shard : Type 0
Shard = Assoc Waiters

pub record InflightTable : Type 0 where
  pub shards : ℕ → Shard
  pub next_channel : ℕ
  pub log : List (ℕ × Delivery)

-- `(key as usize) & (SHARDS - 1)`, of 64 shards.
abbrev pub shard : CacheKey → ℕ
shard key = key % 64

unfoldable pub new : InflightTable
new = record { shards = λ i. []; next_channel = 0; log = [] }

-- The result of `register`: `None` for the leader, the receiver for a follower.
unfoldable pub register : InflightTable → CacheKey → InflightTable × Option ℕ
unfolding lookup insert
register table key =
    let m = table.shards (shard key) in
    elim (lookup key m) [
      | some waiters ↦
          let tx = table.next_channel in
          (
            record table {
              shards = set_shard table.shards (shard key) (insert key (waiters ++ (tx ∷ [])) m);
              next_channel = tx + 1;
            },
            some tx,
          )
      | none ↦
          (record table { shards = set_shard table.shards (shard key) (insert key [] m) }, none)
    ]

abbrev pub unwrap_or_default : Option Waiters → Waiters
unwrap_or_default none = []
unwrap_or_default (some ws) = ws

unfoldable pub take_waiters : InflightTable → CacheKey → InflightTable × Waiters
unfolding lookup erase
take_waiters table key =
    let m = table.shards (shard key) in
    (
      record table { shards = set_shard table.shards (shard key) (erase key m) },
      unwrap_or_default (lookup key m),
    )

-- The three ways in which the leader ends; each completes every waiter.
unfoldable pub complete : InflightTable → CacheKey → Delivery → InflightTable
unfolding take_waiters
complete table key d =
    let (table', waiters) = take_waiters table key in
    record table' { log = table'.log ++ map (λ tx. (tx, d)) waiters }

unfoldable pub publish_bytes : InflightTable → CacheKey → List ℕ → InflightTable
unfolding complete
publish_bytes table key resp = complete table key (bytes resp)

unfoldable pub publish_drop : InflightTable → CacheKey → InflightTable
unfolding complete
publish_drop table key = complete table key no_reply

unfoldable pub remove : InflightTable → CacheKey → InflightTable
unfolding complete
remove table key = complete table key closed
