-- ===== src/Singleflight/Shards.antt =====
-- The shards of src/singleflight.rs behave as one map.
use pathdns.Base.{
  ◌≡◌, [], ◌∷◌, ◌++◌, map, Option, none, some, ◌==◌, if◌then◌else◌, Option-cases, inl, inr, refl,
}
use pathdns.Base.Assoc.{lookup, lookup-set_insert, lookup-set_erase}
use pathdns.Singleflight.{
  CacheKey, Waiters, Delivery, InflightTable, unwrap_or_default, shard, register, take_waiters,
  complete,
}

-- The table as one map from keys to waiters: `none` where no query is in flight.
unfoldable pub in_flight : InflightTable → CacheKey → Option Waiters
in_flight table k = lookup k (table.shards (shard k))

-- The waiters of a key.
unfoldable pub waiting : InflightTable → CacheKey → Waiters
unfolding in_flight
waiting table k = unwrap_or_default (in_flight table k)

-- Registering a key appends a new channel to the key's waiters when the key is in flight and
-- returns that channel, and else opens an empty list of waiters and returns none; other keys and
-- the deliveries stay as they are.
pub register-in_flight :
    (table : InflightTable) (k j : CacheKey)
    → (in_flight (register table k).0 j ≡ (
        if k == j
        then some
            (elim (in_flight table k) [ none ↦ [] | some ws ↦ ws ++ (table.next_channel ∷ []) ])
        else in_flight table j))
      × ((register table k).1
          ≡ elim (in_flight table k) [ none ↦ none | some ws ↦ some table.next_channel ])
      × ((register table k).0.log ≡ table.log)
unfolding register in_flight
register-in_flight table k j = elim (Option-cases (lookup k (table.shards (shard k)))) [
  | inl e ↦ rw (e, register) (lookup-set_insert shard table.shards k j [], refl, refl)
  | inr (ws, e) ↦
      rw (e, register)
        (lookup-set_insert shard table.shards k j (ws ++ (table.next_channel ∷ [])), refl, refl)
]

-- Taking the waiters hands them over, all of them, and frees the key and no other.
pub take_waiters-in_flight :
    (table : InflightTable) (k j : CacheKey)
    → ((take_waiters table k).1 ≡ waiting table k)
      × (in_flight (take_waiters table k).0 j ≡ (if k == j then none else in_flight table j))
      × ((take_waiters table k).0.next_channel ≡ table.next_channel)
      × ((take_waiters table k).0.log ≡ table.log)
unfolding take_waiters in_flight waiting
take_waiters-in_flight table k j = (refl, lookup-set_erase shard table.shards k j, refl, refl)

-- Completing a key delivers the value to each of the key's waiters, in order, after the
-- deliveries so far, and removes the key, and every other key stays as it is.
pub complete-in_flight :
    (table : InflightTable) (k j : CacheKey) (d : Delivery)
    → (in_flight (complete table k d) j ≡ (if k == j then none else in_flight table j))
      × ((complete table k d).log ≡ table.log ++ map (λ tx. (tx, d)) (waiting table k))
unfolding complete in_flight waiting
complete-in_flight table k j d = (lookup-set_erase shard table.shards k j, refl)
