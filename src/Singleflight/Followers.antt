-- ===== src/Singleflight/Followers.antt =====
-- Clients of one key, with the calls of all other clients in between (src/singleflight.rs).
use pathdns.Base.{
  ℕ, ◌≡◌, ◌≢◌, ◌∙◌, List, [], ◌∷◌, ◌++◌, map, Option, none, some, ◌==◌, if◌then◌else◌, Bool-cases,
  inl, inr, arith, ap, All,
}
use mathlib.Core.List.{append-nil, append_assoc}
use pathdns.Singleflight.{
  CacheKey, Waiters, Delivery, bytes, InflightTable, unwrap_or_default, take_waiters, complete,
}
use pathdns.Singleflight
use pathdns.Singleflight.Shards.{in_flight, waiting, register-in_flight, complete-in_flight}

-- A call into the table, by whichever client.
pub data Call : Type 0 where
  register : CacheKey → Call
  publish_bytes : CacheKey → List ℕ → Call
  publish_drop : CacheKey → Call
  remove : CacheKey → Call

unfoldable pub step : InflightTable → Call → InflightTable
step table (register k) = (Singleflight.register table k).0
step table (publish_bytes k resp) = Singleflight.publish_bytes table k resp
step table (publish_drop k) = Singleflight.publish_drop table k
step table (remove k) = Singleflight.remove table k

unfoldable pub run : InflightTable → List Call → InflightTable
run table [] = table
run table (c ∷ calls) = run (step table c) calls

-- The calls that do not end the flight of `k`.
abbrev pub Spares : CacheKey → Call → Type 0
Spares k (register j) = Unit {0}
Spares k (publish_bytes j resp) = j ≢ k
Spares k (publish_drop j) = j ≢ k
Spares k (remove j) = j ≢ k

abbrev to_list : Option ℕ → List ℕ
to_list none = []
to_list (some x) = x ∷ []

-- The receivers that `register` returns to the callers with key `k`, in order.
new_follower : CacheKey → InflightTable → Call → List ℕ
new_follower k table (register j) = if j == k then to_list (Singleflight.register table j).1 else []
new_follower k table _ = []

unfoldable pub followers : CacheKey → InflightTable → List Call → List ℕ
unfolding new_follower step
followers k table [] = []
followers k table (c ∷ calls) = new_follower k table c ++ followers k (step table c) calls

ended-in_flight :
    (table : InflightTable) (j k : CacheKey) (d : Delivery) (ws : Waiters)
    → in_flight table k ≡ some ws
    → j ≢ k
    → in_flight (complete table j d) k ≡ some (ws ++ [])
ended-in_flight table j k d ws e h = ground (arith, complete-in_flight table j k d, append-nil ws)

step-in_flight :
    (table : InflightTable) (k : CacheKey) (ws : Waiters) (c : Call)
    → in_flight table k ≡ some ws
    → Spares k c
    → in_flight (step table c) k ≡ some (ws ++ new_follower k table c)
unfolding step new_follower Singleflight.publish_bytes Singleflight.publish_drop Singleflight.remove
step-in_flight table k ws (register j) e s =
    let (after, result, _) = register-in_flight table j k in
    elim (Bool-cases (j == k)) [
      | inl same ↦
          let j' : j ≡ k = ground arith in ground (arith, after, result, e, ap (in_flight table) j')
      | inr other ↦ rw (after, other, append-nil) e
    ]
step-in_flight table k ws (publish_bytes j resp) e s = ended-in_flight table j k _ ws e s
step-in_flight table k ws (publish_drop j) e s = ended-in_flight table j k _ ws e s
step-in_flight table k ws (remove j) e s = ended-in_flight table j k _ ws e s

run-in_flight :
    (calls : List Call) (table : InflightTable) (k : CacheKey) (ws : Waiters)
    → in_flight table k ≡ some ws
    → All (Spares k) calls
    → in_flight (run table calls) k ≡ some (ws ++ followers k table calls)
unfolding run followers
run-in_flight [] table k ws e s = rw append-nil e
run-in_flight (c ∷ calls) table k ws e s =
    run-in_flight calls (step table c) k (ws ++ new_follower k table c)
      (step-in_flight table k ws c e s.0) s.1
    ∙ ap some (append_assoc ws (new_follower k table c) (followers k (step table c) calls))

-- When no caller holds a key, the first caller to register leads; and after any calls in between,
-- on this and other keys, that do not end this key's flight, the leader's publish delivers its
-- bytes to each caller that registered for the key since, in order of registration and to nobody
-- else, and leaves the key free.
pub flight_lem :
    (table : InflightTable) (k : CacheKey) (calls : List Call) (resp : List ℕ)
    → in_flight table k ≡ none
    → All (Spares k) calls
    → ((Singleflight.register table k).1 ≡ none)
      × ((Singleflight.publish_bytes (run (Singleflight.register table k).0 calls) k resp).log
          ≡ (run (Singleflight.register table k).0 calls).log
            ++ map (λ tx. (tx, bytes resp)) (followers k (Singleflight.register table k).0 calls))
      × (in_flight
            (Singleflight.publish_bytes (run (Singleflight.register table k).0 calls) k resp)
            k
          ≡ none)
unfolding Singleflight.publish_bytes waiting
flight_lem table k calls resp free s =
    let (after, result, _) = register-in_flight table k k in
    let led : in_flight (Singleflight.register table k).0 k ≡ some [] = ground (arith, after) in
    let flown = run-in_flight calls (Singleflight.register table k).0 k [] led s in
    let (freed, sent) =
      complete-in_flight (run (Singleflight.register table k).0 calls) k k (bytes resp) in
    (ground (arith, result), sent ∙ rw flown, ground (arith, freed))
