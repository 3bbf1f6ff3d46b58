-- ===== src/Tests/State.antt =====
-- The parts that keep state.
use pathdns.Base.{ℕ, ◌+◌, ◌-◌, ◌≡◌, List, [], ◌∷◌, ◌++◌, map, none, refl, arith}
use pathdns.Base.Assoc
use pathdns.IpRange.{Range, build, contains}
use pathdns.IpRange.Merge.{IsMerged, covers, build-IsMerged}
use pathdns.IpRange.Member.{contains-build}
use pathdns.EventRing.{Event, EventRing, push_batch}
use pathdns.EventRing.Window.{newest, push_batch-newest}
use pathdns.Singleflight
use pathdns.Singleflight.{InflightTable, bytes}
use pathdns.Singleflight.Shards.{in_flight}
use pathdns.Singleflight.Followers.{Call, run, followers, flight_lem}

abbrev blocks : List Range
blocks = (30, 40) ∷ (10, 20) ∷ (21, 25) ∷ (12, 14) ∷ []

blocks_built : build blocks ≡ (10, 25) ∷ (30, 40) ∷ []
unfolding build
blocks_built = refl

build-IsMerged_example : IsMerged (build blocks)
build-IsMerged_example = build-IsMerged blocks (omega arith)

contains-build_example : contains (build blocks) 22 ≡ covers blocks 22
contains-build_example = contains-build blocks 22 (omega arith) (omega arith)

abbrev event : ℕ → Event
event n = record { seq = n; qname = [] }

abbrev full_ring : EventRing
full_ring = record { buf = event 2 ∷ event 3 ∷ []; capacity = 2 }

push_batch-newest_example :
    ((push_batch full_ring (event 4 ∷ [])).0.buf
      ≡ newest 2 (event 1 ∷ event 2 ∷ event 3 ∷ event 4 ∷ []))
    × ((push_batch full_ring (event 4 ∷ [])).0.capacity ≡ 2)
    × ((push_batch full_ring (event 4 ∷ [])).1 ≡ 2 + 1 - 2)
push_batch-newest_example =
    push_batch-newest full_ring (event 1 ∷ event 2 ∷ event 3 ∷ []) (event 4 ∷ []) (omega arith) refl

abbrev two_calls : List Call
two_calls = Call.register 7 ∷ Call.register 71 ∷ Call.publish_drop 71 ∷ Call.register 7 ∷ []

abbrev led : InflightTable
led = (Singleflight.register Singleflight.new 7).0

flight_lem_example :
    ((Singleflight.register Singleflight.new 7).1 ≡ none)
    × ((Singleflight.publish_bytes (run led two_calls) 7 (1 ∷ [])).log
        ≡ (run led two_calls).log ++ map (λ tx. (tx, bytes (1 ∷ []))) (followers 7 led two_calls))
    × (in_flight (Singleflight.publish_bytes (run led two_calls) 7 (1 ∷ [])) 7 ≡ none)
flight_lem_example = flight_lem Singleflight.new 7 two_calls (1 ∷ []) free (omega arith)
  where
    free : in_flight Singleflight.new 7 ≡ none
    free = unfold in_flight Singleflight.new Assoc.lookup in refl
