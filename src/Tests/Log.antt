-- ===== src/Tests/Log.antt =====
-- The samples of the query log.
use pathdns.Base.{ℕ, ◌/◌, map, ◌%◌, ◌^◌, ◌≡◌, List, [], ◌∷◌, refl}
use pathdns.StatsRing.{StatsSample, aggregate, bucket_aggregate, accumulate, accumulate_all, bucket}
use pathdns.QpsRing.{empty_ring, snapshot}
use pathdns.QpsRing.Window.{last_counts, push_all, snapshot-push_all}
use pathdns.Base.{min}
use pathdns.StatsRing.Buckets.{sum_of, buckets_add_up}

abbrev minute : ℕ → ℕ → StatsSample
minute start n = record {
  unix_secs = start;
  queries = n;
  cache_hits = n / 2;
  upstream_ok = 1;
  upstream_err = 0;
  filtered = 0;
}

abbrev five_minutes : List StatsSample
five_minutes = minute 60 9 ∷ minute 120 4 ∷ minute 180 7 ∷ minute 240 1 ∷ minute 300 20 ∷ []

-- Four minutes in three buckets, of one, one and two samples.
four_minutes : map (λ s. s.queries) (bucket_aggregate five_minutes 240 3) ≡ 4 ∷ 7 ∷ 21 ∷ []
unfolding bucket_aggregate bucket accumulate accumulate_all
four_minutes = refl

buckets_add_up_example :
    let parts = bucket_aggregate five_minutes 240 3 in
    let whole = (aggregate five_minutes 240).0 in
    (sum_of (λ s. s.queries) parts % 2 ^ 64 ≡ whole.queries)
    × (sum_of (λ s. s.cache_hits) parts % 2 ^ 64 ≡ whole.cache_hits)
    × (sum_of (λ s. s.upstream_ok) parts % 2 ^ 64 ≡ whole.upstream_ok)
    × (sum_of (λ s. s.upstream_err) parts % 2 ^ 64 ≡ whole.upstream_err)
    × (sum_of (λ s. s.filtered) parts % 2 ^ 64 ≡ whole.filtered)
buckets_add_up_example = buckets_add_up five_minutes 240 3

snapshot-push_all_example :
    snapshot (push_all empty_ring (5 ∷ 6 ∷ 7 ∷ [])) 2 ≡ last_counts (min 2 3600) (5 ∷ 6 ∷ 7 ∷ [])
snapshot-push_all_example = snapshot-push_all (5 ∷ 6 ∷ 7 ∷ []) 2
