-- ===== src/StatsRing.antt =====
-- The minute samples of the query log, `StatsRing` of src/querylog/ring.rs. The lock is held for the
-- whole of each method. Sums of counters are taken modulo 2^64.
pub mod Buckets
use pathdns.Base.{
  ℕ, zero, suc, ◌+◌, ◌-◌, ◌*◌, ◌/◌, ◌%◌, ◌^◌, min, max, List, [], ◌∷◌, ◌++◌, Bool, ltb, ◌==◌,
  if◌then◌else◌, length, take, drop,
}

pub record StatsSample : Type 0 where
  pub unix_secs : ℕ
  pub queries : ℕ
  pub cache_hits : ℕ
  pub upstream_ok : ℕ
  pub upstream_err : ℕ
  pub filtered : ℕ

abbrev pub default_sample : StatsSample
default_sample = record {
  unix_secs = 0;
  queries = 0;
  cache_hits = 0;
  upstream_ok = 0;
  upstream_err = 0;
  filtered = 0;
}

abbrev pub sample_secs : ℕ
sample_secs = 60

abbrev pub ring_len : ℕ
ring_len = 24 * 60

unfoldable pub push : List StatsSample → StatsSample → List StatsSample
push samples snap = (if length samples == ring_len then drop 1 samples else samples) ++ (snap ∷ [])

-- `u64` addition.
abbrev pub add64 : ℕ → ℕ → ℕ
add64 a b = (a + b) % 2 ^ 64

-- The five lines `agg.field += snap.field`.
unfoldable pub accumulate : StatsSample → StatsSample → StatsSample
accumulate agg snap = record agg {
  queries = add64 agg.queries snap.queries;
  cache_hits = add64 agg.cache_hits snap.cache_hits;
  upstream_ok = add64 agg.upstream_ok snap.upstream_ok;
  upstream_err = add64 agg.upstream_err snap.upstream_err;
  filtered = add64 agg.filtered snap.filtered;
}

unfoldable pub accumulate_all : StatsSample → List StatsSample → StatsSample
unfolding accumulate
accumulate_all agg [] = agg
accumulate_all agg (snap ∷ snaps) = accumulate_all (accumulate agg snap) snaps

abbrev pub first_secs : List StatsSample → ℕ
first_secs [] = 0
first_secs (snap ∷ snaps) = snap.unix_secs

-- How many samples a span of seconds covers, and these.
abbrev pub span : List StatsSample → ℕ → ℕ
span samples seconds = min (min (seconds / sample_secs) ring_len) (length samples)

abbrev pub recent : List StatsSample → ℕ → List StatsSample
recent samples seconds = drop (length samples - span samples seconds) samples

unfoldable pub aggregate : List StatsSample → ℕ → StatsSample × ℕ
unfolding accumulate_all
aggregate samples seconds =
    (accumulate_all default_sample (recent samples seconds), first_secs (recent samples seconds))

-- `&snaps[start..end]`, with the ends of bucket `b`.
abbrev pub bucket_start : ℕ → ℕ → ℕ → ℕ
bucket_start n buckets b = b * n / buckets

abbrev pub bucket_end : ℕ → ℕ → ℕ → ℕ
bucket_end n buckets b = if b + 1 == buckets then n else (b + 1) * n / buckets

unfoldable pub bucket : List StatsSample → ℕ → ℕ → StatsSample
unfolding accumulate_all
bucket snaps buckets b =
    let start = bucket_start (length snaps) buckets b in
    let end = bucket_end (length snaps) buckets b in
    let agg = accumulate_all default_sample (take (end - start) (drop start snaps)) in
    if ltb start end then record agg { unix_secs = first_secs (drop start snaps) } else agg

-- The `for` loop, from `b` on, over the buckets that are left.
unfoldable pub bucket_loop : List StatsSample → ℕ → ℕ → ℕ → List StatsSample
unfolding bucket
bucket_loop snaps buckets b zero = []
bucket_loop snaps buckets b (suc left) =
    bucket snaps buckets b ∷ bucket_loop snaps buckets (b + 1) left

abbrev pub default_samples : ℕ → List StatsSample
default_samples zero = []
default_samples (suc n) = default_sample ∷ default_samples n

unfoldable pub bucket_aggregate : List StatsSample → ℕ → ℕ → List StatsSample
unfolding bucket_loop
bucket_aggregate samples seconds buckets' =
    let buckets = max buckets' 1 in
    if span samples seconds == 0
    then default_samples buckets
    else bucket_loop (recent samples seconds) buckets 0 buckets
