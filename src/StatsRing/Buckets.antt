-- ===== src/StatsRing/Buckets.antt =====
-- The buckets of `StatsRing::bucket_aggregate`, src/querylog/ring.rs, against its `aggregate`.
use pathdns.Base.{
  ℕ, zero, suc, ◌+◌, ◌-◌, ◌*◌, ◌/◌, ◌%◌, ◌^◌, ◌≤◌, ◌<◌, ◌≡◌, ◌∙◌, max, List, [], ◌∷◌, ltb, ◌==◌,
  length, take, drop, drop-drop, Bool-cases, inl, inr, arith, refl, ap, sym,
}
use native.Mathlib.Nat.{
  le-div_iff_mul-le, div-mul-le_self, mul-le-mul_right, div-le_of_le-mul, mul-div_cancel_left,
  zero-div,
}
use pathdns.StatsRing.{
  StatsSample, default_sample, add64, accumulate, accumulate_all, span, recent, aggregate,
  bucket_start, bucket_end, first_secs, bucket, bucket_loop, default_samples, bucket_aggregate,
}

-- The buckets follow one another, from 0 to the number of samples, so no slice is out of bounds.
bucket_end-bucket_start :
    (n buckets b : ℕ) → b < buckets → bucket_end n buckets b ≡ bucket_start n buckets (b + 1)
bucket_end-bucket_start n buckets b h = elim (Bool-cases (b + 1 == buckets)) [
  | inl e ↦
      let last : b + 1 ≡ buckets = ground arith in
      rw (e, last) (sym (mul-div_cancel_left n {n = buckets} (omega arith)))
  | inr e ↦ rw e refl
]

pub bucket_bounds :
    (n buckets b : ℕ)
    → b < buckets
    → (bucket_start n buckets b ≤ bucket_end n buckets b) × (bucket_end n buckets b ≤ n)
bucket_bounds n buckets b h = rw (bucket_end-bucket_start n buckets b h) (
  (le-div_iff_mul-le {k = buckets} {x = b * n / buckets} {y = (b + 1) * n} (omega arith)).1 (
      omega (
        arith,
        div-mul-le_self (b * n) buckets,
        mul-le-mul_right {m = b} {n = b + 1} n (omega arith),
      )),
  div-le_of_le-mul buckets {m = (b + 1) * n} {n = n}
      (mul-le-mul_right {m = b + 1} {n = buckets} n (omega arith)),
)

abbrev pub sum_of : (StatsSample → ℕ) → List StatsSample → ℕ
sum_of f [] = 0
sum_of f (snap ∷ snaps) = f snap + sum_of f snaps

sum_of-take-drop :
    (f : StatsSample → ℕ) (n : ℕ) (xs : List StatsSample)
    → sum_of f (take n xs) + sum_of f (drop n xs) ≡ sum_of f xs
sum_of-take-drop f zero xs = omega arith
sum_of-take-drop f (suc n) [] = omega arith
sum_of-take-drop f (suc n) (x ∷ xs) = omega (arith, sum_of-take-drop f n xs)

sum_of-drop-length :
    (f : StatsSample → ℕ) (n : ℕ) (xs : List StatsSample) → length xs ≤ n → sum_of f (drop n xs) ≡ 0
sum_of-drop-length f zero [] h = refl
sum_of-drop-length f zero (x ∷ xs) h = absurd (omega arith)
sum_of-drop-length f (suc n) [] h = refl
sum_of-drop-length f (suc n) (x ∷ xs) h = sum_of-drop-length f n xs (omega arith)

-- A counter: a field that `accumulate` adds up.
abbrev pub IsCounter : (StatsSample → ℕ) → Type 0
IsCounter f =
    (f default_sample ≡ 0)
    × ((a s : StatsSample) → f (accumulate a s) ≡ add64 (f a) (f s))
    × ((a : StatsSample) (t : ℕ) → f (record a { unix_secs = t }) ≡ f a)

module _ (f : StatsSample → ℕ) (counter : IsCounter f) where
  sum_of-accumulate_all :
      (a : StatsSample) (xs : List StatsSample)
      → f a < 2 ^ 64
      → f (accumulate_all a xs) ≡ (f a + sum_of f xs) % 2 ^ 64
  unfolding accumulate_all
  sum_of-accumulate_all a [] h = omega arith
  sum_of-accumulate_all a (x ∷ xs) h =
      let e = counter.1 a x in
      omega (arith, e, sum_of-accumulate_all (accumulate a x) xs (omega (arith, e)))

  sum_of-bucket :
      (xs : List StatsSample) (buckets b : ℕ)
      → f (bucket xs buckets b)
        ≡ sum_of f (
            take
              (bucket_end (length xs) buckets b - bucket_start (length xs) buckets b)
              (drop (bucket_start (length xs) buckets b) xs))
          % 2 ^ 64
  unfolding bucket
  sum_of-bucket xs buckets b =
      let start = bucket_start (length xs) buckets b in
      let slice = take (bucket_end (length xs) buckets b - start) (drop start xs) in
      let total = sum_of-accumulate_all default_sample slice (omega (arith, counter.0)) in
      elim (Bool-cases (ltb start (bucket_end (length xs) buckets b))) [
        | inl l ↦
            rw (l, bucket)
              (counter.2 (accumulate_all default_sample slice) (first_secs (drop start xs))
                ∙ omega (arith, total, counter.0))
        | inr r ↦ rw (r, bucket) (omega (arith, total, counter.0))
      ]

  -- The buckets from `b` on add up to the samples from there on.
  sum_of-bucket_loop :
      (xs : List StatsSample) (buckets b left : ℕ)
      → b + left ≡ buckets
      → 0 < buckets
      → sum_of f (bucket_loop xs buckets b left) % 2 ^ 64
        ≡ sum_of f (drop (bucket_start (length xs) buckets b) xs) % 2 ^ 64
  unfolding bucket_loop
  sum_of-bucket_loop xs buckets b zero e p =
      let b_last : b ≡ buckets = omega arith in
      let end : bucket_start (length xs) buckets b ≡ length xs =
        rw b_last (mul-div_cancel_left (length xs) {n = buckets} p) in
      omega (
        arith,
        end,
        sum_of-drop-length f (bucket_start (length xs) buckets b) xs (omega (arith, end)),
      )
  sum_of-bucket_loop xs buckets b (suc left) e p =
      let n = length xs in
      let start = bucket_start n buckets b in
      let end = bucket_end n buckets b in
      let rest = drop start xs in
      let after : drop (end - start) rest ≡ drop (bucket_start n buckets (b + 1)) xs =
        drop-drop start (end - start) (bucket_start n buckets (b + 1)) xs (
          omega (
            arith,
            bucket_end-bucket_start n buckets b (omega arith),
            (bucket_bounds n buckets b (omega arith)).0,
          )) in
      omega (
        arith,
        sum_of-bucket xs buckets b,
        sum_of-take-drop f (end - start) rest,
        ap (sum_of f) after,
        sum_of-bucket_loop xs buckets (b + 1) left (omega arith) p,
      )

  default_samples_sum : (n : ℕ) → sum_of f (default_samples n) ≡ 0
  default_samples_sum zero = refl
  default_samples_sum (suc n) = omega (arith, counter.0, default_samples_sum n)

  -- The buckets add up to the aggregate.
  bucket_aggregate-aggregate :
      (samples : List StatsSample) (seconds buckets : ℕ)
      → sum_of f (bucket_aggregate samples seconds buckets) % 2 ^ 64
        ≡ f (aggregate samples seconds).0
  unfolding bucket_aggregate aggregate
  bucket_aggregate-aggregate samples seconds buckets =
      let total =
        sum_of-accumulate_all default_sample (recent samples seconds) (omega (arith, counter.0)) in
      elim (Bool-cases (span samples seconds == 0)) [
        | inl e ↦
            let short : span samples seconds ≡ 0 = ground arith in
            let none_left : sum_of f (recent samples seconds) ≡ 0 =
              sum_of-drop-length f (length samples - span samples seconds) samples
                (omega (arith, short)) in
            rw e (omega (arith, total, counter.0, none_left, default_samples_sum (max buckets 1)))
        | inr e ↦
            let xs = recent samples seconds in
            let start : 0 * length xs / max buckets 1 ≡ 0 =
              ap (λ k. k / max buckets 1) (omega arith) ∙ zero-div (max buckets 1) in
            rw e (
              omega (
                arith,
                sum_of-bucket_loop xs (max buckets 1) 0 (max buckets 1) (omega arith) (omega arith),
                ap (λ k. sum_of f (drop k xs)) start,
                total,
                counter.0,
              ))
      ]

all_counters :
    IsCounter (λ s. s.queries)
    × IsCounter (λ s. s.cache_hits)
    × IsCounter (λ s. s.upstream_ok)
    × IsCounter (λ s. s.upstream_err)
    × IsCounter (λ s. s.filtered)
unfolding accumulate
all_counters = (
  (refl, λ a s. refl, λ a t. refl),
  (refl, λ a s. refl, λ a t. refl),
  (refl, λ a s. refl, λ a t. refl),
  (refl, λ a s. refl, λ a t. refl),
  (refl, λ a s. refl, λ a t. refl),
)

-- Whatever the samples, the span of seconds and the number of buckets, the buckets of
-- `bucket_aggregate` add up, modulo 2^64, to the total of `aggregate` over that span in each of
-- the five counters.
pub buckets_add_up :
    (samples : List StatsSample) (seconds buckets : ℕ)
    → let parts = bucket_aggregate samples seconds buckets in
      let whole = (aggregate samples seconds).0 in
      (sum_of (λ s. s.queries) parts % 2 ^ 64 ≡ whole.queries)
      × (sum_of (λ s. s.cache_hits) parts % 2 ^ 64 ≡ whole.cache_hits)
      × (sum_of (λ s. s.upstream_ok) parts % 2 ^ 64 ≡ whole.upstream_ok)
      × (sum_of (λ s. s.upstream_err) parts % 2 ^ 64 ≡ whole.upstream_err)
      × (sum_of (λ s. s.filtered) parts % 2 ^ 64 ≡ whole.filtered)
buckets_add_up samples seconds buckets =
    let (q, c, k, e, f) = all_counters in
    (
      bucket_aggregate-aggregate (λ s. s.queries) q samples seconds buckets,
      bucket_aggregate-aggregate (λ s. s.cache_hits) c samples seconds buckets,
      bucket_aggregate-aggregate (λ s. s.upstream_ok) k samples seconds buckets,
      bucket_aggregate-aggregate (λ s. s.upstream_err) e samples seconds buckets,
      bucket_aggregate-aggregate (λ s. s.filtered) f samples seconds buckets,
    )
