-- ===== src/QpsRing.antt =====
-- The counts of queries per second, `QpsRing` of src/querylog/ring.rs. A lock that is poisoned, which
-- takes a panic, is not modelled: the build aborts on one.
pub mod Window
use pathdns.Base.{ℕ, ◌+◌, ◌-◌, min, List, [], ◌∷◌, ◌++◌, ◌==◌, if◌then◌else◌, length, drop}

-- The queue `data`, the oldest count first.
abbrev pub QpsRing : Type 0
QpsRing = List ℕ

abbrev pub empty_ring : QpsRing
empty_ring = []

unfoldable pub push_count : QpsRing → ℕ → QpsRing
push_count data_queue count =
    (if length data_queue == 3600 then drop 1 data_queue else data_queue) ++ (count ∷ [])

unfoldable pub snapshot : QpsRing → ℕ → List ℕ
snapshot data_queue n =
    let take = min (min n 3600) (length data_queue) in drop (length data_queue - take) data_queue
