-- ===== src/Feed/Timestamps.antt =====
-- The timestamps behind the current result: which are read, and the range that is returned.
use switchboard_sdk.Prelude.{
  ◌-◌, All-mono, All-zip, ap, ℕ, suc, ◌+◌, ◌≤◌, ◌<◌, ◌≡◌, refl, Bool, List, [], ◌∷◌, arith,
  if◌then◌else◌, ltb, length, get_elem?-lt, All, ok,
}
use switchboard_sdk.Prelude.Int.{ℤ, ◌≤ℤ◌}
use switchboard_sdk.Prelude.Words.{sub_u64}
use switchboard_sdk.Feed.{
  OracleSubmission, PullFeedAccountData, max_slot_of, last_update_slot, indexed_recent,
  current_result_samples, timestamps_at, min_of, max_of, current_result_ts_range,
}

max_slot_of-le : (best : ℕ) (ss : List OracleSubmission) → best ≤ max_slot_of best ss
unfolding max_slot_of
max_slot_of-le best [] = omega arith
max_slot_of-le best (s ∷ ss) =
    ground (arith, max_slot_of-le (if ltb best s.landed_at then s.landed_at else best) ss)

max_slot_of-bound :
    (best : ℕ) (ss : List OracleSubmission) → All (λ s. s.landed_at ≤ max_slot_of best ss) ss
unfolding max_slot_of
max_slot_of-bound best [] = tt
max_slot_of-bound best (s ∷ ss) =
    let next = if ltb best s.landed_at then s.landed_at else best in
    (ground (arith, max_slot_of-le next ss), max_slot_of-bound next ss)

-- No submission landed after `last_update_slot`.
pub last_update_slot-bound :
    (feed : PullFeedAccountData) → All (λ s. s.landed_at ≤ last_update_slot feed) feed.submissions
unfolding last_update_slot
last_update_slot-bound feed = max_slot_of-bound 0 feed.submissions

abbrev IsIndex : ℕ → ℕ × OracleSubmission → Type 0
IsIndex n p = p.0 < n

indexed_recent-IsIndex :
    (threshold i n : ℕ) (ss : List OracleSubmission)
    → i + length ss ≤ n
    → All (IsIndex n) (indexed_recent threshold i ss)
unfolding indexed_recent
indexed_recent-IsIndex threshold i n [] h = tt
indexed_recent-IsIndex threshold i n (s ∷ ss) h =
    ground (arith, indexed_recent-IsIndex threshold (i + 1) n ss)

timestamps_at-total :
    (ts : List ℤ) (samples : List (ℕ × OracleSubmission))
    → All (IsIndex (length ts)) samples
    → (xs : List ℤ) × (timestamps_at ts samples ≡ ok xs) × (length xs ≡ length samples)
unfolding timestamps_at
timestamps_at-total ts [] h = ([], refl, refl)
timestamps_at-total ts ((i, s) ∷ samples) h =
    let (t, e) = get_elem?-lt ts i h.0 in
    let (xs, run, n) = timestamps_at-total ts samples h.1 in (t ∷ xs, rw (e, run), ap suc n)

-- The bounds that `min_of` and `max_of` step by.
min_of_step :
    (t u : ℤ) (ts : List ℤ) → (min_of (t ∷ u ∷ ts) ≤ℤ t) × (min_of (t ∷ u ∷ ts) ≤ℤ min_of (u ∷ ts))
unfolding min_of
min_of_step t u ts = (ground arith, ground arith)

max_of_step :
    (t u : ℤ) (ts : List ℤ) → (t ≤ℤ max_of (t ∷ u ∷ ts)) × (max_of (u ∷ ts) ≤ℤ max_of (t ∷ u ∷ ts))
unfolding max_of
max_of_step t u ts = (ground arith, ground arith)

min_of-le : (t : ℤ) (ts : List ℤ) → All (λ u. min_of (t ∷ ts) ≤ℤ u) (t ∷ ts)
min_of-le t [] = (unfold min_of in omega arith, tt)
min_of-le t (u ∷ ts) =
    let (a, b) = min_of_step t u ts in (a, All-mono (λ v h. omega arith) (u ∷ ts) (min_of-le u ts))

max_of-ge : (t : ℤ) (ts : List ℤ) → All (λ u. u ≤ℤ max_of (t ∷ ts)) (t ∷ ts)
max_of-ge t [] = (unfold max_of in omega arith, tt)
max_of-ge t (u ∷ ts) =
    let (a, b) = max_of_step t u ts in (a, All-mono (λ v h. omega arith) (u ∷ ts) (max_of-ge u ts))

min_max_bounds : (ts : List ℤ) → All (λ u. (min_of ts ≤ℤ u) × (u ≤ℤ max_of ts)) ts
min_max_bounds [] = tt
min_max_bounds (t ∷ ts) =
    All-zip (λ u. min_of (t ∷ ts) ≤ℤ u) (λ u. u ≤ℤ max_of (t ∷ ts)) (t ∷ ts) (min_of-le t ts)
      (max_of-ge t ts)

current_result_samples-indexed :
    (checks : Bool) (feed : PullFeedAccountData)
    → feed.max_staleness ≤ last_update_slot feed
    → current_result_samples checks feed
      ≡ ok (indexed_recent (last_update_slot feed - feed.max_staleness) 0 feed.submissions)
unfolding current_result_samples sub_u64
current_result_samples-indexed checks feed h = ground arith

current_result_ts_range_run :
    (checks : Bool) (feed : PullFeedAccountData) {samples : List (ℕ × OracleSubmission)}
    {ts : List ℤ}
    → current_result_samples checks feed ≡ ok samples
    → timestamps_at feed.submission_timestamps samples ≡ ok ts
    → current_result_ts_range checks feed ≡ ok (min_of ts, max_of ts)
unfolding current_result_ts_range
current_result_ts_range_run checks feed e run = rw (e, run)

-- Where no slot is subtracted below 0 and every submission has its timestamp,
-- `current_result_ts_range` reads a timestamp for each sample without an index out of bounds, and
-- returns bounds that hold of them all.
pub current_result_ts_range-bounds :
    (checks : Bool) (feed : PullFeedAccountData)
    → feed.max_staleness ≤ last_update_slot feed
    → length feed.submissions ≤ length feed.submission_timestamps
    → (samples : List (ℕ × OracleSubmission)) × (ts : List ℤ) × (current_result_samples checks feed
        ≡ ok samples)
      × (timestamps_at feed.submission_timestamps samples ≡ ok ts)
      × (length ts ≡ length samples)
      × (current_result_ts_range checks feed ≡ ok (min_of ts, max_of ts))
      × All (λ u. (min_of ts ≤ℤ u) × (u ≤ℤ max_of ts)) ts
current_result_ts_range-bounds checks feed h n =
    let threshold : ℕ = last_update_slot feed - feed.max_staleness in
    let e = current_result_samples-indexed checks feed h in
    let (ts, run, len) =
      timestamps_at-total feed.submission_timestamps (indexed_recent threshold 0 feed.submissions) (
        indexed_recent-IsIndex threshold 0 (length feed.submission_timestamps) feed.submissions
          (omega arith)) in
    (_, ts, e, run, len, current_result_ts_range_run checks feed e run, min_max_bounds ts)
