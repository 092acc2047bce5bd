-- ===== src/Feed.antt =====
-- on_demand/accounts/pull_feed.rs of the on-demand crate: the data of a pull feed account and what
-- programs read from it. Padding and reserved fields are left out.
--
-- `Decimal` of rust_decimal is a parameter: its type, and `from_i128_with_scale`, where `none` is
-- the panic on a value that does not fit. `checks` says whether the build has overflow checks.
pub mod Median
pub mod Quorum
pub mod Staleness
pub mod Timestamps
pub mod Examples
use switchboard_sdk.Prelude.{
  ℕ, zero, suc, ◌+◌, ◌<◌, Bool, true, false, ◌&&◌, Option, none, some, List, [], ◌∷◌, map,
  if◌then◌else◌, ltb, leb, ◌==◌, length, get_elem?, take_while, keep, Outcome, ok, err, panic,
  ◌>>=◌, ◌>>◌, ok_or, unwrap, unwrap_or, not,
}
use switchboard_sdk.Prelude.Int.{ℤ, pos, leb_ℤ}
use switchboard_sdk.Prelude.Words.{Bytes, sub_u64}
use switchboard_sdk.Error.{OnDemandError, not_enough_samples, illegal_feed_value, stale_result}
use Median.{lower_bound_median}

abbrev pub precision : ℕ
precision = 18

-- The fields of the sysvar that the crate reads.
pub record Clock : Type 0 where
  pub slot : ℕ
  pub unix_timestamp : ℤ

pub record CurrentResult : Type 0 where
  pub value : ℤ
  pub std_dev : ℤ
  pub mean : ℤ
  pub range : ℤ
  pub min_value : ℤ
  pub max_value : ℤ
  pub num_samples : ℕ
  pub submission_idx : ℕ
  pub slot : ℕ
  pub min_slot : ℕ
  pub max_slot : ℕ

pub record OracleSubmission : Type 0 where
  pub oracle : Bytes
  pub slot : ℕ
  pub landed_at : ℕ
  pub value : ℤ

-- The two f32 are their bit patterns: no code computes with them.
pub record CompactResult : Type 0 where
  pub std_dev : ℕ
  pub mean : ℕ
  pub slot : ℕ

pub record PullFeedAccountData : Type 0 where
  pub submissions : List OracleSubmission
  pub authority : Bytes
  pub queue : Bytes
  pub feed_hash : Bytes
  pub initialized_at : ℤ
  pub permissions : ℕ
  pub max_variance : ℕ
  pub min_responses : ℕ
  pub name : Bytes
  pub historical_result_idx : ℕ
  pub min_sample_size : ℕ
  pub last_update_timestamp : ℤ
  pub lut_slot : ℕ
  pub result : CurrentResult
  pub max_staleness : ℕ
  pub historical_results : List CompactResult
  pub submission_timestamps : List ℤ

-- The new state of the result; `u8::MAX` samples.
pub debug_only_force_override : CurrentResult → ℤ → ℕ → CurrentResult
debug_only_force_override r value slot = record r {
  value = value;
  slot = slot;
  std_dev = pos 0;
  mean = value;
  range = pos 0;
  min_value = value;
  max_value = value;
  num_samples = 255;
  submission_idx = 0;
  min_slot = slot;
  max_slot = slot;
}

pub result_slot : CurrentResult → Option ℕ
result_slot r = if r.slot == 0 then none else some r.slot

pub min_slot : CurrentResult → Option ℕ
min_slot r = if r.slot == 0 then none else some r.min_slot

pub max_slot : CurrentResult → Option ℕ
max_slot r = if r.slot == 0 then none else some r.max_slot

is_empty : OracleSubmission → Bool
is_empty s = s.slot == 0

-- Whether the result is within the staleness threshold of the account.
pub is_result_vaild : Bool → PullFeedAccountData → Clock → Outcome OnDemandError Bool
is_result_vaild checks feed clock = do
  threshold ← sub_u64 checks clock.slot feed.max_staleness
  ok (leb threshold feed.result.slot)

pub result_submission : PullFeedAccountData → Outcome OnDemandError OracleSubmission
result_submission feed = unwrap (get_elem? feed.submissions feed.result.submission_idx)

pub result_ts : PullFeedAccountData → Outcome OnDemandError ℤ
result_ts feed = unwrap (get_elem? feed.submission_timestamps feed.result.submission_idx)

pub result_land_slot : PullFeedAccountData → Outcome OnDemandError ℕ
result_land_slot feed = do
  submission ← unwrap (get_elem? feed.submissions feed.result.submission_idx)
  ok submission.landed_at

-- `.filter(|s| s.slot >= clock.slot - max_staleness)`: the closure subtracts for each submission.
pub filter_recent :
    Bool → ℕ → ℕ → List OracleSubmission → Outcome OnDemandError (List OracleSubmission)
filter_recent checks slot max_staleness [] = ok []
filter_recent checks slot max_staleness (s ∷ ss) = do
  threshold ← sub_u64 checks slot max_staleness
  rest ← filter_recent checks slot max_staleness ss
  ok (if leb threshold s.slot then s ∷ rest else rest)

-- `.take_while(|s| !s.is_empty())`
pub filled : List OracleSubmission → List OracleSubmission
unfolding is_empty
filled = take_while (λ s. not (is_empty s))

pub valid_samples :
    Bool → PullFeedAccountData → Clock → Outcome OnDemandError (List OracleSubmission)
valid_samples checks feed clock =
    filter_recent checks clock.slot feed.max_staleness (filled feed.submissions)

max_slot_of : ℕ → List OracleSubmission → ℕ
max_slot_of best [] = best
max_slot_of best (s ∷ ss) = max_slot_of (if ltb best s.landed_at then s.landed_at else best) ss

pub last_update_slot : PullFeedAccountData → ℕ
unfolding max_slot_of
last_update_slot feed = max_slot_of 0 feed.submissions

-- `.enumerate()` up to the first empty submission, and those not older than the threshold.
indexed_recent : ℕ → ℕ → List OracleSubmission → List (ℕ × OracleSubmission)
unfolding is_empty
indexed_recent threshold i [] = []
indexed_recent threshold i (s ∷ ss) =
    let rest = indexed_recent threshold (i + 1) ss in
    if is_empty s then [] else if leb threshold s.slot then (i, s) ∷ rest else rest

pub current_result_samples :
    Bool → PullFeedAccountData → Outcome OnDemandError (List (ℕ × OracleSubmission))
current_result_samples checks feed = do
  slot_threshold ← sub_u64 checks (last_update_slot feed) feed.max_staleness
  ok (indexed_recent slot_threshold 0 feed.submissions)

-- `self.submission_timestamps[*idx]` for each sample.
pub timestamps_at : List ℤ → List (ℕ × OracleSubmission) → Outcome OnDemandError (List ℤ)
timestamps_at ts [] = ok []
timestamps_at ts ((i, s) ∷ samples) = do
  t ← unwrap (get_elem? ts i)
  rest ← timestamps_at ts samples
  ok (t ∷ rest)

-- `*timestamps.iter().min().unwrap_or(&0)` and the same with `max`.
pub min_of : List ℤ → ℤ
min_of [] = pos 0
min_of (t ∷ []) = t
min_of (t ∷ u ∷ ts) = let rest = min_of (u ∷ ts) in if leb_ℤ t rest then t else rest

pub max_of : List ℤ → ℤ
max_of [] = pos 0
max_of (t ∷ []) = t
max_of (t ∷ u ∷ ts) = let rest = max_of (u ∷ ts) in if leb_ℤ rest t then t else rest

pub current_result_ts_range : Bool → PullFeedAccountData → Outcome OnDemandError (ℤ × ℤ)
current_result_ts_range checks feed = do
  samples ← current_result_samples checks feed
  timestamps ← timestamps_at feed.submission_timestamps samples
  ok (min_of timestamps, max_of timestamps)

module _ {Decimal : Type 0} (from_i128_with_scale : ℤ → ℕ → Option Decimal) where
  -- The accessors of the result that answer in decimals share their shape.
  pub result_decimal : CurrentResult → (CurrentResult → ℤ) → Outcome OnDemandError (Option Decimal)
  result_decimal r field =
      if r.slot == 0
      then ok none
      else do d ← unwrap (from_i128_with_scale (field r) precision); ok (some d)

  pub submission_value : OracleSubmission → Outcome OnDemandError Decimal
  submission_value s = unwrap (from_i128_with_scale s.value precision)

  -- The median of the recent submissions, if there are enough of them.
  pub get_value : Bool → PullFeedAccountData → Clock → ℕ → ℕ → Bool → Outcome OnDemandError Decimal
  get_value checks feed clock max_staleness min_samples only_positive = do
    submissions ← filter_recent checks clock.slot max_staleness (filled feed.submissions)
    if ltb (length submissions) min_samples then err not_enough_samples else do
      median ←
          ok_or (lower_bound_median (map (λ (s : OracleSubmission). s.value) submissions))
            not_enough_samples
      if only_positive && leb_ℤ median (pos 0)
          then err illegal_feed_value
          else unwrap (from_i128_with_scale median precision)

  -- The stored result, unless it is stale.
  pub value : Bool → PullFeedAccountData → Clock → Outcome OnDemandError Decimal
  unfolding result_slot result_decimal
  value checks feed clock = do
    threshold ← sub_u64 checks clock.slot feed.max_staleness
    if ltb (unwrap_or (result_slot feed.result) 0) threshold
        then err stale_result
        else do answer ← result_decimal feed.result (λ r. r.value); ok_or answer stale_result
