-- ===== src/Feed/Examples.antt =====
-- A feed with three submissions and an unused slot, and the theorems about feeds on it.
use switchboard_sdk.Prelude.Words.{sub_u64}
use switchboard_sdk.Prelude.{
  replicate, ◌<◌, arith, ◌+◌, ◌≤◌, ℕ, true, false, Option, some, [], ◌∷◌, refl, ok, err, panic, ◌≡◌,
}
use switchboard_sdk.Feed.{
  result_decimal, result_slot, precision, is_empty, max_slot_of, filled, is_result_vaild,
  last_update_slot, filter_recent, Clock, OracleSubmission, PullFeedAccountData, get_value, value,
}
use switchboard_sdk.Prelude.Int.{leb_ℤ, pos, ℤ, ltb_ℤ}
use switchboard_sdk.Error.{stale_result}
use switchboard_sdk.Feed.Median.{
  sort, insert_sorted, lower_bound_median, lower_bound_median-rank, count_if,
}
use switchboard_sdk.Feed.Quorum.{get_value-Explains, fresh_values, Explains}
use switchboard_sdk.Feed.Staleness.{value_fresh, value_early_clock}

abbrev submission_of : ℕ → ℤ → OracleSubmission
submission_of slot value = record { oracle = []; slot = slot; landed_at = slot + 1; value = value }

abbrev pub example_feed : PullFeedAccountData
example_feed = record {
  submissions =
      submission_of 100 (pos 7)
      ∷ submission_of 98 (pos 5)
      ∷ submission_of 99 (pos 9)
      ∷ submission_of 0 (pos 0)
      ∷ [];
  authority = [];
  queue = [];
  feed_hash = replicate 32 2;
  initialized_at = pos 0;
  permissions = 0;
  max_variance = 0;
  min_responses = 1;
  name = [];
  historical_result_idx = 0;
  min_sample_size = 1;
  last_update_timestamp = pos 0;
  lut_slot = 0;
  result = record {
    value = pos 7;
    std_dev = pos 0;
    mean = pos 7;
    range = pos 4;
    min_value = pos 5;
    max_value = pos 9;
    num_samples = 3;
    submission_idx = 0;
    slot = 100;
    min_slot = 98;
    max_slot = 100;
  };
  max_staleness = 2;
  historical_results = [];
  submission_timestamps = pos 50 ∷ pos 48 ∷ pos 49 ∷ pos 0 ∷ [];
}

abbrev example_clock : Clock
example_clock = record { slot = 101; unix_timestamp = pos 51 }

-- The clock of a chain that has just started.
abbrev early_clock : Clock
early_clock = record { slot = 1; unix_timestamp = pos 0 }

abbrev early_feed : PullFeedAccountData
early_feed = record example_feed { result = record example_feed.result { slot = 1 } }

abbrev decimal_of : ℤ → ℕ → Option (ℤ × ℕ)
decimal_of mantissa scale = some (mantissa, scale)

get_value_run : get_value decimal_of true example_feed example_clock 2 2 true ≡ ok (pos 9, 18)
unfolding get_value filter_recent filled is_empty lower_bound_median sort insert_sorted sub_u64
get_value_run = refl

get_value-Explains_example :
    Explains decimal_of
      (fresh_values example_feed example_clock 2)
      2
      true
      (get_value decimal_of true example_feed example_clock 2 2 true)
get_value-Explains_example =
    get_value-Explains decimal_of true example_feed example_clock 2 2 true (omega arith)

lower_bound_median-rank_example :
    (count_if (λ y. ltb_ℤ y (pos 7)) (pos 3 ∷ pos 7 ∷ []) ≤ 1)
    × (1 < count_if (λ y. leb_ℤ y (pos 7)) (pos 3 ∷ pos 7 ∷ []))
lower_bound_median-rank_example =
    lower_bound_median-rank (pos 3 ∷ pos 7 ∷ []) (pos 7)
      (unfold lower_bound_median sort insert_sorted in refl)

value_fresh_example :
    (101 ≤ 100 + 2) × (0 < 100) × (decimal_of (pos 7) precision ≡ some (pos 7, 18))
value_fresh_example =
    value_fresh decimal_of example_feed example_clock true (omega arith)
      (unfold value sub_u64 result_slot result_decimal in refl)

value_early_clock_example :
    (is_result_vaild false early_feed early_clock ≡ ok false)
    × (value decimal_of false early_feed early_clock ≡ err stale_result)
    × (is_result_vaild true early_feed early_clock ≡ panic)
    × (value decimal_of true early_feed early_clock ≡ panic)
value_early_clock_example =
    value_early_clock decimal_of early_feed early_clock (omega arith) (omega arith) (omega arith)

last_update_slot_run : last_update_slot example_feed ≡ 101
unfolding last_update_slot max_slot_of
last_update_slot_run = refl
