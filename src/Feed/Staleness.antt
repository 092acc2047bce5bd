-- ===== src/Feed/Staleness.antt =====
-- When a result counts as stale: the subtraction of slots in either build profile.
use switchboard_sdk.Prelude.{
  ℕ, ◌+◌, ◌≤◌, ◌<◌, ◌≡◌, Bool, true, false, Option, some, arith, leb, ok, err, panic,
}
use switchboard_sdk.Prelude.Int.{ℤ}
use switchboard_sdk.Prelude.Words.{sub_u64, IsU64}
use switchboard_sdk.Error.{stale_result}
use switchboard_sdk.Feed.{Clock, PullFeedAccountData, precision, is_result_vaild, value}

-- With a clock at or past `max_staleness`, in either build, the result is valid exactly when it is
-- at most `max_staleness` slots older than the clock.
pub is_result_vaild_fresh :
    (checks : Bool) (feed : PullFeedAccountData) (clock : Clock)
    → feed.max_staleness ≤ clock.slot
    → is_result_vaild checks feed clock
      ≡ ok (leb clock.slot (feed.result.slot + feed.max_staleness))
unfolding is_result_vaild sub_u64
is_result_vaild_fresh checks feed clock h = ground arith

module _ {Decimal : Type 0} (from_i128_with_scale : ℤ → ℕ → Option Decimal)
    (feed : PullFeedAccountData) (clock : Clock) where
  -- A decimal that `value` returns is the stored value, the account holds a result, and with a
  -- clock at or past `max_staleness` the result is at most `max_staleness` slots old.
  pub value_fresh :
      (checks : Bool) {d : Decimal}
      → feed.max_staleness ≤ clock.slot
      → value from_i128_with_scale checks feed clock ≡ ok d
      → (clock.slot ≤ feed.result.slot + feed.max_staleness)
        × (0 < feed.result.slot)
        × (from_i128_with_scale feed.result.value precision ≡ some d)
  unfolding value sub_u64
  value_fresh checks h e = ground arith

  -- A clock before `max_staleness` with a result that is not newer: a build without overflow checks
  -- wraps the threshold and calls the result invalid and stale, and one with them panics.
  pub value_early_clock :
      IsU64 feed.max_staleness
      → clock.slot < feed.max_staleness
      → feed.result.slot ≤ clock.slot
      → (is_result_vaild false feed clock ≡ ok false)
        × (value from_i128_with_scale false feed clock ≡ err stale_result)
        × (is_result_vaild true feed clock ≡ panic)
        × (value from_i128_with_scale true feed clock ≡ panic)
  unfolding value is_result_vaild sub_u64
  value_early_clock u h old = (ground arith, ground arith, ground arith, ground arith)
