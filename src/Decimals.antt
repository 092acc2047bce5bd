-- ===== src/Decimals.antt =====
-- decimal.rs of the on-demand crate: decimals as a mantissa and a scale, and their conversions.
-- `Decimal` of rust_decimal is a parameter: its type, `try_from_i128_with_scale` (`none` is its error),
-- its mantissa and scale, and its comparison. `checks` says whether the build has overflow checks.
pub mod Scaling
pub mod Conversions
mod Examples
use switchboard_sdk.Prelude.{
  zero, not, ℕ, ◌+◌, ◌-◌, ◌*◌, ◌/◌, ◌^◌, Bool, true, false, Option, none, some, if◌then◌else◌, ltb,
  leb, ◌==◌, Outcome, ok, err, panic, ok_or, unwrap, ◌>>=◌,
}
use switchboard_sdk.Prelude.Int.{
  ℤ, pos, negsuc, negate, fits_signed, sub_ℕ, ◌*ℤ◌, ◌/ℤ◌, wrap_signed,
}
use switchboard_sdk.Error.{OnDemandError, decimal_conversion_error}

pub record BorshDecimal : Type 0 where
  pub mantissa : ℤ
  pub scale : ℕ

pub record SwitchboardDecimal : Type 0 where
  pub mantissa : ℤ
  pub scale : ℕ

unfoldable pub new : ℤ → ℕ → SwitchboardDecimal
new mantissa scale = record { mantissa = mantissa; scale = scale }

unfoldable pub to_borsh : SwitchboardDecimal → BorshDecimal
to_borsh s = record { mantissa = s.mantissa; scale = s.scale }

unfoldable pub from_borsh : BorshDecimal → SwitchboardDecimal
from_borsh val = record { mantissa = val.mantissa; scale = val.scale }

-- `10_i128.pow(n)`: an overflow panics with overflow checks, and wraps without them.
unfoldable pub pow10 : {E : Type 0} → Bool → ℕ → Outcome E ℤ
pow10 checks n =
    if ltb (10 ^ n) (2 ^ 127)
    then ok (pos (10 ^ n))
    else if checks
    then panic
    else ok (wrap_signed 127 (10 ^ n))

-- `checked_div` and `checked_mul` on i128.
unfoldable pub checked_div : ℤ → ℤ → Option ℤ
checked_div a (pos zero) = none
checked_div a b = let q = a /ℤ b in if fits_signed 127 q then some q else none

unfoldable pub checked_mul : ℤ → ℤ → Option ℤ
checked_mul a b = let p = a *ℤ b in if fits_signed 127 p then some p else none

unfoldable pub scale_to : {E : Type 0} → Bool → SwitchboardDecimal → ℕ → Outcome E ℤ
scale_to checks d new_scale =
    if ltb new_scale d.scale
    then (do divisor ← pow10 checks (d.scale - new_scale); unwrap (checked_div d.mantissa divisor))
    else if ltb d.scale new_scale
    then (do factor ← pow10 checks (new_scale - d.scale); unwrap (checked_mul d.mantissa factor))
    else ok d.mantissa

unfoldable pub new_with_scale :
    {E : Type 0} → Bool → SwitchboardDecimal → ℕ → Outcome E SwitchboardDecimal
new_with_scale checks d new_scale = do
  mantissa ← scale_to checks d new_scale
  ok (record { mantissa = mantissa; scale = new_scale })

-- What the crate uses of rust_decimal; `compare_decimals` is `Ord::cmp`.
pub data Ordering : Type 0 where
  less equal greater : Ordering

pub record RustDecimal (Decimal : Type 0) : Type 0 where
  pub try_from_i128_with_scale : ℤ → ℕ → Option Decimal
  pub mantissa_of : Decimal → ℤ
  pub scale_of : Decimal → ℕ
  pub compare_decimals : Decimal → Decimal → Ordering
  pub round_decimal : Decimal → Decimal

module _ {Decimal : Type 0} (lib : RustDecimal Decimal) where
  open lib use {try_from_i128_with_scale, mantissa_of, scale_of, compare_decimals, round_decimal}

  unfoldable pub from_rust_decimal : Decimal → SwitchboardDecimal
  unfolding new
  from_rust_decimal d = new (mantissa_of d) (scale_of d)

  unfoldable pub borsh_from_decimal : Decimal → BorshDecimal
  borsh_from_decimal d = record { mantissa = mantissa_of d; scale = scale_of d }

  unfoldable pub try_into_decimal : SwitchboardDecimal → Outcome OnDemandError Decimal
  try_into_decimal d = ok_or (try_from_i128_with_scale d.mantissa d.scale) decimal_conversion_error

  unfoldable pub borsh_try_into_decimal : BorshDecimal → Outcome OnDemandError Decimal
  borsh_try_into_decimal d =
      ok_or (try_from_i128_with_scale d.mantissa d.scale) decimal_conversion_error

  -- `try_into().unwrap()`
  unfoldable pub expect_decimal : SwitchboardDecimal → Outcome OnDemandError Decimal
  expect_decimal d = elim (try_into_decimal d) [ ok x ↦ ok x | err e ↦ panic | panic ↦ panic ]

  unfoldable pub cmp : SwitchboardDecimal → SwitchboardDecimal → Outcome OnDemandError Ordering
  cmp a b = do s ← expect_decimal a; other ← expect_decimal b; ok (compare_decimals s other)

  unfoldable pub lt : SwitchboardDecimal → SwitchboardDecimal → Outcome OnDemandError Bool
  lt a b = do
    s ← expect_decimal a
    other ← expect_decimal b
    ok (elim (compare_decimals s other) [ less ↦ true | equal ↦ false | greater ↦ false ])

  unfoldable pub to_bool : SwitchboardDecimal → Outcome OnDemandError Bool
  to_bool s = do
    dec ← expect_decimal s
    ok (elim (mantissa_of (round_decimal dec)) [ pos n ↦ not (n == 0) | negsuc n ↦ true ])
