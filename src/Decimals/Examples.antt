-- ===== src/Decimals/Examples.antt =====
-- Decimals as pairs of a mantissa and a scale up to 28, and the theorems about decimals on them.
use switchboard_sdk.Prelude.{if◌then◌else◌, some, ℕ}
use switchboard_sdk.Decimals.{SwitchboardDecimal, RustDecimal, Ordering, less, equal, greater}
use switchboard_sdk.Prelude.Int.{negsuc, ℤ, ltb_ℤ}

abbrev example_decimal : SwitchboardDecimal
example_decimal = record { mantissa = negsuc 12344; scale = 2 }

-- Equal scales are compared by their mantissas; others are not needed here.
abbrev compare_pairs : ℤ × ℕ → ℤ × ℕ → Ordering
compare_pairs x y = if ltb_ℤ x.0 y.0 then less else if ltb_ℤ y.0 x.0 then greater else equal

abbrev pairs : RustDecimal (ℤ × ℕ)
pairs = record {
  try_from_i128_with_scale = λ m s. some (m, s);
  mantissa_of = λ d. d.0;
  scale_of = λ d. d.1;
  compare_decimals = compare_pairs;
  round_decimal = λ d. d;
}

abbrev larger_decimal : SwitchboardDecimal
larger_decimal = record { mantissa = negsuc 1234499; scale = 4 }
