-- ===== src/Decimals/Conversions.antt =====
-- Conversions between the decimals, and their order.
use switchboard_sdk.Prelude.{
  ◌≡◌, ◌⊎◌, ◌↔◌, inl, inr, refl, Bool, true, false, some, none, Option-cases, ok, panic, Outcome,
}
use switchboard_sdk.Error.{OnDemandError}
use switchboard_sdk.Decimals.{
  SwitchboardDecimal, BorshDecimal, RustDecimal, to_borsh, from_borsh, try_into_decimal,
  borsh_try_into_decimal, from_rust_decimal, borsh_from_decimal, expect_decimal, cmp, lt, new,
  Ordering, less, equal, greater,
}

less_test :
    (o : Ordering)
    → (◌≡◌ {A = Outcome OnDemandError Bool}
        (ok (elim o [ less ↦ true | equal ↦ false | greater ↦ false ]))
        (ok true))
      ↔ (o ≡ less)
less_test less = (λ e. refl, λ e. refl)
less_test equal = (λ e. cc, λ e. cc)
less_test greater = (λ e. cc, λ e. cc)

module _ {Decimal : Type 0} (lib : RustDecimal Decimal) where
  open lib use {try_from_i128_with_scale, mantissa_of, scale_of, compare_decimals}

  -- Where rust_decimal reads the mantissa and the scale of each decimal back as that decimal, every
  -- decimal survives both of the crate's forms, and each form the other.
  pub from_rust_decimal-try_into_decimal :
      ((d : Decimal) → try_from_i128_with_scale (mantissa_of d) (scale_of d) ≡ some d)
      → ((d : Decimal)
          → (try_into_decimal lib (from_rust_decimal lib d) ≡ ok d)
            × (borsh_try_into_decimal lib (borsh_from_decimal lib d) ≡ ok d)
            × (from_borsh (borsh_from_decimal lib d) ≡ from_rust_decimal lib d))
        × ((s : SwitchboardDecimal) → from_borsh (to_borsh s) ≡ s)
        × ((b : BorshDecimal) → to_borsh (from_borsh b) ≡ b)
  unfolding try_into_decimal borsh_try_into_decimal from_rust_decimal borsh_from_decimal from_borsh
      to_borsh new
  from_rust_decimal-try_into_decimal reads =
      (λ d. (rw (reads d) refl, rw (reads d) refl, refl), λ s. refl, λ b. refl)

  abbrev pub Converts : SwitchboardDecimal → Decimal → Type 0
  Converts s d = try_from_i128_with_scale s.mantissa s.scale ≡ some d

  expect_decimal_cases :
      (s : SwitchboardDecimal)
      → ((d : Decimal) × Converts s d × (expect_decimal lib s ≡ ok d))
        ⊎ ((try_from_i128_with_scale s.mantissa s.scale ≡ none) × (expect_decimal lib s ≡ panic))
  unfolding expect_decimal try_into_decimal
  expect_decimal_cases s = elim (Option-cases (try_from_i128_with_scale s.mantissa s.scale)) [
    | inl e ↦ inr (e, rw (expect_decimal, try_into_decimal, e) refl)
    | inr (d, e) ↦ inl (d, e, rw (expect_decimal, try_into_decimal, e) refl)
  ]

  -- Comparing two decimals answers the order of what they convert to, and `lt` is true exactly when that
  -- is `less`; a decimal that does not convert makes both panic.
  pub cmp-lt :
      (a b : SwitchboardDecimal)
      → ((x : Decimal) × (y : Decimal) × Converts a x
          × Converts b y
          × (cmp lib a b ≡ ok (compare_decimals x y))
          × ((lt lib a b ≡ ok true) ↔ (compare_decimals x y ≡ less)))
        ⊎ (((try_from_i128_with_scale a.mantissa a.scale ≡ none)
              ⊎ (try_from_i128_with_scale b.mantissa b.scale ≡ none))
            × (cmp lib a b ≡ panic)
            × (lt lib a b ≡ panic))
  unfolding cmp lt
  cmp-lt a b = elim (expect_decimal_cases a) [
    | inr (e, r) ↦ inr (inl e, rw r refl, rw r refl)
    | inl (x, c, r) ↦ elim (expect_decimal_cases b) [
      | inr (e, s) ↦ inr (inr e, rw (r, s) refl, rw (r, s) refl)
      | inl (y, g, s) ↦
          inl (x, y, c, g, rw (r, s) refl, rw (r, s) (less_test (compare_decimals x y)))
    ]
  ]
