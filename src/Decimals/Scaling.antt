-- ===== src/Decimals/Scaling.antt =====
-- Moving the point of a decimal.
use switchboard_sdk.Prelude.{
  zero, suc, ℕ, ◌+◌, ◌-◌, ◌*◌, ◌/◌, ◌^◌, ◌≡◌, ◌<◌, refl, Bool, true, false, arith, ok, ltb, ap, sym,
  ◌∙◌, some,
}
use switchboard_sdk.Prelude.Int.{
  ℤ, pos, negsuc, negate, ◌*ℤ◌, ◌/ℤ◌, FitsSigned, fits_signed-FitsSigned,
}
use native.Mathlib.Nat.{mul-div_cancel, mul-lt-mul_of_pos_right, one-le-pow}
use switchboard_sdk.Error.{OnDemandError}
use switchboard_sdk.Decimals.{
  SwitchboardDecimal, scale_to, new_with_scale, pow10, checked_div, checked_mul,
}

pow10-fits :
    (checks : Bool) (n : ℕ)
    → 10 ^ n < 2 ^ 127
    → pow10 {E = OnDemandError} checks n ≡ ok (pos (10 ^ n))
unfolding pow10
pow10-fits checks n h = let fits : ltb (10 ^ n) (2 ^ 127) ≡ true = ground arith in rw fits refl

checked_mul-fits : (a b : ℤ) → FitsSigned 127 (a *ℤ b) → checked_mul a b ≡ some (a *ℤ b)
unfolding checked_mul
checked_mul-fits a b h = rw (fits_signed-FitsSigned 127 (a *ℤ b) h) refl

checked_div-pos :
    (a : ℤ) (p : ℕ)
    → 0 < p
    → FitsSigned 127 (a /ℤ pos p)
    → checked_div a (pos p) ≡ some (a /ℤ pos p)
unfolding checked_div
checked_div-pos a zero l h = absurd (omega arith)
checked_div-pos a (suc p) l h = rw (fits_signed-FitsSigned 127 (a /ℤ pos (suc p)) h) refl

-- Multiplying and dividing by the same positive number.
negate-suc : (n : ℕ) → 0 < n → (k : ℕ) × (n ≡ suc k) × (negate n ≡ negsuc k)
negate-suc zero l = absurd (omega arith)
negate-suc (suc k) l = (k, refl, refl)

mul-div : (a : ℤ) (p : ℕ) → 0 < p → (a *ℤ pos p) /ℤ pos p ≡ a
mul-div (pos a) p l = ap pos (mul-div_cancel a l)
mul-div (negsuc a) p l =
    let q = mul-lt-mul_of_pos_right {m = 0} {n = suc a} {k = p} (omega arith) l in
    let (k, e, n) = negate-suc (suc a * p) (omega (arith, q)) in
    let back : suc k / p ≡ suc a = ap (λ x. x / p) (sym e) ∙ mul-div_cancel (suc a) l in
    rw (n, back) refl

mul-one : (a : ℤ) → a ≡ a *ℤ pos 1
mul-one (pos a) = ap pos (omega arith)
mul-one (negsuc a) = let e : suc a * 1 ≡ suc a = omega arith in rw e refl

abbrev scaled : SwitchboardDecimal → ℕ → SwitchboardDecimal
scaled d up = record { mantissa = d.mantissa *ℤ pos (10 ^ up); scale = d.scale + up }

module _ (checks : Bool) (d : SwitchboardDecimal) (up : ℕ) (some_up : 0 < up)
    (p : 10 ^ up < 2 ^ 127) where
  scale_to-up :
      FitsSigned 127 (d.mantissa *ℤ pos (10 ^ up))
      → scale_to {E = OnDemandError} checks d (d.scale + up) ≡ ok (d.mantissa *ℤ pos (10 ^ up))
  unfolding scale_to
  scale_to-up fits =
      let not_down : ltb (d.scale + up) d.scale ≡ false = ground arith in
      let goes_up : ltb d.scale (d.scale + up) ≡ true = ground arith in
      let by : d.scale + up - d.scale ≡ up = omega arith in
      rw
        (
          not_down,
          goes_up,
          by,
          pow10-fits checks up p,
          checked_mul-fits d.mantissa (pos (10 ^ up)) fits,
        )
        refl

  scale_to-down :
      FitsSigned 127 d.mantissa
      → scale_to {E = OnDemandError} checks (scaled d up) d.scale ≡ ok d.mantissa
  unfolding scale_to
  scale_to-down fits =
      let goes_down : ltb d.scale (d.scale + up) ≡ true = ground arith in
      let by : d.scale + up - d.scale ≡ up = omega arith in
      let l : 0 < 10 ^ up = omega (arith, one-le-pow up 10 (omega arith)) in
      let back = mul-div d.mantissa (10 ^ up) l in
      rw
        (
          goes_down,
          by,
          pow10-fits checks up p,
          checked_div-pos (d.mantissa *ℤ pos (10 ^ up)) (10 ^ up) l (rw back fits),
          back,
        )
        refl

-- An up-scaling whose power of ten and whose product fit an i128 multiplies the mantissa by the power,
-- and scaling back gives the decimal that it came from, in either build.
pub new_with_scale-new_with_scale :
    (checks : Bool) (d : SwitchboardDecimal) (up : ℕ)
    → 10 ^ up < 2 ^ 127
    → FitsSigned 127 d.mantissa
    → FitsSigned 127 (d.mantissa *ℤ pos (10 ^ up))
    → (more : SwitchboardDecimal) × (new_with_scale {E = OnDemandError} checks d (d.scale + up)
        ≡ ok more)
      × (more.mantissa ≡ d.mantissa *ℤ pos (10 ^ up))
      × (new_with_scale {E = OnDemandError} checks more d.scale ≡ ok d)
unfolding new_with_scale
new_with_scale-new_with_scale checks d zero p m fits =
    let not_down : ltb (d.scale + 0) d.scale ≡ false = ground arith in
    let not_up : ltb d.scale (d.scale + 0) ≡ false = ground arith in
    let stays : (t : SwitchboardDecimal)
        → (u : ℕ) → ltb u t.scale ≡ false
        → ltb t.scale u ≡ false
        → scale_to {E = OnDemandError} checks t u ≡ ok t.mantissa =
      λ t u a b. unfold scale_to in rw (a, b) refl in
    let same : SwitchboardDecimal = record { mantissa = d.mantissa; scale = d.scale + 0 } in
    (
      same,
      rw (stays d (d.scale + 0) not_down not_up) refl,
      mul-one d.mantissa,
      rw (stays same d.scale not_up not_down) refl,
    )
new_with_scale-new_with_scale checks d (suc up) p m fits = (
  scaled d (suc up),
  rw (scale_to-up checks d (suc up) (omega arith) p fits) refl,
  refl,
  rw (scale_to-down checks d (suc up) (omega arith) p m) refl,
)
