-- ===== src/Feed/Quorum.antt =====
-- What `get_value` answers, against a description of the fresh values.
use switchboard_sdk.Prelude.{
  ◌⊎◌, ℕ, ◌+◌, ◌/◌, ◌≤◌, ◌<◌, ◌≡◌, refl, Bool, true, false, ◌&&◌, Option, none, some, List, [], ◌∷◌,
  map, arith, if◌then◌else◌, ltb, leb, length, keep, length-map, Outcome, ok, err, panic, ◌>>=◌,
  ok_or, unwrap, Bool-cases, Option-cases, inl, inr,
}
use switchboard_sdk.Prelude.Int.{ℤ, pos, ◌≤ℤ◌, ◌<ℤ◌, leb_ℤ, ltb_ℤ}
use switchboard_sdk.Prelude.Words.{sub_u64}
use switchboard_sdk.Error.{OnDemandError, not_enough_samples, illegal_feed_value}
use switchboard_sdk.Feed.Median.{
  lower_bound_median, count_if, lower_bound_median-rank, lower_bound_median-eq-none,
}
use switchboard_sdk.Feed.{
  Clock, OracleSubmission, PullFeedAccountData, precision, filter_recent, filled, get_value,
}

-- The values of the submissions, up to the first empty one, that are at most `max_staleness` slots
-- older than the clock.
abbrev pub fresh_values : PullFeedAccountData → Clock → ℕ → List ℤ
fresh_values feed clock max_staleness =
    map (λ (s : OracleSubmission). s.value)
      (keep (λ s. leb clock.slot (s.slot + max_staleness)) (filled feed.submissions))

-- Without an underflow the filter keeps what is recent, in either build.
filter_recent-keep :
    (checks : Bool) (slot max_staleness : ℕ) (ss : List OracleSubmission)
    → max_staleness ≤ slot
    → filter_recent checks slot max_staleness ss
      ≡ ok (keep (λ s. leb slot (s.slot + max_staleness)) ss)
unfolding filter_recent sub_u64
filter_recent-keep checks slot max_staleness [] h = refl
filter_recent-keep checks slot max_staleness (s ∷ ss) h =
    ground (arith, filter_recent-keep checks slot max_staleness ss)

-- A median of a list: at most half of it strictly below, more than half at or below.
pub record IsMedian (m : ℤ) (xs : List ℤ) : Type 0 where
  pub below : count_if (λ y. ltb_ℤ y m) xs ≤ length xs / 2
  pub at_most : length xs / 2 < count_if (λ y. leb_ℤ y m) xs

-- `lower_bound_median` finds a median of every list but the empty one.
IsMedian-cases :
    (xs : List ℤ)
    → ((xs ≡ []) × (lower_bound_median xs ≡ none))
      ⊎ ((m : ℤ) × (lower_bound_median xs ≡ some m) × IsMedian m xs)
IsMedian-cases xs = elim (Option-cases (lower_bound_median xs)) [
  | inl e ↦ inl (lower_bound_median-eq-none xs e, e)
  | inr (m, e) ↦
      let (below, at_most) = lower_bound_median-rank xs m e in
      inr (m, e, record { below = below; at_most = at_most })
]

module _ {Decimal : Type 0} (from_i128_with_scale : ℤ → ℕ → Option Decimal) (vs : List ℤ)
    (min_samples : ℕ) (only_positive : Bool) where
  -- What an answer says about the fresh values: a decimal is their median, an error has its cause,
  -- and the only panic is that of the conversion.
  abbrev pub Explains : Outcome OnDemandError Decimal → Type 0
  Explains (ok d) =
      (m : ℤ) × IsMedian m vs
      × (min_samples ≤ length vs)
      × ((only_positive ≡ false) ⊎ (pos 0 <ℤ m))
      × (from_i128_with_scale m precision ≡ some d)
  Explains (err e) =
      ((e ≡ not_enough_samples) × ((length vs < min_samples) ⊎ (vs ≡ [])))
      ⊎ ((m : ℤ) × IsMedian m vs × (m ≤ℤ pos 0) × (only_positive ≡ true) × (e ≡ illegal_feed_value))
  Explains panic = (m : ℤ) × IsMedian m vs × (from_i128_with_scale m precision ≡ none)

  abbrev convert : ℤ → Outcome OnDemandError Decimal
  convert median =
      if only_positive && leb_ℤ median (pos 0)
      then err illegal_feed_value
      else unwrap (from_i128_with_scale median precision)

  abbrev judge : Outcome OnDemandError Decimal
  judge =
      if ltb (length vs) min_samples
      then err not_enough_samples
      else (ok_or (lower_bound_median vs) not_enough_samples >>= convert)

  convert-Explains : (m : ℤ) → IsMedian m vs → min_samples ≤ length vs → Explains (convert m)
  convert-Explains m med enough = elim (Bool-cases (only_positive && leb_ℤ m (pos 0))) [
    | inl bad ↦ rw bad (inr (m, med, ground arith, ground arith, refl))
    | inr good ↦ rw good (elim (Option-cases (from_i128_with_scale m precision)) [
      | inl e ↦ rw e (m, med, e)
      | inr (d, e) ↦ rw e (m, med, enough, ground arith, e)
    ])
  ]

  judge-Explains : Explains judge
  judge-Explains = elim (Bool-cases (ltb (length vs) min_samples)) [
    | inl few ↦ rw few (inl (refl, inl (ground arith)))
    | inr enough ↦ rw enough (elim (IsMedian-cases vs) [
      | inl (empty, e) ↦ rw e (inl (refl, inr empty))
      | inr (m, e, med) ↦ rw e (convert-Explains m med (ground arith))
    ])
  ]

-- `get_value` with a clock at or past `max_staleness` answers, under either build profile, as the
-- fresh values explain: a decimal is the conversion of their median, which is positive if
-- `only_positive` asks so, and there are `min_samples` of them; `NotEnoughSamples` means that there
-- are fewer or none, `IllegalFeedValue` that a positive value was asked for and the median is not;
-- and a panic comes from the conversion of the median alone.
pub get_value-Explains :
    {Decimal : Type 0} (from_i128_with_scale : ℤ → ℕ → Option Decimal) (checks : Bool)
    (feed : PullFeedAccountData) (clock : Clock) (max_staleness min_samples : ℕ)
    (only_positive : Bool)
    → max_staleness ≤ clock.slot
    → Explains from_i128_with_scale
        (fresh_values feed clock max_staleness)
        min_samples
        only_positive
        (get_value from_i128_with_scale checks feed clock max_staleness min_samples only_positive)
unfolding get_value
get_value-Explains from_decimal checks feed clock max_staleness min_samples only_positive h =
    rw (filter_recent-keep checks clock.slot max_staleness (filled feed.submissions) h) (
      rw
        (length-map (λ (s : OracleSubmission). s.value)
          (keep (λ s. leb clock.slot (s.slot + max_staleness)) (filled feed.submissions)))
        at
        (judge-Explains from_decimal (fresh_values feed clock max_staleness) min_samples
          only_positive))
