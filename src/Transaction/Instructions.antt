-- ===== src/Transaction/Instructions.antt =====
-- The instructions of a transaction: the budget in front, and the limits.
use switchboard_sdk.Prelude.{
  length-eq_zero, ap, panic, ltb, inr, inl, err, ◌==◌, ◌≢◌, length, arith, ok, refl, Bool-cases,
  min, max, ◌<◌, Outcome, some, ℕ, ◌≤◌, ◌≡◌, ◌⊎◌, List, [], ◌∷◌, ◌++◌, Option, none,
}
use switchboard_sdk.Error.{solana_instruction_overflow, solana_instructions_empty, OnDemandError}
use switchboard_sdk.Transaction.{ixs, pre_ixs, SolanaSdk, Instruction, TransactionBuilder}

module _ {Signer Transaction Message VersionedTransaction : Type 0}
    (sdk : SolanaSdk Signer Transaction Message VersionedTransaction)
    (b : TransactionBuilder Signer) where
  open sdk use {set_compute_unit_limit, set_compute_unit_price}

  -- `v` is `u` moved into the range.
  abbrev pub IsClamped : ℕ → ℕ → ℕ → ℕ → Type 0
  IsClamped lo hi u v =
      (lo ≤ v) × (v ≤ hi) × ((v ≡ u) ⊎ (((u < lo) × (v ≡ lo)) ⊎ ((hi < u) × (v ≡ hi))))

  -- What the compute units and the fees that were set put in front: nothing, or the one instruction
  -- with the number moved into its range.
  abbrev pub IsLimit : Option ℕ → List Instruction → Type 0
  IsLimit none limit = limit ≡ []
  IsLimit (some u) limit =
      (v : ℕ) × IsClamped 200_000 1_400_000 u v × (limit ≡ set_compute_unit_limit v ∷ [])

  abbrev pub IsPrice : Option ℕ → List Instruction → Type 0
  IsPrice none price = price ≡ []
  IsPrice (some u) price =
      (v : ℕ) × IsClamped 0 10_000 u v × (price ≡ set_compute_unit_price v ∷ [])

  -- The limit stands in front of the price.
  abbrev pub IsBudget : List Instruction → Type 0
  IsBudget front =
      (limit : List Instruction) × (price : List Instruction) × (front ≡ limit ++ price)
      × IsLimit b.compute_units limit
      × IsPrice b.priority_fees price

  abbrev limit_ixs : Option ℕ → List Instruction
  limit_ixs none = []
  limit_ixs (some units) = set_compute_unit_limit (max (min units 1_400_000) 200_000) ∷ []

  abbrev price_ixs : Option ℕ → List Instruction
  price_ixs none = []
  price_ixs (some fees) = set_compute_unit_price (min 10_000 fees) ∷ []

  limit_ixs-IsLimit : (o : Option ℕ) → IsLimit o (limit_ixs o)
  limit_ixs-IsLimit none = refl
  limit_ixs-IsLimit (some u) = (max (min u 1_400_000) 200_000, grind arith, refl)

  price_ixs-IsPrice : (o : Option ℕ) → IsPrice o (price_ixs o)
  price_ixs-IsPrice none = refl
  price_ixs-IsPrice (some u) = (min 10_000 u, grind arith, refl)

  pre_ixs-IsBudget : IsBudget (pre_ixs sdk b)
  unfolding pre_ixs
  pre_ixs-IsBudget = (
    limit_ixs b.compute_units,
    price_ixs b.priority_fees,
    refl,
    limit_ixs-IsLimit b.compute_units,
    price_ixs-IsPrice b.priority_fees,
  )

  -- What an answer of `ixs` says.
  abbrev pub Answers : Outcome OnDemandError (List Instruction) → Type 0
  Answers (ok all) =
      (front : List Instruction) × IsBudget front
      × (all ≡ front ++ b.own_ixs)
      × (b.own_ixs ≢ [])
      × (length all ≤ 10)
  Answers (err e) =
      ((e ≡ solana_instructions_empty) × (b.own_ixs ≡ []))
      ⊎ ((front : List Instruction) × IsBudget front
          × (10 < length (front ++ b.own_ixs))
          × (e ≡ solana_instruction_overflow))
  Answers panic = ⊥

  -- `ixs` puts the compute unit limit, moved into 200,000 to 1,400,000, and then the unit price, at
  -- most 10,000, in front of the instructions, each if it was set, and returns ten at most; its errors
  -- are that there are no instructions, and that there would be more than ten.
  pub ixs-Answers : Answers (ixs sdk b)
  unfolding ixs
  ixs-Answers = elim (Bool-cases (length b.own_ixs == 0)) [
    | inl empty ↦ rw empty (inl (refl, length-eq_zero b.own_ixs (ground arith)))
    | inr full ↦ elim (Bool-cases (ltb 10 (length (pre_ixs sdk b ++ b.own_ixs)))) [
      | inl over ↦ rw (full, over) (inr (pre_ixs sdk b, pre_ixs-IsBudget, ground arith, refl))
      | inr fits ↦
          rw (full, fits)
            (
              pre_ixs sdk b,
              pre_ixs-IsBudget,
              refl,
              (λ e. cc (full, ap (λ (l : List Instruction). length l == 0) e)),
              ground arith,
            )
    ]
  ]
