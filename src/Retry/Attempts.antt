-- ===== src/Retry/Attempts.antt =====
-- How many evaluations a retry makes, and which result it gives.
use switchboard_sdk.Prelude.{
  ◌⊎◌, sym, zero, suc, ℕ, ◌+◌, ◌-◌, ◌≡◌, ◌≤◌, ◌<◌, max, refl, arith, Outcome, ok, err, panic, ltb,
  Bool-cases, inl, inr,
}
use switchboard_sdk.Retry.{Retried, finished, running, retry_loop, retry}

module _ {E A : Type 0} (results : ℕ → Outcome E A) where
  Outcome-cases :
      (o : Outcome E A) → ((v : A) × (o ≡ ok v)) ⊎ (((e : E) × (o ≡ err e)) ⊎ (o ≡ panic))
  Outcome-cases (ok v) = inl (v, refl)
  Outcome-cases (err e) = inr (inl (e, refl))
  Outcome-cases panic = inr (inr refl)

  abbrev pub IsErr : Outcome E A → Type 0
  IsErr (ok val) = ⊥
  IsErr (err e) = Unit {0}
  IsErr panic = ⊥

  -- A run from evaluation `start` that may go up to `last`: its result is that of its last evaluation, all
  -- before it were errors, and it is an error itself only if the attempts are used up.
  abbrev pub Ends : ℕ → ℕ → Retried E A → Type 0
  Ends start last running = ⊥
  Ends start last (finished o done) =
      (n : ℕ) × (done ≡ n + 1)
      × (start ≤ n)
      × (n ≤ last)
      × (o ≡ results n)
      × ((i : ℕ) → start ≤ i → i < n → IsErr (results i))
      × (IsErr o → n ≡ last)

  here :
      (start last : ℕ) (o : Outcome E A)
      → start ≤ last
      → o ≡ results start
      → (IsErr o → start ≡ last)
      → Ends start last (finished o (start + 1))
  here start last o l e stop =
      (start, refl, omega arith, l, e, (λ i a b. absurd (omega arith)), stop)

  later :
      (start last : ℕ) (r : Retried E A)
      → IsErr (results start)
      → Ends (start + 1) last r
      → Ends start last r
  later start last running i d = d
  later start last (finished o done) i (n, e, a, b, r, before, stop) = (
    n,
    e,
    omega arith,
    b,
    r,
    (λ j u v. elim (Bool-cases (ltb start j)) [
      | inl behind ↦ before j (ground arith) v
      | inr not_behind ↦ let q : start ≡ j = ground arith in rw q at i
    ]),
    stop,
  )

  retry_loop-Ends :
      (fuel attempts start : ℕ)
      → max attempts 1 ≡ fuel
      → Ends start (start + fuel - 1) (retry_loop results fuel attempts start)
  unfolding retry_loop
  retry_loop-Ends zero attempts start h = absurd (grind arith)
  retry_loop-Ends (suc fuel) attempts start h =
      let last : ℕ = start + suc fuel - 1 in
      elim (Outcome-cases (results start)) [
        | inl (v, e) ↦
            rw (retry_loop, e) (here start last (ok v) (omega arith) (sym e) (λ x. absurd x))
        | inr (inr e) ↦
            rw (retry_loop, e) (here start last panic (omega arith) (sym e) (λ x. absurd x))
        | inr (inl (x, e)) ↦ elim (Bool-cases (ltb 1 attempts)) [
          | inr done ↦
              let only : fuel ≡ 0 = grind arith in
              rw (retry_loop, e, done)
                (here start last (err x) (omega arith) (sym e) (λ y. omega arith))
          | inl more ↦
              let same : start + 1 + fuel - 1 ≡ start + suc fuel - 1 = omega arith in
              let ih = retry_loop-Ends fuel (attempts - 1) (start + 1) (grind arith) in
              rw (retry_loop, e, more)
                (later start last (retry_loop results fuel (attempts - 1) (start + 1)) (rw e tt)
                  (rw same at ih))
        ]
      ]

  -- A retry evaluates its expression once at least and `attempts` times at most. It gives the result of the
  -- last evaluation; all before it failed; and it gives an error only after the last attempt.
  pub retry-Ends : (attempts : ℕ) → Ends 0 (max attempts 1 - 1) (retry results attempts)
  unfolding retry
  retry-Ends attempts =
      let run = retry_loop-Ends (max attempts 1) attempts 0 refl in
      let same : 0 + max attempts 1 - 1 ≡ max attempts 1 - 1 = omega arith in rw same at run
