-- ===== src/Retry.antt =====
-- `retry!` and `blocking_retry!` of macros.rs: an expression that is evaluated until it succeeds or the
-- attempts are used up. Its results are a stream, one per evaluation; the delay between two is
-- counted, not slept. The two macros differ in how they sleep alone.
pub mod Attempts
mod Examples
use switchboard_sdk.Prelude.{
  max, zero, suc, ℕ, ◌+◌, Bool, if◌then◌else◌, ltb, ◌-◌, Outcome, ok, err, panic,
}

-- How a loop on fuel ends: with the result, after so many evaluations, or not within the fuel.
pub data Retried (E A : Type 0) : Type 0 where
  finished : Outcome E A → ℕ → Retried E A
  running : Retried E A

-- The loop of either macro, at its evaluation number `done`; a panic of the expression is its own.
unfoldable pub retry_loop :
    {E A : Type 0} → (ℕ → Outcome E A) → (fuel attempts done : ℕ) → Retried E A
retry_loop results zero attempts done = running
retry_loop results (suc fuel) attempts done =
    let rest = retry_loop results fuel (attempts - 1) (done + 1) in
    elim (results done) [
      | ok val ↦ finished (ok val) (done + 1)
      | err e ↦ if ltb 1 attempts then rest else finished (err e) (done + 1)
      | panic ↦ finished panic (done + 1)
    ]

unfoldable pub retry : {E A : Type 0} → (ℕ → Outcome E A) → ℕ → Retried E A
retry results attempts = retry_loop results (max attempts 1) attempts 0
