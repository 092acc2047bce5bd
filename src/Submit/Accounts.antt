-- ===== src/Submit/Accounts.antt =====
-- Where the program finds the oracle of a submission.
use switchboard_sdk.Prelude.{
  get_elem?-behind, get_elem?-before, get_elem?-map, sym, true, ℕ, ◌+◌, ◌≡◌, refl, ap, ◌∙◌, List,
  ◌++◌, map, length, length-map, get_elem?, some, none, Option, ◌^◌, ◌-◌, false,
}
use switchboard_sdk.Prelude.Int.{ℤ, pos}
use switchboard_sdk.Transaction.{AccountMeta, Instruction}
use switchboard_sdk.Submit.{
  Chain, OracleResponse, SolanaSubmitSignaturesParams, Submission, submit_accounts,
  get_solana_submit_signatures_ix, remaining_accounts, to_account_metas, readonly, writable,
  submission_of, submit_data, i128_max,
}

-- What stands in a submission for the value of a response: its mantissa at the scale 18, and where there
-- is no value the largest i128.
abbrev pub IsValueOf : {Decimal : Type 0} → (Decimal → ℤ) → Option Decimal → ℤ → Type 0
IsValueOf mantissa none v = v ≡ pos (2 ^ 127 - 1)
IsValueOf mantissa (some d) v = v ≡ mantissa d

pub record IsSubmissionOf {Decimal : Type 0} (chain : Chain Decimal) (r : OracleResponse Decimal)
    (s : Submission) : Type 0 where
  pub value : IsValueOf chain.mantissa_at_18 r.value s.value
  pub signature : s.signature ≡ r.signature
  pub recovery_id : s.recovery_id ≡ r.recovery_id
  pub offset : s.offset ≡ 0

submission_of-IsValueOf :
    {Decimal : Type 0} (mantissa : Decimal → ℤ) (value : Option Decimal)
    → IsValueOf mantissa value (elim value [ none ↦ i128_max | some val ↦ mantissa val ])
submission_of-IsValueOf mantissa none = refl
submission_of-IsValueOf mantissa (some val) = refl

submission_of-IsSubmissionOf :
    {Decimal : Type 0} (chain : Chain Decimal) (r : OracleResponse Decimal)
    → IsSubmissionOf chain r (submission_of chain r)
unfolding submission_of
submission_of-IsSubmissionOf chain r = record {
  value = submission_of-IsValueOf chain.mantissa_at_18 r.value;
  signature = refl;
  recovery_id = refl;
  offset = refl;
}

module _ {Decimal : Type 0} (chain : Chain Decimal) (slot : ℕ)
    (responses : List (OracleResponse Decimal)) (params : SolanaSubmitSignaturesParams) where
  open chain use {stats_key, program, submit_discriminator}

  abbrev pub ix : Instruction
  ix = get_solana_submit_signatures_ix chain slot responses params

  -- The instruction of the client submits for the slot and for every response, in order, the mantissa of its
  -- value at the scale 18, or else the largest i128, with its signature, its recovery id and the offset 0;
  -- behind the nine accounts of the instruction the response number `i` of `n`
  -- has its oracle at place `9 + i`, which may not be written, and the oracle's statistics, which
  -- may, at place `9 + n + i`; and the payer, at place 4, signs.
  pub get_solana_submit_signatures_ix-Places :
      (i : ℕ) (r : OracleResponse Decimal)
      → get_elem? responses i ≡ some r
      → (submissions : List Submission) × (ix.input
          ≡ submit_data submit_discriminator (record { slot = slot; submissions = submissions }))
        × (length submissions ≡ length responses)
        × (submission : Submission) × (get_elem? submissions i ≡ some submission)
        × IsSubmissionOf chain r submission
        × (get_elem? ix.accounts (9 + i) ≡ some (readonly r.oracle false))
        × (get_elem? ix.accounts (9 + (length responses + i))
            ≡ some (writable (stats_key r.oracle) false))
        × (get_elem? ix.accounts 4 ≡ some (writable params.payer true))
  unfolding get_solana_submit_signatures_ix to_account_metas remaining_accounts submit_accounts
  get_solana_submit_signatures_ix-Places i r e =
      let oracles : List AccountMeta =
        map (λ (x : OracleResponse Decimal). readonly x.oracle false) responses in
      let stats : List AccountMeta =
        map (λ (x : OracleResponse Decimal). writable (stats_key x.oracle) false) responses in
      let fixed : List AccountMeta = to_account_metas (submit_accounts chain params) in
      (
        map (submission_of chain) responses,
        refl,
        length-map (submission_of chain) responses,
        submission_of chain r,
        get_elem?-map (submission_of chain) responses i r e,
        submission_of-IsSubmissionOf chain r,
        get_elem?-behind fixed (oracles ++ stats) i
            ∙ get_elem?-before oracles stats i (readonly r.oracle false) (
                get_elem?-map (λ (x : OracleResponse Decimal). readonly x.oracle false) responses i
                  r e),
        get_elem?-behind fixed (oracles ++ stats) (length responses + i)
            ∙ ap (λ k. get_elem? (oracles ++ stats) (k + i))
                (sym
                  (length-map (λ (x : OracleResponse Decimal). readonly x.oracle false) responses))
            ∙ get_elem?-behind oracles stats i
            ∙ get_elem?-map (λ (x : OracleResponse Decimal). writable (stats_key x.oracle) false)
                responses i r e,
        refl,
      )
