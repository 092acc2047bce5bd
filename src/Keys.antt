-- ===== src/Keys.antt =====
-- client/utils.rs of the on-demand crate: keys from seeds and from texts, and the transaction of
-- `ix_to_tx_v0`. SHA-256, `keypair_from_seed`, `Pubkey::from_str` and the RPC node are parameters.
pub mod Seeds
pub mod Budgets
mod Examples
use switchboard_sdk.Prelude.{
  ℕ, ◌*◌, ◌/◌, ◌%◌, ◌^◌, Bool, Option, none, some, List, [], ◌∷◌, ◌++◌, if◌then◌else◌, ◌==◌, not,
  length, replicate, map, get_elem?, Outcome, ok, err, panic, ok_or, unwrap, unwrap_or, ◌>>=◌,
}
use switchboard_sdk.Prelude.Words.{Bytes, bytes_eq}
use switchboard_sdk.Error.{
  OnDemandError, invalid_secret_key, key_derivation_failed, solana_sign_error,
}
use switchboard_sdk.Transaction.{Instruction, AddressLookupTableAccount, SolanaSdk}

-- What the seed is made of. `default_program` is `SWITCHBOARD_ON_DEMAND_PROGRAM_ID`.
unfoldable pub seed_of : Bytes → Bytes → Bytes → Option Bytes → Option Bytes → Bytes
seed_of default_program base secret_key more_bytes program_id =
    base ++ (secret_key ++ (unwrap_or more_bytes [] ++ unwrap_or program_id default_program))

unfoldable pub keypair_from_base_seed :
    {Keypair : Type 0}
    → (Bytes → Bytes)
    → (Bytes → Option Keypair)
    → Bytes
    → Bytes
    → Bytes
    → Option Bytes
    → Option Bytes
    → Outcome OnDemandError Keypair
keypair_from_base_seed sha256 keypair_from_seed default_program base secret_key more_bytes
      program_id =
    if not (length secret_key == 32)
    then err invalid_secret_key
    else ok_or
        (keypair_from_seed (sha256 (seed_of default_program base secret_key more_bytes program_id)))
        key_derivation_failed

unfoldable pub parse_optional_pubkey : (Bytes → Option Bytes) → Bytes → Option Bytes
parse_optional_pubkey from_str var = if length var == 0 then none else elim (from_str var) [
  | none ↦ none
  | some pubkey ↦ if not (bytes_eq pubkey (replicate 32 0)) then some pubkey else none
]

-- `scale` is `(limit as f64 * 1.6) as u32`.
module _ {Signer Transaction Message VersionedTransaction : Type 0}
    (sdk : SolanaSdk Signer Transaction Message VersionedTransaction)
    (simulate : VersionedTransaction → Option (Option ℕ)) (scale : ℕ → ℕ) where
  open sdk use {pubkey, set_compute_unit_limit, set_compute_unit_price, try_compile, try_new}

  -- `none` is any error; the caller drops which. `units as u32` keeps the low 32 bits.
  unfoldable pub estimate_compute_units :
      List Instruction → List AddressLookupTableAccount → Bytes → Signer → List Signer → Option ℕ
  estimate_compute_units ixs luts blockhash first signers =
      elim (try_compile (pubkey first) (set_compute_unit_limit 1_400_000 ∷ ixs) luts blockhash) [
        | none ↦ none
        | some message ↦ elim (try_new message signers) [
          | none ↦ none
          | some tx ↦ elim (simulate tx) [
            | none ↦ none
            | some consumed ↦ elim consumed [ none ↦ none | some units ↦ some (units % 2 ^ 32) ]
          ]
        ]
      ]

  unfoldable pub final_ixs : ℕ → List Instruction → List Instruction
  final_ixs compute_unit_limit ixs =
      set_compute_unit_limit (scale compute_unit_limit) ∷ set_compute_unit_price 10_000 ∷ ixs

  unfoldable pub ix_to_tx_v0 :
      List Instruction
      → List Signer
      → Bytes
      → List AddressLookupTableAccount
      → Outcome OnDemandError VersionedTransaction
  ix_to_tx_v0 ixs signers blockhash luts = do
    first ← unwrap (get_elem? signers 0)
    let limit = unwrap_or (estimate_compute_units ixs luts blockhash first signers) 1_400_000
    message ←
        ok_or (try_compile (pubkey first) (final_ixs limit ixs) luts blockhash) solana_sign_error
    ok_or (try_new message signers) solana_sign_error
