-- ===== src/Transaction/Records.antt =====
-- The records of client/transaction_builder.rs and what it takes of solana-sdk.
use switchboard_sdk.Prelude.{ℕ, List, Bool, Option}
use switchboard_sdk.Prelude.Words.{Bytes}

pub record AccountMeta : Type 0 where
  pub pubkey : Bytes
  pub is_signer : Bool
  pub is_writable : Bool

pub record Instruction : Type 0 where
  pub program_id : Bytes
  pub accounts : List AccountMeta
  pub input : Bytes

pub record AddressLookupTableAccount : Type 0 where
  pub key : Bytes
  pub addresses : List Bytes

-- `ComputeBudgetInstruction` and the transaction types of solana-sdk. `none` is their error.
pub record SolanaSdk (Signer Transaction Message VersionedTransaction : Type 0) : Type 0 where
  pub pubkey : Signer → Bytes
  pub set_compute_unit_limit : ℕ → Instruction
  pub set_compute_unit_price : ℕ → Instruction
  pub default_hash : Bytes
  pub sign_legacy : Bytes → List Instruction → List Signer → Bytes → Option Transaction
  pub try_compile :
      Bytes → List Instruction → List AddressLookupTableAccount → Bytes → Option Message
  pub try_new : Message → List Signer → Option VersionedTransaction

pub record TransactionBuilder (Signer : Type 0) : Type 0 where
  pub payer : Bytes
  pub own_ixs : List Instruction
  pub compute_units : Option ℕ
  pub priority_fees : Option ℕ
  pub recent_blockhash : Option Bytes
  pub min_context_slot : Option ℕ
  pub address_lookup_tables : List AddressLookupTableAccount
  pub own_signers : List Signer
