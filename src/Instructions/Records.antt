-- ===== src/Instructions/Records.antt =====
-- The state of the program and the arguments of `build_ix` (on_demand/accounts/state.rs and
-- on_demand/instructions/*.rs of the on-demand crate).
use switchboard_sdk.Prelude.{ℕ, Option, List}
use switchboard_sdk.Prelude.Int.{ℤ}
use switchboard_sdk.Prelude.Words.{Bytes}

pub record StateEpochInfo : Type 0 where
  pub id : ℕ
  pub slot_end : ℕ

pub record State : Type 0 where
  pub bump : ℕ
  pub test_only_disable_mr_enclave_check : ℕ
  pub authority : Bytes
  pub guardian_queue : Bytes
  pub epoch_length : ℕ
  pub current_epoch : StateEpochInfo
  pub next_epoch : StateEpochInfo
  pub finalized_epoch : StateEpochInfo
  pub stake_pool : Bytes
  pub stake_program : Bytes
  pub switch_mint : Bytes
  pub sgx_advisories : List ℕ
  pub advisories_len : ℕ

pub record GuardianQuoteVerifyArgs : Type 0 where
  pub guardian : Bytes
  pub oracle : Bytes
  pub authority : Bytes
  pub guardian_queue : Bytes
  pub timestamp : ℤ
  pub mr_enclave : Bytes
  pub idx : ℕ
  pub ed25519_key : Bytes
  pub secp256k1_key : Bytes
  pub slot : ℕ
  pub signature : Bytes
  pub recovery_id : ℕ
  pub advisories : List ℕ

pub record OracleSetConfigsArgs : Type 0 where
  pub oracle : Bytes
  pub authority : Bytes
  pub secp_authority : Bytes

pub record QueueGarbageCollectArgs : Type 0 where
  pub queue : Bytes
  pub oracle : Bytes
  pub idx : ℕ

pub record OracleHeartbeatArgs : Type 0 where
  pub oracle : Bytes
  pub oracle_signer : Bytes
  pub queue : Bytes
  pub queue_authority : Bytes
  pub gc_node : Bytes
  pub uri : Option Bytes
  pub pending_paid_accounts : List Bytes
  pub escrows : List Bytes
  pub payer : Bytes

pub record OracleHeartbeatV2Args : Type 0 where
  pub oracle : Bytes
  pub oracle_signer : Bytes
  pub gc_node : Bytes
  pub uri : Option Bytes

pub record QueuePaySubsidyArgs : Type 0 where
  pub queue : Bytes
  pub vault : Bytes
  pub payer : Bytes
