-- ===== src/LutInstructions.antt =====
-- on_demand/instructions/oracle_sync_lut.rs and oracle_reset_lut.rs of the on-demand crate, build_ix of
-- utils.rs and find_lut_signer of sysvar/address_lookup_table.rs: the instructions that fill the lookup
-- table of an oracle, and that set it up anew.
pub mod Authority
pub mod Examples
use switchboard_sdk.Prelude.{
  ℕ, Bool, true, false, Option, none, some, List, [], ◌∷◌, ◌++◌, if◌then◌else◌, Outcome, ok, err,
  panic, ◌>>=◌,
}
use switchboard_sdk.Prelude.Bytes.{to_le_bytes}
use switchboard_sdk.Prelude.Words.{Bytes}
use switchboard_sdk.Error.{OnDemandError}
use switchboard_sdk.Account.{Layout, fetch_zerocopy_account}
use switchboard_sdk.Oracle.{OracleAccountData}
use switchboard_sdk.Queue.{QueueAccountData}
use switchboard_sdk.Transaction.{AccountMeta, Instruction}
use switchboard_sdk.Submit.{writable, readonly}

-- What solana-sdk and the two crates of Jito bring, and the network that is compiled for.
pub record Chain : Type 0 where
  pub devnet : Bool
  pub devnet_pid : Bytes
  pub mainnet_pid : Bytes
  pub find_program_address : List Bytes → Bytes → Bytes
  pub derive_lookup_table_address : Bytes → ℕ → Bytes
  pub system_program : Bytes
  pub address_lookup_table_program : Bytes
  pub jito_restaking_id : Bytes
  pub jito_vault_id : Bytes

pub record OracleSyncLutArgs : Type 0 where
  pub oracle : Bytes
  pub vault : Bytes
  pub payer : Bytes
  pub lut_slot : ℕ

pub record OracleSyncLutAccounts : Type 0 where
  pub oracle : Bytes
  pub queue : Bytes
  pub ncn : Bytes
  pub vault : Bytes
  pub state : Bytes
  pub authority : Bytes
  pub operator : Bytes
  pub ncn_operator_state : Bytes
  pub operator_vault_ticket : Bytes
  pub vault_operator_delegation : Bytes
  pub lut_signer : Bytes
  pub lut : Bytes
  pub address_lookup_table_program : Bytes
  pub payer : Bytes
  pub system_program : Bytes

pub record OracleResetLutArgs : Type 0 where
  pub oracle : Bytes
  pub payer : Bytes
  pub recent_slot : ℕ

pub record OracleResetLutAccounts : Type 0 where
  pub oracle : Bytes
  pub authority : Bytes
  pub payer : Bytes
  pub system_program : Bytes
  pub state : Bytes
  pub lut_signer : Bytes
  pub lut : Bytes
  pub address_lookup_table_program : Bytes

-- `OracleSyncLut::DISCRIMINATOR` and `OracleResetLut::DISCRIMINATOR`
abbrev pub sync_discriminator : Bytes
sync_discriminator = 138 ∷ 99 ∷ 12 ∷ 59 ∷ 18 ∷ 170 ∷ 171 ∷ 45 ∷ []

abbrev pub reset_discriminator : Bytes
reset_discriminator = 147 ∷ 244 ∷ 108 ∷ 198 ∷ 152 ∷ 219 ∷ 0 ∷ 22 ∷ []

-- What Borsh writes for the parameters: nothing, and the slot.
unfoldable pub sync_data : Bytes
sync_data = sync_discriminator ++ []

unfoldable pub reset_data : ℕ → Bytes
reset_data recent_slot = reset_discriminator ++ to_le_bytes 8 recent_slot

-- `utils::build_ix`, from the accounts and the data of the parameters.
unfoldable pub build_ix : Bytes → List AccountMeta → Bytes → Instruction
build_ix program_id metas data_ = record {
  program_id = program_id;
  accounts = metas;
  input = data_;
}

module _ (chain : Chain) where
  open chain use {
    devnet, devnet_pid, mainnet_pid, find_program_address, derive_lookup_table_address,
    jito_restaking_id, jito_vault_id,
  }

  unfoldable pub pid : Bytes
  pid = if devnet then devnet_pid else mainnet_pid

  -- `State::get_pda`
  unfoldable pub state_pda : Bytes
  state_pda = find_program_address ((83 ∷ 84 ∷ 65 ∷ 84 ∷ 69 ∷ []) ∷ []) pid

  unfoldable pub find_lut_signer : Bytes → Bytes
  find_lut_signer k =
      find_program_address ((76 ∷ 117 ∷ 116 ∷ 83 ∷ 105 ∷ 103 ∷ 110 ∷ 101 ∷ 114 ∷ []) ∷ k ∷ []) pid

  unfoldable pub sync_metas : OracleSyncLutAccounts → List AccountMeta
  sync_metas a =
      writable a.oracle false
      ∷ readonly a.queue false
      ∷ readonly a.ncn false
      ∷ readonly a.vault false
      ∷ readonly state_pda false
      ∷ readonly a.authority true
      ∷ readonly a.operator false
      ∷ readonly a.ncn_operator_state false
      ∷ readonly a.operator_vault_ticket false
      ∷ readonly a.vault_operator_delegation false
      ∷ readonly a.lut_signer false
      ∷ writable a.lut false
      ∷ readonly chain.address_lookup_table_program false
      ∷ writable a.payer true
      ∷ readonly chain.system_program false
      ∷ []

  unfoldable pub reset_metas : OracleResetLutAccounts → List AccountMeta
  reset_metas a =
      writable a.oracle false
      ∷ readonly a.authority true
      ∷ writable a.payer false
      ∷ readonly chain.system_program false
      ∷ readonly state_pda false
      ∷ readonly a.lut_signer false
      ∷ writable a.lut false
      ∷ readonly chain.address_lookup_table_program false
      ∷ []

  -- The accounts that `OracleSyncLut::build_ix` gathers from what it has read.
  unfoldable pub sync_accounts :
      OracleSyncLutArgs → OracleAccountData → QueueAccountData → OracleSyncLutAccounts
  sync_accounts args oracle_data queue_data = record {
    oracle = args.oracle;
    queue = oracle_data.queue;
    ncn = queue_data.ncn;
    vault = args.vault;
    state = state_pda;
    authority = oracle_data.authority;
    operator = oracle_data.operator;
    ncn_operator_state =
        find_program_address
          ((110 ∷ 99 ∷ 110 ∷ 95 ∷ 111 ∷ 112 ∷ 101 ∷ 114 ∷ 97 ∷ 116 ∷ 111 ∷ 114 ∷ 95 ∷ 115 ∷ 116 ∷ 97
              ∷ 116 ∷ 101 ∷ [])
            ∷ queue_data.ncn
            ∷ oracle_data.operator
            ∷ [])
          jito_restaking_id;
    operator_vault_ticket =
        find_program_address
          ((111 ∷ 112 ∷ 101 ∷ 114 ∷ 97 ∷ 116 ∷ 111 ∷ 114 ∷ 95 ∷ 118 ∷ 97 ∷ 117 ∷ 108 ∷ 116 ∷ 95
              ∷ 116 ∷ 105 ∷ 99 ∷ 107 ∷ 101 ∷ 116 ∷ [])
            ∷ oracle_data.operator
            ∷ args.vault
            ∷ [])
          jito_restaking_id;
    vault_operator_delegation =
        find_program_address
          ((118 ∷ 97 ∷ 117 ∷ 108 ∷ 116 ∷ 95 ∷ 111 ∷ 112 ∷ 101 ∷ 114 ∷ 97 ∷ 116 ∷ 111 ∷ 114 ∷ 95
              ∷ 100 ∷ 101 ∷ 108 ∷ 101 ∷ 103 ∷ 97 ∷ 116 ∷ 105 ∷ 111 ∷ 110 ∷ [])
            ∷ args.vault
            ∷ oracle_data.operator
            ∷ [])
          jito_vault_id;
    lut_signer = find_lut_signer args.oracle;
    lut = derive_lookup_table_address (find_lut_signer args.oracle) args.lut_slot;
    address_lookup_table_program = chain.address_lookup_table_program;
    payer = oracle_data.authority;
    system_program = chain.system_program;
  }

  unfoldable pub reset_accounts : OracleResetLutArgs → OracleAccountData → OracleResetLutAccounts
  reset_accounts args oracle_data = record {
    oracle = args.oracle;
    state = state_pda;
    authority = oracle_data.authority;
    lut_signer = find_lut_signer args.oracle;
    lut = derive_lookup_table_address (find_lut_signer args.oracle) args.recent_slot;
    address_lookup_table_program = chain.address_lookup_table_program;
    payer = oracle_data.authority;
    system_program = chain.system_program;
  }

  -- The two `build_ix`; `node` answers with the data of the account of a key, or with none.
  module _ (oracles : Layout OracleAccountData) (queues : Layout QueueAccountData)
      (node : Bytes → Option Bytes) where
    unfoldable pub sync_lut_ix : OracleSyncLutArgs → Outcome OnDemandError Instruction
    sync_lut_ix args = do
      oracle_data ← fetch_zerocopy_account oracles (node args.oracle)
      queue_data ← fetch_zerocopy_account queues (node oracle_data.queue)
      ok (build_ix pid (sync_metas (sync_accounts args oracle_data queue_data)) sync_data)

    unfoldable pub reset_lut_ix : OracleResetLutArgs → Outcome OnDemandError Instruction
    reset_lut_ix args = do
      oracle_data ← fetch_zerocopy_account oracles (node args.oracle)
      ok (
          build_ix pid (reset_metas (reset_accounts args oracle_data))
            (reset_data args.recent_slot))
