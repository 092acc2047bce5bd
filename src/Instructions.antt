-- ===== src/Instructions.antt =====
-- on_demand/instructions/*.rs of the on-demand crate, but for the two on lookup tables: how `build_ix`
-- makes each instruction; and on_demand/accounts/state.rs, which two of them read. The parameters and
-- the accounts are in Params and Accounts.
pub mod Params
pub mod Accounts
pub mod Encoding
mod Fields
pub mod Signers
pub mod Subsidy
pub mod Commit
pub mod Tables
mod Examples
mod Records
pub use Records.*
use switchboard_sdk.Prelude.{
  Bool, false, Option, none, some, List, [], ◌∷◌, ◌++◌, map, replicate, take, if◌then◌else◌,
  Outcome, ok, err, panic, ok_or, ◌>>=◌,
}
use switchboard_sdk.Prelude.Words.{Bytes, bytes_eq}
use switchboard_sdk.Error.{
  OnDemandError, address_lookup_table_fetch_error, address_lookup_table_deserialize_error,
}
use switchboard_sdk.Account.{Layout, fetch_zerocopy_account}
use switchboard_sdk.Oracle.{OracleAccountData}
use switchboard_sdk.Queue.{QueueAccountData, prefix}
use switchboard_sdk.Transaction.{AccountMeta, Instruction, AddressLookupTableAccount}
use switchboard_sdk.Submit.{writable, readonly}
use switchboard_sdk.LutInstructions.{pid, state_pda, build_ix, find_lut_signer}
use switchboard_sdk.Instructions.Params.{
  SwitchboardPermission, permission_as_u8, guardian_quote_verify, oracle_heartbeat,
  oracle_heartbeat_v2, oracle_set_configs, permission_set, queue_garbage_collect, queue_pay_subsidy,
  randomness_commit, instruction_data,
}
use switchboard_sdk.Instructions.Accounts.{
  RandomnessCommitAccounts, Programs, stats_key, set_configs_metas, permission_set_metas,
  garbage_collect_metas, quote_verify_metas, randomness_commit_metas, heartbeat_metas,
  heartbeat_v2_metas, pay_subsidy_metas,
}

-- "Delegation" and "Group"
abbrev pub delegation_seed : Bytes
delegation_seed = 68 ∷ 101 ∷ 108 ∷ 101 ∷ 103 ∷ 97 ∷ 116 ∷ 105 ∷ 111 ∷ 110 ∷ []

abbrev pub group_seed : Bytes
group_seed = 71 ∷ 114 ∷ 111 ∷ 117 ∷ 112 ∷ []

-- "global:" and "randomness_commit"
abbrev pub global_prefix : Bytes
global_prefix = 103 ∷ 108 ∷ 111 ∷ 98 ∷ 97 ∷ 108 ∷ 58 ∷ []

abbrev pub commit_name : Bytes
commit_name =
    114 ∷ 97 ∷ 110 ∷ 100 ∷ 111 ∷ 109 ∷ 110 ∷ 101 ∷ 115 ∷ 115 ∷ 95 ∷ 99 ∷ 111 ∷ 109 ∷ 109 ∷ 105 ∷ 116
    ∷ []

-- `ix_discriminator`
unfoldable pub ix_discriminator : (Bytes → Bytes) → Bytes → Bytes
ix_discriminator hash name = take 8 (hash (global_prefix ++ name))

module _ (programs : Programs) where
  open programs use {chain, slot_hashes, native_mint, get_associated_token_address}

  unfoldable pub randomness_commit_ix : Bytes → Bytes → Bytes → Bytes → Instruction
  randomness_commit_ix randomness queue oracle authority =
      build_ix (pid chain)
        (randomness_commit_metas programs (record {
          randomness = randomness;
          queue = queue;
          oracle = oracle;
          authority = authority;
          recent_slothashes = slot_hashes;
        }))
        (instruction_data randomness_commit)

  -- `RandomnessCommit::invoke`, from the keys of the accounts; `invoke_signed` has the last word.
  unfoldable pub invoke_randomness_commit :
      {R : Type 0}
      → (Bytes → Bytes)
      → (Instruction → List Bytes → List (List Bytes) → R)
      → Bytes
      → RandomnessCommitAccounts
      → List (List Bytes)
      → R
  unfolding ix_discriminator
  invoke_randomness_commit hash invoke_signed switchboard a seeds =
      invoke_signed
        (record {
          program_id = switchboard;
          accounts = randomness_commit_metas programs a;
          input = ix_discriminator hash commit_name;
        })
        (a.randomness ∷ a.queue ∷ a.oracle ∷ a.recent_slothashes ∷ a.authority ∷ []) seeds

  unfoldable pub quote_verify_ix : GuardianQuoteVerifyArgs → Instruction
  quote_verify_ix args =
      build_ix (pid chain)
        (quote_verify_metas (record {
          guardian = args.guardian;
          oracle = args.oracle;
          authority = args.authority;
          guardian_queue = args.guardian_queue;
          state = state_pda chain;
          recent_slothashes = slot_hashes;
        }))
        (instruction_data (
          guardian_quote_verify (record {
            timestamp = args.timestamp;
            mr_enclave = args.mr_enclave;
            idx = args.idx;
            ed25519_key = args.ed25519_key;
            secp256k1_key = args.secp256k1_key;
            slot = args.slot;
            signature = args.signature;
            recovery_id = args.recovery_id;
            advisories = args.advisories;
          })))

  unfoldable pub set_configs_ix : OracleSetConfigsArgs → Instruction
  set_configs_ix args =
      build_ix (pid chain)
        (set_configs_metas (record { oracle = args.oracle; authority = args.authority }))
        (instruction_data (
          oracle_set_configs (record {
            new_authority = some args.authority;
            new_secp_authority = some args.secp_authority;
          })))

  unfoldable pub permission_set_ix :
      Bytes → Bytes → Bytes → SwitchboardPermission → Bool → Instruction
  permission_set_ix granter authority grantee permission enable =
      build_ix (pid chain)
        (permission_set_metas
          (record { authority = authority; granter = granter; grantee = grantee }))
        (instruction_data
          (permission_set (record { permission = permission_as_u8 permission; enable = enable })))

  unfoldable pub garbage_collect_ix : QueueGarbageCollectArgs → Instruction
  garbage_collect_ix args =
      build_ix (pid chain)
        (garbage_collect_metas (record { queue = args.queue; oracle = args.oracle }))
        (instruction_data (queue_garbage_collect args.idx))

  -- The accounts of a heartbeat, from the state that was read.
  unfoldable pub heartbeat_accounts : OracleHeartbeatArgs → State → List AccountMeta
  heartbeat_accounts args state = heartbeat_metas programs (record {
    oracle = args.oracle;
    oracle_signer = args.oracle_signer;
    queue = args.queue;
    queue_authority = args.queue_authority;
    gc_node = args.gc_node;
    payer = args.payer;
    stake_program = state.stake_program;
    delegation_pool =
        chain.find_program_address
          (delegation_seed
            ∷ state_pda chain
            ∷ stats_key programs args.oracle
            ∷ state.stake_pool
            ∷ [])
          state.stake_program;
    delegation_group =
        chain.find_program_address
          (group_seed ∷ state_pda chain ∷ state.stake_pool ∷ args.queue ∷ []) state.stake_program;
    switch_mint = state.switch_mint;
  })

  -- What is pushed behind them.
  unfoldable pub paid_accounts : OracleHeartbeatArgs → List AccountMeta
  paid_accounts args =
      map (λ (ppa : Bytes). readonly ppa false) args.pending_paid_accounts
      ++ map (λ (escrow : Bytes). writable escrow false) args.escrows

  -- The oracle, its statistics, and, where it has an operator, the operator and its wallet.
  unfoldable pub oracle_subsidy : Bytes → Bytes → OracleAccountData → List AccountMeta
  oracle_subsidy switch_mint oracle oracle_data =
      writable oracle false
      ∷ writable (stats_key programs oracle) false
      ∷ (if bytes_eq oracle_data.operator (replicate 32 0)
          then []
          else readonly oracle_data.operator false
            ∷ writable (get_associated_token_address oracle_data.operator switch_mint) false
            ∷ [])

  -- The `build_ix` that ask the node, which answers with the data of the account of a key, or with none.
  module _ (states : Layout State) (oracles : Layout OracleAccountData)
      (queues : Layout QueueAccountData) (node : Bytes → Option Bytes) where
    -- `State::fetch_async`
    unfoldable pub fetch_state : Outcome OnDemandError State
    fetch_state = fetch_zerocopy_account states (node (state_pda chain))

    unfoldable pub heartbeat_ix : OracleHeartbeatArgs → Outcome OnDemandError Instruction
    heartbeat_ix args = do
      state ← fetch_state
      ok (
          build_ix (pid chain) (heartbeat_accounts args state ++ paid_accounts args)
            (instruction_data (oracle_heartbeat (record { uri = args.uri }))))

    unfoldable pub heartbeat_v2_ix : OracleHeartbeatV2Args → Outcome OnDemandError Instruction
    heartbeat_v2_ix args = do
      state ← fetch_state
      oracle_data ← fetch_zerocopy_account oracles (node args.oracle)
      ok (
          build_ix (pid chain)
            (heartbeat_v2_metas programs (record {
              oracle = args.oracle;
              oracle_signer = args.oracle_signer;
              queue = oracle_data.queue;
              gc_node = args.gc_node;
            }))
            (instruction_data (oracle_heartbeat_v2 (record { uri = args.uri }))))

    -- The loop over the oracles.
    unfoldable pub subsidy_accounts : Bytes → List Bytes → Outcome OnDemandError (List AccountMeta)
    subsidy_accounts switch_mint [] = ok []
    subsidy_accounts switch_mint (oracle ∷ oracle_keys) = do
      oracle_data ← fetch_zerocopy_account oracles (node oracle)
      rest ← subsidy_accounts switch_mint oracle_keys
      ok (oracle_subsidy switch_mint oracle oracle_data ++ rest)

    unfoldable pub pay_subsidy_ix : QueuePaySubsidyArgs → Outcome OnDemandError Instruction
    pay_subsidy_ix args = do
      state ← fetch_state
      queue_data ← fetch_zerocopy_account queues (node args.queue)
      oracle_keys ← prefix queue_data.all_oracle_keys queue_data.oracle_keys_len
      remaining_accounts ← subsidy_accounts state.switch_mint oracle_keys
      ok (
          build_ix (pid chain)
            (pay_subsidy_metas programs (record {
              queue = args.queue;
              vault = args.vault;
              switch_mint = state.switch_mint;
              remaining_accounts = remaining_accounts;
              payer = args.payer;
            }))
            (instruction_data queue_pay_subsidy))

    module _ (deserialize : Bytes → Option (List Bytes)) where
      -- `address_lookup_table::fetch`
      unfoldable pub fetch_table : Bytes → Outcome OnDemandError AddressLookupTableAccount
      fetch_table address = do
        account ← ok_or (node address) address_lookup_table_fetch_error
        addresses ← ok_or (deserialize account) address_lookup_table_deserialize_error
        ok (record { key = address; addresses = addresses })

      -- The task of one oracle, with `fetch_lut`.
      unfoldable pub oracle_lut : Bytes → Outcome OnDemandError AddressLookupTableAccount
      oracle_lut oracle = do
        oracle_data ← fetch_zerocopy_account oracles (node oracle)
        fetch_table
            (chain.derive_lookup_table_address (find_lut_signer chain oracle) oracle_data.lut_slot)

      -- `flatten` of the joined tasks drops their errors.
      unfoldable pub flatten_luts :
          List Bytes → Outcome OnDemandError (List AddressLookupTableAccount)
      flatten_luts [] = ok []
      flatten_luts (oracle ∷ oracle_keys) =
          let rest = flatten_luts oracle_keys in
          elim (oracle_lut oracle) [
            | ok lut ↦ (rest >>= λ luts. ok (lut ∷ luts))
            | err e ↦ rest
            | panic ↦ panic
          ]

      unfoldable pub fetch_luts :
          QueuePaySubsidyArgs → Outcome OnDemandError (List AddressLookupTableAccount)
      fetch_luts args = do
        queue_data ← fetch_zerocopy_account queues (node args.queue)
        oracle_keys ← prefix queue_data.all_oracle_keys queue_data.oracle_keys_len
        flatten_luts oracle_keys
