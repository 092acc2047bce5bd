-- ===== src/Instructions/Accounts.antt =====
-- on_demand/instructions/*.rs of the on-demand crate: the accounts of the instructions, in the order in
-- which `to_account_metas` lists them.
use switchboard_sdk.Prelude.{true, false, List, [], ◌∷◌, ◌++◌}
use switchboard_sdk.Prelude.Words.{Bytes}
use switchboard_sdk.Transaction.{AccountMeta}
use switchboard_sdk.Submit.{writable, readonly}
use switchboard_sdk.LutInstructions.{Chain, pid, state_pda}

-- What the instructions take from solana-program and from the two crates of SPL tokens; an associated
-- token account is that of an owner and a mint.
pub record Programs : Type 0 where
  pub chain : Chain
  pub slot_hashes : Bytes
  pub token_program : Bytes
  pub associated_token_program : Bytes
  pub native_mint : Bytes
  pub get_associated_token_address : Bytes → Bytes → Bytes

pub record RandomnessCommitAccounts : Type 0 where
  pub randomness : Bytes
  pub queue : Bytes
  pub oracle : Bytes
  pub recent_slothashes : Bytes
  pub authority : Bytes

pub record GuardianQuoteVerifyAccounts : Type 0 where
  pub guardian : Bytes
  pub oracle : Bytes
  pub authority : Bytes
  pub guardian_queue : Bytes
  pub state : Bytes
  pub recent_slothashes : Bytes

pub record OracleSetConfigsAccounts : Type 0 where
  pub oracle : Bytes
  pub authority : Bytes

pub record AttestationPermissionSetAccounts : Type 0 where
  pub authority : Bytes
  pub granter : Bytes
  pub grantee : Bytes

pub record QueueGarbageCollectAccounts : Type 0 where
  pub queue : Bytes
  pub oracle : Bytes

pub record OracleHeartbeatAccounts : Type 0 where
  pub oracle : Bytes
  pub oracle_signer : Bytes
  pub queue : Bytes
  pub queue_authority : Bytes
  pub gc_node : Bytes
  pub payer : Bytes
  pub stake_program : Bytes
  pub delegation_pool : Bytes
  pub delegation_group : Bytes
  pub switch_mint : Bytes

pub record OracleHeartbeatV2Accounts : Type 0 where
  pub oracle : Bytes
  pub oracle_signer : Bytes
  pub queue : Bytes
  pub gc_node : Bytes

pub record QueuePaySubsidyAccounts : Type 0 where
  pub queue : Bytes
  pub vault : Bytes
  pub switch_mint : Bytes
  pub payer : Bytes
  pub remaining_accounts : List AccountMeta

unfoldable pub set_configs_metas : OracleSetConfigsAccounts → List AccountMeta
set_configs_metas a = writable a.oracle false ∷ readonly a.authority true ∷ []

unfoldable pub permission_set_metas : AttestationPermissionSetAccounts → List AccountMeta
permission_set_metas a =
    readonly a.authority true ∷ readonly a.granter false ∷ writable a.grantee false ∷ []

unfoldable pub garbage_collect_metas : QueueGarbageCollectAccounts → List AccountMeta
garbage_collect_metas a = writable a.queue false ∷ writable a.oracle false ∷ []

unfoldable pub quote_verify_metas : GuardianQuoteVerifyAccounts → List AccountMeta
quote_verify_metas a =
    writable a.guardian false
    ∷ writable a.oracle false
    ∷ readonly a.authority true
    ∷ writable a.guardian_queue false
    ∷ readonly a.state false
    ∷ readonly a.recent_slothashes false
    ∷ []

-- "RewardPool"
abbrev pub reward_pool_seed : Bytes
reward_pool_seed = 82 ∷ 101 ∷ 119 ∷ 97 ∷ 114 ∷ 100 ∷ 80 ∷ 111 ∷ 111 ∷ 108 ∷ []

-- "OracleStats"
abbrev pub oracle_stats_seed : Bytes
oracle_stats_seed = 79 ∷ 114 ∷ 97 ∷ 99 ∷ 108 ∷ 101 ∷ 83 ∷ 116 ∷ 97 ∷ 116 ∷ 115 ∷ []

-- "config"
abbrev pub config_seed : Bytes
config_seed = 99 ∷ 111 ∷ 110 ∷ 102 ∷ 105 ∷ 103 ∷ []

module _ (programs : Programs) where
  open programs use {
    chain, slot_hashes, token_program, associated_token_program, native_mint,
    get_associated_token_address,
  }

  -- `OracleAccountData::stats_key`
  unfoldable pub stats_key : Bytes → Bytes
  stats_key oracle = chain.find_program_address (oracle_stats_seed ∷ oracle ∷ []) (pid chain)

  -- The field `recent_slothashes` is not read.
  unfoldable pub randomness_commit_metas : RandomnessCommitAccounts → List AccountMeta
  randomness_commit_metas a =
      writable a.randomness false
      ∷ readonly a.queue false
      ∷ writable a.oracle false
      ∷ readonly slot_hashes false
      ∷ readonly a.authority true
      ∷ []

  -- The field `queue_authority` is not read.
  unfoldable pub heartbeat_metas : OracleHeartbeatAccounts → List AccountMeta
  heartbeat_metas a =
      writable a.oracle false
      ∷ writable (stats_key a.oracle) false
      ∷ readonly a.oracle_signer true
      ∷ writable a.queue false
      ∷ writable a.gc_node false
      ∷ writable (state_pda chain) false
      ∷ writable a.payer true
      ∷ readonly chain.system_program false
      ∷ readonly token_program false
      ∷ readonly native_mint false
      ∷ writable (get_associated_token_address a.queue native_mint) false
      ∷ readonly a.stake_program false
      ∷ writable a.delegation_pool false
      ∷ writable a.delegation_group false
      ∷ writable (get_associated_token_address (state_pda chain) a.switch_mint) false
      ∷ writable
          (chain.find_program_address (reward_pool_seed ∷ a.delegation_pool ∷ native_mint ∷ [])
            a.stake_program)
          false
      ∷ writable
          (chain.find_program_address (reward_pool_seed ∷ a.delegation_pool ∷ a.switch_mint ∷ [])
            a.stake_program)
          false
      ∷ []

  unfoldable pub heartbeat_v2_metas : OracleHeartbeatV2Accounts → List AccountMeta
  heartbeat_v2_metas a =
      writable a.oracle false
      ∷ writable (stats_key a.oracle) false
      ∷ readonly a.oracle_signer true
      ∷ writable a.queue false
      ∷ writable a.gc_node false
      ∷ writable (state_pda chain) false
      ∷ []

  -- The accounts in front of the remaining ones.
  unfoldable pub subsidy_metas : QueuePaySubsidyAccounts → List AccountMeta
  subsidy_metas a =
      writable a.queue false
      ∷ readonly (state_pda chain) false
      ∷ readonly chain.system_program false
      ∷ readonly a.vault false
      ∷ writable (get_associated_token_address a.vault a.switch_mint) false
      ∷ writable (get_associated_token_address (state_pda chain) a.switch_mint) false
      ∷ readonly token_program false
      ∷ readonly associated_token_program false
      ∷ readonly native_mint false
      ∷ readonly a.switch_mint false
      ∷ readonly (chain.find_program_address (config_seed ∷ []) chain.jito_vault_id) false
      ∷ writable a.payer true
      ∷ []

  unfoldable pub pay_subsidy_metas : QueuePaySubsidyAccounts → List AccountMeta
  unfolding subsidy_metas
  pay_subsidy_metas a = subsidy_metas a ++ a.remaining_accounts
