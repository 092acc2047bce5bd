-- ===== src/Instructions/Examples.antt =====
-- A node that has one state, one queue and its oracles, and the theorems about instructions on it.
use switchboard_sdk.Prelude.{
  arith, ◌≡◌, refl, some, none, List, [], ◌∷◌, ◌++◌, ok, replicate, Outcome, All, err, panic,
}
use switchboard_sdk.Prelude.Int.{pos}
use switchboard_sdk.Prelude.Words.{Bytes, bytes_eq}
use switchboard_sdk.Error.{OnDemandError}
use switchboard_sdk.Account.{Layout, fetch_zerocopy_account, check_discriminator, try_from_bytes}
use switchboard_sdk.Queue.{QueueAccountData, prefix}
use switchboard_sdk.Transaction.{AccountMeta, Instruction}
use switchboard_sdk.LutInstructions.Examples.{example_chain, oracles, queues, node}
use switchboard_sdk.Instructions.Commit.{invoke_randomness_commit-randomness_commit_ix}
use switchboard_sdk.LutInstructions.{pid}
use switchboard_sdk.Instructions.Tables.{fetch_luts-Gathers, Gathers}
use switchboard_sdk.Queue.Examples.{example_queue}
use switchboard_sdk.Instructions.Params.{
  discriminator, randomness_commit, GuardianQuoteVerifyParams, InstructionData,
  guardian_quote_verify,
}
use switchboard_sdk.Instructions.Accounts.{RandomnessCommitAccounts, Programs, subsidy_metas}
use switchboard_sdk.Instructions.{
  fetch_luts, commit_name, invoke_randomness_commit, ix_discriminator, State, StateEpochInfo,
  GuardianQuoteVerifyArgs, OracleSetConfigsArgs, QueueGarbageCollectArgs, OracleHeartbeatArgs,
  OracleHeartbeatV2Args, QueuePaySubsidyArgs, randomness_commit_ix, garbage_collect_ix, fetch_state,
  heartbeat_ix, heartbeat_v2_ix, subsidy_accounts, pay_subsidy_ix,
}
use switchboard_sdk.Instructions.Encoding.{instruction_data-injective, Fits}
use switchboard_sdk.Instructions.Signers.{instructions-AskOnly, AsksOnly, beats, built_by}
use switchboard_sdk.Instructions.Subsidy.{pay_subsidy_ix-Pays, Paid, OfOracle}

abbrev example_programs : Programs
example_programs = record {
  chain = example_chain;
  slot_hashes = 21 ∷ [];
  token_program = 22 ∷ [];
  associated_token_program = 23 ∷ [];
  native_mint = 24 ∷ [];
  get_associated_token_address = λ owner mint. owner ++ mint;
}

abbrev epoch : StateEpochInfo
epoch = record { id = 1; slot_end = 2 }

abbrev example_state : State
example_state = record {
  bump = 1;
  test_only_disable_mr_enclave_check = 0;
  authority = 25 ∷ [];
  guardian_queue = 26 ∷ [];
  epoch_length = 4;
  current_epoch = epoch;
  next_epoch = epoch;
  finalized_epoch = epoch;
  stake_pool = 27 ∷ [];
  stake_program = 28 ∷ [];
  switch_mint = 29 ∷ [];
  sgx_advisories = [];
  advisories_len = 0;
}

abbrev states : Layout State
states = record { discriminator = replicate 8 9; size = 0; cast = λ _. some example_state }

abbrev quote_args : GuardianQuoteVerifyArgs
quote_args = record {
  guardian = 31 ∷ [];
  oracle = 32 ∷ [];
  authority = 33 ∷ [];
  guardian_queue = 34 ∷ [];
  timestamp = pos 1;
  mr_enclave = replicate 32 1;
  idx = 2;
  ed25519_key = replicate 32 2;
  secp256k1_key = replicate 64 3;
  slot = 5;
  signature = replicate 64 4;
  recovery_id = 1;
  advisories = 6 ∷ 7 ∷ [];
}

abbrev quote_params : GuardianQuoteVerifyParams
quote_params = record {
  timestamp = pos 1;
  mr_enclave = replicate 32 1;
  idx = 2;
  ed25519_key = replicate 32 2;
  secp256k1_key = replicate 64 3;
  slot = 5;
  signature = replicate 64 4;
  recovery_id = 1;
  advisories = 6 ∷ 7 ∷ [];
}

quote-Fits : Fits (guardian_quote_verify quote_params)
quote-Fits = record {
  timestamp = omega arith;
  mr_enclave = refl;
  idx = omega arith;
  ed25519_key = refl;
  secp256k1_key = refl;
  slot = omega arith;
  signature = refl;
  count = omega arith;
  advisories = (omega arith, (omega arith, tt));
}

instruction_data-injective_example :
    ◌≡◌ {A = InstructionData}
      (guardian_quote_verify quote_params)
      (guardian_quote_verify quote_params)
instruction_data-injective_example =
    instruction_data-injective (guardian_quote_verify quote_params)
      (guardian_quote_verify quote_params) quote-Fits quote-Fits refl

abbrev beat_args : OracleHeartbeatArgs
beat_args = record {
  oracle = 41 ∷ [];
  oracle_signer = 42 ∷ [];
  queue = 43 ∷ [];
  queue_authority = 44 ∷ [];
  gc_node = 45 ∷ [];
  uri = none;
  pending_paid_accounts = (46 ∷ []) ∷ [];
  escrows = (47 ∷ []) ∷ [];
  payer = 48 ∷ [];
}

abbrev beat_v2_args : OracleHeartbeatV2Args
beat_v2_args = record { oracle = 41 ∷ []; oracle_signer = 42 ∷ []; gc_node = 45 ∷ []; uri = none }

abbrev pay_args : QueuePaySubsidyArgs
pay_args = record { queue = 43 ∷ []; vault = 49 ∷ []; payer = 48 ∷ [] }

abbrev configs_args : OracleSetConfigsArgs
configs_args = record { oracle = 41 ∷ []; authority = 50 ∷ []; secp_authority = replicate 64 5 }

abbrev garbage_args : QueueGarbageCollectArgs
garbage_args = record { queue = 43 ∷ []; oracle = 41 ∷ []; idx = 3 }

abbrev built : Outcome OnDemandError Instruction → Instruction
built (ok ix) = ix
built (err e) = garbage_collect_ix example_programs garbage_args
built panic = garbage_collect_ix example_programs garbage_args

abbrev beat : Instruction
beat = built (heartbeat_ix example_programs states oracles queues node beat_args)

abbrev beat_v2 : Instruction
beat_v2 = built (heartbeat_v2_ix example_programs states oracles queues node beat_v2_args)

abbrev pay : Instruction
pay = built (pay_subsidy_ix example_programs states oracles queues node pay_args)

beat_runs : heartbeat_ix example_programs states oracles queues node beat_args ≡ ok beat
unfolding heartbeat_ix fetch_state bytes_eq fetch_zerocopy_account check_discriminator
    try_from_bytes
beat_runs = refl

beat_v2_runs : heartbeat_v2_ix example_programs states oracles queues node beat_v2_args ≡ ok beat_v2
unfolding heartbeat_v2_ix fetch_state bytes_eq fetch_zerocopy_account check_discriminator
    try_from_bytes
beat_v2_runs = refl

pay_runs : pay_subsidy_ix example_programs states oracles queues node pay_args ≡ ok pay
unfolding pay_subsidy_ix fetch_state subsidy_accounts prefix bytes_eq fetch_zerocopy_account
    check_discriminator try_from_bytes
pay_runs = refl

instructions-AskOnly_example : AsksOnly ((42 ∷ []) ∷ (48 ∷ []) ∷ []) beat
instructions-AskOnly_example =
    instructions-AskOnly example_programs states oracles queues node (beats beat_args) beat
      (unfold built_by in beat_runs)

pay_subsidy_ix-Pays_example :
    (state : State) × (q : QueueAccountData) × (keys : List Bytes) × (rest : List AccountMeta)
    × (fetch_state example_programs states oracles queues node ≡ ok state)
    × (fetch_zerocopy_account queues (node (43 ∷ [])) ≡ ok q)
    × (◌≡◌ {A = Outcome OnDemandError (List Bytes)}
        (prefix q.all_oracle_keys q.oracle_keys_len)
        (ok keys))
    × (pay.accounts
        ≡ subsidy_metas example_programs (record {
          queue = 43 ∷ [];
          vault = 49 ∷ [];
          switch_mint = state.switch_mint;
          remaining_accounts = rest;
          payer = 48 ∷ [];
        })
          ++ rest)
    × All (Paid example_programs states oracles queues node state.switch_mint rest) keys
    × All (OfOracle example_programs states oracles queues node state.switch_mint keys) rest
pay_subsidy_ix-Pays_example =
    pay_subsidy_ix-Pays example_programs states oracles queues node pay_args pay pay_runs

-- A hash that begins with the discriminator, and an invocation that answers with its instruction.
abbrev commit_hash : Bytes → Bytes
commit_hash name = discriminator randomness_commit ++ name

abbrev commit_accounts : RandomnessCommitAccounts
commit_accounts = record {
  randomness = 51 ∷ [];
  queue = 43 ∷ [];
  oracle = 41 ∷ [];
  recent_slothashes = 54 ∷ [];
  authority = 50 ∷ [];
}

commit_hash_fits : ix_discriminator commit_hash commit_name ≡ discriminator randomness_commit
unfolding ix_discriminator discriminator
commit_hash_fits = refl

invoke_randomness_commit-randomness_commit_ix_example :
    invoke_randomness_commit example_programs commit_hash
      (λ ix accounts seeds. ix)
      (pid example_chain)
      commit_accounts
      []
    ≡ randomness_commit_ix example_programs (51 ∷ []) (43 ∷ []) (41 ∷ []) (50 ∷ [])
invoke_randomness_commit-randomness_commit_ix_example =
    invoke_randomness_commit-randomness_commit_ix example_programs commit_hash
      (λ ix accounts seeds. ix) commit_accounts [] commit_hash_fits

queue_read : fetch_zerocopy_account queues (node (43 ∷ [])) ≡ ok example_queue
unfolding bytes_eq fetch_zerocopy_account check_discriminator try_from_bytes
queue_read = refl

fetch_luts-Gathers_example :
    Gathers example_programs states oracles queues node
      (λ _. some [])
      (replicate 32 10 ∷ replicate 32 11 ∷ [])
      (fetch_luts example_programs states oracles queues node (λ _. some []) pay_args)
fetch_luts-Gathers_example =
    fetch_luts-Gathers example_programs states oracles queues node (λ _. some []) refl pay_args
      example_queue (replicate 32 10 ∷ replicate 32 11 ∷ []) queue_read (unfold prefix in refl)
