-- ===== src/LutInstructions/Examples.antt =====
-- The two instructions on one oracle.
use switchboard_sdk.Prelude.{
  ◌≡◌, refl, Option, some, [], ◌∷◌, ◌++◌, ok, replicate, get_elem?, false, true,
}
use switchboard_sdk.Prelude.Words.{Bytes, bytes_eq}
use switchboard_sdk.Account.{Layout, fetch_zerocopy_account, check_discriminator, try_from_bytes}
use switchboard_sdk.Oracle.{OracleAccountData}
use switchboard_sdk.Queue.{QueueAccountData}
use switchboard_sdk.Queue.Examples.{example_queue}
use switchboard_sdk.Oracle.Examples.{example_oracle}
use switchboard_sdk.Transaction.{Instruction}
use switchboard_sdk.Submit.{writable}
use switchboard_sdk.LutInstructions.{
  Chain, OracleSyncLutArgs, OracleResetLutArgs, sync_lut_ix, reset_lut_ix, sync_metas, reset_metas,
  sync_data, reset_data, pid, sync_accounts, reset_accounts, build_ix,
}
use switchboard_sdk.LutInstructions.Authority.{lut_instructions-AskAuthority, AsksAuthority}

-- Derived addresses begin with the first seed.
abbrev pub example_chain : Chain
example_chain = record {
  devnet = false;
  devnet_pid = 1 ∷ [];
  mainnet_pid = 2 ∷ [];
  find_program_address = λ seeds program. elim seeds [ [] ↦ program | s ∷ _ ↦ s ++ program ];
  derive_lookup_table_address = λ key slot. slot ∷ key;
  system_program = 3 ∷ [];
  address_lookup_table_program = 4 ∷ [];
  jito_restaking_id = 5 ∷ [];
  jito_vault_id = 6 ∷ [];
}

abbrev pub oracles : Layout OracleAccountData
oracles = record { discriminator = replicate 8 9; size = 0; cast = λ _. some example_oracle }

abbrev pub queues : Layout QueueAccountData
queues = record { discriminator = replicate 8 9; size = 0; cast = λ _. some example_queue }

abbrev pub node : Bytes → Option Bytes
node key = some (replicate 8 9)

abbrev sync_args : OracleSyncLutArgs
sync_args = record { oracle = 7 ∷ []; vault = 8 ∷ []; payer = 9 ∷ []; lut_slot = 12 }

abbrev reset_args : OracleResetLutArgs
reset_args = record { oracle = 7 ∷ []; payer = 10 ∷ []; recent_slot = 12 }

abbrev sync : Instruction
sync =
    build_ix (pid example_chain)
      (sync_metas example_chain
        (sync_accounts example_chain sync_args example_oracle example_queue))
      sync_data

abbrev reset : Instruction
reset =
    build_ix (pid example_chain)
      (reset_metas example_chain (reset_accounts example_chain reset_args example_oracle))
      (reset_data 12)

sync_run : sync_lut_ix example_chain oracles queues node sync_args ≡ ok sync
unfolding sync_lut_ix bytes_eq fetch_zerocopy_account check_discriminator try_from_bytes
sync_run = refl

reset_run : reset_lut_ix example_chain oracles queues node reset_args ≡ ok reset
unfolding reset_lut_ix bytes_eq fetch_zerocopy_account check_discriminator try_from_bytes
reset_run = refl

lut_instructions-AskAuthority_example :
    (o : OracleAccountData) × (fetch_zerocopy_account oracles (some (replicate 8 9)) ≡ ok o)
    × AsksAuthority o sync
    × AsksAuthority o reset
    × (get_elem? sync.accounts 13 ≡ some (writable o.authority true))
    × (get_elem? reset.accounts 2 ≡ some (writable o.authority false))
    × (get_elem? sync.accounts 11 ≡ get_elem? reset.accounts 6)
lut_instructions-AskAuthority_example =
    lut_instructions-AskAuthority example_chain oracles queues node sync_args reset_args sync reset
      refl refl sync_run reset_run
