-- ===== src/Instructions/Commit.antt =====
-- A commitment to randomness, sent in a transaction or from another program.
use switchboard_sdk.Prelude.{◌≡◌, ap, List, [], ◌∷◌}
use switchboard_sdk.Prelude.Words.{Bytes}
use switchboard_sdk.Transaction.{Instruction}
use switchboard_sdk.LutInstructions.{pid, build_ix}
use switchboard_sdk.Instructions.Params.{
  discriminator, randomness_commit, instruction_data, try_to_vec,
}
use switchboard_sdk.Instructions.Accounts.{
  Programs, RandomnessCommitAccounts, randomness_commit_metas,
}
use switchboard_sdk.Instructions.{
  ix_discriminator, commit_name, invoke_randomness_commit, randomness_commit_ix,
}

-- Where the hash of its name gives an instruction its discriminator, a program that invokes the commitment
-- at the address of the Switchboard program hands over the very instruction that `build_ix` makes for the
-- same keys, whatever key it passes for the slot hashes, with its five accounts and the seeds.
pub invoke_randomness_commit-randomness_commit_ix :
    {R : Type 0} (programs : Programs) (hash : Bytes → Bytes)
    (invoke_signed : Instruction → List Bytes → List (List Bytes) → R)
    (a : RandomnessCommitAccounts) (seeds : List (List Bytes))
    → ix_discriminator hash commit_name ≡ discriminator randomness_commit
    → invoke_randomness_commit programs hash invoke_signed (pid programs.chain) a seeds
      ≡ invoke_signed
          (randomness_commit_ix programs a.randomness a.queue a.oracle a.authority)
          (a.randomness ∷ a.queue ∷ a.oracle ∷ a.recent_slothashes ∷ a.authority ∷ [])
          seeds
unfolding invoke_randomness_commit randomness_commit_ix build_ix instruction_data try_to_vec
    randomness_commit_metas discriminator
invoke_randomness_commit-randomness_commit_ix programs hash invoke_signed a seeds h =
    ap
      (λ (d : Bytes).
        invoke_signed
          (record {
            program_id = pid programs.chain;
            accounts = randomness_commit_metas programs a;
            input = d;
          })
          (a.randomness ∷ a.queue ∷ a.oracle ∷ a.recent_slothashes ∷ a.authority ∷ []) seeds)
      h
