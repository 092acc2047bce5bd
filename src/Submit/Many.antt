-- ===== src/Submit/Many.antt =====
-- The submission of several oracles' values at once, of instructions/pull_feed_submit_response_many_ix.rs
-- of the client crate, and the three instructions of submissions together.
use switchboard_sdk.Prelude.{ℕ, List, [], ◌∷◌, ◌++◌, length, false, true}
use switchboard_sdk.Prelude.Int.{ℤ}
use switchboard_sdk.Prelude.Bytes.{to_le_bytes}
use switchboard_sdk.Prelude.Words.{Bytes}
use switchboard_sdk.Transaction.{AccountMeta}
use switchboard_sdk.Submit.{
  PullFeedSubmitResponseParams, PullFeedSubmitResponseConsensusParams, all_values, submit_data,
  consensus_data, writable, readonly,
}

pub record MultiSubmission : Type 0 where
  pub values : List ℤ
  pub signature : Bytes
  pub recovery_id : ℕ

pub record PullFeedSubmitResponseManyParams : Type 0 where
  pub slot : ℕ
  pub submissions : List MultiSubmission

pub record PullFeedSubmitResponseMany : Type 0 where
  pub queue : Bytes
  pub program_state : Bytes
  pub recent_slothashes : Bytes
  pub payer : Bytes
  pub system_program : Bytes
  pub reward_vault : Bytes
  pub token_program : Bytes
  pub token_mint : Bytes

-- `to_account_metas`; the first argument is the key of the instructions sysvar.
unfoldable pub many_metas : Bytes → PullFeedSubmitResponseMany → List AccountMeta
many_metas instructions_sysvar a =
    readonly a.queue false
    ∷ readonly a.program_state false
    ∷ readonly a.recent_slothashes false
    ∷ writable a.payer true
    ∷ readonly a.system_program false
    ∷ writable a.reward_vault false
    ∷ readonly a.token_program false
    ∷ readonly a.token_mint false
    ∷ readonly instructions_sysvar false
    ∷ []

unfoldable pub multi_submission_bytes : MultiSubmission → Bytes
multi_submission_bytes s =
    to_le_bytes 4 (length s.values) ++ (all_values s.values ++ (s.signature ++ s.recovery_id ∷ []))

unfoldable pub all_multi_submissions : List MultiSubmission → Bytes
all_multi_submissions [] = []
all_multi_submissions (s ∷ ss) = multi_submission_bytes s ++ all_multi_submissions ss

unfoldable pub many_data : Bytes → PullFeedSubmitResponseManyParams → Bytes
many_data discriminator p =
    discriminator
    ++ (to_le_bytes 8 p.slot
        ++ (to_le_bytes 4 (length p.submissions) ++ all_multi_submissions p.submissions))

-- The parameters of any of the three instructions.
pub data SubmitParams : Type 0 where
  response : PullFeedSubmitResponseParams → SubmitParams
  consensus : PullFeedSubmitResponseConsensusParams → SubmitParams
  many : PullFeedSubmitResponseManyParams → SubmitParams

-- What `get_discriminator` answers for the names of the three instructions.
pub record SubmitDiscriminators : Type 0 where
  pub response_discriminator : Bytes
  pub consensus_discriminator : Bytes
  pub many_discriminator : Bytes

unfoldable pub params_data : SubmitDiscriminators → SubmitParams → Bytes
params_data d (response p) = submit_data d.response_discriminator p
params_data d (consensus p) = consensus_data d.consensus_discriminator p
params_data d (many p) = many_data d.many_discriminator p
