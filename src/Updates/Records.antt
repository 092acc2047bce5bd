-- ===== src/Updates/Records.antt =====
-- The parameters and the results of the updates of pull_feed.rs of the client crate, and what an
-- update meets outside.
use switchboard_sdk.Prelude.{ℕ, Bool, Option, List}
use switchboard_sdk.Prelude.Words.{Bytes}
use switchboard_sdk.Gateways.{Gateway}
use switchboard_sdk.Transaction.{AddressLookupTableAccount, Instruction}
use switchboard_sdk.Submit.{Chain, OracleResponse}
use switchboard_sdk.Luts.Joined.{Owner}
use switchboard_sdk.Answers.{Wire, CrossbarClient}
use switchboard_sdk.Context.{Node}

pub record FetchUpdateParams : Type 0 where
  pub feed : Bytes
  pub payer : Bytes
  pub gateway : Gateway
  pub crossbar : Option CrossbarClient
  pub num_signatures : Option ℕ
  pub debug : Option Bool

pub record FetchUpdateManyParams : Type 0 where
  pub feeds : List Bytes
  pub payer : Bytes
  pub gateway : Gateway
  pub crossbar : Option CrossbarClient
  pub num_signatures : Option ℕ
  pub debug : Option Bool

-- The four parts of the tuple that `fetch_update_ix` returns.
pub record Update (Decimal : Type 0) : Type 0 where
  pub submit_ix : Instruction
  pub oracle_responses : List (OracleResponse Decimal)
  pub successes : ℕ
  pub luts : List AddressLookupTableAccount

pub record PullFeedSubmitResponseConsensus : Type 0 where
  pub queue : Bytes
  pub program_state : Bytes
  pub recent_slothashes : Bytes
  pub payer : Bytes
  pub system_program : Bytes
  pub reward_vault : Bytes
  pub token_program : Bytes
  pub token_mint : Bytes

-- What an update meets outside: the node, the wire, and the program's keys; of the consensus
-- instruction the discriminator, the key of the instructions sysvar and the secp256k1 program; and the
-- order in which the joined fetches of tables end.
pub record World (Job Json Decimal : Type 0) : Type 0 where
  pub node : Node
  pub wire : Wire Job Json Decimal
  pub chain : Chain Decimal
  pub consensus_discriminator : Bytes
  pub instructions_sysvar : Bytes
  pub secp256k1_program : Bytes
  pub order : List Owner
