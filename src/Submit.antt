-- ===== src/Submit.antt =====
-- The instructions by which the client submits what oracles signed: pull_feed.rs of the client crate
-- (get_solana_submit_signatures_ix, and of fetch_update_ix and fetch_update_consensus_ix how many
-- signatures are asked for and which feed accounts are passed) and the parameters of
-- instructions/pull_feed_submit_response_ix.rs and pull_feed_submit_response_consensus.rs.
pub mod Encoding
pub mod Many
pub mod Fields
pub mod Accounts
pub mod Quorum
pub mod Examples
use switchboard_sdk.Prelude.{
  ℕ, ◌+◌, ◌/◌, ◌^◌, ◌-◌, Bool, true, false, Option, none, some, List, [], ◌∷◌, ◌++◌, map,
  if◌then◌else◌, ltb, length, find, replicate,
}
use switchboard_sdk.Prelude.Int.{ℤ, pos}
use switchboard_sdk.Prelude.Bytes.{to_le_bytes, i128_to_le_bytes}
use switchboard_sdk.Prelude.Words.{Bytes, bytes_eq}
use switchboard_sdk.Feed.{PullFeedAccountData}
use switchboard_sdk.Transaction.{AccountMeta, Instruction}

pub record Submission : Type 0 where
  pub value : ℤ
  pub signature : Bytes
  pub recovery_id : ℕ
  pub offset : ℕ

pub record PullFeedSubmitResponseParams : Type 0 where
  pub slot : ℕ
  pub submissions : List Submission

pub record PullFeedSubmitResponseConsensusParams : Type 0 where
  pub slot : ℕ
  pub values : List ℤ

-- What Borsh writes for a submission, and for a sequence of them behind its length on 32 bits.
unfoldable pub submission_bytes : Submission → Bytes
submission_bytes s = i128_to_le_bytes s.value ++ (s.signature ++ s.recovery_id ∷ s.offset ∷ [])

unfoldable pub all_submissions : List Submission → Bytes
all_submissions [] = []
all_submissions (s ∷ ss) = submission_bytes s ++ all_submissions ss

unfoldable pub all_values : List ℤ → Bytes
all_values [] = []
all_values (v ∷ vs) = i128_to_le_bytes v ++ all_values vs

-- `data`; the discriminator of eight bytes is a hash of the instruction's name.
unfoldable pub submit_data : Bytes → PullFeedSubmitResponseParams → Bytes
submit_data discriminator p =
    discriminator
    ++ (to_le_bytes 8 p.slot
        ++ (to_le_bytes 4 (length p.submissions) ++ all_submissions p.submissions))

unfoldable pub consensus_data : Bytes → PullFeedSubmitResponseConsensusParams → Bytes
consensus_data discriminator p =
    discriminator
    ++ (to_le_bytes 8 p.slot ++ (to_le_bytes 4 (length p.values) ++ all_values p.values))

-- `AccountMeta::new` and `AccountMeta::new_readonly`.
unfoldable pub writable : Bytes → Bool → AccountMeta
writable key is_signer = record { pubkey = key; is_signer = is_signer; is_writable = true }

unfoldable pub readonly : Bytes → Bool → AccountMeta
readonly key is_signer = record { pubkey = key; is_signer = is_signer; is_writable = false }

pub record PullFeedSubmitResponse : Type 0 where
  pub feed : Bytes
  pub queue : Bytes
  pub program_state : Bytes
  pub recent_slothashes : Bytes
  pub payer : Bytes
  pub system_program : Bytes
  pub reward_vault : Bytes
  pub token_program : Bytes
  pub token_mint : Bytes

unfoldable pub to_account_metas : PullFeedSubmitResponse → List AccountMeta
to_account_metas a =
    writable a.feed false
    ∷ readonly a.queue false
    ∷ readonly a.program_state false
    ∷ readonly a.recent_slothashes false
    ∷ writable a.payer true
    ∷ readonly a.system_program false
    ∷ writable a.reward_vault false
    ∷ readonly a.token_program false
    ∷ readonly a.token_mint false
    ∷ []

pub record OracleResponse (Decimal : Type 0) : Type 0 where
  pub value : Option Decimal
  pub failure : Bytes
  pub oracle : Bytes
  pub signature : Bytes
  pub recovery_id : ℕ

-- `SolanaSubmitSignaturesParams`
pub record SolanaSubmitSignaturesParams : Type 0 where
  pub queue : Bytes
  pub feed : Bytes
  pub payer : Bytes

-- The keys and addresses that the crates derive or fix, and what is used of rust_decimal: the
-- mantissa at the scale 18.
pub record Chain (Decimal : Type 0) : Type 0 where
  pub program : Bytes
  pub state_key : Bytes
  pub slot_hashes : Bytes
  pub system : Bytes
  pub tokens : Bytes
  pub native_mint : Bytes
  pub vault_of : Bytes → Bytes
  pub stats_key : Bytes → Bytes
  pub submit_discriminator : Bytes
  pub mantissa_at_18 : Decimal → ℤ

-- `i128::MAX` stands for a response without a value.
abbrev pub i128_max : ℤ
i128_max = pos (2 ^ 127 - 1)

module _ {Decimal : Type 0} (chain : Chain Decimal) where
  open chain use {
    program, state_key, slot_hashes, system, tokens, native_mint, vault_of, stats_key,
    submit_discriminator, mantissa_at_18,
  }

  unfoldable pub submission_of : OracleResponse Decimal → Submission
  submission_of r = record {
    value = elim r.value [ none ↦ i128_max | some val ↦ mantissa_at_18 val ];
    signature = r.signature;
    recovery_id = r.recovery_id;
    offset = 0;
  }

  unfoldable pub remaining_accounts : List (OracleResponse Decimal) → List AccountMeta
  remaining_accounts responses =
      map (λ (r : OracleResponse Decimal). readonly r.oracle false) responses
      ++ map (λ (r : OracleResponse Decimal). writable (stats_key r.oracle) false) responses

  -- The accounts of the instruction before the remaining ones.
  unfoldable pub submit_accounts : SolanaSubmitSignaturesParams → PullFeedSubmitResponse
  submit_accounts params = record {
    feed = params.feed;
    queue = params.queue;
    program_state = state_key;
    recent_slothashes = slot_hashes;
    payer = params.payer;
    system_program = system;
    reward_vault = vault_of params.queue;
    token_program = tokens;
    token_mint = native_mint;
  }

  unfoldable pub get_solana_submit_signatures_ix :
      ℕ → List (OracleResponse Decimal) → SolanaSubmitSignaturesParams → Instruction
  get_solana_submit_signatures_ix slot responses params = record {
    program_id = program;
    input =
        submit_data submit_discriminator
          (record { slot = slot; submissions = map submission_of responses });
    accounts = to_account_metas (submit_accounts params) ++ remaining_accounts responses;
  }

-- `min_sample_size + ceil(min_sample_size / 3)`, for the u8 that it is.
unfoldable pub num_sig_lower_bound : PullFeedAccountData → ℕ
num_sig_lower_bound feed = feed.min_sample_size + (feed.min_sample_size + 2) / 3

-- `num_signatures` of `fetch_update_ix`.
unfoldable pub single_num_signatures : PullFeedAccountData → Option ℕ → ℕ
single_num_signatures feed none = num_sig_lower_bound feed
single_num_signatures feed (some n) = n

-- The loop over the feeds of `fetch_update_consensus_ix`: the number of signatures, and the queue.
unfoldable pub gather : ℕ → Bytes → List PullFeedAccountData → ℕ × Bytes
gather num_signatures queue [] = (num_signatures, queue)
gather num_signatures queue (feed ∷ feeds) =
    gather
      (if ltb num_signatures (num_sig_lower_bound feed)
        then num_sig_lower_bound feed
        else num_signatures)
      feed.queue feeds
