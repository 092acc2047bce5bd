-- ===== src/Checksum.antt =====
-- The checksums that oracles sign: `generate_checksum`, `generate_checksum_inner` and
-- `generate_checksum_with_timestamp` of on_demand/accounts/pull_feed.rs, and
-- `generate_combined_checksum` of the client crate's pull_feed.rs. SHA-256 is a parameter.
pub mod Binding
pub mod Timestamped
pub mod Combined
pub mod Examples
use switchboard_sdk.Prelude.{ℕ, List, [], ◌∷◌, ◌++◌}
use switchboard_sdk.Prelude.Int.{ℤ}
use switchboard_sdk.Prelude.Bytes.{to_le_bytes, i128_to_le_bytes}
use switchboard_sdk.Prelude.Words.{Bytes}
use switchboard_sdk.Feed.{PullFeedAccountData}

-- The arguments of `generate_checksum_inner`.
pub record Message : Type 0 where
  pub queue : Bytes
  pub feed_hash : Bytes
  pub result : ℤ
  pub slothash : Bytes
  pub max_variance : ℕ
  pub min_responses : ℕ

-- What the hasher is updated with, in order.
pub preimage : Message → Bytes
preimage m =
    m.queue
    ++ (m.feed_hash
        ++ (i128_to_le_bytes m.result
            ++ (m.slothash ++ (to_le_bytes 8 m.max_variance ++ to_le_bytes 4 m.min_responses))))

-- One feed's part of the combined message.
pub feed_part : PullFeedAccountData → Bytes
feed_part feed =
    feed.feed_hash ++ (to_le_bytes 8 feed.max_variance ++ to_le_bytes 4 feed.min_responses)

pub feed_parts : List PullFeedAccountData → Bytes
feed_parts [] = []
feed_parts (feed ∷ feeds) = feed_part feed ++ feed_parts feeds

pub value_parts : List ℤ → Bytes
value_parts [] = []
value_parts (v ∷ vs) = i128_to_le_bytes v ++ value_parts vs

-- The arguments of `generate_combined_checksum`.
pub record CombinedMessage : Type 0 where
  pub queue_key : Bytes
  pub feeds : List PullFeedAccountData
  pub signed_slothash : Bytes
  pub submission_values : List ℤ

pub combined_preimage : CombinedMessage → Bytes
combined_preimage m =
    m.queue_key ++ (feed_parts m.feeds ++ (m.signed_slothash ++ value_parts m.submission_values))

module _ (sha256 : Bytes → Bytes) where
  pub generate_checksum_inner : Message → Bytes
  generate_checksum_inner m = sha256 (preimage m)

  pub generate_checksum : PullFeedAccountData → ℤ → Bytes → Bytes
  generate_checksum feed result slothash = generate_checksum_inner (record {
    queue = feed.queue;
    feed_hash = feed.feed_hash;
    result = result;
    slothash = slothash;
    max_variance = feed.max_variance;
    min_responses = feed.min_responses;
  })

  pub generate_checksum_with_timestamp : Message → ℕ → Bytes
  generate_checksum_with_timestamp m timestamp = sha256 (preimage m ++ to_le_bytes 8 timestamp)

  pub generate_combined_checksum : CombinedMessage → Bytes
  generate_combined_checksum m = sha256 (combined_preimage m)
