-- ===== src/Answers/Batches.antt =====
-- gateway.rs of the client crate: the requests for the signatures of several feeds without consensus, in
-- one body for all (`fetch_signatures_multi`) and by the batch (`fetch_signatures_batch`).
use switchboard_sdk.Prelude.{
  ℕ, Bool, false, Option, List, [], ◌∷◌, ◌++◌, map, Outcome, ok_or, unwrap_or,
}
use switchboard_sdk.Prelude.Int.{ℤ}
use switchboard_sdk.Prelude.Words.{Bytes}
use switchboard_sdk.Gateways.{Gateway}
use switchboard_sdk.Answers.{
  Wire, UpdateError, signatures_failed, FeedEvalResponse, FeedConfig, ConsensusBody, feed_request,
  hash_or_zeros, signatures_path,
}

pub record FeedEvalManyResponse : Type 0 where
  pub feed_responses : List FeedEvalResponse
  pub signature : Bytes
  pub recovery_id : ℤ
  pub failures : List (Option Bytes)

pub record FetchSignaturesMultiResponse : Type 0 where
  pub oracle_responses : List FeedEvalManyResponse
  pub failures : List (Option Bytes)

pub record FetchSignaturesMultiParams : Type 0 where
  pub recent_hash : Option Bytes
  pub feed_configs : List FeedConfig
  pub num_signatures : Option ℕ
  pub use_timestamp : Option Bool

pub record BatchFeedRequest : Type 0 where
  pub jobs_b64_encoded : List Bytes
  pub max_variance : ℕ
  pub min_responses : ℕ

pub record FetchSignaturesBatchParams : Type 0 where
  pub recent_hash : Option Bytes
  pub feed_configs : List BatchFeedRequest
  pub num_signatures : Option ℕ
  pub use_timestamp : Option Bool

pub record FetchSignaturesBatchRequest : Type 0 where
  pub api_version : Bytes
  pub recent_hash : Bytes
  pub signature_scheme : Bytes
  pub hash_scheme : Bytes
  pub feed_requests : List BatchFeedRequest
  pub num_oracles : ℕ
  pub use_timestamp : Bool

pub record FeedEvalBatchResponse : Type 0 where
  pub feed_responses : List FeedEvalResponse
  pub failures : List (Option Bytes)

pub record FetchSignaturesBatchResponse : Type 0 where
  pub oracle_responses : List FeedEvalBatchResponse
  pub failures : List Bytes

-- What HTTP answers to the two requests.
pub record BatchWire : Type 0 where
  pub post_multi : Bytes → ConsensusBody → Option FetchSignaturesMultiResponse
  pub post_batch : Bytes → FetchSignaturesBatchRequest → Option FetchSignaturesBatchResponse

-- "_multi" and "_batch"
abbrev pub multi_suffix : Bytes
multi_suffix = 95 ∷ 109 ∷ 117 ∷ 108 ∷ 116 ∷ 105 ∷ []

abbrev pub batch_suffix : Bytes
batch_suffix = 95 ∷ 98 ∷ 97 ∷ 116 ∷ 99 ∷ 104 ∷ []

-- "1.0.0", "Secp256k1" and "Sha256"
abbrev pub api_version : Bytes
api_version = 49 ∷ 46 ∷ 48 ∷ 46 ∷ 48 ∷ []

abbrev pub signature_scheme : Bytes
signature_scheme = 83 ∷ 101 ∷ 99 ∷ 112 ∷ 50 ∷ 53 ∷ 54 ∷ 107 ∷ 49 ∷ []

abbrev pub hash_scheme : Bytes
hash_scheme = 83 ∷ 104 ∷ 97 ∷ 50 ∷ 53 ∷ 54 ∷ []

module _ {Job Json Decimal : Type 0} (wire : Wire Job Json Decimal) (batches : BatchWire) where
  open batches use {post_multi, post_batch}

  unfoldable pub fetch_signatures_multi :
      Gateway → FetchSignaturesMultiParams → Outcome UpdateError FetchSignaturesMultiResponse
  unfolding feed_request
  fetch_signatures_multi gateway params =
      ok_or
        (post_multi (gateway.gateway_url ++ (signatures_path ++ multi_suffix)) (record {
          recent_hash = hash_or_zeros wire params.recent_hash;
          feed_requests = map (feed_request wire params.use_timestamp) params.feed_configs;
          num_oracles = unwrap_or params.num_signatures 1;
        }))
        signatures_failed

  unfoldable pub fetch_signatures_batch :
      Gateway → FetchSignaturesBatchParams → Outcome UpdateError FetchSignaturesBatchResponse
  fetch_signatures_batch gateway params =
      ok_or
        (post_batch (gateway.gateway_url ++ (signatures_path ++ batch_suffix)) (record {
          api_version = api_version;
          recent_hash = hash_or_zeros wire params.recent_hash;
          signature_scheme = signature_scheme;
          hash_scheme = hash_scheme;
          feed_requests = params.feed_configs;
          num_oracles = unwrap_or params.num_signatures 1;
          use_timestamp = unwrap_or params.use_timestamp false;
        }))
        signatures_failed
