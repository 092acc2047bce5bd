-- ===== src/Answers/Records.antt =====
-- The requests and the answers of gateway.rs and crossbar.rs of the client crate as records, and what
-- the code takes from its libraries to read them.
use switchboard_sdk.Prelude.{ℕ, Bool, Option, List}
use switchboard_sdk.Prelude.Int.{ℤ}
use switchboard_sdk.Prelude.Words.{Bytes}

-- Why an update is not made.
pub data UpdateError : Type 0 where
  account_not_found parse_failed slot_hashes_failed : UpdateError
  crossbar_failed bad_status jobs_malformed : UpdateError
  signatures_failed no_successful_responses tables_failed : UpdateError

-- The list of the failed answers of other oracles, which has the same type, is left out.
pub record FeedEvalResponse : Type 0 where
  pub oracle_pubkey : Bytes
  pub queue_pubkey : Bytes
  pub oracle_signing_pubkey : Bytes
  pub feed_hash : Bytes
  pub recent_hash : Bytes
  pub failure_error : Bytes
  pub success_value : Bytes
  pub msg : Bytes
  pub signature : Bytes
  pub recovery_id : ℤ
  pub timestamp : Option ℤ

pub record FeedEvalResponseSingle : Type 0 where
  pub responses : List FeedEvalResponse
  pub caller : Bytes
  pub failures : List Bytes

pub record MedianResponse : Type 0 where
  pub value : Bytes
  pub feed_hash : Bytes

pub record ConsensusOracleResponse : Type 0 where
  pub oracle_pubkey : Bytes
  pub eth_address : Bytes
  pub signature : Bytes
  pub checksum : Bytes
  pub recovery_id : ℤ
  pub feed_responses : List FeedEvalResponse
  pub failures : List (Option Bytes)

pub record FetchSignaturesConsensusResponse : Type 0 where
  pub median_responses : List MedianResponse
  pub oracle_responses : List ConsensusOracleResponse

pub record FetchSignaturesParams : Type 0 where
  pub recent_hash : Option Bytes
  pub encoded_jobs : List Bytes
  pub num_signatures : ℕ
  pub max_variance : Option ℕ
  pub min_responses : Option ℕ
  pub use_timestamp : Option Bool

pub record FeedConfig : Type 0 where
  pub encoded_jobs : List Bytes
  pub max_variance : Option ℕ
  pub min_responses : Option ℕ

pub record FetchSignaturesConsensusParams : Type 0 where
  pub recent_hash : Option Bytes
  pub feed_configs : List FeedConfig
  pub use_timestamp : Option Bool
  pub num_signatures : Option ℕ

-- The bodies of the two requests.
pub record FeedRequest : Type 0 where
  pub jobs_b64_encoded : List Bytes
  pub max_variance : ℕ
  pub min_responses : ℕ
  pub use_timestamp : Bool

pub record SingleBody : Type 0 where
  pub recent_chainhash : Bytes
  pub num_oracles : ℕ
  pub request : FeedRequest

pub record ConsensusBody : Type 0 where
  pub recent_hash : Bytes
  pub feed_requests : List FeedRequest
  pub num_oracles : ℕ

pub record CrossbarClient : Type 0 where
  pub crossbar_url : Bytes
  pub verbose : Bool

-- What a server sends back: whether its status is a success, whether its text can be read, and the text
-- as JSON, if it is JSON.
pub record HttpResponse (Json : Type 0) : Type 0 where
  pub is_success : Bool
  pub has_text : Bool
  pub json : Option Json

-- What the code takes from its libraries and from the network. `scale_variance` is
-- `(v as f64 * 1e9) as u64`; `from_i128_with_scale` has no result where the crate's panics.
pub record Wire (Job Json Decimal : Type 0) : Type 0 where
  pub hex_encode : Bytes → Bytes
  pub hex_decode : Bytes → Option Bytes
  pub base64_decode : Bytes → Option Bytes
  pub base58_encode : Bytes → Bytes
  pub parse_i128 : Bytes → Option ℤ
  pub from_i128_with_scale : ℤ → ℕ → Option Decimal
  pub scale_variance : ℕ → ℕ
  pub encode_job : Job → Bytes
  pub jobs_member : Json → Option Json
  pub jobs_from_value : Json → Option (List Job)
  pub http_get : Bytes → Option (HttpResponse Json)
  pub post_single : Bytes → SingleBody → Option Bytes
  pub single_from_str : Bytes → Option FeedEvalResponseSingle
  pub post_consensus : Bytes → ConsensusBody → Option FetchSignaturesConsensusResponse
