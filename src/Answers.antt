-- ===== src/Answers.antt =====
-- gateway.rs of the client crate: what it asks a gateway for and what it reads from the answers; the job
-- cache's source, `fetch` of crossbar.rs; and the closures of pull_feed.rs that read the answers.
-- JSON, hex, base64, base58 and the numbers of rust_decimal are parameters, as is what HTTP answers.
-- The constant fields of the requests (the version and the two schemes) are left out.
mod Records
pub mod Batches
pub mod Meaning
pub use Records.*
use switchboard_sdk.Prelude.{
  ◌&&◌, ◌>>=◌, ℕ, ◌+◌, ◌/◌, ◌%◌, ◌^◌, ◌==◌, not, Bool, false, Option, none, some, List, [], ◌∷◌,
  ◌++◌, if◌then◌else◌, length, map, replicate, get_elem?, Outcome, ok, err, ok_or, unwrap,
  unwrap_or,
}
use switchboard_sdk.Prelude.Int.{ℤ}
use switchboard_sdk.Prelude.Bytes.{to_twos}
use switchboard_sdk.Prelude.Words.{Bytes}
use switchboard_sdk.Feed.{PullFeedAccountData}
use switchboard_sdk.Gateways.{Gateway}
use switchboard_sdk.Secp256k1.{SecpSignature}
use switchboard_sdk.Submit.{OracleResponse, i128_max}

-- `try_into` an array of `n` bytes.
unfoldable pub exactly : ℕ → Bytes → Option Bytes
exactly n bytes = if length bytes == n then some bytes else none

-- `as u8` of an i32.
unfoldable pub low_byte : ℤ → ℕ
low_byte v = to_twos 31 v % 256

-- `CrossbarClient::default`: "https://crossbar.switchboard.xyz"
unfoldable pub default_crossbar : CrossbarClient
default_crossbar = record {
  crossbar_url =
      104 ∷ 116 ∷ 116 ∷ 112 ∷ 115 ∷ 58 ∷ 47 ∷ 47 ∷ 99 ∷ 114 ∷ 111 ∷ 115 ∷ 115 ∷ 98 ∷ 97 ∷ 114 ∷ 46
      ∷ 115 ∷ 119 ∷ 105 ∷ 116 ∷ 99 ∷ 104 ∷ 98 ∷ 111 ∷ 97 ∷ 114 ∷ 100 ∷ 46 ∷ 120 ∷ 121 ∷ 122 ∷ [];
  verbose = false;
}

-- "/fetch/"
abbrev pub fetch_path : Bytes
fetch_path = 47 ∷ 102 ∷ 101 ∷ 116 ∷ 99 ∷ 104 ∷ 47 ∷ []

-- "/gateway/api/v1/fetch_signatures"
abbrev pub signatures_path : Bytes
signatures_path =
    47 ∷ 103 ∷ 97 ∷ 116 ∷ 101 ∷ 119 ∷ 97 ∷ 121 ∷ 47 ∷ 97 ∷ 112 ∷ 105 ∷ 47 ∷ 118 ∷ 49 ∷ 47 ∷ 102
    ∷ 101 ∷ 116 ∷ 99 ∷ 104 ∷ 95 ∷ 115 ∷ 105 ∷ 103 ∷ 110 ∷ 97 ∷ 116 ∷ 117 ∷ 114 ∷ 101 ∷ 115 ∷ []

-- "_consensus"
abbrev pub consensus_suffix : Bytes
consensus_suffix = 95 ∷ 99 ∷ 111 ∷ 110 ∷ 115 ∷ 101 ∷ 110 ∷ 115 ∷ 117 ∷ 115 ∷ []

module _ {Job Json Decimal : Type 0} (wire : Wire Job Json Decimal) where
  open wire use {
    hex_encode, hex_decode, base64_decode, base58_encode, parse_i128, from_i128_with_scale,
    scale_variance, encode_job, jobs_member, jobs_from_value, http_get, post_single,
    single_from_str, post_consensus,
  }

  -- `CrossbarClient::fetch`, which reads the text of a failure for printing.
  unfoldable pub crossbar_fetch : CrossbarClient → Bytes → Outcome UpdateError Json
  crossbar_fetch crossbar feed_hash = do
    resp ← ok_or (http_get (crossbar.crossbar_url ++ (fetch_path ++ feed_hash))) crossbar_failed
    if not resp.is_success
        then (if crossbar.verbose && not resp.has_text then err crossbar_failed else err bad_status)
        else ok_or resp.json crossbar_failed

  -- What fills a cell of the job cache.
  unfoldable pub fetch_jobs : Option CrossbarClient → Bytes → Outcome UpdateError (List Job)
  unfolding crossbar_fetch default_crossbar
  fetch_jobs crossbar feed_hash = do
    jobs_data ← crossbar_fetch (unwrap_or crossbar default_crossbar) (hex_encode feed_hash)
    jobs ← unwrap (jobs_member jobs_data)
    ok_or (jobs_from_value jobs) jobs_malformed

  unfoldable pub encode_jobs : List Job → List Bytes
  encode_jobs = map encode_job

  -- The recent hash, or that of 32 zero bytes.
  abbrev pub hash_or_zeros : Option Bytes → Bytes
  hash_or_zeros recent_hash = unwrap_or recent_hash (base58_encode (replicate 32 0))

  unfoldable pub feed_request : Option Bool → FeedConfig → FeedRequest
  feed_request use_timestamp config = record {
    jobs_b64_encoded = config.encoded_jobs;
    max_variance = scale_variance (unwrap_or config.max_variance 1);
    min_responses = unwrap_or config.min_responses 1;
    use_timestamp = unwrap_or use_timestamp false;
  }

  unfoldable pub fetch_signatures_from_encoded :
      Gateway → FetchSignaturesParams → Outcome UpdateError FeedEvalResponseSingle
  unfolding feed_request
  fetch_signatures_from_encoded gateway params = do
    raw ←
        ok_or
          (post_single (gateway.gateway_url ++ signatures_path) (record {
            recent_chainhash = hash_or_zeros params.recent_hash;
            num_oracles = params.num_signatures;
            request = feed_request params.use_timestamp (record {
              encoded_jobs = params.encoded_jobs;
              max_variance = params.max_variance;
              min_responses = params.min_responses;
            });
          }))
          signatures_failed
    unwrap (single_from_str raw)

  unfoldable pub fetch_signatures_consensus :
      Gateway
      → FetchSignaturesConsensusParams
      → Outcome UpdateError FetchSignaturesConsensusResponse
  unfolding feed_request
  fetch_signatures_consensus gateway params =
      ok_or
        (post_consensus (gateway.gateway_url ++ (signatures_path ++ consensus_suffix)) (record {
          recent_hash = hash_or_zeros params.recent_hash;
          feed_requests = map (feed_request params.use_timestamp) params.feed_configs;
          num_oracles = unwrap_or params.num_signatures 1;
        }))
        signatures_failed

  -- The decimal of a value that parses.
  unfoldable pub formatted_value : Option ℤ → Outcome UpdateError (Option Decimal)
  formatted_value none = ok none
  formatted_value (some val) = do d ← unwrap (from_i128_with_scale val 18); ok (some d)

  -- What `fetch_update_ix` makes of an answer.
  unfoldable pub response_of : FeedEvalResponse → Outcome UpdateError (OracleResponse Decimal)
  unfolding exactly low_byte formatted_value
  response_of x = do
    value ← formatted_value (parse_i128 x.success_value)
    key ← unwrap (hex_decode x.oracle_pubkey)
    oracle ← unwrap (exactly 32 key)
    ok (record {
      value = value;
      failure = x.failure_error;
      oracle = oracle;
      signature =
          unwrap_or (exactly 64 (unwrap_or (base64_decode x.signature) [])) (replicate 64 0);
      recovery_id = low_byte x.recovery_id;
    })

  -- `num_successes`, which the same closure counts.
  unfoldable pub num_successes : List FeedEvalResponse → ℕ
  num_successes [] = 0
  num_successes (x ∷ xs) =
      elim (parse_i128 x.success_value) [ none ↦ 0 | some _ ↦ 1 ] + num_successes xs

  -- What `fetch_update_consensus_ix` makes of a median and of an oracle's answer.
  unfoldable pub consensus_value : MedianResponse → ℤ
  consensus_value mr = unwrap_or (parse_i128 mr.value) i128_max

  unfoldable pub oracle_key_of : ConsensusOracleResponse → Outcome UpdateError Bytes
  unfolding exactly
  oracle_key_of x = do
    first ← unwrap (get_elem? x.feed_responses 0)
    unwrap (exactly 32 (unwrap_or (hex_decode first.oracle_pubkey) []))

  unfoldable pub secp_signature_of : ConsensusOracleResponse → Outcome UpdateError SecpSignature
  unfolding exactly low_byte
  secp_signature_of x = do
    address ← unwrap (hex_decode x.eth_address)
    eth_address ← unwrap (exactly 20 address)
    signed ← unwrap (base64_decode x.signature)
    signature ← unwrap (exactly 64 signed)
    message ← unwrap (base64_decode x.checksum)
    ok (record {
      signature = signature;
      recovery_id = low_byte x.recovery_id;
      eth_address = eth_address;
      message = message;
    })

  -- `(data.max_variance / 1_000_000_000) as u32`
  unfoldable pub request_variance : PullFeedAccountData → ℕ
  request_variance feed = (feed.max_variance / 1_000_000_000) % 2 ^ 32

  unfoldable pub feed_config : PullFeedAccountData → List Job → FeedConfig
  unfolding request_variance encode_jobs
  feed_config feed jobs = record {
    encoded_jobs = encode_jobs jobs;
    max_variance = some (request_variance feed);
    min_responses = some feed.min_responses;
  }
