-- ===== src/Updates.antt =====
-- pull_feed.rs of the client crate: `fetch_update_ix`, which updates one feed with the answers of
-- several oracles, and `fetch_update_consensus_ix`, which updates several with the medians that the
-- oracles agree on, behind an instruction that verifies the oracles' signatures. What is printed for
-- debugging is left out.
pub mod Asked
pub mod Returned
pub mod Single
pub mod Loads
pub mod Steps
pub mod Handed
pub mod Consensus
mod Reading
pub mod Caching
mod Examples
mod Records
pub use Records.*
use switchboard_sdk.Prelude.{
  ℕ, ◌==◌, true, false, Option, none, some, List, [], ◌∷◌, ◌++◌, if◌then◌else◌, find, map,
  replicate, Outcome, ok, err, panic, unwrap_or,
}
use switchboard_sdk.Prelude.Int.{ℤ}
use switchboard_sdk.Prelude.Words.{Bytes, bytes_eq}
use switchboard_sdk.Prelude.Exec.{Exec, pure, lift, ◌>>=◌}
use switchboard_sdk.Prelude.Traverse.{traverse}
use switchboard_sdk.Feed.{PullFeedAccountData}
use switchboard_sdk.Transaction.{AccountMeta, AddressLookupTableAccount, Instruction}
use switchboard_sdk.Secp256k1.{SecpError, build_secp256k1_instruction}
use switchboard_sdk.Submit.{
  OracleResponse, consensus_data, gather, get_solana_submit_signatures_ix, single_num_signatures,
  writable, readonly,
}
use switchboard_sdk.Answers.{
  UpdateError, no_successful_responses, CrossbarClient, FeedEvalResponse, MedianResponse,
  FetchSignaturesConsensusResponse, FetchSignaturesParams, FetchSignaturesConsensusParams,
  encode_jobs, fetch_signatures_from_encoded, fetch_signatures_consensus, response_of,
  num_successes, consensus_value, oracle_key_of, secp_signature_of, request_variance, feed_config,
}
use switchboard_sdk.Context.{
  SbContext, SlotHash, cached_feed, cached_jobs, get_latest_slothash, join_luts,
}

-- `unwrap` of the secp256k1 instruction.
unfoldable pub unwrap_ix : Outcome SecpError Instruction → Outcome UpdateError Instruction
unwrap_ix (ok secp_ix) = ok secp_ix
unwrap_ix (err e) = panic
unwrap_ix panic = panic

module _ {Job Json Decimal : Type 0} (world : World Job Json Decimal) where
  open world use {
    node, wire, chain, consensus_discriminator, instructions_sysvar, secp256k1_program, order,
  }

  -- What `fetch_update_ix` makes of the gateway's answers.
  unfoldable pub update_from :
      FetchUpdateParams
      → SlotHash
      → PullFeedAccountData
      → List FeedEvalResponse
      → Exec UpdateError (SbContext Job) (Update Decimal)
  update_from params latest_slot feed_data answers = do
    oracle_responses ← lift (traverse (response_of wire) answers)
    let successes = num_successes wire answers
    if successes == 0 then lift (err no_successful_responses) else (do
      luts ←
          join_luts node order (map (λ (r : OracleResponse Decimal). r.oracle) oracle_responses)
            (params.feed ∷ []) (feed_data.queue ∷ [])
      pure (record {
        submit_ix =
            get_solana_submit_signatures_ix chain latest_slot.slot oracle_responses
              (record { feed = params.feed; queue = feed_data.queue; payer = params.payer });
        oracle_responses = oracle_responses;
        successes = successes;
        luts = luts;
      }))

  unfoldable pub single_request :
      FetchUpdateParams → SlotHash → PullFeedAccountData → List Job → FetchSignaturesParams
  single_request params latest_slot feed_data jobs = record {
    recent_hash = some (wire.base58_encode latest_slot.hash);
    encoded_jobs = encode_jobs wire jobs;
    num_signatures = single_num_signatures feed_data params.num_signatures;
    max_variance = some (request_variance wire feed_data);
    min_responses = some feed_data.min_responses;
    use_timestamp = some false;
  }

  unfoldable pub fetch_update_ix :
      FetchUpdateParams → Exec UpdateError (SbContext Job) (Update Decimal)
  fetch_update_ix params = do
    latest_slot ← lift (get_latest_slothash node)
    feed_data ← cached_feed node params.feed
    jobs ← cached_jobs wire params.crossbar feed_data.feed_hash
    price_signatures ← lift (
        fetch_signatures_from_encoded wire params.gateway
          (single_request params latest_slot feed_data jobs))
    update_from params latest_slot feed_data price_signatures.responses

  -- The loads of the loop over the feeds, with the jobs of each.
  unfoldable pub load_feeds :
      Option CrossbarClient
      → List Bytes
      → Exec UpdateError (SbContext Job) (List (Bytes × PullFeedAccountData × List Job))
  load_feeds crossbar [] = pure []
  load_feeds crossbar (feed ∷ feeds) = do
    data_ ← cached_feed node feed
    jobs ← cached_jobs wire crossbar data_.feed_hash
    rest ← load_feeds crossbar feeds
    pure ((feed, data_, jobs) ∷ rest)

  -- The feed account of a median: the first with its hash, or the default key.
  unfoldable pub feed_pubkey :
      List (Bytes × PullFeedAccountData × List Job) → MedianResponse → Bytes
  feed_pubkey feed_datas median_response =
      elim (find
        (λ (p : Bytes × PullFeedAccountData × List Job).
          bytes_eq (wire.hex_encode p.1.feed_hash) median_response.feed_hash)
        feed_datas) [ none ↦ replicate 32 0 | some p ↦ p.0 ]

  unfoldable pub consensus_metas : PullFeedSubmitResponseConsensus → List AccountMeta
  consensus_metas a =
      readonly a.queue false
      ∷ readonly a.program_state false
      ∷ readonly a.recent_slothashes false
      ∷ writable a.payer true
      ∷ readonly a.system_program false
      ∷ writable a.reward_vault false
      ∷ readonly a.token_program false
      ∷ readonly a.token_mint false
      ∷ readonly instructions_sysvar false
      ∷ []

  -- An oracle and its statistics, one behind the other.
  unfoldable pub oracle_metas : List Bytes → List AccountMeta
  oracle_metas [] = []
  oracle_metas (oracle ∷ oracles) =
      readonly oracle false ∷ writable (chain.stats_key oracle) false ∷ oracle_metas oracles

  -- The nine accounts in front.
  unfoldable pub consensus_accounts : Bytes → Bytes → List AccountMeta
  unfolding consensus_metas
  consensus_accounts queue payer = consensus_metas (record {
    queue = queue;
    program_state = chain.state_key;
    recent_slothashes = chain.slot_hashes;
    payer = payer;
    system_program = chain.system;
    reward_vault = chain.vault_of queue;
    token_program = chain.tokens;
    token_mint = chain.native_mint;
  })

  unfoldable pub consensus_ix : ℕ → Bytes → Bytes → List ℤ → List Bytes → List Bytes → Instruction
  unfolding consensus_accounts oracle_metas
  consensus_ix slot queue payer values feed_pubkeys oracle_keys = record {
    program_id = chain.program;
    input = consensus_data consensus_discriminator (record { slot = slot; values = values });
    accounts =
        consensus_accounts queue payer
        ++ (map (λ (feed : Bytes). writable feed false) feed_pubkeys ++ oracle_metas oracle_keys);
  }

  abbrev pub Loaded : Type 0
  Loaded = List (Bytes × PullFeedAccountData × List Job)

  -- The number of signatures that is asked for, and the queue.
  unfoldable pub needed : FetchUpdateManyParams → Loaded → ℕ × Bytes
  needed params feed_datas =
      gather (unwrap_or params.num_signatures 1) (replicate 32 0)
        (map (λ (p : Bytes × PullFeedAccountData × List Job). p.1) feed_datas)

  unfoldable pub consensus_request :
      FetchUpdateManyParams → Loaded → SlotHash → FetchSignaturesConsensusParams
  unfolding needed
  consensus_request params feed_datas latest_slot = record {
    recent_hash = some (wire.base58_encode latest_slot.hash);
    num_signatures = some (needed params feed_datas).0;
    feed_configs =
        map (λ (p : Bytes × PullFeedAccountData × List Job). feed_config wire p.1 p.2) feed_datas;
    use_timestamp = some false;
  }

  -- What `fetch_update_consensus_ix` makes of the gateway's answers.
  unfoldable pub consensus_from :
      FetchUpdateManyParams
      → Loaded
      → SlotHash
      → FetchSignaturesConsensusResponse
      → Exec UpdateError (SbContext Job) (List Instruction × List AddressLookupTableAccount)
  consensus_from params feed_datas latest_slot answers = do
    let queue = (needed params feed_datas).1
    oracle_keys ← lift (traverse (oracle_key_of wire) answers.oracle_responses)
    secp_signatures ← lift (traverse (secp_signature_of wire) answers.oracle_responses)
    secp_ix ← lift (unwrap_ix (build_secp256k1_instruction secp256k1_program secp_signatures 0))
    luts ← join_luts node order oracle_keys params.feeds (queue ∷ [])
    pure (
      secp_ix
          ∷ consensus_ix latest_slot.slot queue params.payer
              (map (consensus_value wire) answers.median_responses)
              (map (feed_pubkey feed_datas) answers.median_responses) oracle_keys
          ∷ [],
      luts,
    )

  unfoldable pub fetch_update_consensus_ix :
      FetchUpdateManyParams
      → Exec UpdateError (SbContext Job) (List Instruction × List AddressLookupTableAccount)
  fetch_update_consensus_ix params = do
    feed_datas ← load_feeds params.crossbar params.feeds
    latest_slot ← lift (get_latest_slothash node)
    price_signatures ← lift (
        fetch_signatures_consensus wire params.gateway
          (consensus_request params feed_datas latest_slot))
    consensus_from params feed_datas latest_slot price_signatures
