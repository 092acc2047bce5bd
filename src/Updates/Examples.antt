-- ===== src/Updates/Examples.antt =====
-- A node, a gateway with two oracles and a crossbar, and the theorems about updates on them.
use switchboard_sdk.Prelude.{
  ◌↔◌, ap, ℕ, ◌≡◌, refl, true, Option, none, some, List, [], ◌∷◌, ◌++◌, replicate, map, Outcome, ok,
  err, panic, length,
}
use switchboard_sdk.Prelude.Int.{ℤ, pos}
use switchboard_sdk.Prelude.Bytes.{to_le_bytes}
use switchboard_sdk.Prelude.Words.{Bytes, bytes_eq}
use switchboard_sdk.Prelude.Exec.{pure, lift, ◌>>=◌}
use switchboard_sdk.Prelude.Traverse.{traverse}
use switchboard_sdk.Feed.Examples.{example_feed}
use switchboard_sdk.Submit.Examples.{integers}
use switchboard_sdk.Submit.{gather}
use switchboard_sdk.Luts.{
  split_cached, cache_get, load_lookup_tables, lut_keys_of, parsed_luts, account_to_vec,
}
use switchboard_sdk.Luts.Joined.{of_oracles, of_feeds, of_queue, joined_luts, fetched_luts}
use switchboard_sdk.Secp256k1.{
  build_secp256k1_instruction, bundle, offsets_bytes, block, u16_try_from, offsets_area_size,
  message_offset_of,
}
use switchboard_sdk.Transaction.{Instruction, AddressLookupTableAccount}
use switchboard_sdk.Answers.{
  Wire, FeedEvalResponse, ConsensusOracleResponse, UpdateError, response_of, num_successes,
  fetch_jobs, fetch_signatures_from_encoded, fetch_signatures_consensus, oracle_key_of,
  secp_signature_of,
}
use switchboard_sdk.Context.{
  Node, SbContext, new_context, get_latest_slothash, load_data, get_or_try_init, cached_feed,
  cached_jobs, fetches, join_luts,
}
use switchboard_sdk.Context.Caches.{Extends}
use switchboard_sdk.Updates.{
  World, FetchUpdateParams, FetchUpdateManyParams, Update, fetch_update_ix, update_from,
  fetch_update_consensus_ix, consensus_from, load_feeds, needed, unwrap_ix,
}
use switchboard_sdk.Updates.Returned.{IsReturned, fetch_update_ix_iff}
use switchboard_sdk.Updates.Consensus.{fetch_update_consensus_ix-Settles, Settles}
use switchboard_sdk.Updates.Caching.{updates-Extend}

-- Keys are 32 times one byte, and texts stand for what they encode.
abbrev key_of : ℕ → Bytes
key_of k = replicate 32 k

abbrev small_node : Node
small_node = record {
  slot_hashes = some (some (replicate 8 0 ++ (77 ∷ replicate 20_479 0)));
  account_data = λ key. some (replicate 8 0);
  feed_size = 0;
  feed_cast = λ body. some example_feed;
  get_multiple_accounts = λ keys. some (map (λ (key : Bytes). some (replicate 8 0)) keys);
  lut_slot_of = λ owner body. some 3;
  derive_lut = λ key slot. slot ∷ key;
  parse_lut = λ body. some [];
}

-- An answer whose value is one digit, or none.
abbrev answer_of : ℕ → Bytes → FeedEvalResponse
answer_of k value = record {
  oracle_pubkey = key_of k;
  queue_pubkey = [];
  oracle_signing_pubkey = [];
  feed_hash = [];
  recent_hash = [];
  failure_error = [];
  success_value = value;
  msg = [];
  signature = replicate 64 k;
  recovery_id = pos 1;
  timestamp = none;
}

abbrev consensus_of : ℕ → ConsensusOracleResponse
consensus_of k = record {
  oracle_pubkey = key_of k;
  eth_address = replicate 20 k;
  signature = replicate 64 k;
  checksum = key_of 9;
  recovery_id = pos 1;
  feed_responses = answer_of k (5 ∷ []) ∷ [];
  failures = [];
}

abbrev digit : Bytes → Option ℤ
digit [] = none
digit (c ∷ rest) = some (pos c)

abbrev small_wire : Wire ℕ ℕ ℤ
small_wire = record {
  hex_encode = λ b. b;
  hex_decode = λ b. some b;
  base64_decode = λ b. some b;
  base58_encode = λ b. b;
  parse_i128 = digit;
  from_i128_with_scale = λ v scale. some v;
  scale_variance = λ v. v;
  encode_job = λ job. job ∷ [];
  jobs_member = λ json. some json;
  jobs_from_value = λ json. some (json ∷ []);
  http_get = λ url. some (record { is_success = true; has_text = true; json = some 6 });
  post_single = λ url body. some [];
  single_from_str = λ raw. some (record {
    responses = answer_of 20 (5 ∷ []) ∷ answer_of 21 [] ∷ [];
    caller = [];
    failures = [];
  });
  post_consensus = λ url body. some (record {
    median_responses = record { value = 5 ∷ []; feed_hash = example_feed.feed_hash } ∷ [];
    oracle_responses = consensus_of 20 ∷ consensus_of 21 ∷ [];
  });
}

abbrev small_world : World ℕ ℕ ℤ
small_world = record {
  node = small_node;
  wire = small_wire;
  chain = integers;
  consensus_discriminator = replicate 8 4;
  instructions_sysvar = 10 ∷ [];
  secp256k1_program = 11 ∷ [];
  order = of_queue ∷ of_oracles ∷ of_feeds ∷ [];
}

abbrev single_params : FetchUpdateParams
single_params = record {
  feed = key_of 30;
  payer = key_of 31;
  gateway = record { gateway_url = [] };
  crossbar = none;
  num_signatures = none;
  debug = none;
}

abbrev many_params : FetchUpdateManyParams
many_params = record {
  feeds = key_of 30 ∷ key_of 32 ∷ [];
  payer = key_of 31;
  gateway = record { gateway_url = [] };
  crossbar = none;
  num_signatures = none;
  debug = none;
}

abbrev or_else : {A : Type 0} → A → Outcome UpdateError A → A
or_else d (ok a) = a
or_else d (err e) = d
or_else d panic = d

abbrev no_ix : Instruction
no_ix = record { program_id = []; accounts = []; input = [] }

-- The context that an update of one feed leaves, and the update.
abbrev single_context : SbContext ℕ
single_context = (fetch_update_ix small_world single_params new_context).1

abbrev updated : Update ℤ
updated =
    or_else (record { submit_ix = no_ix; oracle_responses = []; successes = 0; luts = [] })
      (fetch_update_ix small_world single_params new_context).0

abbrev many_context : SbContext ℕ
many_context = (fetch_update_consensus_ix small_world many_params new_context).1

abbrev two_ixs : List Instruction × List AddressLookupTableAccount
two_ixs = or_else ([], []) (fetch_update_consensus_ix small_world many_params new_context).0

single_runs :
    (fetch_update_ix small_world single_params new_context ≡ (ok updated, single_context))
    × (updated.successes ≡ 1)
unfolding fetch_update_ix update_from pure lift ◌>>=◌ traverse get_latest_slothash cached_feed
    get_or_try_init load_data cached_jobs fetch_jobs fetch_signatures_from_encoded response_of
    num_successes join_luts fetches joined_luts fetched_luts split_cached cache_get
    load_lookup_tables lut_keys_of parsed_luts account_to_vec bytes_eq new_context
single_runs = (refl, refl)

many_runs :
    (fetch_update_consensus_ix small_world many_params new_context ≡ (ok two_ixs, many_context))
    × (length two_ixs.0 ≡ 2)
unfolding fetch_update_consensus_ix consensus_from load_feeds unwrap_ix needed gather pure lift
    ◌>>=◌ traverse get_latest_slothash cached_feed get_or_try_init load_data cached_jobs fetch_jobs
    fetch_signatures_consensus oracle_key_of secp_signature_of build_secp256k1_instruction bundle
    offsets_bytes block u16_try_from offsets_area_size message_offset_of to_le_bytes join_luts
    fetches joined_luts fetched_luts split_cached cache_get load_lookup_tables lut_keys_of
    parsed_luts account_to_vec bytes_eq new_context
many_runs = (refl, refl)

fetch_update_ix_iff_example :
    ((fetch_update_ix small_world single_params new_context).0 ≡ ok updated)
    ↔ IsReturned small_world single_params new_context updated
fetch_update_ix_iff_example = fetch_update_ix_iff small_world single_params new_context updated

-- What the run of one feed was made of.
single_steps : IsReturned small_world single_params new_context updated
single_steps =
    (fetch_update_ix_iff small_world single_params new_context updated).0
      (ap (λ p. p.0) single_runs.0)

fetch_update_consensus_ix-Settles_example :
    Settles small_world many_params new_context two_ixs.0 two_ixs.1
fetch_update_consensus_ix-Settles_example =
    fetch_update_consensus_ix-Settles small_world many_params new_context two_ixs.0 two_ixs.1
      (ap (λ p. p.0) many_runs.0)

updates-Extend_example :
    Extends single_context (fetch_update_ix small_world single_params single_context).1
    × Extends single_context (fetch_update_consensus_ix small_world many_params single_context).1
updates-Extend_example = updates-Extend small_world single_context single_params many_params
