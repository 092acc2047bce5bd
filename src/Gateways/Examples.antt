-- ===== src/Gateways/Examples.antt =====
-- A queue of the client crate with two oracles, of which one has a gateway that answers.
use switchboard_sdk.Prelude.{
  ℕ, ◌≡◌, refl, Option, none, some, List, [], ◌∷◌, ◌++◌, ok, panic, replicate, arith, keep,
  if◌then◌else◌, ◌==◌, ◌↔◌,
}
use switchboard_sdk.Prelude.Int.{pos}
use switchboard_sdk.Prelude.Words.{Bytes}
use switchboard_sdk.Queue.{prefix}
use switchboard_sdk.Gateways.{
  ClientOracle, ClientQueue, queue_keys, read_account, read_accounts, fetch_oracle_accounts,
  fetch_gateways, gateways_of, uri_of, test_gateway,
}
use switchboard_sdk.Gateways.Fetched.{fetch_oracle_accounts_iff, PairsOf}
use switchboard_sdk.Gateways.Reachable.{fetch_gateways-keep}

abbrev key_of : ℕ → Bytes
key_of k = replicate 32 k

-- An oracle whose gateway has the URI of one letter.
abbrev oracle_at : ℕ → ClientOracle
oracle_at letter = record {
  enclave = record {
    enclave_signer = key_of 5;
    mr_enclave = key_of 6;
    verification_status = 4;
    verification_timestamp = pos 900;
    valid_until = pos 5000;
    quote_registry = key_of 0;
    registry_key = replicate 64 0;
    secp256k1_signer = replicate 64 7;
    last_ed25519_signer = key_of 0;
    last_secp256k1_signer = replicate 64 0;
    last_rotate_slot = 0;
    guardian_approvers = [];
    guardian_approvers_len = 0;
    staging_ed25519_signer = key_of 0;
    staging_secp256k1_signer = replicate 64 0;
  };
  authority = key_of 1;
  queue = key_of 2;
  created_at = pos 800;
  last_heartbeat = pos 1000;
  secp_authority = replicate 64 0;
  gateway_uri = letter ∷ 0 ∷ [];
  permissions = 0;
  is_on_queue = 1;
  lut_slot = 12;
  last_reward_epoch = 0;
}

abbrev client_queue : ClientQueue
client_queue = record {
  authority = key_of 1;
  mr_enclaves = [];
  all_oracle_keys = key_of 10 ∷ key_of 11 ∷ key_of 12 ∷ [];
  max_quote_verification_age = pos 100;
  last_heartbeat = pos 1000;
  node_timeout = pos 300;
  oracle_min_stake = 0;
  allow_authority_override_after = pos 0;
  mr_enclaves_len = 0;
  oracle_keys_len = 2;
  reward = 0;
  curr_idx = 0;
  gc_idx = 1;
  require_authority_heartbeat_permission = 0;
  require_authority_verify_permission = 0;
  require_usage_permissions = 0;
  signer_bump = 255;
  mint = key_of 2;
  lut_slot = 5;
  allow_subsidies = 0;
  ncn = key_of 0;
  vaults = [];
}

-- A cast whose one byte is the letter of the gateway.
abbrev cast_letter : Bytes → Option ClientOracle
cast_letter [] = none
cast_letter (letter ∷ rest) = some (oracle_at letter)

abbrev account_of : ℕ → Bytes
account_of letter = replicate 8 9 ++ letter ∷ []

-- A node that has an account for both keys, and one that has none for the first.
abbrev full_node : List Bytes → Option (List (Option Bytes))
full_node keys = some (some (account_of 97) ∷ some (account_of 98) ∷ [])

abbrev partial_node : List Bytes → Option (List (Option Bytes))
partial_node keys = some (none ∷ some (account_of 98) ∷ [])

-- Only the gateway "b" answers.
abbrev get_b : Bytes → Option (Option Bytes)
get_b [] = none
get_b (letter ∷ path) = if letter == 98 then some (some (111 ∷ 107 ∷ [])) else some none

abbrev fetched : List (Bytes × ClientOracle)
fetched = (key_of 10, oracle_at 97) ∷ (key_of 11, oracle_at 98) ∷ []

fetch_runs : fetch_oracle_accounts 1 cast_letter client_queue full_node ≡ ok fetched
unfolding fetch_oracle_accounts queue_keys prefix read_accounts read_account
fetch_runs = refl

fetch_panics : fetch_oracle_accounts 1 cast_letter client_queue partial_node ≡ panic
unfolding fetch_oracle_accounts queue_keys prefix read_accounts read_account
fetch_panics = refl

only_b_is_left :
    keep (test_gateway get_b) (gateways_of (λ b. b) fetched) ≡ record { gateway_url = 98 ∷ [] } ∷ []
unfolding test_gateway gateways_of uri_of
only_b_is_left = refl

fetch_oracle_accounts_iff_example :
    (fetch_oracle_accounts 1 cast_letter client_queue full_node ≡ ok fetched)
    ↔ PairsOf 1 cast_letter
        (key_of 10 ∷ key_of 11 ∷ [])
        (some (account_of 97) ∷ some (account_of 98) ∷ [])
        fetched
fetch_oracle_accounts_iff_example =
    fetch_oracle_accounts_iff 1 cast_letter client_queue full_node
      (some (account_of 97) ∷ some (account_of 98) ∷ []) fetched (omega arith) refl refl

fetch_gateways-keep_example :
    fetch_gateways 1 cast_letter (λ b. b) get_b client_queue full_node
    ≡ ok (keep (test_gateway get_b) (gateways_of (λ b. b) fetched))
fetch_gateways-keep_example =
    fetch_gateways-keep 1 cast_letter (λ b. b) get_b client_queue full_node fetched fetch_runs
