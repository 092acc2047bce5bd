-- ===== src/Queue/Examples.antt =====
-- A queue of two oracles in an array of three, and the theorems about queues on it.
use switchboard_sdk.Prelude.Words.{bytes_eq, Bytes}
use switchboard_sdk.Prelude.{
  [], some, List, ◌∷◌, ℕ, replicate, Option, refl, arith, get_elem?, ok, length, none, ◌++◌, ◌≡◌,
}
use switchboard_sdk.Queue.{fetch_oracles, QueueAccountData}
use switchboard_sdk.Account.{check_discriminator, Layout, parse}
use switchboard_sdk.Oracle.{OracleAccountData}
use switchboard_sdk.Oracle.Examples.{example_oracle}
use switchboard_sdk.Prelude.Int.{pos}
use switchboard_sdk.Queue.Fetching.{fetch_oracles_misaligned}

abbrev key_of : ℕ → Bytes
key_of k = replicate 32 k

abbrev pub example_queue : QueueAccountData
example_queue = record {
  authority = key_of 1;
  mr_enclaves = key_of 40 ∷ key_of 41 ∷ key_of 42 ∷ [];
  all_oracle_keys = key_of 10 ∷ key_of 11 ∷ key_of 12 ∷ [];
  max_quote_verification_age = pos 100;
  last_heartbeat = pos 1000;
  node_timeout = pos 300;
  oracle_min_stake = 0;
  allow_authority_override_after = pos 0;
  mr_enclaves_len = 2;
  oracle_keys_len = 2;
  reward = 0;
  curr_idx = 0;
  gc_idx = 1;
  require_authority_heartbeat_permission = 0;
  require_authority_verify_permission = 0;
  require_usage_permissions = 0;
  signer_bump = 255;
  mint = key_of 2;
  lut_slot = 5;
  allow_subsidies = 0;
  ncn = key_of 0;
  vaults = [];
}

-- A layout whose one byte of body says the heartbeat of the oracle.
abbrev oracle_layout : Layout OracleAccountData
oracle_layout = record {
  discriminator = replicate 8 9;
  size = 1;
  cast = λ body. some (record example_oracle { last_heartbeat = pos (length body) });
}

abbrev example_account : Bytes
example_account = replicate 8 9 ++ 1 ∷ []

abbrev read_oracle : OracleAccountData
read_oracle = record example_oracle { last_heartbeat = pos 1 }

account_reads : parse oracle_layout example_account ≡ ok read_oracle
unfolding parse check_discriminator bytes_eq
account_reads = refl

-- A node that has an account for both keys, and one that has none for the first.
abbrev full_node : List Bytes → Option (List (Option Bytes))
full_node keys = some (some example_account ∷ some example_account ∷ [])

abbrev partial_node : List Bytes → Option (List (Option Bytes))
partial_node keys = some (none ∷ some example_account ∷ [])

fetch_oracles_misaligned_example :
    (pairs : List (Bytes × OracleAccountData)) × (fetch_oracles oracle_layout example_queue
        partial_node
      ≡ ok pairs)
    × (get_elem? pairs 0 ≡ some (key_of 10, read_oracle))
fetch_oracles_misaligned_example =
    fetch_oracles_misaligned oracle_layout example_queue partial_node (omega arith) (key_of 10)
      (key_of 11 ∷ []) example_account [] read_oracle [] refl refl (account_reads, tt)
