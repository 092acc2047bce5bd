-- ===== src/Gateways.antt =====
-- accounts/queue.rs and accounts/oracle.rs of the client crate, and of its gateway.rs the test of a
-- gateway: the oracles that are fetched for a queue's keys, and which of their gateways answer. The
-- records have the names ClientQuote, ClientOracle and ClientQueue here, beside those of the on-demand
-- crate; padding, reserved fields and the HTTP client of a gateway are left out.
pub mod Fetched
pub mod Reachable
mod Examples
use switchboard_sdk.Prelude.{
  ℕ, ◌+◌, ◌==◌, not, Bool, true, false, Option, none, some, List, [], ◌∷◌, ◌++◌, if◌then◌else◌, ltb,
  length, take, drop, map, take_while, filter_map, get_elem?, zip, Outcome, ok, err, panic, ok_or,
  unwrap, unwrap_or, ◌>>=◌,
}
use switchboard_sdk.Prelude.Int.{ℤ}
use switchboard_sdk.Prelude.Words.{Bytes}
use switchboard_sdk.Queue.{VaultInfo, prefix}

pub record ClientQuote : Type 0 where
  pub enclave_signer : Bytes
  pub mr_enclave : Bytes
  pub verification_status : ℕ
  pub verification_timestamp : ℤ
  pub valid_until : ℤ
  pub quote_registry : Bytes
  pub registry_key : Bytes
  pub secp256k1_signer : Bytes
  pub last_ed25519_signer : Bytes
  pub last_secp256k1_signer : Bytes
  pub last_rotate_slot : ℕ
  pub guardian_approvers : List Bytes
  pub guardian_approvers_len : ℕ
  pub staging_ed25519_signer : Bytes
  pub staging_secp256k1_signer : Bytes

pub record ClientOracle : Type 0 where
  pub enclave : ClientQuote
  pub authority : Bytes
  pub queue : Bytes
  pub created_at : ℤ
  pub last_heartbeat : ℤ
  pub secp_authority : Bytes
  pub gateway_uri : Bytes
  pub permissions : ℕ
  pub is_on_queue : ℕ
  pub lut_slot : ℕ
  pub last_reward_epoch : ℕ

pub record ClientQueue : Type 0 where
  pub authority : Bytes
  pub mr_enclaves : List Bytes
  pub all_oracle_keys : List Bytes
  pub max_quote_verification_age : ℤ
  pub last_heartbeat : ℤ
  pub node_timeout : ℤ
  pub oracle_min_stake : ℕ
  pub allow_authority_override_after : ℤ
  pub mr_enclaves_len : ℕ
  pub oracle_keys_len : ℕ
  pub reward : ℕ
  pub curr_idx : ℕ
  pub gc_idx : ℕ
  pub require_authority_heartbeat_permission : ℕ
  pub require_authority_verify_permission : ℕ
  pub require_usage_permissions : ℕ
  pub signer_bump : ℕ
  pub mint : Bytes
  pub lut_slot : ℕ
  pub allow_subsidies : ℕ
  pub ncn : Bytes
  pub vaults : List VaultInfo

-- The errors that the two fetches pass on: the RPC node did not answer.
pub data AnyhowError : Type 0 where
  request_failed : AnyhowError

-- `oracle_keys`
unfoldable pub queue_keys : ClientQueue → Outcome AnyhowError (List Bytes)
queue_keys queue = prefix queue.all_oracle_keys queue.oracle_keys_len

-- What an oracle account is read with: `size_of::<OracleAccountData>()`, and bytemuck's cast of that
-- many bytes.
module _ (size : ℕ) (cast : Bytes → Option ClientOracle) where
  -- `account.unwrap_or_default().data[8..]`, and the cast behind it.
  unfoldable pub read_account : Option Bytes → Outcome AnyhowError ClientOracle
  read_account account =
      let data_ = unwrap_or account [] in
      if ltb (length data_) 8
      then panic
      else if length data_ == size + 8
      then unwrap (cast (drop 8 data_))
      else panic

  unfoldable pub read_accounts : List (Option Bytes) → Outcome AnyhowError (List ClientOracle)
  read_accounts [] = ok []
  read_accounts (account ∷ accounts) = do
    oracle ← read_account account
    oracles ← read_accounts accounts
    ok (oracle ∷ oracles)

  -- `fetch_oracle_accounts`: `answer` is what the RPC node says about the keys, `none` for its error.
  unfoldable pub fetch_oracle_accounts :
      ClientQueue
      → (List Bytes → Option (List (Option Bytes)))
      → Outcome AnyhowError (List (Bytes × ClientOracle))
  fetch_oracle_accounts queue answer = do
    keys ← queue_keys queue
    accounts ← ok_or (answer keys) request_failed
    accounts_data ← read_accounts accounts
    ok (zip keys accounts_data)

-- `OracleAccountData::gateway_uri`; `lossy` is `String::from_utf8_lossy`.
unfoldable pub uri_of : (Bytes → Bytes) → ClientOracle → Option Bytes
uri_of lossy oracle =
    let uri = take_while (λ c. not (c == 0)) (lossy oracle.gateway_uri) in
    if length uri == 0 then none else some uri

pub record Gateway : Type 0 where
  pub gateway_url : Bytes

-- "/gateway/api/v1/test"
abbrev pub test_path : Bytes
test_path =
    47 ∷ 103 ∷ 97 ∷ 116 ∷ 101 ∷ 119 ∷ 97 ∷ 121 ∷ 47 ∷ 97 ∷ 112 ∷ 105 ∷ 47 ∷ 118 ∷ 49 ∷ 47 ∷ 116
    ∷ 101 ∷ 115 ∷ 116 ∷ []

-- `test_gateway`: `get` sends the request; it fails, or answers with a text or with none.
unfoldable pub test_gateway : (Bytes → Option (Option Bytes)) → Gateway → Bool
test_gateway get gateway = elim (get (gateway.gateway_url ++ test_path)) [
  | none ↦ false
  | some response ↦ elim response [ none ↦ false | some text ↦ not (length text == 0) ]
]

-- The loop over the numbered results, from the `i`-th on.
unfoldable pub good_from : ℕ → List Gateway → List Bool → Outcome AnyhowError (List Gateway)
good_from i gateways [] = ok []
good_from i gateways (is_good ∷ results) =
    let rest = good_from (i + 1) gateways results in
    if is_good
    then (do gateway ← unwrap (get_elem? gateways i); good ← rest; ok (gateway ∷ good))
    else rest

-- `filter_map(|x| x.gateway_uri()).map(Gateway::new)`
unfoldable pub gateways_of : (Bytes → Bytes) → List (Bytes × ClientOracle) → List Gateway
gateways_of lossy pairs =
    map (λ u. record { gateway_url = u }) (filter_map (uri_of lossy) (map (λ p. p.1) pairs))

unfoldable pub fetch_gateways :
    ℕ
    → (Bytes → Option ClientOracle)
    → (Bytes → Bytes)
    → (Bytes → Option (Option Bytes))
    → ClientQueue
    → (List Bytes → Option (List (Option Bytes)))
    → Outcome AnyhowError (List Gateway)
fetch_gateways size cast lossy get queue answer = do
  pairs ← fetch_oracle_accounts size cast queue answer
  let gateways = gateways_of lossy pairs in good_from 0 gateways (map (test_gateway get) gateways)
