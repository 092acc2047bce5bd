-- ===== src/Queue.antt =====
-- on_demand/accounts/queue.rs of the on-demand crate: the queue's account, what is read from it, and
-- the oracles that are fetched for its keys. An index or a range out of bounds panics; padding and
-- reserved fields are left out.
pub mod Members
pub mod Fetching
pub mod Examples
use switchboard_sdk.Prelude.{
  ◌+◌, ℕ, Bool, Option, none, some, List, [], ◌∷◌, if◌then◌else◌, ltb, length, take, any, get_elem?,
  replicate, zip, Outcome, ok, err, panic, ok_or, unwrap, ◌>>=◌,
}
use switchboard_sdk.Prelude.Int.{ℤ}
use switchboard_sdk.Prelude.Words.{Bytes, bytes_eq}
use switchboard_sdk.Error.{OnDemandError, network_error}
use switchboard_sdk.Account.{Layout}
use switchboard_sdk.Oracle.{OracleAccountData, decode_found}

pub record VaultInfo : Type 0 where
  pub vault_key : Bytes
  pub last_reward_epoch : ℕ

-- The field `oracle_keys` is `all_oracle_keys` here, beside the method of that name.
pub record QueueAccountData : Type 0 where
  pub authority : Bytes
  pub mr_enclaves : List Bytes
  pub all_oracle_keys : List Bytes
  pub max_quote_verification_age : ℤ
  pub last_heartbeat : ℤ
  pub node_timeout : ℤ
  pub oracle_min_stake : ℕ
  pub allow_authority_override_after : ℤ
  pub mr_enclaves_len : ℕ
  pub oracle_keys_len : ℕ
  pub reward : ℕ
  pub curr_idx : ℕ
  pub gc_idx : ℕ
  pub require_authority_heartbeat_permission : ℕ
  pub require_authority_verify_permission : ℕ
  pub require_usage_permissions : ℕ
  pub signer_bump : ℕ
  pub mint : Bytes
  pub lut_slot : ℕ
  pub allow_subsidies : ℕ
  pub ncn : Bytes
  pub vaults : List VaultInfo

-- `&xs[..n]`
unfoldable pub prefix : {E A : Type 0} → List A → ℕ → Outcome E (List A)
prefix xs n = if ltb (length xs) n then panic else ok (take n xs)

unfoldable pub has_mr_enclave : QueueAccountData → Bytes → Outcome OnDemandError Bool
has_mr_enclave queue mr_enclave = do
  enclaves ← prefix queue.mr_enclaves queue.mr_enclaves_len
  ok (any (λ x. bytes_eq x mr_enclave) enclaves)

unfoldable pub permitted_enclaves : QueueAccountData → Outcome OnDemandError (List Bytes)
permitted_enclaves queue = prefix queue.mr_enclaves queue.mr_enclaves_len

unfoldable pub garbage_collection_node : QueueAccountData → Outcome OnDemandError (Option Bytes)
garbage_collection_node queue = do
  gc_node ← unwrap (get_elem? queue.all_oracle_keys queue.gc_idx)
  ok (if bytes_eq gc_node (replicate 32 0) then none else some gc_node)

-- `.iter().position(|x| x == oracle)`, counted from `i`.
unfoldable pub position_from : ℕ → Bytes → List Bytes → Option ℕ
position_from i key [] = none
position_from i key (x ∷ xs) =
    let rest = position_from (i + 1) key xs in if bytes_eq x key then some i else rest

unfoldable pub idx_of_oracle : QueueAccountData → Bytes → Outcome OnDemandError (Option ℕ)
idx_of_oracle queue oracle = do
  keys ← prefix queue.all_oracle_keys queue.oracle_keys_len
  ok (position_from 0 oracle keys)

unfoldable pub oracle_keys : QueueAccountData → Outcome OnDemandError (List Bytes)
oracle_keys queue = prefix queue.all_oracle_keys queue.oracle_keys_len

-- `fetch_oracles`: `answer` is what the RPC node says about the keys, `none` for its error.
unfoldable pub fetch_oracles :
    Layout OracleAccountData
    → QueueAccountData
    → (List Bytes → Option (List (Option Bytes)))
    → Outcome OnDemandError (List (Bytes × OracleAccountData))
fetch_oracles layout queue answer = do
  oracles ← prefix queue.all_oracle_keys queue.oracle_keys_len
  accounts ← ok_or (answer oracles) network_error
  datas ← decode_found layout accounts
  ok (zip oracles datas)
