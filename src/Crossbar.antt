-- ===== src/Crossbar.antt =====
-- crossbar.rs of the client crate, but for `fetch`, which Answers has: the requests that store jobs and
-- that ask for updates and simulations. What HTTP answers, the printing of keys and numbers, base58 and
-- the parsers of the answers are parameters; what `verbose` prints is left out.
pub mod Urls
mod Examples
use switchboard_sdk.Prelude.{
  ℕ, Bool, true, false, Option, none, some, List, [], ◌∷◌, ◌++◌, map, length, ◌==◌, if◌then◌else◌,
  Outcome, ok, err, panic, ok_or, ◌>>=◌,
}
use switchboard_sdk.Prelude.Words.{Bytes}
use switchboard_sdk.Answers.{CrossbarClient}

pub record StoreResponse : Type 0 where
  pub cid : Bytes
  pub feed_hash : Bytes
  pub queue_hex : Bytes

pub record Response (Decimal : Type 0) : Type 0 where
  pub oracle : Bytes
  pub result : Option Decimal
  pub failure : Bytes

pub record FetchSolanaUpdatesResponse (Decimal : Type 0) : Type 0 where
  pub success : Bool
  pub pull_ix : Bytes
  pub responses : List (Response Decimal)
  pub lookup_tables : List Bytes

pub record SimulateSolanaFeedsResponse (Decimal : Type 0) : Type 0 where
  pub feed : Bytes
  pub feed_hash : Bytes
  pub results : List (Option Decimal)

pub record SimulateFeedsResponse (Decimal : Type 0) : Type 0 where
  pub feed_hash : Bytes
  pub results : List Decimal

pub data CrossbarError : Type 0 where
  queue_failed send_failed feeds_empty fetch_failed bad_status parse_failed : CrossbarError

pub data ClusterType : Type 0 where
  mainnet_beta testnet devnet development : ClusterType

-- Whether the status is a success, and the text, if it can be read.
pub record Reply : Type 0 where
  pub is_success : Bool
  pub text : Option Bytes

-- The queue in base58, and the jobs.
pub record StorePayload (Json : Type 0) : Type 0 where
  pub queue : Bytes
  pub jobs : List Json

pub record Web (Json Decimal : Type 0) : Type 0 where
  pub get : Bytes → Option Reply
  pub post : Bytes → StorePayload Json → Option Reply
  pub key_text : Bytes → Bytes
  pub number_text : ℕ → Bytes
  pub base58_decode : Bytes → Option Bytes
  pub base58_encode : Bytes → Bytes
  pub store_from_text : Bytes → Option StoreResponse
  pub updates_from_text : Bytes → Option (List (FetchSolanaUpdatesResponse Decimal))
  pub solana_from_text : Bytes → Option (List (SimulateSolanaFeedsResponse Decimal))
  pub feeds_from_text : Bytes → Option (List (SimulateFeedsResponse Decimal))

-- "mainnet-beta", "testnet", "devnet" and "development"
unfoldable pub cluster_type_to_string : ClusterType → Bytes
cluster_type_to_string mainnet_beta =
    109 ∷ 97 ∷ 105 ∷ 110 ∷ 110 ∷ 101 ∷ 116 ∷ 45 ∷ 98 ∷ 101 ∷ 116 ∷ 97 ∷ []
cluster_type_to_string testnet = 116 ∷ 101 ∷ 115 ∷ 116 ∷ 110 ∷ 101 ∷ 116 ∷ []
cluster_type_to_string devnet = 100 ∷ 101 ∷ 118 ∷ 110 ∷ 101 ∷ 116 ∷ []
cluster_type_to_string development =
    100 ∷ 101 ∷ 118 ∷ 101 ∷ 108 ∷ 111 ∷ 112 ∷ 109 ∷ 101 ∷ 110 ∷ 116 ∷ []

-- `join(",")`
unfoldable pub join : List Bytes → Bytes
join [] = []
join (x ∷ []) = x
join (x ∷ y ∷ xs) = x ++ 44 ∷ join (y ∷ xs)

-- "/store", "/updates/solana/", "/simulate/solana/", "/simulate/" and "?numSignatures="
abbrev pub store_path : Bytes
store_path = 47 ∷ 115 ∷ 116 ∷ 111 ∷ 114 ∷ 101 ∷ []

abbrev pub updates_path : Bytes
updates_path =
    47 ∷ 117 ∷ 112 ∷ 100 ∷ 97 ∷ 116 ∷ 101 ∷ 115 ∷ 47 ∷ 115 ∷ 111 ∷ 108 ∷ 97 ∷ 110 ∷ 97 ∷ 47 ∷ []

abbrev pub simulate_solana_path : Bytes
simulate_solana_path =
    47 ∷ 115 ∷ 105 ∷ 109 ∷ 117 ∷ 108 ∷ 97 ∷ 116 ∷ 101 ∷ 47 ∷ 115 ∷ 111 ∷ 108 ∷ 97 ∷ 110 ∷ 97 ∷ 47
    ∷ []

abbrev pub simulate_path : Bytes
simulate_path = 47 ∷ 115 ∷ 105 ∷ 109 ∷ 117 ∷ 108 ∷ 97 ∷ 116 ∷ 101 ∷ 47 ∷ []

abbrev pub signatures_query : Bytes
signatures_query =
    63 ∷ 110 ∷ 117 ∷ 109 ∷ 83 ∷ 105 ∷ 103 ∷ 110 ∷ 97 ∷ 116 ∷ 117 ∷ 114 ∷ 101 ∷ 115 ∷ 61 ∷ []

-- What follows a request: the text of a failure is read for printing, and a failure of that comes first.
unfoldable pub answered : {T : Type 0} → Bool → (Bytes → Option T) → Reply → Outcome CrossbarError T
answered verbose from_text resp =
    if resp.is_success
    then (do text ← ok_or resp.text parse_failed; ok_or (from_text text) parse_failed)
    else (if verbose
        then (do text ← ok_or resp.text fetch_failed; err bad_status)
        else err bad_status)

module _ {Json Decimal : Type 0} (web : Web Json Decimal) (crossbar : CrossbarClient) where
  open web use {
    get, post, key_text, number_text, base58_decode, base58_encode, store_from_text,
    updates_from_text, solana_from_text, feeds_from_text,
  }

  unfoldable pub store : Bytes → List Json → Outcome CrossbarError StoreResponse
  unfolding answered
  store queue_address jobs = do
    queue ← ok_or (base58_decode (key_text queue_address)) queue_failed
    resp ←
        ok_or
          (post (crossbar.crossbar_url ++ store_path)
            (record { queue = base58_encode queue; jobs = jobs }))
          send_failed
    answered crossbar.verbose store_from_text resp

  unfoldable pub updates_url : ClusterType → List Bytes → Option ℕ → Bytes
  unfolding cluster_type_to_string join
  updates_url network feed_pubkeys num_signatures =
      crossbar.crossbar_url
      ++ (updates_path
          ++ (cluster_type_to_string network
              ++ 47
                ∷ (join (map key_text feed_pubkeys) ++ elim num_signatures [
                  | none ↦ []
                  | some n ↦ signatures_query ++ number_text n
                ])))

  unfoldable pub fetch_solana_updates :
      ClusterType
      → List Bytes
      → Option ℕ
      → Outcome CrossbarError (List (FetchSolanaUpdatesResponse Decimal))
  unfolding answered updates_url
  fetch_solana_updates network feed_pubkeys num_signatures =
      if length feed_pubkeys == 0 then err feeds_empty else (do
        resp ← ok_or (get (updates_url network feed_pubkeys num_signatures)) send_failed
        answered crossbar.verbose updates_from_text resp)

  -- Here the text is read before the status is looked at.
  unfoldable pub simulate_solana_feeds :
      ClusterType → List Bytes → Outcome CrossbarError (List (SimulateSolanaFeedsResponse Decimal))
  unfolding cluster_type_to_string join
  simulate_solana_feeds network feed_pubkeys =
      if length feed_pubkeys == 0 then err feeds_empty else (do
        resp ←
            ok_or
              (get (
                crossbar.crossbar_url
                ++ (simulate_solana_path
                    ++ (cluster_type_to_string network ++ 47 ∷ join (map key_text feed_pubkeys)))))
              send_failed
        raw ← ok_or resp.text fetch_failed
        if resp.is_success then ok_or (solana_from_text raw) parse_failed else err bad_status)

  unfoldable pub simulate_feeds :
      List Bytes → Outcome CrossbarError (List (SimulateFeedsResponse Decimal))
  unfolding answered join
  simulate_feeds feed_hashes = if length feed_hashes == 0 then err feeds_empty else (do
    resp ← ok_or (get (crossbar.crossbar_url ++ (simulate_path ++ join feed_hashes))) send_failed
    answered crossbar.verbose feeds_from_text resp)
