-- ===== src/Context.antt =====
-- pull_feed.rs of the client crate: the context of its caches, and the steps of the updates that read
-- it or fill it. One task holds the context here; the cells of the caches are entries of lists, since a
-- cell that was not filled is none. The latest slot hash is that of recent_slothashes.rs.
pub mod Caches
pub mod Loaded
use switchboard_sdk.Prelude.{
  ℕ, ◌+◌, ◌==◌, ltb, Option, none, some, List, [], ◌∷◌, ◌++◌, if◌then◌else◌, length, take, drop,
  Outcome, ok, err, panic, ok_or, unwrap, map_err, ◌>>=◌,
}
use switchboard_sdk.Prelude.Bytes.{from_le_bytes}
use switchboard_sdk.Prelude.Words.{Bytes, bytes_eq}
use switchboard_sdk.Prelude.Exec.{Exec}
use switchboard_sdk.Feed.{PullFeedAccountData}
use switchboard_sdk.Transaction.{AddressLookupTableAccount}
use switchboard_sdk.Luts.{LutCache}
use switchboard_sdk.Luts.Joined.{
  Fetched, Owner, of_oracles, of_feeds, of_queue, by_owner, insert_all, joined_luts, fetched_luts,
}
use switchboard_sdk.Answers.{
  Wire, UpdateError, account_not_found, parse_failed, slot_hashes_failed, tables_failed,
  CrossbarClient, fetch_jobs,
}

pub record SlotHash : Type 0 where
  pub slot : ℕ
  pub hash : Bytes

pub record SbContext (Job : Type 0) : Type 0 where
  pub lut_cache : LutCache
  pub job_cache : List (Bytes × List Job)
  pub pull_feed_cache : List (Bytes × PullFeedAccountData)

unfoldable pub new_context : {Job : Type 0} → SbContext Job
new_context = record { lut_cache = []; job_cache = []; pull_feed_cache = [] }

-- A filled cell of a cache.
unfoldable pub filled : {V : Type 0} → List (Bytes × V) → Bytes → Option V
filled [] key = none
filled ((k, v) ∷ cells) key = let rest = filled cells key in if bytes_eq k key then some v else rest

-- An empty cell is filled with what its initialiser returns, and left empty if it fails.
unfoldable pub fill :
    {V : Type 0}
    → List (Bytes × V)
    → Bytes
    → Outcome UpdateError V
    → Outcome UpdateError V × List (Bytes × V)
fill cells key (ok v) = (ok v, (key, v) ∷ cells)
fill cells key (err e) = (err e, cells)
fill cells key panic = (panic, cells)

-- `entry(key).or_insert_with(OnceCell::new).get_or_try_init(..)`: what the cell holds, and the cells.
unfoldable pub get_or_try_init :
    {V : Type 0}
    → List (Bytes × V)
    → Bytes
    → Outcome UpdateError V
    → Outcome UpdateError V × List (Bytes × V)
unfolding filled fill
get_or_try_init cells key init = elim (filled cells key) [
  | some v ↦ (ok v, cells)
  | none ↦ fill cells key init
]

-- The RPC node and what is read from its accounts: the slot hashes, the accounts by their keys, the
-- cast of a feed's account, and for the tables the slots of their owners, the derivation of keys and
-- the parser.
pub record Node : Type 0 where
  pub slot_hashes : Option (Option Bytes)
  pub account_data : Bytes → Option Bytes
  pub feed_size : ℕ
  pub feed_cast : Bytes → Option PullFeedAccountData
  pub get_multiple_accounts : List Bytes → Option (List (Option Bytes))
  pub lut_slot_of : Owner → Bytes → Option ℕ
  pub derive_lut : Bytes → ℕ → Bytes
  pub parse_lut : Bytes → Option (List Bytes)

module _ (node : Node) where
  open node use {
    slot_hashes, account_data, feed_size, feed_cast, get_multiple_accounts, lut_slot_of, derive_lut,
    parse_lut,
  }

  -- `get_latest_slothash`: 512 entries of 40 bytes behind a length of 8 bytes, the newest first.
  unfoldable pub get_latest_slothash : Outcome UpdateError SlotHash
  get_latest_slothash = do
    value ← ok_or slot_hashes slot_hashes_failed
    slots_data ← ok_or value slot_hashes_failed
    if ltb (length slots_data) (8 + 20_480)
        then panic
        else ok (record {
          slot = from_le_bytes (take 8 (drop 8 slots_data));
          hash = take 32 (drop 16 slots_data);
        })

  -- `PullFeed::load_data`
  unfoldable pub load_data : Bytes → Outcome UpdateError PullFeedAccountData
  load_data key = do
    account ← ok_or (account_data key) account_not_found
    if ltb (length account) 8
        then panic
        else if length account == feed_size + 8
        then ok_or (feed_cast (drop 8 account)) parse_failed
        else err parse_failed

  -- The feed, from `pull_feed_cache` or else from the node.
  unfoldable pub cached_feed :
      {Job : Type 0} → Bytes → Exec UpdateError (SbContext Job) PullFeedAccountData
  unfolding get_or_try_init
  cached_feed key s =
      let (feed, cells) = get_or_try_init s.pull_feed_cache key (load_data key) in
      (feed, record s { pull_feed_cache = cells })

  -- The fetches of one update, which find this cache.
  unfoldable pub fetches : LutCache → List Bytes → List Bytes → List Bytes → Owner → Fetched
  fetches cache oracle_keys feed_keys queue_keys =
      by_owner
        (fetched_luts get_multiple_accounts (lut_slot_of of_oracles) derive_lut parse_lut cache
          oracle_keys)
        (fetched_luts get_multiple_accounts (lut_slot_of of_feeds) derive_lut parse_lut cache
          feed_keys)
        (fetched_luts get_multiple_accounts (lut_slot_of of_queue) derive_lut parse_lut cache
          queue_keys)

  -- `join!` of the three, which end in the order of the list, and what follows it.
  unfoldable pub join_luts :
      {Job : Type 0}
      → List Owner
      → List Bytes
      → List Bytes
      → List Bytes
      → Exec UpdateError (SbContext Job) (List AddressLookupTableAccount)
  join_luts order oracle_keys feed_keys queue_keys s =
      let fetched = fetches s.lut_cache oracle_keys feed_keys queue_keys in
      (
        map_err tables_failed (joined_luts fetched),
        record s { lut_cache = insert_all s.lut_cache fetched order },
      )

-- The jobs, from `job_cache` or else from the crossbar.
unfoldable pub cached_jobs :
    {Job Json Decimal : Type 0}
    → Wire Job Json Decimal
    → Option CrossbarClient
    → Bytes
    → Exec UpdateError (SbContext Job) (List Job)
unfolding get_or_try_init
cached_jobs wire crossbar feed_hash s =
    let (jobs, cells) =
      get_or_try_init s.job_cache feed_hash (fetch_jobs wire crossbar feed_hash) in
    (jobs, record s { job_cache = cells })
