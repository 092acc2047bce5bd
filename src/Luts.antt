-- ===== src/Luts.antt =====
-- The lookup tables of the client crate: `load_lookup_tables` of lut_owner.rs, and the cache in front of
-- it, `fetch_and_cache_luts` of pull_feed.rs. The RPC node, the cast of an owner's account to its
-- lookup slot, the derivation of a table's key and the parser of tables are parameters.
pub mod Cache
pub mod Loading
pub mod Joined
mod Examples
use switchboard_sdk.Prelude.{
  ◌==◌, map, ℕ, ◌+◌, Option, none, some, List, [], ◌∷◌, ◌++◌, if◌then◌else◌, ltb, length, drop,
  get_elem?, zip, Outcome, ok, err, panic, ok_or, unwrap, unwrap_or, ◌>>=◌,
}
use switchboard_sdk.Prelude.Words.{Bytes, bytes_eq}
use switchboard_sdk.Transaction.{AddressLookupTableAccount}

-- The only error: the RPC node's.
pub data LoadError : Type 0 where
  rpc_error : LoadError

-- `account_to_vec`: without an account, and where the data is shorter than 8 bytes, nothing.
unfoldable pub account_to_vec : Option Bytes → Bytes
account_to_vec none = []
account_to_vec (some input) = if ltb (length input) 8 then [] else drop 8 input

-- The cache, with the newest entry of a key in front.
abbrev pub LutCache : Type 0
LutCache = List (Bytes × AddressLookupTableAccount)

unfoldable pub cache_get : LutCache → Bytes → Option AddressLookupTableAccount
cache_get [] key = none
cache_get ((k, lut) ∷ cache) key =
    let rest = cache_get cache key in if bytes_eq k key then some lut else rest

unfoldable pub cache_insert : LutCache → Bytes → AddressLookupTableAccount → LutCache
cache_insert cache key lut = (key, lut) ∷ cache

-- The first loop: the tables that are cached, and the keys that are not.
unfoldable pub split_cached : LutCache → List Bytes → List AddressLookupTableAccount × List Bytes
split_cached cache [] = ([], [])
split_cached cache (key ∷ keys) =
    let (luts, keys_to_fetch) = split_cached cache keys in
    elim (cache_get cache key) [
      | some lut ↦ (lut ∷ luts, keys_to_fetch)
      | none ↦ (luts, key ∷ keys_to_fetch)
    ]

-- The second loop.
unfoldable pub cache_all : LutCache → List (Bytes × AddressLookupTableAccount) → LutCache
cache_all cache [] = cache
cache_all cache ((key, lut) ∷ fetched) = cache_all (cache_insert cache key lut) fetched

module _ (get_multiple_accounts : List Bytes → Option (List (Option Bytes)))
    (lut_slot_of : Bytes → Option ℕ) (derive : Bytes → ℕ → Bytes)
    (deserialize : Bytes → Option (List Bytes)) where
  -- The loop over the owners: an account that the cast refuses is skipped; `keys[idx]` is an index.
  unfoldable pub lut_keys_of : List Bytes → ℕ → List Bytes → Outcome LoadError (List Bytes)
  lut_keys_of keys idx [] = ok []
  lut_keys_of keys idx (account ∷ accounts) =
      let rest = lut_keys_of keys (idx + 1) accounts in
      elim (lut_slot_of account) [
        | none ↦ rest
        | some lut_slot ↦ do
          key ← unwrap (get_elem? keys idx)
          lut_keys ← rest
          ok (derive key lut_slot ∷ lut_keys)
      ]

  -- The loop over the tables: one that does not parse is skipped.
  unfoldable pub parsed_luts :
      List Bytes → ℕ → List Bytes → Outcome LoadError (List AddressLookupTableAccount)
  parsed_luts lut_keys idx [] = ok []
  parsed_luts lut_keys idx (lut_data ∷ lut_datas) =
      let rest = parsed_luts lut_keys (idx + 1) lut_datas in
      elim (deserialize lut_data) [
        | none ↦ rest
        | some addresses ↦ do
          key ← unwrap (get_elem? lut_keys idx)
          out ← rest
          ok (record { key = key; addresses = addresses } ∷ out)
      ]

  unfoldable pub load_lookup_tables :
      List Bytes → Outcome LoadError (List AddressLookupTableAccount)
  load_lookup_tables keys = do
    accounts ← ok_or (get_multiple_accounts keys) rpc_error
    lut_keys ← lut_keys_of keys 0 (map account_to_vec accounts)
    tables ← ok_or (get_multiple_accounts lut_keys) rpc_error
    parsed_luts lut_keys 0 (map (λ o. unwrap_or o []) tables)

  -- The tables that are returned, and the cache that is left.
  unfoldable pub fetch_and_cache_luts :
      LutCache → List Bytes → Outcome LoadError (List AddressLookupTableAccount × LutCache)
  fetch_and_cache_luts cache oracle_keys =
      let (luts, keys_to_fetch) = split_cached cache oracle_keys in
      if length keys_to_fetch == 0 then ok (luts, cache) else (do
        fetched_luts ← load_lookup_tables keys_to_fetch
        let fetched = zip keys_to_fetch fetched_luts
        ok (luts ++ map (λ p. p.1) fetched, cache_all cache fetched))
