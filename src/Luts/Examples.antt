-- ===== src/Luts/Examples.antt =====
-- A node with a table for one of two oracles, and the theorems about the cache on it.
use switchboard_sdk.Transaction.{AddressLookupTableAccount}
use switchboard_sdk.Luts.{
  account_to_vec, cache_get, cache_insert, split_cached, LutCache, fetch_and_cache_luts,
}
use switchboard_sdk.Prelude.{
  if◌then◌else◌, some, length, ok, none, ℕ, Option, [], ◌∷◌, List, refl, ◌==◌, ◌++◌, ◌≡◌, replicate,
}
use switchboard_sdk.Prelude.Words.{bytes_eq, Bytes}
use switchboard_sdk.Luts.Loading.{fetch_and_cache_luts_misaligned}

abbrev first_oracle : Bytes
first_oracle = 1 ∷ []

abbrev second_oracle : Bytes
second_oracle = 2 ∷ []

-- The account of the second oracle has its slot behind eight bytes; a table's key is its oracle's key
-- and its slot.
abbrev owner_account : Bytes
owner_account = replicate 8 0 ++ 30 ∷ []

abbrev node : List Bytes → Option (List (Option Bytes))
node keys =
    if length keys == 2 then some (none ∷ some owner_account ∷ []) else some (some (5 ∷ []) ∷ [])

abbrev slot_of : Bytes → Option ℕ
slot_of [] = none
slot_of (slot ∷ rest) = some slot

abbrev derive_key : Bytes → ℕ → Bytes
derive_key owner slot = slot ∷ owner

abbrev one_address : Bytes → Option (List Bytes)
one_address table = some (table ∷ [])

abbrev second_table : AddressLookupTableAccount
second_table = record { key = 30 ∷ 2 ∷ []; addresses = (5 ∷ []) ∷ [] }

abbrev example_cache : LutCache
example_cache = (second_oracle, second_table) ∷ []

cached_run :
    fetch_and_cache_luts node slot_of derive_key one_address example_cache
      (second_oracle ∷ second_oracle ∷ [])
    ≡ ok (second_table ∷ second_table ∷ [], example_cache)
unfolding fetch_and_cache_luts split_cached cache_get bytes_eq
cached_run = refl

abbrev wrong_cache : LutCache
wrong_cache = cache_insert [] first_oracle second_table

fetch_and_cache_luts_misaligned_example :
    fetch_and_cache_luts node slot_of derive_key one_address [] (first_oracle ∷ second_oracle ∷ [])
    ≡ ok (second_table ∷ [], wrong_cache)
fetch_and_cache_luts_misaligned_example =
    fetch_and_cache_luts_misaligned node slot_of derive_key one_address [] first_oracle
      second_oracle owner_account (5 ∷ []) 30 ((5 ∷ []) ∷ []) (unfold cache_get in refl)
      (unfold cache_get in refl) refl refl (unfold account_to_vec in refl) refl refl
