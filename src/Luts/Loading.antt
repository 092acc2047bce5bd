-- ===== src/Luts/Loading.antt =====
-- How tables and keys are paired after some of them were skipped.
use switchboard_sdk.Prelude.{ℕ, ◌≡◌, refl, Option, some, none, List, [], ◌∷◌, ok}
use switchboard_sdk.Prelude.Words.{Bytes}
use switchboard_sdk.Luts.{
  LutCache, cache_get, cache_insert, cache_all, split_cached, fetch_and_cache_luts,
  load_lookup_tables, lut_keys_of, parsed_luts, account_to_vec,
}

module _ (get_multiple_accounts : List Bytes → Option (List (Option Bytes)))
    (lut_slot_of : Bytes → Option ℕ) (derive : Bytes → ℕ → Bytes)
    (deserialize : Bytes → Option (List Bytes)) (cache : LutCache) where
  split_misses :
      (first second : Bytes)
      → cache_get cache first ≡ none
      → cache_get cache second ≡ none
      → split_cached cache (first ∷ second ∷ []) ≡ ([], first ∷ second ∷ [])
  unfolding split_cached
  split_misses first second c₁ c₂ = rw (split_cached, c₁, c₂) refl

  loads_second :
      (first second : Bytes) (account table : Bytes) (lut_slot : ℕ) (addresses : List Bytes)
      → get_multiple_accounts (first ∷ second ∷ []) ≡ some (none ∷ some account ∷ [])
      → lut_slot_of [] ≡ none
      → lut_slot_of (account_to_vec (some account)) ≡ some lut_slot
      → get_multiple_accounts (derive second lut_slot ∷ []) ≡ some (some table ∷ [])
      → deserialize table ≡ some addresses
      → load_lookup_tables get_multiple_accounts lut_slot_of derive deserialize
          (first ∷ second ∷ [])
        ≡ ok (record { key = derive second lut_slot; addresses = addresses } ∷ [])
  unfolding load_lookup_tables
  loads_second first second account table lut_slot addresses owners no_slot slot tables parsed =
      let keys : lut_keys_of get_multiple_accounts lut_slot_of derive deserialize
            (first ∷ second ∷ []) 0 ([] ∷ account_to_vec (some account) ∷ [])
          ≡ ok (derive second lut_slot ∷ []) =
        unfold lut_keys_of in rw (lut_keys_of, no_slot, slot) refl in
      let luts : parsed_luts get_multiple_accounts lut_slot_of derive deserialize
            (derive second lut_slot ∷ []) 0 (table ∷ [])
          ≡ ok (record { key = derive second lut_slot; addresses = addresses } ∷ []) =
        unfold parsed_luts in rw (parsed_luts, parsed) refl in
      let nothing : account_to_vec none ≡ [] = unfold account_to_vec in refl in
      rw (owners, nothing, keys, tables, luts) refl

  -- Of two keys that are not cached, the node has no account for the first, and the account of the
  -- second leads to a table: `fetch_and_cache_luts` then caches the table of the second key as that
  -- of the first, and none for the second.
  pub fetch_and_cache_luts_misaligned :
      (first second : Bytes) (account table : Bytes) (lut_slot : ℕ) (addresses : List Bytes)
      → cache_get cache first ≡ none
      → cache_get cache second ≡ none
      → get_multiple_accounts (first ∷ second ∷ []) ≡ some (none ∷ some account ∷ [])
      → lut_slot_of [] ≡ none
      → lut_slot_of (account_to_vec (some account)) ≡ some lut_slot
      → get_multiple_accounts (derive second lut_slot ∷ []) ≡ some (some table ∷ [])
      → deserialize table ≡ some addresses
      → fetch_and_cache_luts get_multiple_accounts lut_slot_of derive deserialize cache
          (first ∷ second ∷ [])
        ≡ ok (
          record { key = derive second lut_slot; addresses = addresses } ∷ [],
          cache_insert cache first (record { key = derive second lut_slot; addresses = addresses }),
        )
  unfolding fetch_and_cache_luts
  fetch_and_cache_luts_misaligned first second account table lut_slot addresses c₁ c₂ owners no_slot
        slot tables parsed =
      rw
        (
          split_misses first second c₁ c₂,
          loads_second first second account table lut_slot addresses owners no_slot slot tables
              parsed,
        )
        (unfold cache_all in refl)
