-- ===== src/Lut/Examples.antt =====
-- A table that is being deactivated and was just extended, and the theorems about tables on it.
use switchboard_sdk.Lut.{
  invalid_address_index, get_all, status, get_active_addresses_len, lookup, is_active,
  AddressLookupTable, LookupTableMeta,
}
use switchboard_sdk.Prelude.{
  err, ok, some, ltb, [], Option, ℕ, none, refl, ◌-◌, if◌then◌else◌, ◌∷◌, ◌≡◌, replicate,
}

abbrev example_meta : LookupTableMeta
example_meta = record {
  deactivation_slot = 90;
  last_extended_slot = 100;
  last_extended_slot_start_index = 1;
  authority = none;
}

abbrev example_table : AddressLookupTable
example_table = record { meta = example_meta; addresses = replicate 32 1 ∷ replicate 32 2 ∷ [] }

-- Slot hashes of the slots from 50 to 99.
abbrev recent : ℕ → Option ℕ
recent slot = if ltb slot 50 then none else if ltb slot 100 then some (99 - slot) else none

lookup_runs :
    (lookup recent example_table 100 (0 ∷ []) ≡ ok (replicate 32 1 ∷ []))
    × (lookup recent example_table 100 (0 ∷ 1 ∷ []) ≡ err invalid_address_index)
    × (lookup recent example_table 101 (0 ∷ 1 ∷ []) ≡ ok (replicate 32 1 ∷ replicate 32 2 ∷ []))
unfolding lookup get_active_addresses_len is_active status get_all
lookup_runs = (refl, refl, refl)
