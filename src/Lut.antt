-- ===== src/Lut.antt =====
-- lut.rs of the client crate: when an address lookup table is active, and which addresses of it a
-- transaction may use. `position` is `SlotHashes::position` of solana-sdk: where the sysvar lists a
-- slot, if it does. The padding of the metadata is left out.
pub mod Activity
pub mod Lookups
mod Examples
use switchboard_sdk.Prelude.{
  ℕ, ◌+◌, ◌-◌, ◌^◌, Bool, true, false, Option, none, some, List, [], ◌∷◌, if◌then◌else◌, ltb, ◌==◌,
  length, take, get_elem?, Outcome, ok, err, panic, ok_or, ◌>>=◌,
}
use switchboard_sdk.Prelude.Words.{Bytes}

-- `Slot::MAX` and `MAX_ENTRIES` of solana-sdk.
abbrev pub slot_max : ℕ
slot_max = 2 ^ 64 - 1

abbrev pub max_entries : ℕ
max_entries = 512

pub data LookupTableStatus : Type 0 where
  activated : LookupTableStatus
  deactivating : ℕ → LookupTableStatus
  deactivated : LookupTableStatus

pub record LookupTableMeta : Type 0 where
  pub deactivation_slot : ℕ
  pub last_extended_slot : ℕ
  pub last_extended_slot_start_index : ℕ
  pub authority : Option Bytes

unfoldable pub meta_default : LookupTableMeta
meta_default = record {
  deactivation_slot = slot_max;
  last_extended_slot = 0;
  last_extended_slot_start_index = 0;
  authority = none;
}

unfoldable pub meta_new : Bytes → LookupTableMeta
unfolding meta_default
meta_new authority = record meta_default { authority = some authority }

pub record AddressLookupTable : Type 0 where
  pub meta : LookupTableMeta
  pub addresses : List Bytes

pub data LookupError : Type 0 where
  table_not_active invalid_address_index : LookupError

-- `.map(|idx| active.get(*idx)).collect::<Option<_>>()`
unfoldable pub get_all : List Bytes → List ℕ → Option (List Bytes)
get_all active [] = some []
get_all active (idx ∷ indexes) =
    let rest = get_all active indexes in
    elim (get_elem? active idx) [
      | none ↦ none
      | some address ↦ elim rest [ none ↦ none | some addresses ↦ some (address ∷ addresses) ]
    ]

module _ (position : ℕ → Option ℕ) where
  unfoldable pub status : LookupTableMeta → ℕ → LookupTableStatus
  status meta current_slot =
      if meta.deactivation_slot == slot_max
      then activated
      else if meta.deactivation_slot == current_slot
      then deactivating (max_entries + 1)
      else elim (position meta.deactivation_slot) [
        | some slot_hash_position ↦ deactivating (max_entries - slot_hash_position)
        | none ↦ deactivated
      ]

  unfoldable pub is_active : LookupTableMeta → ℕ → Bool
  is_active meta current_slot = elim (status meta current_slot) [
    | activated ↦ true
    | deactivating remaining_blocks ↦ true
    | deactivated ↦ false
  ]

  unfoldable pub get_active_addresses_len : AddressLookupTable → ℕ → Outcome LookupError ℕ
  get_active_addresses_len table current_slot =
      if is_active table.meta current_slot
      then ok (
          if ltb table.meta.last_extended_slot current_slot
          then length table.addresses
          else table.meta.last_extended_slot_start_index)
      else err table_not_active

  unfoldable pub lookup : AddressLookupTable → ℕ → List ℕ → Outcome LookupError (List Bytes)
  lookup table current_slot indexes = do
    active_addresses_len ← get_active_addresses_len table current_slot
    if ltb (length table.addresses) active_addresses_len
        then panic
        else ok_or (get_all (take active_addresses_len table.addresses) indexes)
            invalid_address_index
