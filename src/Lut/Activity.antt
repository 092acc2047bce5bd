-- ===== src/Lut/Activity.antt =====
-- The activity of a lookup table, through its deactivation.
use switchboard_sdk.Prelude.{
  ◌+◌, ℕ, ◌≡◌, ◌⊎◌, ◌↔◌, ◌≤◌, inl, inr, refl, true, Option, some, Option-cases, arith,
}
use switchboard_sdk.Prelude.Words.{Bytes}
use switchboard_sdk.Lut.{
  LookupTableMeta, deactivating, status, is_active, slot_max, max_entries, meta_new,
}

-- A table is active exactly when it was never deactivated, or is deactivated in this very slot, or its
-- deactivation slot is still among the recent slot hashes; the blocks that remain to a table that is
-- being deactivated are at most one more than the slot hashes that the sysvar keeps; and a new table
-- is active at every slot.
pub is_active_iff :
    (position : ℕ → Option ℕ) (meta : LookupTableMeta) (current_slot : ℕ)
    → ((is_active position meta current_slot ≡ true) ↔ (
        (meta.deactivation_slot ≡ slot_max)
        ⊎ ((meta.deactivation_slot ≡ current_slot)
            ⊎ ((p : ℕ) × (position meta.deactivation_slot ≡ some p)))))
      × ((n : ℕ) → status position meta current_slot ≡ deactivating n → n ≤ max_entries + 1)
      × ((authority : Bytes) → is_active position (meta_new authority) current_slot ≡ true)
unfolding is_active status meta_new
is_active_iff position meta current_slot = elim (Option-cases (position meta.deactivation_slot)) [
  | inl e ↦ ((λ h. ground arith, λ h. ground arith), λ n h. ground arith, λ authority. refl)
  | inr (p, e) ↦ ((λ h. ground arith, λ h. ground arith), λ n h. ground arith, λ authority. refl)
]
