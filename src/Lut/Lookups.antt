-- ===== src/Lut/Lookups.antt =====
-- What a lookup answers, on every branch.
use switchboard_sdk.Prelude.{
  if◌then◌else◌, ◌⊎◌, zero, suc, ℕ, ◌≡◌, ◌≤◌, ◌<◌, refl, true, false, Option, some, none, List, [],
  ◌∷◌, get_elem?, length, take, Outcome, ok, err, panic, Bool-cases, Option-cases, inl, inr, arith,
  ltb,
}
use switchboard_sdk.Prelude.Words.{Bytes}
use switchboard_sdk.Lut.{
  AddressLookupTable, LookupError, table_not_active, invalid_address_index, is_active, lookup,
  get_active_addresses_len, get_all,
}

module _ (position : ℕ → Option ℕ) (table : AddressLookupTable) (current_slot : ℕ) where
  -- The addresses that a transaction of this slot may use: those of the table, but for the ones that
  -- it was extended with in the slot.
  abbrev pub usable : ℕ
  usable =
      if ltb table.meta.last_extended_slot current_slot
      then length table.addresses
      else table.meta.last_extended_slot_start_index

  abbrev pub Finds : List ℕ → List Bytes → Type 0
  Finds [] [] = Unit {0}
  Finds [] (a ∷ found) = ⊥
  Finds (i ∷ indexes) [] = ⊥
  Finds (i ∷ indexes) (a ∷ found) =
      ((i < usable) × (get_elem? table.addresses i ≡ some a)) × Finds indexes found

  abbrev pub SomeBeyond : List ℕ → Type 0
  SomeBeyond [] = ⊥
  SomeBeyond (i ∷ indexes) = (usable ≤ i) ⊎ SomeBeyond indexes

  abbrev pub Looks : List ℕ → Outcome LookupError (List Bytes) → Type 0
  Looks indexes (ok found) =
      (is_active position table.meta current_slot ≡ true) × Finds indexes found
  Looks indexes (err table_not_active) = is_active position table.meta current_slot ≡ false
  Looks indexes (err invalid_address_index) =
      (is_active position table.meta current_slot ≡ true) × SomeBeyond indexes
  Looks indexes panic =
      (is_active position table.meta current_slot ≡ true)
      × (current_slot ≤ table.meta.last_extended_slot)
      × (length table.addresses < table.meta.last_extended_slot_start_index)

  get_elem?-take : (n i : ℕ) (xs : List Bytes) → i < n → get_elem? (take n xs) i ≡ get_elem? xs i
  get_elem?-take zero i xs l = absurd (omega arith)
  get_elem?-take (suc n) i [] l = refl
  get_elem?-take (suc n) zero (x ∷ xs) l = refl
  get_elem?-take (suc n) (suc i) (x ∷ xs) l = get_elem?-take n i xs (omega arith)

  get_elem?-take_bound :
      (n i : ℕ) (xs : List Bytes) (a : Bytes) → get_elem? (take n xs) i ≡ some a → i < n
  get_elem?-take_bound zero i xs a e = cc
  get_elem?-take_bound (suc n) i [] a e = cc
  get_elem?-take_bound (suc n) zero (x ∷ xs) a e = omega arith
  get_elem?-take_bound (suc n) (suc i) (x ∷ xs) a e = omega (arith, get_elem?-take_bound n i xs a e)

  get_elem?-take_ge :
      (n i : ℕ) (xs : List Bytes) → n ≤ length xs → get_elem? (take n xs) i ≡ none → n ≤ i
  get_elem?-take_ge zero i xs fits e = omega arith
  get_elem?-take_ge (suc n) i [] fits e = absurd (omega arith)
  get_elem?-take_ge (suc n) zero (x ∷ xs) fits e = cc
  get_elem?-take_ge (suc n) (suc i) (x ∷ xs) fits e =
      omega (arith, get_elem?-take_ge n i xs (omega arith) e)

  get_all_cases :
      (indexes : List ℕ)
      → usable ≤ length table.addresses
      → ((found : List Bytes) × (get_all (take usable table.addresses) indexes ≡ some found)
          × Finds indexes found)
        ⊎ ((get_all (take usable table.addresses) indexes ≡ none) × SomeBeyond indexes)
  unfolding get_all
  get_all_cases [] fits = inl ([], refl, tt)
  get_all_cases (i ∷ indexes) fits =
      elim (Option-cases (get_elem? (take usable table.addresses) i)) [
        | inl e ↦
            inr (rw (get_all, e) refl, inl (get_elem?-take_ge usable i table.addresses fits e))
        | inr (a, e) ↦
            let l = get_elem?-take_bound usable i table.addresses a e in
            elim (get_all_cases indexes fits) [
              | inl (found, r, f) ↦ inl (
                a ∷ found,
                rw (get_all, e, r) refl,
                ((l, rw (get_elem?-take usable i table.addresses l) at e), f),
              )
              | inr (r, b) ↦ inr (rw (get_all, e, r) refl, inr b)
            ]
      ]

  -- A lookup returns, for each index in order, the address at that index, each of them usable in the
  -- slot; it errs when the table is not active, and when some index is beyond the usable addresses;
  -- and it panics on an active table, extended in this slot or later, whose start index is beyond its
  -- addresses.
  pub lookup-Looks : (indexes : List ℕ) → Looks indexes (lookup position table current_slot indexes)
  unfolding lookup get_active_addresses_len
  lookup-Looks indexes = elim (Bool-cases (is_active position table.meta current_slot)) [
    | inr off ↦ rw off off
    | inl on ↦ elim (Bool-cases (ltb (length table.addresses) usable)) [
      | inl over ↦ rw (on, over) (on, ground arith, ground arith)
      | inr fits ↦ elim (get_all_cases indexes (ground arith)) [
        | inl (found, r, f) ↦ rw (on, fits, r) (on, f)
        | inr (r, b) ↦ rw (on, fits, r) (on, b)
      ]
    ]
  ]
