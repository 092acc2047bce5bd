-- ===== src/Transaction/LookupTables/Tables.antt =====
-- Which tables a fetch of several returns, and what a builder does with them.
use switchboard_sdk.Prelude.{
  panic, inr, ◌⊎◌, err, inl, ok_or-NoPanic, Outcome, >>=-NoPanic, NoPanic, ℕ, suc, ◌+◌, ◌≡◌, refl,
  ap, sym, ◌∙◌, subst, ◌↔◌, Option, none, some, List, [], ◌∷◌, ok, ok_or, unwrap, arith, length,
  get_elem?, >>=-eq-ok, ok_or-eq-ok, unwrap-eq-ok, ok-injective,
}
use switchboard_sdk.Prelude.Words.{Bytes}
use switchboard_sdk.Error.{OnDemandError, account_not_found, account_deserialize_error}
use switchboard_sdk.Transaction.{
  add_address_lookup_accounts, TransactionBuilder, SolanaSdk, AddressLookupTableAccount,
}
use switchboard_sdk.Transaction.LookupTables.{
  add_address_lookup_tables, tables_of, fetch_multiple_address_lookup_accounts,
}

module _ (deserialize : Bytes → Option (List Bytes)) where
  -- Each account is there and holds the table of the key of its place.
  abbrev pub AllTables : List Bytes → List (Option Bytes) → List AddressLookupTableAccount → Type 0
  AllTables [] [] [] = Unit {0}
  AllTables (k ∷ ks) (some b ∷ accounts) (t ∷ ts) =
      (deserialize b ≡ some t.addresses) × (t.key ≡ k) × AllTables ks accounts ts
  AllTables [] [] (t ∷ ts) = ⊥
  AllTables [] (a ∷ accounts) ts = ⊥
  AllTables (k ∷ ks) [] ts = ⊥
  AllTables (k ∷ ks) (none ∷ accounts) ts = ⊥
  AllTables (k ∷ ks) (some b ∷ accounts) [] = ⊥

  -- `keys` from the place `i` on are `ks`.
  abbrev From : List Bytes → ℕ → List Bytes → Type 0
  From keys i ks = (j : ℕ) → get_elem? keys (i + j) ≡ get_elem? ks j

  From-next :
      (keys : List Bytes) (i : ℕ) (k : Bytes) (ks : List Bytes)
      → From keys i (k ∷ ks)
      → From keys (i + 1) ks
  From-next keys i k ks at j = ap (get_elem? keys) (omega arith) ∙ at (suc j)

  From-here :
      (keys : List Bytes) (i : ℕ) (k : Bytes) (ks : List Bytes)
      → From keys i (k ∷ ks)
      → get_elem? keys i ≡ some k
  From-here keys i k ks at = ap (get_elem? keys) (omega arith) ∙ at 0

  tables_of→AllTables :
      (keys : List Bytes) (i : ℕ) (ks : List Bytes) (accounts : List (Option Bytes))
      (ts : List AddressLookupTableAccount)
      → From keys i ks
      → length accounts ≡ length ks
      → tables_of deserialize keys i accounts ≡ ok ts
      → AllTables ks accounts ts
  unfolding tables_of
  tables_of→AllTables keys i [] [] [] at l h = tt
  tables_of→AllTables keys i [] [] (t ∷ ts) at l h = cc (ok-injective h)
  tables_of→AllTables keys i [] (a ∷ accounts) ts at l h = absurd (omega arith)
  tables_of→AllTables keys i (k ∷ ks) [] ts at l h = absurd (omega arith)
  tables_of→AllTables keys i (k ∷ ks) (none ∷ accounts) ts at l h = cc
  tables_of→AllTables keys i (k ∷ ks) (some b ∷ accounts) out at l h =
      let (addresses, d, h₁) = >>=-eq-ok (ok_or (deserialize b) account_deserialize_error) _ h in
      let (key, u, h₂) = >>=-eq-ok (unwrap (get_elem? keys i)) _ h₁ in
      let (ts, r, h₃) = >>=-eq-ok (tables_of deserialize keys (i + 1) accounts) _ h₂ in
      let same : key ≡ k = cc (unwrap-eq-ok (get_elem? keys i) u, From-here keys i k ks at) in
      subst (AllTables (k ∷ ks) (some b ∷ accounts)) (ok-injective h₃) (
        ok_or-eq-ok (deserialize b) account_deserialize_error d,
        same,
        tables_of→AllTables keys (i + 1) ks accounts ts (From-next keys i k ks at) (omega arith) r,
      )

  AllTables→tables_of :
      (keys : List Bytes) (i : ℕ) (ks : List Bytes) (accounts : List (Option Bytes))
      (ts : List AddressLookupTableAccount)
      → From keys i ks
      → AllTables ks accounts ts
      → tables_of deserialize keys i accounts ≡ ok ts
  unfolding tables_of
  AllTables→tables_of keys i [] [] [] at h = refl
  AllTables→tables_of keys i [] [] (t ∷ ts) at h = absurd h
  AllTables→tables_of keys i [] (a ∷ accounts) ts at h = absurd h
  AllTables→tables_of keys i (k ∷ ks) [] ts at h = absurd h
  AllTables→tables_of keys i (k ∷ ks) (none ∷ accounts) ts at h = absurd h
  AllTables→tables_of keys i (k ∷ ks) (some b ∷ accounts) [] at h = absurd h
  AllTables→tables_of keys i (k ∷ ks) (some b ∷ accounts) (t ∷ ts) at h =
      let rest = AllTables→tables_of keys (i + 1) ks accounts ts (From-next keys i k ks at) h.2 in
      rw (h.0, From-here keys i k ks at, rest)
        (ap (λ x. ok (record { key = x; addresses = t.addresses } ∷ ts)) (sym h.1))

  tables_of-NoPanic :
      (keys : List Bytes) (i : ℕ) (ks : List Bytes) (accounts : List (Option Bytes))
      → From keys i ks
      → length accounts ≡ length ks
      → NoPanic (tables_of deserialize keys i accounts)
  unfolding tables_of
  tables_of-NoPanic keys i ks [] at l = tt
  tables_of-NoPanic keys i [] (a ∷ accounts) at l = absurd (omega arith)
  tables_of-NoPanic keys i (k ∷ ks) (a ∷ accounts) at l =
      let rest =
        tables_of-NoPanic keys (i + 1) ks accounts (From-next keys i k ks at) (omega arith) in
      >>=-NoPanic (ok_or a account_not_found) _ (ok_or-NoPanic a account_not_found) (λ found.
        >>=-NoPanic (ok_or (deserialize found) account_deserialize_error) _
          (ok_or-NoPanic (deserialize found) account_deserialize_error)
          (λ addresses.
            rw (From-here keys i k ks at)
              (>>=-NoPanic (tables_of deserialize keys (i + 1) accounts) _ rest (λ ts. tt))))

  -- With an answer of the node for each key, a fetch of several tables returns them exactly when every
  -- account is there and parses, and then each table has the key of its own account.
  pub fetch_multiple_address_lookup_accounts_iff :
      (keys : List Bytes) (accounts : List (Option Bytes)) (ts : List AddressLookupTableAccount)
      → length accounts ≡ length keys
      → (fetch_multiple_address_lookup_accounts deserialize (some accounts) keys ≡ ok ts)
        ↔ AllTables keys accounts ts
  unfolding fetch_multiple_address_lookup_accounts
  fetch_multiple_address_lookup_accounts_iff [] [] [] l = (λ h. tt, λ h. refl)
  fetch_multiple_address_lookup_accounts_iff [] [] (t ∷ ts) l =
      (λ h. cc (ok-injective h), λ h. absurd h)
  fetch_multiple_address_lookup_accounts_iff [] (a ∷ accounts) ts l = absurd (omega arith)
  fetch_multiple_address_lookup_accounts_iff (k ∷ ks) accounts ts l =
      let at : From (k ∷ ks) 0 (k ∷ ks) = λ j. ap (get_elem? (k ∷ ks)) (omega arith) in
      (
        tables_of→AllTables (k ∷ ks) 0 (k ∷ ks) accounts ts at l,
        AllTables→tables_of (k ∷ ks) 0 (k ∷ ks) accounts ts at,
      )

  fetch_multiple_address_lookup_accounts-NoPanic :
      (keys : List Bytes) (accounts : List (Option Bytes))
      → length accounts ≡ length keys
      → NoPanic (fetch_multiple_address_lookup_accounts deserialize (some accounts) keys)
  unfolding fetch_multiple_address_lookup_accounts
  fetch_multiple_address_lookup_accounts-NoPanic [] accounts l = tt
  fetch_multiple_address_lookup_accounts-NoPanic (k ∷ ks) accounts l =
      tables_of-NoPanic (k ∷ ks) 0 (k ∷ ks) accounts (λ j. ap (get_elem? (k ∷ ks)) (omega arith)) l

  module _ {Signer Transaction Message VersionedTransaction : Type 0}
      (sdk : SolanaSdk Signer Transaction Message VersionedTransaction)
      (b : TransactionBuilder Signer) (keys : List Bytes) (accounts : List (Option Bytes)) where
    -- All the tables are there and the builder gets all of them, or one is missing and it gets none.
    abbrev pub AddsAll : Outcome OnDemandError (TransactionBuilder Signer) → Type 0
    AddsAll o =
        ((ts : List AddressLookupTableAccount) × AllTables keys accounts ts
          × (o ≡ ok (add_address_lookup_accounts sdk b ts)))
        ⊎ (((ts : List AddressLookupTableAccount) → ¬ AllTables keys accounts ts) × (o ≡ ok b))

    adds :
        length accounts ≡ length keys
        → (o : Outcome OnDemandError (List AddressLookupTableAccount))
        → fetch_multiple_address_lookup_accounts deserialize (some accounts) keys ≡ o
        → AddsAll (add_address_lookup_tables deserialize sdk b (some accounts) keys)
    unfolding add_address_lookup_tables
    adds l (ok ts) r = inl (
      ts,
      (fetch_multiple_address_lookup_accounts_iff keys accounts ts l).0 r,
      rw (add_address_lookup_tables, r) refl,
    )
    adds l (err e) r = inr (
      λ ts all. cc (r, (fetch_multiple_address_lookup_accounts_iff keys accounts ts l).1 all),
      rw (add_address_lookup_tables, r) refl,
    )
    adds l panic r =
        absurd (subst NoPanic r (fetch_multiple_address_lookup_accounts-NoPanic keys accounts l))

    -- With an answer of the node for each key, the builder ends with the tables of all the keys
    -- behind its own, or, where an account is missing or does not parse, exactly as it was: there is
    -- neither an error nor a panic.
    pub add_address_lookup_tables-AddsAll :
        length accounts ≡ length keys
        → AddsAll (add_address_lookup_tables deserialize sdk b (some accounts) keys)
    add_address_lookup_tables-AddsAll l =
        adds l (fetch_multiple_address_lookup_accounts deserialize (some accounts) keys) refl
