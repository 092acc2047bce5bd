-- ===== src/Transaction/LookupTables.antt =====
-- The lookup tables that a builder fetches: client/transaction_builder.rs. What the RPC node answers
-- is an argument, `none` for its error, and so is `AddressLookupTable::deserialize`.
pub mod Tables
use switchboard_sdk.Prelude.{
  ℕ, ◌+◌, List, [], ◌∷◌, Option, Outcome, ok, err, panic, ok_or, unwrap, ◌>>=◌, get_elem?,
}
use switchboard_sdk.Prelude.Words.{Bytes}
use switchboard_sdk.Error.{
  OnDemandError, network_error, account_not_found, account_deserialize_error,
}
use switchboard_sdk.Transaction.{
  AddressLookupTableAccount, SolanaSdk, TransactionBuilder, add_address_lookup_accounts,
}

module _ (deserialize : Bytes → Option (List Bytes)) where
  pub fetch_address_lookup_account :
      Option Bytes → Bytes → Outcome OnDemandError AddressLookupTableAccount
  fetch_address_lookup_account answer key = do
    account ← ok_or answer network_error
    addresses ← ok_or (deserialize account) account_deserialize_error
    ok (record { key = key; addresses = addresses })

  -- The loop over `accounts.iter().enumerate()`; `address_lookup_pubkeys[i]` is an index.
  unfoldable pub tables_of :
      List Bytes → ℕ → List (Option Bytes) → Outcome OnDemandError (List AddressLookupTableAccount)
  tables_of keys i [] = ok []
  tables_of keys i (account ∷ accounts) = do
    found ← ok_or account account_not_found
    addresses ← ok_or (deserialize found) account_deserialize_error
    key ← unwrap (get_elem? keys i)
    rest ← tables_of keys (i + 1) accounts
    ok (record { key = key; addresses = addresses } ∷ rest)

  unfoldable pub fetch_multiple_address_lookup_accounts :
      Option (List (Option Bytes))
      → List Bytes
      → Outcome OnDemandError (List AddressLookupTableAccount)
  fetch_multiple_address_lookup_accounts answer [] = ok []
  fetch_multiple_address_lookup_accounts answer (key ∷ keys) = do
    accounts ← ok_or answer network_error
    tables_of (key ∷ keys) 0 accounts

  -- An error of the fetch is dropped, and the builder stays as it was.
  pub add_address_lookup_tables :
      {Signer Transaction Message VersionedTransaction : Type 0}
      → SolanaSdk Signer Transaction Message VersionedTransaction
      → TransactionBuilder Signer
      → Option (List (Option Bytes))
      → List Bytes
      → Outcome OnDemandError (TransactionBuilder Signer)
  add_address_lookup_tables sdk b answer keys =
      elim (fetch_multiple_address_lookup_accounts answer keys) [
        | ok luts ↦ ok (add_address_lookup_accounts sdk b luts)
        | err e ↦ ok b
        | panic ↦ panic
      ]
