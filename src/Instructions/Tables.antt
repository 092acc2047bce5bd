-- ===== src/Instructions/Tables.antt =====
-- The lookup tables of the oracles of a queue, which `fetch_luts` of queue_pay_subsidy.rs gathers.
use mathlib.Core.List.{Mem, mem-cons_self, mem-cons_of_mem}
use switchboard_sdk.Prelude.{
  ◌≡◌, refl, sym, ◌⊎◌, inl, inr, List, [], ◌∷◌, ok, err, panic, Option, All, All-mono, Outcome,
  NoPanic, >>=-NoPanic, ok_or-NoPanic, ok_or, length, subst,
}
use switchboard_sdk.Prelude.Words.{Bytes}
use switchboard_sdk.Error.{
  OnDemandError, address_lookup_table_fetch_error, address_lookup_table_deserialize_error,
}
use switchboard_sdk.Account.{Layout, fetch_zerocopy_account}
use switchboard_sdk.Account.Total.{fetch_zerocopy_account-NoPanic}
use switchboard_sdk.Oracle.{OracleAccountData}
use switchboard_sdk.Queue.{QueueAccountData, prefix}
use switchboard_sdk.Transaction.{AddressLookupTableAccount}
use switchboard_sdk.LutInstructions.{find_lut_signer}
use switchboard_sdk.Instructions.Accounts.{Programs}
use switchboard_sdk.Instructions.{
  State, QueuePaySubsidyArgs, fetch_table, oracle_lut, flatten_luts, fetch_luts,
}

module _ (programs : Programs) (states : Layout State) (oracles : Layout OracleAccountData)
    (queues : Layout QueueAccountData) (node : Bytes → Option Bytes)
    (deserialize : Bytes → Option (List Bytes)) where
  abbrev pub lut_of : Bytes → Outcome OnDemandError AddressLookupTableAccount
  lut_of = oracle_lut programs states oracles queues node deserialize

  abbrev pub flattened : List Bytes → Outcome OnDemandError (List AddressLookupTableAccount)
  flattened = flatten_luts programs states oracles queues node deserialize

  -- The table of an oracle is among these, or there is an error in its place.
  abbrev pub Gathered : List AddressLookupTableAccount → Bytes → Type 0
  Gathered luts key =
      ((lut : AddressLookupTableAccount) × (lut_of key ≡ ok lut) × Mem lut luts)
      ⊎ ((e : OnDemandError) × (lut_of key ≡ err e))

  abbrev pub OfSome : List Bytes → AddressLookupTableAccount → Type 0
  OfSome keys lut = (key : Bytes) × Mem key keys × (lut_of key ≡ ok lut)

  abbrev pub Gathers : List Bytes → Outcome OnDemandError (List AddressLookupTableAccount) → Type 0
  Gathers keys o =
      (luts : List AddressLookupTableAccount) × (o ≡ ok luts)
      × All (Gathered luts) keys
      × All (OfSome keys) luts

  OfSome-more :
      (keys : List Bytes) (key : Bytes) (lut : AddressLookupTableAccount)
      → OfSome keys lut
      → OfSome (key ∷ keys) lut
  OfSome-more keys key lut (k, m, read) = (k, mem-cons_of_mem key m, read)

  Gathered-more :
      (luts : List AddressLookupTableAccount) (lut : AddressLookupTableAccount) (key : Bytes)
      → Gathered luts key
      → Gathered (lut ∷ luts) key
  Gathered-more luts lut key (inl (t, read, m)) = inl (t, read, mem-cons_of_mem lut m)
  Gathered-more luts lut key (inr failed) = inr failed

  module _ (eight : length oracles.discriminator ≡ 8) where
    oracle_lut-NoPanic : (key : Bytes) → NoPanic (lut_of key)
    unfolding oracle_lut fetch_table
    oracle_lut-NoPanic key =
        >>=-NoPanic (fetch_zerocopy_account oracles (node key)) _
          (fetch_zerocopy_account-NoPanic oracles eight (node key))
          (λ o.
            let address : Bytes =
              programs.chain.derive_lookup_table_address (find_lut_signer programs.chain key)
                o.lut_slot in
            >>=-NoPanic (ok_or (node address) address_lookup_table_fetch_error) _
              (ok_or-NoPanic (node address) address_lookup_table_fetch_error)
              (λ account.
                >>=-NoPanic (ok_or (deserialize account) address_lookup_table_deserialize_error) _
                  (ok_or-NoPanic (deserialize account) address_lookup_table_deserialize_error)
                  (λ _. tt)))

    next-Gathers :
        (key : Bytes) (keys : List Bytes) (r : Outcome OnDemandError AddressLookupTableAccount)
        → lut_of key ≡ r
        → Gathers keys (flattened keys)
        → Gathers (key ∷ keys) (flattened (key ∷ keys))
    unfolding flatten_luts
    next-Gathers key keys (ok lut) r (luts, run, all, of) = (
      lut ∷ luts,
      rw (flatten_luts, r, run) refl,
      (inl (lut, r, mem-cons_self), All-mono (Gathered-more luts lut) keys all),
      ((key, mem-cons_self, r), All-mono (OfSome-more keys key) luts of),
    )
    next-Gathers key keys (err e) r (luts, run, all, of) = (
      luts,
      rw (flatten_luts, r, run) refl,
      (inr (e, r), all),
      All-mono (OfSome-more keys key) luts of,
    )
    next-Gathers key keys panic r rest = absurd (subst NoPanic r (oracle_lut-NoPanic key))

    flatten_luts-Gathers : (keys : List Bytes) → Gathers keys (flattened keys)
    unfolding flatten_luts
    flatten_luts-Gathers [] = ([], refl, tt, tt)
    flatten_luts-Gathers (k ∷ keys) =
        next-Gathers k keys (lut_of k) refl (flatten_luts-Gathers keys)

    -- With a discriminator of eight bytes, once the queue is read and its oracles are in range,
    -- `fetch_luts` returns, whichever of the oracles and tables cannot be read: it has the table of every
    -- oracle whose account and table are read, and no other table.
    pub fetch_luts-Gathers :
        (args : QueuePaySubsidyArgs) (q : QueueAccountData) (keys : List Bytes)
        → fetch_zerocopy_account queues (node args.queue) ≡ ok q
        → prefix {E = OnDemandError} q.all_oracle_keys q.oracle_keys_len ≡ ok keys
        → Gathers keys (fetch_luts programs states oracles queues node deserialize args)
    unfolding fetch_luts
    fetch_luts-Gathers args q keys g k =
        subst (Gathers keys) (sym (rw (g, k) refl)) (flatten_luts-Gathers keys)
