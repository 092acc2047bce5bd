-- ===== src/Keys/Budgets.antt =====
-- What a transaction of `ix_to_tx_v0` is made of.
use switchboard_sdk.Prelude.{
  unwrap-eq-ok, ℕ, ◌≡◌, refl, List, [], ◌∷◌, Option, some, get_elem?, unwrap_or, ok, panic, ok_or,
  unwrap, >>=-eq-ok, ok_or-eq-ok,
}
use switchboard_sdk.Prelude.Words.{Bytes}
use switchboard_sdk.Error.{solana_sign_error}
use switchboard_sdk.Transaction.{Instruction, AddressLookupTableAccount, SolanaSdk}
use switchboard_sdk.Keys.{ix_to_tx_v0, final_ixs, estimate_compute_units}

module _ {Signer Transaction Message VersionedTransaction : Type 0}
    (sdk : SolanaSdk Signer Transaction Message VersionedTransaction)
    (simulate : VersionedTransaction → Option (Option ℕ)) (scale : ℕ → ℕ) where
  open sdk use {pubkey, set_compute_unit_limit, set_compute_unit_price, try_compile, try_new}

  -- The transaction `tx` pays with the first signer, sets the scaled limit and the price in front of the
  -- instructions, and is signed by all signers.
  abbrev pub Compiles :
      List Instruction
      → List Signer
      → Bytes
      → List AddressLookupTableAccount
      → VersionedTransaction
      → Type 0
  Compiles ixs signers blockhash luts tx =
      (first : Signer) × (message : Message) × (get_elem? signers 0 ≡ some first)
      × (try_compile (pubkey first)
            (set_compute_unit_limit (
                scale (
                  unwrap_or
                    (estimate_compute_units sdk simulate scale ixs luts blockhash first signers)
                    1_400_000))
              ∷ set_compute_unit_price 10_000
              ∷ ixs)
            luts blockhash
          ≡ some message)
      × (try_new message signers ≡ some tx)

  -- A transaction that `ix_to_tx_v0` returns pays with the first signer and carries, in front of the
  -- instructions, the limit, from the estimate or else from 1,400,000, and the price; without
  -- signers it panics.
  pub ix_to_tx_v0-Compiles :
      (ixs : List Instruction) (blockhash : Bytes) (luts : List AddressLookupTableAccount)
      → ((signers : List Signer) (tx : VersionedTransaction)
          → ix_to_tx_v0 sdk simulate scale ixs signers blockhash luts ≡ ok tx
          → Compiles ixs signers blockhash luts tx)
        × (ix_to_tx_v0 sdk simulate scale ixs [] blockhash luts ≡ panic)
  unfolding ix_to_tx_v0 final_ixs
  ix_to_tx_v0-Compiles ixs blockhash luts = (
    λ signers tx run.
        let (first, f, rest) = >>=-eq-ok (unwrap (get_elem? signers 0)) _ run in
        let (message, m, signed) =
          >>=-eq-ok
            (ok_or (try_compile (pubkey first) (final_ixs sdk simulate scale _ ixs) luts blockhash)
              solana_sign_error)
            _ rest in
        (
          first,
          message,
          unwrap-eq-ok (get_elem? signers 0) f,
          ok_or-eq-ok _ solana_sign_error m,
          ok_or-eq-ok (try_new message signers) solana_sign_error signed,
        ),
    refl,
  )
