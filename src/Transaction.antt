-- ===== src/Transaction.antt =====
-- client/transaction_builder.rs of the on-demand crate. A signer is whatever `AsSigner` gives, with
-- its public key; the account, instruction and transaction types of solana-sdk are records of what
-- the builder reads, and its constructors and its signing are parameters.
pub mod Required
pub mod Signers
pub mod Held
pub mod Instructions
pub mod Legacy
pub mod Versioned
pub mod LookupTables
pub mod Examples
mod Records
pub use Records.*
use switchboard_sdk.Prelude.{
  ℕ, ◌+◌, min, max, List, [], ◌∷◌, ◌++◌, Bool, true, false, not, ◌&&◌, Option, none, some,
  if◌then◌else◌, ltb, ◌==◌, length, any, find, Outcome, ok, err, panic, ◌>>=◌, ◌>>◌, ok_or, unwrap,
  unwrap_or,
}
use switchboard_sdk.Prelude.Words.{Bytes, bytes_eq}
use switchboard_sdk.Error.{
  OnDemandError, solana_missing_signer, solana_payer_signer_missing, solana_payer_mismatch,
  solana_instruction_overflow, solana_instructions_empty, solana_sign_error, network_error,
  account_not_found, account_deserialize_error,
}

-- `signers_required.contains(&k)`
pub contains : Bytes → List Bytes → Bool
contains k = any (λ j. bytes_eq j k)

pub require_accounts : List AccountMeta → List Bytes → List Bytes
unfolding contains
require_accounts [] required = required
require_accounts (a ∷ accounts) required = require_accounts accounts (
    if a.is_signer && not (contains a.pubkey required) then required ++ a.pubkey ∷ [] else required)

pub require_ixs : List Instruction → List Bytes → List Bytes
unfolding require_accounts
require_ixs [] required = required
require_ixs (ix ∷ ixs) required = require_ixs ixs (require_accounts ix.accounts required)

module _ {Signer Transaction Message VersionedTransaction : Type 0}
    (sdk : SolanaSdk Signer Transaction Message VersionedTransaction) where
  open sdk use {
    pubkey, set_compute_unit_limit, set_compute_unit_price, default_hash, sign_legacy, try_compile,
    try_new,
  }

  pub new : Bytes → TransactionBuilder Signer
  new payer = record {
    payer = payer;
    own_ixs = [];
    compute_units = none;
    priority_fees = none;
    recent_blockhash = none;
    min_context_slot = none;
    address_lookup_tables = [];
    own_signers = [];
  }

  pub new_with_payer : Signer → TransactionBuilder Signer
  unfolding new
  new_with_payer payer = record (new (pubkey payer)) { own_signers = payer ∷ [] }

  pub new_with_ixs : Bytes → List Instruction → TransactionBuilder Signer
  unfolding new
  new_with_ixs payer ixs = record (new payer) { own_ixs = ixs }

  pub new_with_payer_and_ixs : Signer → List Instruction → TransactionBuilder Signer
  unfolding new
  new_with_payer_and_ixs payer ixs = record (new (pubkey payer)) {
    own_signers = payer ∷ [];
    own_ixs = ixs;
  }

  pub set_compute_units : TransactionBuilder Signer → ℕ → TransactionBuilder Signer
  set_compute_units b units = record b { compute_units = some units }

  pub set_priority_fees : TransactionBuilder Signer → ℕ → TransactionBuilder Signer
  set_priority_fees b fees = record b { priority_fees = some fees }

  pub add_ix : TransactionBuilder Signer → Instruction → TransactionBuilder Signer
  add_ix b ix = record b { own_ixs = b.own_ixs ++ ix ∷ [] }

  pub find_signer : Bytes → List Signer → Option Signer
  find_signer key = find (λ s. bytes_eq (pubkey s) key)

  pub has_signer : TransactionBuilder Signer → Bytes → Bool
  unfolding find_signer
  has_signer b key = elim (find_signer key b.own_signers) [ none ↦ false | some s ↦ true ]

  pub has_payer : TransactionBuilder Signer → Bool
  unfolding has_signer
  has_payer b = has_signer b b.payer

  pub add_signer : TransactionBuilder Signer → Signer → TransactionBuilder Signer
  unfolding find_signer
  add_signer b signer = elim (find_signer (pubkey signer) b.own_signers) [
    | none ↦ record b { own_signers = b.own_signers ++ signer ∷ [] }
    | some s ↦ b
  ]

  pub add_signers : TransactionBuilder Signer → List Signer → TransactionBuilder Signer
  unfolding add_signer
  add_signers b [] = b
  add_signers b (s ∷ signers) = add_signers (add_signer b s) signers

  pub set_recent_blockhash : TransactionBuilder Signer → Bytes → TransactionBuilder Signer
  set_recent_blockhash b hash = record b { recent_blockhash = some hash }

  pub set_min_context_slot : TransactionBuilder Signer → ℕ → TransactionBuilder Signer
  set_min_context_slot b slot = record b { min_context_slot = some slot }

  pub add_address_lookup_accounts :
      TransactionBuilder Signer → List AddressLookupTableAccount → TransactionBuilder Signer
  add_address_lookup_accounts b luts = record b {
    address_lookup_tables = b.address_lookup_tables ++ luts;
  }

  pub required_signers : TransactionBuilder Signer → List Bytes
  unfolding require_ixs
  required_signers b = require_ixs b.own_ixs []

  pub collect : List Signer → List Bytes → Outcome OnDemandError (List Signer)
  unfolding find_signer
  collect held [] = ok []
  collect held (key ∷ required) = do
    s ← ok_or (find_signer key held) solana_missing_signer
    rest ← collect held required
    ok (s ∷ rest)

  pub signers : TransactionBuilder Signer → Outcome OnDemandError (List Signer)
  signers b = collect b.own_signers (required_signers b)

  -- A required key that is the payer's is signed for by `payer_signer`, whatever the builder holds.
  pub collect_with_payer :
      Signer → Bytes → List Signer → List Bytes → Outcome OnDemandError (List Signer)
  unfolding find_signer
  collect_with_payer payer_signer payer held [] = ok []
  collect_with_payer payer_signer payer held (key ∷ required) = do
    s ←
        (if bytes_eq key payer
          then ok payer_signer
          else ok_or (find_signer key held) solana_missing_signer)
    rest ← collect_with_payer payer_signer payer held required
    ok (s ∷ rest)

  pub signers_with_payer : TransactionBuilder Signer → Signer → Outcome OnDemandError (List Signer)
  signers_with_payer b payer_signer =
      if bytes_eq (pubkey payer_signer) b.payer
      then collect_with_payer payer_signer b.payer b.own_signers (required_signers b)
      else err solana_payer_mismatch

  -- The instructions of the compute budget that stand in front.
  pub pre_ixs : TransactionBuilder Signer → List Instruction
  pre_ixs b =
      elim b.compute_units [
        | none ↦ []
        | some units ↦ set_compute_unit_limit (max (min units 1_400_000) 200_000) ∷ []
      ]
      ++ elim b.priority_fees [
        | none ↦ []
        | some fees ↦ set_compute_unit_price (min 10_000 fees) ∷ []
      ]

  pub ixs : TransactionBuilder Signer → Outcome OnDemandError (List Instruction)
  ixs b =
      if length b.own_ixs == 0
      then err solana_instructions_empty
      else let all = pre_ixs b ++ b.own_ixs in
        if ltb 10 (length all) then err solana_instruction_overflow else ok all

  pub build_legacy_tx :
      Bytes → List Instruction → List Signer → Bytes → Outcome OnDemandError Transaction
  build_legacy_tx payer ixs signers hash =
      ok_or (sign_legacy payer ixs signers hash) solana_sign_error

  pub to_legacy_tx : TransactionBuilder Signer → Outcome OnDemandError Transaction
  to_legacy_tx b =
      if has_payer b
      then (do
        is ← ixs b
        ss ← signers b
        build_legacy_tx b.payer is ss (unwrap_or b.recent_blockhash default_hash))
      else err solana_payer_signer_missing

  pub to_legacy_tx_with_payer :
      TransactionBuilder Signer → Signer → Outcome OnDemandError Transaction
  to_legacy_tx_with_payer b payer =
      if bytes_eq (pubkey payer) b.payer
      then (do
        is ← ixs b
        ss ← signers_with_payer b payer
        build_legacy_tx b.payer is ss (unwrap_or b.recent_blockhash default_hash))
      else err solana_payer_mismatch

  pub to_legacy_tx_with_payer_and_blockhash :
      TransactionBuilder Signer → Signer → Option Bytes → Outcome OnDemandError Transaction
  to_legacy_tx_with_payer_and_blockhash b payer hash =
      if bytes_eq (pubkey payer) b.payer
      then (do
        is ← ixs b
        ss ← signers_with_payer b payer
        build_legacy_tx b.payer is ss (unwrap_or hash (unwrap_or b.recent_blockhash default_hash)))
      else err solana_payer_mismatch

  -- This one does not ask for the payer's signer, and prefers the builder's own hash.
  pub to_legacy_tx_with_blockhash :
      TransactionBuilder Signer → Option Bytes → Outcome OnDemandError Transaction
  to_legacy_tx_with_blockhash b hash = do
    is ← ixs b
    ss ← signers b
    build_legacy_tx b.payer is ss (unwrap_or b.recent_blockhash (unwrap_or hash default_hash))

  pub build_v0_tx :
      Bytes
      → List Instruction
      → List Signer
      → List AddressLookupTableAccount
      → Bytes
      → Outcome OnDemandError VersionedTransaction
  build_v0_tx payer ixs signers luts hash = do
    message ← unwrap (try_compile payer ixs luts hash)
    unwrap (try_new message signers)

  pub to_v0_tx : TransactionBuilder Signer → Outcome OnDemandError VersionedTransaction
  to_v0_tx b = do
    is ← ixs b
    ss ← signers b
    build_v0_tx b.payer is ss b.address_lookup_tables (unwrap_or b.recent_blockhash default_hash)

  pub to_v0_tx_with_payer :
      TransactionBuilder Signer → Signer → Outcome OnDemandError VersionedTransaction
  to_v0_tx_with_payer b payer =
      if bytes_eq (pubkey payer) b.payer
      then (do
        is ← ixs b
        ss ← signers_with_payer b payer
        build_v0_tx b.payer is ss b.address_lookup_tables
            (unwrap_or b.recent_blockhash default_hash))
      else err solana_payer_mismatch
