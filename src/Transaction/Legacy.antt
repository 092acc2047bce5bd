-- ===== src/Transaction/Legacy.antt =====
-- The signed transactions: what was signed, and by whom.
use switchboard_sdk.Prelude.{
  inr, inl, >>=-eq-ok, Option-cases, ◌>>=◌, ok_or-eq-ok, guard-ok, true, unwrap_or, subst, ◌≡◌,
  List, Option, some, ok, map,
}
use switchboard_sdk.Prelude.Words.{Bytes}
use switchboard_sdk.Transaction.{
  to_legacy_tx_with_blockhash, find_signer, has_signer, has_payer, required_signers, ixs,
  Instruction, signers, build_legacy_tx, to_legacy_tx, SolanaSdk, TransactionBuilder,
}
use switchboard_sdk.Transaction.Signers.{signers-Delivers, Delivers}

module _ {Signer Transaction Message VersionedTransaction : Type 0}
    (sdk : SolanaSdk Signer Transaction Message VersionedTransaction)
    (b : TransactionBuilder Signer) where
  open sdk use {pubkey, default_hash, sign_legacy}

  -- A transaction was signed for the builder's payer, over its instructions, with the keys that they
  -- require, and with this hash.
  abbrev pub Signed : Bytes → Transaction → Type 0
  Signed hash tx =
      (is : List Instruction) × (ss : List Signer) × (ixs sdk b ≡ ok is)
      × (map pubkey ss ≡ required_signers sdk b)
      × (sign_legacy b.payer is ss hash ≡ some tx)

  ok-keys : {ss : List Signer} → signers sdk b ≡ ok ss → map pubkey ss ≡ required_signers sdk b
  ok-keys {ss} e = subst (Delivers sdk _ (required_signers sdk b)) e (signers-Delivers sdk b)

  build_ok :
      {is : List Instruction} {ss : List Signer} {hash : Bytes} {tx : Transaction}
      → build_legacy_tx sdk b.payer is ss hash ≡ ok tx
      → sign_legacy b.payer is ss hash ≡ some tx
  unfolding build_legacy_tx
  build_ok {is} {ss} {hash} e = ok_or-eq-ok (sign_legacy b.payer is ss hash) _ e

  payer-held :
      has_payer sdk b ≡ true → (s : Signer) × (find_signer sdk b.payer b.own_signers ≡ some s)
  unfolding has_payer has_signer
  payer-held h = elim (Option-cases (find_signer sdk b.payer b.own_signers)) [
    | inl e ↦ cc (rw (e, has_payer, has_signer) at h)
    | inr x ↦ x
  ]

  -- The code's chain from the instructions to the signature.
  signs-Signed :
      (tx : Transaction) (hash : Bytes)
      → (ixs sdk b >>= λ is. signers sdk b >>= λ ss. build_legacy_tx sdk b.payer is ss hash) ≡ ok tx
      → Signed hash tx
  signs-Signed tx hash e =
      let (is, i, rest) =
        >>=-eq-ok (ixs sdk b) (λ is. signers sdk b >>= λ ss. build_legacy_tx sdk b.payer is ss hash)
          e in
      let (ss, j, built) =
        >>=-eq-ok (signers sdk b) (λ ss. build_legacy_tx sdk b.payer is ss hash) rest in
      (is, ss, i, ok-keys j, build_ok built)

  -- A transaction that `to_legacy_tx` returns is signed, over the builder's instructions, with a signer
  -- for every required key, and with the builder's hash or else the default; and the builder holds the
  -- payer's signer.
  pub to_legacy_tx-Signed :
      (tx : Transaction)
      → to_legacy_tx sdk b ≡ ok tx
      → Signed (unwrap_or b.recent_blockhash default_hash) tx
        × ((s : Signer) × (find_signer sdk b.payer b.own_signers ≡ some s))
  unfolding to_legacy_tx
  to_legacy_tx-Signed tx e =
      let (held, signed) = guard-ok (has_payer sdk b) _ _ e in
      (signs-Signed tx _ signed, payer-held held)

  -- A transaction that `to_legacy_tx_with_blockhash` returns is signed with the builder's hash if it has
  -- one, and only else with the hash that it is given.
  pub to_legacy_tx_with_blockhash-Signed :
      (tx : Transaction) (hash : Option Bytes)
      → to_legacy_tx_with_blockhash sdk b hash ≡ ok tx
      → Signed (unwrap_or b.recent_blockhash (unwrap_or hash default_hash)) tx
  unfolding to_legacy_tx_with_blockhash
  to_legacy_tx_with_blockhash-Signed tx hash e = signs-Signed tx _ e
