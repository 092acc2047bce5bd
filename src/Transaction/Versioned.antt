-- ===== src/Transaction/Versioned.antt =====
-- The versioned transactions: what was compiled and signed, and when the code panics.
use switchboard_sdk.Prelude.{
  ◌++◌, ltb, refl, ◌==◌, unwrap-eq-panic, inr, length, >>=-eq-panic, err, ◌↔◌, Option-cases, inl,
  if-NoPanic, NoPanic, panic, ◌⊎◌, >>=-eq-ok, ◌>>=◌, guard-ok, unwrap, unwrap-eq-ok, unwrap_or,
  subst, ◌≡◌, List, some, none, ok, Option, map, Outcome,
}
use switchboard_sdk.Prelude.Words.{Bytes, bytes_eq, bytes_eq→eq}
use switchboard_sdk.Error.{OnDemandError}
use switchboard_sdk.Transaction.{
  pre_ixs, required_signers, ixs, Instruction, signers, signers_with_payer, build_v0_tx, to_v0_tx,
  to_v0_tx_with_payer, SolanaSdk, TransactionBuilder,
}
use switchboard_sdk.Transaction.Signers.{signers-Delivers, signers_with_payer-Delivers, Delivers}

module _ {Signer Transaction Message VersionedTransaction : Type 0}
    (sdk : SolanaSdk Signer Transaction Message VersionedTransaction)
    (b : TransactionBuilder Signer) where
  open sdk use {pubkey, default_hash, try_compile, try_new}

  abbrev hash : Bytes
  hash = unwrap_or b.recent_blockhash default_hash

  -- The transaction is a message of the builder's instructions for its payer, over its tables and this
  -- hash, with a signer for every required key in order.
  abbrev pub SignedV0 : VersionedTransaction → Type 0
  SignedV0 tx =
      (is : List Instruction) × (ss : List Signer) × (message : Message) × (ixs sdk b ≡ ok is)
      × (map pubkey ss ≡ required_signers sdk b)
      × (try_compile b.payer is b.address_lookup_tables hash ≡ some message)
      × (try_new message ss ≡ some tx)

  -- With these signers, the instructions do not compile, or the message cannot be signed.
  abbrev pub Fails : List Instruction → List Signer → Type 0
  Fails is ss =
      (try_compile b.payer is b.address_lookup_tables hash ≡ none)
      ⊎ ((message : Message) × (try_compile b.payer is b.address_lookup_tables hash ≡ some message)
          × (try_new message ss ≡ none))

  -- The chain of the code from the instructions to the signature, with any choice of signers.
  chain-SignedV0 :
      (chosen : Outcome OnDemandError (List Signer)) (tx : VersionedTransaction)
      → ((ss : List Signer) → chosen ≡ ok ss → map pubkey ss ≡ required_signers sdk b)
      → (ixs sdk b >>= λ is.
          chosen >>= λ ss. build_v0_tx sdk b.payer is ss b.address_lookup_tables hash)
        ≡ ok tx
      → SignedV0 tx
  unfolding build_v0_tx
  chain-SignedV0 chosen tx keys e =
      let (is, i, e₁) = >>=-eq-ok (ixs sdk b) _ e in
      let (ss, j, e₂) = >>=-eq-ok chosen _ e₁ in
      let (message, m, e₃) =
        >>=-eq-ok (unwrap (try_compile b.payer is b.address_lookup_tables hash)) _ e₂ in
      (
        is,
        ss,
        message,
        i,
        keys ss j,
        unwrap-eq-ok (try_compile b.payer is b.address_lookup_tables hash) m,
        unwrap-eq-ok (try_new message ss) e₃,
      )

  -- `to_v0_tx`, or with the signer of a payer `to_v0_tx_with_payer`.
  unfoldable pub v0_tx_by : Option Signer → Outcome OnDemandError VersionedTransaction
  v0_tx_by none = to_v0_tx sdk b
  v0_tx_by (some payer) = to_v0_tx_with_payer sdk b payer

  abbrev pub OwnPayer : Option Signer → Type 0
  OwnPayer none = Unit {0}
  OwnPayer (some payer) = pubkey payer ≡ b.payer

  -- A transaction that `to_v0_tx` returns, or `to_v0_tx_with_payer` for the signer of a payer, is a message
  -- of the builder's instructions for its payer, over its tables and its hash or else the default, with a
  -- signer for every required key in order; and where a payer's signer is handed over, it has the key of the
  -- builder's payer.
  pub to_v0_txs-SignedV0 :
      (by : Option Signer) (tx : VersionedTransaction)
      → v0_tx_by by ≡ ok tx
      → SignedV0 tx × OwnPayer by
  unfolding v0_tx_by to_v0_tx to_v0_tx_with_payer
  to_v0_txs-SignedV0 none tx e = (
    chain-SignedV0 (signers sdk b) tx
        (λ ss j. subst (Delivers sdk _ (required_signers sdk b)) j (signers-Delivers sdk b)) e,
    tt,
  )
  to_v0_txs-SignedV0 (some payer) tx e =
      let (own, signed) = guard-ok (bytes_eq (pubkey payer) b.payer) _ _ e in
      let same = bytes_eq→eq (pubkey payer) b.payer own in
      (
        chain-SignedV0 (signers_with_payer sdk b payer) tx
            (λ ss j.
              subst (Delivers sdk _ (required_signers sdk b)) j
                (signers_with_payer-Delivers sdk b payer same))
            signed,
        same,
      )

  ixs-NoPanic : NoPanic (ixs sdk b)
  unfolding ixs
  ixs-NoPanic =
      if-NoPanic (length b.own_ixs == 0) _ _ tt
        (if-NoPanic (ltb 10 (length (pre_ixs sdk b ++ b.own_ixs))) _ _ tt tt)

  Delivers-NoPanic :
      (missing : Bytes → Type 0) (required : List Bytes) (o : Outcome OnDemandError (List Signer))
      → Delivers sdk missing required o
      → NoPanic o
  Delivers-NoPanic missing required (ok ss) d = tt
  Delivers-NoPanic missing required (err e) d = tt
  Delivers-NoPanic missing required panic d = d

  build_v0_tx-Fails :
      (is : List Instruction) (ss : List Signer)
      → build_v0_tx sdk b.payer is ss b.address_lookup_tables hash ≡ panic
      → Fails is ss
  unfolding build_v0_tx
  build_v0_tx-Fails is ss e =
      elim (Option-cases (try_compile b.payer is b.address_lookup_tables hash)) [
        | inl none_ ↦ inl none_
        | inr (message, m) ↦ inr (message, m, unwrap-eq-panic (try_new message ss) (rw m at e))
      ]

  Fails-build_v0_tx :
      (is : List Instruction) (ss : List Signer)
      → Fails is ss
      → build_v0_tx sdk b.payer is ss b.address_lookup_tables hash ≡ panic
  unfolding build_v0_tx
  Fails-build_v0_tx is ss (inl none_) = rw none_ refl
  Fails-build_v0_tx is ss (inr (message, m, n)) = rw (m, n) refl

  -- `to_v0_tx` panics exactly when the builder has instructions and a signer for every required key, and
  -- the message does not compile or is not signed.
  pub to_v0_tx_panics_iff : (to_v0_tx sdk b ≡ panic) ↔ (
      (is : List Instruction) × (ss : List Signer) × (ixs sdk b ≡ ok is)
      × (signers sdk b ≡ ok ss)
      × Fails is ss)
  unfolding to_v0_tx
  to_v0_tx_panics_iff = (
    λ e.
        let (is, i, e₁) = >>=-eq-panic (ixs sdk b) _ ixs-NoPanic e in
        let (ss, j, e₂) =
          >>=-eq-panic (signers sdk b) _
            (Delivers-NoPanic _ _ (signers sdk b) (signers-Delivers sdk b)) e₁ in
        (is, ss, i, j, build_v0_tx-Fails is ss e₂),
    λ (is, ss, i, j, fails). rw (i, j) (Fails-build_v0_tx is ss fails),
  )
