-- ===== src/Transaction/Signers.antt =====
-- The signers that are handed over for the required keys, and the set of signers of a builder.
use switchboard_sdk.Prelude.{
  sym, ◌∙◌, false, panic, refl, ap₂, ◌>>=◌, inr, true, arith, inl, err, Option-cases, ok,
  Bool-cases, none, some, Outcome, ◌≡◌, List, [], ◌∷◌, map,
}
use switchboard_sdk.Prelude.Words.{bytes_eq_iff, bytes_eq_refl, bytes_eq→eq, bytes_eq, Bytes}
use switchboard_sdk.Transaction.{
  required_signers, TransactionBuilder, signers_with_payer, signers, collect_with_payer,
  solana_missing_signer, OnDemandError, find_signer, collect, contains, SolanaSdk,
}

module _ {Signer Transaction Message VersionedTransaction : Type 0}
    (sdk : SolanaSdk Signer Transaction Message VersionedTransaction) where
  open sdk use {pubkey}

  -- What an answer says: the signers stand for the required keys in order, or some required key has
  -- no signer. It does not panic.
  abbrev pub Delivers : (Bytes → Type 0) → List Bytes → Outcome OnDemandError (List Signer) → Type 0
  Delivers missing required (ok ss) = map pubkey ss ≡ required
  Delivers missing required (err e) =
      (e ≡ solana_missing_signer) × ((key : Bytes) × (contains key required ≡ true) × missing key)
  Delivers missing required panic = ⊥

  find_signer-key :
      (key : Bytes) (held : List Signer) {s : Signer}
      → find_signer sdk key held ≡ some s
      → pubkey s ≡ key
  unfolding find_signer
  find_signer-key key [] e = cc
  find_signer-key key (x ∷ held) e = elim (Bool-cases (bytes_eq (pubkey x) key)) [
    | inl hit ↦ ground (arith, bytes_eq→eq (pubkey x) key hit)
    | inr miss ↦ find_signer-key key held (rw miss at e)
  ]

  Delivers-cons :
      (missing : Bytes → Type 0) (key : Bytes) (required : List Bytes) (s : Signer)
      (rest : Outcome OnDemandError (List Signer))
      → pubkey s ≡ key
      → Delivers missing required rest
      → Delivers missing (key ∷ required) (rest >>= λ ss. ok (s ∷ ss))
  unfolding contains
  Delivers-cons missing key required s (ok ss) e d = ap₂ (◌∷◌) e d
  Delivers-cons missing key required s (err x) e (p, (k, c, m)) = (p, (k, ground arith, m))
  Delivers-cons missing key required s panic e d = d

  collect-Delivers :
      (held : List Signer) (required : List Bytes)
      → Delivers (λ key. find_signer sdk key held ≡ none) required (collect sdk held required)
  unfolding collect
  collect-Delivers held [] = refl
  collect-Delivers held (key ∷ required) = elim (Option-cases (find_signer sdk key held)) [
    | inl e ↦ rw e (refl, (key, unfold contains in ground (arith, bytes_eq_refl key), e))
    | inr (s, e) ↦ rw e (
        Delivers-cons (λ key. find_signer sdk key held ≡ none) key required s
          (collect sdk held required) (find_signer-key key held e) (collect-Delivers held required))
  ]

  -- `signers` hands over, in the order of `required_signers`, a signer for each required key; its
  -- only error is a required key of which the builder holds no signer.
  pub signers-Delivers :
      (b : TransactionBuilder Signer)
      → Delivers
          (λ key. find_signer sdk key b.own_signers ≡ none)
          (required_signers sdk b)
          (signers sdk b)
  unfolding signers
  signers-Delivers b = collect-Delivers b.own_signers (required_signers sdk b)

  collect_with_payer-Delivers :
      (payer_signer : Signer) (payer : Bytes) (held : List Signer) (required : List Bytes)
      → pubkey payer_signer ≡ payer
      → Delivers
          (λ key. (bytes_eq key payer ≡ false) × (find_signer sdk key held ≡ none))
          required
          (collect_with_payer sdk payer_signer payer held required)
  unfolding collect_with_payer
  collect_with_payer-Delivers payer_signer payer held [] same = refl
  collect_with_payer-Delivers payer_signer payer held (key ∷ required) same =
      let missing : Bytes → Type 0 =
        λ key. (bytes_eq key payer ≡ false) × (find_signer sdk key held ≡ none) in
      let ih = collect_with_payer-Delivers payer_signer payer held required same in
      let rest = collect_with_payer sdk payer_signer payer held required in
      elim (Bool-cases (bytes_eq key payer)) [
        | inl own ↦ rw own (
            Delivers-cons missing key required payer_signer rest
              (same ∙ sym (bytes_eq→eq key payer own)) ih)
        | inr other ↦ elim (Option-cases (find_signer sdk key held)) [
          | inl e ↦
              rw (other, e)
                (refl, (key, unfold contains in ground (arith, bytes_eq_refl key), (other, e)))
          | inr (s, e) ↦
              rw (other, e)
                (Delivers-cons missing key required s rest (find_signer-key key held e) ih)
        ]
      ]

  -- With the payer's signer at hand, `signers_with_payer` hands over a signer for each required key in
  -- order; its only error is a required key other than the payer's of which the builder holds no signer.
  pub signers_with_payer-Delivers :
      (b : TransactionBuilder Signer) (payer_signer : Signer)
      → pubkey payer_signer ≡ b.payer
      → Delivers
          (λ key. (bytes_eq key b.payer ≡ false) × (find_signer sdk key b.own_signers ≡ none))
          (required_signers sdk b)
          (signers_with_payer sdk b payer_signer)
  unfolding signers_with_payer
  signers_with_payer-Delivers b payer_signer same =
      let hit = (bytes_eq_iff (pubkey payer_signer) b.payer).1 same in
      rw hit (
        collect_with_payer-Delivers payer_signer b.payer b.own_signers (required_signers sdk b)
          same)
