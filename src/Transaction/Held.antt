-- ===== src/Transaction/Held.antt =====
-- The signers that a builder holds.
use switchboard_sdk.Prelude.{
  true, Bool, Option, some, if◌then◌else◌, refl, Bool-cases, inr, false, none, inl, Option-cases,
  ap, ◌≡◌, List, [], ◌∷◌, ◌++◌, map,
}
use switchboard_sdk.Transaction.{
  bytes_eq, contains, Bytes, add_signers, TransactionBuilder, find_signer, add_signer, SolanaSdk,
}
use switchboard_sdk.Transaction.Required.{Distinct-append, Distinct}
use switchboard_sdk.Prelude.Words.{bytes_eq→eq}

module _ {Signer Transaction Message VersionedTransaction : Type 0}
    (sdk : SolanaSdk Signer Transaction Message VersionedTransaction) where
  open sdk use {pubkey}

  abbrev pub HoldsDistinct : TransactionBuilder Signer → Type 0
  HoldsDistinct b = Distinct (map pubkey b.own_signers)

  find_signer-none :
      (key : Bytes) (held : List Signer)
      → find_signer sdk key held ≡ none
      → contains key (map pubkey held) ≡ false
  unfolding find_signer contains
  find_signer-none key [] e = refl
  find_signer-none key (x ∷ held) e = elim (Bool-cases (bytes_eq (pubkey x) key)) [
    | inl hit ↦ cc (rw hit at e)
    | inr miss ↦ rw miss (find_signer-none key held (rw miss at e))
  ]

  -- The signer that was found, or else the new one, if the key is its own.
  abbrev pub or_new : Option Signer → Bool → Signer → Option Signer
  or_new (some t) same s = some t
  or_new none same s = if same then some s else none

  find_signer-append :
      (key : Bytes) (held : List Signer) (s : Signer)
      → find_signer sdk key (held ++ s ∷ [])
        ≡ or_new (find_signer sdk key held) (bytes_eq (pubkey s) key) s
  unfolding find_signer
  find_signer-append key [] s = refl
  find_signer-append key (x ∷ held) s = elim (Bool-cases (bytes_eq (pubkey x) key)) [
    | inl hit ↦ rw hit
    | inr miss ↦ rw miss (find_signer-append key held s)
  ]

  or_new-held :
      (o : Option Signer) (same : Bool) (s t : Signer)
      → (same ≡ true → o ≡ some t)
      → o ≡ or_new o same s
  or_new-held (some t') same s t h = refl
  or_new-held none true s t h = cc (h refl)
  or_new-held none false s t h = refl

  keys-append :
      (held : List Signer) (s : Signer)
      → map pubkey (held ++ s ∷ []) ≡ map pubkey held ++ pubkey s ∷ []
  keys-append [] s = refl
  keys-append (x ∷ held) s = ap (◌∷◌ (pubkey x)) (keys-append held s)

  -- `add_signer` keeps one signer for a key.
  add_signer-Distinct :
      (b : TransactionBuilder Signer) (s : Signer)
      → HoldsDistinct b
      → HoldsDistinct (add_signer sdk b s)
  unfolding add_signer
  add_signer-Distinct b s d = elim (Option-cases (find_signer sdk (pubkey s) b.own_signers)) [
    | inl e ↦
        rw (e, add_signer, keys-append b.own_signers s)
          (Distinct-append (pubkey s) (map pubkey b.own_signers)
            (find_signer-none (pubkey s) b.own_signers e) d)
    | inr (t, e) ↦ rw (e, add_signer) d
  ]

  -- Adding signers, one or many, keeps a builder free of two signers with one key.
  pub add_signers-Distinct :
      (b : TransactionBuilder Signer) (ss : List Signer)
      → HoldsDistinct b
      → HoldsDistinct (add_signers sdk b ss)
  unfolding add_signers
  add_signers-Distinct b [] d = d
  add_signers-Distinct b (s ∷ ss) d =
      add_signers-Distinct (add_signer sdk b s) ss (add_signer-Distinct b s d)

  -- After `add_signer` every key finds the signer that it found before, and the new signer's key, if
  -- it found none, the new signer.
  pub find_signer-add_signer :
      (b : TransactionBuilder Signer) (s : Signer) (key : Bytes)
      → find_signer sdk key (add_signer sdk b s).own_signers
        ≡ or_new (find_signer sdk key b.own_signers) (bytes_eq (pubkey s) key) s
  unfolding add_signer
  find_signer-add_signer b s key = elim (Option-cases (find_signer sdk (pubkey s) b.own_signers)) [
    | inl e ↦ rw (e, add_signer) (find_signer-append key b.own_signers s)
    | inr (t, e) ↦
        rw (e, add_signer)
          (or_new-held (find_signer sdk key b.own_signers) (bytes_eq (pubkey s) key) s t
            (λ h. rw (bytes_eq→eq (pubkey s) key h) at e))
  ]
