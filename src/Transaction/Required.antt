-- ===== src/Transaction/Required.antt =====
-- The keys that the instructions ask signatures of.
use switchboard_sdk.Prelude.{
  ◌∙◌, ◌≡◌, ◌⊎◌, inl, inr, refl, ap, List, [], ◌∷◌, ◌++◌, Bool, true, false, not, ◌&&◌, arith,
  if◌then◌else◌, any, Bool-cases,
}
use switchboard_sdk.Prelude.Words.{Bytes, bytes_eq, bytes_eq→eq}
use switchboard_sdk.Transaction.{
  required_signers, TransactionBuilder, SolanaSdk, AccountMeta, Instruction, contains,
  require_accounts, require_ixs,
}

-- Some account asks for a signature by the key.
abbrev pub asks_accounts : Bytes → List AccountMeta → Bool
asks_accounts key = any (λ a. a.is_signer && bytes_eq a.pubkey key)

abbrev pub asks : Bytes → List Instruction → Bool
asks key = any (λ ix. asks_accounts key ix.accounts)

pub contains-append :
    (k x : Bytes) (xs : List Bytes)
    → contains k (xs ++ x ∷ []) ≡ (if contains k xs then true else bytes_eq x k)
unfolding contains
contains-append k x [] = ground arith
contains-append k x (y ∷ xs) = ground (arith, contains-append k x xs)

-- No key twice.
abbrev pub Distinct : List Bytes → Type 0
Distinct [] = Unit {0}
Distinct (x ∷ xs) = (contains x xs ≡ false) × Distinct xs

pub bytes_eq_symm : (a b : Bytes) → bytes_eq a b ≡ bytes_eq b a
unfolding bytes_eq
bytes_eq_symm [] [] = refl
bytes_eq_symm [] (y ∷ ys) = refl
bytes_eq_symm (x ∷ xs) [] = refl
bytes_eq_symm (x ∷ xs) (y ∷ ys) = ground (arith, bytes_eq_symm xs ys)

pub Distinct-append :
    (x : Bytes) (xs : List Bytes) → contains x xs ≡ false → Distinct xs → Distinct (xs ++ x ∷ [])
unfolding contains
Distinct-append x [] h d = (refl, tt)
Distinct-append x (y ∷ xs) h d =
    ground (arith, Distinct-append x xs, contains-append y x xs, bytes_eq_symm x y)

contains_congr :
    (a b : Bytes) (xs : List Bytes) → bytes_eq a b ≡ true → contains a xs ≡ contains b xs
contains_congr a b xs h = ap (λ k. contains k xs) (bytes_eq→eq a b h)

require_accounts-contains :
    (key : Bytes) (accounts : List AccountMeta) (required : List Bytes)
    → contains key (require_accounts accounts required)
      ≡ (if contains key required then true else asks_accounts key accounts)
unfolding require_accounts
require_accounts-contains key [] required = ground arith
require_accounts-contains key (a ∷ accounts) required = ground (
  arith,
  require_accounts-contains key accounts (
      if a.is_signer && not (contains a.pubkey required)
      then required ++ a.pubkey ∷ []
      else required),
  contains-append key a.pubkey required,
  contains_congr a.pubkey key required,
)

require_accounts-Distinct :
    (accounts : List AccountMeta) (required : List Bytes)
    → Distinct required
    → Distinct (require_accounts accounts required)
unfolding require_accounts
require_accounts-Distinct [] required d = d
require_accounts-Distinct (a ∷ accounts) required d =
    require_accounts-Distinct accounts _
      (next (Bool-cases (a.is_signer && not (contains a.pubkey required))))
  where
    next :
        ((a.is_signer && not (contains a.pubkey required)) ≡ true)
          ⊎ ((a.is_signer && not (contains a.pubkey required)) ≡ false)
        → Distinct (
            if a.is_signer && not (contains a.pubkey required)
            then required ++ a.pubkey ∷ []
            else required)
    next (inl h) = rw h (Distinct-append a.pubkey required (ground arith) d)
    next (inr h) = rw h d

require_ixs-contains :
    (key : Bytes) (ixs : List Instruction) (required : List Bytes)
    → contains key (require_ixs ixs required)
      ≡ (if contains key required then true else asks key ixs)
unfolding require_ixs
require_ixs-contains key [] required = ground arith
require_ixs-contains key (ix ∷ ixs) required = ground (
  arith,
  require_ixs-contains key ixs (require_accounts ix.accounts required),
  require_accounts-contains key ix.accounts required,
)

require_ixs-Distinct :
    (ixs : List Instruction) (required : List Bytes)
    → Distinct required
    → Distinct (require_ixs ixs required)
unfolding require_ixs
require_ixs-Distinct [] required d = d
require_ixs-Distinct (ix ∷ ixs) required d =
    require_ixs-Distinct ixs (require_accounts ix.accounts required)
      (require_accounts-Distinct ix.accounts required d)

module _ {Signer Transaction Message VersionedTransaction : Type 0}
    (sdk : SolanaSdk Signer Transaction Message VersionedTransaction)
    (b : TransactionBuilder Signer) where
  -- `required_signers` lists exactly the keys of which some account of some instruction asks a
  -- signature, and each once.
  pub required_signers-exact :
      Distinct (required_signers sdk b)
      × ((key : Bytes) → contains key (required_signers sdk b) ≡ asks key b.own_ixs)
  unfolding required_signers
  required_signers-exact = (
    require_ixs-Distinct b.own_ixs [] tt,
    λ key. require_ixs-contains key b.own_ixs [] ∙ unfold contains in refl,
  )
