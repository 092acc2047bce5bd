-- ===== src/Gateways/Fetched.antt =====
-- The pairs of keys and oracles that `fetch_oracle_accounts` returns.
use switchboard_sdk.Prelude.{
  ok-injective, subst, ◌+◌, ℕ, ◌≡◌, ◌≤◌, refl, ap, ◌↔◌, Option, none, some, List, [], ◌∷◌, take,
  drop, length, ok, ltb, arith, zip, ◌==◌, >>=-eq-ok, ap₂, sym, unwrap-eq-ok, true, false,
  Bool-cases, inl, inr,
}
use switchboard_sdk.Prelude.Words.{Bytes}
use switchboard_sdk.Queue.{prefix}
use switchboard_sdk.Gateways.{
  ClientOracle, ClientQueue, queue_keys, read_account, read_accounts, fetch_oracle_accounts,
}

module _ (size : ℕ) (cast : Bytes → Option ClientOracle) where
  -- There is an account, of the right size, and it reads as the oracle.
  abbrev pub Holds : Option Bytes → ClientOracle → Type 0
  Holds none oracle = ⊥
  Holds (some bytes) oracle = (length bytes ≡ size + 8) × (cast (drop 8 bytes) ≡ some oracle)

  -- Each pair has the key of its place and the oracle that the account of that place holds.
  abbrev pub PairsOf : List Bytes → List (Option Bytes) → List (Bytes × ClientOracle) → Type 0
  PairsOf [] [] [] = Unit {0}
  PairsOf (k ∷ ks) (a ∷ as_) (p ∷ ps) = (p.0 ≡ k) × Holds a p.1 × PairsOf ks as_ ps
  PairsOf [] [] (p ∷ ps) = ⊥
  PairsOf [] (a ∷ as_) ps = ⊥
  PairsOf (k ∷ ks) [] ps = ⊥
  PairsOf (k ∷ ks) (a ∷ as_) [] = ⊥

  read_account_iff :
      (a : Option Bytes) (o : ClientOracle) → (read_account size cast a ≡ ok o) ↔ Holds a o
  unfolding read_account
  read_account_iff none o = (λ h. cc, λ h. absurd h)
  read_account_iff (some bytes) o = (
    λ h. elim (Bool-cases (ltb (length bytes) 8)) [
      | inl short ↦ cc (rw short at h)
      | inr long ↦ elim (Bool-cases (length bytes == size + 8)) [
        | inr other ↦ cc (rw (long, other) at h)
        | inl same ↦ (ground arith, unwrap-eq-ok (cast (drop 8 bytes)) (rw (long, same) at h))
      ]
    ],
    λ h.
        let long : ltb (length bytes) 8 ≡ false = ground arith in
        let same : (length bytes == size + 8) ≡ true = ground arith in rw (long, same, h.1) refl,
  )

  read_accounts→PairsOf :
      (ks : List Bytes) (accounts : List (Option Bytes)) (os : List ClientOracle)
      → length accounts ≡ length ks
      → read_accounts size cast accounts ≡ ok os
      → PairsOf ks accounts (zip ks os)
  unfolding read_accounts
  read_accounts→PairsOf [] [] os e h = tt
  read_accounts→PairsOf [] (a ∷ as_) os e h = absurd (omega arith)
  read_accounts→PairsOf (k ∷ ks) [] os e h = absurd (omega arith)
  read_accounts→PairsOf (k ∷ ks) (a ∷ as_) os e h =
      let (o, read, rest) = >>=-eq-ok (read_account size cast a) _ h in
      let (others, run, all) = >>=-eq-ok (read_accounts size cast as_) _ rest in
      let cons : os ≡ o ∷ others = sym (ok-injective all) in
      rw cons
        (refl, (read_account_iff a o).0 read, read_accounts→PairsOf ks as_ others (omega arith) run)

  PairsOf→read_accounts :
      (ks : List Bytes) (accounts : List (Option Bytes)) (pairs : List (Bytes × ClientOracle))
      → PairsOf ks accounts pairs
      → (os : List ClientOracle) × (read_accounts size cast accounts ≡ ok os) × (zip ks os ≡ pairs)
  unfolding read_accounts
  PairsOf→read_accounts [] [] [] h = ([], refl, refl)
  PairsOf→read_accounts [] [] (p ∷ ps) h = absurd h
  PairsOf→read_accounts [] (a ∷ as_) ps h = absurd h
  PairsOf→read_accounts (k ∷ ks) [] ps h = absurd h
  PairsOf→read_accounts (k ∷ ks) (a ∷ as_) [] h = absurd h
  PairsOf→read_accounts (k ∷ ks) (a ∷ as_) (p ∷ ps) h =
      let (os, run, z) = PairsOf→read_accounts ks as_ ps h.2 in
      (
        p.1 ∷ os,
        rw ((read_account_iff a p.1).1 h.1, run) refl,
        ap₂ (λ x xs. x ∷ xs) (ap (λ y. (y, p.1)) (sym h.0)) z,
      )

  -- When the array has `oracle_keys_len` keys and the node answers one account or none for each of
  -- them, `fetch_oracle_accounts` returns a list exactly when every account is there, has the size
  -- and can be cast, and then each pair of it is a key with the oracle of its own account.
  pub fetch_oracle_accounts_iff :
      (queue : ClientQueue) (answer : List Bytes → Option (List (Option Bytes)))
      (accounts : List (Option Bytes)) (pairs : List (Bytes × ClientOracle))
      → queue.oracle_keys_len ≤ length queue.all_oracle_keys
      → answer (take queue.oracle_keys_len queue.all_oracle_keys) ≡ some accounts
      → length accounts ≡ length (take queue.oracle_keys_len queue.all_oracle_keys)
      → (fetch_oracle_accounts size cast queue answer ≡ ok pairs)
        ↔ PairsOf (take queue.oracle_keys_len queue.all_oracle_keys) accounts pairs
  unfolding fetch_oracle_accounts queue_keys prefix
  fetch_oracle_accounts_iff queue answer accounts pairs sized a e =
      let keys = take queue.oracle_keys_len queue.all_oracle_keys in
      let long : ltb (length queue.all_oracle_keys) queue.oracle_keys_len ≡ false = ground arith in
      (
        λ h.
            let (os, run, z) = >>=-eq-ok (read_accounts size cast accounts) _ (rw (long, a) at h) in
            let same : zip keys os ≡ pairs = ok-injective z in
            subst (PairsOf keys accounts) same (read_accounts→PairsOf keys accounts os e run),
        λ h.
            let (os, run, z) = PairsOf→read_accounts keys accounts pairs h in
            rw (long, a, run, z) refl,
      )
