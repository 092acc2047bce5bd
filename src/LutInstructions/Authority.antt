-- ===== src/LutInstructions/Authority.antt =====
-- Whose signature the instructions on an oracle's lookup table ask, and which table they name.
use switchboard_sdk.Prelude.{
  subst, ap₂, inr, ◌∙◌, inl, Bool-cases, sym, ◌≡◌, refl, ap, Option, some, ok, get_elem?, true,
  false, >>=-eq-ok, ok-injective, ℕ,
}
use switchboard_sdk.Prelude.Words.{Bytes, bytes_eq}
use switchboard_sdk.Account.{Layout, fetch_zerocopy_account}
use switchboard_sdk.Oracle.{OracleAccountData}
use switchboard_sdk.Queue.{QueueAccountData}
use switchboard_sdk.Transaction.{Instruction}
use switchboard_sdk.Transaction.Required.{asks_accounts}
use switchboard_sdk.Submit.{writable, readonly}
use switchboard_sdk.LutInstructions.{
  reset_data, find_lut_signer, sync_data, pid, Chain, OracleSyncLutArgs, OracleResetLutArgs,
  sync_lut_ix, reset_lut_ix, sync_metas, reset_metas, sync_accounts, reset_accounts, build_ix,
}

-- The instruction asks the oracle's authority for its signature, and no other key.
abbrev pub AsksAuthority : OracleAccountData → Instruction → Type 0
AsksAuthority oracle ix =
    (key : Bytes) → asks_accounts key ix.accounts ≡ bytes_eq oracle.authority key

module _ (chain : Chain) where
  -- The address of the table of an oracle.
  abbrev table_of : Bytes → ℕ → Bytes
  table_of oracle slot = chain.derive_lookup_table_address (find_lut_signer chain oracle) slot

  sync_asks :
      (args : OracleSyncLutArgs) (o : OracleAccountData) (q : QueueAccountData) (key : Bytes)
      → asks_accounts key (sync_metas chain (sync_accounts chain args o q))
        ≡ bytes_eq o.authority key
  unfolding sync_metas sync_accounts writable readonly
  sync_asks args o q key = elim (Bool-cases (bytes_eq o.authority key)) [
    | inl is ↦ rw is refl
    | inr other ↦ rw other refl
  ]

  reset_asks :
      (args : OracleResetLutArgs) (o : OracleAccountData) (key : Bytes)
      → asks_accounts key (reset_metas chain (reset_accounts chain args o))
        ≡ bytes_eq o.authority key
  unfolding reset_metas reset_accounts writable readonly
  reset_asks args o key = elim (Bool-cases (bytes_eq o.authority key)) [
    | inl is ↦ rw is refl
    | inr other ↦ rw other refl
  ]

  module _ (oracles : Layout OracleAccountData) (queues : Layout QueueAccountData)
      (node : Bytes → Option Bytes) where
    sync_lut_ix-Built :
        (args : OracleSyncLutArgs) (ix : Instruction)
        → sync_lut_ix chain oracles queues node args ≡ ok ix
        → (o : OracleAccountData) × (q : QueueAccountData) × (fetch_zerocopy_account oracles
              (node args.oracle)
            ≡ ok o)
          × (build_ix (pid chain) (sync_metas chain (sync_accounts chain args o q)) sync_data ≡ ix)
    unfolding sync_lut_ix
    sync_lut_ix-Built args ix run =
        let (o, read, rest) = >>=-eq-ok (fetch_zerocopy_account oracles (node args.oracle)) _ run in
        let (q, _, built) = >>=-eq-ok (fetch_zerocopy_account queues (node o.queue)) _ rest in
        (o, q, read, ok-injective built)

    reset_lut_ix-Built :
        (args : OracleResetLutArgs) (ix : Instruction)
        → reset_lut_ix chain oracles queues node args ≡ ok ix
        → (o : OracleAccountData) × (fetch_zerocopy_account oracles (node args.oracle) ≡ ok o)
          × (build_ix
                (pid chain)
                (reset_metas chain (reset_accounts chain args o))
                (reset_data args.recent_slot)
              ≡ ix)
    unfolding reset_lut_ix
    reset_lut_ix-Built args ix run =
        let (o, read, built) =
          >>=-eq-ok (fetch_zerocopy_account oracles (node args.oracle)) _ run in
        (o, read, ok-injective built)

    -- An instruction that syncs the lookup table of an oracle asks the oracle's authority for its
    -- signature and no other key, as does one that resets it, whatever payers the arguments name: the
    -- payer is the authority, which the reset does not mark as a signer. At one slot both name the same
    -- table.
    pub lut_instructions-AskAuthority :
        (sync_args : OracleSyncLutArgs) (reset_args : OracleResetLutArgs) (sync reset : Instruction)
        → sync_args.oracle ≡ reset_args.oracle
        → sync_args.lut_slot ≡ reset_args.recent_slot
        → sync_lut_ix chain oracles queues node sync_args ≡ ok sync
        → reset_lut_ix chain oracles queues node reset_args ≡ ok reset
        → (o : OracleAccountData) × (fetch_zerocopy_account oracles (node reset_args.oracle) ≡ ok o)
          × AsksAuthority o sync
          × AsksAuthority o reset
          × (get_elem? sync.accounts 13 ≡ some (writable o.authority true))
          × (get_elem? reset.accounts 2 ≡ some (writable o.authority false))
          × (get_elem? sync.accounts 11 ≡ get_elem? reset.accounts 6)
    unfolding sync_metas reset_metas sync_accounts reset_accounts build_ix
    lut_instructions-AskAuthority sync_args reset_args sync reset same slot sync_run reset_run =
        let (o, q, read, s) = sync_lut_ix-Built sync_args sync sync_run in
        let (o', read', r) = reset_lut_ix-Built reset_args reset reset_run in
        let one : o ≡ o' =
          ok-injective
            (sym read ∙ ap (λ k. fetch_zerocopy_account oracles (node k)) same ∙ read') in
        let table : table_of sync_args.oracle sync_args.lut_slot
            ≡ table_of reset_args.oracle reset_args.recent_slot =
          ap₂ table_of same slot in
        (
          o,
          read' ∙ ap ok (sym one),
          subst (AsksAuthority o) s (sync_asks sync_args o q),
          subst (AsksAuthority o) r
              (λ key. reset_asks reset_args o' key ∙ ap (λ x. bytes_eq x.authority key) (sym one)),
          ap (λ ix. get_elem? ix.accounts 13) (sym s),
          ap (λ ix. get_elem? ix.accounts 2) (sym r)
              ∙ ap (λ x. some (writable x.authority false)) (sym one),
          ap (λ ix. get_elem? ix.accounts 11) (sym s)
              ∙ ap (λ k. some (writable k false)) table
              ∙ ap (λ ix. get_elem? ix.accounts 6) r,
        )
