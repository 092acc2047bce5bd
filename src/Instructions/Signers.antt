-- ===== src/Instructions/Signers.antt =====
-- Whose signatures the instructions ask.
use switchboard_sdk.Prelude.{
  ◌≡◌, refl, ap, sym, ◌∙◌, true, false, List, [], ◌∷◌, ◌++◌, map, any, ok, Outcome, >>=-eq-ok,
  ok-injective, if◌then◌else◌, arith, Option, Bool,
}
use switchboard_sdk.Prelude.Words.{Bytes, bytes_eq}
use switchboard_sdk.Error.{OnDemandError}
use switchboard_sdk.Account.{Layout, fetch_zerocopy_account}
use switchboard_sdk.Oracle.{OracleAccountData}
use switchboard_sdk.Queue.{QueueAccountData, prefix}
use switchboard_sdk.Transaction.{AccountMeta, Instruction}
use switchboard_sdk.Transaction.Required.{asks_accounts}
use switchboard_sdk.Submit.{writable, readonly}
use switchboard_sdk.Instructions.Accounts.{
  subsidy_metas, Programs, heartbeat_metas, garbage_collect_metas, permission_set_metas,
  set_configs_metas, quote_verify_metas, randomness_commit_metas, heartbeat_v2_metas,
  pay_subsidy_metas,
}
use switchboard_sdk.Instructions.{
  QueueGarbageCollectArgs, OracleSetConfigsArgs, GuardianQuoteVerifyArgs, fetch_state,
  QueuePaySubsidyArgs, OracleHeartbeatV2Args, garbage_collect_ix, permission_set_ix, set_configs_ix,
  quote_verify_ix, randomness_commit_ix, heartbeat_v2_ix, pay_subsidy_ix, heartbeat_ix, State,
  OracleHeartbeatArgs, heartbeat_accounts, paid_accounts, oracle_subsidy, subsidy_accounts,
}
use switchboard_sdk.Instructions.Params.{SwitchboardPermission}
use switchboard_sdk.LutInstructions.{build_ix}

-- The instruction asks these keys for their signatures, and no other key.
abbrev pub AsksOnly : List Bytes → Instruction → Type 0
AsksOnly keys ix = (key : Bytes) → asks_accounts key ix.accounts ≡ any (λ k. bytes_eq k key) keys

-- The instructions with what they are built of.
pub data Request : Type 0 where
  commits : Bytes → Bytes → Bytes → Bytes → Request
  verifies_quote : GuardianQuoteVerifyArgs → Request
  sets_configs : OracleSetConfigsArgs → Request
  sets_permission : Bytes → Bytes → Bytes → SwitchboardPermission → Bool → Request
  collects_garbage : QueueGarbageCollectArgs → Request
  beats : OracleHeartbeatArgs → Request
  beats_v2 : OracleHeartbeatV2Args → Request
  pays : QueuePaySubsidyArgs → Request

-- Whose signatures each of them needs.
abbrev pub asked_by : Request → List Bytes
asked_by (commits randomness queue oracle authority) = authority ∷ []
asked_by (verifies_quote args) = args.authority ∷ []
asked_by (sets_configs args) = args.authority ∷ []
asked_by (sets_permission granter authority grantee granted enable) = authority ∷ []
asked_by (collects_garbage args) = []
asked_by (beats args) = args.oracle_signer ∷ args.payer ∷ []
asked_by (beats_v2 args) = args.oracle_signer ∷ []
asked_by (pays args) = args.payer ∷ []

asks-append :
    (key : Bytes) (xs ys : List AccountMeta)
    → asks_accounts key (xs ++ ys) ≡ (if asks_accounts key xs then true else asks_accounts key ys)
asks-append key [] ys = refl
asks-append key (x ∷ xs) ys = ground (arith, asks-append key xs ys)

-- Accounts behind that ask no signature.
asks-silent :
    (key : Bytes) (xs ys : List AccountMeta)
    → asks_accounts key ys ≡ false
    → asks_accounts key (xs ++ ys) ≡ asks_accounts key xs
asks-silent key xs ys h = ground (arith, asks-append key xs ys)

readonly-silent :
    (key : Bytes) (ks : List Bytes)
    → asks_accounts key (map (λ (k : Bytes). readonly k false) ks) ≡ false
unfolding readonly
readonly-silent key [] = refl
readonly-silent key (k ∷ ks) = readonly-silent key ks

writable-silent :
    (key : Bytes) (ks : List Bytes)
    → asks_accounts key (map (λ (k : Bytes). writable k false) ks) ≡ false
unfolding writable
writable-silent key [] = refl
writable-silent key (k ∷ ks) = writable-silent key ks

module _ (programs : Programs) where
  paid_accounts-silent :
      (args : OracleHeartbeatArgs) (key : Bytes)
      → asks_accounts key (paid_accounts programs args) ≡ false
  unfolding paid_accounts
  paid_accounts-silent args key =
      asks-silent key (map (λ (ppa : Bytes). readonly ppa false) args.pending_paid_accounts)
        (map (λ (escrow : Bytes). writable escrow false) args.escrows)
        (writable-silent key args.escrows)
      ∙ readonly-silent key args.pending_paid_accounts

  heartbeat-asks :
      (args : OracleHeartbeatArgs) (state : State) (key : Bytes)
      → asks_accounts key (heartbeat_accounts programs args state ++ paid_accounts programs args)
        ≡ any (λ k. bytes_eq k key) (args.oracle_signer ∷ args.payer ∷ [])
  unfolding heartbeat_accounts heartbeat_metas readonly writable
  heartbeat-asks args state key =
      asks-silent key (heartbeat_accounts programs args state) (paid_accounts programs args)
        (paid_accounts-silent args key)

  oracle_subsidy-silent :
      (mint oracle : Bytes) (o : OracleAccountData) (key : Bytes)
      → asks_accounts key (oracle_subsidy programs mint oracle o) ≡ false
  unfolding oracle_subsidy readonly writable
  oracle_subsidy-silent mint oracle o key = ground arith

  module _ (states : Layout State) (oracles : Layout OracleAccountData)
      (queues : Layout QueueAccountData) (node : Bytes → Option Bytes) where
    subsidy_accounts-silent :
        (mint : Bytes) (ks : List Bytes) (metas : List AccountMeta) (key : Bytes)
        → subsidy_accounts programs states oracles queues node mint ks ≡ ok metas
        → asks_accounts key metas ≡ false
    unfolding subsidy_accounts
    subsidy_accounts-silent mint [] metas key h = ap (asks_accounts key) (sym (ok-injective h))
    subsidy_accounts-silent mint (k ∷ ks) metas key h =
        let (o, _, h₁) = >>=-eq-ok (fetch_zerocopy_account oracles (node k)) _ h in
        let (rest, r, h₂) =
          >>=-eq-ok (subsidy_accounts programs states oracles queues node mint ks) _ h₁ in
        ap (asks_accounts key) (sym (ok-injective h₂))
        ∙ asks-silent key (oracle_subsidy programs mint k o) rest
            (subsidy_accounts-silent mint ks rest key r)
        ∙ oracle_subsidy-silent mint k o key

    -- What the instructions that ask the node are built of.
    heartbeat_ix-asks :
        (args : OracleHeartbeatArgs) (ix : Instruction)
        → heartbeat_ix programs states oracles queues node args ≡ ok ix
        → AsksOnly (args.oracle_signer ∷ args.payer ∷ []) ix
    unfolding heartbeat_ix build_ix
    heartbeat_ix-asks args ix run key =
        let (state, _, built) = >>=-eq-ok (fetch_state programs states oracles queues node) _ run in
        ap (λ (x : Instruction). asks_accounts key x.accounts) (sym (ok-injective built))
        ∙ heartbeat-asks args state key

    heartbeat_v2_ix-asks :
        (args : OracleHeartbeatV2Args) (ix : Instruction)
        → heartbeat_v2_ix programs states oracles queues node args ≡ ok ix
        → AsksOnly (args.oracle_signer ∷ []) ix
    unfolding heartbeat_v2_ix build_ix heartbeat_v2_metas readonly writable
    heartbeat_v2_ix-asks args ix run key =
        let (_, _, run₁) = >>=-eq-ok (fetch_state programs states oracles queues node) _ run in
        let (o, _, built) = >>=-eq-ok (fetch_zerocopy_account oracles (node args.oracle)) _ run₁ in
        ap (λ (x : Instruction). asks_accounts key x.accounts) (sym (ok-injective built))

    pay_subsidy_ix-asks :
        (args : QueuePaySubsidyArgs) (ix : Instruction)
        → pay_subsidy_ix programs states oracles queues node args ≡ ok ix
        → AsksOnly (args.payer ∷ []) ix
    unfolding pay_subsidy_ix build_ix pay_subsidy_metas subsidy_metas readonly writable
    pay_subsidy_ix-asks args ix run key =
        let (state, _, run₁) = >>=-eq-ok (fetch_state programs states oracles queues node) _ run in
        let (q, _, run₂) = >>=-eq-ok (fetch_zerocopy_account queues (node args.queue)) _ run₁ in
        let (keys, _, run₃) = >>=-eq-ok (prefix q.all_oracle_keys q.oracle_keys_len) _ run₂ in
        let (rest, r, built) =
          >>=-eq-ok (subsidy_accounts programs states oracles queues node state.switch_mint keys) _
            run₃ in
        ap (λ (x : Instruction). asks_accounts key x.accounts) (sym (ok-injective built))
        ∙ asks-silent key
            (subsidy_metas programs (record {
              queue = args.queue;
              vault = args.vault;
              switch_mint = state.switch_mint;
              remaining_accounts = rest;
              payer = args.payer;
            }))
            rest (subsidy_accounts-silent state.switch_mint keys rest key r)

    -- `build_ix` of any of the eight instructions.
    unfoldable pub built_by : Request → Outcome OnDemandError Instruction
    built_by (commits randomness queue oracle authority) =
        ok (randomness_commit_ix programs randomness queue oracle authority)
    built_by (verifies_quote args) = ok (quote_verify_ix programs args)
    built_by (sets_configs args) = ok (set_configs_ix programs args)
    built_by (sets_permission granter authority grantee granted enable) =
        ok (permission_set_ix programs granter authority grantee granted enable)
    built_by (collects_garbage args) = ok (garbage_collect_ix programs args)
    built_by (beats args) = heartbeat_ix programs states oracles queues node args
    built_by (beats_v2 args) = heartbeat_v2_ix programs states oracles queues node args
    built_by (pays args) = pay_subsidy_ix programs states oracles queues node args

    -- An instruction that is built asks these keys for their signatures and no other key: to commit
    -- randomness, to verify a quote, to set an oracle's keys or a permission, the authority; to collect
    -- garbage, none; a heartbeat the oracle's signer and the payer, one of the second version the
    -- oracle's signer alone; and to pay subsidies the payer.
    pub instructions-AskOnly :
        (request : Request) (ix : Instruction)
        → built_by request ≡ ok ix
        → AsksOnly (asked_by request) ix
    unfolding built_by build_ix randomness_commit_ix quote_verify_ix set_configs_ix
        permission_set_ix garbage_collect_ix randomness_commit_metas quote_verify_metas
        set_configs_metas permission_set_metas garbage_collect_metas readonly writable
    instructions-AskOnly (commits randomness queue oracle authority) ix e key =
        ap (λ (x : Instruction). asks_accounts key x.accounts) (sym (ok-injective e))
    instructions-AskOnly (verifies_quote args) ix e key =
        ap (λ (x : Instruction). asks_accounts key x.accounts) (sym (ok-injective e))
    instructions-AskOnly (sets_configs args) ix e key =
        ap (λ (x : Instruction). asks_accounts key x.accounts) (sym (ok-injective e))
    instructions-AskOnly (sets_permission granter authority grantee granted enable) ix e key =
        ap (λ (x : Instruction). asks_accounts key x.accounts) (sym (ok-injective e))
    instructions-AskOnly (collects_garbage args) ix e key =
        ap (λ (x : Instruction). asks_accounts key x.accounts) (sym (ok-injective e))
    instructions-AskOnly (beats args) ix e key = heartbeat_ix-asks args ix e key
    instructions-AskOnly (beats_v2 args) ix e key = heartbeat_v2_ix-asks args ix e key
    instructions-AskOnly (pays args) ix e key = pay_subsidy_ix-asks args ix e key
