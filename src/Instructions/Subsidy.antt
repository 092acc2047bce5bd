-- ===== src/Instructions/Subsidy.antt =====
-- Who is paid by the instruction that pays the subsidies of a queue, and which tables are fetched for it.
use mathlib.Core.List.{Mem, mem-cons_self, mem-cons_of_mem, mem-append_right}
use switchboard_sdk.Prelude.{
  ◌≡◌, refl, ap, sym, subst, ◌⊎◌, inl, inr, true, false, List, [], ◌∷◌, ◌++◌, ok, >>=-eq-ok,
  ok-injective, Bool-cases, Option, All, All-mono, replicate, Outcome,
}
use switchboard_sdk.Prelude.Words.{Bytes, bytes_eq}
use switchboard_sdk.Error.{OnDemandError}
use switchboard_sdk.Account.{Layout, fetch_zerocopy_account}
use switchboard_sdk.Oracle.{OracleAccountData}
use switchboard_sdk.Queue.{QueueAccountData, prefix}
use switchboard_sdk.Transaction.{AccountMeta, Instruction}
use switchboard_sdk.Submit.{writable, readonly}
use switchboard_sdk.LutInstructions.{build_ix}
use switchboard_sdk.Instructions.Accounts.{Programs, stats_key, pay_subsidy_metas, subsidy_metas}
use switchboard_sdk.Instructions.{
  State, QueuePaySubsidyArgs, oracle_subsidy, fetch_state, subsidy_accounts, pay_subsidy_ix,
}

All-append : {A : Type 0} (P : A → Type 0) (xs ys : List A) → All P xs → All P ys → All P (xs ++ ys)
All-append P [] ys p q = q
All-append P (x ∷ xs) ys p q = (p.0, All-append P xs ys p.1 q)

module _ (programs : Programs) (states : Layout State) (oracles : Layout OracleAccountData)
    (queues : Layout QueueAccountData) (node : Bytes → Option Bytes) (mint : Bytes) where
  open programs use {get_associated_token_address}

  abbrev pub HasOperator : OracleAccountData → Type 0
  HasOperator o = bytes_eq o.operator (replicate 32 0) ≡ false

  -- The oracle is loaded; it and its statistics are written, and with an operator the operator's wallet
  -- for the mint, beside the operator.
  abbrev pub Paid : List AccountMeta → Bytes → Type 0
  Paid metas key =
      (o : OracleAccountData) × (fetch_zerocopy_account oracles (node key) ≡ ok o)
      × Mem (writable key false) metas
      × Mem (writable (stats_key programs key) false) metas
      × ((bytes_eq o.operator (replicate 32 0) ≡ true)
          ⊎ (HasOperator o
              × Mem (readonly o.operator false) metas
              × Mem (writable (get_associated_token_address o.operator mint) false) metas))

  -- The account is of one of these oracles.
  abbrev pub OfOracle : List Bytes → AccountMeta → Type 0
  OfOracle keys a =
      (key : Bytes) × (o : OracleAccountData) × Mem key keys
      × (fetch_zerocopy_account oracles (node key) ≡ ok o)
      × ((a ≡ writable key false)
          ⊎ ((a ≡ writable (stats_key programs key) false)
              ⊎ (HasOperator o
                  × ((a ≡ readonly o.operator false)
                      ⊎ (a ≡ writable (get_associated_token_address o.operator mint) false)))))

  Paid-here :
      (key : Bytes) (o : OracleAccountData) (rest : List AccountMeta)
      → fetch_zerocopy_account oracles (node key) ≡ ok o
      → Paid (oracle_subsidy programs mint key o ++ rest) key
  unfolding oracle_subsidy
  Paid-here key o rest f = elim (Bool-cases (bytes_eq o.operator (replicate 32 0))) [
    | inl no_operator ↦
        (o, f, mem-cons_self, mem-cons_of_mem (writable key false) mem-cons_self, inl no_operator)
    | inr operator ↦ (
      o,
      f,
      mem-cons_self,
      mem-cons_of_mem (writable key false) mem-cons_self,
      inr (
        operator,
        rw operator (
            mem-cons_of_mem (writable key false)
              (mem-cons_of_mem (writable (stats_key programs key) false) mem-cons_self)),
        rw operator (
            mem-cons_of_mem (writable key false) (
              mem-cons_of_mem (writable (stats_key programs key) false)
                (mem-cons_of_mem (readonly o.operator false) mem-cons_self))),
      ),
    )
  ]

  Paid-behind :
      (front rest : List AccountMeta) (key : Bytes) → Paid rest key → Paid (front ++ rest) key
  Paid-behind front rest key (o, f, a, b, inl none_) =
      (o, f, mem-append_right front a, mem-append_right front b, inl none_)
  Paid-behind front rest key (o, f, a, b, inr (has, c, d)) = (
    o,
    f,
    mem-append_right front a,
    mem-append_right front b,
    inr (has, mem-append_right front c, mem-append_right front d),
  )

  OfOracle-here :
      (keys : List Bytes) (key : Bytes) (o : OracleAccountData)
      → fetch_zerocopy_account oracles (node key) ≡ ok o
      → All (OfOracle (key ∷ keys)) (oracle_subsidy programs mint key o)
  unfolding oracle_subsidy
  OfOracle-here keys key o f = elim (Bool-cases (bytes_eq o.operator (replicate 32 0))) [
    | inl no_operator ↦ (
      (key, o, mem-cons_self, f, inl refl),
      ((key, o, mem-cons_self, f, inr (inl refl)), rw no_operator tt),
    )
    | inr operator ↦ (
      (key, o, mem-cons_self, f, inl refl),
      (
        (key, o, mem-cons_self, f, inr (inl refl)),
        rw operator (
          (key, o, mem-cons_self, f, inr (inr (operator, inl refl))),
          ((key, o, mem-cons_self, f, inr (inr (operator, inr refl))), tt),
        ),
      ),
    )
  ]

  OfOracle-more :
      (keys : List Bytes) (key : Bytes) (a : AccountMeta)
      → OfOracle keys a
      → OfOracle (key ∷ keys) a
  OfOracle-more keys key a (k, o, m, f, which) = (k, o, mem-cons_of_mem key m, f, which)

  subsidy_accounts-Pays :
      (keys : List Bytes) (metas : List AccountMeta)
      → subsidy_accounts programs states oracles queues node mint keys ≡ ok metas
      → All (Paid metas) keys × All (OfOracle keys) metas
  unfolding subsidy_accounts
  subsidy_accounts-Pays [] metas h = (tt, subst (All (OfOracle [])) (ok-injective h) tt)
  subsidy_accounts-Pays (k ∷ ks) metas h =
      let (o, f, h₁) = >>=-eq-ok (fetch_zerocopy_account oracles (node k)) _ h in
      let (rest, r, h₂) =
        >>=-eq-ok (subsidy_accounts programs states oracles queues node mint ks) _ h₁ in
      let own : List AccountMeta = oracle_subsidy programs mint k o in
      let (paid, of) = subsidy_accounts-Pays ks rest r in
      subst (λ (m : List AccountMeta). All (Paid m) (k ∷ ks) × All (OfOracle (k ∷ ks)) m)
        (ok-injective h₂)
        (
          (Paid-here k o rest f, All-mono (Paid-behind own rest) ks paid),
          All-append (OfOracle (k ∷ ks)) own rest (OfOracle-here ks k o f)
              (All-mono (OfOracle-more ks k) rest of),
        )

-- An instruction that pays the subsidies of a queue is built for the state and the queue that the node has.
-- Behind its twelve accounts stand, for each of the queue's oracles, the oracle and its statistics, and
-- for each oracle with an operator also the operator and, to be written, its wallet for the mint of the
-- state; and every account there is one of these.
pub pay_subsidy_ix-Pays :
    (programs : Programs) (states : Layout State) (oracles : Layout OracleAccountData)
    (queues : Layout QueueAccountData) (node : Bytes → Option Bytes) (args : QueuePaySubsidyArgs)
    (ix : Instruction)
    → pay_subsidy_ix programs states oracles queues node args ≡ ok ix
    → (state : State) × (q : QueueAccountData) × (keys : List Bytes) × (rest : List AccountMeta)
      × (fetch_state programs states oracles queues node ≡ ok state)
      × (fetch_zerocopy_account queues (node args.queue) ≡ ok q)
      × (◌≡◌ {A = Outcome OnDemandError (List Bytes)}
          (prefix q.all_oracle_keys q.oracle_keys_len)
          (ok keys))
      × (ix.accounts
          ≡ subsidy_metas programs (record {
            queue = args.queue;
            vault = args.vault;
            switch_mint = state.switch_mint;
            remaining_accounts = rest;
            payer = args.payer;
          })
            ++ rest)
      × All (Paid programs states oracles queues node state.switch_mint rest) keys
      × All (OfOracle programs states oracles queues node state.switch_mint keys) rest
unfolding pay_subsidy_ix build_ix pay_subsidy_metas
pay_subsidy_ix-Pays programs states oracles queues node args ix run =
    let (state, s, run₁) = >>=-eq-ok (fetch_state programs states oracles queues node) _ run in
    let (q, g, run₂) = >>=-eq-ok (fetch_zerocopy_account queues (node args.queue)) _ run₁ in
    let (keys, k, run₃) = >>=-eq-ok (prefix q.all_oracle_keys q.oracle_keys_len) _ run₂ in
    let (rest, r, built) =
      >>=-eq-ok (subsidy_accounts programs states oracles queues node state.switch_mint keys) _
        run₃ in
    let (paid, of) =
      subsidy_accounts-Pays programs states oracles queues node state.switch_mint keys rest r in
    (
      state,
      q,
      keys,
      rest,
      s,
      g,
      k,
      ap (λ (x : Instruction). x.accounts) (sym (ok-injective built)),
      paid,
      of,
    )
