-- ===== src/Transaction/Examples.antt =====
-- A builder whose signers are their public keys, and the theorems about builders on it.
use switchboard_sdk.Prelude.Words.{bytes_eq, Bytes}
use switchboard_sdk.Transaction.{
  to_v0_tx, to_v0_tx_with_payer, build_v0_tx, collect_with_payer, has_signer, build_legacy_tx,
  has_payer, signers_with_payer, collect, signers, to_legacy_tx, pre_ixs, require_accounts,
  contains, require_ixs, ixs, required_signers, to_legacy_tx_with_blockhash, find_signer, SolanaSdk,
  TransactionBuilder, Instruction, AccountMeta,
}
use switchboard_sdk.Prelude.{
  panic, ◌↔◌, Option, ◌∷◌, List, true, ℕ, refl, ok, some, false, none, [], ◌≡◌,
}
use switchboard_sdk.Transaction.LookupTables.{
  fetch_multiple_address_lookup_accounts, tables_of, add_address_lookup_tables,
}
use switchboard_sdk.Transaction.LookupTables.Tables.{AddsAll, add_address_lookup_tables-AddsAll}
use switchboard_sdk.Transaction.Legacy.{
  to_legacy_tx_with_blockhash-Signed, to_legacy_tx-Signed, Signed,
}
use switchboard_sdk.Transaction.Versioned.{
  to_v0_txs-SignedV0, to_v0_tx_panics_iff, SignedV0, Fails, v0_tx_by,
}
use switchboard_sdk.Transaction.Required.{required_signers-exact, asks, Distinct}
use switchboard_sdk.Transaction.Signers.{signers_with_payer-Delivers, signers-Delivers, Delivers}
use switchboard_sdk.Transaction.Instructions.{ixs-Answers, Answers}

-- An instruction, a transaction and a message that say what they were made of.
abbrev budget_ix : ℕ → ℕ → Instruction
budget_ix tag n = record { program_id = 3 ∷ []; accounts = []; input = tag ∷ n ∷ [] }

abbrev example_sdk : SolanaSdk Bytes (List Bytes × Bytes) (List Instruction) (List Bytes)
example_sdk = record {
  pubkey = λ s. s;
  set_compute_unit_limit = budget_ix 2;
  set_compute_unit_price = budget_ix 3;
  default_hash = 0 ∷ [];
  sign_legacy = λ payer is ss hash. some (ss, hash);
  try_compile = λ payer is luts hash. some is;
  try_new = λ message ss. some ss;
}

abbrev signed_by : Bytes → AccountMeta
signed_by key = record { pubkey = key; is_signer = true; is_writable = true }

abbrev example_builder : TransactionBuilder Bytes
example_builder = record {
  payer = 1 ∷ [];
  own_ixs =
      record {
        program_id = 9 ∷ [];
        accounts = signed_by (1 ∷ []) ∷ signed_by (2 ∷ []) ∷ signed_by (1 ∷ []) ∷ [];
        input = [];
      }
      ∷ [];
  compute_units = some 5;
  priority_fees = some 20_000;
  recent_blockhash = some (7 ∷ []);
  min_context_slot = none;
  address_lookup_tables = [];
  own_signers = (2 ∷ []) ∷ (1 ∷ []) ∷ [];
}

abbrev RunsTheBuilder : Type 0
RunsTheBuilder =
    (required_signers example_sdk example_builder ≡ (1 ∷ []) ∷ (2 ∷ []) ∷ [])
    × (to_legacy_tx example_sdk example_builder ≡ ok ((1 ∷ []) ∷ (2 ∷ []) ∷ [], 7 ∷ []))

builder_runs : RunsTheBuilder
unfolding required_signers require_ixs require_accounts contains bytes_eq to_legacy_tx has_payer
    has_signer ixs pre_ixs signers collect find_signer build_legacy_tx
builder_runs = (refl, refl)

required_signers-exact_example :
    Distinct (required_signers example_sdk example_builder)
    × ((key : Bytes)
        → contains key (required_signers example_sdk example_builder)
          ≡ asks key example_builder.own_ixs)
required_signers-exact_example = required_signers-exact example_sdk example_builder

signers-Delivers_example :
    Delivers example_sdk
      (λ key. find_signer example_sdk key example_builder.own_signers ≡ none)
      (required_signers example_sdk example_builder)
      (signers example_sdk example_builder)
signers-Delivers_example = signers-Delivers example_sdk example_builder

signers_with_payer-Delivers_example :
    Delivers example_sdk
      (λ key.
        (bytes_eq key (1 ∷ []) ≡ false)
        × (find_signer example_sdk key example_builder.own_signers ≡ none))
      (required_signers example_sdk example_builder)
      (signers_with_payer example_sdk example_builder (1 ∷ []))
signers_with_payer-Delivers_example =
    signers_with_payer-Delivers example_sdk example_builder (1 ∷ []) refl

ixs-Answers_example : Answers example_sdk example_builder (ixs example_sdk example_builder)
ixs-Answers_example = ixs-Answers example_sdk example_builder

to_legacy_tx-Signed_example :
    Signed example_sdk example_builder (7 ∷ []) ((1 ∷ []) ∷ (2 ∷ []) ∷ [], 7 ∷ [])
    × ((s : Bytes) × (find_signer example_sdk (1 ∷ []) example_builder.own_signers ≡ some s))
to_legacy_tx-Signed_example =
    to_legacy_tx-Signed example_sdk example_builder ((1 ∷ []) ∷ (2 ∷ []) ∷ [], 7 ∷ [])
      builder_runs.1

with_blockhash_run :
    to_legacy_tx_with_blockhash example_sdk example_builder (some (8 ∷ []))
    ≡ ok ((1 ∷ []) ∷ (2 ∷ []) ∷ [], 7 ∷ [])
unfolding to_legacy_tx_with_blockhash required_signers require_ixs require_accounts contains
    bytes_eq ixs pre_ixs signers collect find_signer build_legacy_tx
with_blockhash_run = refl

to_legacy_tx_with_blockhash-Signed_example :
    Signed example_sdk example_builder (7 ∷ []) ((1 ∷ []) ∷ (2 ∷ []) ∷ [], 7 ∷ [])
to_legacy_tx_with_blockhash-Signed_example =
    to_legacy_tx_with_blockhash-Signed example_sdk example_builder
      ((1 ∷ []) ∷ (2 ∷ []) ∷ [], 7 ∷ []) (some (8 ∷ [])) with_blockhash_run

-- Accounts that hold one address each, and the account of the second key missing.
abbrev one_address : Bytes → Option (List Bytes)
one_address bytes = some (bytes ∷ [])

two_tables_run :
    fetch_multiple_address_lookup_accounts one_address
      (some (some (5 ∷ []) ∷ some (6 ∷ []) ∷ []))
      ((1 ∷ []) ∷ (2 ∷ []) ∷ [])
    ≡ ok (
        record { key = 1 ∷ []; addresses = (5 ∷ []) ∷ [] }
        ∷ record { key = 2 ∷ []; addresses = (6 ∷ []) ∷ [] }
        ∷ [])
unfolding fetch_multiple_address_lookup_accounts tables_of
two_tables_run = refl

add_address_lookup_tables-AddsAll_example :
    AddsAll one_address example_sdk example_builder
      ((1 ∷ []) ∷ (2 ∷ []) ∷ [])
      (some (5 ∷ []) ∷ none ∷ [])
      (add_address_lookup_tables one_address example_sdk example_builder
        (some (some (5 ∷ []) ∷ none ∷ []))
        ((1 ∷ []) ∷ (2 ∷ []) ∷ []))
add_address_lookup_tables-AddsAll_example =
    add_address_lookup_tables-AddsAll one_address example_sdk example_builder
      ((1 ∷ []) ∷ (2 ∷ []) ∷ []) (some (5 ∷ []) ∷ none ∷ []) refl

v0_runs :
    (to_v0_tx example_sdk example_builder ≡ ok ((1 ∷ []) ∷ (2 ∷ []) ∷ []))
    × (to_v0_tx_with_payer example_sdk example_builder (1 ∷ []) ≡ ok ((1 ∷ []) ∷ (2 ∷ []) ∷ []))
unfolding to_v0_tx to_v0_tx_with_payer build_v0_tx signers_with_payer collect_with_payer
    required_signers require_ixs require_accounts contains bytes_eq ixs pre_ixs signers collect
    find_signer
v0_runs = (refl, refl)

to_v0_txs-SignedV0_example :
    SignedV0 example_sdk example_builder ((1 ∷ []) ∷ (2 ∷ []) ∷ [])
    × ◌≡◌ {A = Bytes} (1 ∷ []) (1 ∷ [])
to_v0_txs-SignedV0_example =
    to_v0_txs-SignedV0 example_sdk example_builder (some (1 ∷ [])) ((1 ∷ []) ∷ (2 ∷ []) ∷ [])
      (unfold v0_tx_by in v0_runs.1)

-- An SDK that compiles nothing.
abbrev failing_sdk : SolanaSdk Bytes (List Bytes × Bytes) (List Instruction) (List Bytes)
failing_sdk = record example_sdk { try_compile = λ payer is luts hash. none }

v0_panics : to_v0_tx failing_sdk example_builder ≡ panic
unfolding to_v0_tx build_v0_tx required_signers require_ixs require_accounts contains bytes_eq ixs
    pre_ixs signers collect find_signer
v0_panics = refl

to_v0_tx_panics_iff_example : (to_v0_tx failing_sdk example_builder ≡ panic) ↔ (
    (is : List Instruction) × (ss : List Bytes) × (ixs failing_sdk example_builder ≡ ok is)
    × (signers failing_sdk example_builder ≡ ok ss)
    × Fails failing_sdk example_builder is ss)
to_v0_tx_panics_iff_example = to_v0_tx_panics_iff failing_sdk example_builder
