-- ===== src/Keys/Examples.antt =====
-- Keys of a secret and a base, and the theorems about keys and transactions on them.
use switchboard_sdk.Prelude.{none, replicate, [], List, ◌∷◌, some, refl}
use switchboard_sdk.Transaction.{Instruction, SolanaSdk}
use switchboard_sdk.Prelude.Words.{Bytes}
use switchboard_sdk.Keys.Seeds.{KeyInput, IsKeyInput}

abbrev example_input : KeyInput
example_input = record {
  base = 98 ∷ 97 ∷ [];
  secret_key = replicate 32 3;
  more_bytes = some (1 ∷ []);
  program_id = none;
}

abbrev default_id : Bytes
default_id = replicate 32 8

-- The default program, written out.
abbrev same_input : KeyInput
same_input = record example_input { program_id = some default_id }

IsKeyInput-example_input : IsKeyInput default_id example_input
IsKeyInput-example_input = record { secret_key = refl; program = refl }

IsKeyInput-same_input : IsKeyInput default_id same_input
IsKeyInput-same_input = record { secret_key = refl; program = refl }

-- An SDK that signs what it compiled, with the instructions as the message.
abbrev small_sdk : SolanaSdk Bytes Bytes (List Instruction) (List Instruction)
small_sdk = record {
  pubkey = λ s. s;
  set_compute_unit_limit = λ n. record { program_id = 1 ∷ []; accounts = []; input = n ∷ [] };
  set_compute_unit_price = λ n. record { program_id = 2 ∷ []; accounts = []; input = n ∷ [] };
  default_hash = [];
  sign_legacy = λ payer is ss hash. none;
  try_compile = λ payer is luts hash. some is;
  try_new = λ message ss. some message;
}
