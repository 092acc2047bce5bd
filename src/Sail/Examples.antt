-- ===== src/Sail/Examples.antt =====
-- A machine whose service answers with one key, and the theorems about reports and keys on it.
use switchboard_sdk.Prelude.{◌≡◌, ◌↔◌, refl, ℕ, true, Option, none, some, ◌++◌, ok, replicate}
use switchboard_sdk.Prelude.Words.{Bytes}
use switchboard_sdk.Sail.{
  Machine, verify, sail_policy, Answer, request_derived_key, keep, get_derived_key,
  get_enclave_ed25519_keypair, get_enclave_secp256k1_keypair,
}
use switchboard_sdk.Sail.Reports.{verify_report_iff}
use switchboard_sdk.Sail.Once.{enclave_keys-stay}

-- A machine whose service has this key.
abbrev machine_of : Option Answer → Machine ℕ ℕ
machine_of answer = record {
  verify_report = λ report policy. true;
  report_data = λ report. replicate 64 0;
  sha256 = λ m. replicate 32 1;
  hex_encode = λ b. b;
  get = λ url. answer;
  trim_is_empty = λ b. true;
  evidence = λ b. none;
  serialize_report = λ j. none;
  from_reader = λ b. none;
  keypair_from_seed = λ key. some (key ++ key);
  secret_from_seed = λ seed. seed;
}

abbrev small_machine : Machine ℕ ℕ
small_machine = machine_of (some (record { is_success = true; body = some (replicate 32 5) }))

verify_report_iff_example :
    (verify small_machine 7 none ≡ ok tt)
    ↔ ((small_machine.verify_report 7 sail_policy ≡ true) × (◌≡◌ {A = Option Bytes} none none))
verify_report_iff_example = verify_report_iff small_machine (λ r. refl) (λ m. refl) 7 none

first_key :
    (get_enclave_ed25519_keypair small_machine none).0 ≡ ok (replicate 32 5 ++ replicate 32 5)
unfolding get_enclave_ed25519_keypair get_derived_key keep request_derived_key
first_key = refl

enclave_keys-stay_example :
    (key : Bytes) × (small_machine.keypair_from_seed key ≡ some (replicate 32 5 ++ replicate 32 5))
    × (get_enclave_ed25519_keypair
          (machine_of none)
          (get_enclave_ed25519_keypair small_machine none).1
        ≡ (ok (replicate 32 5 ++ replicate 32 5), some key))
    × (get_enclave_secp256k1_keypair
          (machine_of none)
          (get_enclave_ed25519_keypair small_machine none).1
        ≡ (ok (replicate 32 1), some key))
enclave_keys-stay_example =
    enclave_keys-stay small_machine (machine_of none) none (replicate 32 5 ++ replicate 32 5) refl
      first_key
