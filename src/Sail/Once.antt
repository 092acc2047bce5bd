-- ===== src/Sail/Once.antt =====
-- The keys of an enclave over the calls of one process.
use switchboard_sdk.Prelude.{
  ◌≡◌, refl, ap, ◌∙◌, Option, none, some, Outcome, ok, err, panic, >>=-eq-ok, ok-injective,
  ok_or-eq-ok,
}
use switchboard_sdk.Prelude.Words.{Bytes}
use switchboard_sdk.Sail.{
  Machine, SailError, keypair_failed, request_derived_key, keep, get_derived_key,
  get_enclave_ed25519_keypair, get_enclave_secp256k1_keypair,
}

keep-ok :
    {Report Json : Type 0} (machine : Machine Report Json) (o : Outcome SailError Bytes)
    (key : Bytes)
    → (keep machine o).0 ≡ ok key
    → (keep machine o).1 ≡ some key
unfolding keep
keep-ok machine (ok k) key h = ap some (ok-injective h)
keep-ok machine (err e) key h = cc
keep-ok machine panic key h = cc

get_derived_key-keeps :
    {Report Json : Type 0} (machine : Machine Report Json) (s : Option Bytes) (key : Bytes)
    → (get_derived_key machine s).0 ≡ ok key
    → (get_derived_key machine s).1 ≡ some key
unfolding get_derived_key
get_derived_key-keeps machine none key h = keep-ok machine (request_derived_key machine) key h
get_derived_key-keeps machine (some k) key h = ap some (ok-injective h)

-- Once a process has made its ed25519 keypair, whatever the machine's service answers later, the keypair
-- is made again the same, and the secp256k1 key is that of the hash of the same derived key.
pub enclave_keys-stay :
    {Report Json : Type 0} (machine later : Machine Report Json) (s : Option Bytes)
    (keypair : Bytes)
    → later.keypair_from_seed ≡ machine.keypair_from_seed
    → (get_enclave_ed25519_keypair machine s).0 ≡ ok keypair
    → (key : Bytes) × (machine.keypair_from_seed key ≡ some keypair)
      × (get_enclave_ed25519_keypair later (get_enclave_ed25519_keypair machine s).1
          ≡ (ok keypair, some key))
      × (get_enclave_secp256k1_keypair later (get_enclave_ed25519_keypair machine s).1
          ≡ (ok (later.secret_from_seed (later.sha256 key)), some key))
unfolding get_enclave_ed25519_keypair get_enclave_secp256k1_keypair get_derived_key
enclave_keys-stay machine later s keypair same h =
    let (key, read, made) = >>=-eq-ok (get_derived_key machine s).0 _ h in
    let pair = ok_or-eq-ok (machine.keypair_from_seed key) keypair_failed made in
    let kept = get_derived_key-keeps machine s key read in
    let again : later.keypair_from_seed key ≡ some keypair =
      ap (λ (f : Bytes → Option Bytes). f key) same ∙ pair in
    (key, pair, rw (kept, again) refl, rw kept refl)
