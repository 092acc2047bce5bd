-- ===== src/Oracle.antt =====
-- on_demand/accounts/oracle.rs and on_demand/types.rs of the on-demand crate: the verification status
-- of an oracle's enclave, its heartbeat and what others read from its account. Keys and URIs are byte
-- strings; padding and reserved fields are left out.
pub mod Status
pub mod Liveness
pub mod Uri
pub mod Examples
use switchboard_sdk.Prelude.{
  suc, length, ◌/◌, ◌>>=◌, ◌^◌, panic, ℕ, Bool, true, false, Option, none, some, List, [], ◌∷◌,
  if◌then◌else◌, ◌==◌, take_while, replicate, not, Outcome, ok, err, ok_or,
}
use switchboard_sdk.Prelude.Int.{negate, wrap_i64, negsuc, ℤ, pos, ltb_ℤ, ◌-ℤ◌, fits_signed}
use switchboard_sdk.Prelude.Words.{Bytes, bytes_eq}
use switchboard_sdk.Error.{OnDemandError, invalid_quote, network_error}
use switchboard_sdk.Feed.{Clock}
use switchboard_sdk.Account.{Layout, parse}

pub data VerificationStatus : Type 0 where
  unverified verification_pending verification_failure verification_success verification_override :
      VerificationStatus

-- `From<VerificationStatus> for u8`
unfoldable pub status_to_u8 : VerificationStatus → ℕ
status_to_u8 verification_pending = 2 ^ 0
status_to_u8 verification_failure = 2 ^ 1
status_to_u8 verification_success = 2 ^ 2
status_to_u8 verification_override = 2 ^ 3
status_to_u8 unverified = 0

-- `From<u8> for VerificationStatus`
unfoldable pub status_from_u8 : ℕ → VerificationStatus
status_from_u8 value =
    if value == 1
    then verification_pending
    else if value == 2
    then verification_failure
    else if value == 4
    then verification_success
    else if value == 8
    then verification_override
    else unverified

pub record Quote : Type 0 where
  pub enclave_signer : Bytes
  pub mr_enclave : Bytes
  pub verification_status : ℕ
  pub verification_timestamp : ℤ
  pub valid_until : ℤ
  pub quote_registry : Bytes
  pub registry_key : Bytes
  pub secp256k1_signer : Bytes
  pub last_ed25519_signer : Bytes
  pub last_secp256k1_signer : Bytes
  pub last_rotate_slot : ℕ
  pub guardian_approvers : List Bytes
  pub guardian_approvers_len : ℕ

pub record OracleAccountData : Type 0 where
  pub enclave : Quote
  pub authority : Bytes
  pub queue : Bytes
  pub created_at : ℤ
  pub last_heartbeat : ℤ
  pub secp_authority : Bytes
  pub gateway_uri : Bytes
  pub permissions : ℕ
  pub is_on_queue : ℕ
  pub lut_slot : ℕ
  pub last_reward_epoch : ℕ
  pub operator : Bytes

-- `Quote::is_verified`
unfoldable pub quote_is_verified : Quote → Clock → Bool
quote_is_verified quote clock = elim (status_from_u8 quote.verification_status) [
  | verification_override ↦ true
  | verification_success ↦ ltb_ℤ clock.unix_timestamp quote.valid_until
  | unverified ↦ false
  | verification_pending ↦ false
  | verification_failure ↦ false
]

-- `OracleAccountData::is_verified` repeats the test.
unfoldable pub is_verified : OracleAccountData → Clock → Bool
is_verified oracle clock = elim (status_from_u8 oracle.enclave.verification_status) [
  | verification_override ↦ true
  | verification_success ↦ ltb_ℤ clock.unix_timestamp oracle.enclave.valid_until
  | unverified ↦ false
  | verification_pending ↦ false
  | verification_failure ↦ false
]

unfoldable pub verify : OracleAccountData → Clock → Outcome OnDemandError (Unit {0})
verify oracle clock = if not (is_verified oracle clock) then err invalid_quote else ok tt

pub signer : OracleAccountData → Bytes
signer oracle = oracle.enclave.enclave_signer

-- `a - b` on i64: out of range it panics with overflow checks, and wraps without them.
unfoldable pub sub_i64 : {E : Type 0} → Bool → ℤ → ℤ → Outcome E ℤ
sub_i64 checks a b =
    let d = a -ℤ b in if fits_signed 63 d then ok d else if checks then panic else ok (wrap_i64 d)

-- Division by 60 truncates toward zero.
unfoldable pub minutes_of : ℤ → ℤ
minutes_of (pos n) = pos (n / 60)
minutes_of (negsuc n) = negate (suc n / 60)

unfoldable pub is_stale : Bool → OracleAccountData → Clock → Outcome OnDemandError Bool
is_stale checks oracle clock = do
  age ← sub_i64 checks clock.unix_timestamp oracle.last_heartbeat
  ok (ltb_ℤ (pos 30) (minutes_of age))

-- The text up to the first zero byte. The account's bytes are read as UTF-8, with a replacement for
-- what is not: `lossy` is `String::from_utf8_lossy`, with texts as their UTF-8 bytes.
unfoldable pub gateway_uri : (Bytes → Bytes) → OracleAccountData → Option Bytes
gateway_uri lossy oracle =
    let uri = take_while (λ c. not (c == 0)) (lossy oracle.gateway_uri) in
    if length uri == 0 then none else some uri

unfoldable pub ed25519_signer : OracleAccountData → Option Bytes
ed25519_signer oracle =
    let key = oracle.enclave.enclave_signer in
    if bytes_eq key (replicate 32 0) then none else some key

unfoldable pub secp_authority : OracleAccountData → Option Bytes
secp_authority oracle =
    let key = oracle.secp_authority in if bytes_eq key (replicate 64 0) then none else some key

unfoldable pub secp256k1_signer : OracleAccountData → Option Bytes
secp256k1_signer oracle =
    let key = oracle.enclave.secp256k1_signer in
    if bytes_eq key (replicate 64 0) then none else some key

-- `PublicKey::parse` of libsecp256k1 is an argument; it reads the 65 bytes behind the tag.
unfoldable pub libsecp256k1_signer :
    {PublicKey : Type 0} → (Bytes → Option PublicKey) → OracleAccountData → Option PublicKey
libsecp256k1_signer parse_key oracle = elim (secp256k1_signer oracle) [
  | none ↦ none
  | some bytes ↦ if length (4 ∷ bytes) == 65 then parse_key (4 ∷ bytes) else none
]

module _ (layout : Layout OracleAccountData) where
  -- The chain of iterators in `fetch_many`: a missing account, and one that `new_from_bytes`
  -- refuses, is skipped; a panic of the cast is one of the whole.
  unfoldable pub decode_found : List (Option Bytes) → Outcome OnDemandError (List OracleAccountData)
  decode_found [] = ok []
  decode_found (none ∷ accounts) = decode_found accounts
  decode_found (some bytes ∷ accounts) =
      let rest = decode_found accounts in
      elim (parse layout bytes) [
        | ok oracle ↦ rest >>= λ oracles. ok (oracle ∷ oracles)
        | err e ↦ rest
        | panic ↦ panic
      ]

  unfoldable pub fetch_many :
      Option (List (Option Bytes)) → Outcome OnDemandError (List OracleAccountData)
  fetch_many answer = do accounts ← ok_or answer network_error; decode_found accounts
