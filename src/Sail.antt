-- ===== src/Sail.antt =====
-- sail/sail-sdk of the repository: the attestation reports of a confidential machine and their check
-- (src/amd_sev_snp_attestation), and the keys that are derived from the machine's (src/keys). The machine's
-- service, the checks of the device, and the hashes, codecs and curves are parameters; logs are left out.
pub mod Reports
pub mod Once
mod Examples
use switchboard_sdk.Prelude.{
  Bool, true, false, not, Option, none, some, List, [], ◌∷◌, ◌++◌, length, ◌==◌, if◌then◌else◌,
  Outcome, ok, err, panic, ok_or, ◌>>=◌,
}
use switchboard_sdk.Prelude.Words.{Bytes, bytes_eq}
use switchboard_sdk.Prelude.Exec.{Exec}

pub data SailError : Type 0 where
  report_rejected hash_mismatch request_failed bad_status text_failed empty_response : SailError
  not_json no_report report_malformed serialize_failed parse_failed : SailError
  wrong_length keypair_failed : SailError

pub record Policy : Type 0 where
  pub require_no_debug : Bool
  pub require_no_ma : Bool
  pub require_no_smt : Bool
  pub require_id_key : Bool
  pub require_author_key : Bool

-- An answer of the service: whether its status is a success, and its body, if it can be read.
pub record Answer : Type 0 where
  pub is_success : Bool
  pub body : Option Bytes

-- What the machine and the libraries bring. `evidence` is the field attestation_report of a JSON text, if
-- the text is JSON, and in it none for null.
pub record Machine (Report Json : Type 0) : Type 0 where
  pub verify_report : Report → Policy → Bool
  pub report_data : Report → Bytes
  pub sha256 : Bytes → Bytes
  pub hex_encode : Bytes → Bytes
  pub get : Bytes → Option Answer
  pub trim_is_empty : Bytes → Bool
  pub evidence : Bytes → Option (Option Json)
  pub serialize_report : Json → Option (Option Bytes)
  pub from_reader : Bytes → Option Report
  pub keypair_from_seed : Bytes → Option Bytes
  pub secret_from_seed : Bytes → Bytes

-- The policy of `verify`.
unfoldable pub sail_policy : Policy
sail_policy = record {
  require_no_debug = true;
  require_no_ma = true;
  require_no_smt = false;
  require_id_key = false;
  require_author_key = false;
}

-- COCO_ATTEST_URL, "/aa/evidence?runtime_data=" and DEFAULT_DK_URL
abbrev pub coco_attest_url : Bytes
coco_attest_url =
    104 ∷ 116 ∷ 116 ∷ 112 ∷ 58 ∷ 47 ∷ 47 ∷ 49 ∷ 50 ∷ 55 ∷ 46 ∷ 48 ∷ 46 ∷ 48 ∷ 46 ∷ 49 ∷ 58 ∷ 56 ∷ 48
    ∷ 48 ∷ 54 ∷ []

abbrev pub evidence_path : Bytes
evidence_path =
    47 ∷ 97 ∷ 97 ∷ 47 ∷ 101 ∷ 118 ∷ 105 ∷ 100 ∷ 101 ∷ 110 ∷ 99 ∷ 101 ∷ 63 ∷ 114 ∷ 117 ∷ 110 ∷ 116
    ∷ 105 ∷ 109 ∷ 101 ∷ 95 ∷ 100 ∷ 97 ∷ 116 ∷ 97 ∷ 61 ∷ []

abbrev pub default_dk_url : Bytes
default_dk_url =
    104 ∷ 116 ∷ 116 ∷ 112 ∷ 58 ∷ 47 ∷ 47 ∷ 49 ∷ 50 ∷ 55 ∷ 46 ∷ 48 ∷ 46 ∷ 48 ∷ 46 ∷ 49 ∷ 58 ∷ 56 ∷ 48
    ∷ 48 ∷ 54 ∷ 47 ∷ 97 ∷ 97 ∷ 47 ∷ 100 ∷ 101 ∷ 114 ∷ 105 ∷ 118 ∷ 101 ∷ 100 ∷ 95 ∷ 107 ∷ 101 ∷ 121
    ∷ []

module _ {Report Json : Type 0} (machine : Machine Report Json) where
  open machine use {
    verify_report, report_data, sha256, hex_encode, get, trim_is_empty, evidence, serialize_report,
    from_reader, keypair_from_seed, secret_from_seed,
  }

  unfoldable pub verify : Report → Option Bytes → Outcome SailError (Unit {0})
  unfolding sail_policy
  verify report message =
      if verify_report report sail_policy
      then elim message [
        | none ↦ ok tt
        | some msg ↦
            if not (bytes_eq (report_data report) (sha256 msg)) then err hash_mismatch else ok tt
      ]
      else err report_rejected

  -- A failure's text is read for the error.
  unfoldable pub attest_base_no_hash : Bytes → Outcome SailError Bytes
  attest_base_no_hash msg = do
    response ← ok_or (get (coco_attest_url ++ (evidence_path ++ msg))) request_failed
    report_text ← ok_or response.body text_failed
    if not response.is_success
        then err bad_status
        else if trim_is_empty report_text
        then err empty_response
        else (do
          report ← ok_or (evidence report_text) not_json
          attestation_report ← ok_or report no_report
          serialized ← ok_or (serialize_report attestation_report) report_malformed
          ok_or serialized serialize_failed)

  unfoldable pub attest_base : Bytes → Outcome SailError Bytes
  unfolding attest_base_no_hash
  attest_base message = attest_base_no_hash (hex_encode (sha256 message))

  unfoldable pub attest : Bytes → Outcome SailError Report
  unfolding attest_base
  attest message = do serialized ← attest_base message; ok_or (from_reader serialized) parse_failed

  -- The body of `get_derived_key`.
  unfoldable pub request_derived_key : Outcome SailError Bytes
  request_derived_key = do
    response ← ok_or (get default_dk_url) request_failed
    if not response.is_success then err bad_status else (do
      derived_key ← ok_or response.body text_failed
      if length derived_key == 0
          then err empty_response
          else if length derived_key == 32
          then ok derived_key
          else err wrong_length)

  -- `once`: the first key that is read is kept for the process, a failure is not.
  unfoldable pub keep : Outcome SailError Bytes → Outcome SailError Bytes × Option Bytes
  keep (ok key) = (ok key, some key)
  keep (err e) = (err e, none)
  keep panic = (panic, none)

  unfoldable pub get_derived_key : Exec SailError (Option Bytes) Bytes
  unfolding request_derived_key keep
  get_derived_key none = keep request_derived_key
  get_derived_key (some key) = (ok key, some key)

  unfoldable pub get_enclave_ed25519_keypair : Exec SailError (Option Bytes) Bytes
  unfolding get_derived_key
  get_enclave_ed25519_keypair s =
      let (derived_key, s') = get_derived_key s in
      ((derived_key >>= λ key. ok_or (keypair_from_seed key) keypair_failed), s')

  unfoldable pub get_enclave_secp256k1_keypair : Exec SailError (Option Bytes) Bytes
  unfolding get_derived_key
  get_enclave_secp256k1_keypair s =
      let (source, s') = get_derived_key s in
      ((source >>= λ key. ok (secret_from_seed (sha256 key))), s')
