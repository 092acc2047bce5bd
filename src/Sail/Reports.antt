-- ===== src/Sail/Reports.antt =====
-- What the check of an attestation report accepts.
use switchboard_sdk.Prelude.{
  ◌≡◌, ◌↔◌, refl, ap, true, false, Option, none, some, ok, length, arith, Bool-cases, inl, inr,
}
use switchboard_sdk.Prelude.Words.{Bytes, bytes_eq, bytes_eq→eq}
use switchboard_sdk.Sail.{Machine, verify, sail_policy}

module _ {Report Json : Type 0} (machine : Machine Report Json)
    (report_size : (r : Report) → length (machine.report_data r) ≡ 64)
    (hash_size : (m : Bytes) → length (machine.sha256 m) ≡ 32) where
  data-differs :
      (r : Report) (m : Bytes) → bytes_eq (machine.report_data r) (machine.sha256 m) ≡ false
  data-differs r m = elim (Bool-cases (bytes_eq (machine.report_data r) (machine.sha256 m))) [
    | inl same ↦
        let sizes : length (machine.report_data r) ≡ length (machine.sha256 m) =
          ap length (bytes_eq→eq (machine.report_data r) (machine.sha256 m) same) in
        absurd (omega (arith, report_size r, hash_size m))
    | inr other ↦ other
  ]

  -- With the 64 bytes of data that a report has and the 32 bytes of a SHA-256 hash, `verify` accepts a
  -- report exactly when the device's check accepts it under the policy and no message is given: with a
  -- message it never does, whatever was attested.
  pub verify_report_iff :
      (report : Report) (message : Option Bytes)
      → (verify machine report message ≡ ok tt)
        ↔ ((machine.verify_report report sail_policy ≡ true) × (message ≡ none))
  unfolding verify
  verify_report_iff report none = elim (Bool-cases (machine.verify_report report sail_policy)) [
    | inl accepted ↦ (λ h. (accepted, refl), λ h. rw accepted refl)
    | inr rejected ↦ (λ h. cc (rw rejected at h), λ h. cc (rejected, h.0))
  ]
  verify_report_iff report (some m) = elim (Bool-cases (machine.verify_report report sail_policy)) [
    | inl accepted ↦ (λ h. cc (rw (accepted, data-differs report m) at h), λ h. cc (h.1))
    | inr rejected ↦ (λ h. cc (rw rejected at h), λ h. cc (h.1))
  ]
