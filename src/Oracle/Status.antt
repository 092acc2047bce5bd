-- ===== src/Oracle/Status.antt =====
-- The status byte of a quote, and when an oracle counts as verified.
use switchboard_sdk.Prelude.{
  ◌||◌, ◌≡◌, ◌↔◌, ◌⊎◌, ◌≢◌, inl, inr, refl, true, Bool, arith, ok, err, Bool-cases, ◌==◌, ℕ,
}
use switchboard_sdk.Prelude.Int.{◌<ℤ◌, ◌≤ℤ◌}
use switchboard_sdk.Error.{invalid_quote}
use switchboard_sdk.Feed.{Clock}
use switchboard_sdk.Oracle.{
  verification_override, verification_success, verification_failure, verification_pending,
  unverified, OracleAccountData, VerificationStatus, status_to_u8, status_from_u8, is_verified,
  quote_is_verified, verify,
}

from_to : (s : VerificationStatus) → status_from_u8 (status_to_u8 s) ≡ s
unfolding status_to_u8 status_from_u8
from_to unverified = refl
from_to verification_pending = refl
from_to verification_failure = refl
from_to verification_success = refl
from_to verification_override = refl

-- The bytes that some status has.
abbrev is_status : ℕ → Bool
is_status n = n == 0 || (n == 1 || (n == 2 || (n == 4 || n == 8)))

is_status-status_to_u8 : (s : VerificationStatus) → is_status (status_to_u8 s) ≡ true
unfolding status_to_u8
is_status-status_to_u8 unverified = refl
is_status-status_to_u8 verification_pending = refl
is_status-status_to_u8 verification_failure = refl
is_status-status_to_u8 verification_success = refl
is_status-status_to_u8 verification_override = refl

to_from :
    (n : ℕ)
    → (status_to_u8 (status_from_u8 n) ≡ n)
      ⊎ ((status_from_u8 n ≡ unverified) × ((s : VerificationStatus) → status_to_u8 s ≢ n))
unfolding status_to_u8 status_from_u8
to_from n = elim (Bool-cases (is_status n)) [
  | inl one ↦ inl (ground arith)
  | inr none ↦ inr (ground arith, λ s e. let h = is_status-status_to_u8 s in cc (rw e at h))
]

-- The status byte gives back every status, and a status every byte that is one; any other byte
-- reads as the status of no verification.
pub status_from_u8-status_to_u8 :
    ((s : VerificationStatus) → status_from_u8 (status_to_u8 s) ≡ s)
    × ((n : ℕ)
        → (status_to_u8 (status_from_u8 n) ≡ n)
          ⊎ ((status_from_u8 n ≡ unverified) × ((s : VerificationStatus) → status_to_u8 s ≢ n)))
status_from_u8-status_to_u8 = (from_to, to_from)

-- An oracle passes `verify`, at a time, exactly when its quote was verified by override, or with success
-- and does not expire by then; `Quote::is_verified` agrees with it, and the only error is `InvalidQuote`.
pub verify_iff :
    (oracle : OracleAccountData) (clock : Clock)
    → (quote_is_verified oracle.enclave clock ≡ is_verified oracle clock)
      × ((verify oracle clock ≡ ok tt) ↔ (
          (oracle.enclave.verification_status ≡ 8)
          ⊎ ((oracle.enclave.verification_status ≡ 4)
              × (clock.unix_timestamp <ℤ oracle.enclave.valid_until))))
      × ((verify oracle clock ≡ ok tt) ⊎ (verify oracle clock ≡ err invalid_quote))
unfolding verify is_verified quote_is_verified status_from_u8
verify_iff oracle clock = (ground arith, ground arith, ground arith)

-- An oracle that is verified at some time was so, by the same account, at every time before.
pub is_verified-earlier :
    (oracle : OracleAccountData) (earlier later : Clock)
    → earlier.unix_timestamp ≤ℤ later.unix_timestamp
    → is_verified oracle later ≡ true
    → is_verified oracle earlier ≡ true
unfolding is_verified status_from_u8
is_verified-earlier oracle earlier later h v = ground arith
