-- ===== src/Oracle/Examples.antt =====
-- An oracle that was verified and has sent a heartbeat, and the theorems about oracles on it.
use switchboard_sdk.Error.{invalid_quote}
use switchboard_sdk.Prelude.{err, [], ok, replicate, true, ℕ, refl, ◌⊎◌, ◌↔◌, ◌∷◌, ◌≡◌, some, false}
use switchboard_sdk.Oracle.{
  gateway_uri, status_from_u8, minutes_of, quote_is_verified, sub_i64, OracleAccountData, is_stale,
  verify, is_verified,
}
use switchboard_sdk.Prelude.Int.{◌-ℤ◌, pos, ◌<ℤ◌}
use switchboard_sdk.Feed.{Clock}
use switchboard_sdk.Oracle.Status.{verify_iff}

abbrev pub example_oracle : OracleAccountData
example_oracle = record {
  enclave = record {
    enclave_signer = replicate 32 5;
    mr_enclave = replicate 32 6;
    verification_status = 4;
    verification_timestamp = pos 900;
    valid_until = pos 5000;
    quote_registry = replicate 32 0;
    registry_key = replicate 64 0;
    secp256k1_signer = replicate 64 7;
    last_ed25519_signer = replicate 32 0;
    last_secp256k1_signer = replicate 64 0;
    last_rotate_slot = 0;
    guardian_approvers = [];
    guardian_approvers_len = 0;
  };
  authority = replicate 32 1;
  queue = replicate 32 2;
  created_at = pos 800;
  last_heartbeat = pos 1000;
  secp_authority = replicate 64 0;
  gateway_uri = 104 ∷ 116 ∷ 0 ∷ 99 ∷ [];
  permissions = 0;
  is_on_queue = 1;
  lut_slot = 12;
  last_reward_epoch = 0;
  operator = replicate 32 0;
}

abbrev clock_at : ℕ → Clock
clock_at t = record { slot = 1; unix_timestamp = pos t }

oracle_runs :
    (is_stale true example_oracle (clock_at 2859) ≡ ok false)
    × (is_stale true example_oracle (clock_at 2860) ≡ ok true)
    × (verify example_oracle (clock_at 5000) ≡ err invalid_quote)
    × (gateway_uri (λ b. b) example_oracle ≡ some (104 ∷ 116 ∷ []))
unfolding is_stale sub_i64 minutes_of ◌-ℤ◌ verify is_verified status_from_u8 gateway_uri
oracle_runs = (refl, refl, refl, refl)

verify_iff_example :
    (quote_is_verified example_oracle.enclave (clock_at 4000)
      ≡ is_verified example_oracle (clock_at 4000))
    × ((verify example_oracle (clock_at 4000) ≡ ok tt) ↔ (
        (example_oracle.enclave.verification_status ≡ 8)
        ⊎ ((example_oracle.enclave.verification_status ≡ 4) × (pos 4000 <ℤ pos 5000))))
    × ((verify example_oracle (clock_at 4000) ≡ ok tt)
        ⊎ (verify example_oracle (clock_at 4000) ≡ err invalid_quote))
verify_iff_example = verify_iff example_oracle (clock_at 4000)
