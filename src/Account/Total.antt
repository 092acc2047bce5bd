-- ===== src/Account/Total.antt =====
-- The load of an account comes back.
use switchboard_sdk.Prelude.{
  ◌≡◌, subst, false, inl, inr, Option, length, drop, ltb, ◌==◌, Bool-cases, NoPanic, >>=-NoPanic,
  ok_or-NoPanic, if-NoPanic, ok_or,
}
use switchboard_sdk.Prelude.Words.{Bytes, bytes_eq}
use switchboard_sdk.Error.{account_not_found, anchor_parse_error}
use switchboard_sdk.Account.{Layout, fetch_zerocopy_account, check_discriminator, try_from_bytes}

module _ {T : Type 0} (layout : Layout T) (eight : length layout.discriminator ≡ 8) where
  check_discriminator-NoPanic : (bytes : Bytes) → NoPanic (check_discriminator layout bytes)
  unfolding check_discriminator
  check_discriminator-NoPanic bytes =
      elim (Bool-cases (ltb (length bytes) (length layout.discriminator))) [
        | inl short ↦ rw short tt
        | inr long ↦
            let enough : ltb (length bytes) 8 ≡ false =
              subst (λ n. ltb (length bytes) n ≡ false) eight long in
            rw (long, enough) (if-NoPanic (bytes_eq _ layout.discriminator) _ _ tt tt)
      ]

  -- With a discriminator of eight bytes, `fetch_zerocopy_account` returns or errs, whatever the node
  -- answers.
  pub fetch_zerocopy_account-NoPanic :
      (answer : Option Bytes) → NoPanic (fetch_zerocopy_account layout answer)
  unfolding fetch_zerocopy_account try_from_bytes
  fetch_zerocopy_account-NoPanic answer =
      >>=-NoPanic (ok_or answer account_not_found) _ (ok_or-NoPanic answer account_not_found)
        (λ bytes.
          >>=-NoPanic (check_discriminator layout bytes) _ (check_discriminator-NoPanic bytes) (λ _.
            if-NoPanic (length (drop 8 bytes) == layout.size) _ _
              (ok_or-NoPanic (layout.cast (drop 8 bytes)) anchor_parse_error) tt))
