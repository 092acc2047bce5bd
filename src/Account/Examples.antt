-- ===== src/Account/Examples.antt =====
-- A layout of two bytes behind a discriminator, and the loaders on it.
use switchboard_sdk.Prelude.{◌≡◌, [], ◌++◌, ◌∷◌, refl, some, err, ok}
use switchboard_sdk.Prelude.Words.{Bytes, bytes_eq}
use switchboard_sdk.Error.{anchor_parse_error}
use switchboard_sdk.Account.{
  try_from_bytes, check_discriminator, fetch_zerocopy_account, parse, Layout,
}

abbrev example_discriminator : Bytes
example_discriminator = 1 ∷ 2 ∷ 3 ∷ 4 ∷ 5 ∷ 6 ∷ 7 ∷ 8 ∷ []

abbrev example_layout : Layout Bytes
example_layout = record {
  discriminator = example_discriminator;
  size = 2;
  cast = λ body. some body;
}

abbrev example_account : Bytes
example_account = example_discriminator ++ 40 ∷ 41 ∷ []

abbrev longer_account : Bytes
longer_account = example_account ++ 42 ∷ []

longer_account_runs :
    (parse example_layout longer_account ≡ ok (40 ∷ 41 ∷ []))
    × (fetch_zerocopy_account example_layout (some longer_account) ≡ err anchor_parse_error)
unfolding parse fetch_zerocopy_account check_discriminator try_from_bytes bytes_eq
longer_account_runs = (refl, refl)
