-- ===== src/Account.antt =====
-- The zero-copy accounts of the on-demand crate: the discriminator test before the cast, which the
-- loaders of feeds, oracles, queues and randomness accounts repeat (on_demand/accounts/*.rs,
-- client/utils.rs), and `AccountDeserialize` of macros.rs.
pub mod Loading
pub mod Total
pub mod Examples
use switchboard_sdk.Prelude.{
  ℕ, ◌+◌, Option, if◌then◌else◌, ltb, length, take, drop, Outcome, ok, err, panic, ◌>>=◌, ◌>>◌, ◌-◌,
  ◌==◌, unwrap, ok_or,
}
use switchboard_sdk.Prelude.Words.{Bytes, bytes_eq}
use switchboard_sdk.Error.{
  OnDemandError, account_borrow_error, invalid_discriminator, anchor_parse_error, account_not_found,
}

-- What an account type brings: `T::discriminator()`, `size_of::<T>()`, and the cast of exactly
-- that many bytes by bytemuck, which fails on bytes that it cannot take.
pub record Layout {ℓ} (T : Type ℓ) : Type ℓ where
  pub discriminator : Bytes
  pub size : ℕ
  pub cast : Bytes → Option T

-- `&data[from..to]`: a range that passes the end panics.
abbrev pub slice : {E : Type 0} → Bytes → ℕ → ℕ → Outcome E Bytes
slice bytes from to =
    if ltb (length bytes) to then panic else ok (take (to - from) (drop from bytes))

module _ {ℓ} {T : Type ℓ} (layout : Layout T) where
  open layout use {discriminator, size, cast}

  -- The test that stands in front of every cast.
  unfoldable pub check_discriminator : Bytes → Outcome OnDemandError (Unit {0})
  check_discriminator bytes =
      if ltb (length bytes) (length discriminator) then err invalid_discriminator else do
        disc_bytes ← slice bytes 0 8
        if bytes_eq disc_bytes discriminator then ok tt else err invalid_discriminator

  -- `parse` and `new_from_bytes`: `bytemuck::from_bytes` on the bytes behind the discriminator
  -- panics where `try_from_bytes` fails.
  unfoldable pub parse : Bytes → Outcome OnDemandError T
  unfolding check_discriminator
  parse bytes = do check_discriminator bytes; body ← slice bytes 8 (size + 8); unwrap (cast body)

  -- `new`: the buffer of the account may be borrowed already.
  pub new : Option Bytes → Outcome OnDemandError T
  unfolding parse
  new borrowed = ok_or borrowed account_borrow_error >>= parse

  -- `bytemuck::try_from_bytes::<T>` fails on another length.
  unfoldable pub try_from_bytes : {E : Type 0} → E → Bytes → Outcome E T
  try_from_bytes e bytes = if length bytes == size then ok_or (cast bytes) e else err e

  -- `fetch_zerocopy_account`; what the RPC node answered is the argument, `none` for its error.
  unfoldable pub fetch_zerocopy_account : Option Bytes → Outcome OnDemandError T
  unfolding check_discriminator try_from_bytes
  fetch_zerocopy_account answer = do
    bytes ← ok_or answer account_not_found
    check_discriminator bytes
    try_from_bytes anchor_parse_error (drop 8 bytes)

  -- `fetch_zerocopy_account_sync`: the client may answer that there is no such account.
  pub fetch_zerocopy_account_sync : Option (Option Bytes) → Outcome OnDemandError T
  unfolding check_discriminator try_from_bytes
  fetch_zerocopy_account_sync answer = do
    found ← ok_or answer account_not_found
    bytes ← ok_or found account_not_found
    check_discriminator bytes
    try_from_bytes anchor_parse_error (drop 8 bytes)
