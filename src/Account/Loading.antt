-- ===== src/Account/Loading.antt =====
-- What the loaders of accounts answer, on every branch, and how they agree.
use switchboard_sdk.Prelude.{
  ◌>>=◌, ◌&&◌, leb, ◌≢◌, ◌≡◌, ◌⊎◌, inl, inr, refl, ◌≤◌, ◌<◌, ◌+◌, arith, take, drop, length, Bool,
  true, false, Bool-cases, Option-cases, none, some, Outcome, ok, err, panic,
}
use switchboard_sdk.Prelude.Words.{Bytes, bytes_eq}
use switchboard_sdk.Error.{OnDemandError, invalid_discriminator, anchor_parse_error}
use switchboard_sdk.Account.{unwrap, slice, ltb, Layout, parse, check_discriminator}
use Prim.Native.Nat.{◌-◌, ◌-◌, ◌-◌, ◌-◌, ◌-◌, ◌-◌, ◌-◌, ◌-◌, ◌-◌, ◌-◌, ◌-◌, ◌-◌, ◌-◌, ◌-◌, ◌-◌, ◌-◌}

module _ {T : Type 0} (layout : Layout T) (bytes : Bytes) where
  open layout use {discriminator, size, cast}

  -- The account is at least as long as its discriminator, and starts with it.
  abbrev pub starts : Bool
  starts = leb 8 (length bytes) && bytes_eq (take 8 bytes) discriminator

  -- What `parse` may answer.
  abbrev pub Parses : Outcome OnDemandError T → Type 0
  Parses (ok t) =
      (starts ≡ true) × (size + 8 ≤ length bytes) × (cast (take size (drop 8 bytes)) ≡ some t)
  Parses (err e) = (starts ≡ false) × (e ≡ invalid_discriminator)
  Parses panic =
      (starts ≡ true) × ((length bytes < size + 8) ⊎ (cast (take size (drop 8 bytes)) ≡ none))

  check_discriminator_cases :
      length discriminator ≡ 8
      → ((starts ≡ true) × (check_discriminator layout bytes ≡ ok tt))
        ⊎ ((starts ≡ false) × (check_discriminator layout bytes ≡ err invalid_discriminator))
  unfolding check_discriminator
  check_discriminator_cases d = elim (Bool-cases (ltb (length bytes) 8)) [
    | inl short ↦ inr (ground arith, rw (d, short) refl)
    | inr long ↦ elim (Bool-cases (bytes_eq (take 8 bytes) discriminator)) [
      | inl same ↦ inl (ground arith, rw (d, long, same) refl)
      | inr other ↦ inr (ground arith, rw (d, long, other) refl)
    ]
  ]

  body_cases : starts ≡ true → Parses (slice bytes 8 (size + 8) >>= λ body. unwrap (cast body))
  body_cases s =
      let n : size + 8 - 8 ≡ size = omega arith in
      elim (Bool-cases (ltb (length bytes) (size + 8))) [
        | inl short ↦ rw short (s, inl (ground arith))
        | inr long ↦ elim (Option-cases (cast (take (size + 8 - 8) (drop 8 bytes)))) [
          | inl e ↦ rw (long, e) (s, inr (rw n at e))
          | inr (t, e) ↦ rw (long, e) (s, ground arith, rw n at e)
        ]
      ]

  -- `parse` returns the cast of the bytes that follow the discriminator, when the account starts with it and
  -- has them; it errs exactly when the account does not start with it; and it panics on an account
  -- that is cut short, or whose bytes the cast refuses.
  pub parse-Parses : length discriminator ≡ 8 → Parses (parse layout bytes)
  unfolding parse
  parse-Parses d = elim (check_discriminator_cases d) [
    | inl (s, e) ↦ rw e (body_cases s)
    | inr (s, e) ↦ rw e (s, refl)
  ]

  -- An account that the RPC node returned: the loader answers it only if it has the exact size.
  abbrev pub Fetches : Outcome OnDemandError T → Type 0
  Fetches (ok t) = (starts ≡ true) × (length bytes ≡ size + 8) × (parse layout bytes ≡ ok t)
  Fetches (err e) =
      ((starts ≡ false) × (e ≡ invalid_discriminator))
      ⊎ ((starts ≡ true)
          × (e ≡ anchor_parse_error)
          × ((length bytes ≢ size + 8) ⊎ (parse layout bytes ≡ panic)))
  Fetches panic = ⊥
