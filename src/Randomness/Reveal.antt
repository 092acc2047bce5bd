-- ===== src/Randomness/Reveal.antt =====
-- The one slot in which a value may be read.
use switchboard_sdk.Prelude.{◌≡◌, ◌≢◌, ◌↔◌, ◌<◌, arith, true, ok, err}
use switchboard_sdk.Prelude.Words.{Bytes}
use switchboard_sdk.Error.{switchboard_randomness_too_old}
use switchboard_sdk.Feed.{Clock}
use switchboard_sdk.Randomness.{RandomnessAccountData, get_randomness, is_revealable}

-- A random value can be read in the slot of its reveal alone, and in every other slot, before as well as
-- after, the error is that it is too old; and where the reveal stands behind the seed, whoever
-- reads a value does so when it was revealable, while nobody could read it in the slot of the seed.
pub get_randomness_iff :
    (account : RandomnessAccountData) (clock : Clock)
    → ((clock.slot ≡ account.reveal_slot) ↔ (get_randomness account clock ≡ ok account.revealed))
      × ((clock.slot ≢ account.reveal_slot)
          ↔ (get_randomness account clock ≡ err switchboard_randomness_too_old))
      × (account.seed_slot < account.reveal_slot
          → (value : Bytes) → get_randomness account clock ≡ ok value
          → is_revealable account clock ≡ true)
unfolding get_randomness is_revealable
get_randomness_iff account clock = (
  (λ h. ground arith, λ h. ground arith),
  (λ h. ground arith, λ h. ground arith),
  λ l value h. ground arith,
)
