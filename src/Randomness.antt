-- ===== src/Randomness.antt =====
-- on_demand/accounts/randomness.rs of the on-demand crate: when a random value may be read.
pub mod Reveal
mod Examples
use switchboard_sdk.Prelude.{ℕ, Bool, if◌then◌else◌, ltb, ◌==◌, not, Outcome, ok, err}
use switchboard_sdk.Prelude.Words.{Bytes}
use switchboard_sdk.Error.{OnDemandError, switchboard_randomness_too_old}
use switchboard_sdk.Feed.{Clock}

pub record RandomnessAccountData : Type 0 where
  pub authority : Bytes
  pub queue : Bytes
  pub seed_slothash : Bytes
  pub seed_slot : ℕ
  pub oracle : Bytes
  pub reveal_slot : ℕ
  pub revealed : Bytes

unfoldable pub get_randomness : RandomnessAccountData → Clock → Outcome OnDemandError Bytes
get_randomness account clock =
    if not (clock.slot == account.reveal_slot)
    then err switchboard_randomness_too_old
    else ok account.revealed

unfoldable pub is_revealable : RandomnessAccountData → Clock → Bool
is_revealable account clock = ltb account.seed_slot clock.slot
