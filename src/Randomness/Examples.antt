-- ===== src/Randomness/Examples.antt =====
-- An account that was revealed in slot 12, and the theorem about randomness on it.
use switchboard_sdk.Randomness.{RandomnessAccountData}
use switchboard_sdk.Feed.{Clock}
use switchboard_sdk.Prelude.Int.{pos}
use switchboard_sdk.Prelude.{replicate, []}

abbrev example_randomness : RandomnessAccountData
example_randomness = record {
  authority = [];
  queue = [];
  seed_slothash = [];
  seed_slot = 10;
  oracle = [];
  reveal_slot = 12;
  revealed = replicate 32 4;
}

abbrev slot_clock : Clock
slot_clock = record { slot = 12; unix_timestamp = pos 0 }
