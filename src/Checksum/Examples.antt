-- ===== src/Checksum/Examples.antt =====
-- Messages, and the theorems about checksums on them.
use switchboard_sdk.Feed.Examples.{example_feed}
use switchboard_sdk.Prelude.{ℕ, ◌∷◌, [], refl, arith, ◌⊎◌, replicate, ◌≡◌}
use switchboard_sdk.Checksum.{CombinedMessage, Message}
use switchboard_sdk.Prelude.Words.{Bytes}
use switchboard_sdk.Checksum.Combined.{generate_combined_checksum-binds, SameCombined, IsCombined}
use switchboard_sdk.Checksum.Binding.{generate_checksum_inner-binds, IsMessage, Collision}
use switchboard_sdk.Prelude.Int.{negsuc}

abbrev example_message : Message
example_message = record {
  queue = replicate 32 1;
  feed_hash = replicate 32 2;
  result = negsuc 41;
  slothash = replicate 32 3;
  max_variance = 1_000_000_000;
  min_responses = 1;
}

IsMessage-example_message : IsMessage example_message
IsMessage-example_message = record {
  queue = refl;
  feed_hash = refl;
  result = omega arith;
  slothash = refl;
  max_variance = omega arith;
  min_responses = omega arith;
}

abbrev example_combined : CombinedMessage
example_combined = record {
  queue_key = replicate 32 1;
  feeds = example_feed ∷ [];
  signed_slothash = replicate 32 3;
  submission_values = negsuc 41 ∷ [];
}

IsCombined-example_combined : IsCombined example_combined
IsCombined-example_combined = record {
  queue_key = refl;
  feeds =
      (record { feed_hash = refl; max_variance = omega arith; min_responses = omega arith }, tt);
  signed_slothash = refl;
  submission_values = (omega arith, tt);
  paired = refl;
}

abbrev example_timestamp : ℕ
example_timestamp = 1_700_000_000

-- Stand-ins for the hash: one without a collision, and one with nothing else.
abbrev injective_hash : Bytes → Bytes
injective_hash bytes = bytes

abbrev constant_hash : Bytes → Bytes
constant_hash bytes = []

generate_checksum_inner-binds_example :
    (example_message ≡ example_message) ⊎ Collision injective_hash
generate_checksum_inner-binds_example =
    generate_checksum_inner-binds injective_hash example_message example_message
      IsMessage-example_message IsMessage-example_message refl

generate_combined_checksum-binds_example :
    SameCombined example_combined example_combined ⊎ Collision injective_hash
generate_combined_checksum-binds_example =
    generate_combined_checksum-binds injective_hash example_combined example_combined
      IsCombined-example_combined IsCombined-example_combined refl
