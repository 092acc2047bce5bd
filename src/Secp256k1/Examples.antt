-- ===== src/Secp256k1/Examples.antt =====
-- Two signatures of one message, and the round trip on them.
use switchboard_sdk.Secp256k1.{
  offsets_area_size, make_secp256k1_instruction_data_unique_message, message_offset_of,
  SecpSignature,
}
use switchboard_sdk.Prelude.{◌∷◌, List, ℕ, refl, ok, arith, [], ◌≡◌, replicate}
use switchboard_sdk.Prelude.Words.{Bytes}
use switchboard_sdk.Secp256k1.Layout.{IsBundle}
use switchboard_sdk.Secp256k1.Reading.{read_entry, read_at}
use switchboard_sdk.Secp256k1.RoundTrip.{make-read_entry, entry_of}

abbrev signature_of : ℕ → SecpSignature
signature_of k = record {
  signature = replicate 64 k;
  recovery_id = k;
  eth_address = replicate 20 k;
  message = replicate 32 9;
}

abbrev example_signatures : List SecpSignature
example_signatures = signature_of 0 ∷ signature_of 1 ∷ []

IsBundle-example_signatures : IsBundle (replicate 32 9) example_signatures
unfolding message_offset_of offsets_area_size
IsBundle-example_signatures = record {
  some_signature = omega arith;
  sized = (
    record { signature = refl; eth_address = refl },
    (record { signature = refl; eth_address = refl }, tt),
  );
  shared = (refl, (refl, tt));
  offset_fits = omega arith;
  size_fits = omega arith;
}

make-read_entry_example :
    (made : Bytes) × (make_secp256k1_instruction_data_unique_message example_signatures 3 ≡ ok made)
    × (read_at made 0 1 ≡ 2 ∷ [])
    × (read_entry made 1 ≡ entry_of 3 (replicate 32 9) (signature_of 1))
make-read_entry_example =
    make-read_entry 3 (replicate 32 9) example_signatures IsBundle-example_signatures 1
      (signature_of 1) refl
