-- ===== src/Secp256k1.antt =====
-- secp256k1.rs of the client crate: the data of the instruction by which the secp256k1 program
-- verifies several signatures over one message.
pub mod Layout
pub mod Reading
pub mod RoundTrip
pub mod Built
pub mod Examples
use switchboard_sdk.Prelude.{
  ℕ, ◌+◌, ◌*◌, ◌%◌, ◌^◌, List, [], ◌∷◌, ◌++◌, Bool, true, false, if◌then◌else◌, ltb, ◌==◌, length,
  Outcome, ok, err, ◌>>=◌, ◌>>◌,
}
use switchboard_sdk.Prelude.Bytes.{to_le_bytes}
use switchboard_sdk.Transaction.{Instruction}
use switchboard_sdk.Prelude.Words.{Bytes, bytes_eq}

abbrev pub signature_serialized_size : ℕ
signature_serialized_size = 64

abbrev pub hashed_pubkey_serialized_size : ℕ
hashed_pubkey_serialized_size = 20

abbrev pub signature_offsets_serialized_size : ℕ
signature_offsets_serialized_size = 11

pub record SecpSignature : Type 0 where
  pub signature : Bytes
  pub recovery_id : ℕ
  pub eth_address : Bytes
  pub message : Bytes

-- The error texts, and the failed conversion to u16.
pub data SecpError : Type 0 where
  no_signatures different_messages invalid_offsets_length out_of_range : SecpError

-- `u16::try_from`
unfoldable pub u16_try_from : ℕ → Outcome SecpError ℕ
u16_try_from n = if ltb n (2 ^ 16) then ok n else err out_of_range

unfoldable pub same_messages : Bytes → List SecpSignature → Bool
same_messages common [] = true
same_messages common (s ∷ ss) = if bytes_eq s.message common then same_messages common ss else false

unfoldable pub offsets_bytes : ℕ → ℕ → ℕ → ℕ → ℕ → Bytes
offsets_bytes index signature_offset eth_address_offset message_data_offset message_data_size =
    to_le_bytes 2 signature_offset
    ++ (index ∷ to_le_bytes 2 eth_address_offset
        ++ (index ∷ to_le_bytes 2 message_data_offset
            ++ (to_le_bytes 2 message_data_size ++ index ∷ [])))

unfoldable pub block : SecpSignature → Bytes
block s = s.signature ++ s.recovery_id ∷ s.eth_address

unfoldable pub concat : List Bytes → Bytes
concat [] = []
concat (b ∷ bs) = b ++ concat bs

-- The loop over the signatures, with the offsets and the blocks so far.
unfoldable pub bundle :
    (index area message_offset message_size : ℕ)
    → List SecpSignature
    → List Bytes
    → Bytes
    → Outcome SecpError (List Bytes × Bytes)
bundle index area message_offset message_size [] offsets buffer = ok (offsets, buffer)
bundle index area message_offset message_size (s ∷ ss) offsets buffer =
    let current_offset = area + length buffer in
    do
      signature_offset ← u16_try_from current_offset
      eth_address_offset ← u16_try_from (current_offset + signature_serialized_size + 1)
      message_data_offset ← u16_try_from message_offset
      message_data_size ← u16_try_from message_size
      let bytes =
          offsets_bytes index signature_offset eth_address_offset message_data_offset
            message_data_size
      if length bytes == signature_offsets_serialized_size
          then bundle index area message_offset message_size ss (offsets ++ bytes ∷ [])
              (buffer ++ block s)
          else err invalid_offsets_length

-- Where the offsets end, and where the message stands behind the blocks of 85 bytes.
unfoldable pub offsets_area_size : ℕ → ℕ
offsets_area_size count = 1 + count * signature_offsets_serialized_size

unfoldable pub message_offset_of : ℕ → ℕ
unfolding offsets_area_size
message_offset_of count =
    offsets_area_size count
    + count * (signature_serialized_size + 1 + hashed_pubkey_serialized_size)

unfoldable pub make_secp256k1_instruction_data_unique_message :
    List SecpSignature → ℕ → Outcome SecpError Bytes
unfolding same_messages concat
make_secp256k1_instruction_data_unique_message [] index = err no_signatures
make_secp256k1_instruction_data_unique_message (first ∷ others) index =
    let signatures : List SecpSignature = first ∷ others in
    let count = length signatures in
    if same_messages first.message signatures
    then (do
      (offsets, buffer) ←
          bundle index (offsets_area_size count) (message_offset_of count) (length first.message)
            signatures [] []
      ok ((count % 256) ∷ concat offsets ++ (buffer ++ first.message)))
    else err different_messages

-- `secp256k1_program::ID` is an argument.
unfoldable pub build_secp256k1_instruction :
    Bytes → List SecpSignature → ℕ → Outcome SecpError Instruction
unfolding make_secp256k1_instruction_data_unique_message
build_secp256k1_instruction program signatures instruction_index = do
  input ← make_secp256k1_instruction_data_unique_message signatures instruction_index
  ok (record { program_id = program; accounts = []; input = input })
