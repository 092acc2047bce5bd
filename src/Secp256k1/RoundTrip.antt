-- ===== src/Secp256k1/RoundTrip.antt =====
-- What a verifier that follows the offsets reads from an instruction that was built.
use switchboard_sdk.Prelude.{
  zero, suc, ◌%◌, subst, ap₂, All, get_elem?-bound, take-length, ◌≤◌, ℕ, ◌+◌, ◌*◌, ◌≡◌, refl, ap,
  sym, ◌∙◌, List, [], ◌∷◌, ◌++◌, some, arith, length, get_elem?, ok, take,
}
use switchboard_sdk.Prelude.Words.{Bytes}
use switchboard_sdk.Secp256k1.{
  SecpSignature, block, offsets_bytes, offsets_area_size, message_offset_of,
  make_secp256k1_instruction_data_unique_message,
}
use switchboard_sdk.Secp256k1.Layout.{
  make-data_of, message_offset_of-room, IsSignature, IsBundle, data_of,
}
use switchboard_sdk.Secp256k1.Reading.{
  index_at-offsets_bytes, u16_at-offsets_bytes, u16_at, read_entry, read_at_within, read_at_behind,
  read_at, Entry, read_offsets, read_block, read_message,
}
use switchboard_sdk.Prelude.Bytes.{from_le_bytes}

take_all : (n : ℕ) (xs : Bytes) → length xs ≡ n → take n xs ≡ xs
take_all n xs e = ap (λ k. take k xs) (sym e) ∙ take-length xs

block_signature : (s : SecpSignature) → IsSignature s → read_at (block s) 0 64 ≡ s.signature
unfolding block
block_signature s v =
    read_at_within s.signature (s.recovery_id ∷ s.eth_address) 0 64 (omega (arith, v.signature))
    ∙ take_all 64 s.signature v.signature

block_behind :
    (s : SecpSignature) (k n : ℕ)
    → IsSignature s
    → read_at (block s) (64 + k) n ≡ read_at (s.recovery_id ∷ s.eth_address) k n
unfolding block
block_behind s k n v =
    ap (λ p. read_at (s.signature ++ s.recovery_id ∷ s.eth_address) (p + k) n) (sym v.signature)
    ∙ read_at_behind s.signature (s.recovery_id ∷ s.eth_address) k n

-- What a reader finds at the offsets of a signature.
abbrev pub entry_of : ℕ → Bytes → SecpSignature → Entry
entry_of index message s = record {
  signature = s.signature;
  recovery_id = s.recovery_id ∷ [];
  eth_address = s.eth_address;
  message = message;
  instruction_indexes = (index ∷ [], index ∷ [], index ∷ []);
}

module _ (index : ℕ) (message : Bytes) (ss : List SecpSignature) (b : IsBundle message ss) (i : ℕ)
    (s : SecpSignature) (e : get_elem? ss i ≡ some s) where
  abbrev start : ℕ
  start = offsets_area_size (length ss) + 85 * i

  abbrev made : Bytes
  made = data_of index message ss

  start_fits : start + 85 ≤ message_offset_of (length ss)
  start_fits = omega (arith, get_elem?-bound ss i s e, message_offset_of-room (length ss))

  abbrev fields : Bytes
  fields = offsets_bytes index start (start + 65) (message_offset_of (length ss)) (length message)

  u16_read : (k : ℕ) → k + 2 ≤ 11 → u16_at made (1 + 11 * i + k) ≡ u16_at fields k
  unfolding u16_at
  u16_read k h = ap from_le_bytes (read_offsets index message ss b i k 2 s e h)

  offsets_read :
      (u16_at made (1 + 11 * i) ≡ start)
      × (u16_at made (1 + 11 * i + 3) ≡ start + 65)
      × (u16_at made (1 + 11 * i + 6) ≡ message_offset_of (length ss))
      × (u16_at made (1 + 11 * i + 8) ≡ length message)
  offsets_read =
      let mo = message_offset_of (length ss) in
      let fit = b.offset_fits in
      let (p, q, r, t) =
        u16_at-offsets_bytes index start (start + 65) mo (length message)
          (omega (arith, start_fits, fit)) (omega (arith, start_fits, fit)) fit b.size_fits in
      let first : 1 + 11 * i ≡ 1 + 11 * i + 0 = omega arith in
      (
        ap (u16_at made) first ∙ u16_read 0 (omega arith) ∙ p,
        u16_read 3 (omega arith) ∙ q,
        u16_read 6 (omega arith) ∙ r,
        u16_read 8 (omega arith) ∙ t,
      )

  signature_read : IsSignature s → read_at made start 64 ≡ s.signature
  signature_read v =
      let at : start ≡ start + 0 = omega arith in
      ap (λ p. read_at made p 64) at
      ∙ read_block index message ss b i 0 64 s e (omega arith)
      ∙ block_signature s v

  pub data_of-read_entry : IsSignature s → read_entry made i ≡ entry_of index message s
  unfolding read_entry
  data_of-read_entry v =
      let (p, q, r, t) = offsets_read in
      let index_at =
        index_at-offsets_bytes index start (start + 65) (message_offset_of (length ss))
          (length message) in
      let so = signature_read v in
      let ro = read_block index message ss b i 64 1 s e (omega arith) ∙ block_behind s 0 1 v in
      let eo =
        read_block index message ss b i 65 20 s e (omega arith)
        ∙ block_behind s 1 20 v
        ∙ take_all 20 s.eth_address v.eth_address in
      let mo = read_message index message ss b in
      λ j. record {
        signature = (ap (λ x. read_at made x 64) p ∙ so) j;
        recovery_id = (ap (λ x. read_at made (x + 64) 1) p ∙ ro) j;
        eth_address = (ap (λ x. read_at made x 20) q ∙ eo) j;
        message = (ap₂ (read_at made) r t ∙ mo) j;
        instruction_indexes = (
          (read_offsets index message ss b i 2 1 s e (omega arith) ∙ index_at.0) j,
          (read_offsets index message ss b i 5 1 s e (omega arith) ∙ index_at.1) j,
          (read_offsets index message ss b i 10 1 s e (omega arith) ∙ index_at.2) j,
        );
      }

get_elem?-All :
    (ss : List SecpSignature) (i : ℕ) (s : SecpSignature)
    → All IsSignature ss
    → get_elem? ss i ≡ some s
    → IsSignature s
get_elem?-All [] i s v e = cc
get_elem?-All (x ∷ ss) zero s v e = let same : x ≡ s = cc in subst IsSignature same v.0
get_elem?-All (x ∷ ss) (suc i) s v e = get_elem?-All ss i s v.1 e

-- From signatures of one message, whose blocks and message are within reach of u16 offsets, the
-- constructor makes data from which a reader of the offsets gets, for each signature, its bytes, its
-- recovery id, its address, the message and the instruction index; the first byte is the number of
-- signatures modulo 256.
pub make-read_entry :
    (index : ℕ) (message : Bytes) (ss : List SecpSignature)
    → IsBundle message ss
    → (i : ℕ) (s : SecpSignature) → get_elem? ss i ≡ some s
    → (made : Bytes) × (make_secp256k1_instruction_data_unique_message ss index ≡ ok made)
      × (read_at made 0 1 ≡ (length ss % 256) ∷ [])
      × (read_entry made i ≡ entry_of index message s)
make-read_entry index message ss b i s e = (
  data_of index message ss,
  make-data_of index message ss b,
  unfold data_of in refl,
  data_of-read_entry index message ss b i s e (get_elem?-All ss i s b.sized e),
)
