-- ===== src/Secp256k1/Layout.antt =====
-- Where the parts of the instruction data stand.
use switchboard_sdk.Prelude.{
  ap, sym, subst, true, ℕ, ◌+◌, ◌*◌, ◌%◌, ◌^◌, ◌≡◌, ◌≤◌, ◌<◌, refl, ◌∙◌, List, [], ◌∷◌, ◌++◌, map,
  arith, length, length-append, All, ok,
}
use mathlib.Core.List.{append-nil, append_assoc}
use switchboard_sdk.Prelude.Bytes.{to_le_bytes}
use switchboard_sdk.Prelude.Words.{bytes_eq_refl, Bytes}
use switchboard_sdk.Secp256k1.{
  make_secp256k1_instruction_data_unique_message, same_messages, SecpSignature, u16_try_from,
  offsets_bytes, block, bundle, concat, offsets_area_size, message_offset_of,
}

-- The sizes that the Rust type gives.
pub record IsSignature (s : SecpSignature) : Type 0 where
  pub signature : length s.signature ≡ 64
  pub eth_address : length s.eth_address ≡ 20

pub length-offsets_bytes : (i a b c d : ℕ) → length (offsets_bytes i a b c d) ≡ 11
unfolding offsets_bytes to_le_bytes
length-offsets_bytes i a b c d = refl

pub length-block : (s : SecpSignature) → IsSignature s → length (block s) ≡ 85
unfolding block
length-block s v = omega (arith, v, length-append s.signature (s.recovery_id ∷ s.eth_address))

-- The offsets of signatures whose first block starts at `start`.
unfoldable pub offsets_from :
    (index start message_offset message_size : ℕ) → List SecpSignature → List Bytes
offsets_from index start message_offset message_size [] = []
offsets_from index start message_offset message_size (s ∷ ss) =
    offsets_bytes index start (start + 65) message_offset message_size
    ∷ offsets_from index (start + 85) message_offset message_size ss

u16_try_from-ok : (n : ℕ) → n < 2 ^ 16 → u16_try_from n ≡ ok n
unfolding u16_try_from
u16_try_from-ok n h = ground arith

module _ (index area message_offset message_size : ℕ) (hm : message_offset < 2 ^ 16)
    (hs : message_size < 2 ^ 16) where
  -- One round, when the block fits in front of the message.
  bundle_step :
      (s : SecpSignature) (ss : List SecpSignature) (offsets : List Bytes) (buffer : Bytes)
      → area + length buffer + 85 ≤ message_offset
      → bundle index area message_offset message_size (s ∷ ss) offsets buffer
        ≡ bundle index area message_offset message_size ss
            (offsets
              ++ offsets_bytes index
                  (area + length buffer)
                  (area + length buffer + 65)
                  message_offset
                  message_size
                ∷ [])
            (buffer ++ block s)
  unfolding bundle
  bundle_step s ss offsets buffer room =
      let here : ℕ = area + length buffer in
      let eth : here + 64 + 1 ≡ here + 65 = omega arith in
      rw (
        u16_try_from-ok here (omega arith),
        u16_try_from-ok (here + 64 + 1) (omega arith),
        u16_try_from-ok message_offset hm,
        u16_try_from-ok message_size hs,
        length-offsets_bytes index here (here + 64 + 1) message_offset message_size,
        eth,
      )

  -- The loop appends the offsets and the blocks.
  bundle_lem :
      (ss : List SecpSignature) (offsets : List Bytes) (buffer : Bytes)
      → All IsSignature ss
      → area + length buffer + 85 * length ss ≤ message_offset
      → bundle index area message_offset message_size ss offsets buffer
        ≡ ok (
          offsets ++ offsets_from index (area + length buffer) message_offset message_size ss,
          buffer ++ concat (map block ss),
        )
  unfolding offsets_from concat
  bundle_lem [] offsets buffer v room = rw (append-nil, append-nil) (unfold bundle in refl)
  bundle_lem (s ∷ ss) offsets buffer v room =
      let next : area + length (buffer ++ block s) ≡ area + length buffer + 85 =
        omega (arith, length-append buffer (block s), length-block s v.0) in
      bundle_step s ss offsets buffer (omega arith)
      ∙ bundle_lem ss _ (buffer ++ block s) v.1 (omega arith)
      ∙ rw (next, append_assoc, append_assoc)

pub length-concat_offsets :
    (i a mo ms : ℕ) (ss : List SecpSignature)
    → length (concat (offsets_from i a mo ms ss)) ≡ 11 * length ss
unfolding concat offsets_from
length-concat_offsets i a mo ms [] = refl
length-concat_offsets i a mo ms (s ∷ ss) = omega (
  arith,
  length-append (offsets_bytes i a (a + 65) mo ms) (concat (offsets_from i (a + 85) mo ms ss)),
  length-offsets_bytes i a (a + 65) mo ms,
  length-concat_offsets i (a + 85) mo ms ss,
)

pub length-concat_blocks :
    (ss : List SecpSignature) → All IsSignature ss → length (concat (map block ss)) ≡ 85 * length ss
unfolding concat
length-concat_blocks [] v = refl
length-concat_blocks (s ∷ ss) v = omega (
  arith,
  length-append (block s) (concat (map block ss)),
  length-block s v.0,
  length-concat_blocks ss v.1,
)

-- The data as its parts: the count, the offsets, the blocks, the message.
unfoldable pub data_of : ℕ → Bytes → List SecpSignature → Bytes
data_of index message ss =
    (length ss % 256)
      ∷ concat (
          offsets_from index (offsets_area_size (length ss)) (message_offset_of (length ss))
            (length message) ss)
    ++ (concat (map block ss) ++ message)

abbrev pub SharesMessage : Bytes → List SecpSignature → Type 0
SharesMessage message ss = All (λ (s : SecpSignature). s.message ≡ message) ss

same_messages-shared :
    (message : Bytes) (ss : List SecpSignature)
    → SharesMessage message ss
    → same_messages message ss ≡ true
unfolding same_messages
same_messages-shared message [] h = refl
same_messages-shared message (s ∷ ss) h =
    rw (h.0, bytes_eq_refl message) (same_messages-shared message ss h.1)

-- What the constructor asks of its signatures: one at least, one message, and sizes within u16.
pub record IsBundle (message : Bytes) (ss : List SecpSignature) : Type 0 where
  pub some_signature : 0 < length ss
  pub sized : All IsSignature ss
  pub shared : SharesMessage message ss
  pub offset_fits : message_offset_of (length ss) < 2 ^ 16
  pub size_fits : length message < 2 ^ 16

pub message_offset_of-room : (n : ℕ) → offsets_area_size n + 85 * n ≡ message_offset_of n
unfolding offsets_area_size message_offset_of
message_offset_of-room n = omega arith

make_run :
    (index : ℕ) (s : SecpSignature) (ss : List SecpSignature) {offsets : List Bytes}
    {buffer : Bytes}
    → same_messages s.message (s ∷ ss) ≡ true
    → bundle index
        (offsets_area_size (length (s ∷ ss)))
        (message_offset_of (length (s ∷ ss)))
        (length s.message)
        (s ∷ ss)
        []
        []
      ≡ ok (offsets, buffer)
    → make_secp256k1_instruction_data_unique_message (s ∷ ss) index
      ≡ ok ((length (s ∷ ss) % 256) ∷ concat offsets ++ (buffer ++ s.message))
unfolding make_secp256k1_instruction_data_unique_message
make_run index s ss same run = rw (same, run)

-- A bundle is built without an error, into the parts in their order.
pub make-data_of :
    (index : ℕ) (message : Bytes) (ss : List SecpSignature)
    → IsBundle message ss
    → make_secp256k1_instruction_data_unique_message ss index ≡ ok (data_of index message ss)
unfolding data_of
make-data_of index message [] b = absurd (omega (arith, b.some_signature))
make-data_of index message (s ∷ ss) b =
    let n : ℕ = length (s ∷ ss) in
    let e : s.message ≡ message = b.shared.0 in
    let same : same_messages s.message (s ∷ ss) ≡ true =
      subst (λ m. same_messages m (s ∷ ss) ≡ true) (sym e)
        (same_messages-shared message (s ∷ ss) b.shared) in
    let zero_start : offsets_area_size n + 0 ≡ offsets_area_size n = omega arith in
    let run =
      bundle_lem index (offsets_area_size n) (message_offset_of n) (length s.message) b.offset_fits
        (omega (arith, ap length e, b.size_fits)) (s ∷ ss) [] [] b.sized
        (omega (arith, message_offset_of-room n)) in
    subst
      (λ m.
        make_secp256k1_instruction_data_unique_message (s ∷ ss) index
        ≡ ok (
            (n % 256)
              ∷ concat (
                  offsets_from index (offsets_area_size n) (message_offset_of n) (length m)
                    (s ∷ ss))
            ++ (concat (map block (s ∷ ss)) ++ m)))
      e (make_run index s ss same (rw zero_start at run))
