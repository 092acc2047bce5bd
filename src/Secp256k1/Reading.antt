-- ===== src/Secp256k1/Reading.antt =====
-- The instruction data read back as the offsets say: fields of `SecpSignatureOffsets`, in its order.
use switchboard_sdk.Prelude.{
  take-length, get_elem?-bound, ◌^◌, map, ◌<◌, ℕ, zero, suc, ◌+◌, ◌*◌, ◌≡◌, ◌≤◌, refl, ap, ◌∙◌,
  List, [], ◌∷◌, ◌++◌, some, arith, length, take, drop, get_elem?, All,
}
use switchboard_sdk.Prelude.Words.{Bytes}
use switchboard_sdk.Secp256k1.{
  offsets_area_size, message_offset_of, block, to_le_bytes, offsets_bytes, SecpSignature, concat,
}
use switchboard_sdk.Prelude.Bytes.{to_le_bytes, from_le_bytes}
use switchboard_sdk.Secp256k1.Layout.{
  length-concat_blocks, length-concat_offsets, data_of, IsBundle, length-block,
  length-offsets_bytes, IsSignature, offsets_from,
}

abbrev pub read_at : Bytes → ℕ → ℕ → Bytes
read_at bytes offset n = take n (drop offset bytes)

drop_append_add : (xs ys : Bytes) (k : ℕ) → drop (length xs + k) (xs ++ ys) ≡ drop k ys
drop_append_add [] ys k = let e : 0 + k ≡ k = omega arith in rw e
drop_append_add (x ∷ xs) ys k =
    let e : suc (length xs) + k ≡ suc (length xs + k) = omega arith in
    rw e (drop_append_add xs ys k)

-- Behind the first part.
pub read_at_behind :
    (xs ys : Bytes) (k n : ℕ) → read_at (xs ++ ys) (length xs + k) n ≡ read_at ys k n
read_at_behind xs ys k n = ap (take n) (drop_append_add xs ys k)

take_append-le : (n : ℕ) (xs ys : Bytes) → n ≤ length xs → take n (xs ++ ys) ≡ take n xs
take_append-le zero xs ys h = refl
take_append-le (suc n) [] ys h = absurd (omega arith)
take_append-le (suc n) (x ∷ xs) ys h = ap (◌∷◌ x) (take_append-le n xs ys (omega arith))

-- Within the first part.
pub read_at_within :
    (xs ys : Bytes) (k n : ℕ) → k + n ≤ length xs → read_at (xs ++ ys) k n ≡ read_at xs k n
read_at_within xs ys zero n h = take_append-le n xs ys (omega arith)
read_at_within [] ys (suc k) n h = absurd (omega arith)
read_at_within (x ∷ xs) ys (suc k) n h = read_at_within xs ys k n (omega arith)

-- Within the piece `i` of pieces that all have `w` bytes.
read_at_piece :
    (w : ℕ) (ps : List Bytes) (i k n : ℕ) (p : Bytes)
    → All (λ p. length p ≡ w) ps
    → get_elem? ps i ≡ some p
    → k + n ≤ w
    → read_at (concat ps) (w * i + k) n ≡ read_at p k n
unfolding concat
read_at_piece w [] i k n p v e h = cc
read_at_piece w (q ∷ ps) zero k n p v e h =
    let same : q ≡ p = cc in
    let at : w * 0 + k ≡ k = omega arith in
    rw (at, same) (read_at_within p (concat ps) k n (omega (arith, ap length same, v.0)))
read_at_piece w (q ∷ ps) (suc i) k n p v e h =
    let at : w * suc i + k ≡ length q + (w * i + k) = omega (arith, v.0) in
    rw at (read_at_behind q (concat ps) (w * i + k) n ∙ read_at_piece w ps i k n p v.1 e h)

-- A little-endian u16 in the data.
unfoldable pub u16_at : Bytes → ℕ → ℕ
u16_at bytes offset = from_le_bytes (read_at bytes offset 2)

-- What a verifier reads for the signature `i`.
pub record Entry : Type 0 where
  pub signature : Bytes
  pub recovery_id : Bytes
  pub eth_address : Bytes
  pub message : Bytes
  pub instruction_indexes : Bytes × Bytes × Bytes

unfoldable pub read_entry : Bytes → ℕ → Entry
read_entry bytes i =
    let at = 1 + 11 * i in
    let signature_offset = u16_at bytes at in
    record {
      signature = read_at bytes signature_offset 64;
      recovery_id = read_at bytes (signature_offset + 64) 1;
      eth_address = read_at bytes (u16_at bytes (at + 3)) 20;
      message = read_at bytes (u16_at bytes (at + 6)) (u16_at bytes (at + 8));
      instruction_indexes =
          (read_at bytes (at + 2) 1, read_at bytes (at + 5) 1, read_at bytes (at + 10) 1);
    }

-- The offsets of signature `i` are the piece `i` of the offsets.
get_elem?-offsets_from :
    (index start mo ms i : ℕ) (ss : List SecpSignature) (s : SecpSignature)
    → get_elem? ss i ≡ some s
    → get_elem? (offsets_from index start mo ms ss) i
      ≡ some (offsets_bytes index (start + 85 * i) (start + 85 * i + 65) mo ms)
unfolding offsets_from
get_elem?-offsets_from index start mo ms i [] s e = cc
get_elem?-offsets_from index start mo ms zero (x ∷ ss) s e =
    let at : start + 85 * 0 ≡ start = omega arith in rw at
get_elem?-offsets_from index start mo ms (suc i) (x ∷ ss) s e =
    let at : start + 85 * suc i ≡ start + 85 + 85 * i = omega arith in
    rw at (get_elem?-offsets_from index (start + 85) mo ms i ss s e)

All-offsets_from :
    (index start mo ms : ℕ) (ss : List SecpSignature)
    → All (λ p. length p ≡ 11) (offsets_from index start mo ms ss)
unfolding offsets_from
All-offsets_from index start mo ms [] = tt
All-offsets_from index start mo ms (s ∷ ss) = (
  length-offsets_bytes index start (start + 65) mo ms,
  All-offsets_from index (start + 85) mo ms ss,
)

All-block : (ss : List SecpSignature) → All IsSignature ss → All (λ p. length p ≡ 85) (map block ss)
All-block [] v = tt
All-block (s ∷ ss) v = (length-block s v.0, All-block ss v.1)

get_elem?-map-block :
    (ss : List SecpSignature) (i : ℕ) (s : SecpSignature)
    → get_elem? ss i ≡ some s
    → get_elem? (map block ss) i ≡ some (block s)
get_elem?-map-block [] i s e = cc
get_elem?-map-block (x ∷ ss) zero s e = cc
get_elem?-map-block (x ∷ ss) (suc i) s e = get_elem?-map-block ss i s e

-- The fields of eleven bytes.
module _ (index a b c d : ℕ) (ha : a < 2 ^ 16) (hb : b < 2 ^ 16) (hc : c < 2 ^ 16)
    (hd : d < 2 ^ 16) where
  pub u16_at-offsets_bytes :
      (u16_at (offsets_bytes index a b c d) 0 ≡ a)
      × (u16_at (offsets_bytes index a b c d) 3 ≡ b)
      × (u16_at (offsets_bytes index a b c d) 6 ≡ c)
      × (u16_at (offsets_bytes index a b c d) 8 ≡ d)
  unfolding u16_at offsets_bytes to_le_bytes from_le_bytes
  u16_at-offsets_bytes = (omega arith, omega arith, omega arith, omega arith)

pub index_at-offsets_bytes :
    (index a b c d : ℕ)
    → (read_at (offsets_bytes index a b c d) 2 1 ≡ index ∷ [])
      × (read_at (offsets_bytes index a b c d) 5 1 ≡ index ∷ [])
      × (read_at (offsets_bytes index a b c d) 10 1 ≡ index ∷ [])
unfolding offsets_bytes to_le_bytes
index_at-offsets_bytes index a b c d = (refl, refl, refl)

-- Reads that land in the offsets, the blocks and the message.
module _ (index : ℕ) (message : Bytes) (ss : List SecpSignature) (b : IsBundle message ss) where
  abbrev area : ℕ
  area = offsets_area_size (length ss)

  abbrev message_start : ℕ
  message_start = message_offset_of (length ss)

  abbrev offsets : Bytes
  offsets = concat (offsets_from index area message_start (length message) ss)

  abbrev blocks : Bytes
  blocks = concat (map block ss)

  pub read_offsets :
      (i k n : ℕ) (s : SecpSignature)
      → get_elem? ss i ≡ some s
      → k + n ≤ 11
      → read_at (data_of index message ss) (1 + 11 * i + k) n
        ≡ read_at
            (offsets_bytes index
              (area + 85 * i)
              (area + 85 * i + 65)
              message_start
              (length message))
            k
            n
  unfolding data_of
  read_offsets i k n s e h =
      let at : 1 + 11 * i + k ≡ suc (11 * i + k) = omega arith in
      rw at (
        read_at_within offsets (blocks ++ message) (11 * i + k) n (
          omega (
            arith,
            length-concat_offsets index area message_start (length message) ss,
            get_elem?-bound ss i s e,
          ))
        ∙ read_at_piece 11 (offsets_from index area message_start (length message) ss) i k n _
            (All-offsets_from index area message_start (length message) ss)
            (get_elem?-offsets_from index area message_start (length message) i ss s e) h)

  pub read_block :
      (i k n : ℕ) (s : SecpSignature)
      → get_elem? ss i ≡ some s
      → k + n ≤ 85
      → read_at (data_of index message ss) (area + 85 * i + k) n ≡ read_at (block s) k n
  unfolding data_of offsets_area_size
  read_block i k n s e h =
      let len = length-concat_offsets index area message_start (length message) ss in
      let at : area + 85 * i + k ≡ suc (length offsets + (85 * i + k)) = omega (arith, len) in
      rw at (
        read_at_behind offsets (blocks ++ message) (85 * i + k) n
        ∙ read_at_within blocks message (85 * i + k) n
            (omega (arith, length-concat_blocks ss b.sized, get_elem?-bound ss i s e))
        ∙ read_at_piece 85 (map block ss) i k n (block s) (All-block ss b.sized)
            (get_elem?-map-block ss i s e) h)

  pub read_message : read_at (data_of index message ss) message_start (length message) ≡ message
  unfolding data_of message_offset_of offsets_area_size
  read_message =
      let len = length-concat_offsets index area message_start (length message) ss in
      let len' = length-concat_blocks ss b.sized in
      let at : message_start ≡ suc (length offsets + (length blocks + 0)) =
        omega (arith, len, len') in
      ap (λ p. read_at (data_of index message ss) p (length message)) at
      ∙ read_at_behind offsets (blocks ++ message) (length blocks + 0) (length message)
      ∙ read_at_behind blocks message 0 (length message)
      ∙ take-length message
