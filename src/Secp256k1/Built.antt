-- ===== src/Secp256k1/Built.antt =====
-- What follows from an instruction that was built.
use switchboard_sdk.Prelude.{
  ◌+◌, ◌≡◌, ap, List, [], ◌∷◌, All, length, ok, ltb, ◌<◌, ◌^◌, ℕ, arith, true, >>=-eq-ok, guard-ok,
  Bool-cases, inl, inr, ok-injective,
}
use switchboard_sdk.Prelude.Words.{Bytes, bytes_eq, bytes_eq→eq}
use switchboard_sdk.Transaction.{Instruction}
use switchboard_sdk.Secp256k1.{
  SecpSignature, u16_try_from, same_messages, bundle, offsets_area_size, message_offset_of,
  make_secp256k1_instruction_data_unique_message, build_secp256k1_instruction,
}
use switchboard_sdk.Secp256k1.Layout.{IsBundle, IsSignature, SharesMessage}

u16_try_from-fits : (n m : ℕ) → u16_try_from n ≡ ok m → n < 2 ^ 16
unfolding u16_try_from
u16_try_from-fits n m h = elim (Bool-cases (ltb n (2 ^ 16))) [
  | inl fits ↦ ground arith
  | inr large ↦ cc (rw large at h)
]

same_messages→SharesMessage :
    (message : Bytes) (ss : List SecpSignature)
    → same_messages message ss ≡ true
    → SharesMessage message ss
unfolding same_messages
same_messages→SharesMessage message [] h = tt
same_messages→SharesMessage message (s ∷ ss) h = elim (Bool-cases (bytes_eq s.message message)) [
  | inl same ↦
      (bytes_eq→eq s.message message same, same_messages→SharesMessage message ss (rw same at h))
  | inr other ↦ cc (rw other at h)
]

bundle-fits :
    (index area mo ms : ℕ) (s : SecpSignature) (ss : List SecpSignature) (offsets : List Bytes)
    (buffer : Bytes) {out : List Bytes × Bytes}
    → bundle index area mo ms (s ∷ ss) offsets buffer ≡ ok out
    → (mo < 2 ^ 16) × (ms < 2 ^ 16)
unfolding bundle
bundle-fits index area mo ms s ss offsets buffer h =
    let (a, _, h₁) = >>=-eq-ok (u16_try_from (area + length buffer)) _ h in
    let (b, _, h₂) = >>=-eq-ok (u16_try_from (area + length buffer + 64 + 1)) _ h₁ in
    let (c, fits, h₃) = >>=-eq-ok (u16_try_from mo) _ h₂ in
    let (d, small, _) = >>=-eq-ok (u16_try_from ms) _ h₃ in
    (u16_try_from-fits mo c fits, u16_try_from-fits ms d small)

make-IsBundle :
    (index : ℕ) (ss : List SecpSignature) {made : Bytes}
    → All IsSignature ss
    → make_secp256k1_instruction_data_unique_message ss index ≡ ok made
    → (message : Bytes) × IsBundle message ss
unfolding make_secp256k1_instruction_data_unique_message
make-IsBundle index [] v h = cc
make-IsBundle index (s ∷ ss) v h =
    let (same, run) = guard-ok (same_messages s.message (s ∷ ss)) _ _ h in
    let (p, bundled, _) =
      >>=-eq-ok
        (bundle index (offsets_area_size (length (s ∷ ss))) (message_offset_of (length (s ∷ ss)))
          (length s.message) (s ∷ ss) [] [])
        _ run in
    let (offset, size) =
      bundle-fits index (offsets_area_size (length (s ∷ ss))) (message_offset_of (length (s ∷ ss)))
        (length s.message) s ss [] [] bundled in
    (
      s.message,
      record {
        some_signature = omega arith;
        sized = v;
        shared = same_messages→SharesMessage s.message (s ∷ ss) same;
        offset_fits = offset;
        size_fits = size;
      },
    )

-- An instruction that was built from signatures of the right sizes was built from a bundle.
pub build-IsBundle :
    (program : Bytes) (ss : List SecpSignature) (index : ℕ) (ix : Instruction)
    → All IsSignature ss
    → build_secp256k1_instruction program ss index ≡ ok ix
    → (message : Bytes) × IsBundle message ss
      × (make_secp256k1_instruction_data_unique_message ss index ≡ ok ix.input)
unfolding build_secp256k1_instruction
build-IsBundle program ss index ix v h =
    let (made, run, e) = >>=-eq-ok (make_secp256k1_instruction_data_unique_message ss index) _ h in
    let (message, b) = make-IsBundle index ss v run in
    let same : made ≡ ix.input = ap (λ (x : Instruction). x.input) (ok-injective e) in
    (message, b, rw same at run)
