-- ===== src/Checksum/Binding.antt =====
-- Two messages with one checksum (utils.rs, generate_checksum): what their equality says.
use switchboard_sdk.Prelude.{
  ℕ, ◌≡◌, ◌≢◌, ap, sym, ◌∙◌, ◌⊎◌, inl, inr, ◌<◌, ◌^◌, ◌++◌, arith, length, length-append,
  append_injective, Bool-cases,
}
use switchboard_sdk.Prelude.Int.{ℤ, FitsSigned}
use switchboard_sdk.Prelude.Bytes.{
  to_le_bytes, length-to_le_bytes, to_le_bytes-injective, i128_to_le_bytes, length-i128_to_le_bytes,
  i128_to_le_bytes-injective,
}
use switchboard_sdk.Prelude.Words.{Bytes, bytes_eq, bytes_eq→eq, bytes_eq_refl}
use switchboard_sdk.Checksum.{Message, preimage, generate_checksum_inner}

-- The sizes that the Rust types give.
pub record IsMessage (m : Message) : Type 0 where
  pub queue : length m.queue ≡ 32
  pub feed_hash : length m.feed_hash ≡ 32
  pub result : FitsSigned 127 m.result
  pub slothash : length m.slothash ≡ 32
  pub max_variance : m.max_variance < 2 ^ 64
  pub min_responses : m.min_responses < 2 ^ 32

-- Two inputs of the hash with one output.
abbrev pub Collision : (Bytes → Bytes) → Type 0
Collision sha256 = (a : Bytes) × (b : Bytes) × (a ≢ b) × (sha256 a ≡ sha256 b)

pub Collision-or_eq :
    (sha256 : Bytes → Bytes) (a b : Bytes) → sha256 a ≡ sha256 b → (a ≡ b) ⊎ Collision sha256
Collision-or_eq sha256 a b e = elim (Bool-cases (bytes_eq a b)) [
  | inl same ↦ inl (bytes_eq→eq a b same)
  | inr other ↦ inr (a, b, (λ p. cc (other, ap (bytes_eq a) p, bytes_eq_refl a)), e)
]

-- Equal bytes of one width, and what follows them.
pub u64_part :
    {a b : ℕ} {xs ys : Bytes}
    → a < 2 ^ 64
    → b < 2 ^ 64
    → to_le_bytes 8 a ++ xs ≡ to_le_bytes 8 b ++ ys
    → (a ≡ b) × (xs ≡ ys)
u64_part {a} {b} {xs} {ys} ha hb e =
    let (p, q) =
      append_injective (to_le_bytes 8 a) (to_le_bytes 8 b) xs ys
        (length-to_le_bytes 8 a ∙ sym (length-to_le_bytes 8 b)) e in
    (to_le_bytes-injective 8 a b (omega arith) (omega arith) p, q)

pub i128_part :
    {a b : ℤ} {xs ys : Bytes}
    → FitsSigned 127 a
    → FitsSigned 127 b
    → i128_to_le_bytes a ++ xs ≡ i128_to_le_bytes b ++ ys
    → (a ≡ b) × (xs ≡ ys)
i128_part {a} {b} {xs} {ys} ha hb e =
    let (p, q) =
      append_injective (i128_to_le_bytes a) (i128_to_le_bytes b) xs ys
        (length-i128_to_le_bytes a ∙ sym (length-i128_to_le_bytes b)) e in
    (i128_to_le_bytes-injective a b ha hb p, q)

pub preimage_injective :
    (m n : Message) → IsMessage m → IsMessage n → preimage m ≡ preimage n → m ≡ n
unfolding preimage
preimage_injective m n v w e =
    let (queue, e₁) = append_injective m.queue n.queue _ _ (v.queue ∙ sym w.queue) e in
    let (feed_hash, e₂) =
      append_injective m.feed_hash n.feed_hash _ _ (v.feed_hash ∙ sym w.feed_hash) e₁ in
    let (result, e₃) = i128_part v.result w.result e₂ in
    let (slothash, e₄) =
      append_injective m.slothash n.slothash _ _ (v.slothash ∙ sym w.slothash) e₃ in
    let (max_variance, e₅) = u64_part v.max_variance w.max_variance e₄ in
    let min_responses =
      to_le_bytes-injective 4 m.min_responses n.min_responses (omega arith) (omega arith) e₅ in
    λ i. record {
      queue = queue i;
      feed_hash = feed_hash i;
      result = result i;
      slothash = slothash i;
      max_variance = max_variance i;
      min_responses = min_responses i;
    }

-- Two messages of the sizes that the types give have the same checksum only if they are equal in
-- every field, or the hash has a collision.
pub generate_checksum_inner-binds :
    (sha256 : Bytes → Bytes) (m n : Message)
    → IsMessage m
    → IsMessage n
    → generate_checksum_inner sha256 m ≡ generate_checksum_inner sha256 n
    → (m ≡ n) ⊎ Collision sha256
unfolding generate_checksum_inner
generate_checksum_inner-binds sha256 m n v w e =
    elim (Collision-or_eq sha256 (preimage m) (preimage n) e) [
      | inl same ↦ inl (preimage_injective m n v w same)
      | inr found ↦ inr found
    ]

pub length-preimage : (m : Message) → IsMessage m → length (preimage m) ≡ 124
unfolding preimage
length-preimage m v = omega (
  arith,
  v,
  length-append m.queue (
      m.feed_hash
      ++ (i128_to_le_bytes m.result
          ++ (m.slothash ++ (to_le_bytes 8 m.max_variance ++ to_le_bytes 4 m.min_responses)))),
  length-append m.feed_hash (
      i128_to_le_bytes m.result
      ++ (m.slothash ++ (to_le_bytes 8 m.max_variance ++ to_le_bytes 4 m.min_responses))),
  length-append (i128_to_le_bytes m.result)
      (m.slothash ++ (to_le_bytes 8 m.max_variance ++ to_le_bytes 4 m.min_responses)),
  length-append m.slothash (to_le_bytes 8 m.max_variance ++ to_le_bytes 4 m.min_responses),
  length-append (to_le_bytes 8 m.max_variance) (to_le_bytes 4 m.min_responses),
  length-i128_to_le_bytes m.result,
  length-to_le_bytes 8 m.max_variance,
  length-to_le_bytes 4 m.min_responses,
)
