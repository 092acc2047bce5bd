-- ===== src/Checksum/Timestamped.antt =====
-- The checksum with a timestamp, next to the one without.
use switchboard_sdk.Prelude.{
  ℕ, ◌<◌, ◌^◌, ◌≡◌, ap, sym, ◌∙◌, ◌⊎◌, inl, inr, arith, ◌++◌, length, length-append,
  append_injective,
}
use switchboard_sdk.Prelude.Bytes.{to_le_bytes, length-to_le_bytes, to_le_bytes-injective}
use switchboard_sdk.Prelude.Words.{Bytes}
use switchboard_sdk.Checksum.Binding.{
  IsMessage, Collision, Collision-or_eq, preimage_injective, length-preimage,
}
use switchboard_sdk.Checksum.{
  Message, preimage, generate_checksum_inner, generate_checksum_with_timestamp,
}

module _ (sha256 : Bytes → Bytes) (m n : Message) (v : IsMessage m) (w : IsMessage n) where
  -- Equal checksums with timestamps come from equal messages and equal timestamps, or from a
  -- collision of the hash.
  pub generate_checksum_with_timestamp-binds :
      (s t : ℕ)
      → s < 2 ^ 64
      → t < 2 ^ 64
      → generate_checksum_with_timestamp sha256 m s ≡ generate_checksum_with_timestamp sha256 n t
      → ((m ≡ n) × (s ≡ t)) ⊎ Collision sha256
  unfolding generate_checksum_with_timestamp
  generate_checksum_with_timestamp-binds s t hs ht e =
      elim (Collision-or_eq sha256 (preimage m ++ to_le_bytes 8 s) (preimage n ++ to_le_bytes 8 t)
        e) [
          | inl same ↦
              let (p, q) =
                append_injective (preimage m) (preimage n) _ _
                  (length-preimage m v ∙ sym (length-preimage n w)) same in
              inl (
                preimage_injective m n v w p,
                to_le_bytes-injective 8 s t (omega arith) (omega arith) q,
              )
          | inr found ↦ inr found
        ]

  -- A checksum with a timestamp equals one without only by a collision of the hash.
  pub generate_checksum_domains :
      (t : ℕ)
      → generate_checksum_with_timestamp sha256 m t ≡ generate_checksum_inner sha256 n
      → Collision sha256
  unfolding generate_checksum_with_timestamp generate_checksum_inner
  generate_checksum_domains t e =
      elim (Collision-or_eq sha256 (preimage m ++ to_le_bytes 8 t) (preimage n) e) [
        | inl same ↦ absurd (
            omega (
              arith,
              ap length same,
              length-append (preimage m) (to_le_bytes 8 t),
              length-preimage m v,
              length-preimage n w,
              length-to_le_bytes 8 t,
            ))
        | inr found ↦ found
      ]
