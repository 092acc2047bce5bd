-- ===== src/Keys/Seeds.antt =====
-- Which inputs a derived key belongs to.
use switchboard_sdk.Prelude.{
  ℕ, ◌≡◌, ◌⊎◌, inl, inr, sym, ◌∙◌, ap, [], Option, length, length-append, append_injective,
  unwrap_or, arith,
}
use switchboard_sdk.Prelude.Words.{Bytes}
use switchboard_sdk.Checksum.Binding.{Collision, Collision-or_eq}
use switchboard_sdk.Keys.{seed_of}

-- The inputs of a key, besides its base.
pub record KeyInput : Type 0 where
  pub base : Bytes
  pub secret_key : Bytes
  pub more_bytes : Option Bytes
  pub program_id : Option Bytes

abbrev pub seed_from : Bytes → KeyInput → Bytes
seed_from default_program k = seed_of default_program k.base k.secret_key k.more_bytes k.program_id

-- A secret of 32 bytes and program ids of 32 bytes.
pub record IsKeyInput (default_program : Bytes) (k : KeyInput) : Type 0 where
  pub secret_key : length k.secret_key ≡ 32
  pub program : length (unwrap_or k.program_id default_program) ≡ 32

-- The same base, secret, further bytes, none counting as no bytes, and program, none counting as
-- the default.
abbrev pub SameKeyInput : Bytes → KeyInput → KeyInput → Type 0
SameKeyInput default_program j k =
    (j.base ≡ k.base)
    × (j.secret_key ≡ k.secret_key)
    × (unwrap_or j.more_bytes [] ≡ unwrap_or k.more_bytes [])
    × (unwrap_or j.program_id default_program ≡ unwrap_or k.program_id default_program)

seed_of-injective :
    (default_program : Bytes) (j k : KeyInput)
    → IsKeyInput default_program j
    → IsKeyInput default_program k
    → length j.base ≡ length k.base
    → seed_from default_program j ≡ seed_from default_program k
    → SameKeyInput default_program j k
unfolding seed_of
seed_of-injective default_program j k v w n e =
    let (base, e₁) = append_injective j.base k.base _ _ n e in
    let (secret, e₂) =
      append_injective j.secret_key k.secret_key _ _ (v.secret_key ∙ sym w.secret_key) e₁ in
    let m : ℕ = length (unwrap_or j.more_bytes []) in
    let same : length (unwrap_or j.more_bytes []) ≡ length (unwrap_or k.more_bytes []) = omega (
      arith,
      ap length e₂,
      v.program,
      w.program,
      length-append (unwrap_or j.more_bytes []) (unwrap_or j.program_id default_program),
      length-append (unwrap_or k.more_bytes []) (unwrap_or k.program_id default_program),
    ) in
    let (more, program) =
      append_injective (unwrap_or j.more_bytes []) (unwrap_or k.more_bytes []) _ _ same e₂ in
    (base, secret, more, program)

-- For bases of one length, two inputs have the same hash of their seeds, of which the key is made, only if
-- they agree in the base, the secret, the further bytes and the program, or the hash has a collision.
pub seed_of-binds :
    (sha256 : Bytes → Bytes) (default_program : Bytes) (j k : KeyInput)
    → IsKeyInput default_program j
    → IsKeyInput default_program k
    → length j.base ≡ length k.base
    → sha256 (seed_from default_program j) ≡ sha256 (seed_from default_program k)
    → SameKeyInput default_program j k ⊎ Collision sha256
seed_of-binds sha256 default_program j k v w n e =
    elim (Collision-or_eq sha256 (seed_from default_program j) (seed_from default_program k) e) [
      | inl same ↦ inl (seed_of-injective default_program j k v w n same)
      | inr found ↦ inr found
    ]
