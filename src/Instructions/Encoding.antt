-- ===== src/Instructions/Encoding.antt =====
-- What the data of an instruction say: which instruction it is, and its parameters.
use switchboard_sdk.Prelude.{
  ap, ℕ, ◌^◌, ◌<◌, ◌≡◌, refl, sym, ◌∙◌, [], ◌∷◌, ◌++◌, length, append_injective, arith,
}
use switchboard_sdk.Prelude.Bytes.{to_le_bytes-injective}
use switchboard_sdk.Prelude.Words.{Bytes}
use switchboard_sdk.Instructions.Params.{
  InstructionData, guardian_quote_verify, oracle_heartbeat, oracle_heartbeat_v2, oracle_reset_lut,
  oracle_set_configs, oracle_sync_lut, permission_set, queue_garbage_collect, queue_pay_subsidy,
  randomness_commit, discriminator, try_to_vec, instruction_data,
}
use switchboard_sdk.Instructions.Fields.{
  Sized, IsQuote, quote_bytes-injective, heartbeat-injective, configs-injective,
  permission-injective,
}

-- The sizes that the Rust types give.
abbrev pub Fits : InstructionData → Type 0
Fits (guardian_quote_verify p) = IsQuote p
Fits (oracle_heartbeat p) = Sized 64 p.uri
Fits (oracle_heartbeat_v2 p) = Sized 64 p.uri
Fits (oracle_reset_lut recent_slot) = recent_slot < 2 ^ 64
Fits (oracle_set_configs p) = Sized 32 p.new_authority × Sized 64 p.new_secp_authority
Fits oracle_sync_lut = Unit {0}
Fits (permission_set p) = Unit {0}
Fits (queue_garbage_collect idx) = idx < 2 ^ 32
Fits queue_pay_subsidy = Unit {0}
Fits randomness_commit = Unit {0}

-- The first byte of the data.
abbrev tag : InstructionData → ℕ
tag (guardian_quote_verify _) = 168
tag (oracle_heartbeat _) = 10
tag (oracle_heartbeat_v2 _) = 122
tag (oracle_reset_lut _) = 147
tag (oracle_set_configs _) = 129
tag oracle_sync_lut = 138
tag (permission_set _) = 211
tag (queue_garbage_collect _) = 187
tag queue_pay_subsidy = 85
tag randomness_commit = 52

head_or : ℕ → Bytes → ℕ
head_or d [] = d
head_or d (b ∷ bs) = b

data-tag : (p : InstructionData) → ((rest : Bytes) → head_or 0 (discriminator p ++ rest) ≡ tag p)
unfolding head_or discriminator
data-tag p rest = elim p as (λ k. head_or 0 (discriminator k ++ rest) ≡ tag k) [
  | queue_pay_subsidy ↦ refl
  | _ ↦ refl
]

length-discriminator : (p : InstructionData) → length (discriminator p) ≡ 8
unfolding discriminator
length-discriminator p = elim p as (λ k. length (discriminator k) ≡ 8) [
  | queue_pay_subsidy ↦ refl
  | _ ↦ refl
]

-- Of the instruction `k`, that it is `p` when it fits and its data are those of `p`.
abbrev Same : InstructionData → InstructionData → Type 0
Same p k = Fits k → tag p ≡ tag k → try_to_vec p ≡ try_to_vec k → p ≡ k

-- Instructions whose data begin with the same byte are of one kind.
parts : (p : InstructionData) → Fits p → (q : InstructionData) → Same p q
unfolding try_to_vec
parts (guardian_quote_verify p) v q = elim q as (Same (guardian_quote_verify p)) [
  | guardian_quote_verify p' ↦ λ w _ e. ap guardian_quote_verify (quote_bytes-injective p p' v w e)
  | _ ↦ λ _ t. absurd (omega arith)
]
parts (oracle_heartbeat p) v q = elim q as (Same (oracle_heartbeat p)) [
  | oracle_heartbeat p' ↦ λ w _ e. ap oracle_heartbeat (heartbeat-injective p p' v w e)
  | _ ↦ λ _ t. absurd (omega arith)
]
parts (oracle_heartbeat_v2 p) v q = elim q as (Same (oracle_heartbeat_v2 p)) [
  | oracle_heartbeat_v2 p' ↦ λ w _ e. ap oracle_heartbeat_v2 (heartbeat-injective p p' v w e)
  | _ ↦ λ _ t. absurd (omega arith)
]
parts (oracle_reset_lut p) v q = elim q as (Same (oracle_reset_lut p)) [
  | oracle_reset_lut p' ↦
      λ w _ e. ap oracle_reset_lut (to_le_bytes-injective 8 p p' (omega arith) (omega arith) e)
  | _ ↦ λ _ t. absurd (omega arith)
]
parts (oracle_set_configs p) v q = elim q as (Same (oracle_set_configs p)) [
  | oracle_set_configs p' ↦ λ w _ e. ap oracle_set_configs (configs-injective p p' v w e)
  | _ ↦ λ _ t. absurd (omega arith)
]
parts oracle_sync_lut v q = elim q as (Same oracle_sync_lut) [
  | oracle_sync_lut ↦ λ _ _ _. refl
  | _ ↦ λ _ t. absurd (omega arith)
]
parts (permission_set p) v q = elim q as (Same (permission_set p)) [
  | permission_set p' ↦ λ w _ e. ap permission_set (permission-injective p p' e)
  | _ ↦ λ _ t. absurd (omega arith)
]
parts (queue_garbage_collect p) v q = elim q as (Same (queue_garbage_collect p)) [
  | queue_garbage_collect p' ↦
      λ w _ e. ap queue_garbage_collect (to_le_bytes-injective 4 p p' (omega arith) (omega arith) e)
  | _ ↦ λ _ t. absurd (omega arith)
]
parts queue_pay_subsidy v q = elim q as (Same queue_pay_subsidy) [
  | queue_pay_subsidy ↦ λ _ _ _. refl
  | _ ↦ λ _ t. absurd (omega arith)
]
parts randomness_commit v q = elim q as (Same randomness_commit) [
  | randomness_commit ↦ λ _ _ _. refl
  | _ ↦ λ _ t. absurd (omega arith)
]

-- Two instructions of the crate with the same data, of the sizes that the Rust types give, are the same
-- instruction, and have the same parameters, whichever of the ten they are.
pub instruction_data-injective :
    (p q : InstructionData) → Fits p → Fits q → instruction_data p ≡ instruction_data q → p ≡ q
unfolding instruction_data
instruction_data-injective p q v w e =
    let t : tag p ≡ tag q =
      sym (data-tag p (try_to_vec p)) ∙ ap (head_or 0) e ∙ data-tag q (try_to_vec q) in
    let (_, rest) =
      append_injective (discriminator p) (discriminator q) _ _
        (length-discriminator p ∙ sym (length-discriminator q)) e in
    parts p v q w t rest
