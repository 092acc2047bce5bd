-- ===== src/Instructions/Fields.antt =====
-- The fields of instructions' parameters: what their bytes say of them.
use switchboard_sdk.Prelude.{
  Bool, ap, ap₂, ℕ, ◌^◌, ◌<◌, ◌≡◌, refl, sym, ◌∙◌, Option, none, some, List, [], ◌∷◌, ◌++◌, All,
  length, append_injective, arith,
}
use switchboard_sdk.Prelude.Int.{FitsSigned}
use switchboard_sdk.Prelude.Bytes.{
  to_le_bytes, i64_to_le_bytes, i64_to_le_bytes-injective, length-i64_to_le_bytes,
}
use switchboard_sdk.Prelude.Words.{Bytes}
use switchboard_sdk.Checksum.Binding.{u64_part}
use switchboard_sdk.Submit.Fields.{u32_part}
use switchboard_sdk.Instructions.Params.{
  GuardianQuoteVerifyParams, OracleHeartbeatParams, OracleSetConfigsParams,
  AttestationPermissionSetParams, option_bytes, bool_byte, all_u32, quote_bytes,
}

-- An optional array of `n` bytes.
abbrev pub Sized : ℕ → Option Bytes → Type 0
Sized n none = Unit {0}
Sized n (some b) = length b ≡ n

pub record IsQuote (p : GuardianQuoteVerifyParams) : Type 0 where
  pub timestamp : FitsSigned 63 p.timestamp
  pub mr_enclave : length p.mr_enclave ≡ 32
  pub idx : p.idx < 2 ^ 32
  pub ed25519_key : length p.ed25519_key ≡ 32
  pub secp256k1_key : length p.secp256k1_key ≡ 64
  pub slot : p.slot < 2 ^ 64
  pub signature : length p.signature ≡ 64
  pub count : length p.advisories < 2 ^ 32
  pub advisories : All (λ v. v < 2 ^ 32) p.advisories

option_part :
    (n : ℕ) (a b : Option Bytes) {xs ys : Bytes}
    → Sized n a
    → Sized n b
    → option_bytes a ++ xs ≡ option_bytes b ++ ys
    → (a ≡ b) × (xs ≡ ys)
unfolding option_bytes
option_part n none none v w e = (refl, ground (arith, e))
option_part n none (some b) v w e = cc e
option_part n (some a) none v w e = cc e
option_part n (some a) (some b) {xs} {ys} v w e =
    let tail : a ++ xs ≡ b ++ ys = ground (arith, e) in
    let (p, q) = append_injective a b xs ys (v ∙ sym w) tail in (ap some p, q)

all_u32-injective :
    (vs us : List ℕ)
    → All (λ v. v < 2 ^ 32) vs
    → All (λ v. v < 2 ^ 32) us
    → length vs ≡ length us
    → all_u32 vs ≡ all_u32 us
    → vs ≡ us
unfolding all_u32
all_u32-injective [] [] v w n e = refl
all_u32-injective [] (t ∷ ts) v w n e = absurd (omega arith)
all_u32-injective (s ∷ ss) [] v w n e = absurd (omega arith)
all_u32-injective (s ∷ ss) (t ∷ ts) v w n e =
    let (same, rest) = u32_part v.0 w.0 e in
    ap₂ (◌∷◌) same (all_u32-injective ss ts v.1 w.1 (omega arith) rest)

pub quote_bytes-injective :
    (p q : GuardianQuoteVerifyParams)
    → IsQuote p
    → IsQuote q
    → quote_bytes p ≡ quote_bytes q
    → p ≡ q
unfolding quote_bytes
quote_bytes-injective p q v w e =
    let (t, e₁) =
      append_injective (i64_to_le_bytes p.timestamp) (i64_to_le_bytes q.timestamp) _ _
        (length-i64_to_le_bytes p.timestamp ∙ sym (length-i64_to_le_bytes q.timestamp)) e in
    let timestamp = i64_to_le_bytes-injective p.timestamp q.timestamp v.timestamp w.timestamp t in
    let (mr_enclave, e₂) =
      append_injective p.mr_enclave q.mr_enclave _ _ (v.mr_enclave ∙ sym w.mr_enclave) e₁ in
    let (idx, e₃) = u32_part v.idx w.idx e₂ in
    let (ed25519_key, e₄) =
      append_injective p.ed25519_key q.ed25519_key _ _ (v.ed25519_key ∙ sym w.ed25519_key) e₃ in
    let (secp256k1_key, e₅) =
      append_injective p.secp256k1_key q.secp256k1_key _ _ (v.secp256k1_key ∙ sym w.secp256k1_key)
        e₄ in
    let (slot, e₆) = u64_part v.slot w.slot e₅ in
    let (signature, e₇) =
      append_injective p.signature q.signature _ _ (v.signature ∙ sym w.signature) e₆ in
    let recovery_id : p.recovery_id ≡ q.recovery_id = ground (arith, e₇) in
    let e₈ : to_le_bytes 4 (length p.advisories) ++ all_u32 p.advisories
        ≡ to_le_bytes 4 (length q.advisories) ++ all_u32 q.advisories =
      ground (arith, e₇) in
    let (count, e₉) = u32_part v.count w.count e₈ in
    let advisories =
      all_u32-injective p.advisories q.advisories v.advisories w.advisories count e₉ in
    λ i. record {
      timestamp = timestamp i;
      mr_enclave = mr_enclave i;
      idx = idx i;
      ed25519_key = ed25519_key i;
      secp256k1_key = secp256k1_key i;
      slot = slot i;
      signature = signature i;
      recovery_id = recovery_id i;
      advisories = advisories i;
    }

bool_byte-injective : (a b : Bool) → bool_byte a ≡ bool_byte b → a ≡ b
unfolding bool_byte
bool_byte-injective a b e = ground (arith, e)

pub heartbeat-injective :
    (p q : OracleHeartbeatParams)
    → Sized 64 p.uri
    → Sized 64 q.uri
    → option_bytes p.uri ≡ option_bytes q.uri
    → p ≡ q
heartbeat-injective p q v w e =
    let (uri, _) =
      option_part 64 p.uri q.uri {xs = []} {ys = []} v w (ap (λ (b : Bytes). b ++ []) e) in
    λ i. record { uri = uri i }

pub configs-injective :
    (p q : OracleSetConfigsParams)
    → Sized 32 p.new_authority × Sized 64 p.new_secp_authority
    → Sized 32 q.new_authority × Sized 64 q.new_secp_authority
    → option_bytes p.new_authority ++ option_bytes p.new_secp_authority
      ≡ option_bytes q.new_authority ++ option_bytes q.new_secp_authority
    → p ≡ q
configs-injective p q v w e =
    let (authority, rest) = option_part 32 p.new_authority q.new_authority v.0 w.0 e in
    let (secp, _) =
      option_part 64 p.new_secp_authority q.new_secp_authority {xs = []} {ys = []} v.1 w.1
        (ap (λ (b : Bytes). b ++ []) rest) in
    λ i. record { new_authority = authority i; new_secp_authority = secp i }

pub permission-injective :
    (p q : AttestationPermissionSetParams)
    → ◌≡◌ {A = Bytes}
        (p.permission ∷ bool_byte p.enable ∷ [])
        (q.permission ∷ bool_byte q.enable ∷ [])
    → p ≡ q
permission-injective p q e =
    let permission : p.permission ≡ q.permission = ground (arith, e) in
    let enable = bool_byte-injective p.enable q.enable (ground (arith, e)) in
    λ i. record { permission = permission i; enable = enable i }
