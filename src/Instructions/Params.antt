-- ===== src/Instructions/Params.antt =====
-- on_demand/instructions/*.rs of the on-demand crate: the parameters of the instructions, and the data
-- that `InstructionData` of anchor_traits.rs writes for them.
use switchboard_sdk.Prelude.{ℕ, Bool, true, false, Option, none, some, List, [], ◌∷◌, ◌++◌, length}
use switchboard_sdk.Prelude.Int.{ℤ}
use switchboard_sdk.Prelude.Bytes.{to_le_bytes, i64_to_le_bytes}
use switchboard_sdk.Prelude.Words.{Bytes}
use switchboard_sdk.LutInstructions.{sync_discriminator, reset_discriminator}

pub record GuardianQuoteVerifyParams : Type 0 where
  pub timestamp : ℤ
  pub mr_enclave : Bytes
  pub idx : ℕ
  pub ed25519_key : Bytes
  pub secp256k1_key : Bytes
  pub slot : ℕ
  pub signature : Bytes
  pub recovery_id : ℕ
  pub advisories : List ℕ

pub record OracleHeartbeatParams : Type 0 where
  pub uri : Option Bytes

pub record OracleSetConfigsParams : Type 0 where
  pub new_authority : Option Bytes
  pub new_secp_authority : Option Bytes

pub record AttestationPermissionSetParams : Type 0 where
  pub permission : ℕ
  pub enable : Bool

pub data SwitchboardPermission : Type 0 where
  no_permission permit_oracle_heartbeat permit_oracle_queue_usage : SwitchboardPermission

-- `permission as u8`
unfoldable pub permission_as_u8 : SwitchboardPermission → ℕ
permission_as_u8 no_permission = 0
permission_as_u8 permit_oracle_heartbeat = 1
permission_as_u8 permit_oracle_queue_usage = 2

-- The types that implement `InstructionData`. Both heartbeats have the same parameters.
pub data InstructionData : Type 0 where
  guardian_quote_verify : GuardianQuoteVerifyParams → InstructionData
  oracle_heartbeat oracle_heartbeat_v2 : OracleHeartbeatParams → InstructionData
  oracle_reset_lut : ℕ → InstructionData
  oracle_set_configs : OracleSetConfigsParams → InstructionData
  oracle_sync_lut : InstructionData
  permission_set : AttestationPermissionSetParams → InstructionData
  queue_garbage_collect : ℕ → InstructionData
  queue_pay_subsidy randomness_commit : InstructionData

-- The constants DISCRIMINATOR.
abbrev pub quote_verify_discriminator : Bytes
quote_verify_discriminator = 168 ∷ 36 ∷ 93 ∷ 156 ∷ 157 ∷ 150 ∷ 148 ∷ 45 ∷ []

abbrev pub heartbeat_discriminator : Bytes
heartbeat_discriminator = 10 ∷ 175 ∷ 217 ∷ 130 ∷ 111 ∷ 35 ∷ 117 ∷ 54 ∷ []

abbrev pub heartbeat_v2_discriminator : Bytes
heartbeat_v2_discriminator = 122 ∷ 231 ∷ 66 ∷ 32 ∷ 226 ∷ 62 ∷ 144 ∷ 103 ∷ []

abbrev pub set_configs_discriminator : Bytes
set_configs_discriminator = 129 ∷ 111 ∷ 223 ∷ 4 ∷ 191 ∷ 188 ∷ 70 ∷ 180 ∷ []

abbrev pub permission_set_discriminator : Bytes
permission_set_discriminator = 211 ∷ 122 ∷ 185 ∷ 120 ∷ 129 ∷ 182 ∷ 55 ∷ 103 ∷ []

abbrev pub garbage_collect_discriminator : Bytes
garbage_collect_discriminator = 187 ∷ 208 ∷ 104 ∷ 247 ∷ 16 ∷ 91 ∷ 96 ∷ 98 ∷ []

abbrev pub pay_subsidy_discriminator : Bytes
pay_subsidy_discriminator = 85 ∷ 84 ∷ 51 ∷ 251 ∷ 144 ∷ 57 ∷ 105 ∷ 200 ∷ []

abbrev pub commit_discriminator : Bytes
commit_discriminator = 52 ∷ 170 ∷ 152 ∷ 201 ∷ 179 ∷ 133 ∷ 242 ∷ 141 ∷ []

-- `Discriminator::discriminator`
unfoldable pub discriminator : InstructionData → Bytes
discriminator (guardian_quote_verify _) = quote_verify_discriminator
discriminator (oracle_heartbeat _) = heartbeat_discriminator
discriminator (oracle_heartbeat_v2 _) = heartbeat_v2_discriminator
discriminator (oracle_reset_lut _) = reset_discriminator
discriminator (oracle_set_configs _) = set_configs_discriminator
discriminator oracle_sync_lut = sync_discriminator
discriminator (permission_set _) = permission_set_discriminator
discriminator (queue_garbage_collect _) = garbage_collect_discriminator
discriminator queue_pay_subsidy = pay_subsidy_discriminator
discriminator randomness_commit = commit_discriminator

-- What Borsh writes for an option of bytes, for a bool, and for the elements of a Vec<u32>.
unfoldable pub option_bytes : Option Bytes → Bytes
option_bytes none = 0 ∷ []
option_bytes (some b) = 1 ∷ b

unfoldable pub bool_byte : Bool → ℕ
bool_byte false = 0
bool_byte true = 1

unfoldable pub all_u32 : List ℕ → Bytes
all_u32 [] = []
all_u32 (v ∷ vs) = to_le_bytes 4 v ++ all_u32 vs

-- `BorshSerialize for GuardianQuoteVerifyParams`
unfoldable pub quote_bytes : GuardianQuoteVerifyParams → Bytes
unfolding all_u32
quote_bytes p =
    i64_to_le_bytes p.timestamp
    ++ (p.mr_enclave
        ++ (to_le_bytes 4 p.idx
            ++ (p.ed25519_key
                ++ (p.secp256k1_key
                    ++ (to_le_bytes 8 p.slot
                        ++ (p.signature
                            ++ (p.recovery_id
                                ∷ (to_le_bytes 4 (length p.advisories)
                                    ++ all_u32 p.advisories))))))))

-- `try_to_vec`
unfoldable pub try_to_vec : InstructionData → Bytes
unfolding quote_bytes option_bytes bool_byte
try_to_vec (guardian_quote_verify p) = quote_bytes p
try_to_vec (oracle_heartbeat p) = option_bytes p.uri
try_to_vec (oracle_heartbeat_v2 p) = option_bytes p.uri
try_to_vec (oracle_reset_lut recent_slot) = to_le_bytes 8 recent_slot
try_to_vec (oracle_set_configs p) =
    option_bytes p.new_authority ++ option_bytes p.new_secp_authority
try_to_vec oracle_sync_lut = []
try_to_vec (permission_set p) = p.permission ∷ bool_byte p.enable ∷ []
try_to_vec (queue_garbage_collect idx) = to_le_bytes 4 idx
try_to_vec queue_pay_subsidy = []
try_to_vec randomness_commit = []

-- `InstructionData::data`
unfoldable pub instruction_data : InstructionData → Bytes
unfolding discriminator try_to_vec
instruction_data p = discriminator p ++ try_to_vec p
