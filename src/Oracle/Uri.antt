-- ===== src/Oracle/Uri.antt =====
-- The URI of a gateway.
use switchboard_sdk.Prelude.{
  ◌∙◌, sym, subst, length-eq_zero, ap, ◌==◌, Bool-cases, ◌≢◌, ◌≡◌, ◌⊎◌, inl, inr, refl, arith,
  Option, some, none, [], ◌∷◌, ◌++◌, All, take_while, length, not,
}
use switchboard_sdk.Prelude.Words.{Bytes}
use switchboard_sdk.Oracle.{OracleAccountData, gateway_uri}

-- Nothing, or a zero byte first.
abbrev pub EndsHere : Bytes → Type 0
EndsHere rest = (rest ≡ []) ⊎ ((more : Bytes) × (rest ≡ 0 ∷ more))

-- What `gateway_uri` says of the text that it reads.
abbrev pub ReadsUri : Bytes → Option Bytes → Type 0
ReadsUri text none = EndsHere text
ReadsUri text (some uri) =
    (rest : Bytes) × (text ≡ uri ++ rest) × EndsHere rest × All (λ c. c ≢ 0) uri × (uri ≢ [])

abbrev up_to_zero : Bytes → Bytes
up_to_zero = take_while (λ c. not (c == 0))

up_to_zero_splits :
    (text : Bytes)
    → (rest : Bytes) × (text ≡ up_to_zero text ++ rest)
      × EndsHere rest
      × All (λ c. c ≢ 0) (up_to_zero text)
up_to_zero_splits [] = ([], refl, inl refl, tt)
up_to_zero_splits (c ∷ text) = elim (Bool-cases (c == 0)) [
  | inl zero ↦ rw zero (c ∷ text, refl, inr (text, ground arith), tt)
  | inr other ↦
      let (rest, e, ends, clean) = up_to_zero_splits text in
      rw other (rest, ap (◌∷◌ c) e, ends, (ground arith, clean))
]

-- A gateway's URI is the text of the account up to its first zero byte, or up to its end, and there
-- is none exactly when that is empty.
pub gateway_uri-ReadsUri :
    (lossy : Bytes → Bytes) (oracle : OracleAccountData)
    → ReadsUri (lossy oracle.gateway_uri) (gateway_uri lossy oracle)
unfolding gateway_uri
gateway_uri-ReadsUri lossy oracle =
    let text = lossy oracle.gateway_uri in
    let (rest, e, ends, clean) = up_to_zero_splits text in
    elim (Bool-cases (length (up_to_zero text) == 0)) [
      | inl empty ↦
          let nil : up_to_zero text ≡ [] = length-eq_zero (up_to_zero text) (ground arith) in
          rw empty (subst EndsHere (sym (e ∙ ap (λ l. l ++ rest) nil)) ends)
      | inr full ↦
          rw full (rest, e, ends, clean, λ n. cc (full, ap (λ (l : Bytes). length l == 0) n))
    ]
