-- ===== src/Updates/Reading.antt =====
-- What the closures of an update by consensus return: signatures of the right sizes, and the places
-- of the oracles among the accounts.
use switchboard_sdk.Prelude.{
  ℕ, zero, suc, ◌+◌, ◌*◌, ◌≡◌, ap, sym, ◌∙◌, Option, none, some, List, [], ◌∷◌, ok, err, panic,
  arith, length, get_elem?, >>=-eq-ok, unwrap, Outcome, ok-injective, false, ◌==◌, Bool-cases, inl,
  inr,
}
use switchboard_sdk.Prelude.Words.{Bytes}
use switchboard_sdk.Transaction.{Instruction}
use switchboard_sdk.Submit.{writable, readonly}
use switchboard_sdk.Secp256k1.{SecpSignature, SecpError}
use switchboard_sdk.Secp256k1.Layout.{IsSignature}
use switchboard_sdk.Answers.{Wire, ConsensusOracleResponse, exactly, secp_signature_of}
use switchboard_sdk.Updates.{World, oracle_metas, unwrap_ix}

exactly-length : (n : ℕ) (b out : Bytes) → exactly n b ≡ some out → length out ≡ n
unfolding exactly
exactly-length n b out h = elim (Bool-cases (length b == n)) [
  | inl fits ↦ let same : b ≡ out = cc (rw fits at h) in ap length (sym same) ∙ (ground arith)
  | inr other ↦ cc (rw other at h)
]

unwrap-some : {E A : Type 0} (o : Option A) {a : A} → unwrap {E = E} o ≡ ok a → o ≡ some a
unwrap-some none h = cc
unwrap-some (some x) h = ap some (ok-injective h)

module _ {Job Json Decimal : Type 0} (wire : Wire Job Json Decimal) where
  pub secp_signature_of-IsSignature :
      (x : ConsensusOracleResponse) (s : SecpSignature)
      → secp_signature_of wire x ≡ ok s
      → IsSignature s
  unfolding secp_signature_of
  secp_signature_of-IsSignature x s h =
      let (address, _, h₁) = >>=-eq-ok (unwrap (wire.hex_decode x.eth_address)) _ h in
      let (eth, e, h₂) = >>=-eq-ok (unwrap (exactly 20 address)) _ h₁ in
      let (signed, _, h₃) = >>=-eq-ok (unwrap (wire.base64_decode x.signature)) _ h₂ in
      let (signature, g, h₄) = >>=-eq-ok (unwrap (exactly 64 signed)) _ h₃ in
      let (message, _, h₅) = >>=-eq-ok (unwrap (wire.base64_decode x.checksum)) _ h₄ in
      let made = ok-injective h₅ in
      record {
        signature =
            ap length (sym (ap (λ (r : SecpSignature). r.signature) made))
            ∙ exactly-length 64 signed signature (unwrap-some (exactly 64 signed) g);
        eth_address =
            ap length (sym (ap (λ (r : SecpSignature). r.eth_address) made))
            ∙ exactly-length 20 address eth (unwrap-some (exactly 20 address) e);
      }

pub unwrap_ix-returns :
    (o : Outcome SecpError Instruction) (ix : Instruction) → unwrap_ix o ≡ ok ix → o ≡ ok ix
unfolding unwrap_ix
unwrap_ix-returns (ok x) ix h = ap ok (ok-injective h)
unwrap_ix-returns (err e) ix h = cc
unwrap_ix-returns panic ix h = cc

module _ {Job Json Decimal : Type 0} (world : World Job Json Decimal) where
  open world use {node, wire, chain, consensus_discriminator, secp256k1_program, order}

  pub oracle_metas-at :
      (keys : List Bytes) (i : ℕ) (key : Bytes)
      → get_elem? keys i ≡ some key
      → (get_elem? (oracle_metas world keys) (2 * i) ≡ some (readonly key false))
        × (get_elem? (oracle_metas world keys) (2 * i + 1)
            ≡ some (writable (chain.stats_key key) false))
  unfolding oracle_metas
  oracle_metas-at [] i key e = cc
  oracle_metas-at (k ∷ keys) zero key e =
      let same : k ≡ key = cc in
      (
        ap (λ x. some (readonly x false)) same,
        ap (λ x. some (writable (chain.stats_key x) false)) same,
      )
  oracle_metas-at (k ∷ keys) (suc i) key e =
      let even : 2 * suc i ≡ suc (suc (2 * i)) = omega arith in
      let odd : 2 * suc i + 1 ≡ suc (suc (2 * i + 1)) = omega arith in
      let (p, q) = oracle_metas-at keys i key e in (rw even p, rw odd q)
