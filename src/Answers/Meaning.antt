-- ===== src/Answers/Meaning.antt =====
-- What the answers of a gateway say to the updates of pull_feed.rs, and what the updates ask it for.
use switchboard_sdk.Prelude.{
  ℕ, ◌%◌, ◌^◌, ◌==◌, ◌≡◌, ◌⊎◌, inl, inr, refl, ap, sym, ◌∙◌, subst, Option, none, some, List, [],
  ◌∷◌, length, replicate, ok, unwrap, unwrap_or, unwrap-eq-ok, ok-injective, >>=-eq-ok, Bool-cases,
  arith, true, get_elem?, ◌-◌,
}
use switchboard_sdk.Prelude.Int.{ℤ, pos}
use switchboard_sdk.Prelude.Bytes.{to_twos}
use switchboard_sdk.Prelude.Words.{Bytes}
use switchboard_sdk.Prelude.Traverse.{traverse, traverse-cons}
use switchboard_sdk.Secp256k1.{SecpSignature}
use switchboard_sdk.Submit.{OracleResponse}
use switchboard_sdk.Answers.{
  Wire, FeedEvalResponse, MedianResponse, ConsensusOracleResponse, exactly, formatted_value,
  response_of, low_byte, consensus_value, oracle_key_of, secp_signature_of,
}

pub exactly-some : (n : ℕ) (b out : Bytes) → exactly n b ≡ some out → (b ≡ out) × (length b ≡ n)
unfolding exactly
exactly-some n b out h = elim (Bool-cases (length b == n)) [
  | inl fits ↦ (cc (rw fits at h), ground arith)
  | inr other ↦ cc (rw other at h)
]

some-exactly : (n : ℕ) (b : Bytes) → length b ≡ n → exactly n b ≡ some b
unfolding exactly
some-exactly n b l = ground (arith, l)

-- The signature of an answer, or zeros where it is not the text of 64 bytes.
abbrev pub ReadsSignature : Option Bytes → Bytes → Type 0
ReadsSignature none s = s ≡ replicate 64 0
ReadsSignature (some b) s =
    ((length b ≡ 64) × (s ≡ b)) ⊎ ((¬ (length b ≡ 64)) × (s ≡ replicate 64 0))

abbrev read_signature : Option Bytes → Bytes
read_signature o = unwrap_or (exactly 64 (unwrap_or o [])) (replicate 64 0)

read_signature-Reads : (o : Option Bytes) → ReadsSignature o (read_signature o)
unfolding exactly
read_signature-Reads none = refl
read_signature-Reads (some b) = elim (Bool-cases (length b == 64)) [
  | inl fits ↦ inl (ground arith, rw fits refl)
  | inr other ↦ inr ((λ l. ground (arith, l, other)), rw other refl)
]

Reads-read_signature : (o : Option Bytes) (s : Bytes) → ReadsSignature o s → read_signature o ≡ s
unfolding exactly
Reads-read_signature none s e = sym e
Reads-read_signature (some b) s (inl (l, e)) =
    let fits : (length b == 64) ≡ true = ground (arith, l) in rw fits (sym e)
Reads-read_signature (some b) s (inr (l, e)) = elim (Bool-cases (length b == 64)) [
  | inl fits ↦ let k : length b ≡ 64 = ground arith in absurd (l k)
  | inr other ↦ rw other (sym e)
]

-- The value of a median, or the largest i128 for one that is not a number.
abbrev pub IsMedian : Option ℤ → ℤ → Type 0
IsMedian none v = v ≡ pos (2 ^ 127 - 1)
IsMedian (some n) v = v ≡ n

module _ {Job Json Decimal : Type 0} (wire : Wire Job Json Decimal) where
  open wire use {hex_decode, base64_decode, parse_i128, from_i128_with_scale}

  abbrev pub ReadsValue : Option ℤ → Option Decimal → Type 0
  ReadsValue none v = v ≡ none
  ReadsValue (some n) v = (d : Decimal) × (from_i128_with_scale n 18 ≡ some d) × (v ≡ some d)

  -- What a response takes from an answer.
  pub record IsResponse (x : FeedEvalResponse) (r : OracleResponse Decimal) : Type 0 where
    pub value : ReadsValue (parse_i128 x.success_value) r.value
    pub failure : r.failure ≡ x.failure_error
    pub oracle : hex_decode x.oracle_pubkey ≡ some r.oracle
    pub key_size : length r.oracle ≡ 32
    pub signature : ReadsSignature (base64_decode x.signature) r.signature
    pub recovery_id : r.recovery_id ≡ to_twos 31 x.recovery_id % 2 ^ 8

  abbrev pub AreResponses : List FeedEvalResponse → List (OracleResponse Decimal) → Type 0
  AreResponses [] [] = Unit {0}
  AreResponses [] (r ∷ rs) = ⊥
  AreResponses (x ∷ xs) [] = ⊥
  AreResponses (x ∷ xs) (r ∷ rs) = IsResponse x r × AreResponses xs rs

  formatted_value-Reads :
      (o : Option ℤ) (v : Option Decimal) → formatted_value wire o ≡ ok v → ReadsValue o v
  unfolding formatted_value
  formatted_value-Reads none v h = sym (ok-injective h)
  formatted_value-Reads (some n) v h =
      let (d, e, h₁) = >>=-eq-ok (unwrap (from_i128_with_scale n 18)) _ h in
      (d, unwrap-eq-ok (from_i128_with_scale n 18) e, sym (ok-injective h₁))

  Reads-formatted_value :
      (o : Option ℤ) (v : Option Decimal) → ReadsValue o v → formatted_value wire o ≡ ok v
  unfolding formatted_value
  Reads-formatted_value none v e = ap ok (sym e)
  Reads-formatted_value (some n) v (d, e, s) = rw e (ap ok (sym s))

  response_of-IsResponse :
      (x : FeedEvalResponse) (r : OracleResponse Decimal)
      → response_of wire x ≡ ok r
      → IsResponse x r
  unfolding response_of low_byte
  response_of-IsResponse x r h =
      let (v, read, h₁) = >>=-eq-ok (formatted_value wire (parse_i128 x.success_value)) _ h in
      let (key, k, h₂) = >>=-eq-ok (unwrap (hex_decode x.oracle_pubkey)) _ h₁ in
      let (oracle, o, h₃) = >>=-eq-ok (unwrap (exactly 32 key)) _ h₂ in
      let (same, size) = exactly-some 32 key oracle (unwrap-eq-ok (exactly 32 key) o) in
      subst (IsResponse x) (ok-injective h₃) (record {
        value = formatted_value-Reads (parse_i128 x.success_value) v read;
        failure = refl;
        oracle = unwrap-eq-ok (hex_decode x.oracle_pubkey) k ∙ ap some same;
        key_size = ap length (sym same) ∙ size;
        signature = read_signature-Reads (base64_decode x.signature);
        recovery_id = refl;
      })

  IsResponse-response_of :
      (x : FeedEvalResponse) (r : OracleResponse Decimal)
      → IsResponse x r
      → response_of wire x ≡ ok r
  unfolding response_of low_byte
  IsResponse-response_of x r b =
      let value = Reads-formatted_value (parse_i128 x.success_value) r.value b.value in
      let signature = Reads-read_signature (base64_decode x.signature) r.signature b.signature in
      let key = some-exactly 32 r.oracle b.key_size in
      rw (value, b.oracle, key)
        (λ i. ok (record {
          value = r.value;
          failure = sym b.failure i;
          oracle = r.oracle;
          signature = signature i;
          recovery_id = sym b.recovery_id i;
        }))

  pub traverse-AreResponses :
      (xs : List FeedEvalResponse) (rs : List (OracleResponse Decimal))
      → traverse (response_of wire) xs ≡ ok rs
      → AreResponses xs rs
  unfolding traverse
  traverse-AreResponses [] rs h = subst (AreResponses []) (ok-injective h) tt
  traverse-AreResponses (x ∷ xs) out h =
      let (r, rs, first, others, all) = traverse-cons (response_of wire) x xs h in
      subst (AreResponses (x ∷ xs)) all
        (response_of-IsResponse x r first, traverse-AreResponses xs rs others)

  pub AreResponses-traverse :
      (xs : List FeedEvalResponse) (rs : List (OracleResponse Decimal))
      → AreResponses xs rs
      → traverse (response_of wire) xs ≡ ok rs
  unfolding traverse
  AreResponses-traverse [] [] b = refl
  AreResponses-traverse [] (r ∷ rs) b = absurd b
  AreResponses-traverse (x ∷ xs) [] b = absurd b
  AreResponses-traverse (x ∷ xs) (r ∷ rs) b =
      rw (IsResponse-response_of x r b.0, AreResponses-traverse xs rs b.1) refl

  pub consensus_value-IsMedian :
      (mr : MedianResponse) → IsMedian (parse_i128 mr.value) (consensus_value wire mr)
  unfolding consensus_value
  consensus_value-IsMedian mr =
      elim (parse_i128 mr.value) as (λ o. IsMedian o (unwrap_or o (pos (2 ^ 127 - 1)))) [
        | none ↦ refl
        | some n ↦ refl
      ]

  -- The key of the oracle that answers, which stands in the first of its responses.
  abbrev pub IsOracle : ConsensusOracleResponse → Bytes → Type 0
  IsOracle a oracle =
      (first : FeedEvalResponse) × (get_elem? a.feed_responses 0 ≡ some first)
      × (hex_decode first.oracle_pubkey ≡ some oracle)
      × (length oracle ≡ 32)

  oracle_key-some :
      (o : Option Bytes) (key : Bytes)
      → exactly 32 (unwrap_or o []) ≡ some key
      → (o ≡ some key) × (length key ≡ 32)
  oracle_key-some none key h = absurd (omega (arith, (exactly-some 32 [] key h).1))
  oracle_key-some (some b) key h =
      let (same, size) = exactly-some 32 b key h in (ap some same, ap length (sym same) ∙ size)

  pub oracle_key_of-IsOracle :
      (a : ConsensusOracleResponse) (key : Bytes) → oracle_key_of wire a ≡ ok key → IsOracle a key
  unfolding oracle_key_of
  oracle_key_of-IsOracle a key h =
      let (first, f, h₁) = >>=-eq-ok (unwrap (get_elem? a.feed_responses 0)) _ h in
      let (decoded, size) =
        oracle_key-some (hex_decode first.oracle_pubkey) key
          (unwrap-eq-ok (exactly 32 (unwrap_or (hex_decode first.oracle_pubkey) [])) h₁) in
      (first, unwrap-eq-ok (get_elem? a.feed_responses 0) f, decoded, size)

  -- What an oracle signed, as its answer has it.
  pub record IsSigned (a : ConsensusOracleResponse) (s : SecpSignature) : Type 0 where
    pub eth_address : hex_decode a.eth_address ≡ some s.eth_address
    pub signature : base64_decode a.signature ≡ some s.signature
    pub message : base64_decode a.checksum ≡ some s.message
    pub recovery_id : s.recovery_id ≡ to_twos 31 a.recovery_id % 2 ^ 8

  pub secp_signature_of-IsSigned :
      (a : ConsensusOracleResponse) (s : SecpSignature)
      → secp_signature_of wire a ≡ ok s
      → IsSigned a s
  unfolding secp_signature_of low_byte
  secp_signature_of-IsSigned a s h =
      let (address, d, h₁) = >>=-eq-ok (unwrap (hex_decode a.eth_address)) _ h in
      let (eth, e, h₂) = >>=-eq-ok (unwrap (exactly 20 address)) _ h₁ in
      let (signed, f, h₃) = >>=-eq-ok (unwrap (base64_decode a.signature)) _ h₂ in
      let (signature, g, h₄) = >>=-eq-ok (unwrap (exactly 64 signed)) _ h₃ in
      let (message, m, h₅) = >>=-eq-ok (unwrap (base64_decode a.checksum)) _ h₄ in
      subst (IsSigned a) (ok-injective h₅) (record {
        eth_address =
            unwrap-eq-ok (hex_decode a.eth_address) d
            ∙ ap some (exactly-some 20 address eth (unwrap-eq-ok (exactly 20 address) e)).0;
        signature =
            unwrap-eq-ok (base64_decode a.signature) f
            ∙ ap some (exactly-some 64 signed signature (unwrap-eq-ok (exactly 64 signed) g)).0;
        message = unwrap-eq-ok (base64_decode a.checksum) m;
        recovery_id = refl;
      })
