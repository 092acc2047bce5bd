-- ===== src/Updates/Handed.antt =====
-- The signatures, the accounts and the values that an update by consensus hands over.
use switchboard_sdk.Prelude.{
  All-get_elem?, ℕ, ◌+◌, ◌*◌, ◌≡◌, ap, sym, ◌∙◌, some, List, ◌++◌, map, ok, length, length-map,
  get_elem?, get_elem?-behind, get_elem?-before, get_elem?-map, ok-injective, false,
}
use switchboard_sdk.Prelude.Int.{ℤ}
use switchboard_sdk.Prelude.Words.{Bytes}
use switchboard_sdk.Prelude.Traverse.{traverse, get_elem?-traverse, traverse-All}
use switchboard_sdk.Transaction.{AccountMeta, Instruction}
use switchboard_sdk.Submit.{writable, readonly}
use switchboard_sdk.Secp256k1.{SecpSignature, build_secp256k1_instruction}
use switchboard_sdk.Secp256k1.Layout.{IsSignature}
use switchboard_sdk.Secp256k1.Built.{build-IsBundle}
use switchboard_sdk.Secp256k1.Reading.{read_entry}
use switchboard_sdk.Secp256k1.RoundTrip.{make-read_entry, entry_of}
use switchboard_sdk.Answers.{
  ConsensusOracleResponse, MedianResponse, FetchSignaturesConsensusResponse, secp_signature_of,
  oracle_key_of, consensus_value,
}
use switchboard_sdk.Context.{SlotHash}
use switchboard_sdk.Answers.Meaning.{
  IsSigned, IsOracle, IsMedian, secp_signature_of-IsSigned, oracle_key_of-IsOracle,
  consensus_value-IsMedian,
}
use switchboard_sdk.Updates.{
  World, FetchUpdateManyParams, Loaded, consensus_ix, consensus_accounts, oracle_metas, feed_pubkey,
}
use switchboard_sdk.Updates.Reading.{secp_signature_of-IsSignature, oracle_metas-at}

module _ {Job Json Decimal : Type 0} (world : World Job Json Decimal) where
  open world use {
    node, wire, chain, consensus_discriminator, instructions_sysvar, secp256k1_program, order,
  }

  -- From the first instruction a verifier reads, in the place of an oracle's answer, the signature, the
  -- recovery id and the address that this holds, with the message that it holds.
  abbrev pub Signs : ConsensusOracleResponse → ℕ → Instruction → Type 0
  Signs a i secp_ix =
      (s : SecpSignature) × (message : Bytes) × IsSigned wire a s
      × (read_entry secp_ix.input i ≡ entry_of 0 message s)
      × (s.message ≡ message)

  -- The second instruction names, behind the nine accounts and the `m` feeds, the oracle of an answer,
  -- and then its statistics.
  abbrev pub Names : ConsensusOracleResponse → List Bytes → ℕ → ℕ → Instruction → Type 0
  Names a keys i m submit_ix =
      (oracle : Bytes) × IsOracle wire a oracle
      × (get_elem? keys i ≡ some oracle)
      × (get_elem? submit_ix.accounts (9 + (m + 2 * i)) ≡ some (readonly oracle false))
      × (get_elem? submit_ix.accounts (9 + (m + (2 * i + 1)))
          ≡ some (writable (chain.stats_key oracle) false))

  -- In the place of a median stands its value.
  abbrev pub HasValues : List MedianResponse → List ℤ → Type 0
  HasValues medians values =
      (j : ℕ) (mr : MedianResponse)
      → get_elem? medians j ≡ some mr
      → (v : ℤ) × (get_elem? values j ≡ some v) × IsMedian (wire.parse_i128 mr.value) v

  module _ (params : FetchUpdateManyParams) (feeds : Loaded world) (latest : SlotHash)
      (answers : FetchSignaturesConsensusResponse) where
    open answers use {oracle_responses, median_responses}

    pub signatures-Sign :
        (ss : List SecpSignature) (secp_ix : Instruction)
        → traverse (secp_signature_of wire) oracle_responses ≡ ok ss
        → build_secp256k1_instruction secp256k1_program ss 0 ≡ ok secp_ix
        → (i : ℕ) (a : ConsensusOracleResponse) → get_elem? oracle_responses i ≡ some a
        → Signs a i secp_ix
    signatures-Sign ss secp_ix t built i a e =
        let (s, read, at) =
          get_elem?-traverse (secp_signature_of wire) oracle_responses ss i a t e in
        let sized =
          traverse-All IsSignature (secp_signature_of wire) (secp_signature_of-IsSignature wire)
            oracle_responses ss t in
        let (message, b, made) = build-IsBundle secp256k1_program ss 0 secp_ix sized built in
        let (bytes, run, _, entry) = make-read_entry 0 message ss b i s at in
        let same : bytes ≡ secp_ix.input = ok-injective (sym run ∙ made) in
        (
          s,
          message,
          secp_signature_of-IsSigned wire a s read,
          ap (λ (x : Bytes). read_entry x i) (sym same) ∙ entry,
          All-get_elem? (λ (x : SecpSignature). x.message ≡ message) ss i s b.shared at,
        )

    -- Where the parts of the second instruction's accounts stand.
    module _ (slot : ℕ) (queue payer : Bytes) (values : List ℤ) (keys : List Bytes) where
      abbrev pub submit : Instruction
      submit =
          consensus_ix world slot queue payer values
            (map (feed_pubkey world feeds) median_responses) keys

      abbrev feed_metas : List AccountMeta
      feed_metas =
          map (λ (feed : Bytes). writable feed false)
            (map (feed_pubkey world feeds) median_responses)

      submit-behind :
          (k : ℕ)
          → get_elem? submit.accounts (9 + k) ≡ get_elem? (feed_metas ++ oracle_metas world keys) k
      unfolding consensus_ix
      submit-behind k =
          get_elem?-behind (consensus_accounts world queue payer)
            (feed_metas ++ oracle_metas world keys) k

      length-feed_metas : length feed_metas ≡ length median_responses
      length-feed_metas =
          length-map (λ (feed : Bytes). writable feed false)
            (map (feed_pubkey world feeds) median_responses)
          ∙ length-map (feed_pubkey world feeds) median_responses

      submit-oracle :
          (k : ℕ)
          → get_elem? submit.accounts (9 + (length median_responses + k))
            ≡ get_elem? (oracle_metas world keys) k
      submit-oracle k =
          submit-behind (length median_responses + k)
          ∙ ap (λ n. get_elem? (feed_metas ++ oracle_metas world keys) (n + k))
              (sym length-feed_metas)
          ∙ get_elem?-behind feed_metas (oracle_metas world keys) k

      pub accounts-Name :
          traverse (oracle_key_of wire) oracle_responses ≡ ok keys
          → (i : ℕ) (a : ConsensusOracleResponse) → get_elem? oracle_responses i ≡ some a
          → Names a keys i (length median_responses) submit
      accounts-Name t i a e =
          let (key, read, at) =
            get_elem?-traverse (oracle_key_of wire) oracle_responses keys i a t e in
          let (p, q) = oracle_metas-at world keys i key at in
          (
            key,
            oracle_key_of-IsOracle wire a key read,
            at,
            submit-oracle (2 * i) ∙ p,
            submit-oracle (2 * i + 1) ∙ q,
          )

      pub medians-Name :
          (j : ℕ) (mr : MedianResponse)
          → get_elem? median_responses j ≡ some mr
          → get_elem? submit.accounts (9 + j) ≡ some (writable (feed_pubkey world feeds mr) false)
      medians-Name j mr e =
          submit-behind j
          ∙ get_elem?-before feed_metas (oracle_metas world keys) j _ (
              get_elem?-map (λ (feed : Bytes). writable feed false)
                (map (feed_pubkey world feeds) median_responses) j (feed_pubkey world feeds mr)
                (get_elem?-map (feed_pubkey world feeds) median_responses j mr e))

    pub consensus_values-HasValues :
        HasValues median_responses (map (consensus_value wire) median_responses)
    consensus_values-HasValues j mr e = (
      consensus_value wire mr,
      get_elem?-map (consensus_value wire) median_responses j mr e,
      consensus_value-IsMedian wire mr,
    )
