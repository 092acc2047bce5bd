-- ===== src/Updates/Steps.antt =====
-- The steps of an update of several feeds by consensus.
use switchboard_sdk.Prelude.{Outcome, ◌↔◌, ◌≡◌, refl, ap, sym, ◌∙◌, List, [], ◌∷◌, map, ok}
use switchboard_sdk.Prelude.Words.{Bytes}
use switchboard_sdk.Prelude.Exec.{
  pure, lift->>=-continues, >>=-continues, with_context, lift->>=-returns, >>=-returns,
  pure-returns,
}
use switchboard_sdk.Prelude.Traverse.{traverse}
use switchboard_sdk.Transaction.{Instruction, AddressLookupTableAccount}
use switchboard_sdk.Secp256k1.{SecpSignature, build_secp256k1_instruction}
use switchboard_sdk.Answers.{
  UpdateError, FetchSignaturesConsensusResponse, secp_signature_of, oracle_key_of, consensus_value,
  fetch_signatures_consensus,
}
use switchboard_sdk.Context.{SbContext, SlotHash, get_latest_slothash, join_luts}
use switchboard_sdk.Updates.{
  World, FetchUpdateManyParams, Loaded, load_feeds, needed, consensus_request, consensus_from,
  consensus_ix, feed_pubkey, fetch_update_consensus_ix, unwrap_ix,
}
use switchboard_sdk.Updates.Reading.{unwrap_ix-returns}

module _ {Job Json Decimal : Type 0} (world : World Job Json Decimal) where
  open world use {node, wire, secp256k1_program, order}

  -- The context that the loads of the feeds leave.
  abbrev pub after_feeds : FetchUpdateManyParams → SbContext Job → SbContext Job
  after_feeds params s = (load_feeds world params.crossbar params.feeds s).1

  -- The steps from the feeds to the two instructions and the tables.
  pub record IsConsensus (params : FetchUpdateManyParams) (s : SbContext Job)
      (ixs : List Instruction) (luts : List AddressLookupTableAccount) : Type 0 where
    pub feeds : Loaded world
    pub latest : SlotHash
    pub answers : FetchSignaturesConsensusResponse
    pub keys : List Bytes
    pub signatures : List SecpSignature
    pub secp_ix : Instruction
    pub submit_ix : Instruction
    pub loaded : (load_feeds world params.crossbar params.feeds s).0 ≡ ok feeds
    pub slot : get_latest_slothash node ≡ ok latest
    pub answered :
        fetch_signatures_consensus wire params.gateway (consensus_request world params feeds latest)
        ≡ ok answers
    pub keys_read : traverse (oracle_key_of wire) answers.oracle_responses ≡ ok keys
    pub signatures_read : traverse (secp_signature_of wire) answers.oracle_responses ≡ ok signatures
    pub built : build_secp256k1_instruction secp256k1_program signatures 0 ≡ ok secp_ix
    pub submitted :
        submit_ix
        ≡ consensus_ix world latest.slot
            (needed world params feeds).1
            params.payer
            (map (consensus_value wire) answers.median_responses)
            (map (feed_pubkey world feeds) answers.median_responses)
            keys
    pub joined :
        (join_luts node order keys params.feeds
          ((needed world params feeds).1 ∷ [])
          (after_feeds params s)).0
        ≡ ok luts
    pub two : ixs ≡ secp_ix ∷ submit_ix ∷ []

  returned-IsConsensus :
      (params : FetchUpdateManyParams) (s s' : SbContext Job) (ixs : List Instruction)
      (luts : List AddressLookupTableAccount)
      → fetch_update_consensus_ix world params s ≡ (ok (ixs, luts), s')
      → IsConsensus params s ixs luts
  unfolding fetch_update_consensus_ix consensus_from
  returned-IsConsensus params s s' ixs luts run =
      let (feeds, f, r₁) = >>=-returns (load_feeds world params.crossbar params.feeds) _ s run in
      let s₁ : SbContext Job = after_feeds params s in
      let (latest, l, r₂) = lift->>=-returns (get_latest_slothash node) _ s₁ r₁ in
      let (answers, g, r₃) =
        lift->>=-returns
          (fetch_signatures_consensus wire params.gateway
            (consensus_request world params feeds latest))
          _ s₁ r₂ in
      let (keys, k, r₄) =
        lift->>=-returns (traverse (oracle_key_of wire) answers.oracle_responses) _ s₁ r₃ in
      let (ss, t, r₅) =
        lift->>=-returns (traverse (secp_signature_of wire) answers.oracle_responses) _ s₁ r₄ in
      let (secp_ix, built, r₆) =
        lift->>=-returns (unwrap_ix (build_secp256k1_instruction secp256k1_program ss 0)) _ s₁ r₅ in
      let (found, j, r₇) =
        >>=-returns (join_luts node order keys params.feeds ((needed world params feeds).1 ∷ [])) _
          s₁ r₆ in
      let made = pure-returns _ _ r₇ in
      record {
        feeds = feeds;
        latest = latest;
        answers = answers;
        keys = keys;
        signatures = ss;
        secp_ix = secp_ix;
        submit_ix =
            consensus_ix world latest.slot (needed world params feeds).1 params.payer
              (map (consensus_value wire) answers.median_responses)
              (map (feed_pubkey world feeds) answers.median_responses) keys;
        loaded = f;
        slot = l;
        answered = g;
        keys_read = k;
        signatures_read = t;
        built =
            unwrap_ix-returns (build_secp256k1_instruction secp256k1_program ss 0) secp_ix built;
        submitted = refl;
        joined =
            j ∙ ap ok (ap (λ (p : List Instruction × List AddressLookupTableAccount). p.1) made);
        two = sym (ap (λ (p : List Instruction × List AddressLookupTableAccount). p.0) made);
      }

  IsConsensus-returns :
      (params : FetchUpdateManyParams) (s : SbContext Job) (ixs : List Instruction)
      (luts : List AddressLookupTableAccount)
      → IsConsensus params s ixs luts
      → (fetch_update_consensus_ix world params s).0 ≡ ok (ixs, luts)
  unfolding fetch_update_consensus_ix consensus_from pure unwrap_ix
  IsConsensus-returns params s ixs luts b =
      let s₁ : SbContext Job = after_feeds params s in
      ap
        (λ (p : Outcome UpdateError (List Instruction × List AddressLookupTableAccount)
            × SbContext Job).
          p.0)
        (>>=-continues (load_feeds world params.crossbar params.feeds) _ s b.loaded
          ∙ lift->>=-continues (get_latest_slothash node) _ s₁ b.slot
          ∙ lift->>=-continues
              (fetch_signatures_consensus wire params.gateway
                (consensus_request world params b.feeds b.latest))
              _ s₁ b.answered
          ∙ lift->>=-continues (traverse (oracle_key_of wire) b.answers.oracle_responses) _ s₁
              b.keys_read
          ∙ lift->>=-continues (traverse (secp_signature_of wire) b.answers.oracle_responses) _ s₁
              b.signatures_read
          ∙ lift->>=-continues
              (unwrap_ix (build_secp256k1_instruction secp256k1_program b.signatures 0)) _ s₁
              (ap unwrap_ix b.built)
          ∙ >>=-continues
              (join_luts node order b.keys params.feeds ((needed world params b.feeds).1 ∷ [])) _ s₁
              b.joined)
      ∙ ap (λ (l : List Instruction). ok (l, luts))
          (ap (λ ix. b.secp_ix ∷ ix ∷ []) (sym b.submitted) ∙ sym b.two)

  -- `fetch_update_consensus_ix` returns instructions and tables exactly when its steps give them.
  pub fetch_update_consensus_ix_iff :
      (params : FetchUpdateManyParams) (s : SbContext Job) (ixs : List Instruction)
      (luts : List AddressLookupTableAccount)
      → ((fetch_update_consensus_ix world params s).0 ≡ ok (ixs, luts))
        ↔ IsConsensus params s ixs luts
  fetch_update_consensus_ix_iff params s ixs luts = (
    λ run.
        returned-IsConsensus params s (fetch_update_consensus_ix world params s).1 ixs luts
          (with_context (fetch_update_consensus_ix world params) s run),
    IsConsensus-returns params s ixs luts,
  )
