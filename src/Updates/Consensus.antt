-- ===== src/Updates/Consensus.antt =====
-- What an update of several feeds by consensus hands to the secp256k1 program and to the oracles'
-- program.
use switchboard_sdk.Prelude.{
  subst, ℕ, ◌+◌, ◌≡◌, refl, ap, ◌∙◌, some, List, map, ok, length, length-map, get_elem?, false,
  true, replicate, take, [], ◌∷◌,
}
use switchboard_sdk.Prelude.Int.{ℤ}
use switchboard_sdk.Prelude.Words.{Bytes}
use switchboard_sdk.Prelude.Traverse.{length-traverse}
use switchboard_sdk.Transaction.{Instruction, AddressLookupTableAccount}
use switchboard_sdk.Submit.{writable, readonly, consensus_data}
use switchboard_sdk.Answers.{
  ConsensusOracleResponse, MedianResponse, FetchSignaturesConsensusResponse, oracle_key_of,
  consensus_value,
}
use switchboard_sdk.Context.{SbContext, SlotHash, join_luts}
use switchboard_sdk.Context.Loaded.{IsLatest, get_latest_slothash-IsLatest}
use switchboard_sdk.Submit.Quorum.{last_queue}
use switchboard_sdk.Updates.Asked.{
  AllAnswered, answered-AllAnswered, IsFeedOf, feed_pubkey-IsFeedOf, needed-last_queue, accounts_of,
}
use switchboard_sdk.Updates.Loads.{Loads, load_feeds-Loads}
use switchboard_sdk.Updates.Steps.{IsConsensus, fetch_update_consensus_ix_iff, after_feeds}
use switchboard_sdk.Updates.{
  World, FetchUpdateManyParams, Loaded, needed, consensus_ix, feed_pubkey,
  fetch_update_consensus_ix,
}
use switchboard_sdk.Updates.Handed.{
  Signs, Names, HasValues, signatures-Sign, accounts-Name, medians-Name, consensus_values-HasValues,
  submit,
}

module _ {Job Json Decimal : Type 0} (world : World Job Json Decimal) where
  open world use {
    node, wire, chain, consensus_discriminator, instructions_sysvar, secp256k1_program, order,
  }

  -- What an update by consensus is returned from, and what it hands over.
  pub record Settles (params : FetchUpdateManyParams) (s : SbContext Job) (ixs : List Instruction)
      (luts : List AddressLookupTableAccount) : Type 0 where
    pub feeds : Loaded world
    pub latest : SlotHash
    pub answers : FetchSignaturesConsensusResponse
    pub keys : List Bytes
    pub values : List ℤ
    pub secp_ix : Instruction
    pub submit_ix : Instruction
    pub loaded : Loads world params.crossbar s params.feeds feeds
    pub slot : IsLatest node latest
    pub answered : AllAnswered world params latest feeds answers
    pub signed :
        (i : ℕ) (a : ConsensusOracleResponse)
        → get_elem? answers.oracle_responses i ≡ some a
        → Signs world a i secp_ix × Names world a keys i (length answers.median_responses) submit_ix
    pub medians :
        (j : ℕ) (mr : MedianResponse)
        → get_elem? answers.median_responses j ≡ some mr
        → (key : Bytes) × IsFeedOf world feeds mr.feed_hash key
          × (get_elem? submit_ix.accounts (9 + j) ≡ some (writable key false))
    pub input :
        submit_ix.input
        ≡ consensus_data consensus_discriminator (record { slot = latest.slot; values = values })
    pub values_length : length values ≡ length answers.median_responses
    pub values_read : HasValues world answers.median_responses values
    pub program : submit_ix.program_id ≡ chain.program
    pub fixed :
        take 9 submit_ix.accounts
        ≡ readonly (last_queue (replicate 32 0) (accounts_of world feeds)) false
          ∷ readonly chain.state_key false
          ∷ readonly chain.slot_hashes false
          ∷ writable params.payer true
          ∷ readonly chain.system false
          ∷ writable (chain.vault_of (last_queue (replicate 32 0) (accounts_of world feeds))) false
          ∷ readonly chain.tokens false
          ∷ readonly chain.native_mint false
          ∷ readonly instructions_sysvar false
          ∷ []
    pub keys_length : length keys ≡ length answers.oracle_responses
    pub joined :
        (join_luts node order keys params.feeds
          (last_queue (replicate 32 0) (accounts_of world feeds) ∷ [])
          (after_feeds world params s)).0
        ≡ ok luts
    pub two : ixs ≡ secp_ix ∷ submit_ix ∷ []

  -- The steps of an update give what it settles.
  IsConsensus-Settles :
      (params : FetchUpdateManyParams) (s : SbContext Job) (ixs : List Instruction)
      (luts : List AddressLookupTableAccount)
      → IsConsensus world params s ixs luts
      → Settles params s ixs luts
  IsConsensus-Settles params s ixs luts b =
      let medians : List MedianResponse = b.answers.median_responses in
      let queue : Bytes = (needed world params b.feeds).1 in
      let last = needed-last_queue world params b.feeds in
      let values : List ℤ = map (consensus_value wire) medians in
      record {
        feeds = b.feeds;
        latest = b.latest;
        answers = b.answers;
        keys = b.keys;
        values = values;
        secp_ix = b.secp_ix;
        submit_ix =
            submit world params b.feeds b.latest b.answers b.latest.slot queue params.payer values
              b.keys;
        loaded = load_feeds-Loads world params.crossbar s params.feeds b.feeds b.loaded;
        slot = get_latest_slothash-IsLatest node b.latest b.slot;
        answered = answered-AllAnswered world params b.latest b.feeds b.answers b.answered;
        signed = λ i a e. (
          signatures-Sign world params b.feeds b.latest b.answers b.signatures b.secp_ix
              b.signatures_read b.built i a e,
          accounts-Name world params b.feeds b.latest b.answers b.latest.slot queue params.payer
              values b.keys b.keys_read i a e,
        );
        medians = λ j mr e. (
          feed_pubkey world b.feeds mr,
          feed_pubkey-IsFeedOf world b.feeds mr,
          medians-Name world params b.feeds b.latest b.answers b.latest.slot queue params.payer
              values b.keys j mr e,
        );
        input = unfold consensus_ix in refl;
        values_length = length-map (consensus_value wire) medians;
        values_read = consensus_values-HasValues world params b.feeds b.latest b.answers;
        program = unfold consensus_ix in refl;
        fixed =
            unfold consensus_ix in
            ap
              (λ q.
                readonly q false
                ∷ readonly chain.state_key false
                ∷ readonly chain.slot_hashes false
                ∷ writable params.payer true
                ∷ readonly chain.system false
                ∷ writable (chain.vault_of q) false
                ∷ readonly chain.tokens false
                ∷ readonly chain.native_mint false
                ∷ readonly instructions_sysvar false
                ∷ [])
              last;
        keys_length =
            length-traverse (oracle_key_of wire) b.answers.oracle_responses b.keys b.keys_read;
        joined =
            subst
              (λ q.
                (join_luts node order b.keys params.feeds (q ∷ []) (after_feeds world params s)).0
                ≡ ok luts)
              last b.joined;
        two = b.two ∙ ap (λ ix. b.secp_ix ∷ ix ∷ []) b.submitted;
      }

  -- An update that `fetch_update_consensus_ix` returns comes of this. Every feed, and then its jobs, is
  -- read from the caches that the feed before left, or else from the node's account or the crossbar; the
  -- newest slot hash is taken; and the gateway answers a request for all feeds, each with its jobs, its
  -- variance over 10^9 as a u32 and its quorum, for as many signatures as the caller wants, or 1, or as
  -- the feed with the most samples needs: a third more, rounded up. The update is two instructions. From
  -- the first, a verifier that follows the offsets reads for each oracle's answer, in order, its
  -- signature, the low byte of its recovery id, and its address, and one message for all, which is the
  -- checksum of each. The second names, behind its nine accounts, for each median the first loaded feed
  -- with its hash, or 32 zeros, and behind these, for each answer, the oracle of its first response and
  -- the oracle's statistics. It carries the slot and every median's value, in order, or the largest i128
  -- for one that is not a number. The nine accounts are those of the program, for the queue of the last
  -- feed, or 32 zeros, with the vault of that queue, and the payer, who signs. The tables are those that
  -- are found of the oracles, of the feeds and of that queue.
  pub fetch_update_consensus_ix-Settles :
      (params : FetchUpdateManyParams) (s : SbContext Job) (ixs : List Instruction)
      (luts : List AddressLookupTableAccount)
      → (fetch_update_consensus_ix world params s).0 ≡ ok (ixs, luts)
      → Settles params s ixs luts
  fetch_update_consensus_ix-Settles params s ixs luts run =
      IsConsensus-Settles params s ixs luts
        ((fetch_update_consensus_ix_iff world params s ixs luts).0 run)
