-- ===== src/Updates/Caching.antt =====
-- What the updates leave in the caches of their context.
use switchboard_sdk.Prelude.{Bool, true, false, Option, List, [], ◌∷◌, ◌==◌, if◌then◌else◌}
use switchboard_sdk.Prelude.Words.{Bytes}
use switchboard_sdk.Prelude.Exec.{Keeps, Keeps-lift, Keeps-pure, Keeps-bind, Exec}
use switchboard_sdk.Feed.{PullFeedAccountData}
use switchboard_sdk.Answers.{
  CrossbarClient, FeedEvalResponse, FetchSignaturesConsensusResponse, num_successes,
}
use switchboard_sdk.Context.{SbContext, SlotHash}
use switchboard_sdk.Context.Caches.{
  Extends, cached_feed-Extends, cached_jobs-Extends, join_luts-Extends,
}
use switchboard_sdk.Updates.{
  World, FetchUpdateParams, FetchUpdateManyParams, Loaded, update_from, fetch_update_ix, load_feeds,
  consensus_from, fetch_update_consensus_ix,
}

Keeps-if :
    {E S A : Type 0} {P : S → Type 0} (b : Bool) (m n : Exec E S A)
    → Keeps P m
    → Keeps P n
    → Keeps P (if b then m else n)
Keeps-if true m n km kn = km
Keeps-if false m n km kn = kn

module _ {Job Json Decimal : Type 0} (world : World Job Json Decimal) (start : SbContext Job) where
  open world use {node, wire, order}

  update_from-Extends :
      (params : FetchUpdateParams) (latest : SlotHash) (feed : PullFeedAccountData)
      (answers : List FeedEvalResponse)
      → Keeps (Extends start) (update_from world params latest feed answers)
  unfolding update_from
  update_from-Extends params latest feed answers = Keeps-bind _ _ (Keeps-lift _) λ rs.
      Keeps-if (num_successes wire answers == 0) _ _ (Keeps-lift _)
        (Keeps-bind _ _ (join_luts-Extends node order _ _ _ start) (λ luts. Keeps-pure _))

  fetch_update_ix-Extends :
      (params : FetchUpdateParams) → Keeps (Extends start) (fetch_update_ix world params)
  unfolding fetch_update_ix
  fetch_update_ix-Extends params = Keeps-bind _ _ (Keeps-lift _) λ latest.
      Keeps-bind _ _ (cached_feed-Extends node params.feed start) λ feed.
        Keeps-bind _ _ (cached_jobs-Extends wire params.crossbar feed.feed_hash start) λ jobs.
          Keeps-bind _ _ (Keeps-lift _)
            λ signed. update_from-Extends params latest feed signed.responses

  load_feeds-Extends :
      (crossbar : Option CrossbarClient) (feeds : List Bytes)
      → Keeps (Extends start) (load_feeds world crossbar feeds)
  unfolding load_feeds
  load_feeds-Extends crossbar [] = Keeps-pure _
  load_feeds-Extends crossbar (feed ∷ feeds) =
      Keeps-bind _ _ (cached_feed-Extends node feed start) λ data_.
        Keeps-bind _ _ (cached_jobs-Extends wire crossbar data_.feed_hash start)
          λ jobs. Keeps-bind _ _ (load_feeds-Extends crossbar feeds) (λ rest. Keeps-pure _)

  consensus_from-Extends :
      (params : FetchUpdateManyParams) (feed_datas : Loaded world) (latest : SlotHash)
      (answers : FetchSignaturesConsensusResponse)
      → Keeps (Extends start) (consensus_from world params feed_datas latest answers)
  unfolding consensus_from
  consensus_from-Extends params feed_datas latest answers = Keeps-bind _ _ (Keeps-lift _) λ keys.
      Keeps-bind _ _ (Keeps-lift _) λ signatures.
        Keeps-bind _ _ (Keeps-lift _) λ secp_ix.
          Keeps-bind _ _ (join_luts-Extends node order _ _ _ start) (λ luts. Keeps-pure _)

  fetch_update_consensus_ix-Extends :
      (params : FetchUpdateManyParams)
      → Keeps (Extends start) (fetch_update_consensus_ix world params)
  unfolding fetch_update_consensus_ix
  fetch_update_consensus_ix-Extends params =
      Keeps-bind _ _ (load_feeds-Extends params.crossbar params.feeds) λ feed_datas.
        Keeps-bind _ _ (Keeps-lift _)
          λ latest. Keeps-bind _ _ (Keeps-lift _) (consensus_from-Extends params feed_datas latest)

  -- Whatever the node, the gateway and the crossbar answer, and in whatever order the joined fetches of
  -- tables end, an update of one feed and one of several, whether it returns, errs or panics, leaves
  -- in the caches every feed, job list and table that they held.
  pub updates-Extend :
      (single : FetchUpdateParams) (many : FetchUpdateManyParams)
      → Extends start (fetch_update_ix world single start).1
        × Extends start (fetch_update_consensus_ix world many start).1
  updates-Extend single many =
      let same : Extends start start = record {
        feeds = λ k v h. h;
        jobs = λ k v h. h;
        luts = λ k v h. h;
      } in
      (
        (fetch_update_ix-Extends single).at start same,
        (fetch_update_consensus_ix-Extends many).at start same,
      )
