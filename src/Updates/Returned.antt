-- ===== src/Updates/Returned.antt =====
-- When an update of one feed is returned, and what it submits.
use switchboard_sdk.Prelude.{◌≡◌, ◌<◌, ◌↔◌, List, [], ◌∷◌, ok, map}
use switchboard_sdk.Feed.{PullFeedAccountData}
use switchboard_sdk.Submit.{OracleResponse, get_solana_submit_signatures_ix}
use switchboard_sdk.Answers.{FeedEvalResponseSingle}
use switchboard_sdk.Answers.Meaning.{AreResponses, traverse-AreResponses, AreResponses-traverse}
use switchboard_sdk.Context.{SbContext, SlotHash, join_luts, cached_feed, cached_jobs}
use switchboard_sdk.Context.Loaded.{
  Reads, IsAccount, AreSent, IsLatest, get_latest_slothash-IsLatest, IsLatest-get_latest_slothash,
  cached_feed_iff, cached_jobs_iff,
}
use switchboard_sdk.Updates.{World, FetchUpdateParams, Update, fetch_update_ix}
use switchboard_sdk.Updates.Asked.{IsAnswered, answered-IsAnswered, IsAnswered-answered}
use switchboard_sdk.Updates.Single.{with_value, IsUpdate, fetch_update_ix_steps, after_feed}

module _ {Job Json Decimal : Type 0} (world : World Job Json Decimal) where
  open world use {node, wire, chain, order}

  -- What an update is returned from, and what it submits.
  pub record IsReturned (params : FetchUpdateParams) (s : SbContext Job) (u : Update Decimal)
      : Type 0 where
    pub latest : SlotHash
    pub feed : PullFeedAccountData
    pub jobs : List Job
    pub signed : FeedEvalResponseSingle
    pub slot : IsLatest node latest
    pub loaded : Reads s.pull_feed_cache params.feed (IsAccount node params.feed) feed
    pub fetched :
        Reads s.job_cache feed.feed_hash (AreSent wire params.crossbar feed.feed_hash) jobs
    pub answered : IsAnswered world params latest feed jobs signed
    pub responses : AreResponses wire signed.responses u.oracle_responses
    pub submitted :
        u.submit_ix
        ≡ get_solana_submit_signatures_ix chain latest.slot u.oracle_responses
            (record { feed = params.feed; queue = feed.queue; payer = params.payer })
    pub counted : u.successes ≡ with_value u.oracle_responses
    pub succeeded : 0 < u.successes
    pub joined :
        (join_luts node order
          (map (λ (r : OracleResponse Decimal). r.oracle) u.oracle_responses)
          (params.feed ∷ [])
          (feed.queue ∷ [])
          s).0
        ≡ ok u.luts

  IsUpdate-IsReturned :
      (params : FetchUpdateParams) (s : SbContext Job) (u : Update Decimal)
      → IsUpdate world params s u
      → IsReturned params s u
  unfolding cached_feed cached_jobs join_luts
  IsUpdate-IsReturned params s u b = record {
    latest = b.latest;
    feed = b.feed;
    jobs = b.jobs;
    signed = b.signed;
    slot = get_latest_slothash-IsLatest node b.latest b.slot;
    loaded = (cached_feed_iff node params.feed s b.feed).0 b.loaded;
    fetched =
        (cached_jobs_iff wire params.crossbar b.feed.feed_hash (after_feed world params s) b.jobs).0
          b.fetched;
    answered = answered-IsAnswered world params b.latest b.feed b.jobs b.signed b.answered;
    responses =
        traverse-AreResponses wire b.signed.responses u.oracle_responses b.submits.responses;
    submitted = b.submits.submitted;
    counted = b.submits.counted;
    succeeded = b.submits.succeeded;
    joined = b.submits.joined;
  }

  IsReturned-IsUpdate :
      (params : FetchUpdateParams) (s : SbContext Job) (u : Update Decimal)
      → IsReturned params s u
      → IsUpdate world params s u
  unfolding cached_feed cached_jobs join_luts
  IsReturned-IsUpdate params s u b = record {
    latest = b.latest;
    feed = b.feed;
    jobs = b.jobs;
    signed = b.signed;
    slot = IsLatest-get_latest_slothash node b.latest b.slot;
    loaded = (cached_feed_iff node params.feed s b.feed).1 b.loaded;
    fetched =
        (cached_jobs_iff wire params.crossbar b.feed.feed_hash (after_feed world params s) b.jobs).1
          b.fetched;
    answered = IsAnswered-answered world params b.latest b.feed b.jobs b.signed b.answered;
    submits = record {
      responses = AreResponses-traverse wire b.signed.responses u.oracle_responses b.responses;
      submitted = b.submitted;
      counted = b.counted;
      succeeded = b.succeeded;
      joined = b.joined;
    };
  }

  -- `fetch_update_ix` returns an update exactly when all of this holds, and the update is then as it says.
  -- The node has the slot hashes, of which the newest is taken. The feed is in its cache, or else the node
  -- has an account of a feed's size that is cast to it; its jobs are in theirs, or else the crossbar sends
  -- them. The gateway answers a request for the feed's jobs, its variance over 10^9 as a u32 and its
  -- quorum, with the hash of the slot and as many signatures as the caller wants, or else a third more than
  -- the feed's samples, rounded up. The text of each answer's key is that of 32 bytes, and a value that is
  -- a number has a decimal; the response to the answer has that key and that decimal, the failure of the
  -- answer, the signature or zeros where its text is not that of 64 bytes, and the low byte of the
  -- recovery id. The successes are the responses with a value, and there is one. The update submits all
  -- responses for the slot, to the feed and for its queue, with the payer of the caller, and has the tables
  -- that are found of the oracles, of the feed and of its queue.
  pub fetch_update_ix_iff :
      (params : FetchUpdateParams) (s : SbContext Job) (u : Update Decimal)
      → ((fetch_update_ix world params s).0 ≡ ok u) ↔ IsReturned params s u
  fetch_update_ix_iff params s u = (
    λ run. IsUpdate-IsReturned params s u ((fetch_update_ix_steps world params s u).0 run),
    λ b. (fetch_update_ix_steps world params s u).1 (IsReturned-IsUpdate params s u b),
  )
