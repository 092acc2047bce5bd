-- ===== src/Updates/Loads.antt =====
-- The feeds that an update by consensus loads, with the jobs of each.
use switchboard_sdk.Prelude.{◌≡◌, sym, Option, List, [], ◌∷◌, ok}
use switchboard_sdk.Prelude.Words.{Bytes}
use switchboard_sdk.Prelude.Exec.{with_context, >>=-returns, pure-returns}
use switchboard_sdk.Feed.{PullFeedAccountData}
use switchboard_sdk.Answers.{CrossbarClient}
use switchboard_sdk.Context.{SbContext, cached_feed, cached_jobs}
use switchboard_sdk.Context.Loaded.{Reads, IsAccount, AreSent, cached_feed_iff, cached_jobs_iff}
use switchboard_sdk.Updates.{World, Loaded, load_feeds}

module _ {Job Json Decimal : Type 0} (world : World Job Json Decimal)
    (crossbar : Option CrossbarClient) where
  open world use {node, wire}

  -- The contexts that the loads of a feed and of its jobs leave.
  abbrev with_feed : SbContext Job → Bytes → SbContext Job
  with_feed s key = (cached_feed node {Job = Job} key s).1

  abbrev with_jobs : SbContext Job → Bytes → PullFeedAccountData → SbContext Job
  with_jobs s key feed = (cached_jobs wire crossbar feed.feed_hash (with_feed s key)).1

  -- Each feed and its jobs are read from the caches that the feed before left, or else from the node's
  -- account or the crossbar.
  abbrev pub Loads : SbContext Job → List Bytes → Loaded world → Type 0
  Loads s [] feeds = feeds ≡ []
  Loads s (key ∷ keys) feeds =
      (feed : PullFeedAccountData) × (jobs : List Job) × (rest : Loaded world) × Reads
        s.pull_feed_cache key (IsAccount node key) feed
      × Reads (with_feed s key).job_cache feed.feed_hash (AreSent wire crossbar feed.feed_hash) jobs
      × Loads (with_jobs s key feed) keys rest
      × (feeds ≡ (key, feed, jobs) ∷ rest)

  pub load_feeds-Loads :
      (s : SbContext Job) (keys : List Bytes) (feeds : Loaded world)
      → (load_feeds world crossbar keys s).0 ≡ ok feeds
      → Loads s keys feeds
  unfolding load_feeds
  load_feeds-Loads s [] feeds h =
      sym (pure-returns _ _ (with_context (load_feeds world crossbar []) s h))
  load_feeds-Loads s (key ∷ keys) feeds h =
      let run = with_context (load_feeds world crossbar (key ∷ keys)) s h in
      let (feed, f, r₁) = >>=-returns (cached_feed node key) _ s run in
      let s₁ : SbContext Job = with_feed s key in
      let (jobs, j, r₂) = >>=-returns (cached_jobs wire crossbar feed.feed_hash) _ s₁ r₁ in
      let s₂ : SbContext Job = with_jobs s key feed in
      let (rest, l, r₃) = >>=-returns (load_feeds world crossbar keys) _ s₂ r₂ in
      (
        feed,
        jobs,
        rest,
        (cached_feed_iff node key s feed).0 f,
        (cached_jobs_iff wire crossbar feed.feed_hash s₁ jobs).0 j,
        load_feeds-Loads s₂ keys rest l,
        sym (pure-returns _ _ r₃),
      )
