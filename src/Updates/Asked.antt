-- ===== src/Updates/Asked.antt =====
-- What the updates load, and what they ask the gateway for.
use switchboard_sdk.Prelude.{
  ℕ, ◌+◌, ◌*◌, ◌/◌, ◌%◌, ◌^◌, ◌<◌, ◌≤◌, ◌≡◌, ◌⊎◌, inl, inr, refl, ap, sym, ◌∙◌, Option, none, some,
  List, [], ◌∷◌, ◌++◌, All, map, ok, unwrap_or, unwrap-eq-ok, ok_or-eq-ok, >>=-eq-ok, ok_or, ltb,
  if◌then◌else◌, Bool-cases, arith, false, replicate, subst,
}
use switchboard_sdk.Prelude.Words.{Bytes, bytes_eq, bytes_eq→eq, bytes_eq_refl}
use switchboard_sdk.Feed.{PullFeedAccountData}
use switchboard_sdk.Submit.{gather, num_sig_lower_bound, single_num_signatures}
use switchboard_sdk.Submit.Quorum.{gather-Suffices, last_queue}
use switchboard_sdk.Answers.{
  FeedRequest, FeedEvalResponseSingle, FetchSignaturesConsensusResponse, signatures_path,
  consensus_suffix, fetch_signatures_from_encoded, fetch_signatures_consensus, signatures_failed,
  feed_request, request_variance, encode_jobs, feed_config, MedianResponse,
}
use switchboard_sdk.Context.{SlotHash}
use switchboard_sdk.Updates.{
  World, FetchUpdateParams, FetchUpdateManyParams, Loaded, single_request, consensus_request,
  needed, feed_pubkey,
}

-- A third more than `m`, rounded up.
abbrev pub IsThirdMore : ℕ → ℕ → Type 0
IsThirdMore m n = (4 * m ≤ 3 * n) × (3 * n < 4 * m + 3)

num_sig_lower_bound-IsThirdMore :
    (feed : PullFeedAccountData) → IsThirdMore feed.min_sample_size (num_sig_lower_bound feed)
unfolding num_sig_lower_bound
num_sig_lower_bound-IsThirdMore feed = (omega arith, omega arith)

-- The number that the caller wants, or else a third more than the feed's samples.
abbrev pub IsWanted : Option ℕ → PullFeedAccountData → ℕ → Type 0
IsWanted none feed n = IsThirdMore feed.min_sample_size n
IsWanted (some k) feed n = n ≡ k

single_num_signatures-IsWanted :
    (wanted : Option ℕ) (feed : PullFeedAccountData)
    → IsWanted wanted feed (single_num_signatures feed wanted)
unfolding single_num_signatures
single_num_signatures-IsWanted none feed = num_sig_lower_bound-IsThirdMore feed
single_num_signatures-IsWanted (some k) feed = refl

IsWanted-unique :
    (wanted : Option ℕ) (feed : PullFeedAccountData) (n : ℕ)
    → IsWanted wanted feed n
    → n ≡ single_num_signatures feed wanted
unfolding single_num_signatures num_sig_lower_bound
IsWanted-unique none feed n w = omega arith
IsWanted-unique (some k) feed n w = w

-- At least the number that the caller wants or 1, and a third more than the samples of every feed; and one of
-- these numbers.
abbrev pub IsOneOf : ℕ → List PullFeedAccountData → ℕ → Type 0
IsOneOf start [] n = n ≡ start
IsOneOf start (feed ∷ feeds) n = IsThirdMore feed.min_sample_size n ⊎ IsOneOf start feeds n

pub record IsNeeded (start : ℕ) (feeds : List PullFeedAccountData) (n : ℕ) : Type 0 where
  pub wanted : start ≤ n
  pub enough : All (λ feed. 4 * feed.min_sample_size ≤ 3 * n) feeds
  pub least : IsOneOf start feeds n

IsOneOf-behind :
    (start next : ℕ) (feed : PullFeedAccountData) (feeds : List PullFeedAccountData) (n : ℕ)
    → (next ≡ start) ⊎ IsThirdMore feed.min_sample_size next
    → IsOneOf next feeds n
    → IsOneOf start (feed ∷ feeds) n
IsOneOf-behind start next feed [] n (inl e) o = inr (o ∙ e)
IsOneOf-behind start next feed [] n (inr t) o =
    inl (subst (IsThirdMore feed.min_sample_size) (sym o) t)
IsOneOf-behind start next feed (g ∷ feeds) n h (inl t) = inr (inl t)
IsOneOf-behind start next feed (g ∷ feeds) n h (inr o) =
    elim (IsOneOf-behind start next feed feeds n h o) [ inl t ↦ inl t | inr b ↦ inr (inr b) ]

gather-IsOneOf :
    (start : ℕ) (queue : Bytes) (feeds : List PullFeedAccountData)
    → IsOneOf start feeds (gather start queue feeds).0
unfolding gather
gather-IsOneOf start queue [] = refl
gather-IsOneOf start queue (feed ∷ feeds) =
    let bound : ℕ = num_sig_lower_bound feed in
    let next : ℕ = if ltb start bound then bound else start in
    let either : (next ≡ start) ⊎ IsThirdMore feed.min_sample_size next =
      elim (Bool-cases (ltb start bound)) [
        | inl less ↦ rw less (inr (num_sig_lower_bound-IsThirdMore feed))
        | inr not_less ↦ rw not_less (inl refl)
      ] in
    IsOneOf-behind start next feed feeds (gather next feed.queue feeds).0 either
      (gather-IsOneOf next feed.queue feeds)

gather-IsNeeded :
    (start : ℕ) (queue : Bytes) (feeds : List PullFeedAccountData)
    → IsNeeded start feeds (gather start queue feeds).0
gather-IsNeeded start queue feeds =
    let (a, b, _) = gather-Suffices start queue feeds in
    record { wanted = a; enough = b; least = gather-IsOneOf start queue feeds }

module _ {Job Json Decimal : Type 0} (world : World Job Json Decimal) where
  open world use {wire}

  -- What is asked about a feed: its jobs, and its variance and quorum.
  abbrev pub body_of : PullFeedAccountData → List Job → FeedRequest
  body_of feed jobs = record {
    jobs_b64_encoded = map wire.encode_job jobs;
    max_variance = wire.scale_variance ((feed.max_variance / 10 ^ 9) % 2 ^ 32);
    min_responses = feed.min_responses;
    use_timestamp = false;
  }

  -- The gateway answers a request for the feed at the latest slot hash, for as many signatures as are wanted.
  pub record IsAnswered (params : FetchUpdateParams) (latest : SlotHash)
      (feed : PullFeedAccountData) (jobs : List Job) (signed : FeedEvalResponseSingle)
      : Type 0 where
    pub num_signatures : ℕ
    pub raw : Bytes
    pub wanted : IsWanted params.num_signatures feed num_signatures
    pub posted :
        wire.post_single (params.gateway.gateway_url ++ signatures_path) (record {
          recent_chainhash = wire.base58_encode latest.hash;
          num_oracles = num_signatures;
          request = body_of feed jobs;
        })
        ≡ some raw
    pub read : wire.single_from_str raw ≡ some signed

  pub answered-IsAnswered :
      (params : FetchUpdateParams) (latest : SlotHash) (feed : PullFeedAccountData)
      (jobs : List Job) (signed : FeedEvalResponseSingle)
      → fetch_signatures_from_encoded wire params.gateway
          (single_request world params latest feed jobs)
        ≡ ok signed
      → IsAnswered params latest feed jobs signed
  unfolding fetch_signatures_from_encoded single_request feed_request request_variance encode_jobs
  answered-IsAnswered params latest feed jobs signed h =
      let (raw, p, h₁) = >>=-eq-ok (ok_or (wire.post_single _ _) signatures_failed) _ h in
      record {
        num_signatures = single_num_signatures feed params.num_signatures;
        raw = raw;
        wanted = single_num_signatures-IsWanted params.num_signatures feed;
        posted = ok_or-eq-ok (wire.post_single _ _) signatures_failed p;
        read = unwrap-eq-ok (wire.single_from_str raw) h₁;
      }

  pub IsAnswered-answered :
      (params : FetchUpdateParams) (latest : SlotHash) (feed : PullFeedAccountData)
      (jobs : List Job) (signed : FeedEvalResponseSingle)
      → IsAnswered params latest feed jobs signed
      → fetch_signatures_from_encoded wire params.gateway
          (single_request world params latest feed jobs)
        ≡ ok signed
  unfolding fetch_signatures_from_encoded single_request feed_request request_variance encode_jobs
  IsAnswered-answered params latest feed jobs signed b =
      let same = IsWanted-unique params.num_signatures feed b.num_signatures b.wanted in
      let posted =
        ap
          (λ n. wire.post_single (params.gateway.gateway_url ++ signatures_path) (record {
            recent_chainhash = wire.base58_encode latest.hash;
            num_oracles = n;
            request = body_of feed jobs;
          }))
          (sym same)
        ∙ b.posted in
      rw (posted, b.read) refl

  -- The accounts of the feeds.
  abbrev pub accounts_of : Loaded world → List PullFeedAccountData
  accounts_of feeds = map (λ (p : Bytes × PullFeedAccountData × List Job). p.1) feeds

  -- The gateway answers a request for all feeds at the latest slot hash, for as many signatures as are needed.
  pub record AllAnswered (params : FetchUpdateManyParams) (latest : SlotHash) (feeds : Loaded world)
      (answers : FetchSignaturesConsensusResponse) : Type 0 where
    pub num_signatures : ℕ
    pub needs : IsNeeded (unwrap_or params.num_signatures 1) (accounts_of feeds) num_signatures
    pub posted :
        wire.post_consensus
          (params.gateway.gateway_url ++ (signatures_path ++ consensus_suffix))
          (record {
            recent_hash = wire.base58_encode latest.hash;
            feed_requests =
                map (λ (p : Bytes × PullFeedAccountData × List Job). body_of p.1 p.2) feeds;
            num_oracles = num_signatures;
          })
        ≡ some answers

  requests-bodies :
      (feeds : Loaded world)
      → map
          (feed_request wire (some false))
          (map (λ (p : Bytes × PullFeedAccountData × List Job). feed_config wire p.1 p.2) feeds)
        ≡ map (λ (p : Bytes × PullFeedAccountData × List Job). body_of p.1 p.2) feeds
  unfolding feed_request feed_config request_variance encode_jobs
  requests-bodies [] = refl
  requests-bodies (p ∷ feeds) = ap (λ l. body_of p.1 p.2 ∷ l) (requests-bodies feeds)

  pub answered-AllAnswered :
      (params : FetchUpdateManyParams) (latest : SlotHash) (feeds : Loaded world)
      (answers : FetchSignaturesConsensusResponse)
      → fetch_signatures_consensus wire params.gateway (consensus_request world params feeds latest)
        ≡ ok answers
      → AllAnswered params latest feeds answers
  unfolding fetch_signatures_consensus consensus_request needed
  answered-AllAnswered params latest feeds answers h = record {
    num_signatures = (needed world params feeds).0;
    needs =
        gather-IsNeeded (unwrap_or params.num_signatures 1) (replicate 32 0) (accounts_of feeds);
    posted =
        ap
          (λ l.
            wire.post_consensus
              (params.gateway.gateway_url ++ (signatures_path ++ consensus_suffix))
              (record {
                recent_hash = wire.base58_encode latest.hash;
                feed_requests = l;
                num_oracles = (needed world params feeds).0;
              }))
          (sym (requests-bodies feeds))
        ∙ ok_or-eq-ok (wire.post_consensus _ _) signatures_failed h;
  }

  -- The account of the first feed with this hash, or 32 zeros.
  abbrev pub IsFeedOf : Loaded world → Bytes → Bytes → Type 0
  IsFeedOf [] hash key = key ≡ replicate 32 0
  IsFeedOf (p ∷ feeds) hash key =
      ((wire.hex_encode p.1.feed_hash ≡ hash) × (key ≡ p.0))
      ⊎ ((¬ (wire.hex_encode p.1.feed_hash ≡ hash)) × IsFeedOf feeds hash key)

  pub feed_pubkey-IsFeedOf :
      (feeds : Loaded world) (mr : MedianResponse)
      → IsFeedOf feeds mr.feed_hash (feed_pubkey world feeds mr)
  unfolding feed_pubkey
  feed_pubkey-IsFeedOf [] mr = refl
  feed_pubkey-IsFeedOf (p ∷ feeds) mr =
      elim (Bool-cases (bytes_eq (wire.hex_encode p.1.feed_hash) mr.feed_hash)) [
        | inl hit ↦ inl (
          bytes_eq→eq (wire.hex_encode p.1.feed_hash) mr.feed_hash hit,
          rw (feed_pubkey, hit) refl,
        )
        | inr miss ↦ inr (
          (λ e. cc (miss, e, bytes_eq_refl mr.feed_hash)),
          rw (feed_pubkey, miss) (feed_pubkey-IsFeedOf feeds mr),
        )
      ]

  -- The queue of the last feed, or 32 zeros.
  pub needed-last_queue :
      (params : FetchUpdateManyParams) (feeds : Loaded world)
      → (needed world params feeds).1 ≡ last_queue (replicate 32 0) (accounts_of feeds)
  unfolding needed
  needed-last_queue params feeds =
      let (_, _, e) =
        gather-Suffices (unwrap_or params.num_signatures 1) (replicate 32 0) (accounts_of feeds) in
      e
