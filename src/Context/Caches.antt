-- ===== src/Context/Caches.antt =====
-- What the caches of a context hold after a step.
use switchboard_sdk.Prelude.{
  ◌≡◌, refl, ap, ok-injective, ◌∙◌, Option, none, some, List, [], ◌∷◌, ok, err, panic, Outcome,
  Bool-cases, inl, inr, ◌⊎◌,
}
use switchboard_sdk.Prelude.Words.{Bytes, bytes_eq, bytes_eq→eq, bytes_eq_refl}
use switchboard_sdk.Prelude.Exec.{Keeps}
use switchboard_sdk.Transaction.{AddressLookupTableAccount}
use switchboard_sdk.Feed.{PullFeedAccountData}
use switchboard_sdk.Luts.{LutCache, cache_get, cache_all}
use switchboard_sdk.Luts.Joined.{
  Owner, of_oracles, of_feeds, of_queue, Fetched, insert_all, inserts_of, fetched_luts-keeps,
}
use switchboard_sdk.Answers.{Wire, UpdateError, CrossbarClient, fetch_jobs}
use switchboard_sdk.Context.{
  Node, SbContext, fill, filled, get_or_try_init, cached_feed, cached_jobs, join_luts, fetches,
  load_data,
}

module _ {V : Type 0} where
  pub Option-cases : (o : Option V) → (o ≡ none) ⊎ ((v : V) × (o ≡ some v))
  Option-cases none = inl refl
  Option-cases (some v) = inr (v, refl)

  fill-keeps :
      (cells : List (Bytes × V)) (key k : Bytes) (v : V) (init : Outcome UpdateError V)
      → filled cells key ≡ none
      → filled cells k ≡ some v
      → filled (fill cells key init).1 k ≡ some v
  unfolding fill filled
  fill-keeps cells key k v (ok w) empty held = elim (Bool-cases (bytes_eq key k)) [
    | inl same ↦ let e = bytes_eq→eq key k same in cc (rw e at empty)
    | inr other ↦ rw other held
  ]
  fill-keeps cells key k v (err e) empty held = held
  fill-keeps cells key k v panic empty held = held

  -- A cell that is filled keeps its value.
  pub get_or_try_init-keeps :
      (cells : List (Bytes × V)) (key k : Bytes) (v : V) (init : Outcome UpdateError V)
      → filled cells k ≡ some v
      → filled (get_or_try_init cells key init).1 k ≡ some v
  unfolding get_or_try_init filled
  get_or_try_init-keeps cells key k v init held = elim (Option-cases (filled cells key)) [
    | inl empty ↦ rw (get_or_try_init, empty) (fill-keeps cells key k v init empty held)
    | inr (w, full) ↦ rw (get_or_try_init, full) held
  ]

  fill-filled :
      (cells : List (Bytes × V)) (key : Bytes) (v : V) (init : Outcome UpdateError V)
      → (fill cells key init).0 ≡ ok v
      → filled (fill cells key init).1 key ≡ some v
  unfolding fill filled
  fill-filled cells key v (ok w) h = rw (bytes_eq_refl key) (ap some (ok-injective h))
  fill-filled cells key v (err e) h = cc
  fill-filled cells key v panic h = cc

  -- What a read returns is in the cell.
  pub get_or_try_init-filled :
      (cells : List (Bytes × V)) (key : Bytes) (v : V) (init : Outcome UpdateError V)
      → (get_or_try_init cells key init).0 ≡ ok v
      → filled (get_or_try_init cells key init).1 key ≡ some v
  unfolding get_or_try_init filled
  get_or_try_init-filled cells key v init h = elim (Option-cases (filled cells key)) [
    | inl empty ↦
        rw (get_or_try_init, empty)
          (fill-filled cells key v init (rw (get_or_try_init, empty) at h))
    | inr (w, full) ↦
        rw (get_or_try_init, full) (full ∙ ap some (ok-injective (rw (get_or_try_init, full) at h)))
  ]

insert_all-keeps :
    (cache now : LutCache) (fetched : Owner → Fetched) (order : List Owner) (k : Bytes)
    (lut : AddressLookupTableAccount)
    → ((o : Owner) (c : LutCache)
        → cache_get c k ≡ some lut
        → cache_get (cache_all c (inserts_of (fetched o))) k ≡ some lut)
    → cache_get now k ≡ some lut
    → cache_get (insert_all now fetched order) k ≡ some lut
unfolding insert_all
insert_all-keeps cache now fetched [] k lut keeps h = h
insert_all-keeps cache now fetched (o ∷ order) k lut keeps h =
    insert_all-keeps cache (cache_all now (inserts_of (fetched o))) fetched order k lut keeps
      (keeps o now h)

fetches-keep :
    (node : Node) (cache : LutCache) (a b c : List Bytes) (k : Bytes)
    (lut : AddressLookupTableAccount)
    → cache_get cache k ≡ some lut
    → (o : Owner) (now : LutCache) → cache_get now k ≡ some lut
    → cache_get (cache_all now (inserts_of (fetches node cache a b c o))) k ≡ some lut
unfolding fetches
fetches-keep node cache a b c k lut held of_oracles now h =
    fetched_luts-keeps node.get_multiple_accounts (node.lut_slot_of of_oracles) node.derive_lut
      node.parse_lut cache now a k lut held h
fetches-keep node cache a b c k lut held of_feeds now h =
    fetched_luts-keeps node.get_multiple_accounts (node.lut_slot_of of_feeds) node.derive_lut
      node.parse_lut cache now b k lut held h
fetches-keep node cache a b c k lut held of_queue now h =
    fetched_luts-keeps node.get_multiple_accounts (node.lut_slot_of of_queue) node.derive_lut
      node.parse_lut cache now c k lut held h

module _ {Job : Type 0} where
  -- The three claims that a context may be asked to keep.
  abbrev pub HoldsFeed : Bytes → PullFeedAccountData → SbContext Job → Type 0
  HoldsFeed k feed s = filled s.pull_feed_cache k ≡ some feed

  abbrev pub HoldsJobs : Bytes → List Job → SbContext Job → Type 0
  HoldsJobs k jobs s = filled s.job_cache k ≡ some jobs

  abbrev pub HoldsLut : Bytes → AddressLookupTableAccount → SbContext Job → Type 0
  HoldsLut k lut s = cache_get s.lut_cache k ≡ some lut

  -- Everything that a context holds in its caches, another holds too.
  pub record Extends (s s' : SbContext Job) : Type 0 where
    pub feeds : (k : Bytes) (feed : PullFeedAccountData) → HoldsFeed k feed s → HoldsFeed k feed s'
    pub jobs : (k : Bytes) (jobs : List Job) → HoldsJobs k jobs s → HoldsJobs k jobs s'
    pub luts : (k : Bytes) (lut : AddressLookupTableAccount) → HoldsLut k lut s → HoldsLut k lut s'

  pub cached_feed-Extends :
      (node : Node) (key : Bytes) (start : SbContext Job)
      → Keeps (Extends start) (cached_feed node {Job = Job} key)
  unfolding cached_feed
  cached_feed-Extends node key start = record {
    at = λ s e. record {
      feeds = λ k feed h.
          get_or_try_init-keeps s.pull_feed_cache key k feed (load_data node key)
            (e.feeds k feed h);
      jobs = e.jobs;
      luts = e.luts;
    };
  }

  pub join_luts-Extends :
      (node : Node) (order : List Owner) (a b c : List Bytes) (start : SbContext Job)
      → Keeps (Extends start) (join_luts node {Job = Job} order a b c)
  unfolding join_luts
  join_luts-Extends node order a b c start = record {
    at = λ s e. record {
      feeds = e.feeds;
      jobs = e.jobs;
      luts = λ k lut h.
          insert_all-keeps s.lut_cache s.lut_cache (fetches node s.lut_cache a b c) order k lut
            (fetches-keep node s.lut_cache a b c k lut (e.luts k lut h)) (e.luts k lut h);
    };
  }

pub cached_jobs-Extends :
    {Job Json Decimal : Type 0} (wire : Wire Job Json Decimal) (crossbar : Option CrossbarClient)
    (feed_hash : Bytes) (start : SbContext Job)
    → Keeps (Extends start) (cached_jobs wire crossbar feed_hash)
unfolding cached_jobs
cached_jobs-Extends wire crossbar feed_hash start = record {
  at = λ s e. record {
    feeds = e.feeds;
    jobs = λ k jobs h.
        get_or_try_init-keeps s.job_cache feed_hash k jobs (fetch_jobs wire crossbar feed_hash)
          (e.jobs k jobs h);
    luts = e.luts;
  };
}
