-- ===== src/Updates/Single.antt =====
-- The steps of an update of one feed.
use switchboard_sdk.Prelude.{
  map, false, ◌↔◌, Outcome, ℕ, ◌+◌, ◌==◌, ◌≡◌, ◌<◌, ap, ap₂, sym, ◌∙◌, Option, none, some, List, [],
  ◌∷◌, ok, err, subst, arith, Bool-cases, inl, inr, >>=-eq-ok, unwrap, ok-injective,
}
use switchboard_sdk.Prelude.Int.{ℤ}
use switchboard_sdk.Prelude.Exec.{
  Exec, pure, lift->>=-continues, >>=-continues, with_context, lift->>=-returns, >>=-returns,
  lift-returns, pure-returns,
}
use switchboard_sdk.Prelude.Traverse.{traverse, traverse-cons}
use switchboard_sdk.Feed.{PullFeedAccountData}
use switchboard_sdk.Submit.{OracleResponse, get_solana_submit_signatures_ix}
use switchboard_sdk.Transaction.{AddressLookupTableAccount}
use switchboard_sdk.Answers.{
  UpdateError, Wire, exactly, formatted_value, no_successful_responses, FeedEvalResponse,
  FeedEvalResponseSingle, response_of, num_successes, fetch_signatures_from_encoded,
}
use switchboard_sdk.Context.{
  SbContext, SlotHash, cached_feed, cached_jobs, get_latest_slothash, join_luts,
}
use switchboard_sdk.Updates.{
  World, FetchUpdateParams, Update, fetch_update_ix, update_from, single_request,
}

-- How many responses have a value.
abbrev pub with_value : {D : Type 0} → List (OracleResponse D) → ℕ
with_value [] = 0
with_value (r ∷ rs) = elim r.value [ none ↦ 0 | some _ ↦ 1 ] + with_value rs

module _ {Job Json Decimal : Type 0} (wire : Wire Job Json Decimal) where
  formatted_value-counts :
      (o : Option ℤ) (v : Option Decimal)
      → formatted_value wire o ≡ ok v
      → ◌≡◌ {A = ℕ} (elim o [ none ↦ 0 | some _ ↦ 1 ]) (elim v [ none ↦ 0 | some _ ↦ 1 ])
  unfolding formatted_value
  formatted_value-counts none v h =
      ap (λ (o : Option Decimal). elim o as (λ _. ℕ) [ none ↦ 0 | some _ ↦ 1 ]) (ok-injective h)
  formatted_value-counts (some val) v h =
      let (d, _, e) = >>=-eq-ok (unwrap (wire.from_i128_with_scale val 18)) _ h in
      ap (λ (o : Option Decimal). elim o as (λ _. ℕ) [ none ↦ 0 | some _ ↦ 1 ]) (ok-injective e)

  response_of-value :
      (x : FeedEvalResponse) (r : OracleResponse Decimal)
      → response_of wire x ≡ ok r
      → ◌≡◌ {A = ℕ}
          (elim (wire.parse_i128 x.success_value) [ none ↦ 0 | some _ ↦ 1 ])
          (elim r.value [ none ↦ 0 | some _ ↦ 1 ])
  unfolding response_of
  response_of-value x r h =
      let (v, read, h₁) = >>=-eq-ok (formatted_value wire (wire.parse_i128 x.success_value)) _ h in
      let (key, _, h₂) = >>=-eq-ok (unwrap (wire.hex_decode x.oracle_pubkey)) _ h₁ in
      let (oracle, _, h₃) = >>=-eq-ok (unwrap (exactly 32 key)) _ h₂ in
      let same : v ≡ r.value = ap (λ (y : OracleResponse Decimal). y.value) (ok-injective h₃) in
      formatted_value-counts (wire.parse_i128 x.success_value) v read
      ∙ ap (λ (o : Option Decimal). elim o as (λ _. ℕ) [ none ↦ 0 | some _ ↦ 1 ]) same

  num_successes-with_value :
      (xs : List FeedEvalResponse) (rs : List (OracleResponse Decimal))
      → traverse (response_of wire) xs ≡ ok rs
      → num_successes wire xs ≡ with_value rs
  unfolding num_successes traverse
  num_successes-with_value [] rs h = ap with_value (ok-injective h)
  num_successes-with_value (x ∷ xs) out h =
      let (r, rs, first, others, all) = traverse-cons (response_of wire) x xs h in
      ap₂ (λ m n. m + n) (response_of-value x r first) (num_successes-with_value xs rs others)
      ∙ ap with_value all

module _ {Job Json Decimal : Type 0} (world : World Job Json Decimal) where
  open world use {node, wire, chain, order}

  -- The feeds and the jobs are read through the caches, each in the context that the one before left.
  abbrev pub after_feed : FetchUpdateParams → SbContext Job → SbContext Job
  after_feed params s = (cached_feed node {Job = Job} params.feed s).1

  abbrev pub after_jobs : FetchUpdateParams → PullFeedAccountData → SbContext Job → SbContext Job
  after_jobs params feed s =
      (cached_jobs wire params.crossbar feed.feed_hash (after_feed params s)).1

  -- The tables of an update with these responses.
  abbrev pub update_luts :
      FetchUpdateParams
      → PullFeedAccountData
      → List (OracleResponse Decimal)
      → Exec UpdateError (SbContext Job) (List AddressLookupTableAccount)
  update_luts params feed responses =
      join_luts node order (map (λ (r : OracleResponse Decimal). r.oracle) responses)
        (params.feed ∷ []) (feed.queue ∷ [])

  -- What an update from these answers submits.
  pub record Submits (params : FetchUpdateParams) (latest : SlotHash) (feed : PullFeedAccountData)
      (answers : List FeedEvalResponse) (s : SbContext Job) (u : Update Decimal) : Type 0 where
    pub responses : traverse (response_of wire) answers ≡ ok u.oracle_responses
    pub submitted :
        u.submit_ix
        ≡ get_solana_submit_signatures_ix chain latest.slot u.oracle_responses
            (record { feed = params.feed; queue = feed.queue; payer = params.payer })
    pub counted : u.successes ≡ with_value u.oracle_responses
    pub succeeded : 0 < u.successes
    pub joined : (update_luts params feed u.oracle_responses s).0 ≡ ok u.luts

  update_from-Submits :
      (params : FetchUpdateParams) (latest : SlotHash) (feed : PullFeedAccountData)
      (answers : List FeedEvalResponse) (s s' : SbContext Job) (u : Update Decimal)
      → update_from world params latest feed answers s ≡ (ok u, s')
      → Submits params latest feed answers s u
  unfolding update_from
  update_from-Submits params latest feed answers s s' u run =
      let (rs, t, next) = lift->>=-returns (traverse (response_of wire) answers) _ s run in
      let n : ℕ = num_successes wire answers in
      elim (Bool-cases (n == 0)) [
        | inl nothing ↦ cc (lift-returns (err no_successful_responses) s (rw nothing at next))
        | inr counted ↦
            let (luts, j, done) =
              >>=-returns (update_luts params feed rs) _ s (rw counted at next) in
            let made = pure-returns _ _ done in
            let same : rs ≡ u.oracle_responses =
              ap (λ (x : Update Decimal). x.oracle_responses) made in
            let count : n ≡ u.successes = ap (λ (x : Update Decimal). x.successes) made in
            record {
              responses = t ∙ ap ok same;
              submitted =
                  sym (ap (λ (x : Update Decimal). x.submit_ix) made)
                  ∙ ap
                      (λ l.
                        get_solana_submit_signatures_ix chain latest.slot l
                          (record { feed = params.feed; queue = feed.queue; payer = params.payer }))
                      same;
              counted = sym count ∙ num_successes-with_value wire answers rs t ∙ ap with_value same;
              succeeded = subst (λ m. 0 < m) count (ground arith);
              joined =
                  ap (λ l. (update_luts params feed l s).0) (sym same)
                  ∙ j
                  ∙ ap ok (ap (λ (x : Update Decimal). x.luts) made);
            }
      ]

  Submits-update_from :
      (params : FetchUpdateParams) (latest : SlotHash) (feed : PullFeedAccountData)
      (answers : List FeedEvalResponse) (s : SbContext Job) (u : Update Decimal)
      → Submits params latest feed answers s u
      → (update_from world params latest feed answers s).0 ≡ ok u
  unfolding update_from pure
  Submits-update_from params latest feed answers s u b =
      let n : ℕ = num_successes wire answers in
      let count : n ≡ u.successes =
        num_successes-with_value wire answers u.oracle_responses b.responses ∙ sym b.counted in
      let some_success : (n == 0) ≡ false =
        let more : 0 < n = subst (λ m. 0 < m) (sym count) b.succeeded in ground arith in
      ap (λ (p : Outcome UpdateError (Update Decimal) × SbContext Job). p.0)
        (lift->>=-continues (traverse (response_of wire) answers) _ s b.responses)
      ∙ rw some_success (
          ap (λ (p : Outcome UpdateError (Update Decimal) × SbContext Job). p.0)
            (>>=-continues (update_luts params feed u.oracle_responses) _ s b.joined))
      ∙ ap₂
          (λ ix m. ok (record {
            submit_ix = ix;
            oracle_responses = u.oracle_responses;
            successes = m;
            luts = u.luts;
          }))
          (sym b.submitted) count

  -- The steps of an update, from the latest slot hash to what is submitted.
  pub record IsUpdate (params : FetchUpdateParams) (s : SbContext Job) (u : Update Decimal)
      : Type 0 where
    pub latest : SlotHash
    pub feed : PullFeedAccountData
    pub jobs : List Job
    pub signed : FeedEvalResponseSingle
    pub slot : get_latest_slothash node ≡ ok latest
    pub loaded : (cached_feed node {Job = Job} params.feed s).0 ≡ ok feed
    pub fetched :
        (cached_jobs wire params.crossbar feed.feed_hash (after_feed params s)).0 ≡ ok jobs
    pub answered :
        fetch_signatures_from_encoded wire params.gateway
          (single_request world params latest feed jobs)
        ≡ ok signed
    pub submits : Submits params latest feed signed.responses (after_jobs params feed s) u

  fetch_update_ix-IsUpdate :
      (params : FetchUpdateParams) (s s' : SbContext Job) (u : Update Decimal)
      → fetch_update_ix world params s ≡ (ok u, s')
      → IsUpdate params s u
  unfolding fetch_update_ix
  fetch_update_ix-IsUpdate params s s' u run =
      let (latest, l, r₁) = lift->>=-returns (get_latest_slothash node) _ s run in
      let (feed, f, r₂) = >>=-returns (cached_feed node params.feed) _ s r₁ in
      let s₁ : SbContext Job = after_feed params s in
      let (jobs, j, r₃) = >>=-returns (cached_jobs wire params.crossbar feed.feed_hash) _ s₁ r₂ in
      let s₂ : SbContext Job = after_jobs params feed s in
      let (signed, g, r₄) =
        lift->>=-returns
          (fetch_signatures_from_encoded wire params.gateway
            (single_request world params latest feed jobs))
          _ s₂ r₃ in
      record {
        latest = latest;
        feed = feed;
        jobs = jobs;
        signed = signed;
        slot = l;
        loaded = f;
        fetched = j;
        answered = g;
        submits = update_from-Submits params latest feed signed.responses s₂ s' u r₄;
      }

  IsUpdate-fetch_update_ix :
      (params : FetchUpdateParams) (s : SbContext Job) (u : Update Decimal)
      → IsUpdate params s u
      → (fetch_update_ix world params s).0 ≡ ok u
  unfolding fetch_update_ix
  IsUpdate-fetch_update_ix params s u b =
      let s₁ : SbContext Job = after_feed params s in
      let s₂ : SbContext Job = after_jobs params b.feed s in
      ap (λ (p : Outcome UpdateError (Update Decimal) × SbContext Job). p.0)
        (lift->>=-continues (get_latest_slothash node) _ s b.slot
          ∙ >>=-continues (cached_feed node params.feed) _ s b.loaded
          ∙ >>=-continues (cached_jobs wire params.crossbar b.feed.feed_hash) _ s₁ b.fetched
          ∙ lift->>=-continues
              (fetch_signatures_from_encoded wire params.gateway
                (single_request world params b.latest b.feed b.jobs))
              _ s₂ b.answered)
      ∙ Submits-update_from params b.latest b.feed b.signed.responses s₂ u b.submits

  pub fetch_update_ix_steps :
      (params : FetchUpdateParams) (s : SbContext Job) (u : Update Decimal)
      → ((fetch_update_ix world params s).0 ≡ ok u) ↔ IsUpdate params s u
  fetch_update_ix_steps params s u = (
    λ run.
        fetch_update_ix-IsUpdate params s (fetch_update_ix world params s).1 u
          (with_context (fetch_update_ix world params) s run),
    IsUpdate-fetch_update_ix params s u,
  )
