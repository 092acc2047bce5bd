-- ===== src/Context/Loaded.antt =====
-- What the caches of a context and the node give, step by step.
use switchboard_sdk.Prelude.{
  unwrap, unwrap_or, unwrap-eq-ok, ◌++◌, ◌&&◌, not, ◌*◌, ◌+◌, ◌≤◌, ◌≡◌, ◌⊎◌, ◌↔◌, inl, inr, refl,
  ap, sym, ◌∙◌, Option, none, some, List, ok, err, panic, Outcome, length, take, drop, ltb, ◌==◌,
  false, true, >>=-eq-ok, ok_or, ok_or-eq-ok, ok-injective, Bool-cases, Option-cases, arith,
}
use switchboard_sdk.Prelude.Bytes.{from_le_bytes}
use switchboard_sdk.Prelude.Words.{Bytes}
use switchboard_sdk.Feed.{PullFeedAccountData}
use switchboard_sdk.Answers.{
  HttpResponse, default_crossbar, fetch_path, crossbar_fetch, crossbar_failed, jobs_malformed, Wire,
  UpdateError, account_not_found, parse_failed, slot_hashes_failed, CrossbarClient, fetch_jobs,
}
use switchboard_sdk.Context.{
  Node, SbContext, SlotHash, filled, fill, get_or_try_init, load_data, get_latest_slothash,
  cached_feed, cached_jobs,
}

-- The value in the filled cell, or where the cell is empty one that fills it.
abbrev pub Reads : {V : Type 0} → List (Bytes × V) → Bytes → (V → Type 0) → V → Type 0
Reads cells key Fills v = (filled cells key ≡ some v) ⊎ ((filled cells key ≡ none) × Fills v)

module _ {V : Type 0} where
  fill-result :
      (cells : List (Bytes × V)) (key : Bytes) (o : Outcome UpdateError V)
      → (fill cells key o).0 ≡ o
  unfolding fill
  fill-result cells key (ok v) = refl
  fill-result cells key (err e) = refl
  fill-result cells key panic = refl

  get_or_try_init-Reads :
      (cells : List (Bytes × V)) (key : Bytes) (o : Outcome UpdateError V) (v : V)
      → (get_or_try_init cells key o).0 ≡ ok v
      → Reads cells key (λ w. o ≡ ok w) v
  unfolding get_or_try_init
  get_or_try_init-Reads cells key o v h = elim (Option-cases (filled cells key)) [
    | inl empty ↦ inr (empty, sym (fill-result cells key o) ∙ (rw (get_or_try_init, empty) at h))
    | inr (w, full) ↦ inl (full ∙ ap some (ok-injective (rw (get_or_try_init, full) at h)))
  ]

  Reads-get_or_try_init :
      (cells : List (Bytes × V)) (key : Bytes) (o : Outcome UpdateError V) (v : V)
      → Reads cells key (λ w. o ≡ ok w) v
      → (get_or_try_init cells key o).0 ≡ ok v
  unfolding get_or_try_init
  Reads-get_or_try_init cells key o v (inl full) = rw (get_or_try_init, full) refl
  Reads-get_or_try_init cells key o v (inr (empty, e)) =
      rw (get_or_try_init, empty) (fill-result cells key o ∙ e)

module _ (node : Node) where
  open node use {slot_hashes, account_data, feed_size, feed_cast}

  -- An account of the size of a feed's, and the feed that is cast from it.
  abbrev pub IsAccount : Bytes → PullFeedAccountData → Type 0
  IsAccount key feed =
      (account : Bytes) × (account_data key ≡ some account)
      × (length account ≡ feed_size + 8)
      × (feed_cast (drop 8 account) ≡ some feed)

  load_data-IsAccount :
      (key : Bytes) (feed : PullFeedAccountData) → load_data node key ≡ ok feed → IsAccount key feed
  unfolding load_data
  load_data-IsAccount key feed h =
      let (account, a, h₁) = >>=-eq-ok (ok_or (account_data key) account_not_found) _ h in
      elim (Bool-cases (ltb (length account) 8)) [
        | inl short ↦ cc (rw short at h₁)
        | inr long ↦
            let h₂ = rw long at h₁ in
            elim (Bool-cases (length account == feed_size + 8)) [
              | inl fits ↦ (
                account,
                ok_or-eq-ok (account_data key) account_not_found a,
                ground arith,
                ok_or-eq-ok (feed_cast (drop 8 account)) parse_failed (rw fits at h₂),
              )
              | inr other ↦ cc (rw other at h₂)
            ]
      ]

  IsAccount-load_data :
      (key : Bytes) (feed : PullFeedAccountData) → IsAccount key feed → load_data node key ≡ ok feed
  unfolding load_data
  IsAccount-load_data key feed (account, a, l, c) =
      let long : ltb (length account) 8 ≡ false = ground (arith, l) in
      let fits : (length account == feed_size + 8) ≡ true = ground (arith, l) in
      rw (a, long, fits, c) refl

  -- The newest entry of the 512 of the slot hashes.
  abbrev pub IsLatest : SlotHash → Type 0
  IsLatest latest =
      (hashes : Bytes) × (slot_hashes ≡ some (some hashes))
      × (8 + 512 * 40 ≤ length hashes)
      × (latest.slot ≡ from_le_bytes (take 8 (drop 8 hashes)))
      × (latest.hash ≡ take 32 (drop 16 hashes))

  pub get_latest_slothash-IsLatest :
      (latest : SlotHash) → get_latest_slothash node ≡ ok latest → IsLatest latest
  unfolding get_latest_slothash
  get_latest_slothash-IsLatest latest h =
      let (value, a, h₁) = >>=-eq-ok (ok_or slot_hashes slot_hashes_failed) _ h in
      let (hashes, b, h₂) = >>=-eq-ok (ok_or value slot_hashes_failed) _ h₁ in
      elim (Bool-cases (ltb (length hashes) (8 + 20_480))) [
        | inl short ↦ cc (rw short at h₂)
        | inr long ↦
            let made = ok-injective (rw long at h₂) in
            (
              hashes,
              ok_or-eq-ok slot_hashes slot_hashes_failed a
                  ∙ ap some (ok_or-eq-ok value slot_hashes_failed b),
              ground arith,
              sym (ap (λ (l : SlotHash). l.slot) made),
              sym (ap (λ (l : SlotHash). l.hash) made),
            )
      ]

  pub IsLatest-get_latest_slothash :
      (latest : SlotHash) → IsLatest latest → get_latest_slothash node ≡ ok latest
  unfolding get_latest_slothash
  IsLatest-get_latest_slothash latest (hashes, a, l, slot, hash) =
      let long : ltb (length hashes) (8 + 20_480) ≡ false = ground (arith, l) in
      rw (a, long) (λ i. ok (record { slot = sym slot i; hash = sym hash i }))

  pub cached_feed_iff :
      {Job : Type 0} (key : Bytes) (s : SbContext Job) (feed : PullFeedAccountData)
      → ((cached_feed node key s).0 ≡ ok feed) ↔ Reads s.pull_feed_cache key (IsAccount key) feed
  unfolding cached_feed
  cached_feed_iff key s feed = (
    λ h. elim (get_or_try_init-Reads s.pull_feed_cache key (load_data node key) feed h) [
      | inl full ↦ inl full
      | inr (empty, l) ↦ inr (empty, load_data-IsAccount key feed l)
    ],
    λ r. Reads-get_or_try_init s.pull_feed_cache key (load_data node key) feed (elim r [
      | inl full ↦ inl full
      | inr (empty, l) ↦ inr (empty, IsAccount-load_data key feed l)
    ]),
  )

module _ {Job Json Decimal : Type 0} (wire : Wire Job Json Decimal)
    (crossbar : Option CrossbarClient) (feed_hash : Bytes) where
  open wire use {hex_encode, http_get, jobs_member, jobs_from_value}

  -- The crossbar, the caller's or the default, answers the hash with success and JSON, of which the member
  -- with the jobs can be read.
  abbrev pub AreSent : List Job → Type 0
  AreSent jobs =
      (resp : HttpResponse Json) × (json : Json) × (member : Json) × (http_get (
          (unwrap_or crossbar default_crossbar).crossbar_url
          ++ (fetch_path ++ hex_encode feed_hash))
        ≡ some resp)
      × (resp.is_success ≡ true)
      × (resp.json ≡ some json)
      × (jobs_member json ≡ some member)
      × (jobs_from_value member ≡ some jobs)

  crossbar_fetch-sends :
      (c : CrossbarClient) (hash : Bytes) (json : Json)
      → crossbar_fetch wire c hash ≡ ok json
      → (resp : HttpResponse Json) × (http_get (c.crossbar_url ++ (fetch_path ++ hash)) ≡ some resp)
        × (resp.is_success ≡ true)
        × (resp.json ≡ some json)
  unfolding crossbar_fetch
  crossbar_fetch-sends c hash json h =
      let (resp, r, h₁) =
        >>=-eq-ok (ok_or (http_get (c.crossbar_url ++ (fetch_path ++ hash))) crossbar_failed) _ h in
      let got = ok_or-eq-ok (http_get (c.crossbar_url ++ (fetch_path ++ hash))) crossbar_failed r in
      elim (Bool-cases resp.is_success) [
        | inl success ↦
            (resp, got, success, ok_or-eq-ok resp.json crossbar_failed (rw success at h₁))
        | inr failure ↦ elim (Bool-cases (c.verbose && not resp.has_text)) [
          | inl silent ↦ cc (rw (failure, silent) at h₁)
          | inr read ↦ cc (rw (failure, read) at h₁)
        ]
      ]

  fetch_jobs-AreSent :
      (jobs : List Job) → fetch_jobs wire crossbar feed_hash ≡ ok jobs → AreSent jobs
  unfolding fetch_jobs
  fetch_jobs-AreSent jobs h =
      let c : CrossbarClient = unwrap_or crossbar default_crossbar in
      let (json, j, h₁) = >>=-eq-ok (crossbar_fetch wire c (hex_encode feed_hash)) _ h in
      let (member, m, h₂) = >>=-eq-ok (unwrap (jobs_member json)) _ h₁ in
      let (resp, got, success, text) = crossbar_fetch-sends c (hex_encode feed_hash) json j in
      (
        resp,
        json,
        member,
        got,
        success,
        text,
        unwrap-eq-ok (jobs_member json) m,
        ok_or-eq-ok (jobs_from_value member) jobs_malformed h₂,
      )

  AreSent-fetch_jobs :
      (jobs : List Job) → AreSent jobs → fetch_jobs wire crossbar feed_hash ≡ ok jobs
  unfolding fetch_jobs crossbar_fetch
  AreSent-fetch_jobs jobs (resp, json, member, got, success, text, m, j) =
      rw (got, success, text, m, j) refl

  pub cached_jobs_iff :
      (s : SbContext Job) (jobs : List Job)
      → ((cached_jobs wire crossbar feed_hash s).0 ≡ ok jobs)
        ↔ Reads s.job_cache feed_hash AreSent jobs
  unfolding cached_jobs
  cached_jobs_iff s jobs =
      let sent : Outcome UpdateError (List Job) = fetch_jobs wire crossbar feed_hash in
      (
        λ h. elim (get_or_try_init-Reads s.job_cache feed_hash sent jobs h) [
          | inl full ↦ inl full
          | inr (empty, l) ↦ inr (empty, fetch_jobs-AreSent jobs l)
        ],
        λ r. Reads-get_or_try_init s.job_cache feed_hash sent jobs (elim r [
          | inl full ↦ inl full
          | inr (empty, l) ↦ inr (empty, AreSent-fetch_jobs jobs l)
        ]),
      )
