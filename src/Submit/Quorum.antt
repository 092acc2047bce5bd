-- ===== src/Submit/Quorum.antt =====
-- How many signatures are asked for, and which feed accounts are passed.
use switchboard_sdk.Prelude.{
  All-mono, ℕ, ◌*◌, ◌≡◌, ◌≤◌, refl, List, [], ◌∷◌, All, arith, ltb, if◌then◌else◌,
}
use switchboard_sdk.Prelude.Words.{Bytes}
use switchboard_sdk.Feed.{PullFeedAccountData}
use switchboard_sdk.Submit.{gather, num_sig_lower_bound}

gather-le :
    (n : ℕ) (queue : Bytes) (feeds : List PullFeedAccountData) → n ≤ (gather n queue feeds).0
unfolding gather
gather-le n queue [] = omega arith
gather-le n queue (feed ∷ feeds) = ground (
  arith,
  gather-le (if ltb n (num_sig_lower_bound feed) then num_sig_lower_bound feed else n) feed.queue
      feeds,
)

gather-bound :
    (n : ℕ) (queue : Bytes) (feeds : List PullFeedAccountData)
    → All (λ feed. num_sig_lower_bound feed ≤ (gather n queue feeds).0) feeds
unfolding gather
gather-bound n queue [] = tt
gather-bound n queue (feed ∷ feeds) =
    let next : ℕ = if ltb n (num_sig_lower_bound feed) then num_sig_lower_bound feed else n in
    (ground (arith, gather-le next feed.queue feeds), gather-bound next feed.queue feeds)

-- The queue of the last feed.
abbrev pub last_queue : Bytes → List PullFeedAccountData → Bytes
last_queue queue [] = queue
last_queue queue (feed ∷ feeds) = last_queue feed.queue feeds

gather-last_queue :
    (n : ℕ) (queue : Bytes) (feeds : List PullFeedAccountData)
    → (gather n queue feeds).1 ≡ last_queue queue feeds
unfolding gather
gather-last_queue n queue [] = refl
gather-last_queue n queue (feed ∷ feeds) =
    gather-last_queue (if ltb n (num_sig_lower_bound feed) then num_sig_lower_bound feed else n)
      feed.queue feeds

third :
    (n : ℕ) (feed : PullFeedAccountData)
    → num_sig_lower_bound feed ≤ n
    → 4 * feed.min_sample_size ≤ 3 * n
unfolding num_sig_lower_bound
third n feed h = omega (arith, h)

-- A consensus update asks for as many signatures as the caller wants, and as every feed needs: a third more
-- than its samples; and it is made for the queue of the last feed, whatever the queues of the others are.
pub gather-Suffices :
    (n : ℕ) (queue : Bytes) (feeds : List PullFeedAccountData)
    → (n ≤ (gather n queue feeds).0)
      × All (λ feed. 4 * feed.min_sample_size ≤ 3 * (gather n queue feeds).0) feeds
      × ((gather n queue feeds).1 ≡ last_queue queue feeds)
gather-Suffices n queue feeds = (
  gather-le n queue feeds,
  All-mono (third (gather n queue feeds).0) feeds (gather-bound n queue feeds),
  gather-last_queue n queue feeds,
)
