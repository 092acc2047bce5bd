-- ===== src/Queue/Fetching.antt =====
-- The pairs of keys and oracles that `fetch_oracles` returns: its answers are paired by position after
-- the accounts that are missing or unreadable were dropped.
use switchboard_sdk.Prelude.{
  false, ltb, ◌≡◌, refl, Option, some, none, List, [], ◌∷◌, map, get_elem?, ok, zip, ◌≤◌, arith,
  take, length,
}
use switchboard_sdk.Prelude.Words.{Bytes}
use switchboard_sdk.Account.{Layout, parse}
use switchboard_sdk.Oracle.{OracleAccountData, decode_found}
use switchboard_sdk.Queue.{QueueAccountData, fetch_oracles, prefix}

module _ (layout : Layout OracleAccountData) where
  -- Every account of the list reads as an oracle.
  abbrev pub AllRead : List Bytes → List OracleAccountData → Type 0
  AllRead [] [] = Unit {0}
  AllRead [] (o ∷ os) = ⊥
  AllRead (b ∷ bs) [] = ⊥
  AllRead (b ∷ bs) (o ∷ os) = (parse layout b ≡ ok o) × AllRead bs os

  decode_found-AllRead :
      (bs : List Bytes) (os : List OracleAccountData)
      → AllRead bs os
      → decode_found layout (map some bs) ≡ ok os
  unfolding decode_found
  decode_found-AllRead [] [] h = refl
  decode_found-AllRead [] (o ∷ os) h = absurd h
  decode_found-AllRead (b ∷ bs) [] h = absurd h
  decode_found-AllRead (b ∷ bs) (o ∷ os) h =
      rw (decode_found, h.0, decode_found-AllRead bs os h.1) refl

  -- The keys that a queue asks the node for.
  abbrev pub asked : QueueAccountData → List Bytes
  asked queue = take queue.oracle_keys_len queue.all_oracle_keys

  module _ (queue : QueueAccountData) (answer : List Bytes → Option (List (Option Bytes)))
      (sized : queue.oracle_keys_len ≤ length queue.all_oracle_keys) where
    fetch_oracles-zip :
        (accounts : List (Option Bytes)) (os : List OracleAccountData)
        → answer (asked queue) ≡ some accounts
        → decode_found layout accounts ≡ ok os
        → fetch_oracles layout queue answer ≡ ok (zip (asked queue) os)
    unfolding fetch_oracles prefix
    fetch_oracles-zip accounts os a d =
        let long : ltb (length queue.all_oracle_keys) queue.oracle_keys_len ≡ false =
          ground arith in
        rw (long, a, d) refl

    -- When the node has an account for every key and each reads as an oracle, `fetch_oracles` pairs each
    -- key with the oracle of its own account.
    pub fetch_oracles-aligned :
        (bs : List Bytes) (os : List OracleAccountData)
        → answer (asked queue) ≡ some (map some bs)
        → AllRead bs os
        → fetch_oracles layout queue answer ≡ ok (zip (asked queue) os)
    fetch_oracles-aligned bs os a h =
        fetch_oracles-zip (map some bs) os a (decode_found-AllRead bs os h)

    -- When the queue's number of keys is within its array, and the node has no account for the first key,
    -- and for each of the further keys, of which there is at least one, an account that reads as an oracle,
    -- `fetch_oracles` returns, and pairs the first key with the oracle of the second.
    pub fetch_oracles_misaligned :
        (first : Bytes) (keys : List Bytes) (second : Bytes) (bs : List Bytes)
        (o : OracleAccountData) (os : List OracleAccountData)
        → asked queue ≡ first ∷ keys
        → answer (asked queue) ≡ some (none ∷ map some (second ∷ bs))
        → AllRead (second ∷ bs) (o ∷ os)
        → (pairs : List (Bytes × OracleAccountData)) × (fetch_oracles layout queue answer
            ≡ ok pairs)
          × (get_elem? pairs 0 ≡ some (first, o))
    fetch_oracles_misaligned first keys second bs o os k a h = (
      zip (asked queue) (o ∷ os),
      fetch_oracles-zip (none ∷ map some (second ∷ bs)) (o ∷ os) a
          (unfold decode_found in decode_found-AllRead (second ∷ bs) (o ∷ os) h),
      rw k refl,
    )
