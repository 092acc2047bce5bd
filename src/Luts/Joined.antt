-- ===== src/Luts/Joined.antt =====
-- The three fetches of lookup tables that an update joins (pull_feed.rs, `join!`): each has looked at
-- the cache before any of them has written to it, and all three run to their ends.
use switchboard_sdk.Prelude.{
  >>=_assoc, ℕ, ◌==◌, ◌≡◌, refl, Option, some, List, [], ◌∷◌, ◌++◌, if◌then◌else◌, length, map, zip,
  Outcome, ok, err, panic, ◌>>=◌, Bool-cases, inl, inr,
}
use switchboard_sdk.Prelude.Words.{Bytes}
use switchboard_sdk.Transaction.{AddressLookupTableAccount}
use switchboard_sdk.Luts.{
  LoadError, LutCache, cache_all, split_cached, load_lookup_tables, fetch_and_cache_luts, cache_get,
}
use switchboard_sdk.Luts.Cache.{cache_all-keeps, split_cached-missing}

-- What a fetch returns, and what it inserts.
abbrev pub Fetched : Type 0
Fetched = Outcome LoadError (List AddressLookupTableAccount × LutCache)

-- The fetches by their owners.
pub data Owner : Type 0 where
  of_oracles of_feeds of_queue : Owner

-- A fetch that ends in an error has inserted nothing.
abbrev pub inserts_of : Fetched → LutCache
inserts_of (ok p) = p.1
inserts_of (err e) = []
inserts_of panic = []

abbrev pub by_owner : Fetched → Fetched → Fetched → Owner → Fetched
by_owner oracles feeds queue of_oracles = oracles
by_owner oracles feeds queue of_feeds = feeds
by_owner oracles feeds queue of_queue = queue

-- The cache after the fetches have ended in the order of the list.
unfoldable pub insert_all : LutCache → (Owner → Fetched) → List Owner → LutCache
insert_all cache fetched [] = cache
insert_all cache fetched (o ∷ order) =
    insert_all (cache_all cache (inserts_of (fetched o))) fetched order

-- The tables of all three, or the first failure of them.
unfoldable pub joined_luts : (Owner → Fetched) → Outcome LoadError (List AddressLookupTableAccount)
joined_luts fetched = do
  oracle_luts ← fetched of_oracles
  pull_feed_luts ← fetched of_feeds
  queue_lut ← fetched of_queue
  ok (oracle_luts.0 ++ (pull_feed_luts.0 ++ queue_lut.0))

-- The inserts of what was loaded, or of a failure.
loaded_keeps :
    (now : LutCache) (luts : List AddressLookupTableAccount) (keys : List Bytes)
    (loaded : Outcome LoadError (List AddressLookupTableAccount)) (k : Bytes)
    (lut : AddressLookupTableAccount)
    → cache_get now k ≡ some lut
    → ((new : List AddressLookupTableAccount)
        → cache_get (cache_all now (zip keys new)) k ≡ some lut)
    → cache_get
        (cache_all now
          (inserts_of (loaded >>= λ new. ok (luts ++ map (λ p. p.1) (zip keys new), zip keys new))))
        k
      ≡ some lut
unfolding cache_all
loaded_keeps now luts keys (ok new) k lut n keeps = keeps new
loaded_keeps now luts keys (err e) k lut n keeps = n
loaded_keeps now luts keys panic k lut n keeps = n

module _ (get_multiple_accounts : List Bytes → Option (List (Option Bytes)))
    (lut_slot_of : Bytes → Option ℕ) (derive : Bytes → ℕ → Bytes)
    (deserialize : Bytes → Option (List Bytes)) where
  -- A fetch that finds this cache, with its inserts apart.
  unfoldable pub fetched_luts : LutCache → List Bytes → Fetched
  fetched_luts cache keys =
      let (luts, keys_to_fetch) = split_cached cache keys in
      if length keys_to_fetch == 0 then ok (luts, []) else (do
        fetched_luts ←
            load_lookup_tables get_multiple_accounts lut_slot_of derive deserialize keys_to_fetch
        let fetched = zip keys_to_fetch fetched_luts
        ok (luts ++ map (λ p. p.1) fetched, fetched))

  -- A fetch on its own is `fetched_luts`, followed by its inserts.
  pub fetch_and_cache_luts-fetched_luts :
      (cache : LutCache) (keys : List Bytes)
      → fetch_and_cache_luts get_multiple_accounts lut_slot_of derive deserialize cache keys
        ≡ (fetched_luts cache keys >>= λ p. ok (p.0, cache_all cache p.1))
  unfolding fetch_and_cache_luts fetched_luts cache_all
  fetch_and_cache_luts-fetched_luts cache keys =
      elim (Bool-cases (length (split_cached cache keys).1 == 0)) [
        | inl nothing ↦ rw nothing refl
        | inr fetching ↦ rw fetching (
            >>=_assoc
              (load_lookup_tables get_multiple_accounts lut_slot_of derive deserialize
                (split_cached cache keys).1)
              _ _)
      ]

  -- The keys of the inserts are keys that the cache has no table for.
  pub fetched_luts-keeps :
      (cache now : LutCache) (keys : List Bytes) (k : Bytes) (lut : AddressLookupTableAccount)
      → cache_get cache k ≡ some lut
      → cache_get now k ≡ some lut
      → cache_get (cache_all now (inserts_of (fetched_luts cache keys))) k ≡ some lut
  unfolding fetched_luts cache_all
  fetched_luts-keeps cache now keys k lut c n =
      let missing = split_cached cache keys in
      elim (Bool-cases (length missing.1 == 0)) [
        | inl nothing ↦ rw nothing n
        | inr fetching ↦ rw fetching (
            loaded_keeps now missing.0 missing.1
              (load_lookup_tables get_multiple_accounts lut_slot_of derive deserialize missing.1) k
              lut n
              (λ luts.
                cache_all-keeps cache now missing.1 luts k lut (split_cached-missing cache keys) c
                  n))
      ]
