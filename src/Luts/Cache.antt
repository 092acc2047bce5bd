-- ===== src/Luts/Cache.antt =====
-- What the cache answers, and what a fetch leaves in it.
use switchboard_sdk.Prelude.{
  panic, ap, ◌==◌, ℕ, ◌≡◌, refl, Option, some, none, List, [], ◌∷◌, All, zip, length, Bool-cases,
  inl, inr, Outcome, ok, >>=-eq-ok, err,
}
use switchboard_sdk.Prelude.Words.{Bytes, bytes_eq, bytes_eq→eq}
use switchboard_sdk.Transaction.{AddressLookupTableAccount}
use switchboard_sdk.Luts.{
  LoadError, LutCache, cache_get, cache_insert, cache_all, split_cached, fetch_and_cache_luts,
  load_lookup_tables,
}

-- The tables that the cache has for these keys, in order.
abbrev pub AllCached : LutCache → List Bytes → List AddressLookupTableAccount → Type 0
AllCached cache [] [] = Unit {0}
AllCached cache [] (lut ∷ luts) = ⊥
AllCached cache (key ∷ keys) [] = ⊥
AllCached cache (key ∷ keys) (lut ∷ luts) =
    (cache_get cache key ≡ some lut) × AllCached cache keys luts

split_cached-AllCached :
    (cache : LutCache) (keys : List Bytes) (luts : List AddressLookupTableAccount)
    → AllCached cache keys luts
    → split_cached cache keys ≡ (luts, [])
unfolding split_cached
split_cached-AllCached cache [] [] h = refl
split_cached-AllCached cache [] (lut ∷ luts) h = absurd h
split_cached-AllCached cache (key ∷ keys) [] h = absurd h
split_cached-AllCached cache (key ∷ keys) (lut ∷ luts) h =
    rw (split_cached, h.0, split_cached-AllCached cache keys luts h.1) refl

missing_cons :
    (cache : LutCache) (key : Bytes) (o : Option AddressLookupTableAccount)
    (rest : List AddressLookupTableAccount × List Bytes)
    → cache_get cache key ≡ o
    → All (λ k. cache_get cache k ≡ none) rest.1
    → All
        (λ k. cache_get cache k ≡ none)
        (elim o as (λ o. List AddressLookupTableAccount × List Bytes) [
          | some lut ↦ (lut ∷ rest.0, rest.1)
          | none ↦ (rest.0, key ∷ rest.1)
        ]).1
missing_cons cache key none rest e h = (e, h)
missing_cons cache key (some lut) rest e h = h

-- What is to be fetched is not in the cache.
pub split_cached-missing :
    (cache : LutCache) (keys : List Bytes)
    → All (λ k. cache_get cache k ≡ none) (split_cached cache keys).1
unfolding split_cached
split_cached-missing cache [] = tt
split_cached-missing cache (key ∷ keys) =
    missing_cons cache key (cache_get cache key) (split_cached cache keys) refl
      (split_cached-missing cache keys)

-- Inserting leaves what the cache has of a key that is not among the new.
pub cache_all-keeps :
    (old cache : LutCache) (keys : List Bytes) (luts : List AddressLookupTableAccount) (k : Bytes)
    (lut : AddressLookupTableAccount)
    → All (λ x. cache_get old x ≡ none) keys
    → cache_get old k ≡ some lut
    → cache_get cache k ≡ some lut
    → cache_get (cache_all cache (zip keys luts)) k ≡ some lut
unfolding cache_all cache_insert
cache_all-keeps old cache [] luts k lut m o c = c
cache_all-keeps old cache (x ∷ keys) [] k lut m o c = c
cache_all-keeps old cache (x ∷ keys) (l ∷ luts) k lut m o c =
    cache_all-keeps old ((x, l) ∷ cache) keys luts k lut m.1 o (elim (Bool-cases (bytes_eq x k)) [
      | inl same ↦ let e = bytes_eq→eq x k same in cc (rw e at m.0)
      | inr other ↦ unfold cache_get in rw other c
    ])

-- The cache of an answer, or another.
abbrev second_of :
    LutCache → Outcome LoadError (List AddressLookupTableAccount × LutCache) → LutCache
second_of other (ok p) = p.1
second_of other (err e) = other
second_of other panic = other

module _ (get_multiple_accounts : List Bytes → Option (List (Option Bytes)))
    (lut_slot_of : Bytes → Option ℕ) (derive : Bytes → ℕ → Bytes)
    (deserialize : Bytes → Option (List Bytes)) (cache : LutCache) (oracle_keys : List Bytes) where
  -- When the cache has a table for each key, `fetch_and_cache_luts` returns these in order, whatever
  -- the node would answer, and leaves the cache.
  pub fetch_and_cache_luts-AllCached :
      (luts : List AddressLookupTableAccount)
      → AllCached cache oracle_keys luts
      → fetch_and_cache_luts get_multiple_accounts lut_slot_of derive deserialize cache oracle_keys
        ≡ ok (luts, cache)
  unfolding fetch_and_cache_luts
  fetch_and_cache_luts-AllCached luts h = rw (split_cached-AllCached cache oracle_keys luts h) refl

  -- A table that the cache has for a key stays its table, through every fetch that returns.
  pub fetch_and_cache_luts-keeps :
      (luts : List AddressLookupTableAccount) (next : LutCache) (k : Bytes)
      (lut : AddressLookupTableAccount)
      → fetch_and_cache_luts get_multiple_accounts lut_slot_of derive deserialize cache oracle_keys
        ≡ ok (luts, next)
      → cache_get cache k ≡ some lut
      → cache_get next k ≡ some lut
  unfolding fetch_and_cache_luts
  fetch_and_cache_luts-keeps luts next k lut run c =
      let missing = split_cached cache oracle_keys in
      elim (Bool-cases (length missing.1 == 0)) [
        | inl nothing ↦ let q : cache ≡ next = ap (second_of cache) (rw nothing at run) in rw q at c
        | inr fetching ↦
            let (fetched, e, r) =
              >>=-eq-ok
                (load_lookup_tables get_multiple_accounts lut_slot_of derive deserialize missing.1)
                _ (rw fetching at run) in
            let kept =
              cache_all-keeps cache cache missing.1 fetched k lut
                (split_cached-missing cache oracle_keys) c c in
            let q : cache_all cache (zip missing.1 fetched) ≡ next = ap (second_of cache) r in
            rw q at kept
      ]
