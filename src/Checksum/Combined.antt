-- ===== src/Checksum/Combined.antt =====
-- The combined checksum of several feeds: what it says about each feed and value.
use switchboard_sdk.Prelude.{
  ℕ, ◌+◌, ◌*◌, ◌<◌, ◌^◌, ◌≡◌, refl, ap, ap₂, sym, ◌∙◌, ◌⊎◌, inl, inr, arith, List, [], ◌∷◌, map,
  ◌++◌, All, length, length-append, append_injective,
}
use switchboard_sdk.Prelude.Int.{ℤ, FitsSigned}
use switchboard_sdk.Prelude.Bytes.{
  to_le_bytes, length-to_le_bytes, to_le_bytes-injective, i128_to_le_bytes, length-i128_to_le_bytes,
}
use switchboard_sdk.Prelude.Words.{Bytes}
use switchboard_sdk.Feed.{PullFeedAccountData}
use switchboard_sdk.Checksum.Binding.{Collision, Collision-or_eq, u64_part, i128_part}
use switchboard_sdk.Checksum.{
  feed_part, feed_parts, value_parts, CombinedMessage, combined_preimage,
  generate_combined_checksum,
}

pub record IsFeed (feed : PullFeedAccountData) : Type 0 where
  pub feed_hash : length feed.feed_hash ≡ 32
  pub max_variance : feed.max_variance < 2 ^ 64
  pub min_responses : feed.min_responses < 2 ^ 32

-- What the combined message says of a feed.
pub record FeedKey : Type 0 where
  pub feed_hash : Bytes
  pub max_variance : ℕ
  pub min_responses : ℕ

abbrev pub key_of : PullFeedAccountData → FeedKey
key_of feed = record {
  feed_hash = feed.feed_hash;
  max_variance = feed.max_variance;
  min_responses = feed.min_responses;
}

length-feed_part : (feed : PullFeedAccountData) → IsFeed feed → length (feed_part feed) ≡ 44
unfolding feed_part
length-feed_part feed v = omega (
  arith,
  v,
  length-append feed.feed_hash
      (to_le_bytes 8 feed.max_variance ++ to_le_bytes 4 feed.min_responses),
  length-append (to_le_bytes 8 feed.max_variance) (to_le_bytes 4 feed.min_responses),
  length-to_le_bytes 8 feed.max_variance,
  length-to_le_bytes 4 feed.min_responses,
)

feed_part-injective :
    (f g : PullFeedAccountData)
    → IsFeed f
    → IsFeed g
    → feed_part f ≡ feed_part g
    → key_of f ≡ key_of g
unfolding feed_part
feed_part-injective f g v w e =
    let (feed_hash, e₁) =
      append_injective f.feed_hash g.feed_hash _ _ (v.feed_hash ∙ sym w.feed_hash) e in
    let (max_variance, e₂) = u64_part v.max_variance w.max_variance e₁ in
    let min_responses =
      to_le_bytes-injective 4 f.min_responses g.min_responses (omega arith) (omega arith) e₂ in
    λ i. record {
      feed_hash = feed_hash i;
      max_variance = max_variance i;
      min_responses = min_responses i;
    }

length-feed_parts :
    (fs : List PullFeedAccountData) → All IsFeed fs → length (feed_parts fs) ≡ 44 * length fs
unfolding feed_parts
length-feed_parts [] v = refl
length-feed_parts (f ∷ fs) v = omega (
  arith,
  length-append (feed_part f) (feed_parts fs),
  length-feed_part f v.0,
  length-feed_parts fs v.1,
)

feed_parts-injective :
    (fs gs : List PullFeedAccountData)
    → All IsFeed fs
    → All IsFeed gs
    → length fs ≡ length gs
    → feed_parts fs ≡ feed_parts gs
    → map key_of fs ≡ map key_of gs
unfolding feed_parts
feed_parts-injective [] [] v w n e = refl
feed_parts-injective [] (g ∷ gs) v w n e = absurd (omega arith)
feed_parts-injective (f ∷ fs) [] v w n e = absurd (omega arith)
feed_parts-injective (f ∷ fs) (g ∷ gs) v w n e =
    let (p, q) =
      append_injective (feed_part f) (feed_part g) _ _
        (length-feed_part f v.0 ∙ sym (length-feed_part g w.0)) e in
    ap₂ (◌∷◌) (feed_part-injective f g v.0 w.0 p)
      (feed_parts-injective fs gs v.1 w.1 (omega arith) q)

length-value_parts : (vs : List ℤ) → length (value_parts vs) ≡ 16 * length vs
unfolding value_parts
length-value_parts [] = refl
length-value_parts (v ∷ vs) = omega (
  arith,
  length-append (i128_to_le_bytes v) (value_parts vs),
  length-i128_to_le_bytes v,
  length-value_parts vs,
)

value_parts-injective :
    (us vs : List ℤ)
    → All (FitsSigned 127) us
    → All (FitsSigned 127) vs
    → length us ≡ length vs
    → value_parts us ≡ value_parts vs
    → us ≡ vs
unfolding value_parts
value_parts-injective [] [] h k n e = refl
value_parts-injective [] (v ∷ vs) h k n e = absurd (omega arith)
value_parts-injective (u ∷ us) [] h k n e = absurd (omega arith)
value_parts-injective (u ∷ us) (v ∷ vs) h k n e =
    let (p, q) = i128_part h.0 k.0 e in
    ap₂ (◌∷◌) p (value_parts-injective us vs h.1 k.1 (omega arith) q)

-- The sizes that the types give, and a value for each feed.
pub record IsCombined (m : CombinedMessage) : Type 0 where
  pub queue_key : length m.queue_key ≡ 32
  pub feeds : All IsFeed m.feeds
  pub signed_slothash : length m.signed_slothash ≡ 32
  pub submission_values : All (FitsSigned 127) m.submission_values
  pub paired : length m.submission_values ≡ length m.feeds

length-combined_preimage :
    (m : CombinedMessage) → IsCombined m → length (combined_preimage m) ≡ 64 + 60 * length m.feeds
unfolding combined_preimage
length-combined_preimage m v = omega (
  arith,
  v.queue_key,
  v.signed_slothash,
  v.paired,
  length-append m.queue_key
      (feed_parts m.feeds ++ (m.signed_slothash ++ value_parts m.submission_values)),
  length-append (feed_parts m.feeds) (m.signed_slothash ++ value_parts m.submission_values),
  length-append m.signed_slothash (value_parts m.submission_values),
  length-feed_parts m.feeds v.feeds,
  length-value_parts m.submission_values,
)

-- What two combined messages agree in.
abbrev pub SameCombined : CombinedMessage → CombinedMessage → Type 0
SameCombined m n =
    (m.queue_key ≡ n.queue_key)
    × (map key_of m.feeds ≡ map key_of n.feeds)
    × (m.signed_slothash ≡ n.signed_slothash)
    × (m.submission_values ≡ n.submission_values)

combined_preimage-injective :
    (m n : CombinedMessage)
    → IsCombined m
    → IsCombined n
    → combined_preimage m ≡ combined_preimage n
    → SameCombined m n
combined_preimage-injective m n v w e =
    let count : length m.feeds ≡ length n.feeds =
      omega (arith, ap length e, length-combined_preimage m v, length-combined_preimage n w) in
    parts count (unfold combined_preimage in e)
  where
    parts :
        length m.feeds ≡ length n.feeds
        → m.queue_key
            ++ (feed_parts m.feeds ++ (m.signed_slothash ++ value_parts m.submission_values))
          ≡ n.queue_key
            ++ (feed_parts n.feeds ++ (n.signed_slothash ++ value_parts n.submission_values))
        → SameCombined m n
    parts count e =
        let (queue_key, e₁) =
          append_injective m.queue_key n.queue_key _ _ (v.queue_key ∙ sym w.queue_key) e in
        let (feeds, e₂) =
          append_injective (feed_parts m.feeds) (feed_parts n.feeds) _ _
            (omega
              (arith, count, length-feed_parts m.feeds v.feeds, length-feed_parts n.feeds w.feeds))
            e₁ in
        let (slothash, values) =
          append_injective m.signed_slothash n.signed_slothash _ _
            (v.signed_slothash ∙ sym w.signed_slothash) e₂ in
        (
          queue_key,
          feed_parts-injective m.feeds n.feeds v.feeds w.feeds count feeds,
          slothash,
          value_parts-injective m.submission_values n.submission_values v.submission_values
              w.submission_values (omega (arith, v.paired, w.paired, count)) values,
        )

-- Combined checksums of messages with a value for each feed, however many, are equal only if the
-- queue, the feeds' hashes, variances and response counts, the slot hash and the values are, in
-- order; or the hash has a collision.
pub generate_combined_checksum-binds :
    (sha256 : Bytes → Bytes) (m n : CombinedMessage)
    → IsCombined m
    → IsCombined n
    → generate_combined_checksum sha256 m ≡ generate_combined_checksum sha256 n
    → SameCombined m n ⊎ Collision sha256
unfolding generate_combined_checksum
generate_combined_checksum-binds sha256 m n v w e =
    elim (Collision-or_eq sha256 (combined_preimage m) (combined_preimage n) e) [
      | inl same ↦ inl (combined_preimage-injective m n v w same)
      | inr found ↦ inr found
    ]
