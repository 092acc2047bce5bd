-- ===== src/Submit/Encoding.antt =====
-- What the data of a submission is made of.
use switchboard_sdk.Prelude.{ap, ◌^◌, ◌<◌, ◌≡◌, refl, sym, ◌∙◌, ◌++◌, All, length, append_injective}
use switchboard_sdk.Prelude.Int.{FitsSigned}
use switchboard_sdk.Prelude.Words.{Bytes}
use switchboard_sdk.Checksum.Binding.{u64_part}
use switchboard_sdk.Submit.{
  PullFeedSubmitResponseParams, PullFeedSubmitResponseConsensusParams, submit_data, consensus_data,
}
use switchboard_sdk.Submit.Many.{
  PullFeedSubmitResponseManyParams, many_data, SubmitParams, response, consensus, many,
  SubmitDiscriminators, params_data,
}
use switchboard_sdk.Submit.Fields.{
  IsSubmission, IsMultiSubmission, u32_part, all_submissions-injective, all_values-injective,
  all_multi_submissions-injective,
}

pub record IsParams (p : PullFeedSubmitResponseParams) : Type 0 where
  pub slot : p.slot < 2 ^ 64
  pub count : length p.submissions < 2 ^ 32
  pub submissions : All IsSubmission p.submissions

pub record IsConsensusParams (p : PullFeedSubmitResponseConsensusParams) : Type 0 where
  pub slot : p.slot < 2 ^ 64
  pub count : length p.values < 2 ^ 32
  pub values : All (FitsSigned 127) p.values

pub record IsManyParams (p : PullFeedSubmitResponseManyParams) : Type 0 where
  pub slot : p.slot < 2 ^ 64
  pub count : length p.submissions < 2 ^ 32
  pub submissions : All IsMultiSubmission p.submissions

-- The discriminators have eight bytes, and no two of them are equal.
pub record AreDiscriminators (d : SubmitDiscriminators) : Type 0 where
  pub response_length : length d.response_discriminator ≡ 8
  pub consensus_length : length d.consensus_discriminator ≡ 8
  pub many_length : length d.many_discriminator ≡ 8
  pub response_consensus : ¬ (d.response_discriminator ≡ d.consensus_discriminator)
  pub response_many : ¬ (d.response_discriminator ≡ d.many_discriminator)
  pub consensus_many : ¬ (d.consensus_discriminator ≡ d.many_discriminator)

abbrev pub AreParams : SubmitParams → Type 0
AreParams (response p) = IsParams p
AreParams (consensus p) = IsConsensusParams p
AreParams (many p) = IsManyParams p

same_head : (a b xs ys : Bytes) → length a ≡ 8 → length b ≡ 8 → a ++ xs ≡ b ++ ys → a ≡ b
same_head a b xs ys m n e = (append_injective a b xs ys (m ∙ sym n) e).0

same_response :
    (d : Bytes) (p q : PullFeedSubmitResponseParams)
    → IsParams p
    → IsParams q
    → submit_data d p ≡ submit_data d q
    → p ≡ q
unfolding submit_data
same_response d p q v w e =
    let (_, e₁) = append_injective d d _ _ refl e in
    let (slot, e₂) = u64_part v.slot w.slot e₁ in
    let (count, e₃) = u32_part v.count w.count e₂ in
    let submissions =
      all_submissions-injective p.submissions q.submissions v.submissions w.submissions count e₃ in
    λ i. record { slot = slot i; submissions = submissions i }

same_consensus :
    (d : Bytes) (p q : PullFeedSubmitResponseConsensusParams)
    → IsConsensusParams p
    → IsConsensusParams q
    → consensus_data d p ≡ consensus_data d q
    → p ≡ q
unfolding consensus_data
same_consensus d p q v w e =
    let (_, e₁) = append_injective d d _ _ refl e in
    let (slot, e₂) = u64_part v.slot w.slot e₁ in
    let (count, e₃) = u32_part v.count w.count e₂ in
    let values = all_values-injective p.values q.values v.values w.values count e₃ in
    λ i. record { slot = slot i; values = values i }

same_many :
    (d : Bytes) (p q : PullFeedSubmitResponseManyParams)
    → IsManyParams p
    → IsManyParams q
    → many_data d p ≡ many_data d q
    → p ≡ q
unfolding many_data
same_many d p q v w e =
    let (_, e₁) = append_injective d d _ _ refl e in
    let (slot, e₂) = u64_part v.slot w.slot e₁ in
    let (count, e₃) = u32_part v.count w.count e₂ in
    let submissions =
      all_multi_submissions-injective p.submissions q.submissions v.submissions w.submissions count
        e₃ in
    λ i. record { slot = slot i; submissions = submissions i }

-- Two submissions with the same instruction data are the same: of one of the three kinds (values, by
-- consensus, several oracles at once), and equal in their slot and in every value, signature, recovery id
-- and offset, in order. The parameters have the sizes that the Rust types give, and the discriminators of
-- the three instructions have eight bytes and are different.
pub submit_data-injective :
    (d : SubmitDiscriminators) (p q : SubmitParams)
    → AreDiscriminators d
    → AreParams p
    → AreParams q
    → params_data d p ≡ params_data d q
    → p ≡ q
unfolding params_data submit_data consensus_data many_data
submit_data-injective d (response p) (response q) c v w e =
    ap response (same_response d.response_discriminator p q v w e)
submit_data-injective d (consensus p) (consensus q) c v w e =
    ap consensus (same_consensus d.consensus_discriminator p q v w e)
submit_data-injective d (many p) (many q) c v w e =
    ap many (same_many d.many_discriminator p q v w e)
submit_data-injective d (response p) (consensus q) c v w e =
    absurd (c.response_consensus (same_head _ _ _ _ c.response_length c.consensus_length e))
submit_data-injective d (response p) (many q) c v w e =
    absurd (c.response_many (same_head _ _ _ _ c.response_length c.many_length e))
submit_data-injective d (consensus p) (response q) c v w e =
    absurd (c.response_consensus (same_head _ _ _ _ c.response_length c.consensus_length (sym e)))
submit_data-injective d (consensus p) (many q) c v w e =
    absurd (c.consensus_many (same_head _ _ _ _ c.consensus_length c.many_length e))
submit_data-injective d (many p) (response q) c v w e =
    absurd (c.response_many (same_head _ _ _ _ c.response_length c.many_length (sym e)))
submit_data-injective d (many p) (consensus q) c v w e =
    absurd (c.consensus_many (same_head _ _ _ _ c.consensus_length c.many_length (sym e)))
