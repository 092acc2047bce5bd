-- ===== src/Submit/Examples.antt =====
-- Two responses of oracles, and the theorems about submissions on them.
use switchboard_sdk.Submit.{
  i128_max, writable, readonly, submit_data, num_sig_lower_bound, gather, Chain, OracleResponse,
  SolanaSubmitSignaturesParams, Submission,
}
use switchboard_sdk.Prelude.Int.{pos, negsuc, ℤ}
use switchboard_sdk.Prelude.{
  arith, ℕ, ◌∷◌, List, true, false, ◌+◌, get_elem?, refl, length, ◌*◌, none, replicate, ◌≡◌, All,
  [], Option, some, ◌≤◌,
}
use switchboard_sdk.Feed.{PullFeedAccountData}
use switchboard_sdk.Feed.Examples.{example_feed}
use switchboard_sdk.Submit.Encoding.{submit_data-injective, IsManyParams, AreDiscriminators}
use switchboard_sdk.Submit.Many.{PullFeedSubmitResponseManyParams, SubmitDiscriminators, many}
use switchboard_sdk.Submit.Accounts.{get_solana_submit_signatures_ix-Places, ix, IsSubmissionOf}
use switchboard_sdk.Submit.Quorum.{gather-Suffices, last_queue}

abbrev pub integers : Chain ℤ
integers = record {
  program = 1 ∷ [];
  state_key = 2 ∷ [];
  slot_hashes = 3 ∷ [];
  system = 4 ∷ [];
  tokens = 5 ∷ [];
  native_mint = 6 ∷ [];
  vault_of = λ queue. 7 ∷ queue;
  stats_key = λ oracle. 8 ∷ oracle;
  submit_discriminator = replicate 8 9;
  mantissa_at_18 = λ v. v;
}

abbrev response_of : ℕ → Option ℤ → OracleResponse ℤ
response_of k value = record {
  value = value;
  failure = [];
  oracle = k ∷ [];
  signature = replicate 64 k;
  recovery_id = 1;
}

abbrev two_responses : List (OracleResponse ℤ)
two_responses = response_of 20 (some (pos 700)) ∷ response_of 21 none ∷ []

abbrev example_params : SolanaSubmitSignaturesParams
example_params = record { queue = 30 ∷ []; feed = 31 ∷ []; payer = 32 ∷ [] }

get_solana_submit_signatures_ix-Places_example :
    (submissions : List Submission) × ((ix integers 77 two_responses example_params).input
      ≡ submit_data (replicate 8 9) (record { slot = 77; submissions = submissions }))
    × (length submissions ≡ length two_responses)
    × (submission : Submission) × (get_elem? submissions 1 ≡ some submission)
    × IsSubmissionOf integers (response_of 21 none) submission
    × (get_elem? (ix integers 77 two_responses example_params).accounts (9 + 1)
        ≡ some (readonly (21 ∷ []) false))
    × (get_elem? (ix integers 77 two_responses example_params).accounts (9 + (2 + 1))
        ≡ some (writable (8 ∷ 21 ∷ []) false))
    × (get_elem? (ix integers 77 two_responses example_params).accounts 4
        ≡ some (writable (32 ∷ []) true))
get_solana_submit_signatures_ix-Places_example =
    get_solana_submit_signatures_ix-Places integers 77 two_responses example_params 1
      (response_of 21 none) refl

-- Two oracles' values for two feeds.
abbrev example_many : PullFeedSubmitResponseManyParams
example_many = record {
  slot = 77;
  submissions =
      record { values = pos 700 ∷ negsuc 4 ∷ []; signature = replicate 64 1; recovery_id = 0 }
      ∷ record { values = pos 701 ∷ i128_max ∷ []; signature = replicate 64 2; recovery_id = 1 }
      ∷ [];
}

example_many-IsManyParams : IsManyParams example_many
example_many-IsManyParams = record {
  slot = omega arith;
  count = omega arith;
  submissions = (
    record { count = omega arith; values = (omega arith, (omega arith, tt)); signature = refl },
    (
      record { count = omega arith; values = (omega arith, (omega arith, tt)); signature = refl },
      tt,
    ),
  );
}

abbrev example_discriminators : SubmitDiscriminators
example_discriminators = record {
  response_discriminator = replicate 8 9;
  consensus_discriminator = replicate 8 10;
  many_discriminator = replicate 8 11;
}

example-AreDiscriminators : AreDiscriminators example_discriminators
example-AreDiscriminators = record {
  response_length = refl;
  consensus_length = refl;
  many_length = refl;
  response_consensus = λ e. absurd (ground (arith, e));
  response_many = λ e. absurd (ground (arith, e));
  consensus_many = λ e. absurd (ground (arith, e));
}

submit_data-injective_example : many example_many ≡ many example_many
submit_data-injective_example =
    submit_data-injective example_discriminators (many example_many) (many example_many)
      example-AreDiscriminators example_many-IsManyParams example_many-IsManyParams refl

-- The same feed, with more samples and another queue.
abbrev other_feed : PullFeedAccountData
other_feed = record example_feed { min_sample_size = 10; queue = 5 ∷ [] }

gather-Suffices_example :
    (1 ≤ (gather 1 [] (other_feed ∷ example_feed ∷ [])).0)
    × All
        (λ feed. 4 * feed.min_sample_size ≤ 3 * (gather 1 [] (other_feed ∷ example_feed ∷ [])).0)
        (other_feed ∷ example_feed ∷ [])
    × ((gather 1 [] (other_feed ∷ example_feed ∷ [])).1
        ≡ last_queue [] (other_feed ∷ example_feed ∷ []))
gather-Suffices_example = gather-Suffices 1 [] (other_feed ∷ example_feed ∷ [])

gather_run : gather 1 [] (other_feed ∷ example_feed ∷ []) ≡ (14, [])
unfolding gather num_sig_lower_bound
gather_run = refl
