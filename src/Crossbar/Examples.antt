-- ===== src/Crossbar/Examples.antt =====
-- A web that prints keys with letters, and the theorem about addresses on it.
use switchboard_sdk.Prelude.{
  ◌≤◌, ◌≡◌, refl, ap₂, ℕ, ◌+◌, false, Option, none, some, List, [], ◌∷◌, map, arith,
}
use switchboard_sdk.Prelude.Words.{Bytes}
use switchboard_sdk.Answers.{CrossbarClient}
use switchboard_sdk.Crossbar.{Web, mainnet_beta, ClusterType}
use switchboard_sdk.Crossbar.Urls.{Prints, Free, updates_url-injective}

abbrev letters : Bytes → Bytes
letters = map (λ b. b + 64)

abbrev small_web : Web ℕ ℕ
small_web = record {
  get = λ url. none;
  post = λ url payload. none;
  key_text = letters;
  number_text = λ n. n ∷ [];
  base58_decode = λ b. some b;
  base58_encode = λ b. b;
  store_from_text = λ b. none;
  updates_from_text = λ b. none;
  solana_from_text = λ b. none;
  feeds_from_text = λ b. none;
}

letters-Free : (c : ℕ) → c ≤ 63 → (k : Bytes) → Free c (letters k)
letters-Free c small [] = tt
letters-Free c small (b ∷ bs) = (ground arith, letters-Free c small bs)

letters-injective : (j k : Bytes) → letters j ≡ letters k → j ≡ k
letters-injective [] [] e = refl
letters-injective [] (k ∷ ks) e = cc e
letters-injective (j ∷ js) [] e = cc e
letters-injective (j ∷ js) (k ∷ ks) e =
    let same : j + 64 ≡ k + 64 = ground (arith, e) in
    ap₂ (◌∷◌) (omega arith) (letters-injective js ks (ground (arith, e)))

small_web-Prints : Prints small_web
small_web-Prints = record {
  no_comma = letters-Free 44 (omega arith);
  no_query = letters-Free 63 (omega arith);
  keys = letters-injective;
  numbers = λ m n e. ground (arith, e);
}

abbrev small_crossbar : CrossbarClient
small_crossbar = record { crossbar_url = 104 ∷ []; verbose = false }

updates_url-injective_example :
    ◌≡◌ {A = ClusterType} mainnet_beta mainnet_beta
    × ◌≡◌ {A = List Bytes} ((1 ∷ []) ∷ (2 ∷ []) ∷ []) ((1 ∷ []) ∷ (2 ∷ []) ∷ [])
    × ◌≡◌ {A = Option ℕ} (some 3) (some 3)
updates_url-injective_example =
    updates_url-injective small_web small_web-Prints small_crossbar mainnet_beta mainnet_beta
      (1 ∷ []) (1 ∷ []) ((2 ∷ []) ∷ []) ((2 ∷ []) ∷ []) (some 3) (some 3) refl
