-- ===== src/Crossbar/Urls.antt =====
-- What the address of a request for updates says.
use switchboard_sdk.Prelude.{
  ◌∙◌, drop, map, ℕ, Option, none, some, append_injective, sym, ap, true, Bool, Bool-cases, inl,
  inr, if◌then◌else◌, ◌≡◌, refl, ap₂, false, [], ◌∷◌, ◌++◌, All, ◌==◌, arith, length, List,
}
use switchboard_sdk.Prelude.Words.{Bytes}
use switchboard_sdk.Answers.{CrossbarClient}
use mathlib.Core.List.{append-nil}
use switchboard_sdk.Crossbar.{
  mainnet_beta, testnet, devnet, development, Web, updates_url, updates_path, signatures_query,
  ClusterType, join, cluster_type_to_string,
}

-- The byte does not occur.
abbrev pub Free : ℕ → Bytes → Type 0
Free c = All (λ b. (b == c) ≡ false)

-- Texts that end at the first such byte.
split_unique :
    (c : ℕ) (xs ys r s : Bytes)
    → Free c xs
    → Free c ys
    → xs ++ c ∷ r ≡ ys ++ c ∷ s
    → (xs ≡ ys) × (r ≡ s)
split_unique c [] [] r s f g e = (refl, ground (arith, e))
split_unique c [] (y ∷ ys) r s f g e =
    let same : y ≡ c = ground (arith, e) in absurd (ground (arith, g.0))
split_unique c (x ∷ xs) [] r s f g e =
    let same : x ≡ c = ground (arith, e) in absurd (ground (arith, f.0))
split_unique c (x ∷ xs) (y ∷ ys) r s f g e =
    let same : x ≡ y = ground (arith, e) in
    let rest : xs ++ c ∷ r ≡ ys ++ c ∷ s = ground (arith, e) in
    let (p, q) = split_unique c xs ys r s f.1 g.1 rest in (ap₂ (◌∷◌) same p, q)

-- A text without the byte is not one with it.
Free-no_byte : (c : ℕ) (xs ys r : Bytes) → Free c xs → xs ≡ ys ++ c ∷ r → ⊥
Free-no_byte c [] [] r f e = cc e
Free-no_byte c [] (y ∷ ys) r f e = cc e
Free-no_byte c (x ∷ xs) [] r f e =
    let same : x ≡ c = ground (arith, e) in absurd (ground (arith, f.0))
Free-no_byte c (x ∷ xs) (y ∷ ys) r f e = Free-no_byte c xs ys r f.1 (ground (arith, e))

Free-append : (c : ℕ) (xs ys : Bytes) → Free c xs → Free c ys → Free c (xs ++ ys)
Free-append c [] ys f g = g
Free-append c (x ∷ xs) ys f g = (f.0, Free-append c xs ys f.1 g)

Free-join : (xs : List Bytes) → All (Free 63) xs → Free 63 (join xs)
unfolding join
Free-join [] f = tt
Free-join (x ∷ []) f = f.0
Free-join (x ∷ y ∷ xs) f = Free-append 63 x (44 ∷ join (y ∷ xs)) f.0 (refl, Free-join (y ∷ xs) f.1)

join-injective :
    (x : Bytes) (xs : List Bytes) (y : Bytes) (ys : List Bytes)
    → All (Free 44) (x ∷ xs)
    → All (Free 44) (y ∷ ys)
    → join (x ∷ xs) ≡ join (y ∷ ys)
    → ◌≡◌ {A = List Bytes} (x ∷ xs) (y ∷ ys)
unfolding join
join-injective x [] y [] f g e = ap (λ (t : Bytes). t ∷ []) e
join-injective x [] y (y' ∷ ys) f g e = absurd (Free-no_byte 44 x y (join (y' ∷ ys)) f.0 e)
join-injective x (x' ∷ xs) y [] f g e = absurd (Free-no_byte 44 y x (join (x' ∷ xs)) g.0 (sym e))
join-injective x (x' ∷ xs) y (y' ∷ ys) f g e =
    let (p, q) = split_unique 44 x y (join (x' ∷ xs)) (join (y' ∷ ys)) f.0 g.0 e in
    ap₂ (◌∷◌) p (join-injective x' xs y' ys f.1 g.1 q)

-- The names of the clusters have no slash, and different lengths.
free : ℕ → Bytes → Bool
free c [] = true
free c (b ∷ bs) = let rest = free c bs in if b == c then false else rest

free-Free : (c : ℕ) (bs : Bytes) → free c bs ≡ true → Free c bs
unfolding free
free-Free c [] h = tt
free-Free c (b ∷ bs) h = elim (Bool-cases (b == c)) [
  | inl hit ↦ cc (rw hit at h)
  | inr other ↦ (other, free-Free c bs (rw other at h))
]

cluster-Free : (network : ClusterType) → Free 47 (cluster_type_to_string network)
unfolding cluster_type_to_string free
cluster-Free network =
    free-Free 47 (cluster_type_to_string network)
      (elim network as (λ n. free 47 (cluster_type_to_string n) ≡ true) [
        | testnet ↦ refl
        | _ ↦ refl
      ])

cluster-injective :
    (m n : ClusterType)
    → length (cluster_type_to_string m) ≡ length (cluster_type_to_string n)
    → m ≡ n
unfolding cluster_type_to_string
cluster-injective mainnet_beta n e =
    elim n as (λ n. 12 ≡ length (cluster_type_to_string n) → mainnet_beta ≡ n) [
      | mainnet_beta ↦ λ _. refl
      | _ ↦ λ h. absurd (omega arith)
    ]
      e
cluster-injective testnet n e =
    elim n as (λ n. 7 ≡ length (cluster_type_to_string n) → testnet ≡ n) [
      | testnet ↦ λ _. refl
      | _ ↦ λ h. absurd (omega arith)
    ]
      e
cluster-injective devnet n e =
    elim n as (λ n. 6 ≡ length (cluster_type_to_string n) → devnet ≡ n) [
      | devnet ↦ λ _. refl
      | _ ↦ λ h. absurd (omega arith)
    ]
      e
cluster-injective development n e =
    elim n as (λ n. 11 ≡ length (cluster_type_to_string n) → development ≡ n) [
      | development ↦ λ _. refl
      | _ ↦ λ h. absurd (omega arith)
    ]
      e

-- How keys and numbers are printed: each text is of one key and has neither a comma nor a question mark,
-- and each number has its own digits.
pub record Prints {Json Decimal : Type 0} (web : Web Json Decimal) : Type 0 where
  pub no_comma : (k : Bytes) → Free 44 (web.key_text k)
  pub no_query : (k : Bytes) → Free 63 (web.key_text k)
  pub keys : (j k : Bytes) → web.key_text j ≡ web.key_text k → j ≡ k
  pub numbers : (m n : ℕ) → web.number_text m ≡ web.number_text n → m ≡ n

module _ {Json Decimal : Type 0} (web : Web Json Decimal) (prints : Prints web) where
  open web use {key_text, number_text}

  All-key_text :
      (P : Bytes → Type 0)
      → ((k : Bytes) → P (key_text k))
      → (ks : List Bytes) → All P (map key_text ks)
  All-key_text P f [] = tt
  All-key_text P f (k ∷ ks) = (f k, All-key_text P f ks)

  texts-injective : (js ks : List Bytes) → map key_text js ≡ map key_text ks → js ≡ ks
  texts-injective [] [] e = refl
  texts-injective [] (k ∷ ks) e = cc e
  texts-injective (j ∷ js) [] e = cc e
  texts-injective (j ∷ js) (k ∷ ks) e =
      let same : key_text j ≡ key_text k = ground (arith, e) in
      let rest : map key_text js ≡ map key_text ks = ground (arith, e) in
      ap₂ (◌∷◌) (prints.keys j k same) (texts-injective js ks rest)

  abbrev query_of : Option ℕ → Bytes
  query_of none = []
  query_of (some n) = signatures_query ++ number_text n

  query_part :
      (xs ys : Bytes) (m n : Option ℕ)
      → Free 63 xs
      → Free 63 ys
      → xs ++ query_of m ≡ ys ++ query_of n
      → (xs ≡ ys) × (m ≡ n)
  query_part xs ys none none f g e = (sym (append-nil xs) ∙ e ∙ append-nil ys, refl)
  query_part xs ys none (some n) f g e =
      absurd (Free-no_byte 63 xs ys _ f (sym (append-nil xs) ∙ e))
  query_part xs ys (some m) none f g e =
      absurd (Free-no_byte 63 ys xs _ g (sym (append-nil ys) ∙ sym e))
  query_part xs ys (some m) (some n) f g e =
      let (p, q) = split_unique 63 xs ys _ _ f g e in
      let (_, digits) =
        append_injective (drop 1 signatures_query) (drop 1 signatures_query) (number_text m)
          (number_text n) refl q in
      (p, ap some (prints.numbers m n digits))

  -- Two requests of one client for updates, of one feed or more each, that go to the same address ask for
  -- the same network, the same feeds in order, and the same number of signatures.
  pub updates_url-injective :
      (crossbar : CrossbarClient) (network network' : ClusterType) (feed feed' : Bytes)
      (feeds feeds' : List Bytes) (num num' : Option ℕ)
      → updates_url web crossbar network (feed ∷ feeds) num
        ≡ updates_url web crossbar network' (feed' ∷ feeds') num'
      → (network ≡ network') × (◌≡◌ {A = List Bytes} (feed ∷ feeds) (feed' ∷ feeds')) × (num ≡ num')
  unfolding updates_url
  updates_url-injective crossbar network network' feed feed' feeds feeds' num num' e =
      let (_, e₁) = append_injective crossbar.crossbar_url crossbar.crossbar_url _ _ refl e in
      let (_, e₂) = append_injective updates_path updates_path _ _ refl e₁ in
      let (cluster, e₃) =
        split_unique 47 (cluster_type_to_string network) (cluster_type_to_string network') _ _
          (cluster-Free network) (cluster-Free network') e₂ in
      let (texts, number) =
        query_part (join (map key_text (feed ∷ feeds))) (join (map key_text (feed' ∷ feeds'))) num
          num'
          (Free-join (map key_text (feed ∷ feeds))
            (All-key_text (Free 63) prints.no_query (feed ∷ feeds)))
          (Free-join (map key_text (feed' ∷ feeds'))
            (All-key_text (Free 63) prints.no_query (feed' ∷ feeds')))
          e₃ in
      (
        cluster-injective network network' (ap length cluster),
        texts-injective (feed ∷ feeds) (feed' ∷ feeds') (
            join-injective (key_text feed) (map key_text feeds) (key_text feed')
              (map key_text feeds') (All-key_text (Free 44) prints.no_comma (feed ∷ feeds))
              (All-key_text (Free 44) prints.no_comma (feed' ∷ feeds')) texts),
        number,
      )
