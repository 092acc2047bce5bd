-- ===== src/Queue/Members.antt =====
-- Which keys and enclaves a queue counts as its own.
use switchboard_sdk.Prelude.{
  ◌∙◌, ltb, ap, zero, suc, ℕ, ◌+◌, ◌<◌, ◌≤◌, ◌≡◌, ◌≢◌, ◌↔◌, refl, Bool, true, false, Option, none,
  some, List, [], ◌∷◌, take, any, All, get_elem?, length, arith, ok, inl, inr, Bool-cases,
  if◌then◌else◌,
}
use switchboard_sdk.Prelude.Words.{bytes_eq_iff, Bytes, bytes_eq, bytes_eq→eq, bytes_eq_refl}
use switchboard_sdk.Queue.{QueueAccountData, idx_of_oracle, position_from, has_mr_enclave, prefix}

-- The first place of a key, or none.
abbrev pub IsPosition : Bytes → List Bytes → Option ℕ → Type 0
IsPosition key keys none = All (λ x. x ≢ key) keys
IsPosition key keys (some i) = (get_elem? keys i ≡ some key) × All (λ x. x ≢ key) (take i keys)

abbrev shift : ℕ → Option ℕ → Option ℕ
shift i none = none
shift i (some j) = some (i + j)

abbrev position : Bytes → List Bytes → Option ℕ
position key [] = none
position key (x ∷ xs) = if bytes_eq x key then some 0 else shift 1 (position key xs)

shift-zero : (o : Option ℕ) → shift 0 o ≡ o
shift-zero none = refl
shift-zero (some j) = ap some (omega arith)

shift-shift : (i : ℕ) (o : Option ℕ) → shift (i + 1) o ≡ shift i (shift 1 o)
shift-shift i none = refl
shift-shift i (some j) = ap some (omega arith)

position_from-shift :
    (i : ℕ) (key : Bytes) (xs : List Bytes) → position_from i key xs ≡ shift i (position key xs)
unfolding position_from
position_from-shift i key [] = refl
position_from-shift i key (x ∷ xs) = elim (Bool-cases (bytes_eq x key)) [
  | inl hit ↦ rw hit (ap some (omega arith))
  | inr miss ↦ rw miss (position_from-shift (i + 1) key xs ∙ shift-shift i (position key xs))
]

differs : (x key : Bytes) → bytes_eq x key ≡ false → x ≢ key
differs x key miss e = let same = bytes_eq_refl key in cc (rw e at miss)

shift-IsPosition :
    (x key : Bytes) (xs : List Bytes) (o : Option ℕ)
    → x ≢ key
    → IsPosition key xs o
    → IsPosition key (x ∷ xs) (shift 1 o)
shift-IsPosition x key xs none d p = (d, p)
shift-IsPosition x key xs (some i) d p = let n : 1 + i ≡ suc i = omega arith in rw n (p.0, (d, p.1))

position-IsPosition : (key : Bytes) (xs : List Bytes) → IsPosition key xs (position key xs)
position-IsPosition key [] = tt
position-IsPosition key (x ∷ xs) = elim (Bool-cases (bytes_eq x key)) [
  | inl hit ↦ rw hit (ap some (bytes_eq→eq x key hit), tt)
  | inr miss ↦ rw miss (
      shift-IsPosition x key xs (position key xs) (differs x key miss) (position-IsPosition key xs))
]

-- With a length that the array has, `idx_of_oracle` answers the first place of the key among the first
-- `oracle_keys_len` keys, or none if it is not there, whatever stands behind them.
pub idx_of_oracle-IsPosition :
    (queue : QueueAccountData) (key : Bytes)
    → queue.oracle_keys_len ≤ length queue.all_oracle_keys
    → (o : Option ℕ) × (idx_of_oracle queue key ≡ ok o)
      × IsPosition key (take queue.oracle_keys_len queue.all_oracle_keys) o
unfolding idx_of_oracle prefix
idx_of_oracle-IsPosition queue key h =
    let keys : List Bytes = take queue.oracle_keys_len queue.all_oracle_keys in
    let long : ltb (length queue.all_oracle_keys) queue.oracle_keys_len ≡ false = ground arith in
    (
      position key keys,
      rw (long, position_from-shift 0 key keys) (ap ok (shift-zero (position key keys))),
      position-IsPosition key keys,
    )

any-get_elem? :
    (e : Bytes) (n : ℕ) (xs : List Bytes)
    → any (λ x. bytes_eq x e) (take n xs) ≡ true
    → (i : ℕ) × (i < n) × (get_elem? xs i ≡ some e)
any-get_elem? e zero xs h = cc
any-get_elem? e (suc n) [] h = cc
any-get_elem? e (suc n) (x ∷ xs) h = elim (Bool-cases (bytes_eq x e)) [
  | inl hit ↦ (0, omega arith, ap some (bytes_eq→eq x e hit))
  | inr miss ↦ let (i, l, g) = any-get_elem? e n xs (rw miss at h) in (suc i, omega arith, g)
]

get_elem?-any :
    (e : Bytes) (n : ℕ) (xs : List Bytes) (i : ℕ)
    → i < n
    → get_elem? xs i ≡ some e
    → any (λ x. bytes_eq x e) (take n xs) ≡ true
get_elem?-any e zero xs i l g = absurd (omega arith)
get_elem?-any e (suc n) [] i l g = cc
get_elem?-any e (suc n) (x ∷ xs) zero l g =
    let same : x ≡ e = ground arith in let hit = (bytes_eq_iff x e).1 same in rw hit refl
get_elem?-any e (suc n) (x ∷ xs) (suc i) l g =
    ground (arith, get_elem?-any e n xs i (omega arith) g)

-- With a length that the array has, `has_mr_enclave` answers whether one of the first `mr_enclaves_len`
-- measurements is the given one.
pub has_mr_enclave_iff :
    (queue : QueueAccountData) (mr_enclave : Bytes)
    → queue.mr_enclaves_len ≤ length queue.mr_enclaves
    → ((has_mr_enclave queue mr_enclave ≡ ok true) ↔ (
        (i : ℕ) × (i < queue.mr_enclaves_len) × (get_elem? queue.mr_enclaves i ≡ some mr_enclave)))
      × ((b : Bool) × (has_mr_enclave queue mr_enclave ≡ ok b))
unfolding has_mr_enclave prefix
has_mr_enclave_iff queue mr_enclave h =
    let long : ltb (length queue.mr_enclaves) queue.mr_enclaves_len ≡ false = ground arith in
    let enclaves : List Bytes = queue.mr_enclaves in
    let n : ℕ = queue.mr_enclaves_len in
    rw long (
      (
        λ e. any-get_elem? mr_enclave n enclaves (ground arith),
        λ t. ap ok (get_elem?-any mr_enclave n enclaves t.0 t.1 t.2),
      ),
      (any (λ x. bytes_eq x mr_enclave) (take n enclaves), refl),
    )
