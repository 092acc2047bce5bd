-- ===== src/Feed/Median.antt =====
-- `lower_bound_median` of on_demand/accounts/pull_feed.rs, and where its result ranks.
use switchboard_sdk.Prelude.{
  ℕ, zero, suc, ◌+◌, ◌/◌, ◌≤◌, ◌<◌, ◌≡◌, refl, Bool, Option, none, some, List, [], ◌∷◌, arith,
  if◌then◌else◌, ◌==◌, length, get_elem?, get_elem?-lt, All,
}
use switchboard_sdk.Prelude.Int.{ℤ, ◌≤ℤ◌, leb_ℤ, ltb_ℤ}

-- `numbers.sort()`: all sorts of integers give the same list, so insertion sort stands for it.
unfoldable pub insert_sorted : ℤ → List ℤ → List ℤ
insert_sorted x [] = x ∷ []
insert_sorted x (y ∷ ys) = if leb_ℤ x y then x ∷ y ∷ ys else y ∷ insert_sorted x ys

unfoldable pub sort : List ℤ → List ℤ
unfolding insert_sorted
sort [] = []
sort (x ∷ xs) = insert_sorted x (sort xs)

unfoldable pub lower_bound_median : List ℤ → Option ℤ
unfolding sort
lower_bound_median numbers =
    let sorted = sort numbers in
    let len = length sorted in if len == 0 then none else get_elem? sorted (len / 2)

-- How many of the numbers pass a test.
abbrev pub count_if : (ℤ → Bool) → List ℤ → ℕ
count_if p [] = 0
count_if p (x ∷ xs) = (if p x then 1 else 0) + count_if p xs

count_if-insert_sorted :
    (p : ℤ → Bool) (x : ℤ) (xs : List ℤ)
    → count_if p (insert_sorted x xs) ≡ (if p x then 1 else 0) + count_if p xs
unfolding insert_sorted
count_if-insert_sorted p x [] = refl
count_if-insert_sorted p x (y ∷ ys) = ground (arith, count_if-insert_sorted p x ys)

pub count_if-sort : (p : ℤ → Bool) (xs : List ℤ) → count_if p (sort xs) ≡ count_if p xs
unfolding sort
count_if-sort p [] = refl
count_if-sort p (x ∷ xs) = omega (arith, count_if-insert_sorted p x (sort xs), count_if-sort p xs)

length-insert_sorted : (x : ℤ) (xs : List ℤ) → length (insert_sorted x xs) ≡ suc (length xs)
unfolding insert_sorted
length-insert_sorted x [] = refl
length-insert_sorted x (y ∷ ys) = ground (arith, length-insert_sorted x ys)

pub length-sort : (xs : List ℤ) → length (sort xs) ≡ length xs
unfolding sort
length-sort [] = refl
length-sort (x ∷ xs) = omega (arith, length-insert_sorted x (sort xs), length-sort xs)

abbrev IsSorted : List ℤ → Type 0
IsSorted [] = Unit {0}
IsSorted (x ∷ xs) = All (λ y. x ≤ℤ y) xs × IsSorted xs

All-insert_sorted :
    (a x : ℤ) (xs : List ℤ) → a ≤ℤ x → All (λ y. a ≤ℤ y) xs → All (λ y. a ≤ℤ y) (insert_sorted x xs)
unfolding insert_sorted
All-insert_sorted a x [] h hs = (h, tt)
All-insert_sorted a x (y ∷ ys) h hs = ground (arith, All-insert_sorted a x ys h hs.1)

All-le_trans : (a b : ℤ) (xs : List ℤ) → a ≤ℤ b → All (λ y. b ≤ℤ y) xs → All (λ y. a ≤ℤ y) xs
All-le_trans a b [] h hs = tt
All-le_trans a b (x ∷ xs) h hs = (omega arith, All-le_trans a b xs h hs.1)

insert_sorted-IsSorted : (x : ℤ) (xs : List ℤ) → IsSorted xs → IsSorted (insert_sorted x xs)
unfolding insert_sorted
insert_sorted-IsSorted x [] h = (tt, tt)
insert_sorted-IsSorted x (y ∷ ys) h =
    ground (arith, insert_sorted-IsSorted x ys h.1, All-insert_sorted y x ys, All-le_trans x y ys)

sort-IsSorted : (xs : List ℤ) → IsSorted (sort xs)
unfolding sort
sort-IsSorted [] = tt
sort-IsSorted (x ∷ xs) = insert_sorted-IsSorted x (sort xs) (sort-IsSorted xs)

none_below : (m : ℤ) (xs : List ℤ) → All (λ y. m ≤ℤ y) xs → count_if (λ y. ltb_ℤ y m) xs ≡ 0
none_below m [] h = refl
none_below m (x ∷ xs) h = ground (arith, none_below m xs h.1)

get_elem?-All :
    (P : ℤ → Type 0) (xs : List ℤ) (i : ℕ) (m : ℤ) → All P xs → get_elem? xs i ≡ some m → P m
get_elem?-All P [] i m h e = cc
get_elem?-All P (x ∷ xs) zero m h e = let e' : x ≡ m = cc in rw e' at h.0
get_elem?-All P (x ∷ xs) (suc i) m h e = get_elem?-All P xs i m h.1 e

below_index :
    (xs : List ℤ) (i : ℕ) (m : ℤ)
    → IsSorted xs
    → get_elem? xs i ≡ some m
    → count_if (λ y. ltb_ℤ y m) xs ≤ i
below_index [] i m h e = omega arith
below_index (x ∷ xs) zero m h e =
    let e' : x ≡ m = cc in
    let h' : All (λ y. m ≤ℤ y) xs = rw e' at h.0 in ground (arith, e', none_below m xs h')
below_index (x ∷ xs) (suc i) m h e = ground (arith, below_index xs i m h.1 e)

at_index :
    (xs : List ℤ) (i : ℕ) (m : ℤ)
    → IsSorted xs
    → get_elem? xs i ≡ some m
    → i < count_if (λ y. leb_ℤ y m) xs
at_index [] i m h e = cc
at_index (x ∷ xs) zero m h e = let e' : x ≡ m = cc in rw (← e') (ground arith)
at_index (x ∷ xs) (suc i) m h e =
    ground (arith, at_index xs i m h.1 e, get_elem?-All (λ y. x ≤ℤ y) xs i m h.0 e)

-- Some number is returned exactly when there is one.
pub lower_bound_median-eq-none : (xs : List ℤ) → lower_bound_median xs ≡ none → xs ≡ []
unfolding lower_bound_median
lower_bound_median-eq-none [] h = refl
lower_bound_median-eq-none (x ∷ xs) h =
    let (m, e) =
      get_elem?-lt (sort (x ∷ xs)) (length (sort (x ∷ xs)) / 2)
        (omega (arith, length-sort (x ∷ xs))) in
    ground (arith, e, length-sort (x ∷ xs))

-- The value that `lower_bound_median` returns has at most half of the numbers (rounded down)
-- strictly below it, and more than half (rounded down) at or below it.
pub lower_bound_median-rank :
    (xs : List ℤ) (m : ℤ)
    → lower_bound_median xs ≡ some m
    → (count_if (λ y. ltb_ℤ y m) xs ≤ length xs / 2)
      × (length xs / 2 < count_if (λ y. leb_ℤ y m) xs)
unfolding lower_bound_median
lower_bound_median-rank xs m h =
    let l = length-sort xs in
    let e : get_elem? (sort xs) (length (sort xs) / 2) ≡ some m = ground arith in
    (
      omega (
        arith,
        l,
        count_if-sort (λ y. ltb_ℤ y m) xs,
        below_index (sort xs) (length (sort xs) / 2) m (sort-IsSorted xs) e,
      ),
      omega (
        arith,
        l,
        count_if-sort (λ y. leb_ℤ y m) xs,
        at_index (sort xs) (length (sort xs) / 2) m (sort-IsSorted xs) e,
      ),
    )
