-- ===== src/Prelude/Traverse.antt =====
-- Sequences of fallible steps.
use switchboard_sdk.Prelude.Outcomes.{Outcome, ok, ◌>>=◌, >>=-eq-ok, ok-injective}
use switchboard_sdk.Prelude.Lists.{length, get_elem?, All}
use Prim.Native.Nat.{ℕ, zero, suc}
use mathlib.Core.Path.{◌≡◌, sym, ap, ◌∙◌, subst}
use mathlib.Core.Option.{some}
use mathlib.Core.List.{List, [], ◌∷◌}

-- `iter().map(f).collect()` where `f` may fail.
module _ {E A B : Type 0} where
  unfoldable pub traverse : (A → Outcome E B) → List A → Outcome E (List B)
  traverse f [] = ok []
  traverse f (x ∷ xs) = f x >>= λ y. traverse f xs >>= λ ys. ok (y ∷ ys)

  pub traverse-cons :
      (f : A → Outcome E B) (x : A) (xs : List A) {out : List B}
      → traverse f (x ∷ xs) ≡ ok out
      → (y : B) × (ys : List B) × (f x ≡ ok y) × (traverse f xs ≡ ok ys) × (y ∷ ys ≡ out)
  unfolding traverse
  traverse-cons f x xs h =
      let (y, first, rest) = >>=-eq-ok (f x) _ h in
      let (ys, others, all) = >>=-eq-ok (traverse f xs) _ rest in
      (y, ys, first, others, ok-injective all)

  pub length-traverse :
      (f : A → Outcome E B) (xs : List A) (ys : List B)
      → traverse f xs ≡ ok ys
      → length ys ≡ length xs
  unfolding traverse
  length-traverse f [] ys h = ap length (sym (ok-injective h))
  length-traverse f (x ∷ xs) out h =
      let (y, ys, first, others, all) = traverse-cons f x xs h in
      sym (ap length all) ∙ ap suc (length-traverse f xs ys others)

  -- Each element of the result is that of the element at its place.
  pub get_elem?-traverse :
      (f : A → Outcome E B) (xs : List A) (ys : List B) (i : ℕ) (x : A)
      → traverse f xs ≡ ok ys
      → get_elem? xs i ≡ some x
      → (y : B) × (f x ≡ ok y) × (get_elem? ys i ≡ some y)
  get_elem?-traverse f [] ys i x h e = cc
  get_elem?-traverse f (a ∷ xs) out zero x h e =
      let (y, ys, first, others, all) = traverse-cons f a xs h in
      let same : a ≡ x = cc in (y, ap f (sym same) ∙ first, ap (λ l. get_elem? l 0) (sym all))
  get_elem?-traverse f (a ∷ xs) out (suc i) x h e =
      let (y, ys, first, others, all) = traverse-cons f a xs h in
      let (z, q, g) = get_elem?-traverse f xs ys i x others e in
      (z, q, ap (λ l. get_elem? l (suc i)) (sym all) ∙ g)

  -- What holds of every result of `f` holds of all elements.
  pub traverse-All :
      (P : B → Type 0) (f : A → Outcome E B)
      → ((x : A) (y : B) → f x ≡ ok y → P y)
      → (xs : List A) (ys : List B) → traverse f xs ≡ ok ys
      → All P ys
  unfolding traverse
  traverse-All P f p [] ys h = subst (All P) (ok-injective h) tt
  traverse-All P f p (x ∷ xs) out h =
      let (y, ys, first, others, all) = traverse-cons f x xs h in
      subst (All P) all (p x y first, traverse-All P f p xs ys others)
