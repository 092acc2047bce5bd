-- ===== src/Prelude/Exec.antt =====
-- Async code over a shared context: what was written before an error or a panic stays written.
use switchboard_sdk.Prelude.Outcomes.{Outcome, ok, err, panic, ok-injective}
use mathlib.Core.Path.{◌≡◌, refl, ap}

abbrev pub Exec : Type 0 → Type 0 → Type 0 → Type 0
Exec E S A = S → Outcome E A × S

module _ {E S A : Type 0} where
  unfoldable pub pure : A → Exec E S A
  pure a s = (ok a, s)

  -- A step that leaves the context alone.
  unfoldable pub lift : Outcome E A → Exec E S A
  lift r s = (r, s)

  pub lift-returns : (r : Outcome E A) (s : S) {b : A} {s' : S} → lift r s ≡ (ok b, s') → r ≡ ok b
  unfolding lift
  lift-returns r s h = ap (λ (p : Outcome E A × S). p.0) h

  pub pure-returns : (a : A) (s : S) {b : A} {s' : S} → pure a s ≡ (ok b, s') → a ≡ b
  unfolding pure
  pure-returns a s h = ok-injective (ap (λ (p : Outcome E A × S). p.0) h)

  -- What a block returned, with the context that it left.
  pub with_context : (m : Exec E S A) (s : S) {a : A} → (m s).0 ≡ ok a → m s ≡ (ok a, (m s).1)
  with_context m s h = ap (λ (o : Outcome E A). (o, (m s).1)) h

module _ {E S A B : Type 0} where
  abbrev pub continue : Outcome E A → (A → Exec E S B) → Exec E S B
  continue (ok a) f s = f a s
  continue (err e) f s = (err e, s)
  continue panic f s = (panic, s)

  infixl 5 ◌>>=◌
  unfoldable pub ◌>>=◌ : Exec E S A → (A → Exec E S B) → Exec E S B
  ◌>>=◌ m f s = let (r, s') = m s in continue r f s'

  continue-returns :
      (r : Outcome E A) (f : A → Exec E S B) (s : S) {b : B} {s' : S}
      → continue r f s ≡ (ok b, s')
      → (a : A) × (r ≡ ok a) × (f a s ≡ (ok b, s'))
  continue-returns (ok a) f s h = (a, refl, h)
  continue-returns (err e) f s h = cc
  continue-returns panic f s h = cc

  -- Inversion of a block that returns, at a step that leaves the context alone.
  pub lift->>=-returns :
      (r : Outcome E A) (f : A → Exec E S B) (s : S) {b : B} {s' : S}
      → (lift r >>= f) s ≡ (ok b, s')
      → (a : A) × (r ≡ ok a) × (f a s ≡ (ok b, s'))
  unfolding ◌>>=◌ lift
  lift->>=-returns r f s h = continue-returns r f s h

  -- Inversion of a block that returns, at any step.
  pub >>=-returns :
      (m : Exec E S A) (f : A → Exec E S B) (s : S) {b : B} {s' : S}
      → (m >>= f) s ≡ (ok b, s')
      → (a : A) × ((m s).0 ≡ ok a) × (f a (m s).1 ≡ (ok b, s'))
  unfolding ◌>>=◌
  >>=-returns m f s h = continue-returns (m s).0 f (m s).1 h

  -- A block whose first step returns goes on with what it returned.
  pub lift->>=-continues :
      (r : Outcome E A) (f : A → Exec E S B) (s : S) {a : A} → r ≡ ok a → (lift r >>= f) s ≡ f a s
  unfolding ◌>>=◌ lift
  lift->>=-continues r f s h = ap (λ o. continue o f s) h

  pub >>=-continues :
      (m : Exec E S A) (f : A → Exec E S B) (s : S) {a : A}
      → (m s).0 ≡ ok a
      → (m >>= f) s ≡ f a (m s).1
  unfolding ◌>>=◌
  >>=-continues m f s h = ap (λ o. continue o f (m s).1) h

-- `m` keeps `P`, whether it returns, errs or panics.
pub record Keeps {E S A : Type 0} (P : S → Type 0) (m : Exec E S A) : Type 0 where
  pub at : (s : S) → P s → P (m s).1

module _ {E S A : Type 0} {P : S → Type 0} where
  pub Keeps-pure : (a : A) → Keeps {E = E} P (pure a)
  unfolding pure
  Keeps-pure a = record { at = λ s h. h }

  pub Keeps-lift : (r : Outcome E A) → Keeps P (lift r)
  unfolding lift
  Keeps-lift r = record { at = λ s h. h }

module _ {E S A B : Type 0} {P : S → Type 0} where
  continue-Keeps :
      (r : Outcome E A) (f : A → Exec E S B)
      → ((a : A) → Keeps P (f a))
      → (s : S) → P s
      → P (continue r f s).1
  continue-Keeps (ok a) f kf s h = (kf a).at s h
  continue-Keeps (err e) f kf s h = h
  continue-Keeps panic f kf s h = h

  pub Keeps-bind :
      (m : Exec E S A) (f : A → Exec E S B)
      → Keeps P m
      → ((a : A) → Keeps P (f a))
      → Keeps P (m >>= f)
  unfolding ◌>>=◌
  Keeps-bind m f km kf = record { at = λ s h. continue-Keeps (m s).0 f kf (m s).1 (km.at s h) }
