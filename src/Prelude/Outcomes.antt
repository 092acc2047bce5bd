-- ===== src/Prelude/Outcomes.antt =====
-- What a Rust call ends in: a value, an error that the caller sees, or a panic.
use mathlib.Core.Path.{◌≡◌, refl, ap}
use mathlib.Core.Option.{Option, none, some}
use mathlib.Core.Bool.{Bool, true, false}
use switchboard_sdk.Prelude.Tests.{if◌then◌else◌}

pub data Outcome {ℓ} (E : Type 0) (A : Type ℓ) : Type ℓ where
  ok : A → Outcome E A
  err : E → Outcome E A
  panic : Outcome E A

infixl 5 ◌>>=◌ ◌>>◌
-- `?`: what is not a value ends the caller too.
abbrev pub ◌>>=◌ {ℓ κ} :
    {E : Type 0} {X : Type ℓ} {Y : Type κ} → Outcome E X → (X → Outcome E Y) → Outcome E Y
panic >>= k = panic
err e >>= k = err e
ok x >>= k = k x

abbrev pub ◌>>◌ {ℓ} : {E : Type 0} {Y : Type ℓ} → Outcome E (Unit {0}) → Outcome E Y → Outcome E Y
o >> next = o >>= (λ x. next)

-- `o.ok_or(e)`
abbrev pub ok_or {ℓ} : {E : Type 0} {A : Type ℓ} → Option A → E → Outcome E A
ok_or none e = err e
ok_or (some a) e = ok a

-- `o.unwrap()`, and an index into a slice.
abbrev pub unwrap {ℓ} : {E : Type 0} {A : Type ℓ} → Option A → Outcome E A
unwrap none = panic
unwrap (some a) = ok a

abbrev pub unwrap_or {ℓ} : {A : Type ℓ} → Option A → A → A
unwrap_or none d = d
unwrap_or (some a) d = a

-- `map_err(|_| e)`
abbrev pub map_err {ℓ} : {E F : Type 0} {A : Type ℓ} → F → Outcome E A → Outcome F A
map_err e (ok a) = ok a
map_err e (err _) = err e
map_err e panic = panic

-- Inversion of a bind that ends in a value.
pub >>=-eq-ok {ℓ κ} :
    {E : Type 0} {X : Type ℓ} {Y : Type κ} (o : Outcome E X) (k : X → Outcome E Y) {y : Y}
    → (o >>= k) ≡ ok y
    → (x : X) × (o ≡ ok x) × (k x ≡ ok y)
>>=-eq-ok panic k run = cc
>>=-eq-ok (err e) k run = cc
>>=-eq-ok (ok x) k run = (x, refl, run)

-- Inversion of a guard whose other branch is an error.
pub guard-ok {ℓ} :
    {E : Type 0} {A : Type ℓ} (c : Bool) (m : Outcome E A) (e : E) {a : A}
    → (if c then m else err e) ≡ ok a
    → (c ≡ true) × (m ≡ ok a)
guard-ok true m e h = (refl, h)
guard-ok false m e h = cc

pub ok_or-eq-ok {ℓ} :
    {E : Type 0} {A : Type ℓ} (o : Option A) (e : E) {a : A} → ok_or o e ≡ ok a → o ≡ some a
ok_or-eq-ok none e h = cc
ok_or-eq-ok (some x) e h = ap (λ r. elim r [ ok y ↦ some y | err _ ↦ none | panic ↦ none ]) h

pub unwrap-eq-ok {ℓ} :
    {E : Type 0} {A : Type ℓ} (o : Option A) {a : A} → unwrap {E = E} o ≡ ok a → o ≡ some a
unwrap-eq-ok none h = cc
unwrap-eq-ok (some x) h = ap (λ r. elim r [ ok y ↦ some y | err _ ↦ none | panic ↦ none ]) h

pub ok-injective {ℓ} :
    {E : Type 0} {A : Type ℓ} {x y : A} → ◌≡◌ {A = Outcome E A} (ok x) (ok y) → x ≡ y
ok-injective {x = x} h = ap (λ r. elim r [ ok y ↦ y | err _ ↦ x | panic ↦ x ]) h

pub >>=_assoc {ℓ κ μ} :
    {E : Type 0} {X : Type ℓ} {Y : Type κ} {Z : Type μ} (o : Outcome E X) (f : X → Outcome E Y)
    (g : Y → Outcome E Z)
    → (o >>= λ x. f x >>= g) ≡ ((o >>= f) >>= g)
>>=_assoc (ok x) f g = refl
>>=_assoc (err e) f g = refl
>>=_assoc panic f g = refl

-- The call comes back, with a value or an error.
abbrev pub NoPanic {ℓ} : {E : Type 0} {A : Type ℓ} → Outcome E A → Type 0
NoPanic panic = ⊥
NoPanic (ok a) = Unit {0}
NoPanic (err e) = Unit {0}

pub >>=-NoPanic {ℓ κ} :
    {E : Type 0} {X : Type ℓ} {Y : Type κ} (o : Outcome E X) (k : X → Outcome E Y)
    → NoPanic o
    → ((x : X) → NoPanic (k x))
    → NoPanic (o >>= k)
>>=-NoPanic panic k n next = n
>>=-NoPanic (err e) k n next = tt
>>=-NoPanic (ok x) k n next = next x

pub ok_or-NoPanic {ℓ} : {E : Type 0} {A : Type ℓ} (o : Option A) (e : E) → NoPanic (ok_or o e)
ok_or-NoPanic none e = tt
ok_or-NoPanic (some a) e = tt

pub if-NoPanic {ℓ} :
    {E : Type 0} {A : Type ℓ} (c : Bool) (m n : Outcome E A)
    → NoPanic m
    → NoPanic n
    → NoPanic (if c then m else n)
if-NoPanic true m n h k = h
if-NoPanic false m n h k = k

-- Inversion of a bind that panics, behind a call that comes back.
pub >>=-eq-panic {ℓ κ} :
    {E : Type 0} {X : Type ℓ} {Y : Type κ} (o : Outcome E X) (k : X → Outcome E Y)
    → NoPanic o
    → (o >>= k) ≡ panic
    → (x : X) × (o ≡ ok x) × (k x ≡ panic)
>>=-eq-panic (ok x) k n run = (x, refl, run)
>>=-eq-panic (err e) k n run = cc
>>=-eq-panic panic k n run = absurd n

pub unwrap-eq-panic {ℓ} :
    {E : Type 0} {A : Type ℓ} (o : Option A) → unwrap {E = E} o ≡ panic → o ≡ none
unwrap-eq-panic none h = refl
unwrap-eq-panic (some x) h = cc
