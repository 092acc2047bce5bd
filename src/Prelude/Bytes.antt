-- ===== src/Prelude/Bytes.antt =====
-- Little-endian bytes of machine integers (`to_le_bytes`), and what reads them back.
use Prim.Native.Nat.{ℕ, zero, suc, ◌+◌, ◌-◌, ◌*◌, ◌/◌, ◌%◌, ◌^◌, ◌<◌}
use mathlib.Core.Path.{◌≡◌, refl, ap, sym, ◌∙◌}
use mathlib.Core.List.{List, [], ◌∷◌}
use native.Mathlib.Nat.{pow-suc}
use native.Mathlib.Omega.{arith}
use switchboard_sdk.Prelude.Lists.{length}
use switchboard_sdk.Prelude.Int.{ℤ, pos, negsuc, FitsSigned}

abbrev pub IsByte : ℕ → Type 0
IsByte b = b < 256

-- The `n` low bytes of `v`, lowest first.
unfoldable pub to_le_bytes : ℕ → ℕ → List ℕ
to_le_bytes zero v = []
to_le_bytes (suc n) v = (v % 256) ∷ to_le_bytes n (v / 256)

unfoldable pub from_le_bytes : List ℕ → ℕ
from_le_bytes [] = 0
from_le_bytes (b ∷ bs) = b + 256 * from_le_bytes bs

pub length-to_le_bytes : (n v : ℕ) → length (to_le_bytes n v) ≡ n
unfolding to_le_bytes
length-to_le_bytes zero v = refl
length-to_le_bytes (suc n) v = ap suc (length-to_le_bytes n (v / 256))

pub from-to_le_bytes : (n v : ℕ) → v < 256 ^ n → from_le_bytes (to_le_bytes n v) ≡ v
unfolding to_le_bytes from_le_bytes
from-to_le_bytes zero v h = omega arith
from-to_le_bytes (suc n) v h =
    let small : v < 256 ^ n * 256 = omega (arith, pow-suc 256 n) in
    omega (arith, from-to_le_bytes n (v / 256) (omega arith))

-- Two's complement of an integer that fits `w + 1` bits.
abbrev pub to_twos : ℕ → ℤ → ℕ
to_twos w (pos n) = n
to_twos w (negsuc n) = 2 ^ (w + 1) - 1 - n

-- `i128::to_le_bytes`
unfoldable pub i128_to_le_bytes : ℤ → List ℕ
i128_to_le_bytes v = to_le_bytes 16 (to_twos 127 v)

pub length-i128_to_le_bytes : (v : ℤ) → length (i128_to_le_bytes v) ≡ 16
unfolding i128_to_le_bytes
length-i128_to_le_bytes v = length-to_le_bytes 16 (to_twos 127 v)

pub to_le_bytes-injective :
    (n a b : ℕ) → a < 256 ^ n → b < 256 ^ n → to_le_bytes n a ≡ to_le_bytes n b → a ≡ b
to_le_bytes-injective n a b ha hb e =
    sym (from-to_le_bytes n a ha) ∙ ap from_le_bytes e ∙ from-to_le_bytes n b hb

twice_pow : (w : ℕ) → 2 ^ (w + 1) ≡ 2 ^ w * 2
twice_pow w = ap (λ n. 2 ^ n) (omega arith) ∙ pow-suc 2 w

to_twos-injective :
    (w : ℕ) (a b : ℤ) → FitsSigned w a → FitsSigned w b → to_twos w a ≡ to_twos w b → a ≡ b
to_twos-injective w (pos a) (pos b) ha hb e = ap pos e
to_twos-injective w (pos a) (negsuc b) ha hb e =
    let twice : 2 ^ (w + 1) ≡ 2 ^ w * 2 = twice_pow w in absurd (omega arith)
to_twos-injective w (negsuc a) (pos b) ha hb e =
    let twice : 2 ^ (w + 1) ≡ 2 ^ w * 2 = twice_pow w in absurd (omega arith)
to_twos-injective w (negsuc a) (negsuc b) ha hb e =
    let twice : 2 ^ (w + 1) ≡ 2 ^ w * 2 = twice_pow w in ap negsuc (omega arith)

to_twos-lt : (w : ℕ) (a : ℤ) → FitsSigned w a → to_twos w a < 2 ^ (w + 1)
to_twos-lt w (pos a) h = let twice : 2 ^ (w + 1) ≡ 2 ^ w * 2 = twice_pow w in omega arith
to_twos-lt w (negsuc a) h = let twice : 2 ^ (w + 1) ≡ 2 ^ w * 2 = twice_pow w in omega arith

-- Distinct i128 values have distinct bytes.
pub i128_to_le_bytes-injective :
    (a b : ℤ)
    → FitsSigned 127 a
    → FitsSigned 127 b
    → i128_to_le_bytes a ≡ i128_to_le_bytes b
    → a ≡ b
unfolding i128_to_le_bytes
i128_to_le_bytes-injective a b ha hb e =
    to_twos-injective 127 a b ha hb
      (to_le_bytes-injective 16 _ _ (to_twos-lt 127 a ha) (to_twos-lt 127 b hb) e)

-- `i64::to_le_bytes`
unfoldable pub i64_to_le_bytes : ℤ → List ℕ
i64_to_le_bytes v = to_le_bytes 8 (to_twos 63 v)

-- Distinct i64 values have distinct bytes.
pub i64_to_le_bytes-injective :
    (a b : ℤ) → FitsSigned 63 a → FitsSigned 63 b → i64_to_le_bytes a ≡ i64_to_le_bytes b → a ≡ b
unfolding i64_to_le_bytes
i64_to_le_bytes-injective a b ha hb e =
    to_twos-injective 63 a b ha hb
      (to_le_bytes-injective 8 _ _ (to_twos-lt 63 a ha) (to_twos-lt 63 b hb) e)

pub length-i64_to_le_bytes : (v : ℤ) → length (i64_to_le_bytes v) ≡ 8
unfolding i64_to_le_bytes
length-i64_to_le_bytes v = length-to_le_bytes 8 (to_twos 63 v)
