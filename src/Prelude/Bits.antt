-- ===== src/Prelude/Bits.antt =====
-- The bitwise or, cut at a multiple of a power of two.
use Prim.Native.Nat.{ℕ, zero, suc, ◌/◌, ◌≤◌, max, bit_or, digits, bit_or-bitwise}
use mathlib.Core.Path.{◌≡◌, refl, ap, ◌∙◌}
use native.Mathlib.Omega.{arith}

abbrev or_digits : ℕ → ℕ → ℕ → ℕ
or_digits n a b = digits (λ b. b) max n a b

-- Enough turns give the same digits.
or_digits_fuel : (n m a b : ℕ) → a ≤ n → a ≤ m → or_digits n a b ≡ or_digits m a b
or_digits_fuel zero zero a b p q = refl
or_digits_fuel zero (suc m) zero b p q = refl
or_digits_fuel zero (suc m) (suc a) b p q = absurd (omega arith)
or_digits_fuel (suc n) zero zero b p q = refl
or_digits_fuel (suc n) zero (suc a) b p q = absurd (omega arith)
or_digits_fuel (suc n) (suc m) zero b p q = refl
or_digits_fuel (suc n) (suc m) (suc a) b p q =
    omega (arith, or_digits_fuel n m (suc a / 2) (b / 2) (omega arith) (omega arith))

zero-bit_or : (b : ℕ) → bit_or 0 b ≡ b
zero-bit_or b = bit_or-bitwise 0 b

bit_or_half : (a b : ℕ) → bit_or a b / 2 ≡ bit_or (a / 2) (b / 2)
bit_or_half zero b = omega (arith, zero-bit_or b, zero-bit_or (b / 2))
bit_or_half (suc a) b = omega (
  arith,
  bit_or-bitwise (suc a) b,
  bit_or-bitwise (suc a / 2) (b / 2),
  or_digits_fuel a (suc a / 2) (suc a / 2) (b / 2) (omega arith) (omega arith),
)

halved : ℕ → ℕ → ℕ
halved zero a = a
halved (suc k) a = halved k (a / 2)

bit_or-halved : (k a b : ℕ) → halved k (bit_or a b) ≡ bit_or (halved k a) (halved k b)
unfolding halved
bit_or-halved zero a b = refl
bit_or-halved (suc k) a b = ap (halved k) (bit_or_half a b) ∙ bit_or-halved k (a / 2) (b / 2)

halved-page : (a : ℕ) → halved 12 a ≡ a / 4096
unfolding halved
halved-page a = omega arith

-- The page of an or is the or of the pages.
pub bit_or-page : (a b : ℕ) → bit_or a b / 4096 ≡ bit_or (a / 4096) (b / 4096)
bit_or-page a b =
    omega (arith, halved-page (bit_or a b))
    ∙ bit_or-halved 12 a b
    ∙ ap (λ x. bit_or x (halved 12 b)) (halved-page a)
    ∙ ap (bit_or (a / 4096)) (halved-page b)
