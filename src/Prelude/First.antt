-- ===== src/Prelude/First.antt =====
-- The first index at which a test holds, as the search loops of the code find it.
use Prim.Native.Nat.{ℕ, zero, suc, ◌<◌}
use mathlib.Core.Path.{◌≡◌, refl, ap, subst, fun_ext}
use mathlib.Core.Logic.{◌⊎◌, inl, inr}
use mathlib.Core.Bool.{Bool, true, false}
use mathlib.Core.Option.{Option, none, some}
use native.Mathlib.Omega.{arith}
use mobile_phone_os.Prelude.Tests.{if◌then◌else◌, Bool-cases, eq-cases, Option-cases}

-- The first `i < n` with `p i`.
unfoldable pub first_below : (ℕ → Bool) → ℕ → Option ℕ
first_below p zero = none
first_below p (suc n) = elim (first_below p n) [
  | some i ↦ some i
  | none ↦ if p n then some n else none
]

-- What a search finds.
abbrev pub IsFirst : (ℕ → Bool) → ℕ → Option ℕ → Type 0
IsFirst p n none = (j : ℕ) → j < n → p j ≡ false
IsFirst p n (some i) = (i < n) × (p i ≡ true) × ((j : ℕ) → j < i → p j ≡ false)

IsFirst-suc :
    (p : ℕ → Bool) (n : ℕ) (o : Option ℕ)
    → IsFirst p n o
    → IsFirst p (suc n) (elim o [ some i ↦ some i | none ↦ if p n then some n else none ])
IsFirst-suc p n (some i) h = (omega (arith, h.0), h.1, h.2)
IsFirst-suc p n none h = elim (Bool-cases (p n)) [
  | inl e ↦ rw e (omega arith, e, h)
  | inr e ↦ rw e (λ j lt. elim (eq-cases j n) [ inl q ↦ rw q e | inr ne ↦ h j (omega arith) ])
]

pub first_below-IsFirst : (p : ℕ → Bool) (n : ℕ) → IsFirst p n (first_below p n)
unfolding first_below
first_below-IsFirst p zero = λ j lt. absurd (omega arith)
first_below-IsFirst p (suc n) = IsFirst-suc p n (first_below p n) (first_below-IsFirst p n)

pub IsFirst-unique :
    (p : ℕ → Bool) (n i : ℕ) (o : Option ℕ) → IsFirst p n (some i) → IsFirst p n o → o ≡ some i
IsFirst-unique p n i none h k = absurd (cc (h.1, k i h.0))
IsFirst-unique p n i (some j) h k = elim (eq-cases i j) [
  | inl e ↦ rw e refl
  | inr ne ↦
      let order : (i < j) ⊎ (j < i) = grind arith in
      elim order [ inl lt ↦ absurd (cc (h.1, k.2 i lt)) | inr lt ↦ absurd (cc (k.1, h.2 j lt)) ]
]

pub first_below-none :
    (p : ℕ → Bool) (n : ℕ) → ((j : ℕ) → j < n → p j ≡ false) → first_below p n ≡ none
first_below-none p n h = elim (Option-cases (first_below p n)) [
  | inl e ↦ e
  | inr e ↦
      let found : IsFirst p n (some e.0) = subst (IsFirst p n) e.1 (first_below-IsFirst p n) in
      absurd (cc (found.1, h e.0 found.0))
]

pub first_below-ext :
    (p q : ℕ → Bool) (n : ℕ) → ((j : ℕ) → p j ≡ q j) → first_below p n ≡ first_below q n
first_below-ext p q n h = ap (λ r. first_below r n) (fun_ext h)
