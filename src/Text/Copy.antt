-- ===== src/Text/Copy.antt =====
-- `strlen` and `kstrlcpy`.
use mobile_phone_os.Prelude.{
  ℕ, zero, suc, ◌+◌, ◌-◌, ◌≤◌, ◌<◌, ◌≡◌, ◌≢◌, ◌⊎◌, inl, inr, refl, sym, ap, ◌∙◌, true, false, arith,
  ltb, ◌==◌, if◌then◌else◌, some, min, eq-cases,
}
use mobile_phone_os.Text.{strlen_from, strlen, copied, kstrlcpy_known, kstrlcpy}
use mobile_phone_os.Text.Move.{moved, memcpy-moved}

-- At `s` begins a string of `n` characters and a NUL.
pub record IsString (mem : ℕ → ℕ) (s n : ℕ) : Type 0 where
  pub chars : (i : ℕ) → i < n → mem (s + i) ≢ 0
  pub nul : mem (s + n) ≡ 0

strlen_from-IsString :
    (fuel : ℕ) (mem : ℕ → ℕ) (s i n : ℕ)
    → IsString mem s n
    → i ≤ n
    → n < i + fuel
    → strlen_from fuel mem s i ≡ some n
unfolding strlen_from
strlen_from-IsString zero mem s i n h le lt = absurd (omega arith)
strlen_from-IsString (suc fuel) mem s i n h le lt = elim (eq-cases i n) [
  | inl e ↦
      let end : (mem (s + i) == 0) ≡ true = ap (λ x. x == 0) (ap (λ j. mem (s + j)) e ∙ h.nul) in
      rw end (ap some e)
  | inr ne ↦
      let more : (mem (s + i) == 0) ≡ false = ground (arith, h.chars i (omega arith)) in
      rw more (strlen_from-IsString fuel mem s (i + 1) n h (omega arith) (omega arith))
]

kstrlcpy-copied :
    (fuel : ℕ) (mem : ℕ → ℕ) (dst src size n : ℕ)
    → strlen fuel mem src ≡ some n
    → (size == 0) ≡ false
    → kstrlcpy fuel mem dst src size ≡ some (n, copied mem dst src size n)
unfolding kstrlcpy kstrlcpy_known
kstrlcpy-copied fuel mem dst src size n e nonzero =
    ap (kstrlcpy_known mem dst src size) e ∙ rw nonzero refl

copied-least :
    (mem : ℕ → ℕ) (dst src size n a : ℕ)
    → (src + n < dst) ⊎ (dst + size ≤ src)
    → 0 < size
    → copied mem dst src size n a
      ≡ (if a == dst + min n (size - 1) then 0 else moved mem dst src (min n (size - 1)) a)
copied-least mem dst src size n a apart room =
    let least : (if ltb n (size - 1) then n else size - 1) ≡ min n (size - 1) = ground arith in
    rw (least, memcpy-moved mem dst src (min n (size - 1)) a (ground (arith, apart))) refl

-- From a string that does not overlap the destination, with as much fuel as the string is long and
-- one more, and into at least one byte, `kstrlcpy` returns the length of the string and leaves a
-- string at the destination: as many of the characters as leave room for the NUL, moved there, and
-- the NUL, with every other byte of the memory as it was.
pub kstrlcpy-IsString :
    (fuel : ℕ) (mem : ℕ → ℕ) (dst src size n : ℕ)
    → IsString mem src n
    → n < fuel
    → 0 < size
    → (src + n < dst) ⊎ (dst + size ≤ src)
    → (mem' : ℕ → ℕ) × (kstrlcpy fuel mem dst src size ≡ some (n, mem'))
      × IsString mem' dst (min n (size - 1))
      × ((a : ℕ)
          → mem' a
            ≡ (if a == dst + min n (size - 1) then 0 else moved mem dst src (min n (size - 1)) a))
unfolding strlen
kstrlcpy-IsString fuel mem dst src size n h lt room apart = (
  copied mem dst src size n,
  kstrlcpy-copied fuel mem dst src size n
      (strlen_from-IsString fuel mem src 0 n h (omega arith) (omega arith)) (ground arith),
  record {
    chars = λ i l e. h.chars i (omega (arith, l)) (sym (front i l) ∙ e);
    nul = at (dst + min n (size - 1)) ∙ ground arith;
  },
  at,
)
  where
    at :
        (a : ℕ)
        → copied mem dst src size n a
          ≡ (if a == dst + min n (size - 1) then 0 else moved mem dst src (min n (size - 1)) a)
    at a = copied-least mem dst src size n a apart room

    front : (i : ℕ) → i < min n (size - 1) → copied mem dst src size n (dst + i) ≡ mem (src + i)
    front i l = at (dst + i) ∙ grind (arith, l)
