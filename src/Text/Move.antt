-- ===== src/Text/Move.antt =====
-- `memset`, `memcpy` and `memmove` on a memory of bytes.
use mobile_phone_os.Prelude.{
  ℕ, zero, suc, ◌+◌, ◌-◌, ◌%◌, ◌≤◌, ◌<◌, ◌≡◌, ◌⊎◌, inl, inr, ◌∙◌, ◌&&◌, ◌||◌, arith, ltb, leb, ◌==◌,
  if◌then◌else◌, update, Bool-cases,
}
use mobile_phone_os.Text.{memset, memcpy, move_back, memmove}

-- The byte at `a` once `n` bytes have gone from `src` to `dst`.
abbrev pub moved : (ℕ → ℕ) → (dst src n a : ℕ) → ℕ
moved mem dst src n a = if leb dst a && ltb a (dst + n) then mem (src + (a - dst)) else mem a

pub memcpy-moved :
    (mem : ℕ → ℕ) (dst src n a : ℕ)
    → (dst < src) ⊎ (src + n ≤ dst)
    → memcpy mem dst src n a ≡ moved mem dst src n a
unfolding memcpy
memcpy-moved mem dst src zero a h = ground arith
memcpy-moved mem dst src (suc n) a h =
    memcpy-moved (update mem dst (mem src)) (dst + 1) (src + 1) n a (ground (arith, h))
    ∙ grind arith

move_back-moved :
    (mem : ℕ → ℕ) (dst src n a : ℕ) → src < dst → move_back mem dst src n a ≡ moved mem dst src n a
unfolding move_back
move_back-moved mem dst src zero a h = ground arith
move_back-moved mem dst src (suc n) a h =
    move_back-moved (update mem (dst + n) (mem (src + n))) dst src n a h ∙ grind arith

-- `memmove` moves the `n` bytes at `src` as they were before to `dst`, however the two overlap, and
-- leaves every other byte as it was.
pub memmove-moved :
    (mem : ℕ → ℕ) (dst src n a : ℕ) → memmove mem dst src n a ≡ moved mem dst src n a
unfolding memmove
memmove-moved mem dst src n a = elim (Bool-cases ((dst == src) || (n == 0))) [
  | inl e ↦ rw e (grind arith)
  | inr e ↦ rw e (elim (Bool-cases (ltb dst src)) [
    | inl lt ↦ rw lt (memcpy-moved mem dst src n a (inl (ground (arith, lt))))
    | inr ge ↦ rw ge (move_back-moved mem dst src n a (ground (arith, e, ge)))
  ])
]

-- `memset` writes the low byte of `c` to the `n` bytes at `dst`, and to no other.
pub memset-fills :
    (mem : ℕ → ℕ) (dst c n a : ℕ)
    → memset mem dst c n a ≡ (if leb dst a && ltb a (dst + n) then c % 256 else mem a)
unfolding memset
memset-fills mem dst c zero a = ground arith
memset-fills mem dst c (suc n) a =
    memset-fills (update mem dst (c % 256)) (dst + 1) c n a ∙ grind arith
