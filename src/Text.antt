-- ===== src/Text.antt =====
-- lib/string.c: the memory routines, and strings that end with a NUL, in one memory of bytes.
pub mod Move
pub mod Copy
mod Tests
use mobile_phone_os.Prelude.{
  ℕ, zero, suc, ◌+◌, ◌-◌, ◌%◌, Bool, ◌||◌, Option, none, some, ltb, ◌==◌, if◌then◌else◌, update, ℤ,
  pos, negsuc,
}

unfoldable pub memset : (ℕ → ℕ) → (dst c n : ℕ) → (ℕ → ℕ)
memset mem dst c zero = mem
memset mem dst c (suc n) = memset (update mem dst (c % 256)) (dst + 1) c n

unfoldable pub memcpy : (ℕ → ℕ) → (dst src n : ℕ) → (ℕ → ℕ)
memcpy mem dst src zero = mem
memcpy mem dst src (suc n) = memcpy (update mem dst (mem src)) (dst + 1) (src + 1) n

-- The loop of `memmove` that goes backwards from the ends.
unfoldable pub move_back : (ℕ → ℕ) → (dst src n : ℕ) → (ℕ → ℕ)
move_back mem dst src zero = mem
move_back mem dst src (suc n) = move_back (update mem (dst + n) (mem (src + n))) dst src n

unfoldable pub memmove : (ℕ → ℕ) → (dst src n : ℕ) → (ℕ → ℕ)
unfolding memcpy
memmove mem dst src n =
    if (dst == src) || (n == 0)
    then mem
    else if ltb dst src
    then memcpy mem dst src n
    else move_back mem dst src n

-- `strlen` from the count `n` on; `none` means that the fuel ran out.
unfoldable pub strlen_from : ℕ → (ℕ → ℕ) → (s n : ℕ) → Option ℕ
strlen_from zero mem s n = none
strlen_from (suc fuel) mem s n =
    let rest = strlen_from fuel mem s (n + 1) in if mem (s + n) == 0 then some n else rest

unfoldable pub strlen : ℕ → (ℕ → ℕ) → ℕ → Option ℕ
strlen fuel mem s = strlen_from fuel mem s 0

-- The memory that `kstrlcpy` leaves when the string has `slen` characters and there is room for some.
abbrev pub copied : (ℕ → ℕ) → (dst src room slen : ℕ) → (ℕ → ℕ)
copied mem dst src room slen =
    let copy = if ltb slen (room - 1) then slen else room - 1 in
    update (memcpy mem dst src copy) (dst + copy) 0

-- `kstrlcpy` once the length is known.
unfoldable pub kstrlcpy_known : (ℕ → ℕ) → (dst src room : ℕ) → Option ℕ → Option (ℕ × (ℕ → ℕ))
kstrlcpy_known mem dst src room none = none
kstrlcpy_known mem dst src room (some slen) =
    some (slen, if room == 0 then mem else copied mem dst src room slen)

unfoldable pub kstrlcpy : ℕ → (ℕ → ℕ) → (dst src room : ℕ) → Option (ℕ × (ℕ → ℕ))
unfolding kstrlcpy_known
kstrlcpy fuel mem dst src room = kstrlcpy_known mem dst src room (strlen fuel mem src)
