-- ===== src/Uaccess.antt =====
-- kernel/uaccess.c: access to the memory of a process, checked against its page tables before a byte
-- moves. `mem` holds the words of the tables, `phys` the bytes of the pages, which are no tables; the
-- buffer of the kernel is outside of both. `none` means that the fuel ran out, or that a page was
-- copied to which nothing is mapped.
pub mod Range
pub mod Out
pub mod In
pub mod Samples
mod Tests
use mobile_phone_os.Prelude.{
  ℕ, zero, suc, ◌+◌, ◌-◌, ◌%◌, ◌^◌, Bool, true, false, not, ◌&&◌, ◌||◌, Option, none, some, ltb,
  leb, ◌==◌, if◌then◌else◌, ℤ, pos, negsuc, add64,
}
use mobile_phone_os.Pmm.{page_size}
use mobile_phone_os.Vmm.{bit, vm_user, vm_write, vmm_probe}

abbrev pub user_va_limit : ℕ
user_va_limit = 2 ^ 42

abbrev pub efault : ℤ
efault = negsuc 13

unfoldable pub range_ok : (va len : ℕ) → Bool
range_ok va len =
    let end = (va + len + (2 ^ 64 - 1)) % 2 ^ 64 in
    if leb user_va_limit va
    then false
    else if len == 0
    then true
    else if ltb end va
    then false
    else ltb end user_va_limit

-- The bytes up to the end of the page, or to the end of the range.
abbrev pub chunk : (va len : ℕ) → ℕ
chunk va len = let room = page_size - va % page_size in if ltb len room then len else room

-- What `check_range` asks of one page.
abbrev pub passes : (write : Bool) → Option (ℕ × ℕ) → Bool
passes write none = false
passes write (some (pa, fl)) = bit fl vm_user && (not write || bit fl vm_write)

-- `some false` is -EFAULT.
unfoldable pub check_range : ℕ → (ℕ → ℕ) → (root va len : ℕ) → (write : Bool) → Option Bool
check_range zero mem root va len write = if len == 0 then some true else none
check_range (suc fuel) mem root va len write =
    let rest = check_range fuel mem root (add64 va (chunk va len)) (len - chunk va len) write in
    if len == 0
    then some true
    else if passes write (vmm_probe mem root (va - va % page_size))
    then rest
    else some false

-- `memcpy(dst, src, n)` from one memory to another.
abbrev pub copied_between : (to : ℕ → ℕ) (dst : ℕ) (from : ℕ → ℕ) (src n : ℕ) → ℕ → ℕ
copied_between to dst from src n a =
    if leb dst a && ltb a (dst + n) then from (src + (a - dst)) else to a

-- The address of the byte at `va` once its page is found at `pa`.
abbrev pub place : (pa va : ℕ) → ℕ
place pa va = pa - pa % page_size + va % page_size

-- The loop of `copy_in`, from the index `k` of the buffer on.
unfoldable pub copy_in_loop :
    ℕ → (mem phys : ℕ → ℕ) → (kdst : ℕ → ℕ) → (root usrc k len : ℕ) → Option (ℕ → ℕ)
copy_in_loop zero mem phys kdst root usrc k len = if len == 0 then some kdst else none
copy_in_loop (suc fuel) mem phys kdst root usrc k len =
    let n = chunk usrc len in
    let rest = λ (pa : ℕ).
      copy_in_loop fuel mem phys (copied_between kdst k phys (place pa usrc) n) root (add64 usrc n)
        (k + n) (len - n) in
    if len == 0
    then some kdst
    else elim (vmm_probe mem root usrc) [ none ↦ none | some (pa, fl) ↦ rest pa ]

-- The loop of `copy_out`.
unfoldable pub copy_out_loop :
    ℕ → (mem phys : ℕ → ℕ) → (ksrc : ℕ → ℕ) → (root udst k len : ℕ) → Option (ℕ → ℕ)
copy_out_loop zero mem phys ksrc root udst k len = if len == 0 then some phys else none
copy_out_loop (suc fuel) mem phys ksrc root udst k len =
    let n = chunk udst len in
    let rest = λ (pa : ℕ).
      copy_out_loop fuel mem (copied_between phys (place pa udst) ksrc k n) ksrc root (add64 udst n)
        (k + n) (len - n) in
    if len == 0
    then some phys
    else elim (vmm_probe mem root udst) [ none ↦ none | some (pa, fl) ↦ rest pa ]

-- The result of the checks, and the loop where they pass.
abbrev pub checked {ℓ} : {A : Type ℓ} → Option Bool → A → Option A → Option (ℤ × A)
checked none old loop = none
checked (some false) old loop = some (efault, old)
checked (some true) old none = none
checked (some true) old (some new) = some (pos 0, new)

-- `copy_in`: a copy of `len` bytes makes at most `len` turns.
unfoldable pub uacc_copy_in :
    (mem phys : ℕ → ℕ) → (kdst : ℕ → ℕ) → (root usrc len : ℕ) → Option (ℤ × (ℕ → ℕ))
uacc_copy_in mem phys kdst root usrc len =
    if not (range_ok usrc len)
    then some (efault, kdst)
    else checked (check_range len mem root usrc len false) kdst
        (copy_in_loop len mem phys kdst root usrc 0 len)

unfoldable pub uacc_copy_out :
    (mem phys : ℕ → ℕ) → (root udst : ℕ) → (ksrc : ℕ → ℕ) → (len : ℕ) → Option (ℤ × (ℕ → ℕ))
uacc_copy_out mem phys root udst ksrc len =
    if not (range_ok udst len)
    then some (efault, phys)
    else checked (check_range len mem root udst len true) phys
        (copy_out_loop len mem phys ksrc root udst 0 len)

-- `uacc_strnlen_user` from the count `n` on, with `left` of the limit to go.
unfoldable pub strnlen_loop : (left : ℕ) → (mem phys : ℕ → ℕ) → (root usrc n : ℕ) → Option ℤ
unfolding check_range range_ok
strnlen_loop zero mem phys root usrc n = some efault
strnlen_loop (suc left) mem phys root usrc n =
    let va = add64 usrc n in
    let rest = strnlen_loop left mem phys root usrc (n + 1) in
    if not (range_ok va 1) || not (passes false (vmm_probe mem root (va - va % page_size)))
    then some efault
    else elim (vmm_probe mem root va) [
      | none ↦ none
      | some (pa, fl) ↦ if phys pa == 0 then some (pos n) else rest
    ]

unfoldable pub uacc_strnlen_user : (mem phys : ℕ → ℕ) → (root usrc max : ℕ) → Option ℤ
unfolding strnlen_loop
uacc_strnlen_user mem phys root usrc max = strnlen_loop max mem phys root usrc 0
