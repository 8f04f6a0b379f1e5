-- ===== src/Elf/Page.antt =====
-- What `fill_page` does to the memory.
use mobile_phone_os.Prelude.{
  ℕ, ◌+◌, ◌-◌, ◌%◌, ◌^◌, ◌≤◌, ◌<◌, ◌≡◌, ◌⊎◌, inl, inr, refl, ◌∙◌, Bool, true, false, ◌&&◌, ltb, leb,
  if◌then◌else◌, add64, arith,
}
use native.Mathlib.Decide.{dec_lt}
use native.Mathlib.Nat.{mod-eq_of_lt}
use mobile_phone_os.Pmm.{page_size}
use mobile_phone_os.Uaccess.{user_va_limit}
use mobile_phone_os.Elf.{Phdr, minus64, least, greatest, from_image, cleared, fill_page}
use mobile_phone_os.Elf.Overlap.{written-wanted}

-- The byte of a segment at the address `v`: the file, zeros up to the size in memory, and beyond that
-- what was there.
abbrev pub segment_byte : (ℕ → ℕ) → Phdr → (old v : ℕ) → ℕ
segment_byte img ph old v =
    if ltb v ph.p_vaddr
    then old
    else if ltb v (ph.p_vaddr + ph.p_filesz)
    then img ((ph.p_offset + (v - ph.p_vaddr)) % 2 ^ 64)
    else if ltb v (ph.p_vaddr + ph.p_memsz)
    then 0
    else old

-- The memory after the page at `va` has been filled: the frame holds the bytes of the segment, and from
-- the end of the file on, if that lies before the page, as many bytes before the frame are zero.
abbrev pub filled : (ℕ → ℕ) → (ℕ → ℕ) → Phdr → (va fr : ℕ) → ℕ → ℕ
filled phys img ph va fr a =
    if leb fr a && ltb a (fr + page_size)
    then segment_byte img ph (phys a) (va + (a - fr))
    else if ltb a fr && leb (fr + (ph.p_vaddr + ph.p_filesz)) (a + va)
    then 0
    else phys a

least-lem : (a b : ℕ) → ((least a b ≤ a) × (least a b ≤ b)) × ((least a b ≡ a) ⊎ (least a b ≡ b))
least-lem a b = elim (dec_lt a b) [
  | yes p ↦
      let e : ltb a b ≡ true = ground (arith, p) in rw e ((omega arith, omega arith), inl refl)
  | no p ↦
      let e : ltb a b ≡ false = ground (arith, p) in rw e ((omega arith, omega arith), inr refl)
]

pub greatest-lem :
    (a b : ℕ)
    → ((a ≤ greatest a b) × (b ≤ greatest a b)) × ((greatest a b ≡ a) ⊎ (greatest a b ≡ b))
greatest-lem a b = elim (dec_lt b a) [
  | yes p ↦
      let e : ltb b a ≡ true = ground (arith, p) in rw e ((omega arith, omega arith), inl refl)
  | no p ↦
      let e : ltb b a ≡ false = ground (arith, p) in rw e ((omega arith, omega arith), inr refl)
]

zeros_from :
    (fr hf va : ℕ)
    → va ≤ fr + hf
    → fr + hf < va + 2 ^ 64
    → va < 2 ^ 64
    → hf < 2 ^ 64
    → add64 fr (minus64 hf va) + va ≡ fr + hf
zeros_from fr hf va le lt small hs = omega arith

pointwise :
    (phys img : ℕ → ℕ) (p q : Bool) (dst src n at m a : ℕ)
    → (if p
          then cleared (if q then from_image phys dst img src n else phys) at m
          else (if q then from_image phys dst img src n else phys))
        a
      ≡ (if p && (leb at a && ltb a (at + m))
          then 0
          else if q && (leb dst a && ltb a (dst + n))
          then img ((src + (a - dst)) % 2 ^ 64)
          else phys a)
pointwise phys img true true dst src n at m a = refl
pointwise phys img true false dst src n at m a = refl
pointwise phys img false true dst src n at m a = refl
pointwise phys img false false dst src n at m a = refl

-- Where a segment fits into the window of a process and has no more bytes in the file than in memory, the
-- page at `va` overlaps it, and the frame and as many bytes before it as the end of the file lies before
-- the page are in the memory: the fill puts the bytes of the segment into the frame, makes exactly those
-- bytes before the frame zero, and changes nothing else.
pub fill_page-filled :
    (phys img : ℕ → ℕ) (ph : Phdr) (va fr : ℕ)
    → ph.p_filesz ≤ ph.p_memsz
    → ph.p_vaddr + ph.p_memsz ≤ user_va_limit
    → va < ph.p_vaddr + ph.p_memsz
    → ph.p_vaddr < va + page_size
    → va ≤ fr + (ph.p_vaddr + ph.p_filesz)
    → fr + page_size < 2 ^ 64
    → (a : ℕ) → fill_page phys img ph va fr a ≡ filled phys img ph va fr a
unfolding fill_page
fill_page-filled phys img ph va fr small fits some_in starts room top a =
    let f_end : add64 ph.p_vaddr ph.p_filesz ≡ ph.p_vaddr + ph.p_filesz =
      mod-eq_of_lt (omega arith) in
    let m_end : add64 ph.p_vaddr ph.p_memsz ≡ ph.p_vaddr + ph.p_memsz =
      mod-eq_of_lt (omega arith) in
    let next : add64 va page_size ≡ va + page_size = mod-eq_of_lt (omega arith) in
    let lo = greatest va ph.p_vaddr in
    let hf = least (va + page_size) (ph.p_vaddr + ph.p_filesz) in
    let hm = least (va + page_size) (ph.p_vaddr + ph.p_memsz) in
    let low = greatest-lem va ph.p_vaddr in
    let file = least-lem (va + page_size) (ph.p_vaddr + ph.p_filesz) in
    let mem = least-lem (va + page_size) (ph.p_vaddr + ph.p_memsz) in
    let place : add64 fr (minus64 hf va) + va ≡ fr + hf =
      zeros_from fr hf va (omega (arith, file.0, file.1, room)) (omega (arith, file.0, top))
        (omega (arith, some_in, fits)) (omega (arith, file.0, fits, small)) in
    rw (f_end, m_end, next)
      (pointwise phys img (ltb hf hm) (ltb lo hf) (fr + (lo - va)) (ph.p_offset + (lo - ph.p_vaddr))
          (hf - lo) (add64 fr (minus64 hf va)) (hm - hf) a
        ∙ written-wanted va fr ph.p_vaddr (ph.p_vaddr + ph.p_filesz) (ph.p_vaddr + ph.p_memsz) lo hf
            hm (add64 fr (minus64 hf va)) a (omega arith) (omega arith) some_in starts low.0 low.1
            file.0 file.1 mem.0 mem.1 place phys img ph.p_offset)
