-- ===== src/Elf.antt =====
-- kernel/elf.c: the loader of static ELF images. `img` gives the bytes from the start of the image on, by
-- an offset of 64 bits, whether they belong to the image or not; `phys` holds the bytes of the frames.
pub mod Overlap
pub mod Page
pub mod Load
mod Tests
use mobile_phone_os.Prelude.{
  ℕ, zero, suc, ◌+◌, ◌-◌, ◌*◌, ◌/◌, ◌%◌, ◌^◌, Bool, true, false, not, ◌&&◌, ◌||◌, ltb, leb, ◌==◌,
  if◌then◌else◌, ℤ, pos, negsuc, add64, Option, none, some,
}
use mobile_phone_os.Pmm.{page_size, Pmm, pmm_alloc, pmm_free}
use mobile_phone_os.Vmm.{bit, vmm_map_at}
use mobile_phone_os.Uaccess.{user_va_limit}

abbrev pub user_code_base : ℕ
user_code_base = 2 ^ 40

abbrev pub phdr_ent_size : ℕ
phdr_ent_size = 56

abbrev pub ehdr_size : ℕ
ehdr_size = 64

abbrev pub pt_load : ℕ
pt_load = 1

abbrev pub pt_interp : ℕ
pt_interp = 3

abbrev pub elf_err_header : ℤ
elf_err_header = negsuc 0

abbrev pub elf_err_type : ℤ
elf_err_type = negsuc 1

abbrev pub elf_err_seg : ℤ
elf_err_seg = negsuc 2

abbrev pub elf_err_overlap : ℤ
elf_err_overlap = negsuc 3

abbrev pub elf_err_nomem : ℤ
elf_err_nomem = negsuc 4

abbrev pub elf_err_dynamic : ℤ
elf_err_dynamic = negsuc 5

-- The test of a result of type `int`.
abbrev pub is_zero : ℤ → Bool
is_zero (pos zero) = true
is_zero (pos (suc n)) = false
is_zero (negsuc n) = false

-- A field of `n` bytes, the lowest first.
unfoldable pub field : (n : ℕ) → (ℕ → ℕ) → (at : ℕ) → ℕ
field zero img at = 0
field (suc n) img at = img (at % 2 ^ 64) + 256 * field n img (at + 1)

pub record Ehdr : Type 0 where
  pub e_ident : ℕ → ℕ
  pub e_type : ℕ
  pub e_machine : ℕ
  pub e_entry : ℕ
  pub e_phoff : ℕ
  pub e_phentsize : ℕ
  pub e_phnum : ℕ

pub record Phdr : Type 0 where
  pub p_type : ℕ
  pub p_flags : ℕ
  pub p_offset : ℕ
  pub p_vaddr : ℕ
  pub p_filesz : ℕ
  pub p_memsz : ℕ

unfoldable pub ehdr : (ℕ → ℕ) → Ehdr
unfolding field
ehdr img = record {
  e_ident = img;
  e_type = field 2 img 16;
  e_machine = field 2 img 18;
  e_entry = field 8 img 24;
  e_phoff = field 8 img 32;
  e_phentsize = field 2 img 54;
  e_phnum = field 2 img 56;
}

unfoldable pub get_phdr : (ℕ → ℕ) → (img_len : ℕ) → Ehdr → (i : ℕ) → Option Phdr
unfolding field
get_phdr img img_len eh i =
    let off = (eh.e_phoff + i * eh.e_phentsize) % 2 ^ 64 in
    if ltb img_len (add64 off phdr_ent_size)
    then none
    else some (record {
      p_type = field 4 img off;
      p_flags = field 4 img (off + 4);
      p_offset = field 8 img (off + 8);
      p_vaddr = field 8 img (off + 16);
      p_filesz = field 8 img (off + 32);
      p_memsz = field 8 img (off + 40);
    })

-- The difference of two addresses, modulo 2^64.
abbrev pub minus64 : ℕ → ℕ → ℕ
minus64 a b = (a + (2 ^ 64 - b)) % 2 ^ 64

abbrev pub least : ℕ → ℕ → ℕ
least a b = if ltb a b then a else b

abbrev pub greatest : ℕ → ℕ → ℕ
greatest a b = if ltb b a then a else b

-- `memcpy(dst, img + src, n)` and `memset(dst, 0, n)`.
abbrev pub from_image : (ℕ → ℕ) → (dst : ℕ) → (ℕ → ℕ) → (src n : ℕ) → ℕ → ℕ
from_image phys dst img src n a =
    if leb dst a && ltb a (dst + n) then img ((src + (a - dst)) % 2 ^ 64) else phys a

abbrev pub cleared : (ℕ → ℕ) → (dst n : ℕ) → ℕ → ℕ
cleared phys dst n a = if leb dst a && ltb a (dst + n) then 0 else phys a

-- The frame `fr` of the page at `va` is filled from the file where they overlap.
unfoldable pub fill_page : (ℕ → ℕ) → (ℕ → ℕ) → Phdr → (va fr : ℕ) → (ℕ → ℕ)
fill_page phys img ph va fr =
    let lo = greatest va ph.p_vaddr in
    let f_end = add64 ph.p_vaddr ph.p_filesz in
    let m_end = add64 ph.p_vaddr ph.p_memsz in
    let hi_f = least (add64 va page_size) f_end in
    let hi_m = least (add64 va page_size) m_end in
    let copied =
      if ltb lo hi_f
      then from_image phys (fr + (lo - va)) img (ph.p_offset + (lo - ph.p_vaddr)) (hi_f - lo)
      else phys in
    if ltb hi_f hi_m then cleared copied (add64 fr (minus64 hi_f va)) (hi_m - hi_f) else copied

-- The loop of `load_segment` over `n` pages from `va` on.
unfoldable pub load_pages :
    (n : ℕ) → Pmm → (phys img : ℕ → ℕ) → (root : ℕ) → Phdr → (fl va : ℕ) → ℤ × (Pmm × (ℕ → ℕ))
unfolding fill_page
load_pages zero m phys img root ph fl va = (pos 0, (m, phys))
load_pages (suc n) m phys img root ph fl va =
    let a = pmm_alloc m in
    let r = vmm_map_at a.1 root va a.0 fl in
    let rest =
      load_pages n r.1 (fill_page phys img ph va a.0) img root ph fl (add64 va page_size) in
    if a.0 == 0
    then (elf_err_nomem, (a.1, phys))
    else if not (is_zero r.0)
    then (elf_err_overlap, (pmm_free r.1 a.0, phys))
    else rest

abbrev pub align_up : ℕ → ℕ
align_up x = let y = add64 x (page_size - 1) in y - y % page_size

-- VM_READ and VM_USER, with VM_WRITE for PF_W and VM_EXEC for PF_X.
abbrev pub segment_flags : ℕ → ℕ
segment_flags p_flags = 9 + (if bit p_flags 1 then 2 else 0) + (if bit p_flags 0 then 4 else 0)

unfoldable pub load_segment :
    Pmm → (phys img : ℕ → ℕ) → (img_len root : ℕ) → Phdr → ℤ × (Pmm × (ℕ → ℕ))
unfolding load_pages
load_segment m phys img img_len root ph =
    let va_lo = ph.p_vaddr - ph.p_vaddr % page_size in
    let va_hi = align_up (add64 ph.p_vaddr ph.p_memsz) in
    if ltb img_len (add64 ph.p_offset ph.p_filesz)
    then (elf_err_seg, (m, phys))
    else if ltb ph.p_vaddr user_code_base || ltb user_va_limit (add64 ph.p_vaddr ph.p_memsz)
    then (elf_err_seg, (m, phys))
    else load_pages ((va_hi - va_lo) / page_size) m phys img root ph (segment_flags ph.p_flags)
        va_lo

-- The first loop of `elf_load`, over `n` headers from the header `i` on: the error, if there is one.
unfoldable pub reject_dynamic : (n : ℕ) → (ℕ → ℕ) → (img_len : ℕ) → Ehdr → (i : ℕ) → ℤ
unfolding get_phdr
reject_dynamic zero img img_len eh i = pos 0
reject_dynamic (suc n) img img_len eh i =
    let rest = reject_dynamic n img img_len eh (i + 1) in
    elim (get_phdr img img_len eh i) [
      | none ↦ elf_err_header
      | some ph ↦ if ph.p_type == pt_interp then elf_err_dynamic else rest
    ]

-- The second loop: the result, the end of the highest segment, and the memory.
unfoldable pub load_segments :
    (n : ℕ)
    → Pmm
    → (phys img : ℕ → ℕ) → (img_len root : ℕ) → Ehdr
    → (i brk : ℕ) → ℤ × (ℕ × (Pmm × (ℕ → ℕ)))
unfolding get_phdr load_segment
load_segments zero m phys img img_len root eh i brk = (pos 0, (brk, (m, phys)))
load_segments (suc n) m phys img img_len root eh i brk =
    let skip = load_segments n m phys img img_len root eh (i + 1) brk in
    elim (get_phdr img img_len eh i) [
      | none ↦ (elf_err_header, (brk, (m, phys)))
      | some ph ↦
          let r = load_segment m phys img img_len root ph in
          let top = align_up (add64 ph.p_vaddr ph.p_memsz) in
          let rest = load_segments n r.1.0 r.1.1 img img_len root eh (i + 1) (greatest top brk) in
          if not (ph.p_type == pt_load) || ph.p_memsz == 0
          then skip
          else if is_zero r.0
          then rest
          else (r.0, (brk, r.1))
    ]

abbrev pub good_ident : (ℕ → ℕ) → Bool
good_ident e =
    (e 0 == 0x7f) && (e 1 == 69) && (e 2 == 76) && (e 3 == 70) && (e 4 == 2) && (e 5 == 1)

abbrev pub good_type : Ehdr → Bool
good_type eh =
    (eh.e_type == 2)
    && (eh.e_machine == 183)
    && (eh.e_phentsize == phdr_ent_size)
    && not (eh.e_phnum == 0)
    && leb eh.e_phnum 32

-- The entry and the base of the heap are set only in the end.
unfoldable pub elf_load :
    Pmm → (phys img : ℕ → ℕ) → (img_len root : ℕ) → ℤ × (Option (ℕ × ℕ) × (Pmm × (ℕ → ℕ)))
unfolding ehdr reject_dynamic load_segments
elf_load m phys img img_len root =
    let eh = ehdr img in
    let dyn = reject_dynamic eh.e_phnum img img_len eh 0 in
    let r = load_segments eh.e_phnum m phys img img_len root eh 0 0 in
    if ltb img_len ehdr_size
    then (elf_err_header, (none, (m, phys)))
    else if not (good_ident eh.e_ident)
    then (elf_err_header, (none, (m, phys)))
    else if not (good_type eh)
    then (elf_err_type, (none, (m, phys)))
    else if ltb img_len ((eh.e_phoff + eh.e_phnum * eh.e_phentsize) % 2 ^ 64)
    then (elf_err_header, (none, (m, phys)))
    else if not (is_zero dyn)
    then (dyn, (none, (m, phys)))
    else if not (is_zero r.0)
    then (r.0, (none, r.1.1))
    else if ltb eh.e_entry user_code_base || leb user_va_limit eh.e_entry
    then (elf_err_seg, (none, r.1.1))
    else (pos 0, (some (eh.e_entry, r.1.0), r.1.1))
