-- ===== src/Kheap.antt =====
-- mm/kheap.c: the allocator of the kernel on top of the frames of Pmm. `mem` holds the bytes of the
-- chunks. The lock is held throughout each call.
pub mod Words
pub mod Taken
pub mod Cycle
pub mod Span
mod Tests
use mobile_phone_os.Prelude.{
  ℕ, zero, suc, ◌+◌, ◌-◌, ◌*◌, ◌/◌, ◌%◌, ◌^◌, Bool, true, false, not, ◌&&◌, ◌||◌, ◌⊎◌, inl, inr,
  ltb, leb, ◌==◌, if◌then◌else◌, update, add64, sub64, add32, Option, none, some,
}
use mobile_phone_os.Pmm.{page_size, Pmm, pmm_alloc, pmm_alloc_contig, pmm_free}
use mobile_phone_os.AbTable.{get32, put32, put64}

abbrev pub hdr_magic_alloc : ℕ
hdr_magic_alloc = 0xa110c8ed

abbrev pub hdr_magic_freed : ℕ
hdr_magic_freed = 0xf7eeb1de

abbrev pub canary_word : ℕ
canary_word = 0xcafef00d

abbrev pub poison_byte : ℕ
poison_byte = 0x5a

abbrev pub fill_byte : ℕ
fill_byte = 0xaa

abbrev pub hdr_size : ℕ
hdr_size = 16

abbrev pub km_classes : ℕ
km_classes = 8

abbrev pub km_large_max : ℕ
km_large_max = 64 * 1024

-- 16, 32, ..., 2048.
abbrev pub class_size : ℕ → ℕ
class_size ci = 16 * 2 ^ ci

abbrev pub get16 : (ℕ → ℕ) → ℕ → ℕ
get16 t off = t off + 256 * t (off + 1)

abbrev pub put16 : (ℕ → ℕ) → (off v : ℕ) → (ℕ → ℕ)
put16 t off v a = if a == off then v % 256 else if a == off + 1 then v / 256 % 256 else t a

abbrev pub get64 : (ℕ → ℕ) → ℕ → ℕ
get64 t off = get32 t off + 2 ^ 32 * get32 t (off + 4)

-- `memset`.
abbrev pub set_bytes : (ℕ → ℕ) → (dst c n : ℕ) → ℕ → ℕ
set_bytes mem dst c n a = if leb dst a && ltb a (dst + n) then c else mem a

-- The fields of the header at `h`.
abbrev pub magic_at : ℕ → ℕ
magic_at h = h

abbrev pub req_at : ℕ → ℕ
req_at h = h + 4

abbrev pub cls_at : ℕ → ℕ
cls_at h = h + 8

abbrev pub npages_at : ℕ → ℕ
npages_at h = h + 10

pub record Heap : Type 0 where
  pub pmm : Pmm
  pub mem : ℕ → ℕ
  pub freelist : ℕ → ℕ
  pub allocs : ℕ
  pub frees : ℕ
  pub bytes_current : ℕ
  pub bytes_peak : ℕ
  pub recent : ℕ → ℕ × ℕ
  pub recent_idx : ℕ

-- The loop of `grow_slab`, down from the chunk `i`: the memory and the head of the list.
unfoldable pub carve : (i pa chunk ci : ℕ) → (mem : ℕ → ℕ) → (head : ℕ) → (ℕ → ℕ) × ℕ
carve zero pa chunk ci mem head = (mem, head)
carve (suc k) pa chunk ci mem head =
    let h = pa + k * chunk in
    let t = put32 (put32 mem (magic_at h) hdr_magic_freed) (req_at h) 0 in
    carve k pa chunk ci
      (put64 (put16 (put16 t (cls_at h) (ci + 1)) (npages_at h) 0) (h + hdr_size) head)
      (h + hdr_size)

unfoldable pub grow_slab : Heap → ℕ → Bool × Heap
unfolding carve
grow_slab s ci =
    let a = pmm_alloc s.pmm in
    let chunk = hdr_size + class_size ci in
    let c = carve (page_size / chunk) a.0 chunk ci s.mem (s.freelist ci) in
    if a.0 == 0
    then (false, record s { pmm = a.1 })
    else (true, record s { pmm = a.1; mem = c.0; freelist = update s.freelist ci c.1 })

-- The loop that looks for the class of a size, over `n` classes from `ci` on.
unfoldable pub class_from : (n ci size : ℕ) → ℕ
class_from zero ci size = ci
class_from (suc n) ci size =
    let rest = class_from n (ci + 1) size in if leb (add64 size 4) (class_size ci) then ci else rest

abbrev pub noted : Heap → ℕ → Heap
noted s size =
    let now = add64 s.bytes_current size in
    record s {
      allocs = add64 s.allocs 1;
      bytes_current = now;
      bytes_peak = if ltb s.bytes_peak now then now else s.bytes_peak;
    }

-- A chunk of the class `ci` for `size` bytes, once there is one.
unfoldable pub take_chunk : Heap → (ci size : ℕ) → ℕ × Heap
take_chunk s ci size =
    let body = s.freelist ci in
    let h = body - hdr_size in
    let t = put32 (put32 s.mem (magic_at h) hdr_magic_alloc) (req_at h) size in
    let u = if ltb size (class_size ci) then put32 t (body + size) canary_word else t in
    (
      body,
      noted
          (record s {
            freelist = update s.freelist ci (get64 s.mem body);
            mem = set_bytes u body fill_byte size;
            recent = update s.recent s.recent_idx (body, size % 2 ^ 32);
            recent_idx = (s.recent_idx + 1) % 16;
          })
          size,
    )

-- A span of pages for `size` bytes.
unfoldable pub take_span : Heap → (size : ℕ) → Option (ℕ × Heap)
take_span s size =
    let pages = (hdr_size + size + page_size - 1) % 2 ^ 64 / page_size % 2 ^ 32 in
    if ltb (km_large_max / page_size) pages
    then some (0, s)
    else elim (pmm_alloc_contig s.pmm pages) [
      | none ↦ none
      | some (span, pmm') ↦
          let body = span + hdr_size in
          let t = put32 (put32 s.mem (magic_at span) hdr_magic_alloc) (req_at span) size in
          let u = put16 (put16 t (cls_at span) 0) (npages_at span) pages in
          let v =
            if leb ((size + hdr_size) % 2 ^ 64 % page_size) (page_size - 4)
            then put32 u (body + size) canary_word
            else u in
          if span == 0
          then some (0, record s { pmm = pmm' })
          else some
              (body, noted (record s { pmm = pmm'; mem = set_bytes v body fill_byte size }) size)
    ]

-- The allocation once the class is known. A result of 0 is NULL; `none` means that the call does not
-- return: the index of the loop that fills a chunk has 32 bits. The fuel of `pmm_alloc_contig` suffices.
unfoldable pub from_class : Heap → (ci size : ℕ) → Option (ℕ × Heap)
unfolding grow_slab take_chunk take_span
from_class s ci size =
    let g = if s.freelist ci == 0 then grow_slab s ci else (true, s) in
    if ci == km_classes
    then take_span s size
    else if not g.0
    then some (0, g.1)
    else if leb (2 ^ 32) size
    then none
    else some (take_chunk g.1 ci size)

unfoldable pub kmalloc : Heap → (size : ℕ) → Option (ℕ × Heap)
kmalloc s size =
    let asked = if size == 0 then 1 else size in from_class s (class_from km_classes 0 asked) asked

unfoldable pub kzalloc : Heap → (size : ℕ) → Option (ℕ × Heap)
unfolding kmalloc
kzalloc s size = elim (kmalloc s size) [
  | none ↦ none
  | some (p, s') ↦
      if p == 0 then some (p, s') else some (p, record s' { mem = set_bytes s'.mem p 0 size })
]

-- Why `kfree` stops the kernel.
pub data Panic : Type 0 where
  null_pointer : Panic
  double_free : Panic
  corrupted_header : Panic
  buffer_overrun : Panic

-- The pages of a span are given back.
unfoldable pub release : (n pa : ℕ) → Pmm → Pmm
release zero pa m = m
release (suc n) pa m = release n (pa + page_size) (pmm_free m pa)

abbrev pub have_canary : (cls req : ℕ) → Bool
have_canary cls req =
    if not (cls == 0)
    then leb (add32 req 4) (class_size (cls - 1))
    else leb (add32 req hdr_size % page_size) (page_size - 4)

unfoldable pub kfree : Heap → (ptr : ℕ) → Panic ⊎ Heap
unfolding release
kfree s ptr =
    let h = ptr - hdr_size in
    let magic = get32 s.mem (magic_at h) in
    let req = get32 s.mem (req_at h) in
    let cls = get16 s.mem (cls_at h) in
    let t = set_bytes s.mem ptr poison_byte req in
    let s' = record s {
      mem = t;
      frees = add64 s.frees 1;
      bytes_current = sub64 s.bytes_current req;
    } in
    if ptr == 0
    then inl null_pointer
    else if magic == hdr_magic_freed
    then inl double_free
    else if not (magic == hdr_magic_alloc)
    then inl corrupted_header
    else if have_canary cls req && not (get32 s.mem (ptr + req) == canary_word)
    then inl buffer_overrun
    else if not (cls == 0)
    then inr (record s' {
      mem = put64 (put32 t (magic_at h) hdr_magic_freed) ptr (s.freelist (cls - 1));
      freelist = update s.freelist (cls - 1) ptr;
    })
    else inr (record s' { pmm = release (get16 s.mem (npages_at h)) h s.pmm })
