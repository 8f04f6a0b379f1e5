-- ===== src/Kheap/Taken.antt =====
-- `kmalloc` takes a chunk from the list of its class.
use mobile_phone_os.Prelude.{
  ℕ, zero, suc, ◌+◌, ◌-◌, ◌^◌, ◌≤◌, ◌<◌, ◌≡◌, inl, inr, refl, ap, ◌∙◌, true, false, ltb, leb, ◌==◌,
  if◌then◌else◌, arith, add64, some, Bool-cases,
}
use mobile_phone_os.AbTable.{get32, put32}
use mobile_phone_os.Kheap.{
  hdr_magic_alloc, canary_word, fill_byte, hdr_size, km_classes, class_size, get16, get64,
  set_bytes, magic_at, req_at, cls_at, Heap, class_from, take_chunk, from_class, kmalloc,
}
use mobile_phone_os.Kheap.Words.{put32-apart, put32-get32, get32-same, get16-same, set_bytes-apart}

pub class_from-fits :
    (n ci size : ℕ)
    → class_from n ci size < ci + n
    → add64 size 4 ≤ class_size (class_from n ci size)
unfolding class_from
class_from-fits zero ci size lt = absurd (omega (arith, lt))
class_from-fits (suc n) ci size lt = elim (Bool-cases (leb (add64 size 4) (class_size ci))) [
  | inl e ↦ rw (class_from, e) (let le : add64 size 4 ≤ class_size ci = ground (arith, e) in le)
  | inr e ↦
      rw (class_from, e) (class_from-fits n (ci + 1) size (omega (arith, rw (class_from, e) at lt)))
]

-- A chunk at the head of its list: its header names its class, and its link is a word.
pub record Chunk (s : Heap) (ci : ℕ) : Type 0 where
  pub some_chunk : hdr_size ≤ s.freelist ci
  pub cls : get16 s.mem (cls_at (s.freelist ci - hdr_size)) ≡ ci + 1
  pub link : get64 s.mem (s.freelist ci) < 2 ^ 64

pub from_class-take :
    (s : Heap) (ci size : ℕ)
    → size + 4 < 2 ^ 32
    → ci < km_classes
    → Chunk s ci
    → from_class s ci size ≡ some (take_chunk s ci size)
unfolding from_class
from_class-take s ci size small slab c =
    let b : (s.freelist ci == 0) ≡ false = ground (arith, c.some_chunk) in
    let d : (ci == km_classes) ≡ false = ground (arith, slab) in
    let e : leb (2 ^ 32) size ≡ false = ground (arith, small) in rw (b, d, e) refl

pub kmalloc-class :
    (s : Heap) (size : ℕ)
    → 0 < size
    → kmalloc s size ≡ from_class s (class_from km_classes 0 size) size
unfolding kmalloc
kmalloc-class s size more =
    let a : (size == 0) ≡ false = ground (arith, more) in
    ap
      (λ b. let asked = if b then 1 else size in from_class s (class_from km_classes 0 asked) asked)
      a

-- What stands in the memory after a chunk has been taken.
pub record Taken (s t : Heap) (ci size : ℕ) : Type 0 where
  pub magic : get32 t.mem (magic_at (s.freelist ci - hdr_size)) ≡ hdr_magic_alloc
  pub req : get32 t.mem (req_at (s.freelist ci - hdr_size)) ≡ size
  pub cls : get16 t.mem (cls_at (s.freelist ci - hdr_size)) ≡ ci + 1
  pub canary : get32 t.mem (s.freelist ci + size) ≡ canary_word

pub take_chunk-Taken :
    (s : Heap) (ci size : ℕ)
    → size + 4 < 2 ^ 32
    → size < class_size ci
    → Chunk s ci
    → Taken s (take_chunk s ci size).1 ci size
unfolding take_chunk
take_chunk-Taken s ci size small room c =
    let body = s.freelist ci in
    let h = body - hdr_size in
    let within : ltb size (class_size ci) ≡ true = ground (arith, room) in
    let m1 = put32 s.mem h hdr_magic_alloc in
    let m2 = put32 m1 (h + 4) size in
    let m3 = put32 m2 (body + size) canary_word in
    let m4 = set_bytes m3 body fill_byte size in
    let under : ((i : ℕ) → i < body → m4 i ≡ m2 i) = λ i lt.
      set_bytes-apart m3 body fill_byte size i (inl lt)
      ∙ put32-apart m2 (body + size) canary_word i (inl (omega arith)) in
    rw within (record {
      magic =
          get32-same m4 m2 h (λ i lo hi. under i (omega (arith, c.some_chunk)))
          ∙ get32-same m2 m1 h (λ i lo hi. put32-apart m1 (h + 4) size i (inl hi))
          ∙ put32-get32 s.mem h hdr_magic_alloc (omega arith);
      req =
          get32-same m4 m2 (h + 4) (λ i lo hi. under i (omega (arith, c.some_chunk)))
          ∙ put32-get32 m1 (h + 4) size (omega arith);
      cls =
          get16-same m4 s.mem (h + 8) (λ i lo hi.
            under i (omega (arith, c.some_chunk))
            ∙ put32-apart m1 (h + 4) size i (inr (omega arith))
            ∙ put32-apart s.mem h hdr_magic_alloc i (inr (omega arith)))
          ∙ c.cls;
      canary =
          get32-same m4 m3 (body + size)
            (λ i lo hi. set_bytes-apart m3 body fill_byte size i (inr lo))
          ∙ put32-get32 m2 (body + size) canary_word (omega arith);
    })
