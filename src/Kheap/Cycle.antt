-- ===== src/Kheap/Cycle.antt =====
-- A chunk from `kmalloc` to `kfree`.
use mobile_phone_os.Prelude.{
  ℕ, ◌+◌, ◌-◌, ◌/◌, ◌^◌, ◌≤◌, ◌<◌, ◌≡◌, ◌≢◌, ◌⊎◌, inl, inr, refl, ap, ◌∙◌, true, false, leb, ◌==◌,
  arith, update, add64, add32, sub64, some, Bool-cases,
}
use native.Mathlib.Nat.{mod-eq_of_lt}
use mobile_phone_os.AbTable.{get32, put32, put64}
use mobile_phone_os.Kheap.{
  hdr_magic_alloc, hdr_magic_freed, canary_word, poison_byte, hdr_size, km_classes, class_size,
  get16, get64, set_bytes, magic_at, req_at, cls_at, Heap, class_from, take_chunk, kmalloc,
  double_free, buffer_overrun, kfree,
}
use mobile_phone_os.Kheap.Words.{
  put32-apart, put32-get32, get32-same, get16-same, put64-get64, set_bytes-apart,
}
use mobile_phone_os.Kheap.Taken.{
  Chunk, class_from-fits, from_class-take, kmalloc-class, take_chunk-Taken,
}

-- The same heap with another memory.
abbrev pub with_mem : Heap → (ℕ → ℕ) → Heap
with_mem s m = record s { mem = m }

-- The heap `t` after the chunk at the head of the list of `s` was taken and, the memory being `m`, freed.
pub record Restored (s t : Heap) (ci : ℕ) (m : ℕ → ℕ) : Type 0 where
  pub lists : (k : ℕ) → t.freelist k ≡ s.freelist k
  pub current : t.bytes_current ≡ s.bytes_current
  pub link : get64 t.mem (s.freelist ci) ≡ get64 s.mem (s.freelist ci)
  pub cls : get16 t.mem (cls_at (s.freelist ci - hdr_size)) ≡ ci + 1
  pub again : kfree t (s.freelist ci) ≡ inl double_free

-- The heap after both calls.
abbrev given_back : Heap → (ci size : ℕ) → (ℕ → ℕ) → Heap
given_back s ci size m =
    let w = with_mem (take_chunk s ci size).1 m in
    let body = s.freelist ci in
    record w {
      mem =
          put64 (put32 (set_bytes m body poison_byte size) (body - hdr_size) hdr_magic_freed) body
            (w.freelist ci);
      freelist = update w.freelist ci body;
      frees = add64 w.frees 1;
      bytes_current = sub64 w.bytes_current size;
    }

put64-apart : (t : ℕ → ℕ) (off v i : ℕ) → i < off → put64 t off v i ≡ t i
put64-apart t off v i lt =
    put32-apart (put32 t off v) (off + 4) (v / 2 ^ 32) i (inl (omega arith))
    ∙ put32-apart t off v i (inl lt)

updated : (f : ℕ → ℕ) (k v : ℕ) → update f k v k ≡ v
updated f k v = let e : (k == k) ≡ true = ground arith in rw e refl

same_list : (f : ℕ → ℕ) (k v j : ℕ) → update (update f k v) k (f k) j ≡ f j
same_list f k v j = elim (Bool-cases (j == k)) [
  | inl e ↦ rw e (ap f (let q : k ≡ j = ground (arith, e) in q))
  | inr e ↦ rw e refl
]

balance : (b n : ℕ) → b < 2 ^ 64 → n < 2 ^ 64 → sub64 (add64 b n) n ≡ b
balance b n small lt = omega arith

given_back-Restored :
    (s : Heap) (ci size : ℕ) (m : ℕ → ℕ)
    → size + 4 < 2 ^ 32
    → s.bytes_current < 2 ^ 64
    → Chunk s ci
    → get16 m (cls_at (s.freelist ci - hdr_size)) ≡ ci + 1
    → Restored s (given_back s ci size m) ci m
unfolding take_chunk kfree
given_back-Restored s ci size m small count c cls =
    let body = s.freelist ci in
    let h = body - hdr_size in
    let t = given_back s ci size m in
    let m1 = set_bytes m body poison_byte size in
    let m2 = put32 m1 h hdr_magic_freed in
    let chain = (take_chunk s ci size).1.freelist ci in
    let magic : get32 t.mem h ≡ hdr_magic_freed =
      get32-same t.mem m2 h (λ i lo hi. put64-apart m2 body chain i (omega (arith, c.some_chunk)))
      ∙ put32-get32 m1 h hdr_magic_freed (omega arith) in
    let used : (body == 0) ≡ false = ground (arith, c.some_chunk) in
    record {
      lists = same_list s.freelist ci (get64 s.mem body);
      current = balance s.bytes_current size count (omega arith);
      link =
          let held : chain ≡ get64 s.mem body = updated s.freelist ci (get64 s.mem body) in
          put64-get64 m2 body chain (omega (arith, held, c.link)) ∙ held;
      cls =
          get16-same t.mem m (h + 8) (λ i lo hi.
            put64-apart m2 body chain i (omega (arith, c.some_chunk))
            ∙ put32-apart m1 h hdr_magic_freed i (inr (omega arith))
            ∙ set_bytes-apart m body poison_byte size i (inl (omega (arith, c.some_chunk))))
          ∙ cls;
      again = rw (used, magic) refl;
    }

word_differs : (x y : ℕ) → (x == y) ≡ false → x ≢ y
word_differs x y e = ground (arith, e)

word_equal : (x y : ℕ) → (x == y) ≡ true → x ≡ y
word_equal x y e = ground (arith, e)

freed_or_overrun :
    (s : Heap) (ci size : ℕ) (m : ℕ → ℕ)
    → size + 4 < 2 ^ 32
    → size + 4 ≤ class_size ci
    → s.bytes_current < 2 ^ 64
    → Chunk s ci
    → get32 m (magic_at (s.freelist ci - hdr_size)) ≡ hdr_magic_alloc
    → get32 m (req_at (s.freelist ci - hdr_size)) ≡ size
    → get16 m (cls_at (s.freelist ci - hdr_size)) ≡ ci + 1
    → ((get32 m (s.freelist ci + size) ≡ canary_word)
        × ((t : Heap) × ((kfree (with_mem (take_chunk s ci size).1 m) (s.freelist ci) ≡ inr t)
              × Restored s t ci m)))
      ⊎ ((get32 m (s.freelist ci + size) ≢ canary_word)
          × (kfree (with_mem (take_chunk s ci size).1 m) (s.freelist ci) ≡ inl buffer_overrun))
unfolding kfree take_chunk
freed_or_overrun s ci size m small room count c magic req cls =
    let body = s.freelist ci in
    let h = body - hdr_size in
    let used : (body == 0) ≡ false = ground (arith, c.some_chunk) in
    let slab : (ci + 1 == 0) ≡ false = ground arith in
    let back : ci + 1 - 1 ≡ ci = omega arith in
    let wrap : add32 size 4 ≡ size + 4 = mod-eq_of_lt (omega arith) in
    let has_room : leb (size + 4) (class_size ci) ≡ true = ground (arith, room) in
    elim (Bool-cases (get32 m (body + size) == canary_word)) [
      | inl e ↦ inl (
        word_equal (get32 m (body + size)) canary_word e,
        (
          given_back s ci size m,
          (
            rw (used, magic, req, cls, slab, back, wrap, has_room, e) refl,
            given_back-Restored s ci size m small count c cls,
          ),
        ),
      )
      | inr e ↦ inr (
        word_differs (get32 m (body + size)) canary_word e,
        rw (used, magic, req, cls, slab, back, wrap, has_room, e) refl,
      )
    ]

abbrev pub class_of : ℕ → ℕ
class_of size = class_from km_classes 0 size

-- For a size above 0 and below 2^32 - 4 that has a class, where the count of bytes is below 2^64 and the
-- list of that class starts with a chunk whose header names the class and whose link is a word, `kmalloc`
-- takes that chunk and puts the canary behind the allocation. If the memory is then anything that keeps the header, `kfree`
-- finds out by the word behind the allocation: if that is the canary, the chunk goes back, so that every
-- list, the count of bytes, the link and the class are as before and a second `kfree` is a double free; if
-- it is not, the kernel stops with a buffer overrun.
pub kmalloc-kfree :
    (s : Heap) (size : ℕ) (m : ℕ → ℕ)
    → 0 < size
    → size + 4 < 2 ^ 32
    → class_of size < km_classes
    → s.bytes_current < 2 ^ 64
    → Chunk s (class_of size)
    → ((i : ℕ)
        → s.freelist (class_of size) - hdr_size ≤ i
        → i < s.freelist (class_of size)
        → m i ≡ (take_chunk s (class_of size) size).1.mem i)
    → (kmalloc s size ≡ some (s.freelist (class_of size), (take_chunk s (class_of size) size).1))
      × ((get32 (take_chunk s (class_of size) size).1.mem (s.freelist (class_of size) + size)
            ≡ canary_word)
          × (((get32 m (s.freelist (class_of size) + size) ≡ canary_word)
                × ((t : Heap) × ((kfree
                          (with_mem (take_chunk s (class_of size) size).1 m)
                          (s.freelist (class_of size))
                        ≡ inr t)
                      × Restored s t (class_of size) m)))
              ⊎ ((get32 m (s.freelist (class_of size) + size) ≢ canary_word)
                  × (kfree
                        (with_mem (take_chunk s (class_of size) size).1 m)
                        (s.freelist (class_of size))
                      ≡ inl buffer_overrun))))
unfolding take_chunk
kmalloc-kfree s size m more small slab count c kept =
    let ci = class_of size in
    let fits : add64 size 4 ≤ class_size ci = class_from-fits km_classes 0 size slab in
    let plain : add64 size 4 ≡ size + 4 = mod-eq_of_lt (omega arith) in
    let room : size + 4 ≤ class_size ci = rw plain at fits in
    let t = take_chunk-Taken s ci size small (omega (arith, room)) c in
    let a = (take_chunk s ci size).1.mem in
    let h = s.freelist ci - hdr_size in
    (
      kmalloc-class s size more ∙ from_class-take s ci size small slab c,
      (
        t.canary,
        freed_or_overrun s ci size m small room count c
            (get32-same m a h (λ i lo hi. kept i lo (omega (arith, c.some_chunk))) ∙ t.magic)
            (get32-same m a (h + 4) (λ i lo hi. kept i (omega arith) (omega (arith, c.some_chunk)))
              ∙ t.req)
            (get16-same m a (h + 8) (λ i lo hi. kept i (omega arith) (omega (arith, c.some_chunk)))
              ∙ t.cls),
      ),
    )
