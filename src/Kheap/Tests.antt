-- ===== src/Kheap/Tests.antt =====
-- The allocator with one chunk of 32 bytes, and with one free frame.
use mobile_phone_os.Prelude.{
  ℕ, ◌+◌, ◌*◌, ◌%◌, ◌<◌, ◌≡◌, ◌≢◌, ◌⊎◌, inl, inr, refl, true, ◌==◌, if◌then◌else◌, arith, some, ltb,
}
use mobile_phone_os.AbTable.{get32}
use mobile_phone_os.Pmm.{page_size, pmm_alloc_contig}
use mobile_phone_os.Kheap.{
  Heap, hdr_size, canary_word, buffer_overrun, put16, class_from, take_chunk, kmalloc, kfree,
  take_span,
}
use mobile_phone_os.Kheap.Taken.{Chunk}
use mobile_phone_os.Kheap.Cycle.{Restored, with_mem, class_of, kmalloc-kfree}
use mobile_phone_os.Kheap.Span.{pages_for, Inside, take_span-Inside}

abbrev chunks : ℕ → ℕ
chunks = put16 (λ i. 0) (0x9000_0000 + 8) 2

abbrev heap : Heap
heap = record {
  pmm = record {
    mem = λ i. 0;
    free_head = 0x9100_0000;
    total_frames = 16;
    reserved_frames = 0;
    free_frames = 1;
  };
  mem = chunks;
  freelist = λ k. if k == 1 then 0x9000_0010 else 0;
  allocs = 0;
  frees = 0;
  bytes_current = 0;
  bytes_peak = 0;
  recent = λ k. (0, 0);
  recent_idx = 0;
}

heap-Chunk : Chunk heap (class_of 20)
unfolding class_from
heap-Chunk = record { some_chunk = omega arith; cls = refl; link = omega arith }

-- The owner of the chunk has written one byte too many.
abbrev overrun : ℕ → ℕ
overrun i = if ltb i 0x9000_0010 then (take_chunk heap (class_of 20) 20).1.mem i else 1

overrun-keeps : (i : ℕ) → i < 0x9000_0010 → overrun i ≡ (take_chunk heap (class_of 20) 20).1.mem i
overrun-keeps i lt = let e : ltb i 0x9000_0010 ≡ true = ground (arith, lt) in rw e refl

kmalloc-kfree_example :
    (kmalloc heap 20 ≡ some (heap.freelist (class_of 20), (take_chunk heap (class_of 20) 20).1))
    × ((get32 (take_chunk heap (class_of 20) 20).1.mem (heap.freelist (class_of 20) + 20)
          ≡ canary_word)
        × (((get32 overrun (heap.freelist (class_of 20) + 20) ≡ canary_word)
              × ((t : Heap) × ((kfree
                        (with_mem (take_chunk heap (class_of 20) 20).1 overrun)
                        (heap.freelist (class_of 20))
                      ≡ inr t)
                    × Restored heap t (class_of 20) overrun)))
            ⊎ ((get32 overrun (heap.freelist (class_of 20) + 20) ≢ canary_word)
                × (kfree
                      (with_mem (take_chunk heap (class_of 20) 20).1 overrun)
                      (heap.freelist (class_of 20))
                    ≡ inl buffer_overrun))))
unfolding class_from
kmalloc-kfree_example =
    kmalloc-kfree heap 20 overrun (omega arith) (omega arith) (omega arith) (omega arith) heap-Chunk
      (λ i lo hi. overrun-keeps i hi)

-- An allocation that fills its page with the header.
take_span-Inside_example :
    (t : Heap) × ((take_span heap 4080 ≡ some (0x9100_0000 + hdr_size, t))
      × ((((4080 + hdr_size) % page_size ≢ 0) × Inside heap t 0x9100_0000 4080)
          ⊎ (((4080 + hdr_size) % page_size ≡ 0)
              × (get32 t.mem (0x9100_0000 + pages_for 4080 * page_size) ≡ canary_word))))
unfolding pmm_alloc_contig
take_span-Inside_example = take_span-Inside heap 4080 0x9100_0000 _ (omega arith) (omega arith) refl
