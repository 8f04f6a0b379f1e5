-- ===== src/Pmm/Tests.antt =====
-- Four free frames, two of which are neighbours.
use mobile_phone_os.Prelude.{
  ℕ, ◌≡◌, ◌<◌, ◌%◌, ◌+◌, true, refl, some, List, [], ◌∷◌, arith, if◌then◌else◌, ◌==◌,
}
use mobile_phone_os.Pmm.{
  Pmm, page_size, pmm_alloc_contig, pmm_init, align_down, align_up, guarded_end, scan, extend,
  unlink,
}
use mobile_phone_os.Pmm.Frames.{IsFrame, IsValid}
use mobile_phone_os.Task.Queue.{has}
use mobile_phone_os.Pmm.Init.{IsOffered, pmm_init-offers}
use mobile_phone_os.Pmm.Carve.{Outcome}
use mobile_phone_os.Pmm.Run.{pmm_alloc_contig-Carved}

-- The list 4096, 20480, 16384, 32768.
abbrev small : Pmm
small = record {
  mem = λ a.
      if a == 4096 then 20480 else if a == 20480 then 16384 else if a == 16384 then 32768 else 0;
  free_head = 4096;
  total_frames = 8;
  reserved_frames = 0;
  free_frames = 4;
}

abbrev frames : List ℕ
frames = 4096 ∷ 20480 ∷ 16384 ∷ 32768 ∷ []

frame : (pa : ℕ) → 0 < pa → pa % page_size ≡ 0 → pa < 65536 → IsFrame pa
frame pa pos aligned below = record { pos = pos; aligned = aligned; below = omega arith }

small-IsValid : IsValid small frames
small-IsValid = record {
  links = (refl, (refl, (refl, (refl, refl))));
  distinct = (refl, (refl, (refl, (refl, tt))));
  all = (
    frame _ (omega arith) refl (omega arith),
    (
      frame _ (omega arith) refl (omega arith),
      (frame _ (omega arith) refl (omega arith), (frame _ (omega arith) refl (omega arith), tt)),
    ),
  );
  count = refl;
  few = omega arith;
}

-- The two neighbours are found, though they lie in descending order.
contig_two : (m : Pmm) × (pmm_alloc_contig small 2 ≡ some (16384, m))
unfolding pmm_alloc_contig scan extend unlink
contig_two = (_, refl)

pmm_alloc_contig-Carved_example :
    (r : ℕ × Pmm) × (pmm_alloc_contig small 2 ≡ some r) × Outcome small 2 frames r
pmm_alloc_contig-Carved_example =
    pmm_alloc_contig-Carved small 2 (omega arith) (omega arith) frames small-IsValid

abbrev freed : ℕ
freed = 8192

-- A memory of 64 megabytes from 1 GiB on, with an image of three pages.
abbrev base : ℕ
base = 1073741824

abbrev size : ℕ
size = 67108864

pmm_init-offers_example :
    (m' : Pmm) × (list : List ℕ) × (pmm_init base (base + 10000) base size small ≡ some m')
    × IsValid m' list
    × ((x : ℕ)
        → (has x list ≡ true
            → IsOffered
                (align_down base)
                (align_up (base + 10000))
                (align_up base)
                (guarded_end (base + size))
                x)
          × (IsOffered
                (align_down base)
                (align_up (base + 10000))
                (align_up base)
                (guarded_end (base + size))
                x
              → has x list ≡ true))
pmm_init-offers_example =
    pmm_init-offers base (base + 10000) base size small (omega arith) (omega arith) (omega arith)
