-- ===== src/Pmm.antt =====
-- mm/pmm.c: the allocator of physical frames. The free frames are a list threaded through the first
-- word of each; a frame is its address, and 0 is no frame.
pub mod Links
pub mod Frames
pub mod Contig
pub mod Carve
pub mod Longest
pub mod Run
pub mod Init
mod Tests
use mobile_phone_os.Prelude.{
  ℕ, zero, suc, ◌+◌, ◌-◌, ◌*◌, ◌%◌, ◌^◌, Bool, not, ◌||◌, Option, none, some, ◌==◌, if◌then◌else◌,
  update, add64, sub64, ◌&&◌, leb, ltb, ◌/◌,
}

abbrev pub page_size : ℕ
page_size = 4096

-- The first words of the frames, the head of the list, and `struct pmm_stats`.
pub record Pmm : Type 0 where
  pub mem : ℕ → ℕ
  pub free_head : ℕ
  pub total_frames : ℕ
  pub reserved_frames : ℕ
  pub free_frames : ℕ

-- `pmm_alloc`: a misaligned head empties the list.
unfoldable pub pmm_alloc : Pmm → ℕ × Pmm
pmm_alloc m =
    if m.free_head == 0
    then (0, m)
    else if m.free_head % page_size == 0
    then (
      m.free_head,
      record m { free_head = m.mem m.free_head; free_frames = sub64 m.free_frames 1 },
    )
    else (0, record m { free_head = 0; free_frames = 0 })

-- `pmm_free`: 0 and misaligned addresses are ignored.
unfoldable pub pmm_free : Pmm → ℕ → Pmm
pmm_free m pa = if (pa == 0) || not (pa % page_size == 0) then m else record m {
  mem = update m.mem pa m.free_head;
  free_head = pa;
  free_frames = add64 m.free_frames 1;
}

-- `dir`: 0, +1 and -1.
pub data Dir : Type 0 where
  unknown up down : Dir

-- The variables of the loop of `pmm_alloc_contig`.
pub record Scan : Type 0 where
  pub prev : ℕ
  pub pa : ℕ
  pub run : ℕ
  pub run_start : ℕ
  pub run_prev : ℕ
  pub dir : Dir

-- A new run begins at the node at hand.
abbrev pub restart : Scan → Scan
restart s = record s { run = 1; run_start = s.pa; run_prev = s.prev; dir = unknown }

abbrev grow : Scan → Dir → ℕ → Scan
grow s d n = record s { run = n; dir = d }

-- The part of one turn that extends the current run or begins a new one.
pub extend : Scan → Scan
extend s = if s.run == 0 then restart s else elim s.dir [
  | unknown ↦
      if s.pa == add64 s.run_start page_size
      then grow s up 2
      else if s.pa == sub64 s.run_start page_size
      then grow s down 2
      else restart s
  | up ↦ if s.pa == add64 s.run_start (s.run * page_size) then grow s up (s.run + 1) else restart s
  | down ↦
      if s.pa == sub64 s.run_start (s.run * page_size) then grow s down (s.run + 1) else restart s
]

-- The low address of the run found.
abbrev pub low : Dir → ℕ → ℕ → ℕ
low up start npages = start
low unknown start npages = sub64 start ((npages - 1) * page_size)
low down start npages = sub64 start ((npages - 1) * page_size)

-- The run goes out of the list; `next` is the node behind it.
pub unlink : Pmm → Scan → (npages next : ℕ) → Pmm
unlink m s npages next =
    if s.run_prev == 0
    then record m { free_head = next; free_frames = sub64 m.free_frames npages }
    else record m { mem = update m.mem s.run_prev next; free_frames = sub64 m.free_frames npages }

-- The loop; `none` means that the fuel ran out.
pub scan : ℕ → (npages : ℕ) → Pmm → Scan → Option (ℕ × Pmm)
unfolding extend unlink
scan zero npages m s = if s.pa == 0 then some (0, m) else none
scan (suc fuel) npages m s =
    let next = m.mem s.pa in
    let s' = extend s in
    let rest = scan fuel npages m (record s' { prev = s.pa; pa = next }) in
    if s.pa == 0
    then some (0, m)
    else if s'.run == npages
    then some (low s'.dir s'.run_start npages, unlink m s' npages next)
    else rest

-- `pmm_alloc_contig`, with a turn for each free frame.
unfoldable pub pmm_alloc_contig : Pmm → ℕ → Option (ℕ × Pmm)
unfolding scan
pmm_alloc_contig m npages =
    if npages == 0
    then some (0, m)
    else scan m.free_frames npages m
        (record { prev = 0; pa = m.free_head; run = 0; run_start = 0; run_prev = 0; dir = unknown })

abbrev pub align_down : ℕ → ℕ
align_down x = x - x % page_size

abbrev pub align_up : ℕ → ℕ
align_up x = align_down (x + page_size - 1)

-- `MiB(2)`
abbrev top_guard : ℕ
top_guard = 2 * 1024 * 1024

-- One frame of memory is counted, and put on the list unless it belongs to the kernel's image.
unfoldable pub init_frame : (img_start img_end : ℕ) → Pmm → ℕ → Pmm
init_frame img_start img_end m pa =
    if leb img_start pa && ltb pa img_end
    then record m { reserved_frames = add64 m.reserved_frames 1 }
    else record m {
      mem = update m.mem pa m.free_head;
      free_head = pa;
      total_frames = add64 m.total_frames 1;
      free_frames = add64 m.free_frames 1;
    }

-- The loop of `pmm_init`; `none` means that the fuel ran out.
pub init_loop : ℕ → (img_start img_end ram_end : ℕ) → Pmm → ℕ → Option Pmm
unfolding init_frame
init_loop zero img_start img_end ram_end m pa = if ltb pa ram_end then none else some m
init_loop (suc fuel) img_start img_end ram_end m pa =
    let rest =
      init_loop fuel img_start img_end ram_end (init_frame img_start img_end m pa)
        (add64 pa page_size) in
    if ltb pa ram_end then rest else some m

-- The end of the memory that is handed out.
abbrev pub guarded_end : ℕ → ℕ
guarded_end ram_end = if ltb top_guard ram_end then ram_end - top_guard else ram_end

-- `pmm_init`, with the addresses `_start` and `_end` of the image, and a turn for each page.
pub pmm_init : (start end ram_base ram_size : ℕ) → Pmm → Option Pmm
unfolding init_loop
pmm_init start end ram_base ram_size m =
    let m' = record m { free_head = 0; total_frames = 0; reserved_frames = 0; free_frames = 0 } in
    if ram_size == 0
    then some m'
    else init_loop (ram_size / page_size + 1) (align_down start) (align_up end)
        (guarded_end (add64 ram_base ram_size)) m' (align_up ram_base)
