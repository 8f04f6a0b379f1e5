-- ===== src/Elf/Tests.antt =====
-- The loader on a small image, with one page to load.
use mobile_phone_os.Prelude.{ℕ, ◌+◌, ◌/◌, ◌≡◌, refl, ◌==◌, if◌then◌else◌, arith, some}
use mobile_phone_os.Pmm.{Pmm, pmm_alloc}
use mobile_phone_os.Vmm.{vmm_map_at}
use mobile_phone_os.Vmm.Samples.{tables, code_base}
use mobile_phone_os.Elf.{
  Phdr, fill_page, elf_load, load_segments, load_segment, load_pages, reject_dynamic, get_phdr,
  ehdr, field,
}
use mobile_phone_os.Elf.Page.{filled, fill_page-filled}
use mobile_phone_os.Elf.Load.{Sound, elf_load-Sound}

-- A header of the image with its one program header, and nines for its file bytes.
abbrev image : ℕ → ℕ
image i =
    if i == 0
    then 0x7f
    else if i == 1
    then 69
    else if i == 2
    then 76
    else if i == 3
    then 70
    else if i == 4
    then 2
    else if i == 5
    then 1
    else if i == 16
    then 2
    else if i == 18
    then 183
    else if i == 25
    then 16
    else if i == 29
    then 1
    else if i == 32
    then 64
    else if i == 54
    then 56
    else if i == 56
    then 1
    else if i == 64
    then 1
    else if i == 68
    then 5
    else if i == 72
    then 120
    else if i == 81
    then 16
    else if i == 85
    then 1
    else if i == 96
    then 16
    else if i == 104
    then 32
    else if i / 16 == 7
    then 9
    else 0

abbrev memory : Pmm
memory = record {
  mem = tables;
  free_head = 0x9000_0000;
  total_frames = 16;
  reserved_frames = 0;
  free_frames = 1;
}

-- The second page of a segment whose bytes of the file end in the first page.
abbrev segment : Phdr
segment = record {
  p_type = 1;
  p_flags = 6;
  p_offset = 120;
  p_vaddr = code_base;
  p_filesz = 4000;
  p_memsz = 8192;
}

fill_page-filled_example :
    fill_page (λ a. 7) image segment (code_base + 4096) 0x9000_0000 0x8fff_fff0
    ≡ filled (λ a. 7) image segment (code_base + 4096) 0x9000_0000 0x8fff_fff0
fill_page-filled_example =
    fill_page-filled (λ a. 7) image segment (code_base + 4096) 0x9000_0000 (omega arith)
      (omega arith) (omega arith) (omega arith) (omega arith) (omega arith) 0x8fff_fff0

-- The byte before the frame that is filled has become zero.
fill_page-spilt : fill_page (λ a. 7) image segment (code_base + 4096) 0x9000_0000 0x8fff_fff0 ≡ 0
unfolding fill_page
fill_page-spilt = refl

elf_load-Sound_example :
    (entry : ℕ) × ((brk : ℕ) × (((elf_load memory (λ a. 0) image 136 4096).1.0 ≡ some (entry, brk))
        × Sound image 136 entry brk))
unfolding elf_load load_segments load_segment load_pages reject_dynamic get_phdr ehdr field
    pmm_alloc vmm_map_at
elf_load-Sound_example = elf_load-Sound memory (λ a. 0) image 136 4096 refl
