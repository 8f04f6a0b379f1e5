-- ===== src/Block/Samples.antt =====
-- A device of a hundred sectors. A read beyond the end leaves sevens in the buffer; a write that goes
-- beyond the end takes the first sector and fails.
use mobile_phone_os.Prelude.{
  ℕ, ◌+◌, ◌-◌, ◌*◌, ◌/◌, ◌%◌, ◌<◌, ◌≤◌, ◌≡◌, ◌⊎◌, inl, inr, refl, Bool, true, false, ◌&&◌, ltb, leb,
  ◌==◌, if◌then◌else◌, arith, Bool-cases,
}
use mobile_phone_os.Block.{Driver, Disk, blk_sector_size}
use mobile_phone_os.Block.Coherent.{Coherent}

abbrev pub Sectors : Type 0
Sectors = ℕ → ℕ → ℕ

abbrev fits : (lba n : ℕ) → Bool
fits lba n = leb (lba + n) 100

abbrev pub read_sectors : Sectors → (lba nsect : ℕ) → (ℕ → ℕ) → Bool × (ℕ → ℕ)
read_sectors d lba n buf =
    if fits lba n
    then (true, λ i. d (lba + i / blk_sector_size) (i % blk_sector_size))
    else (false, λ i. 7)

abbrev write_sectors : Sectors → (lba nsect : ℕ) → (ℕ → ℕ) → Bool × Sectors
write_sectors d lba n buf =
    if fits lba n
    then (
      true,
      λ x i. if leb lba x && ltb x (lba + n) then buf ((x - lba) * blk_sector_size + i) else d x i,
    )
    else (false, λ x i. if (x == lba) && ltb x (lba + n) then buf i else d x i)

pub read_sectors-gives :
    (d : Sectors) (lba n : ℕ) (buf : ℕ → ℕ) (i : ℕ)
    → (read_sectors d lba n buf).0 ≡ true
    → i < n * blk_sector_size
    → (read_sectors d lba n buf).1 i ≡ d (lba + i / blk_sector_size) (i % blk_sector_size)
read_sectors-gives d lba n buf i e lt = elim (Bool-cases (fits lba n)) [
  | inl ok ↦ rw ok refl
  | inr bad ↦ absurd (cc (rw bad at e))
]

pub write_sectors-takes :
    (d : Sectors) (lba n : ℕ) (buf : ℕ → ℕ) (x i : ℕ)
    → (write_sectors d lba n buf).0 ≡ true
    → i < blk_sector_size
    → (write_sectors d lba n buf).1 x i
      ≡ (if leb lba x && ltb x (lba + n) then buf ((x - lba) * blk_sector_size + i) else d x i)
write_sectors-takes d lba n buf x i e lt = elim (Bool-cases (fits lba n)) [
  | inl ok ↦ rw ok refl
  | inr bad ↦ absurd (cc (rw bad at e))
]

pub write_sectors-spares :
    (d : Sectors) (lba n : ℕ) (buf : ℕ → ℕ) (x i : ℕ)
    → i < blk_sector_size
    → (x < lba) ⊎ (lba + n ≤ x)
    → (write_sectors d lba n buf).1 x i ≡ d x i
write_sectors-spares d lba n buf x i lt out =
    let off : (leb lba x && ltb x (lba + n)) ≡ false = elim out [
      | inl o ↦ ground (arith, o)
      | inr o ↦ ground (arith, o)
    ] in
    let off' : ((x == lba) && ltb x (lba + n)) ≡ false = elim out [
      | inl o ↦ ground (arith, o)
      | inr o ↦ ground (arith, o)
    ] in
    elim (Bool-cases (fits lba n)) [ inl ok ↦ rw (ok, off) refl | inr bad ↦ rw (bad, off') refl ]

abbrev pub driver : Driver Sectors
driver = record {
  sector = λ d. d;
  read_blocks = read_sectors;
  write_blocks = write_sectors;
  read_gives = read_sectors-gives;
  write_takes = write_sectors-takes;
  write_spares = write_sectors-spares;
}

-- Sector 4 is cached.
abbrev pub disk : Disk Sectors
disk = record {
  dev = λ x i. x;
  line = λ idx. record { valid = idx == 4; lba = 4; bytes = λ i. 4 };
  capacity_sectors = 100;
  max_sectors = 8;
}

pub disk-Coherent : Coherent driver disk
disk-Coherent idx v = record { own = ground (arith, v); same = λ i lt. refl }
