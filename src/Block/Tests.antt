-- ===== src/Block/Tests.antt =====
-- The block layer on a concrete device.
use mobile_phone_os.Prelude.{◌+◌, ◌≡◌, refl, true, false, ◌==◌, arith}
use mobile_phone_os.Block.{
  blk_sector_size, Disk, placed, cache_read_sector, submit_read, submit_write, block_read,
  block_write,
}
use mobile_phone_os.Block.Reads.{ReadBytes, block_read-ReadBytes}
use mobile_phone_os.Block.Fill.{Coherent-But}
use mobile_phone_os.Block.Taken.{sectors}
use mobile_phone_os.Block.Writes.{Wrote, block_write-Taken}
use mobile_phone_os.Block.Failed.{cache_read_sector-spoilt, cache_read_sector-block_write}
use mobile_phone_os.Block.Samples.{Sectors, read_sectors, driver, disk, disk-Coherent}

block_read-ReadBytes_example :
    ReadBytes driver disk
      (block_read driver disk 4 600 (λ i. 0) (λ i. 0)).1
      4
      600
      (λ i. 0)
      (block_read driver disk 4 600 (λ i. 0) (λ i. 0)).2
unfolding block_read submit_read cache_read_sector
block_read-ReadBytes_example =
    block_read-ReadBytes driver disk 4 600 (λ i. 0) (λ i. 0) disk-Coherent (omega arith)
      (omega arith) refl

block_write-Taken_example :
    Wrote driver disk 4 600 (λ i. 9) (block_write driver disk 4 600 (λ i. 9))
block_write-Taken_example =
    block_write-Taken driver disk 4 600 (λ i. 9)
      (Coherent-But driver disk 4 (4 + sectors 600) disk-Coherent) (omega arith) (omega arith)

-- Sector 100 is not there, and has the line of sector 4.
cache_read_sector-spoilt_example :
    cache_read_sector driver (cache_read_sector driver disk 100 (λ i. 0) 0).1 4 (λ i. 0) 0 ≡ (
      true,
      (cache_read_sector driver disk 100 (λ i. 0) 0).1,
      placed (λ i. 0) 0 (read_sectors disk.dev 100 1 (λ i. 4)).1 blk_sector_size,
    )
cache_read_sector-spoilt_example =
    cache_read_sector-spoilt driver disk 100 4 (λ i. 0) (λ i. 0) 0 0 refl refl refl (omega arith)
      refl

-- Sector 99 is the last one there is, and has a line.
abbrev last_cached : Disk Sectors
last_cached = record disk {
  line = λ idx. record { valid = idx == 3; lba = 99; bytes = λ i. 99 };
  capacity_sectors = 101;
}

-- A write of two sectors fails after the first one: the device holds its bytes, the cache does not.
half_written :
    ((block_write driver last_cached 99 1024 (λ i. 9)).0 ≡ false)
    × (((block_write driver last_cached 99 1024 (λ i. 9)).1.dev 99 5 ≡ 9)
        × ((cache_read_sector driver
                (block_write driver last_cached 99 1024 (λ i. 9)).1
                99
                (λ i. 0)
                0).2
              5
            ≡ 99))
unfolding block_write submit_write cache_read_sector
half_written = (refl, (refl, refl))

cache_read_sector-block_write_example :
    ((block_write driver last_cached 99 1024 (λ i. 9)).0 ≡ false)
    × (cache_read_sector driver (block_write driver last_cached 99 1024 (λ i. 9)).1 99 (λ i. 0) 0
        ≡ (
          true,
          (block_write driver last_cached 99 1024 (λ i. 9)).1,
          placed (λ i. 0) 0 (λ i. 99) blk_sector_size,
        ))
cache_read_sector-block_write_example =
    cache_read_sector-block_write driver last_cached 99 2 99 (λ i. 9) (λ i. 0) 0 refl refl
      (omega arith) (omega arith) refl
