-- ===== src/Block.antt =====
-- drivers/block.c: the requests to a device, through a small cache of sectors. A device is what its
-- driver makes of it: the two functions of `struct block_device` are a parameter.
pub mod Coherent
pub mod Chunks
pub mod Reads
pub mod Fill
pub mod Taken
pub mod Loop
pub mod Writes
pub mod Failed
pub mod Samples
mod Tests
use mobile_phone_os.Prelude.{
  ℕ, zero, suc, ◌+◌, ◌-◌, ◌*◌, ◌/◌, ◌%◌, ◌^◌, ◌≤◌, ◌<◌, ◌⊎◌, ◌≡◌, Bool, true, false, not, ◌&&◌,
  ◌||◌, ltb, leb, ◌==◌, if◌then◌else◌, update, add64,
}

abbrev pub blk_sector_size : ℕ
blk_sector_size = 512

abbrev pub cache_entries : ℕ
cache_entries = 16

-- The driver of a device. A read gives whether it succeeded, and the buffer afterwards; a write, the
-- device. `sector` is what the device holds. A read that fails may leave anything in the buffer, and a write
-- that fails anything in the sectors that it was to write.
pub record Driver (D : Type 0) : Type 0 where
  pub sector : D → (lba i : ℕ) → ℕ
  pub read_blocks : D → (lba nsect : ℕ) → (ℕ → ℕ) → Bool × (ℕ → ℕ)
  pub write_blocks : D → (lba nsect : ℕ) → (ℕ → ℕ) → Bool × D
  pub read_gives :
      (d : D) (lba n : ℕ) (buf : ℕ → ℕ) (i : ℕ)
      → (read_blocks d lba n buf).0 ≡ true
      → i < n * blk_sector_size
      → (read_blocks d lba n buf).1 i ≡ sector d (lba + i / blk_sector_size) (i % blk_sector_size)
  pub write_takes :
      (d : D) (lba n : ℕ) (buf : ℕ → ℕ) (x i : ℕ)
      → (write_blocks d lba n buf).0 ≡ true
      → i < blk_sector_size
      → sector (write_blocks d lba n buf).1 x i ≡ (
          if leb lba x && ltb x (lba + n)
          then buf ((x - lba) * blk_sector_size + i)
          else sector d x i)
  pub write_spares :
      (d : D) (lba n : ℕ) (buf : ℕ → ℕ) (x i : ℕ)
      → i < blk_sector_size
      → (x < lba) ⊎ (lba + n ≤ x)
      → sector (write_blocks d lba n buf).1 x i ≡ sector d x i

-- `struct cache_line`
pub record Line : Type 0 where
  pub valid : Bool
  pub lba : ℕ
  pub bytes : ℕ → ℕ

-- A device with its cache.
pub record Disk (D : Type 0) : Type 0 where
  pub dev : D
  pub line : ℕ → Line
  pub capacity_sectors : ℕ
  pub max_sectors : ℕ

-- `n` bytes of `from`, from its beginning, in the buffer from `at` on.
abbrev pub placed : (buf : ℕ → ℕ) (at : ℕ) (from : ℕ → ℕ) (n : ℕ) → ℕ → ℕ
placed buf at from n i = if leb at i && ltb i (at + n) then from (i - at) else buf i

-- The buffer from `at` on.
abbrev pub behind : (ℕ → ℕ) → ℕ → ℕ → ℕ
behind buf at i = buf (at + i)

module _ {D : Type 0} (drv : Driver D) where
  -- `cache_read_sector`: a miss reads straight into the line.
  unfoldable pub cache_read_sector :
      Disk D → (lba : ℕ) → (buf : ℕ → ℕ) → (at : ℕ) → Bool × Disk D × (ℕ → ℕ)
  cache_read_sector c lba buf at =
      let idx = lba % cache_entries in
      let cl = c.line idx in
      let r = drv.read_blocks c.dev lba 1 cl.bytes in
      if cl.valid && cl.lba == lba
      then (true, c, placed buf at cl.bytes blk_sector_size)
      else if r.0
      then (
        true,
        record c { line = update c.line idx (record { valid = true; lba = lba; bytes = r.1 }) },
        placed buf at r.1 blk_sector_size,
      )
      else (false, record c { line = update c.line idx (record cl { bytes = r.1 }) }, buf)

  -- The loop of `block_submit` for a read, with `n` sectors left, into the buffer from `at` on.
  unfoldable pub submit_read :
      ℕ → Disk D → (cur n : ℕ) → (buf : ℕ → ℕ) → (at : ℕ) → Bool × Disk D × (ℕ → ℕ)
  unfolding cache_read_sector
  submit_read zero c cur n buf at = (n == 0, c, buf)
  submit_read (suc fuel) c cur n buf at =
      let chunk = if ltb n c.max_sectors then n else c.max_sectors in
      let one = cache_read_sector c cur buf at in
      let next = submit_read fuel one.1 (add64 cur 1) (n - 1) one.2 (at + blk_sector_size) in
      let r = drv.read_blocks c.dev cur chunk (behind buf at) in
      let buf' = placed buf at r.1 (chunk * blk_sector_size) in
      let rest =
        submit_read fuel c (add64 cur chunk) (n - chunk) buf' (at + chunk * blk_sector_size) in
      if n == 0
      then (true, c, buf)
      else if chunk == 1
      then if one.0 then next else (false, one.1, one.2)
      else if r.0
      then rest
      else (false, c, buf')

  -- `cache_fill_write` for the sectors `cur`, `cur + 1`, … of a chunk, `k` of them.
  unfoldable pub fill_write : ℕ → Disk D → (cur : ℕ) → (from : ℕ → ℕ) → Disk D
  fill_write zero c cur from = c
  fill_write (suc k) c cur from =
      fill_write k
        (record c {
          line =
              update c.line (cur % cache_entries)
                (record { valid = true; lba = cur; bytes = from });
        })
        (add64 cur 1) (behind from blk_sector_size)

  -- The loop of `block_submit` for a write, from the buffer `from` on.
  unfoldable pub submit_write : ℕ → Disk D → (cur n : ℕ) → (from : ℕ → ℕ) → Bool × Disk D
  unfolding fill_write
  submit_write zero c cur n from = (n == 0, c)
  submit_write (suc fuel) c cur n from =
      let chunk = if ltb n c.max_sectors then n else c.max_sectors in
      let w = drv.write_blocks c.dev cur chunk from in
      let rest =
        submit_write fuel (fill_write chunk (record c { dev = w.1 }) cur from) (add64 cur chunk)
          (n - chunk) (behind from (chunk * blk_sector_size)) in
      if n == 0 then (true, c) else if w.0 then rest else (false, record c { dev = w.1 })

  -- `block_read`: whole sectors, and the last one by way of a buffer of its own. Every turn of a loop
  -- moves a sector at least.
  unfoldable pub block_read : Disk D → (lba bytes : ℕ) → (buf sec : ℕ → ℕ) → Bool × Disk D × (ℕ → ℕ)
  unfolding submit_read
  block_read c lba bytes buf sec =
      let whole = bytes / blk_sector_size in
      let tail = bytes % blk_sector_size in
      let sect = whole + (if tail == 0 then 0 else 1) in
      let first = if whole == 0 then (true, c, buf) else submit_read whole c lba whole buf 0 in
      let last = submit_read 1 first.1 (add64 lba whole) 1 sec 0 in
      if (bytes == 0) || ltb c.capacity_sectors (add64 lba sect)
      then (false, c, buf)
      else if not first.0
      then (false, first.1, first.2)
      else if tail == 0
      then (true, first.1, first.2)
      else if not last.0
      then (false, last.1, first.2)
      else (true, last.1, placed first.2 (whole * blk_sector_size) last.2 tail)

  unfoldable pub block_write : Disk D → (lba bytes : ℕ) → (buf : ℕ → ℕ) → Bool × Disk D
  unfolding submit_write
  block_write c lba bytes buf =
      let whole = bytes / blk_sector_size in
      let tail = bytes % blk_sector_size in
      let sect = whole + (if tail == 0 then 0 else 1) in
      let first = if whole == 0 then (true, c) else submit_write whole c lba whole buf in
      let sec = placed (λ i. 0) 0 (behind buf (whole * blk_sector_size)) tail in
      let last = submit_write 1 first.1 (add64 lba whole) 1 sec in
      if (bytes == 0) || ltb c.capacity_sectors (add64 lba sect)
      then (false, c)
      else if not first.0
      then (false, first.1)
      else if tail == 0
      then (true, first.1)
      else last
