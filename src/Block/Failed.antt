-- ===== src/Block/Failed.antt =====
-- Reads and writes that fail, and what the cache says afterwards.
use mobile_phone_os.Prelude.{
  ℕ, zero, suc, ◌+◌, ◌*◌, ◌/◌, ◌%◌, ◌≤◌, ◌<◌, ◌≡◌, ◌≢◌, inl, inr, refl, sym, subst, ap, ◌∙◌, Bool,
  true, false, ◌&&◌, ◌||◌, ltb, ◌==◌, if◌then◌else◌, update, arith, Bool-cases, add64,
}
use mobile_phone_os.Block.{
  blk_sector_size, cache_entries, Driver, Line, Disk, placed, cache_read_sector, submit_write,
  block_write,
}

module _ {D : Type 0} (drv : Driver D) where
  -- The line of `x` once a read into it has failed.
  abbrev pub spoilt : Disk D → ℕ → Line
  spoilt c x = record (c.line (x % cache_entries)) {
    bytes = (drv.read_blocks c.dev x 1 (c.line (x % cache_entries)).bytes).1;
  }

  missed :
      (c : Disk D) (x y : ℕ) (buf : ℕ → ℕ) (at : ℕ)
      → (c.line (x % cache_entries)).lba ≡ y
      → x ≢ y
      → (drv.read_blocks c.dev x 1 (c.line (x % cache_entries)).bytes).0 ≡ false
      → cache_read_sector drv c x buf at
        ≡ (false, record c { line = update c.line (x % cache_entries) (spoilt c x) }, buf)
  unfolding cache_read_sector
  missed c x y buf at own ne bad =
      let miss : ((c.line (x % cache_entries)).valid && (c.line (x % cache_entries)).lba == x)
          ≡ false =
        ground (arith, own, ne) in
      rw (miss, bad) refl

  hit :
      (c : Disk D) (y : ℕ) (bytes buf : ℕ → ℕ) (at : ℕ)
      → (c.line (y % cache_entries)).valid ≡ true
      → (c.line (y % cache_entries)).lba ≡ y
      → (c.line (y % cache_entries)).bytes ≡ bytes
      → cache_read_sector drv c y buf at ≡ (true, c, placed buf at bytes blk_sector_size)
  unfolding cache_read_sector
  hit c y bytes buf at v own e =
      let found : ((c.line (y % cache_entries)).valid && (c.line (y % cache_entries)).lba == y)
          ≡ true =
        ground (arith, v, own) in
      rw found (ap (λ b. (true, c, placed buf at b blk_sector_size)) e)

  -- Where a sector `y` is cached and a read of another sector `x` fails that has the same line, the
  -- line stays valid: the next read of `y` succeeds without the device, and gives whatever the failed
  -- read has left in the line.
  pub cache_read_sector-spoilt :
      (c : Disk D) (x y : ℕ) (buf buf' : ℕ → ℕ) (at at' : ℕ)
      → (c.line (x % cache_entries)).valid ≡ true
      → (c.line (x % cache_entries)).lba ≡ y
      → y % cache_entries ≡ x % cache_entries
      → x ≢ y
      → (drv.read_blocks c.dev x 1 (c.line (x % cache_entries)).bytes).0 ≡ false
      → cache_read_sector drv (cache_read_sector drv c x buf at).1 y buf' at' ≡ (
        true,
        (cache_read_sector drv c x buf at).1,
        placed buf' at'
            (drv.read_blocks c.dev x 1 (c.line (x % cache_entries)).bytes).1
            blk_sector_size,
      )
  cache_read_sector-spoilt c x y buf buf' at at' v own same ne bad =
      let line : update c.line (x % cache_entries) (spoilt c x) (y % cache_entries) ≡ spoilt c x =
        ground (arith, same) in
      rw (missed c x y buf at own ne bad) (
        hit (record c { line = update c.line (x % cache_entries) (spoilt c x) }) y
          (drv.read_blocks c.dev x 1 (c.line (x % cache_entries)).bytes).1 buf' at'
          (ap (λ (l : Line). l.valid) line ∙ v) (ap (λ (l : Line). l.lba) line ∙ own)
          (ap (λ (l : Line). l.bytes) line))

  submit_write_failed :
      (n : ℕ) (c : Disk D) (x : ℕ) (buf : ℕ → ℕ)
      → 0 < n
      → n ≤ c.max_sectors
      → (drv.write_blocks c.dev x n buf).0 ≡ false
      → submit_write drv n c x n buf
        ≡ (false, record c { dev = (drv.write_blocks c.dev x n buf).1 })
  unfolding submit_write
  submit_write_failed zero c x buf some_left le bad = absurd (omega (arith, some_left))
  submit_write_failed (suc k) c x buf some_left le bad =
      let all : (if ltb (suc k) c.max_sectors then suc k else c.max_sectors) ≡ suc k =
        ground (arith, le) in
      let some_here : (suc k == 0) ≡ false = ground arith in rw (some_here, all, bad) refl

  -- Where a sector `y` is cached and the driver fails to write the `n` sectors from `x` on, which it was
  -- asked to write in one transfer, `block_write` fails and the cache is as before: the next read of `y`
  -- succeeds without the device, and gives the bytes that were cached, whatever the driver has left on the
  -- device.
  pub cache_read_sector-block_write :
      (c : Disk D) (x n y : ℕ) (buf buf' : ℕ → ℕ) (at : ℕ)
      → (c.line (y % cache_entries)).valid ≡ true
      → (c.line (y % cache_entries)).lba ≡ y
      → 0 < n
      → n ≤ c.max_sectors
      → (drv.write_blocks c.dev x n buf).0 ≡ false
      → ((block_write drv c x (n * blk_sector_size) buf).0 ≡ false)
        × (cache_read_sector drv (block_write drv c x (n * blk_sector_size) buf).1 y buf' at ≡ (
          true,
          (block_write drv c x (n * blk_sector_size) buf).1,
          placed buf' at (c.line (y % cache_entries)).bytes blk_sector_size,
        ))
  unfolding block_write
  cache_read_sector-block_write c x n y buf buf' at v own some_left le bad =
      let bytes = n * blk_sector_size in
      let c' = record c { dev = (drv.write_blocks c.dev x n buf).1 } in
      let whole : bytes / blk_sector_size ≡ n = omega arith in
      let some_whole : (n == 0) ≡ false = ground (arith, some_left) in
      let goal : Bool × Disk D → Type 0 = λ w.
        (w.0 ≡ false)
        × (cache_read_sector drv w.1 y buf' at
            ≡ (true, w.1, placed buf' at (c.line (y % cache_entries)).bytes blk_sector_size)) in
      elim (Bool-cases (
        (bytes == 0)
        || ltb c.capacity_sectors (
            add64 x (bytes / blk_sector_size + (if bytes % blk_sector_size == 0 then 0 else 1))))) [
              | inl beyond ↦
                  let run : block_write drv c x bytes buf ≡ (false, c) = rw beyond refl in
                  subst goal (sym run)
                    (refl, hit c y (c.line (y % cache_entries)).bytes buf' at v own refl)
              | inr good ↦
                  let run : block_write drv c x bytes buf ≡ (false, c') =
                    rw (good, whole, some_whole, submit_write_failed n c x buf some_left le bad)
                      refl in
                  subst goal (sym run)
                    (refl, hit c' y (c.line (y % cache_entries)).bytes buf' at v own refl)
            ]
