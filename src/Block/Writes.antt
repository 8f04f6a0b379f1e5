-- ===== src/Block/Writes.antt =====
-- `block_write`: what it makes of the device and of the cache, whether it succeeds or not.
use mobile_phone_os.Prelude.{
  ℕ, ◌+◌, ◌*◌, ◌/◌, ◌%◌, ◌^◌, ◌≤◌, ◌<◌, ◌≡◌, ◌⊎◌, inl, inr, refl, sym, ap, ◌∙◌, Bool, true, false,
  ◌||◌, ltb, ◌==◌, if◌then◌else◌, arith, subst, Bool-cases, add64,
}
use native.Mathlib.Nat.{mod-eq_of_lt}
use mobile_phone_os.Block.{blk_sector_size, Driver, Disk, placed, behind, submit_write, block_write}
use mobile_phone_os.Block.Coherent.{Coherent}
use mobile_phone_os.Block.Fill.{CoherentBut, CoherentBut-Coherent, CoherentBut-wider}
use mobile_phone_os.Block.Taken.{
  sectors, padded, Taken, Spared, Spared-append, Spared-wider, Taken-whole, Taken-tail,
}
use mobile_phone_os.Block.Loop.{
  WritesTo, submit_write-WritesTo, whole_part, whole_part-WritesTo, submit_write-max_sectors,
}

module _ {D : Type 0} (drv : Driver D) where
  -- What comes of a write of `bytes` bytes: it has put its bytes, filled up by zeros to whole sectors, on the
  -- device, and the cache is true; or it has failed, and the sectors that it was to write may be anything.
  abbrev pub Wrote : (c : Disk D) (lba bytes : ℕ) → (ℕ → ℕ) → Bool × Disk D → Type 0
  Wrote c lba bytes buf r =
      ((r.0 ≡ true)
        × (Coherent drv r.1 × Taken drv c.dev r.1.dev lba (sectors bytes) (padded bytes buf)))
      ⊎ ((r.0 ≡ false)
          × (CoherentBut drv r.1 lba (lba + sectors bytes)
              × Spared drv c.dev r.1.dev lba (lba + sectors bytes)))

  -- A write of less than a sector, behind the whole ones.
  write_tail-Wrote :
      (c c1 : Disk D) (lba whole tail bytes : ℕ) (buf : ℕ → ℕ)
      → bytes ≡ whole * blk_sector_size + tail
      → tail < blk_sector_size
      → whole + 1 ≡ sectors bytes
      → 0 < c1.max_sectors
      → lba + whole + 1 < 2 ^ 64
      → CoherentBut drv c1 (lba + whole) (lba + sectors bytes)
      → Spared drv c.dev c1.dev lba (lba + whole)
      → Taken drv c.dev c1.dev lba whole buf
      → Wrote c lba bytes buf (
          submit_write drv 1 c1
            (lba + whole)
            1
            (placed (λ i. 0) 0 (behind buf (whole * blk_sector_size)) tail))
  write_tail-Wrote c c1 lba whole tail bytes buf cut short same room fits h u t =
      let sec = placed (λ i. 0) 0 (behind buf (whole * blk_sector_size)) tail in
      let last = submit_write drv 1 c1 (lba + whole) 1 sec in
      let end : lba + whole + 1 ≡ lba + sectors bytes = omega (arith, same) in
      let s : WritesTo drv c1 last.1 (lba + whole) 1 (lba + sectors bytes) sec last.0 =
        submit_write-WritesTo drv 1 c1 (lba + whole) 1 (lba + sectors bytes) sec h room
          (omega arith) (omega (arith, end)) fits in
      elim (Bool-cases last.0) [
        | inl ok ↦ inl (
          ok,
          (
            CoherentBut-Coherent drv last.1 (lba + sectors bytes)
                (subst (λ x. CoherentBut drv last.1 x (lba + sectors bytes)) end (s.rest ok)),
            Taken-tail drv c.dev c1.dev last.1.dev lba whole tail bytes (sectors bytes) buf cut
                short same t (s.taken ok),
          ),
        )
        | inr bad ↦ inr (
          bad,
          (
            CoherentBut-wider drv last.1 lba (lba + whole) (lba + sectors bytes) (omega arith)
                s.but,
            Spared-append drv c.dev c1.dev last.1.dev lba (lba + whole) (lba + sectors bytes)
                (omega arith) (omega (arith, end)) u
                (subst (λ x. Spared drv c1.dev last.1.dev (lba + whole) x) end s.spared),
          ),
        )
      ]

  -- Where the cache tells the truth, possibly but for the sectors that are to be written: a write that
  -- succeeds has put its bytes, filled up by zeros to whole sectors, on the device, has changed no other
  -- sector, and the cache tells the truth; a write that fails has changed none but the sectors that it
  -- was to write, and the cache tells the truth but for these.
  pub block_write-Taken :
      (c : Disk D) (lba bytes : ℕ) (buf : ℕ → ℕ)
      → CoherentBut drv c lba (lba + sectors bytes)
      → 0 < c.max_sectors
      → lba + bytes / blk_sector_size + 1 < 2 ^ 64
      → Wrote c lba bytes buf (block_write drv c lba bytes buf)
  unfolding block_write
  block_write-Taken c lba bytes buf h room fits =
      let whole = bytes / blk_sector_size in
      let tail = bytes % blk_sector_size in
      let first = whole_part drv c lba whole buf in
      let near : lba + whole ≤ lba + sectors bytes = omega arith in
      let r : WritesTo drv c first.1 lba whole (lba + sectors bytes) buf first.0 =
        whole_part-WritesTo drv c lba whole (lba + sectors bytes) buf h room near (omega arith) in
      let goal : Bool × Disk D → Type 0 = Wrote c lba bytes buf in
      elim (Bool-cases (
        (bytes == 0)
        || ltb c.capacity_sectors (add64 lba (whole + (if tail == 0 then 0 else 1))))) [
          | inl bad ↦
              let run : block_write drv c lba bytes buf ≡ (false, c) = rw bad refl in
              subst goal (sym run) (inr (refl, (h, λ x i it o. refl)))
          | inr good ↦ elim (Bool-cases first.0) [
            | inl ok ↦ elim (Bool-cases (tail == 0)) [
              | inl z ↦
                  let all : whole ≡ sectors bytes = ground (arith, z) in
                  let run : block_write drv c lba bytes buf ≡ (true, first.1) =
                    rw (good, ok, z) refl in
                  subst goal (sym run) (
                    inl (
                      refl,
                      (
                        CoherentBut-Coherent drv first.1 (lba + sectors bytes) (
                            subst (λ x. CoherentBut drv first.1 x (lba + sectors bytes))
                              (ap (λ x. lba + x) all) (r.rest ok)),
                        Taken-whole drv c.dev first.1.dev lba whole bytes (sectors bytes) buf
                            (ground (arith, z)) all (r.taken ok),
                      ),
                    ))
              | inr nz ↦
                  let step : add64 lba whole ≡ lba + whole = mod-eq_of_lt (omega arith) in
                  let last =
                    submit_write drv 1 first.1 (lba + whole) 1
                      (placed (λ i. 0) 0 (behind buf (whole * blk_sector_size)) tail) in
                  let run : block_write drv c lba bytes buf ≡ last = rw (good, ok, nz, step) refl in
                  subst goal (sym run) (
                    write_tail-Wrote c first.1 lba whole tail bytes buf (omega arith) (omega arith)
                      (ground (arith, nz)) (omega (arith, r.limit)) (omega arith) (r.rest ok)
                      r.spared (r.taken ok))
            ]
            | inr bad ↦
                let run : block_write drv c lba bytes buf ≡ (false, first.1) =
                  rw (good, bad) refl in
                subst goal (sym run) (
                  inr (
                    refl,
                    (
                      r.but,
                      Spared-wider drv c.dev first.1.dev lba (lba + whole) lba (lba + sectors bytes)
                          (omega arith) near r.spared,
                    ),
                  ))
          ]
        ]

  -- The size of a transfer is not changed.
  pub block_write-max_sectors :
      (c : Disk D) (lba bytes : ℕ) (buf : ℕ → ℕ)
      → (block_write drv c lba bytes buf).1.max_sectors ≡ c.max_sectors
  unfolding block_write
  block_write-max_sectors c lba bytes buf =
      let whole = bytes / blk_sector_size in
      let tail = bytes % blk_sector_size in
      let first = whole_part drv c lba whole buf in
      let kept : first.1.max_sectors ≡ c.max_sectors = elim (Bool-cases (whole == 0)) [
        | inl z ↦ rw z refl
        | inr nz ↦ rw nz (submit_write-max_sectors drv whole c lba whole buf)
      ] in
      let sec = placed (λ i. 0) 0 (behind buf (whole * blk_sector_size)) tail in
      elim (Bool-cases (
        (bytes == 0)
        || ltb c.capacity_sectors (add64 lba (whole + (if tail == 0 then 0 else 1))))) [
          | inl bad ↦ rw bad refl
          | inr good ↦ elim (Bool-cases first.0) [
            | inl ok ↦ elim (Bool-cases (tail == 0)) [
              | inl z ↦ rw (good, ok, z) kept
              | inr nz ↦
                  rw (good, ok, nz)
                    (submit_write-max_sectors drv 1 first.1 (add64 lba whole) 1 sec ∙ kept)
            ]
            | inr bad ↦ rw (good, bad) kept
          ]
        ]
