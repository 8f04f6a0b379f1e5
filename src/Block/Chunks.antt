-- ===== src/Block/Chunks.antt =====
-- The loop of `block_submit` for reads, and the cache below it.
use mobile_phone_os.Prelude.{
  ℕ, zero, suc, ◌+◌, ◌-◌, ◌*◌, ◌/◌, ◌%◌, ◌^◌, ◌≤◌, ◌<◌, ◌≡◌, inl, inr, refl, sym, ap, ◌∙◌, true,
  ◌&&◌, ltb, ◌==◌, if◌then◌else◌, update, arith, subst, Bool-cases, add64,
}
use native.Mathlib.Nat.{mod-eq_of_lt}
use mobile_phone_os.Block.{
  blk_sector_size, cache_entries, Driver, Disk, placed, behind, cache_read_sector, submit_read,
}
use mobile_phone_os.Block.Coherent.{
  Coherent, ReadsTo, ReadsTo-none, ReadsTo-append, placed-ReadsTo, Coherent-fill,
}

module _ {D : Type 0} (drv : Driver D) where
  first_sector :
      (d : D) (lba i : ℕ)
      → i < blk_sector_size
      → drv.sector d (lba + i / blk_sector_size) (i % blk_sector_size) ≡ drv.sector d lba i
  first_sector d lba i lt =
      let e : lba + i / blk_sector_size ≡ lba = omega arith in
      let f : i % blk_sector_size ≡ i = omega arith in
      ap (λ x. drv.sector d x (i % blk_sector_size)) e ∙ ap (drv.sector d lba) f

  cache_read_sector-ReadsTo :
      (c : Disk D) (lba at : ℕ) (buf : ℕ → ℕ)
      → Coherent drv c
      → (cache_read_sector drv c lba buf at).0 ≡ true
      → ReadsTo drv c
          (cache_read_sector drv c lba buf at).1
          lba
          1
          at
          buf
          (cache_read_sector drv c lba buf at).2
  unfolding cache_read_sector
  cache_read_sector-ReadsTo c lba at buf h e =
      elim (Bool-cases
        ((c.line (lba % cache_entries)).valid && (c.line (lba % cache_entries)).lba == lba)) [
          | inl hit ↦ rw hit (
              placed-ReadsTo drv c c lba 1 at buf (c.line (lba % cache_entries)).bytes refl refl
                refl h (λ i lt. (held i lt hit)))
          | inr miss ↦
              let r = drv.read_blocks c.dev lba 1 (c.line (lba % cache_entries)).bytes in
              elim (Bool-cases r.0) [
                | inl ok ↦
                    rw (miss, ok)
                      (placed-ReadsTo drv c
                        (record c {
                          line =
                              update c.line (lba % cache_entries)
                                (record { valid = true; lba = lba; bytes = r.1 });
                        })
                        lba 1 at buf r.1 refl refl refl
                        (Coherent-fill drv c lba r.1 h (λ i lt.
                          (drv.read_gives c.dev lba 1 (c.line (lba % cache_entries)).bytes i ok lt
                            ∙ first_sector c.dev lba i lt)))
                        (λ i lt.
                          drv.read_gives c.dev lba 1 (c.line (lba % cache_entries)).bytes i ok lt))
                | inr bad ↦ absurd (cc (rw (miss, bad) at e))
              ]
        ]
    where
      held :
          (i : ℕ)
          → i < blk_sector_size
          → ((c.line (lba % cache_entries)).valid && (c.line (lba % cache_entries)).lba == lba)
            ≡ true
          → (c.line (lba % cache_entries)).bytes i
            ≡ drv.sector c.dev (lba + i / blk_sector_size) (i % blk_sector_size)
      held i lt hit =
          let v : (c.line (lba % cache_entries)).valid ≡ true = ground (arith, hit) in
          let l : (c.line (lba % cache_entries)).lba ≡ lba = ground (arith, hit) in
          (h (lba % cache_entries) v).same i lt
          ∙ ap (λ x. drv.sector c.dev x i) l
          ∙ sym (first_sector c.dev lba i lt)

  -- The loop of a read: every turn reads a sector at least.
  pub submit_read-ReadsTo :
      (fuel : ℕ) (c : Disk D) (cur n : ℕ) (buf : ℕ → ℕ) (at : ℕ)
      → Coherent drv c
      → 0 < c.max_sectors
      → n ≤ fuel
      → cur + n < 2 ^ 64
      → (submit_read drv fuel c cur n buf at).0 ≡ true
      → ReadsTo drv c
          (submit_read drv fuel c cur n buf at).1
          cur
          n
          at
          buf
          (submit_read drv fuel c cur n buf at).2
  unfolding submit_read
  submit_read-ReadsTo zero c cur n buf at h room le fits e =
      let none_left : 0 ≡ n = omega arith in
      subst (λ k. ReadsTo drv c c cur k at buf buf) none_left (ReadsTo-none drv c cur at buf h)
  submit_read-ReadsTo (suc fuel) c cur n buf at h room le fits e = elim (Bool-cases (n == 0)) [
    | inl z ↦
        let none_left : 0 ≡ n = ground (arith, z) in
        rw z (
          subst (λ k. ReadsTo drv c c cur k at buf buf) none_left (ReadsTo-none drv c cur at buf h))
    | inr nz ↦
        let chunk = if ltb n c.max_sectors then n else c.max_sectors in
        let bounds : (0 < chunk) × (chunk ≤ n) = ground (arith, nz) in
        elim (Bool-cases (chunk == 1)) [
          | inl single ↦
              let one = cache_read_sector drv c cur buf at in
              elim (Bool-cases one.0) [
                | inl ok ↦
                    let r : ReadsTo drv c one.1 cur 1 at buf one.2 =
                      cache_read_sector-ReadsTo c cur at buf h ok in
                    let step : add64 cur 1 ≡ cur + 1 = mod-eq_of_lt (omega arith) in
                    rw (nz, single, ok, step)
                      (ReadsTo-append drv c one.1
                        (submit_read drv fuel one.1 (cur + 1) (n - 1) one.2
                          (at + blk_sector_size)).1
                        cur 1 n at buf one.2
                        (submit_read drv fuel one.1 (cur + 1) (n - 1) one.2
                          (at + blk_sector_size)).2
                        (omega arith) r
                        (submit_read-ReadsTo fuel one.1 (cur + 1) (n - 1) one.2
                          (at + blk_sector_size) r.coherent (omega (arith, r.limit)) (omega arith)
                          (omega arith) (rw (nz, single, ok, step) at e)))
                | inr bad ↦ absurd (cc (rw (nz, single, bad) at e))
              ]
          | inr many ↦
              let r = drv.read_blocks c.dev cur chunk (behind buf at) in
              elim (Bool-cases r.0) [
                | inl ok ↦
                    let buf' = placed buf at r.1 (chunk * blk_sector_size) in
                    let s : ReadsTo drv c c cur chunk at buf buf' =
                      placed-ReadsTo drv c c cur chunk at buf r.1 refl refl refl h
                        (λ i lt. drv.read_gives c.dev cur chunk (behind buf at) i ok lt) in
                    let step : add64 cur chunk ≡ cur + chunk = mod-eq_of_lt (omega arith) in
                    rw (nz, many, ok, step)
                      (ReadsTo-append drv c c
                        (submit_read drv fuel c (cur + chunk) (n - chunk) buf'
                          (at + chunk * blk_sector_size)).1
                        cur chunk n at buf buf'
                        (submit_read drv fuel c (cur + chunk) (n - chunk) buf'
                          (at + chunk * blk_sector_size)).2
                        bounds.1 s
                        (submit_read-ReadsTo fuel c (cur + chunk) (n - chunk) buf'
                          (at + chunk * blk_sector_size) h room (omega arith) (omega arith)
                          (rw (nz, many, ok, step) at e)))
                | inr bad ↦ absurd (cc (rw (nz, many, bad) at e))
              ]
        ]
  ]
