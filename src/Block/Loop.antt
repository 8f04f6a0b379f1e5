-- ===== src/Block/Loop.antt =====
-- The loop of `block_submit` for a write: what it makes of the device and of the cache.
use mobile_phone_os.Prelude.{
  ℕ, zero, suc, ◌+◌, ◌-◌, ◌*◌, ◌^◌, ◌≤◌, ◌<◌, ◌≡◌, inl, inr, refl, sym, ap, ◌∙◌, Bool, true, ◌&&◌,
  ltb, leb, ◌==◌, if◌then◌else◌, arith, subst, Bool-cases, add64,
}
use native.Mathlib.Decide.{dec_lt}
use native.Mathlib.Nat.{mod-eq_of_lt}
use mobile_phone_os.Block.{blk_sector_size, Driver, Disk, behind, fill_write, submit_write}
use mobile_phone_os.Block.Fill.{
  Stale, CoherentBut, CoherentBut-wider, fill_write-But, fill_write-rest,
}
use mobile_phone_os.Block.Taken.{Taken, Spared, Spared-append, Spared-wider, Taken-append}

module _ {D : Type 0} (drv : Driver D) where
  -- The lines of the cache after the driver has been asked to write a chunk.
  asked-But :
      (c : Disk D) (cur chunk end : ℕ) (from : ℕ → ℕ)
      → cur + chunk ≤ end
      → CoherentBut drv c cur end
      → CoherentBut drv (record c { dev = (drv.write_blocks c.dev cur chunk from).1 }) cur end
  unfolding Stale
  asked-But c cur chunk end from le h idx v = (
    (h idx v).0,
    elim (h idx v).1 [
      | inl r ↦ inl r
      | inr t ↦ elim (dec_lt (c.line idx).lba cur) [
        | yes under ↦ inr (λ i it.
            t i it ∙ sym (drv.write_spares c.dev cur chunk from (c.line idx).lba i it (inl under)))
        | no over ↦ elim (dec_lt (c.line idx).lba (cur + chunk)) [
          | yes inside ↦ inl (omega (arith, over), omega (arith, inside, le))
          | no beyond ↦ inr (λ i it.
              t i it
              ∙ sym (
                  drv.write_spares c.dev cur chunk from (c.line idx).lba i it
                    (inr (omega (arith, beyond)))))
        ]
      ]
    ],
  )

  -- One chunk that the driver has written, and its sectors in the cache.
  chunk-But :
      (c : Disk D) (cur chunk end : ℕ) (from : ℕ → ℕ)
      → CoherentBut drv c cur end
      → cur + chunk ≤ end
      → cur + chunk < 2 ^ 64
      → (drv.write_blocks c.dev cur chunk from).0 ≡ true
      → CoherentBut drv
          (fill_write drv chunk
            (record c { dev = (drv.write_blocks c.dev cur chunk from).1 })
            cur
            from)
          (cur + chunk)
          end
  chunk-But c cur chunk end from h le fits ok =
      fill_write-But drv chunk (record c { dev = (drv.write_blocks c.dev cur chunk from).1 }) cur
        (cur + chunk) end from refl fits
        (λ j i jt it.
          drv.write_takes c.dev cur chunk from (cur + j) i ok it
          ∙ ap
              (λ b.
                if b
                then from ((cur + j - cur) * blk_sector_size + i)
                else drv.sector c.dev (cur + j) i)
              (inside j jt)
          ∙ ap from (omega arith))
        (asked-But c cur chunk end from le h)
    where
      inside : (j : ℕ) → j < chunk → (leb cur (cur + j) && ltb (cur + j) (cur + chunk)) ≡ true
      inside j jt = ground (arith, jt)

  -- What comes of the loop, where the cache was true but for the sectors from `cur` to `end`.
  pub record WritesTo (c c' : Disk D) (cur n end : ℕ) (from : ℕ → ℕ) (ok : Bool) : Type 0 where
    pub but : CoherentBut drv c' cur end
    pub rest : ok ≡ true → CoherentBut drv c' (cur + n) end
    pub limit : c'.max_sectors ≡ c.max_sectors
    pub spared : Spared drv c.dev c'.dev cur (cur + n)
    pub taken : ok ≡ true → Taken drv c.dev c'.dev cur n from

  nothing-WritesTo :
      (c : Disk D) (cur n end : ℕ) (from : ℕ → ℕ)
      → CoherentBut drv c cur end
      → (n == 0) ≡ true
      → WritesTo c c cur n end from true
  nothing-WritesTo c cur n end from h z = record {
    but = h;
    rest = λ e.
        let same : cur ≡ cur + n = ground (arith, z) in subst (λ x. CoherentBut drv c x end) same h;
    limit = refl;
    spared = λ x i it o. refl;
    taken = λ e x i lt. ground (arith, z);
  }

  pub submit_write-WritesTo :
      (fuel : ℕ) (c : Disk D) (cur n end : ℕ) (from : ℕ → ℕ)
      → CoherentBut drv c cur end
      → 0 < c.max_sectors
      → n ≤ fuel
      → cur + n ≤ end
      → cur + n < 2 ^ 64
      → WritesTo c
          (submit_write drv fuel c cur n from).1
          cur
          n
          end
          from
          (submit_write drv fuel c cur n from).0
  unfolding submit_write
  submit_write-WritesTo zero c cur n end from h room le in_range fits =
      let z : (n == 0) ≡ true = ground (arith, le) in rw z (nothing-WritesTo c cur n end from h z)
  submit_write-WritesTo (suc fuel) c cur n end from h room le in_range fits =
      elim (Bool-cases (n == 0)) [
        | inl z ↦ rw z (nothing-WritesTo c cur n end from h z)
        | inr nz ↦
            let chunk = if ltb n c.max_sectors then n else c.max_sectors in
            let bounds : (0 < chunk) × (chunk ≤ n) = ground (arith, nz) in
            let w = drv.write_blocks c.dev cur chunk from in
            elim (Bool-cases w.0) [
              | inl ok ↦
                  let c1 = fill_write drv chunk (record c { dev = w.1 }) cur from in
                  let kept : (c1.dev ≡ w.1) × (c1.max_sectors ≡ c.max_sectors) =
                    fill_write-rest drv chunk (record c { dev = w.1 }) cur from in
                  let more = behind from (chunk * blk_sector_size) in
                  let next = submit_write drv fuel c1 (cur + chunk) (n - chunk) more in
                  let r : WritesTo c1 next.1 (cur + chunk) (n - chunk) end more next.0 =
                    submit_write-WritesTo fuel c1 (cur + chunk) (n - chunk) end more
                      (chunk-But c cur chunk end from h (omega arith) (omega arith) ok)
                      (omega (arith, kept.1)) (omega arith) (omega arith) (omega arith) in
                  let step : add64 cur chunk ≡ cur + chunk = mod-eq_of_lt (omega arith) in
                  let total : cur + chunk + (n - chunk) ≡ cur + n = omega arith in
                  let first : Spared drv c.dev c1.dev cur (cur + chunk) =
                    subst (λ d. Spared drv c.dev d cur (cur + chunk)) (sym kept.0)
                      (λ x i it o. drv.write_spares c.dev cur chunk from x i it o) in
                  rw (nz, ok, step)
                    (record {
                      but = CoherentBut-wider drv next.1 cur (cur + chunk) end (omega arith) r.but;
                      rest = λ e. subst (λ x. CoherentBut drv next.1 x end) total (r.rest e);
                      limit = r.limit ∙ kept.1;
                      spared =
                          Spared-append drv c.dev c1.dev next.1.dev cur (cur + chunk) (cur + n)
                            (omega arith) (omega arith) first
                            (subst (λ x. Spared drv c1.dev next.1.dev (cur + chunk) x) total
                              r.spared);
                      taken = λ e.
                          Taken-append drv c.dev c1.dev next.1.dev cur chunk n from bounds.1
                            (subst (λ d. Taken drv c.dev d cur chunk from) (sym kept.0)
                              (λ x i lt. drv.write_takes c.dev cur chunk from x i ok lt))
                            (r.taken e);
                    })
              | inr bad ↦
                  rw (nz, bad)
                    (record {
                      but = asked-But c cur chunk end from (omega arith) h;
                      rest = λ e. absurd (cc e);
                      limit = refl;
                      spared =
                          Spared-wider drv c.dev w.1 cur (cur + chunk) cur (cur + n) (omega arith)
                            (omega arith)
                            (λ x i it o. drv.write_spares c.dev cur chunk from x i it o);
                      taken = λ e. absurd (cc e);
                    })
            ]
      ]

  -- The whole sectors of a request.
  abbrev pub whole_part : (c : Disk D) (lba whole : ℕ) (buf : ℕ → ℕ) → Bool × Disk D
  whole_part c lba whole buf =
      if whole == 0 then (true, c) else submit_write drv whole c lba whole buf

  pub whole_part-WritesTo :
      (c : Disk D) (lba whole end : ℕ) (buf : ℕ → ℕ)
      → CoherentBut drv c lba end
      → 0 < c.max_sectors
      → lba + whole ≤ end
      → lba + whole < 2 ^ 64
      → WritesTo c (whole_part c lba whole buf).1 lba whole end buf (whole_part c lba whole buf).0
  whole_part-WritesTo c lba whole end buf h room le fits = elim (Bool-cases (whole == 0)) [
    | inl z ↦ rw z (nothing-WritesTo c lba whole end buf h z)
    | inr nz ↦ rw nz (submit_write-WritesTo whole c lba whole end buf h room (omega arith) le fits)
  ]

  pub submit_write-max_sectors :
      (fuel : ℕ) (c : Disk D) (cur n : ℕ) (from : ℕ → ℕ)
      → (submit_write drv fuel c cur n from).1.max_sectors ≡ c.max_sectors
  unfolding submit_write
  submit_write-max_sectors zero c cur n from = refl
  submit_write-max_sectors (suc fuel) c cur n from =
      let chunk = if ltb n c.max_sectors then n else c.max_sectors in
      let w = drv.write_blocks c.dev cur chunk from in
      let c1 = fill_write drv chunk (record c { dev = w.1 }) cur from in
      let more = behind from (chunk * blk_sector_size) in
      elim (Bool-cases (n == 0)) [
        | inl z ↦ rw z refl
        | inr nz ↦ elim (Bool-cases w.0) [
          | inl ok ↦
              rw (nz, ok)
                (submit_write-max_sectors fuel c1 (add64 cur chunk) (n - chunk) more
                  ∙ (fill_write-rest drv chunk (record c { dev = w.1 }) cur from).1)
          | inr bad ↦ rw (nz, bad) refl
        ]
      ]
