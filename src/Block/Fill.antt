-- ===== src/Block/Fill.antt =====
-- The refresh of the cache after a write.
use mobile_phone_os.Prelude.{
  ℕ, zero, suc, ◌+◌, ◌*◌, ◌%◌, ◌^◌, ◌≤◌, ◌<◌, ◌≡◌, ◌≢◌, ◌⊎◌, inl, inr, refl, sym, ap, ◌∙◌, true,
  update, arith, subst, eq-cases, add64,
}
use native.Mathlib.Nat.{mod-eq_of_lt}
use mobile_phone_os.Block.{blk_sector_size, cache_entries, Driver, Line, Disk, behind, fill_write}
use mobile_phone_os.Block.Coherent.{Coherent}

module _ {D : Type 0} (drv : Driver D) where
  -- A valid line is true, or it is that of a sector from `cur` to `end` which is yet to be refreshed.
  unfoldable pub Stale : (d : D) (cur end idx : ℕ) → Line → Type 0
  Stale d cur end idx l =
      (l.lba % cache_entries ≡ idx)
      × (((cur ≤ l.lba) × (l.lba < end))
          ⊎ ((i : ℕ) → i < blk_sector_size → l.bytes i ≡ drv.sector d l.lba i))

  -- The cache tells the truth but for the sectors from `cur` to `end`.
  abbrev pub CoherentBut : Disk D → (cur end : ℕ) → Type 0
  CoherentBut c cur end =
      (idx : ℕ) → (c.line idx).valid ≡ true → Stale c.dev cur end idx (c.line idx)

  pub Coherent-But : (c : Disk D) (cur end : ℕ) → Coherent drv c → CoherentBut c cur end
  unfolding Stale
  Coherent-But c cur end h idx v = ((h idx v).own, inr (h idx v).same)

  pub CoherentBut-Coherent : (c : Disk D) (end : ℕ) → CoherentBut c end end → Coherent drv c
  unfolding Stale
  CoherentBut-Coherent c end h idx v = record {
    own = (h idx v).0;
    same = elim (h idx v).1 [ inl r ↦ absurd (omega (arith, r.0, r.1)) | inr t ↦ t ];
  }

  pub CoherentBut-wider :
      (c : Disk D) (lo cur end : ℕ) → lo ≤ cur → CoherentBut c cur end → CoherentBut c lo end
  unfolding Stale
  CoherentBut-wider c lo cur end le h idx v =
      ((h idx v).0, elim (h idx v).1 [ inl r ↦ inl (omega (arith, le, r.0), r.1) | inr t ↦ inr t ])

  -- The bytes `from` are those of the sectors from `cur` on.
  abbrev pub Holds : (d : D) (cur k : ℕ) → (ℕ → ℕ) → Type 0
  Holds d cur k from =
      (j i : ℕ)
      → j < k
      → i < blk_sector_size
      → drv.sector d (cur + j) i ≡ from (j * blk_sector_size + i)

  -- A line of the cache after one refresh.
  fill-Stale :
      (d : D) (line : ℕ → Line) (cur end : ℕ) (from : ℕ → ℕ)
      → ((i : ℕ) → i < blk_sector_size → from i ≡ drv.sector d cur i)
      → ((idx : ℕ) → (line idx).valid ≡ true → Stale d cur end idx (line idx))
      → (idx : ℕ)
      → (update line
          (cur % cache_entries)
          (record { valid = true; lba = cur; bytes = from })
          idx).valid
        ≡ true
      → Stale d
          (cur + 1)
          end
          idx
          (update line (cur % cache_entries) (record { valid = true; lba = cur; bytes = from }) idx)
  unfolding Stale
  fill-Stale d line cur end from same h idx v = elim (eq-cases idx (cur % cache_entries)) [
    | inl e ↦
        let new : update line (cur % cache_entries)
              (record { valid = true; lba = cur; bytes = from }) idx
            ≡ record { valid = true; lba = cur; bytes = from } =
          ground (arith, e) in
        subst (Stale d (cur + 1) end idx) (sym new) (sym e, inr same)
    | inr ne ↦
        let old : update line (cur % cache_entries)
              (record { valid = true; lba = cur; bytes = from }) idx
            ≡ line idx =
          ground (arith, ne) in
        let was : Stale d cur end idx (line idx) =
          h idx (ap (λ (l : Line). l.valid) (sym old) ∙ v) in
        let still : Stale d (cur + 1) end idx (line idx) = (
          was.0,
          elim was.1 [
            | inl r ↦ inl (omega (arith, r.0, past (line idx).lba idx cur was.0 ne), r.1)
            | inr t ↦ inr t
          ],
        ) in
        subst (Stale d (cur + 1) end idx) (sym old) still
  ]
    where
      past : (x idx' cur' : ℕ) → x % cache_entries ≡ idx' → idx' ≢ cur' % cache_entries → x ≢ cur'
      past x idx' cur' own ne' e = ne' (sym own ∙ ap (λ y. y % cache_entries) e)

  pub fill_write-But :
      (k : ℕ) (c : Disk D) (cur last end : ℕ) (from : ℕ → ℕ)
      → cur + k ≡ last
      → last < 2 ^ 64
      → Holds c.dev cur k from
      → CoherentBut c cur end
      → CoherentBut (fill_write drv k c cur from) last end
  unfolding fill_write
  fill_write-But zero c cur last end from e fits held h =
      let same : cur ≡ last = omega (arith, e) in subst (λ x. CoherentBut c x end) same h
  fill_write-But (suc k) c cur last end from e fits held h =
      let step : add64 cur 1 ≡ cur + 1 = mod-eq_of_lt (omega arith) in
      subst
        (λ x.
          CoherentBut
            (fill_write drv k
              (record c {
                line =
                    update c.line (cur % cache_entries)
                      (record { valid = true; lba = cur; bytes = from });
              })
              x (behind from blk_sector_size))
            last end)
        (sym step)
        (fill_write-But k
          (record c {
            line =
                update c.line (cur % cache_entries)
                  (record { valid = true; lba = cur; bytes = from });
          })
          (cur + 1) last end (behind from blk_sector_size) (omega arith) fits
          (λ j i jt it.
            ap (λ x. drv.sector c.dev x i) (omega arith)
            ∙ held (j + 1) i (omega arith) it
            ∙ ap from (omega arith))
          (fill-Stale c.dev c.line cur end from
            (λ i it.
              ap from (omega arith)
              ∙ sym (held 0 i (omega arith) it)
              ∙ ap (λ x. drv.sector c.dev x i) (omega arith))
            h))

  pub fill_write-rest :
      (k : ℕ) (c : Disk D) (cur : ℕ) (from : ℕ → ℕ)
      → ((fill_write drv k c cur from).dev ≡ c.dev)
        × ((fill_write drv k c cur from).max_sectors ≡ c.max_sectors)
  unfolding fill_write
  fill_write-rest zero c cur from = (refl, refl)
  fill_write-rest (suc k) c cur from =
      fill_write-rest k
        (record c {
          line =
              update c.line (cur % cache_entries)
                (record { valid = true; lba = cur; bytes = from });
        })
        (add64 cur 1) (behind from blk_sector_size)
