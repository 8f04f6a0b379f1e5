-- ===== src/Block/Coherent.antt =====
-- When the cache of a device tells the truth, and what a read of sectors does to it.
use mobile_phone_os.Prelude.{
  ℕ, ◌+◌, ◌-◌, ◌*◌, ◌/◌, ◌%◌, ◌≤◌, ◌<◌, ◌≡◌, ◌⊎◌, inl, inr, refl, sym, ap, ◌∙◌, true, ◌&&◌, ltb,
  leb, update, arith, subst, eq-cases,
}
use native.Mathlib.Decide.{dec_lt}
use mobile_phone_os.Block.{blk_sector_size, cache_entries, Driver, Line, Disk, placed}

module _ {D : Type 0} (drv : Driver D) where
  -- A valid line is that of its sector and holds what the device holds.
  pub record LineTrue (d : D) (idx : ℕ) (l : Line) : Type 0 where
    pub own : l.lba % cache_entries ≡ idx
    pub same : (i : ℕ) → i < blk_sector_size → l.bytes i ≡ drv.sector d l.lba i

  abbrev pub Coherent : Disk D → Type 0
  Coherent c = (idx : ℕ) → (c.line idx).valid ≡ true → LineTrue c.dev idx (c.line idx)

  -- The sectors from `cur` on, `n` of them, have come to the buffer from `at` on, and nothing else has
  -- changed; the device is as it was, and the cache tells the truth.
  pub record ReadsTo (c c' : Disk D) (cur n at : ℕ) (buf buf' : ℕ → ℕ) : Type 0 where
    pub dev : c'.dev ≡ c.dev
    pub capacity : c'.capacity_sectors ≡ c.capacity_sectors
    pub limit : c'.max_sectors ≡ c.max_sectors
    pub coherent : Coherent c'
    pub inside :
        (i : ℕ)
        → i < n * blk_sector_size
        → buf' (at + i) ≡ drv.sector c.dev (cur + i / blk_sector_size) (i % blk_sector_size)
    pub outside : (i : ℕ) → (i < at) ⊎ (at + n * blk_sector_size ≤ i) → buf' i ≡ buf i

  pub ReadsTo-none :
      (c : Disk D) (cur at : ℕ) (buf : ℕ → ℕ) → Coherent c → ReadsTo c c cur 0 at buf buf
  ReadsTo-none c cur at buf h = record {
    dev = refl;
    capacity = refl;
    limit = refl;
    coherent = h;
    inside = λ i lt. absurd (omega arith);
    outside = λ i o. refl;
  }

  pub ReadsTo-append :
      (c c1 c2 : Disk D) (cur m n at : ℕ) (buf b1 b2 : ℕ → ℕ)
      → m ≤ n
      → ReadsTo c c1 cur m at buf b1
      → ReadsTo c1 c2 (cur + m) (n - m) (at + m * blk_sector_size) b1 b2
      → ReadsTo c c2 cur n at buf b2
  ReadsTo-append c c1 c2 cur m n at buf b1 b2 le r s = record {
    dev = s.dev ∙ r.dev;
    capacity = s.capacity ∙ r.capacity;
    limit = s.limit ∙ r.limit;
    coherent = s.coherent;
    inside = λ i lt. elim (dec_lt i (m * blk_sector_size)) [
      | yes near ↦ s.outside (at + i) (inl (omega arith)) ∙ r.inside i near
      | no far ↦
          ap b2 (omega arith)
          ∙ s.inside (i - m * blk_sector_size) (omega arith)
          ∙ ap
              (λ d.
                drv.sector d (cur + m + (i - m * blk_sector_size) / blk_sector_size)
                  ((i - m * blk_sector_size) % blk_sector_size))
              r.dev
          ∙ ap (λ x. drv.sector c.dev x ((i - m * blk_sector_size) % blk_sector_size)) (omega arith)
          ∙ ap (drv.sector c.dev (cur + i / blk_sector_size)) (omega arith)
    ];
    outside = λ i o. s.outside i (between i o) ∙ r.outside i (before i o);
  }
    where
      between :
          (i : ℕ)
          → (i < at) ⊎ (at + n * blk_sector_size ≤ i)
          → (i < at + m * blk_sector_size)
            ⊎ (at + m * blk_sector_size + (n - m) * blk_sector_size ≤ i)
      between i (inl a) = inl (omega arith)
      between i (inr a) = inr (omega arith)

      before :
          (i : ℕ)
          → (i < at) ⊎ (at + n * blk_sector_size ≤ i)
          → (i < at) ⊎ (at + m * blk_sector_size ≤ i)
      before i (inl a) = inl a
      before i (inr a) = inr (omega arith)

  -- Sectors placed in the buffer.
  pub placed-ReadsTo :
      (c c' : Disk D) (cur n at : ℕ) (buf from : ℕ → ℕ)
      → c'.dev ≡ c.dev
      → c'.capacity_sectors ≡ c.capacity_sectors
      → c'.max_sectors ≡ c.max_sectors
      → Coherent c'
      → ((i : ℕ)
          → i < n * blk_sector_size
          → from i ≡ drv.sector c.dev (cur + i / blk_sector_size) (i % blk_sector_size))
      → ReadsTo c c' cur n at buf (placed buf at from (n * blk_sector_size))
  placed-ReadsTo c c' cur n at buf from a b d h g = record {
    dev = a;
    capacity = b;
    limit = d;
    coherent = h;
    inside = λ i lt.
        let there : placed buf at from (n * blk_sector_size) (at + i) ≡ from i =
          placed-in buf at from (n * blk_sector_size) i lt in
        there ∙ g i lt;
    outside = λ i o. ground (arith, o);
  }
    where
      placed-in :
          (buf' : ℕ → ℕ) (at' : ℕ) (from' : ℕ → ℕ) (k i : ℕ)
          → i < k
          → placed buf' at' from' k (at' + i) ≡ from' i
      placed-in buf' at' from' k i lt =
          let e : at' + i - at' ≡ i = omega arith in
          let inside : (leb at' (at' + i) && ltb (at' + i) (at' + k)) ≡ true = ground (arith, lt) in
          rw (inside, e) refl

  -- A line that is filled with what the device holds.
  pub Coherent-fill :
      (c : Disk D) (lba : ℕ) (bytes : ℕ → ℕ)
      → Coherent c
      → ((i : ℕ) → i < blk_sector_size → bytes i ≡ drv.sector c.dev lba i)
      → Coherent (record c {
        line =
            update c.line (lba % cache_entries) (record { valid = true; lba = lba; bytes = bytes });
      })
  Coherent-fill c lba bytes h g idx v = elim (eq-cases idx (lba % cache_entries)) [
    | inl e ↦
        let new : update c.line (lba % cache_entries)
              (record { valid = true; lba = lba; bytes = bytes }) idx
            ≡ record { valid = true; lba = lba; bytes = bytes } =
          ground (arith, e) in
        subst (LineTrue c.dev idx) (sym new) (record { own = sym e; same = g })
    | inr ne ↦
        let old : update c.line (lba % cache_entries)
              (record { valid = true; lba = lba; bytes = bytes }) idx
            ≡ c.line idx =
          ground (arith, ne) in
        subst (LineTrue c.dev idx) (sym old) (h idx (ap (λ (l : Line). l.valid) (sym old) ∙ v))
  ]
