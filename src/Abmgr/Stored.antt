-- ===== src/Abmgr/Stored.antt =====
-- A table that has been written is the table that the next `abmgr_attach` finds.
use mobile_phone_os.Prelude.{
  ℕ, ◌+◌, ◌-◌, ◌*◌, ◌/◌, ◌%◌, ◌^◌, ◌<◌, ◌≡◌, inl, inr, refl, ap, ◌∙◌, true, ◌&&◌, some, ltb, leb,
  arith, pos,
}
use mobile_phone_os.Block.{blk_sector_size, Driver, Disk, block_read, block_write}
use mobile_phone_os.Block.Coherent.{Coherent}
use mobile_phone_os.Block.Reads.{ReadBytes, block_read-ReadBytes}
use mobile_phone_os.Block.Fill.{CoherentBut, Coherent-But}
use mobile_phone_os.Block.Taken.{padded}
use mobile_phone_os.Block.Writes.{block_write-Taken, block_write-max_sectors}
use mobile_phone_os.AbTable.{
  ab_magic, ab_table_version, version_at, rollbacks_at, crc_at, table_size, get32, put32, table_crc,
  table_valid, flagged,
}
use mobile_phone_os.Abmgr.{Abmgr, table_write, abmgr_attach}
use mobile_phone_os.AbTable.Crc.{
  get32-ext, put32-below, table_valid-ext, flagged-ext, table_valid-repaired,
}

within : (i n : ℕ) → i < n → ltb i n ≡ true
within i n lt = ground (arith, lt)

only : (x : ℕ) → (leb x x && ltb x (x + 1)) ≡ true
only x = ground arith

-- The first sector of a write is the bytes written, as far as they go.
first_bytes :
    (x i : ℕ) (t : ℕ → ℕ)
    → i < table_size
    → padded table_size t ((x - x) * blk_sector_size + i) ≡ t i
first_bytes x i t lt =
    let at : (x - x) * blk_sector_size + i ≡ i = omega arith in
    ap (padded table_size t) at ∙ rw (within i table_size lt) refl

module _ {D : Type 0} (drv : Driver D) where
  -- What the manager needs of the device, and of the head of the table. A write of the table may have failed
  -- before: its sector may differ from what is cached.
  pub record Ready (s : Abmgr D) : Type 0 where
    pub coherent : CoherentBut drv s.disk s.table_lba (s.table_lba + 1)
    pub limit : 0 < s.disk.max_sectors
    pub place : s.table_lba + 1 < 2 ^ 64
    pub named : get32 s.tbl 0 ≡ ab_magic
    pub version : get32 s.tbl version_at ≡ ab_table_version

  -- The device holds the table, and this is valid.
  pub record Stored (s : Abmgr D) : Type 0 where
    pub ready : Ready s
    pub held : (i : ℕ) → i < table_size → drv.sector s.disk.dev s.table_lba i ≡ s.tbl i
    pub sound : table_valid s.tbl ≡ true

  -- A write of the table keeps what the manager needs, whether it succeeds or not.
  pub table_write-Ready : (s : Abmgr D) → Ready s → Ready (table_write drv s).1
  unfolding table_write
  table_write-Ready s r =
      let t = put32 s.tbl crc_at (table_crc s.tbl) in
      let under : ((i : ℕ) → i < crc_at → t i ≡ s.tbl i) =
        λ i lt. put32-below s.tbl crc_at (table_crc s.tbl) i lt in
      let fits : s.table_lba + table_size / blk_sector_size + 1 < 2 ^ 64 = omega (arith, r.place) in
      record {
        coherent =
            elim (block_write-Taken drv s.disk s.table_lba table_size t r.coherent r.limit fits) [
              | inl ok ↦
                  Coherent-But drv (block_write drv s.disk s.table_lba table_size t).1 s.table_lba
                    (s.table_lba + 1) ok.1.0
              | inr bad ↦ bad.1.0
            ];
        limit = omega (arith, r.limit, block_write-max_sectors drv s.disk s.table_lba table_size t);
        place = r.place;
        named = get32-ext t s.tbl crc_at 0 under (omega arith) ∙ r.named;
        version = get32-ext t s.tbl crc_at version_at under (omega arith) ∙ r.version;
      }

  pub table_write-Stored :
      (s : Abmgr D) → Ready s → (table_write drv s).0 ≡ true → Stored (table_write drv s).1
  unfolding table_write
  table_write-Stored s r e =
      let t = put32 s.tbl crc_at (table_crc s.tbl) in
      record {
        ready = table_write-Ready s r;
        held = λ i lt.
            elim (block_write-Taken drv s.disk s.table_lba table_size t r.coherent r.limit
              (omega (arith, r.place))) [
                | inr bad ↦ absurd (cc (bad.0, e))
                | inl took ↦
                    took.1.1 s.table_lba i (omega (arith, lt))
                    ∙ rw (only s.table_lba) (first_bytes s.table_lba i t lt)
              ];
        sound = table_valid-repaired s.tbl r.named r.version;
      }

  -- Where the device holds the table, `abmgr_attach` to a disk on that device whose cache tells the truth,
  -- whatever the manager knew before, succeeds if the read does, and finds the slot that the table calls
  -- active and its count of rollbacks.
  pub abmgr_attach-Stored :
      (s old : Abmgr D) (bd : Disk D) (sec : ℕ → ℕ)
      → Stored s
      → bd.dev ≡ s.disk.dev
      → Coherent drv bd
      → 0 < bd.max_sectors
      → (block_read drv bd s.table_lba table_size old.tbl sec).0 ≡ true
      → ((abmgr_attach drv old (some bd) s.table_lba sec).0 ≡ pos 0)
        × (((abmgr_attach drv old (some bd) s.table_lba sec).1.active ≡ flagged s.tbl)
            × ((abmgr_attach drv old (some bd) s.table_lba sec).1.rollbacks
                ≡ get32 s.tbl rollbacks_at))
  unfolding abmgr_attach
  abmgr_attach-Stored s old bd sec st d h room e =
      let r = block_read drv bd s.table_lba table_size old.tbl sec in
      let b : ReadBytes drv bd r.1 s.table_lba table_size old.tbl r.2 =
        block_read-ReadBytes drv bd s.table_lba table_size old.tbl sec h room
          (omega (arith, st.ready.place)) e in
      let same : ((i : ℕ) → i < table_size → r.2 i ≡ s.tbl i) = λ i lt.
        let short = within i table_size lt in
        let at : s.table_lba + i / blk_sector_size ≡ s.table_lba = omega (arith, lt) in
        let off : i % blk_sector_size ≡ i = omega (arith, lt) in
        b.given i ∙ rw (short, at, off) (ap (λ x. drv.sector x s.table_lba i) d ∙ st.held i lt) in
      rw (e, table_valid-ext r.2 s.tbl same ∙ st.sound)
        (
          refl,
          (
            flagged-ext r.2 s.tbl same,
            get32-ext r.2 s.tbl table_size rollbacks_at same (omega arith),
          ),
        )
