-- ===== src/Abmgr.antt =====
-- kernel/abmgr.c: the operations of the slot manager on a device of the block layer.
pub mod Stored
pub mod Outcome
pub mod Survives
pub mod Restart
mod Tests
use Prim.Native.Nat.{bit_xor}
use mobile_phone_os.Prelude.{
  ℕ, zero, suc, ◌+◌, ◌-◌, ◌*◌, ◌/◌, ◌%◌, ◌^◌, Bool, true, false, not, ◌&&◌, ◌||◌, Option, none,
  some, ltb, leb, ◌==◌, if◌then◌else◌, update, ℤ, pos, negsuc, add64, add32,
}
use mobile_phone_os.AbTable.{
  ab_magic, ab_table_version, ab_max_attempts, get32, put32, put64, version_at, rollbacks_at,
  crc_at, table_size, slot_at, attempts_at, confirmed_at, active_at, valid_at, crc_bit, crc_byte,
  crc_loop, crc32_calc, table_crc, table_valid, flagged,
}
use mobile_phone_os.Block.{Driver, Disk, block_read, block_write}

abbrev pub enodev : ℤ
enodev = negsuc 18

abbrev pub eio : ℤ
eio = negsuc 4

abbrev pub bad_argument : ℤ
bad_argument = negsuc 21

-- The variables of the file; the device is there once one is attached.
pub record Abmgr (D : Type 0) : Type 0 where
  pub disk : Disk D
  pub table_lba : ℕ
  pub tbl : ℕ → ℕ
  pub loaded : Bool
  pub active : ℤ
  pub rollbacks : ℕ
  pub confirms : ℕ
  pub switches : ℕ

module _ {D : Type 0} (drv : Driver D) where
  -- The table with its checksum repaired, and the write of it.
  abbrev pub sealed : (ℕ → ℕ) → (ℕ → ℕ)
  sealed t = put32 t crc_at (table_crc t)

  unfoldable pub table_write : Abmgr D → Bool × Abmgr D
  table_write s =
      let w = block_write drv s.disk s.table_lba table_size (sealed s.tbl) in
      (w.0, record s { tbl = sealed s.tbl; disk = w.1 })

  -- `sec` is what the buffer of the last sector holds before.
  unfoldable pub abmgr_attach : Abmgr D → Option (Disk D) → (lba : ℕ) → (sec : ℕ → ℕ) → ℤ × Abmgr D
  unfolding table_write table_valid
  abmgr_attach s none lba sec = (enodev, s)
  abmgr_attach s (some bd) lba sec =
      let r = block_read drv bd lba table_size s.tbl sec in
      let blank = put32 (put32 (λ i. 0) 0 ab_magic) version_at ab_table_version in
      let w = table_write (record s { disk = r.1; table_lba = lba; loaded = false; tbl = blank }) in
      if r.0 && table_valid r.2
      then (
        pos 0,
        record s {
          disk = r.1;
          table_lba = lba;
          tbl = r.2;
          loaded = true;
          active = flagged r.2;
          rollbacks = get32 r.2 rollbacks_at;
        },
      )
      else if w.0
      then (pos 0, record w.1 { loaded = true; active = negsuc 0; rollbacks = 0 })
      else (eio, w.1)

  unfoldable pub table_write_checked : Abmgr D → ℤ × Abmgr D
  unfolding table_write
  table_write_checked s =
      let w = table_write s in
      if not s.loaded then (enodev, s) else (if w.0 then pos 0 else eio, w.1)

  -- The loop over the payload of a slot: the checksum, unless a read fails.
  unfoldable pub payload_crc :
      (n : ℕ) → Disk D → (lba crc : ℕ) → (buf sec : ℕ → ℕ) → Option ℕ × Disk D
  unfolding crc32_calc
  payload_crc zero d lba crc buf sec = (some crc, d)
  payload_crc (suc n) d lba crc buf sec =
      let r = block_read drv d lba 512 buf sec in
      let crc' = bit_xor (bit_xor (crc32_calc r.2 512) (crc * 2 % 2 ^ 32)) crc in
      let rest = payload_crc n r.1 (add64 lba 1) crc' r.2 sec in if r.0 then rest else (none, r.1)

  -- The slot `k` of the table as it is sealed.
  abbrev pub sealed_slot : (ℕ → ℕ) → (k crc lba nsect seq : ℕ) → (ℕ → ℕ)
  sealed_slot t k crc lba nsect seq =
      update
        (update
          (update
            (update
              (put64
                (put64 (put32 (put32 t (slot_at k) crc) (slot_at k + 4) seq) (slot_at k + 8) lba)
                (slot_at k + 16) nsect)
              (attempts_at k) 0)
            (confirmed_at k) 0)
          (active_at k) 0)
        (valid_at k) 1

  abbrev pub slot_sealed : Abmgr D → (k lba nsect seq : ℕ) → Option ℕ × Disk D → ℤ × Abmgr D
  slot_sealed s k lba nsect seq (none, d) = (eio, record s { disk = d })
  slot_sealed s k lba nsect seq (some crc, d) = table_write_checked (record s {
    disk = d;
    tbl = sealed_slot s.tbl k (bit_xor crc (0xdeadc0de * nsect % 2 ^ 32)) lba nsect seq;
  })

  unfoldable pub abmgr_slot_seal :
      Abmgr D → (idx lba nsect seq : ℕ) → (buf sec : ℕ → ℕ) → ℤ × Abmgr D
  unfolding payload_crc
  abmgr_slot_seal s idx lba nsect seq buf sec =
      if not s.loaded || leb 2 idx || nsect == 0
      then (bad_argument, s)
      else slot_sealed s idx lba nsect seq
          (payload_crc (nsect * 512 % 2 ^ 64 / 512) s.disk lba 0xffffffff buf sec)

  -- What is done to the active slot, where there is one.
  abbrev pub on_active : Abmgr D → ℤ → (ℕ → ℤ × Abmgr D) → ℤ × Abmgr D
  on_active s (negsuc n) f = (enodev, s)
  on_active s (pos k) f = if not s.loaded then (enodev, s) else f k

  unfoldable pub abmgr_boot_begin : Abmgr D → ℤ × Abmgr D
  unfolding table_write_checked
  abmgr_boot_begin s = on_active s s.active λ k. table_write_checked (
      if ltb (s.tbl (attempts_at k)) 255
      then record s { tbl = update s.tbl (attempts_at k) (s.tbl (attempts_at k) + 1) }
      else s)

  unfoldable pub abmgr_confirm : Abmgr D → ℤ × Abmgr D
  unfolding table_write_checked
  abmgr_confirm s = on_active s s.active λ k.
      let t = update (update s.tbl (confirmed_at k) 1) (attempts_at k) 0 in
      table_write_checked (record s {
        tbl = put32 t (slot_at k + 4) (add32 (get32 t (slot_at k + 4)) 1);
        confirms = add32 s.confirms 1;
      })

  -- The activation of the slot `other`, with the table as it is by then.
  abbrev pub activate : Abmgr D → (ℕ → ℕ) → ℕ → ℤ × Abmgr D
  activate s t other = table_write_checked (record s {
    tbl = update (update t (active_at other) 1) (attempts_at other) 0;
    active = pos other;
    switches = add32 s.switches 1;
  })

  abbrev pub switch_from : Abmgr D → ℤ → ℤ × Abmgr D
  switch_from s (negsuc n) =
      if not (s.tbl (valid_at 0) == 0)
      then activate s s.tbl 0
      else if not (s.tbl (valid_at 1) == 0)
      then activate s s.tbl 1
      else (bad_argument, s)
  switch_from s (pos k) =
      if s.tbl (valid_at (1 - k)) == 0
      then (bad_argument, s)
      else activate s (update s.tbl (active_at k) 0) (1 - k)

  unfoldable pub abmgr_switch : Abmgr D → ℤ × Abmgr D
  unfolding table_write_checked
  abmgr_switch s = if not s.loaded then (enodev, s) else switch_from s s.active

  -- The result of a rollback: 1, or the error of the switch.
  abbrev pub rolled_back : ℤ × Abmgr D → ℤ × Abmgr D
  rolled_back (pos r, s) = (pos 1, s)
  rolled_back (negsuc e, s) = (negsuc e, s)

  unfoldable pub abmgr_evaluate : Abmgr D → ℤ × Abmgr D
  unfolding table_write_checked abmgr_switch
  abmgr_evaluate s = on_active s s.active λ k.
      let n = add32 s.rollbacks 1 in
      let w = table_write_checked (record s { rollbacks = n; tbl = put32 s.tbl rollbacks_at n }) in
      if not (s.tbl (confirmed_at k) == 0) || ltb (s.tbl (attempts_at k)) ab_max_attempts
      then (pos 0, s)
      else rolled_back (abmgr_switch w.1)

  unfoldable pub abmgr_table_put : Abmgr D → Option (ℕ → ℕ) → ℤ × Abmgr D
  unfolding table_write_checked table_valid
  abmgr_table_put s none = (bad_argument, s)
  abmgr_table_put s (some t) =
      if not s.loaded || not (table_valid t)
      then (bad_argument, s)
      else table_write_checked (record s { tbl = t })
