-- ===== src/Abmgr/Tests.antt =====
-- The slot manager on a concrete device.
use mobile_phone_os.Prelude.{
  ℕ, ◌-◌, ◌<◌, ◌≤◌, ◌≡◌, ◌⊎◌, refl, true, some, add32, update, arith, pos,
}
use mobile_phone_os.Block.{block_read, block_write}
use mobile_phone_os.Block.Fill.{Coherent-But}
use mobile_phone_os.Block.Samples.{Sectors, driver, disk, disk-Coherent}
use mobile_phone_os.AbTable.{ab_magic, ab_table_version, version_at, active_at, valid_at, put32}
use mobile_phone_os.Abmgr.{
  Abmgr, table_write, abmgr_attach, abmgr_switch, abmgr_evaluate, table_write_checked,
}
use mobile_phone_os.Abmgr.Stored.{Ready, Stored, table_write-Stored}
use mobile_phone_os.Abmgr.Survives.{switch, operate}
use mobile_phone_os.Abmgr.Restart.{cold, boots, operate-survives, boots-abmgr_evaluate}

-- Both slots hold an image, and the first one is active.
abbrev table : ℕ → ℕ
table =
    update
      (update
        (update (put32 (put32 (λ i. 0) 0 ab_magic) version_at ab_table_version) (active_at 0) 1)
        (valid_at 0) 1)
      (valid_at 1) 1

abbrev manager : Abmgr Sectors
manager = record {
  disk = disk;
  table_lba = 4;
  tbl = table;
  loaded = true;
  active = pos 0;
  rollbacks = 0;
  confirms = 0;
  switches = 0;
}

manager-Ready : Ready driver manager
manager-Ready = record {
  coherent = Coherent-But driver disk 4 5 disk-Coherent;
  limit = omega arith;
  place = omega arith;
  named = refl;
  version = refl;
}

abbrev written : Abmgr Sectors
written = (table_write driver manager).1

written-Stored : Stored driver written
unfolding table_write block_write
written-Stored = table_write-Stored driver manager manager-Ready refl

operate-survives_example :
    ((abmgr_attach driver manager
        (some (cold (operate driver switch written).1.disk))
        (operate driver switch written).1.table_lba
        (λ i. 0)).0
      ≡ pos 0)
    × ((abmgr_attach driver manager
          (some (cold (operate driver switch written).1.disk))
          (operate driver switch written).1.table_lba
          (λ i. 0)).1.active
        ≡ (operate driver switch written).1.active)
unfolding table_write table_write_checked abmgr_switch block_write block_read
operate-survives_example =
    operate-survives driver switch written manager 0 (λ i. 0) written-Stored refl refl refl

boots-abmgr_evaluate_example :
    ((3 < 3) × (abmgr_evaluate driver (boots driver 3 manager) ≡ (pos 0, boots driver 3 manager)))
    ⊎ ((3 ≤ 3)
        × (((abmgr_evaluate driver (boots driver 3 manager)).1.active ≡ pos (1 - 0))
            × ((abmgr_evaluate driver (boots driver 3 manager)).1.rollbacks ≡ add32 0 1)))
boots-abmgr_evaluate_example =
    boots-abmgr_evaluate driver 0 3 0 manager (omega arith) (omega arith) (record {
      loaded = refl;
      active = refl;
      agrees = refl;
      tries = refl;
      unconfirmed = refl;
      other = refl;
      rollbacks = refl;
    })
