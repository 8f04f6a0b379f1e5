-- ===== src/Abmgr/Restart.antt =====
-- Restarts: what the next `abmgr_attach` finds, and the rollback after boots without a confirmation.
use mobile_phone_os.Prelude.{
  ℕ, zero, suc, ◌+◌, ◌-◌, ◌<◌, ◌≤◌, ◌≡◌, ◌⊎◌, inl, inr, refl, subst, ap, ◌∙◌, true, false, ◌==◌,
  ltb, some, arith, ℤ, pos, negsuc, add32,
}
use native.Mathlib.Decide.{dec_lt}
use mobile_phone_os.Block.{Driver, Disk, block_read}
use mobile_phone_os.Block.Coherent.{Coherent}
use mobile_phone_os.AbTable.{table_size, valid_at, attempts_at, confirmed_at, flagged}
use mobile_phone_os.Abmgr.{
  Abmgr, table_write_checked, table_write, abmgr_attach, abmgr_boot_begin, abmgr_switch,
  rolled_back, abmgr_evaluate,
}
use mobile_phone_os.Abmgr.Stored.{Stored, abmgr_attach-Stored}
use mobile_phone_os.Abmgr.Survives.{Operation, operate, operate-Outcome}

-- A disk after a restart: the device is as it was, and `caches`, which is in memory, is zero again.
abbrev pub cold : {D : Type 0} → Disk D → Disk D
cold c = record c { line = λ idx. record { valid = false; lba = 0; bytes = λ i. 0 } }

cold-Coherent : {D : Type 0} (drv : Driver D) (c : Disk D) → Coherent drv (cold c)
cold-Coherent drv c idx v = absurd (cc v)

module _ {D : Type 0} (drv : Driver D) where
  -- Where the device holds the table, which is valid and lies below sector 2^64 - 1, the cache tells the
  -- truth, possibly but for the sector of the table, the driver takes transfers of a sector or more, and the
  -- flags of the table agree with the variable for the active slot: an operation on the active slot that
  -- reports no error survives a restart: `abmgr_attach` on the same device with an empty cache, whatever the
  -- manager knew before, succeeds if its read of the device does, and has the same slot active.
  pub operate-survives :
      (op : Operation) (s old : Abmgr D) (n : ℕ) (sec : ℕ → ℕ)
      → Stored drv s
      → flagged s.tbl ≡ s.active
      → (operate drv op s).0 ≡ pos n
      → (block_read drv
          (cold (operate drv op s).1.disk)
          (operate drv op s).1.table_lba
          table_size
          old.tbl
          sec).0
        ≡ true
      → ((abmgr_attach drv old
            (some (cold (operate drv op s).1.disk))
            (operate drv op s).1.table_lba
            sec).0
          ≡ pos 0)
        × ((abmgr_attach drv old
              (some (cold (operate drv op s).1.disk))
              (operate drv op s).1.table_lba
              sec).1.active
            ≡ (operate drv op s).1.active)
  operate-survives op s old n sec st a done read =
      let o = operate-Outcome drv op s st a in
      let t = o.stored n done in
      let c = (operate drv op s).1.disk in
      let found =
        abmgr_attach-Stored drv (operate drv op s).1 old (cold c) sec t refl (cold-Coherent drv c)
          t.ready.limit read in
      (found.0, found.1.0 ∙ o.agrees)

  -- `n` boots in a row.
  abbrev pub boots : ℕ → Abmgr D → Abmgr D
  boots zero s = s
  boots (suc n) s = (abmgr_boot_begin drv (boots n s)).1

  -- The slot `k` is active, has not been confirmed and has been booted `n` times; the other slot holds
  -- an image.
  pub record Tried (k n r : ℕ) (s : Abmgr D) : Type 0 where
    pub loaded : s.loaded ≡ true
    pub active : s.active ≡ pos k
    pub agrees : flagged s.tbl ≡ s.active
    pub tries : s.tbl (attempts_at k) ≡ n
    pub unconfirmed : s.tbl (confirmed_at k) ≡ 0
    pub other : (s.tbl (valid_at (1 - k)) == 0) ≡ false
    pub rollbacks : s.rollbacks ≡ r

  boot_begin-Tried :
      (k n r : ℕ) (s : Abmgr D)
      → k < 2
      → n < 255
      → Tried k n r s
      → Tried k (n + 1) r (abmgr_boot_begin drv s).1
  unfolding abmgr_boot_begin table_write_checked table_write
  boot_begin-Tried zero n r s lt low t =
      let more : ltb (s.tbl (attempts_at 0)) 255 ≡ true = rw t.tries (ground (arith, low)) in
      simp (t.active, t.loaded, more)
        (record {
          loaded = refl;
          active = refl;
          agrees = t.agrees ∙ t.active;
          tries = ap (λ m. m + 1) t.tries;
          unconfirmed = t.unconfirmed;
          other = t.other;
          rollbacks = t.rollbacks;
        })
  boot_begin-Tried (suc zero) n r s lt low t =
      let more : ltb (s.tbl (attempts_at 1)) 255 ≡ true = rw t.tries (ground (arith, low)) in
      simp (t.active, t.loaded, more)
        (record {
          loaded = refl;
          active = refl;
          agrees = t.agrees ∙ t.active;
          tries = ap (λ m. m + 1) t.tries;
          unconfirmed = t.unconfirmed;
          other = t.other;
          rollbacks = t.rollbacks;
        })
  boot_begin-Tried (suc (suc k)) n r s lt low t = absurd (omega (arith, lt))

  boots-Tried :
      (k n r : ℕ) (s : Abmgr D) → k < 2 → n ≤ 255 → Tried k 0 r s → Tried k n r (boots n s)
  boots-Tried k zero r s lt low t = t
  boots-Tried k (suc n) r s lt low t =
      subst (λ m. Tried k m r (boots (suc n) s)) (omega arith)
        (boot_begin-Tried k n r (boots n s) lt (omega (arith, low))
          (boots-Tried k n r s lt (omega (arith, low)) t))

  few : (k n r : ℕ) (s : Abmgr D) → n < 3 → Tried k n r s → abmgr_evaluate drv s ≡ (pos 0, s)
  unfolding abmgr_evaluate
  few k n r s lt t =
      let early : ltb (s.tbl (attempts_at k)) 3 ≡ true = rw t.tries (ground (arith, lt)) in
      simp (t.active, t.loaded, early, t.unconfirmed) refl

  rolled_back-rest : (p : ℤ × Abmgr D) → (rolled_back drv p).1 ≡ p.1
  rolled_back-rest (pos n, s) = refl
  rolled_back-rest (negsuc n, s) = refl

  many :
      (k n r : ℕ) (s : Abmgr D)
      → k < 2
      → 3 ≤ n
      → Tried k n r s
      → ((abmgr_evaluate drv s).1.active ≡ pos (1 - k))
        × ((abmgr_evaluate drv s).1.rollbacks ≡ add32 r 1)
  unfolding abmgr_evaluate table_write_checked table_write abmgr_switch
  many zero n r s lt le t =
      let late : ltb (s.tbl (attempts_at 0)) 3 ≡ false = rw t.tries (ground (arith, le)) in
      simp (t.active, t.loaded, late, t.unconfirmed, t.other)
        (
          ap (λ z. z.active) (rolled_back-rest _),
          ap (λ z. z.rollbacks) (rolled_back-rest _) ∙ ap (λ m. add32 m 1) t.rollbacks,
        )
  many (suc zero) n r s lt le t =
      let late : ltb (s.tbl (attempts_at 1)) 3 ≡ false = rw t.tries (ground (arith, le)) in
      simp (t.active, t.loaded, late, t.unconfirmed, t.other)
        (
          ap (λ z. z.active) (rolled_back-rest _),
          ap (λ z. z.rollbacks) (rolled_back-rest _) ∙ ap (λ m. add32 m 1) t.rollbacks,
        )
  many (suc (suc k)) n r s lt le t = absurd (omega (arith, lt))

  -- Where the slot `k` is active, has not been confirmed and has not been booted yet, and the other slot
  -- holds an image: after less than three boots `abmgr_evaluate` changes nothing, and after three boots or
  -- more, up to 255, it makes the other slot the active one and counts a rollback, whether or not its
  -- writes succeed.
  pub boots-abmgr_evaluate :
      (k n r : ℕ) (s : Abmgr D)
      → k < 2
      → n ≤ 255
      → Tried k 0 r s
      → ((n < 3) × (abmgr_evaluate drv (boots n s) ≡ (pos 0, boots n s)))
        ⊎ ((3 ≤ n)
            × (((abmgr_evaluate drv (boots n s)).1.active ≡ pos (1 - k))
                × ((abmgr_evaluate drv (boots n s)).1.rollbacks ≡ add32 r 1)))
  boots-abmgr_evaluate k n r s lt le t =
      let u = boots-Tried k n r s lt le t in
      elim (dec_lt n 3) [
        | yes low ↦ inl (low, few k n r (boots n s) low u)
        | no high ↦ inr (omega (arith, high), many k n r (boots n s) lt (omega (arith, high)) u)
      ]
