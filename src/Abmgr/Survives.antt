-- ===== src/Abmgr/Survives.antt =====
-- The operations on the active slot: the flags of the table, the variable for the active slot, and the
-- table on the device.
use mobile_phone_os.Prelude.{
  ℕ, zero, suc, ◌+◌, ◌<◌, ◌≡◌, inl, inr, refl, arith, ◌∙◌, Bool, true, false, not, ◌||◌, ltb, ◌==◌,
  if◌then◌else◌, update, ℤ, pos, negsuc, add32,
}
use mobile_phone_os.Block.{Driver}
use mobile_phone_os.AbTable.{
  ab_max_attempts, valid_at, attempts_at, confirmed_at, rollbacks_at, put32, flagged,
}
use mobile_phone_os.Abmgr.{
  Abmgr, table_write_checked, abmgr_boot_begin, abmgr_confirm, switch_from, abmgr_switch,
  rolled_back, abmgr_evaluate,
}
use mobile_phone_os.Abmgr.Stored.{Ready, Stored}
use mobile_phone_os.Abmgr.Outcome.{
  slots, one_of, Outcome, refused, whether, table_write_checked-Outcome, on_active-Outcome, checked,
}

-- The operations of the boot sequence and of the shell that act on the active slot.
pub data Operation : Type 0 where
  boot_begin : Operation
  confirm : Operation
  switch : Operation
  evaluate : Operation

module _ {D : Type 0} (drv : Driver D) where
  abbrev pub operate : Operation → Abmgr D → ℤ × Abmgr D
  operate boot_begin s = abmgr_boot_begin drv s
  operate confirm s = abmgr_confirm drv s
  operate switch s = abmgr_switch drv s
  operate evaluate s = abmgr_evaluate drv s

  counted :
      (s : Abmgr D) (b : Bool) (k : ℕ)
      → Ready drv s
      → flagged s.tbl ≡ s.active
      → k < 2
      → Outcome drv (
          table_write_checked drv (
            if b
            then record s { tbl = update s.tbl (attempts_at k) (s.tbl (attempts_at k) + 1) }
            else s))
  counted s false k r a lt = table_write_checked-Outcome drv s r a
  counted s true zero r a lt = checked drv s _ refl refl refl refl r a
  counted s true (suc zero) r a lt = checked drv s _ refl refl refl refl r a
  counted s true (suc (suc k)) r a lt = absurd (omega (arith, lt))

  boot_begin-Outcome :
      (s : Abmgr D) → Ready drv s → flagged s.tbl ≡ s.active → Outcome drv (abmgr_boot_begin drv s)
  unfolding abmgr_boot_begin
  boot_begin-Outcome s r a =
      on_active-Outcome drv s s.active _ r a refl (counted s _ 0 r a (omega arith))
        (counted s _ 1 r a (omega arith))

  confirm-Outcome :
      (s : Abmgr D) → Ready drv s → flagged s.tbl ≡ s.active → Outcome drv (abmgr_confirm drv s)
  unfolding abmgr_confirm
  confirm-Outcome s r a =
      on_active-Outcome drv s s.active _ r a refl (checked drv s _ refl refl refl refl r a)
        (checked drv s _ refl refl refl refl r a)

  switch_from-Outcome :
      (s : Abmgr D) (x : ℤ)
      → Ready drv s
      → flagged s.tbl ≡ s.active
      → s.active ≡ x
      → Outcome drv (switch_from drv s x)
  switch_from-Outcome s (negsuc n) r a e = elim (slots s.tbl) [
    | inl f ↦ absurd (cc (f, a, e))
    | inr (inl f) ↦ absurd (cc (f, a, e))
    | inr (inr ((z, w), f)) ↦
        whether drv (not (s.tbl (valid_at 0) == 0)) _ _ (checked drv s _ refl refl refl refl r refl)
          (whether drv (not (s.tbl (valid_at 1) == 0)) _ _
            (checked drv s _ refl refl refl refl r (rw z refl)) (refused drv s 21 r a))
  ]
  switch_from-Outcome s (pos k) r a e =
      one_of (λ j. Outcome drv (switch_from drv s (pos j))) s.tbl k (a ∙ e)
        (whether drv (s.tbl (valid_at 1) == 0) _ _ (refused drv s 21 r a)
          (checked drv s _ refl refl refl refl r refl))
        (whether drv (s.tbl (valid_at 0) == 0) _ _ (refused drv s 21 r a)
          (checked drv s _ refl refl refl refl r refl))

  switch-Outcome :
      (s : Abmgr D) → Ready drv s → flagged s.tbl ≡ s.active → Outcome drv (abmgr_switch drv s)
  unfolding abmgr_switch
  switch-Outcome s r a =
      whether drv (not s.loaded) _ _ (refused drv s 18 r a)
        (switch_from-Outcome s s.active r a refl)

  rolled_back-Outcome : (p : ℤ × Abmgr D) → Outcome drv p → Outcome drv (rolled_back drv p)
  rolled_back-Outcome (pos n, s) o = record {
    ready = o.ready;
    agrees = o.agrees;
    stored = λ m q. o.stored n refl;
  }
  rolled_back-Outcome (negsuc n, s) o = refused drv s n o.ready o.agrees

  evaluate-Outcome :
      (s : Abmgr D) → Stored drv s → flagged s.tbl ≡ s.active → Outcome drv (abmgr_evaluate drv s)
  unfolding abmgr_evaluate
  evaluate-Outcome s st a =
      let back =
        (let o =
            checked drv s
              (record s {
                rollbacks = add32 s.rollbacks 1;
                tbl = put32 s.tbl rollbacks_at (add32 s.rollbacks 1);
              })
              refl refl refl refl st.ready a in
          rolled_back-Outcome _ (switch-Outcome _ o.ready o.agrees)) in
      on_active-Outcome drv s s.active _ st.ready a refl
        (whether drv
          (not (s.tbl (confirmed_at 0) == 0) || ltb (s.tbl (attempts_at 0)) ab_max_attempts)
          (pos 0, s) _ (record { ready = st.ready; agrees = a; stored = λ n q. st }) back)
        (whether drv
          (not (s.tbl (confirmed_at 1) == 0) || ltb (s.tbl (attempts_at 1)) ab_max_attempts)
          (pos 0, s) _ (record { ready = st.ready; agrees = a; stored = λ n q. st }) back)

  -- Where the device holds the table and its flags agree with the variable for the active slot, they
  -- agree after an operation too, whatever it reports. If it reports no error, then the device holds
  -- the table as it is now.
  pub operate-Outcome :
      (op : Operation) (s : Abmgr D)
      → Stored drv s
      → flagged s.tbl ≡ s.active
      → Outcome drv (operate op s)
  operate-Outcome boot_begin s st a = boot_begin-Outcome s st.ready a
  operate-Outcome confirm s st a = confirm-Outcome s st.ready a
  operate-Outcome switch s st a = switch-Outcome s st.ready a
  operate-Outcome evaluate s st a = evaluate-Outcome s st a
