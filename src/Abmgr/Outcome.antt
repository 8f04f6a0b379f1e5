-- ===== src/Abmgr/Outcome.antt =====
-- What every operation of the slot manager comes to, and the steps that they share.
use mobile_phone_os.Prelude.{
  ℕ, ◌+◌, ◌^◌, ◌<◌, ◌≡◌, ◌⊎◌, inl, inr, refl, sym, subst, ◌∙◌, Bool, true, false, not, ◌==◌,
  if◌then◌else◌, Bool-cases, ℤ, pos, negsuc,
}
use mobile_phone_os.Block.{Driver}
use mobile_phone_os.Block.Fill.{CoherentBut}
use mobile_phone_os.AbTable.{version_at, active_at, get32, flagged}
use mobile_phone_os.Abmgr.{Abmgr, enodev, eio, table_write, table_write_checked, on_active}
use mobile_phone_os.Abmgr.Stored.{Ready, Stored, table_write-Ready, table_write-Stored}

pub slots :
    (t : ℕ → ℕ)
    → (flagged t ≡ pos 0)
      ⊎ ((flagged t ≡ pos 1)
          ⊎ ((((t (active_at 0) == 0) ≡ true) × ((t (active_at 1) == 0) ≡ true))
              × (flagged t ≡ negsuc 0)))
slots t = elim (Bool-cases (t (active_at 0) == 0)) [
  | inl z ↦ elim (Bool-cases (t (active_at 1) == 0)) [
    | inl w ↦ inr (inr ((z, w), rw (z, w) refl))
    | inr w ↦ inr (inl (rw (z, w) refl))
  ]
  | inr z ↦ inl (rw z refl)
]

pos_injective : {m n : ℕ} → pos m ≡ pos n → m ≡ n
pos_injective e = cc e

-- The active slot is one of the two.
pub one_of : (P : ℕ → Type 0) (t : ℕ → ℕ) (k : ℕ) → flagged t ≡ pos k → P 0 → P 1 → P k
one_of P t k e p0 p1 = elim (slots t) [
  | inl f ↦ subst P (pos_injective (sym f ∙ e)) p0
  | inr (inl f) ↦ subst P (pos_injective (sym f ∙ e)) p1
  | inr (inr (_, f)) ↦ absurd (cc (sym f ∙ e))
]

module _ {D : Type 0} (drv : Driver D) where
  -- What an operation comes to: a result that is not an error promises that the device has the table.
  pub record Outcome (r : ℤ × Abmgr D) : Type 0 where
    pub ready : Ready drv r.1
    pub agrees : flagged r.1.tbl ≡ r.1.active
    pub stored : (n : ℕ) → r.0 ≡ pos n → Stored drv r.1

  pub refused :
      (s : Abmgr D) (e : ℕ) → Ready drv s → flagged s.tbl ≡ s.active → Outcome (negsuc e, s)
  refused s e r a = record { ready = r; agrees = a; stored = λ n q. absurd (cc q) }

  table_write-agrees : (s : Abmgr D) → flagged (table_write drv s).1.tbl ≡ flagged s.tbl
  unfolding table_write
  table_write-agrees s = refl

  pub whether :
      (b : Bool) (p q : ℤ × Abmgr D) → Outcome p → Outcome q → Outcome (if b then p else q)
  whether true p q u v = u
  whether false p q u v = v

  written :
      (b : Bool) (s : Abmgr D)
      → Ready drv s
      → flagged s.tbl ≡ s.active
      → (b ≡ true → Stored drv s)
      → Outcome (if b then pos 0 else eio, s)
  written true s r a st = record { ready = r; agrees = a; stored = λ n q. st refl }
  written false s r a st = refused s 4 r a

  pub table_write_checked-Outcome :
      (s : Abmgr D) → Ready drv s → flagged s.tbl ≡ s.active → Outcome (table_write_checked drv s)
  unfolding table_write_checked
  table_write_checked-Outcome s r a =
      whether (not s.loaded) (enodev, s) _ (refused s 18 r a)
        (written (table_write drv s).0 (table_write drv s).1 (table_write-Ready drv s r)
          (table_write-agrees s ∙ a) (table_write-Stored drv s r))

  pub on_active-Outcome :
      (s : Abmgr D) (x : ℤ) (f : ℕ → ℤ × Abmgr D)
      → Ready drv s
      → flagged s.tbl ≡ s.active
      → s.active ≡ x
      → Outcome (f 0)
      → Outcome (f 1)
      → Outcome (on_active drv s x f)
  on_active-Outcome s (negsuc n) f r a e f0 f1 = refused s 18 r a
  on_active-Outcome s (pos k) f r a e f0 f1 =
      whether (not s.loaded) (enodev, s) _ (refused s 18 r a)
        (one_of (λ j. Outcome (f j)) s.tbl k (a ∙ e) f0 f1)

  -- The head of the table and the device of another state.
  with_table :
      (s s' : Abmgr D)
      → s'.disk ≡ s.disk
      → s'.table_lba ≡ s.table_lba
      → get32 s'.tbl 0 ≡ get32 s.tbl 0
      → get32 s'.tbl version_at ≡ get32 s.tbl version_at
      → Ready drv s
      → Ready drv s'
  with_table s s' d l n v r = record {
    coherent =
        subst (λ x. CoherentBut drv s'.disk x (x + 1)) (sym l)
          (subst (λ c. CoherentBut drv c s.table_lba (s.table_lba + 1)) (sym d) r.coherent);
    limit = subst (λ c. 0 < c.max_sectors) (sym d) r.limit;
    place = subst (λ x. x + 1 < 2 ^ 64) (sym l) r.place;
    named = n ∙ r.named;
    version = v ∙ r.version;
  }

  pub checked :
      (s s' : Abmgr D)
      → s'.disk ≡ s.disk
      → s'.table_lba ≡ s.table_lba
      → get32 s'.tbl 0 ≡ get32 s.tbl 0
      → get32 s'.tbl version_at ≡ get32 s.tbl version_at
      → Ready drv s
      → flagged s'.tbl ≡ s'.active
      → Outcome (table_write_checked drv s')
  checked s s' d l n v r a = table_write_checked-Outcome s' (with_table s s' d l n v r) a
