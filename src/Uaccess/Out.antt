-- ===== src/Uaccess/Out.antt =====
-- `uacc_copy_out`: which bytes of the memory it writes.
use mobile_phone_os.Prelude.{
  ℕ, zero, suc, ◌+◌, ◌-◌, ◌%◌, ◌^◌, ◌≤◌, ◌<◌, ◌≡◌, ◌⊎◌, inl, inr, refl, sym, ap, ◌∙◌, Bool, true,
  false, ◌&&◌, Option, none, some, ltb, leb, ◌==◌, arith, subst, some_inj, Bool-cases, add64, ℤ,
  pos,
}
use native.Mathlib.Nat.{mod-eq_of_lt}
use mobile_phone_os.Pmm.{page_size}
use mobile_phone_os.Vmm.{vmm_probe}
use mobile_phone_os.Vmm.Page.{SamePage, vmm_probe-page}
use mobile_phone_os.Uaccess.{
  user_va_limit, efault, range_ok, chunk, copied_between, place, copy_out_loop, uacc_copy_out,
}
use mobile_phone_os.Uaccess.Range.{
  permits, Granted, chunk_bounds, chunk-page, check_range-exact, range_ok-below, Refused,
}

-- The address `x` of the process is mapped to the physical address `a`.
pub record MapsTo (mem : ℕ → ℕ) (root x a : ℕ) : Type 0 where
  pub pa : ℕ
  pub fl : ℕ
  pub found : vmm_probe mem root x ≡ some (pa, fl)
  pub there : a ≡ place pa x

-- A lookup with rights finds something.
pub permits-some :
    (write : Bool) (o : Option (ℕ × ℕ))
    → permits write o ≡ true
    → (pa : ℕ) × (fl : ℕ) × (o ≡ some (pa, fl))
permits-some write none h = absurd (cc h)
permits-some write (some (pa, fl)) h = (pa, fl, refl)

place-SamePage :
    (o : Option (ℕ × ℕ)) (pa fl va x : ℕ)
    → SamePage (some (pa, fl)) o
    → va ≤ x
    → va - va % page_size ≡ x - x % page_size
    → (pa' : ℕ) × (fl' : ℕ) × (o ≡ some (pa', fl')) × (place pa va + (x - va) ≡ place pa' x)
place-SamePage none pa fl va x h le e = absurd h
place-SamePage (some (pa', fl')) pa fl va x h le e = (pa', fl', refl, omega (arith, h.0))

-- The addresses of one chunk are mapped one after another.
pub chunk-MapsTo :
    (mem : ℕ → ℕ) (root va len x pa fl : ℕ)
    → 0 < len
    → vmm_probe mem root va ≡ some (pa, fl)
    → va ≤ x
    → x < va + chunk va len
    → MapsTo mem root x (place pa va + (x - va))
chunk-MapsTo mem root va len x pa fl more e lo hi =
    let page : va - va % page_size ≡ x - x % page_size = chunk-page va len x more lo hi in
    let same : SamePage (vmm_probe mem root va) (vmm_probe mem root x) =
      vmm_probe-page mem root va x (omega (arith, page)) in
    let r : (pa' : ℕ) × (fl' : ℕ) × (vmm_probe mem root x ≡ some (pa', fl'))
        × (place pa va + (x - va) ≡ place pa' x) =
      place-SamePage (vmm_probe mem root x) pa fl va x
        (subst (λ o. SamePage o (vmm_probe mem root x)) e same) lo page in
    record { pa = r.0; fl = r.1; found = r.2; there = r.3 }

-- A byte is as it was, or it is the page of an address of the range.
abbrev pub WrittenIn : (mem phys phys' : ℕ → ℕ) → (root va len : ℕ) → Type 0
WrittenIn mem phys phys' root va len =
    (a : ℕ) → (phys' a ≡ phys a) ⊎ ((x : ℕ) × (va ≤ x) × (x < va + len) × MapsTo mem root x a)

copied-WrittenIn :
    (mem phys ksrc : ℕ → ℕ) (root va k len pa fl : ℕ)
    → 0 < len
    → vmm_probe mem root va ≡ some (pa, fl)
    → WrittenIn mem phys
        (copied_between phys (place pa va) ksrc k (chunk va len))
        root
        va
        (chunk va len)
copied-WrittenIn mem phys ksrc root va k len pa fl more e a =
    elim (Bool-cases (leb (place pa va) a && ltb a (place pa va + chunk va len))) [
      | inl h ↦
          let lo : place pa va ≤ a = ground (arith, h) in
          let hi : a < place pa va + chunk va len = ground (arith, h) in
          let back : place pa va + ((va + (a - place pa va)) - va) ≡ a = omega arith in
          inr (
            va + (a - place pa va),
            omega arith,
            omega arith,
            subst (MapsTo mem root (va + (a - place pa va))) back (
                chunk-MapsTo mem root va len (va + (a - place pa va)) pa fl more e (omega arith)
                  (omega arith)),
          )
      | inr h ↦ inl (rw h refl)
    ]

WrittenIn-append :
    (mem phys phys' phys'' : ℕ → ℕ) (root va n len : ℕ)
    → n ≤ len
    → WrittenIn mem phys phys' root va n
    → WrittenIn mem phys' phys'' root (va + n) (len - n)
    → WrittenIn mem phys phys'' root va len
WrittenIn-append mem phys phys' phys'' root va n len le h k a = elim (k a) [
  | inl e ↦ elim (h a) [
    | inl e' ↦ inl (e ∙ e')
    | inr r ↦ inr (r.0, omega (arith, r.1), omega (arith, r.2), r.3)
  ]
  | inr r ↦ inr (r.0, omega (arith, r.1), omega (arith, r.2), r.3)
]

pub copy_out_loop-turn :
    (fuel : ℕ) (mem phys ksrc : ℕ → ℕ) (root udst k len pa fl : ℕ)
    → (len == 0) ≡ false
    → vmm_probe mem root udst ≡ some (pa, fl)
    → add64 udst (chunk udst len) ≡ udst + chunk udst len
    → copy_out_loop (suc fuel) mem phys ksrc root udst k len
      ≡ copy_out_loop fuel mem
          (copied_between phys (place pa udst) ksrc k (chunk udst len))
          ksrc
          root
          (udst + chunk udst len)
          (k + chunk udst len)
          (len - chunk udst len)
unfolding copy_out_loop
copy_out_loop-turn fuel mem phys ksrc root udst k len pa fl e p step = rw (e, p, step) refl

pub copy_out_loop-WrittenIn :
    (fuel : ℕ) (mem phys ksrc : ℕ → ℕ) (root udst k len : ℕ)
    → len ≤ fuel
    → udst + len < 2 ^ 64
    → Granted true mem root udst len
    → (phys' : ℕ → ℕ) × (copy_out_loop fuel mem phys ksrc root udst k len ≡ some phys')
      × WrittenIn mem phys phys' root udst len
unfolding copy_out_loop
copy_out_loop-WrittenIn zero mem phys ksrc root udst k len le fits g =
    (phys, ground arith, λ a. inl refl)
copy_out_loop-WrittenIn (suc fuel) mem phys ksrc root udst k len le fits g =
    elim (Bool-cases (len == 0)) [
      | inl e ↦ (phys, rw e refl, λ a. inl refl)
      | inr e ↦
          let more : 0 < len = ground (arith, e) in
          let n = chunk udst len in
          let b : (0 < n) × (n ≤ len) × (udst % page_size + n ≤ page_size) =
            chunk_bounds udst len more in
          let p : (pa : ℕ) × (fl : ℕ) × (vmm_probe mem root udst ≡ some (pa, fl)) =
            permits-some true (vmm_probe mem root udst) (g udst (omega arith) (omega arith)) in
          let phys1 = copied_between phys (place p.0 udst) ksrc k n in
          let r : (phys' : ℕ → ℕ) × (copy_out_loop fuel mem phys1 ksrc root (udst + n) (k + n)
                  (len - n)
                ≡ some phys')
              × WrittenIn mem phys1 phys' root (udst + n) (len - n) =
            copy_out_loop-WrittenIn fuel mem phys1 ksrc root (udst + n) (k + n) (len - n)
              (omega arith) (omega arith) (λ x lo hi. g x (omega arith) (omega arith)) in
          (
            r.0,
            copy_out_loop-turn fuel mem phys ksrc root udst k len p.0 p.1 e p.2
                  (mod-eq_of_lt (omega arith))
                ∙ r.1,
            WrittenIn-append mem phys phys1 r.0 root udst n len b.1
                (copied-WrittenIn mem phys ksrc root udst k len p.0 p.1 more p.2) r.2,
          )
    ]

range_ok-above :
    (va len : ℕ)
    → va < 2 ^ 64
    → len < 2 ^ 64
    → range_ok va len ≡ false
    → (user_va_limit ≤ va) ⊎ (user_va_limit < va + len)
unfolding range_ok
range_ok-above va len h k e = ground arith

-- The range leaves the addresses of a process, or contains an address that the process may not
-- access in this way.
abbrev pub Forbidden : Bool → (ℕ → ℕ) → (root va len : ℕ) → Type 0
Forbidden write mem root va len =
    (user_va_limit ≤ va) ⊎ (user_va_limit < va + len) ⊎ Refused write mem root va len

-- What comes of a copy to a process.
pub data CopyOut (mem phys : ℕ → ℕ) (root va len : ℕ) : Option (ℤ × (ℕ → ℕ)) → Type 0 where
  refused : Forbidden true mem root va len → CopyOut mem phys root va len (some (efault, phys))
  done :
      (phys' : ℕ → ℕ)
      → va + len ≤ user_va_limit
      → Granted true mem root va len
      → WrittenIn mem phys phys' root va len
      → CopyOut mem phys root va len (some (pos 0, phys'))

-- A copy to a process always ends. It fails and writes nothing, and then the range leaves the
-- addresses of a process or contains an address that the process may not write; or it succeeds, and
-- then the process may write all of the range, and no byte has changed but those to which the
-- addresses of the range are mapped.
pub uacc_copy_out-safe :
    (mem phys ksrc : ℕ → ℕ) (root udst len : ℕ)
    → udst < 2 ^ 64
    → len < 2 ^ 64
    → CopyOut mem phys root udst len (uacc_copy_out mem phys root udst ksrc len)
unfolding uacc_copy_out
uacc_copy_out-safe mem phys ksrc root udst len h k = elim (Bool-cases (range_ok udst len)) [
  | inl e ↦
      let below : udst + len ≤ user_va_limit = range_ok-below udst len h k e in
      rw e (elim (check_range-exact len mem root udst len true (omega arith) (omega arith)) [
        | inl c ↦
            let r : (phys' : ℕ → ℕ) × (copy_out_loop len mem phys ksrc root udst 0 len ≡ some phys')
                × WrittenIn mem phys phys' root udst len =
              copy_out_loop-WrittenIn len mem phys ksrc root udst 0 len (omega arith) (omega arith)
                c.1 in
            rw (c.0, r.1) (done r.0 below c.1 r.2)
        | inr c ↦ rw c.0 (refused (inr (inr c.1)))
      ])
  | inr e ↦
      rw e (refused (elim (range_ok-above udst len h k e) [ inl a ↦ inl a | inr a ↦ inr (inl a) ]))
]

-- What a copy that succeeds has done.
pub uacc_copy_out-done :
    (mem phys ksrc phys' : ℕ → ℕ) (root udst len : ℕ)
    → udst < 2 ^ 64
    → len < 2 ^ 64
    → uacc_copy_out mem phys root udst ksrc len ≡ some (pos 0, phys')
    → (range_ok udst len ≡ true)
      × Granted true mem root udst len
      × (copy_out_loop len mem phys ksrc root udst 0 len ≡ some phys')
unfolding uacc_copy_out
uacc_copy_out-done mem phys ksrc phys' root udst len h k e = elim (Bool-cases (range_ok udst len)) [
  | inl ok ↦
      let below : udst + len ≤ user_va_limit = range_ok-below udst len h k ok in
      elim (check_range-exact len mem root udst len true (omega arith) (omega arith)) [
        | inl c ↦
            let r : (new : ℕ → ℕ) × (copy_out_loop len mem phys ksrc root udst 0 len ≡ some new)
                × WrittenIn mem phys new root udst len =
              copy_out_loop-WrittenIn len mem phys ksrc root udst 0 len (omega arith) (omega arith)
                c.1 in
            (ok, c.1, r.1 ∙ ap some (new_is r.0 (rw (ok, c.0, r.1) at e)))
        | inr c ↦ absurd (ended (rw (ok, c.0) at e))
      ]
  | inr bad ↦ absurd (ended (rw bad at e))
]
  where
    ended : ◌≡◌ {A = Option (ℤ × (ℕ → ℕ))} (some (efault, phys)) (some (pos 0, phys')) → ⊥
    ended q = cc

    new_is :
        (new : ℕ → ℕ)
        → ◌≡◌ {A = Option (ℤ × (ℕ → ℕ))} (some (pos 0, new)) (some (pos 0, phys'))
        → new ≡ phys'
    new_is new q = ap (λ (x : ℤ × (ℕ → ℕ)). x.1) (some_inj q)

uacc_copy_out-WrittenIn :
    (mem phys ksrc phys' : ℕ → ℕ) (root udst len : ℕ)
    → udst < 2 ^ 64
    → len < 2 ^ 64
    → uacc_copy_out mem phys root udst ksrc len ≡ some (pos 0, phys')
    → WrittenIn mem phys phys' root udst len
uacc_copy_out-WrittenIn mem phys ksrc phys' root udst len h k e =
    let d : (range_ok udst len ≡ true)
        × Granted true mem root udst len
        × (copy_out_loop len mem phys ksrc root udst 0 len ≡ some phys') =
      uacc_copy_out-done mem phys ksrc phys' root udst len h k e in
    let below : udst + len ≤ user_va_limit = range_ok-below udst len h k d.0 in
    let r : (new : ℕ → ℕ) × (copy_out_loop len mem phys ksrc root udst 0 len ≡ some new)
        × WrittenIn mem phys new root udst len =
      copy_out_loop-WrittenIn len mem phys ksrc root udst 0 len (omega arith) (omega arith) d.1 in
    subst (λ q. WrittenIn mem phys q root udst len) (some_inj (sym r.1 ∙ d.2)) r.2
