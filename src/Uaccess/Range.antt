-- ===== src/Uaccess/Range.antt =====
-- The checks of a range: what they answer for, page by page and byte by byte.
use mobile_phone_os.Prelude.{
  ℕ, zero, suc, ◌+◌, ◌-◌, ◌%◌, ◌^◌, ◌≤◌, ◌<◌, ◌≡◌, ◌⊎◌, inl, inr, refl, sym, ◌∙◌, Bool, true, false,
  Option, none, some, ◌&&◌, if◌then◌else◌, ◌==◌, arith, Bool-cases, add64,
}
use native.Mathlib.Nat.{mod-eq_of_lt}
use native.Mathlib.Decide.{dec_lt}
use mobile_phone_os.Pmm.{page_size}
use mobile_phone_os.Vmm.{bit, vm_user, vm_write, vmm_probe}
use mobile_phone_os.Vmm.Page.{SamePage, vmm_probe-page}
use mobile_phone_os.Uaccess.{user_va_limit, range_ok, chunk, passes, check_range}

-- The range is empty or ends below the limit, and does not wrap.
pub range_ok-below :
    (va len : ℕ) → va < 2 ^ 64 → len < 2 ^ 64 → range_ok va len ≡ true → va + len ≤ user_va_limit
unfolding range_ok
range_ok-below va len h k e = ground arith

passes-SamePage :
    (write : Bool) (o o' : Option (ℕ × ℕ)) → SamePage o o' → passes write o ≡ passes write o'
passes-SamePage write none none h = refl
passes-SamePage write none (some b) h = absurd h
passes-SamePage write (some a) none h = absurd h
passes-SamePage write (some (pa, fl)) (some (pa', fl')) h = rw h.1 refl

-- What the rights of a page allow, a page that is not mapped having none.
abbrev pub permits : Bool → Option (ℕ × ℕ) → Bool
permits write none = false
permits write (some (pa, fl)) = if write then bit fl vm_user && bit fl vm_write else bit fl vm_user

passes-permits : (write : Bool) (o : Option (ℕ × ℕ)) → passes write o ≡ permits write o
passes-permits write none = refl
passes-permits true (some (pa, fl)) = refl
passes-permits false (some (pa, fl)) = elim (Bool-cases (bit fl vm_user)) [
  | inl e ↦ rw e refl
  | inr e ↦ rw e refl
]

-- Whether an address passes does not depend on the byte in its page.
passes-page :
    (write : Bool) (mem : ℕ → ℕ) (root va : ℕ)
    → passes write (vmm_probe mem root (va - va % page_size))
      ≡ permits write (vmm_probe mem root va)
passes-page write mem root va =
    passes-SamePage write (vmm_probe mem root (va - va % page_size)) (vmm_probe mem root va)
      (vmm_probe-page mem root (va - va % page_size) va (omega arith))
    ∙ passes-permits write (vmm_probe mem root va)

-- Every address of the range is mapped for the process, and for writing if that is asked.
abbrev pub Granted : Bool → (ℕ → ℕ) → (root va len : ℕ) → Type 0
Granted write mem root va len =
    (x : ℕ) → va ≤ x → x < va + len → permits write (vmm_probe mem root x) ≡ true

-- Some address of the range is not.
abbrev pub Refused : Bool → (ℕ → ℕ) → (root va len : ℕ) → Type 0
Refused write mem root va len =
    (x : ℕ) × (va ≤ x) × (x < va + len) × (permits write (vmm_probe mem root x) ≡ false)

passes-same_page :
    (write : Bool) (mem : ℕ → ℕ) (root va x : ℕ)
    → va - va % page_size ≡ x - x % page_size
    → passes write (vmm_probe mem root (va - va % page_size)) ≡ permits write (vmm_probe mem root x)
passes-same_page write mem root va x e = rw e (passes-page write mem root x)

pub chunk_bounds :
    (va len : ℕ)
    → 0 < len
    → (0 < chunk va len) × (chunk va len ≤ len) × (va % page_size + chunk va len ≤ page_size)
chunk_bounds va len h = ground arith

-- The addresses of one chunk are on one page.
pub chunk-page :
    (va len x : ℕ)
    → 0 < len
    → va ≤ x
    → x < va + chunk va len
    → va - va % page_size ≡ x - x % page_size
chunk-page va len x pos lo hi = omega (arith, chunk_bounds va len pos)

pub check_range-exact :
    (fuel : ℕ) (mem : ℕ → ℕ) (root va len : ℕ) (write : Bool)
    → len ≤ fuel
    → va + len < 2 ^ 64
    → ((check_range fuel mem root va len write ≡ some true) × Granted write mem root va len)
      ⊎ ((check_range fuel mem root va len write ≡ some false) × Refused write mem root va len)
unfolding check_range
check_range-exact zero mem root va len write le fits =
    inl (ground arith, λ x lo hi. absurd (omega arith))
check_range-exact (suc fuel) mem root va len write le fits = elim (Bool-cases (len == 0)) [
  | inl e ↦ rw e (inl (refl, λ x lo hi. absurd (ground (arith, e))))
  | inr e ↦
      let pos : 0 < len = ground (arith, e) in
      let b : (0 < chunk va len)
          × (chunk va len ≤ len)
          × (va % page_size + chunk va len ≤ page_size) =
        chunk_bounds va len pos in
      let step : add64 va (chunk va len) ≡ va + chunk va len = mod-eq_of_lt (omega arith) in
      rw e (elim (Bool-cases (passes write (vmm_probe mem root (va - va % page_size)))) [
        | inl p ↦
            rw (p, step)
              (elim (check_range-exact fuel mem root (va + chunk va len) (len - chunk va len) write
                (omega arith) (omega arith)) [
                  | inl q ↦ inl (
                    q.0,
                    λ x lo hi. elim (dec_lt x (va + chunk va len)) [
                      | yes near ↦
                          sym
                            (passes-same_page write mem root va x (chunk-page va len x pos lo near))
                          ∙ p
                      | no far ↦ q.1 x (omega arith) (omega arith)
                    ],
                  )
                  | inr q ↦ inr (q.0, (q.1.0, omega (arith, q.1.1), omega (arith, q.1.2), q.1.3))
                ])
        | inr p ↦
            rw p
              (inr (refl, (va, omega arith, omega arith, sym (passes-page write mem root va) ∙ p)))
      ])
]
