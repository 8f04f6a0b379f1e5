-- ===== src/Vmm/Page.antt =====
-- What a lookup answers for the addresses of one page.
use Prim.Native.Nat.{bit_or}
use mobile_phone_os.Prelude.{
  ℕ, ◌+◌, ◌*◌, ◌/◌, ◌%◌, ◌^◌, ◌≡◌, inl, inr, refl, ap, ◌∙◌, sym, Option, none, some, arith,
  Bool-cases, List, [], ◌∷◌, All,
}
use mobile_phone_os.Prelude.Bits.{bit_or-page}
use mobile_phone_os.Pmm.{page_size}
use mobile_phone_os.Vmm.{bit, vmm_probe, probe_walk, entry, table_ptr}

-- Both are mapped to one page with the same flags, or neither is.
abbrev pub SamePage : Option (ℕ × ℕ) → Option (ℕ × ℕ) → Type 0
SamePage none none = Unit
SamePage none (some b) = ⊥
SamePage (some a) none = ⊥
SamePage (some (pa, fl)) (some (pa', fl')) = (pa / page_size ≡ pa' / page_size) × (fl ≡ fl')

-- The shift takes off at least the bits of a page, and the rest of the two addresses is one.
record Agree (va va' s : ℕ) : Type 0 where
  above : va / 2 ^ s ≡ va' / 2 ^ s
  within : va % 2 ^ s / page_size ≡ va' % 2 ^ s / page_size

probe_walk-page :
    (mem : ℕ → ℕ) (ss : List ℕ) (t va va' : ℕ)
    → All (Agree va va') ss
    → va / page_size ≡ va' / page_size
    → SamePage (probe_walk mem ss t va) (probe_walk mem ss t va')
unfolding probe_walk
probe_walk-page mem [] t va va' same last =
    let e : entry t va 12 ≡ entry t va' 12 = ap (λ x. t + 8 * (x % 512)) last in
    rw e (elim (Bool-cases (bit (mem (entry t va' 12)) 0)) [
      | inl v ↦ rw v (omega arith, refl)
      | inr v ↦ rw v tt
    ])
probe_walk-page mem (s ∷ ss) t va va' same last =
    let e : entry t va s ≡ entry t va' s = ap (λ x. t + 8 * (x % 512)) same.0.above in
    let d = mem (entry t va' s) in
    rw e (elim (Bool-cases (bit d 0)) [
      | inl v ↦ rw v (elim (Bool-cases (bit d 1)) [
        | inl w ↦ rw w (probe_walk-page mem ss (table_ptr d) va va' same.1 last)
        | inr w ↦ rw w (
          bit_or-page (table_ptr d) (va % 2 ^ s)
              ∙ ap (bit_or (table_ptr d / page_size)) same.0.within
              ∙ sym (bit_or-page (table_ptr d) (va' % 2 ^ s)),
          refl,
        )
      ])
      | inr v ↦ rw v tt
    ])

pub vmm_probe-page :
    (mem : ℕ → ℕ) (root va va' : ℕ)
    → va / page_size ≡ va' / page_size
    → SamePage (vmm_probe mem root va) (vmm_probe mem root va')
unfolding vmm_probe
vmm_probe-page mem root va va' e =
    probe_walk-page mem (39 ∷ 30 ∷ 21 ∷ []) root va va'
      (
        record { above = omega arith; within = omega arith },
        (
          record { above = omega arith; within = omega arith },
          (record { above = omega arith; within = omega arith }, tt),
        ),
      )
      e
