-- ===== src/Vmm/Leaf.antt =====
-- The descriptors of pages and tables, and what is read out of them.
use mobile_phone_os.Prelude.{ℕ, ◌%◌, ◌^◌, ◌<◌, ◌≡◌, true, arith, Bool-cases, inl, inr}
use mobile_phone_os.Pmm.{page_size}
use mobile_phone_os.Vmm.{
  bit, vm_write, vm_exec, vm_user, vm_device, leaf_desc, table_desc, table_ptr, vmm_decode_flags,
}

pub leaf_desc-page :
    (pa flags : ℕ)
    → pa % page_size ≡ 0
    → pa < 2 ^ 48
    → (bit (leaf_desc pa flags) 0 ≡ true) × (table_ptr (leaf_desc pa flags) ≡ pa)
unfolding leaf_desc
leaf_desc-page pa flags h lt = ground arith

-- The flags of a page of a process come back.
pub leaf_desc-flags :
    (pa flags : ℕ)
    → pa % page_size ≡ 0
    → pa < 2 ^ 48
    → flags < 32
    → bit flags 0 ≡ true
    → bit flags vm_user ≡ true
    → vmm_decode_flags (leaf_desc pa flags) ≡ flags
unfolding leaf_desc vmm_decode_flags
leaf_desc-flags pa flags h lt few read user = rw user (elim (Bool-cases (bit flags vm_write)) [
  | inl w ↦ rw w (elim (Bool-cases (bit flags vm_exec)) [
    | inl x ↦ rw x (elim (Bool-cases (bit flags vm_device)) [
      | inl d ↦ rw d (ground arith)
      | inr d ↦ rw d (ground arith)
    ])
    | inr x ↦ rw x (elim (Bool-cases (bit flags vm_device)) [
      | inl d ↦ rw d (ground arith)
      | inr d ↦ rw d (ground arith)
    ])
  ])
  | inr w ↦ rw w (elim (Bool-cases (bit flags vm_exec)) [
    | inl x ↦ rw x (elim (Bool-cases (bit flags vm_device)) [
      | inl d ↦ rw d (ground arith)
      | inr d ↦ rw d (ground arith)
    ])
    | inr x ↦ rw x (elim (Bool-cases (bit flags vm_device)) [
      | inl d ↦ rw d (ground arith)
      | inr d ↦ rw d (ground arith)
    ])
  ])
])

pub table_desc-page :
    (pa : ℕ)
    → pa % page_size ≡ 0
    → pa < 2 ^ 48
    → (bit (table_desc pa) 0 ≡ true)
      × (bit (table_desc pa) 1 ≡ true)
      × (table_ptr (table_desc pa) ≡ pa)
table_desc-page pa h lt = ground arith
