-- ===== src/Vmm.antt =====
-- mm/vmm.c: page tables of four levels, the walk that maps a page and the one that looks it up. A
-- table is the address of its frame; the words of all frames are `mem` of the allocator. Where the
-- code joins fields that have no bit in common by `|`, they are added: addresses are below 2 ^ 48.
pub mod Page
pub mod Leaf
pub mod Grow
pub mod Samples
pub mod Mapped
pub mod Map
pub mod Unmap
mod Tests
use Prim.Native.Nat.{bit_or}
use mobile_phone_os.Prelude.{
  ℕ, ◌+◌, ◌-◌, ◌*◌, ◌/◌, ◌%◌, ◌^◌, Bool, not, ◌&&◌, ◌||◌, Option, none, some, List, [], ◌∷◌, ltb,
  leb, ◌==◌, if◌then◌else◌, update, ℤ, pos, negsuc,
}
use mobile_phone_os.Pmm.{Pmm, page_size, pmm_alloc}

-- Bit `k` of a word: `d & (1 << k)`.
abbrev pub bit : ℕ → ℕ → Bool
bit d k = d / 2 ^ k % 2 == 1

-- The numbers of the flags VM_WRITE, VM_EXEC, VM_USER and VM_DEVICE; VM_READ is 0.
abbrev pub vm_write : ℕ
vm_write = 1

abbrev pub vm_exec : ℕ
vm_exec = 2

abbrev pub vm_user : ℕ
vm_user = 3

abbrev pub vm_device : ℕ
vm_device = 4

-- `desc & PT_ADDR_MASK`
abbrev pub table_ptr : ℕ → ℕ
table_ptr desc = desc % 2 ^ 48 - desc % page_size

-- `leaf_desc`: valid, page, attributes, AP, inner shareable, AF, nG, XN and the address.
unfoldable pub leaf_desc : (pa flags : ℕ) → ℕ
leaf_desc pa flags =
    let ap =
      if bit flags vm_user
      then if bit flags vm_write then 1 else 3
      else if bit flags vm_write
      then 0
      else 2 in
    let xn =
      if not (bit flags vm_exec)
      then 2 ^ 53 + 2 ^ 54
      else if bit flags vm_user
      then 2 ^ 53
      else 2 ^ 54 in
    let attr = if bit flags vm_device then 4 else 0 in
    let ng = if bit flags vm_user then 2 ^ 11 else 0 in
    3 + attr + ap * 2 ^ 6 + 3 * 2 ^ 8 + 2 ^ 10 + ng + xn + (pa - pa % page_size)

abbrev pub table_desc : ℕ → ℕ
table_desc table_pa = 3 + table_pa

unfoldable pub vmm_decode_flags : ℕ → ℕ
vmm_decode_flags desc =
    1
    + (if not (bit desc 7) then 2 else 0)
    + (if bit desc 6 then 8 else 0)
    + (if not (bit desc 54) then 4 else 0)
    + (if desc / 4 % 4 == 1 then 16 else 0)

-- The shifts of the levels above the last, `level_shift`.
abbrev pub level_shift : List ℕ
level_shift = 39 ∷ 30 ∷ 21 ∷ []

-- The address of the entry of the table `t` for `va` at the level with this shift.
abbrev pub entry : (t va shift : ℕ) → ℕ
entry t va shift = t + 8 * (va / 2 ^ shift % 512)

-- The walk of `vmm_probe` from a table on: the physical address and the decoded flags.
unfoldable pub probe_walk : (ℕ → ℕ) → List ℕ → (t va : ℕ) → Option (ℕ × ℕ)
probe_walk mem [] t va =
    let d = mem (entry t va 12) in
    if not (bit d 0) then none else some (table_ptr d + va % page_size, vmm_decode_flags d)
probe_walk mem (s ∷ ss) t va =
    let d = mem (entry t va s) in
    if not (bit d 0)
    then none
    else if not (bit d 1)
    then some (bit_or (table_ptr d) (va % 2 ^ s), vmm_decode_flags d)
    else probe_walk mem ss (table_ptr d) va

unfoldable pub vmm_probe : (ℕ → ℕ) → (root va : ℕ) → Option (ℕ × ℕ)
unfolding probe_walk
vmm_probe mem root va = probe_walk mem level_shift root va

-- The loop that clears a fresh table.
abbrev pub zeroed : (ℕ → ℕ) → ℕ → ℕ → ℕ
zeroed mem nt a = if leb nt a && ltb a (nt + page_size) then 0 else mem a

-- The walk of `vmm_map_at` from a table on.
unfoldable pub map_walk : Pmm → List ℕ → (t va pa flags : ℕ) → ℤ × Pmm
map_walk m [] t va pa flags =
    if bit (m.mem (entry t va 12)) 0
    then (negsuc 3, m)
    else (pos 0, record m { mem = update m.mem (entry t va 12) (leaf_desc pa flags) })
map_walk m (s ∷ ss) t va pa flags =
    let d = m.mem (entry t va s) in
    let nt = (pmm_alloc m).0 in
    let m' = (pmm_alloc m).1 in
    let grown = record m' { mem = update (zeroed m'.mem nt) (entry t va s) (table_desc nt) } in
    let grow = map_walk grown ss (table_ptr (table_desc nt)) va pa flags in
    let rest = map_walk m ss (table_ptr d) va pa flags in
    if not (bit d 0)
    then if nt == 0 then (negsuc 1, m') else grow
    else if bit d 1
    then rest
    else (negsuc 2, m)

unfoldable pub vmm_map_at : Pmm → (root va pa flags : ℕ) → ℤ × Pmm
unfolding map_walk
vmm_map_at m root va pa flags =
    if not (va % page_size == 0) || not (pa % page_size == 0)
    then (negsuc 0, m)
    else map_walk m level_shift root va pa flags

-- The walk of `vmm_unmap_at` from a table on.
unfoldable pub unmap_walk : (ℕ → ℕ) → List ℕ → (t va : ℕ) → ℤ × (ℕ → ℕ)
unmap_walk mem [] t va =
    if not (bit (mem (entry t va 12)) 0)
    then (negsuc 0, mem)
    else (pos 0, update mem (entry t va 12) 0)
unmap_walk mem (s ∷ ss) t va =
    let d = mem (entry t va s) in
    if not (bit d 0)
    then (negsuc 0, mem)
    else if not (bit d 1)
    then (pos 0, update mem (entry t va s) 0)
    else unmap_walk mem ss (table_ptr d) va

unfoldable pub vmm_unmap_at : (ℕ → ℕ) → (root va : ℕ) → ℤ × (ℕ → ℕ)
unfolding unmap_walk
vmm_unmap_at mem root va = unmap_walk mem level_shift root va
