-- ===== src/Vmm/Tests.antt =====
-- The tables of one process, and a root without tables.
use mobile_phone_os.Prelude.{
  ℕ, suc, ◌+◌, ◌*◌, ◌/◌, ◌%◌, ◌^◌, ◌<◌, ◌≡◌, ◌⊎◌, inl, inr, refl, sym, ap, update, ◌∙◌, true, some,
  none, List, [], ◌∷◌, All, arith, ◌==◌, if◌then◌else◌, pos, negsuc,
}
use mobile_phone_os.Pmm.{Pmm, page_size, pmm_alloc}
use mobile_phone_os.Pmm.Frames.{IsFrame, IsValid}
use mobile_phone_os.Vmm.{
  bit, table_ptr, vmm_probe, vmm_map_at, vmm_unmap_at, leaf_desc, vmm_decode_flags,
}
use mobile_phone_os.Vmm.Samples.{tables, code_base}
use mobile_phone_os.Vmm.Grow.{IsTree, Free}
use mobile_phone_os.Vmm.Map.{vmm_map_at-vmm_probe}
use mobile_phone_os.Vmm.Unmap.{vmm_unmap_at-vmm_probe, vmm_probe-vmm_map_at}

abbrev tiers : ℕ → ℕ
tiers t =
    if t == 4096
    then 4
    else if t == 8192
    then 3
    else if t == 12288
    then 2
    else if t == 16384
    then 1
    else 0

-- A word of `tables` that is not 0.
tables-entry :
    (t k : ℕ)
    → 1 < tiers t
    → k < 512
    → ((t ≡ 4096) × (k ≡ 2))
      ⊎ ((t ≡ 8192) × (k ≡ 0))
      ⊎ ((t ≡ 12288) × (k ≡ 0))
      ⊎ (tables (t + 8 * k) ≡ 0)
tables-entry t k h lt = ground arith

tables-next :
    (t k : ℕ)
    → 1 < tiers t
    → k < 512
    → bit (tables (t + 8 * k)) 0 ≡ true
    → suc (tiers (table_ptr (tables (t + 8 * k)))) ≡ tiers t
tables-next t k h lt b0 = elim (tables-entry t k h lt) [
  | inl e ↦ rw (e.0, e.1) refl
  | inr (inl e) ↦ rw (e.0, e.1) refl
  | inr (inr (inl e)) ↦ rw (e.0, e.1) refl
  | inr (inr (inr e)) ↦ absurd (cc (sym b0 ∙ ap (λ w. bit w 0) e))
]

tables-IsTree : IsTree tables tiers
tables-IsTree = record {
  aligned = λ t h. ground (arith, h);
  below = λ t h. ground (arith, h);
  next = λ t k h lt b0 b1. tables-next t k h lt b0;
}

-- The root is at 4096 and three frames are free.
abbrev fresh : Pmm
fresh = record {
  mem = λ a. if a == 8192 then 12288 else if a == 12288 then 16384 else 0;
  free_head = 8192;
  total_frames = 4;
  reserved_frames = 1;
  free_frames = 3;
}

abbrev root_only : ℕ → ℕ
root_only t = if t == 4096 then 4 else 0

fresh-empty : (t k : ℕ) → 1 < root_only t → k < 512 → fresh.mem (t + 8 * k) ≡ 0
fresh-empty t k h lt = ground (arith, h)

fresh-IsTree : IsTree fresh.mem root_only
fresh-IsTree = record {
  aligned = λ t h. ground (arith, h);
  below = λ t h. ground (arith, h);
  next = λ t k h lt b0 b1. absurd (cc (sym b0 ∙ ap (λ w. bit w 0) (fresh-empty t k h lt)));
}

abbrev frames : List ℕ
frames = 8192 ∷ 12288 ∷ 16384 ∷ []

frame : (pa : ℕ) → 0 < pa → pa % page_size ≡ 0 → pa < 2 ^ 63 → IsFrame pa
frame pa p a b = record { pos = p; aligned = a; below = b }

fresh-IsValid : IsValid fresh frames
fresh-IsValid = record {
  links = (refl, (refl, (refl, refl)));
  distinct = (refl, (refl, (refl, tt)));
  all = (
    frame _ (omega arith) refl (omega arith),
    (frame _ (omega arith) refl (omega arith), (frame _ (omega arith) refl (omega arith), tt)),
  );
  count = refl;
  few = omega arith;
}

frames-Free : All (Free root_only) frames
frames-Free = omega arith

abbrev mapped : Pmm
unfolding vmm_map_at pmm_alloc leaf_desc
mapped = (vmm_map_at fresh 4096 code_base (2 ^ 31) 11).1

maps : vmm_map_at fresh 4096 code_base (2 ^ 31) 11 ≡ (pos 0, mapped)
unfolding vmm_map_at pmm_alloc leaf_desc mapped
maps = refl

vmm_map_at-vmm_probe_example :
    (code_base % page_size ≡ 0)
    × (2 ^ 31 % page_size ≡ 0)
    × ((x : ℕ)
        → x / page_size ≡ code_base / page_size
        → vmm_probe mapped.mem 4096 x ≡ some (2 ^ 31 + x % page_size, 11))
    × ((tier' : ℕ → ℕ) × (frames' : List ℕ) × IsTree mapped.mem tier'
        × (tier' 4096 ≡ 4)
        × IsValid mapped frames'
        × All (Free tier') frames')
vmm_map_at-vmm_probe_example =
    vmm_map_at-vmm_probe fresh mapped root_only frames 4096 code_base (2 ^ 31) 11 fresh-IsTree
      fresh-IsValid frames-Free refl (omega arith) (omega arith) refl refl maps

abbrev unmapped : ℕ → ℕ
unmapped = update tables 16384 0

unmaps : vmm_unmap_at tables 4096 code_base ≡ (pos 0, unmapped)
unfolding vmm_unmap_at
unmaps = refl

vmm_unmap_at-vmm_probe_example : vmm_probe unmapped 4096 (code_base + 7) ≡ none
vmm_unmap_at-vmm_probe_example =
    vmm_unmap_at-vmm_probe tables unmapped tiers 4096 code_base (code_base + 7) tables-IsTree refl
      unmaps refl

abbrev full : Pmm
full = record fresh { mem = tables }

probed : vmm_probe tables 4096 code_base ≡ some (2 ^ 31, 11)
unfolding vmm_probe vmm_decode_flags
probed = refl

vmm_probe-vmm_map_at_example :
    (vmm_map_at full 4096 code_base 8192 11 ≡ (negsuc 0, full))
    ⊎ (vmm_map_at full 4096 code_base 8192 11 ≡ (negsuc 2, full))
    ⊎ (vmm_map_at full 4096 code_base 8192 11 ≡ (negsuc 3, full))
vmm_probe-vmm_map_at_example = vmm_probe-vmm_map_at full 4096 code_base 8192 11 (2 ^ 31, 11) probed
