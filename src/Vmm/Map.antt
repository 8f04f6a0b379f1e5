-- ===== src/Vmm/Map.antt =====
-- `vmm_map_at` on a tree of tables: the page that it maps is found afterwards.
use mobile_phone_os.Prelude.{
  ℕ, suc, ◌+◌, ◌*◌, ◌/◌, ◌%◌, ◌^◌, ◌<◌, ◌≡◌, ◌≢◌, ◌⊎◌, inl, inr, refl, sym, ap, ◌∙◌, true, false,
  not, ◌&&◌, ◌||◌, some, ltb, leb, ◌==◌, arith, subst, Bool-cases, List, [], ◌∷◌, length, All,
  update, ℤ, pos,
}
use mobile_phone_os.Task.Queue.{has}
use mobile_phone_os.Pmm.{Pmm, page_size, pmm_alloc}
use mobile_phone_os.Pmm.Frames.{IsFrame, IsValid, pmm_alloc-takes}
use mobile_phone_os.Vmm.{
  bit, entry, table_ptr, table_desc, vmm_probe, zeroed, map_walk, vmm_map_at, vm_user,
}
use mobile_phone_os.Vmm.Leaf.{leaf_desc-flags, table_desc-page}
use mobile_phone_os.Vmm.Grow.{
  IsTree, Free, words_apart, IsValid-agree, free_apart, pmm_alloc-mem, grown, grown-other,
  grown-IsTree, update_same, update_other, page_outside, apart,
}
use mobile_phone_os.Vmm.Mapped.{Mapped, leaf-Mapped, up-Mapped}

-- The allocator once a new table is entered at the address `a`.
abbrev with_table : Pmm → ℕ → Pmm
with_table m a = record (pmm_alloc m).1 { mem = grown (pmm_alloc m).1.mem (pmm_alloc m).0 a }

grown-frames :
    (mem : ℕ → ℕ) (nt a : ℕ) (xs : List ℕ)
    → nt % page_size ≡ 0
    → has nt xs ≡ false
    → All IsFrame xs
    → All (λ x. x ≢ a) xs
    → All (λ x. grown mem nt a x ≡ mem x) xs
grown-frames mem nt a [] al out fs ne = tt
grown-frames mem nt a (x ∷ xs) al out fs ne =
    let different : x ≢ nt = λ e. absurd (ground (arith, out, e)) in
    let beyond : (leb nt (x + 8 * 0) && ltb (x + 8 * 0) (nt + page_size)) ≡ false =
      page_outside nt x 0 al fs.0.aligned different (omega arith) in
    (
      update_other (zeroed mem nt) a (table_desc nt) x ne.0 ∙ ground (arith, beyond),
      grown-frames mem nt a xs al (ground (arith, out)) fs.1 ne.1,
    )

Free-update :
    (tier : ℕ → ℕ) (nt h : ℕ) (xs : List ℕ)
    → has nt xs ≡ false
    → All (Free tier) xs
    → All (Free (update tier nt h)) xs
Free-update tier nt h [] out free = tt
Free-update tier nt h (x ∷ xs) out free =
    let different : x ≢ nt = λ e. absurd (ground (arith, out, e)) in
    (
      (update_other tier nt h x different ∙ free.0.0, free.0.1),
      Free-update tier nt h xs (ground (arith, out)) free.1,
    )

module _ (va pa flags : ℕ) (aligned : pa % page_size ≡ 0) (below : pa < 2 ^ 48) where
  -- A walk that succeeds went on from the table that the entry leads to, or from a new one.
  abbrev Went : Pmm → (s : ℕ) → List ℕ → (t : ℕ) → Pmm → Type 0
  Went m s ss t m' =
      ((bit (m.mem (entry t va s)) 0 ≡ true)
        × (bit (m.mem (entry t va s)) 1 ≡ true)
        × (map_walk m ss (table_ptr (m.mem (entry t va s))) va pa flags ≡ (pos 0, m')))
      ⊎ (((pmm_alloc m).0 ≢ 0)
          × (map_walk (with_table m (entry t va s)) ss (table_ptr (table_desc (pmm_alloc m).0)) va
                pa flags
              ≡ (pos 0, m')))

  map_walk-Went :
      (m m' : Pmm) (s : ℕ) (ss : List ℕ) (t : ℕ)
      → map_walk m (s ∷ ss) t va pa flags ≡ (pos 0, m')
      → Went m s ss t m'
  unfolding map_walk
  map_walk-Went m m' s ss t e = elim (Bool-cases (bit (m.mem (entry t va s)) 0)) [
    | inl b0 ↦ elim (Bool-cases (bit (m.mem (entry t va s)) 1)) [
      | inl b1 ↦ inl (b0, b1, rw (b0, b1) at e)
      | inr b1 ↦ absurd (cc (rw (b0, b1) at e))
    ]
    | inr b0 ↦ elim (Bool-cases ((pmm_alloc m).0 == 0)) [
      | inl z ↦ absurd (cc (rw (b0, z) at e))
      | inr nz ↦ inr (λ z. absurd (ground (arith, z, nz)), rw (b0, nz) at e)
    ]
  ]

  -- The step to a new table.
  grown-Mapped :
      (m m' : Pmm) (tier : ℕ → ℕ) (rest : List ℕ) (s : ℕ) (ss : List ℕ) (t : ℕ)
      → IsTree m.mem tier
      → IsValid m ((pmm_alloc m).0 ∷ rest)
      → All (Free tier) ((pmm_alloc m).0 ∷ rest)
      → IsValid (pmm_alloc m).1 rest
      → tier t ≡ suc (suc (length ss))
      → (IsTree (with_table m (entry t va s)).mem (update tier (pmm_alloc m).0 (suc (length ss)))
          → IsValid (with_table m (entry t va s)) rest
          → All (Free (update tier (pmm_alloc m).0 (suc (length ss)))) rest
          → update tier (pmm_alloc m).0 (suc (length ss)) (table_ptr (table_desc (pmm_alloc m).0))
            ≡ suc (length ss)
          → Mapped
              (with_table m (entry t va s))
              m'
              (update tier (pmm_alloc m).0 (suc (length ss)))
              ss
              (table_ptr (table_desc (pmm_alloc m).0))
              va
              pa
              flags)
      → Mapped m m' tier (s ∷ ss) t va pa flags
  grown-Mapped m m' tier rest s ss t tree v free v1 at_t go =
      up-Mapped va pa flags aligned below m g m' tier tier2 s ss t (table_ptr (table_desc nt))
        (go tree2 valid2 free2 at_new) (ap (λ w. bit w 0) word ∙ desc.0)
        (ap (λ w. bit w 1) word ∙ desc.1) (ap table_ptr word)
        (omega (arith, at_new, kept t (omega arith))) kept
        (λ f j high jt.
          grown-other mem1 tier t k nt (length ss) tree1 at_t lt fresh al bl f j (omega arith) jt (
            words_apart f t j k (tree.aligned f (omega arith)) (tree.aligned t (omega arith))
              (λ e. absurd (omega (arith, ap tier e))) jt lt)
          ∙ ap (λ w. w (f + 8 * j)) (pmm_alloc-mem m))
        (kept t (omega arith))
    where
      nt : ℕ
      nt = (pmm_alloc m).0

      mem1 : ℕ → ℕ
      mem1 = (pmm_alloc m).1.mem

      g : Pmm
      g = with_table m (entry t va s)

      k : ℕ
      k = va / 2 ^ s % 512

      tier2 : ℕ → ℕ
      tier2 = update tier nt (suc (length ss))

      lt : va / 2 ^ s % 512 < 512
      lt = omega arith

      fresh : tier nt ≡ 0
      fresh = free.0.0

      al : nt % page_size ≡ 0
      al = v.all.0.aligned

      bl : nt < 2 ^ 48
      bl = free.0.1

      tree1 : IsTree mem1 tier
      tree1 = subst (λ w. IsTree w tier) (sym (pmm_alloc-mem m)) tree

      word : g.mem (entry t va s) ≡ table_desc nt
      word = update_same (zeroed mem1 nt) (entry t va s) (table_desc nt) (entry t va s) refl

      desc :
          (bit (table_desc nt) 0 ≡ true)
          × (bit (table_desc nt) 1 ≡ true)
          × (table_ptr (table_desc nt) ≡ nt)
      desc = table_desc-page nt al bl

      kept : (f : ℕ) → 0 < tier f → tier2 f ≡ tier f
      kept f above =
          update_other tier nt (suc (length ss)) f
            (apart mem1 tier t k nt (length ss) tree1 at_t lt fresh al bl f above)

      at_new : tier2 (table_ptr (table_desc nt)) ≡ suc (length ss)
      at_new = ap tier2 desc.2 ∙ update_same tier nt (suc (length ss)) nt refl

      tree2 : IsTree g.mem tier2
      tree2 = grown-IsTree mem1 tier t k nt (length ss) tree1 at_t lt fresh al bl

      valid2 : IsValid g rest
      valid2 =
          IsValid-agree (pmm_alloc m).1 (grown mem1 nt (entry t va s)) rest
            (grown-frames mem1 nt (entry t va s) rest al v.distinct.0 v.all.1
              (free_apart mem1 tier t k rest tree1 (omega (arith, at_t)) lt v.all.1 free.1))
            v1

      free2 : All (Free tier2) rest
      free2 = Free-update tier nt (suc (length ss)) rest v.distinct.0 free.1

  map_walk-Mapped :
      (ss : List ℕ) (m m' : Pmm) (tier : ℕ → ℕ) (frames : List ℕ) (t : ℕ)
      → IsTree m.mem tier
      → IsValid m frames
      → All (Free tier) frames
      → tier t ≡ suc (length ss)
      → map_walk m ss t va pa flags ≡ (pos 0, m')
      → Mapped m m' tier ss t va pa flags
  unfolding map_walk
  map_walk-Mapped [] m m' tier frames t tree v free at_t e =
      elim (Bool-cases (bit (m.mem (entry t va 12)) 0)) [
        | inl b ↦ absurd (cc (rw b at e))
        | inr b ↦
            subst (λ q. Mapped m q tier [] t va pa flags) (ap (λ (q : ℤ × Pmm). q.1) (rw b at e))
              (leaf-Mapped va pa flags aligned below m tier frames t tree v free at_t)
      ]
  map_walk-Mapped (s ∷ ss) m m' tier frames t tree v free at_t e =
      elim (map_walk-Went m m' s ss t e) [
        | inl w ↦
            let d = m.mem (entry t va s) in
            let down : suc (tier (table_ptr d)) ≡ tier t =
              tree.next t (va / 2 ^ s % 512) (omega arith) (omega arith) w.0 w.1 in
            up-Mapped va pa flags aligned below m m m' tier tier s ss t (table_ptr d)
              (map_walk-Mapped ss m m' tier frames (table_ptr d) tree v free (omega arith) w.2) w.0
              w.1 refl (omega arith) (λ f h. refl) (λ f k h kt. refl) refl
        | inr w ↦ elim (pmm_alloc-takes m frames v) [
          | inl n ↦ absurd (w.0 (ap (λ (q : ℕ × Pmm). q.0) n.1))
          | inr n ↦
              let taken : frames ≡ (pmm_alloc m).0 ∷ n.1 = n.2 ∙ ap (λ x. x ∷ n.1) (sym n.3) in
              grown-Mapped m m' tier n.1 s ss t tree (subst (IsValid m) taken v)
                (subst (All (Free tier)) taken free) n.4 at_t
                (λ tree2 valid2 free2 at_new.
                  map_walk-Mapped ss (with_table m (entry t va s)) m'
                    (update tier (pmm_alloc m).0 (suc (length ss))) n.1
                    (table_ptr (table_desc (pmm_alloc m).0)) tree2 valid2 free2 at_new w.1)
        ]
      ]

-- From a tree of tables with a valid allocator, a page of a process is mapped only if its address
-- and its frame are aligned; afterwards every address of the page is found in the frame with the
-- flags that were asked for, the tables are a tree again and the allocator is valid.
pub vmm_map_at-vmm_probe :
    (m m' : Pmm) (tier : ℕ → ℕ) (frames : List ℕ) (root va pa flags : ℕ)
    → IsTree m.mem tier
    → IsValid m frames
    → All (Free tier) frames
    → tier root ≡ 4
    → pa < 2 ^ 48
    → flags < 32
    → bit flags 0 ≡ true
    → bit flags vm_user ≡ true
    → vmm_map_at m root va pa flags ≡ (pos 0, m')
    → (va % page_size ≡ 0)
      × (pa % page_size ≡ 0)
      × ((x : ℕ)
          → x / page_size ≡ va / page_size
          → vmm_probe m'.mem root x ≡ some (pa + x % page_size, flags))
      × ((tier' : ℕ → ℕ) × (frames' : List ℕ) × IsTree m'.mem tier'
          × (tier' root ≡ 4)
          × IsValid m' frames'
          × All (Free tier') frames')
unfolding vmm_map_at vmm_probe
vmm_map_at-vmm_probe m m' tier frames root va pa flags tree v free at_root below few read user e =
    elim (Bool-cases (not (va % page_size == 0) || not (pa % page_size == 0))) [
      | inl bad ↦ absurd (cc (rw bad at e))
      | inr good ↦
          let al : pa % page_size ≡ 0 = ground (arith, good) in
          let r : Mapped m m' tier (39 ∷ 30 ∷ 21 ∷ []) root va pa flags =
            map_walk-Mapped va pa flags al below (39 ∷ 30 ∷ 21 ∷ []) m m' tier frames root tree v
              free at_root (rw good at e) in
          (
            ground (arith, good),
            al,
            λ x same.
                r.found x ((omega arith, (omega arith, (omega arith, tt))), same)
                ∙ ap (λ fl. some (pa + x % page_size, fl))
                    (leaf_desc-flags pa flags al below few read user),
            (r.tier', r.frames', r.tree, r.kept root (omega arith) ∙ at_root, r.valid, r.free),
          )
    ]
