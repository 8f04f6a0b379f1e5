-- ===== src/Vmm/Unmap.antt =====
-- `vmm_unmap_at`, and the refusal of `vmm_map_at` where something is mapped.
use mobile_phone_os.Prelude.{
  ℕ, suc, ◌+◌, ◌*◌, ◌/◌, ◌%◌, ◌^◌, ◌<◌, ◌≡◌, ◌⊎◌, inl, inr, refl, ap, ◌∙◌, not, ◌||◌, none, some,
  ◌==◌, arith, subst, Bool-cases, List, [], ◌∷◌, length, update, ℤ, pos, negsuc,
}
use mobile_phone_os.Pmm.{Pmm, page_size}
use mobile_phone_os.Vmm.{
  bit, entry, table_ptr, probe_walk, vmm_probe, map_walk, vmm_map_at, unmap_walk, vmm_unmap_at,
}
use mobile_phone_os.Vmm.Grow.{IsTree, words_apart, update_same, update_other}
use mobile_phone_os.Vmm.Mapped.{SamePath}

-- What a successful walk from the table `t` on leaves: nothing on the page is found, and the tables
-- of higher tiers are as before.
record Unmapped (mem mem' tier : ℕ → ℕ) (ss : List ℕ) (t va : ℕ) : Type 0 where
  gone : (x : ℕ) → SamePath x va ss → probe_walk mem' ss t x ≡ none
  above : (f k : ℕ) → tier t < tier f → k < 512 → mem' (f + 8 * k) ≡ mem (f + 8 * k)

-- An entry of `t` is cleared.
cleared-above :
    (mem tier : ℕ → ℕ) (t j f k : ℕ)
    → IsTree mem tier
    → 0 < tier t
    → j < 512
    → tier t < tier f
    → k < 512
    → update mem (t + 8 * j) 0 (f + 8 * k) ≡ mem (f + 8 * k)
cleared-above mem tier t j f k tree above lt high kt = update_other mem (t + 8 * j) 0 (f + 8 * k) (
    words_apart f t k j (tree.aligned f (omega arith)) (tree.aligned t above)
      (λ e. absurd (omega (arith, ap tier e))) kt lt)

unmap_walk-Unmapped :
    (ss : List ℕ) (mem mem' tier : ℕ → ℕ) (t va : ℕ)
    → IsTree mem tier
    → tier t ≡ suc (length ss)
    → unmap_walk mem ss t va ≡ (pos 0, mem')
    → Unmapped mem mem' tier ss t va
unfolding unmap_walk probe_walk
unmap_walk-Unmapped [] mem mem' tier t va tree at_t e =
    elim (Bool-cases (bit (mem (entry t va 12)) 0)) [
      | inl b ↦
          subst (λ q. Unmapped mem q tier [] t va) (ap (λ (q : ℤ × (ℕ → ℕ)). q.1) (rw b at e))
            (record {
              gone = λ x path.
                  let word : update mem (entry t va 12) 0 (entry t x 12) ≡ 0 =
                    update_same mem (entry t va 12) 0 (entry t x 12)
                      (ap (λ y. t + 8 * (y % 512)) path.1) in
                  rw word refl;
              above = λ f k high kt.
                  cleared-above mem tier t (va / 2 ^ 12 % 512) f k tree (omega arith) (omega arith)
                    high kt;
            })
      | inr b ↦ absurd (cc (rw b at e))
    ]
unmap_walk-Unmapped (s ∷ ss) mem mem' tier t va tree at_t e =
    elim (Bool-cases (bit (mem (entry t va s)) 0)) [
      | inl b0 ↦ elim (Bool-cases (bit (mem (entry t va s)) 1)) [
        | inl b1 ↦
            let d = mem (entry t va s) in
            let down : suc (tier (table_ptr d)) ≡ tier t =
              tree.next t (va / 2 ^ s % 512) (omega arith) (omega arith) b0 b1 in
            let r : Unmapped mem mem' tier ss (table_ptr d) va =
              unmap_walk-Unmapped ss mem mem' tier (table_ptr d) va tree (omega arith)
                (rw (b0, b1) at e) in
            record {
              gone = λ x path.
                  let word : mem' (entry t x s) ≡ d =
                    ap (λ y. mem' (t + 8 * (y % 512))) path.0.0
                    ∙ r.above t (va / 2 ^ s % 512) (omega (arith, down)) (omega arith) in
                  rw (word, b0, b1) (r.gone x (path.0.1, path.1));
              above = λ f k high kt. r.above f k (omega (arith, down)) kt;
            }
        | inr b1 ↦
            subst (λ q. Unmapped mem q tier (s ∷ ss) t va)
              (ap (λ (q : ℤ × (ℕ → ℕ)). q.1) (rw (b0, b1) at e))
              (record {
                gone = λ x path.
                    let word : update mem (entry t va s) 0 (entry t x s) ≡ 0 =
                      update_same mem (entry t va s) 0 (entry t x s)
                        (ap (λ y. t + 8 * (y % 512)) path.0.0) in
                    rw word refl;
                above = λ f k high kt.
                    cleared-above mem tier t (va / 2 ^ s % 512) f k tree (omega arith) (omega arith)
                      high kt;
              })
      ]
      | inr b0 ↦ absurd (cc (rw b0 at e))
    ]

-- In a tree of tables, nothing is found on a page once it has been unmapped.
pub vmm_unmap_at-vmm_probe :
    (mem mem' tier : ℕ → ℕ) (root va x : ℕ)
    → IsTree mem tier
    → tier root ≡ 4
    → vmm_unmap_at mem root va ≡ (pos 0, mem')
    → x / page_size ≡ va / page_size
    → vmm_probe mem' root x ≡ none
unfolding vmm_unmap_at vmm_probe
vmm_unmap_at-vmm_probe mem mem' tier root va x tree at_root e same =
    let r : Unmapped mem mem' tier (39 ∷ 30 ∷ 21 ∷ []) root va =
      unmap_walk-Unmapped (39 ∷ 30 ∷ 21 ∷ []) mem mem' tier root va tree at_root e in
    r.gone x ((omega arith, (omega arith, (omega arith, tt))), same)

-- The walk of `vmm_map_at` stops at what is found.
map_walk-refuses :
    (ss : List ℕ) (m : Pmm) (t va pa flags : ℕ) (r : ℕ × ℕ)
    → probe_walk m.mem ss t va ≡ some r
    → (map_walk m ss t va pa flags ≡ (negsuc 2, m)) ⊎ (map_walk m ss t va pa flags ≡ (negsuc 3, m))
unfolding map_walk probe_walk
map_walk-refuses [] m t va pa flags r e = elim (Bool-cases (bit (m.mem (entry t va 12)) 0)) [
  | inl b ↦ inr (rw b refl)
  | inr b ↦ absurd (cc (rw b at e))
]
map_walk-refuses (s ∷ ss) m t va pa flags r e = elim (Bool-cases (bit (m.mem (entry t va s)) 0)) [
  | inl b0 ↦ elim (Bool-cases (bit (m.mem (entry t va s)) 1)) [
    | inl b1 ↦
        rw (b0, b1)
          (map_walk-refuses ss m (table_ptr (m.mem (entry t va s))) va pa flags r
            (rw (b0, b1) at e))
    | inr b1 ↦ inl (rw (b0, b1) refl)
  ]
  | inr b0 ↦ absurd (cc (rw b0 at e))
]

-- At an address that is mapped already, a mapping is refused and nothing changes, whatever the tables
-- look like: the error is -1 if an address is misaligned, -3 at a block and -4 at a page.
pub vmm_probe-vmm_map_at :
    (m : Pmm) (root va pa flags : ℕ) (r : ℕ × ℕ)
    → vmm_probe m.mem root va ≡ some r
    → (vmm_map_at m root va pa flags ≡ (negsuc 0, m))
      ⊎ (vmm_map_at m root va pa flags ≡ (negsuc 2, m))
      ⊎ (vmm_map_at m root va pa flags ≡ (negsuc 3, m))
unfolding vmm_map_at vmm_probe
vmm_probe-vmm_map_at m root va pa flags r e =
    elim (Bool-cases (not (va % page_size == 0) || not (pa % page_size == 0))) [
      | inl bad ↦ inl (rw bad refl)
      | inr good ↦ inr (rw good (map_walk-refuses (39 ∷ 30 ∷ 21 ∷ []) m root va pa flags r e))
    ]
