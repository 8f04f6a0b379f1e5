-- ===== src/Vmm/Mapped.antt =====
-- What a successful walk of `vmm_map_at` leaves, level by level.
use mobile_phone_os.Prelude.{
  ℕ, suc, ◌+◌, ◌*◌, ◌/◌, ◌%◌, ◌^◌, ◌<◌, ◌≡◌, ◌≢◌, refl, sym, ap, ◌∙◌, true, some, arith, List, [],
  ◌∷◌, All, update,
}
use mobile_phone_os.Pmm.{Pmm, page_size}
use mobile_phone_os.Pmm.Frames.{IsValid}
use mobile_phone_os.Vmm.{bit, entry, table_ptr, leaf_desc, vmm_decode_flags, probe_walk}
use mobile_phone_os.Vmm.Leaf.{leaf_desc-page}
use mobile_phone_os.Vmm.Grow.{
  IsTree, Free, words_apart, IsValid-agree, free_apart, update_same, update_other,
}

-- The address `x` is looked up in the same entries as `va`.
abbrev pub SamePath : (x va : ℕ) → List ℕ → Type 0
SamePath x va ss = All (λ s. x / 2 ^ s ≡ va / 2 ^ s) ss × (x / page_size ≡ va / page_size)

-- What a successful walk from the table `t` on has done: the tables are a tree again and the
-- allocator is valid; the tables of higher tiers are as before; and every address of the page is
-- found.
pub record Mapped (m m' : Pmm) (tier : ℕ → ℕ) (ss : List ℕ) (t va pa flags : ℕ) : Type 0 where
  pub tier' : ℕ → ℕ
  pub frames' : List ℕ
  pub tree : IsTree m'.mem tier'
  pub valid : IsValid m' frames'
  pub free : All (Free tier') frames'
  pub kept : (f : ℕ) → 0 < tier f → tier' f ≡ tier f
  pub above : (f k : ℕ) → tier t < tier f → k < 512 → m'.mem (f + 8 * k) ≡ m.mem (f + 8 * k)
  pub found :
      (x : ℕ)
      → SamePath x va ss
      → probe_walk m'.mem ss t x ≡ some (pa + x % page_size, vmm_decode_flags (leaf_desc pa flags))

module _ (va pa flags : ℕ) (aligned : pa % page_size ≡ 0) (below : pa < 2 ^ 48) where
  abbrev pub written : Pmm → ℕ → Pmm
  written m t = record m { mem = update m.mem (entry t va 12) (leaf_desc pa flags) }

  -- The write of the last level.
  pub leaf-Mapped :
      (m : Pmm) (tier : ℕ → ℕ) (frames : List ℕ) (t : ℕ)
      → IsTree m.mem tier
      → IsValid m frames
      → All (Free tier) frames
      → tier t ≡ 1
      → Mapped m (written m t) tier [] t va pa flags
  unfolding probe_walk
  leaf-Mapped m tier frames t tree v free at_t = record {
    tier' = tier;
    frames' = frames;
    tree = record {
      aligned = tree.aligned;
      below = tree.below;
      next = λ f j high jt b0 b1.
          let word : update m.mem (entry t va 12) (leaf_desc pa flags) (f + 8 * j)
              ≡ m.mem (f + 8 * j) =
            other f j high jt in
          ap (λ w. suc (tier (table_ptr w))) word
          ∙ tree.next f j high jt (ap (λ w. bit w 0) (sym word) ∙ b0)
              (ap (λ w. bit w 1) (sym word) ∙ b1);
    };
    valid =
        IsValid-agree m (update m.mem (entry t va 12) (leaf_desc pa flags)) frames
          (others frames (
            free_apart m.mem tier t (va / 2 ^ 12 % 512) frames tree (omega arith) (omega arith)
              v.all free))
          v;
    free = free;
    kept = λ f h. refl;
    above = λ f j high jt. other f j (omega arith) jt;
    found = λ x same.
        let e : entry t x 12 ≡ entry t va 12 = ap (λ y. t + 8 * (y % 512)) same.1 in
        let word : update m.mem (entry t va 12) (leaf_desc pa flags) (entry t x 12)
            ≡ leaf_desc pa flags =
          update_same m.mem (entry t va 12) (leaf_desc pa flags) (entry t x 12) e in
        rw
          (
            word,
            (leaf_desc-page pa flags aligned below).0,
            (leaf_desc-page pa flags aligned below).1,
          )
          refl;
  }
    where
      other :
          (f j : ℕ)
          → 1 < tier f
          → j < 512
          → update m.mem (entry t va 12) (leaf_desc pa flags) (f + 8 * j) ≡ m.mem (f + 8 * j)
      other f j high jt = update_other m.mem (entry t va 12) (leaf_desc pa flags) (f + 8 * j) (
          words_apart f t j (va / 2 ^ 12 % 512) (tree.aligned f (omega arith))
            (tree.aligned t (omega arith)) (λ e. absurd (omega (arith, ap tier e))) jt
            (omega arith))

      others :
          (xs : List ℕ)
          → All (λ x. x ≢ entry t va 12) xs
          → All (λ x. update m.mem (entry t va 12) (leaf_desc pa flags) x ≡ m.mem x) xs
      others [] h = tt
      others (x ∷ xs) h =
          (update_other m.mem (entry t va 12) (leaf_desc pa flags) x h.0, others xs h.1)

  -- One level up, once the entry of `t` leads to the table that the rest of the walk began from.
  pub up-Mapped :
      (m g m' : Pmm) (tier tier2 : ℕ → ℕ) (s : ℕ) (ss : List ℕ) (t t' : ℕ)
      → Mapped g m' tier2 ss t' va pa flags
      → bit (g.mem (entry t va s)) 0 ≡ true
      → bit (g.mem (entry t va s)) 1 ≡ true
      → table_ptr (g.mem (entry t va s)) ≡ t'
      → tier2 t' < tier2 t
      → ((f : ℕ) → 0 < tier f → tier2 f ≡ tier f)
      → ((f k : ℕ) → tier t < tier f → k < 512 → g.mem (f + 8 * k) ≡ m.mem (f + 8 * k))
      → tier2 t ≡ tier t
      → Mapped m m' tier (s ∷ ss) t va pa flags
  unfolding probe_walk
  up-Mapped m g m' tier tier2 s ss t t' r b0 b1 down lower same others at_t = record {
    tier' = r.tier';
    frames' = r.frames';
    tree = r.tree;
    valid = r.valid;
    free = r.free;
    kept = λ f h. r.kept f (omega (arith, same f h)) ∙ same f h;
    above =
        λ f k high kt. r.above f k (omega (arith, same f (omega arith))) kt ∙ others f k high kt;
    found = λ x path.
        let e : entry t x s ≡ entry t va s = ap (λ y. t + 8 * (y % 512)) path.0.0 in
        let word : m'.mem (entry t x s) ≡ g.mem (entry t va s) =
          ap m'.mem e ∙ r.above t (va / 2 ^ s % 512) lower (omega arith) in
        rw (word, b0, b1, down) (r.found x (path.0.1, path.1));
  }
