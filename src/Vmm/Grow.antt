-- ===== src/Vmm/Grow.antt =====
-- Trees of page tables, and what a new table does to one.
use mobile_phone_os.Prelude.{
  ℕ, suc, ◌+◌, ◌*◌, ◌%◌, ◌^◌, ◌≤◌, ◌<◌, ◌≡◌, ◌≢◌, inl, inr, refl, sym, ap, ◌∙◌, true, false, ◌&&◌,
  ltb, leb, if◌then◌else◌, arith, Bool-cases, eq-cases, List, [], ◌∷◌, All, update,
}
use mobile_phone_os.Pmm.{Pmm, page_size, pmm_alloc}
use mobile_phone_os.Pmm.Links.{Links}
use mobile_phone_os.Pmm.Frames.{IsFrame, IsValid}
use mobile_phone_os.Vmm.{bit, table_ptr, table_desc, zeroed}
use mobile_phone_os.Vmm.Leaf.{table_desc-page}

-- `tier` counts the levels from a table down to the pages: 1 for a table of the last level, 0 for a
-- frame that is no table. Every entry of a table above the last level that leads to a table leads to
-- one of the next tier.
pub record IsTree (mem tier : ℕ → ℕ) : Type 0 where
  pub aligned : (t : ℕ) → 0 < tier t → t % page_size ≡ 0
  pub below : (t : ℕ) → 0 < tier t → t < 2 ^ 48
  pub next :
      (t k : ℕ)
      → 1 < tier t
      → k < 512
      → bit (mem (t + 8 * k)) 0 ≡ true
      → bit (mem (t + 8 * k)) 1 ≡ true
      → suc (tier (table_ptr (mem (t + 8 * k)))) ≡ tier t

-- The free frames are below 2 ^ 48 and are no tables.
abbrev pub Free : (ℕ → ℕ) → ℕ → Type 0
Free tier f = (tier f ≡ 0) × (f < 2 ^ 48)

-- The words of different frames are different.
pub words_apart :
    (f g k j : ℕ)
    → f % page_size ≡ 0
    → g % page_size ≡ 0
    → f ≢ g
    → k < 512
    → j < 512
    → f + 8 * k ≢ g + 8 * j
words_apart f g k j a b ne x y e = ne (omega arith)

Links-agree :
    (mem mem' : ℕ → ℕ) (head : ℕ) (xs : List ℕ)
    → All (λ x. mem' x ≡ mem x) xs
    → Links mem head xs
    → Links mem' head xs
Links-agree mem mem' head [] same h = h
Links-agree mem mem' head (x ∷ xs) same h =
    (h.0, rw same.0 (Links-agree mem mem' (mem x) xs same.1 h.1))

-- The free list is as before if the words that change are not its links.
pub IsValid-agree :
    (m : Pmm) (mem' : ℕ → ℕ) (frames : List ℕ)
    → All (λ x. mem' x ≡ m.mem x) frames
    → IsValid m frames
    → IsValid (record m { mem = mem' }) frames
IsValid-agree m mem' frames same v = record {
  links = Links-agree m.mem mem' m.free_head frames same v.links;
  distinct = v.distinct;
  all = v.all;
  count = v.count;
  few = v.few;
}

-- The first word of a free frame is not the entry of a table.
pub free_apart :
    (mem tier : ℕ → ℕ) (t k : ℕ) (frames : List ℕ)
    → IsTree mem tier
    → 0 < tier t
    → k < 512
    → All IsFrame frames
    → All (Free tier) frames
    → All (λ x. x ≢ t + 8 * k) frames
free_apart mem tier t k [] tree above lt fs free = tt
free_apart mem tier t k (x ∷ fs') tree above lt fs free = (
  λ e.
      words_apart x t 0 k fs.0.aligned (tree.aligned t above)
        (λ q. absurd (omega (arith, ap tier q, free.0.0))) (omega arith) lt (omega (arith, e)),
  free_apart mem tier t k fs' tree above lt fs.1 free.1,
)

pub pmm_alloc-mem : (m : Pmm) → (pmm_alloc m).1.mem ≡ m.mem
unfolding pmm_alloc
pmm_alloc-mem m = ground arith

-- A new table: cleared, and entered in the table above.
abbrev pub grown : (ℕ → ℕ) → (nt a : ℕ) → (ℕ → ℕ)
grown mem nt a = update (zeroed mem nt) a (table_desc nt)

pub page_outside :
    (nt f j : ℕ)
    → nt % page_size ≡ 0
    → f % page_size ≡ 0
    → f ≢ nt
    → j < 512
    → (leb nt (f + 8 * j) && ltb (f + 8 * j) (nt + page_size)) ≡ false
page_outside nt f j al al' ne lt =
    elim (Bool-cases (leb nt (f + 8 * j) && ltb (f + 8 * j) (nt + page_size))) [
      | inl e ↦
          let lo : nt ≤ f + 8 * j = ground (arith, e) in
          let hi : f + 8 * j < nt + page_size = ground (arith, e) in absurd (ne (omega arith))
      | inr e ↦ e
    ]

pub zeroed-in : (mem : ℕ → ℕ) (nt j : ℕ) → j < 512 → zeroed mem nt (nt + 8 * j) ≡ 0
zeroed-in mem nt j lt = ground arith

pub update_same : (mem : ℕ → ℕ) (a v b : ℕ) → b ≡ a → update mem a v b ≡ v
update_same mem a v b e = ground arith

pub update_other : (mem : ℕ → ℕ) (a v b : ℕ) → b ≢ a → update mem a v b ≡ mem b
update_other mem a v b ne = ground (arith, ne)

module _ (mem tier : ℕ → ℕ) (t k nt h : ℕ) (tree : IsTree mem tier) (at_t : tier t ≡ suc (suc h))
    (lt : k < 512) (fresh : tier nt ≡ 0) (aligned : nt % page_size ≡ 0) (below : nt < 2 ^ 48) where
  pub apart : (f : ℕ) → 0 < tier f → f ≢ nt
  apart f above e = absurd (omega (arith, ap tier e))

  -- Outside of the new table only the entry has changed.
  pub grown-other :
      (f j : ℕ)
      → 0 < tier f
      → j < 512
      → f + 8 * j ≢ t + 8 * k
      → grown mem nt (t + 8 * k) (f + 8 * j) ≡ mem (f + 8 * j)
  grown-other f j above jt ne =
      let out : (leb nt (f + 8 * j) && ltb (f + 8 * j) (nt + page_size)) ≡ false =
        page_outside nt f j aligned (tree.aligned f above) (apart f above) jt in
      update_other (zeroed mem nt) (t + 8 * k) (table_desc nt) (f + 8 * j) ne
      ∙ ap (λ b. if b then 0 else mem (f + 8 * j)) out

  -- The new table is empty.
  grown-new : (j : ℕ) → j < 512 → grown mem nt (t + 8 * k) (nt + 8 * j) ≡ 0
  grown-new j jt =
      update_other (zeroed mem nt) (t + 8 * k) (table_desc nt) (nt + 8 * j) (
        words_apart nt t j k aligned (tree.aligned t (omega arith))
          (λ e. apart t (omega arith) (sym e)) jt lt)
      ∙ zeroed-in mem nt j jt

  grown-next :
      (f j : ℕ)
      → 1 < update tier nt (suc h) f
      → j < 512
      → bit (grown mem nt (t + 8 * k) (f + 8 * j)) 0 ≡ true
      → bit (grown mem nt (t + 8 * k) (f + 8 * j)) 1 ≡ true
      → suc (update tier nt (suc h) (table_ptr (grown mem nt (t + 8 * k) (f + 8 * j))))
        ≡ update tier nt (suc h) f
  grown-next f j above jt b0 b1 = elim (eq-cases f nt) [
    | inl e ↦
        let zero_word : grown mem nt (t + 8 * k) (f + 8 * j) ≡ 0 =
          ap (λ x. grown mem nt (t + 8 * k) (x + 8 * j)) e ∙ grown-new j jt in
        absurd (cc (sym b0 ∙ ap (λ w. bit w 0) zero_word))
    | inr ne ↦
        let old : update tier nt (suc h) f ≡ tier f = update_other tier nt (suc h) f ne in
        elim (eq-cases (f + 8 * j) (t + 8 * k)) [
          | inl e ↦
              let word : grown mem nt (t + 8 * k) (f + 8 * j) ≡ table_desc nt =
                update_same (zeroed mem nt) (t + 8 * k) (table_desc nt) (f + 8 * j) e in
              let same : f ≡ t =
                omega (arith, tree.aligned f (omega arith), tree.aligned t (omega arith)) in
              ap (λ w. suc (update tier nt (suc h) (table_ptr w))) word
              ∙ ap (λ w. suc (update tier nt (suc h) w)) ((table_desc-page nt aligned below).2)
              ∙ ap suc (update_same tier nt (suc h) nt refl)
              ∙ sym at_t
              ∙ ap tier (sym same)
              ∙ sym old
          | inr far ↦
              let word : grown mem nt (t + 8 * k) (f + 8 * j) ≡ mem (f + 8 * j) =
                grown-other f j (omega arith) jt far in
              let down : suc (tier (table_ptr (mem (f + 8 * j)))) ≡ tier f =
                tree.next f j (omega arith) jt (ap (λ w. bit w 0) (sym word) ∙ b0)
                  (ap (λ w. bit w 1) (sym word) ∙ b1) in
              let not_new : table_ptr (mem (f + 8 * j)) ≢ nt =
                apart (table_ptr (mem (f + 8 * j))) (omega arith) in
              ap (λ w. suc (update tier nt (suc h) (table_ptr w))) word
              ∙ ap suc (update_other tier nt (suc h) (table_ptr (mem (f + 8 * j))) not_new)
              ∙ down
              ∙ sym old
        ]
  ]

  pub grown-IsTree : IsTree (grown mem nt (t + 8 * k)) (update tier nt (suc h))
  grown-IsTree = record {
    aligned = λ f above. elim (eq-cases f nt) [
      | inl e ↦ omega (arith, e)
      | inr ne ↦ tree.aligned f (omega (arith, update_other tier nt (suc h) f ne))
    ];
    below = λ f above. elim (eq-cases f nt) [
      | inl e ↦ omega (arith, e)
      | inr ne ↦ tree.below f (omega (arith, update_other tier nt (suc h) f ne))
    ];
    next = grown-next;
  }
