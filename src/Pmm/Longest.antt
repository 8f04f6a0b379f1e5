-- ===== src/Pmm/Longest.antt =====
-- `pmm_alloc_contig` overlooks no run: the run at hand is the longest that ends where the scan is.
use mobile_phone_os.Prelude.{
  ℕ, zero, suc, ◌+◌, ◌-◌, ◌^◌, ◌≤◌, ◌<◌, ◌≡◌, ◌⊎◌, inl, inr, refl, sym, ap, ◌∙◌, false, List, [],
  ◌∷◌, ◌++◌, arith,
}
use mathlib.Core.List.{append_assoc, append-nil}
use mobile_phone_os.Task.Queue.{has, Distinct}
use mobile_phone_os.Pmm.{page_size, Dir, unknown, up, down, Scan, extend}
use mobile_phone_os.Pmm.Links.{has-append}
use mobile_phone_os.Pmm.Frames.{IsFrame}
use mobile_phone_os.Pmm.Contig.{nth, span, Tracks, Dir-cases}
use mobile_phone_os.Pmm.Carve.{NoRun, has_at}

snoc_inj : (xs ys : List ℕ) (x y : ℕ) → xs ++ x ∷ [] ≡ ys ++ y ∷ [] → (xs ≡ ys) × (x ≡ y)
snoc_inj [] [] x y e = (refl, cc e)
snoc_inj [] (b ∷ []) x y e = absurd (cc e)
snoc_inj [] (b ∷ c ∷ ys) x y e = absurd (cc e)
snoc_inj (a ∷ []) [] x y e = absurd (cc e)
snoc_inj (a ∷ c ∷ xs) [] x y e = absurd (cc e)
snoc_inj (a ∷ xs) (b ∷ ys) x y e =
    let front : a ≡ b = cc e in
    let rest : xs ++ x ∷ [] ≡ ys ++ y ∷ [] = cc e in
    let (same, q) = snoc_inj xs ys x y rest in (cc (front, same), q)

snoc-cases : (xs : List ℕ) → (xs ≡ []) ⊎ ((ys : List ℕ) × (y : ℕ) × (xs ≡ ys ++ y ∷ []))
snoc-cases [] = inl refl
snoc-cases (x ∷ xs) = elim (snoc-cases xs) [
  | inl e ↦ inr ([], x, ap (λ zs. x ∷ zs) e)
  | inr (ys, y, e) ↦ inr (x ∷ ys, y, ap (λ zs. x ∷ zs) e)
]

pub Distinct-mid : (xs : List ℕ) (y : ℕ) (ys : List ℕ) → Distinct (xs ++ y ∷ ys) → has y xs ≡ false
Distinct-mid [] y ys d = refl
Distinct-mid (x ∷ xs) y ys d =
    ground (arith, Distinct-mid xs y ys d.1, d.0, has-append x xs (y ∷ ys))

-- The last frame of the run.
abbrev tip : Scan → ℕ
tip s = nth s.dir s.run_start (s.run - 1)

module _ (s : Scan) (pre : List ℕ) (t : Tracks s pre) (f : IsFrame s.pa) (lt : s.run < 2 ^ 32)
    (going : 0 < s.run) (fresh : has s.pa (span s.dir s.run_start s.run) ≡ false)
    (near : (s.pa ≡ tip s + page_size) ⊎ (s.pa + page_size ≡ tip s)) where
  near-unknown : s.dir ≡ unknown → (extend s).run ≡ s.run + 1
  unfolding extend
  near-unknown e = ground (arith, near, e, t.one e, t.start, f.pos, f.below)

  near-up : s.dir ≡ up → (extend s).run ≡ s.run + 1
  unfolding extend
  near-up e =
      let two : 2 ≤ s.run = t.two (λ x. cc (e, x)) in
      elim (rw e at near) [
        | inl q ↦ ground (arith, e, q, two, t.start.0 going, f.pos, f.below, lt)
        | inr q ↦ absurd (
            cc (
              rw e at fresh,
              has_at up s.run_start s.run s.pa (s.run - 2) (omega arith) (omega arith),
            ))
      ]

  near-down : s.dir ≡ down → (extend s).run ≡ s.run + 1
  unfolding extend
  near-down e =
      let two : 2 ≤ s.run = t.two (λ x. cc (e, x)) in
      elim (rw e at near) [
        | inl q ↦ absurd (
            cc (
              rw e at fresh,
              has_at down s.run_start s.run s.pa (s.run - 2) (omega arith)
                  (omega (arith, t.down_in e)),
            ))
        | inr q ↦ ground (arith, e, q, two, t.start.0 going, t.down_in e, f.pos, f.below, lt)
      ]

  near-grows : (extend s).run ≡ s.run + 1
  near-grows = elim (Dir-cases s.dir) [
    | inl e ↦ near-unknown e
    | inr (inl e) ↦ near-up e
    | inr (inr e) ↦ near-down e
  ]

-- No run that ends where the scan is is longer than the run at hand.
abbrev pub Longest : ℕ → List ℕ → Type 0
Longest n xs = (d : Dir) (start k : ℕ) (before : List ℕ) → xs ≡ before ++ span d start k → k ≤ n

abbrev pub scanned : Scan → List ℕ → List ℕ
scanned s pre = pre ++ span s.dir s.run_start s.run

-- The run ends with its tip.
ends_at_tip :
    (s : Scan) (pre : List ℕ) → 0 < s.run → (xs : List ℕ) × (scanned s pre ≡ xs ++ tip s ∷ [])
ends_at_tip s pre going = (
  pre ++ span s.dir s.run_start (s.run - 1),
  ap (λ n. pre ++ span s.dir s.run_start n) (let q : s.run ≡ suc (s.run - 1) = omega arith in q)
      ∙ sym (append_assoc pre (span s.dir s.run_start (s.run - 1)) (tip s ∷ [])),
)

nth-near :
    (d : Dir) (start j : ℕ)
    → 0 < nth d start (suc j)
    → (nth d start (suc j) ≡ nth d start j + page_size)
      ⊎ (nth d start (suc j) + page_size ≡ nth d start j)
nth-near unknown start j pos = inl (omega arith)
nth-near up start j pos = inl (omega arith)
nth-near down start j pos = inr (omega arith)

module _ (s : Scan) (pre : List ℕ) (t : Tracks s pre) (f : IsFrame s.pa) (lt : s.run < 2 ^ 32)
    (fresh : has s.pa (scanned s pre) ≡ false) (longest : Longest s.run (scanned s pre)) where
  fresh_in_run : has s.pa (span s.dir s.run_start s.run) ≡ false
  fresh_in_run = ground (arith, fresh, has-append s.pa pre (span s.dir s.run_start s.run))

  grows :
      (d : Dir) (start j : ℕ) (before : List ℕ)
      → scanned s pre ≡ before ++ span d start (suc j)
      → s.pa ≡ nth d start (suc j)
      → (extend s).run ≡ s.run + 1
  grows d start j before same q =
      let going : 0 < s.run = omega (arith, longest d start (suc j) before same) in
      let (xs, at_tip) = ends_at_tip s pre going in
      let tips : tip s ≡ nth d start j =
        (snoc_inj xs (before ++ span d start j) (tip s) (nth d start j) (
          sym at_tip ∙ same ∙ sym (append_assoc before (span d start j) (nth d start j ∷ [])))).1 in
      near-grows s pre t f lt going fresh_in_run (
        rw (q, tips)
          (nth-near d start j (let pos : 0 < nth d start (suc j) = omega (arith, q, f.pos) in pos)))

  pub Longest-turn : 0 < (extend s).run → Longest (extend s).run (scanned s pre ++ s.pa ∷ [])
  Longest-turn some_run d start zero before e = omega arith
  Longest-turn some_run d start (suc zero) before e = omega arith
  Longest-turn some_run d start (suc (suc j)) before e =
      let (same, q) =
        snoc_inj (scanned s pre) (before ++ span d start (suc j)) s.pa (nth d start (suc j))
          (e ∙ sym (append_assoc before (span d start (suc j)) (nth d start (suc j) ∷ []))) in
      omega (arith, grows d start j before same q, longest d start (suc j) before same)

-- Where the longest run at the end is too short, the list with one frame more has no run either.
pub NoRun-snoc :
    (npages n : ℕ) (xs : List ℕ) (y : ℕ)
    → NoRun npages xs
    → Longest n (xs ++ y ∷ [])
    → n < npages
    → NoRun npages (xs ++ y ∷ [])
NoRun-snoc npages n xs y none longest lt d start before after e = elim (snoc-cases after) [
  | inl q ↦ omega (
    arith,
    longest d start npages before
        (rw q at e ∙ ap (λ zs. before ++ zs) (append-nil (span d start npages))),
  )
  | inr (zs, z, q) ↦
      none d start before zs
        (snoc_inj xs (before ++ (span d start npages ++ zs)) y z (
          (rw q at e)
          ∙ ap (λ ws. before ++ ws) (sym (append_assoc (span d start npages) zs (z ∷ [])))
          ∙ sym (append_assoc before (span d start npages ++ zs) (z ∷ [])))).0
]
