-- ===== src/Pmm/Contig.antt =====
-- `pmm_alloc_contig`: the scan for a run of neighbouring frames.
use mobile_phone_os.Prelude.{
  ℕ, zero, suc, ◌+◌, ◌-◌, ◌*◌, ◌^◌, ◌≤◌, ◌<◌, ◌≡◌, ◌≢◌, ◌⊎◌, inl, inr, refl, ap, ◌∙◌, true, false,
  List, [], ◌∷◌, ◌++◌, arith, ◌==◌, sub64, add64, Bool-cases, eq-cases,
}
use native.Mathlib.Nat.{mod-eq_of_lt}
use mobile_phone_os.Pmm.{page_size, Dir, unknown, up, down, Scan, extend, restart}
use mobile_phone_os.Pmm.Links.{last}
use mobile_phone_os.Pmm.Frames.{IsFrame}

-- The address `i` frames on from `start`.
abbrev pub nth : Dir → ℕ → ℕ → ℕ
nth down start i = start - i * page_size
nth up start i = start + i * page_size
nth unknown start i = start + i * page_size

-- The first `n` frames of a run.
abbrev pub span : Dir → ℕ → ℕ → List ℕ
span d start zero = []
span d start (suc n) = span d start n ++ nth d start n ∷ []

-- What the variables of the scan mean: the run has begun behind `pre`.
pub record Tracks (s : Scan) (pre : List ℕ) : Type 0 where
  pub prev : s.prev ≡ last (pre ++ span s.dir s.run_start s.run)
  pub run_prev : s.run_prev ≡ last pre
  pub two : s.dir ≢ unknown → 2 ≤ s.run
  pub one : s.dir ≡ unknown → s.run ≤ 1
  pub down_in : s.dir ≡ down → s.run * page_size ≤ s.run_start + page_size
  pub start : (0 < s.run → s.run_start < 2 ^ 63) × (s.run ≡ 0 → s.dir ≡ unknown)

-- The frame at hand is the next of the run.
pub record Grown (s s' : Scan) : Type 0 where
  pub going : 0 < s.run
  pub run : s'.run ≡ s.run + 1
  pub run_start : s'.run_start ≡ s.run_start
  pub run_prev : s'.run_prev ≡ s.run_prev
  pub dir : s'.dir ≢ unknown
  pub same : span s'.dir s.run_start s.run ≡ span s.dir s.run_start s.run
  pub next : s.pa ≡ nth s'.dir s.run_start s.run
  pub down_in : s'.dir ≡ down → s'.run * page_size ≤ s.run_start + page_size

-- One turn either begins a new run at the frame at hand, or makes the run longer by it.
abbrev pub Extended : Scan → Scan → Type 0
Extended s s' = (s' ≡ restart s) ⊎ Grown s s'

add-exact : (pa start n : ℕ) → start < 2 ^ 63 → n < 2 ^ 45 → pa ≡ add64 start n → pa ≡ start + n
add-exact pa start n lt small e = e ∙ mod-eq_of_lt (omega arith)

sub-exact :
    (pa start n : ℕ)
    → start < 2 ^ 63
    → n < 2 ^ 45
    → 0 < pa
    → pa < 2 ^ 63
    → pa ≡ sub64 start n
    → (n < start) × (pa ≡ start - n)
sub-exact pa start n lt small pos below e = ground arith

eq_of_eq : (a b : ℕ) → (a == b) ≡ true → a ≡ b
eq_of_eq a b e = ground arith

pub Dir-cases : (d : Dir) → (d ≡ unknown) ⊎ ((d ≡ up) ⊎ (d ≡ down))
Dir-cases unknown = inl refl
Dir-cases up = inr (inl refl)
Dir-cases down = inr (inr refl)

module _ (s : Scan) (pre : List ℕ) (t : Tracks s pre) (f : IsFrame s.pa) (lt : s.run < 2 ^ 32)
    (going : 0 < s.run) where
  begun : (s.run == 0) ≡ false
  begun = ground arith

  one_in : s.dir ≡ unknown → s.run ≡ 1
  one_in e = omega (arith, t.one e)

  exact :
      (n : ℕ)
      → n < 2 ^ 45
      → s.pa ≡ sub64 s.run_start n
      → (n < s.run_start) × (s.pa ≡ s.run_start - n)
  exact n small e = sub-exact s.pa s.run_start n (t.start.0 going) small f.pos f.below e

  extend-unknown : s.dir ≡ unknown → Extended s (extend s)
  unfolding extend
  extend-unknown e =
      rw (begun, e)
        (elim (Bool-cases (s.pa == add64 s.run_start page_size)) [
          | inl q ↦ rw q (
              inr (record {
                going = going;
                run = omega (arith, one_in e);
                run_start = refl;
                run_prev = refl;
                dir = λ x. cc;
                same = rw (one_in e) refl;
                next = omega (
                  arith,
                  one_in e,
                  add-exact s.pa s.run_start page_size (t.start.0 going) (omega arith)
                      (eq_of_eq _ _ q),
                );
                down_in = λ x. cc;
              }))
          | inr q ↦ rw q (elim (Bool-cases (s.pa == sub64 s.run_start page_size)) [
            | inl q' ↦ rw q' (
                inr (record {
                  going = going;
                  run = omega (arith, one_in e);
                  run_start = refl;
                  run_prev = refl;
                  dir = λ x. cc;
                  same = rw (one_in e) (ap (λ x. x ∷ []) (omega arith));
                  next =
                      omega (arith, one_in e, (exact page_size (omega arith) (eq_of_eq _ _ q')).1);
                  down_in = λ x. omega (arith, (exact page_size (omega arith) (eq_of_eq _ _ q')).0);
                }))
            | inr q' ↦ rw q' (inl refl)
          ])
        ])

  extend-up : s.dir ≡ up → Extended s (extend s)
  unfolding extend
  extend-up e =
      rw (begun, e)
        (elim (Bool-cases (s.pa == add64 s.run_start (s.run * page_size))) [
          | inl q ↦ rw q (
              inr (record {
                going = going;
                run = refl;
                run_start = refl;
                run_prev = refl;
                dir = λ x. cc;
                same = refl;
                next =
                    add-exact s.pa s.run_start (s.run * page_size) (t.start.0 going) (omega arith)
                      (eq_of_eq _ _ q);
                down_in = λ x. cc;
              }))
          | inr q ↦ rw q (inl refl)
        ])

  extend-down : s.dir ≡ down → Extended s (extend s)
  unfolding extend
  extend-down e =
      rw (begun, e)
        (elim (Bool-cases (s.pa == sub64 s.run_start (s.run * page_size))) [
          | inl q ↦ rw q (
              inr (record {
                going = going;
                run = refl;
                run_start = refl;
                run_prev = refl;
                dir = λ x. cc;
                same = refl;
                next = (exact (s.run * page_size) (omega arith) (eq_of_eq _ _ q)).1;
                down_in = λ x.
                    omega (arith, (exact (s.run * page_size) (omega arith) (eq_of_eq _ _ q)).0);
              }))
          | inr q ↦ rw q (inl refl)
        ])

pub extend-Extended :
    (s : Scan) (pre : List ℕ) → Tracks s pre → IsFrame s.pa → s.run < 2 ^ 32 → Extended s (extend s)
unfolding extend
extend-Extended s pre t f lt = elim (eq-cases s.run 0) [
  | inl z ↦ inl (let zero : (s.run == 0) ≡ true = ground arith in rw zero refl)
  | inr nz ↦ elim (Dir-cases s.dir) [
    | inl e ↦ extend-unknown s pre t f lt (omega arith) e
    | inr (inl e) ↦ extend-up s pre t f lt (omega arith) e
    | inr (inr e) ↦ extend-down s pre t f lt (omega arith) e
  ]
]
