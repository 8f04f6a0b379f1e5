-- ===== src/Task/Create.antt =====
-- `alloc_task`: the free slot that it finds.
use mobile_phone_os.Prelude.{
  ℕ, zero, suc, ◌≡◌, ◌≢◌, ◌<◌, inl, inr, Option, none, some, arith, if◌then◌else◌, Bool-cases,
  eq-cases,
}
use mobile_phone_os.Task.{
  Task, Kernel, unused, is_state, eq_of_is_state, ne_of_is_state, alloc_upto, alloc_task, max_tasks,
}

-- The slot found is the first free one below `n`; none is found only if none is free.
abbrev Free : (ℕ → Task) → ℕ → Option ℕ → Type 0
Free ts n none = (i : ℕ) → i < n → (ts i).state ≢ unused
Free ts n (some t) = (t < n) × ((ts t).state ≡ unused) × ((i : ℕ) → i < t → (ts i).state ≢ unused)

Free-suc-none :
    (ts : ℕ → Task) (n : ℕ)
    → Free ts n none
    → Free ts (suc n) (if is_state (ts n).state unused then some n else none)
Free-suc-none ts n h = elim (Bool-cases (is_state (ts n).state unused)) [
  | inl e ↦ rw e (omega arith, eq_of_is_state _ _ e, h)
  | inr e ↦ rw e (λ i lt. elim (eq-cases i n) [
    | inl q ↦ rw q (ne_of_is_state _ _ e)
    | inr ne ↦ h i (omega arith)
  ])
]

Free-suc :
    (ts : ℕ → Task) (n : ℕ) (o : Option ℕ)
    → Free ts n o
    → Free ts
        (suc n)
        (elim o [ some j ↦ some j | none ↦ if is_state (ts n).state unused then some n else none ])
Free-suc ts n none h = Free-suc-none ts n h
Free-suc ts n (some t) h = (omega (arith, h.0), h.1, h.2)

alloc_upto-Free : (ts : ℕ → Task) (n : ℕ) → Free ts n (alloc_upto ts n)
unfolding alloc_upto
alloc_upto-Free ts zero = λ i lt. absurd (omega arith)
alloc_upto-Free ts (suc n) = Free-suc ts n (alloc_upto ts n) (alloc_upto-Free ts n)

alloc_task-Free : (k : Kernel) → Free k.tasks max_tasks (alloc_task k)
unfolding alloc_task
alloc_task-Free k = alloc_upto-Free k.tasks max_tasks

pub unused_of_alloc : (k : Kernel) (t : ℕ) → alloc_task k ≡ some t → (k.tasks t).state ≡ unused
unused_of_alloc k t e = (rw e at (alloc_task-Free k)).1
