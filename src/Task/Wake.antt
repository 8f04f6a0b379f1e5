-- ===== src/Task/Wake.antt =====
-- `wait_wake_all`: the sweep of a wait queue.
use mobile_phone_os.Prelude.{
  ℕ, zero, suc, ◌+◌, ◌≤◌, ◌≡◌, ◌≢◌, refl, inl, inr, Bool, true, false, ◌||◌, ◌&&◌, not, Option,
  none, some, List, [], ◌∷◌, ap, subst, sym, ◌∙◌, arith, length, eq-cases,
}
use mobile_phone_os.Task.{
  Task, TaskState, ready, dead, Kernel, is_state, outranks, wake_one, wake_loop, raise_resched,
  wait_wake_all, max_tasks,
}
use mobile_phone_os.Task.Queue.{has, Chain, Distinct, Chain-frame}

-- What becomes of a waiter's state.
abbrev pub woken : TaskState → TaskState
woken dead = dead
woken _ = ready

-- What one turn does to its waiter, and to any other task.
pub record WokenTask (before after : Task) : Type 0 where
  pub unlinked : after.wq_next ≡ none
  pub state : after.state ≡ woken before.state
  pub prio : after.prio ≡ before.prio

woken_of_alive : (s : TaskState) → is_state s dead ≡ false → ready ≡ woken s
woken_of_alive s h = ground arith

woken_of_dead : (s : TaskState) → is_state s dead ≡ true → s ≡ woken s
woken_of_dead s h = ground arith

wake_one-WokenTask : (k : Kernel) (t : ℕ) → WokenTask (k.tasks t) ((wake_one k t).tasks t)
unfolding wake_one
wake_one-WokenTask k t =
    ground (arith, woken_of_dead (k.tasks t).state, woken_of_alive (k.tasks t).state)

pub wake_one-other : (k : Kernel) (t i : ℕ) → i ≢ t → (wake_one k t).tasks i ≡ k.tasks i
unfolding wake_one
wake_one-other k t i ne = ground arith

wake_one-cpus : (k : Kernel) (t : ℕ) → (wake_one k t).cpus ≡ k.cpus
unfolding wake_one
wake_one-cpus k t = ground arith

-- The turns of the loop, one for each waiter.
unfoldable pub sweep : Kernel → List ℕ → Kernel
sweep k [] = k
sweep k (x ∷ xs) = sweep (wake_one k x) xs

-- Some waiter that is not dead has a lower `prio` than the current task.
pub some_outranks : Kernel → Option ℕ → List ℕ → Bool
some_outranks k cur [] = false
some_outranks k cur (x ∷ xs) =
    (not (is_state (k.tasks x).state dead) && outranks k cur x) || some_outranks k cur xs

-- After the sweep of `xs`: no waiter is linked, the dead ones are still dead, the others are ready,
-- and no other task has changed.
pub record Swept (ts ts' : ℕ → Task) (xs : List ℕ) : Type 0 where
  pub members : (i : ℕ) → has i xs ≡ true → WokenTask (ts i) (ts' i)
  pub others : (i : ℕ) → has i xs ≡ false → ts' i ≡ ts i

pub sweep-Swept : (k : Kernel) (xs : List ℕ) → Distinct xs → Swept k.tasks (sweep k xs).tasks xs
unfolding sweep
sweep-Swept k [] d = record { members = λ i m. cc; others = λ i m. refl }
sweep-Swept k (x ∷ xs) d =
    let rest = sweep-Swept (wake_one k x) xs d.1 in
    record {
      members = λ i m. elim (eq-cases i x) [
        | inl e ↦ rw (e, rest.others x d.0) (wake_one-WokenTask k x)
        | inr ne ↦ rw (← wake_one-other k x i ne) (rest.members i (ground arith))
      ];
      others = λ i m. rest.others i (ground arith) ∙ wake_one-other k x i (ground arith);
    }

prio-wake_one : (k : Kernel) (t i : ℕ) → ((wake_one k t).tasks i).prio ≡ (k.tasks i).prio
unfolding wake_one
prio-wake_one k t i = ground arith

outranks-wake_one :
    (k : Kernel) (t : ℕ) (cur : Option ℕ) (i : ℕ) → outranks (wake_one k t) cur i ≡ outranks k cur i
unfolding outranks
outranks-wake_one k t none i = refl
outranks-wake_one k t (some c) i = rw (prio-wake_one k t i, prio-wake_one k t c)

some_outranks-wake_one :
    (k : Kernel) (t : ℕ) (cur : Option ℕ) (xs : List ℕ)
    → has t xs ≡ false
    → some_outranks (wake_one k t) cur xs ≡ some_outranks k cur xs
unfolding some_outranks
some_outranks-wake_one k t cur [] out = refl
some_outranks-wake_one k t cur (x ∷ xs) out = rw (
  wake_one-other k t x (ground arith),
  outranks-wake_one k t cur x,
  some_outranks-wake_one k t cur xs (ground arith),
)

wake_loop-sweep :
    (fuel : ℕ) (cur : Option ℕ) (k : Kernel) (head : Option ℕ) (p : Bool) (xs : List ℕ)
    → Chain k.tasks head xs
    → Distinct xs
    → length xs ≤ fuel
    → wake_loop fuel cur k head p ≡ some (sweep k xs, p || some_outranks k cur xs)
unfolding wake_loop sweep some_outranks
wake_loop-sweep zero cur k head p [] h d le = rw h (ground arith)
wake_loop-sweep (suc fuel) cur k head p [] h d le = rw h (ground arith)
wake_loop-sweep zero cur k head p (x ∷ xs) h d le = absurd (omega arith)
wake_loop-sweep (suc fuel) cur k head p (x ∷ xs) h d le = rw h.0 (
    wake_loop-sweep fuel cur (wake_one k x) (k.tasks x).wq_next _ xs chain d.1 (omega arith)
    ∙ ap (λ b. some (sweep (wake_one k x) xs, b)) flag)
  where
    chain : Chain (wake_one k x).tasks (k.tasks x).wq_next xs
    chain =
        Chain-frame k.tasks (wake_one k x).tasks (k.tasks x).wq_next xs
          (λ i m. ap (λ (t : Task). t.wq_next) (wake_one-other k x i (ground arith))) h.1

    turn : Bool
    turn = not (is_state (k.tasks x).state dead) && outranks k cur x

    flag :
        ((p || turn) || some_outranks (wake_one k x) cur xs)
        ≡ (p || (turn || some_outranks k cur xs))
    flag = rw (some_outranks-wake_one k x cur xs d.0) (ground arith)

sweep-cpus : (k : Kernel) (xs : List ℕ) → (sweep k xs).cpus ≡ k.cpus
unfolding sweep
sweep-cpus k [] = refl
sweep-cpus k (x ∷ xs) = sweep-cpus (wake_one k x) xs ∙ wake_one-cpus k x

some_outranks-none : (k : Kernel) (xs : List ℕ) → some_outranks k none xs ≡ false
unfolding some_outranks outranks
some_outranks-none k [] = refl
some_outranks-none k (x ∷ xs) = ground (arith, some_outranks-none k xs)

-- The outcome of a wake-up on cpu `c` of the queue `xs`.
pub record Woke (k k' : Kernel) (c : ℕ) (xs : List ℕ) : Type 0 where
  pub swept : Swept k.tasks k'.tasks xs
  pub currents : (d : ℕ) → (k'.cpus d).current ≡ (k.cpus d).current
  pub resched :
      (k'.cpus c).need_resched ≡ ((k.cpus c).need_resched || some_outranks k (k.cpus c).current xs)

-- On a queue of distinct tasks, which are at most the whole table, `wait_wake_all` ends. Then no
-- waiter is linked any more, each is ready except those that were dead, every other task is as it
-- was, and the cpu is asked to reschedule exactly if it was before, or some waiter that is not dead
-- has a lower `prio` than the cpu's current task.
pub wait_wake_all-Woke :
    (k : Kernel) (c : ℕ) (head : Option ℕ) (xs : List ℕ)
    → Chain k.tasks head xs
    → Distinct xs
    → length xs ≤ max_tasks
    → (k' : Kernel) × (wait_wake_all k c head ≡ some k') × Woke k k' c xs
unfolding wait_wake_all
wait_wake_all-Woke k c head xs h d le = (
  k',
  rw (wake_loop-sweep (max_tasks + 1) cur k head false xs h d (omega arith), wait_wake_all),
  record { swept = swept; currents = same; resched = raised },
)
  where
    cur : Option ℕ
    cur = (k.cpus c).current

    k' : Kernel
    k' = raise_resched c (sweep k xs, some_outranks k cur xs)

    tasks : k'.tasks ≡ (sweep k xs).tasks
    tasks = ground arith

    swept : Swept k.tasks k'.tasks xs
    swept = subst (λ ts. Swept k.tasks ts xs) (sym tasks) (sweep-Swept k xs d)

    same : (d : ℕ) → (k'.cpus d).current ≡ (k.cpus d).current
    same d = ground (arith, sweep-cpus k xs)

    raised : (k'.cpus c).need_resched ≡ ((k.cpus c).need_resched || some_outranks k cur xs)
    raised = ground (arith, some_outranks-none k xs, sweep-cpus k xs)
