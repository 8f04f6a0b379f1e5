-- ===== src/Sync/Revive.antt =====
-- `wake_batch`: every waiter of the queue becomes ready, also one that died while it was parked.
use mobile_phone_os.Prelude.{
  ℕ, zero, suc, ◌+◌, ◌≤◌, ◌≡◌, ◌≢◌, refl, inl, inr, sym, subst, Bool, true, false, ◌||◌, Option,
  none, some, List, [], ◌∷◌, ap, ◌∙◌, arith, if◌then◌else◌, length, eq-cases, ltb,
}
use mobile_phone_os.Task.{Task, ready, Kernel, outranks, raise_resched, max_tasks}
use mobile_phone_os.Task.Queue.{has, Chain, Distinct, Chain-frame}
use mobile_phone_os.Sync.{Sync, batch_one, batch_loop, wake_batch, current}

-- What one turn does to its waiter, whatever its state.
pub record Readied (before after : Task) : Type 0 where
  pub unlinked : after.wq_next ≡ none
  pub state : after.state ≡ ready
  pub lock_wait : after.lock_wait ≡ before.lock_wait

batch_one-Readied : (k : Kernel) (t : ℕ) → Readied (k.tasks t) ((batch_one k t).tasks t)
unfolding batch_one
batch_one-Readied k t = ground arith

batch_one-other : (k : Kernel) (t i : ℕ) → i ≢ t → (batch_one k t).tasks i ≡ k.tasks i
unfolding batch_one
batch_one-other k t i ne = ground arith

sweep : Kernel → List ℕ → Kernel
sweep k [] = k
sweep k (x ∷ xs) = sweep (batch_one k x) xs

-- After the sweep of `xs`: each waiter is unlinked and ready, and no other task has changed.
pub record AllReadied (ts ts' : ℕ → Task) (xs : List ℕ) : Type 0 where
  pub members : (i : ℕ) → has i xs ≡ true → Readied (ts i) (ts' i)
  pub others : (i : ℕ) → has i xs ≡ false → ts' i ≡ ts i

sweep-AllReadied :
    (k : Kernel) (xs : List ℕ) → Distinct xs → AllReadied k.tasks (sweep k xs).tasks xs
unfolding sweep
sweep-AllReadied k [] d = record { members = λ i m. cc; others = λ i m. refl }
sweep-AllReadied k (x ∷ xs) d =
    let rest = sweep-AllReadied (batch_one k x) xs d.1 in
    record {
      members = λ i m. elim (eq-cases i x) [
        | inl e ↦ rw (e, rest.others x d.0) (batch_one-Readied k x)
        | inr ne ↦ rw (← batch_one-other k x i ne) (rest.members i (ground arith))
      ];
      others = λ i m. rest.others i (ground arith) ∙ batch_one-other k x i (ground arith);
    }

batch_loop-sweep :
    (fuel : ℕ) (cur : Option ℕ) (k : Kernel) (head : Option ℕ) (n : ℕ) (p : Bool) (xs : List ℕ)
    → Chain k.tasks head xs
    → Distinct xs
    → length xs ≤ fuel
    → (q : Bool) × (batch_loop fuel cur k head n p ≡ some (sweep k xs, n + length xs, q))
unfolding batch_loop sweep
batch_loop-sweep zero cur k head n p [] h d le = (p, rw h (ground arith))
batch_loop-sweep (suc fuel) cur k head n p [] h d le = (p, rw h (ground arith))
batch_loop-sweep zero cur k head n p (x ∷ xs) h d le = absurd (omega arith)
batch_loop-sweep (suc fuel) cur k head n p (x ∷ xs) h d le =
    let (q, e) =
      batch_loop-sweep fuel cur (batch_one k x) (k.tasks x).wq_next (n + 1) (p || outranks k cur x)
        xs chain d.1 (omega arith) in
    (q, rw h.0 (e ∙ ap (λ (c : ℕ). some (sweep (batch_one k x) xs, c, q)) (omega arith)))
  where
    chain : Chain (batch_one k x).tasks (k.tasks x).wq_next xs
    chain =
        Chain-frame k.tasks (batch_one k x).tasks (k.tasks x).wq_next xs
          (λ i m. ap (λ (t : Task). t.wq_next) (batch_one-other k x i (ground arith))) h.1

-- On a queue of distinct tasks, at most the whole table, `wake_batch` ends; each waiter is then
-- unlinked and ready, whatever its state was before, and so also if it was dead; every other task
-- is as it was; and the largest batch on record counts this one.
pub wake_batch-AllReadied :
    (s : Sync) (c : ℕ) (head : Option ℕ) (xs : List ℕ)
    → Chain s.kernel.tasks head xs
    → Distinct xs
    → length xs ≤ max_tasks
    → (s' : Sync) × (wake_batch s c head ≡ some s')
      × AllReadied s.kernel.tasks s'.kernel.tasks xs
      × (s'.stats.max_wakeups
          ≡ (if ltb s.stats.max_wakeups (length xs) then length xs else s.stats.max_wakeups))
unfolding wake_batch
wake_batch-AllReadied s c head xs h d le =
    let (q, e) =
      batch_loop-sweep (max_tasks + 1) (current s c) s.kernel head 0 false xs h d (omega arith) in
    (after q, rw (e, wake_batch), swept q, ground arith)
  where
    after : Bool → Sync
    after q = record s {
      kernel = raise_resched c (sweep s.kernel xs, q);
      stats =
          if ltb s.stats.max_wakeups (0 + length xs)
          then record (s.stats) { max_wakeups = 0 + length xs }
          else s.stats;
    }

    tasks : (q : Bool) → (raise_resched c (sweep s.kernel xs, q)).tasks ≡ (sweep s.kernel xs).tasks
    tasks q = ground arith

    swept : (q : Bool) → AllReadied s.kernel.tasks (after q).kernel.tasks xs
    swept q =
        subst (λ ts. AllReadied s.kernel.tasks ts xs) (sym (tasks q))
          (sweep-AllReadied s.kernel xs d)
