-- ===== src/Sched/Keys.antt =====
-- Run-queue keys: they stay below the counter, which makes equal priorities go round.
use mobile_phone_os.Prelude.{ℕ, ◌+◌, ◌≤◌, ◌<◌, ◌^◌, ◌≡◌, ◌≢◌, some, arith, subst, ◌⊎◌, inl, inr}
use mobile_phone_os.Task.{Kernel, ready, running, max_tasks, make_ready, task_yield}
use mobile_phone_os.Sched.{pick_next, sched_post_irq}
use mobile_phone_os.Sched.Pick.{NoWorse, IsBest, Picked, pick_next-best}

-- No key is younger than the counter, and the counter is not about to wrap.
pub record KeysBelow (k : Kernel) : Type 0 where
  pub below : (i : ℕ) → (k.tasks i).rq_key ≤ k.rq_seq
  pub no_wrap : k.rq_seq + 1 < 2 ^ 64

-- `t` was running or yielding, and is queued anew at `k'`, behind all that was ready at `k`.
pub record Requeued (k k' : Kernel) (t : ℕ) : Type 0 where
  pub key : (k'.tasks t).rq_key ≡ k.rq_seq + 1
  pub prio : (k'.tasks t).prio ≡ (k.tasks t).prio
  pub others : (i : ℕ) → i ≢ t → k'.tasks i ≡ k.tasks i

Requeued-goes_last :
    (k k' : Kernel) (t i : ℕ)
    → KeysBelow k
    → Requeued k k' t
    → i < max_tasks
    → i ≢ t
    → (k.tasks i).state ≡ ready
    → (k.tasks i).prio ≤ (k.tasks t).prio
    → pick_next k' ≢ some t
Requeued-goes_last k k' t i keys q lt ne is_ready urgent picked =
    omega (arith, worse.key_le (omega (arith, worse.prio_le, q.prio)), q.key, keys.below i)
  where
    best : IsBest k'.tasks max_tasks t
    best = subst (Picked k'.tasks max_tasks) picked (pick_next-best k')

    same : k'.tasks i ≡ k.tasks i
    same = q.others i ne

    worse : NoWorse (k'.tasks t) (k.tasks i)
    worse = rw same at (best.best i lt (rw same is_ready))

make_ready-Requeued : (k : Kernel) (t : ℕ) → KeysBelow k → Requeued k (make_ready k t) t
unfolding make_ready
make_ready-Requeued k t keys = record {
  key = ground arith;
  prio = ground arith;
  others = λ i ne. ground arith;
}

task_yield-Requeued :
    (k k' : Kernel) (c t : ℕ)
    → KeysBelow k
    → (k.cpus c).current ≡ some t
    → task_yield k c ≡ some k'
    → Requeued k k' t
unfolding task_yield
task_yield-Requeued k k' c t keys cur e = record {
  key = ground arith;
  prio = ground arith;
  others = λ i ne. ground arith;
}

sched_post_irq-Requeued :
    (k k' : Kernel) (c t : ℕ)
    → KeysBelow k
    → (k.cpus c).current ≡ some t
    → (k.tasks t).state ≡ running
    → sched_post_irq k c ≡ some k'
    → Requeued k k' t
unfolding sched_post_irq
sched_post_irq-Requeued k k' c t keys cur run e = record {
  key = ground arith;
  prio = ground arith;
  others = λ i ne. ground arith;
}

-- A task that yields, or that the tick preempts, is not the next one to run while some other ready
-- task of the table is at least as urgent: no key is younger than the counter, which is not about
-- to wrap.
pub requeued-goes_last :
    (k k' : Kernel) (c t i : ℕ)
    → KeysBelow k
    → (k.cpus c).current ≡ some t
    → (k.tasks t).state ≡ running
    → (task_yield k c ≡ some k') ⊎ (sched_post_irq k c ≡ some k')
    → i < max_tasks
    → i ≢ t
    → (k.tasks i).state ≡ ready
    → (k.tasks i).prio ≤ (k.tasks t).prio
    → pick_next k' ≢ some t
requeued-goes_last k k' c t i keys cur run (inl e) =
    Requeued-goes_last k k' t i keys (task_yield-Requeued k k' c t keys cur e)
requeued-goes_last k k' c t i keys cur run (inr e) =
    Requeued-goes_last k k' t i keys (sched_post_irq-Requeued k k' c t keys cur run e)
