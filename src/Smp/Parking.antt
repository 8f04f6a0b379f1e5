-- ===== src/Smp/Parking.antt =====
-- The calls that park the current task keep the invariant.
use mobile_phone_os.Prelude.{
  ℕ, ◌≡◌, ◌≢◌, inl, inr, true, false, some, update, arith, eq-cases, ◌∙◌, sym, ap,
}
use mobile_phone_os.Task.{Task, Kernel, task_exit, task_yield, msleep}
use mobile_phone_os.Task.Queue.{Chain-frame}
use mobile_phone_os.Sched.{landed, sched_post_irq}
use mobile_phone_os.Smp.{System, first}
use mobile_phone_os.Smp.Invariant.{Executes, Inv}

-- What a parking call does to the kernel: only the current task changes, and not its link.
pub record Parks (k k' : Kernel) (c t : ℕ) : Type 0 where
  pub current : (k.cpus c).current ≡ some t
  pub currents : (d : ℕ) → (k'.cpus d).current ≡ (k.cpus d).current
  pub others : (i : ℕ) → i ≢ t → k'.tasks i ≡ k.tasks i
  pub link : (k'.tasks t).wq_next ≡ (k.tasks t).wq_next

module _ {k k' : Kernel} {c t : ℕ} (cur : (k.cpus c).current ≡ some t) where
  pub exit-Parks : task_exit k c ≡ some k' → Parks k k' c t
  unfolding task_exit
  exit-Parks e = record {
    current = cur;
    currents = λ d. ground arith;
    others = λ i ne. ground arith;
    link = ground arith;
  }

  pub yield-Parks : task_yield k c ≡ some k' → Parks k k' c t
  unfolding task_yield
  yield-Parks e = record {
    current = cur;
    currents = λ d. ground arith;
    others = λ i ne. ground arith;
    link = ground arith;
  }

  pub msleep-Parks : (msecs : ℕ) → msleep k c msecs ≡ some k' → Parks k k' c t
  unfolding msleep
  msleep-Parks msecs e = record {
    current = cur;
    currents = λ d. ground arith;
    others = λ i ne. ground arith;
    link = ground arith;
  }

  pub post_irq-Parks : sched_post_irq k c ≡ some k' → Parks k k' c t
  unfolding sched_post_irq
  post_irq-Parks e = record {
    current = cur;
    currents = λ d. ground arith;
    others = λ i ne. ground arith;
    link = ground arith;
  }

  -- Landing marks the parked task, and nothing that the invariant reads.
  pub landed-Parks : Parks k k' c t → Parks k (landed k' c) c t
  unfolding landed
  landed-Parks p = record {
    current = cur;
    currents = λ d. ground (arith, p.currents d);
    others = λ i ne. ground (arith, p.others i, p.currents c);
    link = ground (arith, p.link, p.currents c);
  }

module _ {s : System} {c t : ℕ} {k' : Kernel} (v : Inv s) (on : s.executing c ≡ true)
    (p : Parks s.kernel k' c t) where
  open p use {current, currents, others, link}

  executor : Executes s c t
  executor = record { loaded = on; current = current }

  -- Who executes afterwards did so before, on another cpu.
  abbrev after : System
  after = record s { kernel = k'; executing = update s.executing c false }

  before : (d i : ℕ) → Executes after d i → (d ≢ c) × Executes s d i
  before d i x = (
    ground (arith, x.loaded),
    record { loaded = ground (arith, x.loaded); current = sym (currents d) ∙ x.current },
  )

  other_task : (d i : ℕ) → Executes after d i → i ≢ t
  other_task d i x e = (before d i x).0 (v.exclusive d c t (rw e at (before d i x).1) executor)

  links : (i : ℕ) → (k'.tasks i).wq_next ≡ (s.kernel.tasks i).wq_next
  links i = elim (eq-cases i t) [
    | inl e ↦ rw e link
    | inr ne ↦ ap (λ (x : Task). x.wq_next) (others i ne)
  ]

  pub parks-Inv : Inv after
  parks-Inv = record {
    has_task = λ d x.
        let (i, y) = v.has_task d (ground arith) in
        (i, record { loaded = x; current = currents d ∙ y.current });
    live = λ d i x. rw (others i (other_task d i x)) (v.live d i (before d i x).1);
    exclusive = λ d d' i x y. v.exclusive d d' i (before d i x).1 (before d' i y).1;
    not_waiting = λ d i q x. v.not_waiting d i q (before d i x).1;
    waiting = λ q i m.
        rw (others i (λ e. cc (v.not_waiting c t q executor, rw e at m))) (v.waiting q i m);
    one_queue = v.one_queue;
    distinct = v.distinct;
    chain = λ q.
        Chain-frame s.kernel.tasks k'.tasks (first (s.queues q)) (s.queues q) (λ i m. links i)
          (v.chain q);
  }
