-- ===== src/Smp/Shifting.antt =====
-- The steps that run beside the tasks, a tick, a new task and a kill, keep the invariant; so does
-- loading a task.
use mobile_phone_os.Prelude.{
  ℕ, zero, suc, add64, ◌≡◌, ◌≢◌, ◌⊎◌, inl, refl, some, arith, ◌∙◌, sym, ap,
}
use mobile_phone_os.Task.{
  Task, Kernel, ready, running, dead, unused, blocked, sleeping, set_task, task_create, Image,
  max_tasks,
}
use mobile_phone_os.Task.Queue.{Chain-frame}
use mobile_phone_os.Sched.{sched_tick, timer_tick}
use mobile_phone_os.Smp.{System, first}
use mobile_phone_os.Task.{Cpu, task_prime}
use mobile_phone_os.Task.Create.{unused_of_alloc}
use mobile_phone_os.Smp.Invariant.{Executes, Inv}
use mobile_phone_os.Sched.{wake_expired, wake_upto, charge}

-- What such a step may do to one task.
pub record Shifted (t t' : Task) : Type 0 where
  pub state : (t'.state ≡ t.state) ⊎ (t'.state ≡ dead) ⊎ ((t.state ≡ sleeping) ⊎ (t.state ≡ unused))
  pub link : t.state ≢ unused → t'.wq_next ≡ t.wq_next

pub record Shifts (k k' : Kernel) : Type 0 where
  pub currents : (d : ℕ) → (k'.cpus d).current ≡ (k.cpus d).current
  pub tasks : (i : ℕ) → Shifted (k.tasks i) (k'.tasks i)

live-Shifted :
    (t t' : Task)
    → Shifted t t'
    → (t.state ≡ running) ⊎ (t.state ≡ dead)
    → (t'.state ≡ running) ⊎ (t'.state ≡ dead)
live-Shifted t t' h l = ground (arith, h.state)

waiting-Shifted :
    (t t' : Task)
    → Shifted t t'
    → (t.state ≡ blocked) ⊎ (t.state ≡ dead)
    → (t'.state ≡ blocked) ⊎ (t'.state ≡ dead)
waiting-Shifted t t' h l = ground (arith, h.state)

used_waiting : (t : Task) → (t.state ≡ blocked) ⊎ (t.state ≡ dead) → t.state ≢ unused
used_waiting t l = ground arith

module _ {s : System} {k' : Kernel} (v : Inv s) (h : Shifts s.kernel k') where
  abbrev after : System
  after = record s { kernel = k' }

  before : (d i : ℕ) → Executes after d i → Executes s d i
  before d i x = record { loaded = x.loaded; current = sym (h.currents d) ∙ x.current }

  pub shifts-Inv : Inv after
  shifts-Inv = record {
    has_task = λ d x.
        let (i, y) = v.has_task d x in
        (i, record { loaded = x; current = h.currents d ∙ y.current });
    live = λ d i x. live-Shifted _ _ (h.tasks i) (v.live d i (before d i x));
    exclusive = λ d d' i x y. v.exclusive d d' i (before d i x) (before d' i y);
    not_waiting = λ d i q x. v.not_waiting d i q (before d i x);
    waiting = λ q i m. waiting-Shifted _ _ (h.tasks i) (v.waiting q i m);
    one_queue = v.one_queue;
    distinct = v.distinct;
    chain = λ q.
        Chain-frame s.kernel.tasks k'.tasks (first (s.queues q)) (s.queues q)
          (λ i m. (h.tasks i).link (used_waiting (s.kernel.tasks i) (v.waiting q i m))) (v.chain q);
  }

-- What a tick may do to one task.
record Dozed (t t' : Task) : Type 0 where
  state : (t'.state ≡ t.state) ⊎ ((t.state ≡ sleeping) × (t'.state ≡ ready))
  link : t'.wq_next ≡ t.wq_next

wake_expired-Dozed : (k : Kernel) (j i : ℕ) → Dozed (k.tasks i) ((wake_expired k j).tasks i)
unfolding wake_expired
wake_expired-Dozed k j i = record { state = ground arith; link = ground arith }

Dozed-trans : {t t' t'' : Task} → Dozed t t' → Dozed t' t'' → Dozed t t''
Dozed-trans h h' = record { state = ground (arith, h.state, h'.state); link = h'.link ∙ h.link }

wake_upto-Dozed : (k : Kernel) (n i : ℕ) → Dozed (k.tasks i) ((wake_upto k n).tasks i)
unfolding wake_upto
wake_upto-Dozed k zero i = record { state = inl refl; link = refl }
wake_upto-Dozed k (suc n) i =
    Dozed-trans (wake_upto-Dozed k n i) (wake_expired-Dozed (wake_upto k n) n i)

wake_upto-cpus : (k : Kernel) (n : ℕ) → (wake_upto k n).cpus ≡ k.cpus
unfolding wake_upto wake_expired
wake_upto-cpus k zero = refl
wake_upto-cpus k (suc n) = ground (arith, wake_upto-cpus k n)

Shifted-of_Dozed : {t t' t'' : Task} → Dozed t t' → Shifted t' t'' → Shifted t t''
Shifted-of_Dozed h h' = record {
  state = ground (arith, h.state, h'.state);
  link = ground (arith, h.state, h.link, h'.link, h'.state);
}

charge-Shifts : (k : Kernel) (c : ℕ) → Shifts k (charge k c)
unfolding charge
charge-Shifts k c = record {
  currents = λ d. ground arith;
  tasks = λ i. record { state = ground arith; link = λ u. ground arith };
}

tick-Shifts : (k : Kernel) (c : ℕ) → Shifts k (sched_tick k c)
unfolding sched_tick
tick-Shifts k c = record {
  currents =
      λ d. charged.currents d ∙ ap (λ (f : ℕ → Cpu). (f d).current) (wake_upto-cpus k max_tasks);
  tasks = λ i. Shifted-of_Dozed (wake_upto-Dozed k max_tasks i) (charged.tasks i);
}
  where
    charged : Shifts (wake_upto k max_tasks) (charge (wake_upto k max_tasks) c)
    charged = charge-Shifts (wake_upto k max_tasks) c

pub timer-Shifts : (k : Kernel) (c : ℕ) → Shifts k (timer_tick k c)
unfolding timer_tick
timer-Shifts k c =
    let r = tick-Shifts (record k { jiffies = add64 k.jiffies 1 }) c in
    record { currents = r.currents; tasks = r.tasks }

pub create-Shifts :
    (img : Image) (k k' : Kernel) (name fn arg prio t : ℕ)
    → task_create img k name fn arg prio ≡ (some t, k')
    → Shifts k k'
unfolding task_create task_prime
create-Shifts img k k' name fn arg prio t e = record {
  currents = λ d. ground arith;
  tasks = λ i. record {
    state = ground (arith, unused_of_alloc k t);
    link = λ u. ground (arith, unused_of_alloc k t);
  };
}

pub kill-Shifts :
    (k : Kernel) (t : ℕ) → Shifts k (set_task k t (record (k.tasks t) { state = dead }))
kill-Shifts k t = record {
  currents = λ d. refl;
  tasks = λ i. record { state = ground arith; link = λ u. ground arith };
}
