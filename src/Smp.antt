-- ===== src/Smp.antt =====
-- kernel/sched.c and kernel/task.c on several cpus: what each cpu does under `task_state_lock`, as
-- atomic steps. The lock is handed to the scheduler across the switch, so parking and the
-- scheduler's landing are one step.
pub mod Invariant
pub mod Parking
pub mod Waiting
pub mod Shifting
pub mod Exclusive
mod Tests
use mobile_phone_os.Prelude.{
  ℕ, ◌≡◌, ◌≢◌, ◌⊎◌, Bool, true, false, Option, none, some, List, [], ◌∷◌, ◌==◌, if◌then◌else◌,
  update, ◌<◌, length, ◌≤◌,
}
use mobile_phone_os.Task.{
  Kernel, TaskState, dead, unused, blocked, sleeping, set_task, task_exit, task_yield, msleep,
  wait_sleep_when, wait_wake_all, task_create, Image, max_tasks,
}
use mobile_phone_os.Task.Queue.{has}
use mobile_phone_os.Sched.{pick_next, dispatch, landed, timer_tick, sched_post_irq}

-- The kernel, which cpus have their current task's context loaded, and the members of each wait
-- queue, first waiter first.
pub record System : Type 0 where
  pub kernel : Kernel
  pub executing : ℕ → Bool
  pub queues : ℕ → List ℕ

abbrev pub first : List ℕ → Option ℕ
first [] = none
first (x ∷ xs) = some x

abbrev pub is_some : Option ℕ → Bool
is_some none = false
is_some (some t) = true

-- The scheduler of cpu `c` loads the next task, or finds none.
pub loaded : System → ℕ → System
unfolding dispatch
loaded s c = record s {
  kernel = dispatch s.kernel c;
  executing = update s.executing c (is_some (pick_next s.kernel));
}

-- The current task of cpu `c` has parked in the state `k`, and the scheduler has landed.
pub parked : System → ℕ → Kernel → System
unfolding landed
parked s c k = record s { kernel = landed k c; executing = update s.executing c false }

pub data Step (s : System) : System → Type 0 where
  loads : (c : ℕ) → s.executing c ≡ false → Step s (loaded s c)
  exits :
      (c : ℕ) (k : Kernel)
      → s.executing c ≡ true
      → task_exit s.kernel c ≡ some k
      → Step s (parked s c k)
  yields :
      (c : ℕ) (k : Kernel)
      → s.executing c ≡ true
      → task_yield s.kernel c ≡ some k
      → Step s (parked s c k)
  sleeps :
      (c msecs : ℕ) (k : Kernel)
      → s.executing c ≡ true
      → msleep s.kernel c msecs ≡ some k
      → Step s (parked s c k)
  preempted :
      (c : ℕ) (k : Kernel)
      → s.executing c ≡ true
      → sched_post_irq s.kernel c ≡ some k
      → Step s (parked s c k)
  waits :
      (c q t : ℕ) (k : Kernel)
      → s.executing c ≡ true
      → wait_sleep_when s.kernel c true (first (s.queues q)) ≡ some (true, some t, k)
      → Step s (record (parked s c k) { queues = update s.queues q (t ∷ s.queues q) })
  wakes :
      (c q : ℕ) (k : Kernel)
      → length (s.queues q) ≤ max_tasks
      → wait_wake_all s.kernel c (first (s.queues q)) ≡ some k
      → Step s (record s { kernel = k; queues = update s.queues q [] })
  ticks : (c : ℕ) → Step s (record s { kernel = timer_tick s.kernel c })
  creates :
      (img : Image) (name fn arg prio t : ℕ) (k : Kernel)
      → task_create img s.kernel name fn arg prio ≡ (some t, k)
      → Step s (record s { kernel = k })
  -- `mark_zombie` of kernel/proc.c: a process dies, on whatever cpu its threads are.
  kills :
      (t : ℕ)
      → (s.kernel.tasks t).state ≢ unused
      → Step s
          (record s { kernel = set_task s.kernel t (record (s.kernel.tasks t) { state = dead }) })

pub data Reach (s : System) : System → Type 0 where
  here : Reach s s
  next : {t u : System} → Reach s t → Step t u → Reach s u
