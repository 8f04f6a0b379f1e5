-- ===== src/Task/Samples.antt =====
-- A small task table for the tests of the scheduler and of the primitives built on it.
use mobile_phone_os.Prelude.{ℕ, zero, suc, Option, none, some, List, [], ◌∷◌, false}
use mobile_phone_os.Task.{
  Task, TaskState, Cpu, Kernel, Image, unused, ready, running, blocked, dead,
}

-- A task in the state `s` with the run-queue key `key`, linked to `link`.
abbrev pub sample_task : TaskState → (key : ℕ) → Option ℕ → Task
sample_task s key link = record {
  ctx = record { saved = []; lr = 0; sp = 0 };
  state = s;
  prio = 2;
  rq_key = key;
  quantum_left = 3;
  wake_at = 0;
  wq_next = link;
  name = 0;
  fn = 1;
  arg = 0;
  proc = none;
  parked = false;
  t_kstack = 0;
  lock_wait = none;
}

-- Slot `i` of a table that begins with the given tasks and is free after them.
abbrev pub slot_of : List Task → ℕ → Task
slot_of [] i = sample_task unused 0 none
slot_of (t ∷ ts) zero = t
slot_of (t ∷ ts) (suc i) = slot_of ts i

-- Slot 0 runs; slots 1 and 2 are ready; 3 is blocked and 4 is dead, linked as the queue 3, 4.
abbrev pub sample_tasks : ℕ → Task
sample_tasks = slot_of (
    sample_task running 5 none
    ∷ sample_task ready 9 none
    ∷ sample_task ready 7 none
    ∷ sample_task blocked 2 (some 4)
    ∷ sample_task dead 1 none
    ∷ [])

-- Cpu 0 has the task 0; the other cpus idle.
abbrev pub sample_cpus : ℕ → Cpu
sample_cpus zero = record { current = some 0; need_resched = false }
sample_cpus (suc n) = record { current = none; need_resched = false }

abbrev pub sample_kernel : Kernel
sample_kernel = record { tasks = sample_tasks; rq_seq = 9; jiffies = 100; cpus = sample_cpus }

-- The same table before the first dispatch.
abbrev pub idle_kernel : Kernel
idle_kernel = record sample_kernel { cpus = λ c. record { current = none; need_resched = false } }

abbrev pub sample_image : Image
sample_image = record { task_stacks = 4096; task_first_entry = 64 }
