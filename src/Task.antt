-- ===== src/Task.antt =====
-- kernel/task.c, kernel/sched.c and include/task.h: the task table, the run queue and the wait
-- queues. A `struct task *` is a slot of the table; a NULL pointer is `none`.
pub mod Queue
pub mod Wake
pub mod Create
pub mod Samples
mod Tests
use mobile_phone_os.Prelude.{
  ℕ, zero, suc, ◌+◌, ◌-◌, ◌*◌, ◌/◌, ◌%◌, ◌^◌, Bool, true, false, ◌&&◌, ◌||◌, not, Option, none,
  some, List, [], ◌∷◌, ◌≡◌, ◌≢◌, arith, ltb, ◌==◌, if◌then◌else◌, update,
}

-- `enum task_state`
pub data TaskState : Type 0 where
  unused ready running sleeping blocked dead : TaskState

abbrev pub is_state : TaskState → TaskState → Bool
is_state unused unused = true
is_state ready ready = true
is_state running running = true
is_state sleeping sleeping = true
is_state blocked blocked = true
is_state dead dead = true
is_state _ _ = false

pub eq_of_is_state : (s u : TaskState) → is_state s u ≡ true → s ≡ u
eq_of_is_state s u h = ground arith

pub ne_of_is_state : (s u : TaskState) → is_state s u ≡ false → s ≢ u
ne_of_is_state s u h = ground arith

-- `struct cpu_context`: the callee-saved registers, the resume address and the stack pointer.
pub record Context : Type 0 where
  pub saved : List ℕ
  pub lr : ℕ
  pub sp : ℕ

-- `struct task`
pub record Task : Type 0 where
  pub ctx : Context
  pub state : TaskState
  pub prio : ℕ
  pub rq_key : ℕ
  pub quantum_left : ℕ
  pub wake_at : ℕ
  pub wq_next : Option ℕ
  pub name : ℕ
  pub fn : ℕ
  pub arg : ℕ
  pub proc : Option ℕ
  pub parked : Bool
  pub t_kstack : ℕ
  pub lock_wait : Option ℕ

-- The fields of `struct per_cpu` that the scheduler keeps.
pub record Cpu : Type 0 where
  pub current : Option ℕ
  pub need_resched : Bool

pub record Kernel : Type 0 where
  pub tasks : ℕ → Task
  pub rq_seq : ℕ
  pub jiffies : ℕ
  pub cpus : ℕ → Cpu

abbrev pub max_tasks : ℕ
max_tasks = 64

abbrev pub time_hz : ℕ
time_hz = 100

abbrev pub sched_quantum : ℕ
sched_quantum = 5

abbrev pub task_stack_size : ℕ
task_stack_size = 16 * 1024

-- The program's own addresses that a primed context holds.
pub record Image : Type 0 where
  pub task_stacks : ℕ
  pub task_first_entry : ℕ

-- `task_next_key`: the counter is a `uint64_t`.
unfoldable pub task_next_key : Kernel → Kernel
task_next_key k = record k { rq_seq = (k.rq_seq + 1) % 2 ^ 64 }

-- A write to one slot of the table.
abbrev pub set_task : Kernel → ℕ → Task → Kernel
set_task k i t = record k { tasks = update k.tasks i t }

abbrev pub set_cpu : Kernel → ℕ → Cpu → Kernel
set_cpu k c p = record k { cpus = update k.cpus c p }

-- `t->state = TASK_READY; t->rq_key = task_next_key();`
unfoldable pub make_ready : Kernel → ℕ → Kernel
unfolding task_next_key
make_ready k i =
    let k' = task_next_key k in
    set_task k' i (record (k.tasks i) { state = ready; rq_key = k'.rq_seq })

-- The first `i < n` whose slot is free, in the order of the loop.
pub alloc_upto : (ℕ → Task) → ℕ → Option ℕ
alloc_upto ts zero = none
alloc_upto ts (suc i) = elim (alloc_upto ts i) [
  | some j ↦ some j
  | none ↦ if is_state (ts i).state unused then some i else none
]

unfoldable pub alloc_task : Kernel → Option ℕ
alloc_task k = alloc_upto k.tasks max_tasks

-- `task_prime`; the stack pointer is aligned down to 16.
unfoldable pub task_prime : Image → Kernel → ℕ → (name fn arg prio : ℕ) → Kernel
unfolding task_next_key
task_prime img k i name fn arg prio =
    let k' = task_next_key k in
    let top = img.task_stacks + i * task_stack_size + task_stack_size in
    set_task k' i (record (k.tasks i) {
      ctx = record {
        saved = 0 ∷ 0 ∷ 0 ∷ 0 ∷ 0 ∷ 0 ∷ 0 ∷ 0 ∷ 0 ∷ 0 ∷ 0 ∷ [];
        lr = img.task_first_entry;
        sp = top - top % 16;
      };
      state = ready;
      prio = prio;
      rq_key = k'.rq_seq;
      quantum_left = 0;
      wake_at = 0;
      wq_next = none;
      lock_wait = none;
      name = name;
      fn = fn;
      arg = arg;
    })

-- `task_create`: -1 is `none`; a NULL function is 0.
unfoldable pub task_create : Image → Kernel → (name fn arg prio : ℕ) → Option ℕ × Kernel
task_create img k name fn arg prio = if fn == 0 then (none, k) else elim (alloc_task k) [
  | none ↦ (none, k)
  | some i ↦ (some i, task_prime img k i name fn arg prio)
]

unfoldable pub task_create_deferred : Image → Kernel → (name fn arg prio : ℕ) → Option ℕ × Kernel
task_create_deferred img k name fn arg prio = if fn == 0 then (none, k) else elim (alloc_task k) [
  | none ↦ (none, k)
  | some i ↦
      let k' = task_prime img k i name fn arg prio in
      (
        some i,
        set_task k' i (record (k'.tasks i) { state = blocked; parked = false; t_kstack = 0 }),
      )
]

-- `task_launch`; the panic on a bad slot is `none`.
unfoldable pub task_launch : Kernel → ℕ → Option Kernel
unfolding make_ready
task_launch k slot = if ltb slot max_tasks then some (make_ready k slot) else none

-- The calls that park: the state in which the task enters `sched_park`. A panic is `none`.
unfoldable pub task_exit : Kernel → ℕ → Option Kernel
task_exit k c = elim (k.cpus c).current [
  | none ↦ none
  | some t ↦ some (set_task k t (record (k.tasks t) { state = dead }))
]

unfoldable pub task_yield : Kernel → ℕ → Option Kernel
unfolding make_ready
task_yield k c = elim (k.cpus c).current [ none ↦ none | some t ↦ some (make_ready k t) ]

unfoldable pub park_current : Kernel → ℕ → TaskState → Option Kernel
park_current k c s = elim (k.cpus c).current [
  | none ↦ none
  | some t ↦ some (set_task k t (record (k.tasks t) { state = s }))
]

-- The sleep in ticks, rounded up; `uint64_t` products wrap.
unfoldable pub sleep_ticks : ℕ → ℕ
sleep_ticks msecs =
    let ticks = (msecs * time_hz + 999) % 2 ^ 64 / 1000 in if ticks == 0 then 1 else ticks

-- A sleep writes the current task's deadline; without a current task that faults.
unfoldable pub msleep : Kernel → ℕ → ℕ → Option Kernel
unfolding task_yield park_current
msleep k c msecs = if msecs == 0 then task_yield k c else elim (k.cpus c).current [
  | none ↦ none
  | some t ↦
      park_current
        (set_task k t (record (k.tasks t) { wake_at = (k.jiffies + sleep_ticks msecs) % 2 ^ 64 })) c
        sleeping
]

-- `wait_sleep_when` at a value of its predicate: the new queue head, and whether the task parks.
unfoldable pub wait_sleep_when : Kernel → ℕ → Bool → Option ℕ → Option (Bool × Option ℕ × Kernel)
wait_sleep_when k c cond head = elim (k.cpus c).current [
  | none ↦ none
  | some t ↦
      if cond
      then some
          (true, some t, set_task k t (record (k.tasks t) { wq_next = head; state = blocked }))
      else some (false, head, k)
]

-- `cur && t->prio < cur->prio`
unfoldable pub outranks : Kernel → Option ℕ → ℕ → Bool
outranks k none t = false
outranks k (some cur) t = ltb (k.tasks t).prio (k.tasks cur).prio

-- One turn of `wait_wake_all`: the waiter is unlinked, and readied unless it is dead.
unfoldable pub wake_one : Kernel → ℕ → Kernel
unfolding make_ready
wake_one k t =
    let k' = set_task k t (record (k.tasks t) { wq_next = none }) in
    if is_state (k.tasks t).state dead then k' else make_ready k' t

-- The loop, with the `preempt` flag; `none` means that the fuel ran out.
pub wake_loop : ℕ → Option ℕ → Kernel → Option ℕ → Bool → Option (Kernel × Bool)
unfolding wake_one outranks
wake_loop fuel cur k none preempt = some (k, preempt)
wake_loop zero cur k (some t) preempt = none
wake_loop (suc fuel) cur k (some t) preempt =
    wake_loop fuel cur (wake_one k t) (k.tasks t).wq_next
      (preempt || (not (is_state (k.tasks t).state dead) && outranks k cur t))

-- After the sweep the preemption flag of the calling cpu may rise.
abbrev pub raise_resched : ℕ → Kernel × Bool → Kernel
raise_resched c (k, preempt) = elim (k.cpus c).current [
  | none ↦ k
  | some t ↦ if preempt then set_cpu k c (record (k.cpus c) { need_resched = true }) else k
]

-- The queue is empty afterwards.
unfoldable pub wait_wake_all : Kernel → ℕ → Option ℕ → Option Kernel
unfolding wake_loop
wait_wake_all k c head = elim (wake_loop (max_tasks + 1) (k.cpus c).current k head false) [
  | none ↦ none
  | some r ↦ some (raise_resched c r)
]
