-- ===== src/Sched.antt =====
-- kernel/sched.c: the choice of the next task, dispatch, the timer tick and preemption.
pub mod Pick
pub mod Keys
pub mod Tick
mod Tests
use mobile_phone_os.Prelude.{
  ℕ, zero, suc, ◌+◌, ◌-◌, ◌%◌, ◌^◌, Bool, true, false, ◌&&◌, Option, none, some, ltb, ◌==◌,
  if◌then◌else◌, update, add64,
}
use mobile_phone_os.Task.{
  Task, Kernel, Cpu, ready, running, sleeping, is_state, set_task, set_cpu, make_ready, max_tasks,
  sched_quantum,
}

-- A lower `prio` wins, then the older key.
pub better : Task → Task → Bool
better a b = if a.prio == b.prio then ltb a.rq_key b.rq_key else ltb a.prio b.prio

pub consider : (ℕ → Task) → Option ℕ → ℕ → Option ℕ
unfolding better
consider ts best i =
    if is_state (ts i).state ready
    then elim best [ none ↦ some i | some b ↦ if better (ts i) (ts b) then some i else some b ]
    else best

-- `best` after the turns `0 .. n - 1` of the loop.
pub pick_upto : (ℕ → Task) → ℕ → Option ℕ
unfolding consider
pick_upto ts zero = none
pick_upto ts (suc i) = consider ts (pick_upto ts i) i

unfoldable pub pick_next : Kernel → Option ℕ
unfolding pick_upto
pick_next k = pick_upto k.tasks max_tasks

-- One turn of the loop of `sched_run` up to the switch: a task is installed, or the cpu idles.
unfoldable pub dispatch : Kernel → ℕ → Kernel
dispatch k c = elim (pick_next k) [
  | none ↦ set_cpu k c (record (k.cpus c) { current = none })
  | some t ↦
      set_cpu (set_task k t (record (k.tasks t) { state = running; quantum_left = sched_quantum }))
        c (record (k.cpus c) { current = some t })
]

-- `sched_run` after the switch back: the task has parked itself.
unfoldable pub landed : Kernel → ℕ → Kernel
landed k c = elim (k.cpus c).current [
  | none ↦ k
  | some t ↦ set_task k t (record (k.tasks t) { parked = true })
]

-- `(long)(jiffies_read() - t->wake_at) >= 0`
abbrev pub expired : ℕ → ℕ → Bool
expired now wake_at = ltb ((now + 2 ^ 64 - wake_at) % 2 ^ 64) (2 ^ 63)

unfoldable pub wake_expired : Kernel → ℕ → Kernel
unfolding make_ready
wake_expired k i =
    if is_state (k.tasks i).state sleeping && expired k.jiffies (k.tasks i).wake_at
    then make_ready k i
    else k

-- The kernel after the turns `0 .. n - 1` of the sweep of `sched_tick`.
unfoldable pub wake_upto : Kernel → ℕ → Kernel
unfolding wake_expired
wake_upto k zero = k
wake_upto k (suc i) = wake_expired (wake_upto k i) i

-- The quantum of the running task falls; at 0 the cpu is asked to reschedule.
unfoldable pub charge : Kernel → ℕ → Kernel
charge k c = elim (k.cpus c).current [
  | none ↦ k
  | some t ↦
      if is_state (k.tasks t).state running
      then (let left = (k.tasks t).quantum_left - 1 in
          let k' = set_task k t (record (k.tasks t) { quantum_left = left }) in
          if left == 0 then set_cpu k' c (record (k'.cpus c) { need_resched = true }) else k')
      else k
]

unfoldable pub sched_tick : Kernel → ℕ → Kernel
sched_tick k c = charge (wake_upto k max_tasks) c

-- `timer_tick` of kernel/time.c, without the watchdog and the timer itself.
unfoldable pub timer_tick : Kernel → ℕ → Kernel
timer_tick k c = sched_tick (record k { jiffies = add64 k.jiffies 1 }) c

-- `sched_post_irq` up to the park: `none` when it returns without parking.
unfoldable pub sched_post_irq : Kernel → ℕ → Option Kernel
unfolding make_ready
sched_post_irq k c = elim (k.cpus c).current [
  | none ↦ none
  | some t ↦
      if (k.cpus c).need_resched
      then (let k' = set_cpu k c (record (k.cpus c) { need_resched = false }) in
          some (if is_state (k.tasks t).state running then make_ready k' t else k'))
      else none
]
