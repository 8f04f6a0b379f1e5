-- ===== src/Sched/Tests.antt =====
-- The scheduler on a small task table.
use mobile_phone_os.Prelude.{
  ◌≡◌, ◌≢◌, ◌≤◌, ◌<◌, ◌*◌, ◌+◌, refl, some, arith, inl, leb, if◌then◌else◌,
}
use mobile_phone_os.Task.{
  Kernel, ready, sleeping, max_tasks, time_hz, make_ready, msleep, set_task, sleep_ticks,
  task_yield,
}
use mobile_phone_os.Task.Samples.{sample_kernel, sample_tasks}
use mobile_phone_os.Sched.{pick_next, sched_tick}
use mobile_phone_os.Sched.Pick.{Picked, pick_next-best}
use mobile_phone_os.Sched.Keys.{KeysBelow, requeued-goes_last}
use mobile_phone_os.Sched.Tick.{msleep-sched_tick}

pick_next-best_example : Picked sample_kernel.tasks max_tasks (pick_next sample_kernel)
pick_next-best_example = pick_next-best sample_kernel

keys-KeysBelow : KeysBelow sample_kernel
keys-KeysBelow = record { below = λ i. ground arith; no_wrap = omega arith }

requeued-goes_last_example : pick_next (make_ready sample_kernel 0) ≢ some 0
unfolding task_yield
requeued-goes_last_example =
    requeued-goes_last sample_kernel (make_ready sample_kernel 0) 0 0 2 keys-KeysBelow refl refl
      (inl refl) (omega arith) (omega arith) refl (omega arith)

-- The kernel after task 0 has gone to sleep until tick 103.
abbrev asleep : Kernel
asleep =
    let k = set_task sample_kernel 0 (record (sample_tasks 0) { wake_at = 103 }) in
    set_task k 0 (record (k.tasks 0) { state = sleeping })

-- 25 milliseconds are three ticks.
msleep-sched_tick_example :
    (25 * time_hz ≤ sleep_ticks 25 * 1000)
    × (sleep_ticks 25 * 1000 < 25 * time_hz + 1000)
    × (((sched_tick (record asleep { jiffies = 103 }) 0).tasks 0).state
        ≡ (if leb (sleep_ticks 25) 3 then ready else sleeping))
unfolding msleep sleep_ticks
msleep-sched_tick_example =
    msleep-sched_tick sample_kernel asleep (record asleep { jiffies = 103 }) 0 0 25 3 refl
      (omega arith) (omega arith) (omega arith) refl (omega arith) refl refl
