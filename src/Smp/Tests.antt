-- ===== src/Smp/Tests.antt =====
-- Two cpus and two tasks, one of which sleeps and wakes up.
use mobile_phone_os.Prelude.{ℕ, ◌+◌, ◌%◌, ◌^◌, ◌≡◌, ◌≢◌, refl, false, some, []}
use mobile_phone_os.Task.{Kernel, ready, sleeping, set_task, msleep, sleep_ticks}
use mobile_phone_os.Task.Samples.{idle_kernel}
use mobile_phone_os.Task.Queue.{has}
use mobile_phone_os.Sched.{dispatch, pick_next, timer_tick, sched_tick, charge, wake_upto}
use mobile_phone_os.Smp.{System, loaded, parked, Reach, loads, sleeps, ticks, here, next}
use mobile_phone_os.Smp.Invariant.{Executes, state_of}
use mobile_phone_os.Smp.Exclusive.{Reach-exclusive}

abbrev start : System
start = record { kernel = idle_kernel; executing = λ c. false; queues = λ q. [] }

-- Cpu 0 takes a task, cpu 1 another; cpu 1's task sleeps for a tick, a tick on cpu 0 readies it, and cpu
-- 1 takes it up again.
abbrev one : System
one = loaded start 0

abbrev two : System
two = loaded one 1

abbrev asleep : Kernel
asleep =
    let k =
      set_task two.kernel 1 (record (two.kernel.tasks 1) {
        wake_at = (two.kernel.jiffies + sleep_ticks 10) % 2 ^ 64;
      }) in
    set_task k 1 (record (k.tasks 1) { state = sleeping })

abbrev three : System
three = parked two 1 asleep

abbrev four : System
four = record three { kernel = timer_tick three.kernel 0 }

abbrev five : System
five = loaded four 1

run : Reach start five
unfolding loaded parked dispatch msleep pick_next
run =
    next
      (next (next (next (next here (loads 0 refl)) (loads 1 refl)) (sleeps 1 10 _ refl refl))
        (ticks 0))
      (loads 1 refl)

-- The task that slept is executing again.
awake : (five.kernel.cpus 1).current ≡ some 1
unfolding loaded parked dispatch msleep pick_next timer_tick sched_tick charge wake_upto sleep_ticks
awake = refl

Reach-exclusive_example :
    ((c d t : ℕ) → Executes five c t → Executes five d t → c ≡ d)
    × ((c t q : ℕ) → Executes five c t → has t (five.queues q) ≡ false)
    × ((c t : ℕ) → Executes five c t → state_of five t ≢ ready)
Reach-exclusive_example = Reach-exclusive (λ c. refl) (λ q. refl) run
