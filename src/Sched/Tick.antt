-- ===== src/Sched/Tick.antt =====
-- The timer tick: sleepers and their deadlines.
use mobile_phone_os.Prelude.{
  ℕ, zero, suc, ◌+◌, ◌*◌, ◌≤◌, ◌<◌, ◌%◌, ◌^◌, ◌≡◌, ◌≢◌, refl, true, false, some, arith, ◌∙◌, inl,
  inr, eq-cases, if◌then◌else◌, ◌&&◌, leb, Bool-cases,
}
use mobile_phone_os.Task.{
  TaskState, Kernel, ready, sleeping, is_state, max_tasks, msleep, sleep_ticks, time_hz,
}
use mobile_phone_os.Sched.{wake_expired, wake_upto, expired, charge, sched_tick}

-- The sleep in ticks is the length in milliseconds rounded up, and at least one tick.
pub sleep_ticks-rounds_up :
    (msecs : ℕ)
    → 0 < msecs
    → msecs * time_hz + 999 < 2 ^ 64
    → (msecs * time_hz ≤ sleep_ticks msecs * 1000)
      × (sleep_ticks msecs * 1000 < msecs * time_hz + 1000)
      × (0 < sleep_ticks msecs)
unfolding sleep_ticks
sleep_ticks-rounds_up msecs pos fits = ground arith

-- `d` ticks after `j`, a deadline set `ticks` after `j` has passed exactly if `ticks ≤ d`, also
-- when the counter has wrapped in between.
pub expired_iff :
    (j d ticks : ℕ)
    → d < 2 ^ 63
    → ticks ≤ 2 ^ 63
    → (ticks ≤ d → expired ((j + d) % 2 ^ 64) ((j + ticks) % 2 ^ 64) ≡ true)
      × (d < ticks → expired ((j + d) % 2 ^ 64) ((j + ticks) % 2 ^ 64) ≡ false)
expired_iff j d ticks hd ht = (λ le. ground arith, λ lt. ground arith)

-- What the tick does to a slot's state.
abbrev pub ticked : Kernel → ℕ → TaskState
ticked k i =
    if is_state (k.tasks i).state sleeping && expired k.jiffies (k.tasks i).wake_at
    then ready
    else (k.tasks i).state

wake_expired_self : (k : Kernel) (i : ℕ) → ((wake_expired k i).tasks i).state ≡ ticked k i
unfolding wake_expired
wake_expired_self k i = ground arith

wake_expired-other : (k : Kernel) (i j : ℕ) → j ≢ i → (wake_expired k i).tasks j ≡ k.tasks j
unfolding wake_expired
wake_expired-other k i j ne = ground arith

jiffies-wake_upto : (k : Kernel) (n : ℕ) → (wake_upto k n).jiffies ≡ k.jiffies
unfolding wake_upto wake_expired
jiffies-wake_upto k zero = refl
jiffies-wake_upto k (suc n) = ground (arith, jiffies-wake_upto k n)

wake_upto-above : (k : Kernel) (n i : ℕ) → n ≤ i → (wake_upto k n).tasks i ≡ k.tasks i
unfolding wake_upto
wake_upto-above k zero i le = refl
wake_upto-above k (suc n) i le =
    wake_expired-other (wake_upto k n) n i (omega arith) ∙ wake_upto-above k n i (omega arith)

wake_upto-state : (k : Kernel) (n i : ℕ) → i < n → ((wake_upto k n).tasks i).state ≡ ticked k i
unfolding wake_upto
wake_upto-state k zero i lt = absurd (omega arith)
wake_upto-state k (suc n) i lt = elim (eq-cases i n) [
  | inl e ↦ rw (
    e,
    wake_expired_self (wake_upto k n) n,
    jiffies-wake_upto k n,
    wake_upto-above k n n (omega arith),
  )
  | inr ne ↦ rw (wake_expired-other (wake_upto k n) n i ne) (wake_upto-state k n i (omega arith))
]

charge-state : (k : Kernel) (c i : ℕ) → ((charge k c).tasks i).state ≡ (k.tasks i).state
unfolding charge
charge-state k c i = ground arith

-- A tick readies the sleepers of the table whose deadline has passed, and no other task changes
-- its state.
pub sched_tick-ticked :
    (k : Kernel) (c i : ℕ) → i < max_tasks → ((sched_tick k c).tasks i).state ≡ ticked k i
unfolding sched_tick
sched_tick-ticked k c i lt =
    charge-state (wake_upto k max_tasks) c i ∙ wake_upto-state k max_tasks i lt

msleep-sleeping :
    (k k' : Kernel) (c t msecs : ℕ)
    → (k.cpus c).current ≡ some t
    → 0 < msecs
    → msleep k c msecs ≡ some k'
    → ((k'.tasks t).state ≡ sleeping)
      × ((k'.tasks t).wake_at ≡ (k.jiffies + sleep_ticks msecs) % 2 ^ 64)
unfolding msleep
msleep-sleeping k k' c t msecs cur pos e = ground arith

-- A task that calls `msleep` for a positive time, whose product with the frequency of the timer plus 999
-- is below 2^64, sleeps until `sleep_ticks` ticks have gone by, which is the time rounded up: a tick with
-- the counter `d` on, `d` below half its range, readies it exactly if `sleep_ticks msecs ≤ d`, though the
-- counter may have wrapped.
pub msleep-sched_tick :
    (k k' later : Kernel) (c t msecs d : ℕ)
    → (k.cpus c).current ≡ some t
    → t < max_tasks
    → 0 < msecs
    → msecs * time_hz + 999 < 2 ^ 64
    → msleep k c msecs ≡ some k'
    → d < 2 ^ 63
    → later.tasks t ≡ k'.tasks t
    → later.jiffies ≡ (k.jiffies + d) % 2 ^ 64
    → (msecs * time_hz ≤ sleep_ticks msecs * 1000)
      × (sleep_ticks msecs * 1000 < msecs * time_hz + 1000)
      × (((sched_tick later c).tasks t).state
          ≡ (if leb (sleep_ticks msecs) d then ready else sleeping))
msleep-sched_tick k k' later c t msecs d cur lt pos fits e hd same now = (
  r.0,
  r.1,
  elim (Bool-cases (leb (sleep_ticks msecs) d)) [
    | inl up ↦
        let le : sleep_ticks msecs ≤ d = ground (arith, up) in
        rw (sched_tick-ticked later c t lt, same, now, asleep.0, asleep.1, when.0 le, up) refl
    | inr down ↦
        let lt' : d < sleep_ticks msecs = ground (arith, down) in
        rw (sched_tick-ticked later c t lt, same, now, asleep.0, asleep.1, when.1 lt', down) refl
  ],
)
  where
    r :
        (msecs * time_hz ≤ sleep_ticks msecs * 1000)
        × (sleep_ticks msecs * 1000 < msecs * time_hz + 1000)
        × (0 < sleep_ticks msecs)
    r = sleep_ticks-rounds_up msecs pos fits

    asleep :
        ((k'.tasks t).state ≡ sleeping)
        × ((k'.tasks t).wake_at ≡ (k.jiffies + sleep_ticks msecs) % 2 ^ 64)
    asleep = msleep-sleeping k k' c t msecs cur pos e

    when :
        (sleep_ticks msecs ≤ d
          → expired ((k.jiffies + d) % 2 ^ 64) ((k.jiffies + sleep_ticks msecs) % 2 ^ 64) ≡ true)
        × (d < sleep_ticks msecs
            → expired ((k.jiffies + d) % 2 ^ 64) ((k.jiffies + sleep_ticks msecs) % 2 ^ 64) ≡ false)
    when = expired_iff k.jiffies d (sleep_ticks msecs) hd (omega (arith, r.1))
