-- ===== src/Ipc/Poll.antt =====
-- `ipc_poll_park` and the timer tick.
use mobile_phone_os.Prelude.{
  ℕ, ◌+◌, ◌-◌, ◌*◌, ◌/◌, ◌%◌, ◌^◌, ◌≤◌, ◌<◌, ◌≡◌, sym, ap, ◌∙◌, true, false, arith, ℤ, pos, negsuc,
  if◌then◌else◌, leb, Bool-cases, inl, inr,
}
use native.Mathlib.Nat.{mod-eq_of_lt}
use mobile_phone_os.Task.{Kernel, ready, sleeping, max_tasks, time_hz}
use mobile_phone_os.Sched.{sched_tick, expired}
use mobile_phone_os.Sched.Tick.{ticked, sched_tick-ticked, expired_iff}
use mobile_phone_os.Ipc.{Ipc, ipc_poll_park, poll_deadline}

-- The sleep of a poll in ticks.
abbrev pub poll_ticks : ℕ → ℕ
poll_ticks msecs = msecs * time_hz / 1000 + 1

parked-ticked :
    (s : Ipc) (me : ℕ) (t : ℤ) (later : Kernel)
    → later.tasks me ≡ (ipc_poll_park s me t).kernel.tasks me
    → ticked later me
      ≡ (if expired later.jiffies (poll_deadline s.kernel.jiffies t) then ready else sleeping)
unfolding ipc_poll_park
parked-ticked s me t later same = ground (arith, same)

polled-state :
    (s : Ipc) (c me : ℕ) (later : Kernel) (t : ℤ)
    → me < max_tasks
    → later.tasks me ≡ (ipc_poll_park s me t).kernel.tasks me
    → ((sched_tick later c).tasks me).state
      ≡ (if expired later.jiffies (poll_deadline s.kernel.jiffies t) then ready else sleeping)
polled-state s c me later t lt same =
    sched_tick-ticked later c me lt ∙ parked-ticked s me t later same

deadline-eq :
    (j msecs : ℕ)
    → msecs * time_hz < 2 ^ 63
    → poll_deadline j (pos msecs) ≡ (j + poll_ticks msecs) % 2 ^ 64
deadline-eq j msecs small =
    ap (λ p. (j + p / 1000 + 1) % 2 ^ 64) (mod-eq_of_lt (omega arith))
    ∙ ap (λ p. p % 2 ^ 64) (omega arith)

-- A poll with a timeout of `msecs` milliseconds sleeps longer than that, by at most a tick, if no
-- event comes: a tick with the counter `d` on, `d` below half its range, readies the task exactly
-- if `d` has reached the timeout in ticks, rounded down, plus one.
pub ipc_poll_park-timeout :
    (s : Ipc) (c me d msecs : ℕ) (later : Kernel)
    → me < max_tasks
    → msecs * time_hz < 2 ^ 63
    → d < 2 ^ 63
    → later.tasks me ≡ (ipc_poll_park s me (pos msecs)).kernel.tasks me
    → later.jiffies ≡ (s.kernel.jiffies + d) % 2 ^ 64
    → (((sched_tick later c).tasks me).state
        ≡ (if leb (poll_ticks msecs) d then ready else sleeping))
      × (msecs * time_hz < poll_ticks msecs * 1000)
      × (poll_ticks msecs * 1000 ≤ msecs * time_hz + 1000)
ipc_poll_park-timeout s c me d msecs later lt small hd same now = (
  polled-state s c me later (pos msecs) lt same ∙ ap (λ b. if b then ready else sleeping) decided,
  omega arith,
  omega arith,
)
  where
    when :
        (poll_ticks msecs ≤ d
          → expired
              ((s.kernel.jiffies + d) % 2 ^ 64)
              ((s.kernel.jiffies + poll_ticks msecs) % 2 ^ 64)
            ≡ true)
        × (d < poll_ticks msecs
            → expired
                ((s.kernel.jiffies + d) % 2 ^ 64)
                ((s.kernel.jiffies + poll_ticks msecs) % 2 ^ 64)
              ≡ false)
    when = expired_iff s.kernel.jiffies d (poll_ticks msecs) hd (omega arith)

    decided :
        expired later.jiffies (poll_deadline s.kernel.jiffies (pos msecs))
        ≡ leb (poll_ticks msecs) d
    decided =
        rw (now, deadline-eq s.kernel.jiffies msecs small)
          (elim (Bool-cases (leb (poll_ticks msecs) d)) [
            | inl e ↦ when.0 (let le : poll_ticks msecs ≤ d = ground (arith, e) in le) ∙ sym e
            | inr e ↦ when.1 (let lt' : d < poll_ticks msecs = ground (arith, e) in lt') ∙ sym e
          ])

-- A poll without a timeout is readied by any tick that comes before half the range of the counter.
pub ipc_poll_park-forever :
    (s : Ipc) (c me n : ℕ) (later : Kernel)
    → me < max_tasks
    → later.tasks me ≡ (ipc_poll_park s me (negsuc n)).kernel.tasks me
    → later.jiffies + 1 < 2 ^ 63
    → ((sched_tick later c).tasks me).state ≡ ready
ipc_poll_park-forever s c me n later lt same now =
    let due : expired later.jiffies (2 ^ 64 - 1) ≡ true = ground (arith, now) in
    polled-state s c me later (negsuc n) lt same ∙ ap (λ b. if b then ready else sleeping) due
