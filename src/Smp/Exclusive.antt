-- ===== src/Smp/Exclusive.antt =====
-- No task executes on two cpus, and no task that executes waits in a queue.
use mobile_phone_os.Prelude.{
  some_inj, ℕ, ◌≡◌, ◌≢◌, ◌⊎◌, inl, inr, refl, true, false, Option, none, some, [], ◌==◌,
  if◌then◌else◌, arith, Bool-cases, eq-cases, ◌∙◌, sym, subst,
}
use mobile_phone_os.Task.{Kernel, ready, running, max_tasks}
use mobile_phone_os.Task.Queue.{has, Chain-frame}
use mobile_phone_os.Sched.{pick_next, dispatch}
use mobile_phone_os.Sched.Pick.{IsBest, Picked, pick_next-best}
use mobile_phone_os.Smp.{System, first, is_some, loaded, parked, Step, Reach}
use mobile_phone_os.Task.Wake.{Woke, wait_wake_all-Woke}
use mobile_phone_os.Smp.Invariant.{Executes, Inv, state_of}
use mobile_phone_os.Smp.Parking.{
  Parks, exit-Parks, yield-Parks, msleep-Parks, post_irq-Parks, landed-Parks, parks-Inv,
}
use mobile_phone_os.Smp.Waiting.{wait-Enqueues, landed-Enqueues, waits-Inv, wakes-Inv}
use mobile_phone_os.Smp.Shifting.{shifts-Inv, timer-Shifts, create-Shifts, kill-Shifts}
use mobile_phone_os.Smp.{
  loads, exits, yields, sleeps, preempted, waits, wakes, ticks, creates, kills, here, next,
}

-- What a dispatch does, by what `pick_next` finds.
record Dispatched (k k' : Kernel) (c : ℕ) (o : Option ℕ) : Type 0 where
  currents : (d : ℕ) → (k'.cpus d).current ≡ (if d == c then o else (k.cpus d).current)
  links : (i : ℕ) → (k'.tasks i).wq_next ≡ (k.tasks i).wq_next
  states : (i : ℕ) → (o ≢ some i) → (k'.tasks i).state ≡ (k.tasks i).state
  runs : (t : ℕ) → o ≡ some t → (k'.tasks t).state ≡ running

dispatch-Dispatched : (k : Kernel) (c : ℕ) → Dispatched k (dispatch k c) c (pick_next k)
unfolding dispatch
dispatch-Dispatched k c = record {
  currents = λ d. ground arith;
  links = λ i. ground arith;
  states = λ i ne. ground arith;
  runs = λ t e. ground arith;
}

is_ready : (k : Kernel) (t : ℕ) → pick_next k ≡ some t → (k.tasks t).state ≡ ready
is_ready k t e = IsBest.is_ready (subst (Picked k.tasks max_tasks) e (pick_next-best k))

some_of_is_some : (o : Option ℕ) → is_some o ≡ true → (t : ℕ) × (o ≡ some t)
some_of_is_some none e = cc
some_of_is_some (some t) e = (t, refl)

module _ {s : System} (c : ℕ) (v : Inv s) (off : s.executing c ≡ false) where
  effect : Dispatched s.kernel (loaded s c).kernel c (pick_next s.kernel)
  unfolding loaded
  effect = dispatch-Dispatched s.kernel c

  -- A ready task neither executes nor waits.
  not_live : (t : ℕ) → pick_next s.kernel ≡ some t → (d : ℕ) → ¬ Executes s d t
  not_live t e d x = ground (arith, is_ready s.kernel t e, v.live d t x)

  not_member : (q t : ℕ) → has t (s.queues q) ≡ true → pick_next s.kernel ≢ some t
  not_member q t m e = ground (arith, is_ready s.kernel t e, v.waiting q t m)

  who :
      (d i : ℕ)
      → Executes (loaded s c) d i
      → ((d ≡ c) × (pick_next s.kernel ≡ some i)) ⊎ ((d ≢ c) × Executes s d i)
  unfolding loaded
  who d i x = elim (eq-cases d c) [
    | inl e ↦ inl (e, ground (arith, effect.currents d, x.current))
    | inr ne ↦ inr (
      ne,
      record {
        loaded = ground (arith, x.loaded);
        current = ground (arith, effect.currents d, x.current);
      },
    )
  ]

  loads-Inv : Inv (loaded s c)
  unfolding loaded
  loads-Inv = record {
    has_task = λ d x. elim (eq-cases d c) [
      | inl e ↦
          let (t, picked) = some_of_is_some (pick_next s.kernel) (ground arith) in
          (t, record { loaded = x; current = ground (arith, effect.currents d, picked) })
      | inr ne ↦
          let (t, y) = v.has_task d (ground arith) in
          (t, record { loaded = x; current = ground (arith, effect.currents d, y.current) })
    ];
    live = λ d i x. elim (who d i x) [
      | inl new ↦ inl (effect.runs i new.1)
      | inr old ↦ rw (effect.states i (λ e. not_live i e d old.1)) (v.live d i old.1)
    ];
    exclusive = λ d d' i x y. elim (who d i x) [
      | inl new ↦ elim (who d' i y) [
        | inl new' ↦ new.0 ∙ sym new'.0
        | inr old' ↦ absurd (not_live i new.1 d' old'.1)
      ]
      | inr old ↦ elim (who d' i y) [
        | inl new' ↦ absurd (not_live i new'.1 d old.1)
        | inr old' ↦ v.exclusive d d' i old.1 old'.1
      ]
    ];
    not_waiting = λ d i q x. elim (who d i x) [
      | inl new ↦ elim (Bool-cases (has i (s.queues q))) [
        | inl m ↦ absurd (not_member q i m new.1)
        | inr m ↦ m
      ]
      | inr old ↦ v.not_waiting d i q old.1
    ];
    waiting = λ q i m. rw (effect.states i (not_member q i m)) (v.waiting q i m);
    one_queue = v.one_queue;
    distinct = v.distinct;
    chain = λ q.
        Chain-frame s.kernel.tasks (loaded s c).kernel.tasks (first (s.queues q)) (s.queues q)
          (λ i m. effect.links i) (v.chain q);
  }

parked-Inv :
    {s : System} {c t : ℕ} {k : Kernel}
    → Inv s
    → s.executing c ≡ true
    → Parks s.kernel k c t
    → Inv (parked s c k)
unfolding parked
parked-Inv v on p = parks-Inv v on (landed-Parks p.current p)

-- Every step keeps the invariant.
Step-Inv : {s s' : System} → Step s s' → Inv s → Inv s'
Step-Inv (loads c off) v = loads-Inv c v off
Step-Inv (exits c k on e) v =
    let (t, x) = v.has_task c on in parked-Inv v on (exit-Parks x.current e)
Step-Inv (yields c k on e) v =
    let (t, x) = v.has_task c on in parked-Inv v on (yield-Parks x.current e)
Step-Inv (sleeps c msecs k on e) v =
    let (t, x) = v.has_task c on in parked-Inv v on (msleep-Parks x.current msecs e)
Step-Inv (preempted c k on e) v =
    let (t, x) = v.has_task c on in parked-Inv v on (post_irq-Parks x.current e)
Step-Inv (waits c q t k on e) v =
    unfold parked in waits-Inv q v on (landed-Enqueues (wait-Enqueues e))
Step-Inv {s} (wakes c q k le e) v =
    let (k', e', w) =
      wait_wake_all-Woke s.kernel c (first (s.queues q)) (s.queues q) (v.chain q) (v.distinct q)
        le in
    wakes-Inv q v (subst (λ x. Woke s.kernel x c (s.queues q)) (some_inj (sym e' ∙ e)) w)
Step-Inv {s} (ticks c) v = shifts-Inv v (timer-Shifts s.kernel c)
Step-Inv {s} (creates img name fn arg prio t k e) v =
    shifts-Inv v (create-Shifts img s.kernel k name fn arg prio t e)
Step-Inv {s} (kills t used) v = shifts-Inv v (kill-Shifts s.kernel t)

Reach-Inv : {s s' : System} → Inv s → Reach s s' → Inv s'
Reach-Inv v here = v
Reach-Inv v (next r st) = Step-Inv st (Reach-Inv v r)

-- Before the first dispatch no cpu executes a task, and the queues are empty.
pub idle-Inv :
    (s : System) → ((c : ℕ) → s.executing c ≡ false) → ((q : ℕ) → s.queues q ≡ []) → Inv s
idle-Inv s off empty = record {
  has_task = λ c x. cc (off c);
  live = λ c t x. absurd (cc (off c, x.loaded));
  exclusive = λ c d t x y. absurd (cc (off c, x.loaded));
  not_waiting = λ c t q x. absurd (cc (off c, x.loaded));
  waiting = λ q t m. absurd (cc (rw (empty q) at m));
  one_queue = λ q r t m n. absurd (cc (rw (empty q) at m));
  distinct = λ q. rw (empty q) tt;
  chain = λ q. rw (empty q) refl;
}

-- From a state in which no cpu executes a task and every wait queue is empty, no sequence of dispatches,
-- exits, yields, sleeps, waits, wake-ups, preemptions, ticks, creations and kills, on any number of
-- cpus, lets two cpus execute one task, or a task execute while it is linked in a wait queue; and
-- a task that executes is never ready, so no other cpu can be given it.
pub Reach-exclusive :
    {s s' : System}
    → ((c : ℕ) → s.executing c ≡ false)
    → ((q : ℕ) → s.queues q ≡ [])
    → Reach s s'
    → ((c d t : ℕ) → Executes s' c t → Executes s' d t → c ≡ d)
      × ((c t q : ℕ) → Executes s' c t → has t (s'.queues q) ≡ false)
      × ((c t : ℕ) → Executes s' c t → state_of s' t ≢ ready)
Reach-exclusive {s} off empty r =
    let w = Reach-Inv (idle-Inv s off empty) r in
    (w.exclusive, w.not_waiting, λ c t x. ground (arith, w.live c t x))
