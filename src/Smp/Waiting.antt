-- ===== src/Smp/Waiting.antt =====
-- Enqueueing a task and waking a queue keep the invariant.
use mobile_phone_os.Prelude.{
  ℕ, ◌≡◌, ◌≢◌, ◌⊎◌, inl, inr, refl, true, false, Option, some, [], ◌∷◌, ◌==◌, update, arith,
  Bool-cases, eq-cases, ◌∙◌, sym, ap,
}
use mobile_phone_os.Task.{Task, Kernel, blocked, wait_sleep_when}
use mobile_phone_os.Task.Queue.{has, Chain, Chain-frame}
use mobile_phone_os.Sched.{landed}
use mobile_phone_os.Smp.{System, first}
use mobile_phone_os.Task.Wake.{Woke}
use mobile_phone_os.Smp.Invariant.{Executes, Inv}

-- What `wait_sleep_when` does when its predicate holds.
pub record Enqueues (k k' : Kernel) (c t : ℕ) (head : Option ℕ) : Type 0 where
  pub current : (k.cpus c).current ≡ some t
  pub currents : (d : ℕ) → (k'.cpus d).current ≡ (k.cpus d).current
  pub others : (i : ℕ) → i ≢ t → k'.tasks i ≡ k.tasks i
  pub link : (k'.tasks t).wq_next ≡ head
  pub state : (k'.tasks t).state ≡ blocked

pub wait-Enqueues :
    {k k' : Kernel} {c t : ℕ} {head : Option ℕ}
    → wait_sleep_when k c true head ≡ some (true, some t, k')
    → Enqueues k k' c t head
unfolding wait_sleep_when
wait-Enqueues e = record {
  current = ground arith;
  currents = λ d. ground arith;
  others = λ i ne. ground arith;
  link = ground arith;
  state = ground arith;
}

pub landed-Enqueues :
    {k k' : Kernel} {c t : ℕ} {head : Option ℕ}
    → Enqueues k k' c t head
    → Enqueues k (landed k' c) c t head
unfolding landed
landed-Enqueues {c} p = record {
  current = p.current;
  currents = λ d. ground (arith, p.currents d);
  others = λ i ne. ground (arith, p.others i, p.currents c, p.current);
  link = ground (arith, p.link, p.currents c);
  state = ground (arith, p.state, p.currents c);
}

module _ {s : System} {c t : ℕ} (q : ℕ) {k' : Kernel} (v : Inv s) (on : s.executing c ≡ true)
    (p : Enqueues s.kernel k' c t (first (s.queues q))) where
  open p use {current, currents, others, link, state}

  executor : Executes s c t
  executor = record { loaded = on; current = current }

  out : (r : ℕ) → has t (s.queues r) ≡ false
  out r = v.not_waiting c t r executor

  abbrev after : System
  after = record {
    kernel = k';
    executing = update s.executing c false;
    queues = update s.queues q (t ∷ s.queues q);
  }

  before : (d i : ℕ) → Executes after d i → (d ≢ c) × Executes s d i
  before d i x = (
    ground (arith, x.loaded),
    record { loaded = ground (arith, x.loaded); current = sym (currents d) ∙ x.current },
  )

  other_task : (d i : ℕ) → Executes after d i → i ≢ t
  other_task d i x e = (before d i x).0 (v.exclusive d c t (rw e at (before d i x).1) executor)

  -- A member of a queue is an old member, or the new one.
  member :
      (r i : ℕ)
      → has i (after.queues r) ≡ true
      → ((r ≡ q) × (i ≡ t)) ⊎ ((i ≢ t) × (has i (s.queues r) ≡ true))
  member r i m = elim (eq-cases i t) [
    | inl e ↦ inl (ground (arith, out r), e)
    | inr ne ↦ inr (ne, ground arith)
  ]

  framed : (r : ℕ) → Chain k'.tasks (first (s.queues r)) (s.queues r)
  framed r =
      Chain-frame s.kernel.tasks k'.tasks (first (s.queues r)) (s.queues r)
        (λ i m. ap (λ (x : Task). x.wq_next) (others i (λ e. cc (out r, rw e at m)))) (v.chain r)

  pub waits-Inv : Inv after
  waits-Inv = record {
    has_task = λ d x.
        let (i, y) = v.has_task d (ground arith) in
        (i, record { loaded = x; current = currents d ∙ y.current });
    live = λ d i x. rw (others i (other_task d i x)) (v.live d i (before d i x).1);
    exclusive = λ d d' i x y. v.exclusive d d' i (before d i x).1 (before d' i y).1;
    not_waiting = λ d i r x. ground (
      arith,
      v.not_waiting d i r (before d i x).1,
      v.not_waiting d i q (before d i x).1,
      other_task d i x,
    );
    waiting = λ r i m. elim (member r i m) [
      | inl new ↦ rw new.1 (inl state)
      | inr old ↦ rw (others i old.0) (v.waiting r i old.1)
    ];
    one_queue = λ r r' i m m'. elim (member r i m) [
      | inl new ↦ elim (member r' i m') [
        | inl new' ↦ new.0 ∙ sym new'.0
        | inr old' ↦ absurd (old'.0 new.1)
      ]
      | inr old ↦ elim (member r' i m') [
        | inl new' ↦ absurd (old.0 new'.1)
        | inr old' ↦ v.one_queue r r' i old.1 old'.1
      ]
    ];
    distinct = λ r. elim (Bool-cases (r == q)) [
      | inl e ↦ rw e (out q, v.distinct q)
      | inr e ↦ rw e (v.distinct r)
    ];
    chain = λ r. elim (Bool-cases (r == q)) [
      | inl e ↦ rw e (refl, rw link (framed q))
      | inr e ↦ rw e (framed r)
    ];
  }

-- Waking the queue `q`.
module _ {s : System} {c : ℕ} (q : ℕ) {k' : Kernel} (v : Inv s)
    (w : Woke s.kernel k' c (s.queues q)) where
  open w use {currents}

  abbrev woken_up : System
  woken_up = record s { kernel = k'; queues = update s.queues q [] }

  was_executing : (d i : ℕ) → Executes woken_up d i → Executes s d i
  was_executing d i x = record { loaded = x.loaded; current = sym (currents d) ∙ x.current }

  outside : (i : ℕ) → has i (s.queues q) ≡ false → k'.tasks i ≡ s.kernel.tasks i
  outside i h = w.swept.others i h

  still_waits :
      (r i : ℕ)
      → has i (woken_up.queues r) ≡ true
      → (has i (s.queues r) ≡ true) × (has i (s.queues q) ≡ false)
  still_waits r i m = elim (Bool-cases (has i (s.queues q))) [
    | inl e ↦ absurd (ground (arith, v.one_queue r q i))
    | inr e ↦ (ground arith, e)
  ]

  pub wakes-Inv : Inv woken_up
  wakes-Inv = record {
    has_task = λ d x.
        let (i, y) = v.has_task d x in (i, record { loaded = x; current = currents d ∙ y.current });
    live = λ d i x.
        rw (outside i (v.not_waiting d i q (was_executing d i x)))
          (v.live d i (was_executing d i x));
    exclusive = λ d d' i x y. v.exclusive d d' i (was_executing d i x) (was_executing d' i y);
    not_waiting = λ d i r x. ground (arith, v.not_waiting d i r (was_executing d i x));
    waiting = λ r i m. rw (outside i (still_waits r i m).1) (v.waiting r i (still_waits r i m).0);
    one_queue = λ r r' i m m'. v.one_queue r r' i (still_waits r i m).0 (still_waits r' i m').0;
    distinct = λ r. elim (Bool-cases (r == q)) [ inl e ↦ rw e tt | inr e ↦ rw e (v.distinct r) ];
    chain = λ r. elim (Bool-cases (r == q)) [
      | inl e ↦ rw e refl
      | inr e ↦ rw e (
          Chain-frame s.kernel.tasks k'.tasks (first (s.queues r)) (s.queues r)
            (λ i m. ap (λ (x : Task). x.wq_next) (outside i (still_waits r i (rw e m)).1))
            (v.chain r))
    ];
  }
