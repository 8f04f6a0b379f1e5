-- ===== src/Ipc/Lifetime.antt =====
-- `mq_close_id` and `mq_try_free`: how long a queue lives.
use mobile_phone_os.Prelude.{
  ℕ, ◌-◌, ◌<◌, ◌≡◌, ◌≢◌, refl, true, false, ◌&&◌, not, none, some, arith, ◌==◌, ltb, Bool, pos,
  Bool-cases, inl, inr,
}
use mobile_phone_os.Task.{Kernel}
use mobile_phone_os.Ipc.{
  set_queue, Ipc, Mqueue, mq_queues_max, ipc_wake, ipc_wake_loop, mq_try_free, mq_close_id,
}

ipc_wake-none : (k : Kernel) → ipc_wake k none ≡ some k
unfolding ipc_wake ipc_wake_loop
ipc_wake-none k = refl

-- Nobody has the queue open, and nobody is inside.
abbrev unneeded : Mqueue → Bool
unneeded q = q.in_use && (q.handles == 0) && (q.inflight == 0)

try_free-stays : (s : Ipc) (i : ℕ) → unneeded (s.mq_pool i) ≡ false → mq_try_free s i ≡ some s
unfolding mq_try_free
try_free-stays s i e = rw e refl

abbrev freed : Mqueue → Mqueue
freed q = record q { in_use = false; sq = none; rq = none }

try_free-frees :
    (s : Ipc) (i : ℕ)
    → unneeded (s.mq_pool i) ≡ true
    → (s.mq_pool i).sq ≡ none
    → (s.mq_pool i).rq ≡ none
    → mq_try_free s i ≡ some (set_queue s i (freed (s.mq_pool i)))
unfolding mq_try_free
try_free-frees s i e no_sq no_rq =
    rw (e, no_sq, ipc_wake-none s.kernel, no_rq, ipc_wake-none s.kernel) refl

abbrev released : Mqueue → Mqueue
released q = record q { handles = q.handles - 1 }

close-frees :
    (s s' : Ipc) (i : ℕ)
    → i < mq_queues_max
    → (s.mq_pool i).in_use ≡ true
    → 0 < (s.mq_pool i).handles
    → mq_try_free (set_queue s i (released (s.mq_pool i))) i ≡ some s'
    → mq_close_id s (pos i) ≡ some (none, s')
unfolding mq_close_id
close-frees s s' i lt in_use some_handles e =
    let valid : ltb i mq_queues_max ≡ true = ground arith in
    let held : ((s.mq_pool i).handles == 0) ≡ false = ground arith in
    rw (valid, held, e, in_use) refl

-- Closing a handle of an open queue, where nobody waits in a queue that nobody is inside, ends and
-- counts one handle less. The queue is free afterwards exactly if that was its last handle and
-- nobody is inside; no other queue and no task changes.
pub mq_close_id-lifetime :
    (s : Ipc) (i : ℕ)
    → i < mq_queues_max
    → (s.mq_pool i).in_use ≡ true
    → 0 < (s.mq_pool i).handles
    → ((s.mq_pool i).inflight ≡ 0 → ((s.mq_pool i).sq ≡ none) × ((s.mq_pool i).rq ≡ none))
    → (s' : Ipc) × (mq_close_id s (pos i) ≡ some (none, s'))
      × ((s'.mq_pool i).in_use
          ≡ not (((s.mq_pool i).handles == 1) && ((s.mq_pool i).inflight == 0)))
      × ((s'.mq_pool i).handles ≡ (s.mq_pool i).handles - 1)
      × ((j : ℕ) → j ≢ i → s'.mq_pool j ≡ s.mq_pool j)
      × (s'.kernel ≡ s.kernel)
mq_close_id-lifetime s i lt in_use some_handles idle = elim (Bool-cases last) [
  | inr e ↦ (
    s1,
    close-frees s s1 i lt in_use some_handles
        (try_free-stays s1 i (rw here (ground (arith, e, in_use, some_handles)))),
    rw (e, here) in_use,
    rw here refl,
    λ j ne. ground arith,
    refl,
  )
  | inl e ↦
      let waits = idle (ground (arith, e)) in
      (
        s2,
        close-frees s s2 i lt in_use some_handles (
            try_free-frees s1 i (rw here (ground (arith, e, in_use, some_handles)))
              (rw here waits.0) (rw here waits.1)),
        rw (e, gone) refl,
        rw gone refl,
        λ j ne. ground arith,
        refl,
      )
]
  where
    q : Mqueue
    q = s.mq_pool i

    last : Bool
    last = (q.handles == 1) && (q.inflight == 0)

    s1 : Ipc
    s1 = set_queue s i (released q)

    here : s1.mq_pool i ≡ released q
    here = ground arith

    s2 : Ipc
    s2 = set_queue s1 i (freed (s1.mq_pool i))

    gone : s2.mq_pool i ≡ freed (released q)
    gone = ground arith
