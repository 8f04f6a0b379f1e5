-- ===== src/Ipc/Tests.antt =====
-- A message queue with one message, a receiver that waits and a poller.
use mobile_phone_os.Prelude.{
  ℕ, ◌+◌, ◌-◌, ◌≡◌, ◌≢◌, refl, true, false, not, ◌&&◌, none, some, List, [], ◌∷◌, arith, add32,
  first_below, ◌==◌, if◌then◌else◌, pos, negsuc, ℤ, inr,
}
use mobile_phone_os.Task.{Kernel, blocked, sleeping, ready, running}
use mobile_phone_os.Task.Samples.{sample_task, sample_kernel, slot_of}
use mobile_phone_os.Sched.{sched_tick}
use mobile_phone_os.Ipc.{
  Ipc, Mqueue, done, mq_send_turn, mq_receive_turn, mq_open, mq_close_id, new_queue, ipc_poll_park,
  set_queue,
}
use mobile_phone_os.Ipc.Messages.{IsValid}
use mobile_phone_os.Ipc.Transfer.{
  Parked, SentTo, Received, mq_send_turn-SentTo, mq_receive_turn-Received,
}
use mobile_phone_os.Ipc.Names.{mq_open-again}
use mobile_phone_os.Ipc.Lifetime.{mq_close_id-lifetime}
use mobile_phone_os.Ipc.Poll.{ipc_poll_park-forever}

-- Task 0 runs, 1 waits to receive, 2 polls.
abbrev kernel : Kernel
kernel = record sample_kernel {
  tasks =
      slot_of (
        sample_task running 5 none ∷ sample_task blocked 6 none ∷ sample_task sleeping 7 none ∷ []);
}

-- Queue 3 holds the message 104, 105.
abbrev one_message : Mqueue
one_message = record (new_queue (109 ∷ [])) {
  head = 11;
  count = 1;
  msgs = λ i j. if j == 0 then 104 else 105;
  mlen = λ i. 2;
  rq = some 1;
}

abbrev start : Ipc
start = record {
  kernel = kernel;
  poll_wq = some 2;
  wakes = 0;
  bytes_flowed = 0;
  mq_pool = λ i. if i == 3 then one_message else record one_message { in_use = false };
}

abbrev bytes : List ℕ
bytes = 7 ∷ 8 ∷ 9 ∷ []

valid : IsValid one_message
valid = record { head = omega arith; count = omega arith }

senders : Parked start (some 1) (1 ∷ []) (2 ∷ [])
senders = record {
  chain = (refl, refl);
  polling = (refl, refl);
  distinct = ((refl, tt), (refl, tt));
  disjoint = λ i m. ground (arith, m);
  few = (omega arith, omega arith);
}

receivers : Parked start none [] (2 ∷ [])
receivers = record {
  chain = refl;
  polling = (refl, refl);
  distinct = (tt, (refl, tt));
  disjoint = λ i m. refl;
  few = (omega arith, omega arith);
}

mq_send_turn-SentTo_example :
    (s' : Ipc) × (mq_send_turn start 3 0 bytes ≡ some (done 3, s'))
    × SentTo start s' 3 bytes (1 ∷ []) (2 ∷ [])
mq_send_turn-SentTo_example =
    mq_send_turn-SentTo start 3 0 bytes (1 ∷ []) (2 ∷ []) valid (omega arith) (omega arith) senders

mq_receive_turn-Received_example :
    (out : List ℕ) × (mlen : ℕ) × (s' : Ipc) × (mq_receive_turn start 3 0 1
      ≡ some (done (out, mlen), s'))
    × Received start s' 3 1 out mlen [] (2 ∷ [])
mq_receive_turn-Received_example =
    mq_receive_turn-Received start 3 0 1 [] (2 ∷ []) valid (omega arith) receivers

-- A name of one character, new in the first free slot.
abbrev opened : Ipc
opened = set_queue start 0 (new_queue (120 ∷ []))

mq_open-again_example :
    ((mq_open opened (some (120 ∷ []))).0 ≡ inr (0, false))
    × (((mq_open opened (some (120 ∷ []))).1.mq_pool 0).handles
        ≡ add32 (opened.mq_pool 0).handles 1)
unfolding mq_open first_below
mq_open-again_example = mq_open-again start opened 120 [] 0 true (omega arith) refl

mq_close_id-lifetime_example :
    (s' : Ipc) × (mq_close_id opened (pos 0) ≡ some (none, s'))
    × ((s'.mq_pool 0).in_use
        ≡ not (((opened.mq_pool 0).handles == 1) && ((opened.mq_pool 0).inflight == 0)))
    × ((s'.mq_pool 0).handles ≡ (opened.mq_pool 0).handles - 1)
    × ((j : ℕ) → j ≢ 0 → s'.mq_pool j ≡ opened.mq_pool j)
    × (s'.kernel ≡ opened.kernel)
mq_close_id-lifetime_example =
    mq_close_id-lifetime opened 0 (omega arith) refl (omega arith) (λ e. (refl, refl))

-- The kernel `d` ticks after task 0 has begun to poll.
abbrev later : ℤ → ℕ → Kernel
later t d = record ((ipc_poll_park start 0 t).kernel) { jiffies = 100 + d }

ipc_poll_park-forever_example : ((sched_tick (later (negsuc 0) 1) 0).tasks 0).state ≡ ready
ipc_poll_park-forever_example =
    ipc_poll_park-forever start 0 0 0 (later (negsuc 0) 1) (omega arith) refl (omega arith)
