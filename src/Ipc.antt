-- ===== src/Ipc.antt =====
-- kernel/ipc.c: parking and waking, and the message queues. Each function is the stretch under
-- `ipc_lock`; a call that parks stops where its task is linked and blocked.
pub mod Wake
pub mod Messages
pub mod Transfer
pub mod Names
pub mod Lifetime
pub mod Poll
pub mod Pipe
mod Tests
use mobile_phone_os.Prelude.{
  ℕ, zero, suc, ◌+◌, ◌-◌, ◌*◌, ◌/◌, ◌%◌, ◌^◌, Bool, true, false, ◌&&◌, not, Option, none, some,
  List, [], ◌∷◌, ltb, leb, ◌==◌, if◌then◌else◌, update, length, take, add32, ℤ, pos, negsuc, min,
  ◌⊎◌, inl, inr, first_below,
}
use mobile_phone_os.Task.{Task, Kernel, blocked, sleeping, time_hz, set_task, wake_one, max_tasks}
use mobile_phone_os.Ring.{read_seg, write_seg}

-- `struct mqueue`; a name is its characters before the NUL.
pub record Mqueue : Type 0 where
  pub in_use : Bool
  pub name : List ℕ
  pub head : ℕ
  pub count : ℕ
  pub msgs : ℕ → ℕ → ℕ
  pub mlen : ℕ → ℕ
  pub handles : ℕ
  pub inflight : ℕ
  pub sq : Option ℕ
  pub rq : Option ℕ

pub record Ipc : Type 0 where
  pub kernel : Kernel
  pub poll_wq : Option ℕ
  pub wakes : ℕ
  pub bytes_flowed : ℕ
  pub mq_pool : ℕ → Mqueue

abbrev pub mq_name_max : ℕ
mq_name_max = 24

abbrev pub mq_msg_max : ℕ
mq_msg_max = 192

abbrev pub mq_depth : ℕ
mq_depth = 12

abbrev pub mq_queues_max : ℕ
mq_queues_max = 8

-- The codes that the calls return, negated.
pub data Errno : Type 0 where
  einval enoent enfile ebadf emsgsize epipe : Errno

-- `ipc_park` up to the park: the new head of the queue, and the kernel.
abbrev pub ipc_park : Kernel → ℕ → Option ℕ → Option ℕ × Kernel
ipc_park k t head = (some t, set_task k t (record (k.tasks t) { wq_next = head; state = blocked }))

-- The loop of `ipc_wake` and `ipc_wake_pollers`; `none` means that the fuel ran out.
unfoldable pub ipc_wake_loop : ℕ → Kernel → Option ℕ → Option Kernel
unfolding wake_one
ipc_wake_loop fuel k none = some k
ipc_wake_loop zero k (some t) = none
ipc_wake_loop (suc fuel) k (some t) = ipc_wake_loop fuel (wake_one k t) (k.tasks t).wq_next

-- `ipc_wake`; the queue is empty afterwards.
unfoldable pub ipc_wake : Kernel → Option ℕ → Option Kernel
ipc_wake k head = ipc_wake_loop (max_tasks + 1) k head

unfoldable pub ipc_wake_pollers : Ipc → Option Ipc
ipc_wake_pollers s = elim (ipc_wake s.kernel s.poll_wq) [
  | none ↦ none
  | some k ↦ some (record s { kernel = k; poll_wq = none; wakes = (s.wakes + 1) % 2 ^ 64 })
]

abbrev pub set_queue : Ipc → ℕ → Mqueue → Ipc
set_queue s i q = record s { mq_pool = update s.mq_pool i q }

abbrev pub set_kernel : Ipc → Kernel → Ipc
set_kernel s k = record s { kernel = k }

-- `id < 0 || id >= MQ_QUEUES_MAX || !mq_pool[id].used`
unfoldable pub open_queue : Ipc → ℤ → Option ℕ
open_queue s (negsuc n) = none
open_queue s (pos n) = if ltb n mq_queues_max && (s.mq_pool n).in_use then some n else none

-- A message is stored behind the others.
abbrev pub enqueue : Mqueue → List ℕ → Mqueue
enqueue q buf =
    let tail = add32 q.head q.count % mq_depth in
    record q {
      msgs = update q.msgs tail (write_seg (q.msgs tail) 0 buf);
      mlen = update q.mlen tail (length buf % 2 ^ 16);
      count = add32 q.count 1;
    }

-- The first message leaves the queue.
abbrev pub dequeue : Mqueue → Mqueue
dequeue q = record q { head = add32 q.head 1 % mq_depth; count = q.count - 1 }

-- What a turn of the loop of a send or a receive comes to.
pub data Turn {ℓ} (A : Type ℓ) : Type ℓ where
  done : A → Turn A
  parks : Turn A

-- The buffer and the length that a sender passes; a buffer that is not NULL has that many bytes.
pub data Source : Type 0 where
  null : (len : ℕ) → Source
  given : List ℕ → Source

-- One turn of the loop of `mq_send_id`, by the task `me`.
unfoldable pub mq_send_turn : Ipc → (id me : ℕ) → List ℕ → Option (Turn ℕ × Ipc)
mq_send_turn s id me buf =
    let q = s.mq_pool id in
    if ltb q.count mq_depth
    then elim (ipc_wake s.kernel q.rq) [
      | none ↦ none
      | some k ↦
          let sent = record (enqueue q buf) { inflight = q.inflight - 1; rq = none } in
          elim (ipc_wake_pollers (set_kernel (set_queue s id sent) k)) [
            | none ↦ none
            | some s' ↦ some (done (length buf), s')
          ]
    ]
    else (let (head, k) = ipc_park s.kernel me q.sq in
        some (parks, set_kernel (set_queue s id (record q { sq = head })) k))

-- `mq_send_id` from its second check on; the length is checked before the queue.
unfoldable pub mq_send_bytes : Ipc → ℤ → (me : ℕ) → List ℕ → Option ((Errno ⊎ Turn ℕ) × Ipc)
mq_send_bytes s id me buf =
    if ltb mq_msg_max (length buf) then some (inl emsgsize, s) else elim (open_queue s id) [
      | none ↦ some (inl enoent, s)
      | some i ↦
          let q = s.mq_pool i in
          elim (mq_send_turn (set_queue s i (record q { inflight = add32 q.inflight 1 })) i me
            buf) [ none ↦ none | some (t, s') ↦ some (inr t, s') ]
    ]

-- `mq_send_id` up to the first park.
unfoldable pub mq_send_id : Ipc → ℤ → (me : ℕ) → Source → Option ((Errno ⊎ Turn ℕ) × Ipc)
mq_send_id s id me (given buf) = mq_send_bytes s id me buf
mq_send_id s id me (null len) = if len == 0 then mq_send_bytes s id me [] else some (inl einval, s)

-- One turn of the loop of `mq_receive_id`: the bytes copied out, and the length that it returns.
unfoldable pub mq_receive_turn : Ipc → (id me buflen : ℕ) → Option (Turn (List ℕ × ℕ) × Ipc)
mq_receive_turn s id me buflen =
    let q = s.mq_pool id in
    if q.count == 0
    then (let (head, k) = ipc_park s.kernel me q.rq in
        some (parks, set_kernel (set_queue s id (record q { rq = head })) k))
    else elim (ipc_wake s.kernel q.sq) [
      | none ↦ none
      | some k ↦
          let mlen = q.mlen q.head in
          let bytes = read_seg (q.msgs q.head) 0 (if ltb mlen buflen then mlen else buflen) in
          let left = record (dequeue q) { inflight = q.inflight - 1; sq = none } in
          elim (ipc_wake_pollers (set_kernel (set_queue s id left) k)) [
            | none ↦ none
            | some s' ↦ some (done (bytes, mlen), s')
          ]
    ]

-- `mq_receive_id` up to the first park, and whether its buffer is not NULL.
unfoldable pub mq_receive_id :
    Ipc
    → ℤ
    → (me : ℕ) → (has_buf : Bool) → (buflen : ℕ) → Option ((Errno ⊎ Turn (List ℕ × ℕ)) × Ipc)
mq_receive_id s id me has_buf buflen =
    if not has_buf then some (inl einval, s) else elim (open_queue s id) [
      | none ↦ some (inl enoent, s)
      | some i ↦
          let q = s.mq_pool i in
          elim (mq_receive_turn (set_queue s i (record q { inflight = add32 q.inflight 1 })) i me
            buflen) [ none ↦ none | some (t, s') ↦ some (inr t, s') ]
    ]

-- `!strncmp(a, b, MQ_NAME_MAX)`, for names without a NUL inside.
pub same_name : ℕ → List ℕ → List ℕ → Bool
same_name zero a b = true
same_name (suc n) [] [] = true
same_name (suc n) [] (y ∷ ys) = false
same_name (suc n) (x ∷ xs) [] = false
same_name (suc n) (x ∷ xs) (y ∷ ys) = (x == y) && same_name n xs ys

abbrev pub named : (ℕ → Mqueue) → List ℕ → ℕ → Bool
named pool name i = (pool i).in_use && same_name mq_name_max (pool i).name name

abbrev pub is_free : (ℕ → Mqueue) → ℕ → Bool
is_free pool i = not (pool i).in_use

-- A queue that `memset` has cleared and `mq_open` has named; `kstrlcpy` keeps one byte for the NUL.
abbrev pub new_queue : List ℕ → Mqueue
new_queue name = record {
  in_use = true;
  name = take (mq_name_max - 1) name;
  head = 0;
  count = 0;
  msgs = λ i j. 0;
  mlen = λ i. 0;
  handles = 1;
  inflight = 0;
  sq = none;
  rq = none;
}

-- `mq_open`: the queue, and whether it is new. The loop looks for the first queue of that name and
-- for the first free one; the latter counts only if there is none of the name.
unfoldable pub mq_open : Ipc → Option (List ℕ) → (Errno ⊎ (ℕ × Bool)) × Ipc
unfolding same_name
mq_open s none = (inl einval, s)
mq_open s (some []) = (inl einval, s)
mq_open s (some (c ∷ cs)) = elim (first_below (named s.mq_pool (c ∷ cs)) mq_queues_max) [
  | some i ↦
      let q = s.mq_pool i in
      (inr (i, false), set_queue s i (record q { handles = add32 q.handles 1 }))
  | none ↦ elim (first_below (is_free s.mq_pool) mq_queues_max) [
    | none ↦ (inl enfile, s)
    | some i ↦ (inr (i, true), set_queue s i (new_queue (c ∷ cs)))
  ]
]

-- `mq_try_free`, with `mq_wake_pair`.
unfoldable pub mq_try_free : Ipc → ℕ → Option Ipc
mq_try_free s i =
    let q = s.mq_pool i in
    if q.in_use && (q.handles == 0) && (q.inflight == 0)
    then elim (ipc_wake s.kernel q.sq) [
      | none ↦ none
      | some k ↦ elim (ipc_wake k q.rq) [
        | none ↦ none
        | some k' ↦
            some (set_kernel (set_queue s i (record q { in_use = false; sq = none; rq = none })) k')
      ]
    ]
    else some s

-- `mq_close_id`: the error, if there is one.
unfoldable pub mq_close_id : Ipc → ℤ → Option (Option Errno × Ipc)
mq_close_id s (negsuc n) = some (some ebadf, s)
mq_close_id s (pos i) =
    if not (ltb i mq_queues_max)
    then some (some ebadf, s)
    else (let q = s.mq_pool i in
        if q.in_use && not (q.handles == 0)
        then elim (mq_try_free (set_queue s i (record q { handles = q.handles - 1 })) i) [
          | none ↦ none
          | some s' ↦ some (none, s')
        ]
        else some (some enoent, s))

-- The deadline of a poll: `UINT64_MAX` without a timeout.
abbrev pub poll_deadline : (jiffies : ℕ) → ℤ → ℕ
poll_deadline jiffies (negsuc n) = 2 ^ 64 - 1
poll_deadline jiffies (pos n) = (jiffies + n * time_hz % 2 ^ 64 / 1000 + 1) % 2 ^ 64

-- `ipc_poll_park` up to the park, by the task `me`.
unfoldable pub ipc_poll_park : Ipc → (me : ℕ) → (timeout_ms : ℤ) → Ipc
ipc_poll_park s me timeout_ms = record s {
  poll_wq = some me;
  kernel = set_task s.kernel me (record (s.kernel.tasks me) {
    wq_next = s.poll_wq;
    state = sleeping;
    wake_at = poll_deadline s.kernel.jiffies timeout_ms;
  });
}
