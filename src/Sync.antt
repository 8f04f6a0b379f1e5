-- ===== src/Sync.antt =====
-- kernel/sync.c and include/sync.h: sleeping mutexes with the deadlock detector, and semaphores.
-- Each function is the stretch that runs under `sync_lock`; a call that parks stops where its task
-- is linked and blocked.
pub mod Graph
pub mod Walk
pub mod Exact
pub mod Edges
pub mod Batch
pub mod Deadlock
pub mod Ownership
pub mod Revive
pub mod Semaphore
mod Tests
use mobile_phone_os.Prelude.{
  ℕ, zero, suc, ◌+◌, ◌-◌, ◌%◌, ◌^◌, ◌≡◌, Bool, true, false, ◌||◌, Option, none, some, List, [], ◌∷◌,
  ℤ, pos, negsuc, ltb, leb, ◌==◌, if◌then◌else◌, update, length,
}
use mobile_phone_os.Task.{
  Task, Kernel, ready, blocked, set_task, make_ready, outranks, raise_resched, max_tasks,
}
use mobile_phone_os.Task.Queue.{has}

-- `struct kmutex`; the queue is its head.
pub record Mutex : Type 0 where
  pub name : List ℕ
  pub owner : Option ℕ
  pub waiters : Option ℕ

-- `struct ksem`. The counts are `long` and never negative after `ksem_init`.
pub record Sem : Type 0 where
  pub name : List ℕ
  pub count : ℕ
  pub limit : ℕ
  pub waiters : Option ℕ

-- `struct sync_stats`
pub record Stats : Type 0 where
  pub acquires : ℕ
  pub blocks : ℕ
  pub deadlocks_detected : ℕ
  pub max_wakeups : ℕ

-- A mutex or a semaphore is named by its address; the registries hold such addresses.
pub record Sync : Type 0 where
  pub kernel : Kernel
  pub mutexes : ℕ → Mutex
  pub sems : ℕ → Sem
  pub stats : Stats
  pub mutex_reg : ℕ → Option ℕ
  pub sem_reg : ℕ → Option ℕ

-- `name ? name : fallback`; a name is its characters.
abbrev or_default : Option (List ℕ) → List ℕ → List ℕ
or_default none fallback = fallback
or_default (some name) fallback = name

-- "kmutex"
abbrev kmutex_name : List ℕ
kmutex_name = 107 ∷ 109 ∷ 117 ∷ 116 ∷ 101 ∷ 120 ∷ []

-- "ksem"
abbrev ksem_name : List ℕ
ksem_name = 107 ∷ 115 ∷ 101 ∷ 109 ∷ []

abbrev pub sync_reg_max : ℕ
sync_reg_max = 32

abbrev pub deadlk_visit_max : ℕ
deadlk_visit_max = 128

abbrev pub current : Sync → ℕ → Option ℕ
current s c = (s.kernel.cpus c).current

abbrev pub owner_of : Sync → ℕ → Option ℕ
owner_of s m = (s.mutexes m).owner

abbrev pub lock_wait_of : Sync → ℕ → Option ℕ
lock_wait_of s t = (s.kernel.tasks t).lock_wait

-- A pointer comparison, with NULL.
abbrev pub same_ptr : Option ℕ → Option ℕ → Bool
same_ptr none none = true
same_ptr none (some b) = false
same_ptr (some a) none = false
same_ptr (some a) (some b) = a == b

-- `reg_add` from slot `i` on, with `n` slots left; a full registry drops the entry.
reg_add_from : ℕ → ℕ → (ℕ → Option ℕ) → ℕ → (ℕ → Option ℕ)
reg_add_from zero i reg p = reg
reg_add_from (suc n) i reg p =
    let rest = reg_add_from n (i + 1) reg p in
    elim (reg i) [ none ↦ update reg i (some p) | some q ↦ rest ]

pub reg_add : (ℕ → Option ℕ) → ℕ → (ℕ → Option ℕ)
unfolding reg_add_from
reg_add reg p = reg_add_from sync_reg_max 0 reg p

-- One turn of `wake_batch`.
pub batch_one : Kernel → ℕ → Kernel
unfolding make_ready
batch_one k t = make_ready (set_task k t (record (k.tasks t) { wq_next = none })) t

-- The loop, with the count and the `preempt` flag; `none` means that the fuel ran out.
pub batch_loop : ℕ → Option ℕ → Kernel → Option ℕ → ℕ → Bool → Option (Kernel × ℕ × Bool)
unfolding batch_one outranks
batch_loop fuel cur k none n preempt = some (k, n, preempt)
batch_loop zero cur k (some t) n preempt = none
batch_loop (suc fuel) cur k (some t) n preempt =
    batch_loop fuel cur (batch_one k t) (k.tasks t).wq_next (n + 1) (preempt || outranks k cur t)

-- `wake_batch`: the queue is empty afterwards, and the count goes into the statistics.
pub wake_batch : Sync → ℕ → Option ℕ → Option Sync
unfolding batch_loop
wake_batch s c head = elim (batch_loop (max_tasks + 1) (current s c) s.kernel head 0 false) [
  | none ↦ none
  | some (k, n, preempt) ↦
      let st = s.stats in
      some (record s {
        kernel = raise_resched c (k, preempt);
        stats = if ltb st.max_wakeups n then record st { max_wakeups = n } else st;
      })
]

-- `park_on_queue` up to the park: the new head, and the kernel with the task linked and blocked.
pub park_on_queue : Kernel → ℕ → Option ℕ → Option ℕ × Kernel
park_on_queue k t head =
    (some t, set_task k t (record (k.tasks t) { wq_next = head; state = blocked }))

-- `would_deadlock` from the mutex `m` on, for the task `me`; `none` means that the fuel ran out.
unfoldable pub walk : ℕ → (owner lock_wait : ℕ → Option ℕ) → Option ℕ → ℕ → List ℕ → Option Bool
walk zero owner lock_wait me m seen = none
walk (suc fuel) owner lock_wait me m seen = elim (owner m) [
  | none ↦ some false
  | some o ↦ if same_ptr (some o) me then some true else elim (lock_wait o) [
    | none ↦ some false
    | some m' ↦
        let rest = walk fuel owner lock_wait me m' (m' ∷ seen) in
        if leb deadlk_visit_max (length seen)
        then some true
        else if has m' seen
        then some true
        else rest
  ]
]

unfoldable pub would_deadlock : Sync → Option ℕ → ℕ → Option Bool
would_deadlock s me m = walk (deadlk_visit_max + 2) (owner_of s) (lock_wait_of s) me m []

abbrev set_mutex : Sync → ℕ → Mutex → Sync
set_mutex s m x = record s { mutexes = update s.mutexes m x }

abbrev set_lock_wait : Sync → ℕ → Option ℕ → Sync
set_lock_wait s t w = record s {
  kernel = set_task s.kernel t (record (s.kernel.tasks t) { lock_wait = w });
}

pub kmutex_init : Sync → ℕ → (name : Option (List ℕ)) → Sync
unfolding reg_add
kmutex_init s m name =
    record (set_mutex s m
      (record { name = or_default name kmutex_name; owner = none; waiters = none })) {
        mutex_reg = reg_add s.mutex_reg m;
      }

-- `kmutex_try`: whether the mutex was free. The count is a `uint64_t`.
pub kmutex_try : Sync → ℕ → ℕ → Bool × Sync
kmutex_try s c m = elim (owner_of s m) [
  | some o ↦ (false, s)
  | none ↦ (
    true,
    record (set_mutex s m (record (s.mutexes m) { owner = current s c })) {
      stats = record (s.stats) { acquires = (s.stats.acquires + 1) % 2 ^ 64 };
    },
  )
]

pub data Attempt : Type 0 where
  acquired deadlock parks : Attempt

-- One turn of the loop of `kmutex_lock`, by the task `me`.
pub lock_turn : Sync → (me m : ℕ) → Option (Attempt × Sync)
unfolding would_deadlock park_on_queue
lock_turn s me m = elim (owner_of s m) [
  | none ↦ some (
    acquired,
    record (set_lock_wait (set_mutex s m (record (s.mutexes m) { owner = some me })) me none) {
      stats = record (s.stats) { acquires = (s.stats.acquires + 1) % 2 ^ 64 };
    },
  )
  | some o ↦ elim (would_deadlock s (some me) m) [
    | none ↦ none
    | some true ↦ some (
      deadlock,
      record (set_lock_wait s me none) {
        stats = record (s.stats) { deadlocks_detected = (s.stats.deadlocks_detected + 1) % 2 ^ 64 };
      },
    )
    | some false ↦
        let s' = set_lock_wait s me (some m) in
        let (head, k) = park_on_queue s'.kernel me (s.mutexes m).waiters in
        some (
          parks,
          record (set_mutex s' m (record (s.mutexes m) { waiters = head })) {
            kernel = k;
            stats = record (s.stats) { blocks = (s.stats.blocks + 1) % 2 ^ 64 };
          },
        )
  ]
]

-- `kmutex_unlock`: a caller that is not the owner changes nothing.
pub kmutex_unlock : Sync → ℕ → ℕ → Option Sync
kmutex_unlock s c m =
    if same_ptr (owner_of s m) (current s c)
    then wake_batch (set_mutex s m (record (s.mutexes m) { owner = none; waiters = none })) c
        (s.mutexes m).waiters
    else some s

pub kmutex_first_waiter : Sync → ℕ → Option ℕ
kmutex_first_waiter s m = (s.mutexes m).waiters

pub kmutex_owned_by_current : Sync → ℕ → ℕ → Bool
kmutex_owned_by_current s c m = elim (current s c) [
  | none ↦ false
  | some t ↦ same_ptr (owner_of s m) (some t)
]

-- `max < 1 ? 1 : max`
abbrev at_least_one : ℤ → ℕ
at_least_one (pos n) = if n == 0 then 1 else n
at_least_one (negsuc n) = 1

-- `initial < 0 ? 0 : (initial > max ? max : initial)`
abbrev clamp_count : ℤ → ℕ → ℕ
clamp_count (pos n) limit = if ltb limit n then limit else n
clamp_count (negsuc n) limit = 0

pub ksem_init : Sync → ℕ → (name : Option (List ℕ)) → (initial limit : ℤ) → Sync
unfolding reg_add
ksem_init s x name initial limit =
    let top = at_least_one limit in
    record s {
      sems = update s.sems x (record {
        name = or_default name ksem_name;
        count = clamp_count initial top;
        limit = top;
        waiters = none;
      });
      sem_reg = reg_add s.sem_reg x;
    }

-- One turn of the loop of `ksem_wait`, by the task `me`: whether it got through, or parks.
pub ksem_turn : Sync → (me x : ℕ) → Bool × Sync
unfolding park_on_queue
ksem_turn s me x =
    if ltb 0 (s.sems x).count
    then (
      true,
      record s {
        sems = update s.sems x (record (s.sems x) { count = (s.sems x).count - 1 });
        stats = record (s.stats) { acquires = (s.stats.acquires + 1) % 2 ^ 64 };
      },
    )
    else (let (head, k) = park_on_queue s.kernel me (s.sems x).waiters in
        (
          false,
          record s {
            kernel = k;
            sems = update s.sems x (record (s.sems x) { waiters = head });
            stats = record (s.stats) { blocks = (s.stats.blocks + 1) % 2 ^ 64 };
          },
        ))

pub ksem_trywait : Sync → ℕ → Bool × Sync
ksem_trywait s x = if (s.sems x).count == 0 then (false, s) else (
  true,
  record s {
    sems = update s.sems x (record (s.sems x) { count = (s.sems x).count - 1 });
    stats = record (s.stats) { acquires = (s.stats.acquires + 1) % 2 ^ 64 };
  },
)

pub ksem_post : Sync → ℕ → ℕ → Option Sync
ksem_post s c x =
    let q = s.sems x in
    wake_batch
      (record s {
        sems = update s.sems x (record q {
          count = if ltb q.count q.limit then q.count + 1 else q.count;
          waiters = none;
        });
      })
      c q.waiters
