-- ===== src/Ipc/Wake.antt =====
-- `ipc_wake`: the sweep of a queue of parked tasks.
use mobile_phone_os.Prelude.{
  ℕ, zero, suc, ◌+◌, ◌≤◌, ◌≡◌, refl, ap, Option, some, List, [], ◌∷◌, arith, length,
}
use mobile_phone_os.Task.{Task, Kernel, wake_one, max_tasks}
use mobile_phone_os.Task.Queue.{Chain, Distinct, Chain-frame}
use mobile_phone_os.Task.Wake.{sweep, wake_one-other}
use mobile_phone_os.Ipc.{ipc_wake_loop, ipc_wake}

ipc_wake_loop-sweep :
    (fuel : ℕ) (k : Kernel) (head : Option ℕ) (xs : List ℕ)
    → Chain k.tasks head xs
    → Distinct xs
    → length xs ≤ fuel
    → ipc_wake_loop fuel k head ≡ some (sweep k xs)
unfolding ipc_wake_loop sweep
ipc_wake_loop-sweep zero k head [] h d le = rw h refl
ipc_wake_loop-sweep (suc fuel) k head [] h d le = rw h refl
ipc_wake_loop-sweep zero k head (x ∷ xs) h d le = absurd (omega arith)
ipc_wake_loop-sweep (suc fuel) k head (x ∷ xs) h d le =
    rw h.0 (ipc_wake_loop-sweep fuel (wake_one k x) (k.tasks x).wq_next xs chain d.1 (omega arith))
  where
    chain : Chain (wake_one k x).tasks (k.tasks x).wq_next xs
    chain =
        Chain-frame k.tasks (wake_one k x).tasks (k.tasks x).wq_next xs
          (λ i m. ap (λ (t : Task). t.wq_next) (wake_one-other k x i (ground arith))) h.1

pub ipc_wake-sweep :
    (k : Kernel) (head : Option ℕ) (xs : List ℕ)
    → Chain k.tasks head xs
    → Distinct xs
    → length xs ≤ max_tasks
    → ipc_wake k head ≡ some (sweep k xs)
unfolding ipc_wake
ipc_wake-sweep k head xs h d le = ipc_wake_loop-sweep (max_tasks + 1) k head xs h d (omega arith)
