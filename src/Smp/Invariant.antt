-- ===== src/Smp/Invariant.antt =====
-- What holds of the cpus, the tasks and the wait queues between two steps.
use mobile_phone_os.Prelude.{ℕ, ◌≡◌, ◌⊎◌, true, false, some}
use mobile_phone_os.Task.{TaskState, running, dead, blocked}
use mobile_phone_os.Task.Queue.{has, Chain, Distinct}
use mobile_phone_os.Smp.{System, first}

abbrev pub state_of : System → ℕ → TaskState
state_of s t = (s.kernel.tasks t).state

-- Cpu `c` executes the task `t`.
pub record Executes (s : System) (c t : ℕ) : Type 0 where
  pub loaded : s.executing c ≡ true
  pub current : (s.kernel.cpus c).current ≡ some t

pub record Inv (s : System) : Type 0 where
  pub has_task : (c : ℕ) → s.executing c ≡ true → (t : ℕ) × Executes s c t
  pub live : (c t : ℕ) → Executes s c t → (state_of s t ≡ running) ⊎ (state_of s t ≡ dead)
  pub exclusive : (c d t : ℕ) → Executes s c t → Executes s d t → c ≡ d
  pub not_waiting : (c t q : ℕ) → Executes s c t → has t (s.queues q) ≡ false
  pub waiting :
      (q t : ℕ) → has t (s.queues q) ≡ true → (state_of s t ≡ blocked) ⊎ (state_of s t ≡ dead)
  pub one_queue : (q r t : ℕ) → has t (s.queues q) ≡ true → has t (s.queues r) ≡ true → q ≡ r
  pub distinct : (q : ℕ) → Distinct (s.queues q)
  pub chain : (q : ℕ) → Chain s.kernel.tasks (first (s.queues q)) (s.queues q)
