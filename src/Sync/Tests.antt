-- ===== src/Sync/Tests.antt =====
-- Two tasks that take two mutexes in opposite orders, and a semaphore.
use mobile_phone_os.Prelude.{
  ℕ, ◌≡◌, ◌-◌, ◌⊎◌, inr, refl, Bool, false, true, Option, none, some, List, [], ◌∷◌, pos, arith,
  ltb, length, if◌then◌else◌,
}
use mobile_phone_os.Task.Samples.{sample_kernel}
use mobile_phone_os.Sync.{
  Sync, Attempt, acquired, parks, owner_of, lock_wait_of, lock_turn, walk, would_deadlock,
  wake_batch, ksem_init, ksem_turn, ksem_trywait,
}
use mobile_phone_os.Sync.Graph.{Hits}
use mobile_phone_os.Sync.Exact.{would_deadlock-exact}
use mobile_phone_os.Sync.Deadlock.{
  Step, locks, sem_inits, sem_tries, Reach, here, next, NoCycle, Reach-NoCycle,
}
use mobile_phone_os.Sync.Ownership.{GivesUp, owner-kept}
use mobile_phone_os.Sync.Revive.{AllReadied, wake_batch-AllReadied}
use mobile_phone_os.Sync.Semaphore.{Bounded, Reach-Bounded}

abbrev start : Sync
start = record {
  kernel = sample_kernel;
  mutexes = λ m. record { name = []; owner = none; waiters = none };
  sems = λ x. record { name = []; count = 0; limit = 1; waiters = none };
  stats = record { acquires = 0; blocks = 0; deadlocks_detected = 0; max_wakeups = 0 };
  mutex_reg = λ i. none;
  sem_reg = λ i. none;
}

-- The state after a turn of `kmutex_lock`.
abbrev after : Sync → Option (Attempt × Sync) → Sync
after s none = s
after s (some (a, s')) = s'

-- Task 1 takes the mutex 10, task 2 the mutex 20.
abbrev held : Sync
unfolding lock_turn
held = after start (lock_turn (after start (lock_turn start 1 10)) 2 20)

-- Task 1 waits for the mutex 20.
abbrev waiting : Sync
waiting = after start (lock_turn held 1 20)

taken : Reach start held
unfolding lock_turn
taken = next (next here (locks 1 10 acquired _ refl)) (locks 2 20 acquired _ refl)

asks : Step held waiting
unfolding lock_turn would_deadlock walk
asks = locks 1 20 parks _ refl

run : Reach start waiting
run = next taken asks

Reach-NoCycle_example : NoCycle waiting
Reach-NoCycle_example = Reach-NoCycle (λ m. refl) run

-- Task 2 asks for the mutex 10, whose owner waits for its own.
would_deadlock-exact_example :
    ((x : ℕ) → (b : Bool) × (would_deadlock waiting (some 2) x ≡ some b))
    × ((((j : ℕ) × Hits (owner_of waiting) (lock_wait_of waiting) 2 10 j)
          × (would_deadlock waiting (some 2) 10 ≡ some true))
        ⊎ (((j : ℕ) → ¬ Hits (owner_of waiting) (lock_wait_of waiting) 2 10 j)
            × (would_deadlock waiting (some 2) 10 ≡ some false)))
unfolding lock_turn would_deadlock walk
would_deadlock-exact_example =
    would_deadlock-exact waiting 2 10 1 (1, 20, refl, refl, inr (2, refl, refl)) (omega arith)

owner-kept_example : (owner_of waiting 10 ≡ some 1) ⊎ GivesUp asks 1 10
unfolding lock_turn
owner-kept_example = owner-kept asks 1 10 refl

abbrev sleepers : List ℕ
sleepers = 3 ∷ 4 ∷ []

wake_batch-AllReadied_example :
    (s' : Sync) × (wake_batch start 0 (some 3) ≡ some s')
    × AllReadied start.kernel.tasks s'.kernel.tasks sleepers
    × (s'.stats.max_wakeups ≡ (
        if ltb start.stats.max_wakeups (length sleepers)
        then length sleepers
        else start.stats.max_wakeups))
wake_batch-AllReadied_example =
    wake_batch-AllReadied start 0 (some 3) sleepers (refl, (refl, refl)) (refl, (refl, tt))
      (omega arith)

-- A semaphore made with a count of 2, one below its limit, and one taken from it.
abbrev counted : Sync
counted = ksem_init start 5 none (pos 2) (pos 3)

abbrev tried : Sync
tried = (ksem_trywait counted 5).1

sem_run : Reach start tried
sem_run = next (next here (sem_inits 5 none (pos 2) (pos 3))) (sem_tries 5)

Reach-Bounded_example :
    Bounded tried.sems
    × ((me x : ℕ)
        → ((ksem_turn tried me x).0 ≡ ltb 0 (tried.sems x).count)
          × ((ksem_trywait tried x).0 ≡ ltb 0 (tried.sems x).count)
          × (((ksem_turn tried me x).1.sems x).count ≡ (tried.sems x).count - 1)
          × (((ksem_trywait tried x).1.sems x).count ≡ (tried.sems x).count - 1))
Reach-Bounded_example = Reach-Bounded {s = start} (λ x. omega arith) sem_run
