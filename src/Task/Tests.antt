-- ===== src/Task/Tests.antt =====
-- `wait_wake_all` on a small task table.
use mobile_phone_os.Prelude.{ℕ, ◌≡◌, refl, some, List, [], ◌∷◌, arith}
use mobile_phone_os.Task.{Kernel, wait_wake_all}
use mobile_phone_os.Task.Samples.{sample_kernel}
use mobile_phone_os.Task.Wake.{Woke, wait_wake_all-Woke}

abbrev waiters : List ℕ
waiters = 3 ∷ 4 ∷ []

wait_wake_all-Woke_example :
    (k' : Kernel) × (wait_wake_all sample_kernel 0 (some 3) ≡ some k')
    × Woke sample_kernel k' 0 waiters
wait_wake_all-Woke_example =
    wait_wake_all-Woke sample_kernel 0 (some 3) waiters (refl, (refl, refl)) (refl, (refl, tt))
      (omega arith)
