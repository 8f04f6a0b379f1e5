-- ===== src/Sync/Batch.antt =====
-- `wake_batch`: what the sweep of a primitive's queue leaves alone.
use mobile_phone_os.Prelude.{
  ℕ, zero, suc, ◌+◌, ◌≡◌, refl, sym, ap, subst, ◌∙◌, Bool, Option, none, some, some_inj, arith,
  Option-cases, inl, inr, ltb, if◌then◌else◌, false,
}
use mobile_phone_os.Task.{Task, Kernel, raise_resched, max_tasks}
use mobile_phone_os.Sync.{Sync, batch_one, batch_loop, wake_batch, current}

lock_wait-batch_one :
    (k : Kernel) (t i : ℕ) → ((batch_one k t).tasks i).lock_wait ≡ (k.tasks i).lock_wait
unfolding batch_one
lock_wait-batch_one k t i = ground arith

lock_wait-batch_loop :
    (fuel : ℕ) (cur : Option ℕ) (k : Kernel) (head : Option ℕ) (n : ℕ) (p : Bool)
    (r : Kernel × ℕ × Bool) (i : ℕ)
    → batch_loop fuel cur k head n p ≡ some r
    → (r.0.tasks i).lock_wait ≡ (k.tasks i).lock_wait
unfolding batch_loop
lock_wait-batch_loop zero cur k none n p r i e =
    ap (λ (x : Kernel × ℕ × Bool). (x.0.tasks i).lock_wait) (sym (some_inj e))
lock_wait-batch_loop (suc fuel) cur k none n p r i e =
    ap (λ (x : Kernel × ℕ × Bool). (x.0.tasks i).lock_wait) (sym (some_inj e))
lock_wait-batch_loop zero cur k (some t) n p r i e = cc
lock_wait-batch_loop (suc fuel) cur k (some t) n p r i e =
    lock_wait-batch_loop fuel cur (batch_one k t) (k.tasks t).wq_next (n + 1) _ r i e
    ∙ lock_wait-batch_one k t i

-- What `wake_batch` leaves alone.
pub record Keeps (s s' : Sync) : Type 0 where
  pub mutexes : s'.mutexes ≡ s.mutexes
  pub sems : s'.sems ≡ s.sems
  pub lock_wait : (i : ℕ) → (s'.kernel.tasks i).lock_wait ≡ (s.kernel.tasks i).lock_wait

raise_resched-tasks : (c : ℕ) (k : Kernel) (p : Bool) → (raise_resched c (k, p)).tasks ≡ k.tasks
raise_resched-tasks c k p = ground arith

pub wake_batch-Keeps :
    (s s' : Sync) (c : ℕ) (head : Option ℕ) → wake_batch s c head ≡ some s' → Keeps s s'
unfolding wake_batch
wake_batch-Keeps s s' c head e =
    elim (Option-cases (batch_loop (max_tasks + 1) (current s c) s.kernel head 0 false)) [
      | inl q ↦ absurd (cc (stuck q, e))
      | inr (r, q) ↦ kept r q (some_inj (sym (done r q) ∙ e))
    ]
  where
    loop : Option (Kernel × ℕ × Bool)
    loop = batch_loop (max_tasks + 1) (current s c) s.kernel head 0 false

    stuck : loop ≡ none → wake_batch s c head ≡ none
    stuck q = rw (q, wake_batch)

    after : Kernel × ℕ × Bool → Sync
    after (k, n, p) = record s {
      kernel = raise_resched c (k, p);
      stats = if ltb s.stats.max_wakeups n then record (s.stats) { max_wakeups = n } else s.stats;
    }

    done : (r : Kernel × ℕ × Bool) → loop ≡ some r → wake_batch s c head ≡ some (after r)
    done r q = rw (q, wake_batch)

    kept : (r : Kernel × ℕ × Bool) → loop ≡ some r → after r ≡ s' → Keeps s s'
    kept r q h = subst (Keeps s) h (record {
      mutexes = refl;
      sems = refl;
      lock_wait = λ i.
          ap (λ (ts : ℕ → Task). (ts i).lock_wait) (raise_resched-tasks c r.0 r.2)
          ∙ lock_wait-batch_loop (max_tasks + 1) (current s c) s.kernel head 0 false r i q;
    })
