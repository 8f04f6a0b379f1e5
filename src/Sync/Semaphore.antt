-- ===== src/Sync/Semaphore.antt =====
-- Semaphores under any sequence of calls.
use mobile_phone_os.Prelude.{
  ℕ, ◌+◌, ◌-◌, ◌≤◌, ◌≡◌, inl, inr, sym, ap, subst, ◌∙◌, some, Option, List, arith, ℤ, ltb, ◌==◌,
  if◌then◌else◌,
}
use mobile_phone_os.Sync.{
  Sync, Sem, Attempt, lock_turn, kmutex_try, kmutex_unlock, ksem_init, ksem_turn, ksem_trywait,
  ksem_post,
}
use mobile_phone_os.Sync.Batch.{wake_batch-Keeps}
use mobile_phone_os.Sync.Deadlock.{
  Step, locks, tries, unlocks, inits, sem_inits, sem_waits, sem_tries, sem_posts, unlock-cases,
  init-Released, Reach, here, next,
}

-- Every count is within its limit.
abbrev pub Bounded : (ℕ → Sem) → Type 0
Bounded sems = (x : ℕ) → (sems x).count ≤ (sems x).limit

sems-lock_turn :
    (s : Sync) (me m : ℕ) (a : Attempt) (s' : Sync)
    → lock_turn s me m ≡ some (a, s')
    → s'.sems ≡ s.sems
unfolding lock_turn
sems-lock_turn s me m a s' e = ground arith

sems-try : (s : Sync) (c m : ℕ) → (kmutex_try s c m).1.sems ≡ s.sems
unfolding kmutex_try
sems-try s c m = ground arith

init-Bounded :
    (s : Sync) (x : ℕ) (name : Option (List ℕ)) (initial limit : ℤ)
    → Bounded s.sems
    → Bounded (ksem_init s x name initial limit).sems
unfolding ksem_init
init-Bounded s x name initial limit h y = ground (arith, h y)

turn-Bounded : (s : Sync) (me x : ℕ) → Bounded s.sems → Bounded (ksem_turn s me x).1.sems
unfolding ksem_turn
turn-Bounded s me x h y = ground (arith, h y)

trywait-Bounded : (s : Sync) (x : ℕ) → Bounded s.sems → Bounded (ksem_trywait s x).1.sems
unfolding ksem_trywait
trywait-Bounded s x h y = ground (arith, h y)

-- The semaphore after a post.
posted-count :
    (s : Sync) (c x : ℕ) (s' : Sync) (y : ℕ)
    → ksem_post s c x ≡ some s'
    → ((s'.sems y).limit ≡ (s.sems y).limit)
      × ((s'.sems y).count ≡ (
          if y == x
          then (if ltb (s.sems x).count (s.sems x).limit
              then (s.sems x).count + 1
              else (s.sems x).count)
          else (s.sems y).count))
unfolding ksem_post
posted-count s c x s' y e =
    let k = wake_batch-Keeps _ s' c (s.sems x).waiters e in
    (
      ap (λ (f : ℕ → Sem). (f y).limit) k.sems ∙ ground arith,
      ap (λ (f : ℕ → Sem). (f y).count) k.sems ∙ ground arith,
    )

unlock-sems : (s : Sync) (c m : ℕ) (s' : Sync) → kmutex_unlock s c m ≡ some s' → s'.sems ≡ s.sems
unlock-sems s c m s' e = elim (unlock-cases s c m s' e) [
  | inl q ↦ ap (λ (x : Sync). x.sems) (sym q)
  | inr (own, r) ↦ r.sems
]

post-Bounded :
    (s : Sync) (c x : ℕ) (s' : Sync) → ksem_post s c x ≡ some s' → Bounded s.sems → Bounded s'.sems
post-Bounded s c x s' e h y =
    let (limit, count) = posted-count s c x s' y e in ground (arith, limit, count, h x, h y)

Step-Bounded : {s s' : Sync} → Step s s' → Bounded s.sems → Bounded s'.sems
Step-Bounded {s} (locks me m a s' e) h = subst Bounded (sym (sems-lock_turn s me m a s' e)) h
Step-Bounded {s} (tries c t m cur idle) h = subst Bounded (sym (sems-try s c m)) h
Step-Bounded {s} (unlocks c m s' e) h = subst Bounded (sym (unlock-sems s c m s' e)) h
Step-Bounded {s} (inits m name) h = subst Bounded (sym (init-Released s m name).sems) h
Step-Bounded {s} (sem_inits x name initial limit) h = init-Bounded s x name initial limit h
Step-Bounded {s} (sem_waits me x) h = turn-Bounded s me x h
Step-Bounded {s} (sem_tries x) h = trywait-Bounded s x h
Step-Bounded {s} (sem_posts c x s' e) h = post-Bounded s c x s' e h

Bounded-Reach : {s s' : Sync} → Bounded s.sems → Reach s s' → Bounded s'.sems
Bounded-Reach h here = h
Bounded-Reach h (next r st) = Step-Bounded st (Bounded-Reach h r)

-- From a state whose semaphores are within their limits, no sequence of calls takes a count past
-- its limit, whatever the values that `ksem_init` is given and however often a post comes; and a
-- wait or a try gets through exactly if the count is positive, and then takes one.
pub Reach-Bounded :
    {s s' : Sync}
    → Bounded s.sems
    → Reach s s'
    → Bounded s'.sems
      × ((me x : ℕ)
          → ((ksem_turn s' me x).0 ≡ ltb 0 (s'.sems x).count)
            × ((ksem_trywait s' x).0 ≡ ltb 0 (s'.sems x).count)
            × (((ksem_turn s' me x).1.sems x).count ≡ (s'.sems x).count - 1)
            × (((ksem_trywait s' x).1.sems x).count ≡ (s'.sems x).count - 1))
unfolding ksem_turn ksem_trywait
Reach-Bounded {s'} h r =
    (Bounded-Reach h r, λ me x. (ground arith, ground arith, ground arith, ground arith))
