-- ===== src/Sync/Deadlock.antt =====
-- Mutexes and semaphores under any interleaving of calls: no cycle of waiting tasks comes about.
use mobile_phone_os.Prelude.{
  ℕ, ◌≡◌, ◌≢◌, ◌⊎◌, inl, inr, refl, sym, ap, subst, ◌+◌, ◌∙◌, true, false, Option, none, some,
  arith, some_inj, Option-cases, Bool-cases, update, ℤ, List, [],
}
use mobile_phone_os.Sync.{
  Sync, Mutex, Attempt, acquired, deadlock, parks, current, owner_of, lock_wait_of, same_ptr,
  wake_batch, lock_turn, kmutex_try, kmutex_unlock, kmutex_init, ksem_init, ksem_turn, ksem_trywait,
  ksem_post, walk, would_deadlock, deadlk_visit_max,
}
use mobile_phone_os.Sync.Walk.{walk-false}
use mobile_phone_os.Sync.Edges.{AllEnd, AllEnd-same, AllEnd-idle, AllEnd-edge, AllEnd-free}
use mobile_phone_os.Sync.Batch.{wake_batch-Keeps}

-- One call, or one turn of a call that waits in a loop. A task that is not inside `kmutex_lock`
-- intends to take no mutex.
pub data Step (s : Sync) : Sync → Type 0 where
  locks : (me m : ℕ) (a : Attempt) (s' : Sync) → lock_turn s me m ≡ some (a, s') → Step s s'
  tries : (c t m : ℕ) → current s c ≡ some t → lock_wait_of s t ≡ none → Step s (kmutex_try s c m).1
  unlocks : (c m : ℕ) (s' : Sync) → kmutex_unlock s c m ≡ some s' → Step s s'
  inits : (m : ℕ) (name : Option (List ℕ)) → Step s (kmutex_init s m name)
  sem_inits :
      (x : ℕ) (name : Option (List ℕ)) (initial limit : ℤ)
      → Step s (ksem_init s x name initial limit)
  sem_waits : (me x : ℕ) → Step s (ksem_turn s me x).1
  sem_tries : (x : ℕ) → Step s (ksem_trywait s x).1
  sem_posts : (c x : ℕ) (s' : Sync) → ksem_post s c x ≡ some s' → Step s s'

abbrev pub NoCycle : Sync → Type 0
NoCycle s = AllEnd (owner_of s) (lock_wait_of s)

-- What a turn of `kmutex_lock` does to the graph, by its outcome.
abbrev pub Turned : Sync → (me m : ℕ) → Attempt → Sync → Type 0
Turned s me m acquired s' =
    (owner_of s m ≡ none)
    × (owner_of s' m ≡ some me)
    × ((x : ℕ) → x ≢ m → owner_of s' x ≡ owner_of s x)
    × (lock_wait_of s' me ≡ none)
    × ((t : ℕ) → t ≢ me → lock_wait_of s' t ≡ lock_wait_of s t)
Turned s me m deadlock s' =
    (would_deadlock s (some me) m ≡ some true)
    × ((x : ℕ) → owner_of s' x ≡ owner_of s x)
    × (lock_wait_of s' me ≡ none)
    × ((t : ℕ) → t ≢ me → lock_wait_of s' t ≡ lock_wait_of s t)
Turned s me m parks s' =
    (would_deadlock s (some me) m ≡ some false)
    × ((x : ℕ) → owner_of s' x ≡ owner_of s x)
    × (lock_wait_of s' me ≡ some m)
    × ((t : ℕ) → t ≢ me → lock_wait_of s' t ≡ lock_wait_of s t)

pub lock_turn-Turned :
    (s : Sync) (me m : ℕ) (a : Attempt) (s' : Sync)
    → lock_turn s me m ≡ some (a, s')
    → Turned s me m a s'
unfolding lock_turn
lock_turn-Turned s me m acquired s' e =
    (ground arith, ground arith, λ x ne. ground arith, ground arith, λ t ne. ground arith)
lock_turn-Turned s me m deadlock s' e =
    (ground arith, λ x. ground arith, ground arith, λ t ne. ground arith)
lock_turn-Turned s me m parks s' e =
    (ground arith, λ x. ground arith, ground arith, λ t ne. ground arith)

turn-NoCycle :
    (s : Sync) (me m : ℕ) (a : Attempt) (s' : Sync) → Turned s me m a s' → NoCycle s → NoCycle s'
turn-NoCycle s me m acquired s' (free, own, owners, idle, waits) =
    AllEnd-idle m me owners waits idle (inr (free, own))
turn-NoCycle s me m deadlock s' (found, owners, idle, waits) =
    AllEnd-idle m me (λ x ne. owners x) waits idle (inl (owners m))
turn-NoCycle s me m parks s' (none_found, owners, edge, waits) =
    let (n, clear) =
      walk-false (owner_of s) (lock_wait_of s) me (deadlk_visit_max + 2) m [] (found none_found) in
    AllEnd-edge m me n owners waits edge clear
  where
    found :
        would_deadlock s (some me) m ≡ some false
        → walk (deadlk_visit_max + 2) (owner_of s) (lock_wait_of s) (some me) m [] ≡ some false
    found e = unfold would_deadlock in e

eq_of_same_ptr : (a b : Option ℕ) → same_ptr a b ≡ true → a ≡ b
eq_of_same_ptr a b h = ground arith

-- What a release or a post does to the graph.
pub record Released (s s' : Sync) (m : ℕ) : Type 0 where
  pub owner : owner_of s' m ≡ none
  pub others : (x : ℕ) → x ≢ m → owner_of s' x ≡ owner_of s x
  pub waits : (t : ℕ) → lock_wait_of s' t ≡ lock_wait_of s t
  pub sems : s'.sems ≡ s.sems

pub unlock-cases :
    (s : Sync) (c m : ℕ) (s' : Sync)
    → kmutex_unlock s c m ≡ some s'
    → (s ≡ s') ⊎ ((owner_of s m ≡ current s c) × Released s s' m)
unfolding kmutex_unlock
unlock-cases s c m s' e = elim (Bool-cases (same_ptr (owner_of s m) (current s c))) [
  | inr other ↦ inl (some_inj (sym (rw (other, kmutex_unlock)) ∙ e))
  | inl own ↦
      let swept : wake_batch freed c (s.mutexes m).waiters ≡ some s' =
        sym (rw (own, kmutex_unlock)) ∙ e in
      let k = wake_batch-Keeps freed s' c (s.mutexes m).waiters swept in
      inr (
        eq_of_same_ptr _ _ own,
        record {
          owner = ap (λ (f : ℕ → Mutex). (f m).owner) k.mutexes ∙ freed_owner;
          others = λ x ne. ap (λ (f : ℕ → Mutex). (f x).owner) k.mutexes ∙ freed_other x ne;
          waits = k.lock_wait;
          sems = k.sems;
        },
      )
]
  where
    freed : Sync
    freed = record s {
      mutexes = update s.mutexes m (record (s.mutexes m) { owner = none; waiters = none });
    }

    freed_owner : owner_of freed m ≡ none
    freed_owner = ground arith

    freed_other : (x : ℕ) → x ≢ m → owner_of freed x ≡ owner_of s x
    freed_other x ne = ground arith

pub post-same :
    (s : Sync) (c x : ℕ) (s' : Sync)
    → ksem_post s c x ≡ some s'
    → ((m : ℕ) → owner_of s' m ≡ owner_of s m) × ((t : ℕ) → lock_wait_of s' t ≡ lock_wait_of s t)
unfolding ksem_post
post-same s c x s' e =
    let k = wake_batch-Keeps _ s' c (s.sems x).waiters e in
    (λ m. ap (λ (f : ℕ → Mutex). (f m).owner) k.mutexes, k.lock_wait)

-- What `kmutex_try` does for the task `t`.
pub record Tried (s s' : Sync) (t m : ℕ) : Type 0 where
  pub owners : (x : ℕ) → x ≢ m → owner_of s' x ≡ owner_of s x
  pub waits : (i : ℕ) → lock_wait_of s' i ≡ lock_wait_of s i
  pub own : (owner_of s' m ≡ owner_of s m) ⊎ ((owner_of s m ≡ none) × (owner_of s' m ≡ some t))

pub try-Tried : (s : Sync) (c t m : ℕ) → current s c ≡ some t → Tried s (kmutex_try s c m).1 t m
unfolding kmutex_try
try-Tried s c t m cur = record {
  owners = λ x ne. ground arith;
  waits = λ i. ground arith;
  own = elim (Option-cases (owner_of s m)) [
    | inl e ↦ inr (e, ground arith)
    | inr (o, e) ↦ inl (ground arith)
  ];
}

pub init-Released :
    (s : Sync) (m : ℕ) (name : Option (List ℕ)) → Released s (kmutex_init s m name) m
unfolding kmutex_init
init-Released s m name = record {
  owner = ground arith;
  others = λ x ne. ground arith;
  waits = λ t. refl;
  sems = refl;
}

pub record Unmoved (s s' : Sync) : Type 0 where
  pub owners : (x : ℕ) → owner_of s' x ≡ owner_of s x
  pub waits : (t : ℕ) → lock_wait_of s' t ≡ lock_wait_of s t

pub turn-Unmoved : (s : Sync) (me x : ℕ) → Unmoved s (ksem_turn s me x).1
unfolding ksem_turn
turn-Unmoved s me x = record { owners = λ y. ground arith; waits = λ t. ground arith }

pub trywait-Unmoved : (s : Sync) (x : ℕ) → Unmoved s (ksem_trywait s x).1
unfolding ksem_trywait
trywait-Unmoved s x = record { owners = λ y. ground arith; waits = λ t. ground arith }

Step-NoCycle : {s s' : Sync} → Step s s' → NoCycle s → NoCycle s'
Step-NoCycle {s} (locks me m a s' e) h = turn-NoCycle s me m a s' (lock_turn-Turned s me m a s' e) h
Step-NoCycle {s} (tries c t m cur idle) h =
    let r = try-Tried s c t m cur in
    AllEnd-idle m t r.owners (λ i ne. r.waits i) (r.waits t ∙ idle) r.own h
Step-NoCycle {s} (unlocks c m s' e) h = elim (unlock-cases s c m s' e) [
  | inl q ↦ subst NoCycle q h
  | inr (own, r) ↦ AllEnd-free m r.others r.owner r.waits h
]
Step-NoCycle {s} (inits m name) h =
    let r = init-Released s m name in AllEnd-free m r.others r.owner r.waits h
Step-NoCycle {s} (sem_inits x name initial limit) h =
    unfold ksem_init in AllEnd-same (λ m. refl) (λ t. refl) h
Step-NoCycle {s} (sem_waits me x) h = let r = turn-Unmoved s me x in AllEnd-same r.owners r.waits h
Step-NoCycle {s} (sem_tries x) h = let r = trywait-Unmoved s x in AllEnd-same r.owners r.waits h
Step-NoCycle {s} (sem_posts c x s' e) h = let (o, w) = post-same s c x s' e in AllEnd-same o w h

pub data Reach (s : Sync) : Sync → Type 0 where
  here : Reach s s
  next : {t u : Sync} → Reach s t → Step t u → Reach s u

NoCycle-Reach : {s s' : Sync} → NoCycle s → Reach s s' → NoCycle s'
NoCycle-Reach h here = h
NoCycle-Reach h (next r st) = Step-NoCycle st (NoCycle-Reach h r)

-- From a state in which no mutex is owned, no sequence of calls, in any interleaving, brings about
-- a cycle of tasks each of which intends to take a mutex of the next: from every mutex the hops
-- to its owner and on to the mutex which that task intends to take come to an end.
pub Reach-NoCycle : {s s' : Sync} → ((m : ℕ) → owner_of s m ≡ none) → Reach s s' → NoCycle s'
Reach-NoCycle free r = NoCycle-Reach (λ m. (0, inl (free m))) r
