-- ===== src/Sync/Ownership.antt =====
-- Who may end an ownership.
use mobile_phone_os.Prelude.{ℕ, ◌≡◌, ◌⊎◌, inl, inr, sym, ap, subst, ◌∙◌, some, eq-cases}
use mobile_phone_os.Sync.{
  Sync, Attempt, acquired, deadlock, parks, current, owner_of, kmutex_try, ksem_init,
}
use mobile_phone_os.Sync.Deadlock.{
  Step, locks, tries, unlocks, inits, sem_inits, sem_waits, sem_tries, sem_posts, Turned,
  lock_turn-Turned, unlock-cases, post-same, try-Tried, init-Released, turn-Unmoved,
  trywait-Unmoved,
}

-- The call gives up the mutex `m` for the task `t`: a release by `t` itself, or an initialisation.
abbrev pub GivesUp : {s s' : Sync} → Step s s' → (t m : ℕ) → Type 0
GivesUp (locks me m' a s' e) t m = ⊥
GivesUp (tries c t' m' cur idle) t m = ⊥
GivesUp {s} (unlocks c m' s' e) t m = (m ≡ m') × (current s c ≡ some t)
GivesUp (inits m' name) t m = m ≡ m'
GivesUp (sem_inits x name initial limit) t m = ⊥
GivesUp (sem_waits me x) t m = ⊥
GivesUp (sem_tries x) t m = ⊥
GivesUp (sem_posts c x s' e) t m = ⊥

turn-kept :
    (s : Sync) (me m' : ℕ) (a : Attempt) (s' : Sync) (t m : ℕ)
    → Turned s me m' a s'
    → owner_of s m ≡ some t
    → owner_of s' m ≡ some t
turn-kept s me m' acquired s' t m (free, own, owners, idle, waits) e = elim (eq-cases m m') [
  | inl q ↦ absurd (cc (ap (owner_of s) q, free, e))
  | inr ne ↦ owners m ne ∙ e
]
turn-kept s me m' deadlock s' t m (found, owners, idle, waits) e = owners m ∙ e
turn-kept s me m' parks s' t m (found, owners, edge, waits) e = owners m ∙ e

-- An owned mutex stays with its owner through every call of every task, except its release by the
-- owner itself and its initialisation.
pub owner-kept :
    {s s' : Sync} (st : Step s s') (t m : ℕ)
    → owner_of s m ≡ some t
    → (owner_of s' m ≡ some t) ⊎ GivesUp st t m
owner-kept {s} (locks me m' a s' st) t m e =
    inl (turn-kept s me m' a s' t m (lock_turn-Turned s me m' a s' st) e)
owner-kept {s} (tries c t' m' cur idle) t m e =
    let r = try-Tried s c t' m' cur in
    inl (elim (eq-cases m m') [
      | inr ne ↦ r.owners m ne ∙ e
      | inl q ↦ elim r.own [
        | inl same ↦ ap (owner_of (kmutex_try s c m').1) q ∙ same ∙ ap (owner_of s) (sym q) ∙ e
        | inr (free, own) ↦ absurd (cc (ap (owner_of s) q, free, e))
      ]
    ])
owner-kept {s} (unlocks c m' s' st) t m e = elim (unlock-cases s c m' s' st) [
  | inl q ↦ inl (subst (λ x. owner_of x m ≡ some t) q e)
  | inr (own, r) ↦ elim (eq-cases m m') [
    | inl q ↦ inr (q, sym own ∙ ap (owner_of s) (sym q) ∙ e)
    | inr ne ↦ inl (r.others m ne ∙ e)
  ]
]
owner-kept {s} (inits m' name) t m e = elim (eq-cases m m') [
  | inl q ↦ inr q
  | inr ne ↦ inl ((init-Released s m' name).others m ne ∙ e)
]
owner-kept {s} (sem_inits x name initial limit) t m e = unfold ksem_init in inl e
owner-kept {s} (sem_waits me x) t m e = inl ((turn-Unmoved s me x).owners m ∙ e)
owner-kept {s} (sem_tries x) t m e = inl ((trywait-Unmoved s x).owners m ∙ e)
owner-kept {s} (sem_posts c x s' st) t m e = inl ((post-same s c x s' st).0 m ∙ e)
