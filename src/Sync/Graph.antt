-- ===== src/Sync/Graph.antt =====
-- The wait-for graph of the mutexes: who owns a mutex, and which mutex a task intends to take.
use mobile_phone_os.Prelude.{
  ℕ, zero, suc, ◌≡◌, ◌≢◌, ◌⊎◌, inl, inr, refl, sym, ap, subst, ◌∙◌, Option, none, some, some_inj,
}

-- From `m` the hops mutex, owner, intended mutex lead in `n` hops to a mutex that is free, or whose
-- owner intends to take none.
abbrev pub Ends : (owner lock_wait : ℕ → Option ℕ) → ℕ → ℕ → Type 0
Ends owner lock_wait m zero =
    (owner m ≡ none) ⊎ ((o : ℕ) × (owner m ≡ some o) × (lock_wait o ≡ none))
Ends owner lock_wait m (suc n) =
    (o : ℕ) × (m' : ℕ) × (owner m ≡ some o) × (lock_wait o ≡ some m') × Ends owner lock_wait m' n

-- The task `t` owns `m` or a mutex on the way from `m`, `n` hops on.
abbrev pub Hits : (owner lock_wait : ℕ → Option ℕ) → ℕ → ℕ → ℕ → Type 0
Hits owner lock_wait t m zero = owner m ≡ some t
Hits owner lock_wait t m (suc n) =
    (o : ℕ) × (m' : ℕ) × (owner m ≡ some o) × (lock_wait o ≡ some m') × Hits owner lock_wait t m' n

module _ (owner lock_wait : ℕ → Option ℕ) where
  -- As `Ends`, and the task `t` owns none of the mutexes.
  abbrev pub EndsWithout : ℕ → ℕ → ℕ → Type 0
  EndsWithout t m zero =
      (owner m ≡ none) ⊎ ((o : ℕ) × (owner m ≡ some o) × (o ≢ t) × (lock_wait o ≡ none))
  EndsWithout t m (suc n) =
      (o : ℕ) × (m' : ℕ) × (owner m ≡ some o)
      × (o ≢ t)
      × (lock_wait o ≡ some m')
      × EndsWithout t m' n

  pub Ends-of_without : (t m n : ℕ) → EndsWithout t m n → Ends owner lock_wait m n
  Ends-of_without t m zero (inl e) = inl e
  Ends-of_without t m zero (inr (o, e, ne, w)) = inr (o, e, w)
  Ends-of_without t m (suc n) (o, m', e, ne, w, h) = (o, m', e, w, Ends-of_without t m' n h)

  pub Hits-absurd : (t m n j : ℕ) → EndsWithout t m n → ¬ Hits owner lock_wait t m j
  Hits-absurd t m zero zero (inl e) h = cc
  Hits-absurd t m zero zero (inr (o, e, ne, w)) h = ne (some_inj (sym e ∙ h))
  Hits-absurd t m zero (suc j) (inl e) (o', m', e', w', h) = cc
  Hits-absurd t m zero (suc j) (inr (o, e, ne, w)) (o', m', e', w', h) =
      cc (some_inj (sym e ∙ e'), w, w')
  Hits-absurd t m (suc n) zero (o, m', e, ne, w, h) h' = ne (some_inj (sym e ∙ h'))
  Hits-absurd t m (suc n) (suc j) (o, m', e, ne, w, h) (o', m'', e', w', h') =
      Hits-absurd t m' n j h
        (subst (λ x. Hits owner lock_wait t x j) (same o o' m' m'' e e' w w') h')
    where
      same :
          (o o' m' m'' : ℕ)
          → owner m ≡ some o
          → owner m ≡ some o'
          → lock_wait o ≡ some m'
          → lock_wait o' ≡ some m''
          → m'' ≡ m'
      same o o' m' m'' e e' w w' = some_inj (sym w' ∙ ap lock_wait (some_inj (sym e' ∙ e)) ∙ w)

  -- The number of hops is determined.
  pub Ends-unique : (m n n' : ℕ) → Ends owner lock_wait m n → Ends owner lock_wait m n' → n ≡ n'
  Ends-unique m zero zero h h' = refl
  Ends-unique m zero (suc n') (inl e) (o', m'', e', w', h') = cc
  Ends-unique m zero (suc n') (inr (o, e, w)) (o', m'', e', w', h') = cc (some_inj (sym e ∙ e'))
  Ends-unique m (suc n) zero (o', m'', e', w', h') (inl e) = cc
  Ends-unique m (suc n) zero (o', m'', e', w', h') (inr (o, e, w)) = cc (some_inj (sym e ∙ e'))
  Ends-unique m (suc n) (suc n') (o, m', e, w, h) (o', m'', e', w', h') = ap suc (
      Ends-unique m' n n' h (
        subst (λ x. Ends owner lock_wait x n')
          (some_inj (sym w' ∙ ap lock_wait (some_inj (sym e' ∙ e)) ∙ w)) h'))
