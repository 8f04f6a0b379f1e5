-- ===== src/Sync/Exact.antt =====
-- `would_deadlock` says exactly whether the task is on the way.
use mobile_phone_os.Prelude.{
  ℕ, zero, suc, ◌+◌, ◌≤◌, ◌≡◌, ◌⊎◌, inl, inr, sym, ap, subst, ◌∙◌, Bool, true, false, Option, some,
  some_inj, [], arith, eq-cases,
}
use mobile_phone_os.Task.Queue.{has}
use mobile_phone_os.Sync.{Sync, would_deadlock, owner_of, lock_wait_of, deadlk_visit_max}
use mobile_phone_os.Sync.Graph.{Ends, Hits}
use mobile_phone_os.Sync.Walk.{walk-total, walk-Hits, walk-not_Hits}

module _ (owner lock_wait : ℕ → Option ℕ) (me : ℕ) where
  -- On a way that ends the task owns a mutex or it does not.
  Hits-cases :
      (m n : ℕ)
      → Ends owner lock_wait m n
      → ((j : ℕ) × Hits owner lock_wait me m j) ⊎ ((j : ℕ) → ¬ Hits owner lock_wait me m j)
  Hits-cases m zero (inl e) = inr λ j h. none_hit j h
    where
      none_hit : (j : ℕ) → ¬ Hits owner lock_wait me m j
      none_hit zero h = cc
      none_hit (suc j) (o', m'', e', w', h') = cc
  Hits-cases m zero (inr (o, e, w)) = elim (eq-cases o me) [
    | inl q ↦ inl (0, e ∙ ap some q)
    | inr ne ↦ inr (idle_hit ne)
  ]
    where
      idle_hit : ¬ (o ≡ me) → (j : ℕ) → ¬ Hits owner lock_wait me m j
      idle_hit ne zero h = ne (some_inj (sym e ∙ h))
      idle_hit ne (suc j) (o', m'', e', w', h') = cc (some_inj (sym e ∙ e'))
  Hits-cases m (suc n) (o, m', e, w, r) = elim (eq-cases o me) [
    | inl q ↦ inl (0, e ∙ ap some q)
    | inr ne ↦ elim (Hits-cases m' n r) [
      | inl (j, h) ↦ inl (suc j, (o, m', e, w, h))
      | inr miss ↦ inr (later ne miss)
    ]
  ]
    where
      later :
          ¬ (o ≡ me)
          → ((j : ℕ) → ¬ Hits owner lock_wait me m' j)
          → (j : ℕ) → ¬ Hits owner lock_wait me m j
      later ne miss zero h = ne (some_inj (sym e ∙ h))
      later ne miss (suc j) (o', m'', e', w', h') = miss j (
          subst (λ x. Hits owner lock_wait me x j)
            (some_inj (sym w' ∙ ap lock_wait (some_inj (sym e' ∙ e)) ∙ w)) h')

-- The detector always answers. Where the hops from `m` end within 128 hops, either the task owns `m` or
-- a mutex on the way and the answer is yes, or it owns none of these and the answer is no.
pub would_deadlock-exact :
    (s : Sync) (me m n : ℕ)
    → Ends (owner_of s) (lock_wait_of s) m n
    → n ≤ deadlk_visit_max
    → ((x : ℕ) → (b : Bool) × (would_deadlock s (some me) x ≡ some b))
      × ((((j : ℕ) × Hits (owner_of s) (lock_wait_of s) me m j)
            × (would_deadlock s (some me) m ≡ some true))
          ⊎ (((j : ℕ) → ¬ Hits (owner_of s) (lock_wait_of s) me m j)
              × (would_deadlock s (some me) m ≡ some false)))
unfolding would_deadlock
would_deadlock-exact s me m n ends le = (
  λ x.
      walk-total (owner_of s) (lock_wait_of s) me (deadlk_visit_max + 2) x [] (omega arith)
        (omega arith),
  elim (Hits-cases (owner_of s) (lock_wait_of s) me m n ends) [
    | inl (j, h) ↦ inl (
      (j, h),
      walk-Hits (owner_of s) (lock_wait_of s) me (deadlk_visit_max + 2) m n j [] ends start
          (omega arith) (omega arith) h,
    )
    | inr miss ↦ inr (
      miss,
      walk-not_Hits (owner_of s) (lock_wait_of s) me (deadlk_visit_max + 2) m n [] ends start
          (omega arith) (omega arith) miss,
    )
  ],
)
  where
    start : (x : ℕ) → has x [] ≡ true → (j : ℕ) × (n ≤ j) × Ends (owner_of s) (lock_wait_of s) x j
    start x h = cc
