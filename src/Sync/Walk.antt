-- ===== src/Sync/Walk.antt =====
-- The walk of `would_deadlock`: it ends, and says whether the task is on the way.
use mobile_phone_os.Prelude.{
  ℕ, zero, suc, ◌+◌, ◌≤◌, ◌<◌, ◌≡◌, ◌≢◌, ◌⊎◌, inl, inr, refl, sym, ap, subst, ◌∙◌, Bool, true,
  false, Option, none, some, some_inj, List, ◌∷◌, arith, length, leb, Bool-cases, Option-cases,
  eq-cases,
}
use mobile_phone_os.Task.Queue.{has}
use mobile_phone_os.Sync.{walk, deadlk_visit_max}
use mobile_phone_os.Sync.Graph.{Ends, Hits, EndsWithout, Ends-unique}

module _ (owner lock_wait : ℕ → Option ℕ) (me : ℕ) where
  -- The equations of one round.
  walk-zero : (m : ℕ) (seen : List ℕ) → walk zero owner lock_wait (some me) m seen ≡ none
  unfolding walk
  walk-zero m seen = refl

  walk-free :
      (f m : ℕ) (seen : List ℕ)
      → owner m ≡ none
      → walk (suc f) owner lock_wait (some me) m seen ≡ some false
  unfolding walk
  walk-free f m seen e = rw (e, walk)

  walk-me :
      (f m : ℕ) (seen : List ℕ)
      → owner m ≡ some me
      → walk (suc f) owner lock_wait (some me) m seen ≡ some true
  unfolding walk
  walk-me f m seen e = ground arith

  walk-idle :
      (f m o : ℕ) (seen : List ℕ)
      → owner m ≡ some o
      → o ≢ me
      → lock_wait o ≡ none
      → walk (suc f) owner lock_wait (some me) m seen ≡ some false
  unfolding walk
  walk-idle f m o seen e ne w = ground arith

  walk-hop :
      (f m o m' : ℕ) (seen : List ℕ)
      → owner m ≡ some o
      → o ≢ me
      → lock_wait o ≡ some m'
      → length seen < deadlk_visit_max
      → has m' seen ≡ false
      → walk (suc f) owner lock_wait (some me) m seen
        ≡ walk f owner lock_wait (some me) m' (m' ∷ seen)
  unfolding walk
  walk-hop f m o m' seen e ne w short fresh = ground arith

  walk-long :
      (f m o m' : ℕ) (seen : List ℕ)
      → owner m ≡ some o
      → o ≢ me
      → lock_wait o ≡ some m'
      → (deadlk_visit_max ≤ length seen) ⊎ (has m' seen ≡ true)
      → walk (suc f) owner lock_wait (some me) m seen ≡ some true
  unfolding walk
  walk-long f m o m' seen e ne w stop = ground arith

  hop_or_stop :
      (m' : ℕ) (seen : List ℕ)
      → ((length seen < deadlk_visit_max) × (has m' seen ≡ false))
        ⊎ ((deadlk_visit_max ≤ length seen) ⊎ (has m' seen ≡ true))
  hop_or_stop m' seen = elim (Bool-cases (has m' seen)) [
    | inl old ↦ inr (inr old)
    | inr new ↦ elim (Bool-cases (leb deadlk_visit_max (length seen))) [
      | inl long ↦ inr (inl (ground arith))
      | inr short ↦ inl (ground arith, new)
    ]
  ]

  -- The fuel suffices: the list of mutexes seen stays below its bound.
  pub walk-total :
      (f m : ℕ) (seen : List ℕ)
      → deadlk_visit_max + 2 ≤ length seen + f
      → 0 < f
      → (b : Bool) × (walk f owner lock_wait (some me) m seen ≡ some b)
  walk-total zero m seen enough pos = absurd (omega arith)
  walk-total (suc f) m seen enough pos = elim (Option-cases (owner m)) [
    | inl e ↦ (false, walk-free f m seen e)
    | inr (o, e) ↦ elim (eq-cases o me) [
      | inl q ↦ (true, walk-me f m seen (e ∙ ap some q))
      | inr ne ↦ elim (Option-cases (lock_wait o)) [
        | inl w ↦ (false, walk-idle f m o seen e ne w)
        | inr (m', w) ↦ elim (hop_or_stop m' seen) [
          | inr stop ↦ (true, walk-long f m o m' seen e ne w stop)
          | inl go ↦
              let (b, r) = walk-total f m' (m' ∷ seen) (omega arith) (omega arith) in
              (b, walk-hop f m o m' seen e ne w go.0 go.1 ∙ r)
        ]
      ]
    ]
  ]

  -- A walk that says no has seen where the way ends, and the task on none of it.
  pub walk-false :
      (f m : ℕ) (seen : List ℕ)
      → walk f owner lock_wait (some me) m seen ≡ some false
      → (n : ℕ) × EndsWithout owner lock_wait me m n
  walk-false zero m seen h = absurd (cc (walk-zero m seen, h))
  walk-false (suc f) m seen h = elim (Option-cases (owner m)) [
    | inl e ↦ (0, inl e)
    | inr (o, e) ↦ elim (eq-cases o me) [
      | inl q ↦ absurd (cc (h, walk-me f m seen (e ∙ ap some q)))
      | inr ne ↦ elim (Option-cases (lock_wait o)) [
        | inl w ↦ (0, inr (o, e, ne, w))
        | inr (m', w) ↦ elim (hop_or_stop m' seen) [
          | inr stop ↦ absurd (cc (h, walk-long f m o m' seen e ne w stop))
          | inl go ↦
              let (n, r) =
                walk-false f m' (m' ∷ seen) (sym (walk-hop f m o m' seen e ne w go.0 go.1) ∙ h) in
              (suc n, (o, m', e, ne, w, r))
        ]
      ]
    ]
  ]

  -- What has been seen lies at least as far from the end as the mutex at hand.
  abbrev Behind : ℕ → List ℕ → Type 0
  Behind n seen = (x : ℕ) → has x seen ≡ true → (j : ℕ) × (n ≤ j) × Ends owner lock_wait x j

  next_fresh :
      (m' n : ℕ) (seen : List ℕ)
      → Ends owner lock_wait m' n
      → Behind (suc n) seen
      → has m' seen ≡ false
  next_fresh m' n seen ends behind = elim (Bool-cases (has m' seen)) [
    | inl old ↦
        let (j, le, ends') = behind m' old in
        absurd (omega (arith, Ends-unique owner lock_wait m' n j ends ends'))
    | inr new ↦ new
  ]

  Behind-cons :
      (m' n : ℕ) (seen : List ℕ)
      → Ends owner lock_wait m' n
      → Behind (suc n) seen
      → Behind n (m' ∷ seen)
  Behind-cons m' n seen ends behind x h = elim (eq-cases x m') [
    | inl e ↦ (n, omega arith, subst (λ y. Ends owner lock_wait y n) (sym e) ends)
    | inr ne ↦ let (j, le, ends') = behind x (ground arith) in (j, omega arith, ends')
  ]

  -- On a way that ends within the bound, the walk says whether the task is on it.
  pub walk-Hits :
      (f m n j : ℕ) (seen : List ℕ)
      → Ends owner lock_wait m n
      → Behind n seen
      → length seen + n ≤ deadlk_visit_max
      → n < f
      → Hits owner lock_wait me m j
      → walk f owner lock_wait (some me) m seen ≡ some true
  walk-Hits zero m n j seen ends behind short fuel hits = absurd (omega arith)
  walk-Hits (suc f) m n zero seen ends behind short fuel hits = walk-me f m seen hits
  walk-Hits (suc f) m zero (suc j) seen (inl e) behind short fuel (o', m'', e', w', h') = cc
  walk-Hits (suc f) m zero (suc j) seen (inr (o, e, w)) behind short fuel (o', m'', e', w', h') =
      cc (some_inj (sym e ∙ e'))
  walk-Hits (suc f) m (suc n) (suc j) seen (o, m', e, w, r) behind short fuel
        (o', m'', e', w', h') =
      elim (eq-cases o me) [
        | inl q ↦ walk-me f m seen (e ∙ ap some q)
        | inr ne ↦
            walk-hop f m o m' seen e ne w (omega arith) (next_fresh m' n seen r behind)
            ∙ walk-Hits f m' n j (m' ∷ seen) r (Behind-cons m' n seen r behind) (omega arith)
                (omega arith)
                (subst (λ x. Hits owner lock_wait me x j)
                  (some_inj (sym w' ∙ ap lock_wait (some_inj (sym e' ∙ e)) ∙ w)) h')
      ]

  pub walk-not_Hits :
      (f m n : ℕ) (seen : List ℕ)
      → Ends owner lock_wait m n
      → Behind n seen
      → length seen + n ≤ deadlk_visit_max
      → n < f
      → ((j : ℕ) → ¬ Hits owner lock_wait me m j)
      → walk f owner lock_wait (some me) m seen ≡ some false
  walk-not_Hits zero m n seen ends behind short fuel miss = absurd (omega arith)
  walk-not_Hits (suc f) m zero seen (inl e) behind short fuel miss = walk-free f m seen e
  walk-not_Hits (suc f) m zero seen (inr (o, e, w)) behind short fuel miss =
      walk-idle f m o seen e (λ q. miss 0 (e ∙ ap some q)) w
  walk-not_Hits (suc f) m (suc n) seen (o, m', e, w, r) behind short fuel miss =
      walk-hop f m o m' seen e (λ q. miss 0 (e ∙ ap some q)) w (omega arith)
        (next_fresh m' n seen r behind)
      ∙ walk-not_Hits f m' n (m' ∷ seen) r (Behind-cons m' n seen r behind) (omega arith)
          (omega arith) (λ j h. miss (suc j) (o, m', e, w, h))
