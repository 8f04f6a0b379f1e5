-- ===== src/Sched/Pick.antt =====
-- `pick_next`: what the run queue promises.
use mobile_phone_os.Prelude.{
  ℕ, zero, suc, ◌≤◌, ◌<◌, ◌≡◌, inl, inr, true, false, Option, none, some, arith, eq-cases,
  Bool-cases, ◌≢◌,
}
use mobile_phone_os.Task.{Task, Kernel, ready, is_state, eq_of_is_state, ne_of_is_state, max_tasks}
use mobile_phone_os.Sched.{better, consider, pick_upto, pick_next}

-- `a` is at least as urgent as `b`: a lower `prio`, or the same and a key that is not younger.
pub record NoWorse (a b : Task) : Type 0 where
  pub prio_le : a.prio ≤ b.prio
  pub key_le : a.prio ≡ b.prio → a.rq_key ≤ b.rq_key

-- The slot `t`, below `n`, is ready, and no ready slot below `n` comes before it.
pub record IsBest (ts : ℕ → Task) (n t : ℕ) : Type 0 where
  pub below : t < n
  pub is_ready : (ts t).state ≡ ready
  pub best : (i : ℕ) → i < n → (ts i).state ≡ ready → NoWorse (ts t) (ts i)

abbrev pub Picked : (ℕ → Task) → ℕ → Option ℕ → Type 0
Picked ts n none = (i : ℕ) → i < n → (ts i).state ≢ ready
Picked ts n (some t) = IsBest ts n t

-- The turn at `n` extends what holds below `n`.
better-NoWorse : (a b : Task) → better a b ≡ true → NoWorse a b
unfolding better
better-NoWorse a b h = ground arith

worse-NoWorse : (a b : Task) → better a b ≡ false → NoWorse b a
unfolding better
worse-NoWorse a b h = ground arith

NoWorse-trans : {a b c : Task} → NoWorse a b → NoWorse b c → NoWorse a c
NoWorse-trans h k = ground arith

skip-Picked :
    (ts : ℕ → Task) (n : ℕ) (o : Option ℕ)
    → (ts n).state ≢ ready
    → Picked ts n o
    → Picked ts (suc n) o
skip-Picked ts n none out h =
    λ i lt. elim (eq-cases i n) [ inl e ↦ rw e out | inr ne ↦ h i (omega arith) ]
skip-Picked ts n (some b) out h = record {
  below = omega (arith, h.below);
  is_ready = h.is_ready;
  best = λ i lt r. elim (eq-cases i n) [
    | inl e ↦ absurd (out (rw e at r))
    | inr ne ↦ h.best i (omega arith) r
  ];
}

-- The slot `t` is at least as urgent as all below `n` and as `n` itself.
best_upto :
    (ts : ℕ → Task) (n t : ℕ)
    → NoWorse (ts t) (ts n)
    → ((i : ℕ) → i < n → (ts i).state ≡ ready → NoWorse (ts t) (ts i))
    → (i : ℕ) → i < suc n
    → (ts i).state ≡ ready
    → NoWorse (ts t) (ts i)
best_upto ts n t last rest i lt r = elim (eq-cases i n) [
  | inl e ↦ rw e last
  | inr ne ↦ rest i (omega arith) r
]

consider-Picked :
    (ts : ℕ → Task) (n : ℕ) (o : Option ℕ) → Picked ts n o → Picked ts (suc n) (consider ts o n)
unfolding consider
consider-Picked ts n none h = elim (Bool-cases (is_state (ts n).state ready)) [
  | inr out ↦ rw out (skip-Picked ts n none (ne_of_is_state _ _ out) h)
  | inl at_n ↦ rw at_n (record {
    below = omega arith;
    is_ready = eq_of_is_state _ _ at_n;
    best = best_upto ts n n (omega arith) (λ i lt r. absurd (h i lt r));
  })
]
consider-Picked ts n (some b) h = elim (Bool-cases (is_state (ts n).state ready)) [
  | inr out ↦ rw out (skip-Picked ts n (some b) (ne_of_is_state _ _ out) h)
  | inl at_n ↦ rw at_n (elim (Bool-cases (better (ts n) (ts b))) [
    | inl wins ↦
        let over : NoWorse (ts n) (ts b) = better-NoWorse _ _ wins in
        rw wins (record {
          below = omega arith;
          is_ready = eq_of_is_state _ _ at_n;
          best = best_upto ts n n (omega arith) (λ i lt r. NoWorse-trans over (h.best i lt r));
        })
    | inr loses ↦ rw loses (record {
      below = omega (arith, h.below);
      is_ready = h.is_ready;
      best = best_upto ts n b (worse-NoWorse _ _ loses) h.best;
    })
  ])
]

pick_upto-Picked : (ts : ℕ → Task) (n : ℕ) → Picked ts n (pick_upto ts n)
unfolding pick_upto
pick_upto-Picked ts zero = λ i h. absurd (omega arith)
pick_upto-Picked ts (suc n) = consider-Picked ts n (pick_upto ts n) (pick_upto-Picked ts n)

-- Whatever the table holds, `pick_next` finds no task only if no slot is ready, and otherwise a
-- ready slot of the lowest `prio`, and among those of that `prio` one with the oldest key.
pub pick_next-best : (k : Kernel) → Picked k.tasks max_tasks (pick_next k)
unfolding pick_next
pick_next-best k = pick_upto-Picked k.tasks max_tasks
