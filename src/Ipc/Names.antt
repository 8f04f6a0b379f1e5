-- ===== src/Ipc/Names.antt =====
-- `mq_open`: a name leads to one queue.
use mobile_phone_os.Prelude.{
  Bool, ℕ, zero, suc, ◌-◌, ◌≤◌, ◌<◌, ◌≡◌, ◌⊎◌, refl, true, false, ◌&&◌, none, some, List, [], ◌∷◌,
  arith, length, take, update, add32, Option-cases, inl, inr, first_below, IsFirst,
  first_below-IsFirst, IsFirst-unique, subst,
}
use mobile_phone_os.Ipc.{
  Ipc, Mqueue, mq_name_max, mq_queues_max, same_name, named, is_free, new_queue, mq_open,
}

-- A name that `kstrlcpy` keeps whole is found again.
same_name-take : (n : ℕ) (xs : List ℕ) → length xs ≤ n → same_name (suc n) (take n xs) xs ≡ true
unfolding same_name
same_name-take zero [] h = refl
same_name-take (suc n) [] h = refl
same_name-take zero (x ∷ xs) h = absurd (omega arith)
same_name-take (suc n) (x ∷ xs) h = ground (arith, same_name-take n xs (omega arith))

-- What is found once the queue `i` has the name, and no queue before it had it.
found_again :
    (pool : ℕ → Mqueue) (q : Mqueue) (name : List ℕ) (i : ℕ)
    → i < mq_queues_max
    → q.in_use && same_name mq_name_max q.name name ≡ true
    → ((j : ℕ) → j < i → named pool name j ≡ false)
    → first_below (named (update pool i q) name) mq_queues_max ≡ some i
found_again pool q name i lt at before =
    IsFirst-unique (named (update pool i q) name) mq_queues_max i _
      (
        lt,
        (let here : update pool i q i ≡ q = ground arith in rw here at),
        λ j below. let out : update pool i q j ≡ pool j = ground arith in rw out (before j below),
      )
      (first_below-IsFirst (named (update pool i q) name) mq_queues_max)

open-cases :
    (s s' : Ipc) (c : ℕ) (cs : List ℕ) (i : ℕ) (created : Bool)
    → mq_open s (some (c ∷ cs)) ≡ (inr (i, created), s')
    → ((first_below (named s.mq_pool (c ∷ cs)) mq_queues_max ≡ some i)
        × (s'.mq_pool
            ≡ update s.mq_pool i
                (record (s.mq_pool i) { handles = add32 (s.mq_pool i).handles 1 })))
      ⊎ ((first_below (named s.mq_pool (c ∷ cs)) mq_queues_max ≡ none)
          × (first_below (is_free s.mq_pool) mq_queues_max ≡ some i)
          × (s'.mq_pool ≡ update s.mq_pool i (new_queue (c ∷ cs))))
unfolding mq_open
open-cases s s' c cs i created e =
    elim (Option-cases (first_below (named s.mq_pool (c ∷ cs)) mq_queues_max)) [
      | inr (j, found) ↦ inl (ground (arith, e, found))
      | inl none_named ↦ elim (Option-cases (first_below (is_free s.mq_pool) mq_queues_max)) [
        | inl full ↦ absurd (ground (arith, e, none_named, full))
        | inr (j, free) ↦ inr (ground (arith, e, none_named, free))
      ]
    ]

-- A name of 1 to 23 characters that `mq_open` has opened is found again: the next call returns the
-- same queue, as one that is not new, and counts one handle more.
pub mq_open-again :
    (s s' : Ipc) (c : ℕ) (cs : List ℕ) (i : ℕ) (created : Bool)
    → length (c ∷ cs) < mq_name_max
    → mq_open s (some (c ∷ cs)) ≡ (inr (i, created), s')
    → ((mq_open s' (some (c ∷ cs))).0 ≡ inr (i, false))
      × (((mq_open s' (some (c ∷ cs))).1.mq_pool i).handles ≡ add32 (s'.mq_pool i).handles 1)
unfolding mq_open
mq_open-again s s' c cs i created short e =
    let found = finds (open-cases s s' c cs i created e) in
    (ground (arith, found), ground (arith, found))
  where
    name : List ℕ
    name = c ∷ cs

    finds :
        ((first_below (named s.mq_pool name) mq_queues_max ≡ some i)
            × (s'.mq_pool
                ≡ update s.mq_pool i
                    (record (s.mq_pool i) { handles = add32 (s.mq_pool i).handles 1 })))
          ⊎ ((first_below (named s.mq_pool name) mq_queues_max ≡ none)
              × (first_below (is_free s.mq_pool) mq_queues_max ≡ some i)
              × (s'.mq_pool ≡ update s.mq_pool i (new_queue name)))
        → first_below (named s'.mq_pool name) mq_queues_max ≡ some i
    finds (inl (q, same)) =
        let at =
          subst (IsFirst (named s.mq_pool name) mq_queues_max) q
            (first_below-IsFirst (named s.mq_pool name) mq_queues_max) in
        rw same (found_again s.mq_pool _ name i at.0 at.1 at.2)
    finds (inr (q, free, same)) =
        let none_named =
          subst (IsFirst (named s.mq_pool name) mq_queues_max) q
            (first_below-IsFirst (named s.mq_pool name) mq_queues_max) in
        let at =
          subst (IsFirst (is_free s.mq_pool) mq_queues_max) free
            (first_below-IsFirst (is_free s.mq_pool) mq_queues_max) in
        rw same (
          found_again s.mq_pool (new_queue name) name i at.0
            (same_name-take (mq_name_max - 1) name (omega arith))
            (λ j below. none_named j (omega (arith, at.0))))
