-- ===== src/Ipc/Messages.antt =====
-- What a message queue holds: its messages, the oldest first.
use mobile_phone_os.Prelude.{
  ℕ, suc, ◌+◌, ◌-◌, ◌%◌, ◌≤◌, ◌<◌, ◌≡◌, refl, sym, ap, ◌∙◌, List, [], ◌∷◌, ◌++◌, arith, length,
  update, ◌==◌, add32, eq-cases, inl, inr, true, false,
}
use native.Mathlib.Nat.{mod-eq_of_lt, mod-lt}
use mobile_phone_os.Ring.{read_seg, write_seg}
use mobile_phone_os.Ring.Window.{window, window-update, window-same}
use mobile_phone_os.Ipc.{Mqueue, mq_depth, mq_msg_max, enqueue, dequeue}

-- The message in a slot.
abbrev pub message : Mqueue → ℕ → List ℕ
message q i = read_seg (q.msgs i) 0 (q.mlen i)

abbrev pub messages : Mqueue → List (List ℕ)
messages q = window (message q) mq_depth q.head q.count

pub record IsValid (q : Mqueue) : Type 0 where
  pub head : q.head < mq_depth
  pub count : q.count ≤ mq_depth

write_seg-before : (buf : ℕ → ℕ) (i j : ℕ) (xs : List ℕ) → j < i → write_seg buf i xs j ≡ buf j
write_seg-before buf i j [] lt = refl
write_seg-before buf i j (x ∷ xs) lt =
    write_seg-before (update buf i x) (i + 1) j xs (omega arith) ∙ ground arith

-- What has been copied in is what is copied out.
read_seg-write_seg :
    (buf : ℕ → ℕ) (i : ℕ) (xs : List ℕ) → read_seg (write_seg buf i xs) i (length xs) ≡ xs
read_seg-write_seg buf i [] = refl
read_seg-write_seg buf i (x ∷ xs) =
    ap (λ b. b ∷ read_seg (write_seg (update buf i x) (i + 1) xs) (i + 1) (length xs))
      (write_seg-before (update buf i x) (i + 1) i xs (omega arith) ∙ ground arith)
    ∙ ap (λ ys. x ∷ ys) (read_seg-write_seg (update buf i x) (i + 1) xs)

module _ (q : Mqueue) (v : IsValid q) where
  pub enqueue-messages :
      (buf : List ℕ)
      → q.count < mq_depth
      → length buf ≤ mq_msg_max
      → IsValid (enqueue q buf) × (messages (enqueue q buf) ≡ messages q ++ buf ∷ [])
  enqueue-messages buf room fits = (
    record { head = v.head; count = omega (arith, more) },
    ap (λ n. window (message (enqueue q buf)) mq_depth q.head n) more
        ∙ window-same (message (enqueue q buf)) (update (message q) tail buf) mq_depth q.head
            (suc q.count) slots
        ∙ ap (λ i. window (update (message q) i buf) mq_depth q.head (suc q.count)) place
        ∙ window-update (message q) mq_depth q.head q.count buf v.head room,
  )
    where
      tail : ℕ
      tail = add32 q.head q.count % mq_depth

      more : add32 q.count 1 ≡ suc q.count
      more = omega arith

      place : tail ≡ (q.head + q.count) % mq_depth
      place = ap (λ i. i % mq_depth) (mod-eq_of_lt (omega (arith, v.head)))

      slots : (i : ℕ) → message (enqueue q buf) i ≡ update (message q) tail buf i
      slots i = elim (eq-cases i tail) [
        | inl e ↦
            let same : (i == tail) ≡ true = ground (arith, e) in
            rw same (
              ap (λ n. read_seg (write_seg (q.msgs tail) 0 buf) 0 n) (mod-eq_of_lt (omega arith))
              ∙ read_seg-write_seg (q.msgs tail) 0 buf)
        | inr ne ↦ let diff : (i == tail) ≡ false = ground (arith, ne) in rw diff refl
      ]

  pub dequeue-messages :
      0 < q.count → IsValid (dequeue q) × (messages q ≡ message q q.head ∷ messages (dequeue q))
  dequeue-messages some_left = (
    record { head = mod-lt _ (omega arith); count = omega (arith, v.count) },
    ap (λ n. window (message q) mq_depth q.head n)
          (let e : q.count ≡ suc (q.count - 1) = omega arith in e)
        ∙ ap (λ h. message q q.head ∷ window (message q) mq_depth h (q.count - 1))
            (sym (ap (λ i. i % mq_depth) (mod-eq_of_lt (omega (arith, v.head))))),
  )
