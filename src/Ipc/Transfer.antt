-- ===== src/Ipc/Transfer.antt =====
-- One turn of a send and of a receive: the message, and whom it wakes.
use mobile_phone_os.Prelude.{
  ℕ, suc, ◌+◌, ◌-◌, ◌%◌, ◌^◌, ◌≤◌, ◌<◌, ◌≡◌, ◌≢◌, refl, sym, ap, ◌∙◌, true, false, ◌||◌, Option,
  none, some, List, [], ◌∷◌, ◌++◌, arith, zero, take, length, update, ◌==◌, if◌then◌else◌, ltb,
  Bool-cases, inl, inr, min, subst,
}
use mobile_phone_os.Task.{Task, Kernel, max_tasks}
use mobile_phone_os.Task.Queue.{has, Chain, Distinct, Chain-frame}
use mobile_phone_os.Task.Wake.{WokenTask, Swept, sweep, sweep-Swept}
use mobile_phone_os.Ring.{read_seg}
use mobile_phone_os.Ipc.{
  Ipc, Mqueue, mq_depth, mq_msg_max, enqueue, dequeue, ipc_wake, ipc_wake_pollers, done,
  mq_send_turn, mq_receive_turn,
}
use mobile_phone_os.Ipc.Wake.{ipc_wake-sweep}
use mobile_phone_os.Ipc.Messages.{IsValid, message, messages, enqueue-messages, dequeue-messages}

-- The tasks `xs` are linked from `head`, and `ps` poll; no task does both.
pub record Parked (s : Ipc) (head : Option ℕ) (xs ps : List ℕ) : Type 0 where
  pub chain : Chain s.kernel.tasks head xs
  pub polling : Chain s.kernel.tasks s.poll_wq ps
  pub distinct : Distinct xs × Distinct ps
  pub disjoint : (i : ℕ) → has i ps ≡ true → has i xs ≡ false
  pub few : (length xs ≤ max_tasks) × (length ps ≤ max_tasks)

-- All of `xs` and `ps` have been unlinked and readied, save the dead ones, and no other task changed.
pub record AllWoken (ts ts' : ℕ → Task) (xs ps : List ℕ) : Type 0 where
  pub members : (i : ℕ) → (has i xs || has i ps) ≡ true → WokenTask (ts i) (ts' i)
  pub others : (i : ℕ) → (has i xs || has i ps) ≡ false → ts' i ≡ ts i

module _ (s : Ipc) (head : Option ℕ) (xs ps : List ℕ) (p : Parked s head xs ps) where
  abbrev pub both : Kernel
  both = sweep (sweep s.kernel xs) ps

  first : Swept s.kernel.tasks (sweep s.kernel xs).tasks xs
  first = sweep-Swept s.kernel xs p.distinct.0

  second : Swept (sweep s.kernel xs).tasks both.tasks ps
  second = sweep-Swept (sweep s.kernel xs) ps p.distinct.1

  pub woken : AllWoken s.kernel.tasks both.tasks xs ps
  woken = record {
    members = λ i m. elim (Bool-cases (has i ps)) [
      | inl in_ps ↦
          subst (λ (t : Task). WokenTask t (both.tasks i)) (first.others i (p.disjoint i in_ps))
            (second.members i in_ps)
      | inr out ↦
          subst (λ (t : Task). WokenTask (s.kernel.tasks i) t) (sym (second.others i out))
            (first.members i (ground (arith, m, out)))
    ];
    others = λ i m. second.others i (ground (arith, m)) ∙ first.others i (ground (arith, m));
  }

  pub wake_queue : ipc_wake s.kernel head ≡ some (sweep s.kernel xs)
  wake_queue = ipc_wake-sweep s.kernel head xs p.chain p.distinct.0 p.few.0

  pub wake_polls : ipc_wake (sweep s.kernel xs) s.poll_wq ≡ some both
  wake_polls =
      ipc_wake-sweep (sweep s.kernel xs) s.poll_wq ps
        (Chain-frame s.kernel.tasks (sweep s.kernel xs).tasks s.poll_wq ps
          (λ i m. ap (λ (t : Task). t.wq_next) (first.others i (p.disjoint i m))) p.polling)
        p.distinct.1 p.few.1

-- The message has gone in, and the receivers and pollers have been woken.
pub record SentTo (s s' : Ipc) (id : ℕ) (buf rs ps : List ℕ) : Type 0 where
  pub valid : IsValid (s'.mq_pool id)
  pub messages : messages (s'.mq_pool id) ≡ messages (s.mq_pool id) ++ buf ∷ []
  pub others : (j : ℕ) → j ≢ id → s'.mq_pool j ≡ s.mq_pool j
  pub woken : AllWoken s.kernel.tasks s'.kernel.tasks rs ps
  pub empty : ((s'.mq_pool id).rq ≡ none) × (s'.poll_wq ≡ none)

-- Where a queue has room, a turn of a send ends; it puts the message behind those in the queue and
-- returns its length. The tasks that wait to receive and those that poll, if no task does both,
-- are unlinked and, save the dead ones, ready; no other task changes, and no other queue.
pub mq_send_turn-SentTo :
    (s : Ipc) (id me : ℕ) (buf rs ps : List ℕ)
    → IsValid (s.mq_pool id)
    → (s.mq_pool id).count < mq_depth
    → length buf ≤ mq_msg_max
    → Parked s (s.mq_pool id).rq rs ps
    → (s' : Ipc) × (mq_send_turn s id me buf ≡ some (done (length buf), s'))
      × SentTo s s' id buf rs ps
unfolding mq_send_turn ipc_wake_pollers
mq_send_turn-SentTo s id me buf rs ps v room fits p =
    let lt : ltb q.count mq_depth ≡ true = ground (arith, room) in
    (
      s',
      rw (lt, wake_queue s q.rq rs ps p, wake_polls s q.rq rs ps p) refl,
      record {
        valid = rw here (record { head = valid.head; count = valid.count });
        messages = rw here moved;
        others = λ j ne. ground arith;
        woken = woken s q.rq rs ps p;
        empty = (rw here refl, refl);
      },
    )
  where
    q : Mqueue
    q = s.mq_pool id

    q' : Mqueue
    q' = record (enqueue q buf) { inflight = q.inflight - 1; rq = none }

    s' : Ipc
    s' = record s {
      kernel = both s q.rq rs ps p;
      poll_wq = none;
      wakes = (s.wakes + 1) % 2 ^ 64;
      mq_pool = update s.mq_pool id q';
    }

    here : s'.mq_pool id ≡ q'
    here = ground arith

    valid : IsValid (enqueue q buf)
    valid = (enqueue-messages q v buf room fits).0

    moved : messages (enqueue q buf) ≡ messages q ++ buf ∷ []
    moved = (enqueue-messages q v buf room fits).1

-- The first message has come out, and the senders and pollers have been woken.
pub record Received (s s' : Ipc) (id : ℕ) (buflen : ℕ) (bytes : List ℕ) (mlen : ℕ) (ss ps : List ℕ)
    : Type 0 where
  pub valid : IsValid (s'.mq_pool id)
  pub front :
      (msg : List ℕ) × (messages (s.mq_pool id) ≡ msg ∷ messages (s'.mq_pool id))
      × (bytes ≡ take (min mlen buflen) msg)
      × (mlen ≡ length msg)
  pub others : (j : ℕ) → j ≢ id → s'.mq_pool j ≡ s.mq_pool j
  pub woken : AllWoken s.kernel.tasks s'.kernel.tasks ss ps
  pub empty : ((s'.mq_pool id).sq ≡ none) × (s'.poll_wq ≡ none)

take-read_seg : (buf : ℕ → ℕ) (i n k : ℕ) → k ≤ n → take k (read_seg buf i n) ≡ read_seg buf i k
take-read_seg buf i n zero le = refl
take-read_seg buf i zero (suc k) le = absurd (omega arith)
take-read_seg buf i (suc n) (suc k) le =
    ap (λ (xs : List ℕ). buf i ∷ xs) (take-read_seg buf (i + 1) n k (omega arith))

length-read_seg : (buf : ℕ → ℕ) (i n : ℕ) → length (read_seg buf i n) ≡ n
length-read_seg buf i zero = refl
length-read_seg buf i (suc n) = ap suc (length-read_seg buf (i + 1) n)

-- Where a queue holds a message, a turn of a receive ends; it takes the oldest message out, copies
-- as much of it as the buffer holds, from its front, and returns the length of the whole message.
-- The tasks that wait to send and those that poll, if no task does both, are unlinked and, save the
-- dead ones, ready; no other task changes, and no other queue.
pub mq_receive_turn-Received :
    (s : Ipc) (id me buflen : ℕ) (ss ps : List ℕ)
    → IsValid (s.mq_pool id)
    → 0 < (s.mq_pool id).count
    → Parked s (s.mq_pool id).sq ss ps
    → (bytes : List ℕ) × (mlen : ℕ) × (s' : Ipc) × (mq_receive_turn s id me buflen
        ≡ some (done (bytes, mlen), s'))
      × Received s s' id buflen bytes mlen ss ps
unfolding mq_receive_turn ipc_wake_pollers
mq_receive_turn-Received s id me buflen ss ps v some_left p =
    let nonzero : (q.count == 0) ≡ false = ground (arith, some_left) in
    (
      bytes,
      q.mlen q.head,
      s',
      rw (nonzero, wake_queue s q.sq ss ps p, wake_polls s q.sq ss ps p) refl,
      record {
        valid = rw here (record { head = valid.head; count = valid.count });
        front = rw here (
          message q q.head,
          moved,
          ap (λ n. read_seg (q.msgs q.head) 0 n) least
              ∙ sym (
                  take-read_seg (q.msgs q.head) 0 (q.mlen q.head) (min (q.mlen q.head) buflen)
                    (omega arith)),
          sym (length-read_seg (q.msgs q.head) 0 (q.mlen q.head)),
        );
        others = λ j ne. ground arith;
        woken = woken s q.sq ss ps p;
        empty = (rw here refl, refl);
      },
    )
  where
    q : Mqueue
    q = s.mq_pool id

    bytes : List ℕ
    bytes =
        read_seg (q.msgs q.head) 0 (if ltb (q.mlen q.head) buflen then q.mlen q.head else buflen)

    least :
        (if ltb (q.mlen q.head) buflen then q.mlen q.head else buflen) ≡ min (q.mlen q.head) buflen
    least = ground arith

    q' : Mqueue
    q' = record (dequeue q) { inflight = q.inflight - 1; sq = none }

    s' : Ipc
    s' = record s {
      kernel = both s q.sq ss ps p;
      poll_wq = none;
      wakes = (s.wakes + 1) % 2 ^ 64;
      mq_pool = update s.mq_pool id q';
    }

    here : s'.mq_pool id ≡ q'
    here = ground arith

    valid : IsValid (dequeue q)
    valid = (dequeue-messages q v some_left).0

    moved : messages q ≡ message q q.head ∷ messages (dequeue q)
    moved = (dequeue-messages q v some_left).1
