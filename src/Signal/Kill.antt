-- ===== src/Signal/Kill.antt =====
-- What becomes of pending signals: `sys_sigaction` does not let SIGCHLD be caught, and the delivery
-- lets no other signal be.
use mobile_phone_os.Prelude.{
  ℕ, zero, suc, ◌+◌, ◌≤◌, ◌<◌, ◌≡◌, ◌⊎◌, inl, inr, refl, sym, ap, ◌∙◌, subst, Bool, true, false,
  not, ◌&&◌, ◌||◌, Option, none, some, ◌==◌, if◌then◌else◌, arith, Bool-cases, Option-cases,
  eq-cases, update, first_below, IsFirst, first_below-IsFirst, IsFirst-unique, first_below-none,
  first_below-ext,
}
use native.Mathlib.Decide.{dec_lt}
use mobile_phone_os.Signal.{
  Proc, TrapFrame, Boundary, back, died, sigchld, sig_dfl, sig_ign, signal_default_fatal,
  first_pending, deliver, deliver_turn, deliver_loop, signal_deliver_pending,
}

-- SIGCHLD has no handler.
abbrev pub Catchless : Proc → Type 0
Catchless p = (p.sig_handler sigchld ≡ sig_dfl) ⊎ (p.sig_handler sigchld ≡ sig_ign)

-- The signal of bit `i` is pending and is not ignored.
abbrev pub deadly : Proc → ℕ → Bool
deadly p i = p.sig_pending i && not (p.sig_handler (i + 1) == sig_ign)

-- Without a pending signal that is not ignored the process goes on as it was, and no flag is left;
-- with one it dies of the first.
abbrev pub Ends : Proc → TrapFrame → (ℕ → ℕ) → Option ℕ → Boundary → Type 0
Ends p tf phys none b =
    (p' : Proc) × (b ≡ back p' tf phys)
    × ((i : ℕ) → i < 32 → p'.sig_pending i ≡ false)
    × (p'.sig_handler ≡ p.sig_handler)
Ends p tf phys (some i) b = (p' : Proc) × (b ≡ died p' (128 + (i + 1)))

without : Proc → ℕ → Proc
without p i = record p { sig_pending = update p.sig_pending i false }

Ends-without :
    (p : Proc) (tf : TrapFrame) (phys : ℕ → ℕ) (i : ℕ) (o : Option ℕ) (b : Boundary)
    → Ends (without p i) tf phys o b
    → Ends p tf phys o b
unfolding without
Ends-without p tf phys i none b h = h
Ends-without p tf phys i (some j) b h = h

deadly-without :
    (p : Proc) (i j : ℕ) → p.sig_handler (i + 1) ≡ sig_ign → deadly (without p i) j ≡ deadly p j
unfolding without
deadly-without p i j e = elim (eq-cases j i) [
  | inl same ↦ rw same (rw e (ground arith))
  | inr other ↦ ground (arith, other)
]

-- Without a handler for SIGCHLD each signal is ignored or deadly.
deadly-fatal :
    (p : Proc) (i : ℕ)
    → i < 32
    → Catchless p
    → (p.sig_handler (i + 1) == sig_ign) ≡ false
    → ((p.sig_handler (i + 1) == sig_dfl) || signal_default_fatal (i + 1)) ≡ true
unfolding signal_default_fatal
deadly-fatal p i lt c e = elim (eq-cases i 16) [
  | inl same ↦ elim c [
    | inl dfl ↦ rw (same, dfl) refl
    | inr ign ↦
        absurd (
          cc (sym e ∙ ap (λ k. p.sig_handler (k + 1) == sig_ign) same ∙ ap (λ h. h == sig_ign) ign))
  ]
  | inr other ↦ ground (arith, lt, other)
]

deadly-of :
    (p : Proc) (i : ℕ)
    → p.sig_pending i ≡ true
    → (p.sig_handler (i + 1) == sig_ign) ≡ false
    → deadly p i ≡ true
deadly-of p i a b = rw (a, b) refl

-- A pending flag is not among those that are clear.
clear-le :
    (p : Proc) (i j : ℕ)
    → ((k : ℕ) → k < j → p.sig_pending k ≡ false)
    → p.sig_pending i ≡ true
    → j ≤ i
clear-le p i j clear e = elim (dec_lt i j) [
  | yes lt ↦ absurd (cc (e, clear i lt))
  | no ge ↦ omega arith
]

later : (i j fuel : ℕ) → j ≤ i → 33 ≤ suc fuel + j → 33 ≤ fuel + (i + 1)
later i j fuel le h = omega arith

without-clear :
    (p : Proc) (i : ℕ)
    → ((k : ℕ) → k < i → p.sig_pending k ≡ false)
    → (k : ℕ) → k < i + 1
    → (without p i).sig_pending k ≡ false
unfolding without
without-clear p i clear k lt = elim (eq-cases k i) [
  | inl same ↦ ground (arith, same)
  | inr other ↦ ground (arith, other, clear k (omega arith))
]

without-Catchless : (p : Proc) (i : ℕ) → Catchless p → Catchless (without p i)
unfolding without
without-Catchless p i c = c

deliver_loop-none :
    (fuel : ℕ) (mem : ℕ → ℕ) (tf : TrapFrame) (phys : ℕ → ℕ) (p : Proc)
    → first_below p.sig_pending 32 ≡ none
    → deliver_loop (suc fuel) mem tf phys p ≡ back p tf phys
unfolding deliver_loop first_pending deliver_turn
deliver_loop-none fuel mem tf phys p e =
    ap (λ q. deliver_turn mem tf phys p q (deliver_loop fuel mem tf phys)) e

-- The turn that finds bit `i` pending, for a signal that is ignored and for one that is not.
deliver_turn-ignored :
    (mem : ℕ → ℕ) (tf : TrapFrame) (phys : ℕ → ℕ) (p : Proc) (i : ℕ) (rest : Proc → Boundary)
    → (p.sig_handler (i + 1) == sig_ign) ≡ true
    → deliver_turn mem tf phys p (some i) rest ≡ rest (without p i)
unfolding deliver_turn deliver without
deliver_turn-ignored mem tf phys p i rest e = rw e refl

deliver_turn-died :
    (mem : ℕ → ℕ) (tf : TrapFrame) (phys : ℕ → ℕ) (p : Proc) (i : ℕ) (rest : Proc → Boundary)
    → (p.sig_handler (i + 1) == sig_ign) ≡ false
    → ((p.sig_handler (i + 1) == sig_dfl) || signal_default_fatal (i + 1)) ≡ true
    → deliver_turn mem tf phys p (some i) rest ≡ died (without p i) (128 + (i + 1))
unfolding deliver_turn deliver without
deliver_turn-died mem tf phys p i rest e f = rw (e, f) refl

deliver_loop-turn :
    (fuel : ℕ) (mem : ℕ → ℕ) (tf : TrapFrame) (phys : ℕ → ℕ) (p : Proc) (o : Option ℕ)
    → first_below p.sig_pending 32 ≡ o
    → deliver_loop (suc fuel) mem tf phys p
      ≡ deliver_turn mem tf phys p o (deliver_loop fuel mem tf phys)
unfolding deliver_loop first_pending
deliver_loop-turn fuel mem tf phys p o e =
    ap (λ q. deliver_turn mem tf phys p q (deliver_loop fuel mem tf phys)) e

deliver_loop-Ends :
    (fuel j : ℕ) (mem : ℕ → ℕ) (tf : TrapFrame) (phys : ℕ → ℕ) (p : Proc)
    → j ≤ 32
    → 33 ≤ fuel + j
    → ((i : ℕ) → i < j → p.sig_pending i ≡ false)
    → Catchless p
    → Ends p tf phys (first_below (deadly p) 32) (deliver_loop fuel mem tf phys p)
deliver_loop-Ends zero j mem tf phys p le enough clear c = absurd (omega arith)
deliver_loop-Ends (suc fuel) j mem tf phys p le enough clear c =
    elim (Option-cases (first_below p.sig_pending 32)) [
      | inl e ↦
          let none_left : (i : ℕ) → i < 32 → p.sig_pending i ≡ false =
            subst (IsFirst p.sig_pending 32) e (first_below-IsFirst p.sig_pending 32) in
          rw
            (first_below-none (deadly p) 32
              (λ i lt. ap (λ b. b && not (p.sig_handler (i + 1) == sig_ign)) (none_left i lt)))
            (p, deliver_loop-none fuel mem tf phys p e, none_left, refl)
      | inr e ↦
          let i = e.0 in
          let f : IsFirst p.sig_pending 32 (some i) =
            subst (IsFirst p.sig_pending 32) e.1 (first_below-IsFirst p.sig_pending 32) in
          let turn : deliver_loop (suc fuel) mem tf phys p
              ≡ deliver_turn mem tf phys p (some i) (deliver_loop fuel mem tf phys) =
            deliver_loop-turn fuel mem tf phys p (some i) e.1 in
          elim (Bool-cases (p.sig_handler (i + 1) == sig_ign)) [
            | inl ign ↦
                let ign' : p.sig_handler (i + 1) ≡ sig_ign = ground (arith, ign) in
                let r : Ends (without p i) tf phys (first_below (deadly (without p i)) 32)
                    (deliver_loop fuel mem tf phys (without p i)) =
                  deliver_loop-Ends fuel (i + 1) mem tf phys (without p i) (omega (arith, f.0))
                    (later i j fuel (clear-le p i j clear f.1) enough) (without-clear p i f.2)
                    (without-Catchless p i c) in
                Ends-without p tf phys i (first_below (deadly p) 32)
                  (deliver_loop (suc fuel) mem tf phys p)
                  (subst (Ends (without p i) tf phys (first_below (deadly p) 32))
                    (sym (
                      turn
                      ∙ deliver_turn-ignored mem tf phys p i (deliver_loop fuel mem tf phys) ign))
                    (subst
                      (λ o.
                        Ends (without p i) tf phys o (deliver_loop fuel mem tf phys (without p i)))
                      (first_below-ext (deadly (without p i)) (deadly p) 32
                        (λ k. deadly-without p i k ign'))
                      r))
            | inr act ↦
                let deadly_i : deadly p i ≡ true = deadly-of p i f.1 act in
                let first : first_below (deadly p) 32 ≡ some i =
                  IsFirst-unique (deadly p) 32 i (first_below (deadly p) 32)
                    (
                      f.0,
                      deadly_i,
                      λ k lt. ap (λ b. b && not (p.sig_handler (k + 1) == sig_ign)) (f.2 k lt),
                    )
                    (first_below-IsFirst (deadly p) 32) in
                rw first (
                  without p i,
                  turn
                      ∙ deliver_turn-died mem tf phys p i (deliver_loop fuel mem tf phys) act
                          (deadly-fatal p i f.0 c act),
                )
          ]
    ]

-- The loop runs for a process that is alive.
signal_deliver_pending-loop :
    (p : Proc) (mem : ℕ → ℕ) (tf : TrapFrame) (phys : ℕ → ℕ)
    → p.alive ≡ true
    → signal_deliver_pending mem p tf phys ≡ deliver_loop 33 mem tf phys p
unfolding signal_deliver_pending
signal_deliver_pending-loop p mem tf phys alive =
    ap (λ b. if not b then back p tf phys else deliver_loop 33 mem tf phys p) alive

pub signal_deliver_pending-Ends :
    (p : Proc) (mem : ℕ → ℕ) (tf : TrapFrame) (phys : ℕ → ℕ)
    → Catchless p
    → p.alive ≡ true
    → Ends p tf phys (first_below (deadly p) 32) (signal_deliver_pending mem p tf phys)
signal_deliver_pending-Ends p mem tf phys c alive =
    subst (Ends p tf phys (first_below (deadly p) 32))
      (sym (signal_deliver_pending-loop p mem tf phys alive))
      (deliver_loop-Ends 33 0 mem tf phys p (omega arith) (omega arith)
        (λ i lt. absurd (omega arith)) c)
