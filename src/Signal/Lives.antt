-- ===== src/Signal/Lives.antt =====
-- The handlers of a process through its life.
use mobile_phone_os.Prelude.{
  ℕ, ◌≡◌, inl, inr, sym, ap, ◌∙◌, true, false, not, Option, none, some, if◌then◌else◌, arith,
  Bool-cases, first_below,
}
use mobile_phone_os.Signal.{
  Proc, TrapFrame, Boundary, back, sigchld, sig_dfl, deliver_loop, signal_deliver_pending,
  sys_sigaction, proc_do_kill,
}
use mobile_phone_os.Signal.Kill.{Catchless, deadly, Ends, signal_deliver_pending-Ends}

-- The life of a process as far as its handlers go: it begins and execs with none, its child inherits
-- them, it sets some and others send it signals, and it passes boundaries.
pub data Lives : Proc → Type 0 where
  born : (p : Proc) → ((sig : ℕ) → p.sig_handler sig ≡ sig_dfl) → Lives p
  forked : (p child : Proc) → child.sig_handler ≡ p.sig_handler → Lives p → Lives child
  acted : (p : Proc) (sig handler : ℕ) → Lives p → Lives (sys_sigaction p sig handler).1
  killed : (p : Proc) (sig : ℕ) → Lives p → Lives (proc_do_kill p sig).1
  passed :
      (p p' : Proc) (mem : ℕ → ℕ) (tf tf' : TrapFrame) (phys phys' : ℕ → ℕ)
      → signal_deliver_pending mem p tf phys ≡ back p' tf' phys'
      → Lives p
      → Lives p'

back_inj :
    {p q : Proc} {tf tf' : TrapFrame} {phys phys' : ℕ → ℕ}
    → back p tf phys ≡ back q tf' phys'
    → p ≡ q
back_inj e = cc

Ends-handler :
    (p p' : Proc) (tf tf' : TrapFrame) (phys phys' : ℕ → ℕ) (o : Option ℕ) (b : Boundary)
    → Ends p tf phys o b
    → b ≡ back p' tf' phys'
    → p'.sig_handler ≡ p.sig_handler
Ends-handler p p' tf tf' phys phys' none b h e =
    ap (λ (q : Proc). q.sig_handler) (sym (back_inj (sym h.1 ∙ e))) ∙ h.3
Ends-handler p p' tf tf' phys phys' (some i) b h e = absurd (cc (sym h.1 ∙ e))

signal_deliver_pending-dead :
    (p : Proc) (mem : ℕ → ℕ) (tf : TrapFrame) (phys : ℕ → ℕ) {b : Boundary}
    → p.alive ≡ false
    → signal_deliver_pending mem p tf phys ≡ b
    → back p tf phys ≡ b
unfolding signal_deliver_pending
signal_deliver_pending-dead p mem tf phys dead e =
    sym (ap (λ q. if not q then back p tf phys else deliver_loop 33 mem tf phys p) dead) ∙ e

passed-handler :
    (p p' : Proc) (mem : ℕ → ℕ) (tf tf' : TrapFrame) (phys phys' : ℕ → ℕ)
    → signal_deliver_pending mem p tf phys ≡ back p' tf' phys'
    → Catchless p
    → p'.sig_handler ≡ p.sig_handler
unfolding signal_deliver_pending
passed-handler p p' mem tf tf' phys phys' e c = elim (Bool-cases p.alive) [
  | inl alive ↦
      Ends-handler p p' tf tf' phys phys' (first_below (deadly p) 32)
        (signal_deliver_pending mem p tf phys) (signal_deliver_pending-Ends p mem tf phys c alive) e
  | inr dead ↦
      ap (λ (q : Proc). q.sig_handler)
        (sym (back_inj (signal_deliver_pending-dead p mem tf phys dead e)))
]

Catchless-same : (p q : Proc) → q.sig_handler ≡ p.sig_handler → Catchless p → Catchless q
Catchless-same p q e c = rw e c

sys_sigaction-handler :
    (p : Proc) (sig handler : ℕ)
    → (sys_sigaction p sig handler).1.sig_handler sigchld ≡ p.sig_handler sigchld
unfolding sys_sigaction
sys_sigaction-handler p sig handler = ground arith

proc_do_kill-handler : (p : Proc) (sig : ℕ) → (proc_do_kill p sig).1.sig_handler ≡ p.sig_handler
unfolding proc_do_kill
proc_do_kill-handler p sig = ground arith

Lives-Catchless : {p : Proc} → Lives p → Catchless p
Lives-Catchless (born p h) = inl (h sigchld)
Lives-Catchless (forked p child e l) = Catchless-same p child e (Lives-Catchless l)
Lives-Catchless (acted p sig handler l) =
    rw (sys_sigaction-handler p sig handler) (Lives-Catchless l)
Lives-Catchless (killed p sig l) =
    Catchless-same p (proc_do_kill p sig).1 (proc_do_kill-handler p sig) (Lives-Catchless l)
Lives-Catchless (passed p p' mem tf tf' phys phys' e l) =
    Catchless-same p p' (passed-handler p p' mem tf tf' phys phys' e (Lives-Catchless l))
      (Lives-Catchless l)

-- However a live process has set its handlers, a boundary never enters one of them. If every pending
-- signal is ignored, the process goes on with its registers as they were and no signal is left; else
-- it dies, with 128 and the number of the first pending signal that is not ignored.
pub Lives-unhandled :
    (p : Proc) (mem : ℕ → ℕ) (tf : TrapFrame) (phys : ℕ → ℕ)
    → Lives p
    → p.alive ≡ true
    → Ends p tf phys (first_below (deadly p) 32) (signal_deliver_pending mem p tf phys)
Lives-unhandled p mem tf phys l alive =
    signal_deliver_pending-Ends p mem tf phys (Lives-Catchless l) alive
