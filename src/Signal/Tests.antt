-- ===== src/Signal/Tests.antt =====
-- The sample process and its signals.
use mobile_phone_os.Prelude.{ℕ, ◌+◌, ◌≡◌, refl, true, false, update, first_below}
use mobile_phone_os.Vmm.Samples.{tables, code_base}
use mobile_phone_os.Signal.{
  Proc, TrapFrame, died, first_pending, deliver, deliver_turn, deliver_loop, signal_deliver_pending,
  proc_sigreturn, sigsegv, sys_sigaction, proc_do_kill,
}
use mobile_phone_os.Signal.Kill.{deadly, Ends}
use mobile_phone_os.Signal.Lives.{born, acted, killed, Lives-unhandled}

abbrev fresh : Proc
fresh = record {
  alive = true;
  root_pa = 4096;
  sig_pending = λ i. false;
  in_signal = false;
  sigframe_va = 0;
  sig_handler = λ sig. 0;
}

abbrev user : TrapFrame
user = record { regs = λ r. r + 100; sp = code_base + 2048; elr = code_base; spsr = 0 }

abbrev empty : ℕ → ℕ
empty a = 0

-- A handler is set for SIGUSR1, which then arrives.
abbrev signalled : Proc
signalled = (proc_do_kill (sys_sigaction fresh 10 code_base).1 10).1

signalled_dies :
    signal_deliver_pending tables signalled user empty
    ≡ died (record signalled { sig_pending = update signalled.sig_pending 9 false }) 138
unfolding signal_deliver_pending deliver_loop deliver_turn deliver first_pending proc_do_kill
    sys_sigaction
signalled_dies = refl

Lives-unhandled_example :
    Ends signalled user empty
      (first_below (deadly signalled) 32)
      (signal_deliver_pending tables signalled user empty)
unfolding proc_do_kill sys_sigaction
Lives-unhandled_example =
    Lives-unhandled signalled tables user empty
      (killed (sys_sigaction fresh 10 code_base).1 10
        (acted fresh 10 code_base (born fresh (λ sig. refl))))
      refl

-- SYS_SIGRETURN outside of a handler.
strays : proc_sigreturn tables fresh empty empty ≡ died fresh (128 + sigsegv)
unfolding proc_sigreturn
strays = refl
