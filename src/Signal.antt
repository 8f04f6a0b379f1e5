-- ===== src/Signal.antt =====
-- kernel/signal.c: the delivery of signals at the way back to a process, and the return from a
-- handler; with sys_sigaction of kernel/syscall.c, the only writer of the handlers but for exec and
-- fork. The flags of `sig_pending` are a function from bit numbers; the signal of bit `i` is `i + 1`.
pub mod Kill
pub mod Lives
mod Tests
use mobile_phone_os.Prelude.{
  ℕ, zero, suc, ◌+◌, ◌-◌, ◌*◌, ◌/◌, ◌%◌, ◌^◌, Bool, true, false, not, ◌&&◌, ◌||◌, Option, none,
  some, ltb, leb, ◌==◌, if◌then◌else◌, update, ℤ, pos, negsuc, add64, first_below,
}
use mobile_phone_os.Uaccess.{uacc_copy_in, uacc_copy_out}

-- The fields of `struct proc` that signals are about.
pub record Proc : Type 0 where
  pub alive : Bool
  pub root_pa : ℕ
  pub sig_pending : ℕ → Bool
  pub in_signal : Bool
  pub sigframe_va : ℕ
  pub sig_handler : ℕ → ℕ

pub record TrapFrame : Type 0 where
  pub regs : ℕ → ℕ
  pub sp : ℕ
  pub elr : ℕ
  pub spsr : ℕ

abbrev pub nsig : ℕ
nsig = 32

abbrev pub sigkill : ℕ
sigkill = 9

abbrev pub sigsegv : ℕ
sigsegv = 11

abbrev pub sigchld : ℕ
sigchld = 17

abbrev pub sig_dfl : ℕ
sig_dfl = 0

abbrev pub sig_ign : ℕ
sig_ign = 1

abbrev pub einval : ℤ
einval = negsuc 21

abbrev pub sigframe_magic : ℕ
sigframe_magic = 0x47465653

-- The size of `struct sigframe`: 35 words.
abbrev pub sigframe_size : ℕ
sigframe_size = 280

unfoldable pub signal_default_fatal : ℕ → Bool
signal_default_fatal sig = if (sig == 0) || leb nsig sig then true else not (sig == sigchld)

-- `first_pending`, as a bit number.
unfoldable pub first_pending : (ℕ → Bool) → Option ℕ
unfolding first_below
first_pending mask = first_below mask 32

-- The words of the frame that holds the state `tf`.
abbrev pub frame_word : TrapFrame → ℕ → ℕ
frame_word tf j =
    if j == 0
    then sigframe_magic
    else if leb j 31
    then tf.regs (j - 1)
    else if j == 32
    then tf.sp
    else if j == 33
    then tf.elr
    else tf.spsr

-- The bytes of a sequence of words.
abbrev pub bytes_of : (ℕ → ℕ) → ℕ → ℕ
bytes_of word i = word (i / 8) / 256 ^ (i % 8) % 256

-- The word at an index of a buffer of bytes.
abbrev pub word_at : (ℕ → ℕ) → ℕ → ℕ
word_at buf j =
    buf (8 * j)
    + 256 * buf (8 * j + 1)
    + 256 ^ 2 * buf (8 * j + 2)
    + 256 ^ 3 * buf (8 * j + 3)
    + 256 ^ 4 * buf (8 * j + 4)
    + 256 ^ 5 * buf (8 * j + 5)
    + 256 ^ 6 * buf (8 * j + 6)
    + 256 ^ 7 * buf (8 * j + 7)

-- `sig_tramp` as one word: `movz w8, #SYS_sigreturn` and `svc #0`.
abbrev pub sig_tramp : ℕ → ℕ
sig_tramp j = 0xd2800008 + 9 * 2 ^ 5 + 2 ^ 32 * 0xd4000001

-- `ALIGN_DOWN(tf->sp - sizeof(struct sigframe), 16)`
abbrev pub frame_place : ℕ → ℕ
frame_place sp =
    (sp + (2 ^ 64 - sigframe_size)) % 2 ^ 64 - (sp + (2 ^ 64 - sigframe_size)) % 2 ^ 64 % 16

-- How a boundary is left: back to the process, or never, since the process has died with this code.
-- `stuck` means that the fuel ran out.
pub data Boundary : Type 0 where
  back : Proc → TrapFrame → (ℕ → ℕ) → Boundary
  died : Proc → ℕ → Boundary
  stuck : Boundary

-- The registers on entry to the handler.
abbrev pub entered : TrapFrame → (sig h frame_va : ℕ) → TrapFrame
entered tf sig h frame_va = record {
  regs = λ r.
      if r == 0
      then sig
      else if leb r 17
      then 0
      else if r == 30
      then add64 frame_va sigframe_size
      else tf.regs r;
  sp = frame_va;
  elr = h;
  spsr = tf.spsr;
}

-- The copy of the trampoline behind the frame, and the entry to the handler.
abbrev pub tramp_written : Proc → TrapFrame → (sig h : ℕ) → Option (ℤ × (ℕ → ℕ)) → Boundary
tramp_written p tf sig h none = stuck
tramp_written p tf sig h (some (negsuc e, phys)) = died p (128 + sigsegv)
tramp_written p tf sig h (some (pos r, phys)) =
    back (record p { in_signal = true; sigframe_va = frame_place tf.sp })
      (entered tf sig h (frame_place tf.sp)) phys

abbrev pub frame_written :
    (ℕ → ℕ) → Proc → TrapFrame → (sig h : ℕ) → Option (ℤ × (ℕ → ℕ)) → Boundary
frame_written mem p tf sig h none = stuck
frame_written mem p tf sig h (some (negsuc e, phys)) = died p (128 + sigsegv)
frame_written mem p tf sig h (some (pos r, phys)) = tramp_written p tf sig h (
    uacc_copy_out mem phys p.root_pa (add64 (frame_place tf.sp) sigframe_size) (bytes_of sig_tramp)
      8)

-- The turn of the loop that finds bit `i` pending; `rest` is the next turn.
unfoldable pub deliver :
    (ℕ → ℕ) → Proc → TrapFrame → (ℕ → ℕ) → (i : ℕ) → (Proc → Boundary) → Boundary
unfolding signal_default_fatal
deliver mem p tf phys i rest =
    let p' = record p { sig_pending = update p.sig_pending i false } in
    let h = p.sig_handler (i + 1) in
    if h == sig_ign
    then rest p'
    else if (h == sig_dfl) || signal_default_fatal (i + 1)
    then died p' (128 + (i + 1))
    else if p.in_signal
    then back (record p' { sig_pending = update p'.sig_pending i true }) tf phys
    else frame_written mem p' tf (i + 1) h (
        uacc_copy_out mem phys p.root_pa (frame_place tf.sp) (bytes_of (frame_word tf))
          sigframe_size)

-- A turn of the loop: `i` is the first pending bit.
unfoldable pub deliver_turn :
    (ℕ → ℕ) → TrapFrame → (ℕ → ℕ) → Proc → Option ℕ → (Proc → Boundary) → Boundary
unfolding deliver
deliver_turn mem tf phys p none rest = back p tf phys
deliver_turn mem tf phys p (some i) rest = deliver mem p tf phys i rest

-- The loop of `signal_deliver_pending`.
unfoldable pub deliver_loop : ℕ → (ℕ → ℕ) → TrapFrame → (ℕ → ℕ) → Proc → Boundary
unfolding deliver_turn first_pending
deliver_loop zero mem tf phys p = stuck
deliver_loop (suc fuel) mem tf phys p =
    deliver_turn mem tf phys p (first_pending p.sig_pending) (deliver_loop fuel mem tf phys)

-- Every turn but the last takes one of 32 flags away.
unfoldable pub signal_deliver_pending : (ℕ → ℕ) → Proc → TrapFrame → (ℕ → ℕ) → Boundary
unfolding deliver_loop
signal_deliver_pending mem p tf phys =
    if not p.alive then back p tf phys else deliver_loop 33 mem tf phys p

-- The state that a frame holds.
abbrev pub restored : (ℕ → ℕ) → TrapFrame
restored buf = record {
  regs = λ r. word_at buf (r + 1);
  sp = word_at buf 32;
  elr = word_at buf 33;
  spsr = word_at buf 34;
}

abbrev pub returned : Proc → (ℕ → ℕ) → Option (ℤ × (ℕ → ℕ)) → Boundary
returned p phys none = stuck
returned p phys (some (negsuc e, buf)) = died p (128 + sigsegv)
returned p phys (some (pos r, buf)) =
    if not (word_at buf 0 == sigframe_magic)
      || not (word_at buf 34 / 2 ^ 32 == 0)
      || not (word_at buf 34 / 4 % 4 == 0)
    then died p (128 + sigsegv)
    else back (record p { in_signal = false; sigframe_va = 0 }) (restored buf) phys

-- `buf` is what the frame on the stack of the kernel holds before.
unfoldable pub proc_sigreturn : (ℕ → ℕ) → Proc → (phys buf : ℕ → ℕ) → Boundary
proc_sigreturn mem p phys buf =
    if not p.in_signal
    then died p (128 + sigsegv)
    else returned p phys (uacc_copy_in mem phys buf p.root_pa p.sigframe_va sigframe_size)

unfoldable pub sys_sigaction : Proc → (sig handler : ℕ) → ℤ × Proc
sys_sigaction p sig handler =
    if (sig == 0) || leb nsig sig
    then (einval, p)
    else if (sig == sigkill) || (sig == sigchld)
    then (einval, p)
    else (pos 0, record p { sig_handler = update p.sig_handler sig handler })

-- `proc_do_kill` once the target is found: the result and the target.
unfoldable pub proc_do_kill : Proc → (sig : ℕ) → ℤ × Proc
proc_do_kill p sig =
    if (sig == 0) || leb nsig sig
    then (einval, p)
    else if p.alive
    then (pos 0, record p { sig_pending = update p.sig_pending (sig - 1) true })
    else (negsuc 2, p)
