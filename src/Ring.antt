-- ===== src/Ring.antt =====
-- Byte rings read and written in contiguous segments, as include/ipc_ring.h and the pipes of
-- kernel/ipc.c do.
pub mod Window
pub mod Refine
pub mod Fill
mod Tests
use mobile_phone_os.Prelude.{
  ℕ, zero, suc, ◌+◌, ◌-◌, ◌%◌, ◌^◌, Bool, true, false, Option, none, some, List, [], ◌∷◌, ◌++◌, ltb,
  leb, ◌==◌, update, add32, if◌then◌else◌, length, take, drop, min,
}

-- `struct ipc_ring`; the buffer is a memory of bytes, indexed from `buf`.
pub record IpcRing : Type 0 where
  pub buf : ℕ → ℕ
  pub cap : ℕ
  pub head : ℕ
  pub len : ℕ

-- The `n` bytes from index `i` on, which `memcpy` moves out.
abbrev pub read_seg : (ℕ → ℕ) → ℕ → ℕ → List ℕ
read_seg buf i zero = []
read_seg buf i (suc n) = buf i ∷ read_seg buf (i + 1) n

-- The buffer after `memcpy` has moved `xs` in from index `i` on.
abbrev pub write_seg : (ℕ → ℕ) → ℕ → List ℕ → (ℕ → ℕ)
write_seg buf i [] = buf
write_seg buf i (x ∷ xs) = write_seg (update buf i x) (i + 1) xs

pub used : IpcRing → ℕ
used r = r.len

pub free : IpcRing → ℕ
free r = r.cap - r.len

-- The bytes of one turn come before those of the turns that follow.
abbrev pub prepend : List ℕ → Option (List ℕ × IpcRing) → Option (List ℕ × IpcRing)
prepend xs none = none
prepend xs (some (ys, r)) = some (xs ++ ys, r)

-- The loop of `ipc_ring_pull` with `n` bytes to go; `none` means that the fuel ran out.
pub pull_loop : ℕ → IpcRing → ℕ → Option (List ℕ × IpcRing)
pull_loop fuel r zero = some ([], r)
pull_loop zero r (suc n) = none
pull_loop (suc fuel) r (suc n) =
    let seg = min (r.cap - r.head) (suc n) in
    prepend (read_seg r.buf r.head seg)
      (pull_loop fuel (record r { head = add32 r.head seg % r.cap }) (suc n - seg))

-- `r->len -= done`
abbrev pub shorten : ℕ → Option (List ℕ × IpcRing) → Option (List ℕ × IpcRing)
shorten len none = none
shorten len (some (bytes, r)) = some (bytes, record r { len = len })

-- `ipc_ring_pull`: the bytes moved, whose number it returns.
pub pull : IpcRing → ℕ → Option (List ℕ × IpcRing)
unfolding pull_loop
pull r n = let m = if ltb r.len n then r.len else n in shorten (r.len - m) (pull_loop m r m)

-- The loop of `ipc_ring_push` over the bytes to go.
unfoldable pub push_loop : ℕ → IpcRing → List ℕ → Option IpcRing
push_loop fuel r [] = some r
push_loop zero r (x ∷ xs) = none
push_loop (suc fuel) r (x ∷ xs) =
    let tail = add32 r.head r.len % r.cap in
    let seg = min (r.cap - tail) (length (x ∷ xs)) in
    push_loop fuel
      (record r { buf = write_seg r.buf tail (take seg (x ∷ xs)); len = add32 r.len seg })
      (drop seg (x ∷ xs))

abbrev pub counted : ℕ → Option IpcRing → Option (ℕ × IpcRing)
counted m none = none
counted m (some r) = some (m, r)

-- `ipc_ring_push`: how many bytes fit, and the ring that holds them.
pub push : IpcRing → List ℕ → Option (ℕ × IpcRing)
unfolding push_loop
push r src =
    let m = if ltb (free r) (length src) then free r else length src in
    counted m (push_loop m r (take m src))
