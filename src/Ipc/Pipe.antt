-- ===== src/Ipc/Pipe.antt =====
-- kernel/ipc.c: pipes. A pipe is a ring of bytes with two ends that can die.
pub mod Copy
pub mod Flow
pub mod Ends
mod Tests
use mobile_phone_os.Prelude.{
  ℕ, zero, suc, ◌+◌, ◌-◌, ◌%◌, ◌^◌, Bool, true, false, ◌&&◌, ◌||◌, not, Option, none, some, List,
  [], ◌∷◌, ◌++◌, ltb, ◌==◌, if◌then◌else◌, length, take, drop, add32, min, ◌⊎◌, inl, inr,
}
use mobile_phone_os.Task.{Kernel}
use mobile_phone_os.Ring.{read_seg, write_seg}
use mobile_phone_os.Ipc.{
  Ipc, Errno, einval, epipe, Turn, done, parks, Source, null, given, ipc_park, ipc_wake,
  ipc_wake_pollers, set_kernel,
}

abbrev pub pipe_buf_cap : ℕ
pipe_buf_cap = 4096

-- `struct pipe`
pub record Pipe : Type 0 where
  pub buf : ℕ → ℕ
  pub head : ℕ
  pub len : ℕ
  pub readers : ℕ
  pub writers : ℕ
  pub rd_dead : Bool
  pub wr_dead : Bool
  pub rq : Option ℕ
  pub wq : Option ℕ

-- The bytes of one turn come before those of the turns that follow.
abbrev pub out_first : List ℕ → Option (List ℕ × Pipe) → Option (List ℕ × Pipe)
out_first xs none = none
out_first xs (some (ys, p)) = some (xs ++ ys, p)

-- `pipe_copy_out`; `none` means that the fuel ran out.
pub pipe_copy_out : ℕ → Pipe → ℕ → Option (List ℕ × Pipe)
pipe_copy_out fuel p zero = some ([], p)
pipe_copy_out zero p (suc n) = none
pipe_copy_out (suc fuel) p (suc n) =
    let seg = min (min (pipe_buf_cap - p.head) p.len) (suc n) in
    out_first (read_seg p.buf p.head seg) (
      pipe_copy_out fuel (record p { head = add32 p.head seg % pipe_buf_cap; len = p.len - seg })
        (suc n - seg))

-- `pipe_copy_in`
pub pipe_copy_in : ℕ → Pipe → List ℕ → Option Pipe
pipe_copy_in fuel p [] = some p
pipe_copy_in zero p (x ∷ xs) = none
pipe_copy_in (suc fuel) p (x ∷ xs) =
    let tail = add32 p.head p.len % pipe_buf_cap in
    let seg = min (min (pipe_buf_cap - tail) (pipe_buf_cap - p.len)) (length (x ∷ xs)) in
    pipe_copy_in fuel
      (record p { buf = write_seg p.buf tail (take seg (x ∷ xs)); len = add32 p.len seg })
      (drop seg (x ∷ xs))

-- The counter of bytes, and the pollers.
abbrev pub flowed : Ipc → Kernel → ℕ → Option Ipc
flowed s k n =
    ipc_wake_pollers (record s { kernel = k; bytes_flowed = (s.bytes_flowed + n) % 2 ^ 64 })

-- One turn of the loop of `pipe_read`, by the task `me`: the bytes read, none of them at the end.
unfoldable pub pipe_read_turn : Ipc → Pipe → (me len : ℕ) → Option (Turn (List ℕ) × Pipe × Ipc)
pipe_read_turn s p me len =
    if not (p.len == 0)
    then (let n = if ltb p.len len then p.len else len in
        elim (pipe_copy_out n p n) [
          | none ↦ none
          | some (bytes, p') ↦ elim (ipc_wake s.kernel p.wq) [
            | none ↦ none
            | some k ↦ elim (flowed s k n) [
              | none ↦ none
              | some s' ↦ some (done bytes, record p' { wq = none }, s')
            ]
          ]
        ])
    else if (p.writers == 0) || p.wr_dead
    then some (done [], p, s)
    else (let (head, k) = ipc_park s.kernel me p.rq in
        some (parks, record p { rq = head }, set_kernel s k))

-- `pipe_read` up to the first park, and whether its buffer is not NULL.
unfoldable pub pipe_read :
    Ipc → Pipe → (me : ℕ) → (has_buf : Bool) → (len : ℕ) → Option (Turn (List ℕ) × Pipe × Ipc)
pipe_read s p me has_buf len =
    if (len == 0) || not has_buf then some (done [], p, s) else pipe_read_turn s p me len

-- One turn of the loop of `pipe_write`: how many bytes went in.
unfoldable pub pipe_write_turn :
    Ipc → Pipe → (me : ℕ) → List ℕ → Option ((Errno ⊎ Turn ℕ) × Pipe × Ipc)
pipe_write_turn s p me src =
    if (p.readers == 0) || p.rd_dead
    then some (inl epipe, p, s)
    else if ltb p.len pipe_buf_cap
    then (let free = pipe_buf_cap - p.len in
        let n = if ltb free (length src) then free else length src in
        elim (pipe_copy_in n p (take n src)) [
          | none ↦ none
          | some p' ↦ elim (ipc_wake s.kernel p.rq) [
            | none ↦ none
            | some k ↦ elim (flowed s k n) [
              | none ↦ none
              | some s' ↦ some (inr (done n), record p' { rq = none }, s')
            ]
          ]
        ])
    else (let (head, k) = ipc_park s.kernel me p.wq in
        some (inr parks, record p { wq = head }, set_kernel s k))

-- `pipe_write` up to the first park.
unfoldable pub pipe_write : Ipc → Pipe → (me : ℕ) → Source → Option ((Errno ⊎ Turn ℕ) × Pipe × Ipc)
pipe_write s p me (null len) =
    if len == 0 then some (inr (done 0), p, s) else some (inl einval, p, s)
pipe_write s p me (given src) =
    if length src == 0 then some (inr (done 0), p, s) else pipe_write_turn s p me src

-- `pipe_poll`: whether `POLLIN`, `POLLOUT` and `POLLHUP` are set.
unfoldable pub pipe_poll : Pipe → Bool × Bool × Bool
pipe_poll p =
    let no_writer = (p.writers == 0) || p.wr_dead in
    let no_reader = (p.readers == 0) || p.rd_dead in
    (
      not (p.len == 0) || no_writer,
      ltb p.len pipe_buf_cap && not (p.readers == 0) && not p.rd_dead,
      no_writer || no_reader,
    )

-- `pipe_destroy`: the pipe, or none if it is freed.
unfoldable pub pipe_destroy : Ipc → Pipe → (was_reader : Bool) → Option (Option Pipe × Ipc)
pipe_destroy s p was_reader =
    let p' =
      if was_reader
      then record p { rd_dead = true; readers = (p.readers + 2 ^ 32 - 1) % 2 ^ 32 }
      else record p { wr_dead = true; writers = (p.writers + 2 ^ 32 - 1) % 2 ^ 32 } in
    elim (ipc_wake s.kernel p.rq) [
      | none ↦ none
      | some k ↦ elim (ipc_wake k p.wq) [
        | none ↦ none
        | some k' ↦ elim (ipc_wake_pollers (set_kernel s k')) [
          | none ↦ none
          | some s' ↦
              let p'' = record p' { rq = none; wq = none } in
              if (p''.readers == 0)
                && (p''.writers == 0)
                && p''.rd_dead
                && p''.wr_dead
                && (p''.len == 0)
              then some (none, s')
              else some (some p'', s')
        ]
      ]
    ]
