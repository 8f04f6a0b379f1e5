-- ===== src/Ipc/Pipe/Flow.antt =====
-- One turn of `pipe_read` and of `pipe_write`: what flows through a pipe.
use mobile_phone_os.Prelude.{
  ℕ, ◌+◌, ◌-◌, ◌%◌, ◌^◌, ◌<◌, ◌≡◌, refl, sym, ap, ◌∙◌, true, false, ◌||◌, List, ◌++◌, arith, min,
  length, take, length-take, none, some, ltb, if◌then◌else◌, ◌==◌, inr,
}
use native.Mathlib.Nat.{mod-lt}
use mobile_phone_os.Ring.Window.{window, window-append, length-window}
use mobile_phone_os.Ring.Fill.{push_loop-Filled}
use mobile_phone_os.Ipc.{Ipc, done, ipc_wake_pollers}
use mobile_phone_os.Ipc.Transfer.{Parked, AllWoken, both, woken, wake_queue, wake_polls}
use mobile_phone_os.Ipc.Pipe.{Pipe, pipe_buf_cap, pipe_copy_in, pipe_read_turn, pipe_write_turn}
use mobile_phone_os.Ipc.Pipe.Copy.{
  ring, contents, IsValid, pipe_copy_out-window, pipe_copy_in-push_loop, with_ring,
}

-- The bytes read are the oldest, and the tasks that wait to write and that poll have been woken.
pub record Read (s : Ipc) (p : Pipe) (len : ℕ) (bytes : List ℕ) (p' : Pipe) (s' : Ipc)
    (ws ps : List ℕ) : Type 0 where
  pub valid : IsValid p'
  pub count : length bytes ≡ min len p.len
  pub moved : contents p ≡ bytes ++ contents p'
  pub woken : AllWoken s.kernel.tasks s'.kernel.tasks ws ps
  pub empty : (p'.wq ≡ none) × (s'.poll_wq ≡ none)

-- From a pipe that holds bytes a turn of a read ends, whether or not its writers live. It takes the
-- oldest bytes out, as many as are asked for or there are; the tasks that wait to write and those
-- that poll, if no task does both, are unlinked and, save the dead ones, ready, and no other task
-- changes; and the pipe stays valid.
pub pipe_read_turn-Read :
    (s : Ipc) (p : Pipe) (me len : ℕ) (ws ps : List ℕ)
    → IsValid p
    → 0 < p.len
    → Parked s p.wq ws ps
    → (bytes : List ℕ) × (p' : Pipe) × (s' : Ipc) × (pipe_read_turn s p me len
        ≡ some (done bytes, p', s'))
      × Read s p len bytes p' s' ws ps
unfolding pipe_read_turn ipc_wake_pollers
pipe_read_turn-Read s p me len ws ps v some_left w =
    let nonzero : (p.len == 0) ≡ false = ground (arith, some_left) in
    (
      window p.buf pipe_buf_cap p.head n,
      record p { head = (p.head + n) % pipe_buf_cap; len = p.len - n; wq = none },
      s',
      rw
          (
            nonzero,
            pipe_copy_out-window n p n v (omega arith) (omega (arith, least)),
            wake_queue s p.wq ws ps w,
            wake_polls s p.wq ws ps w,
          )
          refl,
      record {
        valid = record { head = mod-lt _ (omega arith); len = omega (arith, v.len) };
        count = length-window p.buf pipe_buf_cap p.head n ∙ least;
        moved =
            window-append p.buf pipe_buf_cap p.head n (p.len - n) p.len v.head
              (omega (arith, least));
        woken = woken s p.wq ws ps w;
        empty = (refl, refl);
      },
    )
  where
    n : ℕ
    n = if ltb p.len len then p.len else len

    least : n ≡ min len p.len
    least = ground arith

    s' : Ipc
    s' = record s {
      kernel = both s p.wq ws ps w;
      poll_wq = none;
      wakes = (s.wakes + 1) % 2 ^ 64;
      bytes_flowed = (s.bytes_flowed + n) % 2 ^ 64;
    }

-- The front `k` bytes of `src` are in, and the tasks that wait to read and that poll have been woken.
pub record Written (s : Ipc) (p : Pipe) (src : List ℕ) (k : ℕ) (p' : Pipe) (s' : Ipc)
    (rs ps : List ℕ) : Type 0 where
  pub valid : IsValid p'
  pub count : k ≡ min (pipe_buf_cap - p.len) (length src)
  pub moved : contents p' ≡ contents p ++ take k src
  pub woken : AllWoken s.kernel.tasks s'.kernel.tasks rs ps
  pub empty : (p'.rq ≡ none) × (s'.poll_wq ≡ none)

-- Into a pipe with live readers and with room a turn of a write ends. It takes in as many bytes as
-- there is room for, from the front of `src`, behind what was there, and returns how many; the tasks
-- that wait to read and those that poll, if no task does both, are unlinked and, save the dead ones,
-- ready, and no other task changes; and the pipe stays valid.
pub pipe_write_turn-Written :
    (s : Ipc) (p : Pipe) (me : ℕ) (src rs ps : List ℕ)
    → IsValid p
    → ((p.readers == 0) || p.rd_dead) ≡ false
    → p.len < pipe_buf_cap
    → Parked s p.rq rs ps
    → (k : ℕ) × (p' : Pipe) × (s' : Ipc) × (pipe_write_turn s p me src
        ≡ some (inr (done k), p', s'))
      × Written s p src k p' s' rs ps
unfolding pipe_write_turn ipc_wake_pollers
pipe_write_turn-Written s p me src rs ps v live room w =
    let (r, e, filled) =
      push_loop-Filled n (ring p) (take n src)
        (record { cap_pos = omega arith; cap_le = omega arith; head_lt = v.head; len_le = v.len })
        (omega (arith, taken, least, room)) (omega (arith, taken)) in
    let copied : pipe_copy_in n p (take n src)
        ≡ some (record p { buf = r.buf; head = r.head; len = r.len }) =
      pipe_copy_in-push_loop n p (take n src) v (omega (arith, taken, least, room))
      ∙ ap (with_ring p) e in
    let has_room : ltb p.len pipe_buf_cap ≡ true = ground (arith, room) in
    (
      n,
      record p { buf = r.buf; head = r.head; len = r.len; rq = none },
      s',
      rw (live, has_room, copied, wake_queue s p.rq rs ps w, wake_polls s p.rq rs ps w) refl,
      record {
        valid = record {
          head = omega (arith, filled.valid.head_lt, filled.cap);
          len = omega (arith, filled.valid.len_le, filled.cap);
        };
        count = least;
        moved = ap (λ c. window r.buf c r.head r.len) (sym filled.cap) ∙ filled.moved;
        woken = woken s p.rq rs ps w;
        empty = (refl, refl);
      },
    )
  where
    n : ℕ
    n = if ltb (pipe_buf_cap - p.len) (length src) then pipe_buf_cap - p.len else length src

    least : n ≡ min (pipe_buf_cap - p.len) (length src)
    least = ground arith

    taken : length (take n src) ≡ n
    taken = length-take n src (omega (arith, least))

    s' : Ipc
    s' = record s {
      kernel = both s p.rq rs ps w;
      poll_wq = none;
      wakes = (s.wakes + 1) % 2 ^ 64;
      bytes_flowed = (s.bytes_flowed + n) % 2 ^ 64;
    }
