-- ===== src/Ipc/Pipe/Tests.antt =====
-- A pipe of two bytes that lie round the end of its buffer.
use mobile_phone_os.Prelude.{
  ℕ, ◌≡◌, refl, true, false, not, ◌||◌, ◌&&◌, none, some, List, [], ◌∷◌, arith, ◌==◌, if◌then◌else◌,
  inr,
}
use mobile_phone_os.Task.{blocked, running, sleeping}
use mobile_phone_os.Task.Samples.{sample_task, sample_kernel, slot_of}
use mobile_phone_os.Ipc.{Ipc, new_queue, done, given}
use mobile_phone_os.Ipc.Transfer.{Parked}
use mobile_phone_os.Ipc.Pipe.{
  Pipe, pipe_read, pipe_write, pipe_read_turn, pipe_write_turn, pipe_poll,
}
use mobile_phone_os.Ipc.Pipe.Copy.{IsValid}
use mobile_phone_os.Ipc.Pipe.Flow.{Read, Written, pipe_read_turn-Read, pipe_write_turn-Written}
use mobile_phone_os.Ipc.Pipe.Ends.{
  read_parks, write_parks, gives, pipe_poll-pipe_read, pipe_poll-pipe_write,
}

-- Task 0 runs, 1 waits to write, 2 polls.
abbrev start : Ipc
start = record {
  kernel = record sample_kernel {
    tasks = slot_of (
        sample_task running 5 none ∷ sample_task blocked 6 none ∷ sample_task sleeping 7 none ∷ []);
  };
  poll_wq = some 2;
  wakes = 0;
  bytes_flowed = 0;
  mq_pool = λ i. new_queue [];
}

abbrev pipe : Pipe
pipe = record {
  buf = λ i. if i == 4095 then 65 else 66;
  head = 4095;
  len = 2;
  readers = 1;
  writers = 1;
  rd_dead = false;
  wr_dead = false;
  rq = none;
  wq = some 1;
}

valid : IsValid pipe
valid = record { head = omega arith; len = omega arith }

writers : Parked start (some 1) (1 ∷ []) (2 ∷ [])
writers = record {
  chain = (refl, refl);
  polling = (refl, refl);
  distinct = ((refl, tt), (refl, tt));
  disjoint = λ i m. ground (arith, m);
  few = (omega arith, omega arith);
}

readers : Parked start none [] (2 ∷ [])
readers = record {
  chain = refl;
  polling = (refl, refl);
  distinct = (tt, (refl, tt));
  disjoint = λ i m. refl;
  few = (omega arith, omega arith);
}

abbrev src : List ℕ
src = 1 ∷ 2 ∷ 3 ∷ []

pipe_read_turn-Read_example :
    (bytes : List ℕ) × (p' : Pipe) × (s' : Ipc) × (pipe_read_turn start pipe 0 8
      ≡ some (done bytes, p', s'))
    × Read start pipe 8 bytes p' s' (1 ∷ []) (2 ∷ [])
pipe_read_turn-Read_example =
    pipe_read_turn-Read start pipe 0 8 (1 ∷ []) (2 ∷ []) valid (omega arith) writers

pipe_write_turn-Written_example :
    (k : ℕ) × (p' : Pipe) × (s' : Ipc) × (pipe_write_turn start pipe 0 src
      ≡ some (inr (done k), p', s'))
    × Written start pipe src k p' s' [] (2 ∷ [])
pipe_write_turn-Written_example =
    pipe_write_turn-Written start pipe 0 src [] (2 ∷ []) valid refl (omega arith) readers

pipe_poll-pipe_read_example :
    read_parks (pipe_read start pipe 0 true 8)
    ≡ some (not ((8 == 0) || not true) && not (pipe_poll pipe).0)
pipe_poll-pipe_read_example =
    pipe_poll-pipe_read start pipe 0 8 true (1 ∷ []) (2 ∷ []) valid writers

pipe_poll-pipe_write_example :
    write_parks (pipe_write start pipe 0 (given src))
    ≡ some
        (gives (given src) && (not ((pipe.readers == 0) || pipe.rd_dead) && not (pipe_poll pipe).1))
pipe_poll-pipe_write_example =
    pipe_poll-pipe_write start pipe 0 (given src) [] (2 ∷ []) valid readers
