-- ===== src/Ipc/Pipe/Ends.antt =====
-- `pipe_poll` against `pipe_read` and `pipe_write`: what it says of the next call.
use mobile_phone_os.Prelude.{
  Bool, ℕ, length, ◌<◌, ◌≡◌, ◌≢◌, refl, ap, sym, ◌∙◌, true, false, ◌||◌, ◌&&◌, not, List, arith,
  Option, none, some, ltb, ◌==◌, inl, inr, ◌⊎◌, eq-cases, Bool-cases,
}
use mobile_phone_os.Ipc.{Ipc, Errno, Turn, done, parks, Source, null, given}
use mobile_phone_os.Ipc.Transfer.{Parked}
use mobile_phone_os.Ipc.Pipe.{
  Pipe, pipe_buf_cap, pipe_read, pipe_write, pipe_read_turn, pipe_write_turn, pipe_poll,
}
use mobile_phone_os.Ipc.Pipe.Copy.{IsValid}
use mobile_phone_os.Ipc.Pipe.Flow.{pipe_read_turn-Read, pipe_write_turn-Written}

-- The call ends and parks, or ends and does not; `none` is a call that does not end.
abbrev pub read_parks : Option (Turn (List ℕ) × Pipe × Ipc) → Option Bool
read_parks none = none
read_parks (some (done bytes, p, s)) = some false
read_parks (some (parks, p, s)) = some true

abbrev pub write_parks : Option ((Errno ⊎ Turn ℕ) × Pipe × Ipc) → Option Bool
write_parks none = none
write_parks (some (inl e, p, s)) = some false
write_parks (some (inr (done n), p, s)) = some false
write_parks (some (inr parks, p, s)) = some true

read_parks-empty :
    (s : Ipc) (p : Pipe) (me len : ℕ)
    → p.len ≡ 0
    → read_parks (pipe_read_turn s p me len) ≡ some (not (pipe_poll p).0)
unfolding pipe_read_turn pipe_poll
read_parks-empty s p me len e =
    let zero : (p.len == 0) ≡ true = ground (arith, e) in
    elim (Bool-cases ((p.writers == 0) || p.wr_dead)) [
      | inl q ↦ rw (zero, q) refl
      | inr q ↦ rw (zero, q) refl
    ]

readable : (p : Pipe) → p.len ≢ 0 → (pipe_poll p).0 ≡ true
unfolding pipe_poll
readable p ne = ground (arith, ne)

read_turn-parks :
    (s : Ipc) (p : Pipe) (me len : ℕ) (ws ps : List ℕ)
    → IsValid p
    → Parked s p.wq ws ps
    → read_parks (pipe_read_turn s p me len) ≡ some (not (pipe_poll p).0)
read_turn-parks s p me len ws ps v w = elim (eq-cases p.len 0) [
  | inl e ↦ read_parks-empty s p me len e
  | inr ne ↦
      let (bytes, p', s', e, r) = pipe_read_turn-Read s p me len ws ps v (omega arith) w in
      ap read_parks e ∙ ap (λ b. some (not b)) (sym (readable p ne))
]

-- Where no task waits to write and polls at once, a read of a valid pipe parks exactly if it asks for a
-- byte or more, has a buffer, and `pipe_poll` does not say that the pipe is readable.
pub pipe_poll-pipe_read :
    (s : Ipc) (p : Pipe) (me len : ℕ) (has_buf : Bool) (ws ps : List ℕ)
    → IsValid p
    → Parked s p.wq ws ps
    → read_parks (pipe_read s p me has_buf len)
      ≡ some (not ((len == 0) || not has_buf) && not (pipe_poll p).0)
unfolding pipe_read
pipe_poll-pipe_read s p me len has_buf ws ps v w = elim (Bool-cases ((len == 0) || not has_buf)) [
  | inl q ↦ rw q refl
  | inr q ↦ rw q (read_turn-parks s p me len ws ps v w)
]

write_parks-stuck :
    (s : Ipc) (p : Pipe) (me : ℕ) (src : List ℕ)
    → (((p.readers == 0) || p.rd_dead) ≡ true) ⊎ (ltb p.len pipe_buf_cap ≡ false)
    → write_parks (pipe_write_turn s p me src)
      ≡ some (not ((p.readers == 0) || p.rd_dead) && not (pipe_poll p).1)
unfolding pipe_write_turn pipe_poll
write_parks-stuck s p me src (inl q) = rw q refl
write_parks-stuck s p me src (inr q) = elim (Bool-cases ((p.readers == 0) || p.rd_dead)) [
  | inl d ↦ rw d refl
  | inr d ↦ rw (d, q) refl
]

writable :
    (p : Pipe)
    → ((p.readers == 0) || p.rd_dead) ≡ false
    → ltb p.len pipe_buf_cap ≡ true
    → (pipe_poll p).1 ≡ true
unfolding pipe_poll
writable p live room = ground (arith, live, room)

says_room :
    (p : Pipe)
    → ((p.readers == 0) || p.rd_dead) ≡ false
    → ltb p.len pipe_buf_cap ≡ true
    → some (not ((p.readers == 0) || p.rd_dead) && not (pipe_poll p).1) ≡ some false
says_room p live room = rw live (ap (λ b. some (not b)) (writable p live room))

write_turn-parks :
    (s : Ipc) (p : Pipe) (me : ℕ) (src rs ps : List ℕ)
    → IsValid p
    → Parked s p.rq rs ps
    → write_parks (pipe_write_turn s p me src)
      ≡ some (not ((p.readers == 0) || p.rd_dead) && not (pipe_poll p).1)
write_turn-parks s p me src rs ps v w = elim (Bool-cases ((p.readers == 0) || p.rd_dead)) [
  | inl q ↦ write_parks-stuck s p me src (inl q)
  | inr live ↦ elim (Bool-cases (ltb p.len pipe_buf_cap)) [
    | inr q ↦ write_parks-stuck s p me src (inr q)
    | inl room ↦
        let (k, p', s', e, r) =
          pipe_write_turn-Written s p me src rs ps v live
            (let lt : p.len < pipe_buf_cap = ground (arith, room) in lt) w in
        ap write_parks e ∙ sym (says_room p live room)
  ]
]

-- Whether a write has a byte or more to give.
abbrev pub gives : Source → Bool
gives (null len) = false
gives (given src) = not (length src == 0)

-- Where no task waits to read and polls at once, a write to a valid pipe parks exactly if it has a buffer
-- with a byte or more, there is a live reader and `pipe_poll` does not say that there is room.
pub pipe_poll-pipe_write :
    (s : Ipc) (p : Pipe) (me : ℕ) (src : Source) (rs ps : List ℕ)
    → IsValid p
    → Parked s p.rq rs ps
    → write_parks (pipe_write s p me src)
      ≡ some (gives src && (not ((p.readers == 0) || p.rd_dead) && not (pipe_poll p).1))
unfolding pipe_write
pipe_poll-pipe_write s p me (null len) rs ps v w = elim (Bool-cases (len == 0)) [
  | inl q ↦ rw q refl
  | inr q ↦ rw q refl
]
pipe_poll-pipe_write s p me (given src) rs ps v w = elim (Bool-cases (length src == 0)) [
  | inl q ↦ rw q refl
  | inr q ↦ rw q (write_turn-parks s p me src rs ps v w)
]
