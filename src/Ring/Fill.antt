-- ===== src/Ring/Fill.antt =====
-- `ipc_ring_push` against a queue of bytes, and a ring under any sequence of the two.
use mobile_phone_os.Prelude.{
  ℕ, zero, suc, ◌+◌, ◌-◌, ◌%◌, ◌≤◌, ◌<◌, ◌≡◌, refl, sym, ap, subst, some_inj, ◌∙◌, List, [], ◌∷◌,
  ◌++◌, arith, min, length, take, drop, length-take, length-drop, take-append-drop, some, add32,
  ltb, if◌then◌else◌,
}
use native.Mathlib.Nat.{mod-lt, mod-eq_of_lt}
use mathlib.Core.List.{append_assoc, append-nil}
use mobile_phone_os.Ring.{IpcRing, write_seg, free, counted, pull, push_loop, push}
use mobile_phone_os.Ring.Window.{window, window-write_seg}
use mobile_phone_os.Ring.Refine.{contents, IsValid, Pulled, pull-Pulled, add32-fits}

-- `xs` have been taken in behind what was there.
pub record Filled (r : IpcRing) (xs : List ℕ) (r' : IpcRing) : Type 0 where
  pub valid : IsValid r'
  pub cap : r'.cap ≡ r.cap
  pub moved : contents r' ≡ contents r ++ xs

-- One turn of the loop: the segment `seg` of `xs` goes in at `tail`.
abbrev tail : IpcRing → ℕ
tail r = add32 r.head r.len % r.cap

abbrev seg : IpcRing → List ℕ → ℕ
seg r xs = min (r.cap - tail r) (length xs)

abbrev turned : IpcRing → List ℕ → IpcRing
turned r xs = record r {
  buf = write_seg r.buf (tail r) (take (seg r xs) xs);
  len = add32 r.len (seg r xs);
}

module _ (r : IpcRing) (xs : List ℕ) (v : IsValid r) (some_left : 0 < length xs)
    (fits : r.len + length xs ≤ r.cap) where
  tail-eq : (tail r) ≡ (r.head + r.len) % r.cap
  tail-eq = ap (λ i. i % r.cap) (add32-fits r.cap r.head r.len v.cap_le v.head_lt v.len_le)

  tail-lt : (tail r) < r.cap
  tail-lt = mod-lt _ v.cap_pos

  seg-bounds : (0 < (seg r xs)) × ((seg r xs) ≤ length xs) × ((tail r) + (seg r xs) ≤ r.cap)
  seg-bounds = omega (arith, tail-lt, some_left)

  len-eq : add32 r.len (seg r xs) ≡ r.len + (seg r xs)
  len-eq = mod-eq_of_lt (omega (arith, v.cap_le, fits, seg-bounds.1))

  turned-Filled : Filled r (take (seg r xs) xs) (turned r xs)
  turned-Filled = record {
    valid = record {
      cap_pos = v.cap_pos;
      cap_le = v.cap_le;
      head_lt = v.head_lt;
      len_le = omega (arith, len-eq, seg-bounds.1);
    };
    cap = refl;
    moved =
        ap (λ k. window (turned r xs).buf r.cap r.head k) (len-eq ∙ ap (λ k. r.len + k) (sym taken))
        ∙ window-write_seg r.buf r.cap r.head r.len (tail r) (take (seg r xs) xs) v.head_lt tail-eq
            (omega (arith, taken, seg-bounds.1)) (omega (arith, taken, seg-bounds.2));
  }
    where
      taken : length (take (seg r xs) xs) ≡ (seg r xs)
      taken = length-take (seg r xs) xs seg-bounds.1

-- With enough fuel the loop takes in all of `xs`, if there is room.
pub push_loop-Filled :
    (fuel : ℕ) (r : IpcRing) (xs : List ℕ)
    → IsValid r
    → r.len + length xs ≤ r.cap
    → length xs ≤ fuel
    → (r' : IpcRing) × (push_loop fuel r xs ≡ some r') × Filled r xs r'
unfolding push_loop
push_loop-Filled zero r [] v fits le =
    (r, refl, record { valid = v; cap = refl; moved = sym (append-nil (contents r)) })
push_loop-Filled (suc fuel) r [] v fits le =
    (r, refl, record { valid = v; cap = refl; moved = sym (append-nil (contents r)) })
push_loop-Filled zero r (x ∷ xs) v fits le = absurd (omega arith)
push_loop-Filled (suc fuel) r (x ∷ xs) v fits le =
    let now = turned-Filled r (x ∷ xs) v (omega arith) fits in
    let (r', e, later) =
      push_loop-Filled fuel (turned r (x ∷ xs)) rest now.valid
        (omega (arith, len-eq r (x ∷ xs) v (omega arith) fits, left, some_moved.1))
        (omega (arith, left, some_moved.0)) in
    (
      r',
      e,
      record {
        valid = later.valid;
        cap = later.cap;
        moved =
            later.moved
            ∙ ap (λ ys. ys ++ rest) now.moved
            ∙ append_assoc (contents r) (take (seg r (x ∷ xs)) (x ∷ xs)) rest
            ∙ ap (λ ys. contents r ++ ys) (take-append-drop (seg r (x ∷ xs)) (x ∷ xs));
      },
    )
  where
    some_moved :
        (0 < seg r (x ∷ xs))
        × (seg r (x ∷ xs) ≤ length (x ∷ xs))
        × (tail r + seg r (x ∷ xs) ≤ r.cap)
    some_moved = seg-bounds r (x ∷ xs) v (omega arith) fits

    rest : List ℕ
    rest = drop (seg r (x ∷ xs)) (x ∷ xs)

    left : length rest ≡ length (x ∷ xs) - seg r (x ∷ xs)
    left = length-drop (seg r (x ∷ xs)) (x ∷ xs)

-- The front `k` bytes of `src` are in.
pub record Pushed (r : IpcRing) (src : List ℕ) (k : ℕ) (r' : IpcRing) : Type 0 where
  pub count : k ≡ min (r.cap - r.len) (length src)
  pub filled : Filled r (take k src) r'

-- A push to a valid ring ends, though the room may lie in two segments. It takes in as many bytes as
-- there is room for, from the front of `src`, behind what was there, and returns how many; and the
-- ring stays valid.
pub push-Pushed :
    (r : IpcRing) (src : List ℕ)
    → IsValid r
    → (k : ℕ) × (r' : IpcRing) × (push r src ≡ some (k, r')) × Pushed r src k r'
unfolding push free
push-Pushed r src v =
    let (r', e, q) =
      push_loop-Filled m r (take m src) v (omega (arith, taken, least, v.len_le))
        (omega (arith, taken)) in
    (m, r', ap (counted m) e, record { count = least; filled = q })
  where
    m : ℕ
    m = if ltb (free r) (length src) then free r else length src

    least : m ≡ min (r.cap - r.len) (length src)
    least = ground arith

    taken : length (take m src) ≡ m
    taken = length-take m src (omega (arith, least))

Pushed-result :
    (r : IpcRing) (src : List ℕ) (k : ℕ) (r' : IpcRing)
    → IsValid r
    → push r src ≡ some (k, r')
    → Pushed r src k r'
Pushed-result r src k r' v e =
    let (k', q, e', p) = push-Pushed r src v in
    subst (λ (x : ℕ × IpcRing). Pushed r src x.0 x.1) (some_inj (sym e' ∙ e)) p

Pulled-result :
    (r : IpcRing) (n : ℕ) (bytes : List ℕ) (r' : IpcRing)
    → IsValid r
    → pull r n ≡ some (bytes, r')
    → Pulled r n bytes r'
Pulled-result r n bytes r' v e =
    let (bytes', q, e', p) = pull-Pulled r n v in
    subst (λ (x : List ℕ × IpcRing). Pulled r n x.0 x.1) (some_inj (sym e' ∙ e)) p

-- Any sequence of pushes and pulls, with all the bytes taken in and all those moved out.
pub data Run (r : IpcRing) : (into out : List ℕ) → IpcRing → Type 0 where
  start : Run r [] [] r
  pushes :
      (into out : List ℕ) (r' : IpcRing) (src : List ℕ) (k : ℕ) (r'' : IpcRing)
      → Run r into out r'
      → push r' src ≡ some (k, r'')
      → Run r (into ++ take k src) out r''
  pulls :
      (into out : List ℕ) (r' : IpcRing) (n : ℕ) (bytes : List ℕ) (r'' : IpcRing)
      → Run r into out r'
      → pull r' n ≡ some (bytes, r'')
      → Run r into (out ++ bytes) r''

-- What comes out of a valid ring is what went in, in that order, whatever the sequence of pushes
-- and pulls and however often the indices wrap: the bytes that were in the ring and those taken in
-- are those moved out and those still in it. The ring stays valid.
pub Run-fifo :
    {r r' : IpcRing} {into out : List ℕ}
    → IsValid r
    → Run r into out r'
    → IsValid r' × (contents r ++ into ≡ out ++ contents r')
Run-fifo {r} v start = (v, append-nil (contents r))
Run-fifo {r} v (pushes into out r' src k r'' run e) =
    let (v', h) = Run-fifo v run in
    let p = Pushed-result r' src k r'' v' e in
    (
      p.filled.valid,
      sym (append_assoc (contents r) into (take k src))
          ∙ ap (λ xs. xs ++ take k src) h
          ∙ append_assoc out (contents r') (take k src)
          ∙ ap (λ xs. out ++ xs) (sym p.filled.moved),
    )
Run-fifo {r} v (pulls into out r' n bytes r'' run e) =
    let (v', h) = Run-fifo v run in
    let p = Pulled-result r' n bytes r'' v' e in
    (p.valid, h ∙ ap (λ xs. out ++ xs) p.moved ∙ sym (append_assoc out bytes (contents r'')))
