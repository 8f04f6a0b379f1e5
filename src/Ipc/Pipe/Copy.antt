-- ===== src/Ipc/Pipe/Copy.antt =====
-- `pipe_copy_out` and `pipe_copy_in` against a queue of bytes.
use mobile_phone_os.Prelude.{
  ℕ, zero, suc, ◌+◌, ◌-◌, ◌%◌, ◌≤◌, ◌<◌, ◌≡◌, refl, sym, ap, ◌∙◌, List, [], ◌∷◌, ◌++◌, arith, min,
  length, take, drop, length-drop, Option, none, some, add32,
}
use native.Mathlib.Nat.{mod-add-mod, mod-lt}
use mobile_phone_os.Ring.{IpcRing, read_seg, write_seg, push_loop}
use mobile_phone_os.Ring.Window.{window, window-segment}
use mobile_phone_os.Ring.Refine.{add32-fits}
use mobile_phone_os.Ipc.Pipe.{Pipe, pipe_buf_cap, out_first, pipe_copy_out, pipe_copy_in}

-- A pipe's buffer as a ring.
abbrev pub ring : Pipe → IpcRing
ring p = record { buf = p.buf; cap = pipe_buf_cap; head = p.head; len = p.len }

-- The bytes in the pipe, the oldest first.
abbrev pub contents : Pipe → List ℕ
contents p = window p.buf pipe_buf_cap p.head p.len

pub record IsValid (p : Pipe) : Type 0 where
  pub head : p.head < pipe_buf_cap
  pub len : p.len ≤ pipe_buf_cap

stays : (h : ℕ) → h < pipe_buf_cap → h ≡ (h + 0) % pipe_buf_cap
stays h lt = omega arith

-- With enough fuel the loop copies the next `n` bytes, if there are as many.
pub pipe_copy_out-window :
    (fuel : ℕ) (p : Pipe) (n : ℕ)
    → IsValid p
    → n ≤ fuel
    → n ≤ p.len
    → pipe_copy_out fuel p n
      ≡ some (
        window p.buf pipe_buf_cap p.head n,
        record p { head = (p.head + n) % pipe_buf_cap; len = p.len - n },
      )
unfolding pipe_copy_out
pipe_copy_out-window zero p zero v le fits =
    ap (λ i. some ([], record p { head = i })) (stays p.head v.head)
    ∙ ap (λ l. some ([], record p { head = (p.head + 0) % pipe_buf_cap; len = l })) (omega arith)
pipe_copy_out-window (suc fuel) p zero v le fits =
    ap (λ i. some ([], record p { head = i })) (stays p.head v.head)
    ∙ ap (λ l. some ([], record p { head = (p.head + 0) % pipe_buf_cap; len = l })) (omega arith)
pipe_copy_out-window zero p (suc n) v le fits = absurd (omega arith)
pipe_copy_out-window (suc fuel) p (suc n) v le fits =
    ap
      (λ i.
        out_first (read_seg p.buf p.head seg)
          (pipe_copy_out fuel (record p { head = i; len = p.len - seg }) rest))
      index
    ∙ ap (out_first (read_seg p.buf p.head seg)) (
        pipe_copy_out-window fuel (record p { head = head'; len = p.len - seg }) rest
          (record { head = mod-lt _ (omega arith); len = omega (arith, v.len) })
          (omega (arith, v.head)) (omega (arith, v.head)))
    ∙ ap
        (λ xs.
          some (xs, record p { head = (head' + rest) % pipe_buf_cap; len = p.len - seg - rest }))
        bytes
    ∙ ap
        (λ i. some (
          window p.buf pipe_buf_cap p.head (suc n),
          record p { head = i; len = p.len - seg - rest },
        ))
        arrives
    ∙ ap
        (λ l. some (
          window p.buf pipe_buf_cap p.head (suc n),
          record p { head = (p.head + suc n) % pipe_buf_cap; len = l },
        ))
        (let q : p.len - seg - rest ≡ p.len - suc n = omega (arith, v.head) in q)
  where
    seg : ℕ
    seg = min (min (pipe_buf_cap - p.head) p.len) (suc n)

    rest : ℕ
    rest = suc n - seg

    head' : ℕ
    head' = (p.head + seg) % pipe_buf_cap

    index : add32 p.head seg % pipe_buf_cap ≡ head'
    index =
        ap (λ i. i % pipe_buf_cap)
          (add32-fits pipe_buf_cap p.head seg (omega arith) v.head (omega arith))

    bytes :
        read_seg p.buf p.head seg ++ window p.buf pipe_buf_cap head' rest
        ≡ window p.buf pipe_buf_cap p.head (suc n)
    bytes = sym (
        window-segment p.buf pipe_buf_cap p.head seg rest (suc n) (omega (arith, v.head))
          (omega (arith, v.head)) (omega (arith, v.head)))

    arrives : (head' + rest) % pipe_buf_cap ≡ (p.head + suc n) % pipe_buf_cap
    arrives =
        mod-add-mod (p.head + seg) pipe_buf_cap rest
        ∙ ap (λ i. i % pipe_buf_cap)
            (let q : p.head + seg + rest ≡ p.head + suc n = omega (arith, v.head) in q)

-- The pipe with the ring put back.
abbrev pub with_ring : Pipe → Option IpcRing → Option Pipe
with_ring p none = none
with_ring p (some r) = some (record p { buf = r.buf; head = r.head; len = r.len })

-- Where there is room, the loop does what `ipc_ring_push` does.
pub pipe_copy_in-push_loop :
    (fuel : ℕ) (p : Pipe) (xs : List ℕ)
    → IsValid p
    → p.len + length xs ≤ pipe_buf_cap
    → pipe_copy_in fuel p xs ≡ with_ring p (push_loop fuel (ring p) xs)
unfolding pipe_copy_in push_loop
pipe_copy_in-push_loop zero p [] v fits = refl
pipe_copy_in-push_loop (suc fuel) p [] v fits = refl
pipe_copy_in-push_loop zero p (x ∷ xs) v fits = refl
pipe_copy_in-push_loop (suc fuel) p (x ∷ xs) v fits =
    ap (λ g. pipe_copy_in fuel (later g) (drop g (x ∷ xs))) same
    ∙ pipe_copy_in-push_loop fuel (later seg) (drop seg (x ∷ xs))
        (record { head = v.head; len = omega (arith, fits) })
        (omega (arith, fits, length-drop seg (x ∷ xs)))
  where
    tail : ℕ
    tail = add32 p.head p.len % pipe_buf_cap

    seg : ℕ
    seg = min (pipe_buf_cap - tail) (length (x ∷ xs))

    later : ℕ → Pipe
    later g = record p { buf = write_seg p.buf tail (take g (x ∷ xs)); len = add32 p.len g }

    same : min (min (pipe_buf_cap - tail) (pipe_buf_cap - p.len)) (length (x ∷ xs)) ≡ seg
    same = omega arith
