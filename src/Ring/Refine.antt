-- ===== src/Ring/Refine.antt =====
-- `ipc_ring_pull` and `ipc_ring_push` against a queue of bytes.
use mobile_phone_os.Prelude.{
  ℕ, zero, suc, ◌+◌, ◌-◌, ◌%◌, ◌^◌, ◌≤◌, ◌<◌, ◌≡◌, refl, sym, ap, ◌∙◌, List, [], ◌++◌, arith, min,
  length, some, add32, ltb, if◌then◌else◌,
}
use native.Mathlib.Nat.{mod-add-mod, mod-eq_of_lt, mod-lt}
use mobile_phone_os.Ring.{IpcRing, read_seg, prepend, shorten, pull_loop, pull}
use mobile_phone_os.Ring.Window.{window, window-segment, window-append, length-window}

-- The bytes that wait in the ring, the oldest first.
abbrev pub contents : IpcRing → List ℕ
contents r = window r.buf r.cap r.head r.len

-- Indices and lengths stay in range, and sums of two of them do not wrap.
pub record IsValid (r : IpcRing) : Type 0 where
  pub cap_pos : 0 < r.cap
  pub cap_le : r.cap ≤ 2 ^ 31
  pub head_lt : r.head < r.cap
  pub len_le : r.len ≤ r.cap

stays : (cap h : ℕ) → h < cap → h ≡ (h + 0) % cap
stays cap h lt = sym (mod-eq_of_lt lt) ∙ ap (λ i. i % cap) (let q : h ≡ h + 0 = omega arith in q)

-- The segment of one turn is not empty, and ends at the end of the buffer at the latest.
pub add32-fits : (cap h seg : ℕ) → cap ≤ 2 ^ 31 → h < cap → seg ≤ cap → add32 h seg ≡ h + seg
add32-fits cap h seg small hh le = ground arith

-- With enough fuel the loop moves out the next `n` bytes, and moves the head on.
pull_loop-window :
    (fuel : ℕ) (r : IpcRing) (n : ℕ)
    → r.cap ≤ 2 ^ 31
    → r.head < r.cap
    → n ≤ fuel
    → pull_loop fuel r n
      ≡ some (window r.buf r.cap r.head n, record r { head = (r.head + n) % r.cap })
unfolding pull_loop
pull_loop-window zero r zero small hh le =
    ap (λ i. some ([], record r { head = i })) (stays r.cap r.head hh)
pull_loop-window (suc fuel) r zero small hh le =
    ap (λ i. some ([], record r { head = i })) (stays r.cap r.head hh)
pull_loop-window zero r (suc n) small hh le = absurd (omega arith)
pull_loop-window (suc fuel) r (suc n) small hh le =
    let later = record r { head = head' } in
    ap (λ i. prepend (read_seg r.buf r.head seg) (pull_loop fuel (record r { head = i }) rest))
      index
    ∙ ap (prepend (read_seg r.buf r.head seg))
        (pull_loop-window fuel later rest small (mod-lt _ (omega arith)) (omega arith))
    ∙ ap (λ xs. some (xs, record r { head = (head' + rest) % r.cap })) bytes
    ∙ ap (λ i. some (window r.buf r.cap r.head (suc n), record r { head = i })) arrives
  where
    seg : ℕ
    seg = min (r.cap - r.head) (suc n)

    rest : ℕ
    rest = suc n - seg

    head' : ℕ
    head' = (r.head + seg) % r.cap

    index : add32 r.head seg % r.cap ≡ head'
    index = ap (λ i. i % r.cap) (add32-fits r.cap r.head seg small hh (omega arith))

    bytes :
        read_seg r.buf r.head seg ++ window r.buf r.cap head' rest
        ≡ window r.buf r.cap r.head (suc n)
    bytes = sym (
        window-segment r.buf r.cap r.head seg rest (suc n) (omega arith) (omega arith)
          (omega arith))

    arrives : (head' + rest) % r.cap ≡ (r.head + suc n) % r.cap
    arrives =
        mod-add-mod (r.head + seg) r.cap rest
        ∙ ap (λ i. i % r.cap) (let q : r.head + seg + rest ≡ r.head + suc n = omega arith in q)

-- The oldest bytes are out, and what is left is what was there behind them.
pub record Pulled (r : IpcRing) (n : ℕ) (bytes : List ℕ) (r' : IpcRing) : Type 0 where
  pub valid : IsValid r'
  pub cap : r'.cap ≡ r.cap
  pub count : length bytes ≡ min n r.len
  pub moved : contents r ≡ bytes ++ contents r'

-- Asked for `n` bytes, a pull from a valid ring ends, though the bytes may lie in two segments. It
-- moves out the least of `n` and the number of bytes in the ring, the oldest first; what is left is
-- what was there behind them; and the ring stays valid.
pub pull-Pulled :
    (r : IpcRing) (n : ℕ)
    → IsValid r
    → (bytes : List ℕ) × (r' : IpcRing) × (pull r n ≡ some (bytes, r')) × Pulled r n bytes r'
unfolding pull
pull-Pulled r n v = (
  window r.buf r.cap r.head m,
  r',
  ap (shorten (r.len - m)) (pull_loop-window m r m v.cap_le v.head_lt (omega arith)),
  record {
    valid = record {
      cap_pos = v.cap_pos;
      cap_le = v.cap_le;
      head_lt = mod-lt _ v.cap_pos;
      len_le = omega (arith, v.len_le);
    };
    cap = refl;
    count = length-window r.buf r.cap r.head m ∙ least;
    moved = window-append r.buf r.cap r.head m (r.len - m) r.len v.head_lt (omega (arith, least));
  },
)
  where
    m : ℕ
    m = if ltb r.len n then r.len else n

    least : m ≡ min n r.len
    least = ground arith

    r' : IpcRing
    r' = record r { head = (r.head + m) % r.cap; len = r.len - m }
