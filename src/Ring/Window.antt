-- ===== src/Ring/Window.antt =====
-- The bytes that a ring holds, and what copying a segment does to them.
use mobile_phone_os.Prelude.{
  ℕ, zero, suc, ◌+◌, ◌%◌, ◌≤◌, ◌<◌, ◌≡◌, ◌≢◌, refl, sym, ap, ◌∙◌, List, [], ◌∷◌, ◌++◌, arith,
  length, update,
}
use native.Mathlib.Nat.{mod-add-mod, mod-eq_of_lt, mod-eq-sub-mod, mod-lt}
use mathlib.Core.List.{append-nil, append_assoc}
use mobile_phone_os.Ring.{read_seg, write_seg}

-- The `n` bytes from index `h` on, going round at `cap`.
abbrev pub window {ℓ} : {A : Type ℓ} → (ℕ → A) → (cap h n : ℕ) → List A
window buf cap h zero = []
window buf cap h (suc n) = buf h ∷ window buf cap ((h + 1) % cap) n

-- A segment that does not reach past the end is the front of the window.
pub window-read_seg :
    (buf : ℕ → ℕ) (cap h seg n : ℕ)
    → h + suc seg ≤ cap
    → window buf cap h (suc (seg + n))
      ≡ read_seg buf h (suc seg) ++ window buf cap ((h + suc seg) % cap) n
window-read_seg buf cap h zero n fits =
    ap (λ k. window buf cap h (suc k)) (let e : 0 + n ≡ n = omega arith in e)
window-read_seg buf cap h (suc seg) n fits =
    ap (λ ys. buf h ∷ ys)
      (ap (λ x. window buf cap x (suc seg + n)) (mod-eq_of_lt (omega arith))
        ∙ ap (λ k. window buf cap (h + 1) k)
            (let e : suc seg + n ≡ suc (seg + n) = omega arith in e)
        ∙ window-read_seg buf cap (h + 1) seg n (omega arith)
        ∙ ap (λ x. read_seg buf (h + 1) (suc seg) ++ window buf cap (x % cap) n)
            (let e : h + 1 + suc seg ≡ h + suc (suc seg) = omega arith in e))

-- Fewer than `cap` steps from `h` on do not come back to `h`.
no_return : (cap h k : ℕ) → h < cap → 0 < k → k < cap → (h + k) % cap ≢ h
no_return cap h k hh pos hk = grind (arith, mod-eq_of_lt, mod-eq-sub-mod)

-- Going one step first, and `n` more, is going `n + 1` steps.
step_first : (cap h n : ℕ) → ((h + 1) % cap + n) % cap ≡ (h + suc n) % cap
step_first cap h n = mod-add-mod (h + 1) cap n ∙ ap (λ x. x % cap) (omega arith)

-- A byte stored at an index that the window does not reach leaves it as it is.
window-update_beyond {ℓ} :
    {A : Type ℓ} (buf : ℕ → A) (cap h n k : ℕ) (x : A)
    → h < cap
    → n ≤ k
    → k < cap
    → window (update buf ((h + k) % cap) x) cap h n ≡ window buf cap h n
window-update_beyond buf cap h zero k x hh le lt = refl
window-update_beyond buf cap h (suc n) zero x hh le lt = absurd (omega arith)
window-update_beyond buf cap h (suc n) (suc k) x hh le lt =
    let other : h ≢ (h + suc k) % cap = λ e. no_return cap h (suc k) hh (omega arith) lt (sym e) in
    let head : update buf ((h + suc k) % cap) x h ≡ buf h = ground (arith, other) in
    rw head (
      ap (λ ys. buf h ∷ ys)
        (ap (λ i. window (update buf i x) cap ((h + 1) % cap) n) (sym (step_first cap h k))
          ∙ window-update_beyond buf cap ((h + 1) % cap) n k x (mod-lt _ (omega arith))
              (omega arith) (omega arith)))

-- A byte stored right behind the window makes it longer by that byte.
pub window-update {ℓ} :
    {A : Type ℓ} (buf : ℕ → A) (cap h n : ℕ) (x : A)
    → h < cap
    → n < cap
    → window (update buf ((h + n) % cap) x) cap h (suc n) ≡ window buf cap h n ++ x ∷ []
window-update buf cap h zero x hh lt =
    let here : (h + 0) % cap ≡ h = ap (λ i. i % cap) (omega arith) ∙ mod-eq_of_lt hh in
    rw here (let at_h : update buf h x h ≡ x = ground arith in ap (λ b. b ∷ []) at_h)
window-update buf cap h (suc n) x hh lt =
    let other : h ≢ (h + suc n) % cap = λ e. no_return cap h (suc n) hh (omega arith) lt (sym e) in
    let head : update buf ((h + suc n) % cap) x h ≡ buf h = ground (arith, other) in
    rw head (
      ap (λ ys. buf h ∷ ys)
        (ap (λ i. window (update buf i x) cap ((h + 1) % cap) (suc n)) (sym (step_first cap h n))
          ∙ window-update buf cap ((h + 1) % cap) n x (mod-lt _ (omega arith)) (omega arith)))

window-store :
    (buf : ℕ → ℕ) (cap h n t x : ℕ)
    → h < cap
    → n < cap
    → t ≡ (h + n) % cap
    → window (update buf t x) cap h (suc n) ≡ window buf cap h n ++ x ∷ []
window-store buf cap h n t x hh lt e =
    ap (λ i. window (update buf i x) cap h (suc n)) e ∙ window-update buf cap h n x hh lt

step_last : (cap h n t : ℕ) → t ≡ (h + n) % cap → t + 1 < cap → t + 1 ≡ (h + suc n) % cap
step_last cap h n t e lt =
    sym (mod-eq_of_lt lt)
    ∙ ap (λ i. (i + 1) % cap) e
    ∙ mod-add-mod (h + n) cap 1
    ∙ ap (λ i. i % cap) (let q : h + n + 1 ≡ h + suc n = omega arith in q)

-- A segment stored right behind the window makes it longer by those bytes.
pub window-write_seg :
    (buf : ℕ → ℕ) (cap h n t : ℕ) (xs : List ℕ)
    → h < cap
    → t ≡ (h + n) % cap
    → n + length xs ≤ cap
    → t + length xs ≤ cap
    → window (write_seg buf t xs) cap h (n + length xs) ≡ window buf cap h n ++ xs
window-write_seg buf cap h n t [] hh e le fits =
    ap (λ k. window buf cap h k) (let q : n + 0 ≡ n = omega arith in q)
    ∙ sym (append-nil (window buf cap h n))
window-write_seg buf cap h n t (x ∷ []) hh e le fits =
    ap (λ k. window (update buf t x) cap h k) (let q : n + 1 ≡ suc n = omega arith in q)
    ∙ window-store buf cap h n t x hh (omega arith) e
window-write_seg buf cap h n t (x ∷ y ∷ ys) hh e le fits =
    ap (λ k. window (write_seg buf t (x ∷ y ∷ ys)) cap h k)
      (let q : n + suc (suc (length ys)) ≡ suc n + suc (length ys) = omega arith in q)
    ∙ window-write_seg (update buf t x) cap h (suc n) (t + 1) (y ∷ ys) hh
        (step_last cap h n t e (omega arith)) (omega arith) (omega arith)
    ∙ ap (λ zs. zs ++ y ∷ ys) (window-store buf cap h n t x hh (omega arith) e)
    ∙ append_assoc (window buf cap h n) (x ∷ []) (y ∷ ys)

pub window-segment :
    (buf : ℕ → ℕ) (cap h seg n k : ℕ)
    → 0 < seg
    → h + seg ≤ cap
    → k ≡ seg + n
    → window buf cap h k ≡ read_seg buf h seg ++ window buf cap ((h + seg) % cap) n
window-segment buf cap h zero n k pos fits e = absurd (omega arith)
window-segment buf cap h (suc seg) n k pos fits e =
    ap (λ j. window buf cap h j) (let q : k ≡ suc (seg + n) = omega arith in q)
    ∙ window-read_seg buf cap h seg n fits

-- A window is its first `a` bytes and a window from there on.
pub window-append :
    (buf : ℕ → ℕ) (cap h a b k : ℕ)
    → h < cap
    → k ≡ a + b
    → window buf cap h k ≡ window buf cap h a ++ window buf cap ((h + a) % cap) b
window-append buf cap h zero b k hh e =
    rw (let q : k ≡ b = omega arith in q)
      (ap (λ i. window buf cap i b) (sym (mod-eq_of_lt hh) ∙ ap (λ i. i % cap) (omega arith)))
window-append buf cap h (suc a) b k hh e = rw (let q : k ≡ suc (a + b) = omega arith in q) (
    ap (λ ys. buf h ∷ ys)
      (window-append buf cap ((h + 1) % cap) a b (a + b) (mod-lt _ (omega arith)) refl
        ∙ ap (λ i. window buf cap ((h + 1) % cap) a ++ window buf cap i b) (step_first cap h a)))

pub length-window : (buf : ℕ → ℕ) (cap h n : ℕ) → length (window buf cap h n) ≡ n
length-window buf cap h zero = refl
length-window buf cap h (suc n) = ap suc (length-window buf cap ((h + 1) % cap) n)

-- A window depends on the entries only.
pub window-same {ℓ} :
    {A : Type ℓ} (f g : ℕ → A) (cap h n : ℕ)
    → ((i : ℕ) → f i ≡ g i)
    → window f cap h n ≡ window g cap h n
window-same f g cap h zero e = refl
window-same f g cap h (suc n) e =
    ap (λ x. x ∷ window f cap ((h + 1) % cap) n) (e h)
    ∙ ap (λ xs. g h ∷ xs) (window-same f g cap ((h + 1) % cap) n e)
