-- ===== src/Task/Queue.antt =====
-- Wait queues: singly linked lists of tasks through `wq_next`.
use mobile_phone_os.Prelude.{
  ℕ, ◌≡◌, Bool, true, false, ◌||◌, Option, none, some, List, [], ◌∷◌, ◌==◌, arith,
}
use mobile_phone_os.Task.{Task}

abbrev pub has : ℕ → List ℕ → Bool
has i [] = false
has i (x ∷ xs) = (i == x) || has i xs

-- From `head` the links lead through the slots `xs`, in that order, to the end.
abbrev pub Chain : (ℕ → Task) → Option ℕ → List ℕ → Type 0
Chain ts head [] = head ≡ none
Chain ts head (x ∷ xs) = (head ≡ some x) × Chain ts (ts x).wq_next xs

abbrev pub Distinct : List ℕ → Type 0
Distinct [] = Unit
Distinct (x ∷ xs) = (has x xs ≡ false) × Distinct xs

-- A queue depends on the links of its own members only.
pub Chain-frame :
    (ts ts' : ℕ → Task) (head : Option ℕ) (xs : List ℕ)
    → ((i : ℕ) → has i xs ≡ true → (ts' i).wq_next ≡ (ts i).wq_next)
    → Chain ts head xs
    → Chain ts' head xs
Chain-frame ts ts' head [] same h = h
Chain-frame ts ts' head (x ∷ xs) same h = (
  h.0,
  rw (same x (ground arith))
      (Chain-frame ts ts' (ts x).wq_next xs (λ i m. same i (ground arith)) h.1),
)
