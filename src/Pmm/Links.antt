-- ===== src/Pmm/Links.antt =====
-- Free lists: chains of frames through their first words.
use mobile_phone_os.Prelude.{
  ℕ, ◌≡◌, refl, true, false, ◌||◌, List, [], ◌∷◌, ◌++◌, arith, update, All,
}
use mobile_phone_os.Task.Queue.{has, Distinct}

-- From `head` the links lead through the frames `xs`, in that order, to 0.
abbrev pub Links : (ℕ → ℕ) → ℕ → List ℕ → Type 0
Links mem head [] = head ≡ 0
Links mem head (x ∷ xs) = (head ≡ x) × Links mem (mem x) xs

-- The last frame of a list, or 0.
abbrev pub last : List ℕ → ℕ
last [] = 0
last (x ∷ []) = x
last (x ∷ y ∷ ys) = last (y ∷ ys)

pub last-append : (xs : List ℕ) (y : ℕ) → last (xs ++ y ∷ []) ≡ y
last-append [] y = refl
last-append (x ∷ []) y = refl
last-append (x ∷ z ∷ zs) y = last-append (z ∷ zs) y

-- A write to a frame that is not in the list leaves it as it is.
pub Links-update :
    (mem : ℕ → ℕ) (head a v : ℕ) (xs : List ℕ)
    → has a xs ≡ false
    → Links mem head xs
    → Links (update mem a v) head xs
Links-update mem head a v [] out h = h
Links-update mem head a v (x ∷ xs) out h =
    let same : update mem a v x ≡ mem x = ground arith in
    (h.0, rw same (Links-update mem (mem x) a v xs (ground arith) h.1))

has-last : (x : ℕ) (xs ys : List ℕ) → has (last (x ∷ xs)) ((x ∷ xs) ++ ys) ≡ true
has-last x [] ys = ground arith
has-last x (y ∷ zs) ys = ground (arith, has-last y zs ys)

pub has-append : (a : ℕ) (xs ys : List ℕ) → has a (xs ++ ys) ≡ (has a xs || has a ys)
has-append a [] ys = refl
has-append a (x ∷ xs) ys = ground (arith, has-append a xs ys)

pub Distinct-cut : (xs ys zs : List ℕ) → Distinct (xs ++ (ys ++ zs)) → Distinct (xs ++ zs)
Distinct-cut [] [] zs d = d
Distinct-cut [] (y ∷ ys) zs d = Distinct-cut [] ys zs d.1
Distinct-cut (x ∷ xs) ys zs d = (
  ground (arith, d.0, has-append x xs (ys ++ zs), has-append x ys zs, has-append x xs zs),
  Distinct-cut xs ys zs d.1,
)

pub All-cut : (P : ℕ → Type 0) (xs ys zs : List ℕ) → All P (xs ++ (ys ++ zs)) → All P (xs ++ zs)
All-cut P [] [] zs d = d
All-cut P [] (y ∷ ys) zs d = All-cut P [] ys zs d.1
All-cut P (x ∷ xs) ys zs d = (d.0, All-cut P xs ys zs d.1)

-- A chain leads on to what is behind its first part.
pub Links-cut :
    (mem : ℕ → ℕ) (head next : ℕ) (x : ℕ) (xs ys zs : List ℕ)
    → Links mem head ((x ∷ xs) ++ (ys ++ zs))
    → Links mem next zs
    → Distinct ((x ∷ xs) ++ zs)
    → Links (update mem (last (x ∷ xs)) next) head ((x ∷ xs) ++ zs)
Links-cut mem head next x [] ys zs h rest d =
    let here : update mem x next x ≡ next = ground arith in
    (h.0, rw here (Links-update mem next x next zs d.0 rest))
Links-cut mem head next x (y ∷ xs) ys zs h rest d =
    let other : update mem (last (y ∷ xs)) next x ≡ mem x = ground (arith, has-last y xs zs, d.0) in
    (h.0, rw other (Links-cut mem (mem x) next y xs ys zs h.1 rest d.1))
