-- ===== src/Ring/Tests.antt =====
-- A ring of four bytes whose contents go round the end.
use mobile_phone_os.Prelude.{
  ℕ, ◌≡◌, refl, some, List, [], ◌∷◌, ◌++◌, arith, take, if◌then◌else◌, ◌==◌, Option, none,
}
use mobile_phone_os.Ring.{IpcRing, free, pull, pull_loop, push, push_loop}
use mobile_phone_os.Ring.Refine.{contents, IsValid}
use mobile_phone_os.Ring.Fill.{Run, start, pushes, pulls, Run-fifo}

-- It holds 7 and 8, at the indices 3 and 0.
abbrev small : IpcRing
small = record { buf = λ i. if i == 3 then 7 else 8; cap = 4; head = 3; len = 2 }

small-IsValid : IsValid small
small-IsValid = record {
  cap_pos = omega arith;
  cap_le = omega arith;
  head_lt = omega arith;
  len_le = omega arith;
}

abbrev more : List ℕ
more = 1 ∷ 2 ∷ 3 ∷ []

-- Two of the three bytes fit.
push_fits : (r' : IpcRing) × (push small more ≡ some (2, r')) × (contents r' ≡ 7 ∷ 8 ∷ 1 ∷ 2 ∷ [])
unfolding push push_loop free
push_fits = (_, refl, refl)

abbrev pushed : Option (ℕ × IpcRing) → IpcRing
pushed none = small
pushed (some (k, r)) = r

abbrev pulled : Option (List ℕ × IpcRing) → IpcRing
pulled none = small
pulled (some (bytes, r)) = r

-- The ring after both calls.
abbrev last : IpcRing
last = pulled (pull (pushed (push small more)) 1)

run : Run small ([] ++ take 2 more) ([] ++ 7 ∷ []) last
unfolding push push_loop free pull pull_loop
run = pulls _ _ _ 1 _ _ (pushes _ _ _ more 2 _ start refl) refl

Run-fifo_example :
    IsValid last × (contents small ++ ([] ++ take 2 more) ≡ ([] ++ 7 ∷ []) ++ contents last)
Run-fifo_example = Run-fifo small-IsValid run
