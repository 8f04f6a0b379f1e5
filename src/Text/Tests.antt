-- ===== src/Text/Tests.antt =====
-- A memory in which a string of two characters stands at 10.
use mobile_phone_os.Prelude.{
  ℕ, ◌+◌, ◌-◌, ◌≡◌, inl, inr, refl, arith, some, if◌then◌else◌, ◌==◌, min, eq-cases,
}
use mobile_phone_os.Text.{memmove, kstrlcpy}
use mobile_phone_os.Text.Move.{moved, memmove-moved}
use mobile_phone_os.Text.Copy.{IsString, kstrlcpy-IsString}

abbrev bytes : ℕ → ℕ
bytes a = if a == 10 then 72 else if a == 11 then 105 else 0

bytes-IsString : IsString bytes 10 2
bytes-IsString = record {
  chars = λ i l. elim (eq-cases i 0) [ inl e ↦ ground (arith, l) | inr e ↦ ground (arith, l, e) ];
  nul = refl;
}

memmove-moved_example : memmove bytes 11 10 2 12 ≡ moved bytes 11 10 2 12
memmove-moved_example = memmove-moved bytes 11 10 2 12

kstrlcpy-IsString_example :
    (mem' : ℕ → ℕ) × (kstrlcpy 3 bytes 20 10 2 ≡ some (2, mem'))
    × IsString mem' 20 (min 2 (2 - 1))
    × ((a : ℕ)
        → mem' a ≡ (if a == 20 + min 2 (2 - 1) then 0 else moved bytes 20 10 (min 2 (2 - 1)) a))
kstrlcpy-IsString_example =
    kstrlcpy-IsString 3 bytes 20 10 2 2 bytes-IsString (omega arith) (omega arith)
      (inl (omega arith))
