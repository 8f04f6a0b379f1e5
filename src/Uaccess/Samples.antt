-- ===== src/Uaccess/Samples.antt =====
-- The addresses of the sample process.
use mobile_phone_os.Prelude.{ℕ, ◌+◌, ◌-◌, ◌^◌, ◌≤◌, ◌<◌, ◌≡◌, refl, some, arith}
use mobile_phone_os.Vmm.{vmm_probe, vmm_decode_flags}
use mobile_phone_os.Vmm.Samples.{tables, code_base}
use mobile_phone_os.Uaccess.In.{Injective, translated, chunk-translated}

found_at_base : vmm_probe tables 4096 code_base ≡ some (2 ^ 31, 11)
unfolding vmm_probe vmm_decode_flags
found_at_base = refl

page_address :
    (x : ℕ)
    → code_base ≤ x
    → x < code_base + 4096
    → translated tables 4096 x ≡ 2 ^ 31 + (x - code_base)
page_address x lo hi =
    chunk-translated tables 4096 code_base 4096 x (2 ^ 31) 11 (omega arith) found_at_base lo hi

pub page-Injective :
    (va len : ℕ) → code_base ≤ va → va + len ≤ code_base + 4096 → Injective tables 4096 va len
page-Injective va len from to x y lo hi lo' hi' e = omega (
  arith,
  e,
  page_address x (omega arith) (omega arith),
  page_address y (omega arith) (omega arith),
)
