-- ===== src/Uaccess/Tests.antt =====
-- Copies to and from the sample process.
use mobile_phone_os.Prelude.{
  ℕ, ◌+◌, ◌-◌, ◌^◌, ◌≡◌, refl, some, arith, leb, ◌&&◌, ltb, if◌then◌else◌, pos,
}
use mobile_phone_os.Vmm.{vmm_probe, leaf_desc, vmm_decode_flags}
use mobile_phone_os.Vmm.Samples.{tables, code_base}
use mobile_phone_os.Uaccess.{
  efault, uacc_copy_in, uacc_copy_out, copy_out_loop, check_range, range_ok,
}
use mobile_phone_os.Uaccess.Samples.{page-Injective}
use mobile_phone_os.Uaccess.Out.{CopyOut, uacc_copy_out-safe}
use mobile_phone_os.Uaccess.In.{uacc_copy_in-uacc_copy_out}

probed : vmm_probe tables 4096 (code_base + 7) ≡ some (2 ^ 31 + 7, 11)
unfolding vmm_probe vmm_decode_flags
probed = refl

described : leaf_desc (2 ^ 31) 11 ≡ 2 ^ 31 + 0x60_0000_0000_0f43
unfolding leaf_desc
described = refl

abbrev buffer : ℕ → ℕ
buffer i = i + 1

abbrev empty : ℕ → ℕ
empty a = 0

abbrev written : ℕ → ℕ
written a =
    if leb (2 ^ 31 + 4) a && ltb a (2 ^ 31 + 4 + 3)
    then buffer (0 + (a - (2 ^ 31 + 4)))
    else empty a

copies : uacc_copy_out tables empty 4096 (code_base + 4) buffer 3 ≡ some (pos 0, written)
unfolding uacc_copy_out copy_out_loop check_range range_ok vmm_probe vmm_decode_flags
copies = refl

beyond_page : uacc_copy_out tables empty 4096 (code_base + 4094) buffer 3 ≡ some (efault, empty)
unfolding uacc_copy_out copy_out_loop check_range range_ok vmm_probe vmm_decode_flags
beyond_page = refl

uacc_copy_out-safe_example :
    CopyOut tables empty 4096
      (code_base + 4)
      3
      (uacc_copy_out tables empty 4096 (code_base + 4) buffer 3)
uacc_copy_out-safe_example =
    uacc_copy_out-safe tables empty buffer 4096 (code_base + 4) 3 (omega arith) (omega arith)

uacc_copy_in-uacc_copy_out_example :
    (kdst' : ℕ → ℕ) × (uacc_copy_in tables written empty 4096 (code_base + 4) 3
      ≡ some (pos 0, kdst'))
    × ((i : ℕ) → kdst' i ≡ (if ltb i 3 then buffer i else empty i))
uacc_copy_in-uacc_copy_out_example =
    uacc_copy_in-uacc_copy_out tables empty buffer empty written 4096 (code_base + 4) 3
      (omega arith) (omega arith) (page-Injective (code_base + 4) 3 (omega arith) (omega arith))
      copies
