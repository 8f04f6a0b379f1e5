-- ===== src/Vmm/Samples.antt =====
-- A process with one page, at the start of its code, mapped for writing to the frame 0x80000000.
use mobile_phone_os.Prelude.{ℕ, ◌+◌, ◌*◌, ◌^◌, ◌==◌, if◌then◌else◌}

-- The root is at 4096, the tables below it at 8192, 12288 and 16384.
abbrev pub tables : ℕ → ℕ
tables a =
    if a == 4096 + 8 * 2
    then 3 + 8192
    else if a == 8192
    then 3 + 12288
    else if a == 12288
    then 3 + 16384
    else if a == 16384
    then 2 ^ 31 + 0x60_0000_0000_0f43
    else 0

abbrev pub code_base : ℕ
code_base = 2 ^ 40
