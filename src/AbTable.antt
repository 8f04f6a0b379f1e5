-- ===== src/AbTable.antt =====
-- kernel/abmgr.c: the table of the two update slots with its checksum. `struct ab_table` is kept as its
-- 80 bytes, since the checksum and the device see these.
pub mod Crc
use Prim.Native.Nat.{bit_xor}
use mobile_phone_os.Prelude.{
  ℕ, zero, suc, ◌+◌, ◌-◌, ◌*◌, ◌/◌, ◌%◌, ◌^◌, Bool, true, false, not, ◌&&◌, ◌||◌, Option, none,
  some, ltb, leb, ◌==◌, if◌then◌else◌, update, ℤ, pos, negsuc, add64, add32,
}

abbrev pub ab_magic : ℕ
ab_magic = 0x41424d47

abbrev pub ab_table_version : ℕ
ab_table_version = 1

abbrev pub ab_max_attempts : ℕ
ab_max_attempts = 3

-- The 32 bits at an offset, read and written.
abbrev pub get32 : (ℕ → ℕ) → ℕ → ℕ
get32 t off = t off + 256 * t (off + 1) + 256 ^ 2 * t (off + 2) + 256 ^ 3 * t (off + 3)

abbrev pub put32 : (ℕ → ℕ) → (off v : ℕ) → (ℕ → ℕ)
put32 t off v a =
    if a == off
    then v % 256
    else if a == off + 1
    then v / 256 % 256
    else if a == off + 2
    then v / 256 ^ 2 % 256
    else if a == off + 3
    then v / 256 ^ 3 % 256
    else t a

-- A `uint64_t` is its two halves.
abbrev pub put64 : (ℕ → ℕ) → (off v : ℕ) → (ℕ → ℕ)
put64 t off v = put32 (put32 t off v) (off + 4) (v / 2 ^ 32)

-- The offsets of the table, and of the fields of slot `k`.
abbrev pub version_at : ℕ
version_at = 4

abbrev pub rollbacks_at : ℕ
rollbacks_at = 72

abbrev pub crc_at : ℕ
crc_at = 76

abbrev pub table_size : ℕ
table_size = 80

abbrev pub slot_at : ℕ → ℕ
slot_at k = 8 + 32 * k

abbrev pub attempts_at : ℕ → ℕ
attempts_at k = slot_at k + 24

abbrev pub confirmed_at : ℕ → ℕ
confirmed_at k = slot_at k + 25

abbrev pub active_at : ℕ → ℕ
active_at k = slot_at k + 26

abbrev pub valid_at : ℕ → ℕ
valid_at k = slot_at k + 27

-- One bit of `crc32_calc`.
unfoldable pub crc_bit : ℕ → ℕ
crc_bit crc = bit_xor (crc / 2) (if crc % 2 == 1 then 0xedb88320 else 0)

unfoldable pub crc_byte : (crc byte : ℕ) → ℕ
unfolding crc_bit
crc_byte crc byte =
    crc_bit (crc_bit (crc_bit (crc_bit (crc_bit (crc_bit (crc_bit (crc_bit (bit_xor crc byte))))))))

-- The loop of `crc32_calc` over the `n` bytes from `at` on.
unfoldable pub crc_loop : (n : ℕ) → (ℕ → ℕ) → (at crc : ℕ) → ℕ
unfolding crc_byte
crc_loop zero p at crc = crc
crc_loop (suc n) p at crc = crc_loop n p (at + 1) (crc_byte crc (p at))

unfoldable pub crc32_calc : (ℕ → ℕ) → ℕ → ℕ
unfolding crc_loop
crc32_calc p n = bit_xor (crc_loop n p 0 0xffffffff) 0xffffffff % 2 ^ 32

unfoldable pub table_crc : (ℕ → ℕ) → ℕ
unfolding crc32_calc
table_crc t = crc32_calc t crc_at

unfoldable pub table_valid : (ℕ → ℕ) → Bool
unfolding table_crc
table_valid t =
    (get32 t 0 == ab_magic)
    && (get32 t version_at == ab_table_version)
    && (get32 t crc_at == table_crc t)

-- The slot that the flags of the table call active.
abbrev pub flagged : (ℕ → ℕ) → ℤ
flagged t =
    if not (t (active_at 0) == 0)
    then pos 0
    else if not (t (active_at 1) == 0)
    then pos 1
    else negsuc 0
