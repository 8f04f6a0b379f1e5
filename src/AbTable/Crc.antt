-- ===== src/AbTable/Crc.antt =====
-- The checksum of the table sees its bytes and nothing else.
use mobile_phone_os.Prelude.{
  ℕ, zero, suc, ◌+◌, ◌%◌, ◌^◌, ◌≤◌, ◌<◌, ◌≡◌, refl, ap, ◌∙◌, true, false, ◌==◌, arith,
}
use mobile_phone_os.AbTable.{
  ab_magic, ab_table_version, get32, put32, version_at, crc_at, table_size, crc_byte, crc_loop,
  crc32_calc, table_crc, table_valid, flagged, active_at,
}
use Prim.Native.Nat.{bit_xor}

crc_loop-ext :
    (n : ℕ) (p q : ℕ → ℕ) (at crc : ℕ)
    → ((i : ℕ) → at ≤ i → i < at + n → p i ≡ q i)
    → crc_loop n p at crc ≡ crc_loop n q at crc
unfolding crc_loop
crc_loop-ext zero p q at crc h = refl
crc_loop-ext (suc n) p q at crc h =
    ap (λ b. crc_loop n p (at + 1) (crc_byte crc b)) (h at (omega arith) (omega arith))
    ∙ crc_loop-ext n p q (at + 1) (crc_byte crc (q at)) (λ i lo hi. h i (omega arith) (omega arith))

pub table_crc-ext : (t u : ℕ → ℕ) → ((i : ℕ) → i < crc_at → t i ≡ u i) → table_crc t ≡ table_crc u
unfolding table_crc crc32_calc
table_crc-ext t u h =
    ap (λ c. bit_xor c 0xffffffff % 2 ^ 32)
      (crc_loop-ext 76 t u 0 0xffffffff (λ i lo hi. h i (omega arith)))

table_crc-lt : (t : ℕ → ℕ) → table_crc t < 2 ^ 32
unfolding table_crc crc32_calc
table_crc-lt t = omega arith

-- The word of a range of bytes depends on these only.
pub get32-ext :
    (t u : ℕ → ℕ) (n off : ℕ)
    → ((i : ℕ) → i < n → t i ≡ u i)
    → off + 3 < n
    → get32 t off ≡ get32 u off
get32-ext t u n off h lt = omega (
  arith,
  h off (omega arith),
  h (off + 1) (omega arith),
  h (off + 2) (omega arith),
  h (off + 3) (omega arith),
)

pub get32-put32 : (t : ℕ → ℕ) (v : ℕ) → v < 2 ^ 32 → get32 (put32 t crc_at v) crc_at ≡ v
get32-put32 t v lt = omega arith

pub put32-below : (t : ℕ → ℕ) (off v i : ℕ) → i < off → put32 t off v i ≡ t i
put32-below t off v i lt =
    let a : (i == off) ≡ false = ground (arith, lt) in
    let b : (i == off + 1) ≡ false = ground (arith, lt) in
    let c : (i == off + 2) ≡ false = ground (arith, lt) in
    let d : (i == off + 3) ≡ false = ground (arith, lt) in rw (a, b, c, d) refl

-- A table is valid or not by its bytes.
pub table_valid-ext :
    (t u : ℕ → ℕ) → ((i : ℕ) → i < table_size → t i ≡ u i) → table_valid t ≡ table_valid u
unfolding table_valid
table_valid-ext t u h =
    rw
      (
        get32-ext t u table_size 0 h (omega arith),
        get32-ext t u table_size version_at h (omega arith),
        get32-ext t u table_size crc_at h (omega arith),
        table_crc-ext t u (λ i lt. h i (omega arith)),
      )
      refl

pub flagged-ext : (t u : ℕ → ℕ) → ((i : ℕ) → i < table_size → t i ≡ u i) → flagged t ≡ flagged u
flagged-ext t u h = rw (h (active_at 0) (omega arith), h (active_at 1) (omega arith)) refl

itself : (n : ℕ) → (n == n) ≡ true
itself n = ground arith

-- A table that has been repaired is valid.
pub table_valid-repaired :
    (t : ℕ → ℕ)
    → get32 t 0 ≡ ab_magic
    → get32 t version_at ≡ ab_table_version
    → table_valid (put32 t crc_at (table_crc t)) ≡ true
unfolding table_valid
table_valid-repaired t m v =
    let r = put32 t crc_at (table_crc t) in
    let under : ((i : ℕ) → i < crc_at → r i ≡ t i) =
      λ i lt. put32-below t crc_at (table_crc t) i lt in
    let crc : get32 r crc_at ≡ table_crc t = get32-put32 t (table_crc t) (table_crc-lt t) in
    rw
      (
        get32-ext r t crc_at 0 under (omega arith),
        get32-ext r t crc_at version_at under (omega arith),
        table_crc-ext r t under,
        crc,
        m,
        v,
      )
      (itself (table_crc t))
