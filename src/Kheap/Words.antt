-- ===== src/Kheap/Words.antt =====
-- Words of bytes in a memory.
use mobile_phone_os.Prelude.{
  ℕ, ◌+◌, ◌/◌, ◌%◌, ◌^◌, ◌≤◌, ◌<◌, ◌≡◌, ◌⊎◌, inl, inr, refl, true, false, ◌==◌, arith,
}
use mobile_phone_os.AbTable.{get32, put32, put64}
use mobile_phone_os.Kheap.{get16, put16, get64, set_bytes}

differs : (i k : ℕ) → (i < k) ⊎ (k < i) → (i == k) ≡ false
differs i k (inl lt) = ground (arith, lt)
differs i k (inr lt) = ground (arith, lt)

itself : (i : ℕ) → (i == i) ≡ true
itself i = ground arith

pub put32-apart : (t : ℕ → ℕ) (off v i : ℕ) → (i < off) ⊎ (off + 4 ≤ i) → put32 t off v i ≡ t i
put32-apart t off v i (inl lt) =
    rw
      (
        differs i off (inl lt),
        differs i (off + 1) (inl (omega arith)),
        differs i (off + 2) (inl (omega arith)),
        differs i (off + 3) (inl (omega arith)),
      )
      refl
put32-apart t off v i (inr ge) =
    rw
      (
        differs i off (inr (omega arith)),
        differs i (off + 1) (inr (omega arith)),
        differs i (off + 2) (inr (omega arith)),
        differs i (off + 3) (inr (omega arith)),
      )
      refl

put32-bytes :
    (t : ℕ → ℕ) (off v : ℕ)
    → (put32 t off v off ≡ v % 256)
      × ((put32 t off v (off + 1) ≡ v / 256 % 256)
          × ((put32 t off v (off + 2) ≡ v / 256 ^ 2 % 256)
              × (put32 t off v (off + 3) ≡ v / 256 ^ 3 % 256)))
put32-bytes t off v = (
  rw (itself off) refl,
  (
    rw (differs (off + 1) off (inr (omega arith)), itself (off + 1)) refl,
    (
      rw
          (
            differs (off + 2) off (inr (omega arith)),
            differs (off + 2) (off + 1) (inr (omega arith)),
            itself (off + 2),
          )
          refl,
      rw
          (
            differs (off + 3) off (inr (omega arith)),
            differs (off + 3) (off + 1) (inr (omega arith)),
            differs (off + 3) (off + 2) (inr (omega arith)),
            itself (off + 3),
          )
          refl,
    ),
  ),
)

pub put32-get32 : (t : ℕ → ℕ) (off v : ℕ) → v < 2 ^ 32 → get32 (put32 t off v) off ≡ v
put32-get32 t off v lt =
    let b = put32-bytes t off v in omega (arith, b.0, b.1.0, b.1.1.0, b.1.1.1, lt)

-- Words of memories that agree on their bytes.
pub get32-same :
    (t u : ℕ → ℕ) (off : ℕ)
    → ((i : ℕ) → off ≤ i → i < off + 4 → t i ≡ u i)
    → get32 t off ≡ get32 u off
get32-same t u off h =
    rw
      (
        h off (omega arith) (omega arith),
        h (off + 1) (omega arith) (omega arith),
        h (off + 2) (omega arith) (omega arith),
        h (off + 3) (omega arith) (omega arith),
      )
      refl

pub get16-same :
    (t u : ℕ → ℕ) (off : ℕ)
    → ((i : ℕ) → off ≤ i → i < off + 2 → t i ≡ u i)
    → get16 t off ≡ get16 u off
get16-same t u off h =
    rw (h off (omega arith) (omega arith), h (off + 1) (omega arith) (omega arith)) refl

pub put64-get64 : (t : ℕ → ℕ) (off v : ℕ) → v < 2 ^ 64 → get64 (put64 t off v) off ≡ v
put64-get64 t off v lt =
    let low : get32 (put64 t off v) off ≡ get32 (put32 t off v) off =
      get32-same (put64 t off v) (put32 t off v) off
        (λ i lo hi. put32-apart (put32 t off v) (off + 4) (v / 2 ^ 32) i (inl hi)) in
    let high = put32-get32 (put32 t off v) (off + 4) (v / 2 ^ 32) (omega arith) in
    let b = put32-bytes t off v in omega (arith, low, high, b.0, b.1.0, b.1.1.0, b.1.1.1, lt)

pub set_bytes-apart :
    (t : ℕ → ℕ) (dst c n i : ℕ) → (i < dst) ⊎ (dst + n ≤ i) → set_bytes t dst c n i ≡ t i
set_bytes-apart t dst c n i (inl lt) = ground (arith, lt)
set_bytes-apart t dst c n i (inr ge) = ground (arith, ge)

pub put16-apart : (t : ℕ → ℕ) (off v i : ℕ) → (i < off) ⊎ (off + 2 ≤ i) → put16 t off v i ≡ t i
put16-apart t off v i (inl lt) =
    rw (differs i off (inl lt), differs i (off + 1) (inl (omega arith))) refl
put16-apart t off v i (inr ge) =
    rw (differs i off (inr (omega arith)), differs i (off + 1) (inr (omega arith))) refl
