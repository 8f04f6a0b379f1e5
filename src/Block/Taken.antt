-- ===== src/Block/Taken.antt =====
-- What it means that a device has taken the bytes of a write.
use mobile_phone_os.Prelude.{
  ℕ, ◌+◌, ◌-◌, ◌*◌, ◌/◌, ◌%◌, ◌≤◌, ◌<◌, ◌≡◌, ◌⊎◌, inl, inr, refl, ap, ◌∙◌, true, false, ◌&&◌, ltb,
  leb, ◌==◌, if◌then◌else◌, arith, subst, Bool-cases,
}
use native.Mathlib.Decide.{dec_lt}
use mobile_phone_os.Block.{blk_sector_size, Driver, placed, behind}

-- The sectors that a request of `bytes` bytes covers, with the last one filled up by zeros.
abbrev pub sectors : ℕ → ℕ
sectors bytes = bytes / blk_sector_size + (if bytes % blk_sector_size == 0 then 0 else 1)

abbrev pub padded : (bytes : ℕ) → (ℕ → ℕ) → ℕ → ℕ
padded bytes buf i = if ltb i bytes then buf i else 0

module _ {D : Type 0} (drv : Driver D) where
  -- The device holds the bytes `from` in `n` sectors from `cur` on, and is otherwise as before.
  abbrev pub Taken : (d d' : D) (cur n : ℕ) → (ℕ → ℕ) → Type 0
  Taken d d' cur n from =
      (x i : ℕ)
      → i < blk_sector_size
      → drv.sector d' x i ≡ (
          if leb cur x && ltb x (cur + n)
          then from ((x - cur) * blk_sector_size + i)
          else drv.sector d x i)

  -- Two devices are the same but for the sectors from `lo` to `hi`.
  abbrev pub Spared : (d d' : D) (lo hi : ℕ) → Type 0
  Spared d d' lo hi =
      (x i : ℕ) → i < blk_sector_size → (x < lo) ⊎ (hi ≤ x) → drv.sector d' x i ≡ drv.sector d x i

  pub Spared-append :
      (d d1 d2 : D) (lo mid hi : ℕ)
      → lo ≤ mid
      → mid ≤ hi
      → Spared d d1 lo mid
      → Spared d1 d2 mid hi
      → Spared d d2 lo hi
  Spared-append d d1 d2 lo mid hi le le' u v x i it (inl lt) =
      v x i it (inl (omega (arith, lt, le))) ∙ u x i it (inl lt)
  Spared-append d d1 d2 lo mid hi le le' u v x i it (inr ge) =
      v x i it (inr ge) ∙ u x i it (inr (omega (arith, ge, le')))

  pub Spared-wider :
      (d d' : D) (lo hi lo' hi' : ℕ) → lo' ≤ lo → hi ≤ hi' → Spared d d' lo hi → Spared d d' lo' hi'
  Spared-wider d d' lo hi lo' hi' le le' u x i it (inl lt) = u x i it (inl (omega (arith, lt, le)))
  Spared-wider d d' lo hi lo' hi' le le' u x i it (inr ge) = u x i it (inr (omega (arith, ge, le')))

  pub Taken-append :
      (d d1 d2 : D) (cur m n : ℕ) (from : ℕ → ℕ)
      → m ≤ n
      → Taken d d1 cur m from
      → Taken d1 d2 (cur + m) (n - m) (behind from (m * blk_sector_size))
      → Taken d d2 cur n from
  Taken-append d d1 d2 cur m n from le t u x i lt = u x i lt ∙ elim (dec_lt x (cur + m)) [
    | yes near ↦
        let a : (leb (cur + m) x && ltb x (cur + m + (n - m))) ≡ false = ground (arith, near) in
        rw a (
          t x i lt
          ∙ ap (λ b. if b then from ((x - cur) * blk_sector_size + i) else drv.sector d x i)
              (ground (arith, near)))
    | no far ↦ elim (dec_lt x (cur + n)) [
      | yes inside ↦
          let a : (leb (cur + m) x && ltb x (cur + m + (n - m))) ≡ true =
            ground (arith, far, inside) in
          let b : (leb cur x && ltb x (cur + n)) ≡ true = ground (arith, far, inside) in
          rw (a, b) (ap from (omega arith))
      | no beyond ↦
          let a : (leb (cur + m) x && ltb x (cur + m + (n - m))) ≡ false = ground (arith, beyond) in
          let b : (leb cur x && ltb x (cur + n)) ≡ false = ground (arith, beyond) in
          let c : (leb cur x && ltb x (cur + m)) ≡ false = ground (arith, far) in
          rw (a, b)
            (t x i lt
              ∙ ap (λ q. if q then from ((x - cur) * blk_sector_size + i) else drv.sector d x i) c)
    ]
  ]

  pub Taken-ext :
      (d d' : D) (cur n m : ℕ) (from from' : ℕ → ℕ)
      → n ≡ m
      → ((j : ℕ) → j < n * blk_sector_size → from j ≡ from' j)
      → Taken d d' cur n from
      → Taken d d' cur m from'
  Taken-ext d d' cur n m from from' e same t =
      subst (λ k. Taken d d' cur k from') e
        λ x i lt. t x i lt ∙ elim (Bool-cases (leb cur x && ltb x (cur + n))) [
          | inl inside ↦
              rw inside (same ((x - cur) * blk_sector_size + i) (ground (arith, inside, lt)))
          | inr outside ↦ rw outside refl
        ]

  pub Taken-whole :
      (d d' : D) (lba whole bytes n : ℕ) (buf : ℕ → ℕ)
      → bytes ≡ whole * blk_sector_size
      → whole ≡ n
      → Taken d d' lba whole buf
      → Taken d d' lba n (padded bytes buf)
  Taken-whole d d' lba whole bytes n buf e same t =
      Taken-ext d d' lba whole n buf (padded bytes buf) same (λ j lt. ground (arith, lt, e)) t

  pub Taken-tail :
      (d d1 d2 : D) (lba whole tail bytes n : ℕ) (buf : ℕ → ℕ)
      → bytes ≡ whole * blk_sector_size + tail
      → tail < blk_sector_size
      → whole + 1 ≡ n
      → Taken d d1 lba whole buf
      → Taken d1 d2 (lba + whole) 1 (placed (λ i. 0) 0 (behind buf (whole * blk_sector_size)) tail)
      → Taken d d2 lba n (padded bytes buf)
  Taken-tail d d1 d2 lba whole tail bytes n buf e short same t u =
      subst (λ k. Taken d d2 lba k (padded bytes buf)) same
        (Taken-append d d1 d2 lba whole (whole + 1) (padded bytes buf) (omega arith)
          (Taken-ext d d1 lba whole whole buf (padded bytes buf) refl
            (λ j lt. ground (arith, lt, e)) t)
          (Taken-ext d1 d2 (lba + whole) 1 (whole + 1 - whole)
            (placed (λ i. 0) 0 (behind buf (whole * blk_sector_size)) tail)
            (behind (padded bytes buf) (whole * blk_sector_size)) (omega arith) (λ j lt. last j) u))
    where
      last :
          (j : ℕ)
          → placed (λ i. 0) 0 (behind buf (whole * blk_sector_size)) tail j
            ≡ padded bytes buf (whole * blk_sector_size + j)
      last j = elim (dec_lt j tail) [
        | yes lt ↦
            let a : (leb 0 j && ltb j (0 + tail)) ≡ true = ground (arith, lt) in
            let b : ltb (whole * blk_sector_size + j) bytes ≡ true = ground (arith, lt, e) in
            rw (a, b) (ap buf (omega arith))
        | no ge ↦
            let a : (leb 0 j && ltb j (0 + tail)) ≡ false = ground (arith, ge) in
            let b : ltb (whole * blk_sector_size + j) bytes ≡ false = ground (arith, ge, e) in
            rw (a, b) refl
      ]
