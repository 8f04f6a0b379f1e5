-- ===== src/Elf/Overlap.antt =====
-- The copy and the zeros of `load_segment` on one page, at one address.
use mobile_phone_os.Prelude.{
  ℕ, ◌+◌, ◌-◌, ◌%◌, ◌^◌, ◌≤◌, ◌<◌, ◌≡◌, ◌⊎◌, inl, inr, Bool-cases, refl, ap, Bool, true, false,
  ◌&&◌, ltb, leb, if◌then◌else◌, arith,
}
use native.Mathlib.Decide.{dec_lt}
use mobile_phone_os.Pmm.{page_size}

-- The two writes of a page at one address `a`: `lo` is the start of what is copied, `hf` and `hm` the
-- ends of the file and of the segment within the page, `at` where the zeros start.
module _ (va fr start f_end m_end lo hf hm at a : ℕ) (grow : start ≤ f_end) (more : f_end ≤ m_end)
    (inside : va < m_end) (starts : start < va + page_size) (low : (va ≤ lo) × (start ≤ lo))
    (low_is : (lo ≡ va) ⊎ (lo ≡ start)) (file : (hf ≤ va + page_size) × (hf ≤ f_end))
    (file_is : (hf ≡ va + page_size) ⊎ (hf ≡ f_end)) (mem : (hm ≤ va + page_size) × (hm ≤ m_end))
    (mem_is : (hm ≡ va + page_size) ⊎ (hm ≡ m_end)) (place : at + va ≡ fr + hf) where
  abbrev pub zeroes : Bool
  zeroes = ltb hf hm && (leb at a && ltb a (at + (hm - hf)))

  abbrev pub copies : Bool
  copies = ltb lo hf && (leb (fr + (lo - va)) a && ltb a (fr + (lo - va) + (hf - lo)))

  zeroes-true : hf < hm → at ≤ a → a + va < fr + hm → zeroes ≡ true
  zeroes-true p q r =
      let x : ltb hf hm ≡ true = ground (arith, p) in
      let y : leb at a ≡ true = ground (arith, q) in
      let z : ltb a (at + (hm - hf)) ≡ true = ground (arith, r, p, place) in rw (x, y, z) refl

  zeroes-below : a < at → zeroes ≡ false
  zeroes-below p =
      let y : leb at a ≡ false = ground (arith, p) in
      rw y (elim (Bool-cases (ltb hf hm)) [ inl e ↦ rw e refl | inr e ↦ rw e refl ])

  zeroes-beyond : fr + hm ≤ a + va → zeroes ≡ false
  zeroes-beyond p = elim (Bool-cases (ltb hf hm)) [
    | inr e ↦ rw e refl
    | inl e ↦
        let z : ltb a (at + (hm - hf)) ≡ false = ground (arith, e, p, place) in
        rw (e, z) (elim (Bool-cases (leb at a)) [ inl d ↦ rw d refl | inr d ↦ rw d refl ])
  ]

  copies-true : lo < hf → fr + lo ≤ a + va → a + va < fr + hf → copies ≡ true
  copies-true p q r =
      let x : ltb lo hf ≡ true = ground (arith, p) in
      let y : leb (fr + (lo - va)) a ≡ true = ground (arith, q, low) in
      let z : ltb a (fr + (lo - va) + (hf - lo)) ≡ true = ground (arith, r, p, low) in
      rw (x, y, z) refl

  copies-below : a + va < fr + lo → copies ≡ false
  copies-below p =
      let y : leb (fr + (lo - va)) a ≡ false = ground (arith, p, low) in
      rw y (elim (Bool-cases (ltb lo hf)) [ inl e ↦ rw e refl | inr e ↦ rw e refl ])

  copies-beyond : fr + hf ≤ a + va → copies ≡ false
  copies-beyond p = elim (Bool-cases (ltb lo hf)) [
    | inr e ↦ rw e refl
    | inl e ↦
        let z : ltb a (fr + (lo - va) + (hf - lo)) ≡ false = ground (arith, e, p, low) in
        rw (e, z)
          (elim (Bool-cases (leb (fr + (lo - va)) a)) [ inl d ↦ rw d refl | inr d ↦ rw d refl ])
  ]

  -- The byte at `a`, and what it is.
  abbrev pub written : (phys img : ℕ → ℕ) (o : ℕ) → ℕ
  written phys img o =
      if zeroes
      then 0
      else if copies
      then img ((o + (lo - start) + (a - (fr + (lo - va)))) % 2 ^ 64)
      else phys a

  abbrev pub wanted : (phys img : ℕ → ℕ) (o : ℕ) → ℕ
  wanted phys img o =
      if leb fr a && ltb a (fr + page_size)
      then (if ltb (va + (a - fr)) start
          then phys a
          else if ltb (va + (a - fr)) f_end
          then img ((o + (va + (a - fr) - start)) % 2 ^ 64)
          else if ltb (va + (a - fr)) m_end
          then 0
          else phys a)
      else if ltb a fr && leb (fr + f_end) (a + va)
      then 0
      else phys a

  in_frame :
      (phys img : ℕ → ℕ) (o : ℕ)
      → fr ≤ a
      → a < fr + page_size
      → written phys img o ≡ wanted phys img o
  in_frame phys img o l h =
      let c : (leb fr a && ltb a (fr + page_size)) ≡ true = ground (arith, l, h) in
      rw c (elim (dec_lt (va + (a - fr)) start) [
        | yes p ↦
            let d : ltb (va + (a - fr)) start ≡ true = ground (arith, p) in
            rw (d, zeroes-below (omega arith), copies-below (omega arith)) refl
        | no p ↦
            let d : ltb (va + (a - fr)) start ≡ false = ground (arith, p) in
            elim (dec_lt (va + (a - fr)) f_end) [
              | yes q ↦
                  let e : ltb (va + (a - fr)) f_end ≡ true = ground (arith, q) in
                  rw
                    (
                      d,
                      e,
                      zeroes-below (omega arith),
                      copies-true (omega arith) (omega arith) (omega arith),
                    )
                    (ap (λ x. img (x % 2 ^ 64)) (omega arith))
              | no q ↦
                  let e : ltb (va + (a - fr)) f_end ≡ false = ground (arith, q) in
                  elim (dec_lt (va + (a - fr)) m_end) [
                    | yes r ↦
                        let g : ltb (va + (a - fr)) m_end ≡ true = ground (arith, r) in
                        rw (d, e, g, zeroes-true (omega arith) (omega arith) (omega arith)) refl
                    | no r ↦
                        let g : ltb (va + (a - fr)) m_end ≡ false = ground (arith, r) in
                        rw (d, e, g, zeroes-beyond (omega arith), copies-beyond (omega arith)) refl
                  ]
            ]
      ])

  pub written-wanted : (phys img : ℕ → ℕ) (o : ℕ) → written phys img o ≡ wanted phys img o
  written-wanted phys img o = elim (dec_lt a fr) [
    | yes p ↦
        let c : leb fr a ≡ false = ground (arith, p) in
        let d : ltb a fr ≡ true = ground (arith, p) in
        elim (dec_lt (a + va) (fr + f_end)) [
          | yes q ↦
              let e : leb (fr + f_end) (a + va) ≡ false = ground (arith, q) in
              rw (c, d, e, zeroes-below (omega arith), copies-below (omega arith)) refl
          | no q ↦
              let e : leb (fr + f_end) (a + va) ≡ true = ground (arith, q) in
              rw (c, d, e, zeroes-true (omega arith) (omega arith) (omega arith)) refl
        ]
    | no p ↦ elim (dec_lt a (fr + page_size)) [
      | yes q ↦ in_frame phys img o (omega arith) q
      | no q ↦
          let c : leb fr a ≡ true = ground (arith, p) in
          let d : ltb a fr ≡ false = ground (arith, p) in
          let e : ltb a (fr + page_size) ≡ false = ground (arith, q) in
          rw (c, d, e, zeroes-beyond (omega arith), copies-beyond (omega arith)) refl
    ]
  ]
