-- ===== src/Block/Reads.antt =====
-- `block_read` gives what the device holds.
use mobile_phone_os.Prelude.{
  ℕ, ◌+◌, ◌-◌, ◌*◌, ◌/◌, ◌%◌, ◌^◌, ◌≤◌, ◌<◌, ◌≡◌, inl, inr, ap, ◌∙◌, Bool, true, false, ◌&&◌, ◌||◌,
  ltb, leb, ◌==◌, if◌then◌else◌, arith, subst, Bool-cases, add64,
}
use native.Mathlib.Decide.{dec_lt}
use native.Mathlib.Nat.{mod-eq_of_lt}
use mobile_phone_os.Block.{blk_sector_size, Driver, Disk, placed, submit_read, block_read}
use mobile_phone_os.Block.Coherent.{Coherent, ReadsTo, ReadsTo-none}
use mobile_phone_os.Block.Chunks.{submit_read-ReadsTo}

module _ {D : Type 0} (drv : Driver D) where
  -- The whole sectors of a request.
  abbrev whole_part : (c : Disk D) (lba whole : ℕ) (buf : ℕ → ℕ) → Bool × Disk D × (ℕ → ℕ)
  whole_part c lba whole buf =
      if whole == 0 then (true, c, buf) else submit_read drv whole c lba whole buf 0

  whole_part-ReadsTo :
      (c : Disk D) (lba whole : ℕ) (buf : ℕ → ℕ)
      → Coherent drv c
      → 0 < c.max_sectors
      → lba + whole < 2 ^ 64
      → (whole_part c lba whole buf).0 ≡ true
      → ReadsTo drv c (whole_part c lba whole buf).1 lba whole 0 buf (whole_part c lba whole buf).2
  whole_part-ReadsTo c lba whole buf h room fits e = elim (Bool-cases (whole == 0)) [
    | inl z ↦
        let none_left : 0 ≡ whole = ground (arith, z) in
        rw z
          (subst (λ k. ReadsTo drv c c lba k 0 buf buf) none_left (ReadsTo-none drv c lba 0 buf h))
    | inr nz ↦
        rw nz
          (submit_read-ReadsTo drv whole c lba whole buf 0 h room (omega arith) fits (rw nz at e))
  ]

  -- What a read that succeeds has done.
  pub record ReadBytes (c c' : Disk D) (lba bytes : ℕ) (buf buf' : ℕ → ℕ) : Type 0 where
    pub dev : c'.dev ≡ c.dev
    pub coherent : Coherent drv c'
    pub given :
        (i : ℕ)
        → buf' i ≡ (
            if ltb i bytes
            then drv.sector c.dev (lba + i / blk_sector_size) (i % blk_sector_size)
            else buf i)

  whole-ReadBytes :
      (c c' : Disk D) (lba whole bytes : ℕ) (buf buf' : ℕ → ℕ)
      → bytes ≡ whole * blk_sector_size
      → ReadsTo drv c c' lba whole 0 buf buf'
      → ReadBytes c c' lba bytes buf buf'
  whole-ReadBytes c c' lba whole bytes buf buf' e r = record {
    dev = r.dev;
    coherent = r.coherent;
    given = λ i. elim (Bool-cases (ltb i bytes)) [
      | inl lt ↦ rw lt (ap buf' (omega arith) ∙ r.inside i (ground (arith, lt, e)))
      | inr ge ↦ rw ge (r.outside i (inr (ground (arith, ge, e))))
    ];
  }

  tail-ReadBytes :
      (c c1 c2 : Disk D) (lba whole tail bytes : ℕ) (buf b1 sec b2 : ℕ → ℕ)
      → bytes ≡ whole * blk_sector_size + tail
      → tail < blk_sector_size
      → ReadsTo drv c c1 lba whole 0 buf b1
      → ReadsTo drv c1 c2 (lba + whole) 1 0 sec b2
      → ReadBytes c c2 lba bytes buf (placed b1 (whole * blk_sector_size) b2 tail)
  tail-ReadBytes c c1 c2 lba whole tail bytes buf b1 sec b2 e short r s = record {
    dev = s.dev ∙ r.dev;
    coherent = s.coherent;
    given = λ i. elim (dec_lt i (whole * blk_sector_size)) [
      | yes near ↦
          let out : (leb (whole * blk_sector_size) i && ltb i (whole * blk_sector_size + tail))
              ≡ false =
            ground (arith, near) in
          let lt : ltb i bytes ≡ true = ground (arith, near, e) in
          rw (out, lt) (ap b1 (omega arith) ∙ r.inside i near)
      | no far ↦ elim (Bool-cases (ltb i bytes)) [
        | inl lt ↦
            let inside : (leb (whole * blk_sector_size) i && ltb i (whole * blk_sector_size + tail))
                ≡ true =
              ground (arith, lt, e) in
            rw (inside, lt) (last i (ground (arith, lt, e)) (omega arith))
        | inr ge ↦
            let out : (leb (whole * blk_sector_size) i && ltb i (whole * blk_sector_size + tail))
                ≡ false =
              ground (arith, ge, e) in
            rw (out, ge) (r.outside i (inr (omega arith)))
      ]
    ];
  }
    where
      last :
          (i : ℕ)
          → i < whole * blk_sector_size + tail
          → whole * blk_sector_size ≤ i
          → b2 (i - whole * blk_sector_size)
            ≡ drv.sector c.dev (lba + i / blk_sector_size) (i % blk_sector_size)
      last i lt ge =
          ap b2 (omega arith)
          ∙ s.inside (i - whole * blk_sector_size) (omega arith)
          ∙ ap
              (λ d.
                drv.sector d (lba + whole + (i - whole * blk_sector_size) / blk_sector_size)
                  ((i - whole * blk_sector_size) % blk_sector_size))
              r.dev
          ∙ ap (λ x. drv.sector c.dev x ((i - whole * blk_sector_size) % blk_sector_size))
              (omega arith)
          ∙ ap (drv.sector c.dev (lba + i / blk_sector_size)) (omega arith)

  -- Where the cache tells the truth, a read that succeeds gives the bytes that the device holds, as
  -- many as are asked for, and leaves the rest of the buffer; the device is as it was, and the cache
  -- still tells the truth.
  pub block_read-ReadBytes :
      (c : Disk D) (lba bytes : ℕ) (buf sec : ℕ → ℕ)
      → Coherent drv c
      → 0 < c.max_sectors
      → lba + bytes / blk_sector_size + 1 < 2 ^ 64
      → (block_read drv c lba bytes buf sec).0 ≡ true
      → ReadBytes c
          (block_read drv c lba bytes buf sec).1
          lba
          bytes
          buf
          (block_read drv c lba bytes buf sec).2
  unfolding block_read
  block_read-ReadBytes c lba bytes buf sec h room fits e =
      let whole = bytes / blk_sector_size in
      let tail = bytes % blk_sector_size in
      let first = whole_part c lba whole buf in
      elim (Bool-cases (
        (bytes == 0)
        || ltb c.capacity_sectors (add64 lba (whole + (if tail == 0 then 0 else 1))))) [
          | inl bad ↦ absurd (cc (rw bad at e))
          | inr good ↦ elim (Bool-cases first.0) [
            | inl ok ↦
                let r : ReadsTo drv c first.1 lba whole 0 buf first.2 =
                  whole_part-ReadsTo c lba whole buf h room (omega arith) ok in
                elim (Bool-cases (tail == 0)) [
                  | inl z ↦
                      let all : bytes ≡ whole * blk_sector_size = ground (arith, z) in
                      rw (good, ok, z) (whole-ReadBytes c first.1 lba whole bytes buf first.2 all r)
                  | inr nz ↦
                      let last = submit_read drv 1 first.1 (lba + whole) 1 sec 0 in
                      let step : add64 lba whole ≡ lba + whole = mod-eq_of_lt (omega arith) in
                      elim (Bool-cases last.0) [
                        | inl ok' ↦
                            rw (good, ok, nz, step, ok')
                              (tail-ReadBytes c first.1 last.1 lba whole tail bytes buf first.2 sec
                                last.2 (omega arith) (omega arith) r
                                (submit_read-ReadsTo drv 1 first.1 (lba + whole) 1 sec 0 r.coherent
                                  (omega (arith, r.limit)) (omega arith) (omega arith) ok'))
                        | inr bad ↦ absurd (cc (rw (good, ok, nz, step, bad) at e))
                      ]
                ]
            | inr bad ↦ absurd (cc (rw (good, bad) at e))
          ]
        ]
