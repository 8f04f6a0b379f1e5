-- ===== src/Pmm/Init.antt =====
-- `pmm_init`: the list that it builds.
use mobile_phone_os.Prelude.{
  ℕ, zero, suc, ◌+◌, ◌*◌, ◌/◌, ◌%◌, ◌^◌, ◌≤◌, ◌<◌, ◌≡◌, ◌⊎◌, inl, inr, refl, ap, ◌∙◌, true, false,
  List, [], ◌∷◌, arith, length, update, ◌==◌, if◌then◌else◌, some, Bool, Bool-cases, eq-cases, ltb,
  leb, ◌&&◌, add64,
}
use native.Mathlib.Nat.{mod-eq_of_lt}
use mobile_phone_os.Task.Queue.{has}
use mobile_phone_os.Pmm.{
  Pmm, page_size, align_down, align_up, guarded_end, init_frame, init_loop, pmm_init,
}
use mobile_phone_os.Pmm.Links.{Links-update}
use mobile_phone_os.Pmm.Frames.{IsFrame, IsValid}

-- A frame of the memory from `lo` to `hi`, outside the image.
pub record IsOffered (img_start img_end lo hi x : ℕ) : Type 0 where
  pub from : lo ≤ x
  pub to : x < hi
  pub aligned : x % page_size ≡ 0
  pub outside : (x < img_start) ⊎ (img_end ≤ x)

-- The list holds what it held before, and the frames from `lo` to `hi`.
abbrev Filled : (img_start img_end lo hi : ℕ) → (frames frames' : List ℕ) → Type 0
Filled img_start img_end lo hi frames frames' =
    (x : ℕ)
    → (has x frames' ≡ true → (has x frames ≡ true) ⊎ IsOffered img_start img_end lo hi x)
      × ((has x frames ≡ true) ⊎ IsOffered img_start img_end lo hi x → has x frames' ≡ true)

-- All that is on the list lies below `pa`.
pub record Below (m : Pmm) (frames : List ℕ) (pa : ℕ) : Type 0 where
  pub valid : IsValid m frames
  pub low : (x : ℕ) → has x frames ≡ true → x < pa
  pub room : length frames * page_size ≤ pa

module _ (img_start img_end : ℕ) where
  abbrev in_image : ℕ → Bool
  in_image pa = leb img_start pa && ltb pa img_end

  outside_of : (pa : ℕ) → in_image pa ≡ false → (pa < img_start) ⊎ (img_end ≤ pa)
  outside_of pa e = ground arith

  inside_of : (pa : ℕ) → in_image pa ≡ true → ¬ ((pa < img_start) ⊎ (img_end ≤ pa))
  inside_of pa e o = ground arith

  -- The list after the turn at `pa`.
  abbrev grown : List ℕ → ℕ → List ℕ
  grown frames pa = if in_image pa then frames else pa ∷ frames

  init_frame-Below :
      (m : Pmm) (frames : List ℕ) (pa : ℕ)
      → Below m frames pa
      → IsFrame pa
      → Below (init_frame img_start img_end m pa) (grown frames pa) (pa + page_size)
  unfolding init_frame
  init_frame-Below m frames pa b f = elim (Bool-cases (in_image pa)) [
    | inl e ↦ rw e (record {
      valid = record {
        links = b.valid.links;
        distinct = b.valid.distinct;
        all = b.valid.all;
        count = b.valid.count;
        few = b.valid.few;
      };
      low = λ x h. omega (arith, b.low x h);
      room = omega (arith, b.room);
    })
    | inr e ↦ rw e (record {
      valid = record {
        links = (
          refl,
          rw (let here : update m.mem pa m.free_head pa ≡ m.free_head = ground arith in here)
              (Links-update m.mem m.free_head pa m.free_head frames fresh b.valid.links),
        );
        distinct = (fresh, b.valid.distinct);
        all = (f, b.valid.all);
        count =
            ap (λ n. add64 n 1) b.valid.count
            ∙ mod-eq_of_lt (omega (arith, b.valid.few))
            ∙ omega arith;
        few = omega (arith, b.room, f.below);
      };
      low = λ x h. elim (eq-cases x pa) [
        | inl q ↦ omega arith
        | inr ne ↦ omega (arith, b.low x (ground (arith, h)))
      ];
      room = omega (arith, b.room);
    })
  ]
    where
      fresh : has pa frames ≡ false
      fresh = elim (Bool-cases (has pa frames)) [
        | inl h ↦ absurd (omega (arith, b.low pa h))
        | inr h ↦ h
      ]

  -- A frame of the memory from `pa` on is the one at `pa` or one from the next on.
  IsOffered-step :
      (pa hi x : ℕ)
      → IsFrame pa
      → pa < hi
      → IsOffered img_start img_end pa hi x
      → (x ≡ pa) ⊎ IsOffered img_start img_end (pa + page_size) hi x
  IsOffered-step pa hi x f lt o = elim (eq-cases x pa) [
    | inl e ↦ inl e
    | inr ne ↦ inr (record {
      from = omega (arith, o.from, o.aligned, f.aligned);
      to = o.to;
      aligned = o.aligned;
      outside = o.outside;
    })
  ]

  grown-into :
      (frames : List ℕ) (pa hi x : ℕ)
      → IsFrame pa
      → pa < hi
      → (has x (grown frames pa) ≡ true) ⊎ IsOffered img_start img_end (pa + page_size) hi x
      → (has x frames ≡ true) ⊎ IsOffered img_start img_end pa hi x
  grown-into frames pa hi x f lt (inr o) =
      inr (record {
        from = omega (arith, o.from);
        to = o.to;
        aligned = o.aligned;
        outside = o.outside;
      })
  grown-into frames pa hi x f lt (inl h) = elim (Bool-cases (in_image pa)) [
    | inl e ↦ inl (rw e at h)
    | inr e ↦ elim (eq-cases x pa) [
      | inl q ↦ inr (record {
        from = omega arith;
        to = omega arith;
        aligned = ap (λ i. i % page_size) q ∙ f.aligned;
        outside = rw q (outside_of pa e);
      })
      | inr ne ↦ inl (let k = rw e at h in ground (arith, k))
    ]
  ]

  grown-onto :
      (frames : List ℕ) (pa hi x : ℕ)
      → IsFrame pa
      → pa < hi
      → (has x frames ≡ true) ⊎ IsOffered img_start img_end pa hi x
      → (has x (grown frames pa) ≡ true) ⊎ IsOffered img_start img_end (pa + page_size) hi x
  grown-onto frames pa hi x f lt (inl h) = elim (Bool-cases (in_image pa)) [
    | inl e ↦ rw e (inl h)
    | inr e ↦ rw e (inl (ground (arith, h)))
  ]
  grown-onto frames pa hi x f lt (inr o) = elim (IsOffered-step pa hi x f lt o) [
    | inr later ↦ inr later
    | inl q ↦ elim (Bool-cases (in_image pa)) [
      | inl e ↦ absurd (inside_of pa e (rw q at o.outside))
      | inr e ↦ rw e (inl (ground (arith, q)))
    ]
  ]

  -- Past the end the list stays as it is.
  past-Filled :
      (frames : List ℕ) (pa hi : ℕ) → hi ≤ pa → Filled img_start img_end pa hi frames frames
  past-Filled frames pa hi le x =
      (λ h. inl h, λ o. elim o [ inl h ↦ h | inr w ↦ absurd (omega (arith, w.from, w.to)) ])

  init_loop-turn :
      (fuel : ℕ) (m : Pmm) (pa hi : ℕ)
      → ltb pa hi ≡ true
      → pa + page_size < 2 ^ 64
      → init_loop (suc fuel) img_start img_end hi m pa
        ≡ init_loop fuel img_start img_end hi (init_frame img_start img_end m pa) (pa + page_size)
  unfolding init_loop
  init_loop-turn fuel m pa hi e fits = rw e (
      ap (λ i. init_loop fuel img_start img_end hi (init_frame img_start img_end m pa) i)
        (mod-eq_of_lt fits))

  -- Enough fuel takes the loop to the end of the memory.
  pub init_loop-Filled :
      (fuel : ℕ) (m : Pmm) (frames : List ℕ) (pa hi : ℕ)
      → Below m frames pa
      → IsFrame pa
      → hi < 2 ^ 62
      → hi ≤ pa + fuel * page_size
      → (m' : Pmm) × (frames' : List ℕ) × (init_loop fuel img_start img_end hi m pa ≡ some m')
        × IsValid m' frames'
        × Filled img_start img_end pa hi frames frames'
  unfolding init_loop
  init_loop-Filled zero m frames pa hi b f small le =
      (m, frames, ground arith, b.valid, past-Filled frames pa hi (omega arith))
  init_loop-Filled (suc fuel) m frames pa hi b f small le = elim (Bool-cases (ltb pa hi)) [
    | inr e ↦ (m, frames, rw e refl, b.valid, past-Filled frames pa hi (ground arith))
    | inl e ↦
        let lt : pa < hi = ground arith in
        let (m', frames', q, v, filled) =
          init_loop-Filled fuel (init_frame img_start img_end m pa) (grown frames pa)
            (pa + page_size) hi (init_frame-Below m frames pa b f)
            (record { pos = omega arith; aligned = omega (arith, f.aligned); below = omega arith })
            small (omega arith) in
        (
          m',
          frames',
          init_loop-turn fuel m pa hi e (omega arith) ∙ q,
          v,
          λ x. (
            λ h. grown-into frames pa hi x f lt ((filled x).0 h),
            λ o. (filled x).1 (grown-onto frames pa hi x f lt o),
          ),
        )
  ]

-- The allocator before the loop.
abbrev cleared : Pmm → Pmm
cleared m = record m { free_head = 0; total_frames = 0; reserved_frames = 0; free_frames = 0 }

pmm_init-loop :
    (start end ram_base ram_size : ℕ) (m : Pmm)
    → 0 < ram_size
    → ram_base + ram_size < 2 ^ 62
    → pmm_init start end ram_base ram_size m
      ≡ init_loop
          (ram_size / page_size + 1)
          (align_down start)
          (align_up end)
          (guarded_end (ram_base + ram_size))
          (cleared m)
          (align_up ram_base)
unfolding pmm_init
pmm_init-loop start end ram_base ram_size m some_ram small =
    let nonzero : (ram_size == 0) ≡ false = ground arith in
    rw nonzero (
      ap
        (λ e.
          init_loop (ram_size / page_size + 1) (align_down start) (align_up end) (guarded_end e)
            (cleared m) (align_up ram_base))
        (mod-eq_of_lt (omega arith)))

-- Where the memory starts above 0 and ends below 2^62, `pmm_init` ends, and its list is valid and
-- holds exactly the frames from the start of the memory, rounded up, to its end, less the two
-- megabytes at the top if the end lies higher, without those of the kernel's image.
pub pmm_init-offers :
    (start end ram_base ram_size : ℕ) (m : Pmm)
    → 0 < ram_base
    → 0 < ram_size
    → ram_base + ram_size < 2 ^ 62
    → (m' : Pmm) × (frames : List ℕ) × (pmm_init start end ram_base ram_size m ≡ some m')
      × IsValid m' frames
      × ((x : ℕ)
          → (has x frames ≡ true
              → IsOffered
                  (align_down start)
                  (align_up end)
                  (align_up ram_base)
                  (guarded_end (ram_base + ram_size))
                  x)
            × (IsOffered
                  (align_down start)
                  (align_up end)
                  (align_up ram_base)
                  (guarded_end (ram_base + ram_size))
                  x
                → has x frames ≡ true))
pmm_init-offers start end ram_base ram_size m pos some_ram small =
    let (m', frames, q, v, filled) =
      init_loop-Filled (align_down start) (align_up end) (ram_size / page_size + 1) (cleared m) []
        (align_up ram_base) hi start-Below
        (record { pos = omega arith; aligned = omega arith; below = omega arith })
        (omega (arith, top)) (omega (arith, top)) in
    (
      m',
      frames,
      pmm_init-loop start end ram_base ram_size m some_ram small ∙ q,
      v,
      λ x. (
        λ h. elim ((filled x).0 h) [ inl e ↦ absurd (cc e) | inr o ↦ o ],
        λ o. (filled x).1 (inr o),
      ),
    )
  where
    hi : ℕ
    hi = guarded_end (ram_base + ram_size)

    top : hi ≤ ram_base + ram_size
    top = ground arith

    start-Below : Below (cleared m) [] (align_up ram_base)
    start-Below = record {
      valid = record { links = refl; distinct = tt; all = tt; count = refl; few = omega arith };
      low = λ x h. absurd (cc h);
      room = omega arith;
    }
