-- ===== src/Pmm/Frames.antt =====
-- `pmm_alloc` and `pmm_free` against a list of free frames.
use mobile_phone_os.Prelude.{
  ℕ, suc, ◌+◌, ◌%◌, ◌^◌, ◌<◌, ◌≡◌, ◌≢◌, ◌⊎◌, inl, inr, refl, ap, ◌∙◌, true, false, List, [], ◌∷◌,
  arith, length, All, update, ◌==◌, sub64, add64,
}
use native.Mathlib.Nat.{mod-eq_of_lt}
use mobile_phone_os.Task.Queue.{has, Distinct}
use mobile_phone_os.Pmm.{Pmm, page_size, pmm_alloc, pmm_free}
use mobile_phone_os.Pmm.Links.{Links, Links-update}

-- The address of a frame of the memory that the kernel maps.
pub record IsFrame (pa : ℕ) : Type 0 where
  pub pos : 0 < pa
  pub aligned : pa % page_size ≡ 0
  pub below : pa < 2 ^ 63

-- The free frames are those of the list, each once, and are counted.
pub record IsValid (m : Pmm) (frames : List ℕ) : Type 0 where
  pub links : Links m.mem m.free_head frames
  pub distinct : Distinct frames
  pub all : All IsFrame frames
  pub count : m.free_frames ≡ length frames
  pub few : length frames < 2 ^ 52

left : (n f : ℕ) → f ≡ suc n → n < 2 ^ 52 → sub64 f 1 ≡ n
left n f e lt = ground arith

alloc-front :
    (m : Pmm) (pa : ℕ) (rest : List ℕ)
    → IsValid m (pa ∷ rest)
    → pmm_alloc m ≡ (pa, record m { free_head = m.mem pa; free_frames = length rest })
unfolding pmm_alloc
alloc-front m pa rest v =
    rw (v.links.0, left (length rest) m.free_frames v.count (omega (arith, v.few)))
      (let nonzero : (pa == 0) ≡ false = ground (arith, v.all.0.pos) in
        let aligned : (pa % page_size == 0) ≡ true = ground (arith, v.all.0.aligned) in
        rw (nonzero, aligned) refl)

-- From a valid allocator, an allocation takes the front frame off the list, and returns 0 only if
-- the list is empty; the allocator stays valid.
pub pmm_alloc-takes :
    (m : Pmm) (frames : List ℕ)
    → IsValid m frames
    → ((frames ≡ []) × (pmm_alloc m ≡ (0, m)))
      ⊎ ((pa : ℕ) × (rest : List ℕ) × (frames ≡ pa ∷ rest)
          × ((pmm_alloc m).0 ≡ pa)
          × IsValid (pmm_alloc m).1 rest)
unfolding pmm_alloc
pmm_alloc-takes m [] v = inl (refl, ground (arith, v.links))
pmm_alloc-takes m (pa ∷ rest) v = inr (
  pa,
  rest,
  refl,
  ap (λ (x : ℕ × Pmm). x.0) taken,
  rw taken (record {
    links = v.links.1;
    distinct = v.distinct.1;
    all = v.all.1;
    count = refl;
    few = omega (arith, v.few);
  }),
)
  where
    taken : pmm_alloc m ≡ (pa, record m { free_head = m.mem pa; free_frames = length rest })
    taken = alloc-front m pa rest v

-- A frame that is not free is put at the front of the list; an address that is 0 or misaligned is
-- ignored. The allocator stays valid.
pub pmm_free-puts :
    (m : Pmm) (frames : List ℕ) (pa : ℕ)
    → IsValid m frames
    → has pa frames ≡ false
    → pa < 2 ^ 63
    → length frames + 1 < 2 ^ 52
    → ((0 < pa) × (pa % page_size ≡ 0) → IsValid (pmm_free m pa) (pa ∷ frames))
      × ((pa ≡ 0) ⊎ (pa % page_size ≢ 0) → pmm_free m pa ≡ m)
unfolding pmm_free
pmm_free-puts m frames pa v fresh below few = (
  λ h.
      let nonzero : (pa == 0) ≡ false = ground (arith, h.0) in
      let aligned : (pa % page_size == 0) ≡ true = ground (arith, h.1) in
      rw (nonzero, aligned)
        (record {
          links = (
            refl,
            rw (let here : update m.mem pa m.free_head pa ≡ m.free_head = ground arith in here)
                (Links-update m.mem m.free_head pa m.free_head frames fresh v.links),
          );
          distinct = (fresh, v.distinct);
          all = (record { pos = h.0; aligned = h.1; below = below }, v.all);
          count = ap (λ n. add64 n 1) v.count ∙ mod-eq_of_lt (omega (arith, few)) ∙ omega arith;
          few = omega (arith, few);
        }),
  λ h. ground (arith, h),
)
