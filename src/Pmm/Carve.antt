-- ===== src/Pmm/Carve.antt =====
-- `pmm_alloc_contig`: what it takes out of the free list.
use mobile_phone_os.Prelude.{
  ℕ, zero, suc, ◌+◌, ◌-◌, ◌*◌, ◌^◌, ◌≤◌, ◌<◌, ◌≡◌, ◌≢◌, ◌⊎◌, inl, inr, refl, sym, ap, ◌∙◌, true,
  false, List, [], ◌∷◌, ◌++◌, arith, length, length-append, All, update, ◌==◌, sub64, some,
  eq-cases,
}
use mathlib.Core.List.{append_assoc}
use mobile_phone_os.Task.Queue.{has}
use mobile_phone_os.Pmm.{
  Pmm, page_size, Dir, unknown, up, down, Scan, low, extend, restart, unlink, scan,
}
use mobile_phone_os.Pmm.Links.{
  Links, last, last-append, has-append, Links-cut, Distinct-cut, All-cut,
}
use mobile_phone_os.Pmm.Frames.{IsFrame, IsValid}
use mobile_phone_os.Pmm.Contig.{nth, span, Tracks, Grown, extend-Extended, Dir-cases}

pub length-span : (d : Dir) (start n : ℕ) → length (span d start n) ≡ n
length-span d start zero = refl
length-span d start (suc n) =
    length-append (span d start n) _ ∙ omega (arith, length-span d start n)

has-span : (d : Dir) (start n i : ℕ) → i < n → has (nth d start i) (span d start n) ≡ true
has-span d start zero i lt = absurd (omega arith)
has-span d start (suc n) i lt =
    has-append (nth d start i) (span d start n) _ ∙ elim (eq-cases i n) [
      | inl e ↦ rw e (ground arith)
      | inr ne ↦ ground (arith, has-span d start n i (omega arith))
    ]

pub has_at : (d : Dir) (start n a i : ℕ) → i < n → a ≡ nth d start i → has a (span d start n) ≡ true
has_at d start n a i lt e = rw e (has-span d start n i lt)

-- The frames `base`, `base + page_size`, … that make up one span of memory.
pub record IsSpan (base npages : ℕ) (taken : List ℕ) : Type 0 where
  pub length : length taken ≡ npages
  pub covers : (i : ℕ) → i < npages → has (base + i * page_size) taken ≡ true

-- No `npages` frames that follow each other in the list are neighbours in memory, in ascending or
-- in descending order.
abbrev pub NoRun : (npages : ℕ) → List ℕ → Type 0
NoRun npages xs =
    (d : Dir) (start : ℕ) (before after : List ℕ) → xs ≢ before ++ (span d start npages ++ after)

-- The frames of a span have gone from the list, and no others.
pub record Carved (m : Pmm) (npages base : ℕ) (m' : Pmm) (frames : List ℕ) : Type 0 where
  pub before : List ℕ
  pub taken : List ℕ
  pub after : List ℕ
  pub split : frames ≡ before ++ (taken ++ after)
  pub is_span : IsSpan base npages taken
  pub valid : IsValid m' (before ++ after)

-- What a turn does to the run, and to what lies before it.
pub record Turned (s s' : Scan) (pre pre' : List ℕ) : Type 0 where
  pub tracks : (n : ℕ) → Tracks (record s' { prev = s.pa; pa = n }) pre'
  pub joined :
      pre' ++ span s'.dir s'.run_start s'.run ≡ (pre ++ span s.dir s.run_start s.run) ++ s.pa ∷ []
  pub run : (0 < s'.run) × (s'.run ≤ s.run + 1)
  pub run_prev : s'.run_prev ≡ last pre'

restart-Turned :
    (s : Scan) (pre : List ℕ)
    → Tracks s pre
    → IsFrame s.pa
    → Turned s (restart s) pre (pre ++ span s.dir s.run_start s.run)
restart-Turned s pre t f = record {
  tracks = λ n. record {
    prev = sym (ap last joined ∙ last-append (pre ++ span s.dir s.run_start s.run) s.pa);
    run_prev = t.prev;
    two = λ x. absurd (x refl);
    one = λ x. omega arith;
    down_in = λ x. cc;
    start = (λ x. f.below, λ x. refl);
  };
  joined = joined;
  run = omega arith;
  run_prev = t.prev;
}
  where
    joined :
        (pre ++ span s.dir s.run_start s.run) ++ (s.pa + 0) ∷ []
        ≡ (pre ++ span s.dir s.run_start s.run) ++ s.pa ∷ []
    joined = ap (λ x. (pre ++ span s.dir s.run_start s.run) ++ x ∷ []) (omega arith)

Grown-span :
    (s s' : Scan)
    → Grown s s'
    → span s'.dir s'.run_start s'.run ≡ span s.dir s.run_start s.run ++ s.pa ∷ []
Grown-span s s' g =
    ap (λ x. span s'.dir x s'.run) g.run_start
    ∙ ap (λ n. span s'.dir s.run_start n) (let q : s'.run ≡ suc s.run = omega (arith, g.run) in q)
    ∙ ap (λ xs. xs ++ nth s'.dir s.run_start s.run ∷ []) g.same
    ∙ ap (λ x. span s.dir s.run_start s.run ++ x ∷ []) (sym g.next)

Grown-Turned : (s s' : Scan) (pre : List ℕ) → Tracks s pre → Grown s s' → Turned s s' pre pre
Grown-Turned s s' pre t g = record {
  tracks = λ n. record {
    prev = sym (ap last joined ∙ last-append (pre ++ span s.dir s.run_start s.run) s.pa);
    run_prev = g.run_prev ∙ t.run_prev;
    two = λ x. omega (arith, g.going, g.run);
    one = λ x. absurd (g.dir x);
    down_in = λ x. omega (arith, g.down_in x, g.run_start);
    start =
        (λ x. omega (arith, t.start.0 g.going, g.run_start), λ x. absurd (omega (arith, g.run)));
  };
  joined = joined;
  run = omega (arith, g.run);
  run_prev = g.run_prev ∙ t.run_prev;
}
  where
    joined :
        pre ++ span s'.dir s'.run_start s'.run ≡ (pre ++ span s.dir s.run_start s.run) ++ s.pa ∷ []
    joined =
        ap (λ xs. pre ++ xs) (Grown-span s s' g)
        ∙ sym (append_assoc pre (span s.dir s.run_start s.run) (s.pa ∷ []))

pub turn :
    (s : Scan) (pre : List ℕ)
    → Tracks s pre
    → IsFrame s.pa
    → s.run < 2 ^ 32
    → (pre' : List ℕ) × Turned s (extend s) pre pre'
turn s pre t f lt = elim (extend-Extended s pre t f lt) [
  | inl e ↦ (pre ++ span s.dir s.run_start s.run, rw e (restart-Turned s pre t f))
  | inr g ↦ (pre, Grown-Turned s (extend s) pre t g)
]

-- The low address of a run that has all its frames.
pub span-IsSpan :
    (s : Scan) (pre : List ℕ) (npages : ℕ)
    → Tracks s pre
    → 0 < npages
    → npages < 2 ^ 32
    → s.run ≡ npages
    → IsSpan (low s.dir s.run_start npages) npages (span s.dir s.run_start s.run)
span-IsSpan s pre npages t pos small e = record {
  length = length-span s.dir s.run_start s.run ∙ e;
  covers = λ i lt. elim (Dir-cases s.dir) [
    | inl d ↦ rw d (
        has_at unknown s.run_start s.run _ 0 (omega arith)
          (omega (arith, t.one d, t.start.0 (omega arith))))
    | inr (inl d) ↦ rw d (has-span up s.run_start s.run i (omega arith))
    | inr (inr d) ↦ rw d (
        has_at down s.run_start s.run _ (npages - 1 - i) (omega arith)
          (omega (arith, t.down_in d, t.start.0 (omega arith))))
  ];
}

abbrev pub Outcome : Pmm → (npages : ℕ) → List ℕ → ℕ × Pmm → Type 0
Outcome m npages frames r = ((r ≡ (0, m)) × NoRun npages frames) ⊎ Carved m npages r.0 r.1 frames

last-pos : (x : ℕ) (xs : List ℕ) → All IsFrame (x ∷ xs) → 0 < last (x ∷ xs)
last-pos x [] a = a.0.pos
last-pos x (y ∷ ys) a = last-pos y ys a.1

pub All-front : (P : ℕ → Type 0) (xs ys : List ℕ) → All P (xs ++ ys) → All P xs
All-front P [] ys a = tt
All-front P (x ∷ xs) ys a = (a.0, All-front P xs ys a.1)

pub length-parts :
    (xs ys zs : List ℕ) → length (xs ++ (ys ++ zs)) ≡ length xs + (length ys + length zs)
length-parts xs ys zs = length-append xs (ys ++ zs) ∙ ap (λ n. length xs + n) (length-append ys zs)

module _ (m : Pmm) (s : Scan) (npages next : ℕ) (pre mid post : List ℕ)
    (v : IsValid m (pre ++ (mid ++ post))) (e : length mid ≡ npages) where
  total : m.free_frames ≡ length pre + (length mid + length post)
  total = v.count ∙ length-parts pre mid post

  remaining : sub64 m.free_frames npages ≡ length (pre ++ post)
  remaining = omega (arith, total, length-append pre post, length-parts pre mid post, v.few, e)

  few : length (pre ++ post) < 2 ^ 52
  few = omega (arith, length-append pre post, length-parts pre mid post, v.few)

  -- The list without the run.
  without :
      (mem : ℕ → ℕ) (head : ℕ)
      → Links mem head (pre ++ post)
      → IsValid
          (record m { mem = mem; free_head = head; free_frames = sub64 m.free_frames npages })
          (pre ++ post)
  without mem head links = record {
    links = links;
    distinct = Distinct-cut pre mid post v.distinct;
    all = All-cut IsFrame pre mid post v.all;
    count = remaining;
    few = few;
  }

pub unlink-IsValid :
    (m : Pmm) (s : Scan) (npages next : ℕ) (pre mid post : List ℕ)
    → IsValid m (pre ++ (mid ++ post))
    → length mid ≡ npages
    → s.run_prev ≡ last pre
    → Links m.mem next post
    → IsValid (unlink m s npages next) (pre ++ post)
unfolding unlink
unlink-IsValid m s npages next [] mid post v e at links =
    rw at (without m s npages next [] mid post v e m.mem next links)
unlink-IsValid m s npages next (x ∷ xs) mid post v e at links =
    let nonzero : (last (x ∷ xs) == 0) ≡ false =
      ground (arith, last-pos x xs (All-front IsFrame (x ∷ xs) (mid ++ post) v.all)) in
    rw (at, nonzero)
      (without m s npages next (x ∷ xs) mid post v e (update m.mem (last (x ∷ xs)) next) m.free_head
        (Links-cut m.mem m.free_head next x xs mid post v.links links
          (Distinct-cut (x ∷ xs) mid post v.distinct)))

pub scan-stops :
    (fuel npages : ℕ) (m : Pmm) (s : Scan) → s.pa ≡ 0 → scan fuel npages m s ≡ some (0, m)
unfolding scan
scan-stops zero npages m s e = rw e refl
scan-stops (suc fuel) npages m s e = rw e refl

pub scan-finds :
    (fuel npages : ℕ) (m : Pmm) (s : Scan)
    → s.pa ≢ 0
    → (extend s).run ≡ npages
    → scan (suc fuel) npages m s
      ≡ some
          (low (extend s).dir (extend s).run_start npages, unlink m (extend s) npages (m.mem s.pa))
unfolding scan
scan-finds fuel npages m s ne e = ground (arith, ne, e)

abbrev pub later : Pmm → Scan → Scan
later m s = record (extend s) { prev = s.pa; pa = m.mem s.pa }

pub scan-goes_on :
    (fuel npages : ℕ) (m : Pmm) (s : Scan)
    → s.pa ≢ 0
    → (extend s).run ≢ npages
    → scan (suc fuel) npages m s ≡ scan fuel npages m (later m s)
unfolding scan
scan-goes_on fuel npages m s ne e = ground (arith, ne, e)
