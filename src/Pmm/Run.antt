-- ===== src/Pmm/Run.antt =====
-- `pmm_alloc_contig` as a whole.
use mobile_phone_os.Prelude.{
  ℕ, zero, suc, ◌^◌, ◌≤◌, ◌<◌, ◌≡◌, ◌≢◌, inl, inr, refl, sym, ap, ◌∙◌, subst, List, [], ◌∷◌, ◌++◌,
  arith, length, length-append, All, ◌==◌, some, eq-cases, false,
}
use mathlib.Core.List.{append_assoc, append-nil}
use mobile_phone_os.Pmm.{Pmm, Scan, unknown, low, extend, unlink, scan, pmm_alloc_contig}
use mobile_phone_os.Pmm.Links.{Links}
use mobile_phone_os.Pmm.Frames.{IsFrame, IsValid}
use mobile_phone_os.Pmm.Contig.{span, Tracks}
use mobile_phone_os.Task.Queue.{has, Distinct}
use mobile_phone_os.Pmm.Longest.{scanned, Longest, Longest-turn, NoRun-snoc, Distinct-mid}
use mobile_phone_os.Pmm.Carve.{
  length-parts, NoRun, Carved, Outcome, Turned, turn, span-IsSpan, unlink-IsValid, length-span,
  scan-stops, scan-finds, scan-goes_on, later,
}

All-at : (P : ℕ → Type 0) (xs : List ℕ) (y : ℕ) (ys : List ℕ) → All P (xs ++ y ∷ ys) → P y
All-at P [] y ys a = a.0
All-at P (x ∷ xs) y ys a = All-at P xs y ys a.1

module _ (m : Pmm) (npages : ℕ) (pos : 0 < npages) (small : npages < 2 ^ 32) (frames : List ℕ)
    (v : IsValid m frames) where
  found :
      (s s' : Scan) (pre pre' rest : List ℕ)
      → Turned s s' pre pre'
      → frames ≡ scanned s pre ++ s.pa ∷ rest
      → Links m.mem (m.mem s.pa) rest
      → s'.run ≡ npages
      → Carved m npages (low s'.dir s'.run_start npages) (unlink m s' npages (m.mem s.pa)) frames
  found s s' pre pre' rest t e links full = record {
    before = pre';
    taken = run;
    after = rest;
    split = split;
    is_span =
        span-IsSpan (record s' { prev = s.pa; pa = 0 }) pre' npages (t.tracks 0) pos small full;
    valid =
        unlink-IsValid m s' npages (m.mem s.pa) pre' run rest (subst (IsValid m) split v)
          (length-span s'.dir s'.run_start s'.run ∙ full) t.run_prev links;
  }
    where
      run : List ℕ
      run = span s'.dir s'.run_start s'.run

      split : frames ≡ pre' ++ (run ++ rest)
      split =
          e
          ∙ sym (append_assoc (scanned s pre) (s.pa ∷ []) rest)
          ∙ ap (λ xs. xs ++ rest) (sym t.joined)
          ∙ append_assoc pre' run rest

  scan-Outcome :
      (fuel : ℕ) (s : Scan) (pre rest : List ℕ)
      → Tracks s pre
      → s.run < npages
      → frames ≡ scanned s pre ++ rest
      → Links m.mem s.pa rest
      → length rest ≤ fuel
      → NoRun npages (scanned s pre)
      → Longest s.run (scanned s pre)
      → (r : ℕ × Pmm) × (scan fuel npages m s ≡ some r) × Outcome m npages frames r
  scan-Outcome fuel s pre [] t lt e links le none longest = (
    (0, m),
    scan-stops fuel npages m s links,
    inl (refl, subst (NoRun npages) (sym (e ∙ append-nil (scanned s pre))) none),
  )
  scan-Outcome zero s pre (x ∷ rest) t lt e links le none longest = absurd (omega arith)
  scan-Outcome (suc fuel) s pre (x ∷ rest) t lt e links le none longest =
      let (pre', now) = turn s pre t frame (omega arith) in
      elim (eq-cases (extend s).run npages) [
        | inl full ↦ (
          (low (extend s).dir (extend s).run_start npages, unlink m (extend s) npages (m.mem s.pa)),
          scan-finds fuel npages m s (omega (arith, frame.pos)) full,
          inr (found s (extend s) pre pre' rest now here behind full),
        )
        | inr short ↦
            let (r, q, o) =
              scan-Outcome fuel (later m s) pre' rest (now.tracks (m.mem s.pa))
                (omega (arith, now.run.1)) (further pre' now) behind (omega arith)
                (none_later pre' now short) (longest_later pre' now) in
            (r, scan-goes_on fuel npages m s (omega (arith, frame.pos)) short ∙ q, o)
      ]
    where
      here : frames ≡ scanned s pre ++ s.pa ∷ rest
      here = e ∙ ap (λ a. scanned s pre ++ a ∷ rest) (sym links.0)

      frame : IsFrame s.pa
      frame = All-at IsFrame (scanned s pre) s.pa rest (subst (All IsFrame) here v.all)

      behind : Links m.mem (m.mem s.pa) rest
      behind = rw links.0 links.1

      fresh : has s.pa (scanned s pre) ≡ false
      fresh = Distinct-mid (scanned s pre) s.pa rest (subst Distinct here v.distinct)

      longest_snoc : 0 < (extend s).run → Longest (extend s).run (scanned s pre ++ s.pa ∷ [])
      longest_snoc = Longest-turn s pre t frame (omega arith) fresh longest

      longest_later :
          (pre' : List ℕ)
          → Turned s (extend s) pre pre'
          → Longest (extend s).run (scanned (later m s) pre')
      longest_later pre' now =
          subst (Longest (extend s).run) (sym now.joined) (longest_snoc now.run.0)

      none_later :
          (pre' : List ℕ)
          → Turned s (extend s) pre pre'
          → (extend s).run ≢ npages
          → NoRun npages (scanned (later m s) pre')
      none_later pre' now short = subst (NoRun npages) (sym now.joined) (
          NoRun-snoc npages (extend s).run (scanned s pre) s.pa none (longest_snoc now.run.0)
            (omega (arith, now.run.1)))

      further :
          (pre' : List ℕ) → Turned s (extend s) pre pre' → frames ≡ scanned (later m s) pre' ++ rest
      further pre' now =
          here
          ∙ sym (append_assoc (scanned s pre) (s.pa ∷ []) rest)
          ∙ ap (λ xs. xs ++ rest) (sym now.joined)

  -- A request for one page or more from a valid allocator ends. Either it returns 0 and changes
  -- nothing, and then nowhere in the free list do that many frames follow each other that are
  -- neighbours in memory in ascending or in descending order; or it returns the lowest address of
  -- that many neighbouring frames, all of them free before, these and no others have left the free
  -- list, and the allocator stays valid.
  pub pmm_alloc_contig-Carved :
      (r : ℕ × Pmm) × (pmm_alloc_contig m npages ≡ some r) × Outcome m npages frames r
  unfolding pmm_alloc_contig
  pmm_alloc_contig-Carved =
      let nonzero : (npages == 0) ≡ false = ground arith in
      rw nonzero (
        scan-Outcome m.free_frames
          (record {
            prev = 0;
            pa = m.free_head;
            run = 0;
            run_start = 0;
            run_prev = 0;
            dir = unknown;
          })
          [] frames
          (record {
            prev = refl;
            run_prev = refl;
            two = λ x. absurd (x refl);
            one = λ x. omega arith;
            down_in = λ x. cc;
            start = (λ x. absurd (omega arith), λ x. refl);
          })
          pos refl v.links (omega (arith, v.count)) none_yet longest_yet)
    where
      none_yet : NoRun npages []
      none_yet d start before after e = omega (
        arith,
        ap (λ (xs : List ℕ). length xs) e,
        length-parts before (span d start npages) after,
        length-span d start npages,
      )

      longest_yet : Longest 0 []
      longest_yet d start k before e = omega (
        arith,
        ap (λ (xs : List ℕ). length xs) e,
        length-append before (span d start k),
        length-span d start k,
      )
