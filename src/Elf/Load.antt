-- ===== src/Elf/Load.antt =====
-- What `elf_load` has checked of an image that it accepts.
use mobile_phone_os.Prelude.{
  ℕ, zero, suc, ◌+◌, ◌*◌, ◌%◌, ◌^◌, ◌≤◌, ◌<◌, ◌≡◌, ◌⊎◌, inl, inr, Bool-cases, eq-cases,
  Option-cases, some_inj, refl, sym, subst, ap, ◌∙◌, Bool, true, false, not, ◌||◌, ltb, leb, ◌==◌,
  if◌then◌else◌, add64, arith, ℤ, pos, negsuc, some,
}
use mobile_phone_os.Pmm.{Pmm}
use mobile_phone_os.Uaccess.{user_va_limit}
use mobile_phone_os.Elf.Page.{greatest-lem}
use mobile_phone_os.Elf.{
  user_code_base, pt_load, pt_interp, is_zero, Ehdr, Phdr, ehdr, get_phdr, align_up, greatest,
  load_segment, reject_dynamic, load_segments, good_type, good_ident, ehdr_size, elf_load,
}

-- A segment is accepted if it is empty or not to be loaded, or else lies in the window of a process and
-- below `brk`, and passes the check against the length of the image.
pub record Placed (img_len : ℕ) (ph : Phdr) (brk : ℕ) : Type 0 where
  pub low : user_code_base ≤ ph.p_vaddr
  pub high : add64 ph.p_vaddr ph.p_memsz ≤ user_va_limit
  pub under : align_up (add64 ph.p_vaddr ph.p_memsz) ≤ brk
  pub within : add64 ph.p_offset ph.p_filesz ≤ img_len

abbrev pub skipped : Phdr → Bool
skipped ph = not (ph.p_type == pt_load) || ph.p_memsz == 0

is_zero-eq : (x : ℤ) → is_zero x ≡ true → x ≡ pos 0
is_zero-eq (pos zero) e = refl
is_zero-eq (pos (suc n)) e = absurd (cc e)
is_zero-eq (negsuc n) e = absurd (cc e)

Placed-later :
    (img_len : ℕ) (ph : Phdr) (brk brk' : ℕ)
    → brk ≤ brk'
    → Placed img_len ph brk
    → Placed img_len ph brk'
Placed-later img_len ph brk brk' le p = record {
  low = p.low;
  high = p.high;
  under = omega (arith, p.under, le);
  within = p.within;
}

module _ (img : ℕ → ℕ) (img_len : ℕ) (eh : Ehdr) where
  -- The header `i` is there, and its segment is accepted.
  abbrev pub Accepted : (i brk : ℕ) → Type 0
  Accepted i brk =
      (ph : Phdr) × ((get_phdr img img_len eh i ≡ some ph)
        × ((skipped ph ≡ true) ⊎ Placed img_len ph brk))

  load_segment-bounds :
      (m : Pmm) (phys : ℕ → ℕ) (root : ℕ) (ph : Phdr) (brk : ℕ)
      → is_zero (load_segment m phys img img_len root ph).0 ≡ true
      → Placed img_len ph (greatest (align_up (add64 ph.p_vaddr ph.p_memsz)) brk)
  unfolding load_segment
  load_segment-bounds m phys root ph brk e =
      elim (Bool-cases (ltb img_len (add64 ph.p_offset ph.p_filesz))) [
        | inl bad ↦ absurd (cc (rw bad at e))
        | inr good ↦
            elim (Bool-cases
              (ltb ph.p_vaddr user_code_base || ltb user_va_limit (add64 ph.p_vaddr ph.p_memsz))) [
                | inl bad ↦ absurd (cc (rw (good, bad) at e))
                | inr fine ↦ record {
                  low = ground (arith, fine);
                  high = ground (arith, fine);
                  under = (greatest-lem (align_up (add64 ph.p_vaddr ph.p_memsz)) brk).0.0;
                  within = ground (arith, good);
                }
              ]
      ]

  -- The headers from `i` on, `n` of them.
  record AllAccepted (n i brk brk' : ℕ) : Type 0 where
    grows : brk ≤ brk'
    each : (j : ℕ) → i ≤ j → j < i + n → Accepted j brk'

  AllAccepted-step :
      (n i brk mid brk' : ℕ) (ph : Phdr)
      → get_phdr img img_len eh i ≡ some ph
      → brk ≤ mid
      → (skipped ph ≡ true) ⊎ Placed img_len ph mid
      → AllAccepted n (i + 1) mid brk'
      → AllAccepted (suc n) i brk brk'
  AllAccepted-step n i brk mid brk' ph here le ok r = record {
    grows = omega (arith, le, r.grows);
    each = λ j lo hi. elim (eq-cases i j) [
      | inl e ↦
          subst (λ k. Accepted k brk') e
            (
              ph,
              (
                here,
                elim ok [
                  | inl skip ↦ inl skip
                  | inr placed ↦ inr (Placed-later img_len ph mid brk' r.grows placed)
                ],
              ),
            )
      | inr ne ↦ r.each j (omega (arith, ne, lo)) (omega (arith, hi))
    ];
  }

  load_segments-AllAccepted :
      (n : ℕ) (m : Pmm) (phys : ℕ → ℕ) (root i brk : ℕ)
      → (load_segments n m phys img img_len root eh i brk).0 ≡ pos 0
      → AllAccepted n i brk (load_segments n m phys img img_len root eh i brk).1.0
  unfolding load_segments
  load_segments-AllAccepted zero m phys root i brk e = record {
    grows = omega arith;
    each = λ j lo hi. absurd (omega (arith, lo, hi));
  }
  load_segments-AllAccepted (suc n) m phys root i brk e =
      elim (Option-cases (get_phdr img img_len eh i)) [
        | inl bad ↦ absurd (cc (rw (load_segments, bad) at e))
        | inr (ph, here) ↦ elim (Bool-cases (skipped ph)) [
          | inl skip ↦
              rw (load_segments, here, skip)
                (AllAccepted-step n i brk brk _ ph here (omega arith) (inl skip) (
                  load_segments-AllAccepted n m phys root (i + 1) brk
                    (rw (load_segments, here, skip) at e)))
          | inr load ↦
              let r = load_segment m phys img img_len root ph in
              let top = align_up (add64 ph.p_vaddr ph.p_memsz) in
              elim (Bool-cases (is_zero r.0)) [
                | inl ok ↦
                    rw (load_segments, here, load, ok)
                      (AllAccepted-step n i brk (greatest top brk) _ ph here
                        (greatest-lem top brk).0.1 (inr (load_segment-bounds m phys root ph brk ok))
                        (load_segments-AllAccepted n r.1.0 r.1.1 root (i + 1) (greatest top brk)
                          (rw (load_segments, here, load, ok) at e)))
                | inr bad ↦ absurd (cc (bad, ap is_zero (rw (load_segments, here, load, bad) at e)))
              ]
        ]
      ]

  reject_dynamic-passes :
      (n i : ℕ)
      → reject_dynamic n img img_len eh i ≡ pos 0
      → (j : ℕ) (ph : Phdr) → i ≤ j
      → j < i + n
      → get_phdr img img_len eh j ≡ some ph
      → (ph.p_type == pt_interp) ≡ false
  unfolding reject_dynamic
  reject_dynamic-passes zero i e j ph lo hi here = absurd (omega (arith, lo, hi))
  reject_dynamic-passes (suc n) i e j ph lo hi here =
      elim (Option-cases (get_phdr img img_len eh i)) [
        | inl bad ↦ absurd (cc (rw (reject_dynamic, bad) at e))
        | inr (first, there) ↦ elim (Bool-cases (first.p_type == pt_interp)) [
          | inl interp ↦ absurd (cc (rw (reject_dynamic, there, interp) at e))
          | inr fine ↦ elim (eq-cases i j) [
            | inl same ↦
                ap (λ q. q.p_type == pt_interp)
                  (some_inj
                    (sym here ∙ subst (λ k. get_phdr img img_len eh k ≡ some first) same there))
                ∙ fine
            | inr ne ↦
                reject_dynamic-passes n (i + 1) (rw (reject_dynamic, there, fine) at e) j ph
                  (omega (arith, ne, lo)) (omega (arith, hi)) here
          ]
        ]
      ]

-- A guard of a function that succeeds.
guard :
    {R : Type 0} (b : Bool) (x y : ℤ × R)
    → (x.0 ≡ pos 0 → b ≡ false)
    → (if b then x else y).0 ≡ pos 0
    → (b ≡ false) × (y.0 ≡ pos 0)
guard true x y h e = absurd (cc (h e))
guard false x y h e = (refl, e)

not-false : {b : Bool} → not b ≡ false → b ≡ true
not-false {b} e = elim (Bool-cases b) [
  | inl holds ↦ holds
  | inr fails ↦ absurd (cc (rw fails at e))
]

window :
    (x : ℕ)
    → (ltb x user_code_base || leb user_va_limit x) ≡ false
    → (user_code_base ≤ x) × (x < user_va_limit)
window x e = ground (arith, e)

-- What an image that is accepted has passed.
pub record Sound (img : ℕ → ℕ) (img_len entry brk : ℕ) : Type 0 where
  pub type : good_type (ehdr img) ≡ true
  pub low : user_code_base ≤ entry
  pub high : entry < user_va_limit
  pub each : (i : ℕ) → i < (ehdr img).e_phnum → Accepted img img_len (ehdr img) i brk
  pub static :
      (i : ℕ) (ph : Phdr)
      → i < (ehdr img).e_phnum
      → get_phdr img img_len (ehdr img) i ≡ some ph
      → (ph.p_type == pt_interp) ≡ false

-- If `elf_load` succeeds, it has set an entry and a base of the heap. The image is of the right type, the
-- entry lies in the window of a process, no header asks for an interpreter, and every header is there;
-- its segment is not to be loaded or empty, or it lies in that window, ends below the base of the heap
-- with its last page, and ends in the file below the length of the image, where these ends are taken
-- modulo 2^64.
pub elf_load-Sound :
    (m : Pmm) (phys img : ℕ → ℕ) (img_len root : ℕ)
    → (elf_load m phys img img_len root).0 ≡ pos 0
    → (entry : ℕ) × ((brk : ℕ) × (((elf_load m phys img img_len root).1.0 ≡ some (entry, brk))
          × Sound img img_len entry brk))
unfolding elf_load
elf_load-Sound m phys img img_len root e =
    let eh = ehdr img in
    let dyn = reject_dynamic eh.e_phnum img img_len eh 0 in
    let r = load_segments eh.e_phnum m phys img img_len root eh 0 0 in
    let c1 = guard (ltb img_len ehdr_size) _ _ (λ q. absurd (cc q)) e in
    let c2 = guard (not (good_ident img)) _ _ (λ q. absurd (cc q)) c1.1 in
    let c3 = guard (not (good_type eh)) _ _ (λ q. absurd (cc q)) c2.1 in
    let c4 =
      guard (ltb img_len ((eh.e_phoff + eh.e_phnum * eh.e_phentsize) % 2 ^ 64)) _ _
        (λ q. absurd (cc q)) c3.1 in
    let c5 = guard (not (is_zero dyn)) _ _ (λ q. rw q refl) c4.1 in
    let c6 = guard (not (is_zero r.0)) _ _ (λ q. rw q refl) c5.1 in
    let c7 =
      guard (ltb eh.e_entry user_code_base || leb user_va_limit eh.e_entry) _ _ (λ q. absurd (cc q))
        c6.1 in
    let all =
      load_segments-AllAccepted img img_len eh eh.e_phnum m phys root 0 0
        (is_zero-eq r.0 (not-false c6.0)) in
    (
      eh.e_entry,
      (
        r.1.0,
        (
          rw (c1.0, c2.0, c3.0, c4.0, c5.0, c6.0, c7.0) refl,
          record {
            type = not-false c3.0;
            low = (window eh.e_entry c7.0).0;
            high = (window eh.e_entry c7.0).1;
            each = λ i lt. all.each i (omega arith) (omega (arith, lt));
            static = λ i ph lt here.
                reject_dynamic-passes img img_len eh eh.e_phnum 0 (is_zero-eq dyn (not-false c5.0))
                  i ph (omega arith) (omega (arith, lt)) here;
          },
        ),
      ),
    )
