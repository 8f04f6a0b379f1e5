-- ===== src/Kheap/Span.antt =====
-- A span of pages, and the canary behind the allocation.
use mobile_phone_os.Prelude.{
  ℕ, ◌+◌, ◌-◌, ◌*◌, ◌/◌, ◌%◌, ◌^◌, ◌≤◌, ◌<◌, ◌≡◌, ◌≢◌, ◌⊎◌, inl, inr, refl, ap, ◌∙◌, true, false,
  ltb, leb, ◌==◌, if◌then◌else◌, arith, some, Bool-cases, eq-cases,
}
use native.Mathlib.Nat.{mod-eq_of_lt}
use mobile_phone_os.AbTable.{get32, put32}
use mobile_phone_os.Pmm.{Pmm, page_size, pmm_alloc_contig}
use mobile_phone_os.Kheap.{
  hdr_magic_alloc, canary_word, fill_byte, hdr_size, km_large_max, put16, set_bytes, Heap,
  take_span,
}
use mobile_phone_os.Kheap.Words.{put32-apart, put16-apart, put32-get32, get32-same, set_bytes-apart}

-- The pages for `size` bytes and the header.
abbrev pub pages_for : ℕ → ℕ
pages_for size = (size + hdr_size + page_size - 1) / page_size

-- Nothing has changed but the span.
pub record Inside (s t : Heap) (span size : ℕ) : Type 0 where
  pub before : (i : ℕ) → i < span → t.mem i ≡ s.mem i
  pub behind : (i : ℕ) → span + pages_for size * page_size ≤ i → t.mem i ≡ s.mem i

module _ (mem : ℕ → ℕ) (span size pages : ℕ) where
  -- The fields of the header, one after the other.
  abbrev with_magic : ℕ → ℕ
  with_magic = put32 mem span hdr_magic_alloc

  abbrev with_req : ℕ → ℕ
  with_req = put32 with_magic (span + 4) size

  abbrev with_cls : ℕ → ℕ
  with_cls = put16 with_req (span + 8) 0

  abbrev headed : ℕ → ℕ
  headed = put16 with_cls (span + 10) pages

  abbrev marked : ℕ → ℕ
  marked =
      if leb ((size + hdr_size) % page_size) (page_size - 4)
      then put32 headed (span + hdr_size + size) canary_word
      else headed

  headed-apart : (i : ℕ) → (i < span) ⊎ (span + hdr_size ≤ i) → headed i ≡ mem i
  headed-apart i (inl lt) =
      put16-apart with_cls (span + 10) pages i (inl (omega arith))
      ∙ put16-apart with_req (span + 8) 0 i (inl (omega arith))
      ∙ put32-apart with_magic (span + 4) size i (inl (omega arith))
      ∙ put32-apart mem span hdr_magic_alloc i (inl lt)
  headed-apart i (inr ge) =
      put16-apart with_cls (span + 10) pages i (inr (omega arith))
      ∙ put16-apart with_req (span + 8) 0 i (inr (omega arith))
      ∙ put32-apart with_magic (span + 4) size i (inr (omega arith))
      ∙ put32-apart mem span hdr_magic_alloc i (inr (omega arith))

  marked-before : (i : ℕ) → i < span → marked i ≡ mem i
  marked-before i lt = elim (Bool-cases (leb ((size + hdr_size) % page_size) (page_size - 4))) [
    | inl e ↦ rw e (
        put32-apart headed (span + hdr_size + size) canary_word i (inl (omega arith))
        ∙ headed-apart i (inl lt))
    | inr e ↦ rw e (headed-apart i (inl lt))
  ]

  marked-behind :
      (i : ℕ)
      → (size + hdr_size) % page_size ≢ 0
      → span + pages_for size * page_size ≤ i
      → marked i ≡ mem i
  marked-behind i part ge =
      elim (Bool-cases (leb ((size + hdr_size) % page_size) (page_size - 4))) [
        | inl e ↦
            let room : (size + hdr_size) % page_size ≤ page_size - 4 = ground (arith, e) in
            rw e (
              put32-apart headed (span + hdr_size + size) canary_word i (inr (omega arith))
              ∙ headed-apart i (inr (omega arith)))
        | inr e ↦ rw e (headed-apart i (inr (omega arith)))
      ]

  marked-full :
      (size + hdr_size) % page_size ≡ 0 → get32 marked (span + hdr_size + size) ≡ canary_word
  marked-full full =
      let e : leb ((size + hdr_size) % page_size) (page_size - 4) ≡ true = rw full refl in
      rw e (put32-get32 headed (span + hdr_size + size) canary_word (omega arith))

-- The size of a span that is not too large and that `pmm_alloc_contig` provides: the allocation is behind
-- the header. Either the header and the allocation do not fill the last page, and nothing has changed
-- outside the span; or they do, and then the canary stands in the four bytes behind the span.
pub take_span-Inside :
    (s : Heap) (size span : ℕ) (pmm' : Pmm)
    → size + hdr_size ≤ km_large_max
    → span ≢ 0
    → pmm_alloc_contig s.pmm (pages_for size) ≡ some (span, pmm')
    → (t : Heap) × ((take_span s size ≡ some (span + hdr_size, t))
        × ((((size + hdr_size) % page_size ≢ 0) × Inside s t span size)
            ⊎ (((size + hdr_size) % page_size ≡ 0)
                × (get32 t.mem (span + pages_for size * page_size) ≡ canary_word))))
unfolding take_span
take_span-Inside s size span pmm' small some_span given =
    let p = (hdr_size + size + page_size - 1) % 2 ^ 64 / page_size % 2 ^ 32 in
    let pages : p ≡ pages_for size = omega arith in
    let few : ltb (km_large_max / page_size) p ≡ false =
      (let le : p ≤ 16 = omega arith in ground (arith, le)) in
    let found : pmm_alloc_contig s.pmm p ≡ some (span, pmm') =
      ap (pmm_alloc_contig s.pmm) pages ∙ given in
    let there : (span == 0) ≡ false = ground (arith, some_span) in
    let plain : (size + hdr_size) % 2 ^ 64 ≡ size + hdr_size = mod-eq_of_lt (omega arith) in
    let v = marked s.mem span size p in
    let body = span + hdr_size in
    let all = set_bytes v body fill_byte size in
    rw (few, found, there, plain)
      (
        _,
        (
          refl,
          elim (eq-cases ((size + hdr_size) % page_size) 0) [
            | inr part ↦ inl (
              part,
              record {
                before = λ i lt.
                    set_bytes-apart v body fill_byte size i (inl (omega arith))
                    ∙ marked-before s.mem span size p i lt;
                behind = λ i ge.
                    set_bytes-apart v body fill_byte size i (inr (omega arith))
                    ∙ marked-behind s.mem span size p i part ge;
              },
            )
            | inl full ↦
                let end : span + pages_for size * page_size ≡ body + size = omega arith in
                inr (
                  full,
                  ap (get32 all) end
                      ∙ get32-same all v (body + size)
                          (λ i lo hi. set_bytes-apart v body fill_byte size i (inr lo))
                      ∙ marked-full s.mem span size p full,
                )
          ],
        ),
      )
