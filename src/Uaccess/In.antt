-- ===== src/Uaccess/In.antt =====
-- `uacc_copy_in`, and what it brings back of a copy to a process.
use mobile_phone_os.Prelude.{
  ℕ, zero, suc, ◌+◌, ◌-◌, ◌%◌, ◌^◌, ◌≤◌, ◌<◌, ◌≡◌, inl, inr, refl, sym, ap, ◌∙◌, Bool, true, false,
  ◌&&◌, Option, none, some, ltb, leb, ◌==◌, if◌then◌else◌, arith, Bool-cases, subst, some_inj,
  add64, pos,
}
use native.Mathlib.Decide.{dec_lt}
use native.Mathlib.Nat.{mod-eq_of_lt}
use mobile_phone_os.Pmm.{page_size}
use mobile_phone_os.Vmm.{vmm_probe}
use mobile_phone_os.Uaccess.{
  user_va_limit, range_ok, chunk, copied_between, place, copy_in_loop, copy_out_loop, uacc_copy_in,
  uacc_copy_out,
}
use mobile_phone_os.Uaccess.Range.{
  permits, Granted, chunk_bounds, check_range-exact, range_ok-below,
}
use mobile_phone_os.Uaccess.Out.{
  MapsTo, WrittenIn, copy_out_loop-WrittenIn, chunk-MapsTo, permits-some, uacc_copy_out-done,
  copy_out_loop-turn,
}

-- The physical address of a byte of the process, 0 if there is none.
abbrev pub translated : (ℕ → ℕ) → (root x : ℕ) → ℕ
translated mem root x = elim (vmm_probe mem root x) [ none ↦ 0 | some (pa, fl) ↦ place pa x ]

translated-MapsTo : (mem : ℕ → ℕ) (root x a : ℕ) → MapsTo mem root x a → translated mem root x ≡ a
translated-MapsTo mem root x a h =
    ap (λ (o : Option (ℕ × ℕ)). elim o as (λ _. ℕ) [ none ↦ 0 | some (pa, fl) ↦ place pa x ])
      h.found
    ∙ sym h.there

pub chunk-translated :
    (mem : ℕ → ℕ) (root va len x pa fl : ℕ)
    → 0 < len
    → vmm_probe mem root va ≡ some (pa, fl)
    → va ≤ x
    → x < va + chunk va len
    → translated mem root x ≡ place pa va + (x - va)
chunk-translated mem root va len x pa fl some_left e lo hi =
    translated-MapsTo mem root x (place pa va + (x - va))
      (chunk-MapsTo mem root va len x pa fl some_left e lo hi)

copy_in_loop-turn :
    (fuel : ℕ) (mem phys kdst : ℕ → ℕ) (root usrc k len pa fl : ℕ)
    → (len == 0) ≡ false
    → vmm_probe mem root usrc ≡ some (pa, fl)
    → add64 usrc (chunk usrc len) ≡ usrc + chunk usrc len
    → copy_in_loop (suc fuel) mem phys kdst root usrc k len
      ≡ copy_in_loop fuel mem phys
          (copied_between kdst k phys (place pa usrc) (chunk usrc len))
          root
          (usrc + chunk usrc len)
          (k + chunk usrc len)
          (len - chunk usrc len)
unfolding copy_in_loop
copy_in_loop-turn fuel mem phys kdst root usrc k len pa fl e p step = rw (e, p, step) refl

-- The buffer once `len` bytes of the process have come to its index `k`.
abbrev pub brought : (mem phys kdst : ℕ → ℕ) → (root usrc k len i : ℕ) → ℕ
brought mem phys kdst root usrc k len i =
    if leb k i && ltb i (k + len) then phys (translated mem root (usrc + (i - k))) else kdst i

brought-split :
    (phys kdst address : ℕ → ℕ) (usrc k n len start i : ℕ)
    → n ≤ len
    → ((x : ℕ) → usrc ≤ x → x < usrc + n → address x ≡ start + (x - usrc))
    → (if leb (k + n) i && ltb i (k + n + (len - n))
        then phys (address (usrc + n + (i - (k + n))))
        else if leb k i && ltb i (k + n)
        then phys (start + (i - k))
        else kdst i)
      ≡ (if leb k i && ltb i (k + len) then phys (address (usrc + (i - k))) else kdst i)
brought-split phys kdst address usrc k n len start i le near = elim (dec_lt i k) [
  | yes lo ↦ ground arith
  | no from ↦ elim (dec_lt i (k + n)) [
    | yes hi ↦
        let e : address (usrc + (i - k)) ≡ start + (i - k) =
          near (usrc + (i - k)) (omega arith) (omega arith) ∙ omega arith in
        rw e (ground arith)
    | no past ↦
        let e : usrc + n + (i - (k + n)) ≡ usrc + (i - k) = omega arith in rw e (ground arith)
  ]
]

brought-chunk :
    (mem phys kdst : ℕ → ℕ) (root usrc k len pa fl i : ℕ)
    → 0 < len
    → vmm_probe mem root usrc ≡ some (pa, fl)
    → brought mem phys
        (copied_between kdst k phys (place pa usrc) (chunk usrc len))
        root
        (usrc + chunk usrc len)
        (k + chunk usrc len)
        (len - chunk usrc len)
        i
      ≡ brought mem phys kdst root usrc k len i
brought-chunk mem phys kdst root usrc k len pa fl i some_left e =
    brought-split phys kdst (translated mem root) usrc k (chunk usrc len) len (place pa usrc) i
      (chunk_bounds usrc len some_left).1
      (λ x lo hi. chunk-translated mem root usrc len x pa fl some_left e lo hi)

copy_in_loop-brought :
    (fuel : ℕ) (mem phys kdst : ℕ → ℕ) (root usrc k len : ℕ)
    → len ≤ fuel
    → usrc + len < 2 ^ 64
    → Granted false mem root usrc len
    → (kdst' : ℕ → ℕ) × (copy_in_loop fuel mem phys kdst root usrc k len ≡ some kdst')
      × ((i : ℕ) → kdst' i ≡ brought mem phys kdst root usrc k len i)
unfolding copy_in_loop
copy_in_loop-brought zero mem phys kdst root usrc k len le fits g =
    (kdst, ground arith, λ i. ground arith)
copy_in_loop-brought (suc fuel) mem phys kdst root usrc k len le fits g =
    elim (Bool-cases (len == 0)) [
      | inl e ↦ (kdst, rw e refl, λ i. ground (arith, e))
      | inr e ↦
          let some_left : 0 < len = ground (arith, e) in
          let n = chunk usrc len in
          let b : (0 < n) × (n ≤ len) × (usrc % page_size + n ≤ page_size) =
            chunk_bounds usrc len some_left in
          let p : (pa : ℕ) × (fl : ℕ) × (vmm_probe mem root usrc ≡ some (pa, fl)) =
            permits-some false (vmm_probe mem root usrc) (g usrc (omega arith) (omega arith)) in
          let kdst1 = copied_between kdst k phys (place p.0 usrc) n in
          let r : (kdst' : ℕ → ℕ) × (copy_in_loop fuel mem phys kdst1 root (usrc + n) (k + n)
                  (len - n)
                ≡ some kdst')
              × ((i : ℕ) → kdst' i ≡ brought mem phys kdst1 root (usrc + n) (k + n) (len - n) i) =
            copy_in_loop-brought fuel mem phys kdst1 root (usrc + n) (k + n) (len - n) (omega arith)
              (omega arith) (λ x lo hi. g x (omega arith) (omega arith)) in
          (
            r.0,
            copy_in_loop-turn fuel mem phys kdst root usrc k len p.0 p.1 e p.2
                  (mod-eq_of_lt (omega arith))
                ∙ r.1,
            λ i. r.2 i ∙ brought-chunk mem phys kdst root usrc k len p.0 p.1 i some_left p.2,
          )
    ]

copied_between-in :
    (to from : ℕ → ℕ) (dst src n j : ℕ)
    → j < n
    → copied_between to dst from src n (dst + j) ≡ from (src + j)
copied_between-in to from dst src n j lt = ground arith

-- No two addresses of the range are mapped to one physical address.
abbrev pub Injective : (ℕ → ℕ) → (root va len : ℕ) → Type 0
Injective mem root va len =
    (x y : ℕ)
    → va ≤ x
    → x < va + len
    → va ≤ y
    → y < va + len
    → translated mem root x ≡ translated mem root y
    → x ≡ y

-- The bytes of the range come from the buffer, from its index `k` on.
abbrev pub Sent : (mem phys ksrc : ℕ → ℕ) → (root va k len : ℕ) → Type 0
Sent mem phys ksrc root va k len =
    (x : ℕ) → va ≤ x → x < va + len → phys (translated mem root x) ≡ ksrc (k + (x - va))

-- What the later turns of the loop leave of the first one.
first-Sent :
    (mem phys phys' ksrc : ℕ → ℕ) (root udst k len pa fl x : ℕ)
    → 0 < len
    → vmm_probe mem root udst ≡ some (pa, fl)
    → Injective mem root udst len
    → WrittenIn mem
        (copied_between phys (place pa udst) ksrc k (chunk udst len))
        phys'
        root
        (udst + chunk udst len)
        (len - chunk udst len)
    → udst ≤ x
    → x < udst + chunk udst len
    → phys' (translated mem root x) ≡ ksrc (k + (x - udst))
first-Sent mem phys phys' ksrc root udst k len pa fl x some_left e inj w lo hi =
    let n = chunk udst len in
    let b : (0 < n) × (n ≤ len) × (udst % page_size + n ≤ page_size) =
      chunk_bounds udst len some_left in
    let here : translated mem root x ≡ place pa udst + (x - udst) =
      chunk-translated mem root udst len x pa fl some_left e lo hi in
    let wrote : copied_between phys (place pa udst) ksrc k n (place pa udst + (x - udst))
        ≡ ksrc (k + (x - udst)) =
      copied_between-in phys ksrc (place pa udst) k n (x - udst) (omega (arith, hi)) in
    elim (w (translated mem root x)) [
      | inl old ↦ old ∙ ap (copied_between phys (place pa udst) ksrc k n) here ∙ wrote
      | inr later ↦
          let same : x ≡ later.0 =
            inj x later.0 lo (omega arith) (omega (arith, later.1)) (omega (arith, later.2, b.1))
              (sym (translated-MapsTo mem root later.0 (translated mem root x) later.3)) in
          absurd (omega (arith, later.1, same, hi))
    ]

copy_out_loop-Sent :
    (fuel : ℕ) (mem phys phys' ksrc : ℕ → ℕ) (root udst k len : ℕ)
    → len ≤ fuel
    → udst + len < 2 ^ 64
    → Granted true mem root udst len
    → Injective mem root udst len
    → copy_out_loop fuel mem phys ksrc root udst k len ≡ some phys'
    → Sent mem phys' ksrc root udst k len
copy_out_loop-Sent zero mem phys phys' ksrc root udst k len le fits g inj e x lo hi =
    absurd (omega arith)
copy_out_loop-Sent (suc fuel) mem phys phys' ksrc root udst k len le fits g inj e x lo hi =
    let some_left : 0 < len = omega arith in
    let n = chunk udst len in
    let b : (0 < n) × (n ≤ len) × (udst % page_size + n ≤ page_size) =
      chunk_bounds udst len some_left in
    let p : (pa : ℕ) × (fl : ℕ) × (vmm_probe mem root udst ≡ some (pa, fl)) =
      permits-some true (vmm_probe mem root udst) (g udst (omega arith) (omega arith)) in
    let phys1 = copied_between phys (place p.0 udst) ksrc k n in
    let rest : copy_out_loop fuel mem phys1 ksrc root (udst + n) (k + n) (len - n) ≡ some phys' =
      sym (
        copy_out_loop-turn fuel mem phys ksrc root udst k len p.0 p.1 (ground arith) p.2
          (mod-eq_of_lt (omega arith)))
      ∙ e in
    let later : Granted true mem root (udst + n) (len - n) =
      λ y lo' hi'. g y (omega arith) (omega arith) in
    let w : (phys'' : ℕ → ℕ) × (copy_out_loop fuel mem phys1 ksrc root (udst + n) (k + n) (len - n)
          ≡ some phys'')
        × WrittenIn mem phys1 phys'' root (udst + n) (len - n) =
      copy_out_loop-WrittenIn fuel mem phys1 ksrc root (udst + n) (k + n) (len - n) (omega arith)
        (omega arith) later in
    elim (dec_lt x (udst + n)) [
      | yes near ↦
          first-Sent mem phys phys' ksrc root udst k len p.0 p.1 x some_left p.2 inj
            (subst (λ q. WrittenIn mem phys1 q root (udst + n) (len - n))
              (some_inj (sym w.1 ∙ rest)) w.2)
            lo near
      | no far ↦
          copy_out_loop-Sent fuel mem phys1 phys' ksrc root (udst + n) (k + n) (len - n)
            (omega arith) (omega arith) later
            (λ y z a c a' c'. inj y z (omega arith) (omega arith) (omega arith) (omega arith)) rest
            x (omega arith) (omega arith)
          ∙ ap ksrc (omega arith)
    ]

granted-read : (write : Bool) (o : Option (ℕ × ℕ)) → permits write o ≡ true → permits false o ≡ true
granted-read write none h = cc
granted-read write (some (pa, fl)) h = ground (arith, h)

brought-Sent :
    (mem phys ksrc kdst : ℕ → ℕ) (root va len i : ℕ)
    → Sent mem phys ksrc root va 0 len
    → brought mem phys kdst root va 0 len i ≡ (if ltb i len then ksrc i else kdst i)
brought-Sent mem phys ksrc kdst root va len i sent = elim (Bool-cases (ltb i len)) [
  | inl lt ↦
      let e : phys (translated mem root (va + (i - 0))) ≡ ksrc i =
        sent (va + (i - 0)) (omega arith) (ground (arith, lt)) ∙ ap ksrc (omega arith) in
      ground (arith, e, lt)
  | inr ge ↦ ground (arith, ge)
]

-- A copy from a range that holds these bytes.
uacc_copy_in-Sent :
    (mem phys ksrc kdst : ℕ → ℕ) (root va len : ℕ)
    → range_ok va len ≡ true
    → va + len ≤ user_va_limit
    → Granted true mem root va len
    → Sent mem phys ksrc root va 0 len
    → (kdst' : ℕ → ℕ) × (uacc_copy_in mem phys kdst root va len ≡ some (pos 0, kdst'))
      × ((i : ℕ) → kdst' i ≡ (if ltb i len then ksrc i else kdst i))
unfolding uacc_copy_in
uacc_copy_in-Sent mem phys ksrc kdst root va len ok below g sent =
    let readable : Granted false mem root va len =
      λ x lo hi. granted-read true (vmm_probe mem root x) (g x lo hi) in
    let r : (kdst' : ℕ → ℕ) × (copy_in_loop len mem phys kdst root va 0 len ≡ some kdst')
        × ((i : ℕ) → kdst' i ≡ brought mem phys kdst root va 0 len i) =
      copy_in_loop-brought len mem phys kdst root va 0 len (omega arith) (omega arith) readable in
    (
      r.0,
      elim (check_range-exact len mem root va len false (omega arith) (omega arith)) [
        | inl c ↦ rw (ok, c.0, r.1) refl
        | inr c ↦ absurd (cc (c.1.3, readable c.1.0 c.1.1 c.1.2))
      ],
      λ i. r.2 i ∙ brought-Sent mem phys ksrc kdst root va len i sent,
    )

-- A copy that succeeds leaves the bytes in the range.
uacc_copy_out-Sent :
    (mem phys ksrc phys' : ℕ → ℕ) (root va len : ℕ)
    → va < 2 ^ 64
    → len < 2 ^ 64
    → Injective mem root va len
    → uacc_copy_out mem phys root va ksrc len ≡ some (pos 0, phys')
    → (range_ok va len ≡ true)
      × (va + len ≤ user_va_limit)
      × Granted true mem root va len
      × Sent mem phys' ksrc root va 0 len
uacc_copy_out-Sent mem phys ksrc phys' root va len h k inj e =
    let d : (range_ok va len ≡ true)
        × Granted true mem root va len
        × (copy_out_loop len mem phys ksrc root va 0 len ≡ some phys') =
      uacc_copy_out-done mem phys ksrc phys' root va len h k e in
    let below : va + len ≤ user_va_limit = range_ok-below va len h k d.0 in
    (
      d.0,
      below,
      d.1,
      copy_out_loop-Sent len mem phys phys' ksrc root va 0 len (omega arith) (omega arith) d.1 inj
          d.2,
    )

-- What was copied to a range of a process whose addresses are mapped to different bytes is brought
-- back unchanged by a copy from that range, which succeeds; and the rest of the buffer stays as it is.
pub uacc_copy_in-uacc_copy_out :
    (mem phys ksrc kdst phys' : ℕ → ℕ) (root va len : ℕ)
    → va < 2 ^ 64
    → len < 2 ^ 64
    → Injective mem root va len
    → uacc_copy_out mem phys root va ksrc len ≡ some (pos 0, phys')
    → (kdst' : ℕ → ℕ) × (uacc_copy_in mem phys' kdst root va len ≡ some (pos 0, kdst'))
      × ((i : ℕ) → kdst' i ≡ (if ltb i len then ksrc i else kdst i))
uacc_copy_in-uacc_copy_out mem phys ksrc kdst phys' root va len h k inj e =
    let d : (range_ok va len ≡ true)
        × (va + len ≤ user_va_limit)
        × Granted true mem root va len
        × Sent mem phys' ksrc root va 0 len =
      uacc_copy_out-Sent mem phys ksrc phys' root va len h k inj e in
    uacc_copy_in-Sent mem phys' ksrc kdst root va len d.0 d.1 d.2 d.3
