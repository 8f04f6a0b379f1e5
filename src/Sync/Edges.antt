-- ===== src/Sync/Edges.antt =====
-- How the wait-for graph stays free of cycles when an edge comes or goes.
use mobile_phone_os.Prelude.{
  ℕ, zero, suc, ◌≡◌, ◌≢◌, ◌⊎◌, inl, inr, sym, ap, ◌∙◌, Option, none, some, eq-cases,
}
use mobile_phone_os.Sync.Graph.{Ends, EndsWithout}

-- From every mutex the hops end.
abbrev pub AllEnd : (owner lock_wait : ℕ → Option ℕ) → Type 0
AllEnd owner lock_wait = (m : ℕ) → (n : ℕ) × Ends owner lock_wait m n

module _ {owner lock_wait owner' lock_wait' : ℕ → Option ℕ} where
  -- The task `me` intends to take no mutex any more, and owns those of `owner` or one that was free.
  module _ (m me : ℕ) (owners : (x : ℕ) → x ≢ m → owner' x ≡ owner x)
      (waits : (t : ℕ) → t ≢ me → lock_wait' t ≡ lock_wait t) (idle : lock_wait' me ≡ none)
      (own : (owner' m ≡ owner m) ⊎ ((owner m ≡ none) × (owner' m ≡ some me))) where
    idle_wait : (o : ℕ) → lock_wait o ≡ none → lock_wait' o ≡ none
    idle_wait o w = elim (eq-cases o me) [
      | inl e ↦ ap lock_wait' e ∙ idle
      | inr ne ↦ waits o ne ∙ w
    ]

    same_owner : (x o : ℕ) → owner x ≡ some o → owner' x ≡ some o
    same_owner x o e = elim (eq-cases x m) [
      | inl q ↦ elim own [
        | inl s ↦ ap owner' q ∙ s ∙ ap owner (sym q) ∙ e
        | inr (free, s) ↦ absurd (cc (ap owner q, free, e))
      ]
      | inr ne ↦ owners x ne ∙ e
    ]

    Ends-idle : (x n : ℕ) → Ends owner lock_wait x n → (n' : ℕ) × Ends owner' lock_wait' x n'
    Ends-idle x zero (inl e) = elim (eq-cases x m) [
      | inl q ↦ elim own [
        | inl s ↦ (0, inl (ap owner' q ∙ s ∙ ap owner (sym q) ∙ e))
        | inr (free, s) ↦ (0, inr (me, ap owner' q ∙ s, idle))
      ]
      | inr ne ↦ (0, inl (owners x ne ∙ e))
    ]
    Ends-idle x zero (inr (o, e, w)) = (0, inr (o, same_owner x o e, idle_wait o w))
    Ends-idle x (suc n) (o, x', e, w, r) = elim (eq-cases o me) [
      | inl q ↦ (0, inr (o, same_owner x o e, ap lock_wait' q ∙ idle))
      | inr ne ↦
          let (n', r') = Ends-idle x' n r in (suc n', (o, x', same_owner x o e, waits o ne ∙ w, r'))
    ]

    pub AllEnd-idle : AllEnd owner lock_wait → AllEnd owner' lock_wait'
    AllEnd-idle h x = let (n, r) = h x in Ends-idle x n r

  -- The task `me` now intends to take `m`, from where the hops end without meeting it.
  module _ (m me n : ℕ) (owners : (x : ℕ) → owner' x ≡ owner x)
      (waits : (t : ℕ) → t ≢ me → lock_wait' t ≡ lock_wait t) (edge : lock_wait' me ≡ some m)
      (clear : EndsWithout owner lock_wait me m n) where
    Ends-clear : (x k : ℕ) → EndsWithout owner lock_wait me x k → Ends owner' lock_wait' x k
    Ends-clear x zero (inl e) = inl (owners x ∙ e)
    Ends-clear x zero (inr (o, e, ne, w)) = inr (o, owners x ∙ e, waits o ne ∙ w)
    Ends-clear x (suc k) (o, x', e, ne, w, r) =
        (o, x', owners x ∙ e, waits o ne ∙ w, Ends-clear x' k r)

    through_me : (x o : ℕ) → owner x ≡ some o → o ≡ me → (k : ℕ) × Ends owner' lock_wait' x k
    through_me x o e q = (suc n, (o, m, owners x ∙ e, ap lock_wait' q ∙ edge, Ends-clear m n clear))

    Ends-edge : (x k : ℕ) → Ends owner lock_wait x k → (k' : ℕ) × Ends owner' lock_wait' x k'
    Ends-edge x zero (inl e) = (0, inl (owners x ∙ e))
    Ends-edge x zero (inr (o, e, w)) = elim (eq-cases o me) [
      | inl q ↦ through_me x o e q
      | inr ne ↦ (0, inr (o, owners x ∙ e, waits o ne ∙ w))
    ]
    Ends-edge x (suc k) (o, x', e, w, r) = elim (eq-cases o me) [
      | inl q ↦ through_me x o e q
      | inr ne ↦
          let (k', r') = Ends-edge x' k r in (suc k', (o, x', owners x ∙ e, waits o ne ∙ w, r'))
    ]

    pub AllEnd-edge : AllEnd owner lock_wait → AllEnd owner' lock_wait'
    AllEnd-edge h x = let (k, r) = h x in Ends-edge x k r

  -- The mutex `m` becomes free.
  module _ (m : ℕ) (owners : (x : ℕ) → x ≢ m → owner' x ≡ owner x) (free : owner' m ≡ none)
      (waits : (t : ℕ) → lock_wait' t ≡ lock_wait t) where
    Ends-free : (x k : ℕ) → Ends owner lock_wait x k → (k' : ℕ) × Ends owner' lock_wait' x k'
    Ends-free x zero (inl e) = elim (eq-cases x m) [
      | inl q ↦ (0, inl (ap owner' q ∙ free))
      | inr ne ↦ (0, inl (owners x ne ∙ e))
    ]
    Ends-free x zero (inr (o, e, w)) = elim (eq-cases x m) [
      | inl q ↦ (0, inl (ap owner' q ∙ free))
      | inr ne ↦ (0, inr (o, owners x ne ∙ e, waits o ∙ w))
    ]
    Ends-free x (suc k) (o, x', e, w, r) = elim (eq-cases x m) [
      | inl q ↦ (0, inl (ap owner' q ∙ free))
      | inr ne ↦
          let (k', r') = Ends-free x' k r in (suc k', (o, x', owners x ne ∙ e, waits o ∙ w, r'))
    ]

    pub AllEnd-free : AllEnd owner lock_wait → AllEnd owner' lock_wait'
    AllEnd-free h x = let (k, r) = h x in Ends-free x k r

  -- Nothing changes.
  module _ (owners : (x : ℕ) → owner' x ≡ owner x)
      (waits : (t : ℕ) → lock_wait' t ≡ lock_wait t) where
    Ends-same : (x k : ℕ) → Ends owner lock_wait x k → Ends owner' lock_wait' x k
    Ends-same x zero (inl e) = inl (owners x ∙ e)
    Ends-same x zero (inr (o, e, w)) = inr (o, owners x ∙ e, waits o ∙ w)
    Ends-same x (suc k) (o, x', e, w, r) = (o, x', owners x ∙ e, waits o ∙ w, Ends-same x' k r)

    pub AllEnd-same : AllEnd owner lock_wait → AllEnd owner' lock_wait'
    AllEnd-same h x = let (k, r) = h x in (k, Ends-same x k r)
