-- ===== src/PolyAnalysis/HeaderBounds.antt =====
-- MAX_ITERATION of processHeader: what is reported for a loop is the greatest bound that was found.
use polymalys.Common.{
  ◌-◌, ◌^◌, ◌%◌, ◌<◌, ℕ, Bool, Option, none, some, List, [], ◌∷◌, ◌≡◌, ◌≢◌, refl, sym, ◌∙◌, subst,
  Bool-cases, inl, inr, arith, ◌⊎◌, All,
}
use polymalys.Common.Int.{pos, negsuc, ℤ, ◌≤ℤ◌, leb_ℤ, eqb_ℤ, eqb_ℤ_iff}
use polymalys.Ppl.{Ppl}
use polymalys.PplDomain.SemInst.{to_int32}
use polymalys.PplDomain.Delta.{to_int}
use polymalys.PplDomain.{PplDomain, unbounded, bottom, set_bound}
use polymalys.PolyAnalysis.Header.{
  HeaderState, Merges, entry_and_back, restart, fresh_header, widen, max_iteration, header_bound,
  process_header, process_headers,
}

-- a bound covers another: it is UNBOUNDED, or both are numbers and it is not smaller
abbrev pub Covers : ℤ → ℤ → Type 0
Covers m b = (m ≡ unbounded) ⊎ ((b ≢ unbounded) × (b ≤ℤ m))

abbrev pub Among : ℤ → List ℤ → Type 0
Among m [] = ⊥
Among m (b ∷ bs) = (m ≡ b) ⊎ Among m bs

-- the greatest of some bounds
abbrev pub IsGreatest : ℤ → List ℤ → Type 0
IsGreatest m bs = All (Covers m) bs × Among m bs

-- the numbers that an `int` holds
abbrev pub IsInt : ℤ → Type 0
IsInt b = (negsuc (2 ^ 31 - 1) ≤ℤ b) × (b ≤ℤ pos (2 ^ 31 - 1))

to_int-IsInt : (b : ℤ) → IsInt b → to_int b ≡ b
unfolding to_int to_int32
to_int-IsInt (pos n) h =
    let small : n < 2 ^ 31 = omega (arith, h.1) in
    let same : n % 2 ^ 32 ≡ n = omega (arith, small) in rw same (ground (arith, small))
to_int-IsInt (negsuc n) h =
    let small : n < 2 ^ 31 = omega (arith, h.0) in
    let same : n % 2 ^ 32 ≡ n = omega (arith, small) in rw same (ground (arith, small))

self-Covers : (b : ℤ) → Covers b b
self-Covers b = elim (Bool-cases (eqb_ℤ b unbounded)) [
  | inl q ↦ inl ((eqb_ℤ_iff b unbounded).0 q)
  | inr q ↦ inr (λ x. absurd (ground (arith, q, (eqb_ℤ_iff b unbounded).1 x)), omega arith)
]

-- what one more bound does
record IsRaised (old b m : ℤ) : Type 0 where
  covers : Covers m b
  keeps : (c : ℤ) → Covers old c → Covers m c
  one_of : (m ≡ old) ⊎ (m ≡ b)

max_iteration-IsRaised : (old b : ℤ) → IsInt b → IsRaised old b (max_iteration old b)
unfolding max_iteration
max_iteration-IsRaised old b int = elim (Bool-cases (eqb_ℤ old unbounded)) [
  | inl q ↦
      let same : old ≡ unbounded = (eqb_ℤ_iff old unbounded).0 q in
      let stays : max_iteration old b ≡ old = ground (arith, q) in
      subst (IsRaised old b) (sym stays)
        (record { covers = inl same; keeps = λ c h. h; one_of = inl refl })
  | inr q ↦ elim (Bool-cases (eqb_ℤ b unbounded)) [
    | inl r ↦
        let same : b ≡ unbounded = (eqb_ℤ_iff b unbounded).0 r in
        let moves : max_iteration old b ≡ b = ground (arith, q, r, to_int-IsInt b int) in
        subst (IsRaised old b) (sym moves)
          (record { covers = inl same; keeps = λ c h. inl same; one_of = inr refl })
    | inr r ↦
        let number : b ≢ unbounded = λ x. absurd (ground (arith, r, (eqb_ℤ_iff b unbounded).1 x)) in
        let finite : old ≢ unbounded =
          λ x. absurd (ground (arith, q, (eqb_ℤ_iff old unbounded).1 x)) in
        elim (Bool-cases (leb_ℤ b old)) [
          | inl l ↦
              let stays : max_iteration old b ≡ old = ground (arith, q, r, l) in
              let below : b ≤ℤ old = ground (arith, l) in
              subst (IsRaised old b) (sym stays)
                (record { covers = inr (number, below); keeps = λ c h. h; one_of = inl refl })
          | inr l ↦
              let moves : max_iteration old b ≡ b = ground (arith, q, r, l, to_int-IsInt b int) in
              let above : old ≤ℤ b = ground (arith, l) in
              subst (IsRaised old b) (sym moves) (record {
                covers = self-Covers b;
                keeps = λ c h. elim h [
                  | inl x ↦ absurd (finite x)
                  | inr (n, k) ↦ inr (n, omega (arith, k, above))
                ];
                one_of = inr refl;
              })
        ]
  ]
]

Covers-trans : (m x c : ℤ) → Covers m x → Covers x c → Covers m c
Covers-trans m x c (inl e) k = inl e
Covers-trans m x c (inr (n, l)) (inl e) = absurd (n e)
Covers-trans m x c (inr (n, l)) (inr (o, k)) = inr (o, omega (arith, l, k))

raised-IsGreatest :
    (old b m : ℤ) (bs : List ℤ)
    → IsInt b
    → IsGreatest m (max_iteration old b ∷ bs)
    → IsGreatest m (old ∷ b ∷ bs)
raised-IsGreatest old b m bs int ((c, cs), among) =
    let raised = max_iteration-IsRaised old b int in
    let m_old = Covers-trans m (max_iteration old b) old c (raised.keeps old (self-Covers old)) in
    let m_b = Covers-trans m (max_iteration old b) b c raised.covers in
    (
      (m_old, (m_b, cs)),
      elim among [
        | inl e ↦ elim raised.one_of [ inl x ↦ inl (e ∙ x) | inr x ↦ inr (inl (e ∙ x)) ]
        | inr x ↦ inr (inr x)
      ],
    )

module _ (P : Ppl) (merges : Merges P) where
  -- the bounds that the visits of a header find
  abbrev pub Bounds : ℕ → List (List (Bool × PplDomain P)) → List ℤ → Type 0
  Bounds header [] [] = Unit
  Bounds header (es ∷ visits) (b ∷ bs) =
      (header_bound P merges header es ≡ some b) × Bounds header visits bs
  Bounds header _ _ = ⊥

  process_header-found :
      (gap : ℤ) (header : ℕ) (es : List (Bool × PplDomain P)) (b : ℤ)
      (found : Option (HeaderState P)) (old : ℤ)
      → header_bound P merges header es ≡ some b
      → (hs : HeaderState P) × (process_header P merges gap header es (found, old)
          ≡ some (hs, max_iteration old b))
  unfolding process_header
  process_header-found gap header es b found old e =
      let (entry, back) = entry_and_back P merges es (bottom P, bottom P) in
      let hs = restart P merges entry (elim found [ none ↦ fresh_header P merges | some h ↦ h ]) in
      (widen P merges (set_bound P gap back header b) hs, rw (process_header, e) refl)

  -- Where each visit of a loop header finds a bound of the loop that an `int` holds, all visits succeed, and MAX_ITERATION is
  -- then the greatest of these bounds and the bound before them, UNBOUNDED being above all numbers.
  pub process_headers-IsGreatest :
      (gap : ℤ) (header : ℕ) (visits : List (List (Bool × PplDomain P))) (bs : List ℤ)
      (found : Option (HeaderState P)) (old : ℤ)
      → Bounds header visits bs
      → All IsInt bs
      → (hs : Option (HeaderState P)) × (m : ℤ) × (process_headers P merges gap header visits
            (found, old)
          ≡ some (hs, m))
        × IsGreatest m (old ∷ bs)
  unfolding process_headers process_header
  process_headers-IsGreatest gap header [] [] found old h ints =
      (found, old, refl, ((self-Covers old, tt), inl refl))
  process_headers-IsGreatest gap header [] (b ∷ bs) found old h ints = absurd h
  process_headers-IsGreatest gap header (es ∷ visits) [] found old h ints = absurd h
  process_headers-IsGreatest gap header (es ∷ visits) (b ∷ bs) found old h ints =
      let (next, f) = process_header-found gap header es b found old h.0 in
      let (hs, m, g, (covers, among)) =
        process_headers-IsGreatest gap header visits bs (some next) (max_iteration old b) h.1
          ints.1 in
      (hs, m, rw (process_headers, f) g, raised-IsGreatest old b m bs ints.0 (covers, among))
