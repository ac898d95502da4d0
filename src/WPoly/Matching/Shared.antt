-- ===== src/WPoly/Matching/Shared.antt =====
-- combine(src, false) of poly_PolyWrap.cpp: each operand loses the variables that the other one does
-- not track.
use mathlib.Core.List.{append-nil, append_assoc}
use polymalys.Common.{
  ℕ, ◌<◌, Bool, true, false, some, List, [], ◌∷◌, ◌++◌, ◌≡◌, refl, arith, Option-cases, Bool-cases,
  inl, inr,
}
use polymalys.Common.StdMap.{StdMap, find, has, find-has}
use polymalys.Linear.Value.{Valuation}
use polymalys.Ppl.{Ppl}
use polymalys.WPoly.{WPoly}
use polymalys.WPoly.Adapter.{IsWPoly, Models, Extends-refl}
use polymalys.WPoly.Combine.{add_missing}
use polymalys.WPoly.Drop.Filter.{dropped, IsRestricted, restricted, restricted-IsRestricted}
use polymalys.WPoly.Matching.Missing.{has-some, embedded, embedded-IsWPoly, embedded-Models}

-- the variables that an adapter has
abbrev pub among : StdMap ℕ → ℕ → Bool
among to g = has g to

pub add_missing-dropped :
    (m to : StdMap ℕ) (n k : ℕ) (vs : List ℕ)
    → add_missing false m (to, n, k, vs) ≡ (to, n, k, vs ++ dropped (among to) m)
unfolding add_missing dropped
add_missing-dropped [] to n k vs = simp append-nil
add_missing-dropped ((g, d) ∷ m) to n k vs = elim (Bool-cases (has g to)) [
  | inl e ↦ ground (arith, e, add_missing-dropped m to n k vs)
  | inr e ↦ ground (
    arith,
    e,
    add_missing-dropped m to n k (vs ++ d ∷ []),
    append_assoc vs (d ∷ []) (dropped (among to) m),
  )
]

has_inv : (g : ℕ) (m : StdMap ℕ) → has g m ≡ true → (d : ℕ) × (find g m ≡ some d)
has_inv g m e = elim (Option-cases (find g m)) [
  | inl o ↦ absurd (ground (arith, find-has g m o))
  | inr x ↦ x
]

-- one of the operands without the variables that the other one lacks
module _ (P : Ppl) (w : WPoly P) (a : IsWPoly P w) where
  abbrev pub plain : WPoly P
  plain = embedded P w w 0 a (Extends-refl P w a.adapter)

  pub plain-IsWPoly : IsWPoly P plain
  plain-IsWPoly = embedded-IsWPoly P w w 0 a (Extends-refl P w a.adapter) (omega arith)

  module _ (to : StdMap ℕ) (l : 0 < w.next) where
    pub plain_positive : 0 < plain.next
    unfolding embedded
    plain_positive = l

    abbrev pub shared : WPoly P
    shared = restricted (among to) P plain plain-IsWPoly plain_positive

    pub shared-IsRestricted : IsRestricted (among to) P plain shared
    shared-IsRestricted = restricted-IsRestricted (among to) P plain plain-IsWPoly plain_positive

    pub shared_origin :
        (g j : ℕ)
        → find g shared.adapter ≡ some j
        → ((c : ℕ) × (find g w.adapter ≡ some c)) × ((d : ℕ) × (find g to ≡ some d))
    unfolding embedded
    shared_origin g j e = (
      shared-IsRestricted.origin g j e,
      elim (Bool-cases (has g to)) [
        | inl h ↦ has_inv g to h
        | inr h ↦ absurd (ground (arith, e, shared-IsRestricted.gone g h))
      ],
    )

    pub shared_keeps :
        (g c d : ℕ)
        → find g w.adapter ≡ some c
        → find g to ≡ some d
        → (j : ℕ) × (find g shared.adapter ≡ some j)
    unfolding embedded
    shared_keeps g c d e f = shared-IsRestricted.stays g c (has-some g d to f) e

    pub shared-Models : (ρ : Valuation) → Models P w ρ → Models P shared ρ
    shared-Models ρ x =
        shared-IsRestricted.models ρ ρ (embedded-Models P w w 0 a (Extends-refl P w a.adapter) ρ x)
          (λ g e. refl)
