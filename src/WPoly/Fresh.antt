-- ===== src/WPoly/Fresh.antt =====
-- A WPoly tracks only variables below the counter of guids, so the next guid is free.
use polymalys.Common.{
  false, ℕ, ◌<◌, none, some, [], ◌∷◌, ◌≡◌, sym, ◌∙◌, ◌==◌, ltb, arith, Bool-cases, Option-cases,
  inl, inr,
}
use polymalys.Common.Int.{ℤ}
use polymalys.Common.StdMap.{StdMap, find, find-put}
use polymalys.Linear.{WCons}
use polymalys.Linear.Value.{Valuation}
use polymalys.Linear.Fresh.{IsBelow, Uses}
use polymalys.Ppl.{Ppl}
use polymalys.WPoly.{
  WPoly, translate, to_ppl_terms, to_ppl, embed_new, translate_cons, add_constraint,
}
use polymalys.WPoly.Adapter.{Models}

module _ (P : Ppl) where
  abbrev pub TracksBelow : ℕ → WPoly P → Type 0
  TracksBelow n w = (g d : ℕ) → find g w.adapter ≡ some d → g < n

  translate-TracksBelow :
      (n : ℕ) (w : WPoly P) (g : ℕ) → g < n → TracksBelow n w → TracksBelow n (translate P w g).1
  unfolding translate
  translate-TracksBelow n w g l h = elim (Option-cases (find g w.adapter)) [
    | inl e ↦
        rw (translate, e) (λ k d q. ground (arith, q, l, find-put g k w.next w.adapter, h k d))
    | inr (d, e) ↦ rw (translate, e) h
  ]

  to_ppl_terms-TracksBelow :
      (n : ℕ) (m : StdMap ℤ) (w : WPoly P) (e : P.Linear)
      → IsBelow n m
      → TracksBelow n w
      → TracksBelow n (to_ppl_terms P m w e).1
  unfolding to_ppl_terms
  to_ppl_terms-TracksBelow n [] w e l h = h
  to_ppl_terms-TracksBelow n ((g, c) ∷ m) w e l h =
      to_ppl_terms-TracksBelow n m (translate P w g).1 (P.lin_add_term e c (translate P w g).0) l.1
        (translate-TracksBelow n w g l.0 h)

  embed_new-TracksBelow : (n : ℕ) (w : WPoly P) → TracksBelow n w → TracksBelow n (embed_new P w)
  unfolding embed_new
  embed_new-TracksBelow n w h = elim (Bool-cases (ltb (P.space_dimension w.poly) w.next)) [
    | inl e ↦ rw (embed_new, e) h
    | inr e ↦ rw (embed_new, e) h
  ]

  -- a constraint over variables below the bound makes no others tracked
  pub add_constraint-TracksBelow :
      (n : ℕ) (c : WCons) (w : WPoly P)
      → Uses n c.expr
      → TracksBelow n w
      → TracksBelow n (add_constraint P c w)
  unfolding add_constraint translate_cons to_ppl
  add_constraint-TracksBelow n c w l h =
      embed_new-TracksBelow n (to_ppl P c.expr w).1
        (to_ppl_terms-TracksBelow n c.expr.coefs w P.lin_zero l h)

  -- a variable that is not tracked may have any value
  pub Models-fresh :
      (w : WPoly P) (g : ℕ) (ρ σ : Valuation)
      → find g w.adapter ≡ none
      → ((h : ℕ) → (g == h) ≡ false → σ h ≡ ρ h)
      → Models P w ρ
      → Models P w σ
  Models-fresh w g ρ σ e same (x, c, a) = (
    x,
    c,
    λ h d q. elim (Bool-cases (g == h)) [
      | inl s ↦ absurd (ground (arith, e, q, s))
      | inr s ↦ a h d q ∙ sym (same h s)
    ],
  )
