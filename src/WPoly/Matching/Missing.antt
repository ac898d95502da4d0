-- ===== src/WPoly/Matching/Missing.antt =====
-- The two first loops of WPoly::combine of poly_PolyWrap.cpp, where the variables of the one operand
-- that the other one misses are added to it.
use polymalys.Common.{
  ℕ, ◌+◌, true, false, some, List, [], ◌∷◌, ◌≡◌, refl, sym, subst, ◌∙◌, ◌⊎◌, ◌==◌, arith,
  Option-cases, Bool-cases, inl, inr,
}
use polymalys.Common.StdMap.{
  StdMap, find, put, has, find-has, has-find, find-put, find_nil, find_head, find_tail,
}
use polymalys.Linear.Value.{Valuation}
use polymalys.Ppl.{Ppl}
use polymalys.WPoly.{WPoly}
use polymalys.WPoly.Adapter.{
  IsAdapter, IsWPoly, Models, Extends, added, Extends-refl, Extends-trans, added-Extends,
}
use polymalys.WPoly.Combine.{add_missing, Missing}

pub has-some : (g d : ℕ) (m : StdMap ℕ) → find g m ≡ some d → has g m ≡ true
has-some g d m e = elim (Bool-cases (has g m)) [
  | inl t ↦ t
  | inr f ↦ absurd (ground (arith, e, has-find g m f))
]

add_missing_known :
    (g d : ℕ) (m to : StdMap ℕ) (n k : ℕ) (vs : List ℕ)
    → has g to ≡ true
    → add_missing true ((g, d) ∷ m) (to, n, k, vs) ≡ add_missing true m (to, n, k, vs)
unfolding add_missing
add_missing_known g d m to n k vs e = rw (e, add_missing) refl

add_missing_new :
    (g d : ℕ) (m to : StdMap ℕ) (n k : ℕ) (vs : List ℕ)
    → has g to ≡ false
    → add_missing true ((g, d) ∷ m) (to, n, k, vs)
      ≡ add_missing true m (put g n to, n + 1, k + 1, vs)
unfolding add_missing
add_missing_new g d m to n k vs e = rw (e, add_missing) refl

module _ (P : Ppl) where
  abbrev pub with_missing : WPoly P → Missing → WPoly P
  with_missing w t = record w { adapter = t.0; next = t.1 }

  pub record IsCompleted (w : WPoly P) (m : StdMap ℕ) (k : ℕ) (t : Missing) : Type 0 where
    pub extends : Extends P w (with_missing w t)
    pub count : t.1 + k ≡ w.next + t.2
    pub tracks : (g d : ℕ) → find g m ≡ some d → (j : ℕ) × (find g t.0 ≡ some j)
    pub origin :
        (g j : ℕ)
        → find g t.0 ≡ some j
        → ((c : ℕ) × (find g w.adapter ≡ some c)) ⊎ ((c : ℕ) × (find g m ≡ some c))

  pub add_missing-IsCompleted :
      (m : StdMap ℕ) (w : WPoly P) (k : ℕ) (vs : List ℕ)
      → IsAdapter P w
      → IsCompleted w m k (add_missing true m (w.adapter, w.next, k, vs))
  unfolding add_missing added
  add_missing-IsCompleted [] w k vs a = record {
    extends = Extends-refl P w a;
    count = refl;
    tracks = λ g d e. absurd (ground (arith, e, find_nil {V = ℕ} g));
    origin = λ g j e. inl (j, e);
  }
  add_missing-IsCompleted ((g, d) ∷ m) w k vs a = elim (Option-cases (find g w.adapter)) [
    | inl o ↦
        let c =
          add_missing-IsCompleted m (added P w a g o) (k + 1) vs
            (added-Extends P w a g o).adapter in
        subst (IsCompleted w ((g, d) ∷ m) k)
          (sym (add_missing_new g d m w.adapter w.next k vs (find-has g w.adapter o)))
          (record {
            extends = Extends-trans P w (added P w a g o) _ (added-Extends P w a g o) c.extends;
            count = omega (arith, c.count);
            tracks = λ h b e. elim (Bool-cases (g == h)) [
              | inl s ↦
                  (w.next, c.extends.keeps h w.next (ground (arith, find-put g h w.next w.adapter)))
              | inr f ↦ c.tracks h b (sym (find_tail g h d m f) ∙ e)
            ];
            origin = λ h j e. elim (c.origin h j e) [
              | inl (b, x) ↦ elim (Bool-cases (g == h)) [
                | inl s ↦ inr (d, ground (arith, find_head g d m))
                | inr f ↦ inl (b, ground (arith, find-put g h w.next w.adapter))
              ]
              | inr (b, x) ↦ elim (Bool-cases (g == h)) [
                | inl s ↦ inr (d, ground (arith, find_head g d m))
                | inr f ↦ inr (b, find_tail g h d m f ∙ x)
              ]
            ];
          })
    | inr (i, o) ↦
        let c = add_missing-IsCompleted m w k vs a in
        subst (IsCompleted w ((g, d) ∷ m) k)
          (sym (add_missing_known g d m w.adapter w.next k vs (has-some g i w.adapter o)))
          (record {
            extends = c.extends;
            count = c.count;
            tracks = λ h b e. elim (Bool-cases (g == h)) [
              | inl s ↦ (i, c.extends.keeps h i (ground arith))
              | inr f ↦ c.tracks h b (sym (find_tail g h d m f) ∙ e)
            ];
            origin = λ h j e. elim (c.origin h j e) [
              | inl x ↦ inl x
              | inr (b, x) ↦ elim (Bool-cases (g == h)) [
                | inl s ↦ inr (d, ground (arith, find_head g d m))
                | inr f ↦ inr (b, find_tail g h d m f ∙ x)
              ]
            ];
          })
  ]

  -- the polyhedron gets the dimensions that the adapter already has
  module _ (w v : WPoly P) (n : ℕ) (i : IsWPoly P w) (x : Extends P w v) where
    unfoldable pub embedded : WPoly P
    embedded = record v { poly = P.add_space_dimensions_and_embed w.poly n }

    pub embedded-IsWPoly : v.next ≡ w.next + n → IsWPoly P embedded
    unfolding embedded
    embedded-IsWPoly e =
        let dim = P.embed_dimension w.poly n in
        record {
          adapter = record {
            ordered = x.adapter.ordered;
            bounded = x.adapter.bounded;
            distinct = x.adapter.distinct;
            full = x.adapter.full;
            room = omega (arith, dim, e, i.dimension);
          };
          dimension = omega (arith, dim, e, i.dimension);
        }

    pub embedded-Models : (ρ : Valuation) → Models P w ρ → Models P embedded ρ
    unfolding embedded
    embedded-Models ρ (z, c, a) =
        let (y, same, agree) = x.points ρ z a in
        (
          y,
          (P.embed_contains w.poly n y).1
              (P.Contains_local w.poly z y (λ d l. same d (omega (arith, i.dimension, l))) c),
          agree,
        )

    pub embedded-Models_back : (ρ : Valuation) → Models P embedded ρ → Models P w ρ
    unfolding embedded
    embedded-Models_back ρ (y, c, a) =
        (y, (P.embed_contains w.poly n y).0 c, λ g d e. a g d (x.keeps g d e))
