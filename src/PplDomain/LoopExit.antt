-- ===== src/PplDomain/LoopExit.antt =====
-- What onLoopExit makes of a PPLDomain, with facts on the bottom and the top state.
use polymalys.Common.{
  ℕ, true, false, none, some, ◌≡◌, refl, sym, ◌∙◌, ap, [], ◌∷◌, ◌++◌, ◌↔◌, ◌≢◌, Bool-cases, inl,
  inr, arith, subst,
}
use polymalys.Common.Int.{ℤ, pos, ◌≤ℤ◌, leb_ℤ}
use polymalys.Common.StdMap.{find}
use polymalys.Linear.{of_var, of_cst, cons_at_most}
use polymalys.Linear.Value.{Valuation}
use polymalys.Linear.Compare.{
  Sat, Sat-Comparisons, of_cst-IsExpr, of_var-IsExpr, value-of_cst, value-of_var,
}
use polymalys.Ppl.{Ppl}
use polymalys.WPoly.{new, is_empty}
use polymalys.WPoly.Adapter.{IsWPoly, Models}
use polymalys.Ident.{Ident, IdVal, ident_key}
use polymalys.MyHTable.Copy.{get-make_table}
use polymalys.Mapping.{find1, find2, empty_mapping}
use polymalys.Mapping.Inverse.{del2-IsMapping, empty_mapping-IsMapping, clash, same_some}
use polymalys.PplDomain.{PplDomain, bottom, top, get_var, var_kill}
use polymalys.PplDomain.Loops.{loop_ident, do_new_constraint, limit_counter, on_loop_exit}
use polymalys.PplDomain.LoopFacts.{
  IsDomain, counter, do_new_constraint-IsDomain, do_new_constraint-Models,
}

-- what a bound on the counter asks of a valuation; a negative one asks nothing
abbrev pub Within : ℤ → ℤ → Type 0
Within bound v = pos 0 ≤ℤ bound → v ≤ℤ bound

module _ (P : Ppl) where
  new_empty-IsWPoly : IsWPoly P (new P true)
  unfolding new find
  new_empty-IsWPoly = record {
    adapter = record {
      ordered = tt;
      bounded = λ g d e. ground (arith, e);
      distinct = λ g h d e f. ground (arith, e);
      full = refl;
      room = rw P.empty_dimension (omega arith);
    };
    dimension = P.empty_dimension;
  }

  pub bottom-IsDomain : IsDomain P (bottom P)
  unfolding bottom
  bottom-IsDomain = record { poly = new_empty-IsWPoly; idmap = empty_mapping-IsMapping }

  bottom_no_var : (i : Ident) → get_var P (bottom P) i ≡ none
  unfolding bottom get_var find1 empty_mapping
  bottom_no_var i = get-make_table 211 i

  bottom_no-Models : (ρ : Valuation) → ¬ Models P (PplDomain.poly (bottom P)) ρ
  unfolding bottom new
  bottom_no-Models ρ (x, c, a) = P.empty_contains x c

  Sat-limit :
      (v : ℕ) (b : ℤ) (ρ : Valuation) → Sat ρ (cons_at_most (of_var v) (of_cst b)) ↔ (ρ v ≤ℤ b)
  Sat-limit v b ρ =
      let c = Sat-Comparisons ρ (of_var v) (of_cst b) (of_var-IsExpr v) (of_cst-IsExpr b) in
      rw (value-of_var ρ v, value-of_cst ρ b) at c.at_most

  -- the state with the bound on the counter
  record Limited (d : PplDomain P) (g : ℕ) (bound : ℤ) (r : PplDomain P) : Type 0 where
    valid : IsDomain P r
    idmap : r.idmap ≡ d.idmap
    models : (ρ : Valuation) → Models P r.poly ρ ↔ (Models P d.poly ρ × Within bound (ρ g))

  limit_counter-Limited :
      (d : PplDomain P) (g : ℕ) (bound : ℤ)
      → IsDomain P d
      → Limited d g bound (limit_counter P g bound d)
  unfolding limit_counter do_new_constraint
  limit_counter-Limited d g bound h = elim (Bool-cases (leb_ℤ (pos 0) bound)) [
    | inl e ↦
        rw (limit_counter, e)
          (let c = cons_at_most (of_var g) (of_cst bound) in
            record {
              valid = do_new_constraint-IsDomain P c d h;
              idmap = refl;
              models = λ ρ.
                  let m = do_new_constraint-Models P c d ρ h in
                  (
                    λ x. let (y, z) = m.0 x in (y, λ _. (Sat-limit g bound ρ).0 z),
                    λ (y, z). m.1 (y, (Sat-limit g bound ρ).1 (z (ground (arith, e)))),
                  );
            })
    | inr e ↦
        rw (limit_counter, e)
          (record {
            valid = h;
            idmap = refl;
            models = λ ρ. (λ x. (x, λ p. absurd (ground (arith, e, p))), λ (y, z). y);
          })
  ]

  same_find : (r d : PplDomain P) (i : Ident) → r.idmap ≡ d.idmap → get_var P d i ≡ get_var P r i
  unfolding get_var
  same_find r d i e = ap (λ m. find1 m i) (sym e)

  -- what leaving the loop gives
  pub record Left (d : PplDomain P) (loop : ℤ) (g : ℕ) (bound : ℤ) (r : PplDomain P) : Type 0 where
    pub valid : IsDomain P r
    pub gone : (v : IdVal) → get_var P r (loop_ident loop) ≢ some v
    pub models : (ρ : Valuation) → Models P r.poly ρ ↔ (Models P d.poly ρ × Within bound (ρ g))

  Killed : PplDomain P → IdVal → PplDomain P → Type 0
  Killed d v r =
      IsDomain P r
      × (r.poly ≡ d.poly)
      × ((j : Ident) (w : IdVal) → (get_var P r j ≡ some w) ↔ ((v ≢ w) × (get_var P d j ≡ some w)))

  -- `varKill` of a bound variable unbinds it and keeps the polyhedron
  var_kill-Killed :
      (d : PplDomain P) (i : Ident) (v : IdVal)
      → IsDomain P d
      → get_var P d i ≡ some v
      → (r : PplDomain P) × (var_kill P d v ≡ some r) × Killed d v r
  unfolding var_kill get_var Killed find1 find2
  var_kill-Killed d i v h e =
      let (m, f, valid, pairs) = del2-IsMapping d.idmap v i h.idmap ((h.idmap.inverse i v).0 e) in
      (
        record d { idmap = m; victims = d.victims ++ v.g ∷ [] },
        rw (var_kill, f) refl,
        (record { poly = h.poly; idmap = valid }, refl, pairs),
      )

  Left-bottom :
      (d s : PplDomain P) (loop : ℤ) (g : ℕ) (bound : ℤ)
      → ((ρ : Valuation) → Models P s.poly ρ ↔ (Models P d.poly ρ × Within bound (ρ g)))
      → is_empty P s.poly ≡ true
      → Left d loop g bound (bottom P)
  unfolding is_empty
  Left-bottom d s loop g bound m e = record {
    valid = bottom-IsDomain;
    gone = λ v f. clash _ v (bottom_no_var (loop_ident loop)) f;
    models = λ ρ. (
      λ x. absurd (bottom_no-Models ρ x),
      λ x. let y = (m ρ).1 x in absurd (P.is_empty_sound s.poly.poly y.0 e y.1),
    );
  }

  -- `onLoopExit` of a state that has a counter for the loop succeeds; the loop has no counter
  -- afterwards, and the result describes the valuations that were described and keep the counter
  -- within the bound, where the bound is not negative.
  pub on_loop_exit-Left :
      (d : PplDomain P) (loop bound : ℤ) (g : ℕ)
      → IsDomain P d
      → get_var P d (loop_ident loop) ≡ some (counter g)
      → (r : PplDomain P) × (on_loop_exit P d loop bound ≡ some r) × Left d loop g bound r
  unfolding on_loop_exit Killed
  on_loop_exit-Left d loop bound g h f =
      let l = limit_counter-Limited d g bound h in
      let f' = sym (same_find (limit_counter P g bound d) d (loop_ident loop) l.idmap) ∙ f in
      let (s, e, (valid, same, pairs)) =
        var_kill-Killed (limit_counter P g bound d) (loop_ident loop) (counter g) l.valid f' in
      let m = λ (ρ : Valuation).
        subst (λ w. Models P w ρ ↔ (Models P d.poly ρ × Within bound (ρ g))) (sym same)
          (l.models ρ) in
      elim (Bool-cases (is_empty P s.poly)) [
        | inl b ↦ (bottom P, rw (on_loop_exit, f, e, b) refl, Left-bottom d s loop g bound m b)
        | inr b ↦ (
          s,
          rw (on_loop_exit, f, e, b) refl,
          record {
            valid = valid;
            gone = λ v x.
                let (n, y) = (pairs (loop_ident loop) v).0 x in n (same_some _ (counter g) v f' y);
            models = m;
          },
        )
      ]

  new_top-IsWPoly : IsWPoly P (new P false)
  unfolding new find
  new_top-IsWPoly = record {
    adapter = record {
      ordered = tt;
      bounded = λ g d e. ground (arith, e);
      distinct = λ g h d e f. ground (arith, e);
      full = refl;
      room = rw P.universe_dimension (omega arith);
    };
    dimension = P.universe_dimension;
  }

  -- the state before anything is known
  pub top-IsDomain : IsDomain P (top P)
  unfolding top
  top-IsDomain = record { poly = new_top-IsWPoly; idmap = empty_mapping-IsMapping }

  pub top-Models : (ρ : Valuation) → Models P (PplDomain.poly (top P)) ρ
  unfolding top new find
  top-Models ρ = ((λ d. pos 0), P.universe_contains _, λ g d e. ground (arith, e))

  pub top_no_var : (i : Ident) → get_var P (top P) i ≡ none
  unfolding top get_var find1 empty_mapping
  top_no_var i = get-make_table 211 i
