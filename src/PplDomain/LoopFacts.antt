-- ===== src/PplDomain/LoopFacts.antt =====
-- What the loop operations of a PPLDomain say about the counter of the loop.
use polymalys.Common.{
  false, ◌<◌, none, ap, if◌then◌else◌, ◌==◌, ==_iff, ℕ, zero, suc, ◌+◌, true, some, ◌≡◌, refl, sym,
  ◌∙◌, ◌↔◌, [], ◌∷◌, ◌++◌, Option-cases, inl, inr, arith, subst,
}
use polymalys.Common.Int.{ℤ, pos, ◌+ℤ◌, int_laws}
use polymalys.Linear.{WCons, WVar, of_var, of_cst, cons_equal, ◌+ₗ◌}
use polymalys.Linear.Value.{Valuation, value-+ₗ, +ₗ-IsExpr}
use polymalys.Linear.Compare.{
  Sat, Sat-equal, of_cst-IsExpr, of_var-IsExpr, value-of_cst, value-of_var,
}
use polymalys.Ppl.{Ppl}
use polymalys.Common.StdMap.{find}
use polymalys.Linear.Fresh.{Uses, of_var-Uses, of_cst-Uses, +ₗ-Uses, -ₗ-Uses}
use polymalys.WPoly.{WPoly}
use polymalys.WPoly.Fresh.{TracksBelow, add_constraint-TracksBelow, Models-fresh}
use polymalys.WPoly.Adapter.{IsWPoly, Models}
use polymalys.WPoly.Constraints.{add_constraint-Models}
use polymalys.Ident.{IdVal, no_step}
use polymalys.Mapping.{find1, add}
use polymalys.Mapping.Inverse.{IsMapping, add-IsMapping}
use polymalys.PplDomain.{PplDomain, get_var, var_new, step_fits}
use polymalys.PplDomain.Loops.{
  loop_ident, do_new_constraint, on_loop_entry, on_loop_iter, after_rounds,
}

abbrev pub counter : ℕ → IdVal
counter g = record { g = g; s = no_step }

next_pos : (n : ℕ) → pos n +ℤ pos 1 ≡ pos (suc n)
next_pos n = omega int_laws

module _ (P : Ppl) where
  pub record IsDomain (d : PplDomain P) : Type 0 where
    pub poly : IsWPoly P d.poly
    pub idmap : IsMapping d.idmap

  -- what a new variable for the loop leaves: the old polyhedron, and a counter
  record Renewed (d : PplDomain P) (loop : ℤ) (g : ℕ) (r : PplDomain P) : Type 0 where
    valid : IsDomain r
    poly : r.poly ≡ d.poly
    found : get_var P r (loop_ident loop) ≡ some (counter g)

  abbrev renamed : PplDomain P → ℕ → ℤ → PplDomain P
  renamed d guid loop = record d { idmap = add d.idmap (loop_ident loop) (counter guid) }

  var_new-Renewed :
      (d : PplDomain P) (guid : ℕ) (loop : ℤ)
      → IsDomain d
      → (r : PplDomain P) × (var_new P d guid (loop_ident loop) no_step true
          ≡ some (guid, suc guid, r))
        × Renewed d loop guid r
  unfolding var_new step_fits get_var
  var_new-Renewed d guid loop h =
      let (valid, bound) = add-IsMapping d.idmap (loop_ident loop) (counter guid) h.idmap in
      let found = (bound (loop_ident loop) (counter guid)).1 (inl (refl, refl)) in
      elim (Option-cases (find1 d.idmap (loop_ident loop))) [
        | inl e ↦ (
          renamed d guid loop,
          rw (var_new, e) refl,
          record { valid = record { poly = h.poly; idmap = valid }; poly = refl; found = found },
        )
        | inr (old, e) ↦ (
          record (renamed d guid loop) { victims = d.victims ++ old.g ∷ [] },
          rw (var_new, e) refl,
          record { valid = record { poly = h.poly; idmap = valid }; poly = refl; found = found },
        )
      ]

  pub do_new_constraint-IsDomain :
      (c : WCons) (d : PplDomain P) → IsDomain d → IsDomain (do_new_constraint P c d)
  unfolding do_new_constraint
  do_new_constraint-IsDomain c d h = record {
    poly = (add_constraint-Models P c d.poly h.poly).0;
    idmap = h.idmap;
  }

  pub do_new_constraint-Models :
      (c : WCons) (d : PplDomain P) (ρ : Valuation)
      → IsDomain d
      → Models P (do_new_constraint P c d).poly ρ ↔ (Models P d.poly ρ × Sat ρ c)
  unfolding do_new_constraint
  do_new_constraint-Models c d ρ h = (add_constraint-Models P c d.poly h.poly).1 ρ

  -- a variable that is not tracked yet can be given a value
  assigned :
      (w : WPoly P) (g : ℕ) (ρ : Valuation) (x : ℤ)
      → TracksBelow P g w
      → Models P w ρ
      → (σ : Valuation) × Models P w σ × (σ g ≡ x) × ((h : ℕ) → h < g → σ h ≡ ρ h)
  assigned w g ρ x t m =
      let free : find g w.adapter ≡ none = elim (Option-cases (find g w.adapter)) [
        | inl e ↦ e
        | inr (c, e) ↦ absurd (omega (arith, t g c e))
      ] in
      let σ : Valuation = λ h. if g == h then x else ρ h in
      (
        σ,
        Models-fresh P w g ρ σ free (λ h e. rw e refl) m,
        rw ((==_iff g g).1 refl) refl,
        λ h l. let other : (g == h) ≡ false = ground (arith, l) in rw other refl,
      )

  -- a state in which the counter of the loop is `g`, and what is known of its valuations and variables,
  -- where `w` is the polyhedron before
  pub record Counted (w : WPoly P) (d : PplDomain P) (loop : ℤ) (g : ℕ) (Q : Valuation → Type 0)
      : Type 0 where
    pub valid : IsDomain d
    pub found : get_var P d (loop_ident loop) ≡ some (counter g)
    pub models : (ρ : Valuation) → Models P d.poly ρ ↔ Q ρ
    pub tracked : TracksBelow P g w → TracksBelow P (suc g) d.poly

  Counted_constrained :
      (d r : PplDomain P) (loop : ℤ) (g : ℕ) (c : WCons) (Q : Valuation → Type 0)
      → Renewed d loop g r
      → ((ρ : Valuation) → Sat ρ c ↔ Q ρ)
      → Uses (suc g) c.expr
      → Counted d.poly (do_new_constraint P c r) loop g (λ ρ. Models P d.poly ρ × Q ρ)
  unfolding do_new_constraint get_var
  Counted_constrained d r loop g c Q v q u = record {
    valid = do_new_constraint-IsDomain c r v.valid;
    found = v.found;
    models = λ ρ.
        let m = do_new_constraint-Models c r ρ v.valid in
        (
          λ x. let (y, z) = m.0 x in (subst (λ w. Models P w ρ) v.poly y, (q ρ).0 z),
          λ (y, z). m.1 (subst (λ w. Models P w ρ) (sym v.poly) y, (q ρ).1 z),
        );
    tracked = λ t. add_constraint-TracksBelow P (suc g) c r.poly u (λ h j e.
        let l : h < g = t h j (subst (λ w. find h w.adapter ≡ some j) v.poly e) in
        omega (arith, l));
  }

  Sat-zero :
      (v : WVar) (ρ : Valuation) → Sat ρ (cons_equal (of_var v) (of_cst (pos 0))) ↔ (ρ v ≡ pos 0)
  Sat-zero v ρ =
      rw (value-of_var ρ v, value-of_cst ρ (pos 0)) at
        (Sat-equal ρ (of_var v) (of_cst (pos 0)) (of_var-IsExpr v) (of_cst-IsExpr (pos 0)))

  Sat-next :
      (v old : WVar) (ρ : Valuation)
      → Sat ρ (cons_equal (of_var v) (of_var old +ₗ of_cst (pos 1))) ↔ (ρ v ≡ ρ old +ℤ pos 1)
  Sat-next v old ρ =
      rw
        (
          value-+ₗ ρ (of_var old) (of_cst (pos 1)) (of_var-IsExpr old) (of_cst-IsExpr (pos 1)),
          value-of_var ρ v,
          value-of_var ρ old,
          value-of_cst ρ (pos 1),
        )
        at
        (Sat-equal ρ (of_var v) (of_var old +ₗ of_cst (pos 1)) (of_var-IsExpr v)
          (+ₗ-IsExpr (of_var old) (of_cst (pos 1))))

  -- `onLoopEntry` succeeds; it binds the loop to a new counter, and describes the valuations that
  -- were described and give the counter 0.
  pub on_loop_entry-Counted :
      (d : PplDomain P) (guid : ℕ) (loop : ℤ)
      → IsDomain d
      → (r : PplDomain P) × (on_loop_entry P d guid loop ≡ some (suc guid, r))
        × Counted d.poly r loop guid (λ ρ. Models P d.poly ρ × (ρ guid ≡ pos 0))
  unfolding on_loop_entry cons_equal
  on_loop_entry-Counted d guid loop h =
      let (r, e, v) = var_new-Renewed d guid loop h in
      let c = cons_equal (of_var guid) (of_cst (pos 0)) in
      (
        do_new_constraint P c r,
        rw (on_loop_entry, e) refl,
        Counted_constrained d r loop guid c (λ ρ. ρ guid ≡ pos 0) v (Sat-zero guid)
            (-ₗ-Uses (suc guid) (of_var guid) (of_cst (pos 0))
              (of_var-Uses (suc guid) guid (omega arith)) (of_cst-Uses (suc guid) (pos 0))),
      )

  -- `onLoopIter` of a state that has a counter for the loop succeeds; it binds the loop to a new
  -- counter, and describes the valuations that were described and give the new counter one more
  -- than the old one.
  pub on_loop_iter-Counted :
      (d : PplDomain P) (guid : ℕ) (loop : ℤ) (old : IdVal)
      → IsDomain d
      → get_var P d (loop_ident loop) ≡ some old
      → old.g < guid
      → (r : PplDomain P) × (on_loop_iter P d guid loop ≡ some (suc guid, r))
        × Counted d.poly r loop guid (λ ρ. Models P d.poly ρ × (ρ guid ≡ ρ old.g +ℤ pos 1))
  unfolding on_loop_iter cons_equal
  on_loop_iter-Counted d guid loop old h f l =
      let (r, e, v) = var_new-Renewed d guid loop h in
      let c = cons_equal (of_var guid) (of_var old.g +ₗ of_cst (pos 1)) in
      (
        do_new_constraint P c r,
        rw (on_loop_iter, f, e) refl,
        Counted_constrained d r loop guid c (λ ρ. ρ guid ≡ ρ old.g +ℤ pos 1) v (Sat-next guid old.g)
            (-ₗ-Uses (suc guid) (of_var guid) (of_var old.g +ₗ of_cst (pos 1))
              (of_var-Uses (suc guid) guid (omega arith))
              (+ₗ-Uses (suc guid) (of_var old.g) (of_cst (pos 1))
                (of_var-Uses (suc guid) old.g (omega (arith, l)))
                (of_cst-Uses (suc guid) (pos 1)))),
      )

  -- After entering a loop and going round it n times, which always succeeds, the counter is n in
  -- every valuation that the state describes, and each of them was described before the loop. No
  -- valuation is lost: for each that the state described before the loop, there is one that agrees with
  -- it on all variables below the counter of guids, has n as the counter of the loop, and is described
  -- after it. The variables that the state tracks lie below the counter of guids.
  pub after_rounds-counter :
      (d : PplDomain P) (guid : ℕ) (loop : ℤ) (n : ℕ)
      → IsDomain d
      → TracksBelow P guid d.poly
      → (r : PplDomain P) × (after_rounds P d guid loop n ≡ some (suc (guid + n), r))
        × IsDomain r
        × (get_var P r (loop_ident loop) ≡ some (counter (guid + n)))
        × TracksBelow P (suc (guid + n)) r.poly
        × ((ρ : Valuation) → Models P r.poly ρ → Models P d.poly ρ × (ρ (guid + n) ≡ pos n))
        × ((ρ : Valuation)
            → Models P d.poly ρ
            → (σ : Valuation) × Models P r.poly σ
              × (σ (guid + n) ≡ pos n)
              × ((g : ℕ) → g < guid → σ g ≡ ρ g))
  unfolding after_rounds
  after_rounds-counter d guid loop zero h t =
      let (r, e, c) = on_loop_entry-Counted d guid loop h in
      let here : guid + 0 ≡ guid = omega arith in
      rw here (
        r,
        e,
        c.valid,
        c.found,
        c.tracked t,
        λ ρ. (c.models ρ).0,
        λ ρ m.
            let (σ, m', z, same) = assigned d.poly guid ρ (pos 0) t m in
            (σ, (c.models σ).1 (m', z), z, same),
      )
  after_rounds-counter d guid loop (suc n) h t =
      let (r, e, v, f, b, m, k) = after_rounds-counter d guid loop n h t in
      let (s, g, c) =
        on_loop_iter-Counted r (suc (guid + n)) loop (counter (guid + n)) v f (omega arith) in
      let here : guid + suc n ≡ suc (guid + n) = omega arith in
      rw here (
        s,
        rw (after_rounds, e) g,
        c.valid,
        c.found,
        c.tracked b,
        λ ρ x. let (y, z) = (c.models ρ).0 x in let (a, b) = m ρ y in (a, z ∙ rw b (next_pos n)),
        λ ρ x.
            let (σ, y, z, same) = k ρ x in
            let (τ, y', z', same') = assigned r.poly (suc (guid + n)) σ (pos (suc n)) b y in
            let old : τ (guid + n) ≡ pos n = same' (guid + n) (omega arith) ∙ z in
            (
              τ,
              (c.models τ).1 (y', z' ∙ sym (ap (λ q. q +ℤ pos 1) old ∙ next_pos n)),
              z',
              λ j l. same' j (omega (arith, l)) ∙ same j l,
            ),
      )
