-- ===== src/PplDomain/MemoryFacts.antt =====
-- What the creation of a memory variable does to a PPLDomain.
use polymalys.Common.{
  ℕ, suc, true, none, some, ◌≡◌, ◌≢◌, ◌↔◌, refl, inl, inr, Option-cases, arith, ap, sym,
}
use polymalys.Common.Int.{ℤ, pos}
use polymalys.Linear.{WLinExpr, of_var, cons_equal}
use polymalys.Linear.Value.{Valuation, value, IsExpr}
use polymalys.Linear.Compare.{Sat-equal, of_var-IsExpr, value-of_var}
use polymalys.Ppl.{Ppl}
use polymalys.WPoly.Adapter.{Models}
use polymalys.Ident.{Ident, IdVal, ident, id_mem_addr, id_mem_val, no_step, same_type, type_number}
use polymalys.Mapping.{add}
use polymalys.Mapping.Inverse.{Added, add-IsMapping, clash}
use polymalys.PplDomain.{PplDomain, get_var, var_new, step_fits, var_create_ptr}
use polymalys.PplDomain.Loops.{do_new_constraint}
use polymalys.PplDomain.LoopFacts.{IsDomain, do_new_constraint-IsDomain, do_new_constraint-Models}
use polymalys.PplDomain.Memory.{new_equal, mem_single_create}

module _ (P : Ppl) where
  abbrev tagged : ℕ → ℤ → IdVal
  tagged g s = record { g = g; s = s }

  -- a new variable for `i` that is worth `e`
  record Made (d : PplDomain P) (g : ℕ) (i : Ident) (s : ℤ) (e : WLinExpr) (r : PplDomain P)
      : Type 0 where
    valid : IsDomain P r
    bound : (j : Ident) (w : IdVal) → (get_var P r j ≡ some w) ↔ Added d.idmap i (tagged g s) j w
    models : (ρ : Valuation) → Models P r.poly ρ ↔ (Models P d.poly ρ × (ρ g ≡ value ρ e))

  new_equal-Made :
      (d : PplDomain P) (guid : ℕ) (i : Ident) (s : ℤ) (e : WLinExpr)
      → IsDomain P d
      → IsExpr e
      → step_fits P i s ≡ true
      → get_var P d i ≡ none
      → (r : PplDomain P) × (new_equal P d guid i s e ≡ some (guid, suc guid, r))
        × Made d guid i s e r
  unfolding new_equal var_new get_var do_new_constraint
  new_equal-Made d guid i s e h x fits unbound =
      let (valid, bound) = add-IsMapping d.idmap i (tagged guid s) h.idmap in
      let c = cons_equal (of_var guid) e in
      let d' : PplDomain P = record d { idmap = add d.idmap i (tagged guid s) } in
      let v : IsDomain P d' = record { poly = h.poly; idmap = valid } in
      (
        do_new_constraint P c d',
        rw (new_equal, var_new, fits, unbound) refl,
        record {
          valid = do_new_constraint-IsDomain P c d' v;
          bound = bound;
          models = λ ρ.
              let m = do_new_constraint-Models P c d' ρ v in
              let q =
                rw (value-of_var ρ guid) at (Sat-equal ρ (of_var guid) e (of_var-IsExpr guid) x) in
              (λ y. let (a, b) = m.0 y in (a, q.0 b), λ (a, b). m.1 (a, q.1 b));
        },
      )

  abbrev address_of : PplDomain P → Ident
  address_of d = ident (pos d.mem_ref) id_mem_addr

  abbrev value_of : PplDomain P → Ident
  value_of d = ident (pos d.mem_ref) id_mem_val

  other_kind : (d : PplDomain P) → address_of d ≢ value_of d
  other_kind d e = ground (arith, ap (λ i. type_number i.type) e)

  -- `memSingleCreate` of a state in which the identifiers of the next memory reference are free
  -- succeeds. It binds them to two new variables, and describes the valuations that were described
  -- and in which these are worth the address and the value.
  pub mem_single_create-Models :
      (d : PplDomain P) (guid : ℕ) (address value_source : WLinExpr)
      → IsDomain P d
      → IsExpr address
      → IsExpr value_source
      → get_var P d (address_of d) ≡ none
      → get_var P d (value_of d) ≡ none
      → (r : PplDomain P) × (mem_single_create P d guid address value_source
          ≡ some (guid, suc (suc guid), r))
        × IsDomain P r
        × (get_var P r (address_of d) ≡ some (tagged guid (pos 0)))
        × (get_var P r (value_of d) ≡ some (tagged (suc guid) no_step))
        × ((ρ : Valuation)
            → Models P r.poly ρ ↔ (
                Models P d.poly ρ
                × (ρ guid ≡ value ρ address)
                × (ρ (suc guid) ≡ value ρ value_source)))
  unfolding mem_single_create step_fits same_type get_var var_create_ptr
  mem_single_create-Models d guid address value_source h x y free_a free_v =
      let d1 : PplDomain P = record d { mem_ref = suc d.mem_ref } in
      let v1 : IsDomain P d1 = record { poly = h.poly; idmap = h.idmap } in
      let (d2, e, m) = new_equal-Made d1 guid (address_of d) (pos 0) address v1 x refl free_a in
      let still_free : get_var P d2 (value_of d) ≡ none =
        elim (Option-cases (get_var P d2 (value_of d))) [
          | inl f ↦ f
          | inr (w, f) ↦ absurd (elim ((m.bound (value_of d) w).0 f) [
            | inl (a, _) ↦ other_kind d a
            | inr (_, (_, g)) ↦ clash _ w free_v g
          ])
        ] in
      let (r, f, n) =
        new_equal-Made d2 (suc guid) (value_of d) no_step value_source m.valid y refl still_free in
      (
        r,
        rw (mem_single_create, e, f) refl,
        n.valid,
        (n.bound (address_of d) (tagged guid (pos 0))).1 (
            inr (
              λ q. other_kind d (sym q),
              (
                λ q. ground (arith, ap (λ w. w.g) q),
                (m.bound (address_of d) (tagged guid (pos 0))).1 (inl (refl, refl)),
              ),
            )),
        (n.bound (value_of d) (tagged (suc guid) no_step)).1 (inl (refl, refl)),
        λ ρ. (
          λ z. let (a, b) = (n.models ρ).0 z in let (k, l) = (m.models ρ).0 a in (k, l, b),
          λ (k, l, b). (n.models ρ).1 ((m.models ρ).1 (k, l), b),
        ),
      )
