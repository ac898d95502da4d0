-- ===== src/WPoly.antt =====
-- WPoly of include/PolyWrap.h: a PPL polyhedron whose dimensions are named by guids. `none` stands
-- for the exception TranslationFailed, or for `abort()` in map_with_dim.
pub mod Adapter
pub mod Constraints
pub mod Drop
pub mod Combine
pub mod Matching
pub mod Questions
pub mod Fresh
use polymalys.Common.{
  ℕ, zero, suc, ◌+◌, ◌-◌, Bool, true, false, not, Option, none, some, List, [], ◌∷◌, ◌≡◌,
  if◌then◌else◌, ◌==◌, ltb, length, ◌++◌,
}
use polymalys.Common.Int.{ℤ}
use polymalys.Common.StdMap.{StdMap, find, put, erase, has}
use polymalys.Linear.{WVar, WLinExpr, WCons, CType, cons_eq, cons_ge}
use polymalys.Ppl.{Ppl, PartialMap}

module _ (P : Ppl) where
  pub record WPoly : Type 0 where
    pub adapter : StdMap ℕ
    pub next : ℕ
    pub poly : P.Poly

  -- WPoly(bool empty)
  unfoldable pub new : Bool → WPoly
  new is_empty = record { adapter = []; next = 0; poly = if is_empty then P.empty else P.universe }

  -- translate(guid_t) const
  unfoldable pub translate_const : WPoly → ℕ → Option ℕ
  translate_const w g = find g w.adapter

  unfoldable pub is_tracked : WPoly → ℕ → Bool
  is_tracked w g = has g w.adapter

  -- translate(guid_t): a new variable gets the next dimension
  unfoldable pub translate : WPoly → ℕ → ℕ × WPoly
  translate w g = elim (find g w.adapter) [
    | some d ↦ (d, w)
    | none ↦ (w.next, record w { adapter = put g w.next w.adapter; next = w.next + 1 })
  ]

  -- the loop of WLinExpr::toPPL(WPoly &)
  unfoldable pub to_ppl_terms : StdMap ℤ → WPoly → P.Linear → P.Linear × WPoly
  unfolding translate
  to_ppl_terms [] w e = (e, w)
  to_ppl_terms ((g, c) ∷ m) w e =
      let (d, w') = translate w g in to_ppl_terms m w' (P.lin_add_term e c d)

  unfoldable pub to_ppl : WLinExpr → WPoly → P.Linear × WPoly
  unfolding to_ppl_terms
  to_ppl l w = let (e, w') = to_ppl_terms l.coefs w P.lin_zero in (P.lin_add_cst e l.cst, w')

  -- the loop of WLinExpr::toPPL(const WPoly &)
  unfoldable pub to_ppl_const_terms : StdMap ℤ → WPoly → P.Linear → Option P.Linear
  to_ppl_const_terms [] w e = some e
  to_ppl_const_terms ((g, c) ∷ m) w e = elim (find g w.adapter) [
    | none ↦ none
    | some d ↦ to_ppl_const_terms m w (P.lin_add_term e c d)
  ]

  unfoldable pub to_ppl_const : WLinExpr → WPoly → Option P.Linear
  unfolding to_ppl_const_terms
  to_ppl_const l w = elim (to_ppl_const_terms l.coefs w P.lin_zero) [
    | none ↦ none
    | some e ↦ some (P.lin_add_cst e l.cst)
  ]

  unfoldable pub constraint_of : CType → P.Linear → P.Constraint
  constraint_of cons_eq e = P.is_zero e
  constraint_of cons_ge e = P.is_nonneg e

  -- translate(const WCons &) const
  unfoldable pub translate_cons_const : WCons → WPoly → Option P.Constraint
  unfolding to_ppl_const constraint_of
  translate_cons_const c w = elim (to_ppl_const c.expr w) [
    | none ↦ none
    | some e ↦ some (constraint_of c.ctype e)
  ]

  -- room for the dimensions that `translate` gave out
  unfoldable pub embed_new : WPoly → WPoly
  embed_new w =
      if ltb (P.space_dimension w.poly) w.next
      then record w {
        poly = P.add_space_dimensions_and_embed w.poly (w.next - P.space_dimension w.poly);
      }
      else w

  -- translate(const WCons &)
  unfoldable pub translate_cons : WCons → WPoly → P.Constraint × WPoly
  unfolding to_ppl constraint_of embed_new
  translate_cons c w = let (e, w') = to_ppl c.expr w in (constraint_of c.ctype e, embed_new w')

  unfoldable pub add_constraint : WCons → WPoly → WPoly
  unfolding translate_cons
  add_constraint c w =
      let (pc, w') = translate_cons c w in record w' { poly = P.add_constraint w'.poly pc }

  -- `relation_with(c).implies(is_included())` and `implies(is_disjoint())`, on a const poly
  unfoldable pub must_hold : WCons → WPoly → Option Bool
  unfolding translate_cons_const
  must_hold c w = elim (translate_cons_const c w) [
    | none ↦ none
    | some pc ↦ some (P.is_included w.poly pc)
  ]

  unfoldable pub cannot_hold : WCons → WPoly → Option Bool
  unfolding translate_cons_const
  cannot_hold c w = elim (translate_cons_const c w) [
    | none ↦ none
    | some pc ↦ some (P.is_disjoint w.poly pc)
  ]

  -- `relation_with(c).implies(is_included())` on a poly that is not const: new variables are tracked
  unfoldable pub must_hold_mut : WCons → WPoly → Bool × WPoly
  unfolding translate_cons
  must_hold_mut c w = let (pc, w') = translate_cons c w in (P.is_included w'.poly pc, w')

  -- `false` is `none`: no bound, or a variable that is not tracked
  unfoldable pub maximize : WLinExpr → WPoly → Option (ℤ × ℤ)
  unfolding to_ppl_const
  maximize l w = elim (to_ppl_const l w) [ none ↦ none | some e ↦ P.maximize w.poly e ]

  unfoldable pub minimize : WLinExpr → WPoly → Option (ℤ × ℤ)
  unfolding to_ppl_const
  minimize l w = elim (to_ppl_const l w) [ none ↦ none | some e ↦ P.minimize w.poly e ]

  unfoldable pub is_empty : WPoly → Bool
  is_empty w = P.is_empty w.poly

  -- highest_guid()
  unfoldable pub highest_guid : StdMap ℕ → ℕ → ℕ
  highest_guid [] highest = highest
  highest_guid ((g, d) ∷ m) highest = highest_guid m (if ltb highest g then g else highest)

  -- the loop of Eliminator::maps: how many victims lie below, or `none` for a victim
  unfoldable pub victims_below : List ℕ → ℕ → ℕ → Option ℕ
  victims_below [] i k = some k
  victims_below (v ∷ vs) i k =
      if v == i then none else victims_below vs i (if ltb v i then k + 1 else k)

  -- Eliminator: `_dom` and `_codom` make the range one dimension smaller for each victim
  unfoldable pub eliminator : List ℕ → P.Poly → PartialMap
  unfolding victims_below
  eliminator victims p = record {
    maps = λ i. elim (victims_below victims i 0) [ none ↦ none | some k ↦ some (i - k) ];
    codomain_size = P.space_dimension p - length victims;
  }

  -- map_adapter_dim
  unfoldable pub map_adapter_dim : PartialMap → StdMap ℕ → StdMap ℕ
  map_adapter_dim f [] = []
  map_adapter_dim f ((g, d) ∷ m) = elim (f.maps d) [
    | none ↦ map_adapter_dim f m
    | some j ↦ (g, j) ∷ map_adapter_dim f m
  ]

  unfoldable pub map_with_dim : PartialMap → WPoly → Option WPoly
  unfolding map_adapter_dim
  map_with_dim f w =
      let p = P.map_space_dimensions w.poly f in
      if f.codomain_size == P.space_dimension p
      then some (record { adapter = map_adapter_dim f w.adapter; next = f.codomain_size; poly = p })
      else none

  -- unconstrain(const WVar &), with eliminate; `none` is also the assertion at its start
  unfoldable pub unconstrain : WVar → WPoly → Option WPoly
  unfolding map_with_dim eliminator
  unconstrain v w =
      if length w.adapter == P.space_dimension w.poly
      then elim (find v w.adapter) [
        | none ↦ some w
        | some d ↦ map_with_dim (eliminator (d ∷ []) w.poly) w
      ]
      else none

  -- the loop of map_vars: the new adapter and the dimensions to drop
  unfoldable pub map_vars_loop : (ℕ → Option ℕ) → StdMap ℕ → StdMap ℕ → List ℕ → StdMap ℕ × List ℕ
  map_vars_loop f [] new_adapter victims = (new_adapter, victims)
  map_vars_loop f ((g, d) ∷ m) new_adapter victims = elim (f g) [
    | some j ↦ map_vars_loop f m (put j d new_adapter) victims
    | none ↦ map_vars_loop f m new_adapter (victims ++ d ∷ [])
  ]

  unfoldable pub map_vars : (ℕ → Option ℕ) → WPoly → Option WPoly
  unfolding map_vars_loop map_with_dim eliminator
  map_vars f w =
      let (new_adapter, victims) = map_vars_loop f w.adapter [] [] in
      map_with_dim (eliminator victims w.poly) (record w { adapter = new_adapter })

  unfoldable pub filter_lambda : (ℕ → Bool) → WPoly → Option WPoly
  unfolding map_vars
  filter_lambda keep = map_vars (λ g. if keep g then some g else none)
