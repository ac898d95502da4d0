-- ===== src/PplDomain.antt =====
-- PPLDomain of include/PPLDomain.h and poly_PPLDomain.cpp: the abstract state of the analysis, the
-- variables that stand for identifiers, and the questions asked of a state. Left out of the state are
-- `linbounds`, `_ws` and `_summary`, which these operations copy only. `none` stands for a failed
-- assertion or an exception; `guid` is the counter WVar::_guid_generator.
pub mod Loops
pub mod LoopFacts
pub mod LoopExit
pub mod Transfer
pub mod TransferFacts
pub mod Branch
pub mod BranchFacts
pub mod NotEqual
pub mod Memory
pub mod Replace
pub mod Leave
pub mod MemoryFacts
pub mod SemInst
pub mod SemFacts
pub mod SemWrites
pub mod SemResult
pub mod Delta
pub mod Load
pub mod Store
pub mod StoreNew
pub mod OnSemInst
pub mod SemRun
pub mod Useless
use polymalys.Common.{
  ℕ, zero, suc, ◌+◌, ◌-◌, ◌*◌, ◌/◌, ◌%◌, ◌^◌, Bool, true, false, not, ◌&&◌, Option, none, some,
  List, [], ◌∷◌, ◌++◌, if◌then◌else◌, ◌==◌, ltb, leb, length, get_or, set, replicate,
}
use polymalys.Common.Int.{ℤ, pos, negsuc, ◌+ℤ◌, ◌*ℤ◌, eqb_ℤ, leb_ℤ, nat_abs}
use polymalys.Linear.{
  WVar, of_var, of_cst, cons_equal, cons_at_least, cons_at_most, ◌+ₗ◌, ◌*ₗ◌, ◌-ₗ◌,
}
use polymalys.Ppl.{Ppl}
use polymalys.WPoly.{
  WPoly, new, maximize, minimize, must_hold, cannot_hold, unconstrain, is_tracked,
}
use polymalys.Ident.{
  Ident, IdentType, IdVal, id_reg, id_mem_addr, id_mem_val, id_mem_count, id_mem_val_plus,
  id_mem_val_minus, id_loop, id_invalid, ident, invalid, same_type, no_step, ident_key, idval_key,
}
use polymalys.MyHTable.{Chain, entries}
use polymalys.Mapping.{Mapping, empty_mapping, has1, find1, add, del2}

-- the values of sem::cond_t that `onBranch` tells apart
pub data Cond : Type 0 where
  no_cond : Cond
  eq : Cond
  lt : Cond
  le : Cond
  ge : Cond
  gt : Cond
  any_cond : Cond
  ne : Cond
  ult : Cond
  ule : Cond
  uge : Cond
  ugt : Cond

-- bound_t: UNREACHABLE is -1 and UNBOUNDED is -2
abbrev pub unreachable : ℤ
unreachable = negsuc 0

abbrev pub unbounded : ℤ
unbounded = negsuc 1

-- get_ui(): the lowest 64 bits of the absolute value
unfoldable pub get_ui : ℤ → ℕ
get_ui n = nat_abs n % 2 ^ 64

-- the conversion of an unsigned 64-bit number to `signed long`
unfoldable pub to_long : ℕ → ℤ
to_long n = if ltb n (2 ^ 63) then pos n else negsuc (2 ^ 64 - 1 - n)

module _ (P : Ppl) where
  pub record PplDomain : Type 0 where
    pub poly : WPoly P
    pub idmap : Mapping
    pub victims : List ℕ
    pub compare_reg : Ident
    pub compare_op : Cond
    pub mem_ref : ℕ
    pub num_axis : ℤ
    pub bounds : List ℤ

  -- PPLDomain()
  unfoldable pub bottom : PplDomain
  unfolding new empty_mapping
  bottom = record {
    poly = new P true;
    idmap = empty_mapping;
    victims = [];
    compare_reg = invalid;
    compare_op = eq;
    mem_ref = 0;
    num_axis = negsuc 0;
    bounds = [];
  }

  -- PPLDomain(maxAxis, ws, summary)
  unfoldable pub top : PplDomain
  unfolding new empty_mapping
  top = record {
    poly = new P false;
    idmap = empty_mapping;
    victims = [];
    compare_reg = invalid;
    compare_op = eq;
    mem_ref = 0;
    num_axis = pos 0;
    bounds = [];
  }

  unfoldable pub is_bottom : PplDomain → Bool
  is_bottom d = if eqb_ℤ d.num_axis (negsuc 0) then true else P.is_empty d.poly.poly

  unfoldable pub has_ident : PplDomain → Ident → Bool
  unfolding has1
  has_ident d i = has1 d.idmap i

  unfoldable pub has_filter : PplDomain → Bool
  unfolding same_type
  has_filter d = not (same_type d.compare_reg.type id_invalid)

  -- getVar: the variable and its step
  unfoldable pub get_var : PplDomain → Ident → Option IdVal
  unfolding find1
  get_var d i = find1 d.idmap i

  -- the two assertions at the start of varNew
  unfoldable pub step_fits : Ident → ℤ → Bool
  unfolding same_type
  step_fits i step =
      if same_type i.type id_mem_addr then not (eqb_ℤ step no_step) else eqb_ℤ step no_step

  -- varNew(ident, step, allow_replace, create_damaged): the variable, the counter and the state
  unfoldable pub var_new : PplDomain → ℕ → Ident → ℤ → Bool → Option (WVar × ℕ × PplDomain)
  unfolding step_fits find1 add
  var_new d guid i step allow_replace =
      let d' = record d { idmap = add d.idmap i (record { g = guid; s = step }) } in
      if step_fits i step
      then elim (find1 d.idmap i) [
        | none ↦ some (guid, suc guid, d')
        | some old ↦
            if allow_replace && eqb_ℤ step no_step
            then some (guid, suc guid, record d' { victims = d.victims ++ old.g ∷ [] })
            else none
      ]
      else none

  -- getVarOrNew
  unfoldable pub get_var_or_new : PplDomain → ℕ → Ident → Option (WVar × ℕ × PplDomain)
  unfolding same_type find1 var_new
  get_var_or_new d guid i =
      if same_type i.type id_reg
      then elim (find1 d.idmap i) [
        | none ↦ var_new d guid i no_step false
        | some v ↦ some (v.g, guid, d)
      ]
      else none

  -- varKill(idval_t)
  unfoldable pub var_kill : PplDomain → IdVal → Option PplDomain
  unfolding del2
  var_kill d v = elim (del2 d.idmap v) [
    | none ↦ none
    | some m ↦ some (record d { idmap = m; victims = d.victims ++ v.g ∷ [] })
  ]

  -- varKill(const Ident &)
  unfoldable pub var_kill_ident : PplDomain → Ident → Option PplDomain
  unfolding find1 var_kill
  var_kill_ident d i = elim (find1 d.idmap i) [ none ↦ none | some v ↦ var_kill d v ]

  unfoldable pub kill_all : PplDomain → List Ident → Option PplDomain
  unfolding var_kill_ident
  kill_all d [] = some d
  kill_all d (i ∷ is) = elim (var_kill_ident d i) [ none ↦ none | some d' ↦ kill_all d' is ]

  -- the first loop of doKillTemporaries
  unfoldable pub temporaries : Chain Ident IdVal → List Ident
  unfolding same_type
  temporaries [] = []
  temporaries ((i, v) ∷ c) =
      if eqb_ℤ v.s no_step && (same_type i.type id_reg && leb_ℤ i.id (negsuc 0))
      then i ∷ temporaries c
      else temporaries c

  unfoldable pub do_kill_temporaries : PplDomain → Option PplDomain
  unfolding entries temporaries kill_all
  do_kill_temporaries d = kill_all d (temporaries (entries d.idmap.id2guid))

  -- the loop of doFinalizeUpdate
  unfoldable pub drop_victims : List ℕ → WPoly P → Option (WPoly P)
  unfolding unconstrain
  drop_victims [] w = some w
  drop_victims (v ∷ vs) w = elim (unconstrain P v w) [ none ↦ none | some w' ↦ drop_victims vs w' ]

  -- doFinalizeUpdate, without its sanity checks
  unfoldable pub do_finalize_update : PplDomain → Option PplDomain
  unfolding is_bottom bottom drop_victims
  do_finalize_update d = if is_bottom d then some bottom else elim (drop_victims d.victims d.poly) [
    | none ↦ none
    | some w ↦ some (record d { poly = w; victims = [] })
  ]

  -- varCreatePtr
  unfoldable pub var_create_ptr : PplDomain → Ident × Ident × PplDomain
  var_create_ptr d = (
    ident (pos d.mem_ref) id_mem_addr,
    ident (pos d.mem_ref) id_mem_val,
    record d { mem_ref = suc d.mem_ref },
  )

  -- varCreateClp
  unfoldable pub var_create_clp : PplDomain → Ident × Ident × Ident × PplDomain
  var_create_clp d = (
    ident (pos d.mem_ref) id_mem_addr,
    ident (pos d.mem_ref) id_mem_val,
    ident (pos d.mem_ref) id_mem_count,
    record d { mem_ref = suc d.mem_ref },
  )

  -- mustAlias
  unfoldable pub must_alias : PplDomain → WVar → WVar → ℤ → Bool
  unfolding must_hold cons_equal of_var of_cst is_tracked
  must_alias d v1 v2 offset =
      if is_tracked P d.poly v1 && is_tracked P d.poly v2
      then elim (must_hold P (cons_equal (of_var v1) (of_var v2 +ₗ of_cst offset)) d.poly) [
        | none ↦ false
        | some b ↦ b
      ]
      else false

  -- mayAlias; `none` is the exception of a variable that is not tracked
  unfoldable pub may_alias : PplDomain → WVar → WVar → Option Bool
  unfolding cannot_hold cons_equal of_var
  may_alias d v1 v2 = elim (cannot_hold P (cons_equal (of_var v1) (of_var v2)) d.poly) [
    | none ↦ none
    | some b ↦ some (not b)
  ]

  -- the upper end that getRange writes; `none` leaves the coefficients as they were, zero
  unfoldable pub upper : PplDomain → WVar → Option (ℤ × ℤ)
  unfolding maximize of_var
  upper d v = maximize P (of_var v) d.poly

  unfoldable pub lower : PplDomain → WVar → Option (ℤ × ℤ)
  unfolding minimize of_var
  lower d v = minimize P (of_var v) d.poly

  -- getConstant: the value is numerator over denominator
  unfoldable pub get_constant : PplDomain → WVar → Option (ℤ × ℤ)
  unfolding upper lower
  get_constant d v = elim (upper d v) [
    | none ↦ none
    | some sup ↦ elim (lower d v) [
      | none ↦ none
      | some inf ↦
          if eqb_ℤ sup.1 inf.1 && (eqb_ℤ sup.0 inf.0 && not (eqb_ℤ sup.1 (pos 0)))
          then some (sup.0, sup.1)
          else none
    ]
  ]

  -- getLoopBound
  unfoldable pub get_loop_bound : PplDomain → ℤ → Option ℤ
  unfolding is_bottom find1 upper get_ui to_long
  get_loop_bound d loop =
      if is_bottom d then some unreachable else elim (find1 d.idmap (ident loop id_loop)) [
        | none ↦ none
        | some v ↦ elim (upper d v.g) [
          | none ↦ some unbounded
          | some r ↦
              if get_ui r.1 == 0 then some unbounded else some (to_long (get_ui r.0 / get_ui r.1))
        ]
      ]

  -- getBound
  unfoldable pub get_bound : PplDomain → ℕ → ℤ
  get_bound d loop = if leb (length d.bounds) loop then pos 0 else get_or d.bounds loop (pos 0)

  -- the last test of setBound
  unfoldable pub better_bound : ℤ → ℤ → Bool
  better_bound old b =
      if eqb_ℤ old unbounded then false else if leb_ℤ b old then eqb_ℤ b unbounded else true

  unfoldable pub grow : List ℤ → ℕ → ℤ → List ℤ
  grow bs n gap = bs ++ replicate (n - length bs) gap

  -- setBound; `gap` is what setLength leaves in the new places
  unfoldable pub set_bound : ℤ → PplDomain → ℕ → ℤ → PplDomain
  unfolding grow better_bound
  set_bound gap d loop b =
      if eqb_ℤ b (pos 0)
      then d
      else if leb (length d.bounds) loop
      then record d { bounds = set (grow d.bounds (suc loop) gap) loop b }
      else if better_bound (get_or d.bounds loop (pos 0)) b
      then record d { bounds = set d.bounds loop b }
      else d
