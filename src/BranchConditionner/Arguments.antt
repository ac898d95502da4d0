-- ===== src/BranchConditionner/Arguments.antt =====
-- ArmArgumentsDetector of poly_BranchConditionner.cpp: the argument registers r0 to r3 of a task, and
-- USED_ARGS, the map from them to the variables of their values at the start.
use polymalys.Common.{
  ℕ, Bool, false, Option, none, some, List, [], ◌∷◌, ◌≡◌, ◌≢◌, if◌then◌else◌, ◌==◌, arith,
}
use polymalys.Common.Int.{ℤ, pos, negsuc}
use polymalys.Common.StdMap.{StdMap, find, put, has, IsMap, find_above}
use polymalys.Linear.{WVar, of_var, cons_equal}
use polymalys.Ppl.{Ppl}
use polymalys.Ident.{ident, id_reg, id_special, no_step}
use polymalys.PplDomain.{PplDomain, var_new}
use polymalys.PplDomain.Loops.{do_new_constraint}

-- emplace keeps an entry that is there
unfoldable pub emplace_arg : ℕ → WVar → StdMap WVar → StdMap WVar
emplace_arg reg v used = if has reg used then used else put reg v used

-- getParamId: -1 where no entry has the variable
unfoldable pub get_param_id : StdMap WVar → WVar → ℤ
get_param_id [] v = negsuc 0
get_param_id ((reg, w) ∷ m) v = let rest = get_param_id m v in if v == w then pos reg else rest

module _ (P : Ppl) where
  -- what initFunctionParameters works on: the arguments, the counter of guids and the state
  abbrev pub Arguments : Type 0
  Arguments = StdMap WVar × ℕ × PplDomain P

  -- one round of its loop
  unfoldable pub track_register : ℕ → Arguments → Option Arguments
  unfolding var_new do_new_constraint cons_equal of_var emplace_arg
  track_register reg (used, guid, s) =
      elim (var_new P s guid (ident (pos reg) id_reg) no_step false) [
        | none ↦ none
        | some (r, guid', s') ↦
            elim (var_new P s' guid' (ident (negsuc reg) id_special) no_step false) [
              | none ↦ none
              | some (sr, guid'', s'') ↦ some (
                emplace_arg reg sr used,
                guid'',
                do_new_constraint P (cons_equal (of_var sr) (of_var r)) s'',
              )
            ]
      ]

  unfoldable pub track_registers : List ℕ → Arguments → Option Arguments
  unfolding track_register
  track_registers [] a = some a
  track_registers (reg ∷ regs) a = elim (track_register reg a) [
    | none ↦ none
    | some a' ↦ track_registers regs a'
  ]

  -- initFunctionParameters; the first argument tells whether the CFG is its own ROOT_CFG
  unfoldable pub init_function_parameters : Bool → Arguments → Option Arguments
  unfolding track_registers
  init_function_parameters is_root a =
      if is_root then track_registers (0 ∷ 1 ∷ 2 ∷ 3 ∷ []) a else some a

-- getParamId answers with a register that the variable is the argument of, and with -1 only where
-- there is none.
pub get_param_id-find :
    (m : StdMap WVar) (v reg : ℕ)
    → IsMap m
    → (get_param_id m v ≡ pos reg → find reg m ≡ some v)
      × (get_param_id m v ≡ negsuc 0 → find reg m ≢ some v)
unfolding get_param_id find
get_param_id-find [] v reg h = (λ e. ground (arith, e), λ e k. ground (arith, k))
get_param_id-find ((j, w) ∷ m) v reg h =
    let (there, missing) = get_param_id-find m v reg h.1 in
    (λ e. ground (arith, e, there, find_above j m h.0), λ e k. ground (arith, e, k, missing))
