-- ===== src/PplDomain/SemInst.antt =====
-- onSemInst of poly_PPLDomain.cpp: what a semantic instruction of OTAWA on registers does to the
-- state. A register is its number, negative for a temporary.
use polymalys.Common.{ℕ, ◌-◌, ◌^◌, true, Option, none, some, if◌then◌else◌, ltb, ◌==◌}
use polymalys.Common.Int.{ℤ, pos, negsuc}
use polymalys.Linear.{WLinExpr, of_var, of_cst, cons_equal}
use polymalys.Ppl.{Ppl}
use polymalys.Ident.{Ident, ident, id_reg, no_step}
use polymalys.PplDomain.{PplDomain, Cond, has_ident, get_var, var_new}
use polymalys.PplDomain.Loops.{do_new_constraint}
use polymalys.PplDomain.Transfer.{Opcode, do_binary_op}
use polymalys.PplDomain.Replace.{do_scratch}

abbrev pub register : ℤ → Ident
register r = ident r id_reg

-- the conversion of a 32-bit pattern to int32_t
unfoldable pub to_int32 : ℕ → ℤ
to_int32 c = if ltb c (2 ^ 31) then pos c else negsuc (2 ^ 32 - 1 - c)

module _ (P : Ppl) where
  -- the counter of guids and the state
  abbrev pub Counted : Type 0
  Counted = ℕ × PplDomain P

  -- `d <- value`: a new variable for the register, with the value of an expression over the state
  -- before
  unfoldable pub set_value : Counted → ℤ → WLinExpr → Option Counted
  unfolding var_new do_new_constraint cons_equal of_var
  set_value (guid, s) d value = elim (var_new P s guid (register d) no_step true) [
    | none ↦ none
    | some (v, guid', r) ↦ some (guid', do_new_constraint P (cons_equal (of_var v) value) r)
  ]

  -- SETI
  unfoldable pub set_constant : Counted → ℤ → ℕ → Option Counted
  unfolding set_value to_int32 of_cst
  set_constant st d c = set_value st d (of_cst (to_int32 c))

  -- SET: an undefined source leaves the state as it is
  unfoldable pub set_register : Counted → ℤ → ℤ → Option Counted
  unfolding get_var set_value of_var
  set_register st d a = elim (get_var P st.1 (register a)) [
    | none ↦ some st
    | some v ↦ set_value st d (of_var v.g)
  ]

  -- the binary operations
  unfoldable pub set_result : Opcode → Counted → ℤ → ℤ → ℤ → Option Counted
  unfolding get_var var_new do_binary_op
  set_result op (guid, s) d a b = elim (get_var P s (register a)) [
    | none ↦ some (guid, s)
    | some v1 ↦ elim (get_var P s (register b)) [
      | none ↦ some (guid, s)
      | some v2 ↦ elim (var_new P s guid (register d) no_step true) [
        | none ↦ none
        | some (v, guid', r) ↦ elim (do_binary_op P op r v v1.g v2.g) [
          | none ↦ none
          | some r' ↦ some (guid', r')
        ]
      ]
    ]
  ]

  -- SCRATCH
  unfoldable pub scratch : Counted → ℤ → Option Counted
  unfolding do_scratch
  scratch (guid, s) d = elim (do_scratch P s (register d)) [ none ↦ none | some r ↦ some (guid, r) ]

  -- IF: the branch that follows is filtered by the register
  unfoldable pub set_filter : Counted → ℤ → Cond → ℕ → Option Counted
  unfolding has_ident
  set_filter (guid, s) r c jump =
      if has_ident P s (register r)
      then if jump == 1
        then some (guid, record s { compare_reg = register r; compare_op = c })
        else none
      else some (guid, s)
