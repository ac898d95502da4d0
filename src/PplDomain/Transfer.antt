-- ===== src/PplDomain/Transfer.antt =====
-- _doBinaryOp of poly_PPLDomain.cpp: the constraint that a semantic instruction puts on its result.
use polymalys.Common.{ℕ, ◌-◌, ◌^◌, Option, none, some, if◌then◌else◌, ltb, ◌==◌}
use polymalys.Common.Int.{ℤ, pos, negsuc, eqb_ℤ}
use polymalys.Linear.{WVar, of_var, cons_equal, cons_at_least, ◌+ₗ◌, ◌-ₗ◌, ◌*ₗ◌}
use polymalys.Ppl.{Ppl}
use polymalys.PplDomain.{PplDomain, get_constant, get_ui}
use polymalys.PplDomain.Loops.{do_new_constraint}

-- the opcodes that the function handles, and any other
pub data Opcode : Type 0 where
  add : Opcode
  shl : Opcode
  cmp : Opcode
  cmpu : Opcode
  sub : Opcode
  shr : Opcode
  asr : Opcode
  mul : Opcode
  mulh : Opcode
  other : Opcode

-- `1 << n` on a 32-bit `int`; `none` is a shift that is undefined
unfoldable pub one_shl : ℕ → Option ℤ
one_shl n =
    if ltb n 31 then some (pos (2 ^ n)) else if n == 31 then some (negsuc (2 ^ 31 - 1)) else none

module _ (P : Ppl) where
  -- the factor of a shift by a constant: `some none` where the amount is not known
  unfoldable pub shift_factor : PplDomain P → WVar → Option (Option ℤ)
  unfolding get_constant one_shl get_ui
  shift_factor d v = elim (get_constant P d v) [
    | none ↦ some none
    | some (n, den) ↦
        if eqb_ℤ den (pos 1)
        then elim (one_shl (get_ui n)) [ none ↦ none | some f ↦ some (some f) ]
        else some none
  ]

  -- MUL and MULH
  unfoldable pub product : PplDomain P → WVar → WVar → WVar → PplDomain P
  unfolding get_constant do_new_constraint cons_equal of_var ◌*ₗ◌
  product d v v1 v2 = elim (get_constant P d v1) [
    | some (n, den) ↦ do_new_constraint P (cons_equal (of_var v *ₗ den) (of_var v2 *ₗ n)) d
    | none ↦ elim (get_constant P d v2) [
      | some (n, den) ↦ do_new_constraint P (cons_equal (of_var v *ₗ den) (of_var v1 *ₗ n)) d
      | none ↦ d
    ]
  ]

  unfoldable pub shift_left : PplDomain P → WVar → WVar → WVar → Option (PplDomain P)
  unfolding shift_factor do_new_constraint cons_equal cons_at_least of_var ◌*ₗ◌
  shift_left d v v1 v2 = elim (shift_factor d v2) [
    | none ↦ none
    | some none ↦ some (do_new_constraint P (cons_at_least (of_var v) (of_var v1)) d)
    | some (some f) ↦ some (do_new_constraint P (cons_equal (of_var v) (of_var v1 *ₗ f)) d)
  ]

  -- SHR and ASR
  unfoldable pub shift_right : PplDomain P → WVar → WVar → WVar → Option (PplDomain P)
  unfolding shift_factor do_new_constraint cons_equal cons_at_least of_var ◌*ₗ◌
  shift_right d v v1 v2 = elim (shift_factor d v2) [
    | none ↦ none
    | some none ↦ some (do_new_constraint P (cons_at_least (of_var v1) (of_var v)) d)
    | some (some f) ↦ some (do_new_constraint P (cons_equal (of_var v1) (of_var v *ₗ f)) d)
  ]

  unfoldable pub do_binary_op : Opcode → PplDomain P → WVar → WVar → WVar → Option (PplDomain P)
  unfolding shift_left shift_right product do_new_constraint cons_equal of_var ◌+ₗ◌ ◌-ₗ◌
  do_binary_op add d v v1 v2 =
      some (do_new_constraint P (cons_equal (of_var v) (of_var v1 +ₗ of_var v2)) d)
  do_binary_op shl d v v1 v2 = shift_left d v v1 v2
  do_binary_op cmp d v v1 v2 =
      some (do_new_constraint P (cons_equal (of_var v) (of_var v1 -ₗ of_var v2)) d)
  do_binary_op cmpu d v v1 v2 =
      some (do_new_constraint P (cons_equal (of_var v) (of_var v1 -ₗ of_var v2)) d)
  do_binary_op sub d v v1 v2 =
      some (do_new_constraint P (cons_equal (of_var v) (of_var v1 -ₗ of_var v2)) d)
  do_binary_op shr d v v1 v2 = shift_right d v v1 v2
  do_binary_op asr d v v1 v2 = shift_right d v v1 v2
  do_binary_op mul d v v1 v2 = some (product d v v1 v2)
  do_binary_op mulh d v v1 v2 = some (product d v v1 v2)
  do_binary_op other d v v1 v2 = some d
