-- ===== src/BranchConditionner.antt =====
-- poly_BranchConditionner.cpp with include/BranchConditionner.h, and the part of
-- PPLDomain::onBranch in poly_PPLDomain.cpp that records the condition of a branch: the constraints
-- of a projected polyhedron become a text, and the texts are written to a file, those outside loops
-- in the order of the analysis, those of a loop once, for its last visit.
-- A std::string is the list of the pieces that the code appends to it. A map with `int` keys is
-- keyed by `loop_key`: only lookups in it are made, so the order of its keys shows nowhere.
pub mod Reader
pub mod Written
pub mod Arguments
pub mod Exported
use polymalys.Common.{
  ℕ, zero, suc, ◌+◌, ◌*◌, ◌/◌, ◌^◌, ltb, Bool, true, false, Option, none, some, List, [], ◌∷◌, ◌++◌,
  if◌then◌else◌, ◌==◌, length,
}
use polymalys.Common.Int.{ℤ, pos, negsuc, eqb_ℤ}
use polymalys.Common.StdMap.{StdMap, find, put, has}
use polymalys.Linear.{WVar, CType, cons_eq, cons_ge, WCons}

-- "0 =" and "0 ≤", " ", " + ", " - ", a number, " * ", "b:" and a number, " & "
pub data Piece : Type 0 where
  zero_is : CType → Piece
  space plus minus : Piece
  number : ℕ → Piece
  times : Piece
  var : ℕ → Piece
  and_also : Piece

abbrev pub Text : Type 0
Text = List Piece

-- `vs.emplace(v, coef)` for a variable that the constraint has; emplace keeps an entry that is there
unfoldable pub emplace_coef : Option ℤ → WVar → StdMap ℤ → StdMap ℤ
emplace_coef none v vs = vs
emplace_coef (some k) v vs = if has v vs then vs else put v k vs

-- the loop over the variables of the polyhedron: `vs`
unfoldable pub collect_coefs : List WVar → WCons → StdMap ℤ → StdMap ℤ
unfolding emplace_coef
collect_coefs [] c vs = vs
collect_coefs (v ∷ rest) c vs = collect_coefs rest c (emplace_coef (find v c.expr.coefs) v vs)

-- `parse` of poly_PolyWrap.cpp for a number that is not negative: `sizeof(buf)` is the size of a
-- pointer, 8, so at most 7 digits are written. The first argument is fuel.
unfoldable pub first_digits : ℕ → ℕ → ℕ
first_digits zero n = n
first_digits (suc f) n = let rest = first_digits f (n / 10) in if ltb n (10 ^ 7) then n else rest

unfoldable pub parse : ℕ → ℕ
unfolding first_digits
parse n = first_digits n n

-- the sign of a term and, unless it is 1 or -1, its coefficient
unfoldable pub coef_text : Bool → ℤ → Text
unfolding parse
coef_text first (pos n) =
    if n == 0
    then minus ∷ number (parse 0) ∷ times ∷ []
    else (if first then space else plus) ∷ (if n == 1 then [] else number (parse n) ∷ times ∷ [])
coef_text first (negsuc n) = minus ∷ (if n == 0 then [] else number (parse (suc n)) ∷ times ∷ [])

unfoldable pub terms_text : Bool → StdMap ℤ → Text
unfolding coef_text
terms_text first [] = []
terms_text first ((g, k) ∷ m) = coef_text first k ++ var g ∷ terms_text false m

unfoldable pub constant_text : ℤ → Text
unfolding parse
constant_text (pos n) = if n == 0 then [] else plus ∷ number (parse n) ∷ []
constant_text (negsuc n) = minus ∷ number (parse (suc n)) ∷ []

unfoldable pub constraint_text : List WVar → WCons → Text
unfolding collect_coefs terms_text constant_text
constraint_text vars c =
    zero_is c.ctype ∷ terms_text true (collect_coefs vars c []) ++ constant_text c.expr.cst

-- the loop over the constraints: `constraints` so far
unfoldable pub constraints_text : List WVar → List WCons → Text → Text
unfolding constraint_text
constraints_text vars [] constraints = constraints
constraints_text vars (c ∷ cs) constraints = constraints_text vars cs (
    constraints ++ elim constraints [
      | [] ↦ constraint_text vars c
      | p ∷ ps ↦ and_also ∷ constraint_text vars c
    ])

pub record Conditional : Type 0 where
  pub block : ℕ
  pub taken : Bool
  pub conditions : Text

-- OrderedConditional: `loopId` is -1 for a conditional outside loops
pub data OrderedConditional : Type 0 where
  outside : Conditional → OrderedConditional
  of_loop : ℤ → OrderedConditional

-- OrderedElements::order
abbrev pub OrderedElements : Type 0
OrderedElements = StdMap OrderedConditional

-- `order.emplace(order.size(), conditional)`
unfoldable pub add_element : OrderedConditional → OrderedElements → OrderedElements
add_element c order = if has (length order) order then order else put (length order) c order

-- std::map<bool, Conditional>
pub record Branching : Type 0 where
  pub not_taken : Option Conditional
  pub is_taken : Option Conditional

abbrev pub no_branching : Branching
no_branching = record { not_taken = none; is_taken = none }

-- `erase(taken)` and `emplace(taken, c)`
unfoldable pub replace_branch : Bool → Conditional → Branching → Branching
replace_branch true c b = record b { is_taken = some c }
replace_branch false c b = record b { not_taken = some c }

unfoldable pub loop_key : ℤ → ℕ
loop_key (pos n) = 2 * n
loop_key (negsuc n) = 2 * n + 1

-- the identifiers on the root CFG: EXPORT_ORDER and LOOP_CONDITIONALS
pub record Conditionals : Type 0 where
  pub order : OrderedElements
  pub of_loops : StdMap Branching

abbrev pub no_conditionals : Conditionals
no_conditionals = record { order = []; of_loops = [] }

-- onBranch: what is recorded for a branch, where CURRENT_LOOP is `current_loop`
unfoldable pub record_conditional : ℤ → Conditional → Conditionals → Conditionals
unfolding add_element replace_branch loop_key
record_conditional current_loop c s =
    if eqb_ℤ current_loop (negsuc 0)
    then record s { order = add_element (outside c) s.order }
    else elim (find (loop_key current_loop) s.of_loops) [
      | some b ↦ record s {
        of_loops = put (loop_key current_loop) (replace_branch c.taken c b) s.of_loops;
      }
      | none ↦ record {
        order = add_element (of_loop current_loop) s.order;
        of_loops = put (loop_key current_loop) (replace_branch c.taken c no_branching) s.of_loops;
      }
    ]

-- the lines of a loop, in the order of the keys of its map
abbrev pub option_lines : Option Conditional → List Conditional
option_lines none = []
option_lines (some c) = c ∷ []

unfoldable pub branching_lines : Branching → List Conditional
branching_lines b = option_lines b.not_taken ++ option_lines b.is_taken

unfoldable pub element_lines : OrderedConditional → StdMap Branching → Option (List Conditional)
unfolding branching_lines loop_key
element_lines (outside c) of_loops = some (c ∷ [])
element_lines (of_loop l) of_loops = elim (find (loop_key l) of_loops) [
  | none ↦ none
  | some b ↦ some (branching_lines b)
]

-- the loop of exportOrderedConstraints, from index `i` with `n` rounds left; `none` is the exception
-- of std::map::at
unfoldable pub export_from : ℕ → ℕ → Conditionals → Option (List Conditional)
unfolding element_lines
export_from i zero s = some []
export_from i (suc n) s = elim (find i s.order) [
  | none ↦ none
  | some e ↦ elim (element_lines e s.of_loops) [
    | none ↦ none
    | some lines ↦ elim (export_from (suc i) n s) [ none ↦ none | some rest ↦ some (lines ++ rest) ]
  ]
]

unfoldable pub export_ordered_constraints : Conditionals → Option (List Conditional)
unfolding export_from
export_ordered_constraints s = export_from 0 (length s.order) s
