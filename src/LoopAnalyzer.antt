-- ===== src/LoopAnalyzer.antt =====
-- poly_LoopAnalyzer.cpp with include/LoopAnalyzer.h: a projected polyhedron is written out as a bound
-- of a loop, linear in the parameters of the function. A std::string is the list of the pieces that
-- the code appends to it. `none` stands for a failed assertion, a read of an uninitialised buffer,
-- or the undefined behaviour of `atoi` at a number that is no `int`.
pub mod Reader
pub mod Sum
pub mod Written
pub mod Stored
use polymalys.Common.{
  ℕ, ◌+◌, ◌^◌, Bool, true, false, not, ◌&&◌, ◌||◌, Option, none, some, List, [], ◌∷◌, ◌++◌,
  if◌then◌else◌, ◌==◌, ltb, leb,
}
use polymalys.Common.Int.{ℤ, pos, negsuc, neg_ℤ, ◌+ℤ◌, eqb_ℤ}
use polymalys.Common.StdMap.{StdMap, put}
use polymalys.Linear.{WCons}
use polymalys.MyHTable.{HashKey, MyHTable, get}

-- " + ", " - ", a number by "%Zd" or std::to_string, " * ", "b:" and a number, "(", ")/"
pub data Piece : Type 0 where
  plus minus : Piece
  number : ℤ → Piece
  times : Piece
  param : ℤ → Piece
  open_paren divided_by : Piece

abbrev pub Text : Type 0
Text = List Piece

pub record LoopBound : Type 0 where
  pub linear : Bool
  pub static_bound : ℤ
  pub linear_bound : Text

-- the loop that drops constraints: `has_bound` and `has_pa` so far
unfoldable pub mentions_both : StdMap ℤ → Bool → Bool → Bool
mentions_both [] has_bound has_pa = false
mentions_both ((g, c) ∷ m) has_bound has_pa =
    let b = has_bound || g == 0 in
    let p = has_pa || not (g == 0) in
    let rest = mentions_both m b p in if b && p then true else rest

unfoldable pub kept_constraints : List WCons → List WCons
unfolding mentions_both
kept_constraints [] = []
kept_constraints (c ∷ cs) =
    if mentions_both c.expr.coefs false false then c ∷ kept_constraints cs else kept_constraints cs

unfoldable pub positive : ℤ → Bool
positive (pos n) = ltb 0 n
positive (negsuc n) = false

unfoldable pub is_unit : ℤ → Bool
is_unit c = eqb_ℤ c (pos 1) || eqb_ℤ c (negsuc 0)

-- `signStr`
unfoldable pub sign_str : Bool → ℤ → Text
unfolding positive
sign_str first c =
    if not first && positive c then plus ∷ [] else if eqb_ℤ c (negsuc 0) then minus ∷ [] else []

-- a term of the expression: sign, coefficient and variable
unfoldable pub term_text : Bool → ℤ → ℤ → Text
unfolding is_unit sign_str
term_text first c id =
    if is_unit c
    then sign_str first c ++ param id ∷ []
    else sign_str first c ++ number c ∷ times ∷ param id ∷ []

-- what the printing loop writes to: `bufSign`, `first` and `loopBound`
pub record Writer : Type 0 where
  pub buf_sign : Option ℤ
  pub first : Bool
  pub loop_bound : Text

module _ ⦃key : HashKey ℕ⦄ where
  -- `-(mapping[v.guid()] + 1)`
  unfoldable pub param_id : MyHTable ℕ ℤ → ℕ → Option ℤ
  param_id mapping g = elim (get mapping g) [ none ↦ none | some i ↦ some (neg_ℤ (i +ℤ pos 1)) ]

  unfoldable pub write_term : MyHTable ℕ ℤ → ℕ → ℤ → Writer → Option Writer
  unfolding param_id term_text
  write_term mapping g c w =
      if g == 0 then some (record w { buf_sign = some (neg_ℤ c) }) else elim (param_id mapping g) [
        | none ↦ none
        | some id ↦
            some (record w { first = false; loop_bound = w.loop_bound ++ term_text w.first c id })
      ]

  unfoldable pub write_terms : MyHTable ℕ ℤ → StdMap ℤ → Writer → Option Writer
  unfolding write_term
  write_terms mapping [] w = some w
  write_terms mapping ((g, c) ∷ m) w = elim (write_term mapping g c w) [
    | none ↦ none
    | some w' ↦ write_terms mapping m w'
  ]

-- the constant at the end
unfoldable pub constant_text : ℤ → Text
unfolding positive
constant_text k =
    if eqb_ℤ k (pos 0) then [] else if positive k then plus ∷ number k ∷ [] else number k ∷ []

-- `atoi` of a number
unfoldable pub atoi : ℤ → Option ℤ
atoi (pos n) = if ltb n (2 ^ 31) then some (pos n) else none
atoi (negsuc n) = if ltb n (2 ^ 31) then some (negsuc n) else none

-- the text for an induction: none of it for 0, and a division unless it is 1
unfoldable pub divided_text : ℤ → Text → Option Text
divided_text induction text =
    if eqb_ℤ induction (pos 0)
    then none
    else some (
        if eqb_ℤ induction (pos 1)
        then text
        else (open_paren ∷ text) ++ divided_by ∷ number induction ∷ [])

module _ ⦃key : HashKey ℕ⦄ where
  -- the text of the bound that one constraint gives; the inner `none` is the early return
  unfoldable pub constraint_text : MyHTable ℕ ℤ → WCons → Option (Option Text)
  unfolding write_terms constant_text atoi divided_text
  constraint_text mapping c =
      elim (write_terms mapping c.expr.coefs
        (record { buf_sign = none; first = true; loop_bound = [] })) [
          | none ↦ none
          | some w ↦ elim w.buf_sign [
            | none ↦ none
            | some sign ↦ elim (atoi sign) [
              | none ↦ none
              | some induction ↦
                  some (divided_text induction (w.loop_bound ++ constant_text c.expr.cst))
            ]
          ]
        ]

  -- the bounds of the loops afterwards, for exactly one kept constraint
  unfoldable pub bound_of_kept :
      ℕ → List WCons → MyHTable ℕ ℤ → StdMap LoopBound → Option (StdMap LoopBound)
  unfolding constraint_text
  bound_of_kept b [] mapping bounds = some bounds
  bound_of_kept b (c ∷ []) mapping bounds = elim (constraint_text mapping c) [
    | none ↦ none
    | some none ↦ some bounds
    | some (some text) ↦
        some (put b (record { linear = true; static_bound = pos 0; linear_bound = text }) bounds)
  ]
  bound_of_kept b (c ∷ d ∷ cs) mapping bounds = some bounds

  -- computeLinearBound
  unfoldable pub compute_linear_bound :
      ℕ → List WCons → MyHTable ℕ ℤ → StdMap LoopBound → Option (StdMap LoopBound)
  unfolding kept_constraints bound_of_kept
  compute_linear_bound b cs mapping bounds = bound_of_kept b (kept_constraints cs) mapping bounds

-- LoopBound::exportToFile: the three fields of a line
unfoldable pub export_bound : ℕ → LoopBound → ℕ × Bool × Text
export_bound lid lb =
    if lb.linear then (lid, true, lb.linear_bound) else (lid, false, number lb.static_bound ∷ [])

-- LoopBoundsExporter::exportToFile: the lines after the first, which names the columns
unfoldable pub export_bounds : StdMap LoopBound → List (ℕ × Bool × Text)
unfolding export_bound
export_bounds [] = []
export_bounds ((lid, lb) ∷ m) = export_bound lid lb ∷ export_bounds m
