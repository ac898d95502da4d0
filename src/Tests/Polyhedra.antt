-- ===== src/Tests/Polyhedra.antt =====
-- Two small polyhedra over named variables: a variable forgotten, their intersection and hull.
use polymalys.Common.{ℕ, ◌==◌, Bool, some, [], ◌∷◌, ◌≡◌, refl, arith}
use polymalys.Common.StdMap.{find}
use polymalys.Ppl.Syntactic.{syntactic}
use polymalys.Ppl.{Ppl}
use polymalys.WPoly.{WPoly, unconstrain, filter_lambda}
use polymalys.WPoly.Adapter.{IsWPoly, Models}
use polymalys.Linear.Value.{Valuation}
use polymalys.PplDomain.{PplDomain, ne, top}
use polymalys.PplDomain.LoopExit.{top-IsDomain}
use polymalys.PplDomain.LoopFacts.{IsDomain}
use polymalys.PplDomain.Branch.{filter}
use polymalys.PplDomain.BranchFacts.{Holds}
use polymalys.PplDomain.NotEqual.{filter_ne-Models}
use polymalys.WPoly.Combine.{intersection_assign, poly_hull_assign}
use polymalys.WPoly.Drop.Unconstrain.{IsForgotten, unconstrain-IsForgotten}
use polymalys.WPoly.Drop.Filter.{IsRestricted, filter_lambda-IsRestricted}
use polymalys.WPoly.Matching.Intersection.{IsMeet, intersection_assign-IsMeet}
use polymalys.WPoly.Matching.Hull.{IsJoin, poly_hull_assign-IsJoin}

-- one tracked variable, 5, in dimension 0
abbrev one_var : WPoly syntactic
one_var = record {
  adapter = (5, 0) ∷ [];
  next = 1;
  poly = Ppl.add_space_dimensions_and_embed syntactic (Ppl.universe syntactic) 1;
}

one_dimension : Ppl.space_dimension syntactic (WPoly.poly one_var) ≡ 1
one_dimension =
    rw (Ppl.embed_dimension syntactic (Ppl.universe syntactic) 1, Ppl.universe_dimension syntactic)
      (omega arith)

one_var-IsWPoly : IsWPoly syntactic one_var
unfolding find
one_var-IsWPoly = record {
  adapter = record {
    ordered = (tt, tt);
    bounded = λ g d e. ground (arith, e);
    distinct = λ g h d e f. ground (arith, e, f);
    full = refl;
    room = omega (arith, one_dimension);
  };
  dimension = one_dimension;
}

unconstrain-IsForgotten_example :
    (w : WPoly syntactic) × (unconstrain syntactic 5 one_var ≡ some w)
    × IsForgotten syntactic 5 one_var w
unconstrain-IsForgotten_example = unconstrain-IsForgotten syntactic 5 one_var one_var-IsWPoly

abbrev is_five : ℕ → Bool
is_five g = g == 5

filter_lambda-IsRestricted_example :
    (w : WPoly syntactic) × (filter_lambda syntactic is_five one_var ≡ some w)
    × IsRestricted is_five syntactic one_var w
filter_lambda-IsRestricted_example =
    filter_lambda-IsRestricted is_five syntactic one_var one_var-IsWPoly (omega arith)

-- two tracked variables, 3 in dimension 0 and 5 in dimension 1
abbrev two_vars : WPoly syntactic
two_vars = record {
  adapter = (3, 0) ∷ (5, 1) ∷ [];
  next = 2;
  poly = Ppl.add_space_dimensions_and_embed syntactic (Ppl.universe syntactic) 2;
}

two_dimensions : Ppl.space_dimension syntactic (WPoly.poly two_vars) ≡ 2
two_dimensions =
    rw (Ppl.embed_dimension syntactic (Ppl.universe syntactic) 2, Ppl.universe_dimension syntactic)
      (omega arith)

two_vars-IsWPoly : IsWPoly syntactic two_vars
unfolding find
two_vars-IsWPoly = record {
  adapter = record {
    ordered = ((omega arith, tt), (tt, tt));
    bounded = λ g d e. ground (arith, e);
    distinct = λ g h d e f. ground (arith, e, f);
    full = refl;
    room = omega (arith, two_dimensions);
  };
  dimension = two_dimensions;
}

five_in_one : find 5 (WPoly.adapter one_var) ≡ some 0
unfolding find
five_in_one = refl

five_in_two : find 5 (WPoly.adapter two_vars) ≡ some 1
unfolding find
five_in_two = refl

intersection_assign-IsMeet_example :
    (r : WPoly syntactic) × (intersection_assign syntactic one_var two_vars ≡ some r)
    × IsMeet syntactic one_var two_vars r
intersection_assign-IsMeet_example =
    intersection_assign-IsMeet syntactic one_var two_vars one_var-IsWPoly two_vars-IsWPoly
      (omega arith)

poly_hull_assign-IsJoin_example :
    (r : WPoly syntactic) × (poly_hull_assign syntactic one_var two_vars ≡ some r)
    × IsJoin syntactic one_var two_vars r
poly_hull_assign-IsJoin_example =
    poly_hull_assign-IsJoin syntactic one_var two_vars one_var-IsWPoly two_vars-IsWPoly 5 0 1
      five_in_one five_in_two

-- a state without variables in its tables, with the one tracked variable
abbrev with_five : PplDomain syntactic
with_five = record (top syntactic) { poly = one_var }

with_five-IsDomain : IsDomain syntactic with_five
unfolding top
with_five-IsDomain = record { poly = one_var-IsWPoly; idmap = (top-IsDomain syntactic).idmap }

filter_ne-Models_example :
    (r : PplDomain syntactic) × (filter syntactic ne with_five 5 ≡ some r)
    × IsDomain syntactic r
    × ((ρ : Valuation)
        → Models syntactic with_five.poly ρ
        → Holds ne (ρ 5)
        → Models syntactic r.poly ρ)
filter_ne-Models_example = filter_ne-Models syntactic with_five 5 0 with_five-IsDomain five_in_one
