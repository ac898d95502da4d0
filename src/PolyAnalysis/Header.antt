-- ===== src/PolyAnalysis/Header.antt =====
-- processHeader of poly_PolyAnalysis.cpp: the state of a loop header and the bound of the loop. The
-- join, the widening and the comparison of PPLManager merge states and enter as arguments. The context
-- of loops is Context.antt; the table `lb` and computeParamBound change neither state nor bound.
use polymalys.Common.{
  not, ◌&&◌, ◌||◌, Bool, true, false, Option, none, some, List, [], ◌∷◌, if◌then◌else◌, ℕ,
}
use polymalys.Common.Int.{ℤ, pos, eqb_ℤ, leb_ℤ}
use polymalys.Ppl.{Ppl}
use polymalys.PplDomain.Delta.{to_int}
use polymalys.PplDomain.{PplDomain, bottom, is_bottom, get_loop_bound, set_bound, unbounded}

-- HeaderState
pub record HeaderState (P : Ppl) : Type 0 where
  pub avcreate : Bool
  pub state : PplDomain P
  pub entry : PplDomain P

-- what PPLManager does with states
pub record Merges (P : Ppl) : Type 0 where
  pub join : PplDomain P → PplDomain P → PplDomain P
  pub widening : PplDomain P → PplDomain P → Bool → PplDomain P
  pub equals : PplDomain P → PplDomain P → Bool

-- MAX_ITERATION, an `int`, after another bound was found, a `long`
unfoldable pub max_iteration : ℤ → ℤ → ℤ
unfolding to_int
max_iteration old bound =
    if not (eqb_ℤ old unbounded) && (not (leb_ℤ bound old) || eqb_ℤ bound unbounded)
    then to_int bound
    else old

module _ (P : Ppl) (merges : Merges P) where
  -- the states of the edges that enter the loop, and of its back edges, which are marked
  unfoldable pub entry_and_back :
      List (Bool × PplDomain P) → PplDomain P × PplDomain P → PplDomain P × PplDomain P
  entry_and_back [] st = st
  entry_and_back ((true, s) ∷ es) (entry, back) = entry_and_back es (entry, merges.join back s)
  entry_and_back ((false, s) ∷ es) (entry, back) = entry_and_back es (merges.join entry s, back)

  unfoldable pub fresh_header : HeaderState P
  unfolding bottom
  fresh_header = record { avcreate = false; state = bottom P; entry = bottom P }

  -- a new state at the entry starts the loop again
  unfoldable pub restart : PplDomain P → HeaderState P → HeaderState P
  restart entry hs =
      if merges.equals entry hs.entry
      then hs
      else record { avcreate = true; state = entry; entry = entry }

  unfoldable pub widen : PplDomain P → HeaderState P → HeaderState P
  unfolding is_bottom
  widen back hs = record {
    avcreate = if is_bottom P back then hs.avcreate else false;
    state = merges.widening back hs.state hs.avcreate;
    entry = hs.entry;
  }

  -- getLoopBound of the joined back edges
  unfoldable pub header_bound : ℕ → List (Bool × PplDomain P) → Option ℤ
  unfolding entry_and_back get_loop_bound bottom
  header_bound header edges =
      get_loop_bound P (entry_and_back edges (bottom P, bottom P)).1 (pos header)

  -- processHeader: the state of the header, and MAX_ITERATION; `gap` is what setLength leaves in new
  -- places of the bounds, and the state of a header that was not met yet is missing
  unfoldable pub process_header :
      ℤ → ℕ → List (Bool × PplDomain P) → Option (HeaderState P) × ℤ → Option (HeaderState P × ℤ)
  unfolding entry_and_back fresh_header restart header_bound set_bound max_iteration widen bottom
  process_header gap header edges (found, old) =
      let (entry, back) = entry_and_back edges (bottom P, bottom P) in
      let hs = restart entry (elim found [ none ↦ fresh_header | some h ↦ h ]) in
      elim (header_bound header edges) [
        | none ↦ none
        | some bound ↦ some (widen (set_bound P gap back header bound) hs, max_iteration old bound)
      ]

  -- the visits of a header, one after another
  unfoldable pub process_headers :
      ℤ
      → ℕ
      → List (List (Bool × PplDomain P))
      → Option (HeaderState P) × ℤ
      → Option (Option (HeaderState P) × ℤ)
  unfolding process_header
  process_headers gap header [] st = some st
  process_headers gap header (es ∷ visits) st = elim (process_header gap header es st) [
    | none ↦ none
    | some (hs, m) ↦ process_headers gap header visits (some hs, m)
  ]
