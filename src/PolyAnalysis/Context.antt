-- ===== src/PolyAnalysis/Context.antt =====
-- The loop context of poly_PolyAnalysis.cpp: the identifiers CURRENT_LOOP, PREVIOUS_LOOP and
-- CURRENT_INSTANCES, which processHeader and processBB keep for the recorded conditions. A function
-- is known by a number in place of its name, and a map with `int` keys is keyed by `loop_key`, since
-- only lookups in it are made. `none` stands for the overflow of an `int`, which is undefined.
use polymalys.Common.{
  ℕ, zero, suc, ◌+◌, ◌-◌, ◌*◌, ◌^◌, ◌≤◌, Bool, ◌&&◌, Option, none, some, List, [], ◌∷◌, ◌≡◌, ◌≢◌,
  refl, arith, if◌then◌else◌,
}
use polymalys.Common.Int.{
  ℤ, pos, negsuc, ◌+ℤ◌, ◌*ℤ◌, leb_ℤ, eqb_ℤ, eqb_ℤ_iff, pos_part, neg_part, pos_part-*ℤ, neg_part-*ℤ,
}
use polymalys.Common.StdMap.{StdMap, find, put, erase, find-put}
use polymalys.BranchConditionner.{loop_key}

pub record LoopContext : Type 0 where
  pub current_loop : ℤ
  pub previous_loop : StdMap ℤ
  pub instances : StdMap (StdMap ℕ)

-- MAX_LOOP, negated
abbrev minus_max_loop : ℤ
minus_max_loop = negsuc 999999

-- the first lines of processHeader
unfoldable pub enter_header : ℕ → LoopContext → LoopContext
unfolding loop_key
enter_header h c = record c {
  current_loop = pos h;
  previous_loop =
      if eqb_ℤ c.current_loop (pos h)
      then c.previous_loop
      else put h c.current_loop c.previous_loop;
  instances = erase (loop_key (pos h)) c.instances;
}

-- the first lines of processBB for a block with LOOP_RESET: the sources of the edges into the block
unfoldable pub leave_loop : List ℕ → LoopContext → LoopContext
leave_loop [] c = c
leave_loop (s ∷ sources) c =
    let rest = leave_loop sources c in
    if eqb_ℤ (pos s) c.current_loop
    then record c { current_loop = elim (find s c.previous_loop) [ none ↦ negsuc 0 | some l ↦ l ] }
    else rest

unfoldable pub fits_int : ℤ → Bool
fits_int x = leb_ℤ (negsuc (2 ^ 31 - 1)) x && leb_ℤ x (pos (2 ^ 31 - 1))

-- `- MAX_LOOP * oldLoop + instance`
unfoldable pub call_loop : ℤ → ℕ → Option ℤ
unfolding fits_int
call_loop old_loop instance_no =
    let product = minus_max_loop *ℤ old_loop in
    let sum = product +ℤ pos instance_no in
    if fits_int product && fits_int sum then some sum else none

-- processBB for a call: the number of the call in its loop
unfoldable pub instance_of : ℕ → StdMap ℕ → ℕ
instance_of name calls = elim (find name calls) [ none ↦ 1 | some i ↦ i + 1 ]

unfoldable pub calls_of : LoopContext → StdMap ℕ
unfolding loop_key
calls_of c = elim (find (loop_key c.current_loop) c.instances) [ none ↦ [] | some m ↦ m ]

unfoldable pub enter_call : ℕ → LoopContext → Option LoopContext
unfolding instance_of calls_of call_loop
enter_call name c =
    let i = instance_of name (calls_of c) in
    elim (call_loop c.current_loop i) [
      | none ↦ none
      | some l ↦ some (record c {
        current_loop = l;
        instances = put (loop_key c.current_loop) (put name i (calls_of c)) c.instances;
      })
    ]

times_parts :
    (k : ℤ)
    → (pos_part (minus_max_loop *ℤ k) ≡ 1000000 * neg_part k)
      × (neg_part (minus_max_loop *ℤ k) ≡ 1000000 * pos_part k)
times_parts k = (
  rw (pos_part-*ℤ minus_max_loop k) (omega arith),
  rw (neg_part-*ℤ minus_max_loop k) (omega arith),
)

-- A call in a loop whose header has number 2148 or more overflows.
pub call_loop-overflow : (h i : ℕ) → 2148 ≤ h → call_loop (pos h) i ≡ none
unfolding call_loop fits_int
call_loop-overflow h i l = ground (arith, times_parts (pos h))

-- the header is visited, and then `n` times again
unfoldable pub visits : ℕ → ℕ → LoopContext → LoopContext
visits h zero c = enter_header h c
visits h (suc n) c = enter_header h (visits h n c)

visits-current_loop : (h n : ℕ) (c : LoopContext) → (visits h n c).current_loop ≡ pos h
unfolding visits enter_header
visits-current_loop h zero c = refl
visits-current_loop h (suc n) c = refl

visits-previous_loop :
    (h n : ℕ) (c : LoopContext)
    → c.current_loop ≢ pos h
    → find h (visits h n c).previous_loop ≡ some c.current_loop
unfolding visits enter_header
visits-previous_loop h zero c d =
    ground (arith, find-put h h c.current_loop c.previous_loop, eqb_ℤ_iff c.current_loop (pos h), d)
visits-previous_loop h (suc n) c d = ground (
  arith,
  visits-previous_loop h n c d,
  visits-current_loop h n c,
  eqb_ℤ_iff (visits h n c).current_loop (pos h),
)

-- Leaving a loop, from a block whose first edge comes from the header, restores the context in which
-- the header was entered, however often it was visited in between.
pub leave_loop-visits :
    (h n : ℕ) (sources : List ℕ) (c : LoopContext)
    → c.current_loop ≢ pos h
    → (leave_loop (h ∷ sources) (visits h n c)).current_loop ≡ c.current_loop
unfolding leave_loop
leave_loop-visits h n sources c d = ground (
  arith,
  visits-previous_loop h n c d,
  visits-current_loop h n c,
  eqb_ℤ_iff (pos h) (visits h n c).current_loop,
)
