-- ===== src/PolyAnalysis/OrderFacts.antt =====
-- isBefore is a strict order, whatever the tables hold, and the order of the loops has no say in it.
use polymalys.Common.{ℕ, Bool, true, not, ◌&&◌, ◌||◌, some, ◌≡◌, ◌≢◌, ltb, arith}
use polymalys.Common.StdMap.{find, has}
use polymalys.PolyAnalysis.{PseudoTopoOrder, loops_before, blocks_before, is_before}

blocks_before_trans :
    (o : PseudoTopoOrder) (a b c : ℕ)
    → blocks_before o a b ≡ some true
    → blocks_before o b c ≡ some true
    → blocks_before o a c ≡ some true
unfolding blocks_before
blocks_before_trans o a b c h k = ground (arith, h, k)

loops_before_never : (o : PseudoTopoOrder) (a : ℕ) (r : Bool) → loops_before o a ≢ some (some r)
unfolding loops_before
loops_before_never o a r h = ground (arith, h)

-- No block comes before itself.
is_before_irrefl : (o : PseudoTopoOrder) (a : ℕ) → is_before o a a ≢ some true
unfolding is_before blocks_before
is_before_irrefl o a h = ground (arith, h, loops_before_never o a true)

-- A block that comes before another one comes before all that the other one comes before.
is_before_trans :
    (o : PseudoTopoOrder) (a b c : ℕ)
    → is_before o a b ≡ some true
    → is_before o b c ≡ some true
    → is_before o a c ≡ some true
unfolding is_before
is_before_trans o a b c h k = ground (
  arith,
  h,
  k,
  loops_before_never o a true,
  loops_before_never o b true,
  blocks_before_trans o a b c,
)

-- Where isBefore meets no missing key, it puts the blocks of loops before all others, and compares
-- the numbers of two blocks of loops, or of two others: the numbers of the loops play no part.
pub is_before_lem :
    (o : PseudoTopoOrder) (a b l n m k : ℕ)
    → find a o.block_order ≡ some m
    → find b o.block_order ≡ some k
    → (has a o.belongs_to_loop ≡ true
        → (find a o.belongs_to_loop ≡ some l) × (find l o.loop_order ≡ some n))
    → is_before o a b
      ≡ some (
          (has a o.belongs_to_loop && not (has b o.belongs_to_loop))
          || ((has a o.belongs_to_loop || not (has b o.belongs_to_loop)) && ltb m k))
unfolding is_before blocks_before loops_before
is_before_lem o a b l n m k e f h = ground (arith, e, f, h)
