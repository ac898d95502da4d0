-- ===== src/Euclid.antt =====
-- PPLDomain::_euclid of poly_PPLDomain.cpp. C `int` values are unbounded integers here, and `/` and
-- `%` round towards zero.
pub mod Correct
use polymalys.Common.{
  ℕ, zero, suc, Bool, true, false, Option, none, some, ◌≡◌, refl, ◌+◌, if◌then◌else◌,
}
use polymalys.Common.Int.{ℤ, pos, negsuc, nat_abs, ◌+ℤ◌, ◌-ℤ◌, ◌*ℤ◌, tdiv, tmod, eqb_ℤ}

-- the variables of the loop
pub record Rounds : Type 0 where
  pub rest : ℤ
  pub old_rest : ℤ
  pub bezout : ℤ
  pub old_bezout : ℤ

-- the body of `while (rest != 0)`
unfoldable pub euclid_round : Rounds → Rounds
euclid_round r =
    let quotient = tdiv r.old_rest r.rest in
    record {
      rest = r.old_rest -ℤ quotient *ℤ r.rest;
      old_rest = r.rest;
      bezout = r.old_bezout -ℤ quotient *ℤ r.bezout;
      old_bezout = r.bezout;
    }

-- `none` means that the fuel ran out.
unfoldable pub euclid_loop : ℕ → Rounds → Option Rounds
euclid_loop zero r = elim (eqb_ℤ r.rest (pos 0)) [ true ↦ some r | false ↦ none ]
euclid_loop (suc fuel) r = elim (eqb_ℤ r.rest (pos 0)) [
  | true ↦ some r
  | false ↦ euclid_loop fuel (euclid_round r)
]

unfoldable pub euclid_start : ℤ → ℤ → Rounds
euclid_start a b = record { rest = b; old_rest = a; bezout = pos 1; old_bezout = pos 0 }

-- `gcd` and `inverse`. The fuel is the size of `b`, which falls in every round. `none` is also the
-- remainder by 0.
unfoldable pub euclid : ℤ → ℤ → Option (ℤ × ℤ)
unfolding euclid_loop euclid_start
euclid a b = elim (euclid_loop (nat_abs b) (euclid_start a b)) [
  | none ↦ none
  | some r ↦ if eqb_ℤ a (pos 0) then none else some (r.old_rest, tmod r.old_bezout a)
]

euclid_12_8 : euclid (pos 12) (pos 8) ≡ some (pos 4, negsuc 0)
unfolding euclid euclid_round tdiv tmod ◌-ℤ◌ ◌*ℤ◌
euclid_12_8 = refl

euclid_7_3 : euclid (pos 7) (pos 3) ≡ some (pos 1, negsuc 1)
unfolding euclid euclid_round tdiv tmod ◌-ℤ◌ ◌*ℤ◌
euclid_7_3 = refl
