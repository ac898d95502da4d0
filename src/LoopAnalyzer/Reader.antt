-- ===== src/LoopAnalyzer/Reader.antt =====
-- What the text of a loop bound means: a quotient whose numerator is a sum, read from left to right.
use polymalys.Common.{
  zero, suc, Bool, true, false, Option, none, some, [], ◌∷◌, ◌++◌, ◌≡◌, ◌≢◌, refl, if◌then◌else◌,
  arith,
}
use polymalys.Common.Int.{ℤ, pos, negsuc, ◌+ℤ◌, ◌*ℤ◌, one-*ℤ, +ℤ-zero}
use polymalys.LoopAnalyzer.{
  plus, minus, number, times, param, open_paren, divided_by, Text, term_text, constant_text,
  positive, is_unit, sign_str,
}

-- what comes before: nothing, a whole term, a sign, a number, a number and " * ", or ")/"
pub data Mode : Type 0 where
  start : Mode
  whole : Mode
  signed : ℤ → Mode
  factor : ℤ → Mode
  product : ℤ → Mode
  over : Mode

-- A number that is not written after a sign must carry its own, except at the start.
unfoldable pub glued : ℤ → Bool
glued (pos n) = true
glued (negsuc n) = false

module _ (σ : ℤ → ℤ) where
  -- numerator and denominator of what is read; `paren` tells whether "(" was read
  unfoldable pub read : Bool → Mode → ℤ → Text → Option (ℤ × ℤ)
  unfolding glued
  read paren start acc [] = none
  read paren start acc (minus ∷ t) = read paren (signed (negsuc 0)) acc t
  read paren start acc (plus ∷ t) = read paren (signed (pos 1)) acc t
  read paren start acc (number k ∷ t) = read paren (factor k) acc t
  read paren start acc (param p ∷ t) = read paren whole (acc +ℤ σ p) t
  read paren start acc (open_paren ∷ t) =
      let rest = read true start acc t in if paren then none else rest
  read paren start acc (p ∷ t) = none
  read paren whole acc [] = if paren then none else some (acc, pos 1)
  read paren whole acc (minus ∷ t) = read paren (signed (negsuc 0)) acc t
  read paren whole acc (plus ∷ t) = read paren (signed (pos 1)) acc t
  read paren whole acc (number k ∷ t) =
      let rest = read paren (factor k) acc t in if glued k then none else rest
  read paren whole acc (divided_by ∷ t) =
      let rest = read true over acc t in if paren then rest else none
  read paren whole acc (p ∷ t) = none
  read paren (signed s) acc [] = none
  read paren (signed s) acc (number k ∷ t) = read paren (factor (s *ℤ k)) acc t
  read paren (signed s) acc (param p ∷ t) = read paren whole (acc +ℤ s *ℤ σ p) t
  read paren (signed s) acc (p ∷ t) = none
  read paren (factor k) acc [] = if paren then none else some (acc +ℤ k, pos 1)
  read paren (factor k) acc (times ∷ t) = read paren (product k) acc t
  read paren (factor k) acc (plus ∷ t) = read paren (signed (pos 1)) (acc +ℤ k) t
  read paren (factor k) acc (minus ∷ t) = read paren (signed (negsuc 0)) (acc +ℤ k) t
  read paren (factor k) acc (divided_by ∷ t) =
      let rest = read true over (acc +ℤ k) t in if paren then rest else none
  read paren (factor k) acc (p ∷ t) = none
  read paren (product k) acc [] = none
  read paren (product k) acc (param p ∷ t) = read paren whole (acc +ℤ k *ℤ σ p) t
  read paren (product k) acc (p ∷ t) = none
  read paren over acc (number k ∷ []) = some (acc, k)
  read paren over acc t = none

-- the mode in which the next term is read
abbrev pub next_mode : Bool → Mode
next_mode true = start
next_mode false = whole

module _ (σ : ℤ → ℤ) where
  -- a written term is read as its coefficient times its parameter
  pub read-term_text :
      (paren first : Bool) (c id acc : ℤ) (t : Text)
      → c ≢ pos 0
      → read σ paren (next_mode first) acc (term_text first c id ++ t)
        ≡ read σ paren whole (acc +ℤ c *ℤ σ id) t
  unfolding term_text is_unit sign_str positive read
  read-term_text paren first (pos zero) id acc t h = absurd (h refl)
  read-term_text paren true (pos (suc n)) id acc t h = ground (arith, one-*ℤ (σ id))
  read-term_text paren false (pos (suc n)) id acc t h = ground (arith, one-*ℤ (pos (suc n)))
  read-term_text paren true (negsuc n) id acc t h = ground arith
  read-term_text paren false (negsuc n) id acc t h = ground arith

  -- and a written constant as its value, before the end or ")/"
  pub read-constant_text :
      (k acc : ℤ) → read σ false whole acc (constant_text k) ≡ some (acc +ℤ k, pos 1)
  unfolding constant_text positive read glued
  read-constant_text (pos zero) acc = rw (+ℤ-zero acc) refl
  read-constant_text (pos (suc n)) acc = ground (arith, one-*ℤ (pos (suc n)))
  read-constant_text (negsuc n) acc = ground arith

  pub read-constant_text-over :
      (k acc d : ℤ)
      → read σ true whole acc (constant_text k ++ divided_by ∷ number d ∷ []) ≡ some (acc +ℤ k, d)
  unfolding constant_text positive read glued
  read-constant_text-over (pos zero) acc d = rw (+ℤ-zero acc) refl
  read-constant_text-over (pos (suc n)) acc d = ground (arith, one-*ℤ (pos (suc n)))
  read-constant_text-over (negsuc n) acc d = ground arith
