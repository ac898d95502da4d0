-- ===== src/BranchConditionner/Reader.antt =====
-- What the text of a branch's condition means, and that it is what the constraints say.
use polymalys.Common.{
  ◌/◌, ◌^◌, ◌<◌, ◌≤◌, All, ap₂, ℕ, zero, suc, Bool, true, false, Option, none, some, List, [], ◌∷◌,
  ◌++◌, ◌≡◌, refl, ap, ◌∙◌, arith,
}
use mathlib.Core.List.{append_assoc}
use polymalys.Common.Int.{ℤ, pos, nat_abs, negsuc, ◌+ℤ◌, ◌*ℤ◌, one-*ℤ, +ℤ-zero, +ℤ_assoc, zero-+ℤ}
use polymalys.Common.StdMap.{StdMap}
use polymalys.Linear.{CType}
use polymalys.Linear.Value.{Valuation, sum_coefs}
use polymalys.BranchConditionner.{
  zero_is, space, plus, minus, number, times, var, and_also, Text, first_digits, parse, coef_text,
  terms_text, constant_text,
}

-- what comes before: the relation, a whole term, a sign, a number, or a number and " * "
pub data Mode : Type 0 where
  fresh : Mode
  whole : Mode
  signed : ℤ → Mode
  factor : ℤ → Mode
  product : ℤ → Mode

-- a relation of 0 to a number
abbrev pub Relation : Type 0
Relation = CType × ℤ

abbrev pub first_then : Relation → Option (List Relation) → Option (List Relation)
first_then r none = none
first_then r (some rs) = some (r ∷ rs)

module _ (ρ : Valuation) where
  -- the relations that a text states of the parameters' values
  unfoldable pub read : Mode → CType → ℤ → Text → Option (List Relation)
  read fresh t acc [] = some ((t, acc) ∷ [])
  read fresh t acc (space ∷ r) = read (signed (pos 1)) t acc r
  read fresh t acc (plus ∷ r) = read (signed (pos 1)) t acc r
  read fresh t acc (minus ∷ r) = read (signed (negsuc 0)) t acc r
  read fresh t acc (and_also ∷ zero_is u ∷ r) = first_then (t, acc) (read fresh u (pos 0) r)
  read fresh t acc (p ∷ r) = none
  read whole t acc [] = some ((t, acc) ∷ [])
  read whole t acc (plus ∷ r) = read (signed (pos 1)) t acc r
  read whole t acc (minus ∷ r) = read (signed (negsuc 0)) t acc r
  read whole t acc (and_also ∷ zero_is u ∷ r) = first_then (t, acc) (read fresh u (pos 0) r)
  read whole t acc (p ∷ r) = none
  read (signed s) t acc (number n ∷ r) = read (factor (s *ℤ pos n)) t acc r
  read (signed s) t acc (var g ∷ r) = read whole t (acc +ℤ s *ℤ ρ g) r
  read (signed s) t acc r = none
  read (factor k) t acc [] = some ((t, acc +ℤ k) ∷ [])
  read (factor k) t acc (times ∷ r) = read (product k) t acc r
  read (factor k) t acc (and_also ∷ zero_is u ∷ r) =
      first_then (t, acc +ℤ k) (read fresh u (pos 0) r)
  read (factor k) t acc (p ∷ r) = none
  read (product k) t acc (var g ∷ r) = read whole t (acc +ℤ k *ℤ ρ g) r
  read (product k) t acc r = none

  -- a text starts with a relation
  unfoldable pub read_text : Text → Option (List Relation)
  unfolding read
  read_text (zero_is t ∷ r) = read fresh t (pos 0) r
  read_text r = none

-- A text ends here, or " & " and another relation follow.
pub data Rest : Type 0 where
  ended : Rest
  more : CType → Text → Rest

abbrev pub text_of : Rest → Text
text_of ended = []
text_of (more u r) = and_also ∷ zero_is u ∷ r

-- A number is written whole if it has at most 7 digits.
abbrev pub IsShort : ℤ → Type 0
IsShort k = nat_abs k < 10 ^ 7

first_digits-lt : (f n : ℕ) → n ≤ f → first_digits f n < 10 ^ 7
unfolding first_digits
first_digits-lt zero n h = omega arith
first_digits-lt (suc f) n h = ground (arith, first_digits-lt f (n / 10))

-- The fuel of `parse` is enough: what is written has at most 7 digits.
parse-lt : (n : ℕ) → parse n < 10 ^ 7
unfolding parse
parse-lt n = first_digits-lt n n (omega arith)

first_digits_short : (f n : ℕ) → n < 10 ^ 7 → first_digits f n ≡ n
unfolding first_digits
first_digits_short zero n h = refl
first_digits_short (suc f) n h = ground arith

parse_short : (n : ℕ) → n < 10 ^ 7 → parse n ≡ n
unfolding parse
parse_short n h = first_digits_short n n h

abbrev mode_of : Bool → Mode
mode_of true = fresh
mode_of false = whole

-- the relation that was read, before those of the rest
abbrev pub finish : Valuation → CType → ℤ → Rest → Option (List Relation)
finish ρ t acc ended = some ((t, acc) ∷ [])
finish ρ t acc (more u r) = first_then (t, acc) (read ρ fresh u (pos 0) r)

-- the mode after the terms
abbrev after_terms : Bool → StdMap ℤ → Mode
after_terms first [] = mode_of first
after_terms first (e ∷ m) = whole

after_whole : (m : StdMap ℤ) → after_terms false m ≡ whole
after_whole [] = refl
after_whole (e ∷ m) = refl

module _ (ρ : Valuation) where
  read-coef_text :
      (first : Bool) (k : ℤ) (g : ℕ) (t : CType) (acc : ℤ) (r : Text)
      → IsShort k
      → read ρ (mode_of first) t acc (coef_text first k ++ var g ∷ r)
        ≡ read ρ whole t (acc +ℤ k *ℤ ρ g) r
  unfolding read coef_text ◌*ℤ◌
  read-coef_text true (pos zero) g t acc r h = refl
  read-coef_text false (pos zero) g t acc r h = refl
  read-coef_text true (pos (suc n)) g t acc r h =
      ground (arith, one-*ℤ (pos (suc n)), parse_short (suc n) h)
  read-coef_text false (pos (suc n)) g t acc r h =
      ground (arith, one-*ℤ (pos (suc n)), parse_short (suc n) h)
  read-coef_text true (negsuc n) g t acc r h = ground (arith, parse_short (suc n) h)
  read-coef_text false (negsuc n) g t acc r h = ground (arith, parse_short (suc n) h)

  read-terms_text :
      (first : Bool) (m : StdMap ℤ) (t : CType) (acc : ℤ) (r : Text)
      → All (λ (e : ℕ × ℤ). IsShort e.1) m
      → read ρ (mode_of first) t acc (terms_text first m ++ r)
        ≡ read ρ (after_terms first m) t (acc +ℤ sum_coefs ρ m) r
  unfolding terms_text sum_coefs
  read-terms_text first [] t acc r h = rw (+ℤ-zero acc) refl
  read-terms_text first ((g, k) ∷ m) t acc r h =
      ap (read ρ (mode_of first) t acc)
        (append_assoc (coef_text first k) (var g ∷ terms_text false m) r)
      ∙ read-coef_text first k g t acc (terms_text false m ++ r) h.0
      ∙ read-terms_text false m t (acc +ℤ k *ℤ ρ g) r h.1
      ∙ ap₂ (λ o a. read ρ o t a r) (after_whole m) (+ℤ_assoc acc (k *ℤ ρ g) (sum_coefs ρ m))

  read-finish :
      (b : Bool) (t : CType) (acc : ℤ) (r : Rest)
      → read ρ (mode_of b) t acc (text_of r) ≡ finish ρ t acc r
  unfolding read
  read-finish true t acc ended = refl
  read-finish false t acc ended = refl
  read-finish true t acc (more u r) = refl
  read-finish false t acc (more u r) = refl

  read_factor :
      (k : ℤ) (t : CType) (acc : ℤ) (r : Rest)
      → read ρ (factor k) t acc (text_of r) ≡ finish ρ t (acc +ℤ k) r
  unfolding read
  read_factor k t acc ended = refl
  read_factor k t acc (more u r) = refl

  read-constant_text :
      (b : Bool) (k : ℤ) (t : CType) (acc : ℤ) (r : Rest)
      → IsShort k
      → read ρ (mode_of b) t acc (constant_text k ++ text_of r) ≡ finish ρ t (acc +ℤ k) r
  unfolding read constant_text ◌*ℤ◌
  read-constant_text b (pos zero) t acc r h = rw (+ℤ-zero acc) (read-finish b t acc r)
  read-constant_text true (pos (suc n)) t acc r h = ground (
    arith,
    read_factor (pos 1 *ℤ pos (suc n)) t acc r,
    one-*ℤ (pos (suc n)),
    parse_short (suc n) h,
  )
  read-constant_text false (pos (suc n)) t acc r h = ground (
    arith,
    read_factor (pos 1 *ℤ pos (suc n)) t acc r,
    one-*ℤ (pos (suc n)),
    parse_short (suc n) h,
  )
  read-constant_text true (negsuc n) t acc r h =
      ground (arith, read_factor (negsuc 0 *ℤ pos (suc n)) t acc r, parse_short (suc n) h)
  read-constant_text false (negsuc n) t acc r h =
      ground (arith, read_factor (negsuc 0 *ℤ pos (suc n)) t acc r, parse_short (suc n) h)

  read_after :
      (m : StdMap ℤ) (k : ℤ) (t : CType) (acc : ℤ) (r : Rest)
      → IsShort k
      → read ρ (after_terms true m) t acc (constant_text k ++ text_of r) ≡ finish ρ t (acc +ℤ k) r
  read_after [] k t acc r h = read-constant_text true k t acc r h
  read_after (e ∷ m) k t acc r h = read-constant_text false k t acc r h

  -- a written constraint is read as the relation of 0 to its value
  pub read-constraint :
      (m : StdMap ℤ) (k : ℤ) (t : CType) (r : Rest)
      → All (λ (e : ℕ × ℤ). IsShort e.1) m
      → IsShort k
      → read ρ fresh t (pos 0) ((terms_text true m ++ constant_text k) ++ text_of r)
        ≡ finish ρ t (sum_coefs ρ m +ℤ k) r
  read-constraint m k t r h l =
      ap (read ρ fresh t (pos 0)) (append_assoc (terms_text true m) (constant_text k) (text_of r))
      ∙ read-terms_text true m t (pos 0) (constant_text k ++ text_of r) h
      ∙ ap (λ a. read ρ (after_terms true m) t a (constant_text k ++ text_of r))
          (zero-+ℤ (sum_coefs ρ m))
      ∙ read_after m k t (sum_coefs ρ m) r l
