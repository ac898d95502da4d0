-- ===== src/Common/StdMap.antt =====
-- `std::map` with numeric keys (guid_t, dim_t, int ids): an association list in the order of its
-- keys, which is the order its iterators visit.
use Prim.Native.Nat.{ℕ, ◌+◌, ◌≤◌, ◌<◌}
use mathlib.Core.Path.{◌≡◌, refl, sym, ap₂, subst, ◌∙◌}
use mathlib.Core.Bool.{Bool, true, false}
use mathlib.Core.Logic.{◌⊎◌, inl, inr}
use mathlib.Core.Option.{Option, none, some, none-ne-some, some-injective}
use mathlib.Core.List.{List, [], ◌∷◌, ◌++◌}
use native.Mathlib.Decide.{dec_lt}
use native.Mathlib.Omega.{arith}
use polymalys.Common.Tests.{Bool-cases, ltb, ◌==◌, if◌then◌else◌}
use polymalys.Common.Lists.{All, length}

lt_cases : (i j : ℕ) → (i < j) ⊎ ((j < i) ⊎ (i ≡ j))
lt_cases i j = elim (dec_lt i j) [
  | yes l ↦ inl l
  | no g ↦ elim (dec_lt j i) [ yes l ↦ inr (inl l) | no f ↦ inr (inr (omega arith)) ]
]

abbrev pub StdMap {ℓ} : Type ℓ → Type ℓ
StdMap V = List (ℕ × V)

module _ {ℓ} {V : Type ℓ} where
  -- `find(k)`, and `at(k)` where it does not throw
  unfoldable pub find : ℕ → StdMap V → Option V
  find k [] = none
  find k ((j, v) ∷ m) = if j == k then some v else find k m

  -- `m[k] = v`
  unfoldable pub put : ℕ → V → StdMap V → StdMap V
  put k v [] = (k, v) ∷ []
  put k v ((j, w) ∷ m) =
      if j == k then (k, v) ∷ m else if ltb k j then (k, v) ∷ (j, w) ∷ m else (j, w) ∷ put k v m

  -- `m.erase(k)`
  unfoldable pub erase : ℕ → StdMap V → StdMap V
  erase k [] = []
  erase k ((j, w) ∷ m) = if j == k then m else (j, w) ∷ erase k m

  -- `m.find(k) != m.end()`
  unfoldable pub has : ℕ → StdMap V → Bool
  has k [] = false
  has k ((j, v) ∷ m) = if j == k then true else has k m

  -- Keys strictly increase.
  abbrev pub IsMap : StdMap V → Type 0
  IsMap [] = Unit
  IsMap ((j, v) ∷ m) = All (λ (e : ℕ × V). j < e.0) m × IsMap m

  pub find-put :
      (k j : ℕ) (v : V) (m : StdMap V) → find j (put k v m) ≡ (if k == j then some v else find j m)
  unfolding find put
  find-put k j v [] = refl
  find-put k j v ((i, w) ∷ m) = ground (arith, find-put k j v m)

  pub has-find : (k : ℕ) (m : StdMap V) → has k m ≡ false → find k m ≡ none
  unfolding find has
  has-find k [] h = refl
  has-find k ((j, v) ∷ m) h = ground (arith, has-find k m)

  pub find-has : (k : ℕ) (m : StdMap V) → find k m ≡ none → has k m ≡ false
  unfolding find has
  find-has k [] h = refl
  find-has k ((j, v) ∷ m) h = ground (arith, find-has k m)

  pub length-put :
      (k : ℕ) (v : V) (m : StdMap V) → find k m ≡ none → length (put k v m) ≡ length m + 1
  unfolding find put
  length-put k v [] h = omega arith
  length-put k v ((j, w) ∷ m) h = ground (arith, length-put k v m)

  -- a key above all others is put at the end
  pub put_last :
      (k : ℕ) (v : V) (m : StdMap V) → All (λ (e : ℕ × V). e.0 < k) m → put k v m ≡ m ++ (k, v) ∷ []
  unfolding put
  put_last k v [] a = refl
  put_last k v ((j, w) ∷ m) a = ground (arith, put_last k v m)

  All-put :
      (i k : ℕ) (v : V) (m : StdMap V)
      → i < k
      → All (λ (e : ℕ × V). i < e.0) m
      → All (λ (e : ℕ × V). i < e.0) (put k v m)
  unfolding put
  All-put i k v [] h a = (h, tt)
  All-put i k v ((j, w) ∷ m) h a = ground (arith, All-put i k v m)

  All-weaken :
      (i k : ℕ) (m : StdMap V)
      → i ≤ k
      → All (λ (e : ℕ × V). k < e.0) m
      → All (λ (e : ℕ × V). i < e.0) m
  All-weaken i k [] h a = tt
  All-weaken i k ((j, w) ∷ m) h a = (omega arith, All-weaken i k m h a.1)

  pub put-IsMap : (k : ℕ) (v : V) (m : StdMap V) → IsMap m → IsMap (put k v m)
  unfolding put
  put-IsMap k v [] h = (tt, tt)
  put-IsMap k v ((j, w) ∷ m) h = ground (arith, put-IsMap k v m, All-put j k v m, All-weaken k j m)

  pub find_above : (k : ℕ) (m : StdMap V) → All (λ (e : ℕ × V). k < e.0) m → find k m ≡ none
  unfolding find
  find_above k [] a = refl
  find_above k ((j, w) ∷ m) a = ground (arith, find_above k m)

  All-erase :
      (i k : ℕ) (m : StdMap V)
      → All (λ (e : ℕ × V). i < e.0) m
      → All (λ (e : ℕ × V). i < e.0) (erase k m)
  unfolding erase
  All-erase i k [] a = tt
  All-erase i k ((j, w) ∷ m) a = ground (arith, All-erase i k m)

  pub find_nil : (k : ℕ) → find k [] ≡ none
  unfolding find
  find_nil k = refl

  pub erase-IsMap : (k : ℕ) (m : StdMap V) → IsMap m → IsMap (erase k m)
  unfolding erase
  erase-IsMap k [] h = tt
  erase-IsMap k ((j, w) ∷ m) h = ground (arith, erase-IsMap k m, All-erase j k m)

  pub find-erase :
      (k j : ℕ) (m : StdMap V) → IsMap m → find j (erase k m) ≡ (if k == j then none else find j m)
  unfolding find erase
  find-erase k j [] h = ground arith
  find-erase k j ((i, w) ∷ m) h = ground (arith, find-erase k j m, find_above i m)

  pub find_head : (k : ℕ) (v : V) (m : StdMap V) → find k ((k, v) ∷ m) ≡ some v
  unfolding find
  find_head k v m = ground arith

  pub find_tail :
      (k j : ℕ) (v : V) (m : StdMap V) → (k == j) ≡ false → find j ((k, v) ∷ m) ≡ find j m
  unfolding find
  find_tail k j v m h = rw h refl

  -- an entry of the rest of a map is one of the map
  pub find_later :
      (k : ℕ) (v : V) (m : StdMap V)
      → All (λ (e : ℕ × V). k < e.0) m
      → (j : ℕ) (w : V) → find j m ≡ some w
      → find j ((k, v) ∷ m) ≡ some w
  find_later k v m a j w e = elim (Bool-cases (k == j)) [
    | inl s ↦ absurd (ground (arith, find_above k m a))
    | inr s ↦ find_tail k j v m s ∙ e
  ]

  -- a key below all others is missing
  find_below :
      (i j : ℕ) (w : V) (m : StdMap V)
      → i < j
      → All (λ (e : ℕ × V). j < e.0) m
      → find i ((j, w) ∷ m) ≡ none
  find_below i j w m l a =
      find_tail j i w m (ground arith) ∙ find_above i m (All-weaken i j m (omega arith) a)

  tails_agree :
      (i j : ℕ) (v w : V) (m n : StdMap V)
      → i ≡ j
      → All (λ (e : ℕ × V). i < e.0) m
      → All (λ (e : ℕ × V). j < e.0) n
      → (k : ℕ) → find k ((i, v) ∷ m) ≡ find k ((j, w) ∷ n)
      → find k m ≡ find k n
  tails_agree i j v w m n e a b k h = elim (Bool-cases (i == k)) [
    | inl s ↦ ground (arith, find_above i m a, find_above j n b)
    | inr s ↦ sym (find_tail i k v m s) ∙ h ∙ find_tail j k w n (ground arith)
  ]

  -- maps with the same lookups are equal
  pub map_ext : (m n : StdMap V) → IsMap m → IsMap n → ((k : ℕ) → find k m ≡ find k n) → m ≡ n
  map_ext [] [] a b h = refl
  map_ext [] ((j, w) ∷ n) a b h = absurd (none-ne-some w (sym (find_nil j) ∙ h j ∙ find_head j w n))
  map_ext ((i, v) ∷ m) [] a b h =
      absurd (none-ne-some v (sym (find_nil i) ∙ sym (h i) ∙ find_head i v m))
  map_ext ((i, v) ∷ m) ((j, w) ∷ n) a b h = elim (lt_cases i j) [
    | inl l ↦ absurd (none-ne-some v (sym (find_below i j w n l b.0) ∙ sym (h i) ∙ find_head i v m))
    | inr (inl l) ↦ absurd (none-ne-some w (sym (find_below j i v m l a.0) ∙ h j ∙ find_head j w n))
    | inr (inr e) ↦
        let v' : v ≡ w = some-injective v w (
          sym (find_head i v m)
          ∙ h i
          ∙ subst (λ k. find k ((j, w) ∷ n) ≡ some w) (sym e) (find_head j w n)) in
        ap₂ (λ x y. x ∷ y) (ap₂ (λ x y. (x, y)) e v')
          (map_ext m n a.1 b.1 (λ k. tails_agree i j v w m n e a.0 b.0 k (h k)))
  ]
