-- ===== src/WPoly/Drop/Filter.antt =====
-- filter_lambda of include/PolyWrap.h: the variables that fail a test are forgotten.
use mathlib.Core.List.{append-nil, append_assoc}
use polymalys.Common.{
  ap, ℕ, ◌+◌, ◌-◌, ◌≤◌, ◌<◌, Bool, true, false, none, some, List, [], ◌∷◌, ◌++◌, ◌≡◌, refl,
  if◌then◌else◌, ◌==◌, length, All, arith, Option-cases, Bool-cases, inl, inr, sym, ◌∙◌, subst,
}
use polymalys.Common.Count.{occ, below, IsUnique, All-occ}
use polymalys.Common.StdMap.{StdMap, find, IsMap, find_above, put_last}
use polymalys.Linear.Value.{Valuation}
use polymalys.Ppl.{Ppl, PartialMap}
use polymalys.WPoly.Adapter.{IsWPoly, Models}
use polymalys.WPoly.Drop.Dimensions.{IsRenaming, eliminator-maps, eliminator-IsRenaming}
use polymalys.WPoly.Drop.Moved.{
  dims, occ-dims, dims-IsUnique, dims_owner, unmapped, image, moved, map_with_dim-moved,
  moved-Models, moved-IsWPoly, find-map_adapter_dim,
}
use polymalys.WPoly.{WPoly, eliminator, map_vars_loop, filter_lambda}

keys : StdMap ℕ → List ℕ
keys [] = []
keys ((g, d) ∷ m) = g ∷ keys m

above_keys : (g k : ℕ) (m : StdMap ℕ) → All (λ (e : ℕ × ℕ). g < e.0) m → 1 ≤ occ k (keys m) → g < k
unfolding keys occ
above_keys g k [] a l = absurd (omega arith)
above_keys g k ((j, d) ∷ m) a l = ground (arith, above_keys g k m)

All-snoc :
    (k g d : ℕ) (m : StdMap ℕ)
    → All (λ (e : ℕ × ℕ). e.0 < k) m
    → g < k
    → All (λ (e : ℕ × ℕ). e.0 < k) (m ++ (g, d) ∷ [])
All-snoc k g d [] a l = (l, tt)
All-snoc k g d (e ∷ m) a l = (a.0, All-snoc k g d m a.1 l)

module _ (keep : ℕ → Bool) where
  -- the entries that stay, and the others
  unfoldable pub kept : StdMap ℕ → StdMap ℕ
  kept [] = []
  kept ((g, d) ∷ m) = if keep g then (g, d) ∷ kept m else kept m

  unfoldable pub dropped : StdMap ℕ → List ℕ
  dropped [] = []
  dropped ((g, d) ∷ m) = if keep g then dropped m else d ∷ dropped m

  All-kept :
      (k : ℕ) (m : StdMap ℕ)
      → All (λ (e : ℕ × ℕ). k < e.0) m
      → All (λ (e : ℕ × ℕ). k < e.0) (kept m)
  unfolding kept
  All-kept k [] h = tt
  All-kept k ((g, d) ∷ m) h = ground (arith, All-kept k m)

  kept-IsMap : (m : StdMap ℕ) → IsMap m → IsMap (kept m)
  unfolding kept
  kept-IsMap [] h = tt
  kept-IsMap ((g, d) ∷ m) h = ground (arith, kept-IsMap m, All-kept g m)

  find-kept :
      (g : ℕ) (m : StdMap ℕ) → IsMap m → find g (kept m) ≡ (if keep g then find g m else none)
  unfolding kept find
  find-kept g [] h = ground arith
  find-kept g ((k, d) ∷ m) h = elim (Bool-cases (k == g)) [
    | inl e ↦
        let p : k ≡ g = ground arith in
        subst (λ t. find t (kept ((k, d) ∷ m)) ≡ (if keep t then find t ((k, d) ∷ m) else none)) p
          (ground (arith, find-kept k m, find_above k m))
    | inr e ↦ ground (arith, find-kept g m)
  ]

  pub occ-kept-dropped :
      (d : ℕ) (m : StdMap ℕ) → occ d (dims (kept m)) + occ d (dropped m) ≡ occ d (dims m)
  unfolding kept dropped occ dims
  occ-kept-dropped d [] = omega arith
  occ-kept-dropped d ((k, c) ∷ m) = ground (arith, occ-kept-dropped d m)

  length-kept-dropped : (m : StdMap ℕ) → length (kept m) + length (dropped m) ≡ length m
  unfolding kept dropped
  length-kept-dropped [] = omega arith
  length-kept-dropped ((k, c) ∷ m) = ground (arith, length-kept-dropped m)

  module _ (P : Ppl) where
    map_vars_loop-kept :
        (m acc : StdMap ℕ) (vs : List ℕ)
        → IsMap m
        → ((k : ℕ) → 1 ≤ occ k (keys m) → All (λ (e : ℕ × ℕ). e.0 < k) acc)
        → map_vars_loop P (λ g. if keep g then some g else none) m acc vs
          ≡ (acc ++ kept m, vs ++ dropped m)
    unfolding map_vars_loop kept dropped keys occ
    map_vars_loop-kept [] acc vs h a = simp append-nil
    map_vars_loop-kept ((g, d) ∷ m) acc vs h a =
        let below_bounded = a g (ground arith) in
        let rest = λ (k : ℕ) (l : 1 ≤ occ k (keys m)).
          All-snoc k g d acc (a k (ground arith)) (above_keys g k m h.0 l) in
        elim (Bool-cases (keep g)) [
          | inl e ↦ ground (
            arith,
            put_last g d acc below_bounded,
            map_vars_loop-kept m (acc ++ (g, d) ∷ []) vs h.1 rest,
            append_assoc acc ((g, d) ∷ []) (kept m),
          )
          | inr e ↦ ground (
            arith,
            map_vars_loop-kept m acc (vs ++ d ∷ []) h.1 (λ k l. a k (ground arith)),
            append_assoc vs (d ∷ []) (dropped m),
          )
        ]

    -- what `filter_lambda` leaves: a valid WPoly that tracks the tracked variables that pass the
    -- test, and no other, and that describes every valuation that agrees with a described one on
    -- the variables that pass
    pub record IsRestricted (w w' : WPoly P) : Type 0 where
      pub valid : IsWPoly P w'
      pub gone : (g : ℕ) → keep g ≡ false → find g w'.adapter ≡ none
      pub stays :
          (g d : ℕ)
          → keep g ≡ true
          → find g w.adapter ≡ some d
          → (j : ℕ) × (find g w'.adapter ≡ some j)
      pub origin : (g j : ℕ) → find g w'.adapter ≡ some j → (d : ℕ) × (find g w.adapter ≡ some d)
      pub models :
          (ρ ρ' : Valuation)
          → Models P w ρ
          → ((g : ℕ) → keep g ≡ true → ρ' g ≡ ρ g)
          → Models P w' ρ'

    module _ (w : WPoly P) (i : IsWPoly P w) (some_var : 0 < w.next) where
      abbrev victims : List ℕ
      victims = dropped w.adapter

      -- the WPoly that `map_vars` hands to `map_with_dim`
      abbrev partial_w : WPoly P
      partial_w = record w { adapter = kept w.adapter }

      abbrev pub drop : PartialMap
      drop = eliminator P victims w.poly

      pub unique : IsUnique (dims w.adapter)
      unique = dims-IsUnique w.adapter i.adapter.ordered i.adapter.distinct

      in_range : (d : ℕ) → 1 ≤ occ d (dims w.adapter) → d < P.space_dimension w.poly
      in_range d l =
          let (g, f) = dims_owner d w.adapter i.adapter.ordered l in
          omega (arith, i.adapter.bounded g d f, i.dimension)

      renaming : IsRenaming drop (P.space_dimension w.poly)
      renaming =
          eliminator-IsRenaming P victims w.poly
            (λ d. omega (arith, unique d, occ-kept-dropped d w.adapter))
            (All-occ (λ d. d < P.space_dimension w.poly) victims
              (λ d l. in_range d (omega (arith, occ-kept-dropped d w.adapter))))

      find-kept_inv : (g d : ℕ) → find g (kept w.adapter) ≡ some d → find g w.adapter ≡ some d
      find-kept_inv g d e = ground (arith, find-kept g w.adapter i.adapter.ordered)

      kept_range : (g d : ℕ) → find g (kept w.adapter) ≡ some d → d < P.space_dimension w.poly
      kept_range g d e = omega (arith, i.adapter.bounded g d (find-kept_inv g d e), i.dimension)

      -- a dimension that stays is no victim
      kept-maps :
          (d : ℕ) → 1 ≤ occ d (dims (kept w.adapter)) → drop.maps d ≡ some (d - below d victims)
      kept-maps d l =
          ground (arith, eliminator-maps P victims w.poly d, unique d, occ-kept-dropped d w.adapter)

      unmapped_none :
          (m : StdMap ℕ)
          → ((d : ℕ) → 1 ≤ occ d (dims m) → drop.maps d ≡ some (d - below d victims))
          → unmapped drop m ≡ 0
      unfolding unmapped occ dims
      unmapped_none [] h = refl
      unmapped_none ((g, d) ∷ m) h =
          ground (arith, h d (ground arith), unmapped_none m (λ c l. h c (ground arith)))

      abbrev pub restricted : WPoly P
      restricted = moved P drop partial_w

      restricted_result : filter_lambda P keep w ≡ some restricted
      unfolding filter_lambda
      restricted_result =
          rw (map_vars_loop-kept w.adapter [] [] i.adapter.ordered (λ k l. tt))
            (map_with_dim-moved P drop partial_w (omega (arith, i.dimension)))

      find-restricted :
          (g : ℕ)
          → find g restricted.adapter ≡ image drop (if keep g then find g w.adapter else none)
      unfolding moved
      find-restricted g =
          find-map_adapter_dim P drop g (kept w.adapter) (kept-IsMap w.adapter i.adapter.ordered)
          ∙ ap (image drop) (find-kept g w.adapter i.adapter.ordered)

      kept_test : (g d : ℕ) → find g restricted.adapter ≡ some d → keep g ≡ true
      kept_test g d f = ground (arith, find-restricted g)

      restricted-IsWPoly : IsWPoly P restricted
      unfolding eliminator
      restricted-IsWPoly =
          moved-IsWPoly P drop partial_w (kept-IsMap w.adapter i.adapter.ordered)
            (λ g h d e f. i.adapter.distinct g h d (find-kept_inv g d e) (find-kept_inv h d f))
            kept_range renaming (omega (arith, i.dimension))
            (omega (
              arith,
              unmapped_none (kept w.adapter) kept-maps,
              length-kept-dropped w.adapter,
              i.adapter.full,
              i.dimension,
            ))

      -- the valuation that the restricted WPoly must describe
      restricted-Models :
          (ρ ρ' : Valuation)
          → Models P w ρ
          → ((g : ℕ) → keep g ≡ true → ρ' g ≡ ρ g)
          → Models P restricted ρ'
      restricted-Models ρ ρ' (x, c, a) e =
          let (y, there, agree) =
            moved-Models P drop partial_w (kept-IsMap w.adapter i.adapter.ordered) kept_range
              renaming ρ (x, c, λ g d f. a g d (find-kept_inv g d f)) in
          (y, there, λ g d f. agree g d f ∙ sym (e g (kept_test g d f)))

      restricted-stays :
          (g d : ℕ)
          → keep g ≡ true
          → find g w.adapter ≡ some d
          → (j : ℕ) × (find g restricted.adapter ≡ some j)
      restricted-stays g d k f = (
        d - below d victims,
        ground (
          arith,
          find-restricted g,
          kept-maps d (
              occ-dims g d (kept w.adapter)
                (ground (arith, find-kept g w.adapter i.adapter.ordered))),
        ),
      )

      restricted_origin :
          (g j : ℕ) → find g restricted.adapter ≡ some j → (d : ℕ) × (find g w.adapter ≡ some d)
      restricted_origin g j e = elim (Option-cases (find g w.adapter)) [
        | inl o ↦ absurd (ground (arith, find-restricted g))
        | inr x ↦ x
      ]

      pub restricted-IsRestricted : IsRestricted w restricted
      restricted-IsRestricted = record {
        valid = restricted-IsWPoly;
        gone = λ g k. ground (arith, find-restricted g);
        stays = restricted-stays;
        origin = restricted_origin;
        models = restricted-Models;
      }

    -- `filter_lambda` of a valid WPoly that tracks a variable does not abort. The result is valid,
    -- tracks the tracked variables that pass the test and no other, and describes every valuation
    -- that agrees with a described one on the variables that pass.
    pub filter_lambda-IsRestricted :
        (w : WPoly P)
        → IsWPoly P w
        → 0 < w.next
        → (w' : WPoly P) × (filter_lambda P keep w ≡ some w') × IsRestricted w w'
    filter_lambda-IsRestricted w i some_var = (
      restricted w i some_var,
      restricted_result w i some_var,
      restricted-IsRestricted w i some_var,
    )
