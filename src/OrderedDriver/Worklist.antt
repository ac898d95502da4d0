-- ===== src/OrderedDriver/Worklist.antt =====
-- The list and the bit set of an OrderedDriver agree, and its loops end.
use polymalys.Common.{
  ℕ, zero, suc, ◌≤◌, Bool, true, false, Option, none, some, List, [], ◌∷◌, ◌++◌, ◌≡◌, refl,
  if◌then◌else◌, ◌==◌, length, Bool-cases, Option-cases, inl, inr, arith, ◌⊎◌, subst, ◌∙◌,
}
use polymalys.OrderedDriver.{
  Order, Graph, Driver, insert_ordered, place, pop_last, contains, push, pop, next_loop, next,
  push_all,
}

module _ {V : Type 0} (graph : Graph V) where
  -- how often the list has a vertex of that number
  unfoldable pub occurrences : ℕ → List V → ℕ
  occurrences i [] = 0
  occurrences i (x ∷ xs) = if graph.index x == i then suc (occurrences i xs) else occurrences i xs

  -- a vertex is in the list once if its bit is set, and not at all if it is not
  abbrev pub IsWorklist : Driver V → Type 0
  IsWorklist d = (i : ℕ) → occurrences i d.vertices ≡ (if d.bits i then 1 else 0)

  occurrences-insert_ordered :
      (before : V → V → Bool) (v : V) (xs : List V) (i : ℕ)
      → occurrences i (insert_ordered before v xs) ≡ occurrences i (v ∷ xs)
  unfolding occurrences insert_ordered
  occurrences-insert_ordered before v [] i = refl
  occurrences-insert_ordered before v (x ∷ xs) i =
      ground (arith, occurrences-insert_ordered before v xs i)

  occurrences-append :
      (v : V) (xs : List V) (i : ℕ) → occurrences i (xs ++ v ∷ []) ≡ occurrences i (v ∷ xs)
  unfolding occurrences
  occurrences-append v [] i = refl
  occurrences-append v (x ∷ xs) i = ground (arith, occurrences-append v xs i)

  occurrences-place :
      (order : Order V) (v : V) (xs : List V) (i : ℕ)
      → occurrences i (place order v xs) ≡ occurrences i (v ∷ xs)
  unfolding place
  occurrences-place none v xs i = occurrences-append v xs i
  occurrences-place (some before) v xs i = occurrences-insert_ordered before v xs i

  -- `push` keeps the list and the bit set in agreement, in whatever place the order puts the vertex.
  pub push-IsWorklist :
      (order : Order V) (d : Driver V) (v : V) → IsWorklist d → IsWorklist (push graph order d v)
  unfolding push contains occurrences
  push-IsWorklist order d v h i = elim (Bool-cases (contains graph d v)) [
    | inl e ↦ rw (push, e) (h i)
    | inr e ↦ rw (push, e) (ground (arith, e, occurrences-place order v d.vertices i, h i))
  ]

  -- what `pop_last` returns
  Popped : List V → Option (V × List V) → Type 0
  Popped xs none = length xs ≡ 0
  Popped xs (some (v, ys)) =
      (length xs ≡ suc (length ys)) × ((i : ℕ) → occurrences i xs ≡ occurrences i (v ∷ ys))

  Popped-cons :
      (x : V) (xs : List V) (r : Option (V × List V))
      → Popped xs r
      → Popped (x ∷ xs) (elim r [ none ↦ some (x, []) | some (y, ys) ↦ some (y, x ∷ ys) ])
  unfolding Popped occurrences
  Popped-cons x [] none p = (refl, λ i. refl)
  Popped-cons x (z ∷ xs) none p = absurd (ground (arith, p))
  Popped-cons x xs (some (y, ys)) p = (omega (arith, p.0), λ i. ground (arith, p.1 i))

  pop_last-Popped : (xs : List V) → Popped xs (pop_last xs)
  unfolding pop_last Popped
  pop_last-Popped [] = refl
  pop_last-Popped (x ∷ xs) = Popped-cons x xs (pop_last xs) (pop_last-Popped xs)

  -- what `pop` returns
  unfoldable pub HasPopped : Driver V → Option (V × Driver V) → Type 0
  HasPopped d none = length d.vertices ≡ 0
  HasPopped d (some (v, r)) =
      (length d.vertices ≡ suc (length r.vertices))
      × IsWorklist r
      × (r.ended ≡ d.ended)
      × (d.bits (graph.index v) ≡ true)
      × (r.bits (graph.index v) ≡ false)
      × ((i : ℕ) → r.bits i ≡ true → d.bits i ≡ true)

  pub pop-HasPopped : (d : Driver V) → IsWorklist d → HasPopped d (pop graph d)
  unfolding pop HasPopped Popped occurrences
  pop-HasPopped d h = elim (Option-cases (pop_last d.vertices)) [
    | inl e ↦ rw (pop, e) (subst (Popped d.vertices) e (pop_last-Popped d.vertices))
    | inr ((v, vs), e) ↦
        let p = subst (Popped d.vertices) e (pop_last-Popped d.vertices) in
        rw (pop, e)
          (
            p.0,
            λ i. ground (arith, p.1 i, h i),
            refl,
            ground (arith, p.1 (graph.index v), h (graph.index v)),
            ground arith,
            λ i. ground arith,
          )
  ]

  -- what `next` leaves: the end of the work, or a vertex to process that is not the exit
  pub record IsNext (d r : Driver V) : Type 0 where
    pub valid : IsWorklist r
    pub shorter : length r.vertices ≤ length d.vertices
    pub outcome :
        ((r.ended ≡ true) × (length r.vertices ≡ 0))
        ⊎ ((r.ended ≡ d.ended)
            × ((graph.index r.cur == graph.index graph.exit) ≡ false)
            × (suc (length r.vertices) ≤ length d.vertices)
            × (d.bits (graph.index r.cur) ≡ true)
            × (r.bits (graph.index r.cur) ≡ false))

  IsNext-later :
      (d p r : Driver V)
      → length d.vertices ≡ suc (length p.vertices)
      → p.ended ≡ d.ended
      → ((i : ℕ) → p.bits i ≡ true → d.bits i ≡ true)
      → IsNext p r
      → IsNext d r
  IsNext-later d p r l e m n = record {
    valid = n.valid;
    shorter = omega (arith, l, n.shorter);
    outcome = elim n.outcome [
      | inl x ↦ inl x
      | inr (a, b, c, k, o) ↦ inr (a ∙ e, b, omega (arith, l, c), m (graph.index r.cur) k, o)
    ];
  }

  IsNext-ended :
      (d : Driver V) → IsWorklist d → length d.vertices ≡ 0 → IsNext d (record d { ended = true })
  IsNext-ended d h p = record { valid = h; shorter = omega arith; outcome = inl (refl, p) }

  next_loop-IsNext :
      (fuel : ℕ) (d : Driver V)
      → length d.vertices ≤ fuel
      → IsWorklist d
      → (r : Driver V) × (next_loop graph fuel d ≡ some r) × IsNext d r
  unfolding next_loop HasPopped
  next_loop-IsNext zero d l h = elim (Option-cases (pop graph d)) [
    | inl e ↦
        let p = subst (HasPopped d) e (pop-HasPopped d h) in
        (record d { ended = true }, rw (next_loop, e) refl, IsNext-ended d h p)
    | inr (q, e) ↦ let p = subst (HasPopped d) e (pop-HasPopped d h) in absurd (omega (arith, p.0))
  ]
  next_loop-IsNext (suc fuel) d l h = elim (Option-cases (pop graph d)) [
    | inl e ↦
        let p = subst (HasPopped d) e (pop-HasPopped d h) in
        (record d { ended = true }, rw (next_loop, e) refl, IsNext-ended d h p)
    | inr ((v, q), e) ↦
        let p = subst (HasPopped d) e (pop-HasPopped d h) in
        let q' : Driver V = record q { cur = v } in
        elim (Bool-cases (graph.index v == graph.index graph.exit)) [
          | inl b ↦
              let (r, f, n) = next_loop-IsNext fuel q' (omega (arith, p.0)) p.1 in
              (r, rw (next_loop, e, b) f, IsNext-later d q' r p.0 p.2 p.5 n)
          | inr b ↦ (
            q',
            rw (next_loop, e, b) refl,
            record {
              valid = p.1;
              shorter = omega (arith, p.0);
              outcome = inr (p.2, b, omega (arith, p.0), p.3, p.4);
            },
          )
        ]
  ]

  -- `next` ends; it keeps the list and the bit set in agreement, and either the list is used up and
  -- the driver has ended, or the current vertex is one that was to do, is no more, and is not the
  -- exit.
  pub next-IsNext :
      (d : Driver V) → IsWorklist d → (r : Driver V) × (next graph d ≡ some r) × IsNext d r
  unfolding next
  next-IsNext d h = next_loop-IsNext (length d.vertices) d (omega arith) h

  pub push_all-IsWorklist :
      (order : Order V) (d : Driver V) (vs : List V)
      → IsWorklist d
      → IsWorklist (push_all graph order d vs)
  unfolding push_all
  push_all-IsWorklist order d [] h = h
  push_all-IsWorklist order d (v ∷ vs) h =
      push_all-IsWorklist order (push graph order d v) vs (push-IsWorklist order d v h)
