-- ===== src/OrderedDriver/Follows.antt =====
-- A vertex that was to do is not lost by the operations of an OrderedDriver.
use polymalys.Common.{
  some-injective, ℕ, zero, suc, true, false, some, List, [], ◌∷◌, ◌≡◌, refl, ◌∙◌, subst, ◌==◌,
  Bool-cases, Option-cases, inl, inr, arith, ◌⊎◌, length, All,
}
use polymalys.OrderedDriver.{
  Order, Graph, Driver, contains, push, push_all, pop, next_loop, next, start,
}
use polymalys.OrderedDriver.Worklist.{
  IsNext, IsWorklist, occurrences, HasPopped, pop-HasPopped, push_all-IsWorklist, next-IsNext,
}

module _ {V : Type 0} (graph : Graph V) where
  -- the vertex is to do
  abbrev pub On : Driver V → V → Type 0
  On d v = d.bits (graph.index v) ≡ true

  abbrev pub IsExit : V → Type 0
  IsExit v = (graph.index v == graph.index graph.exit) ≡ true

  -- the vertex is to do, is the current one, or is the exit
  abbrev pub Follows : Driver V → V → Type 0
  Follows r v =
      On r v ⊎ (((r.ended ≡ false) × ((graph.index r.cur == graph.index v) ≡ true)) ⊎ IsExit v)

  pub push-On : (order : Order V) (d : Driver V) (v : V) → On (push graph order d v) v
  unfolding push contains
  push-On order d v = elim (Bool-cases (contains graph d v)) [
    | inl e ↦ rw (push, e) e
    | inr e ↦ rw (push, e) (ground arith)
  ]

  pub push-keeps : (order : Order V) (d : Driver V) (w v : V) → On d v → On (push graph order d w) v
  unfolding push contains
  push-keeps order d w v h = elim (Bool-cases (contains graph d w)) [
    | inl e ↦ rw (push, e) h
    | inr e ↦ rw (push, e) (ground arith)
  ]

  pub push-ended : (order : Order V) (d : Driver V) (w : V) → (push graph order d w).ended ≡ d.ended
  unfolding push contains
  push-ended order d w = ground arith

  push_all-keeps :
      (order : Order V) (d : Driver V) (vs : List V) (v : V)
      → On d v
      → On (push_all graph order d vs) v
  unfolding push_all
  push_all-keeps order d [] v h = h
  push_all-keeps order d (w ∷ vs) v h =
      push_all-keeps order (push graph order d w) vs v (push-keeps order d w v h)

  push_all-On :
      (order : Order V) (d : Driver V) (vs : List V) → All (On (push_all graph order d vs)) vs
  unfolding push_all
  push_all-On order d [] = tt
  push_all-On order d (v ∷ vs) = (
    push_all-keeps order (push graph order d v) vs v (push-On order d v),
    push_all-On order (push graph order d v) vs,
  )

  push_all-ended :
      (order : Order V) (d : Driver V) (vs : List V) → (push_all graph order d vs).ended ≡ d.ended
  unfolding push_all
  push_all-ended order d [] = refl
  push_all-ended order d (v ∷ vs) =
      push_all-ended order (push graph order d v) vs ∙ push-ended order d v

  pop_bits :
      (d : Driver V) (u v : V) (r : Driver V)
      → pop graph d ≡ some (u, r)
      → On d v
      → On r v ⊎ ((graph.index u == graph.index v) ≡ true)
  unfolding pop
  pop_bits d u v r e h = elim (Bool-cases (graph.index u == graph.index v)) [
    | inl q ↦ inr q
    | inr q ↦ inl (ground (arith, e))
  ]

  occurrences_empty : (k : ℕ) (xs : List V) → length xs ≡ 0 → occurrences graph k xs ≡ 0
  unfolding occurrences
  occurrences_empty k [] e = refl
  occurrences_empty k (x ∷ xs) e = absurd (ground (arith, e))

  pub empty_off : (d : Driver V) (v : V) → IsWorklist graph d → length d.vertices ≡ 0 → ¬ (On d v)
  empty_off d v w e h =
      ground (arith, w (graph.index v), occurrences_empty (graph.index v) d.vertices e, h)

  -- the vertex that was popped is the current one, where it is not the exit
  stopped :
      (d : Driver V) (u v : V) (q : Driver V)
      → d.ended ≡ false
      → q.ended ≡ d.ended
      → On q v ⊎ ((graph.index u == graph.index v) ≡ true)
      → Follows (record q { cur = u }) v
  stopped d u v q n e (inl o) = inl o
  stopped d u v q n e (inr x) = inr (inl (e ∙ n, x))

  next_loop-Follows :
      (fuel : ℕ) (d r : Driver V) (v : V)
      → IsWorklist graph d
      → d.ended ≡ false
      → next_loop graph fuel d ≡ some r
      → On d v
      → Follows r v
  unfolding next_loop HasPopped
  next_loop-Follows zero d r v w n e h = elim (Option-cases (pop graph d)) [
    | inl q ↦ absurd (empty_off d v w (subst (HasPopped graph d) q (pop-HasPopped graph d w)) h)
    | inr (x, q) ↦ absurd (ground (arith, q, e))
  ]
  next_loop-Follows (suc fuel) d r v w n e h = elim (Option-cases (pop graph d)) [
    | inl q ↦ absurd (empty_off d v w (subst (HasPopped graph d) q (pop-HasPopped graph d w)) h)
    | inr ((u, d'), q) ↦
        let l = subst (HasPopped graph d) q (pop-HasPopped graph d w) in
        let d'' : Driver V = record d' { cur = u } in
        let went = pop_bits d u v d' q h in
        elim (Bool-cases (graph.index u == graph.index graph.exit)) [
          | inl b ↦ elim went [
            | inl o ↦ next_loop-Follows fuel d'' r v l.1 (l.2 ∙ n) (rw (next_loop, q, b) at e) o
            | inr x ↦ inr (inr (ground (arith, x, b)))
          ]
          | inr b ↦
              subst (λ t. Follows t v) (some-injective d'' r (rw (next_loop, q, b) at e))
                (stopped d u v d' n l.2 went)
        ]
  ]

  -- `next` loses no vertex that was to do
  pub next-Follows :
      (d r : Driver V) (v : V)
      → IsWorklist graph d
      → d.ended ≡ false
      → next graph d ≡ some r
      → On d v
      → Follows r v
  unfolding next
  next-Follows d r v w n e h = next_loop-Follows (length d.vertices) d r v w n e h

  next-All-Follows :
      (d r : Driver V) (vs : List V)
      → IsWorklist graph d
      → d.ended ≡ false
      → next graph d ≡ some r
      → All (On d) vs
      → All (Follows r) vs
  next-All-Follows d r [] w n e h = tt
  next-All-Follows d r (v ∷ vs) w n e h =
      (next-Follows d r v w n e h.0, next-All-Follows d r vs w n e h.1)

  abbrev empty : Driver V
  empty = record { vertices = []; bits = λ i. false; cur = graph.entry; ended = false }

  -- the driver in the constructor before the first vertex is taken
  abbrev pub filled : Order V → Driver V
  filled order = push_all graph order empty (graph.sinks graph.entry)

  filled-IsWorklist : (order : Order V) → IsWorklist graph (filled order)
  unfolding occurrences
  filled-IsWorklist order =
      push_all-IsWorklist graph order empty (graph.sinks graph.entry) (λ i. refl)

  pub filled-ended : (order : Order V) → (filled order).ended ≡ false
  filled-ended order = push_all-ended order empty (graph.sinks graph.entry)

  pub start-IsNext :
      (order : Order V)
      → (r : Driver V) × (start graph order ≡ some r)
        × IsNext graph (filled order) r
        × All (Follows r) (graph.sinks graph.entry)
  unfolding start
  start-IsNext order =
      let (r, e, n) = next-IsNext graph (filled order) (filled-IsWorklist order) in
      (
        r,
        e,
        n,
        next-All-Follows (filled order) r (graph.sinks graph.entry) (filled-IsWorklist order)
            (filled-ended order) e (push_all-On order empty (graph.sinks graph.entry)),
      )

  -- The constructor ends with the list and the bit set in agreement. Every successor of the entry is
  -- then to do, is the current vertex of a driver that has not ended, or is the exit.
  pub start-IsWorklist :
      (order : Order V)
      → (r : Driver V) × (start graph order ≡ some r)
        × IsWorklist graph r
        × All (Follows r) (graph.sinks graph.entry)
  start-IsWorklist order = let (r, e, n, f) = start-IsNext order in (r, e, n.valid, f)
