-- ===== src/OrderedDriver/Ends.antt =====
-- What makes the loop over an OrderedDriver of include/OrderedDriver.h end: each round takes a vertex
-- from the list, and only a check that changes a state puts one in.
use polymalys.Common.{
  ℕ, suc, ◌+◌, ◌≤◌, Bool, true, false, Option, none, some, some-injective, List, [], ◌∷◌, ◌≡◌, ◌⊎◌,
  refl, sym, ap, ◌∙◌, subst, if◌then◌else◌, length, length-append, Bool-cases, inl, inr, arith,
}
use polymalys.OrderedDriver.{
  Order, Graph, Driver, insert_ordered, place, contains, push, push_all, check, start,
}
use polymalys.OrderedDriver.Worklist.{IsNext}
use polymalys.OrderedDriver.Follows.{start-IsNext, filled, filled-ended}
use polymalys.OrderedDriver.Waiting.{
  Run, Client, IsRun, checks, round, run, run_ended, run-round, round-IsRun, quiet_next, run-IsRun,
}

length-insert_ordered :
    {V : Type 0} (before : V → V → Bool) (v : V) (xs : List V)
    → length (insert_ordered before v xs) ≡ suc (length xs)
unfolding insert_ordered
length-insert_ordered before v [] = refl
length-insert_ordered before v (x ∷ xs) = ground (arith, length-insert_ordered before v xs)

length-place :
    {V : Type 0} (v : V) (xs : List V) (o : Order V) → length (place o v xs) ≡ suc (length xs)
unfolding place
length-place v xs none = omega (arith, length-append xs (v ∷ []))
length-place v xs (some before) = length-insert_ordered before v xs

module _ {V : Type 0} (graph : Graph V) (order : Order V) where
  length-push :
      (d : Driver V) (v : V) → length (push graph order d v).vertices ≤ suc (length d.vertices)
  unfolding push
  length-push d v = elim (Bool-cases (contains graph d v)) [
    | inl k ↦ rw (push, k) (omega arith)
    | inr k ↦ rw (push, k) (omega (arith, length-place v d.vertices order))
  ]

  length-push_all :
      (d : Driver V) (vs : List V)
      → length (push_all graph order d vs).vertices ≤ length d.vertices + length vs
  unfolding push_all
  length-push_all d [] = omega arith
  length-push_all d (v ∷ vs) =
      omega (arith, length-push_all (push graph order d v) vs, length-push d v)

  length-filled : length (filled graph order).vertices ≤ length (graph.sinks graph.entry)
  length-filled = omega (arith, length-push_all _ (graph.sinks graph.entry))

  -- the next vertex was taken from the list, where the driver does not end
  next_shorter :
      (d r : Driver V)
      → IsNext graph d r
      → (r.ended ≡ true) ⊎ (suc (length r.vertices) ≤ length d.vertices)
  next_shorter d r h = elim h.outcome [ inl x ↦ inl x.0 | inr x ↦ inr x.2 ]

module _ {V E T : Type 0} (graph : Graph V) (order : Order V) (c : Client V E T) where
  abbrev checked : (E → T) × Driver V → E → T → (E → T) × Driver V
  checked st e s = check graph c.sink_of c.equals c.set order st e s

  -- the checks that change a state
  unfoldable pub changes : List (E × T) → (E → T) × Driver V → ℕ
  unfolding check
  changes [] st = 0
  changes ((e, s) ∷ cs) st = (if c.equals s (st.0 e) then 0 else 1) + changes cs (checked st e s)

  length-checked :
      (st : (E → T) × Driver V) (e : E) (s : T)
      → length (checked st e s).1.vertices
        ≤ length st.1.vertices + (if c.equals s (st.0 e) then 0 else 1)
  unfolding check
  length-checked st e s = elim (Bool-cases (c.equals s (st.0 e))) [
    | inl q ↦ rw (check, q) (omega arith)
    | inr q ↦ rw (check, q) (omega (arith, length-push graph order st.1 (c.sink_of e)))
  ]

  length-checks :
      (cs : List (E × T)) (st : (E → T) × Driver V)
      → length (checks graph order c cs st).1.vertices ≤ length st.1.vertices + changes cs st
  unfolding checks changes
  length-checks [] st = omega arith
  length-checks ((e, s) ∷ cs) st =
      omega (arith, length-checks cs (checked st e s), length-checked st e s)

  -- the checks of the rounds that change a state
  unfoldable pub run_changes : List (List (E × T)) → Run V E T → ℕ
  unfolding changes round
  run_changes [] r = 0
  run_changes (cs ∷ rs) r =
      if r.driver.ended
      then 0
      else changes cs (r.store, r.driver)
        + (elim (round graph order c cs r) [ none ↦ 0 | some q ↦ run_changes rs q ])

  run_changes-round :
      (cs : List (E × T)) (rs : List (List (E × T))) (r q : Run V E T)
      → r.driver.ended ≡ false
      → round graph order c cs r ≡ some q
      → run_changes (cs ∷ rs) r ≡ changes cs (r.store, r.driver) + run_changes rs q
  unfolding run_changes
  run_changes-round cs rs r q n e =
      let k = changes cs (r.store, r.driver) in
      let go : Option (Run V E T) → ℕ =
        λ o. k + (elim o [ none ↦ 0 | some u ↦ run_changes rs u ]) in
      subst (λ b. (if b then 0 else go (round graph order c cs r)) ≡ k + run_changes rs q) (sym n)
        (ap go e)

  stays :
      (rs : List (List (E × T))) (r q : Run V E T)
      → r.driver.ended ≡ true
      → run graph order c rs r ≡ some q
      → q.driver.ended ≡ true
  unfolding run
  stays [] r q z e = subst (λ (t : Run V E T). t.driver.ended ≡ true) (some-injective r q e) z
  stays (cs ∷ rs) r q z e =
      subst (λ (t : Run V E T). t.driver.ended ≡ true)
        (some-injective r q (sym (run_ended graph order c cs rs r z) ∙ e)) z

  -- every round that does not end the driver takes away one vertex more than it puts in
  run-shorter :
      (rs : List (List (E × T))) (r q : Run V E T)
      → IsRun graph order c r
      → run graph order c rs r ≡ some q
      → (q.driver.ended ≡ true)
        ⊎ (length rs + length q.driver.vertices ≤ length r.driver.vertices + run_changes rs r)
  unfolding run run_changes
  run-shorter [] r q h e = inr (
      subst (λ (t : Run V E T). 0 + length t.driver.vertices ≤ length r.driver.vertices + 0)
        (some-injective r q e) (omega arith))
  run-shorter (cs ∷ rs) r q h e = elim (Bool-cases r.driver.ended) [
    | inl z ↦ inl (
        subst (λ (t : Run V E T). t.driver.ended ≡ true)
          (some-injective r q (sym (run_ended graph order c cs rs r z) ∙ e)) z)
    | inr n ↦
        let (u, f, k, x) = round-IsRun graph order c cs r n h in
        elim (next_shorter graph order (checks graph order c cs (r.store, r.driver)).1 u.driver x) [
          | inl z ↦ inl (stays rs u q z (sym (run-round graph order c cs rs r u n f) ∙ e))
          | inr l ↦ elim (run-shorter rs u q k (sym (run-round graph order c cs rs r u n f) ∙ e)) [
            | inl z ↦ inl z
            | inr m ↦ inr (
                omega (
                  arith,
                  l,
                  m,
                  length-checks cs (r.store, r.driver),
                  run_changes-round cs rs r u n f,
                ))
          ]
        ]
  ]

  -- The loop of any client of the driver ends: from the constructor on, it has ended after as many rounds
  -- as the entry has successors and the checks of the rounds change states, whatever edges they check
  -- and with whatever states.
  pub run-Ends :
      (rs : List (List (E × T))) (store : E → T) (d : Driver V)
      → start graph order ≡ some d
      → length (graph.sinks graph.entry)
          + run_changes rs (record { store = store; seen = store; driver = d })
        ≤ length rs
      → (q : Run V E T) × (run graph order c rs (record { store = store; seen = store; driver = d })
          ≡ some q)
        × (q.driver.ended ≡ true)
  run-Ends rs store d s l =
      let (d', e, n, a) = start-IsNext graph order in
      let same : d' ≡ d = some-injective d' d (sym e ∙ s) in
      let x : IsNext graph (filled graph order) d =
        subst (IsNext graph (filled graph order)) same n in
      let r : Run V E T = record { store = store; seen = store; driver = d } in
      let h : IsRun graph order c r = record {
        worklist = x.valid;
        quiet = quiet_next graph order c (filled graph order) d (filled-ended graph order) x;
        waits = λ f. inl refl;
      } in
      let (q, f, k) = run-IsRun graph order c rs r h in
      (
        q,
        f,
        elim (next_shorter graph order (filled graph order) d x) [
          | inl z ↦ stays rs r q z f
          | inr m ↦ elim (run-shorter rs r q h f) [
            | inl z ↦ z
            | inr y ↦ absurd (omega (arith, l, m, y, length-filled graph order))
          ]
        ],
      )
