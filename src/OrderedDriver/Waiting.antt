-- ===== src/OrderedDriver/Waiting.antt =====
-- The loop `while (driver) { ... driver.check(...); ... driver.next(); }` over an OrderedDriver of
-- include/OrderedDriver.h, for any client: which edges it checks in a round, and with which states,
-- is an argument. No change of a state is lost.
use polymalys.Common.{
  ◌≤◌, Bool, true, false, Option, none, some, List, [], ◌∷◌, ◌≡◌, ◌⊎◌, refl, sym, ap, ◌∙◌, subst,
  if◌then◌else◌, ◌==◌, length, Bool-cases, inl, inr, arith, All, ==_iff,
}
use polymalys.OrderedDriver.{Order, Graph, Driver, push, next, check, start}
use polymalys.OrderedDriver.Worklist.{IsWorklist, IsNext, occurrences, push-IsWorklist, next-IsNext}
use polymalys.OrderedDriver.Follows.{
  On, IsExit, Follows, push-On, push-keeps, push-ended, empty_off, next-Follows, start-IsNext,
  filled, filled-ended,
}

-- the states of the edges, those that the sinks have seen when they were last the current vertex, and
-- the driver
pub record Run (V E T : Type 0) : Type 0 where
  pub store : E → T
  pub seen : E → T
  pub driver : Driver V

-- what a client of the driver brings: the edges, the comparison of states and the store, which keeps
-- the states of the other edges
pub record Client (V E T : Type 0) : Type 0 where
  pub sink_of : E → V
  pub equals : T → T → Bool
  pub set : E → T → (E → T) → E → T
  pub set_other : (e f : E) (s : T) (store : E → T) → (e ≡ f) ⊎ (set e s store f ≡ store f)

module _ {V E T : Type 0} (graph : Graph V) (order : Order V) (c : Client V E T) where
  abbrev checked : (E → T) × Driver V → E → T → (E → T) × Driver V
  checked st e s = check graph c.sink_of c.equals c.set order st e s

  unfoldable pub checks : List (E × T) → (E → T) × Driver V → (E → T) × Driver V
  unfolding check
  checks [] st = st
  checks ((e, s) ∷ cs) st = checks cs (checked st e s)

  -- the current vertex sees the edges that enter it
  abbrev pub look : Run V E T → E → T
  look r f = if graph.index r.driver.cur == graph.index (c.sink_of f) then r.store f else r.seen f

  -- one round: the checks of the current vertex's processing, and the next vertex
  unfoldable pub round : List (E × T) → Run V E T → Option (Run V E T)
  unfolding checks next
  round cs r =
      let st = checks cs (r.store, r.driver) in
      elim (next graph st.1) [
        | none ↦ none
        | some d ↦ some (record { store = st.0; seen = look r; driver = d })
      ]

  unfoldable pub run : List (List (E × T)) → Run V E T → Option (Run V E T)
  unfolding round
  run [] r = some r
  run (cs ∷ rs) r =
      if r.driver.ended then some r else elim (round cs r) [ none ↦ none | some q ↦ run rs q ]

  -- the sink of an edge has seen its state, or is to do, current, or the exit
  abbrev pub Waits : Run V E T → Type 0
  Waits r = (f : E) → (r.store f ≡ r.seen f) ⊎ Follows graph r.driver (c.sink_of f)

  -- the same while the current vertex is processed
  abbrev Looked : (E → T) → (E → T) × Driver V → Type 0
  Looked seen st =
      (f : E) → (st.0 f ≡ seen f) ⊎ (On graph st.1 (c.sink_of f) ⊎ IsExit graph (c.sink_of f))

  look-Looked : (r : Run V E T) → Waits r → Looked (look r) (r.store, r.driver)
  look-Looked r h f = elim (Bool-cases (graph.index r.driver.cur == graph.index (c.sink_of f))) [
    | inl k ↦ inl (rw k refl)
    | inr k ↦ elim (h f) [
      | inl e ↦ inl (rw k e)
      | inr (inl o) ↦ inr (inl o)
      | inr (inr (inl (n, q))) ↦ absurd (ground (arith, k, q))
      | inr (inr (inr x)) ↦ inr (inr x)
    ]
  ]

  -- a check keeps what the rounds need
  record IsChecked (seen : E → T) (d : Driver V) (st : (E → T) × Driver V) : Type 0 where
    worklist : IsWorklist graph st.1
    ended : st.1.ended ≡ d.ended
    looked : Looked seen st

  checked-IsChecked :
      (seen : E → T) (d : Driver V) (st : (E → T) × Driver V) (e : E) (s : T)
      → IsChecked seen d st
      → IsChecked seen d (checked st e s)
  unfolding check
  checked-IsChecked seen d st e s h = elim (Bool-cases (c.equals s (st.0 e))) [
    | inl q ↦ rw (check, q) h
    | inr q ↦
        rw (check, q)
          (record {
            worklist = push-IsWorklist graph order st.1 (c.sink_of e) h.worklist;
            ended = push-ended graph order st.1 (c.sink_of e) ∙ h.ended;
            looked = λ f. elim (c.set_other e f s st.0) [
              | inl x ↦ inr (
                  inl (
                    subst (λ g. On graph (push graph order st.1 (c.sink_of e)) (c.sink_of g)) x
                      (push-On graph order st.1 (c.sink_of e))))
              | inr x ↦ elim (h.looked f) [
                | inl y ↦ inl (x ∙ y)
                | inr (inl o) ↦
                    inr (inl (push-keeps graph order st.1 (c.sink_of e) (c.sink_of f) o))
                | inr (inr y) ↦ inr (inr y)
              ]
            ];
          })
  ]

  checks-IsChecked :
      (seen : E → T) (d : Driver V) (cs : List (E × T)) (st : (E → T) × Driver V)
      → IsChecked seen d st
      → IsChecked seen d (checks cs st)
  unfolding checks
  checks-IsChecked seen d [] st h = h
  checks-IsChecked seen d ((e, s) ∷ cs) st h =
      checks-IsChecked seen d cs (checked st e s) (checked-IsChecked seen d st e s h)

  -- the invariant of the loop
  pub record IsRun (r : Run V E T) : Type 0 where
    pub worklist : IsWorklist graph r.driver
    pub quiet : r.driver.ended ≡ true → length r.driver.vertices ≡ 0
    pub waits : Waits r

  pub quiet_next :
      (d r : Driver V) → d.ended ≡ false → IsNext graph d r → r.ended ≡ true → length r.vertices ≡ 0
  quiet_next d r n h e = elim h.outcome [ inl x ↦ x.1 | inr x ↦ absurd (ground (arith, e, x.0, n)) ]

  -- the end of a round
  next-IsRun :
      (seen store : E → T) (d d' : Driver V)
      → d.ended ≡ false
      → IsWorklist graph d
      → Looked seen (store, d)
      → next graph d ≡ some d'
      → IsNext graph d d'
      → IsRun (record { store = store; seen = seen; driver = d' })
  next-IsRun seen store d d' n w l e h = record {
    worklist = h.valid;
    quiet = quiet_next d d' n h;
    waits = λ f. elim (l f) [
      | inl x ↦ inl x
      | inr (inl o) ↦ inr (next-Follows graph d d' (c.sink_of f) w n e o)
      | inr (inr x) ↦ inr (inr (inr x))
    ];
  }

  pub round-IsRun :
      (cs : List (E × T)) (r : Run V E T)
      → r.driver.ended ≡ false
      → IsRun r
      → (q : Run V E T) × (round cs r ≡ some q)
        × IsRun q
        × IsNext graph (checks cs (r.store, r.driver)).1 q.driver
  unfolding round
  round-IsRun cs r n h =
      let st = checks cs (r.store, r.driver) in
      let k =
        checks-IsChecked (look r) r.driver cs (r.store, r.driver)
          (record { worklist = h.worklist; ended = refl; looked = look-Looked r h.waits }) in
      let (d, e, x) = next-IsNext graph st.1 k.worklist in
      (
        record { store = st.0; seen = look r; driver = d },
        rw (round, e) refl,
        next-IsRun (look r) st.0 st.1 d (k.ended ∙ n) k.worklist k.looked e x,
        x,
      )

  pub run_ended :
      (cs : List (E × T)) (rs : List (List (E × T))) (r : Run V E T)
      → r.driver.ended ≡ true
      → run (cs ∷ rs) r ≡ some r
  unfolding run
  run_ended cs rs r e = rw (run, e) refl

  pub run-round :
      (cs : List (E × T)) (rs : List (List (E × T))) (r q : Run V E T)
      → r.driver.ended ≡ false
      → round cs r ≡ some q
      → run (cs ∷ rs) r ≡ run rs q
  unfolding run
  run-round cs rs r q n e =
      let go : Option (Run V E T) → Option (Run V E T) =
        λ o. elim o [ none ↦ none | some u ↦ run rs u ] in
      subst (λ b. (if b then some r else go (round cs r)) ≡ run rs q) (sym n) (ap go e)

  pub run-IsRun :
      (rs : List (List (E × T))) (r : Run V E T)
      → IsRun r
      → (q : Run V E T) × (run rs r ≡ some q) × IsRun q
  unfolding run
  run-IsRun [] r h = (r, refl, h)
  run-IsRun (cs ∷ rs) r h = elim (Bool-cases r.driver.ended) [
    | inl e ↦ (r, run_ended cs rs r e, h)
    | inr n ↦
        let (q, e, k, x) = round-IsRun cs r n h in
        let (z, f, g) = run-IsRun rs q k in (z, run-round cs rs r q n e ∙ f, g)
  ]

  settled :
      (q : Run V E T) (f : E)
      → IsRun q
      → q.driver.ended ≡ true
      → (q.store f ≡ q.seen f) ⊎ IsExit graph (c.sink_of f)
  settled q f h e = elim (h.waits f) [
    | inl x ↦ inl x
    | inr (inl o) ↦ absurd (empty_off graph q.driver (c.sink_of f) h.worklist (h.quiet e) o)
    | inr (inr (inl x)) ↦ absurd (ground (arith, x.0, e))
    | inr (inr (inr x)) ↦ inr x
  ]

  -- a vertex among others follows where they all do
  Follows-among :
      (d : Driver V) (v : V) (vs : List V)
      → All (Follows graph d) vs
      → 1 ≤ occurrences graph (graph.index v) vs
      → Follows graph d v
  unfolding occurrences
  Follows-among d v [] h l = absurd (ground (arith, l))
  Follows-among d v (w ∷ vs) h l = elim (Bool-cases (graph.index w == graph.index v)) [
    | inl k ↦
        subst
          (λ i.
            (d.bits i ≡ true)
            ⊎ (((d.ended ≡ false) × ((graph.index d.cur == i) ≡ true))
                ⊎ ((i == graph.index graph.exit) ≡ true)))
          ((==_iff (graph.index w) (graph.index v)).0 k) h.0
    | inr k ↦ Follows-among d v vs h.1 (rw k at l)
  ]

  -- The constructor and any rounds of a client of the driver succeed, whatever edges the rounds check and
  -- with whatever states; at the start only edges into successors of the entry hold a state that
  -- their sink has not seen. Afterwards the list and the bit set agree, and each edge holds the
  -- state that its sink saw when it was the current vertex last, or the sink is to do, current, or
  -- the exit. Once the driver has ended, each edge that does not enter the exit holds the state that its
  -- sink saw last.
  pub run-Waits :
      (rs : List (List (E × T))) (store seen : E → T)
      → ((f : E)
          → (store f ≡ seen f)
            ⊎ (1 ≤ occurrences graph (graph.index (c.sink_of f)) (graph.sinks graph.entry)))
      → (d : Driver V) × (q : Run V E T) × (start graph order ≡ some d)
        × (run rs (record { store = store; seen = seen; driver = d }) ≡ some q)
        × IsWorklist graph q.driver
        × Waits q
        × (q.driver.ended ≡ true → (f : E) → (q.store f ≡ q.seen f) ⊎ IsExit graph (c.sink_of f))
  run-Waits rs store seen h =
      let (d, e, n, a) = start-IsNext graph order in
      let (q, f, k) =
        run-IsRun rs (record { store = store; seen = seen; driver = d })
          (record {
            worklist = n.valid;
            quiet = quiet_next (filled graph order) d (filled-ended graph order) n;
            waits = λ f. elim (h f) [
              | inl x ↦ inl x
              | inr x ↦ inr (Follows-among d (c.sink_of f) (graph.sinks graph.entry) a x)
            ];
          }) in
      (d, q, e, f, k.worklist, k.waits, λ x g. settled q g k x)
