-- ===== src/Tests/Driver.antt =====
-- The to-do list of the driver on a small graph.
use polymalys.Common.{
  List, zero, suc, length, ◌+◌, true, Bool-cases, inl, inr, ◌⊎◌, ◌≤◌, ◌==◌, ==_iff, if◌then◌else◌,
  arith, ℕ, false, some, [], ◌∷◌, ◌≡◌, refl, ltb, All,
}
use polymalys.OrderedDriver.{Order, Graph, Driver, push, next, start}
use polymalys.OrderedDriver.Worklist.{occurrences, IsWorklist, IsNext, push-IsWorklist, next-IsNext}
use polymalys.OrderedDriver.Follows.{Follows, IsExit, start-IsWorklist}
use polymalys.OrderedDriver.Waiting.{Run, Client, Waits, run, run-Waits}
use polymalys.OrderedDriver.Ends.{run_changes, run-Ends}

-- the entry 0 leads to 1, 2 and the exit 3
abbrev diamond : Graph ℕ
diamond = record { index = λ v. v; sinks = λ v. 1 ∷ 2 ∷ 1 ∷ 3 ∷ []; entry = 0; exit = 3 }

abbrev later_first : Order ℕ
later_first = some (λ a b. ltb b a)

abbrev idle : Driver ℕ
idle = record { vertices = []; bits = λ i. false; cur = 0; ended = false }

idle-IsWorklist : IsWorklist diamond idle
unfolding occurrences
idle-IsWorklist i = refl

abbrev busy : Driver ℕ
busy = push diamond later_first (push diamond later_first idle 3) 2

busy_run : busy.vertices ≡ 2 ∷ 3 ∷ []
unfolding push
busy_run = refl

busy-IsWorklist : IsWorklist diamond busy
busy-IsWorklist =
    push-IsWorklist diamond later_first (push diamond later_first idle 3) 2
      (push-IsWorklist diamond later_first idle 3 idle-IsWorklist)

push-IsWorklist_example : IsWorklist diamond (push diamond later_first busy 1)
push-IsWorklist_example = push-IsWorklist diamond later_first busy 1 busy-IsWorklist

next-IsNext_example : (r : Driver ℕ) × (next diamond busy ≡ some r) × IsNext diamond busy r
next-IsNext_example = next-IsNext diamond busy busy-IsWorklist

start-IsWorklist_example :
    (r : Driver ℕ) × (start diamond later_first ≡ some r)
    × IsWorklist diamond r
    × All (Follows diamond r) (1 ∷ 2 ∷ 1 ∷ 3 ∷ [])
start-IsWorklist_example = start-IsWorklist diamond later_first

-- the edge 0 enters vertex 1, and the others vertex 2
abbrev sink_of : ℕ → ℕ
sink_of zero = 1
sink_of (suc e) = 2

abbrev set : ℕ → ℕ → (ℕ → ℕ) → ℕ → ℕ
set e s store f = if e == f then s else store f

set_other : (e f s : ℕ) (store : ℕ → ℕ) → (e ≡ f) ⊎ (set e s store f ≡ store f)
set_other e f s store = elim (Bool-cases (e == f)) [
  | inl k ↦ inl ((==_iff e f).0 k)
  | inr k ↦ inr (rw k refl)
]

abbrev client : Client ℕ ℕ ℕ
client = record { sink_of = sink_of; equals = ◌==◌; set = set; set_other = set_other }

abbrev at_entry : ℕ → ℕ
at_entry zero = 7
at_entry (suc f) = 0

abbrev nothing_seen : ℕ → ℕ
nothing_seen f = 0

-- the first round changes the state of the edge 1, and the second one finds it unchanged
abbrev rounds : List (List (ℕ × ℕ))
rounds = ((1, 5) ∷ []) ∷ ((1, 5) ∷ []) ∷ [] ∷ [] ∷ [] ∷ []

entry_waits :
    (f : ℕ)
    → (at_entry f ≡ nothing_seen f) ⊎ (1 ≤ occurrences diamond (sink_of f) (1 ∷ 2 ∷ 1 ∷ 3 ∷ []))
unfolding occurrences
entry_waits zero = inr (omega arith)
entry_waits (suc f) = inl refl

run-Waits_example :
    (d : Driver ℕ) × (q : Run ℕ ℕ ℕ) × (start diamond later_first ≡ some d)
    × (run diamond later_first client rounds
          (record { store = at_entry; seen = nothing_seen; driver = d })
        ≡ some q)
    × IsWorklist diamond q.driver
    × Waits diamond later_first client q
    × (q.driver.ended ≡ true → (f : ℕ) → (q.store f ≡ q.seen f) ⊎ IsExit diamond (sink_of f))
run-Waits_example = run-Waits diamond later_first client rounds at_entry nothing_seen entry_waits

-- the driver after the constructor: the exit 3 was passed over, 2 is current, and 1 is to do
abbrev started : Driver ℕ
started = record {
  vertices = 1 ∷ [];
  bits = λ i.
      if 2 == i
      then false
      else if 3 == i
      then false
      else if 3 == i
      then true
      else if 2 == i
      then true
      else if 1 == i
      then true
      else false;
  cur = 2;
  ended = false;
}

started_lem : start diamond later_first ≡ some started
unfolding start
started_lem = refl

abbrev first_run : Run ℕ ℕ ℕ
first_run = record { store = at_entry; seen = at_entry; driver = started }

enough_rounds :
    length (diamond.sinks 0) + run_changes diamond later_first client rounds first_run
    ≤ length rounds
unfolding run_changes
enough_rounds = omega arith

run-Ends_example :
    (q : Run ℕ ℕ ℕ) × (run diamond later_first client rounds first_run ≡ some q)
    × (q.driver.ended ≡ true)
run-Ends_example =
    run-Ends diamond later_first client rounds at_entry started started_lem enough_rounds
