-- ===== src/BranchConditionner/Exported.antt =====
-- The file of conditions against the sequence of the branches that were recorded.
use polymalys.Common.{
  ℕ, zero, suc, ◌+◌, Bool, true, false, ◌&&◌, Option, none, some, List, [], ◌∷◌, ◌++◌, ◌≡◌, ◌≢◌,
  refl, ap, subst, ◌∙◌, arith, if◌then◌else◌, All, ◌==◌, length, get_elem?, length-append,
  Bool-cases, inl, inr,
}
use polymalys.Common.Int.{ℤ, pos, negsuc, eqb_ℤ, eqb_ℤ_iff}
use polymalys.Common.StdMap.{StdMap, find, put, find-put, find-has, length-put}
use polymalys.BranchConditionner.{
  option_lines, Conditional, OrderedConditional, outside, of_loop, add_element, Branching,
  no_branching, replace_branch, loop_key, Conditionals, no_conditionals, record_conditional,
  element_lines, export_from, export_ordered_constraints,
}

-- A branch that was recorded: the current loop then, and the conditional.
abbrev pub Event : Type 0
Event = ℤ × Conditional

-- the state after the events, the newest first
unfoldable pub run : List Event → Conditionals
run [] = no_conditionals
run ((l, c) ∷ older) = record_conditional l c (run older)

abbrev pub eqb : Bool → Bool → Bool
eqb true b = b
eqb false true = false
eqb false false = true

-- The last conditional of a loop in one direction.
unfoldable pub last : ℤ → Bool → List Event → Option Conditional
last l taken [] = none
last l taken ((k, c) ∷ older) =
    if eqb_ℤ k l && eqb c.taken taken then some c else last l taken older

unfoldable pub visited : ℤ → List Event → Bool
visited l [] = false
visited l ((k, c) ∷ older) = if eqb_ℤ k l then true else visited l older

-- What is exported: the conditionals outside loops, and each loop where it was first met.
unfoldable pub skeleton : List Event → List OrderedConditional
skeleton [] = []
skeleton ((l, c) ∷ older) =
    if eqb_ℤ l (negsuc 0)
    then skeleton older ++ outside c ∷ []
    else if visited l older
    then skeleton older
    else skeleton older ++ of_loop l ∷ []

unfoldable pub expected_element : List Event → OrderedConditional → List Conditional
expected_element es (outside c) = c ∷ []
expected_element es (of_loop l) = option_lines (last l false es) ++ option_lines (last l true es)

unfoldable pub expected_lines : List Event → List OrderedConditional → List Conditional
unfolding expected_element
expected_lines es [] = []
expected_lines es (o ∷ r) = expected_element es o ++ expected_lines es r

-- The order holds the elements of a list at the indices 0, 1, and so on.
abbrev Holds : List OrderedConditional → Conditionals → Type 0
Holds xs s = (length s.order ≡ length xs) × ((i : ℕ) → find i s.order ≡ get_elem? xs i)

get_elem?-snoc :
    (xs : List OrderedConditional) (c : OrderedConditional) (i : ℕ)
    → get_elem? (xs ++ c ∷ []) i ≡ (if length xs == i then some c else get_elem? xs i)
get_elem?-snoc [] c zero = refl
get_elem?-snoc [] c (suc i) = ground arith
get_elem?-snoc (x ∷ xs) c zero = ground arith
get_elem?-snoc (x ∷ xs) c (suc i) = ground (arith, get_elem?-snoc xs c i)

get_elem?-length : (xs : List OrderedConditional) → get_elem? xs (length xs) ≡ none
get_elem?-length [] = refl
get_elem?-length (x ∷ xs) = get_elem?-length xs

module _ (xs : List OrderedConditional) (s : Conditionals) (h : Holds xs s)
    (c : OrderedConditional) where
  next_free : find (length s.order) s.order ≡ none
  next_free = h.1 (length s.order) ∙ ap (get_elem? xs) h.0 ∙ get_elem?-length xs

  add_element-put : add_element c s.order ≡ put (length s.order) c s.order
  unfolding add_element
  add_element-put = rw (find-has (length s.order) s.order next_free) refl

  add_element-Holds :
      (b : StdMap Branching)
      → Holds (xs ++ c ∷ []) (record { order = add_element c s.order; of_loops = b })
  add_element-Holds b = (
    rw add_element-put (
        omega
          (arith, length-put (length s.order) c s.order next_free, h.0, length-append xs (c ∷ []))),
    λ i.
        rw add_element-put (
          ground (arith, find-put (length s.order) i c s.order, get_elem?-snoc xs c i, h.0, h.1 i)),
  )

find_nil {ℓ} : {V : Type ℓ} (k : ℕ) → find {V = V} k [] ≡ none
unfolding find
find_nil k = refl

-- the last conditionals of a loop, which LOOP_CONDITIONALS must hold
unfoldable pub lasts : ℤ → List Event → Branching
lasts l es = record { not_taken = last l false es; is_taken = last l true es }

last_unvisited :
    (l : ℤ) (taken : Bool) (es : List Event) → visited l es ≡ false → last l taken es ≡ none
unfolding last visited
last_unvisited l taken [] h = refl
last_unvisited l taken ((k, c) ∷ es) h = ground (arith, h, last_unvisited l taken es)

loop_key_test : (a b : ℤ) → (loop_key a == loop_key b) ≡ eqb_ℤ a b
unfolding loop_key
loop_key_test (pos m) (pos n) = ground arith
loop_key_test (pos m) (negsuc n) = ground arith
loop_key_test (negsuc m) (pos n) = ground arith
loop_key_test (negsuc m) (negsuc n) = ground arith

lasts_other :
    (k l : ℤ) (c : Conditional) (es : List Event)
    → eqb_ℤ k l ≡ false
    → lasts l ((k, c) ∷ es) ≡ lasts l es
unfolding lasts last
lasts_other k l c es h = rw h refl

lasts_same :
    (k l : ℤ) (c : Conditional) (es : List Event)
    → eqb_ℤ k l ≡ true
    → lasts k ((k, c) ∷ es) ≡ lasts l ((k, c) ∷ es)
lasts_same k l c es h = ap (λ t. lasts t ((k, c) ∷ es)) ((eqb_ℤ_iff k l).0 h)

lasts-replace :
    (l : ℤ) (c : Conditional) (es : List Event)
    → replace_branch c.taken c (lasts l es) ≡ lasts l ((l, c) ∷ es)
unfolding replace_branch lasts last
lasts-replace l c es = ground (arith, eqb_ℤ_iff l l)

-- what `record_conditional` does in a loop
record_in_loop :
    (k : ℤ) (c : Conditional) (es : List Event) (s : Conditionals)
    → k ≢ negsuc 0
    → find (loop_key k) s.of_loops ≡ (if visited k es then some (lasts k es) else none)
    → (record_conditional k c s).of_loops ≡ put (loop_key k) (lasts k ((k, c) ∷ es)) s.of_loops
unfolding record_conditional lasts
record_in_loop k c es s n h = ground (
  arith,
  eqb_ℤ_iff k (negsuc 0),
  lasts-replace k c es,
  last_unvisited k true es,
  last_unvisited k false es,
)

outside_of_loops :
    (k : ℤ) (c : Conditional) (s : Conditionals)
    → eqb_ℤ k (negsuc 0) ≡ true
    → (record_conditional k c s).of_loops ≡ s.of_loops
unfolding record_conditional
outside_of_loops k c s h = rw h refl

record_outside :
    (xs : List OrderedConditional) (k : ℤ) (c : Conditional) (s : Conditionals)
    → eqb_ℤ k (negsuc 0) ≡ true
    → Holds xs s
    → Holds (xs ++ outside c ∷ []) (record_conditional k c s)
unfolding record_conditional
record_outside xs k c s h a = rw h (add_element-Holds xs s a (outside c) s.of_loops)

record_loop-Holds :
    (xs : List OrderedConditional) (k : ℤ) (c : Conditional) (s : Conditionals)
    → eqb_ℤ k (negsuc 0) ≡ false
    → Holds xs s
    → (o : Option Branching) → find (loop_key k) s.of_loops ≡ o
    → Holds (elim o [ none ↦ xs ++ of_loop k ∷ [] | some b ↦ xs ]) (record_conditional k c s)
unfolding record_conditional
record_loop-Holds xs k c s h a none e =
    rw (h, e)
      (add_element-Holds xs s a (of_loop k)
        (put (loop_key k) (replace_branch c.taken c no_branching) s.of_loops))
record_loop-Holds xs k c s h a (some b) e = rw (h, e) a

run-of_loops :
    (es : List Event) (l : ℤ)
    → l ≢ negsuc 0
    → find (loop_key l) (run es).of_loops ≡ (if visited l es then some (lasts l es) else none)
unfolding run visited
run-of_loops [] l n = find_nil (loop_key l)
run-of_loops ((k, c) ∷ es) l n = elim (Bool-cases (eqb_ℤ k (negsuc 0))) [
  | inl z ↦ ground (
    arith,
    outside_of_loops k c (run es) z,
    lasts_other k l c es,
    run-of_loops es l n,
    (eqb_ℤ_iff k (negsuc 0)).0 z,
    eqb_ℤ_iff k l,
  )
  | inr z ↦
      let other : k ≢ negsuc 0 = λ e. cc ((eqb_ℤ_iff k (negsuc 0)).1 e, z) in
      rw (record_in_loop k c es (run es) other (run-of_loops es k other)) (
        ground (
          arith,
          find-put (loop_key k) (loop_key l) (lasts k ((k, c) ∷ es)) (run es).of_loops,
          loop_key_test k l,
          lasts_other k l c es,
          lasts_same k l c es,
          run-of_loops es l n,
        ))
]

run-Holds : (es : List Event) → Holds (skeleton es) (run es)
unfolding run skeleton
run-Holds [] = (refl, λ i. find_nil i)
run-Holds ((l, c) ∷ es) = elim (Bool-cases (eqb_ℤ l (negsuc 0))) [
  | inl z ↦ rw z (record_outside (skeleton es) l c (run es) z (run-Holds es))
  | inr z ↦
      let other : l ≢ negsuc 0 = λ e. cc ((eqb_ℤ_iff l (negsuc 0)).1 e, z) in
      let now = record_loop-Holds (skeleton es) l c (run es) z (run-Holds es) in
      elim (Bool-cases (visited l es)) [
        | inl v ↦ rw (z, v) (now (some (lasts l es)) (run-of_loops es l other ∙ rw v refl))
        | inr v ↦ rw (z, v) (now none (run-of_loops es l other ∙ rw v refl))
      ]
]

-- a loop of the skeleton was visited
abbrev IsVisited : List Event → OrderedConditional → Type 0
IsVisited es (outside c) = Unit {0}
IsVisited es (of_loop l) = (l ≢ negsuc 0) × (visited l es ≡ true)

IsVisited-cons :
    (e : Event) (es : List Event) (o : OrderedConditional) → IsVisited es o → IsVisited (e ∷ es) o
unfolding visited
IsVisited-cons (k, d) es (outside c) h = tt
IsVisited-cons (k, d) es (of_loop l) h = (h.0, ground (arith, h.1))

All-IsVisited :
    (e : Event) (es : List Event) (xs : List OrderedConditional)
    → All (IsVisited es) xs
    → All (IsVisited (e ∷ es)) xs
All-IsVisited e es [] h = tt
All-IsVisited e es (o ∷ xs) h = (IsVisited-cons e es o h.0, All-IsVisited e es xs h.1)

All-snoc {κ} :
    (P : OrderedConditional → Type κ) (xs : List OrderedConditional) (o : OrderedConditional)
    → All P xs
    → P o
    → All P (xs ++ o ∷ [])
All-snoc P [] o h p = (p, tt)
All-snoc P (x ∷ xs) o h p = (h.0, All-snoc P xs o h.1 p)

visited_head : (l : ℤ) (c : Conditional) (es : List Event) → visited l ((l, c) ∷ es) ≡ true
unfolding visited
visited_head l c es = ground (arith, (eqb_ℤ_iff l l).1 refl)

skeleton-IsVisited : (es : List Event) → All (IsVisited es) (skeleton es)
unfolding skeleton
skeleton-IsVisited [] = tt
skeleton-IsVisited ((l, c) ∷ es) =
    let before = All-IsVisited (l, c) es (skeleton es) (skeleton-IsVisited es) in
    elim (Bool-cases (eqb_ℤ l (negsuc 0))) [
      | inl z ↦ rw z (All-snoc (IsVisited ((l, c) ∷ es)) (skeleton es) (outside c) before tt)
      | inr z ↦ elim (Bool-cases (visited l es)) [
        | inl v ↦ rw (z, v) before
        | inr v ↦
            rw (z, v)
              (All-snoc (IsVisited ((l, c) ∷ es)) (skeleton es) (of_loop l) before
                (λ e. cc ((eqb_ℤ_iff l (negsuc 0)).1 e, z), visited_head l c es))
      ]
    ]

element_lines-run :
    (es : List Event) (o : OrderedConditional)
    → IsVisited es o
    → element_lines o (run es).of_loops ≡ some (expected_element es o)
unfolding element_lines expected_element lasts
element_lines-run es (outside c) h = refl
element_lines-run es (of_loop l) h = ground (arith, run-of_loops es l h.0)

export_from-expected :
    (es : List Event) (i : ℕ) (xs : List OrderedConditional)
    → All (IsVisited es) xs
    → ((j : ℕ) → find (i + j) (run es).order ≡ get_elem? xs j)
    → export_from i (length xs) (run es) ≡ some (expected_lines es xs)
unfolding export_from expected_lines
export_from-expected es i [] v h = refl
export_from-expected es i (o ∷ xs) v h =
    let here : find i (run es).order ≡ some o =
      subst (λ k. find k (run es).order ≡ some o) (let p : i + 0 ≡ i = omega arith in p) (h 0) in
    let later = λ (j : ℕ).
      subst (λ k. find k (run es).order ≡ get_elem? xs j)
        (let p : i + suc j ≡ suc i + j = omega arith in p) (h (suc j)) in
    ground (arith, here, element_lines-run es o v.0, export_from-expected es (suc i) xs v.1 later)

-- The file of conditions after any sequence of recorded branches, the newest first: the export
-- succeeds, and its lines are, in the order of the analysis, the conditionals outside loops, and for
-- each loop, where it was first met, the last conditional not taken and the last one taken.
pub export_ordered_constraints-run :
    (es : List Event) → export_ordered_constraints (run es) ≡ some (expected_lines es (skeleton es))
unfolding export_ordered_constraints
export_ordered_constraints-run es =
    let (len, at) = run-Holds es in
    rw len (
      export_from-expected es 0 (skeleton es) (skeleton-IsVisited es) (λ j.
        subst (λ k. find k (run es).order ≡ get_elem? (skeleton es) j)
          (let p : j ≡ 0 + j = omega arith in p) (at j)))
