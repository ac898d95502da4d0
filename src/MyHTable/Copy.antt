-- ===== src/MyHTable/Copy.antt =====
-- Copies of a MyHTable: `putAll`, the copy constructors and `operator=`.
use polymalys.Common.{
  ℕ, zero, suc, ◌≤◌, ◌<◌, Option, none, some, List, [], ◌∷◌, ◌≡◌, refl, ◌∙◌, ◌≢◌, Bool-cases, inl,
  inr, ap, arith, get_or, length-replicate, get_or-replicate,
}
use polymalys.MyHTable.{
  HashKey, Chain, MyHTable, make_table, index, find_node, get, put, put_chain, put_chains, put_all,
  copy,
}
use polymalys.MyHTable.Chains.{occurrences, find_node_absent}
use polymalys.MyHTable.Lookup.{IsTable, get-put, put-IsTable}

abbrev pub override {ℓ} : {T : Type ℓ} → Option T → Option T → Option T
override none d = d
override (some v) d = some v

override-none {ℓ} : {T : Type ℓ} (o : Option T) → override o none ≡ o
override-none none = refl
override-none (some v) = refl

module _ {ℓ} {K T : Type ℓ} ⦃key : HashKey K⦄ where
  put_chain-IsTable : (t : MyHTable K T) (c : Chain K T) → IsTable t → IsTable (put_chain t c)
  unfolding put_chain
  put_chain-IsTable t [] h = h
  put_chain-IsTable t ((k, v) ∷ c) h = put_chain-IsTable (put t k v) c (put-IsTable t k v h)

  put_chains-IsTable :
      (t : MyHTable K T) (cs : List (Chain K T)) → IsTable t → IsTable (put_chains t cs)
  unfolding put_chains
  put_chains-IsTable t [] h = h
  put_chains-IsTable t (c ∷ cs) h = put_chains-IsTable (put_chain t c) cs (put_chain-IsTable t c h)

  get-put_chain :
      (t : MyHTable K T) (c : Chain K T) (q : K)
      → IsTable t
      → occurrences q c ≤ 1
      → get (put_chain t c) q ≡ override (find_node q c) (get t q)
  unfolding put_chain occurrences find_node
  get-put_chain t [] q h o = refl
  get-put_chain t ((k, v) ∷ c) q h o = elim (Bool-cases (key.equals k q)) [
    | inl s ↦
        let rest = get-put_chain (put t k v) c q (put-IsTable t k v h) (ground (arith, s, o)) in
        let none_left = find_node_absent q c (ground (arith, s, o)) in
        ground (arith, s, rest, none_left, get-put t k v q h)
    | inr s ↦
        let rest = get-put_chain (put t k v) c q (put-IsTable t k v h) (ground (arith, s, o)) in
        ground (arith, s, rest, get-put t k v q h)
  ]

  get-put_chains_absent :
      (t : MyHTable K T) (cs : List (Chain K T)) (q : K)
      → IsTable t
      → ((i : ℕ) → occurrences q (get_or cs i []) ≡ 0)
      → get (put_chains t cs) q ≡ get t q
  unfolding put_chains
  get-put_chains_absent t [] q h a = refl
  get-put_chains_absent t (c ∷ cs) q h a =
      get-put_chains_absent (put_chain t c) cs q (put_chain-IsTable t c h) (λ i. a (suc i))
      ∙ get-put_chain t c q h (omega (arith, a 0))
      ∙ ap (λ o. override o (get t q)) (find_node_absent q c (a 0))

  get-put_chains :
      (t : MyHTable K T) (cs : List (Chain K T)) (q : K) (j : ℕ)
      → IsTable t
      → occurrences q (get_or cs j []) ≤ 1
      → ((i : ℕ) → j ≢ i → occurrences q (get_or cs i []) ≡ 0)
      → get (put_chains t cs) q ≡ override (find_node q (get_or cs j [])) (get t q)
  unfolding put_chains find_node
  get-put_chains t [] q j h one a = refl
  get-put_chains t (c ∷ cs) q zero h one a =
      get-put_chains_absent (put_chain t c) cs q (put_chain-IsTable t c h)
        (λ i. a (suc i) (omega arith))
      ∙ get-put_chain t c q h one
  get-put_chains t (c ∷ cs) q (suc j) h one a =
      get-put_chains (put_chain t c) cs q j (put_chain-IsTable t c h) one
        (λ i away. a (suc i) (omega (arith, away)))
      ∙ ap (override (find_node q (get_or cs j []))) (
          get-put_chain t c q h (omega (arith, a 0 (omega arith)))
          ∙ ap (λ o. override o (get t q)) (find_node_absent q c (a 0 (omega arith))))

  -- `putAll` keeps the invariant; a key of the source is bound as the source binds it, and every
  -- other key stays bound as it was.
  pub put_all-IsTable-get :
      (t h : MyHTable K T)
      → IsTable t
      → IsTable h
      → IsTable (put_all t h) × ((q : K) → get (put_all t h) q ≡ override (get h q) (get t q))
  unfolding put_all get
  put_all-IsTable-get t h vt vh = (
    put_chains-IsTable t h.tab vt,
    λ q. get-put_chains t h.tab q (index h q) vt (vh.unique q) (vh.placed q),
  )

  pub make_table-IsTable : (n : ℕ) → 0 < n → IsTable {K = K} {T = T} (make_table n)
  unfolding make_table occurrences
  make_table-IsTable n h = record {
    nonempty = rw (length-replicate {A = Chain K T} n []) h;
    unique = λ q.
        rw (get_or-replicate {A = Chain K T} n (index (make_table {T = T} n) q) []) (omega arith);
    placed = λ q i away. rw (get_or-replicate {A = Chain K T} n i []) refl;
  }

  pub get-make_table : (n : ℕ) (q : K) → get (make_table {T = T} n) q ≡ none
  unfolding make_table get find_node
  get-make_table n q =
      rw (get_or-replicate {A = Chain K T} n (index (make_table {T = T} n) q) []) refl

  -- A copy binds every key as the original does, whatever number of chains it is given.
  pub get-copy : (h : MyHTable K T) (n : ℕ) (q : K) → IsTable h → 0 < n → get (copy h n) q ≡ get h q
  unfolding copy
  get-copy h n q v p =
      (put_all-IsTable-get (make_table n) h (make_table-IsTable n p) v).1 q
      ∙ rw (get-make_table n q) (override-none (get h q))
