-- ===== src/MyHTable/Lookup.antt =====
-- A MyHTable as a finite map: the invariant of `put` and `remove`, what a lookup finds after them,
-- and that copying a table keeps what every key is bound to.
use polymalys.Common.{
  ℕ, ◌%◌, ◌≤◌, ◌<◌, false, Option, none, some, [], ◌∷◌, ◌≡◌, refl, sym, ◌∙◌, ◌≢◌, if◌then◌else◌,
  Bool-cases, Option-cases, inl, inr, ap, arith, ==_iff, ◌==◌, length, get_or, set, length-set,
  get_or-set_self, get_or-set_ne, subst,
}
use polymalys.MyHTable.{
  HashKey, Chain, MyHTable, index, chain_of, find_node, assign, unlink, get, add, put, remove,
}
use polymalys.MyHTable.Chains.{
  occurrences, occurrences_absent, find_node-assign, occurrences-assign, find_node-unlink,
  occurrences-unlink,
}

module _ {ℓ} {K T : Type ℓ} ⦃key : HashKey K⦄ where
  -- at least one chain; a key occurs at most once, and only in the chain that it hashes to
  pub record IsTable (t : MyHTable K T) : Type ℓ where
    pub nonempty : 0 < length t.tab
    pub unique : (q : K) → occurrences q (chain_of t q) ≤ 1
    pub placed : (q : K) (i : ℕ) → index t q ≢ i → occurrences q (get_or t.tab i []) ≡ 0

  index_lt : (t : MyHTable K T) (k : K) → 0 < length t.tab → index t k < length t.tab
  unfolding index
  index_lt t k h = omega arith

  index_same : (t r : MyHTable K T) (k : K) → length t.tab ≡ length r.tab → index t k ≡ index r k
  unfolding index
  index_same t r k e = ap (λ n. key.hash k % n) e

  -- a table in which the chain of `k` is rewritten
  abbrev with_chain : MyHTable K T → K → Chain K T → MyHTable K T
  with_chain t k c = record { tab = set t.tab (index t k) c }

  index-with_chain :
      (t : MyHTable K T) (k q : K) (c : Chain K T) → index (with_chain t k c) q ≡ index t q
  index-with_chain t k q c = index_same (with_chain t k c) t q (length-set t.tab (index t k) c)

  chain-with_chain :
      (t : MyHTable K T) (k q : K) (c : Chain K T)
      → 0 < length t.tab
      → chain_of (with_chain t k c) q ≡ (if index t k == index t q then c else chain_of t q)
  chain-with_chain t k q c h =
      rw (index-with_chain t k q c) (elim (Bool-cases (index t k == index t q)) [
        | inl e ↦
            let same = (==_iff (index t k) (index t q)).0 e in
            rw (e, sym same) (get_or-set_self t.tab (index t k) c [] (index_lt t k h))
        | inr e ↦ rw e (get_or-set_ne t.tab (index t k) (index t q) c [] (ground (arith, e)))
      ])

  equals_index :
      (t : MyHTable K T) (k q : K) → (index t k == index t q) ≡ false → key.equals k q ≡ false
  equals_index t k q e = elim (Bool-cases (key.equals k q)) [
    | inl s ↦ absurd (ground (arith, e, ap (index t) ((key.equals_iff k q).0 s)))
    | inr s ↦ s
  ]

  -- rewriting the chain of `k` changes lookups as it changes lookups in that chain
  get-with_chain :
      (t : MyHTable K T) (k q : K) (c : Chain K T) (o : Option T)
      → 0 < length t.tab
      → find_node q c ≡ (if key.equals k q then o else find_node q (chain_of t k))
      → get (with_chain t k c) q ≡ (if key.equals k q then o else get t q)
  unfolding get
  get-with_chain t k q c o h e = elim (Bool-cases (index t k == index t q)) [
    | inl s ↦
        let same = (==_iff (index t k) (index t q)).0 s in
        ap (find_node q) (chain-with_chain t k q c h)
        ∙ ap (λ b. find_node q (if b then c else chain_of t q)) s
        ∙ e
        ∙ ap (λ i. if key.equals k q then o else find_node q (get_or t.tab i [])) same
    | inr s ↦
        ap (find_node q) (chain-with_chain t k q c h)
        ∙ ap (λ b. find_node q (if b then c else chain_of t q)) s
        ∙ ap (λ b. if b then o else get t q) (sym (equals_index t k q s))
  ]

  put_new :
      (t : MyHTable K T) (k : K) (v : T)
      → get t k ≡ none
      → put t k v ≡ with_chain t k ((k, v) ∷ chain_of t k)
  unfolding put add
  put_new t k v e = rw (put, e) refl

  put_old :
      (t : MyHTable K T) (k : K) (v w : T)
      → get t k ≡ some w
      → put t k v ≡ with_chain t k (assign k v (chain_of t k))
  unfolding put
  put_old t k v w e = rw (put, e) refl

  -- After `put`, the key is bound to the value, and every other key to what it was bound to.
  pub get-put :
      (t : MyHTable K T) (k : K) (v : T) (q : K)
      → IsTable t
      → get (put t k v) q ≡ (if key.equals k q then some v else get t q)
  unfolding find_node get
  get-put t k v q h = elim (Option-cases (get t k)) [
    | inl e ↦
        rw (put_new t k v e) (get-with_chain t k q ((k, v) ∷ chain_of t k) (some v) h.nonempty refl)
    | inr (w, e) ↦ rw (put_old t k v w e) (
        get-with_chain t k q (assign k v (chain_of t k)) (some v) h.nonempty
          (find_node-assign k q v w (chain_of t k) e))
  ]

  -- After `remove`, the key is not bound, and every other key to what it was bound to.
  pub get-remove :
      (t : MyHTable K T) (k q : K)
      → IsTable t
      → get (remove t k) q ≡ (if key.equals k q then none else get t q)
  unfolding remove
  get-remove t k q h =
      get-with_chain t k q (unlink k (chain_of t k)) none h.nonempty
        (find_node-unlink k q (chain_of t k) (h.unique k))

  at_most_one : (t : MyHTable K T) → IsTable t → (k q : K) → occurrences q (chain_of t k) ≤ 1
  at_most_one t h k q = elim (Bool-cases (index t q == index t k)) [
    | inl s ↦
        subst (λ i. occurrences q (get_or t.tab i []) ≤ 1) ((==_iff (index t q) (index t k)).0 s)
          (h.unique q)
    | inr s ↦ omega (arith, h.placed q (index t k) (ground (arith, s)))
  ]

  occurrences_new :
      (t : MyHTable K T) (k q : K) (v : T)
      → IsTable t
      → get t k ≡ none
      → occurrences q ((k, v) ∷ chain_of t k) ≤ 1
  unfolding get occurrences
  occurrences_new t k q v h e = elim (Bool-cases (key.equals k q)) [
    | inl s ↦ ground (
      arith,
      s,
      occurrences_absent k (chain_of t k) e,
      ap (λ x. occurrences x (chain_of t k)) ((key.equals_iff k q).0 s),
    )
    | inr s ↦ ground (arith, s, at_most_one t h k q)
  ]

  occurrences_away :
      (t : MyHTable K T) (k q : K) (v : T)
      → IsTable t
      → index t q ≢ index t k
      → occurrences q ((k, v) ∷ chain_of t k) ≡ 0
  unfolding occurrences
  occurrences_away t k q v h away =
      rw (equals_index t k q (ground (arith, away))) (h.placed q (index t k) away)

  -- a rewritten chain with at most one node for each key, and only for keys that hash to it
  with_chain-IsTable :
      (t : MyHTable K T) (k : K) (c : Chain K T)
      → IsTable t
      → ((q : K) → occurrences q c ≤ 1)
      → ((q : K) → index t q ≢ index t k → occurrences q c ≡ 0)
      → IsTable (with_chain t k c)
  with_chain-IsTable t k c h one none_else = record {
    nonempty = rw (length-set t.tab (index t k) c) h.nonempty;
    unique = λ q. elim (Bool-cases (index t k == index t q)) [
      | inl s ↦ rw (chain-with_chain t k q c h.nonempty, s) (one q)
      | inr s ↦ rw (chain-with_chain t k q c h.nonempty, s) (h.unique q)
    ];
    placed = λ q i away. elim (Bool-cases (index t k == i)) [
      | inl s ↦
          let same = (==_iff (index t k) i).0 s in
          rw (sym same, get_or-set_self t.tab (index t k) c [] (index_lt t k h.nonempty))
            (none_else q (λ z. away (index-with_chain t k q c ∙ z ∙ same)))
      | inr s ↦
          rw (get_or-set_ne t.tab (index t k) i c [] (ground (arith, s)))
            (h.placed q i (λ z. away (index-with_chain t k q c ∙ z)))
    ];
  }

  pub put-IsTable : (t : MyHTable K T) (k : K) (v : T) → IsTable t → IsTable (put t k v)
  put-IsTable t k v h = elim (Option-cases (get t k)) [
    | inl e ↦ rw (put_new t k v e) (
        with_chain-IsTable t k ((k, v) ∷ chain_of t k) h (λ q. occurrences_new t k q v h e)
          (λ q away. occurrences_away t k q v h away))
    | inr (w, e) ↦ rw (put_old t k v w e) (
        with_chain-IsTable t k (assign k v (chain_of t k)) h
          (λ q. rw (occurrences-assign k q v (chain_of t k)) (at_most_one t h k q))
          (λ q away. occurrences-assign k q v (chain_of t k) ∙ h.placed q (index t k) away))
  ]

  pub remove-IsTable : (t : MyHTable K T) (k : K) → IsTable t → IsTable (remove t k)
  unfolding remove
  remove-IsTable t k h =
      with_chain-IsTable t k (unlink k (chain_of t k)) h
        (λ q. omega (arith, occurrences-unlink k q (chain_of t k), at_most_one t h k q))
        (λ q away.
          omega (arith, occurrences-unlink k q (chain_of t k), h.placed q (index t k) away))
