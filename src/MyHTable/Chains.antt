-- ===== src/MyHTable/Chains.antt =====
-- One chain of a MyHTable: what assignment and removal do to a lookup and to how often a key occurs.
use polymalys.Common.{
  ℕ, suc, ◌≤◌, true, none, some, [], ◌∷◌, ◌≡◌, refl, if◌then◌else◌, Bool-cases, inl, inr, ap, arith,
}
use polymalys.MyHTable.{HashKey, Chain, find_node, assign, unlink}

module _ {ℓ} {K : Type ℓ} ⦃key : HashKey K⦄ where
  pub equals_left : (a b c : K) → key.equals a b ≡ true → key.equals a c ≡ key.equals b c
  equals_left a b c h = rw ((key.equals_iff a b).0 h)

module _ {ℓ} {K T : Type ℓ} ⦃key : HashKey K⦄ where
  -- how many nodes have the key
  unfoldable pub occurrences : K → Chain K T → ℕ
  occurrences k [] = 0
  occurrences k ((j, v) ∷ c) = if key.equals j k then suc (occurrences k c) else occurrences k c

  pub find_node_absent : (q : K) (c : Chain K T) → occurrences q c ≡ 0 → find_node q c ≡ none
  unfolding occurrences find_node
  find_node_absent q [] h = refl
  find_node_absent q ((j, v) ∷ c) h = ground (arith, find_node_absent q c)

  pub occurrences_absent : (q : K) (c : Chain K T) → find_node q c ≡ none → occurrences q c ≡ 0
  unfolding occurrences find_node
  occurrences_absent q [] h = refl
  occurrences_absent q ((j, v) ∷ c) h = ground (arith, occurrences_absent q c)

  pub find_node-assign :
      (k q : K) (v w : T) (c : Chain K T)
      → find_node k c ≡ some w
      → find_node q (assign k v c) ≡ (if key.equals k q then some v else find_node q c)
  unfolding find_node assign
  find_node-assign k q v w [] h = ground arith
  find_node-assign k q v w ((j, u) ∷ c) h = elim (Bool-cases (key.equals k q)) [
    | inl e ↦
        let same = (key.equals_iff k q).0 e in
        ground (arith, find_node-assign k q v w c, ap (λ x. key.equals j x) same)
    | inr e ↦ ground (arith, find_node-assign k q v w c, equals_left j k q)
  ]

  pub occurrences-assign :
      (k q : K) (v : T) (c : Chain K T) → occurrences q (assign k v c) ≡ occurrences q c
  unfolding occurrences assign
  occurrences-assign k q v [] = refl
  occurrences-assign k q v ((j, u) ∷ c) = ground (arith, occurrences-assign k q v c)

  pub find_node-unlink :
      (k q : K) (c : Chain K T)
      → occurrences k c ≤ 1
      → find_node q (unlink k c) ≡ (if key.equals k q then none else find_node q c)
  unfolding find_node unlink occurrences
  find_node-unlink k q [] h = ground arith
  find_node-unlink k q ((j, u) ∷ c) h = elim (Bool-cases (key.equals k q)) [
    | inl e ↦
        let same = (key.equals_iff k q).0 e in
        ground (
          arith,
          find_node-unlink k q c,
          equals_left j k q,
          find_node_absent k c,
          ap (λ x. find_node x c) same,
          ap (λ x. key.equals j x) same,
        )
    | inr e ↦ ground (arith, find_node-unlink k q c, equals_left j k q)
  ]

  pub occurrences-unlink : (k q : K) (c : Chain K T) → occurrences q (unlink k c) ≤ occurrences q c
  unfolding occurrences unlink
  occurrences-unlink k q [] = omega arith
  occurrences-unlink k q ((j, u) ∷ c) = ground (arith, occurrences-unlink k q c)
