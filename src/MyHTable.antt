-- ===== src/MyHTable.antt =====
-- MyHTable of include/MyHTable.h: a vector of chains. A key hashes to its chain; a new node goes to
-- the front of the chain, and a lookup leaves the chains as they are.
pub mod Chains
pub mod Lookup
pub mod Copy
use polymalys.Common.{
  ℕ, zero, suc, ◌+◌, ◌%◌, Bool, true, false, Option, none, some, List, [], ◌∷◌, ◌++◌, ◌≡◌, ◌↔◌,
  if◌then◌else◌, length, get_or, set, replicate,
}

-- the template parameter H
pub record HashKey {ℓ} (K : Type ℓ) : Type ℓ where
  pub hash : K → ℕ
  pub equals : K → K → Bool
  pub equals_iff : (a b : K) → (equals a b ≡ true) ↔ (a ≡ b)

abbrev pub Chain {ℓ} : Type ℓ → Type ℓ → Type ℓ
Chain K T = List (K × T)

-- `size` is the length of `tab`
pub record MyHTable {ℓ} (K T : Type ℓ) : Type ℓ where
  pub tab : List (Chain K T)

module _ {ℓ} {K T : Type ℓ} where
  -- MyHTable(int _size)
  unfoldable pub make_table : ℕ → MyHTable K T
  make_table n = record { tab = replicate n [] }

  abbrev pub size : MyHTable K T → ℕ
  size t = length t.tab

  unfoldable pub tab_is_empty : List (Chain K T) → Bool
  tab_is_empty [] = true
  tab_is_empty ([] ∷ cs) = tab_is_empty cs
  tab_is_empty ((n ∷ c) ∷ cs) = false

  unfoldable pub is_empty : MyHTable K T → Bool
  unfolding tab_is_empty
  is_empty t = tab_is_empty t.tab

  unfoldable pub tab_count : List (Chain K T) → ℕ
  tab_count [] = 0
  tab_count (c ∷ cs) = length c + tab_count cs

  unfoldable pub count : MyHTable K T → ℕ
  unfolding tab_count
  count t = tab_count t.tab

  -- the nodes in the order in which InternIterator visits them
  unfoldable pub tab_entries : List (Chain K T) → Chain K T
  tab_entries [] = []
  tab_entries (c ∷ cs) = c ++ tab_entries cs

  unfoldable pub entries : MyHTable K T → Chain K T
  unfolding tab_entries
  entries t = tab_entries t.tab

  unfoldable pub clear_tab : List (Chain K T) → List (Chain K T)
  clear_tab [] = []
  clear_tab (c ∷ cs) = [] ∷ clear_tab cs

  unfoldable pub clear : MyHTable K T → MyHTable K T
  unfolding clear_tab
  clear t = record { tab = clear_tab t.tab }

module _ {ℓ} {K T : Type ℓ} ⦃key : HashKey K⦄ where
  -- `int i = H::hash(key) % size`
  unfoldable pub index : MyHTable K T → K → ℕ
  index t k = key.hash k % length t.tab

  abbrev pub chain_of : MyHTable K T → K → Chain K T
  chain_of t k = get_or t.tab (index t k) []

  -- the loop of `find`: the value of the first node with the key
  unfoldable pub find_node : K → Chain K T → Option T
  find_node k [] = none
  find_node k ((j, v) ∷ c) = if key.equals j k then some v else find_node k c

  -- `node->value = value` for the node that `find` returns
  unfoldable pub assign : K → T → Chain K T → Chain K T
  assign k v [] = []
  assign k v ((j, w) ∷ c) = if key.equals j k then (j, v) ∷ c else (j, w) ∷ assign k v c

  -- the loop of `remove`
  unfoldable pub unlink : K → Chain K T → Chain K T
  unlink k [] = []
  unlink k ((j, w) ∷ c) = if key.equals j k then c else (j, w) ∷ unlink k c

  unfoldable pub get : MyHTable K T → K → Option T
  unfolding find_node
  get t k = find_node k (chain_of t k)

  unfoldable pub get_default : MyHTable K T → K → T → T
  unfolding get
  get_default t k d = elim (get t k) [ none ↦ d | some v ↦ v ]

  unfoldable pub has_key : MyHTable K T → K → Bool
  unfolding get
  has_key t k = elim (get t k) [ none ↦ false | some v ↦ true ]

  -- `make`, and `add` that calls it
  unfoldable pub add : MyHTable K T → K → T → MyHTable K T
  unfolding index
  add t k v = record { tab = set t.tab (index t k) ((k, v) ∷ chain_of t k) }

  -- `put`, and the assignment through Ref
  unfoldable pub put : MyHTable K T → K → T → MyHTable K T
  unfolding get add index assign
  put t k v = elim (get t k) [
    | none ↦ add t k v
    | some w ↦ record { tab = set t.tab (index t k) (assign k v (chain_of t k)) }
  ]

  unfoldable pub remove : MyHTable K T → K → MyHTable K T
  unfolding index unlink
  remove t k = record { tab = set t.tab (index t k) (unlink k (chain_of t k)) }

  -- the loops of putAll
  unfoldable pub put_chain : MyHTable K T → Chain K T → MyHTable K T
  unfolding put
  put_chain t [] = t
  put_chain t ((k, v) ∷ c) = put_chain (put t k v) c

  unfoldable pub put_chains : MyHTable K T → List (Chain K T) → MyHTable K T
  unfolding put_chain
  put_chains t [] = t
  put_chains t (c ∷ cs) = put_chains (put_chain t c) cs

  unfoldable pub put_all : MyHTable K T → MyHTable K T → MyHTable K T
  unfolding put_chains
  put_all t h = put_chains t h.tab

  -- MyHTable(const self_t &, int)
  unfoldable pub copy : MyHTable K T → ℕ → MyHTable K T
  unfolding make_table put_all
  copy h n = put_all (make_table n) h

  -- operator=
  unfoldable pub assign_table : MyHTable K T → MyHTable K T → MyHTable K T
  unfolding clear put_all
  assign_table t h = put_all (clear t) h
