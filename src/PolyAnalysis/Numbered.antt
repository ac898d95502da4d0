-- ===== src/PolyAnalysis/Numbered.antt =====
-- _topoNodeHelper numbers the blocks in an order that the edges without back edges agree with.
use polymalys.Common.{
  ℕ, zero, suc, ◌≤◌, ◌<◌, Bool, true, false, Option, none, some, List, [], ◌∷◌, ◌≡◌, ◌⊎◌, refl, sym,
  subst, ◌∙◌, if◌then◌else◌, ◌==◌, arith, inl, inr, Bool-cases, Option-cases,
}
use polymalys.Common.StdMap.{find, find-put}
use polymalys.PolyAnalysis.{Cfg, PseudoTopoOrder, for_sources, topo_node_helper, number_block}

-- an edge of the list, no back edge, comes from the block
abbrev pub Source : ℕ → List (ℕ × Bool) → Type 0
Source u [] = ⊥
Source u ((s, back) ∷ es) = ((s ≡ u) × (back ≡ false)) ⊎ Source u es

abbrev pub Numbered : PseudoTopoOrder → ℕ → Type 0
Numbered o b = (n : ℕ) × (find b o.block_order ≡ some n)

-- The blocks that are marked as visited have distinct numbers, and an edge that is no back edge leads
-- from a smaller number to a greater one.
pub record IsNumbering (g : Cfg) (o : PseudoTopoOrder) : Type 0 where
  pub marked : (b n : ℕ) → find b o.block_order ≡ some n → o.visited b ≡ true
  pub numbered : (b : ℕ) → o.visited b ≡ true → Numbered o b
  pub below : (b n : ℕ) → find b o.block_order ≡ some n → n < o.current
  pub distinct : (a b n : ℕ) → find a o.block_order ≡ some n → find b o.block_order ≡ some n → a ≡ b
  pub sorted :
      (u b n : ℕ)
      → Source u (g.predecessors b)
      → find b o.block_order ≡ some n
      → (m : ℕ) × (find u o.block_order ≡ some m) × (m < n)

module _ (g : Cfg) (b : ℕ) (o : PseudoTopoOrder) (i : IsNumbering g o)
    (new : o.visited b ≡ false) where
  abbrev after : PseudoTopoOrder
  after = number_block g b o

  find-after :
      (c : ℕ) → find c after.block_order ≡ (if b == c then some o.current else find c o.block_order)
  unfolding number_block
  find-after c = find-put b c o.current o.block_order

  unnumbered : (n : ℕ) → ¬ (find b o.block_order ≡ some n)
  unnumbered n e = cc (i.marked b n e, new)

  find-after_old : (c n : ℕ) → find c o.block_order ≡ some n → find c after.block_order ≡ some n
  find-after_old c n e = ground (arith, find-after c, unnumbered n)

  -- a number afterwards is the new one, or an old one
  after_inv :
      (c n : ℕ)
      → find c after.block_order ≡ some n
      → ((b ≡ c) × (n ≡ o.current)) ⊎ (((b == c) ≡ false) × (find c o.block_order ≡ some n))
  after_inv c n e = elim (Bool-cases (b == c)) [
    | inl s ↦ inl (ground arith, ground (arith, find-after c))
    | inr s ↦ inr (s, ground (arith, find-after c))
  ]

  number_block-IsNumbering :
      ((u : ℕ) → Source u (g.predecessors b) → Numbered o u) → IsNumbering g after
  unfolding number_block
  number_block-IsNumbering sources = record {
    marked = λ c n e. ground (arith, after_inv c n e, i.marked c n);
    numbered = λ c v. elim (Bool-cases (c == b)) [
      | inl s ↦ (o.current, ground (arith, find-after c))
      | inr s ↦ let (n, e) = i.numbered c (rw s at v) in (n, find-after_old c n e)
    ];
    below = λ c n e. ground (arith, after_inv c n e, i.below c n);
    distinct = λ c d n e f.
        ground
          (arith, after_inv c n e, after_inv d n f, i.below c n, i.below d n, i.distinct c d n);
    sorted = λ u c n s e. elim (after_inv c n e) [
      | inl (same, last) ↦
          let (m, h) = sources u (subst (λ t. Source u (g.predecessors t)) (sym same) s) in
          (m, find-after_old u m h, ground (arith, i.below u m h))
      | inr (other, old) ↦ let (m, h, l) = i.sorted u c n s old in (m, find-after_old u m h, l)
    ];
  }

-- The numbers stay, and new ones go to blocks of a rank below `r`.
pub record Grows (rank : ℕ → ℕ) (r : ℕ) (o o' : PseudoTopoOrder) : Type 0 where
  pub keeps : (b n : ℕ) → find b o.block_order ≡ some n → find b o'.block_order ≡ some n
  bounded : (b n : ℕ) → find b o.block_order ≡ none → find b o'.block_order ≡ some n → rank b < r

module _ (g : Cfg) (rank : ℕ → ℕ) where
  Grows-trans :
      (r s : ℕ) (o p q : PseudoTopoOrder)
      → r ≤ s
      → Grows rank r o p
      → Grows rank s p q
      → Grows rank s o q
  Grows-trans r s o p q l a b = record {
    keeps = λ c n e. b.keeps c n (a.keeps c n e);
    bounded = λ c n e f. elim (Option-cases (find c p.block_order)) [
      | inl h ↦ b.bounded c n h f
      | inr (m, h) ↦ omega (arith, a.bounded c m e h)
    ];
  }

  -- what a visit of a block must give: the block is numbered, and only blocks of its rank or less are
  pub record Visited (u : ℕ) (o o' : PseudoTopoOrder) : Type 0 where
    pub numbering : IsNumbering g o'
    pub grows : Grows rank (suc (rank u)) o o'
    pub here : Numbered o' u

  abbrev pub Visits : ℕ → (ℕ → PseudoTopoOrder → Option PseudoTopoOrder) → Type 0
  Visits f visit =
      (u : ℕ) (o : PseudoTopoOrder)
      → rank u < f
      → IsNumbering g o
      → (o' : PseudoTopoOrder) × (visit u o ≡ some o') × Visited u o o'

  record SourcesVisited (r : ℕ) (es : List (ℕ × Bool)) (o o' : PseudoTopoOrder) : Type 0 where
    numbering : IsNumbering g o'
    grows : Grows rank r o o'
    all : (u : ℕ) → Source u es → Numbered o' u

  for_sources-Visits :
      (f r : ℕ) (visit : ℕ → PseudoTopoOrder → Option PseudoTopoOrder)
      → Visits f visit
      → r ≤ f
      → (es : List (ℕ × Bool)) (o : PseudoTopoOrder) → ((u : ℕ) → Source u es → rank u < r)
      → IsNumbering g o
      → (o' : PseudoTopoOrder) × (for_sources visit es o ≡ some o') × SourcesVisited r es o o'
  unfolding for_sources
  for_sources-Visits f r visit v l [] o h i = (
    o,
    refl,
    record {
      numbering = i;
      grows = record { keeps = λ b n e. e; bounded = λ b n e k. absurd (ground (arith, e, k)) };
      all = λ u s. absurd s;
    },
  )
  for_sources-Visits f r visit v l ((s, true) ∷ es) o h i =
      let (o', e, t) = for_sources-Visits f r visit v l es o (λ u m. h u (inr m)) i in
      (
        o',
        e,
        record {
          numbering = t.numbering;
          grows = t.grows;
          all = λ u m. elim m [ inl k ↦ absurd (cc k.1) | inr k ↦ t.all u k ];
        },
      )
  for_sources-Visits f r visit v l ((s, false) ∷ es) o h i =
      let small = h s (inl (refl, refl)) in
      let (p, e, a) = v s o (omega arith) i in
      let (o', k, t) = for_sources-Visits f r visit v l es p (λ u m. h u (inr m)) a.numbering in
      (
        o',
        ground (arith, e, k),
        record {
          numbering = t.numbering;
          grows = Grows-trans (suc (rank s)) r o p o' (omega arith) a.grows t.grows;
          all = λ u m. elim m [
            | inl k ↦
                let (n, q) = a.here in
                (n, subst (λ c. find c o'.block_order ≡ some n) k.0 (t.grows.keeps s n q))
            | inr k ↦ t.all u k
          ];
        },
      )

  -- a block is not numbered while blocks of lower rank are
  still_new :
      (o p : PseudoTopoOrder) (u : ℕ)
      → o.visited u ≡ false
      → IsNumbering g o
      → IsNumbering g p
      → Grows rank (rank u) o p
      → p.visited u ≡ false
  still_new o p u v i j w = elim (Bool-cases (p.visited u)) [
    | inl k ↦
        let (n, e) = j.numbered u k in
        elim (Option-cases (find u o.block_order)) [
          | inl h ↦ absurd (omega (arith, w.bounded u n h e))
          | inr (m, h) ↦ cc (i.marked u m h, v)
        ]
    | inr k ↦ k
  ]

  numbered_here :
      (u : ℕ) (o p : PseudoTopoOrder)
      → p.visited u ≡ false
      → SourcesVisited (rank u) (g.predecessors u) o p
      → Visited u o (number_block g u p)
  numbered_here u o p new t = record {
    numbering = number_block-IsNumbering g u p t.numbering new t.all;
    grows = record {
      keeps = λ c n e. find-after_old g u p t.numbering new c n (t.grows.keeps c n e);
      bounded = λ c n e k. elim (after_inv g u p t.numbering new c n k) [
        | inl (same, q) ↦ subst (λ x. rank x < suc (rank u)) same (omega arith)
        | inr (other, q) ↦ omega (arith, t.grows.bounded c n e q)
      ];
    };
    here = (p.current, find-after g u p t.numbering new u ∙ ground arith);
  }

  -- Fuel above the rank of the block is enough.
  pub topo_node_helper-Visits :
      ((u b : ℕ) → Source u (g.predecessors b) → rank u < rank b)
      → (f : ℕ) → Visits f (topo_node_helper f g)
  unfolding topo_node_helper
  topo_node_helper-Visits falls zero u o l i = absurd (omega arith)
  topo_node_helper-Visits falls (suc f) u o l i = elim (Bool-cases (o.visited u)) [
    | inl v ↦ (
      o,
      ground arith,
      record {
        numbering = i;
        grows = record { keeps = λ b n e. e; bounded = λ b n e k. absurd (ground (arith, e, k)) };
        here = i.numbered u v;
      },
    )
    | inr v ↦
        let (p, e, t) =
          for_sources-Visits f (rank u) (topo_node_helper f g) (topo_node_helper-Visits falls f)
            (omega arith) (g.predecessors u) o (λ s m. falls s u m) i in
        let new = still_new o p u v i t.numbering t.grows in
        (number_block g u p, ground (arith, e), numbered_here u o p new t)
  ]
