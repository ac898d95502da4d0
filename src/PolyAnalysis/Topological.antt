-- ===== src/PolyAnalysis/Topological.antt =====
-- _getPseudoTopo numbers every block, in a topological order of the graph without its back edges.
use polymalys.Common.{
  ℕ, zero, suc, ◌+◌, ◌≤◌, ◌<◌, true, false, Option, none, some, List, [], ◌∷◌, ◌≡◌, refl, ap, subst,
  ◌∙◌, ◌==◌, arith, inl, inr, Bool-cases,
}
use polymalys.Common.Count.{occ}
use polymalys.Common.StdMap.{find, find_nil}
use polymalys.PolyAnalysis.{
  Cfg, PseudoTopoOrder, no_order, directly_in, number_loop, for_blocks, topo_loop_helper,
  topo_node_helper, has_non_back_edges, number_blocks, get_pseudo_topo,
}
use polymalys.PolyAnalysis.Numbered.{Source, Numbered, IsNumbering, topo_node_helper-Visits}

-- What OTAWA's graphs are expected to be: without back edges there is no cycle, and loops nest
-- without a cycle, both to a depth below `f`; and an edge that leaves a block enters a block.
pub record IsReducible (g : Cfg) (f : ℕ) : Type 0 where
  pub rank : ℕ → ℕ
  pub rank_falls : (u b : ℕ) → Source u (g.predecessors b) → rank u < rank b
  pub rank_bound : (b : ℕ) → rank b < f
  pub height : ℕ → ℕ
  pub height_falls : (l b : ℕ) → directly_in g (some l) b ≡ true → height b < height l
  pub height_bound : (b : ℕ) → suc (height b) < f
  pub forward :
      (b : ℕ)
      → 1 ≤ occ b g.blocks
      → has_non_back_edges (g.successors b) ≡ true
      → (w : ℕ) × (1 ≤ occ w g.blocks) × Source b (g.predecessors w)

-- The state of the second phase before its first block.
record IsFresh (o : PseudoTopoOrder) : Type 0 where
  no_numbers : o.block_order ≡ []
  no_marks : (b : ℕ) → o.visited b ≡ false

module _ (g : Cfg) where
  number_loop-IsFresh : (l : Option ℕ) (o : PseudoTopoOrder) → IsFresh o → IsFresh (number_loop l o)
  unfolding number_loop
  number_loop-IsFresh none o h = h
  number_loop-IsFresh (some l) o h = record { no_numbers = h.no_numbers; no_marks = h.no_marks }

  for_blocks-IsFresh :
      (body : ℕ → PseudoTopoOrder → Option PseudoTopoOrder)
      → ((b : ℕ) (o : PseudoTopoOrder)
          → IsFresh o
          → (o' : PseudoTopoOrder) × (body b o ≡ some o') × IsFresh o')
      → (bs : List ℕ) (o : PseudoTopoOrder) → IsFresh o
      → (o' : PseudoTopoOrder) × (for_blocks body bs o ≡ some o') × IsFresh o'
  unfolding for_blocks
  for_blocks-IsFresh body h [] o i = (o, refl, i)
  for_blocks-IsFresh body h (b ∷ bs) o i =
      let (p, e, j) = h b o i in
      let (q, k, l) = for_blocks-IsFresh body h bs p j in (q, ground (arith, e, k), l)

  module _ {f : ℕ} (r : IsReducible g f) where
    -- the numbering of the loops ends, and numbers no block
    topo_loop_helper-IsFresh :
        (n : ℕ) (cl : Option ℕ) (o : PseudoTopoOrder)
        → ((b : ℕ) → directly_in g cl b ≡ true → suc (r.height b) < n)
        → 0 < n
        → IsFresh o
        → (o' : PseudoTopoOrder) × (topo_loop_helper n g cl o ≡ some o') × IsFresh o'
    unfolding topo_loop_helper
    topo_loop_helper-IsFresh zero cl o h l i = absurd (omega arith)
    topo_loop_helper-IsFresh (suc n) cl o h l i =
        let (p, e, j) =
          for_blocks-IsFresh
            (λ b o. elim (directly_in g cl b) [
              | true ↦ topo_loop_helper n g (some b) o
              | false ↦ some o
            ])
            (λ b o k. elim (Bool-cases (directly_in g cl b)) [
              | inl d ↦
                  let (q, a, m) =
                    topo_loop_helper-IsFresh n (some b) o
                      (λ c s. omega (arith, r.height_falls b c s, h b d)) (omega (arith, h b d))
                      k in
                  (q, ground (arith, a), m)
              | inr d ↦ (o, ground arith, k)
            ])
            g.blocks o i in
        (number_loop cl p, ground (arith, e), number_loop-IsFresh cl p j)

  IsFresh-IsNumbering : (o : PseudoTopoOrder) → IsFresh o → IsNumbering g o
  IsFresh-IsNumbering o h =
      let none_found = λ (b : ℕ). ap (find b) h.no_numbers ∙ find_nil {V = ℕ} b in
      record {
        marked = λ b n e. absurd (ground (arith, none_found b, e));
        numbered = λ b v. absurd (ground (arith, h.no_marks b, v));
        below = λ b n e. absurd (ground (arith, none_found b, e));
        distinct = λ a b n e k. absurd (ground (arith, none_found a, e));
        sorted = λ u b n s e. absurd (ground (arith, none_found b, e));
      }

  -- what the loop over the blocks must give for a list of them
  record SinksNumbered (bs : List ℕ) (o o' : PseudoTopoOrder) : Type 0 where
    numbering : IsNumbering g o'
    keeps : (b n : ℕ) → find b o.block_order ≡ some n → find b o'.block_order ≡ some n
    sinks : (b : ℕ) → 1 ≤ occ b bs → has_non_back_edges (g.successors b) ≡ false → Numbered o' b

  module _ {f : ℕ} (r : IsReducible g f) where
    abbrev visit_sink : ℕ → PseudoTopoOrder → Option PseudoTopoOrder
    visit_sink b o = elim (has_non_back_edges (g.successors b)) [
      | true ↦ some o
      | false ↦ topo_node_helper f g b o
    ]

    visit_sink_lem :
        (b : ℕ) (o : PseudoTopoOrder)
        → IsNumbering g o
        → (o' : PseudoTopoOrder) × (visit_sink b o ≡ some o') × SinksNumbered (b ∷ []) o o'
    unfolding occ
    visit_sink_lem b o i = elim (Bool-cases (has_non_back_edges (g.successors b))) [
      | inl e ↦ (
        o,
        ground arith,
        record {
          numbering = i;
          keeps = λ c n k. k;
          sinks = λ c l k. absurd (
              let p : b ≡ c = ground arith in
              cc (subst (λ t. has_non_back_edges (g.successors t) ≡ true) p e, k));
        },
      )
      | inr e ↦
          let (p, k, v) = topo_node_helper-Visits g r.rank r.rank_falls f b o (r.rank_bound b) i in
          (
            p,
            ground (arith, k),
            record {
              numbering = v.numbering;
              keeps = v.grows.keeps;
              sinks = λ c l s. (
                v.here.0,
                let q : b ≡ c = ground arith in
                    subst (λ t. find t p.block_order ≡ some v.here.0) q v.here.1,
              );
            },
          )
    ]

    for_blocks-SinksNumbered :
        (bs : List ℕ) (o : PseudoTopoOrder)
        → IsNumbering g o
        → (o' : PseudoTopoOrder) × (for_blocks visit_sink bs o ≡ some o') × SinksNumbered bs o o'
    unfolding for_blocks occ
    for_blocks-SinksNumbered [] o i = (
      o,
      refl,
      record { numbering = i; keeps = λ c n k. k; sinks = λ c l k. absurd (omega arith) },
    )
    for_blocks-SinksNumbered (b ∷ bs) o i =
        let (p, e, v) = visit_sink_lem b o i in
        let (q, k, w) = for_blocks-SinksNumbered bs p v.numbering in
        (
          q,
          ground (arith, e, k),
          record {
            numbering = w.numbering;
            keeps = λ c n h. w.keeps c n (v.keeps c n h);
            sinks = λ c l s. elim (Bool-cases (b == c)) [
              | inl same ↦ let (n, h) = v.sinks c (ground (arith, same)) s in (n, w.keeps c n h)
              | inr other ↦ w.sinks c (ground (arith, other)) s
            ];
          },
        )

    -- every block has a number once those without a way on have
    every-Numbered :
        (o : PseudoTopoOrder)
        → IsNumbering g o
        → ((b : ℕ)
            → 1 ≤ occ b g.blocks
            → has_non_back_edges (g.successors b) ≡ false
            → Numbered o b)
        → (k b : ℕ) → f ≤ r.rank b + k
        → 1 ≤ occ b g.blocks
        → Numbered o b
    every-Numbered o i s zero b l m = absurd (omega (arith, r.rank_bound b))
    every-Numbered o i s (suc k) b l m = elim (Bool-cases (has_non_back_edges (g.successors b))) [
      | inl e ↦
          let (w, mw, edge) = r.forward b m e in
          let (n, h) = every-Numbered o i s k w (omega (arith, r.rank_falls b w edge)) mw in
          let (c, at, less) = i.sorted b w n edge h in (c, at)
      | inr e ↦ s b m e
    ]

    -- The construction of the order ends: fuel above the ranks and the heights is enough. Then every
    -- block has a number, no two blocks have the same, and an edge that is no back edge leads from a
    -- smaller number to a greater one.
    pub get_pseudo_topo-IsNumbering :
        (o : PseudoTopoOrder) × (get_pseudo_topo f g ≡ some o)
        × IsNumbering g o
        × ((b : ℕ) → 1 ≤ occ b g.blocks → Numbered o b)
    unfolding get_pseudo_topo number_blocks
    get_pseudo_topo-IsNumbering =
        let (p, e, fresh) =
          topo_loop_helper-IsFresh r f none no_order (λ b d. r.height_bound b)
            (omega (arith, r.rank_bound 0)) (record { no_numbers = refl; no_marks = λ b. refl }) in
        let q = record p { current = 0 } in
        let (o, k, v) = for_blocks-SinksNumbered g.blocks q (
          IsFresh-IsNumbering q
            (record { no_numbers = fresh.no_numbers; no_marks = fresh.no_marks })) in
        (
          o,
          ground (arith, e, k),
          v.numbering,
          λ b m. every-Numbered o v.numbering v.sinks f b (omega arith) m,
        )
