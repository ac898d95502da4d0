-- ===== src/WPoly/Matching.antt =====
-- The map of dimensions that WPoly::combine of poly_PolyWrap.cpp builds to bring a WPoly to the
-- dimensions of another one.
pub mod Result
pub mod Missing
pub mod Intersection
pub mod Shared
pub mod Hull
use polymalys.Common.{
  ℕ, ◌-◌, ◌≤◌, some, [], ◌∷◌, ◌≡◌, refl, sym, ap, subst, ◌∙◌, ◌==◌, arith, Bool-cases, inl, inr,
  some-injective,
}
use polymalys.Common.StdMap.{
  StdMap, find, put, IsMap, find-put, find_nil, find_head, find_tail, find_later, put-IsMap,
}
use polymalys.WPoly.Combine.{max_codomain, source_map}
use polymalys.WPoly.Drop.Moved.{Distinct}

max_codomain-le : (m : StdMap ℕ) (a : ℕ) → a ≤ max_codomain m a
unfolding max_codomain
max_codomain-le [] a = omega arith
max_codomain-le ((i, j) ∷ m) a = ground (arith, max_codomain-le m j, max_codomain-le m a)

pub max_codomain-find : (m : StdMap ℕ) (a i j : ℕ) → find i m ≡ some j → j ≤ max_codomain m a
unfolding max_codomain find
max_codomain-find [] a i j e = absurd (ground (arith, e))
max_codomain-find ((k, l) ∷ m) a i j e = ground (
  arith,
  e,
  max_codomain-le m l,
  max_codomain-le m a,
  max_codomain-find m l i j,
  max_codomain-find m a i j,
)

pub max_codomain_bound :
    (m : StdMap ℕ) (a n : ℕ)
    → IsMap m
    → a ≤ n
    → ((i j : ℕ) → find i m ≡ some j → j ≤ n)
    → max_codomain m a ≤ n
unfolding max_codomain
max_codomain_bound [] a n s l h = l
max_codomain_bound ((k, j) ∷ m) a n s l h =
    let here = h k j (find_head k j m) in
    let rest = λ (i d : ℕ) (e : find i m ≡ some d). h i d (find_later k j m s.0 i d e) in
    ground (arith, max_codomain_bound m j n s.1 here rest, max_codomain_bound m a n s.1 l rest)

module _ (w s : StdMap ℕ) (dw : Distinct w) (ds : Distinct s) where
  -- the dimensions of one variable
  abbrev Matches : ℕ → ℕ → Type 0
  Matches j d = (g : ℕ) × (find g s ≡ some j) × (find g w ≡ some d)

  abbrev Sound : StdMap ℕ → Type 0
  Sound r = (j d : ℕ) → find j r ≡ some d → Matches j d

  -- a variable that both track
  put-Sound :
      (g j d : ℕ) (r : StdMap ℕ)
      → find g s ≡ some j
      → find g w ≡ some d
      → Sound r
      → Sound (put j d r)
  put-Sound g j d r e f h i c k = elim (Bool-cases (j == i)) [
    | inl q ↦
        let same : j ≡ i = ground arith in
        let value : d ≡ c = ground (arith, find-put j i d r) in
        (g, subst (λ t. find g s ≡ some t) same e, subst (λ t. find g w ≡ some t) value f)
    | inr q ↦ h i c (ground (arith, find-put j i d r))
  ]

  put-keeps :
      (g j d : ℕ) (r : StdMap ℕ)
      → find g s ≡ some j
      → find g w ≡ some d
      → Sound r
      → (i c : ℕ) → find i r ≡ some c
      → find i (put j d r) ≡ some c
  put-keeps g j d r e f h i c k = elim (Bool-cases (j == i)) [
    | inl q ↦
        let same : j ≡ i = ground arith in
        let (b, x, y) = h i c k in
        let one : g ≡ b = ds g b i (subst (λ t. find g s ≡ some t) same e) x in
        let value : d ≡ c = some-injective d c (sym f ∙ ap (λ t. find t w) one ∙ y) in
        ground (arith, find-put j i d r)
    | inr q ↦ ground (arith, find-put j i d r)
  ]

  record IsSource (m r : StdMap ℕ) (t : StdMap ℕ × StdMap ℕ) : Type 0 where
    adapter : t.0 ≡ s
    sound : Sound t.1
    ordered : IsMap t.1
    keeps : (i c : ℕ) → find i r ≡ some c → find i t.1 ≡ some c
    complete : (g j d : ℕ) → find g m ≡ some d → find g s ≡ some j → find j t.1 ≡ some d

  source_map_found :
      (g d j : ℕ) (m r : StdMap ℕ)
      → find g s ≡ some j
      → source_map ((g, d) ∷ m) s r ≡ source_map m s (put j d r)
  unfolding source_map
  source_map_found g d j m r e = rw (e, source_map) refl

  source_map-IsSource :
      (m r : StdMap ℕ)
      → IsMap m
      → IsMap r
      → ((g d : ℕ) → find g m ≡ some d → find g w ≡ some d)
      → ((g d : ℕ) → find g m ≡ some d → (j : ℕ) × (find g s ≡ some j))
      → Sound r
      → IsSource m r (source_map m s r)
  unfolding source_map
  source_map-IsSource [] r o p part both h = record {
    adapter = refl;
    sound = h;
    ordered = p;
    keeps = λ i c e. e;
    complete = λ g j d e f. absurd (ground (arith, e, find_nil {V = ℕ} g));
  }
  source_map-IsSource ((g, d) ∷ m) r o p part both h =
      let (j, e) = both g d (find_head g d m) in
      let f = part g d (find_head g d m) in
      let later = find_later g d m o.0 in
      let t =
        source_map-IsSource m (put j d r) o.1 (put-IsMap j d r p) (λ k c q. part k c (later k c q))
          (λ k c q. both k c (later k c q)) (put-Sound g j d r e f h) in
      subst (IsSource ((g, d) ∷ m) r) (sym (source_map_found g d j m r e)) (record {
        adapter = t.adapter;
        sound = t.sound;
        ordered = t.ordered;
        keeps = λ i c q. t.keeps i c (put-keeps g j d r e f h i c q);
        complete = λ k i c q x. elim (Bool-cases (g == k)) [
          | inl same ↦
              let one : g ≡ k = ground arith in
              let dim : j ≡ i = some-injective j i (sym e ∙ ap (λ b. find b s) one ∙ x) in
              let value : d ≡ c =
                some-injective d c
                  (sym (find_head g d m) ∙ ap (λ b. find b ((g, d) ∷ m)) one ∙ q) in
              t.keeps i c (ground (arith, find-put j i d r))
          | inr other ↦ t.complete k i c (sym (find_tail g k d m other) ∙ q) x
        ];
      })

  pub record IsMatching (t : StdMap ℕ × StdMap ℕ) : Type 0 where
    pub adapter : t.0 ≡ s
    pub ordered : IsMap t.1
    pub sound :
        (j d : ℕ) → find j t.1 ≡ some d → (g : ℕ) × (find g s ≡ some j) × (find g w ≡ some d)
    pub complete : (g j d : ℕ) → find g w ≡ some d → find g s ≡ some j → find j t.1 ≡ some d

  pub source_map-IsMatching :
      IsMap w
      → ((g d : ℕ) → find g w ≡ some d → (j : ℕ) × (find g s ≡ some j))
      → IsMatching (source_map w s [])
  source_map-IsMatching o both =
      let t =
        source_map-IsSource w [] o tt (λ g d e. e) both
          (λ j d e. absurd (ground (arith, e, find_nil {V = ℕ} j))) in
      record { adapter = t.adapter; ordered = t.ordered; sound = t.sound; complete = t.complete }
