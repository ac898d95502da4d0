-- ===== src/Mapping/Inverse.antt =====
-- The two tables of a Mapping stay inverse to one another.
use polymalys.Common.{
  Option, none, some, some-injective, ◌≡◌, refl, sym, ◌∙◌, ◌≢◌, if◌then◌else◌, Bool-cases,
  Option-cases, inl, inr, ap, arith, ◌↔◌, subst, ◌⊎◌,
}
use polymalys.Ident.{Ident, IdVal, ident_key, idval_key}
use polymalys.MyHTable.{HashKey, MyHTable, make_table, get, put, remove}
use polymalys.MyHTable.Lookup.{IsTable, get-put, get-remove, put-IsTable, remove-IsTable}
use polymalys.MyHTable.Copy.{make_table-IsTable, get-make_table}
use polymalys.Mapping.{Mapping, empty_mapping, find1, find2, forget_id, forget_guid, add, del2}

pub record IsMapping (m : Mapping) : Type 0 where
  pub ids : IsTable m.id2guid
  pub guids : IsTable m.guid2id
  pub inverse : (i : Ident) (v : IdVal) → (get m.id2guid i ≡ some v) ↔ (get m.guid2id v ≡ some i)

pub clash {ℓ} : {A : Type ℓ} (o : Option A) (a : A) → o ≡ none → o ≡ some a → ⊥
clash none a e f = ground (arith, f)
clash (some b) a e f = ground (arith, e)

pub same_some {ℓ} : {A : Type ℓ} (o : Option A) (a b : A) → o ≡ some a → o ≡ some b → a ≡ b
same_some o a b e f = some-injective a b (sym e ∙ f)

module _ {ℓ} {K T : Type ℓ} ⦃key : HashKey K⦄ where
  get-put_iff :
      (t : MyHTable K T) (k : K) (v : T) (q : K) (w : T)
      → IsTable t
      → (get (put t k v) q ≡ some w) ↔ (((k ≡ q) × (v ≡ w)) ⊎ ((k ≢ q) × (get t q ≡ some w)))
  get-put_iff t k v q w h = elim (Bool-cases (key.equals k q)) [
    | inl e ↦
        let same = (key.equals_iff k q).0 e in
        let is = get-put t k v q h ∙ ap (λ b. if b then some v else get t q) e in
        (
          λ f. inl (same, some-injective v w (sym is ∙ f)),
          elim [ inl (_, f) ↦ is ∙ ap some f | inr (n, _) ↦ absurd (n same) ],
        )
    | inr e ↦
        let differ : k ≢ q = λ s. ground (arith, e, (key.equals_iff k q).1 s) in
        let is = get-put t k v q h ∙ ap (λ b. if b then some v else get t q) e in
        (
          λ f. inr (differ, sym is ∙ f),
          elim [ inl (s, _) ↦ absurd (differ s) | inr (_, f) ↦ is ∙ f ],
        )
  ]

  get-remove_iff :
      (t : MyHTable K T) (k q : K) (w : T)
      → IsTable t
      → (get (remove t k) q ≡ some w) ↔ ((k ≢ q) × (get t q ≡ some w))
  get-remove_iff t k q w h = elim (Bool-cases (key.equals k q)) [
    | inl e ↦
        let is = get-remove t k q h ∙ ap (λ b. if b then none else get t q) e in
        (
          λ f. absurd (clash (get (remove t k) q) w is f),
          λ (n, _). absurd (n ((key.equals_iff k q).0 e)),
        )
    | inr e ↦
        let differ : k ≢ q = λ s. ground (arith, e, (key.equals_iff k q).1 s) in
        let is = get-remove t k q h ∙ ap (λ b. if b then none else get t q) e in
        (λ f. (differ, sym is ∙ f), λ (_, f). is ∙ f)
  ]

-- `forget_id` drops the pair of `i` from the second table, and changes nothing else
record Forgotten (m : Mapping) (i : Ident) (f : Mapping) : Type 0 where
  guids : IsTable f.guid2id
  same : f.id2guid ≡ m.id2guid
  pairs :
      (w : IdVal) (j : Ident) → (get f.guid2id w ≡ some j) ↔ ((i ≢ j) × (get m.guid2id w ≡ some j))

forget_id-Forgotten : (m : Mapping) (i : Ident) → IsMapping m → Forgotten m i (forget_id m i)
unfolding forget_id
forget_id-Forgotten m i h = elim (Option-cases (get m.id2guid i)) [
  | inl e ↦
      rw (forget_id, e)
        (record {
          guids = h.guids;
          same = refl;
          pairs = λ w j. (
            λ f. (
              λ s.
                  clash (get m.id2guid i) w e
                    ((h.inverse i w).1 (subst (λ x. get m.guid2id w ≡ some x) (sym s) f)),
              f,
            ),
            λ (_, f). f,
          );
        })
  | inr (v, e) ↦
      rw (forget_id, e)
        (record {
          guids = remove-IsTable m.guid2id v h.guids;
          same = refl;
          pairs = λ w j. (
            λ f.
                let (n, g) = (get-remove_iff m.guid2id v w j h.guids).0 f in
                (
                  λ s. n (
                      same_some (get m.id2guid i) v w e
                        ((h.inverse i w).1 (subst (λ x. get m.guid2id w ≡ some x) (sym s) g))),
                  g,
                ),
            λ (n, f). (get-remove_iff m.guid2id v w j h.guids).1 (
              λ s. n (
                  same_some (get m.guid2id w) i j
                    (subst (λ x. get m.guid2id x ≡ some i) s ((h.inverse i v).0 e)) f),
              f,
            ),
          );
        })
]

-- `forget_guid` drops the pair of `v` from the first table, where it is not the pair of `i`
record Freed (m f : Mapping) (i : Ident) (v : IdVal) (r : Mapping) : Type 0 where
  ids : IsTable r.id2guid
  same : r.guid2id ≡ f.guid2id
  pairs :
      (j : Ident) (w : IdVal)
      → i ≢ j
      → (get r.id2guid j ≡ some w) ↔ ((v ≢ w) × (get m.id2guid j ≡ some w))

forget_guid-Freed :
    (m f : Mapping) (i : Ident) (v : IdVal)
    → IsMapping m
    → Forgotten m i f
    → Freed m f i v (forget_guid f v)
unfolding forget_guid
forget_guid-Freed m f i v h g =
    let ids : IsTable f.id2guid = subst IsTable (sym g.same) h.ids in
    let old = λ (j : Ident) (w : IdVal).
      subst (λ t. (get t j ≡ some w) ↔ (get m.id2guid j ≡ some w)) (sym g.same) (λ x. x, λ x. x) in
    elim (Option-cases (get f.guid2id v)) [
      | inl e ↦
          rw (forget_guid, e)
            (record {
              ids = ids;
              same = refl;
              pairs = λ j w away. (
                λ x.
                    let there = (old j w).0 x in
                    (
                      λ s. clash (get f.guid2id v) j e (
                          (g.pairs v j).1 (
                            away,
                            (h.inverse j v).0 (subst (λ u. get m.id2guid j ≡ some u) (sym s) there),
                          )),
                      there,
                    ),
                λ (_, x). (old j w).1 x,
              );
            })
      | inr (k, e) ↦
          let (_, back) = (g.pairs v k).0 e in
          rw (forget_guid, e)
            (record {
              ids = remove-IsTable f.id2guid k ids;
              same = refl;
              pairs = λ j w away. (
                λ x.
                    let (n, y) = (get-remove_iff f.id2guid k j w ids).0 x in
                    let there = (old j w).0 y in
                    (
                      λ s. n (
                          same_some (get m.guid2id v) k j back (
                            (h.inverse j v).0
                              (subst (λ u. get m.id2guid j ≡ some u) (sym s) there))),
                      there,
                    ),
                λ (n, x). (get-remove_iff f.id2guid k j w ids).1 (
                  λ s. n (
                      same_some (get m.id2guid j) v w
                        (subst (λ u. get m.id2guid u ≡ some v) s ((h.inverse k v).1 back)) x),
                  (old j w).1 x,
                ),
              );
            })
    ]

-- what a Mapping binds after `add(i, v)`
abbrev pub Added : Mapping → Ident → IdVal → Ident → IdVal → Type 0
Added m i v j w = ((i ≡ j) × (v ≡ w)) ⊎ ((i ≢ j) × ((v ≢ w) × (get m.id2guid j ≡ some w)))

Added-ids :
    (m : Mapping) (i : Ident) (v : IdVal)
    → IsMapping m
    → (j : Ident) (w : IdVal) → (get (add m i v).id2guid j ≡ some w) ↔ Added m i v j w
unfolding add
Added-ids m i v h j w =
    let g = forget_id-Forgotten m i h in
    let r = forget_guid-Freed m (forget_id m i) i v h g in
    let p = get-put_iff (forget_guid (forget_id m i) v).id2guid i v j w r.ids in
    (
      λ e. elim (p.0 e) [ inl x ↦ inl x | inr (n, y) ↦ inr (n, (r.pairs j w n).0 y) ],
      λ e. p.1 (elim e [ inl x ↦ inl x | inr (n, y) ↦ inr (n, (r.pairs j w n).1 y) ]),
    )

Added-guids :
    (m : Mapping) (i : Ident) (v : IdVal)
    → IsMapping m
    → (j : Ident) (w : IdVal) → (get (add m i v).guid2id w ≡ some j) ↔ Added m i v j w
unfolding add
Added-guids m i v h j w =
    let g = forget_id-Forgotten m i h in
    let r = forget_guid-Freed m (forget_id m i) i v h g in
    let t = (forget_guid (forget_id m i) v).guid2id in
    let valid : IsTable t = subst IsTable (sym r.same) g.guids in
    let p = get-put_iff t v i w j valid in
    let q =
      subst (λ u. (get u w ≡ some j) ↔ ((i ≢ j) × (get m.guid2id w ≡ some j))) (sym r.same)
        (g.pairs w j) in
    (
      λ e. elim (p.0 e) [
        | inl x ↦ inl (x.1, x.0)
        | inr (n, y) ↦ inr ((q.0 y).0, (n, (h.inverse j w).1 (q.0 y).1))
      ],
      λ e. p.1 (elim e [
        | inl x ↦ inl (x.1, x.0)
        | inr (n, y) ↦ inr (y.0, q.1 (n, (h.inverse j w).0 y.1))
      ]),
    )

-- `add(i, v)` keeps the two tables inverse to one another, and afterwards `i` and `v` are paired
-- with each other, their former partners with nothing, and everything else as it was.
pub add-IsMapping :
    (m : Mapping) (i : Ident) (v : IdVal)
    → IsMapping m
    → IsMapping (add m i v)
      × ((j : Ident) (w : IdVal) → (find1 (add m i v) j ≡ some w) ↔ Added m i v j w)
unfolding add find1
add-IsMapping m i v h =
    let g = forget_id-Forgotten m i h in
    let r = forget_guid-Freed m (forget_id m i) i v h g in
    (
      record {
        ids = put-IsTable (forget_guid (forget_id m i) v).id2guid i v r.ids;
        guids =
            put-IsTable (forget_guid (forget_id m i) v).guid2id v i
              (subst IsTable (sym r.same) g.guids);
        inverse = λ j w. (
          λ e. (Added-guids m i v h j w).1 ((Added-ids m i v h j w).0 e),
          λ e. (Added-ids m i v h j w).1 ((Added-guids m i v h j w).0 e),
        );
      },
      Added-ids m i v h,
    )

module _ (m : Mapping) (v : IdVal) (i : Ident) (h : IsMapping m)
    (e : get m.guid2id v ≡ some i) where
  other_guid : (j : Ident) (w : IdVal) → get m.id2guid j ≡ some w → i ≢ j → v ≢ w
  other_guid j w x n s = n (
      same_some (get m.guid2id v) i j e
        ((h.inverse j v).0 (subst (λ u. get m.id2guid j ≡ some u) (sym s) x)))

  other_id : (j : Ident) (w : IdVal) → get m.id2guid j ≡ some w → v ≢ w → i ≢ j
  other_id j w x n s = n (
      same_some (get m.id2guid j) v w
        (subst (λ u. get m.id2guid u ≡ some v) s ((h.inverse i v).1 e)) x)

-- `del2(v)` of a variable that is bound drops its pair and nothing else.
pub del2-IsMapping :
    (m : Mapping) (v : IdVal) (i : Ident)
    → IsMapping m
    → find2 m v ≡ some i
    → (r : Mapping) × (del2 m v ≡ some r)
      × IsMapping r
      × ((j : Ident) (w : IdVal) → (find1 r j ≡ some w) ↔ ((v ≢ w) × (find1 m j ≡ some w)))
unfolding del2 find1 find2
del2-IsMapping m v i h e =
    let ids = λ (j : Ident) (w : IdVal). get-remove_iff m.id2guid i j w h.ids in
    let guids = λ (j : Ident) (w : IdVal). get-remove_iff m.guid2id v w j h.guids in
    (
      record { id2guid = remove m.id2guid i; guid2id = remove m.guid2id v },
      rw (del2, e) refl,
      record {
        ids = remove-IsTable m.id2guid i h.ids;
        guids = remove-IsTable m.guid2id v h.guids;
        inverse = λ j w. (
          λ x.
              let (n, y) = (ids j w).0 x in
              (guids j w).1 (other_guid m v i h e j w y n, (h.inverse j w).0 y),
          λ x.
              let (n, y) = (guids j w).0 x in
              let z = (h.inverse j w).1 y in (ids j w).1 (other_id m v i h e j w z n, z),
        );
      },
      λ j w. (
        λ x. let (n, y) = (ids j w).0 x in (other_guid m v i h e j w y n, y),
        λ (n, y). (ids j w).1 (other_id m v i h e j w y n, y),
      ),
    )

pub empty_mapping-IsMapping : IsMapping empty_mapping
unfolding empty_mapping
empty_mapping-IsMapping = record {
  ids = make_table-IsTable 211 (omega arith);
  guids = make_table-IsTable 211 (omega arith);
  inverse = λ i v. (
    λ x. absurd (clash (get (make_table {T = IdVal} 211) i) v (get-make_table 211 i) x),
    λ x. absurd (clash (get (make_table {T = Ident} 211) v) i (get-make_table 211 v) x),
  );
}
