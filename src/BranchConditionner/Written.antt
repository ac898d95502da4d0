-- ===== src/BranchConditionner/Written.antt =====
-- The condition that is written for a branch says what the projected constraints say.
use mathlib.Core.List.{append_assoc, append-nil}
use polymalys.Common.{
  ℕ, ◌≤◌, true, false, Option, none, some, List, [], ◌∷◌, ◌++◌, ◌≡◌, refl, sym, ap, subst, ◌∙◌,
  arith, if◌then◌else◌, ◌==◌, All, map, Bool-cases, Option-cases, inl, inr,
}
use polymalys.Common.Count.{occ}
use polymalys.Common.Int.{ℤ, ◌+ℤ◌}
use polymalys.Common.StdMap.{
  StdMap, find, has, IsMap, find-put, put-IsMap, map_ext, has-find, find-has, find_nil,
}
use polymalys.Linear.{WVar, CType, WCons}
use polymalys.Linear.Value.{Valuation, value, sum_coefs, IsExpr}
use polymalys.BranchConditionner.{
  Piece, zero_is, and_also, Text, emplace_coef, collect_coefs, terms_text, constant_text,
  constraint_text, constraints_text,
}
use polymalys.BranchConditionner.Reader.{
  IsShort, Relation, read_text, first_then, Rest, ended, more, text_of, finish, read-constraint,
}

abbrev or_else : Option ℤ → Option ℤ → Option ℤ
or_else none b = b
or_else (some a) b = some a

missing_coef :
    (a b : Option ℤ) (v g : ℕ) → (v ≡ g → b ≡ none) → a ≡ (if v == g then or_else a b else a)
missing_coef none b v g h = elim (Bool-cases (v == g)) [
  | inl e ↦ rw e (sym (h (ground arith)))
  | inr e ↦ rw e refl
]
missing_coef (some a) b v g h = ground arith

had_coef :
    (v g : ℕ) (b : Option ℤ) (vs : StdMap ℤ)
    → has v vs ≡ true
    → find g vs ≡ (if v == g then or_else (find g vs) b else find g vs)
had_coef v g b vs h = elim (Option-cases (find g vs)) [
  | inl e ↦ elim (Bool-cases (v == g)) [
    | inl s ↦ absurd (ground (arith, find-has g vs e))
    | inr s ↦ rw s refl
  ]
  | inr (a, e) ↦ rw e (ground arith)
]

new_coef :
    (v g : ℕ) (k : ℤ) (b : Option ℤ) (vs : StdMap ℤ)
    → has v vs ≡ false
    → (v ≡ g → b ≡ some k)
    → (if v == g then some k else find g vs) ≡ (if v == g then or_else (find g vs) b else find g vs)
new_coef v g k b vs h e = elim (Bool-cases (v == g)) [
  | inl s ↦
      let same : v ≡ g = ground arith in
      let free : find g vs ≡ none = subst (λ t. find t vs ≡ none) same (has-find v vs h) in
      rw (s, free) (sym (e same))
  | inr s ↦ rw s refl
]

find-emplace_coef :
    (o b : Option ℤ) (v g : ℕ) (vs : StdMap ℤ)
    → (v ≡ g → b ≡ o)
    → find g (emplace_coef o v vs) ≡ (if v == g then or_else (find g vs) b else find g vs)
unfolding emplace_coef
find-emplace_coef none b v g vs e = missing_coef (find g vs) b v g e
find-emplace_coef (some k) b v g vs e = elim (Bool-cases (has v vs)) [
  | inl h ↦ rw h (had_coef v g b vs h)
  | inr h ↦ rw h (find-put v g k vs ∙ new_coef v g k b vs h e)
]

emplace_coef-IsMap : (o : Option ℤ) (v : ℕ) (vs : StdMap ℤ) → IsMap vs → IsMap (emplace_coef o v vs)
unfolding emplace_coef
emplace_coef-IsMap none v vs h = h
emplace_coef-IsMap (some k) v vs h = elim (Bool-cases (has v vs)) [
  | inl there ↦ rw there h
  | inr new ↦ rw new (put-IsMap v k vs h)
]

find-collect_coefs :
    (vars : List WVar) (g : ℕ) (c : WCons) (vs : StdMap ℤ)
    → find g (collect_coefs vars c vs)
      ≡ (if occ g vars == 0 then find g vs else or_else (find g vs) (find g c.expr.coefs))
unfolding collect_coefs occ
find-collect_coefs [] g c vs = ground arith
find-collect_coefs (v ∷ vars) g c vs =
    let o = find v c.expr.coefs in
    find-collect_coefs vars g c (emplace_coef o v vs)
    ∙ ground (
      arith,
      find-emplace_coef o (find g c.expr.coefs) v g vs (λ s. ap (λ t. find t c.expr.coefs) (sym s)),
    )

collect_coefs-IsMap :
    (vars : List WVar) (c : WCons) (vs : StdMap ℤ) → IsMap vs → IsMap (collect_coefs vars c vs)
unfolding collect_coefs
collect_coefs-IsMap [] c vs h = h
collect_coefs-IsMap (v ∷ vars) c vs h =
    collect_coefs-IsMap vars c (emplace_coef (find v c.expr.coefs) v vs)
      (emplace_coef-IsMap (find v c.expr.coefs) v vs h)

-- What is asked of a constraint: sorted terms, numbers of at most 7 digits, and variables that the
-- polyhedron lists.
pub record IsWritable (vars : List WVar) (c : WCons) : Type 0 where
  pub sorted : IsExpr c.expr
  pub short_coefs : All (λ (e : ℕ × ℤ). IsShort e.1) c.expr.coefs
  pub short_cst : IsShort c.expr.cst
  pub listed : (g : ℕ) (k : ℤ) → find g c.expr.coefs ≡ some k → 1 ≤ occ g vars

collect_coefs_lem :
    (vars : List WVar) (c : WCons) → IsWritable vars c → collect_coefs vars c [] ≡ c.expr.coefs
collect_coefs_lem vars c h =
    map_ext (collect_coefs vars c []) c.expr.coefs (collect_coefs-IsMap vars c [] tt) h.sorted (λ g.
      elim (Option-cases (find g c.expr.coefs)) [
        | inl e ↦ find-collect_coefs vars g c [] ∙ ground (arith, find_nil {V = ℤ} g)
        | inr (k, e) ↦
            find-collect_coefs vars g c [] ∙ ground (arith, h.listed g k e, find_nil {V = ℤ} g)
      ])

collect_coefs-IsShort :
    (vars : List WVar) (c : WCons)
    → IsWritable vars c
    → All (λ (e : ℕ × ℤ). IsShort e.1) (collect_coefs vars c [])
collect_coefs-IsShort vars c h =
    subst (All (λ (e : ℕ × ℤ). IsShort e.1)) (sym (collect_coefs_lem vars c h)) h.short_coefs

-- the text of the constraints after the first
rest_of : List WVar → List WCons → Rest
rest_of vars [] = ended
rest_of vars (c ∷ cs) = more c.ctype (
    (terms_text true (collect_coefs vars c []) ++ constant_text c.expr.cst)
    ++ text_of (rest_of vars cs))

constraints_text-rest :
    (vars : List WVar) (cs : List WCons) (p : Piece) (ps : Text)
    → constraints_text vars cs (p ∷ ps) ≡ (p ∷ ps) ++ text_of (rest_of vars cs)
unfolding constraints_text rest_of constraint_text
constraints_text-rest vars [] p ps = sym (append-nil (p ∷ ps))
constraints_text-rest vars (c ∷ cs) p ps =
    constraints_text-rest vars cs p (ps ++ and_also ∷ constraint_text vars c)
    ∙ append_assoc (p ∷ ps) (and_also ∷ constraint_text vars c) (text_of (rest_of vars cs))

module _ (ρ : Valuation) where
  -- the relation of 0 that a constraint states
  abbrev pub relation_of : WCons → Relation
  relation_of c = (c.ctype, value ρ c.expr)

  finish-rest :
      (vars : List WVar) (t : CType) (acc : ℤ) (cs : List WCons)
      → All (IsWritable vars) cs
      → finish ρ t acc (rest_of vars cs) ≡ some ((t, acc) ∷ map relation_of cs)
  unfolding rest_of value
  finish-rest vars t acc [] h = refl
  finish-rest vars t acc (c ∷ cs) h = ap (first_then (t, acc)) (
      read-constraint ρ (collect_coefs vars c []) c.expr.cst c.ctype (rest_of vars cs)
        (collect_coefs-IsShort vars c h.0) h.0.short_cst
      ∙ finish-rest vars c.ctype _ cs h.1
      ∙ ap (λ m. some ((c.ctype, sum_coefs ρ m +ℤ c.expr.cst) ∷ map relation_of cs))
          (collect_coefs_lem vars c h.0))

  -- The condition of a branch, read with the values of the parameters, is the list of the relations
  -- that the constraints state, where there is a constraint, its terms are sorted, its numbers have
  -- at most 7 digits, and the polyhedron lists its variables.
  pub constraints_text-read :
      (vars : List WVar) (c : WCons) (cs : List WCons)
      → All (IsWritable vars) (c ∷ cs)
      → read_text ρ (constraints_text vars (c ∷ cs) []) ≡ some (map relation_of (c ∷ cs))
  unfolding constraints_text constraint_text read_text value
  constraints_text-read vars c cs h =
      ap (read_text ρ) (
        constraints_text-rest vars cs (zero_is c.ctype)
          (terms_text true (collect_coefs vars c []) ++ constant_text c.expr.cst))
      ∙ read-constraint ρ (collect_coefs vars c []) c.expr.cst c.ctype (rest_of vars cs)
          (collect_coefs-IsShort vars c h.0) h.0.short_cst
      ∙ finish-rest vars c.ctype _ cs h.1
      ∙ ap (λ m. some ((c.ctype, sum_coefs ρ m +ℤ c.expr.cst) ∷ map relation_of cs))
          (collect_coefs_lem vars c h.0)
