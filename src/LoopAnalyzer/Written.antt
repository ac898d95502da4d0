-- ===== src/LoopAnalyzer/Written.antt =====
-- The text that computeLinearBound writes has the value of the constraint that it comes from.
use mathlib.Core.List.{append_assoc}
use mathlib.Core.Option.{none-ne-some}
use polymalys.Common.{
  ℕ, Bool, true, false, Option, none, some, some-injective, [], ◌∷◌, ◌++◌, ◌≡◌, ◌≢◌, ◌⊎◌, refl, sym,
  ap, subst, ◌∙◌, if◌then◌else◌, ◌==◌, arith, All, bind_some, Bool-cases, inl, inr,
}
use polymalys.Common.Int.{ℤ, pos, negsuc, neg_ℤ, ◌+ℤ◌, ◌-ℤ◌, ◌*ℤ◌, eqb_ℤ, eqb_ℤ_iff, +ℤ-zero}
use polymalys.Common.StdMap.{StdMap, find, IsMap, find_above}
use polymalys.Linear.{WCons}
use polymalys.Linear.Value.{Valuation, value, IsExpr}
use polymalys.MyHTable.{HashKey, MyHTable}
use polymalys.LoopAnalyzer.{
  number, divided_by, Text, Writer, mentions_both, term_text, param_id, write_term, write_terms,
  constant_text, atoi, divided_text, constraint_text,
}
use polymalys.LoopAnalyzer.Sum.{sum_params, value_split, regroup, neg_ℤ-*ℤ, move_over}
use polymalys.LoopAnalyzer.Reader.{
  start, whole, read, next_mode, read-term_text, read-constant_text, read-constant_text-over,
}

-- the coefficient that `bufSign` is left with
abbrev sign_after : Option ℤ → Option ℤ → Option ℤ
sign_after none old = old
sign_after (some c) old = some (neg_ℤ c)

abbrev pub IsNonzero : StdMap ℤ → Type 0
IsNonzero m = All (λ (e : ℕ × ℤ). e.1 ≢ pos 0) m

module _ ⦃key : HashKey ℕ⦄ (mapping : MyHTable ℕ ℤ) where
  -- The parameters have the values of the variables that they stand for.
  abbrev pub Linked : Valuation → (ℤ → ℤ) → Type 0
  Linked ρ σ = (g : ℕ) (i : ℤ) → param_id mapping g ≡ some i → σ i ≡ ρ g

  -- the two branches of `write_term`
  write_term_cases :
      (g : ℕ) (c : ℤ) (w w' : Writer)
      → write_term mapping g c w ≡ some w'
      → (((g == 0) ≡ true) × (record w { buf_sign = some (neg_ℤ c) } ≡ w'))
        ⊎ (((g == 0) ≡ false)
            × ((id : ℤ) × (param_id mapping g ≡ some id)
                × (record w { first = false; loop_bound = w.loop_bound ++ term_text w.first c id }
                    ≡ w')))
  unfolding write_term
  write_term_cases g c w w' e = elim (Bool-cases (g == 0)) [
    | inl z ↦ inl (z, some-injective _ w' (rw z at e))
    | inr z ↦
        let (id, p, q) =
          bind_some (param_id mapping g)
            (λ id.
              some
                (record w { first = false; loop_bound = w.loop_bound ++ term_text w.first c id }))
            w' (rw z at e) in
        inr (z, (id, p, some-injective _ w' q))
  ]

  module _ (ρ : Valuation) (σ : ℤ → ℤ) (link : Linked ρ σ) where
    -- What was written is read as `a`, whatever follows.
    abbrev Reads : Writer → ℤ → Type 0
    Reads w a =
        (paren : Bool) (t : Text)
        → read σ paren start (pos 0) (w.loop_bound ++ t) ≡ read σ paren (next_mode w.first) a t

    write_term-Reads :
        (g : ℕ) (c : ℤ) (w w' : Writer) (a : ℤ)
        → c ≢ pos 0
        → write_term mapping g c w ≡ some w'
        → Reads w a
        → Reads w' (if g == 0 then a else a +ℤ c *ℤ ρ g)
    write_term-Reads g c w w' a nz e r = elim (write_term_cases g c w w' e) [
      | inl (z, q) ↦ rw z (subst (λ u. Reads u a) q r)
      | inr (z, (id, p, q)) ↦ rw z (
          subst (λ u. Reads u (a +ℤ c *ℤ ρ g)) q
            (λ paren t.
              ap (read σ paren start (pos 0)) (append_assoc w.loop_bound (term_text w.first c id) t)
              ∙ r paren (term_text w.first c id ++ t)
              ∙ read-term_text σ paren w.first c id a t nz
              ∙ ap (λ v. read σ paren whole (a +ℤ c *ℤ v) t) (link g id p)))
    ]

    write_terms-Reads :
        (m : StdMap ℤ) (w w' : Writer) (a : ℤ)
        → IsNonzero m
        → write_terms mapping m w ≡ some w'
        → Reads w a
        → Reads w' (a +ℤ sum_params ρ m)
    unfolding write_terms sum_params
    write_terms-Reads [] w w' a nz e r =
        rw (+ℤ-zero a) (subst (λ u. Reads u a) (some-injective w w' e) r)
    write_terms-Reads ((g, c) ∷ m) w w' a nz e r =
        let (u, s, q) = bind_some (write_term mapping g c w) (write_terms mapping m) w' e in
        subst (Reads w') (regroup a (c *ℤ ρ g) (sum_params ρ m) (g == 0))
          (write_terms-Reads m u w' _ nz.1 q (write_term-Reads g c w u a nz.0 s r))

  write_term-first :
      (g : ℕ) (c : ℤ) (w w' : Writer)
      → write_term mapping g c w ≡ some w'
      → (w.first ≡ false) ⊎ ((g == 0) ≡ false)
      → w'.first ≡ false
  write_term-first g c w w' e h = elim (write_term_cases g c w w' e) [
    | inl (z, q) ↦ ground (arith, h, q)
    | inr (z, (id, p, q)) ↦ ground (arith, q)
  ]

  -- a kept constraint leaves a term in the text
  write_terms-first :
      (m : StdMap ℤ) (w w' : Writer) (b p : Bool)
      → write_terms mapping m w ≡ some w'
      → (w.first ≡ false) ⊎ ((p ≡ false) × (mentions_both m b p ≡ true))
      → w'.first ≡ false
  unfolding write_terms mentions_both
  write_terms-first [] w w' b p e (inl f) = ground (arith, e)
  write_terms-first [] w w' b p e (inr f) = absurd (ground (arith, f))
  write_terms-first ((g, c) ∷ m) w w' b p e (inl f) =
      let (u, s, q) = bind_some (write_term mapping g c w) (write_terms mapping m) w' e in
      write_terms-first m u w' b p q (inl (write_term-first g c w u s (inl f)))
  write_terms-first ((g, c) ∷ m) w w' b p e (inr f) =
      let (u, s, q) = bind_some (write_term mapping g c w) (write_terms mapping m) w' e in
      elim (Bool-cases (g == 0)) [
        | inl z ↦ write_terms-first m u w' true p q (inr (f.0, ground (arith, f)))
        | inr z ↦ write_terms-first m u w' b p q (inl (write_term-first g c w u s (inr z)))
      ]

  write_term-sign :
      (g : ℕ) (c : ℤ) (w w' : Writer)
      → write_term mapping g c w ≡ some w'
      → w'.buf_sign ≡ (if g == 0 then some (neg_ℤ c) else w.buf_sign)
  write_term-sign g c w w' e = elim (write_term_cases g c w w' e) [
    | inl (z, q) ↦ ground (arith, q)
    | inr (z, (id, p, q)) ↦ ground (arith, q)
  ]

  write_terms-sign :
      (m : StdMap ℤ) (w w' : Writer)
      → IsMap m
      → write_terms mapping m w ≡ some w'
      → w'.buf_sign ≡ sign_after (find 0 m) w.buf_sign
  unfolding write_terms find
  write_terms-sign [] w w' h e = ground (arith, e)
  write_terms-sign ((g, c) ∷ m) w w' h e =
      let (u, s, r) = bind_some (write_term mapping g c w) (write_terms mapping m) w' e in
      ground (arith, write_term-sign g c w u s, write_terms-sign m u w' h.1 r, find_above g m h.0)

  -- what is read in the text for an induction `k`
  divided_text-read :
      (σ : ℤ → ℤ) (w : Writer) (a k : ℤ) (cst : ℤ) (text : Text)
      → ((paren : Bool) (t : Text)
          → read σ paren start (pos 0) (w.loop_bound ++ t) ≡ read σ paren whole a t)
      → divided_text k (w.loop_bound ++ constant_text cst) ≡ some text
      → (k ≢ pos 0) × (read σ false start (pos 0) text ≡ some (a +ℤ cst, k))
  unfolding divided_text read
  divided_text-read σ w a k cst text r e = elim (Bool-cases (eqb_ℤ k (pos 0))) [
    | inl z ↦ absurd (none-ne-some text (rw z at e))
    | inr z ↦ (
      λ q. cc (subst (λ v. eqb_ℤ v (pos 0) ≡ false) q z),
      elim (Bool-cases (eqb_ℤ k (pos 1))) [
        | inl one ↦
            let t : w.loop_bound ++ constant_text cst ≡ text =
              some-injective _ text (rw (z, one) at e) in
            subst (λ u. read σ false start (pos 0) u ≡ some (a +ℤ cst, k)) t
              (r false (constant_text cst)
                ∙ read-constant_text σ cst a
                ∙ ap (λ v. some (a +ℤ cst, v)) (sym ((eqb_ℤ_iff k (pos 1)).0 one)))
        | inr other ↦
            let t = some-injective _ text (rw (z, other) at e) in
            subst (λ u. read σ false start (pos 0) u ≡ some (a +ℤ cst, k)) t
              (ap (read σ true start (pos 0)) (append_assoc w.loop_bound (constant_text cst) _)
                ∙ r true (constant_text cst ++ divided_by ∷ number k ∷ [])
                ∙ read-constant_text-over σ cst a k)
      ],
    )
  ]

  -- The text reads as a quotient of numbers n and k, the constraint's expression is worth n - k * v0,
  -- where v0 counts the iterations, and k is the negated coefficient of v0.
  abbrev pub IsQuotient : Valuation → (ℤ → ℤ) → WCons → Text → Type 0
  IsQuotient ρ σ c text =
      (n : ℤ) × (k : ℤ) × (read σ false start (pos 0) text ≡ some (n, k))
      × (k ≢ pos 0)
      × (value ρ c.expr ≡ n -ℤ k *ℤ ρ 0)
      × ((d : ℤ) × (find 0 c.expr.coefs ≡ some d) × (neg_ℤ d ≡ k))

  sign_inv :
      (o : Option ℤ) (sign : ℤ)
      → sign_after o none ≡ some sign
      → (d : ℤ) × (o ≡ some d) × (neg_ℤ d ≡ sign)
  sign_inv none sign e = absurd (none-ne-some sign e)
  sign_inv (some d) sign e = (d, refl, some-injective _ sign e)

  atoi_lem : (c i : ℤ) → atoi c ≡ some i → c ≡ i
  unfolding atoi
  atoi_lem (pos n) i e = ground (arith, e)
  atoi_lem (negsuc n) i e = ground (arith, e)

  abbrev blank : Writer
  blank = record { buf_sign = none; first = true; loop_bound = [] }

  quotient_value :
      (ρ : Valuation) (c : WCons) (d : ℤ)
      → IsExpr c.expr
      → find 0 c.expr.coefs ≡ some d
      → value ρ c.expr ≡ pos 0 +ℤ sum_params ρ c.expr.coefs +ℤ c.expr.cst -ℤ neg_ℤ d *ℤ ρ 0
  unfolding value
  quotient_value ρ c d h e = rw (value_split ρ c.expr.coefs d h e) (
      move_over (d *ℤ ρ 0) (sum_params ρ c.expr.coefs) c.expr.cst (neg_ℤ d *ℤ ρ 0)
        (neg_ℤ-*ℤ d (ρ 0)))

  -- The text that is written for a constraint is read back as a quotient of n and k, where k is the
  -- negated coefficient of v0 and not 0, and the constraint's expression is worth n - k * v0 in each
  -- valuation. The constraint mentions the loop's
  -- variable v0 and a parameter, its terms are sorted and none is zero, and the parameters of the text
  -- have the values of the variables that they stand for.
  pub constraint_text-read :
      (ρ : Valuation) (σ : ℤ → ℤ) (c : WCons) (text : Text)
      → Linked ρ σ
      → IsExpr c.expr
      → IsNonzero c.expr.coefs
      → mentions_both c.expr.coefs false false ≡ true
      → constraint_text mapping c ≡ some (some text)
      → IsQuotient ρ σ c text
  unfolding constraint_text
  constraint_text-read ρ σ c text link h nz both e =
      let m = c.expr.coefs in
      let (w, s, q) = bind_some (write_terms mapping m blank) _ (some text) e in
      let (sign, b, q') = bind_some w.buf_sign _ (some text) q in
      let (k, at, q'') = bind_some (atoi sign) _ (some text) q' in
      let done = write_terms-first m blank w false false s (inr (refl, both)) in
      let r = write_terms-Reads ρ σ link m blank w (pos 0) nz s (λ paren t. refl) in
      let text_of =
        divided_text-read σ w _ k c.expr.cst text
          (λ paren t.
            subst
              (λ f.
                read σ paren start (pos 0) (w.loop_bound ++ t)
                ≡ read σ paren (next_mode f) (pos 0 +ℤ sum_params ρ m) t)
              done (r paren t))
          (some-injective _ (some text) q'') in
      let (d, found, negated) =
        sign_inv (find 0 m) sign (sym (write_terms-sign m blank w h s) ∙ b) in
      (
        pos 0 +ℤ sum_params ρ m +ℤ c.expr.cst,
        k,
        text_of.1,
        text_of.0,
        subst (λ i. value ρ c.expr ≡ pos 0 +ℤ sum_params ρ m +ℤ c.expr.cst -ℤ i *ℤ ρ 0)
            (negated ∙ atoi_lem sign k at) (quotient_value ρ c d h found),
        (d, found, negated ∙ atoi_lem sign k at),
      )
