-- ===== src/PplDomain/Load.antt =====
-- The LOAD case of onSemInst in poly_PPLDomain.cpp: the register gets the value of each abstract
-- location that is at the address, or of the program's initial memory. The process and its initial
-- state belong to OTAWA and are arguments. `none` is a failed assertion or an exception.
use polymalys.Common.{
  ℕ, suc, ◌/◌, ◌%◌, ◌^◌, Bool, true, false, not, ◌&&◌, ◌||◌, Option, none, some, [], ◌∷◌, ◌++◌,
  if◌then◌else◌,
}
use polymalys.Common.Int.{ℤ, pos, eqb_ℤ}
use polymalys.Linear.{WVar, of_var, of_cst, cons_equal}
use polymalys.Ppl.{Ppl}
use polymalys.Ident.{
  Ident, IdVal, ident, id_mem_addr, id_mem_count, id_mem_val, id_mem_val_plus, id_mem_val_minus,
  same_type, no_step,
}
use polymalys.MyHTable.{Chain, entries}
use polymalys.PplDomain.{PplDomain, get_var, var_new, must_alias, get_constant, get_ui}
use polymalys.PplDomain.Loops.{do_new_constraint}
use polymalys.PplDomain.Memory.{mem_tab_create, do_expand}
use polymalys.PplDomain.Replace.{do_av_expand}
use polymalys.PplDomain.SemInst.{Counted, register}
use polymalys.PplDomain.Delta.{Solver, step_bot, must_supseteq}

-- the process: the initial value of an address, and whether its segment may be written
pub record Memory : Type 0 where
  pub initial : ℕ → Option ℕ
  pub writable : ℕ → Bool

module _ (P : Ppl) (solver : Solver P) (memory : Memory) where
  -- `loadReg == expanded`, where `expanded` is dropped at the next clean-up
  unfoldable pub equal_victim : PplDomain P → WVar → WVar → PplDomain P
  unfolding do_new_constraint cons_equal of_var
  equal_victim s reg v =
      do_new_constraint P (cons_equal (of_var reg) (of_var v))
        (record s { victims = s.victims ++ v ∷ [] })

  -- a copy of the value of an array, with `WVar expanded`
  unfoldable pub load_copy : Counted P → WVar → WVar → Option (Counted P)
  unfolding do_expand equal_victim
  load_copy (guid, s) reg value = elim (do_expand P s value guid) [
    | none ↦ none
    | some r ↦ some (suc guid, equal_victim r reg guid)
  ]

  -- the avatar case, with `WVar expandedPlus` and `WVar expandedMinus`
  unfoldable pub load_avatar : Counted P → WVar → WVar → WVar → Option (Counted P)
  unfolding do_av_expand do_new_constraint cons_equal of_var
  load_avatar (guid, s) reg plus minus = elim (do_av_expand P s plus minus guid (suc guid)) [
    | none ↦ none
    | some r ↦
        let r1 = do_new_constraint P (cons_equal (of_var reg) (of_var guid)) r in
        let r2 = do_new_constraint P (cons_equal (of_var reg) (of_var (suc guid))) r1 in
        some (suc (suc guid), record r2 { victims = r2.victims ++ guid ∷ suc guid ∷ [] })
  ]

  -- a location that is at the address: `alias` and `step` are those of its base
  unfoldable pub load_location : Counted P → WVar → ℤ → Bool → ℤ → Option (Counted P)
  unfolding get_var do_new_constraint cons_equal of_var load_copy load_avatar
  load_location (guid, s) reg number alias step = elim (get_var P s (ident number id_mem_val)) [
    | some value ↦
        if alias && eqb_ℤ step step_bot
        then some (guid, do_new_constraint P (cons_equal (of_var reg) (of_var value.g)) s)
        else load_copy (guid, s) reg value.g
    | none ↦ elim (get_var P s (ident number id_mem_val_plus)) [
      | none ↦ none
      | some plus ↦ elim (get_var P s (ident number id_mem_val_minus)) [
        | none ↦ none
        | some minus ↦ load_avatar (guid, s) reg plus.g minus.g
      ]
    ]
  ]

  -- whether the location of `base` with `step` contains the address, where it can be an array
  unfoldable pub contains_address : PplDomain P → WVar → ℤ → WVar → WVar → Option Bool
  unfolding must_supseteq of_cst
  contains_address before base step count address =
      if not (eqb_ℤ step no_step) && not (eqb_ℤ step step_bot)
      then must_supseteq P solver before base step count address no_step (of_cst (pos 1))
      else some false

  -- one identifier: whether a location was found, and the state; each uses up `WVar one`
  unfoldable pub load_entry :
      PplDomain P → WVar → WVar → Ident → IdVal → Bool × Counted P → Option (Bool × Counted P)
  unfolding same_type get_var must_alias contains_address load_location
  load_entry before address reg i v (found, (guid, s)) =
      if not (same_type i.type id_mem_addr)
      then some (found, (guid, s))
      else elim (get_var P before (ident i.id id_mem_addr)) [
        | none ↦ none
        | some base ↦ elim (get_var P before (ident i.id id_mem_count)) [
          | none ↦ none
          | some count ↦
              let alias = must_alias P before address v.g (pos 0) in
              elim (contains_address before base.g base.s count.g address) [
                | none ↦ none
                | some inside ↦
                    if alias || inside
                    then if eqb_ℤ base.s no_step || (eqb_ℤ base.s step_bot || (not alias || inside))
                      then elim (load_location (suc guid, s) reg i.id alias base.s) [
                        | none ↦ none
                        | some st ↦ some (true, st)
                      ]
                      else none
                    else some (found, (suc guid, s))
              ]
        ]
      ]

  unfoldable pub load_entries :
      PplDomain P → WVar → WVar → Chain Ident IdVal → Bool × Counted P → Option (Bool × Counted P)
  unfolding load_entry
  load_entries before address reg [] st = some st
  load_entries before address reg ((i, v) ∷ c) st = elim (load_entry before address reg i v st) [
    | none ↦ none
    | some st' ↦ load_entries before address reg c st'
  ]

  -- memGetInitial: the address and its value, both of 32 bits
  unfoldable pub mem_get_initial : PplDomain P → WVar → Option (ℕ × ℕ)
  unfolding get_constant get_ui
  mem_get_initial s address = elim (get_constant P s address) [
    | none ↦ none
    | some (n, den) ↦
        let a = get_ui n / get_ui den % 2 ^ 32 in
        elim (memory.initial a) [ none ↦ none | some x ↦ some (a, x) ]
  ]

  -- no location was found: a new one, where the memory may change; the constant is looked for in the
  -- register as it is after it was written
  unfoldable pub load_new : Counted P → ℤ → WVar → WVar → Option (Counted P)
  unfolding get_var mem_get_initial mem_tab_create do_new_constraint cons_equal of_var of_cst
  load_new (guid, s) a address reg =
      let create =
        mem_tab_create P s guid (of_var address) (of_var reg) step_bot (of_cst (pos 1)) false in
      elim (get_var P s (register a)) [
        | none ↦ none
        | some v ↦ elim (mem_get_initial s v.g) [
          | none ↦ elim create [ none ↦ none | some (w, guid', r) ↦ some (guid', r) ]
          | some (x, n) ↦
              let value = cons_equal (of_var reg) (of_cst (pos n)) in
              if memory.writable x
              then elim create [
                | none ↦ none
                | some (w, guid', r) ↦ some (guid', do_new_constraint P value r)
              ]
              else some (guid, do_new_constraint P value s)
        ]
      ]

  -- LOAD: d <- MEM(a)
  unfoldable pub load : Counted P → ℤ → ℤ → Option (Counted P)
  unfolding get_var var_new entries load_entries load_new
  load (guid, s) d a = elim (get_var P s (register a)) [
    | none ↦ none
    | some address ↦ elim (var_new P s guid (register d) no_step true) [
      | none ↦ none
      | some (reg, guid', r) ↦
          elim (load_entries s address.g reg (entries r.idmap.id2guid) (false, (guid', r))) [
            | none ↦ none
            | some (true, st) ↦ some st
            | some (false, st) ↦ load_new st a address.g reg
          ]
    ]
  ]
