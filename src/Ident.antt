-- ===== src/Ident.antt =====
-- Identifiers, their types and the hash functions of include/PPLDomain.h. A 32-bit `int` enters a
-- hash (t::hash, 64 bits without sign) by wrap-around.
use polymalys.Common.{
  ℕ, ◌+◌, ◌-◌, ◌*◌, ◌%◌, ◌^◌, Bool, true, ◌&&◌, ◌≡◌, ◌↔◌, refl, ◌==◌, ==_iff, ap, ap₂, arith, sym,
  ◌∙◌, get_or, [], ◌∷◌,
}
use polymalys.Common.Int.{ℤ, pos, negsuc, eqb_ℤ, eqb_ℤ_iff}
use polymalys.MyHTable.{HashKey}

pub data IdentType : Type 0 where
  id_reg : IdentType
  id_reg_input : IdentType
  id_mem_addr : IdentType
  id_mem_count : IdentType
  id_mem_val : IdentType
  id_mem_val_plus : IdentType
  id_mem_val_minus : IdentType
  id_mem_val_input : IdentType
  id_special : IdentType
  id_loop : IdentType
  id_invalid : IdentType

-- the number of an enumerator
abbrev pub type_number : IdentType → ℕ
type_number id_reg = 0
type_number id_reg_input = 1
type_number id_mem_addr = 2
type_number id_mem_count = 3
type_number id_mem_val = 4
type_number id_mem_val_plus = 5
type_number id_mem_val_minus = 6
type_number id_mem_val_input = 7
type_number id_special = 8
type_number id_loop = 9
type_number id_invalid = 10

abbrev type_of_number : ℕ → IdentType
type_of_number n =
    get_or
      (id_reg ∷ id_reg_input ∷ id_mem_addr ∷ id_mem_count ∷ id_mem_val ∷ id_mem_val_plus
        ∷ id_mem_val_minus ∷ id_mem_val_input ∷ id_special ∷ id_loop ∷ [])
      n id_invalid

of_type_number : (t : IdentType) → type_of_number (type_number t) ≡ t
of_type_number id_reg = refl
of_type_number id_reg_input = refl
of_type_number id_mem_addr = refl
of_type_number id_mem_count = refl
of_type_number id_mem_val = refl
of_type_number id_mem_val_plus = refl
of_type_number id_mem_val_minus = refl
of_type_number id_mem_val_input = refl
of_type_number id_special = refl
of_type_number id_loop = refl
of_type_number id_invalid = refl

pub record Ident : Type 0 where
  pub id : ℤ
  pub type : IdentType

-- Ident()
abbrev pub invalid : Ident
invalid = record { id = pos 0; type = id_invalid }

-- Ident(id, typ)
abbrev pub ident : ℤ → IdentType → Ident
ident i t = record { id = i; type = t }

-- operator== on IdentType
unfoldable pub same_type : IdentType → IdentType → Bool
same_type a b = type_number a == type_number b

unfoldable pub ident_equals : Ident → Ident → Bool
unfolding same_type
ident_equals a b = eqb_ℤ a.id b.id && same_type a.type b.type

-- conversion to t::hash
unfoldable pub to_hash : ℤ → ℕ
to_hash (pos n) = n % 2 ^ 64
to_hash (negsuc n) = 2 ^ 64 - 1 - n % 2 ^ 64

-- HashIdent::hash
unfoldable pub hash_ident : Ident → ℕ
unfolding to_hash
hash_ident k = to_hash k.id

-- `s` is NO_STEP (-1), STEP_BOT (0) or a step
pub record IdVal : Type 0 where
  pub g : ℕ
  pub s : ℤ

abbrev pub no_step : ℤ
no_step = negsuc 0

unfoldable pub idval_equals : IdVal → IdVal → Bool
idval_equals a b = (a.g == b.g) && eqb_ℤ a.s b.s

-- HashIdVal::hash
unfoldable pub hash_idval : IdVal → ℕ
unfolding to_hash
hash_idval v = (31 * ((31 * 1 + v.g) % 2 ^ 64) + to_hash v.s) % 2 ^ 64

same_type_iff : (a b : IdentType) → (same_type a b ≡ true) ↔ (a ≡ b)
unfolding same_type
same_type_iff a b = (
  λ e.
      sym (of_type_number a)
      ∙ ap type_of_number ((==_iff (type_number a) (type_number b)).0 e)
      ∙ of_type_number b,
  λ e. (==_iff (type_number a) (type_number b)).1 (ap type_number e),
)

ident_equals_iff : (a b : Ident) → (ident_equals a b ≡ true) ↔ (a ≡ b)
unfolding ident_equals
ident_equals_iff a b = (
  λ e.
      ap₂ ident ((eqb_ℤ_iff a.id b.id).0 (ground (arith, e)))
        ((same_type_iff a.type b.type).0 (ground (arith, e))),
  λ e. ground (
    arith,
    (eqb_ℤ_iff a.id b.id).1 (ap (λ x. x.id) e),
    (same_type_iff a.type b.type).1 (ap (λ x. x.type) e),
  ),
)

abbrev idval : ℕ → ℤ → IdVal
idval g s = record { g = g; s = s }

idval_equals_iff : (a b : IdVal) → (idval_equals a b ≡ true) ↔ (a ≡ b)
unfolding idval_equals
idval_equals_iff a b = (
  λ e.
      ap₂ idval ((==_iff a.g b.g).0 (ground (arith, e)))
        ((eqb_ℤ_iff a.s b.s).0 (ground (arith, e))),
  λ e.
      ground (arith, (==_iff a.g b.g).1 (ap (λ x. x.g) e), (eqb_ℤ_iff a.s b.s).1 (ap (λ x. x.s) e)),
)

instance pub ident_key : HashKey Ident
ident_key = record { hash = hash_ident; equals = ident_equals; equals_iff = ident_equals_iff }

instance pub idval_key : HashKey IdVal
idval_key = record { hash = hash_idval; equals = idval_equals; equals_iff = idval_equals_iff }
