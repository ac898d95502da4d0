-- ===== src/Mapping.antt =====
-- Mapping of include/PPLDomain.h: identifiers to polyhedron variables and back, in two tables.
pub mod Inverse
use polymalys.Common.{
  ℕ, Bool, true, false, ◌&&◌, Option, none, some, List, [], ◌∷◌, if◌then◌else◌, length,
}
use polymalys.Ident.{Ident, IdVal, ident_key, idval_key, ident_equals, idval_equals}
use polymalys.MyHTable.{MyHTable, Chain, make_table, get, has_key, put, remove, entries, count}

pub record Mapping : Type 0 where
  pub id2guid : MyHTable Ident IdVal
  pub guid2id : MyHTable IdVal Ident

unfoldable pub empty_mapping : Mapping
unfolding make_table
empty_mapping = record { id2guid = make_table 211; guid2id = make_table 211 }

unfoldable pub has1 : Mapping → Ident → Bool
unfolding has_key
has1 m i = has_key m.id2guid i

unfoldable pub has2 : Mapping → IdVal → Bool
unfolding has_key
has2 m v = has_key m.guid2id v

-- `none` is the failed assertion of a key that is not in the table
unfoldable pub find1 : Mapping → Ident → Option IdVal
unfolding get
find1 m i = get m.id2guid i

unfoldable pub find2 : Mapping → IdVal → Option Ident
unfolding get
find2 m v = get m.guid2id v

-- the first test of `add`
unfoldable pub forget_id : Mapping → Ident → Mapping
unfolding get remove
forget_id m i = elim (get m.id2guid i) [
  | none ↦ m
  | some w ↦ record m { guid2id = remove m.guid2id w }
]

-- the second test of `add`
unfoldable pub forget_guid : Mapping → IdVal → Mapping
unfolding get remove
forget_guid m v = elim (get m.guid2id v) [
  | none ↦ m
  | some j ↦ record m { id2guid = remove m.id2guid j }
]

unfoldable pub add : Mapping → Ident → IdVal → Mapping
unfolding forget_id forget_guid put
add m i v =
    let m' = forget_guid (forget_id m i) v in
    record { id2guid = put m'.id2guid i v; guid2id = put m'.guid2id v i }

unfoldable pub del1 : Mapping → Ident → Option Mapping
unfolding get remove
del1 m i = elim (get m.id2guid i) [
  | none ↦ none
  | some v ↦ some (record { id2guid = remove m.id2guid i; guid2id = remove m.guid2id v })
]

unfoldable pub del2 : Mapping → IdVal → Option Mapping
unfolding get remove
del2 m v = elim (get m.guid2id v) [
  | none ↦ none
  | some i ↦ some (record { id2guid = remove m.id2guid i; guid2id = remove m.guid2id v })
]

-- the first loop of `includes`
unfoldable pub ids_included : Chain Ident IdVal → Mapping → Bool
unfolding get idval_equals
ids_included [] src = true
ids_included ((i, v) ∷ c) src = elim (get src.id2guid i) [
  | none ↦ false
  | some w ↦ if idval_equals w v then ids_included c src else false
]

-- the second loop of `includes`
unfoldable pub guids_included : Chain IdVal Ident → Mapping → Bool
unfolding get ident_equals
guids_included [] src = true
guids_included ((v, i) ∷ c) src = elim (get src.guid2id v) [
  | none ↦ false
  | some j ↦ if ident_equals i j then guids_included c src else false
]

unfoldable pub includes : Mapping → Mapping → Bool
unfolding entries ids_included guids_included
includes m src =
    if ids_included (entries m.id2guid) src then guids_included (entries m.guid2id) src else false

-- operator==
unfoldable pub mapping_equals : Mapping → Mapping → Bool
unfolding includes
mapping_equals m src = includes m src && includes src m
