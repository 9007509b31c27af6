-- ===== src/Params/Table.antt =====
-- framework/params_store.cpp, `read_table`: a parsed file is a tree of nodes. What the parser answers
-- to the typed queries on a value or an array is part of the node.
use Prim.Native.String.{String}
use aperture4_nick.Base.{ℕ, Bool, List, Option, none, some}
use aperture4_nick.Base.Maps.{insert}
use aperture4_nick.Params.{
  is_bool, is_int, is_double, is_string, is_bools, is_ints, is_doubles, is_strings, Store, param,
}

module _ (R : Type 0) where
  -- `as<bool>()`, `as<int64_t>()`, `as<double>()`, `as<std::string>()`
  pub record ValueView : Type 0 where
    pub as_bool : Option Bool
    pub as_int : Option ℕ
    pub as_double : Option R
    pub as_string : Option String

  -- `get_array_of` at the same types
  pub record ArrayView : Type 0 where
    pub of_bool : Option (List Bool)
    pub of_int : Option (List ℕ)
    pub of_double : Option (List R)
    pub of_string : Option (List String)

  mutual
    -- The four tests of `read_table` exclude each other; `other` fails them all.
    pub data Node : Type 0 where
      table_array : Tables → Node
      table : Table → Node
      array : ArrayView → Node
      value : ValueView → Node
      other : Node

    -- the entries in the order in which the map of the parsing library, a hash map, is iterated over
    pub data Table : Type 0 where
      empty : Table
      entry : String → Node → Table → Table

    pub data Tables : Type 0 where
      no_tables : Tables
      one_table : Table → Tables → Tables

module _ {R : Type 0} where
  -- The first of the four queries that succeeds decides the type.
  unfoldable pub read_array : String → ArrayView R → Store R → Store R
  read_array name a s = elim a.of_bool [
    | some v ↦ insert name (param is_bools v) s
    | none ↦ elim a.of_int [
      | some v ↦ insert name (param is_ints v) s
      | none ↦ elim a.of_double [
        | some v ↦ insert name (param is_doubles v) s
        | none ↦ elim a.of_string [ some v ↦ insert name (param is_strings v) s | none ↦ s ]
      ]
    ]
  ]

  unfoldable pub read_value : String → ValueView R → Store R → Store R
  read_value name a s = elim a.as_bool [
    | some v ↦ insert name (param is_bool v) s
    | none ↦ elim a.as_int [
      | some v ↦ insert name (param is_int v) s
      | none ↦ elim a.as_double [
        | some v ↦ insert name (param is_double v) s
        | none ↦ elim a.as_string [ some v ↦ insert name (param is_string v) s | none ↦ s ]
      ]
    ]
  ]

  unfoldable mutual
    pub read_table : Table R → Store R → Store R
    read_table empty s = s
    read_table (entry name node rest) s = read_table rest (read_node name node s)

    pub read_node : String → Node R → Store R → Store R
    read_node name (table_array ts) s = read_tables ts s
    read_node name (table t) s = read_table t s
    read_node name (array a) s = read_array name a s
    read_node name (value v) s = read_value name v s
    read_node name other s = s

    pub read_tables : Tables R → Store R → Store R
    read_tables no_tables s = s
    read_tables (one_table t ts) s = read_tables ts (read_table t s)
