-- ===== src/Params/FirstWins.antt =====
-- framework/params_store.cpp, `read_table`: the tables of a file are flattened into one list of named
-- parameters, of which the first with a name counts.
use Prim.Native.String.{String}
use text.Mathlib.TextEquality.{eq_iff}
use aperture4_nick.Base.{List, [], ◌∷◌, ◌++◌, Option, none, some, ◌≡◌, refl, sym, ap, ◌∙◌, arith}
use aperture4_nick.Base.Maps.{find, insert}
use aperture4_nick.Params.{
  Kind, is_bool, is_int, is_double, is_string, is_bools, is_ints, is_doubles, is_strings, Param,
  Value, Store, param,
}
use aperture4_nick.Params.Table.{
  ValueView, ArrayView, Node, table_array, table, array, value, other, Table, empty, entry, Tables,
  no_tables, one_table, read_array, read_value, read_table, read_node, read_tables,
}

module _ {A : Type 0} where
  abbrev pub or_else : Option A → Option A → Option A
  or_else (some x) o = some x
  or_else none o = o

  or_else_assoc : (a b c : Option A) → or_else (or_else a b) c ≡ or_else a (or_else b c)
  or_else_assoc (some x) b c = refl
  or_else_assoc none b c = refl

  or_else-none : (a : Option A) → or_else a none ≡ a
  or_else-none (some x) = refl
  or_else-none none = refl

  find-append :
      (xs ys : List (String × A)) (key : String)
      → find (xs ++ ys) key ≡ or_else (find xs key) (find ys key)
  unfolding find
  find-append [] ys key = refl
  find-append ((k, x) ∷ xs) ys key = ground (arith, find-append xs ys key)

  find-insert :
      (name : String) (x : A) (m : List (String × A)) (key : String)
      → find (insert name x m) key ≡ or_else (find m key) (find ((name, x) ∷ []) key)
  unfolding find insert
  find-insert name x [] key = refl
  find-insert name x ((k, y) ∷ m) key =
      ground (arith, find-insert name x m key, eq_iff k name, eq_iff k key, eq_iff name key)

module _ {R : Type 0} where
  -- The parameter that a value or an array is, if it is one: booleans are tried first, then integers,
  -- then floating point numbers, then texts.
  abbrev pub first_of :
      Option (Param R) → Option (Param R) → Option (Param R) → Option (Param R) → Option (Param R)
  first_of a b c d = or_else a (or_else b (or_else c d))

  abbrev pub with_kind : (k : Kind) → Option (Value R k) → Option (Param R)
  with_kind k none = none
  with_kind k (some v) = some (param k v)

  abbrev pub value_param : ValueView R → Option (Param R)
  value_param v =
      first_of (with_kind is_bool v.as_bool) (with_kind is_int v.as_int)
        (with_kind is_double v.as_double) (with_kind is_string v.as_string)

  abbrev pub array_param : ArrayView R → Option (Param R)
  array_param a =
      first_of (with_kind is_bools a.of_bool) (with_kind is_ints a.of_int)
        (with_kind is_doubles a.of_double) (with_kind is_strings a.of_string)

  abbrev pub named : String → Option (Param R) → Store R
  named name none = []
  named name (some p) = (name, p) ∷ []

  mutual
    -- All parameters of a table, those of the tables in it included, in the order of the iteration over each table.
    pub parameters : Table R → Store R
    parameters empty = []
    parameters (entry name node rest) = node_parameters name node ++ parameters rest

    pub node_parameters : String → Node R → Store R
    node_parameters name (table_array ts) = tables_parameters ts
    node_parameters name (table t) = parameters t
    node_parameters name (array a) = named name (array_param a)
    node_parameters name (value v) = named name (value_param v)
    node_parameters name other = []

    pub tables_parameters : Tables R → Store R
    tables_parameters no_tables = []
    tables_parameters (one_table t ts) = parameters t ++ tables_parameters ts

  insert_some : String → Option (Param R) → Store R → Store R
  insert_some name none s = s
  insert_some name (some p) s = insert name p s

  find-insert_some :
      (name : String) (o : Option (Param R)) (s : Store R) (key : String)
      → find (insert_some name o s) key ≡ or_else (find s key) (find (named name o) key)
  unfolding insert_some find
  find-insert_some name none s key = sym (or_else-none (find s key))
  find-insert_some name (some p) s key = find-insert name p s key

  read_array-insert :
      (name : String) (a : ArrayView R) (s : Store R)
      → read_array name a s ≡ insert_some name (array_param a) s
  unfolding read_array insert_some
  read_array-insert name a s = ground arith

  read_value-insert :
      (name : String) (v : ValueView R) (s : Store R)
      → read_value name v s ≡ insert_some name (value_param v) s
  unfolding read_value insert_some
  read_value-insert name v s = ground arith

  mutual
    unfolding find parameters node_parameters tables_parameters read_table read_node read_tables

    read_table-first :
        (t : Table R) (s : Store R) (key : String)
        → find (read_table t s) key ≡ or_else (find s key) (find (parameters t) key)
    read_table-first empty s key = sym (or_else-none (find s key))
    read_table-first (entry name node rest) s key =
        read_table-first rest (read_node name node s) key
        ∙ ap (λ (o : Option (Param R)). or_else o (find (parameters rest) key))
            (read_node-first name node s key)
        ∙ or_else_assoc (find s key) (find (node_parameters name node) key)
            (find (parameters rest) key)
        ∙ ap (or_else (find s key))
            (sym (find-append (node_parameters name node) (parameters rest) key))

    read_node-first :
        (name : String) (node : Node R) (s : Store R) (key : String)
        → find (read_node name node s) key
          ≡ or_else (find s key) (find (node_parameters name node) key)
    read_node-first name (table_array ts) s key = read_tables-first ts s key
    read_node-first name (table t) s key = read_table-first t s key
    read_node-first name (array a) s key =
        rw (read_array-insert name a s) (find-insert_some name (array_param a) s key)
    read_node-first name (value v) s key =
        rw (read_value-insert name v s) (find-insert_some name (value_param v) s key)
    read_node-first name other s key = sym (or_else-none (find s key))

    read_tables-first :
        (ts : Tables R) (s : Store R) (key : String)
        → find (read_tables ts s) key ≡ or_else (find s key) (find (tables_parameters ts) key)
    read_tables-first no_tables s key = sym (or_else-none (find s key))
    read_tables-first (one_table t ts) s key =
        read_tables-first ts (read_table t s) key
        ∙ ap (λ (o : Option (Param R)). or_else o (find (tables_parameters ts) key))
            (read_table-first t s key)
        ∙ or_else_assoc (find s key) (find (parameters t) key) (find (tables_parameters ts) key)
        ∙ ap (or_else (find s key)) (sym (find-append (parameters t) (tables_parameters ts) key))

  -- After a table is read, a name that the store had keeps its parameter, and every other name has
  -- the parameter of that name that comes first in the order in which the reader iterates over each
  -- table and goes into the tables in it, if there is one. That order is the library's: its maps are
  -- hash maps, so it is not the order of the file.
  pub read_table_lem :
      (t : Table R) (s : Store R) (key : String)
      → find (read_table t s) key ≡ or_else (find s key) (find (parameters t) key)
  read_table_lem t s key = read_table-first t s key
