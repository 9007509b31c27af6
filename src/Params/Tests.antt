-- ===== src/Params/Tests.antt =====
-- A store with a few parameters, and the theorems at it.
use Prim.Native.String.{String}
use aperture4_nick.Base.{ℕ, ◌≡◌, ◌≢◌, refl, [], ◌∷◌, none, some}
use aperture4_nick.Base.Maps.{find}
use aperture4_nick.Params.{is_int, an_int, some_strings, Store, get, add}
use aperture4_nick.Params.Store.{get-add}
use aperture4_nick.Params.Table.{Table, entry, empty, value, table, ValueView, read_table}
use aperture4_nick.Params.FirstWins.{read_table_lem, parameters, or_else}

-- with `ℕ` for `double`
abbrev stored : Store ℕ
stored = ("max_steps", an_int 100) ∷ ("names", some_strings ("a" ∷ "b" ∷ [])) ∷ []

get-add_example :
    (get is_int "max_steps" 1 (add is_int "max_steps" 7 stored)
      ≡ (7, add is_int "max_steps" 7 stored))
    × ((other : String)
        → "max_steps" ≢ other
        → find (add is_int "max_steps" 7 stored) other ≡ find stored other)
get-add_example = get-add is_int "max_steps" 7 1 stored

found : find stored "max_steps" ≡ some (an_int 100)
unfolding find
found = refl

absent : find stored "dt" ≡ none
unfolding find
absent = refl

abbrev number_view : ℕ → ValueView ℕ
number_view n = record { as_bool = none; as_int = some n; as_double = none; as_string = none }

-- `max_steps` again, and a table with `dt` in it
abbrev file : Table ℕ
file =
    entry "max_steps" (value (number_view 5))
      (entry "time" (table (entry "dt" (value (number_view 3)) empty)) empty)

read_table_lem_example :
    find (read_table file stored) "dt" ≡ or_else (find stored "dt") (find (parameters file) "dt")
read_table_lem_example = read_table_lem file stored "dt"
