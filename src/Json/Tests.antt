-- ===== src/Json/Tests.antt =====
-- The serializer at concrete values.
use libcsics.Base.{◌+◌, ◌≡◌, refl, true, [], ◌∷◌, ◌++◌, some, arith, length}
use libcsics.Wire.{ok}
use libcsics.Json.Sink.{quote, put, put_all, escape_char, escape}
use libcsics.Json.Write.{
  Formats, Value, null, boolean, integer, iterable, structure, no_items, item, no_members, member,
  begin, key, write_bool, end_obj, apply, serialize,
}
use libcsics.Json.Text.{json}
use libcsics.Json.Text.Emit.{sink}
use libcsics.Json.Text.Serialize.{serialize-json}
use libcsics.Json.Strings.{plain, read_string, read_string-escape}
use libcsics.Json.Failures.{apply-structure}

-- One digit for any number.
abbrev formats : Formats
formats = record { decimal = λ n. (n + 48) ∷ []; general = λ n. (n + 48) ∷ [] }

-- {"k":[true,7],"n":null}
abbrev thing : Value
thing = structure (
    member (107 ∷ []) (iterable (item (boolean true) (item (integer 7) no_items)))
      (member (110 ∷ []) null no_members))

thing-length : length (json formats thing ++ []) ≡ 23
unfolding escape escape_char
thing-length = refl

serialize-json_example : serialize formats thing 23 ≡ some (ok, json formats thing ++ [])
serialize-json_example = serialize-json formats thing 23 (omega (arith, thing-length))

read_string-escape_example :
    read_string plain (escape (195 ∷ 10 ∷ 34 ∷ []) ++ (quote ∷ 44 ∷ []))
    ≡ some (195 ∷ 10 ∷ 34 ∷ [], 44 ∷ [])
read_string-escape_example = read_string-escape (195 ∷ 10 ∷ 34 ∷ []) (44 ∷ []) (ground arith)

-- A class with one field, in a view of seven bytes: the field does not fit, and `{"k"}` is left.
abbrev flag : Value
flag = structure (member (107 ∷ []) (boolean true) no_members)

flag_cut : apply formats flag (sink [] [] 7) ≡ some (ok, sink [] (125 ∷ 34 ∷ 107 ∷ 34 ∷ 123 ∷ []) 2)
unfolding apply begin put put_all key escape escape_char write_bool end_obj
flag_cut = refl

apply-structure_example : ok ≡ ok
apply-structure_example =
    apply-structure formats (member (107 ∷ []) (boolean true) no_members) (sink [] [] 7)
      (sink [] (125 ∷ 34 ∷ 107 ∷ 34 ∷ 123 ∷ []) 2) ok flag_cut
