-- ===== src/Json/Write.antt =====
-- The calls of the serializer, and `apply` over a value.
use libcsics.Base.{
  ℕ, ◌+◌, Bool, ltb, leb, ◌==◌, ◌||◌, if◌then◌else◌, List, [], ◌∷◌, ◌++◌, Option, none, some,
  length, reverse,
}
use libcsics.Wire.{Status, ok, buffer_full}
use libcsics.Json.Sink.{
  quote, comma, colon, open_brace, close_brace, open_bracket, close_bracket, JsonState, array,
  object, Sink, ◌>>=◌, put, put_all, escape,
}

-- `std::snprintf` of an `std::int64_t` and `std::to_chars` of a `double`, both by their bit patterns.
pub record Formats : Type 0 where
  pub decimal : ℕ → List ℕ
  pub general : ℕ → List ℕ

-- A C++ value by the concept that picks its `apply`: a class with fields, a range, or a map with
-- string keys.
mutual
  pub data Value : Type 0 where
    null : Value
    boolean : Bool → Value
    integer : ℕ → Value
    number : ℕ → Value
    text : List ℕ → Value
    iterable : Items → Value
    structure : Members → Value
    dictionary : Members → Value

  pub data Items : Type 0 where
    no_items : Items
    item : Value → Items → Items

  pub data Members : Type 0 where
    no_members : Members
    member : List ℕ → Value → Members → Members

-- `key`.
abbrev pub is_close : ℕ → Bool
is_close c = c == close_brace || c == close_bracket

abbrev pub separate : List ℕ → Sink → Option Sink
separate [] s = none
separate (c ∷ cs) s = if is_close c then put comma s else some s

unfoldable pub key : List ℕ → Sink → Option Sink
key name s = separate s.before s >>= λ t. put_all (quote ∷ (escape name ++ (quote ∷ colon ∷ []))) t

-- `begin_obj` and `begin_array`.
unfoldable pub begin : JsonState → ℕ → Sink → Option Sink
begin state bracket s = put bracket s >>= λ t. some (record t { stack = state ∷ t.stack })

-- `end_obj` and `end_array`: the last comma, if there is one, gives way to the bracket.
abbrev pub step_back : ℕ → Sink → List ℕ → Option Sink
step_back opening s [] = none
step_back opening s (c ∷ cs) =
    some (if c == opening then s else record s { before = cs; room = s.room + 1 })

abbrev pub close_with : ℕ → ℕ → List JsonState → Sink → Option Sink
close_with opening closing [] s = none
close_with opening closing (top ∷ below) s =
    step_back opening (record s { stack = below }) s.before >>= λ t.
    put closing t >>= λ u. elim below [ [] ↦ some u | _ ∷ _ ↦ put comma u ]

unfoldable pub end_obj : Sink → Option Sink
end_obj s = close_with open_brace close_brace s.stack s

unfoldable pub end_array : Sink → Option Sink
end_array s = close_with open_bracket close_bracket s.stack s

abbrev pub successful : Option Sink → Option (Status × Sink)
successful none = none
successful (some s) = some (ok, s)

-- The characters and a comma.
abbrev pub literal : List ℕ → Sink → Option (Status × Sink)
literal cs s = successful (put_all cs s >>= λ t. put comma t)

unfoldable pub write_bool : Bool → Sink → Option (Status × Sink)
write_bool value s =
    let str = if value then 116 ∷ 114 ∷ 117 ∷ 101 ∷ [] else 102 ∷ 97 ∷ 108 ∷ 115 ∷ 101 ∷ [] in
    if leb s.room (length str) then some (buffer_full, s) else literal str s

unfoldable pub write_null : Sink → Option (Status × Sink)
write_null s =
    if leb s.room 4 then some (buffer_full, s) else literal (110 ∷ 117 ∷ 108 ∷ 108 ∷ []) s

unfoldable pub write_string : List ℕ → Sink → Option (Status × Sink)
write_string str s =
    if ltb s.room 2 then some (buffer_full, s) else literal (quote ∷ (escape str ++ (quote ∷ []))) s

unfoldable pub write_int : Formats → ℕ → Sink → Option (Status × Sink)
write_int formats num s =
    let digits = formats.decimal num in
    if leb s.room (length digits) then some (buffer_full, s) else literal digits s

unfoldable pub write_number : Formats → ℕ → Sink → Option (Status × Sink)
write_number formats num s =
    let digits = formats.general num in
    if ltb s.room (length digits) then some (buffer_full, s) else literal digits s

-- The sink behind an item: the stack as the item left it, but the view as it was when it failed.
abbrev pub and_next :
    Sink → Option (Status × Sink) → (Sink → Option (Status × Sink)) → Option (Status × Sink)
and_next s none rest = none
and_next s (some (ok, t)) rest = rest t
and_next s (some (failure, t)) rest = some (failure, record t { before = s.before; room = s.room })

-- A field of a class: its status is dropped.
abbrev pub whatever :
    Option (Status × Sink) → (Sink → Option (Status × Sink)) → Option (Status × Sink)
whatever none rest = none
whatever (some (status, t)) rest = rest t

-- The end of a container, unless an element failed.
abbrev pub and_end : (Sink → Option Sink) → Option (Status × Sink) → Option (Status × Sink)
and_end finish none = none
and_end finish (some (ok, s)) = successful (finish s)
and_end finish (some (failure, s)) = some (failure, s)

unfoldable mutual
  pub apply : Formats → Value → Sink → Option (Status × Sink)
  apply formats null s = write_null s
  apply formats (boolean b) s = write_bool b s
  apply formats (integer n) s = write_int formats n s
  apply formats (number n) s = write_number formats n s
  apply formats (text str) s = write_string str s
  apply formats (iterable items) s =
      begin array open_bracket s >>= λ t. and_end end_array (apply_items formats items t)
  apply formats (structure fields) s =
      begin object open_brace s >>= λ t. and_end end_obj (apply_fields formats fields t)
  apply formats (dictionary entries) s =
      begin object open_brace s >>= λ t. and_end end_obj (apply_entries formats entries t)

  pub apply_items : Formats → Items → Sink → Option (Status × Sink)
  apply_items formats no_items s = some (ok, s)
  apply_items formats (item v rest) s = and_next s (apply formats v s) (apply_items formats rest)

  pub apply_fields : Formats → Members → Sink → Option (Status × Sink)
  apply_fields formats no_members s = some (ok, s)
  apply_fields formats (member name v rest) s =
      key name s >>= λ t. whatever (apply formats v t) (apply_fields formats rest)

  pub apply_entries : Formats → Members → Sink → Option (Status × Sink)
  apply_entries formats no_members s = some (ok, s)
  apply_entries formats (member name v rest) s =
      key name s >>= λ t. and_next t (apply formats v t) (apply_entries formats rest)

-- `serialize` with a new serializer into a view: the status, and the bytes in it.
abbrev pub finished : Option (Status × Sink) → Option (Status × List ℕ)
finished none = none
finished (some (status, s)) = some (status, reverse s.before)

unfoldable pub serialize : Formats → Value → ℕ → Option (Status × List ℕ)
serialize formats v room =
    finished (apply formats v (record { stack = []; before = []; room = room }))
