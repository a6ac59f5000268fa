-- ===== src/Json/Text.antt =====
-- The JSON of a value, as the grammar has it: commas stand between the elements.
pub mod Emit
pub mod Rows
pub mod Serialize
use libcsics.Base.{ℕ, true, false, List, [], ◌∷◌, ◌++◌}
use libcsics.Json.Sink.{
  quote, comma, colon, open_brace, close_brace, open_bracket, close_bracket, JsonState, escape,
}
use libcsics.Json.Write.{
  Formats, Value, null, boolean, integer, number, text, iterable, structure, dictionary, Items,
  no_items, item, Members, no_members, member,
}

abbrev pub bracketed : ℕ → List ℕ → ℕ → List ℕ
bracketed opening body closing = opening ∷ (body ++ (closing ∷ []))

abbrev pub quoted : List ℕ → List ℕ
quoted str = quote ∷ (escape str ++ (quote ∷ []))

abbrev pub key_text : List ℕ → List ℕ
key_text name = quote ∷ (escape name ++ (quote ∷ colon ∷ []))

abbrev mutual
  pub json : Formats → Value → List ℕ
  json f null = 110 ∷ 117 ∷ 108 ∷ 108 ∷ []
  json f (boolean true) = 116 ∷ 114 ∷ 117 ∷ 101 ∷ []
  json f (boolean false) = 102 ∷ 97 ∷ 108 ∷ 115 ∷ 101 ∷ []
  json f (integer n) = f.decimal n
  json f (number n) = f.general n
  json f (text str) = quoted str
  json f (iterable items) = bracketed open_bracket (items_text f items) close_bracket
  json f (structure fields) = bracketed open_brace (members_text f fields) close_brace
  json f (dictionary entries) = bracketed open_brace (members_text f entries) close_brace

  pub items_text : Formats → Items → List ℕ
  items_text f no_items = []
  items_text f (item v rest) = json f v ++ more_items f rest

  pub more_items : Formats → Items → List ℕ
  more_items f no_items = []
  more_items f (item v rest) = comma ∷ (json f v ++ more_items f rest)

  pub members_text : Formats → Members → List ℕ
  members_text f no_members = []
  members_text f (member name v rest) = key_text name ++ (json f v ++ more_members f rest)

  pub more_members : Formats → Members → List ℕ
  more_members f no_members = []
  more_members f (member name v rest) = comma ∷ (key_text name ++ (json f v ++ more_members f rest))

-- What follows the text of a container, and of any value: a comma, unless it is a container by itself.
abbrev pub ending : List JsonState → List ℕ
ending [] = []
ending (top ∷ below) = comma ∷ []

abbrev pub ending_of : Value → List JsonState → List ℕ
ending_of (iterable items) stack = ending stack
ending_of (structure fields) stack = ending stack
ending_of (dictionary entries) stack = ending stack
ending_of _ stack = comma ∷ []
