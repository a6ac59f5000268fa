-- ===== src/Json/Text/Serialize.antt =====
-- The serializer writes the JSON of any value.
use libcsics.Base.{
  ℕ, ◌+◌, ◌-◌, ◌≤◌, ◌≡◌, ◌≢◌, suc, append_assoc, append-nil, reverse, reverse-cons, refl, sym, ap,
  ◌∙◌, subst, true, false, List, [], ◌∷◌, ◌++◌, Option, some, length, length-append, arith,
  lt→not-leb, le→not-ltb,
}
use libcsics.Wire.{Status, ok}
use libcsics.Json.Sink.{
  quote, comma, open_brace, close_brace, open_bracket, close_bracket, JsonState, array, object,
  Sink, ◌>>=◌, escape,
}
use libcsics.Json.Write.{
  Formats, Value, null, boolean, integer, number, text, iterable, structure, dictionary, Items,
  no_items, item, Members, no_members, member, and_end, close_with, begin, is_close, apply,
  apply_items, apply_fields, apply_entries, write_null, write_bool, write_int, write_number,
  write_string, end_array, end_obj, finished, serialize,
}
use libcsics.Json.Text.{
  bracketed, json, key_text, quoted, items_text, members_text, ending, ending_of,
}
use libcsics.Json.Text.Emit.{
  back_onto, emitted, sink, sink_eq, back_onto-append, emitted_twice, put_fits, literal_fits,
  key_fits,
}
use libcsics.Json.Text.Rows.{
  with_comma, item_rows, member_rows, IsRowsOf, item_rows-IsRowsOf, member_rows-IsRowsOf,
  length-rows, rows_close,
}

-- The call succeeds and leaves the characters.
abbrev Emits : Option (Status × Sink) → List JsonState → List ℕ → ℕ → List ℕ → Type 0
Emits result stack b r cs = result ≡ some (ok, emitted stack b r cs)

ending_inside :
    (v : Value) (top : JsonState) (below : List JsonState) → ending_of v (top ∷ below) ≡ comma ∷ []
ending_inside null top below = refl
ending_inside (boolean x) top below = refl
ending_inside (integer n) top below = refl
ending_inside (number n) top below = refl
ending_inside (text str) top below = refl
ending_inside (iterable items) top below = refl
ending_inside (structure fields) top below = refl
ending_inside (dictionary entries) top below = refl

-- An element of a container.
inside :
    (f : Formats) (v : Value) (top : JsonState) (below : List JsonState) (b : List ℕ) (r : ℕ)
    → (length (json f v ++ ending_of v (top ∷ below)) ≤ r
        → Emits
            (apply f v (sink (top ∷ below) b r))
            (top ∷ below)
            b
            r
            (json f v ++ ending_of v (top ∷ below)))
    → length (with_comma (json f v)) ≤ r
    → Emits (apply f v (sink (top ∷ below) b r)) (top ∷ below) b r (with_comma (json f v))
inside f v top below b r each =
    subst
      (λ cs.
        length (json f v ++ cs) ≤ r
        → Emits (apply f v (sink (top ∷ below) b r)) (top ∷ below) b r (json f v ++ cs))
      (ending_inside v top below) each

-- A key, a value with its comma, and what follows.
three_emitted :
    (stack : List JsonState) (b : List ℕ) (r : ℕ) (k j rows : List ℕ)
    → emitted stack
        (comma ∷ back_onto j (back_onto k b))
        (r - length k - length (with_comma j))
        rows
      ≡ emitted stack b r (k ++ (with_comma j ++ rows))
three_emitted stack b r k j rows =
    sink_eq stack
      (sym (
        back_onto-append k (with_comma j ++ rows) b
        ∙ back_onto-append (with_comma j) rows (back_onto k b)
        ∙ ap (back_onto rows) (back_onto-append j (comma ∷ []) (back_onto k b))))
      (omega (arith, length-append k (with_comma j ++ rows), length-append (with_comma j) rows))

-- A container whose elements are written.
container-Emits :
    (state : JsonState) (opening closing : ℕ) (stack : List JsonState) (b : List ℕ) (r : ℕ)
    (rows body : List ℕ) (inner : Sink → Option (Status × Sink))
    → comma ≢ opening
    → IsRowsOf rows body
    → (length rows ≤ r - 1
        → Emits
            (inner (sink (state ∷ stack) (opening ∷ b) (r - 1)))
            (state ∷ stack)
            (opening ∷ b)
            (r - 1)
            rows)
    → length (bracketed opening body closing ++ ending stack) ≤ r
    → Emits
        (begin state opening (sink stack b r) >>= λ t.
          and_end (λ u. close_with opening closing u.stack u) (inner t))
        stack
        b
        r
        (bracketed opening body closing ++ ending stack)
unfolding begin
container-Emits state opening closing stack b r rows body inner other are_rows elements h =
    let whole = append_assoc body (closing ∷ []) (ending stack) in
    let size = length-append body (closing ∷ ending stack) in
    let fits : suc (length body + length (closing ∷ ending stack)) ≤ r =
      omega (arith, ap length whole) in
    let row_size = length-rows rows body are_rows in
    rw
      (
        whole,
        put_fits stack b r opening (omega arith),
        elements (omega arith),
        rows_close opening closing state stack b (r - 1) rows body other are_rows (omega arith),
      )
      (ap (λ (t : Sink). some (ok, t)) (sink_eq stack refl (omega arith)))

mutual
  unfolding apply begin write_null write_bool write_int write_number write_string end_array end_obj

  value-Emits :
      (f : Formats) (v : Value) (stack : List JsonState) (b : List ℕ) (r : ℕ)
      → length (json f v ++ ending_of v stack) ≤ r
      → Emits (apply f v (sink stack b r)) stack b r (json f v ++ ending_of v stack)
  value-Emits f null stack b r h =
      rw (lt→not-leb r 4 (omega arith)) (literal_fits stack b r (json f null) (omega arith))
  value-Emits f (boolean true) stack b r h =
      rw (lt→not-leb r 4 (omega arith))
        (literal_fits stack b r (json f (boolean true)) (omega arith))
  value-Emits f (boolean false) stack b r h =
      rw (lt→not-leb r 5 (omega arith))
        (literal_fits stack b r (json f (boolean false)) (omega arith))
  value-Emits f (integer n) stack b r h =
      let size = length-append (f.decimal n) (comma ∷ []) in
      rw (lt→not-leb r (length (f.decimal n)) (omega arith))
        (literal_fits stack b r (f.decimal n) (omega arith))
  value-Emits f (number n) stack b r h =
      let size = length-append (f.general n) (comma ∷ []) in
      rw (le→not-ltb r (length (f.general n)) (omega arith))
        (literal_fits stack b r (f.general n) (omega arith))
  value-Emits f (text str) stack b r h =
      let size = length-append (quoted str) (comma ∷ []) in
      let inner = length-append (escape str) (quote ∷ []) in
      rw (le→not-ltb r 2 (omega arith)) (literal_fits stack b r (quoted str) (omega arith))
  value-Emits f (iterable items) stack b r h =
      container-Emits array open_bracket close_bracket stack b r (item_rows f items)
        (items_text f items) (apply_items f items) (omega arith) (item_rows-IsRowsOf f items)
        (items-Emits f items array stack (open_bracket ∷ b) (r - 1)) h
  value-Emits f (structure fields) stack b r h =
      container-Emits object open_brace close_brace stack b r (member_rows f fields)
        (members_text f fields) (apply_fields f fields) (omega arith)
        (member_rows-IsRowsOf f fields)
        (fields-Emits f fields object stack open_brace b (r - 1) refl) h
  value-Emits f (dictionary entries) stack b r h =
      container-Emits object open_brace close_brace stack b r (member_rows f entries)
        (members_text f entries) (apply_entries f entries) (omega arith)
        (member_rows-IsRowsOf f entries)
        (entries-Emits f entries object stack open_brace b (r - 1) refl) h

  items-Emits :
      (f : Formats) (items : Items) (top : JsonState) (below : List JsonState) (b : List ℕ) (r : ℕ)
      → length (item_rows f items) ≤ r
      → Emits (apply_items f items (sink (top ∷ below) b r)) (top ∷ below) b r (item_rows f items)
  items-Emits f no_items top below b r h =
      ap (λ (t : Sink). some (ok, t)) (sink_eq (top ∷ below) refl (omega arith))
  items-Emits f (item v rest) top below b r h =
      let size = length-append (with_comma (json f v)) (item_rows f rest) in
      rw
        (
          inside f v top below b r (value-Emits f v (top ∷ below) b r) (omega arith),
          items-Emits f rest top below (back_onto (with_comma (json f v)) b)
              (r - length (with_comma (json f v))) (omega arith),
        )
        (ap (λ (t : Sink). some (ok, t))
          (emitted_twice (top ∷ below) b r (with_comma (json f v)) (item_rows f rest)))

  fields-Emits :
      (f : Formats) (fields : Members) (top : JsonState) (below : List JsonState) (c : ℕ)
      (b : List ℕ) (r : ℕ)
      → is_close c ≡ false
      → length (member_rows f fields) ≤ r
      → Emits
          (apply_fields f fields (sink (top ∷ below) (c ∷ b) r))
          (top ∷ below)
          (c ∷ b)
          r
          (member_rows f fields)
  fields-Emits f no_members top below c b r other h =
      ap (λ (t : Sink). some (ok, t)) (sink_eq (top ∷ below) refl (omega arith))
  fields-Emits f (member name v rest) top below c b r other h =
      let k = key_text name in
      let j = json f v in
      let rows = member_rows f rest in
      let at = back_onto k (c ∷ b) in
      let left = r - length k in
      let size = length-append k (with_comma j ++ rows) in
      let inner_size = length-append (with_comma j) rows in
      rw
        (
          key_fits (top ∷ below) c b r name other (omega arith),
          inside f v top below at left (value-Emits f v (top ∷ below) at left) (omega arith),
          back_onto-append j (comma ∷ []) at,
          fields-Emits f rest top below comma (back_onto j at) (left - length (with_comma j)) refl
              (omega arith),
        )
        (ap (λ (t : Sink). some (ok, t)) (three_emitted (top ∷ below) (c ∷ b) r k j rows))

  entries-Emits :
      (f : Formats) (entries : Members) (top : JsonState) (below : List JsonState) (c : ℕ)
      (b : List ℕ) (r : ℕ)
      → is_close c ≡ false
      → length (member_rows f entries) ≤ r
      → Emits
          (apply_entries f entries (sink (top ∷ below) (c ∷ b) r))
          (top ∷ below)
          (c ∷ b)
          r
          (member_rows f entries)
  entries-Emits f no_members top below c b r other h =
      ap (λ (t : Sink). some (ok, t)) (sink_eq (top ∷ below) refl (omega arith))
  entries-Emits f (member name v rest) top below c b r other h =
      let k = key_text name in
      let j = json f v in
      let rows = member_rows f rest in
      let at = back_onto k (c ∷ b) in
      let left = r - length k in
      let size = length-append k (with_comma j ++ rows) in
      let inner_size = length-append (with_comma j) rows in
      rw
        (
          key_fits (top ∷ below) c b r name other (omega arith),
          inside f v top below at left (value-Emits f v (top ∷ below) at left) (omega arith),
          back_onto-append j (comma ∷ []) at,
          entries-Emits f rest top below comma (back_onto j at) (left - length (with_comma j)) refl
              (omega arith),
        )
        (ap (λ (t : Sink). some (ok, t)) (three_emitted (top ∷ below) (c ∷ b) r k j rows))

reverse-back_onto : (cs b : List ℕ) → reverse (back_onto cs b) ≡ reverse b ++ cs
reverse-back_onto [] b = sym (append-nil (reverse b))
reverse-back_onto (c ∷ cs) b =
    reverse-back_onto cs (c ∷ b)
    ∙ ap (λ ds. ds ++ cs) (reverse-cons c b)
    ∙ append_assoc (reverse b) (c ∷ []) cs

-- A new serializer with enough room for the JSON of a value writes it and reports success: commas
-- stand between the elements of a container and nowhere else, but for a value that is no container,
-- which gets one behind it.
pub serialize-json :
    (f : Formats) (v : Value) (room : ℕ)
    → length (json f v ++ ending_of v []) ≤ room
    → serialize f v room ≡ some (ok, json f v ++ ending_of v [])
unfolding serialize
serialize-json f v room h =
    ap finished (value-Emits f v [] [] room h)
    ∙ ap (λ cs. some (ok, cs)) (reverse-back_onto (json f v ++ ending_of v []) [])

-- Inside of a container that is still open, a value is written as its JSON and a comma, behind what is
-- there, and takes as much of the room.
pub apply-json :
    (f : Formats) (v : Value) (top : JsonState) (below : List JsonState) (b : List ℕ) (r : ℕ)
    → length (json f v) + 1 ≤ r
    → apply f v (sink (top ∷ below) b r)
      ≡ some (ok, emitted (top ∷ below) b r (json f v ++ (comma ∷ [])))
apply-json f v top below b r h =
    inside f v top below b r (value-Emits f v (top ∷ below) b r)
      (omega (arith, length-append (json f v) (comma ∷ [])))
