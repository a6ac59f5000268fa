-- ===== src/Json/Text/Rows.antt =====
-- Elements with a comma behind each, as they are written, against commas between them.
use libcsics.Base.{
  ℕ, ◌+◌, ◌-◌, ◌≤◌, ◌≡◌, ◌≢◌, ◌⊎◌, inl, inr, refl, sym, ap, ◌∙◌, List, [], ◌∷◌, ◌++◌, some, length,
  length-append, arith, append_assoc,
}
use libcsics.Json.Sink.{comma, JsonState}
use libcsics.Json.Write.{Formats, Items, no_items, item, Members, no_members, member, close_with}
use libcsics.Json.Text.{json, key_text, items_text, more_items, members_text, more_members, ending}
use libcsics.Json.Text.Emit.{back_onto, emitted, sink_eq, back_onto-append, close_fits, close_full}

abbrev pub with_comma : List ℕ → List ℕ
with_comma cs = cs ++ (comma ∷ [])

abbrev pub item_rows : Formats → Items → List ℕ
item_rows f no_items = []
item_rows f (item v rest) = with_comma (json f v) ++ item_rows f rest

abbrev pub member_rows : Formats → Members → List ℕ
member_rows f no_members = []
member_rows f (member name v rest) = key_text name ++ (with_comma (json f v) ++ member_rows f rest)

-- There is nothing, or all of the text and a comma.
abbrev pub IsRowsOf : List ℕ → List ℕ → Type 0
IsRowsOf rows body = ((rows ≡ []) × (body ≡ [])) ⊎ (rows ≡ with_comma body)

more_item_rows :
    (f : Formats) (items : Items) → comma ∷ item_rows f items ≡ with_comma (more_items f items)
more_item_rows f no_items = refl
more_item_rows f (item v rest) = ap (◌∷◌ comma) (
    append_assoc (json f v) (comma ∷ []) (item_rows f rest)
    ∙ ap (◌++◌ (json f v)) (more_item_rows f rest)
    ∙ sym (append_assoc (json f v) (more_items f rest) (comma ∷ [])))

pub item_rows-IsRowsOf :
    (f : Formats) (items : Items) → IsRowsOf (item_rows f items) (items_text f items)
item_rows-IsRowsOf f no_items = inl (refl, refl)
item_rows-IsRowsOf f (item v rest) = inr (
    append_assoc (json f v) (comma ∷ []) (item_rows f rest)
    ∙ ap (◌++◌ (json f v)) (more_item_rows f rest)
    ∙ sym (append_assoc (json f v) (more_items f rest) (comma ∷ [])))

-- A key and its value, with a comma behind them and what follows.
one_member :
    (k j rows more : List ℕ)
    → comma ∷ rows ≡ with_comma more
    → k ++ (with_comma j ++ rows) ≡ with_comma (k ++ (j ++ more))
one_member k j rows more next =
    ap (◌++◌ k)
      (append_assoc j (comma ∷ []) rows ∙ ap (◌++◌ j) next ∙ sym (append_assoc j more (comma ∷ [])))
    ∙ sym (append_assoc k (j ++ more) (comma ∷ []))

more_member_rows :
    (f : Formats) (members : Members)
    → comma ∷ member_rows f members ≡ with_comma (more_members f members)
more_member_rows f no_members = refl
more_member_rows f (member name v rest) = ap (◌∷◌ comma) (
    one_member (key_text name) (json f v) (member_rows f rest) (more_members f rest)
      (more_member_rows f rest))

pub member_rows-IsRowsOf :
    (f : Formats) (members : Members) → IsRowsOf (member_rows f members) (members_text f members)
member_rows-IsRowsOf f no_members = inl (refl, refl)
member_rows-IsRowsOf f (member name v rest) = inr (
    one_member (key_text name) (json f v) (member_rows f rest) (more_members f rest)
      (more_member_rows f rest))

pub length-rows : (rows body : List ℕ) → IsRowsOf rows body → length rows ≤ length body + 1
length-rows rows body (inl (none_r, none_b)) = rw none_r (omega arith)
length-rows rows body (inr all) = omega (arith, ap length all, length-append body (comma ∷ []))

-- The end of a container behind its rows.
pub rows_close :
    (opening closing : ℕ) (top : JsonState) (below : List JsonState) (b : List ℕ) (r : ℕ)
    (rows body : List ℕ)
    → comma ≢ opening
    → IsRowsOf rows body
    → length body + length (closing ∷ ending below) ≤ r
    → close_with opening closing (top ∷ below) (emitted (top ∷ below) (opening ∷ b) r rows)
      ≡ some (emitted below (opening ∷ b) r (body ++ (closing ∷ ending below)))
rows_close opening closing top below b r rows body other (inl (none_r, none_b)) h =
    let whole : r - 0 ≡ r = omega arith in
    rw (none_r, none_b, whole) (close_fits opening closing top below b r (omega arith))
rows_close opening closing top below b r rows body other (inr all) h =
    let room : r - length (with_comma body) + 1 ≡ r - length body =
      omega (arith, length-append body (comma ∷ [])) in
    rw (all, back_onto-append body (comma ∷ []) (opening ∷ b))
      (close_full opening closing top below comma (back_onto body (opening ∷ b))
          (r - length (with_comma body)) other (omega (arith, room))
        ∙ ap some (
            sink_eq below (sym (back_onto-append body (closing ∷ ending below) (opening ∷ b)))
              (omega (arith, room, length-append body (closing ∷ ending below)))))
