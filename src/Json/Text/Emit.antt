-- ===== src/Json/Text/Emit.antt =====
-- What the calls of the serializer leave behind when there is room.
use libcsics.Base.{
  ℕ, ◌+◌, ◌-◌, ◌≤◌, ◌<◌, ◌≡◌, ◌≢◌, refl, sym, ap, ap₂, false, List, [], ◌∷◌, ◌++◌, some, length,
  length-append, arith, ==_refl, ne→not-==,
}
use libcsics.Wire.{ok}
use libcsics.Json.Sink.{comma, JsonState, Sink, put, put_all}
use libcsics.Json.Write.{literal, close_with, is_close, key}
use libcsics.Json.Text.{key_text, ending}

-- The characters in front of a list, the last one first.
abbrev pub back_onto : List ℕ → List ℕ → List ℕ
back_onto [] b = b
back_onto (c ∷ cs) b = back_onto cs (c ∷ b)

abbrev pub emitted : List JsonState → List ℕ → ℕ → List ℕ → Sink
emitted stack b r cs = record { stack = stack; before = back_onto cs b; room = r - length cs }

abbrev pub sink : List JsonState → List ℕ → ℕ → Sink
sink stack b r = record { stack = stack; before = b; room = r }

pub back_onto-append : (cs ds b : List ℕ) → back_onto (cs ++ ds) b ≡ back_onto ds (back_onto cs b)
back_onto-append [] ds b = refl
back_onto-append (c ∷ cs) ds b = back_onto-append cs ds (c ∷ b)

-- Sinks that agree.
pub sink_eq :
    (stack : List JsonState) {b c : List ℕ} {r q : ℕ}
    → b ≡ c
    → r ≡ q
    → sink stack b r ≡ sink stack c q
sink_eq stack same_bytes same_room = ap₂ (sink stack) same_bytes same_room

pub emitted_twice :
    (stack : List JsonState) (b : List ℕ) (r : ℕ) (cs ds : List ℕ)
    → emitted stack (back_onto cs b) (r - length cs) ds ≡ emitted stack b r (cs ++ ds)
emitted_twice stack b r cs ds =
    sink_eq stack (sym (back_onto-append cs ds b)) (omega (arith, length-append cs ds))

pub put_fits :
    (stack : List JsonState) (b : List ℕ) (r c : ℕ)
    → 0 < r
    → put c (sink stack b r) ≡ some (sink stack (c ∷ b) (r - 1))
unfolding put
put_fits stack b r c h = rw (ne→not-== r 0 (omega arith)) refl

pub put_all_fits :
    (stack : List JsonState) (b : List ℕ) (r : ℕ) (cs : List ℕ)
    → length cs ≤ r
    → put_all cs (sink stack b r) ≡ some (emitted stack b r cs)
unfolding put_all
put_all_fits stack b r [] h = ap some (sink_eq stack refl (omega arith))
put_all_fits stack b r (c ∷ cs) h =
    rw (put_fits stack b r c (omega arith), put_all_fits stack (c ∷ b) (r - 1) cs (omega arith))
      (ap some (sink_eq stack refl (omega arith)))

pub literal_fits :
    (stack : List JsonState) (b : List ℕ) (r : ℕ) (cs : List ℕ)
    → length cs + 1 ≤ r
    → literal cs (sink stack b r) ≡ some (ok, emitted stack b r (cs ++ (comma ∷ [])))
literal_fits stack b r cs h =
    rw
      (
        put_all_fits stack b r cs (omega arith),
        put_fits stack (back_onto cs b) (r - length cs) comma (omega arith),
      )
      (ap (λ (t : Sink). some (ok, t))
        (sink_eq stack (sym (back_onto-append cs (comma ∷ []) b))
          (omega (arith, length-append cs (comma ∷ [])))))

-- A key behind a character that closes nothing.
pub key_fits :
    (stack : List JsonState) (c : ℕ) (b : List ℕ) (r : ℕ) (name : List ℕ)
    → is_close c ≡ false
    → length (key_text name) ≤ r
    → key name (sink stack (c ∷ b) r) ≡ some (emitted stack (c ∷ b) r (key_text name))
unfolding key
key_fits stack c b r name other h = rw other (put_all_fits stack (c ∷ b) r (key_text name) h)

-- The end of a container, with its last comma, or with none in an empty one.
pub close_fits :
    (opening closing : ℕ) (top : JsonState) (below : List JsonState) (b : List ℕ) (r : ℕ)
    → length (closing ∷ ending below) ≤ r
    → close_with opening closing (top ∷ below) (sink (top ∷ below) (opening ∷ b) r)
      ≡ some (emitted below (opening ∷ b) r (closing ∷ ending below))
close_fits opening closing top [] b r h =
    rw (==_refl opening, put_fits [] (opening ∷ b) r closing (omega arith)) refl
close_fits opening closing top (next ∷ below) b r h =
    rw
      (
        ==_refl opening,
        put_fits (next ∷ below) (opening ∷ b) r closing (omega arith),
        put_fits (next ∷ below) (closing ∷ opening ∷ b) (r - 1) comma (omega arith),
      )
      (ap some (sink_eq (next ∷ below) refl (omega arith)))

pub close_full :
    (opening closing : ℕ) (top : JsonState) (below : List JsonState) (c : ℕ) (b : List ℕ) (r : ℕ)
    → c ≢ opening
    → length (closing ∷ ending below) ≤ r + 1
    → close_with opening closing (top ∷ below) (sink (top ∷ below) (c ∷ b) r)
      ≡ some (emitted below b (r + 1) (closing ∷ ending below))
close_full opening closing top [] c b r other h =
    rw (ne→not-== c opening other, put_fits [] b (r + 1) closing (omega arith)) refl
close_full opening closing top (next ∷ below) c b r other h =
    rw
      (
        ne→not-== c opening other,
        put_fits (next ∷ below) b (r + 1) closing (omega arith),
        put_fits (next ∷ below) (closing ∷ b) (r + 1 - 1) comma (omega arith),
      )
      (ap some (sink_eq (next ∷ below) refl (omega arith)))
