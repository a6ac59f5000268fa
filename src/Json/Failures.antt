-- ===== src/Json/Failures.antt =====
-- What becomes of a failure inside of a container.
use libcsics.Base.{◌≡◌, refl, Option, none, some}
use libcsics.Wire.{Status, ok, buffer_full, non_fatal_error, failed}
use libcsics.Json.Sink.{open_brace, object, Sink, ◌>>=◌}
use libcsics.Json.Write.{
  Formats, structure, Members, no_members, member, begin, and_end, whatever, successful, end_obj,
  key, apply, apply_fields,
}

-- If there is a result, it is a success.
abbrev IsOk : Option (Status × Sink) → Type 0
IsOk none = Unit
IsOk (some (status, s)) = status ≡ ok

IsOk-successful : (o : Option Sink) → IsOk (successful o)
IsOk-successful none = tt
IsOk-successful (some s) = refl

IsOk-and_end :
    (finish : Sink → Option Sink) (o : Option (Status × Sink)) → IsOk o → IsOk (and_end finish o)
IsOk-and_end finish none h = tt
IsOk-and_end finish (some (ok, s)) h = IsOk-successful (finish s)
IsOk-and_end finish (some (buffer_full, s)) h = h
IsOk-and_end finish (some (non_fatal_error, s)) h = h
IsOk-and_end finish (some (failed, s)) h = h

IsOk-whatever :
    (o : Option (Status × Sink)) (rest : Sink → Option (Status × Sink))
    → ((s : Sink) → IsOk (rest s))
    → IsOk (whatever o rest)
IsOk-whatever none rest h = tt
IsOk-whatever (some (status, s)) rest h = h s

IsOk-bind :
    (o : Option Sink) (rest : Sink → Option (Status × Sink))
    → ((s : Sink) → IsOk (rest s))
    → IsOk (o >>= rest)
IsOk-bind none rest h = tt
IsOk-bind (some s) rest h = h s

apply_fields-IsOk : (f : Formats) (fields : Members) (s : Sink) → IsOk (apply_fields f fields s)
unfolding apply
apply_fields-IsOk f no_members s = refl
apply_fields-IsOk f (member name v rest) s =
    IsOk-bind (key name s) _ (λ t. IsOk-whatever (apply f v t) _ (apply_fields-IsOk f rest))

IsOk-status :
    (o : Option (Status × Sink)) (status : Status) (t : Sink)
    → IsOk o
    → o ≡ some (status, t)
    → status ≡ ok
IsOk-status none status t h e = cc
IsOk-status (some (found, s)) status t h e = cc

-- The serializer of a class reports success whatever its fields do: where it ends, its status is that
-- all went well, also when a field did not fit into the view.
pub apply-structure :
    (f : Formats) (fields : Members) (s t : Sink) (status : Status)
    → apply f (structure fields) s ≡ some (status, t)
    → status ≡ ok
unfolding apply
apply-structure f fields s t status ends =
    IsOk-status (apply f (structure fields) s) status t
      (IsOk-bind (begin object open_brace s) _
        (λ u. IsOk-and_end end_obj (apply_fields f fields u) (apply_fields-IsOk f fields u)))
      ends
