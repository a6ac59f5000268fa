-- ===== src/Dis/Dispatch.antt =====
-- include/csics/lvc/dis/DISDispatch.hpp, and `PDUHeaderView` of PDUs.hpp. A handler acts on a state
-- of the program; none is undefined behaviour: a read past the end of the view, or the use of a
-- result that holds no PDU.
pub mod Route
mod Tests
use libcsics.Base.{
  ℕ, Bool, true, false, ltb, if◌then◌else◌, List, [], ◌∷◌, Option, none, some, length, get_elem?,
  set, replicate,
}
use libcsics.Wire.{Reader, to_native}
use libcsics.Dis.Pdus.{EntityStatePdu, ElectromagneticEmissionPdu}
use libcsics.Dis.Decode.{read_entity_state, read_emission}

-- The fields of `PDUHeaderView`; each reads its byte with no check.
abbrev pub native_byte : Option ℕ → Option ℕ
native_byte none = none
native_byte (some b) = some (to_native 1 b)

pub view_protocol_version : List ℕ → Option ℕ
view_protocol_version buffer = native_byte (get_elem? buffer 0)

pub view_exercise_id : List ℕ → Option ℕ
view_exercise_id buffer = native_byte (get_elem? buffer 1)

pub view_pdu_type : List ℕ → Option ℕ
view_pdu_type buffer = native_byte (get_elem? buffer 2)

-- What the template argument of `on` has: its `pdu_type` and its `deserialize_direct`.
pub record PduKind {ℓ} (Pdu : Type ℓ) : Type ℓ where
  pub pdu_type : ℕ
  pub deserialize : Reader Pdu

abbrev pub entity_state : PduKind EntityStatePdu
entity_state = record { pdu_type = 1; deserialize = read_entity_state }

abbrev pub emission : PduKind ElectromagneticEmissionPdu
emission = record { pdu_type = 23; deserialize = read_emission }

-- `dispatch_func`.
abbrev pub Handler {κ} : Type κ → Type κ
Handler S = List ℕ → S → Option S

module _ {κ} {S : Type κ} where
  abbrev pub no_op : Handler S
  no_op bv s = some s

  -- `DISDispatcher()`: the table.
  pub new_table : List (Handler S)
  new_table = replicate 255 no_op

  -- `on` with a function of a view, and with a function of a PDU.
  pub on_view {ℓ} : {Pdu : Type ℓ} → PduKind Pdu → Handler S → List (Handler S) → List (Handler S)
  on_view kind func table = set table kind.pdu_type func

  -- `f(*res)`.
  abbrev pub handle {ℓ} : {Pdu : Type ℓ} → (Pdu → S → S) → S → Option Pdu → Option S
  handle f s none = none
  handle f s (some pdu) = some (f pdu s)

  abbrev pub deserialize_then {ℓ} : {Pdu : Type ℓ} → PduKind Pdu → (Pdu → S → S) → Handler S
  deserialize_then kind f bv s = handle f s (kind.deserialize bv).0

  pub on_pdu {ℓ} :
      {Pdu : Type ℓ} → PduKind Pdu → (Pdu → S → S) → List (Handler S) → List (Handler S)
  on_pdu kind f table = set table kind.pdu_type (deserialize_then kind f)

  -- `dispatch_table_[pdu_type](bv)`, behind the test of the type.
  pub call_handler : List (Handler S) → ℕ → Handler S
  call_handler table pdu_type bv s =
      if ltb pdu_type (length table)
      then elim (get_elem? table pdu_type) [ none ↦ none | some func ↦ func bv s ]
      else some s

  pub dispatch : List (Handler S) → Handler S
  unfolding view_pdu_type
  dispatch table bv s = if ltb (length bv) 2 then some s else elim (view_pdu_type bv) [
    | none ↦ none
    | some pdu_type ↦ call_handler table pdu_type bv s
  ]
