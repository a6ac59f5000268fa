-- ===== src/Dis/Radio.antt =====
-- `RadioType` of PDUs.hpp, and its writer and reader in serde.hpp for the two protocol versions.
pub mod Codec
use libcsics.Base.{ℕ, ◌+◌, ◌*◌, ◌/◌, ◌%◌, List, [], ◌∷◌, Option, none, some, ◌==◌, if◌then◌else◌}
use libcsics.Wire.{
  View, Status, ok, non_fatal_error, raw, be, zeros, emit, Reader, read, read_be, ◌<*>◌, pure,
}
use libcsics.Dis.Encode.{Chunks}

-- The eight bytes of the union, under the names of `RadioType7`. `RadioType6` has its nomenclature
-- version where the category is, a padding byte where the subcategory is, and its nomenclature, lowest
-- byte first, in the last two.
pub record RadioType : Type 0 where
  pub entity_kind : ℕ
  pub domain : ℕ
  pub country_code : ℕ
  pub category : ℕ
  pub subcategory : ℕ
  pub specific : ℕ
  pub extra : ℕ

pub nomenclature_version : RadioType → ℕ
nomenclature_version r = r.category

pub nomenclature : RadioType → ℕ
nomenclature r = r.specific + 256 * r.extra

-- `IEEE_1278_1998` and `IEEE_1278_2012`.
abbrev pub ieee_1278_1998 : ℕ
ieee_1278_1998 = 6

abbrev pub ieee_1278_2012 : ℕ
ieee_1278_2012 = 7

-- The pieces that `serialize_radio_type` writes.
pub radio_type_chunks : RadioType → ℕ → Chunks
radio_type_chunks r version =
    if version == ieee_1278_1998
    then raw 1 r.entity_kind
      ∷ raw 1 r.domain
      ∷ be 2 r.country_code
      ∷ raw 1 (nomenclature_version r)
      ∷ be 2 (nomenclature r)
      ∷ []
    else (if version == ieee_1278_2012
        then raw 1 r.entity_kind
          ∷ raw 1 r.domain
          ∷ be 2 r.country_code
          ∷ raw 1 r.category
          ∷ raw 1 r.subcategory
          ∷ raw 1 r.specific
          ∷ raw 1 r.extra
          ∷ []
        else zeros 8 ∷ [])

-- `serialize_radio_type`: the view behind it, and the status.
pub serialize_radio_type : View → RadioType → ℕ → View × Status
serialize_radio_type bv r version = (
  emit bv (radio_type_chunks r version),
  if version == ieee_1278_1998
      then ok
      else (if version == ieee_1278_2012 then ok else non_fatal_error),
)

-- The members of `dis6` set in a union whose bytes are zero.
make_dis6 : ℕ → ℕ → ℕ → ℕ → ℕ → RadioType
make_dis6 kind d country version name = record {
  entity_kind = kind;
  domain = d;
  country_code = country;
  category = version;
  subcategory = 0;
  specific = name % 256;
  extra = name / 256;
}

make_dis7 : ℕ → ℕ → ℕ → ℕ → ℕ → ℕ → ℕ → RadioType
make_dis7 kind d country cat sub sp ex = record {
  entity_kind = kind;
  domain = d;
  country_code = country;
  category = cat;
  subcategory = sub;
  specific = sp;
  extra = ex;
}

-- `deserialize_radio_type`.
pub read_radio_type : ℕ → Reader RadioType
read_radio_type version bs =
    if version == ieee_1278_1998
    then (pure make_dis6 <*> read 1 <*> read 1 <*> read_be 2 <*> read 1 <*> read_be 2) bs
    else (if version == ieee_1278_2012
        then (pure make_dis7
              <*> read 1
              <*> read 1
              <*> read_be 2
              <*> read 1
              <*> read 1
              <*> read 1
              <*> read 1)
            bs
        else (none, bs))
