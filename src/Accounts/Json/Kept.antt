-- ===== src/Accounts/Json/Kept.antt =====
-- What `filter_non_null_fields` keeps.
use digital_asset_rpc_infras.Base.{
  ◌≡◌, refl, true, false, Option, none, some, arith, String, ◌⊎◌, inl, inr, ◌↔◌, Bool-cases,
}
use digital_asset_rpc_infras.Db.Json.{
  JsonValue, JsonFields, null, bool, number, string, array, object, end, field,
}
use digital_asset_rpc_infras.Accounts.Json.{
  is_null, all_null, non_null_fields, no_fields, filter_non_null_fields,
}

-- The entry `k: v` is among the fields.
abbrev pub HasField : String → JsonValue → JsonFields → Type 0
HasField k v end = ⊥
HasField k v (field j w fs) = ((k ≡ j) × (v ≡ w)) ⊎ HasField k v fs

-- The entries of a column: none if it is NULL.
abbrev pub fields_of : Option JsonValue → JsonFields
fields_of none = end
fields_of (some null) = end
fields_of (some (bool _)) = end
fields_of (some (number _)) = end
fields_of (some (string _)) = end
fields_of (some (array _)) = end
fields_of (some (object fs)) = fs

non_null_exact :
    (fs : JsonFields) (k : String) (v : JsonValue)
    → HasField k v (non_null_fields fs) ↔ (HasField k v fs × (is_null v ≡ false))
unfolding non_null_fields
non_null_exact end k v = ground arith
non_null_exact (field j w fs) k v = elim (Bool-cases (is_null w)) [
  | inl null' ↦ rw null' (ground (arith, non_null_exact fs k v))
  | inr value ↦ rw value (ground (arith, non_null_exact fs k v))
]

all_null-empty : (fs : JsonFields) → all_null fs ≡ no_fields (non_null_fields fs)
unfolding all_null non_null_fields no_fields
all_null-empty end = refl
all_null-empty (field j w fs) = ground (arith, all_null-empty fs)

empty_fields : (fs : JsonFields) → no_fields fs ≡ true → fs ≡ end
unfolding no_fields
empty_fields end h = refl
empty_fields (field j w fs) h = cc

filtered_object :
    (fs : JsonFields) → fields_of (filter_non_null_fields (object fs)) ≡ non_null_fields fs
unfolding filter_non_null_fields
filtered_object fs = ground (arith, all_null-empty fs, empty_fields (non_null_fields fs))

-- The filtered object has exactly the entries that are not null; where there are none, the column
-- is NULL and has none either.
pub kept_exactly :
    (fs : JsonFields) (k : String) (v : JsonValue)
    → HasField k v (fields_of (filter_non_null_fields (object fs)))
      ↔ (HasField k v fs × (is_null v ≡ false))
kept_exactly fs k v = rw (filtered_object fs) (non_null_exact fs k v)
