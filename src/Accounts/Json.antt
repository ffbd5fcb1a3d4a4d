-- ===== src/Accounts/Json.antt =====
-- program_transformers/src/lib.rs: `filter_non_null_fields`.
pub mod Kept
use digital_asset_rpc_infras.Base.{Bool, true, false, ◌&&◌, Option, none, some, if◌then◌else◌}
use digital_asset_rpc_infras.Db.Json.{
  JsonValue, JsonFields, null, bool, number, string, array, object, end, field,
}

unfoldable pub is_null : JsonValue → Bool
is_null null = true
is_null (bool _) = false
is_null (number _) = false
is_null (string _) = false
is_null (array _) = false
is_null (object _) = false

unfoldable pub all_null : JsonFields → Bool
unfolding is_null
all_null end = true
all_null (field k v fs) = is_null v && all_null fs

unfoldable pub non_null_fields : JsonFields → JsonFields
unfolding is_null
non_null_fields end = end
non_null_fields (field k v fs) =
    let rest = non_null_fields fs in if is_null v then rest else field k v rest

unfoldable pub no_fields : JsonFields → Bool
no_fields end = true
no_fields (field _ _ _) = false

unfoldable pub filter_non_null_fields : JsonValue → Option JsonValue
unfolding all_null non_null_fields no_fields
filter_non_null_fields null = none
filter_non_null_fields (object map) =
    let filtered_map = non_null_fields map in
    if all_null map
    then none
    else if no_fields filtered_map
    then none
    else some (object filtered_map)
filter_non_null_fields (bool b) = some (bool b)
filter_non_null_fields (number n) = some (number n)
filter_non_null_fields (string s) = some (string s)
filter_non_null_fields (array a) = some (array a)
