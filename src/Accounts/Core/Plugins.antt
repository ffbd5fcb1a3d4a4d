-- ===== src/Accounts/Core/Plugins.antt =====
-- The JSON of plugins in program_transformers/src/mpl_core_program/v1_asset.rs. The order of the
-- entries of an object is not observed, but for the first entry of the object of an enumeration's
-- variant, which has only one.
use digital_asset_rpc_infras.Base.{Option, none, some, List, [], ◌∷◌, String, if◌then◌else◌}
use digital_asset_rpc_infras.Db.Json.{
  JsonValue, JsonItems, JsonFields, null, bool, number, string, array, object, nil, cons, end,
  field,
}
use digital_asset_rpc_infras.Db.Table.{string_key, ◌==◌}

-- `Map::get`, `insert`, `remove`, and `get_mut` with a change of what it finds.
unfoldable pub get : String → JsonFields → Option JsonValue
get k end = none
get k (field j v fs) = if j == k then some v else get k fs

unfoldable pub insert : String → JsonValue → JsonFields → JsonFields
insert k w end = field k w end
insert k w (field j v fs) = if j == k then field j w fs else field j v (insert k w fs)

unfoldable pub remove : String → JsonFields → JsonFields
remove k end = end
remove k (field j v fs) = let rest = remove k fs in if j == k then rest else field j v rest

unfoldable pub modify : String → (JsonValue → JsonValue) → JsonFields → JsonFields
modify k f end = end
modify k f (field j v fs) = field j (if j == k then f v else v) (modify k f fs)

unfoldable pub modify_in : String → (JsonValue → JsonValue) → JsonValue → JsonValue
unfolding modify
modify_in k f (object fs) = object (modify k f fs)
modify_in k f null = null
modify_in k f (bool b) = bool b
modify_in k f (number n) = number n
modify_in k f (string s) = string s
modify_in k f (array a) = array a

-- `for (_, plugin) in plugins.iter_mut()` and `for plugin in plugins_array.iter_mut()`.
unfoldable pub each_field : (JsonValue → JsonValue) → JsonFields → JsonFields
each_field f end = end
each_field f (field k v fs) = field k (f v) (each_field f fs)

unfoldable pub each_item : (JsonValue → JsonValue) → JsonItems → JsonItems
each_item f nil = nil
each_item f (cons v vs) = cons (f v) (each_item f vs)

unfoldable pub each_plugin : (JsonValue → JsonValue) → JsonValue → JsonValue
unfolding each_field each_item
each_plugin f (object plugins) = object (each_field f plugins)
each_plugin f (array plugins) = array (each_item f plugins)
each_plugin f null = null
each_plugin f (bool b) = bool b
each_plugin f (number n) = number n
each_plugin f (string s) = string s

-- The object of a variant, replaced by what the variant holds: by an empty object if that is none.
unfoldable pub data_of_variant : JsonValue → JsonFields
data_of_variant (object inner) = inner
data_of_variant _ = end

unfoldable pub unnest : JsonValue → JsonValue
unfolding data_of_variant
unnest (object end) = object end
unnest (object (field k inner rest)) = object (data_of_variant inner)
unnest null = null
unnest (bool b) = bool b
unnest (number n) = number n
unnest (string s) = string s
unnest (array a) = array a

unfoldable pub remove_nesting_from_plugin : String → JsonValue → JsonValue
unfolding modify_in unnest
remove_nesting_from_plugin nested_key plugin = modify_in nested_key unnest plugin

unfoldable pub remove_plugins_nesting : String → JsonValue → JsonValue
unfolding each_plugin remove_nesting_from_plugin
remove_plugins_nesting nested_key plugins =
    each_plugin (remove_nesting_from_plugin nested_key) plugins

-- The first key is removed; where its value is an object with an address, type and address come
-- in its place.
unfoldable pub insert_address : String → JsonFields → Option JsonValue → JsonFields
unfolding insert
insert_address authority_type rest none = rest
insert_address authority_type rest (some address_value) =
    insert "address" address_value (insert "type" (string authority_type) rest)

unfoldable pub replace_first : String → JsonFields → JsonValue → JsonFields
unfolding get insert_address
replace_first authority_type rest (object pubkey_obj) =
    insert_address authority_type rest (get "address" pubkey_obj)
replace_first authority_type rest _ = rest

unfoldable pub transform_authority : JsonValue → JsonValue
unfolding remove replace_first
transform_authority (object end) = object end
transform_authority (object (field authority_type v fs)) =
    object (replace_first authority_type (remove authority_type (field authority_type v fs)) v)
transform_authority (string authority_type) =
    object (field "type" (string authority_type) (field "address" null end))
transform_authority null = null
transform_authority (bool b) = bool b
transform_authority (number n) = number n
transform_authority (array a) = array a

unfoldable pub transform_authority_in_object : JsonValue → JsonValue
unfolding modify_in transform_authority
transform_authority_in_object plugin = modify_in "authority" transform_authority plugin

unfoldable pub transform_data_authority_in_object : JsonValue → JsonValue
unfolding modify_in transform_authority
transform_data_authority_in_object plugin =
    modify_in "adapter_config" (modify_in "data_authority" transform_authority) plugin

unfoldable pub transform_linked_app_data_parent_key_in_object : JsonValue → JsonValue
unfolding modify_in transform_authority
transform_linked_app_data_parent_key_in_object plugin =
    modify_in "adapter_config"
      (modify_in "parent_key" (modify_in "LinkedAppData" transform_authority)) plugin

unfoldable pub transform_plugin : JsonValue → JsonValue
unfolding transform_authority_in_object transform_data_authority_in_object
    transform_linked_app_data_parent_key_in_object
transform_plugin plugin =
    transform_linked_app_data_parent_key_in_object
      (transform_data_authority_in_object (transform_authority_in_object plugin))

unfoldable pub transform_plugins_authority : JsonValue → JsonValue
unfolding each_plugin transform_plugin
transform_plugins_authority plugins = each_plugin transform_plugin plugins

unfoldable pub keys : JsonFields → List String
keys end = []
keys (field k v fs) = k ∷ keys fs

-- `to_snake_case` is of the crate heck.
module _ (to_snake_case : String → String) where
  unfoldable pub rename_key : String → Option JsonValue → JsonFields → JsonFields
  unfolding insert remove
  rename_key key none obj = obj
  rename_key key (some v) obj = insert (to_snake_case key) v (remove key obj)

  unfoldable pub rename_keys : List String → JsonFields → JsonFields
  unfolding rename_key get
  rename_keys [] obj = obj
  rename_keys (key ∷ ks) obj = rename_keys ks (rename_key key (get key obj) obj)

  -- The source renames the keys of an object before it converts the values, here the values come
  -- first: a value is moved by the renaming and not looked at.
  unfoldable mutual
    unfolding keys rename_keys

    pub convert_keys_to_snake_case : JsonValue → JsonValue
    convert_keys_to_snake_case (object obj) = object (rename_keys (keys obj) (convert_fields obj))
    convert_keys_to_snake_case (array arr) = array (convert_items arr)
    convert_keys_to_snake_case null = null
    convert_keys_to_snake_case (bool b) = bool b
    convert_keys_to_snake_case (number n) = number n
    convert_keys_to_snake_case (string s) = string s

    pub convert_fields : JsonFields → JsonFields
    convert_fields end = end
    convert_fields (field k v fs) = field k (convert_keys_to_snake_case v) (convert_fields fs)

    pub convert_items : JsonItems → JsonItems
    convert_items nil = nil
    convert_items (cons v vs) = cons (convert_keys_to_snake_case v) (convert_items vs)
