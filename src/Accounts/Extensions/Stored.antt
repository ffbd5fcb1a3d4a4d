-- ===== src/Accounts/Extensions/Stored.antt =====
-- What the extensions columns hold.
use digital_asset_rpc_infras.Base.{
  ◌≡◌, ◌↔◌, ◌⊎◌, Bool, true, false, Option, none, some, List, [], ◌∷◌, String, if◌then◌else◌,
  map_option, arith,
}
use digital_asset_rpc_infras.Db.Json.{JsonValue, JsonFields, object}
use digital_asset_rpc_infras.Accounts.Json.{is_null, filter_non_null_fields}
use digital_asset_rpc_infras.Accounts.Json.Kept.{HasField, fields_of, kept_exactly}
use digital_asset_rpc_infras.Accounts.Extensions.{
  MintAccountExtensions, TokenAccountExtensions, or_null, mint_extensions_is_some,
  account_extensions_is_some, mint_extensions_value, account_extensions_value,
  mint_extensions_column, account_extensions_column,
}

-- The extension of each name, that of an account by the struct of blockbuster that has it.
abbrev pub named_of_mint : MintAccountExtensions → List (String × Option JsonValue)
named_of_mint m =
    ("confidential_transfer_mint", m.confidential_transfer_mint)
    ∷ ("confidential_transfer_fee_config", m.confidential_transfer_fee_config)
    ∷ ("transfer_fee_config", m.transfer_fee_config)
    ∷ ("transfer_hook", m.transfer_hook)
    ∷ ("interest_bearing_config", m.interest_bearing_config)
    ∷ ("default_account_state", m.default_account_state)
    ∷ ("mint_close_authority", m.mint_close_authority)
    ∷ ("permanent_delegate", m.permanent_delegate)
    ∷ ("metadata_pointer", m.metadata_pointer)
    ∷ ("metadata", map_option (λ s. s.value) m.metadata)
    ∷ ("group_pointer", m.group_pointer)
    ∷ ("group_member_pointer", m.group_member_pointer)
    ∷ ("token_group", m.token_group)
    ∷ ("token_group_member", m.token_group_member)
    ∷ ("non_transferable", map_option JsonValue.bool m.non_transferable)
    ∷ ("immutable_owner", map_option JsonValue.bool m.immutable_owner)
    ∷ []

abbrev pub named_of_account : TokenAccountExtensions → List (String × Option JsonValue)
named_of_account a =
    ("confidential_transfer", a.confidential_transfer)
    ∷ ("transfer_fee_amount", a.transfer_fee_amount)
    ∷ ("cpi_guard", a.cpi_guard)
    ∷ ("memo_transfer", a.memo_transfer)
    ∷ ("non_transferable_account", map_option JsonValue.bool a.non_transferable_account)
    ∷ ("immutable_owner", map_option JsonValue.bool a.immutable_owner)
    ∷ []

-- `k` is the name of an extension that is there, and `v` is what it serializes to.
abbrev pub IsExtension : String → JsonValue → List (String × Option JsonValue) → Type 0
IsExtension k v [] = ⊥
IsExtension k v ((j, o) ∷ es) = ((k ≡ j) × (o ≡ some v)) ⊎ IsExtension k v es

-- An entry that is not null is that of an extension that is there.
entry_there :
    (o : Option JsonValue) (v : JsonValue) → is_null v ≡ false → (v ≡ or_null o) ↔ (o ≡ some v)
unfolding is_null
entry_there none v h = ground (arith, h)
entry_there (some w) v h = ground (arith, h)

column_exact :
    (b : Bool) (fs : JsonFields) (k : String) (v : JsonValue)
    → HasField k v (fields_of (if b then filter_non_null_fields (object fs) else none))
      ↔ ((b ≡ true) × HasField k v fs × (is_null v ≡ false))
column_exact true fs k v = ground (arith, kept_exactly fs k v)
column_exact false fs k v = ground arith

named_exact :
    {C F : Type 0} (b : Bool) (k : String) (v : JsonValue) (es : List (String × Option JsonValue))
    → C ↔ ((b ≡ true) × F × (is_null v ≡ false))
    → (is_null v ≡ false → F ↔ IsExtension k v es)
    → C ↔ ((b ≡ true) × IsExtension k v es × (is_null v ≡ false))
named_exact b k v es column fields = (
  (λ c. let (some', f, value) = column.0 c in (some', (fields value).0 f, value)),
  (λ (some', e, value). column.1 (some', (fields value).1 e, value)),
)

module _ (k : String) (v : JsonValue) (h : is_null v ≡ false) where
  mint_fields :
      (m : MintAccountExtensions)
      → HasField k v (mint_extensions_value m) ↔ IsExtension k v (named_of_mint m)
  unfolding mint_extensions_value
  mint_fields m = ground (
    arith,
    entry_there m.default_account_state v h,
    entry_there m.confidential_transfer_mint v h,
    entry_there m.confidential_transfer_fee_config v h,
    entry_there m.interest_bearing_config v h,
    entry_there m.transfer_fee_config v h,
    entry_there m.mint_close_authority v h,
    entry_there m.permanent_delegate v h,
    entry_there m.metadata_pointer v h,
    entry_there (map_option (λ s. s.value) m.metadata) v h,
    entry_there m.transfer_hook v h,
    entry_there m.group_pointer v h,
    entry_there m.token_group v h,
    entry_there m.group_member_pointer v h,
    entry_there m.token_group_member v h,
    entry_there (map_option JsonValue.bool m.non_transferable) v h,
    entry_there (map_option JsonValue.bool m.immutable_owner) v h,
  )

  account_fields :
      (a : TokenAccountExtensions)
      → HasField k v (account_extensions_value a) ↔ IsExtension k v (named_of_account a)
  unfolding account_extensions_value
  account_fields a = ground (
    arith,
    entry_there a.confidential_transfer v h,
    entry_there a.cpi_guard v h,
    entry_there a.memo_transfer v h,
    entry_there a.transfer_fee_amount v h,
    entry_there (map_option JsonValue.bool a.immutable_owner) v h,
    entry_there (map_option JsonValue.bool a.non_transferable_account) v h,
  )

-- The extensions column of a mint holds, under the name of each extension that is there, what the
-- extension serializes to, unless that is null, and nothing else, if the mint has an extension that
-- `is_some` looks at, and has no entry otherwise; and so does that of a token account.
pub stored_exactly :
    (m : MintAccountExtensions) (a : TokenAccountExtensions) (k : String) (v : JsonValue)
    → (HasField k v (fields_of (mint_extensions_column m)) ↔ (
        (mint_extensions_is_some m ≡ true)
        × IsExtension k v (named_of_mint m)
        × (is_null v ≡ false)))
      × (HasField k v (fields_of (account_extensions_column a)) ↔ (
          (account_extensions_is_some a ≡ true)
          × IsExtension k v (named_of_account a)
          × (is_null v ≡ false)))
unfolding mint_extensions_column account_extensions_column
stored_exactly m a k v = (
  named_exact _ k v (named_of_mint m)
      (column_exact (mint_extensions_is_some m) (mint_extensions_value m) k v)
      (λ h. mint_fields k v h m),
  named_exact _ k v (named_of_account a)
      (column_exact (account_extensions_is_some a) (account_extensions_value a) k v)
      (λ h. account_fields k v h a),
)
