-- ===== src/Scenarios/Nft.antt =====
-- One NFT, mint 50 with token account 60: its accounts, and the rows they have.
use digital_asset_rpc_infras.Base.{true, false, none, some, [], ◌∷◌, ◌+◌}
use digital_asset_rpc_infras.Base.Int.{pos}
use digital_asset_rpc_infras.Db.Json.{JsonValue}
use digital_asset_rpc_infras.Db.Tokens.{Token, TokenAccount}
use digital_asset_rpc_infras.Db.Schema.{Db, default_asset, empty_db}
use digital_asset_rpc_infras.Db.Session.{Session}
use digital_asset_rpc_infras.Bubblegum.Event.{TokenStandard}
use digital_asset_rpc_infras.Accounts.Token.{AccountInfo, AccountState, SplAccount, SplMint}
use digital_asset_rpc_infras.Accounts.Attachments.{AttachmentExternals}
use digital_asset_rpc_infras.Accounts.Metadata.Statements.{Metadata}

abbrev pub mint_info : AccountInfo
mint_info = record { slot = 5; pubkey = 50; owner = 1 }

abbrev pub account_info : AccountInfo
account_info = record { slot = 6; pubkey = 60; owner = 1 }

abbrev pub nft_mint : SplMint
nft_mint = record { mint_authority = none; supply = 1; decimals = 0; freeze_authority = none }

abbrev pub nft_account : SplAccount
nft_account = record {
  mint = 50;
  owner = 77;
  amount = 1;
  delegate = none;
  state = AccountState.initialized;
  delegated_amount = 0;
}

abbrev pub nft_token : Token
nft_token = record {
  supply = 1;
  decimals = 0;
  token_program = 1;
  mint_authority = none;
  freeze_authority = none;
  close_authority = none;
  extension_data = none;
  slot_updated = pos 5;
  extensions = none;
}

abbrev pub held : TokenAccount
held = record {
  mint = 50;
  amount = pos 1;
  owner = 77;
  frozen = false;
  close_authority = none;
  delegate = none;
  delegated_amount = pos 0;
  slot_updated = pos 6;
  token_program = 1;
  extensions = none;
}

-- The mint, its account and an asset without owner are there.
abbrev pub known : Db
known = record {
  assets = record empty_db.assets { asset = (50, default_asset) ∷ [] };
  trees = empty_db.trees;
  accounts = record {
    tokens = (50, nft_token) ∷ [];
    token_accounts = (60, held) ∷ [];
    asset_v1_account_attachments = [];
  };
}

abbrev pub metadata : Metadata
metadata = record {
  update_authority = 9;
  mint = 50;
  name = "Name";
  symbol = "SYM";
  uri = "uri";
  seller_fee_basis_points = 500;
  creators = none;
  primary_sale_happened = false;
  is_mutable = true;
  edition_nonce = none;
  token_standard = some TokenStandard.non_fungible;
  collection = none;
  uses = none;
}

abbrev pub attachments : AttachmentExternals
attachments = record {
  master_edition_v1_key = 2;
  master_edition_value = λ e. JsonValue.null;
  edition_value = λ e. JsonValue.null;
  find_pda = λ mint. mint + 1;
  pubkey_from_str = λ s. none;
  parse_error = "not a key";
}

-- The statement after `begin` of the metadata is lost.
abbrev pub broken : Session
broken = record {
  db = known;
  faults = none ∷ none ∷ none ∷ none ∷ none ∷ some "lost" ∷ [];
  notified = [];
}
