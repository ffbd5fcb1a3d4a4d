-- ===== src/Bubblegum/Instruction.antt =====
-- The names of instructions: `ix_str` of program_transformers/src/bubblegum/mod.rs, and both
-- directions of digital_asset_types/src/dao/extensions/instruction.rs.
use digital_asset_rpc_infras.Base.{◌≡◌, refl, String, if◌then◌else◌}
use digital_asset_rpc_infras.Db.Schema.{Instruction}
use digital_asset_rpc_infras.Bubblegum.Event.{InstructionName}
use text.Mathlib.Text.{◌==◌}

unfoldable pub ix_str : InstructionName → String
ix_str InstructionName.unknown = "Unknown"
ix_str InstructionName.mint_v1 = "MintV1"
ix_str InstructionName.mint_to_collection_v1 = "MintToCollectionV1"
ix_str InstructionName.redeem = "Redeem"
ix_str InstructionName.cancel_redeem = "CancelRedeem"
ix_str InstructionName.transfer = "Transfer"
ix_str InstructionName.delegate = "Delegate"
ix_str InstructionName.decompress_v1 = "DecompressV1"
ix_str InstructionName.compress = "Compress"
ix_str InstructionName.burn = "Burn"
ix_str InstructionName.create_tree = "CreateTree"
ix_str InstructionName.verify_creator = "VerifyCreator"
ix_str InstructionName.unverify_creator = "UnverifyCreator"
ix_str InstructionName.verify_collection = "VerifyCollection"
ix_str InstructionName.unverify_collection = "UnverifyCollection"
ix_str InstructionName.set_and_verify_collection = "SetAndVerifyCollection"
ix_str InstructionName.set_decompressible_state = "SetDecompressibleState"
ix_str InstructionName.update_metadata = "UpdateMetadata"
ix_str InstructionName.burn_v2 = "BurnV2"
ix_str InstructionName.collect_v2 = "CollectV2"
ix_str InstructionName.create_tree_v2 = "CreateTreeV2"
ix_str InstructionName.delegate_and_freeze_v2 = "DelegateAndFreezeV2"
ix_str InstructionName.delegate_v2 = "DelegateV2"
ix_str InstructionName.freeze_v2 = "FreezeV2"
ix_str InstructionName.mint_v2 = "MintV2"
ix_str InstructionName.set_collection_v2 = "SetCollectionV2"
ix_str InstructionName.set_non_transferable_v2 = "SetNonTransferableV2"
ix_str InstructionName.thaw_and_revoke_v2 = "ThawAndRevokeV2"
ix_str InstructionName.thaw_v2 = "ThawV2"
ix_str InstructionName.transfer_v2 = "TransferV2"
ix_str InstructionName.unverify_creator_v2 = "UnverifyCreatorV2"
ix_str InstructionName.update_asset_data_v2 = "UpdateAssetDataV2"
ix_str InstructionName.update_metadata_v2 = "UpdateMetadataV2"
ix_str InstructionName.verify_creator_v2 = "VerifyCreatorV2"

unfoldable pub instruction_from : String → Instruction
instruction_from s =
    if s == "Burn"
    then Instruction.burn
    else if s == "CancelRedeem"
    then Instruction.cancel_redeem
    else if s == "Compress"
    then Instruction.compress
    else if s == "DecompressV1"
    then Instruction.decompress_v1
    else if s == "Delegate"
    then Instruction.delegate
    else if s == "MintToCollectionV1"
    then Instruction.mint_to_collection_v1
    else if s == "MintV1"
    then Instruction.mint_v1
    else if s == "Redeem"
    then Instruction.redeem
    else if s == "SetAndVerifyCollection"
    then Instruction.set_and_verify_collection
    else if s == "Transfer"
    then Instruction.transfer
    else if s == "UnverifyCollection"
    then Instruction.unverify_collection
    else if s == "UnverifyCreator"
    then Instruction.unverify_creator
    else if s == "VerifyCollection"
    then Instruction.verify_collection
    else if s == "VerifyCreator"
    then Instruction.verify_creator
    else if s == "UpdateMetadata"
    then Instruction.update_metadata
    else if s == "BurnV2"
    then Instruction.burn_v2
    else if s == "DelegateV2"
    then Instruction.delegate_v2
    else if s == "DelegateAndFreezeV2"
    then Instruction.delegate_and_freeze_v2
    else if s == "FreezeV2"
    then Instruction.freeze_v2
    else if s == "MintV2"
    then Instruction.mint_v2
    else if s == "SetCollectionV2"
    then Instruction.set_collection_v2
    else if s == "SetNonTransferableV2"
    then Instruction.set_non_transferable_v2
    else if s == "ThawV2"
    then Instruction.thaw_v2
    else if s == "ThawAndRevokeV2"
    then Instruction.thaw_and_revoke_v2
    else if s == "TransferV2"
    then Instruction.transfer_v2
    else if s == "UnverifyCreatorV2"
    then Instruction.unverify_creator_v2
    else if s == "VerifyCreatorV2"
    then Instruction.verify_creator_v2
    else if s == "UpdateMetadataV2"
    then Instruction.update_metadata_v2
    else if s == "UpdateAssetDataV2"
    then Instruction.update_asset_data_v2
    else Instruction.unknown

unfoldable pub to_pascal_case : Instruction → String
to_pascal_case Instruction.burn = "Burn"
to_pascal_case Instruction.cancel_redeem = "CancelRedeem"
to_pascal_case Instruction.compress = "Compress"
to_pascal_case Instruction.decompress_v1 = "DecompressV1"
to_pascal_case Instruction.delegate = "Delegate"
to_pascal_case Instruction.mint_to_collection_v1 = "MintToCollectionV1"
to_pascal_case Instruction.mint_v1 = "MintV1"
to_pascal_case Instruction.redeem = "Redeem"
to_pascal_case Instruction.set_and_verify_collection = "SetAndVerifyCollection"
to_pascal_case Instruction.transfer = "Transfer"
to_pascal_case Instruction.unknown = "Unknown"
to_pascal_case Instruction.unverify_collection = "UnverifyCollection"
to_pascal_case Instruction.unverify_creator = "UnverifyCreator"
to_pascal_case Instruction.verify_collection = "VerifyCollection"
to_pascal_case Instruction.verify_creator = "VerifyCreator"
to_pascal_case Instruction.update_metadata = "UpdateMetadata"
to_pascal_case Instruction.burn_v2 = "BurnV2"
to_pascal_case Instruction.delegate_v2 = "DelegateV2"
to_pascal_case Instruction.delegate_and_freeze_v2 = "DelegateAndFreezeV2"
to_pascal_case Instruction.freeze_v2 = "FreezeV2"
to_pascal_case Instruction.mint_v2 = "MintV2"
to_pascal_case Instruction.set_collection_v2 = "SetCollectionV2"
to_pascal_case Instruction.set_non_transferable_v2 = "SetNonTransferableV2"
to_pascal_case Instruction.thaw_v2 = "ThawV2"
to_pascal_case Instruction.thaw_and_revoke_v2 = "ThawAndRevokeV2"
to_pascal_case Instruction.transfer_v2 = "TransferV2"
to_pascal_case Instruction.unverify_creator_v2 = "UnverifyCreatorV2"
to_pascal_case Instruction.verify_creator_v2 = "VerifyCreatorV2"
to_pascal_case Instruction.update_metadata_v2 = "UpdateMetadataV2"
to_pascal_case Instruction.update_asset_data_v2 = "UpdateAssetDataV2"

-- Printing an instruction and reading it back gives the same instruction.
pub instruction_from-to_pascal_case : (i : Instruction) → instruction_from (to_pascal_case i) ≡ i
unfolding instruction_from to_pascal_case
instruction_from-to_pascal_case Instruction.burn = refl
instruction_from-to_pascal_case Instruction.cancel_redeem = refl
instruction_from-to_pascal_case Instruction.compress = refl
instruction_from-to_pascal_case Instruction.decompress_v1 = refl
instruction_from-to_pascal_case Instruction.delegate = refl
instruction_from-to_pascal_case Instruction.mint_to_collection_v1 = refl
instruction_from-to_pascal_case Instruction.mint_v1 = refl
instruction_from-to_pascal_case Instruction.redeem = refl
instruction_from-to_pascal_case Instruction.set_and_verify_collection = refl
instruction_from-to_pascal_case Instruction.transfer = refl
instruction_from-to_pascal_case Instruction.unknown = refl
instruction_from-to_pascal_case Instruction.unverify_collection = refl
instruction_from-to_pascal_case Instruction.unverify_creator = refl
instruction_from-to_pascal_case Instruction.verify_collection = refl
instruction_from-to_pascal_case Instruction.verify_creator = refl
instruction_from-to_pascal_case Instruction.update_metadata = refl
instruction_from-to_pascal_case Instruction.burn_v2 = refl
instruction_from-to_pascal_case Instruction.delegate_v2 = refl
instruction_from-to_pascal_case Instruction.delegate_and_freeze_v2 = refl
instruction_from-to_pascal_case Instruction.freeze_v2 = refl
instruction_from-to_pascal_case Instruction.mint_v2 = refl
instruction_from-to_pascal_case Instruction.set_collection_v2 = refl
instruction_from-to_pascal_case Instruction.set_non_transferable_v2 = refl
instruction_from-to_pascal_case Instruction.thaw_v2 = refl
instruction_from-to_pascal_case Instruction.thaw_and_revoke_v2 = refl
instruction_from-to_pascal_case Instruction.transfer_v2 = refl
instruction_from-to_pascal_case Instruction.unverify_creator_v2 = refl
instruction_from-to_pascal_case Instruction.verify_creator_v2 = refl
instruction_from-to_pascal_case Instruction.update_metadata_v2 = refl
instruction_from-to_pascal_case _ = refl
