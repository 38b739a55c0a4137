-- ===== src/Tests/Builders.antt =====
-- Packets that the builders make of concrete arguments.
use nnrp_py.Common.{◌≡◌, refl, Option, none, some, [], ◌∷◌, ok, arith}
use nnrp_py.Struct
use nnrp_py.Struct.{Bytes}
use nnrp_py.Stream.{write_all, read_all, read_loop}
use nnrp_py.Header.Enums.{WireFormat, MessageType}
use nnrp_py.Metadata.ControlEnums.{to_cache_object_kind}
use nnrp_py.Metadata.DataEnums.{TileIndexMode, ResultClass}
use nnrp_py.Metadata.Coerce.{coerce_result_flags, coerce_budget_policy, coerce_payload_kind_bitmap}
use nnrp_py.Metadata.ResultPush
use nnrp_py.Metadata.ResultPush.{check_non_tensor_fields, check_contract}
use nnrp_py.Metadata.InlineObjectBlock
use nnrp_py.Metadata.BodyRegionPrelude
use nnrp_py.Body.Table.{unpack_table, read_row}
use nnrp_py.Body.Tables.{
  unpack_object_reference_blocks, unpack_typed_payload_descriptors,
  unpack_extension_frame_descriptors,
}
use nnrp_py.Body.Offsets.{validate_descriptor_offsets}
use nnrp_py.Body.Typed.{validate_typed_payload_kind_union}
use nnrp_py.Body.Inline.{
  align_up, read_block, split_inline_object_region, unpack_each, unpack_inline_object_block,
  unpack_inline_object_blocks, pack_inline_object_block,
}
use nnrp_py.Body.Regions.{check_regions, unpack_body, pack_body}
use nnrp_py.Body.Tiles.{validate_tile_ids, pack_u16, pack_tile_index_block, unpack_tile_index_block}
use nnrp_py.Body.TensorBody.{pack_section_sequence, TensorBodyView}
use nnrp_py.Body.Contracts.{
  inline_of, references_of, check_tile_index, check_sections, check_no_tensor,
  validate_body_metadata_contract,
}
use nnrp_py.Body.Contracts.Push.{
  validate_result_push_tensor_coverage, check_reference_order, check_once,
  validate_result_push_object_contract, validate_result_push_body,
}
use nnrp_py.Packet
use nnrp_py.Packet.{NnrpPacket}
use nnrp_py.Packet.RoundTrip.{FieldsFit}
use nnrp_py.Metadata
use nnrp_py.Metadata.Message as Messages
use nnrp_py.Packet.Builders.{Call, build_for}
use nnrp_py.Packet.Builders.Received.{fields_of, message_of, IsRead, received-build_for}
use nnrp_py.Packet.Builders.ResultPush.{
  ResultPushArguments, TensorParts, build_standard_inline_object_block,
  build_result_inline_object_region, tensor_parts, metadata_of, push_fields,
  build_result_push_packet,
}
use nnrp_py.Packet.Builders.ResultPush.Delivered.{received-build_result_push_packet}
use nnrp_py.Client.Receive.{receive_result}
use nnrp_py.Tests.Tensors.{packet}

-- A probe with a body of three bytes, in session 7 on route 2.
abbrev probe_call : Call
probe_call =
    Call.transport_probe (record { probe_id = 5; probe_payload_bytes = 3; client_send_ts_us = 9 })
      (1 ∷ 2 ∷ 3 ∷ []) 7 2 99 0

probe_packs :
    Messages.pack (
      Messages.Message.transport_probe
        (record { probe_id = 5; probe_payload_bytes = 3; client_send_ts_us = 9 }))
    ≡ ok (5 ∷ 0 ∷ 0 ∷ 0 ∷ 3 ∷ 0 ∷ 0 ∷ 0 ∷ 9 ∷ 0 ∷ 0 ∷ 0 ∷ 0 ∷ 0 ∷ 0 ∷ 0 ∷ [])
unfolding Messages.pack Metadata.pack Struct.pack
probe_packs = refl

probe_fits : FieldsFit (fields_of probe_call)
probe_fits = record {
  version_major_fits = omega arith;
  flags_fit = omega arith;
  session_id_fits = omega arith;
  frame_id_fits = omega arith;
  view_id_fits = omega arith;
  route_id_fits = omega arith;
  trace_id_fits = omega arith;
}

received-build_for_example :
    (p : NnrpPacket) × (bs : Bytes) × (build_for probe_call ≡ ok p)
    × (Packet.pack p ≡ ok bs)
    × (Packet.unpack bs ≡ ok p)
    × (p.header.msg_type ≡ MessageType.transport_probe)
    × (p.header.session_id ≡ 7)
    × (p.body ≡ 1 ∷ 2 ∷ 3 ∷ [])
    × IsRead (message_of probe_call) p.metadata
received-build_for_example =
    received-build_for probe_call
      (5 ∷ 0 ∷ 0 ∷ 0 ∷ 3 ∷ 0 ∷ 0 ∷ 0 ∷ 9 ∷ 0 ∷ 0 ∷ 0 ∷ 0 ∷ 0 ∷ 0 ∷ 0 ∷ []) refl probe_packs
      probe_fits (omega arith)

-- Two tiles without sections.
abbrev arguments : ResultPushArguments
arguments = record {
  route = record {
    session_id = 7;
    frame_id = 12;
    view_id = 0;
    route_id = 0;
    trace_id = 0;
    flags = 0;
  };
  tile_ids = 1 ∷ 2 ∷ [];
  sections = [];
  result_flags = 0;
  active_profile_id = 1;
  inference_ms = 0;
  queue_ms = 0;
  server_total_ms = 0;
  status_code = 0;
  tile_index_mode = TileIndexMode.raw_u16;
  tile_base_id = 0;
  result_class = ResultClass.complete;
  applied_budget_policy = 0;
  reused_frame_id = 0;
  covered_tile_count = none;
  dropped_tile_count = 0;
  payload_kind_bitmap = 1;
  payload_frame_count = 0;
  version_major = 1;
  wire_format = WireFormat.current;
}

built : build_result_push_packet arguments ≡ ok packet
unfolding build_result_push_packet tensor_parts build_result_inline_object_region
    build_standard_inline_object_block pack_inline_object_block pack_body pack_section_sequence
    pack_tile_index_block validate_tile_ids pack_u16 write_all Packet.build Metadata.pack
    Struct.pack ResultPush.check coerce_result_flags coerce_budget_policy coerce_payload_kind_bitmap
    check_non_tensor_fields check_contract validate_result_push_body unpack_body check_regions
    BodyRegionPrelude.from_tuple BodyRegionPrelude.check InlineObjectBlock.from_tuple
    InlineObjectBlock.check unpack_inline_object_blocks split_inline_object_region unpack_each
    unpack_inline_object_block read_block align_up unpack_object_reference_blocks
    unpack_typed_payload_descriptors unpack_extension_frame_descriptors unpack_table read_row
    read_all read_loop Metadata.unpack Struct.unpack Struct.values Struct.le_value
    to_cache_object_kind validate_descriptor_offsets validate_result_push_tensor_coverage
    validate_body_metadata_contract check_no_tensor validate_typed_payload_kind_union
    validate_result_push_object_contract check_reference_order check_once inline_of references_of
    check_tile_index check_sections unpack_tile_index_block
built = refl

arguments_fit : FieldsFit (push_fields arguments)
arguments_fit = record {
  version_major_fits = omega arith;
  flags_fit = omega arith;
  session_id_fits = omega arith;
  frame_id_fits = omega arith;
  view_id_fits = omega arith;
  route_id_fits = omega arith;
  trace_id_fits = omega arith;
}

received-build_result_push_packet_example :
    (bs : Bytes) × (parts : TensorParts) × (tensor_body : Option TensorBodyView) × (Packet.pack
        packet
      ≡ ok bs)
    × (Packet.unpack bs ≡ ok packet)
    × (receive_result packet
        ≡ ok (record {
          packet = packet;
          metadata = some (metadata_of arguments parts);
          tensor_body = tensor_body;
          typed_payloads = [];
        }))
received-build_result_push_packet_example =
    received-build_result_push_packet arguments packet built refl arguments_fit (omega arith)
