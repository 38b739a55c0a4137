-- ===== src/Packet/Builders/ResultPush.antt =====
-- core/packet.py: `build_result_push_packet` and the three functions that call it for one class of
-- result each.
pub mod Delivered
use nnrp_py.Common.{
  ℕ, ◌+◌, Bool, true, false, not, Option, none, some, List, [], ◌++◌, length, leb, ◌==◌, has_bit,
  if◌then◌else◌, Result, ok, ◌>>=◌, ◌>>◌, require,
}
use nnrp_py.Struct.{Bytes}
use nnrp_py.Header.Enums.{WireFormat, MessageType}
use nnrp_py.Metadata
use nnrp_py.Metadata.ControlEnums.{CacheObjectKind}
use nnrp_py.Metadata.DataEnums.{ResultClass, TileIndexMode}
use nnrp_py.Metadata.ResultPush
use nnrp_py.Metadata.ResultPush.{ResultPushMetadata}
use nnrp_py.Body.Inline.{pack_inline_object_block}
use nnrp_py.Body.Tiles.{pack_tile_index_block}
use nnrp_py.Body.Sections.{TensorSectionData}
use nnrp_py.Body.TensorBody.{pack_section_sequence, pack_tensor_section_region}
use nnrp_py.Body.Regions.{Regions, pack_body}
use nnrp_py.Body.Contracts.{is_empty}
use nnrp_py.Body.Contracts.Push.{validate_result_push_tensor_coverage, validate_result_push_body}
use nnrp_py.Packet
use nnrp_py.Packet.{NnrpPacket, Fields}
use nnrp_py.Packet.Builders.{Route}

unfoldable pub build_standard_inline_object_block : CacheObjectKind → Bytes → ℕ → Result Bytes
build_standard_inline_object_block object_kind payload profile_id =
    pack_inline_object_block
      (record {
        object_kind = object_kind;
        object_flags = 0;
        profile_id = profile_id;
        reserved0 = 0;
        object_bytes = length payload;
        reserved1 = 0;
      })
      payload

unfoldable pub build_result_inline_object_region : Bytes → List Bytes → Bool → Result Bytes
unfolding build_standard_inline_object_block
build_result_inline_object_region tile_index_payload section_payloads has_tile_ids = do
  tile_index ←
      (if has_tile_ids
        then build_standard_inline_object_block CacheObjectKind.tile_index_block tile_index_payload
            0
        else ok [])
  section_table ←
      (if is_empty section_payloads
        then ok []
        else build_standard_inline_object_block CacheObjectKind.tensor_section_table
            (pack_tensor_section_region section_payloads) 0)
  ok (tile_index ++ section_table)

-- The arguments of `build_result_push_packet`; the session, the frame and the last four are `route`.
pub record ResultPushArguments : Type 0 where
  pub route : Route
  pub tile_ids : List ℕ
  pub sections : List TensorSectionData
  pub result_flags : ℕ
  pub active_profile_id : ℕ
  pub inference_ms : ℕ
  pub queue_ms : ℕ
  pub server_total_ms : ℕ
  pub status_code : ℕ
  pub tile_index_mode : TileIndexMode
  pub tile_base_id : ℕ
  pub result_class : ResultClass
  pub applied_budget_policy : ℕ
  pub reused_frame_id : ℕ
  pub covered_tile_count : Option ℕ
  pub dropped_tile_count : ℕ
  pub payload_kind_bitmap : ℕ
  pub payload_frame_count : ℕ
  pub version_major : ℕ
  pub wire_format : WireFormat

abbrev pub tensor_enabled : ResultPushArguments → Bool
tensor_enabled a = has_bit a.payload_kind_bitmap 0x01

abbrev pub is_representable : TileIndexMode → Bool
is_representable TileIndexMode.raw_u16 = true
is_representable TileIndexMode.dense_range = true
is_representable _ = false

abbrev pub covered_or : ℕ → Option ℕ → ℕ
covered_or tile_count none = tile_count
covered_or tile_count (some covered) = covered

abbrev pub inline_only : Bytes → Regions
inline_only region = record {
  inline_object_region = region;
  object_reference_region = [];
  typed_payload_descriptor_region = [];
  typed_payload_frame_region = [];
  extension_descriptor_region = [];
  extension_payload_region = [];
}

-- The section payloads, the tile index block, the covered tiles and the inline object region.
pub record TensorParts : Type 0 where
  pub section_payloads : List Bytes
  pub tile_index_block : Bytes
  pub covered : ℕ
  pub inline_object_region : Bytes

unfoldable pub tensor_parts : ResultPushArguments → Result TensorParts
unfolding build_result_inline_object_region
tensor_parts a = do
  section_payloads ← pack_section_sequence (length a.tile_ids) none a.sections
  tile_index_block ← pack_tile_index_block a.tile_index_mode a.tile_base_id a.tile_ids
  require (leb (covered_or (length a.tile_ids) a.covered_tile_count) (length a.tile_ids))
  require (leb a.dropped_tile_count (length a.tile_ids))
  require (
      covered_or (length a.tile_ids) a.covered_tile_count + a.dropped_tile_count
      == length a.tile_ids)
  region ←
      build_result_inline_object_region tile_index_block section_payloads
        (not (is_empty a.tile_ids))
  ok (record {
    section_payloads = section_payloads;
    tile_index_block = tile_index_block;
    covered = covered_or (length a.tile_ids) a.covered_tile_count;
    inline_object_region = region;
  })

unfoldable pub no_tensor_parts : ResultPushArguments → Result TensorParts
no_tensor_parts a = do
  require (is_empty a.tile_ids)
  require (is_empty a.sections)
  require (covered_or 0 a.covered_tile_count == 0)
  require (a.dropped_tile_count == 0)
  require (a.payload_frame_count == 0)
  ok (record {
    section_payloads = [];
    tile_index_block = [];
    covered = 0;
    inline_object_region = [];
  })

abbrev pub metadata_of : ResultPushArguments → TensorParts → ResultPushMetadata
metadata_of a parts = record {
  status_code = a.status_code;
  result_flags = a.result_flags;
  section_count = length parts.section_payloads;
  tile_count = length a.tile_ids;
  active_profile_id = a.active_profile_id;
  reserved0 = 0;
  inference_ms = a.inference_ms;
  queue_ms = a.queue_ms;
  server_total_ms = a.server_total_ms;
  reserved1 = 0;
  tile_base_id = if tensor_enabled a then a.tile_base_id else 0;
  tile_index_bytes = length parts.tile_index_block;
  reserved2 = 0;
  reserved3 = 0;
  result_class = a.result_class;
  applied_budget_policy = a.applied_budget_policy;
  reserved4 = 0;
  reused_frame_id = a.reused_frame_id;
  covered_tile_count = parts.covered;
  dropped_tile_count = if tensor_enabled a then a.dropped_tile_count else 0;
  payload_kind_bitmap = a.payload_kind_bitmap;
  payload_frame_count = a.payload_frame_count;
  reserved5 = 0;
}

abbrev pub push_fields : ResultPushArguments → Fields
push_fields a = record {
  version_major = a.version_major;
  wire_format = a.wire_format;
  msg_type = MessageType.result_push;
  flags = a.route.flags;
  session_id = a.route.session_id;
  frame_id = a.route.frame_id;
  view_id = a.route.view_id;
  route_id = a.route.route_id;
  trace_id = a.route.trace_id;
}

unfoldable pub build_result_push_packet : ResultPushArguments → Result NnrpPacket
unfolding tensor_parts no_tensor_parts
build_result_push_packet a = do
  require (is_representable a.tile_index_mode)
  parts ← (if tensor_enabled a then tensor_parts a else no_tensor_parts a)
  body ← pack_body (inline_only parts.inline_object_region)
  ResultPush.check (metadata_of a parts)
  validate_result_push_tensor_coverage (metadata_of a parts)
  _ ← validate_result_push_body (metadata_of a parts) body
  metadata ← Metadata.pack ResultPush.codec (metadata_of a parts)
  ok (Packet.build (push_fields a) metadata body)

-- The arguments that one class of result takes: its flags, class, policy and reused frame.
abbrev pub as_class : ResultPushArguments → ℕ → ResultClass → ℕ → ℕ → ResultPushArguments
as_class a result_flags result_class applied_budget_policy reused_frame_id = record {
  route = a.route;
  tile_ids = a.tile_ids;
  sections = a.sections;
  result_flags = result_flags;
  active_profile_id = a.active_profile_id;
  inference_ms = a.inference_ms;
  queue_ms = a.queue_ms;
  server_total_ms = a.server_total_ms;
  status_code = a.status_code;
  tile_index_mode = a.tile_index_mode;
  tile_base_id = a.tile_base_id;
  result_class = result_class;
  applied_budget_policy = applied_budget_policy;
  reused_frame_id = reused_frame_id;
  covered_tile_count = a.covered_tile_count;
  dropped_tile_count = a.dropped_tile_count;
  payload_kind_bitmap = 0x01;
  payload_frame_count = 0;
  version_major = a.version_major;
  wire_format = a.wire_format;
}

abbrev pub build_partial_result_push_packet : ResultPushArguments → Result NnrpPacket
build_partial_result_push_packet a =
    build_result_push_packet (as_class a 0x0004 ResultClass.partial 0x01 0)

abbrev pub build_stale_reuse_result_push_packet : ResultPushArguments → Result NnrpPacket
build_stale_reuse_result_push_packet a =
    build_result_push_packet (as_class a 0x0001 ResultClass.stale_reuse 0x02 a.reused_frame_id)

abbrev pub build_degraded_result_push_packet : ResultPushArguments → Result NnrpPacket
build_degraded_result_push_packet a =
    build_result_push_packet (as_class a 0x0002 ResultClass.degraded 0x04 0)
