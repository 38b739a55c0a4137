-- ===== src/Tests/Tensors.antt =====
-- Tile indices, tensor sections and the bodies that are accepted, at concrete bytes.
use nnrp_py.Common.{
  ℕ, ◌≡◌, refl, none, some, List, [], ◌∷◌, ◌++◌, All, Option, ok, err, value_error, ◌>>=◌,
  bits_outside,
}
use nnrp_py.Struct
use nnrp_py.Struct.{Bytes}
use nnrp_py.Stream.{write_all, read_all, read_loop}
use nnrp_py.Header.Enums.{WireFormat, MessageType}
use nnrp_py.Metadata
use nnrp_py.Metadata.ControlEnums.{to_cache_object_kind}
use nnrp_py.Metadata.DataEnums.{
  TileIndexMode, TensorDType, TensorLayout, ScalePolicy, ResultClass, InputProfile, SubmitMode,
  to_result_class,
}
use nnrp_py.Metadata.Coerce.{coerce_result_flags, coerce_budget_policy, coerce_payload_kind_bitmap}
use nnrp_py.Metadata.FrameSubmit.{FrameSubmitMetadata}
use nnrp_py.Metadata.ResultPush
use nnrp_py.Metadata.ResultPush.{ResultPushMetadata, check_non_tensor_fields, check_contract}
use nnrp_py.Metadata.ObjectReference
use nnrp_py.Metadata.InlineObjectBlock
use nnrp_py.Metadata.BodyRegionPrelude
use nnrp_py.Metadata.BodyRegionPrelude.{BodyRegionPrelude}
use nnrp_py.Packet.{NnrpPacket}
use nnrp_py.Body.Table.{unpack_table, read_row}
use nnrp_py.Body.Tables.{
  unpack_object_reference_blocks, unpack_typed_payload_descriptors,
  unpack_extension_frame_descriptors,
}
use nnrp_py.Body.Offsets.{validate_descriptor_offsets}
use nnrp_py.Body.Typed.{
  TypedPayloadFrame, unpack_typed_payload_frames, validate_typed_payload_kind_union,
}
use nnrp_py.Body.Inline.{
  InlineObjectBlockView, align_up, read_block, split_inline_object_region, unpack_each,
  unpack_inline_object_block, unpack_inline_object_blocks,
}
use nnrp_py.Body.Regions.{BodyView, check_regions, unpack_body}
use nnrp_py.Body.Tiles.{
  validate_tile_ids, validate_strictly_increasing_tile_ids, set_bit, set_bits, pack_bitset,
  pack_tile_index_block, unpack_tile_index_block,
}
use nnrp_py.Body.Tiles.RoundTrip.{unpack-pack_tile_index_block}
use nnrp_py.Body.Tiles.Errors.{pack_tile_index_block-raises}
use nnrp_py.Body.Sections.{
  TensorSectionView, TensorSectionData, tile_lengths, stride_slices, payload_slices, check_section,
  build_tensor_section_view, pack_tensor_section, parse_tensor_section, build_codec_table,
  pack_length, fixed_stride_blob, build_section_payload_blob, pack_tensor_section_data,
}
use nnrp_py.Body.Sections.RoundTrip.{parse-pack_tensor_section_data}
use nnrp_py.Body.TensorBody.{
  pack_section_sequence, pack_tensor_section_region, unpack_tensor_body, TensorBodyView,
}
use nnrp_py.Body.TensorBody.RoundTrip.{ReadAll, unpack-pack_tensor_body}
use nnrp_py.Body.Contracts.{
  inline_of, references_of, check_matches, slots_loop, check_no_inline, check_reference_mode,
  check_camera, check_tile_index, check_sections, validate_frame_submit_object_contract, kinds_of,
  standard_reference_slots, known_object_ref_mask, check_no_tensor, validate_body_metadata_contract,
}
use nnrp_py.Body.Contracts.Submit.{kinds_in, values_of, Slot, references-of_accepted_submit}
use nnrp_py.Body.Contracts.Push.{
  validate_result_push_tensor_coverage, check_reference_order, check_once,
  validate_result_push_object_contract, validate_result_push_body, unpack_current_tensor_body,
  index_mode, last_of, sections_in,
}
use nnrp_py.Body.Contracts.Received.{tensors_of_accepted_push}
use nnrp_py.Client.Receive.{
  ClientResult, from_core_frames, tensor_body_of, read_body, receive_push, receive_type,
  receive_result, tile_ids,
}
use nnrp_py.Client.Receive.Laws.{receive_result-accepted, tile_ids-receive_result}

-- The bits 1 of the first byte, and 1 and 2 of the second.
packed_bits : pack_tile_index_block TileIndexMode.bitset 0 (1 ∷ 9 ∷ 10 ∷ []) ≡ ok (2 ∷ 6 ∷ [])
unfolding pack_tile_index_block validate_tile_ids validate_strictly_increasing_tile_ids pack_bitset
    set_bits set_bit
packed_bits = refl

unpack-pack_tile_index_block_example :
    unpack_tile_index_block TileIndexMode.bitset 3 0 (2 ∷ 6 ∷ []) ≡ ok (1 ∷ 9 ∷ 10 ∷ [])
unpack-pack_tile_index_block_example =
    unpack-pack_tile_index_block TileIndexMode.bitset 0 (1 ∷ 9 ∷ 10 ∷ []) (2 ∷ 6 ∷ []) packed_bits

not_dense : pack_tile_index_block TileIndexMode.dense_range 4 (4 ∷ 6 ∷ []) ≡ err value_error
unfolding pack_tile_index_block validate_tile_ids
not_dense = refl

pack_tile_index_block-raises_example : value_error ≡ value_error
pack_tile_index_block-raises_example =
    pack_tile_index_block-raises TileIndexMode.dense_range 4 (4 ∷ 6 ∷ []) value_error not_dense

-- Two tiles at a stride of four bytes, the second with a codec of its own.
abbrev section : ℕ → TensorSectionData
section role_id = record {
  role_id = role_id;
  default_codec_id = 0;
  dtype_id = TensorDType.uint8;
  tile_payloads = (1 ∷ 2 ∷ []) ∷ (3 ∷ []) ∷ [];
  codec_ids = 0 ∷ 5 ∷ [];
  layout_id = TensorLayout.nhwc;
  scale_policy = ScalePolicy.none;
  payload_stride_bytes = 4;
  element_count_per_tile = 2;
}

abbrev section_bytes : ℕ → Bytes
section_bytes role_id =
    (role_id ∷ 0 ∷ 0 ∷ 5 ∷ 0 ∷ 0 ∷ 3 ∷ 0 ∷ 2 ∷ 0 ∷ 0 ∷ 0 ∷ 2 ∷ 0 ∷ 0 ∷ 0 ∷ 8 ∷ 0 ∷ 0 ∷ 0 ∷ 8 ∷ 0 ∷ 0
      ∷ 0 ∷ 4 ∷ 0 ∷ 0 ∷ 0 ∷ 0 ∷ 0 ∷ 0 ∷ 0 ∷ 0 ∷ 5 ∷ 2 ∷ 0 ∷ 0 ∷ 0 ∷ 1 ∷ 0 ∷ 0 ∷ 0 ∷ 1 ∷ 2 ∷ 0 ∷ 0
      ∷ 3 ∷ 0 ∷ 0 ∷ 0 ∷ [])

packed_section : pack_tensor_section_data (section 1) ≡ ok (section_bytes 1)
unfolding pack_tensor_section_data build_codec_table write_all pack_length
    build_section_payload_blob fixed_stride_blob pack_tensor_section build_tensor_section_view
    check_section payload_slices tile_lengths stride_slices Metadata.pack Struct.pack Struct.values
packed_section = refl

parse-pack_tensor_section_data_example :
    (v : TensorSectionView) × (parse_tensor_section (section_bytes 1 ++ (9 ∷ [])) ≡ ok (v, 50))
    × (payload_slices v ≡ ok ((1 ∷ 2 ∷ []) ∷ (3 ∷ []) ∷ []))
    × (v.desc.role_id ≡ 1)
    × (build_codec_table 0 2 (0 ∷ 5 ∷ []) ≡ ok v.codec_table)
    × (tile_lengths v ≡ ok (2 ∷ 1 ∷ []))
parse-pack_tensor_section_data_example =
    parse-pack_tensor_section_data (section 1) (section_bytes 1) (9 ∷ []) packed_section

packed_sequence :
    pack_section_sequence 2 none (section 1 ∷ section 4 ∷ [])
    ≡ ok (section_bytes 1 ∷ section_bytes 4 ∷ [])
unfolding pack_section_sequence pack_tensor_section_data build_codec_table write_all pack_length
    build_section_payload_blob fixed_stride_blob pack_tensor_section build_tensor_section_view
    check_section payload_slices tile_lengths stride_slices Metadata.pack Struct.pack Struct.values
packed_sequence = refl

unpack-pack_tensor_body_example :
    (views : List TensorSectionView) × (unpack_tensor_body
        (pack_tensor_section_region (section_bytes 1 ∷ section_bytes 4 ∷ []))
        0
        2
        (some 2)
      ≡ ok (record { tile_index_block = []; sections = views }))
    × ReadAll (section 1 ∷ section 4 ∷ []) views
unpack-pack_tensor_body_example =
    unpack-pack_tensor_body 2 (section 1 ∷ section 4 ∷ []) (section_bytes 1 ∷ section_bytes 4 ∷ [])
      packed_sequence

abbrev prelude : ℕ → ℕ → BodyRegionPrelude
prelude inline_bytes reference_bytes = record {
  inline_object_bytes = inline_bytes;
  object_reference_bytes = reference_bytes;
  typed_payload_descriptor_bytes = 0;
  typed_payload_frame_bytes = 0;
  extension_descriptor_bytes = 0;
  extension_payload_bytes = 0;
  body_flags = 0;
  reserved = 0;
}

-- A body that references a camera block, for the first bit of the mask.
abbrev submit_view : BodyView
submit_view = record {
  prelude = prelude 0 24;
  regions = record {
    inline_object_region = [];
    object_reference_region =
        (1 ∷ 0 ∷ 0 ∷ 0 ∷ 2 ∷ 0 ∷ 0 ∷ 0 ∷ 3 ∷ 0 ∷ 0 ∷ 0 ∷ 0 ∷ 0 ∷ 0 ∷ 0 ∷ 4 ∷ 0 ∷ 0 ∷ 0 ∷ 0 ∷ 0 ∷ 0
          ∷ 0 ∷ []);
    typed_payload_descriptor_region = [];
    typed_payload_frame_region = [];
    extension_descriptor_region = [];
    extension_payload_region = [];
  };
}

abbrev pub submitted : FrameSubmitMetadata
submitted = record {
  src_width = 0;
  src_height = 0;
  tile_width = 0;
  tile_height = 0;
  tile_count = 0;
  section_count = 0;
  frame_class = 0;
  input_profile = InputProfile.unspecified;
  tile_index_mode = TileIndexMode.dense_range;
  reserved0 = 0;
  latency_budget_ms = 0;
  target_fps_x100 = 0;
  retry_of_frame = 0;
  tile_base_id = 0;
  camera_bytes = 0;
  tile_index_bytes = 0;
  reserved1 = 0;
  operation_id = 3;
  reserved2 = 0;
  submit_mode = SubmitMode.reference;
  budget_policy = 0;
  loss_tolerance_policy = 0;
  reserved3 = 0;
  object_ref_mask = 1;
  dependency_frame_id = 0;
  payload_kind_bitmap = 1;
  payload_frame_count = 0;
  reserved4 = 0;
}

submit_accepted : validate_frame_submit_object_contract submitted submit_view ≡ ok tt
unfolding validate_frame_submit_object_contract unpack_inline_object_blocks
    split_inline_object_region unpack_each unpack_object_reference_blocks unpack_table read_row
    read_all read_loop Metadata.unpack Struct.unpack Struct.values Struct.le_value
    ObjectReference.from_tuple ObjectReference.check to_cache_object_kind slots_loop inline_of
    references_of check_matches check_reference_mode check_no_inline check_camera check_tile_index
    check_sections
submit_accepted = refl

references-of_accepted_submit_example :
    (inlines : List InlineObjectBlockView) × (references : List
      ObjectReference.ObjectReferenceBlock)
    × (unpack_inline_object_blocks [] ≡ ok inlines)
    × (unpack_object_reference_blocks submit_view.regions.object_reference_region ≡ ok references)
    × (bits_outside 1 known_object_ref_mask ≡ 0)
    × (values_of (kinds_of references) ≡ kinds_in 1 standard_reference_slots)
    × All (Slot 1 inlines references) standard_reference_slots
references-of_accepted_submit_example =
    references-of_accepted_submit submitted submit_view submit_accepted

-- A result of two tiles, whose ids lie in an inline block.
abbrev pushed : ResultPushMetadata
pushed = record {
  status_code = 0;
  result_flags = 0;
  section_count = 0;
  tile_count = 2;
  active_profile_id = 1;
  reserved0 = 0;
  inference_ms = 0;
  queue_ms = 0;
  server_total_ms = 0;
  reserved1 = 0;
  tile_base_id = 0;
  tile_index_bytes = 4;
  reserved2 = 0;
  reserved3 = 0;
  result_class = ResultClass.complete;
  applied_budget_policy = 0;
  reserved4 = 0;
  reused_frame_id = 0;
  covered_tile_count = 2;
  dropped_tile_count = 0;
  payload_kind_bitmap = 1;
  payload_frame_count = 0;
  reserved5 = 0;
}

abbrev pushed_bytes : Bytes
pushed_bytes =
    (0 ∷ 0 ∷ 0 ∷ 0 ∷ 0 ∷ 0 ∷ 2 ∷ 0 ∷ 1 ∷ 0 ∷ 0 ∷ 0 ∷ 0 ∷ 0 ∷ 0 ∷ 0 ∷ 0 ∷ 0 ∷ 0 ∷ 0 ∷ 0 ∷ 0 ∷ 0 ∷ 0
      ∷ 4 ∷ 0 ∷ 0 ∷ 0 ∷ 0 ∷ 0 ∷ 0 ∷ 0 ∷ 0 ∷ 0 ∷ 0 ∷ 0 ∷ 0 ∷ 0 ∷ 0 ∷ 0 ∷ 0 ∷ 0 ∷ 0 ∷ 0 ∷ 0 ∷ 0 ∷ 0
      ∷ 0 ∷ 0 ∷ 0 ∷ 0 ∷ 0 ∷ 2 ∷ 0 ∷ 0 ∷ 0 ∷ 1 ∷ 0 ∷ 0 ∷ 0 ∷ 0 ∷ 0 ∷ 0 ∷ 0 ∷ [])

abbrev body_bytes : Bytes
body_bytes =
    (24 ∷ 0 ∷ 0 ∷ 0 ∷ 0 ∷ 0 ∷ 0 ∷ 0 ∷ 0 ∷ 0 ∷ 0 ∷ 0 ∷ 0 ∷ 0 ∷ 0 ∷ 0 ∷ 0 ∷ 0 ∷ 0 ∷ 0 ∷ 0 ∷ 0 ∷ 0 ∷ 0
      ∷ 0 ∷ 0 ∷ 0 ∷ 0 ∷ 0 ∷ 0 ∷ 0 ∷ 0 ∷ 2 ∷ 0 ∷ 0 ∷ 0 ∷ 0 ∷ 0 ∷ 0 ∷ 0 ∷ 4 ∷ 0 ∷ 0 ∷ 0 ∷ 0 ∷ 0 ∷ 0
      ∷ 0 ∷ 1 ∷ 0 ∷ 2 ∷ 0 ∷ 0 ∷ 0 ∷ 0 ∷ 0 ∷ [])

abbrev pushed_view : BodyView
pushed_view = record {
  prelude = prelude 24 0;
  regions = record {
    inline_object_region =
        (2 ∷ 0 ∷ 0 ∷ 0 ∷ 0 ∷ 0 ∷ 0 ∷ 0 ∷ 4 ∷ 0 ∷ 0 ∷ 0 ∷ 0 ∷ 0 ∷ 0 ∷ 0 ∷ 1 ∷ 0 ∷ 2 ∷ 0 ∷ 0 ∷ 0 ∷ 0
          ∷ 0 ∷ []);
    object_reference_region = [];
    typed_payload_descriptor_region = [];
    typed_payload_frame_region = [];
    extension_descriptor_region = [];
    extension_payload_region = [];
  };
}

push_accepted : validate_result_push_body pushed body_bytes ≡ ok pushed_view
unfolding validate_result_push_body unpack_body check_regions BodyRegionPrelude.from_tuple
    BodyRegionPrelude.check InlineObjectBlock.from_tuple InlineObjectBlock.check
    unpack_inline_object_blocks split_inline_object_region unpack_each unpack_inline_object_block
    read_block align_up unpack_object_reference_blocks unpack_typed_payload_descriptors
    unpack_extension_frame_descriptors unpack_table read_row read_all read_loop Metadata.unpack
    Struct.unpack Struct.values Struct.le_value to_cache_object_kind validate_descriptor_offsets
    validate_result_push_tensor_coverage validate_body_metadata_contract check_no_tensor
    validate_typed_payload_kind_union validate_result_push_object_contract check_reference_order
    check_once inline_of references_of check_tile_index check_sections unpack_tile_index_block
push_accepted = refl

tensors_of_accepted_push_example :
    (t : TensorBodyView) × (unpack_current_tensor_body pushed_view 0 2 ≡ ok t)
    × (ids : List ℕ) × (unpack_tile_index_block (index_mode 4) 2 0 t.tile_index_block ≡ ok ids)
tensors_of_accepted_push_example =
    tensors_of_accepted_push pushed body_bytes pushed_view push_accepted

abbrev pub packet : NnrpPacket
packet = record {
  header = record {
    version_major = 1;
    wire_format = WireFormat.current;
    msg_type = MessageType.result_push;
    flags = 0;
    meta_len = 64;
    body_len = 56;
    session_id = 7;
    frame_id = 12;
    view_id = 0;
    route_id = 0;
    trace_id = 0;
    header_len = 40;
  };
  metadata = pushed_bytes;
  body = body_bytes;
}

metadata_read : Metadata.unpack ResultPush.codec pushed_bytes ≡ ok pushed
unfolding Metadata.unpack Struct.unpack Struct.values Struct.le_value ResultPush.from_tuple
    ResultPush.check coerce_result_flags coerce_budget_policy coerce_payload_kind_bitmap
    to_result_class check_non_tensor_fields check_contract
metadata_read = refl

receive_result-accepted_example :
    (frames : List TypedPayloadFrame) × (tensor_body : Option TensorBodyView)
    × (unpack_typed_payload_frames [] [] 1 ≡ ok frames)
    × (receive_result packet ≡ (
        from_core_frames frames >>= λ payloads. ok (record {
          packet = packet;
          metadata = some pushed;
          tensor_body = tensor_body;
          typed_payloads = payloads;
        })))
receive_result-accepted_example =
    receive_result-accepted packet pushed pushed_view refl metadata_read refl push_accepted

abbrev received : ClientResult
received = record {
  packet = packet;
  metadata = some pushed;
  tensor_body = some (record { tile_index_block = 1 ∷ 0 ∷ 2 ∷ 0 ∷ []; sections = [] });
  typed_payloads = [];
}

frames_read : unpack_typed_payload_frames [] [] 1 ≡ ok []
unfolding unpack_typed_payload_frames unpack_typed_payload_descriptors unpack_table read_all
    read_loop validate_descriptor_offsets validate_typed_payload_kind_union
frames_read = refl

tensors_read : tensor_body_of pushed pushed_view ≡ ok received.tensor_body
unfolding tensor_body_of unpack_current_tensor_body last_of sections_in unpack_inline_object_blocks
    split_inline_object_region unpack_each unpack_inline_object_block read_block align_up read_all
    read_loop Metadata.unpack Struct.unpack Struct.values Struct.le_value to_cache_object_kind
    InlineObjectBlock.from_tuple InlineObjectBlock.check
tensors_read = refl

result_received : receive_result packet ≡ ok received
unfolding receive_result receive_type receive_push read_body from_core_frames
result_received = rw (metadata_read, push_accepted, frames_read, tensors_read)

tile_ids-receive_result_example : (ids : List ℕ) × (tile_ids received ≡ ok ids)
tile_ids-receive_result_example = tile_ids-receive_result packet received result_received
