-- ===== src/Tests/Bodies.antt =====
-- Messages, body regions and whole bodies at concrete bytes.
use nnrp_py.Common.{
  some, ◌==◌, ℕ, ◌≡◌, ◌≢◌, ◌≤◌, refl, Bool, true, ltb, ◌&&◌, List, [], ◌∷◌, ◌++◌, All, ok, ◌>>◌,
  arith,
}
use nnrp_py.Struct
use nnrp_py.Struct.{Bytes, IsByte}
use nnrp_py.Stream.{write_all}
use nnrp_py.Metadata
use nnrp_py.Metadata.ControlEnums.{SessionPriorityClass, CacheObjectKind}
use nnrp_py.Metadata.SessionOpen
use nnrp_py.Metadata.SessionOpen.{SessionOpenMetadata}
use nnrp_py.Metadata.ObjectReference
use nnrp_py.Metadata.ObjectReference.{ObjectReferenceBlock}
use nnrp_py.Metadata.InlineObjectBlock
use nnrp_py.Metadata.TypedPayload
use nnrp_py.Metadata.BodyRegionPrelude
use nnrp_py.Metadata.Message as Messages
use nnrp_py.Metadata.Message.{Message, Kind}
use nnrp_py.Metadata.Message.RoundTrip.{unpack-pack_message}
use nnrp_py.Metadata.Message.Canonical.{pack-unpack_message}
use nnrp_py.Body.Table.{pack_table, write_row}
use nnrp_py.Metadata.Coerce.{coerce_extension_frame_flags}
use nnrp_py.Metadata.ExtensionFrame as Descriptor
use nnrp_py.Body.Extension.{
  ExtensionFrame, build_extension_frame, place_extensions, pack_extension_frames,
  unpack_extension_frames,
}
use nnrp_py.Body.Extension.RoundTrip.{unpack-pack_extension_frames}
use nnrp_py.Body.Tables.{
  pack_extension_frame_descriptors, pack_object_reference_blocks, unpack_object_reference_blocks,
  pack_typed_payload_descriptors, unpack-pack_references, pack-unpack_references,
}
use nnrp_py.Body.Offsets.{Span, validate_descriptor_offsets, Disjoint, Disjoint-of_validate}
use nnrp_py.Body.Typed.{
  TypedPayloadFrame, build_typed_payload_frame, place_frames, pack_typed_payload_frames,
  unpack_typed_payload_frames, kind_union,
}
use nnrp_py.Body.Typed.RoundTrip.{placed, unpack-pack_frames}
use nnrp_py.Body.Inline.{
  InlineObjectBlockView, align_up, pack_inline_object_block, unpack_inline_object_blocks,
}
use nnrp_py.Body.Inline.RoundTrip.{pack_view, unpack-pack_blocks}
use nnrp_py.Body.Regions.{Regions, prelude_of, pack_body, check_regions, unpack_body}
use nnrp_py.Body.Regions.RoundTrip.{unpack-pack_body}

abbrev opened : SessionOpenMetadata
opened = record {
  requested_session_id = 9;
  profile_id = 1;
  priority_class = SessionPriorityClass.balanced;
  session_flags = 3;
  schema_id = 5;
  schema_version = 1;
  default_deadline_ms = 100;
  max_in_flight_operations = 8;
  lease_ttl_hint_ms = 30;
  resume_token_bytes = 0;
  auth_bytes = 0;
  session_extension_bytes = 0;
  client_session_tag = 77;
}

abbrev opened_bytes : Bytes
opened_bytes =
    (9 ∷ 0 ∷ 0 ∷ 0 ∷ 1 ∷ 0 ∷ 1 ∷ 3 ∷ 5 ∷ 0 ∷ 0 ∷ 0 ∷ 1 ∷ 0 ∷ 0 ∷ 0 ∷ 100 ∷ 0 ∷ 0 ∷ 0 ∷ 8 ∷ 0 ∷ 0 ∷ 0
      ∷ 30 ∷ 0 ∷ 0 ∷ 0 ∷ 0 ∷ 0 ∷ 0 ∷ 0 ∷ 0 ∷ 0 ∷ 0 ∷ 0 ∷ 0 ∷ 0 ∷ 0 ∷ 0 ∷ 77 ∷ 0 ∷ 0 ∷ 0 ∷ 0 ∷ 0 ∷ 0
      ∷ 0 ∷ [])

opened_valid : Messages.check (Message.session_open opened) ≡ ok tt
unfolding Messages.check SessionOpen.check
opened_valid = refl

opened_packed : Messages.pack (Message.session_open opened) ≡ ok opened_bytes
unfolding Messages.pack Metadata.pack SessionOpen.check Struct.pack
opened_packed = refl

unpack-pack_message_example :
    Messages.unpack Kind.session_open opened_bytes ≡ ok (Message.session_open opened)
unpack-pack_message_example =
    unpack-pack_message (Message.session_open opened) opened_bytes opened_valid opened_packed

are_bytes : Bytes → Bool
are_bytes [] = true
are_bytes (b ∷ bs) = ltb b 256 && are_bytes bs

All-IsByte : (bs : Bytes) → are_bytes bs ≡ true → All IsByte bs
unfolding are_bytes
All-IsByte [] h = tt
All-IsByte (b ∷ bs) h = (ground arith, All-IsByte bs (ground arith))

opened_are_bytes : All IsByte opened_bytes
unfolding are_bytes
opened_are_bytes = All-IsByte opened_bytes refl

not_flow_update : Kind.session_open ≢ Kind.flow_update
not_flow_update = λ h. cc h

pack-unpack_message_example :
    (Messages.check (Message.session_open opened) ≡ ok tt)
    × (Messages.pack (Message.session_open opened) ≡ ok opened_bytes)
pack-unpack_message_example =
    pack-unpack_message Kind.session_open opened_bytes (Message.session_open opened)
      opened_are_bytes not_flow_update unpack-pack_message_example

abbrev reference : ObjectReferenceBlock
reference = record {
  object_kind = CacheObjectKind.camera_block;
  ref_flags = 0;
  cache_namespace = 2;
  cache_key_hi = 3;
  cache_key_lo = 4;
}

abbrev reference_bytes : Bytes
reference_bytes =
    (1 ∷ 0 ∷ 0 ∷ 0 ∷ 2 ∷ 0 ∷ 0 ∷ 0 ∷ 3 ∷ 0 ∷ 0 ∷ 0 ∷ 0 ∷ 0 ∷ 0 ∷ 0 ∷ 4 ∷ 0 ∷ 0 ∷ 0 ∷ 0 ∷ 0 ∷ 0 ∷ 0
      ∷ [])

packed_references :
    pack_object_reference_blocks (reference ∷ reference ∷ [])
    ≡ ok (reference_bytes ++ reference_bytes)
unfolding pack_object_reference_blocks pack_table write_all write_row ObjectReference.check
    Metadata.pack Struct.pack
packed_references = refl

references_unpack :
    unpack_object_reference_blocks (reference_bytes ++ reference_bytes)
    ≡ ok (reference ∷ reference ∷ [])
references_unpack =
    unpack-pack_references (reference ∷ reference ∷ []) (reference_bytes ++ reference_bytes)
      packed_references

references_are_bytes : All IsByte (reference_bytes ++ reference_bytes)
unfolding are_bytes
references_are_bytes = All-IsByte (reference_bytes ++ reference_bytes) refl

references_pack :
    pack_object_reference_blocks (reference ∷ reference ∷ [])
    ≡ ok (reference_bytes ++ reference_bytes)
references_pack =
    pack-unpack_references (reference_bytes ++ reference_bytes) (reference ∷ reference ∷ [])
      references_are_bytes references_unpack

-- Two spans that touch.
abbrev spans : List Span
spans = (0, 2) ∷ (2, 3) ∷ []

valid_spans : validate_descriptor_offsets 3 spans ≡ ok tt
unfolding validate_descriptor_offsets
valid_spans = refl

Disjoint-of_validate_example : Disjoint spans × All (λ s. s.1 ≤ 3) spans
Disjoint-of_validate_example =
    Disjoint-of_validate 3 spans (omega arith, (omega arith, tt)) valid_spans

abbrev frame : ℕ → Bytes → TypedPayloadFrame
frame payload_kind payload = record {
  payload_kind = payload_kind;
  payload = payload;
  profile_id = 1;
  descriptor_flags = 1;
  schema_id = 5;
  schema_version = 1;
  stream_semantics = 0;
}

abbrev frames : List TypedPayloadFrame
frames = frame 2 (1 ∷ 2 ∷ []) ∷ frame 4 (3 ∷ []) ∷ []

abbrev frame_table : Bytes
frame_table =
    (1 ∷ 0 ∷ 2 ∷ 1 ∷ 5 ∷ 0 ∷ 0 ∷ 0 ∷ 1 ∷ 0 ∷ 0 ∷ 0 ∷ 0 ∷ 0 ∷ 0 ∷ 0 ∷ 0 ∷ 0 ∷ 0 ∷ 0 ∷ 2 ∷ 0 ∷ 0 ∷ 0
      ∷ 1 ∷ 0 ∷ 4 ∷ 1 ∷ 5 ∷ 0 ∷ 0 ∷ 0 ∷ 1 ∷ 0 ∷ 0 ∷ 0 ∷ 0 ∷ 0 ∷ 0 ∷ 0 ∷ 2 ∷ 0 ∷ 0 ∷ 0 ∷ 1 ∷ 0 ∷ 0
      ∷ 0 ∷ [])

frame_kinds : kind_union (placed 0 frames) 0 ≡ 6
frame_kinds = refl

packed_frames : pack_typed_payload_frames frames ≡ ok (frame_table, 1 ∷ 2 ∷ 3 ∷ [])
unfolding pack_typed_payload_frames place_frames build_typed_payload_frame TypedPayload.check
    pack_typed_payload_descriptors pack_table write_all write_row Metadata.pack Struct.pack
packed_frames = refl

unpack-pack_frames_example : unpack_typed_payload_frames frame_table (1 ∷ 2 ∷ 3 ∷ []) 7 ≡ ok frames
unpack-pack_frames_example =
    unpack-pack_frames frames frame_table (1 ∷ 2 ∷ 3 ∷ []) 7 frame_kinds packed_frames

abbrev view : InlineObjectBlockView
view = record {
  header = record {
    object_kind = CacheObjectKind.camera_block;
    object_flags = 0;
    profile_id = 3;
    reserved0 = 0;
    object_bytes = 3;
    reserved1 = 0;
  };
  payload = 7 ∷ 8 ∷ 9 ∷ [];
}

abbrev block_bytes : Bytes
block_bytes =
    (1 ∷ 0 ∷ 0 ∷ 0 ∷ 3 ∷ 0 ∷ 0 ∷ 0 ∷ 3 ∷ 0 ∷ 0 ∷ 0 ∷ 0 ∷ 0 ∷ 0 ∷ 0 ∷ 7 ∷ 8 ∷ 9 ∷ 0 ∷ 0 ∷ 0 ∷ 0 ∷ 0
      ∷ [])

view_valid : InlineObjectBlock.check view.header ≡ ok tt
unfolding InlineObjectBlock.check
view_valid = refl

packed_views : write_all pack_view (view ∷ view ∷ []) ≡ ok (block_bytes ++ block_bytes)
unfolding write_all pack_inline_object_block align_up Metadata.pack Struct.pack
packed_views = refl

unpack-pack_blocks_example :
    unpack_inline_object_blocks (block_bytes ++ block_bytes) ≡ ok (view ∷ view ∷ [])
unpack-pack_blocks_example =
    unpack-pack_blocks (view ∷ view ∷ []) (block_bytes ++ block_bytes)
      (view_valid, (view_valid, tt)) packed_views

abbrev regions : Regions
regions = record {
  inline_object_region = block_bytes;
  object_reference_region = reference_bytes;
  typed_payload_descriptor_region = frame_table;
  typed_payload_frame_region = 1 ∷ 2 ∷ 3 ∷ [];
  extension_descriptor_region = [];
  extension_payload_region = [];
}

abbrev body_bytes : Bytes
body_bytes =
    (24 ∷ 0 ∷ 0 ∷ 0 ∷ 24 ∷ 0 ∷ 0 ∷ 0 ∷ 48 ∷ 0 ∷ 0 ∷ 0 ∷ 3 ∷ 0 ∷ 0 ∷ 0 ∷ 0 ∷ 0 ∷ 0 ∷ 0 ∷ 0 ∷ 0 ∷ 0
      ∷ 0 ∷ 0 ∷ 0 ∷ 0 ∷ 0 ∷ 0 ∷ 0 ∷ 0 ∷ 0 ∷ 1 ∷ 0 ∷ 0 ∷ 0 ∷ 3 ∷ 0 ∷ 0 ∷ 0 ∷ 3 ∷ 0 ∷ 0 ∷ 0 ∷ 0 ∷ 0
      ∷ 0 ∷ 0 ∷ 7 ∷ 8 ∷ 9 ∷ 0 ∷ 0 ∷ 0 ∷ 0 ∷ 0 ∷ 1 ∷ 0 ∷ 0 ∷ 0 ∷ 2 ∷ 0 ∷ 0 ∷ 0 ∷ 3 ∷ 0 ∷ 0 ∷ 0 ∷ 0
      ∷ 0 ∷ 0 ∷ 0 ∷ 4 ∷ 0 ∷ 0 ∷ 0 ∷ 0 ∷ 0 ∷ 0 ∷ 0 ∷ 1 ∷ 0 ∷ 2 ∷ 1 ∷ 5 ∷ 0 ∷ 0 ∷ 0 ∷ 1 ∷ 0 ∷ 0 ∷ 0
      ∷ 0 ∷ 0 ∷ 0 ∷ 0 ∷ 0 ∷ 0 ∷ 0 ∷ 0 ∷ 2 ∷ 0 ∷ 0 ∷ 0 ∷ 1 ∷ 0 ∷ 4 ∷ 1 ∷ 5 ∷ 0 ∷ 0 ∷ 0 ∷ 1 ∷ 0 ∷ 0
      ∷ 0 ∷ 0 ∷ 0 ∷ 0 ∷ 0 ∷ 2 ∷ 0 ∷ 0 ∷ 0 ∷ 1 ∷ 0 ∷ 0 ∷ 0 ∷ 1 ∷ 2 ∷ 3 ∷ [])

packed_body : pack_body regions ≡ ok body_bytes
unfolding pack_body BodyRegionPrelude.check Metadata.pack Struct.pack
packed_body = refl

unpack-pack_body_example :
    unpack_body body_bytes
    ≡ (check_regions regions >> ok (record { prelude = prelude_of regions; regions = regions }))
unpack-pack_body_example = unpack-pack_body regions body_bytes packed_body

-- An extension frame of a known kind, and one of an unknown kind that may be skipped.
abbrev extension : ℕ → Bytes → ExtensionFrame
extension extension_kind payload = record {
  extension_kind = extension_kind;
  payload = payload;
  profile_id = 1;
  extension_flags = 0;
}

abbrev extensions : List ExtensionFrame
extensions = extension 5 (1 ∷ 2 ∷ []) ∷ extension 9 (3 ∷ []) ∷ []

abbrev extension_table : Bytes
extension_table =
    (5 ∷ 0 ∷ 0 ∷ 0 ∷ 1 ∷ 0 ∷ 0 ∷ 0 ∷ 0 ∷ 0 ∷ 0 ∷ 0 ∷ 2 ∷ 0 ∷ 0 ∷ 0 ∷ 9 ∷ 0 ∷ 0 ∷ 0 ∷ 1 ∷ 0 ∷ 0 ∷ 0
      ∷ 2 ∷ 0 ∷ 0 ∷ 0 ∷ 1 ∷ 0 ∷ 0 ∷ 0 ∷ [])

packed_extensions : pack_extension_frames extensions ≡ ok (extension_table, 1 ∷ 2 ∷ 3 ∷ [])
unfolding pack_extension_frames place_extensions build_extension_frame Descriptor.check
    coerce_extension_frame_flags pack_extension_frame_descriptors pack_table write_all write_row
    Metadata.pack Struct.pack
packed_extensions = refl

unpack-pack_extension_frames_example :
    unpack_extension_frames (some (λ kind. kind == 5)) extension_table (1 ∷ 2 ∷ 3 ∷ [])
    ≡ ok (extension 5 (1 ∷ 2 ∷ []) ∷ [])
unpack-pack_extension_frames_example =
    unpack-pack_extension_frames (some (λ kind. kind == 5)) extensions extension_table
      (1 ∷ 2 ∷ 3 ∷ []) packed_extensions
