-- ===== src/Body/Typed.antt =====
-- core/packet.py: typed payload frames, packed as a table of descriptors and the payloads that
-- these locate, one behind the other.
pub mod RoundTrip
use nnrp_py.Common.{
  ℕ, ◌+◌, List, [], ◌∷◌, ◌++◌, ◌==◌, not, bit_and, bit_or, length, take, drop, map, Result, ok,
  ◌>>=◌, ◌>>◌, require,
}
use nnrp_py.Struct.{Bytes}
use nnrp_py.Metadata.Coerce.{is_single_bit}
use nnrp_py.Metadata.TypedPayload
use nnrp_py.Metadata.TypedPayload.{TypedPayloadDescriptor}
use nnrp_py.Body.Tables.{pack_typed_payload_descriptors, unpack_typed_payload_descriptors}
use nnrp_py.Body.Offsets.{Span, validate_descriptor_offsets}

pub record TypedPayloadFrame : Type 0 where
  pub payload_kind : ℕ
  pub payload : Bytes
  pub profile_id : ℕ
  pub descriptor_flags : ℕ
  pub schema_id : ℕ
  pub schema_version : ℕ
  pub stream_semantics : ℕ

abbrev pub descriptor_at : ℕ → TypedPayloadFrame → TypedPayloadDescriptor
descriptor_at offset f = record {
  profile_id = f.profile_id;
  payload_kind = f.payload_kind;
  descriptor_flags = f.descriptor_flags;
  schema_id = f.schema_id;
  schema_version = f.schema_version;
  stream_semantics = f.stream_semantics;
  offset = offset;
  length = length f.payload;
}

-- The frame that is returned has the fields that were given.
unfoldable pub build_typed_payload_frame : TypedPayloadFrame → Result TypedPayloadFrame
build_typed_payload_frame f = do
  require (is_single_bit f.payload_kind)
  require (not (f.payload_kind == 0x01))
  TypedPayload.check (descriptor_at 0 f)
  ok f

-- The loop of `pack_typed_payload_frames` from a payload offset on: the descriptors and the region.
unfoldable pub place_frames :
    ℕ → List TypedPayloadFrame → Result (List TypedPayloadDescriptor × Bytes)
unfolding build_typed_payload_frame
place_frames offset [] = ok ([], [])
place_frames offset (f ∷ fs) = do
  normalized ← build_typed_payload_frame f
  TypedPayload.check (descriptor_at offset normalized)
  (descriptors, region) ← place_frames (offset + length normalized.payload) fs
  ok (descriptor_at offset normalized ∷ descriptors, normalized.payload ++ region)

unfoldable pub pack_typed_payload_frames : List TypedPayloadFrame → Result (Bytes × Bytes)
unfolding place_frames
pack_typed_payload_frames frames = do
  (descriptors, region) ← place_frames 0 frames
  table ← pack_typed_payload_descriptors descriptors
  ok (table, region)

abbrev pub span : TypedPayloadDescriptor → Span
span d = (d.offset, d.offset + d.length)

abbrev pub kind_union : List TypedPayloadDescriptor → ℕ → ℕ
kind_union [] union = union
kind_union (d ∷ ds) union = kind_union ds (bit_or union d.payload_kind)

-- `payload_kind_bitmap & ~PayloadKind.TENSOR` must be the union of the descriptors' kinds. The
-- complement of a member of the IntFlag is the other members, 0x7e: other bits are dropped.
unfoldable pub validate_typed_payload_kind_union :
    ℕ → List TypedPayloadDescriptor → Result (Unit {0})
validate_typed_payload_kind_union payload_kind_bitmap descriptors =
    require (kind_union descriptors 0 == bit_and payload_kind_bitmap 0x7e)

abbrev pub frame_at : Bytes → TypedPayloadDescriptor → TypedPayloadFrame
frame_at region d = record {
  payload_kind = d.payload_kind;
  payload = take d.length (drop d.offset region);
  profile_id = d.profile_id;
  descriptor_flags = d.descriptor_flags;
  schema_id = d.schema_id;
  schema_version = d.schema_version;
  stream_semantics = d.stream_semantics;
}

unfoldable pub unpack_typed_payload_frames : Bytes → Bytes → ℕ → Result (List TypedPayloadFrame)
unpack_typed_payload_frames descriptor_region payload_region payload_kind_bitmap = do
  descriptors ← unpack_typed_payload_descriptors descriptor_region
  validate_descriptor_offsets (length payload_region) (map span descriptors)
  validate_typed_payload_kind_union payload_kind_bitmap descriptors
  ok (map (frame_at payload_region) descriptors)
