-- ===== src/Body/Tables.antt =====
-- core/packet.py: the three tables of a body.
use nnrp_py.Common.{◌≡◌, refl, List, All, Result, ok, arith}
use nnrp_py.Struct.{Bytes, IsByte}
use nnrp_py.Body.Table.{
  Table, TableLaws, pack_table, unpack_table, pack_table-unpack_table, unpack_table-pack_table,
}
use nnrp_py.Metadata.ObjectReference
use nnrp_py.Metadata.ObjectReference.{ObjectReferenceBlock}
use nnrp_py.Metadata.TypedPayload
use nnrp_py.Metadata.TypedPayload.{TypedPayloadDescriptor}
use nnrp_py.Metadata.ExtensionFrame
use nnrp_py.Metadata.ExtensionFrame.{ExtensionFrameDescriptor}

abbrev pub object_references : Table ObjectReferenceBlock
object_references = record { codec = ObjectReference.codec; check = ObjectReference.check }

abbrev pub typed_payloads : Table TypedPayloadDescriptor
typed_payloads = record { codec = TypedPayload.codec; check = TypedPayload.check }

abbrev pub extension_frames : Table ExtensionFrameDescriptor
extension_frames = record { codec = ExtensionFrame.codec; check = ExtensionFrame.check }

pub object_reference_laws : TableLaws object_references
object_reference_laws = record {
  from_to = ObjectReference.from_tuple-to_tuple;
  to_from = ObjectReference.to_tuple-from_tuple;
  no_pack_check = λ m. refl;
  size_pos = omega arith;
}

pub typed_payload_laws : TableLaws typed_payloads
typed_payload_laws = record {
  from_to = TypedPayload.from_tuple-to_tuple;
  to_from = TypedPayload.to_tuple-from_tuple;
  no_pack_check = λ m. refl;
  size_pos = omega arith;
}

pub extension_frame_laws : TableLaws extension_frames
extension_frame_laws = record {
  from_to = ExtensionFrame.from_tuple-to_tuple;
  to_from = ExtensionFrame.to_tuple-from_tuple;
  no_pack_check = λ m. refl;
  size_pos = omega arith;
}

unfoldable pub pack_object_reference_blocks : List ObjectReferenceBlock → Result Bytes
pack_object_reference_blocks = pack_table object_references

unfoldable pub unpack_object_reference_blocks : Bytes → Result (List ObjectReferenceBlock)
unpack_object_reference_blocks = unpack_table object_references

unfoldable pub pack_typed_payload_descriptors : List TypedPayloadDescriptor → Result Bytes
pack_typed_payload_descriptors = pack_table typed_payloads

unfoldable pub unpack_typed_payload_descriptors : Bytes → Result (List TypedPayloadDescriptor)
unpack_typed_payload_descriptors = unpack_table typed_payloads

unfoldable pub pack_extension_frame_descriptors : List ExtensionFrameDescriptor → Result Bytes
pack_extension_frame_descriptors = pack_table extension_frames

unfoldable pub unpack_extension_frame_descriptors : Bytes → Result (List ExtensionFrameDescriptor)
unpack_extension_frame_descriptors = unpack_table extension_frames

-- Object references that pack are read back from their region.
pub unpack-pack_references :
    (blocks : List ObjectReferenceBlock) (bs : Bytes)
    → pack_object_reference_blocks blocks ≡ ok bs
    → unpack_object_reference_blocks bs ≡ ok blocks
unfolding pack_object_reference_blocks unpack_object_reference_blocks
unpack-pack_references = unpack_table-pack_table object_reference_laws

-- A region of bytes that is read as object references is what these pack to.
pub pack-unpack_references :
    (bs : Bytes) (blocks : List ObjectReferenceBlock)
    → All IsByte bs
    → unpack_object_reference_blocks bs ≡ ok blocks
    → pack_object_reference_blocks blocks ≡ ok bs
unfolding pack_object_reference_blocks unpack_object_reference_blocks
pack-unpack_references = pack_table-unpack_table object_reference_laws
