-- ===== src/Body/Regions.antt =====
-- core/packet.py: a whole body, the prelude with the sizes of the six regions and the regions one
-- behind the other.
pub mod RoundTrip
use nnrp_py.Common.{
  ℕ, ◌+◌, List, [], ◌∷◌, ◌++◌, ◌==◌, leb, length, take, map, Result, ok, ◌>>=◌, ◌>>◌, require,
}
use nnrp_py.Struct.{Bytes}
use nnrp_py.Metadata
use nnrp_py.Metadata.BodyRegionPrelude
use nnrp_py.Metadata.BodyRegionPrelude.{BodyRegionPrelude}
use nnrp_py.Metadata.ExtensionFrame.{ExtensionFrameDescriptor}
use nnrp_py.Body.Slices.{slice, concat}
use nnrp_py.Body.Inline.{unpack_inline_object_blocks}
use nnrp_py.Body.Tables.{
  unpack_object_reference_blocks, unpack_typed_payload_descriptors,
  unpack_extension_frame_descriptors,
}
use nnrp_py.Body.Offsets.{Span, validate_descriptor_offsets}
use nnrp_py.Body.Typed.{span}

-- The arguments of `pack_body`, and the region fields of `BodyView`.
pub record Regions : Type 0 where
  pub inline_object_region : Bytes
  pub object_reference_region : Bytes
  pub typed_payload_descriptor_region : Bytes
  pub typed_payload_frame_region : Bytes
  pub extension_descriptor_region : Bytes
  pub extension_payload_region : Bytes

pub record BodyView : Type 0 where
  pub prelude : BodyRegionPrelude
  pub regions : Regions

abbrev pub region_list : Regions → List Bytes
region_list r =
    r.inline_object_region ∷ r.object_reference_region ∷ r.typed_payload_descriptor_region
    ∷ r.typed_payload_frame_region ∷ r.extension_descriptor_region ∷ r.extension_payload_region ∷ []

abbrev pub prelude_of : Regions → BodyRegionPrelude
prelude_of r = record {
  inline_object_bytes = length r.inline_object_region;
  object_reference_bytes = length r.object_reference_region;
  typed_payload_descriptor_bytes = length r.typed_payload_descriptor_region;
  typed_payload_frame_bytes = length r.typed_payload_frame_region;
  extension_descriptor_bytes = length r.extension_descriptor_region;
  extension_payload_bytes = length r.extension_payload_region;
  body_flags = 0;
  reserved = 0;
}

-- The constructor of the prelude checks the sizes before they are packed.
unfoldable pub pack_body : Regions → Result Bytes
pack_body r = do
  BodyRegionPrelude.check (prelude_of r)
  packed ← Metadata.pack BodyRegionPrelude.codec (prelude_of r)
  ok (packed ++ concat (region_list r))

abbrev pub extension_span : ExtensionFrameDescriptor → Span
extension_span d = (d.payload_offset, d.payload_offset + d.payload_length)

-- What `unpack_body` checks of the regions once it has cut them out.
unfoldable pub check_regions : Regions → Result (Unit {0})
check_regions r = do
  _ ← unpack_inline_object_blocks r.inline_object_region
  _ ← unpack_object_reference_blocks r.object_reference_region
  descriptors ← unpack_typed_payload_descriptors r.typed_payload_descriptor_region
  validate_descriptor_offsets (length r.typed_payload_frame_region) (map span descriptors)
  extensions ← unpack_extension_frame_descriptors r.extension_descriptor_region
  validate_descriptor_offsets (length r.extension_payload_region) (map extension_span extensions)

-- The regions that the sizes of a prelude cut out of a body.
abbrev pub cut_regions : BodyRegionPrelude → Bytes → Regions
cut_regions prelude view =
    let inline_end = 32 + prelude.inline_object_bytes in
    let object_reference_end = inline_end + prelude.object_reference_bytes in
    let typed_descriptor_end = object_reference_end + prelude.typed_payload_descriptor_bytes in
    let typed_frame_end = typed_descriptor_end + prelude.typed_payload_frame_bytes in
    let extension_descriptor_end = typed_frame_end + prelude.extension_descriptor_bytes in
    let extension_payload_end = extension_descriptor_end + prelude.extension_payload_bytes in
    record {
      inline_object_region = slice 32 inline_end view;
      object_reference_region = slice inline_end object_reference_end view;
      typed_payload_descriptor_region = slice object_reference_end typed_descriptor_end view;
      typed_payload_frame_region = slice typed_descriptor_end typed_frame_end view;
      extension_descriptor_region = slice typed_frame_end extension_descriptor_end view;
      extension_payload_region = slice extension_descriptor_end extension_payload_end view;
    }

abbrev pub body_end : BodyRegionPrelude → ℕ
body_end prelude =
    32 + prelude.inline_object_bytes + prelude.object_reference_bytes
    + prelude.typed_payload_descriptor_bytes + prelude.typed_payload_frame_bytes
    + prelude.extension_descriptor_bytes + prelude.extension_payload_bytes

-- The loop over the inline blocks unpacks each; `unpack_inline_object_blocks` is that loop.
unfoldable pub unpack_body : Bytes → Result BodyView
unpack_body view = do
  require (leb 32 (length view))
  prelude ← Metadata.unpack BodyRegionPrelude.codec (take 32 view)
  require (body_end prelude == length view)
  check_regions (cut_regions prelude view)
  ok (record { prelude = prelude; regions = cut_regions prelude view })
