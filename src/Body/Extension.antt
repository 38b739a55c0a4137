-- ===== src/Body/Extension.antt =====
-- core/packet.py: extension frames, packed as a table of descriptors and the payloads that these
-- locate, one behind the other.
pub mod RoundTrip
use nnrp_py.Common.{
  ℕ, ◌+◌, Bool, true, not, Option, none, some, List, [], ◌∷◌, ◌++◌, if◌then◌else◌, has_bit, length,
  take, drop, map, Result, ok, ◌>>=◌, ◌>>◌, require,
}
use nnrp_py.Struct.{Bytes}
use nnrp_py.Metadata.ExtensionFrame as Descriptor
use nnrp_py.Metadata.ExtensionFrame.{ExtensionFrameDescriptor}
use nnrp_py.Body.Tables.{pack_extension_frame_descriptors, unpack_extension_frame_descriptors}
use nnrp_py.Body.Offsets.{validate_descriptor_offsets}
use nnrp_py.Body.Regions.{extension_span}

pub record ExtensionFrame : Type 0 where
  pub extension_kind : ℕ
  pub payload : Bytes
  pub profile_id : ℕ
  pub extension_flags : ℕ

abbrev pub extension_descriptor : ℕ → ExtensionFrame → ExtensionFrameDescriptor
extension_descriptor offset f = record {
  extension_kind = f.extension_kind;
  extension_flags = f.extension_flags;
  profile_id = f.profile_id;
  reserved0 = 0;
  payload_offset = offset;
  payload_length = length f.payload;
}

-- The frame that is returned has the fields that were given.
unfoldable pub build_extension_frame : ExtensionFrame → Result ExtensionFrame
build_extension_frame f = do Descriptor.check (extension_descriptor 0 f); ok f

-- The loop of `pack_extension_frames` from a payload offset on: the descriptors and the region.
unfoldable pub place_extensions :
    ℕ → List ExtensionFrame → Result (List ExtensionFrameDescriptor × Bytes)
unfolding build_extension_frame
place_extensions offset [] = ok ([], [])
place_extensions offset (f ∷ fs) = do
  normalized ← build_extension_frame f
  Descriptor.check (extension_descriptor offset normalized)
  (descriptors, region) ← place_extensions (offset + length normalized.payload) fs
  ok (extension_descriptor offset normalized ∷ descriptors, normalized.payload ++ region)

unfoldable pub pack_extension_frames : List ExtensionFrame → Result (Bytes × Bytes)
unfolding place_extensions
pack_extension_frames frames = do
  (descriptors, region) ← place_extensions 0 frames
  table ← pack_extension_frame_descriptors descriptors
  ok (table, region)

-- `known_extension_kinds`, as its membership test.
abbrev pub is_known_kind : Option (ℕ → Bool) → ℕ → Bool
is_known_kind none kind = true
is_known_kind (some known) kind = known kind

abbrev pub extension_at : Bytes → ExtensionFrameDescriptor → ExtensionFrame
extension_at region d = record {
  extension_kind = d.extension_kind;
  payload = take d.payload_length (drop d.payload_offset region);
  profile_id = d.profile_id;
  extension_flags = d.extension_flags;
}

-- The loop of `unpack_extension_frames`: 0x01 is the critical flag.
unfoldable pub take_extensions :
    Option (ℕ → Bool) → Bytes → List ExtensionFrameDescriptor → Result (List ExtensionFrame)
take_extensions known region [] = ok []
take_extensions known region (d ∷ ds) =
    if is_known_kind known d.extension_kind
    then (do frames ← take_extensions known region ds; ok (extension_at region d ∷ frames))
    else (do require (not (has_bit d.extension_flags 0x01)); take_extensions known region ds)

unfoldable pub unpack_extension_frames :
    Option (ℕ → Bool) → Bytes → Bytes → Result (List ExtensionFrame)
unfolding take_extensions
unpack_extension_frames known descriptor_region payload_region = do
  descriptors ← unpack_extension_frame_descriptors descriptor_region
  validate_descriptor_offsets (length payload_region) (map extension_span descriptors)
  take_extensions known payload_region descriptors
