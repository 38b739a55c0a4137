-- ===== src/Body/Contracts.antt =====
-- core/packet.py: what the body of a FRAME_SUBMIT or RESULT_PUSH must hold for its metadata
-- (`validate_frame_submit_body`, `validate_result_push_body`), and `unpack_current_tensor_body`.
-- `blocks_of kind` is the list that the source keeps for a kind of object in a dict of lists.
pub mod Submit
pub mod Push
pub mod Received
use nnrp_py.Common.{
  ℕ, suc, ◌+◌, ◌*◌, Bool, true, false, not, ◌&&◌, ◌||◌, Option, none, some, List, [], ◌∷◌, length,
  map, ltb, leb, ◌==◌, if◌then◌else◌, has_bit, bits_outside, Result, ok, ◌>>=◌, ◌>>◌, require,
}
use nnrp_py.Struct.{Bytes}
use nnrp_py.Metadata.ControlEnums.{CacheObjectKind, cache_object_kind_value}
use nnrp_py.Metadata.DataEnums.{TileIndexMode, SubmitMode, submit_mode_value}
use nnrp_py.Metadata.FrameSubmit.{FrameSubmitMetadata}
use nnrp_py.Metadata.ResultPush.{ResultPushMetadata, is_partial}
use nnrp_py.Metadata.ObjectReference.{ObjectReferenceBlock}
use nnrp_py.Metadata.TypedPayload.{TypedPayloadDescriptor}
use nnrp_py.Body.Inline.{InlineObjectBlockView, unpack_inline_object_blocks}
use nnrp_py.Body.Tables.{unpack_object_reference_blocks, unpack_typed_payload_descriptors}
use nnrp_py.Body.Typed.{validate_typed_payload_kind_union}
use nnrp_py.Body.Regions.{BodyView, unpack_body}
use nnrp_py.Body.Tiles.{unpack_tile_index_block}
use nnrp_py.Body.TensorBody.{TensorBodyView, unpack_tensor_body}

abbrev pub is_kind : CacheObjectKind → CacheObjectKind → Bool
is_kind kind other = cache_object_kind_value kind == cache_object_kind_value other

-- `inline_by_kind.get(kind, [])`
unfoldable pub inline_of : CacheObjectKind → List InlineObjectBlockView → List InlineObjectBlockView
inline_of kind [] = []
inline_of kind (block ∷ blocks) =
    let rest = inline_of kind blocks in
    if is_kind kind block.header.object_kind then block ∷ rest else rest

-- `reference_by_kind.get(kind, [])`
unfoldable pub references_of :
    CacheObjectKind → List ObjectReferenceBlock → List ObjectReferenceBlock
references_of kind [] = []
references_of kind (block ∷ blocks) =
    let rest = references_of kind blocks in
    if is_kind kind block.object_kind then block ∷ rest else rest

abbrev pub is_empty : {A : Type 0} → List A → Bool
is_empty [] = true
is_empty (x ∷ xs) = false

abbrev pub first : {A : Type 0} → List A → Option A
first [] = none
first (x ∷ xs) = some x

-- No descriptor of a tensor: its kind is not 1 and its profile is not 1.
unfoldable pub check_no_tensor : List TypedPayloadDescriptor → Result (Unit {0})
check_no_tensor [] = ok tt
check_no_tensor (d ∷ descriptors) = do
  require (not (d.payload_kind == 0x01))
  require (not (d.profile_id == 0x0001))
  check_no_tensor descriptors

unfoldable pub validate_body_metadata_contract : ℕ → ℕ → BodyView → Result (Unit {0})
unfolding check_no_tensor
validate_body_metadata_contract payload_kind_bitmap payload_frame_count body_view = do
  descriptors ← unpack_typed_payload_descriptors body_view.regions.typed_payload_descriptor_region
  require (length descriptors == payload_frame_count)
  require (body_view.prelude.typed_payload_descriptor_bytes == payload_frame_count * 24)
  require (not (payload_frame_count == 0 && not (body_view.prelude.typed_payload_frame_bytes == 0)))
  check_no_tensor descriptors
  validate_typed_payload_kind_union payload_kind_bitmap descriptors

-- `_FRAME_SUBMIT_STANDARD_REFERENCE_SLOTS`
abbrev pub standard_reference_slots : List (ℕ × CacheObjectKind)
standard_reference_slots =
    (1, CacheObjectKind.camera_block)
    ∷ (2, CacheObjectKind.tile_index_block)
    ∷ (4, CacheObjectKind.tensor_section_table)
    ∷ (8, CacheObjectKind.payload_layout_template)
    ∷ []

abbrev pub known_object_ref_mask : ℕ
known_object_ref_mask = 0x0F

-- What a slot requires when its bit is set, and when it is not.
unfoldable pub check_matches :
    Bool → List InlineObjectBlockView → List ObjectReferenceBlock → Result (Unit {0})
check_matches true inline_matches reference_matches = do
  require (is_empty inline_matches)
  require (length reference_matches == 1)
check_matches false inline_matches reference_matches = require (is_empty reference_matches)

-- The loop over the slots, which collects the kinds that must be referenced.
unfoldable pub slots_loop :
    ℕ
    → List InlineObjectBlockView
    → List ObjectReferenceBlock
    → List (ℕ × CacheObjectKind)
    → Result (List CacheObjectKind)
unfolding inline_of references_of check_matches
slots_loop mask inlines references [] = ok []
slots_loop mask inlines references ((bit, kind) ∷ slots) = do
  require (leb (length (inline_of kind inlines)) 1)
  require (leb (length (references_of kind references)) 1)
  check_matches (has_bit mask bit) (inline_of kind inlines) (references_of kind references)
  expected ← slots_loop mask inlines references slots
  ok (if has_bit mask bit then kind ∷ expected else expected)

unfoldable pub check_no_inline :
    List InlineObjectBlockView → List (ℕ × CacheObjectKind) → Result (Unit {0})
unfolding inline_of
check_no_inline inlines [] = ok tt
check_no_inline inlines ((bit, kind) ∷ slots) = do
  require (is_empty (inline_of kind inlines))
  check_no_inline inlines slots

abbrev pub same_kinds : List CacheObjectKind → List CacheObjectKind → Bool
same_kinds [] [] = true
same_kinds (a ∷ kinds) (b ∷ others) = is_kind a b && same_kinds kinds others
same_kinds _ _ = false

abbrev pub kinds_of : List ObjectReferenceBlock → List CacheObjectKind
kinds_of = map (λ r. r.object_kind)

-- The checks of the camera block, the tile index and the section table, on their inline blocks.
unfoldable pub check_camera : FrameSubmitMetadata → Option InlineObjectBlockView → Result (Unit {0})
check_camera m none = require (m.camera_bytes == 0)
check_camera m (some block) = require (block.header.object_bytes == m.camera_bytes)

-- The tile index of either message: `mode` and the numbers are the metadata's.
unfoldable pub check_tile_index :
    TileIndexMode → ℕ → ℕ → ℕ → Bool → Option InlineObjectBlockView → Result (Unit {0})
check_tile_index mode tile_count base bytes referenced (some block) = do
  require (block.header.object_bytes == bytes)
  _ ← unpack_tile_index_block mode tile_count base block.payload
  require (not (referenced && not (bytes == 0)))
check_tile_index mode tile_count base bytes referenced none = do
  require (not (ltb 0 tile_count && not referenced))
  require (not (referenced && not (bytes == 0)))

unfoldable pub check_sections : ℕ → ℕ → Bool → Option InlineObjectBlockView → Result (Unit {0})
check_sections section_count tile_count referenced (some block) = do
  _ ← unpack_tensor_body block.payload 0 section_count (some tile_count)
  ok tt
check_sections section_count tile_count referenced none =
    require (not (ltb 0 section_count && not referenced))

abbrev pub is_mode : SubmitMode → FrameSubmitMetadata → Bool
is_mode mode m = submit_mode_value m.submit_mode == submit_mode_value mode

unfoldable pub check_reference_mode :
    FrameSubmitMetadata → List InlineObjectBlockView → Result (Unit {0})
unfolding check_no_inline
check_reference_mode m inlines =
    if is_mode SubmitMode.reference m
    then check_no_inline inlines standard_reference_slots
    else ok tt

unfoldable pub validate_frame_submit_object_contract :
    FrameSubmitMetadata → BodyView → Result (Unit {0})
unfolding inline_of slots_loop check_reference_mode check_camera check_tile_index check_sections
validate_frame_submit_object_contract m body_view = do
  require (bits_outside m.object_ref_mask known_object_ref_mask == 0)
  inlines ← unpack_inline_object_blocks body_view.regions.inline_object_region
  references ← unpack_object_reference_blocks body_view.regions.object_reference_region
  require (not (is_mode SubmitMode.inline m && not (m.object_ref_mask == 0)))
  require (not (is_mode SubmitMode.inline m && not (is_empty references)))
  expected ← slots_loop m.object_ref_mask inlines references standard_reference_slots
  check_reference_mode m inlines
  require (same_kinds (kinds_of references) expected)
  check_camera m (first (inline_of CacheObjectKind.camera_block inlines))
  check_tile_index m.tile_index_mode m.tile_count m.tile_base_id m.tile_index_bytes
      (has_bit m.object_ref_mask 2) (first (inline_of CacheObjectKind.tile_index_block inlines))
  check_sections m.section_count m.tile_count (has_bit m.object_ref_mask 4)
      (first (inline_of CacheObjectKind.tensor_section_table inlines))

unfoldable pub validate_frame_submit_body : FrameSubmitMetadata → Bytes → Result BodyView
unfolding validate_body_metadata_contract validate_frame_submit_object_contract
validate_frame_submit_body m body = do
  body_view ← unpack_body body
  validate_body_metadata_contract m.payload_kind_bitmap m.payload_frame_count body_view
  validate_frame_submit_object_contract m body_view
  ok body_view
