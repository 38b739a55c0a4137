-- ===== src/Body/Contracts/Push.antt =====
-- core/packet.py: `validate_result_push_body` and what a client reads of the tensors of a result.
use nnrp_py.Common.{
  ℕ, ◌+◌, Bool, true, false, not, ◌&&◌, ◌||◌, Option, none, some, List, [], ◌∷◌, length, ltb, leb,
  ◌==◌, if◌then◌else◌, has_bit, Result, ok, ◌>>=◌, ◌>>◌, require,
}
use nnrp_py.Struct.{Bytes}
use nnrp_py.Metadata.ControlEnums.{CacheObjectKind, cache_object_kind_value}
use nnrp_py.Metadata.DataEnums.{TileIndexMode}
use nnrp_py.Metadata.ResultPush.{ResultPushMetadata, is_partial}
use nnrp_py.Metadata.ObjectReference.{ObjectReferenceBlock}
use nnrp_py.Body.Inline.{InlineObjectBlockView, unpack_inline_object_blocks}
use nnrp_py.Body.Tables.{unpack_object_reference_blocks}
use nnrp_py.Body.Regions.{BodyView, unpack_body}
use nnrp_py.Body.Sections.{TensorSectionView}
use nnrp_py.Body.TensorBody.{TensorBodyView, unpack_tensor_body}
use nnrp_py.Body.Contracts.{
  is_kind, inline_of, references_of, is_empty, first, validate_body_metadata_contract,
  check_tile_index, check_sections,
}

abbrev pub has_tensor : ResultPushMetadata → Bool
has_tensor m = has_bit m.payload_kind_bitmap 0x01

unfoldable pub validate_result_push_tensor_coverage : ResultPushMetadata → Result (Unit {0})
validate_result_push_tensor_coverage m =
    if has_tensor m
    then (do
      require (leb m.covered_tile_count m.tile_count)
      require (leb m.dropped_tile_count m.tile_count)
      require (m.covered_tile_count + m.dropped_tile_count == m.tile_count)
      require (not (is_partial m && m.dropped_tile_count == 0)))
    else ok tt

-- Python's order of two tuples of numbers.
abbrev pub tuple_lt : List ℕ → List ℕ → Bool
tuple_lt [] [] = false
tuple_lt [] (b ∷ ys) = true
tuple_lt (a ∷ xs) [] = false
tuple_lt (a ∷ xs) (b ∷ ys) = ltb a b || (a == b && tuple_lt xs ys)

abbrev pub reference_key : ObjectReferenceBlock → List ℕ
reference_key r =
    cache_object_kind_value r.object_kind ∷ r.cache_namespace ∷ r.cache_key_hi ∷ r.cache_key_lo ∷ []

abbrev pub key_above : Option (List ℕ) → List ℕ → Bool
key_above none key = true
key_above (some previous) key = tuple_lt previous key

-- The loop over the references, with `previous_key`.
unfoldable pub check_reference_order :
    Option (List ℕ) → List ObjectReferenceBlock → Result (Unit {0})
check_reference_order previous [] = ok tt
check_reference_order previous (r ∷ references) = do
  require (key_above previous (reference_key r))
  check_reference_order (some (reference_key r)) references

-- The mode in which a result carries its tile index.
abbrev pub index_mode : ℕ → TileIndexMode
index_mode tile_index_bytes =
    if tile_index_bytes == 0 then TileIndexMode.dense_range else TileIndexMode.raw_u16

-- A kind that comes once at most, by reference or inline, and not both.
unfoldable pub check_once :
    CacheObjectKind → List InlineObjectBlockView → List ObjectReferenceBlock → Result (Unit {0})
unfolding inline_of references_of
check_once kind inlines references = do
  require (leb (length (references_of kind references)) 1)
  require (
      not
        (not (is_empty (inline_of kind inlines)) && not (is_empty (references_of kind references))))

unfoldable pub validate_result_push_object_contract :
    ResultPushMetadata → BodyView → Result (Unit {0})
unfolding inline_of references_of check_reference_order check_once check_tile_index check_sections
validate_result_push_object_contract m body_view = do
  inlines ← unpack_inline_object_blocks body_view.regions.inline_object_region
  references ← unpack_object_reference_blocks body_view.regions.object_reference_region
  check_reference_order none references
  require (leb (length (inline_of CacheObjectKind.tile_index_block inlines)) 1)
  require (leb (length (inline_of CacheObjectKind.tensor_section_table inlines)) 1)
  check_once CacheObjectKind.tile_index_block inlines references
  check_tile_index (index_mode m.tile_index_bytes) m.tile_count m.tile_base_id m.tile_index_bytes
      (not (is_empty (references_of CacheObjectKind.tile_index_block references)))
      (first (inline_of CacheObjectKind.tile_index_block inlines))
  check_once CacheObjectKind.tensor_section_table inlines references
  check_sections m.section_count m.tile_count
      (not (is_empty (references_of CacheObjectKind.tensor_section_table references)))
      (first (inline_of CacheObjectKind.tensor_section_table inlines))

unfoldable pub validate_result_push_body : ResultPushMetadata → Bytes → Result BodyView
unfolding validate_result_push_tensor_coverage validate_body_metadata_contract
    validate_result_push_object_contract
validate_result_push_body m body = do
  body_view ← unpack_body body
  validate_result_push_tensor_coverage m
  validate_body_metadata_contract m.payload_kind_bitmap m.payload_frame_count body_view
  validate_result_push_object_contract m body_view
  ok body_view

abbrev pub or_else : {A : Type 0} → Option A → Option A → Option A
or_else (some a) other = some a
or_else none other = other

-- `blocks.get(kind)` of the dict comprehension: the last block of the kind.
unfoldable pub last_of : CacheObjectKind → List InlineObjectBlockView → Option InlineObjectBlockView
last_of kind [] = none
last_of kind (block ∷ blocks) =
    or_else (last_of kind blocks)
      (if is_kind kind block.header.object_kind then some block else none)

abbrev pub payload_or_empty : Option InlineObjectBlockView → Bytes
payload_or_empty none = []
payload_or_empty (some block) = block.payload

-- The sections of the inline section table, if there is one.
unfoldable pub sections_in : ℕ → ℕ → Option InlineObjectBlockView → Result (List TensorSectionView)
sections_in section_count tile_count none = ok []
sections_in section_count tile_count (some table) = do
  view ← unpack_tensor_body table.payload 0 section_count (some tile_count)
  ok view.sections

unfoldable pub unpack_current_tensor_body : BodyView → ℕ → ℕ → Result TensorBodyView
unfolding last_of sections_in
unpack_current_tensor_body body section_count tile_count = do
  blocks ← unpack_inline_object_blocks body.regions.inline_object_region
  sections ←
      sections_in section_count tile_count (last_of CacheObjectKind.tensor_section_table blocks)
  ok (record {
    tile_index_block = payload_or_empty (last_of CacheObjectKind.tile_index_block blocks);
    sections = sections;
  })
