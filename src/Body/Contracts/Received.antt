-- ===== src/Body/Contracts/Received.antt =====
-- core/packet.py: what `validate_result_push_body` accepts is read without an exception.
use nnrp_py.Common.{
  ℕ, ◌≤◌, ◌≡◌, refl, Bool, ◌&&◌, not, Option, none, some, List, [], ◌∷◌, length, leb, leb→le, ltb,
  ◌==◌, Bool-cases, inl, inr, Result, ok, >>=-eq-ok, require, require-eq-ok, from_ok, arith,
}
use nnrp_py.Struct.{Bytes, values}
use nnrp_py.Metadata.ControlEnums.{CacheObjectKind}
use nnrp_py.Metadata.ResultPush.{ResultPushMetadata}
use nnrp_py.Body.Inline.{InlineObjectBlockView, unpack_inline_object_blocks}
use nnrp_py.Body.Tables.{unpack_object_reference_blocks}
use nnrp_py.Body.Regions.{BodyView, unpack_body}
use nnrp_py.Body.Tiles.{range, unpack_tile_index_block}
use nnrp_py.Body.Sections.{TensorSectionView}
use nnrp_py.Body.TensorBody.{TensorBodyView, unpack_tensor_body}
use nnrp_py.Body.Contracts.{
  is_kind, inline_of, references_of, is_empty, first, check_tile_index, check_sections,
  validate_body_metadata_contract,
}
use nnrp_py.Body.Contracts.Push.{
  index_mode, check_once, check_reference_order, validate_result_push_object_contract,
  validate_result_push_body, validate_result_push_tensor_coverage, last_of, or_else,
  payload_or_empty, sections_in, unpack_current_tensor_body,
}

last_of-none :
    (kind : CacheObjectKind) (blocks : List InlineObjectBlockView)
    → length (inline_of kind blocks) ≡ 0
    → last_of kind blocks ≡ none
unfolding inline_of last_of
last_of-none kind [] h = refl
last_of-none kind (b ∷ blocks) h = elim (Bool-cases (is_kind kind b.header.object_kind)) [
  | inl same ↦ let one = rw same at h in absurd (omega (arith, one))
  | inr other ↦ rw (last_of-none kind blocks (rw other at h), other)
]

first-none : {A : Type 0} (xs : List A) → length xs ≡ 0 → first xs ≡ none
first-none [] h = refl
first-none (x ∷ xs) h = absurd (omega (arith, h))

or_else-none : {A : Type 0} (x : Option A) → or_else x none ≡ x
or_else-none none = refl
or_else-none (some a) = refl

-- Of blocks that come once at most, the dict of the last and the list of all have the same one.
last-first :
    (kind : CacheObjectKind) (blocks : List InlineObjectBlockView)
    → length (inline_of kind blocks) ≤ 1
    → last_of kind blocks ≡ first (inline_of kind blocks)
unfolding inline_of last_of
last-first kind [] h = refl
last-first kind (b ∷ blocks) h = elim (Bool-cases (is_kind kind b.header.object_kind)) [
  | inl same ↦
      let few = rw same at h in
      let none_behind : length (inline_of kind blocks) ≡ 0 = omega (arith, few) in
      rw (same, last_of-none kind blocks none_behind)
  | inr other ↦
      rw (other, last-first kind blocks (rw other at h))
        (or_else-none (first (inline_of kind blocks)))
]

-- The tile index that a result carries is read in the mode of its metadata.
tile_index_reads :
    (count base bytes : ℕ) (referenced : Bool) (block : Option InlineObjectBlockView)
    → check_tile_index (index_mode bytes) count base bytes referenced block ≡ ok tt
    → (ids : List ℕ) × (unpack_tile_index_block
          (index_mode bytes)
          count
          base
          (payload_or_empty block)
        ≡ ok ids)
unfolding check_tile_index values
tile_index_reads count base bytes referenced (some block) h =
    let (_, _, h1) = >>=-eq-ok (require (block.header.object_bytes == bytes)) _ h in
    let (ids, read, _) =
      >>=-eq-ok (unpack_tile_index_block (index_mode bytes) count base block.payload) _ h1 in
    (ids, read)
tile_index_reads count base bytes referenced none h =
    let (_, here, h1) = >>=-eq-ok (require (not (ltb 0 count && not referenced))) _ h in
    let test = require-eq-ok _ here in
    let other = require-eq-ok (not (referenced && not (bytes == 0))) h1 in
    elim (Bool-cases (bytes == 0)) [
      | inl dense ↦ (range base count, rw dense (unfold unpack_tile_index_block in refl))
      | inr raw ↦
          let none_left : count ≡ 0 = ground arith in
          ([], rw (raw, none_left) (unfold unpack_tile_index_block in refl))
    ]

sections_read :
    (section_count tile_count : ℕ) (referenced : Bool) (block : Option InlineObjectBlockView)
    → check_sections section_count tile_count referenced block ≡ ok tt
    → (views : List TensorSectionView) × (sections_in section_count tile_count block ≡ ok views)
unfolding check_sections sections_in
sections_read section_count tile_count referenced none h = ([], refl)
sections_read section_count tile_count referenced (some block) h =
    let (view, read, _) =
      >>=-eq-ok (unpack_tensor_body block.payload 0 section_count (some tile_count)) _ h in
    (view.sections, rw read refl)

current_reads :
    (view : BodyView) (section_count tile_count : ℕ) (inlines : List InlineObjectBlockView)
    (views : List TensorSectionView) (tile table : Option InlineObjectBlockView)
    → unpack_inline_object_blocks view.regions.inline_object_region ≡ ok inlines
    → last_of CacheObjectKind.tile_index_block inlines ≡ tile
    → last_of CacheObjectKind.tensor_section_table inlines ≡ table
    → sections_in section_count tile_count table ≡ ok views
    → (read : Bytes → Result (List ℕ)) (ids : List ℕ) → read (payload_or_empty tile) ≡ ok ids
    → (t : TensorBodyView) × (unpack_current_tensor_body view section_count tile_count ≡ ok t)
      × (ids : List ℕ) × (read t.tile_index_block ≡ ok ids)
unfolding unpack_current_tensor_body
current_reads view section_count tile_count inlines views tile table a b c d read ids e =
    (record { tile_index_block = payload_or_empty tile; sections = views }, rw (a, c, d, b), ids, e)

-- What an accepted body gives of the tensors: both reads return.
contract_reads :
    (m : ResultPushMetadata) (body_view : BodyView)
    → validate_result_push_object_contract m body_view ≡ ok tt
    → (t : TensorBodyView) × (unpack_current_tensor_body body_view m.section_count m.tile_count
        ≡ ok t)
      × (ids : List ℕ) × (unpack_tile_index_block
            (index_mode m.tile_index_bytes)
            m.tile_count
            m.tile_base_id
            t.tile_index_block
          ≡ ok ids)
unfolding validate_result_push_object_contract
contract_reads m view h =
    let (inlines, read, h1) =
      >>=-eq-ok (unpack_inline_object_blocks view.regions.inline_object_region) _ h in
    let (references, _, h2) =
      >>=-eq-ok (unpack_object_reference_blocks view.regions.object_reference_region) _ h1 in
    let tile_blocks = inline_of CacheObjectKind.tile_index_block inlines in
    let table_blocks = inline_of CacheObjectKind.tensor_section_table inlines in
    let tile_references = references_of CacheObjectKind.tile_index_block references in
    let table_references = references_of CacheObjectKind.tensor_section_table references in
    let (_, _, h3) = >>=-eq-ok (check_reference_order none references) _ h2 in
    let (_, few_tiles, h4) = >>=-eq-ok (require (leb (length tile_blocks) 1)) _ h3 in
    let (_, few_tables, h5) = >>=-eq-ok (require (leb (length table_blocks) 1)) _ h4 in
    let (_, _, h6) =
      >>=-eq-ok (check_once CacheObjectKind.tile_index_block inlines references) _ h5 in
    let (_, tiles, h7) =
      >>=-eq-ok
        (check_tile_index (index_mode m.tile_index_bytes) m.tile_count m.tile_base_id
          m.tile_index_bytes (not (is_empty tile_references)) (first tile_blocks))
        _ h6 in
    let (_, _, h8) =
      >>=-eq-ok (check_once CacheObjectKind.tensor_section_table inlines references) _ h7 in
    let (ids, ids_read) =
      tile_index_reads m.tile_count m.tile_base_id m.tile_index_bytes
        (not (is_empty tile_references)) (first tile_blocks) tiles in
    let (views, views_read) =
      sections_read m.section_count m.tile_count (not (is_empty table_references))
        (first table_blocks) h8 in
    let one_tile =
      last-first CacheObjectKind.tile_index_block inlines
        (leb→le _ 1 (require-eq-ok _ few_tiles)) in
    let one_table =
      last-first CacheObjectKind.tensor_section_table inlines
        (leb→le _ 1 (require-eq-ok _ few_tables)) in
    current_reads view m.section_count m.tile_count inlines views (first tile_blocks)
      (first table_blocks) read one_tile one_table views_read
      (unpack_tile_index_block (index_mode m.tile_index_bytes) m.tile_count m.tile_base_id) ids
      ids_read

-- The tensors of a RESULT_PUSH whose body is accepted are unpacked without an exception, and so are
-- the tile ids, in the mode and with the count and base of the metadata.
pub tensors_of_accepted_push :
    (m : ResultPushMetadata) (body : Bytes) (body_view : BodyView)
    → validate_result_push_body m body ≡ ok body_view
    → (t : TensorBodyView) × (unpack_current_tensor_body body_view m.section_count m.tile_count
        ≡ ok t)
      × (ids : List ℕ) × (unpack_tile_index_block
            (index_mode m.tile_index_bytes)
            m.tile_count
            m.tile_base_id
            t.tile_index_block
          ≡ ok ids)
unfolding validate_result_push_body
tensors_of_accepted_push m body body_view h =
    let (view, _, h1) = >>=-eq-ok (unpack_body body) _ h in
    let (_, _, h2) = >>=-eq-ok (validate_result_push_tensor_coverage m) _ h1 in
    let (_, _, h3) =
      >>=-eq-ok (validate_body_metadata_contract m.payload_kind_bitmap m.payload_frame_count view) _
        h2 in
    let (_, valid, h4) = >>=-eq-ok (validate_result_push_object_contract m view) _ h3 in
    contract_reads m body_view (rw (from_ok view body_view h4) at valid)
