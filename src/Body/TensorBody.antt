-- ===== src/Body/TensorBody.antt =====
-- core/packet.py: the tensor sections of a body, in the order of their roles and each at a multiple
-- of eight bytes, and `unpack_tensor_body`.
pub mod RoundTrip
use nnrp_py.Common.{
  ℕ, zero, suc, ◌+◌, ◌-◌, Bool, true, not, Option, none, some, List, [], ◌∷◌, ◌++◌, length, take,
  drop, leb, ◌==◌, if◌then◌else◌, zeros, all_zero, Result, ok, ◌>>=◌, ◌>>◌, require,
}
use nnrp_py.Struct.{Bytes}
use nnrp_py.Body.Slices.{slice}
use nnrp_py.Body.Inline.{align_up}
use nnrp_py.Body.Sections.{
  TensorSectionView, TensorSectionData, tile_lengths, parse_tensor_section,
  pack_tensor_section_data,
}

-- `previous_role_id` is None at the first section.
abbrev pub is_above : Option ℕ → ℕ → Bool
is_above none role_id = true
is_above (some previous) role_id = not (leb role_id previous)

unfoldable pub pack_section_sequence : ℕ → Option ℕ → List TensorSectionData → Result (List Bytes)
pack_section_sequence tile_count previous [] = ok []
pack_section_sequence tile_count previous (section ∷ sections) = do
  require (is_above previous section.role_id)
  require (length section.tile_payloads == tile_count)
  packed ← pack_tensor_section_data section
  others ← pack_section_sequence tile_count (some section.role_id) sections
  ok (packed ∷ others)

unfoldable pub region_loop : Bytes → List Bytes → Bytes
unfolding align_up
region_loop payload [] = payload
region_loop payload (section ∷ sections) =
    region_loop ((payload ++ zeros (align_up (length payload) - length payload)) ++ section)
      sections

unfoldable pub pack_tensor_section_region : List Bytes → Bytes
unfolding region_loop
pack_tensor_section_region = region_loop []

pub record TensorBodyView : Type 0 where
  pub tile_index_block : Bytes
  pub sections : List TensorSectionView

unfoldable pub check_tile_count : Option ℕ → TensorSectionView → Result (Unit {0})
check_tile_count none section = ok tt
check_tile_count (some tile_count) section = do
  lengths ← tile_lengths section
  require (length lengths == tile_count)

-- The zeros up to the next multiple of eight, behind `cursor`.
unfoldable pub skip_padding : Bytes → ℕ → Result ℕ
unfolding align_up
skip_padding view cursor = do
  require (leb (align_up cursor) (length view))
  require (all_zero (slice cursor (align_up cursor) view))
  ok (align_up cursor)

-- The loop over the sections, with the number of those that are left. It ends with the cursor.
unfoldable pub sections_loop :
    Bytes → Option ℕ → ℕ → ℕ → Option ℕ → Result (List TensorSectionView × ℕ)
unfolding check_tile_count skip_padding
sections_loop view tile_count zero cursor previous = ok ([], cursor)
sections_loop view tile_count (suc left) cursor previous = do
  (section, consumed) ← parse_tensor_section (drop cursor view)
  require (is_above previous section.desc.role_id)
  check_tile_count tile_count section
  let next_cursor = cursor + consumed
  next ← (if left == 0 then ok next_cursor else skip_padding view next_cursor)
  (others, end) ← sections_loop view tile_count left next (some section.desc.role_id)
  ok (section ∷ others, end)

unfoldable pub unpack_tensor_body : Bytes → ℕ → ℕ → Option ℕ → Result TensorBodyView
unfolding skip_padding sections_loop
unpack_tensor_body view tile_index_bytes section_count tile_count = do
  require (leb tile_index_bytes (length view))
  start ← (if section_count == 0 then ok tile_index_bytes else skip_padding view tile_index_bytes)
  (sections, cursor) ← sections_loop view tile_count section_count start none
  require (cursor == length view)
  ok (record { tile_index_block = take tile_index_bytes view; sections = sections })
