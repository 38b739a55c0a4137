-- ===== src/Body/Sections.antt =====
-- core/packet.py: tensor sections, a descriptor with the tables of codecs and lengths and the
-- payloads of the tiles, as `pack_tensor_section_data` writes them and `_parse_tensor_section`
-- reads them. Codec ids, strides and counts are non-negative by their types.
pub mod Blob
pub mod RoundTrip
use nnrp_py.Common.{
  ℕ, ◌+◌, ◌-◌, ◌*◌, ◌/◌, ◌%◌, Bool, true, false, ◌&&◌, ◌||◌, not, Option, none, some, List, [], ◌∷◌,
  ◌++◌, length, take, drop, leb, ◌==◌, if◌then◌else◌, zeros, all_zero, bit_or, has_bit, Result, ok,
  ◌>>=◌, ◌>>◌, require,
}
use nnrp_py.Struct
use nnrp_py.Struct.{Bytes}
use nnrp_py.Stream.{write_all}
use nnrp_py.Metadata
use nnrp_py.Metadata.DataEnums.{TensorDType, TensorLayout, ScalePolicy}
use nnrp_py.Metadata.TensorSection
use nnrp_py.Metadata.TensorSection.{TensorSectionDesc}
use nnrp_py.Body.Slices.{slice, concat}
use nnrp_py.Body.Words.{words}

abbrev pub length_entry_size : ℕ
length_entry_size = 4

-- `SectionFlags`
abbrev pub fixed_stride : ℕ
fixed_stride = 2

abbrev pub mixed_codec : ℕ
mixed_codec = 1

pub record TensorSectionView : Type 0 where
  pub desc : TensorSectionDesc
  pub codec_table : Bytes
  pub length_table : Bytes
  pub payload : Bytes

unfoldable pub tile_lengths : TensorSectionView → Result (List ℕ)
tile_lengths v = do
  require (length v.length_table % length_entry_size == 0)
  ok (words length_entry_size (length v.length_table / length_entry_size) v.length_table)

-- `payload` is the blob from the tile's start on.
unfoldable pub stride_slices : ℕ → List ℕ → Bytes → Result (List Bytes)
stride_slices stride [] payload = ok []
stride_slices stride (n ∷ ns) payload = do
  require (leb n stride)
  require (all_zero (slice n stride payload))
  rest ← stride_slices stride ns (drop stride payload)
  ok (take n payload ∷ rest)

unfoldable pub tight_slices : List ℕ → Bytes → List Bytes
tight_slices [] payload = []
tight_slices (n ∷ ns) payload = take n payload ∷ tight_slices ns (drop n payload)

abbrev pub sum : List ℕ → ℕ
sum [] = 0
sum (n ∷ ns) = n + sum ns

unfoldable pub payload_slices : TensorSectionView → Result (List Bytes)
unfolding tile_lengths stride_slices tight_slices
payload_slices v = do
  lengths ← tile_lengths v
  let stride = v.desc.payload_stride_bytes
  (if stride == 0
      then (do require (sum lengths == length v.payload); ok (tight_slices lengths v.payload))
      else (do
        require (length v.payload == stride * length lengths)
        stride_slices stride lengths v.payload))

-- `length_entry_count`
abbrev pub entry_count : Bytes → ℕ
entry_count length_table = length length_table / length_entry_size

-- The guards of `_build_tensor_section_view`.
unfoldable pub check_section : TensorSectionDesc → Bytes → Bytes → Bytes → Result (Unit {0})
check_section desc codec_table length_table payload = do
  require (length codec_table == desc.codec_table_bytes)
  require (length length_table == desc.length_table_bytes)
  require (length payload == desc.payload_bytes)
  require (length length_table % length_entry_size == 0)
  require (
      if has_bit desc.flags fixed_stride
      then not (desc.payload_stride_bytes == 0)
      else (desc.payload_stride_bytes == 0))
  require (
      if has_bit desc.flags mixed_codec
      then not (length codec_table == 0)
      else (length codec_table == 0))
  require (length codec_table == 0 || length codec_table == entry_count length_table)

unfoldable pub build_tensor_section_view :
    TensorSectionDesc → Bytes → Bytes → Bytes → Result TensorSectionView
unfolding check_section
build_tensor_section_view desc codec_table length_table payload = do
  check_section desc codec_table length_table payload
  ok (record {
    desc = desc;
    codec_table = codec_table;
    length_table = length_table;
    payload = payload;
  })

unfoldable pub pack_tensor_section : TensorSectionDesc → Bytes → Bytes → Bytes → Result Bytes
unfolding payload_slices build_tensor_section_view
pack_tensor_section desc codec_table length_table payload = do
  require (length codec_table == desc.codec_table_bytes)
  require (length length_table == desc.length_table_bytes)
  require (length payload == desc.payload_bytes)
  view ← build_tensor_section_view desc codec_table length_table payload
  _ ← payload_slices view
  packed ← Metadata.pack TensorSection.codec desc
  ok (packed ++ (codec_table ++ (length_table ++ payload)))

unfoldable pub parse_tensor_section : Bytes → Result (TensorSectionView × ℕ)
unfolding payload_slices build_tensor_section_view
parse_tensor_section payload = do
  require (leb 32 (length payload))
  desc ← Metadata.unpack TensorSection.codec (take 32 payload)
  let codec_end = desc.codec_table_bytes
  let length_end = codec_end + desc.length_table_bytes
  let total_length = 32 + (length_end + desc.payload_bytes)
  require (leb total_length (length payload))
  let tail = slice 32 total_length payload
  section ←
      build_tensor_section_view desc (take codec_end tail) (slice codec_end length_end tail)
        (drop length_end tail)
  _ ← payload_slices section
  ok (section, total_length)

pub record TensorSectionData : Type 0 where
  pub role_id : ℕ
  pub default_codec_id : ℕ
  pub dtype_id : TensorDType
  pub tile_payloads : List Bytes
  pub codec_ids : List ℕ
  pub layout_id : TensorLayout
  pub scale_policy : ScalePolicy
  pub payload_stride_bytes : ℕ
  pub element_count_per_tile : ℕ

abbrev pub all_fit_u8 : List ℕ → Bool
all_fit_u8 [] = true
all_fit_u8 (id ∷ ids) = leb id 0xFF && all_fit_u8 ids

abbrev pub all_default : ℕ → List ℕ → Bool
all_default default_codec_id [] = true
all_default default_codec_id (id ∷ ids) = id == default_codec_id && all_default default_codec_id ids

unfoldable pub build_codec_table : ℕ → ℕ → List ℕ → Result Bytes
build_codec_table default_codec_id tile_count [] = ok []
build_codec_table default_codec_id tile_count (id ∷ ids) = do
  require (length (id ∷ ids) == tile_count)
  require (all_fit_u8 (id ∷ ids))
  ok (if all_default default_codec_id (id ∷ ids) then [] else id ∷ ids)

unfoldable pub pack_length : Bytes → Result Bytes
pack_length payload = Struct.pack (length_entry_size ∷ []) (length payload ∷ [])

unfoldable pub fixed_stride_blob : ℕ → List Bytes → Result Bytes
fixed_stride_blob stride [] = ok []
fixed_stride_blob stride (item ∷ items) = do
  require (leb (length item) stride)
  rest ← fixed_stride_blob stride items
  ok (item ++ (zeros (stride - length item) ++ rest))

-- The blob and its flags.
unfoldable pub build_section_payload_blob : ℕ → List Bytes → Result (Bytes × ℕ)
unfolding fixed_stride_blob
build_section_payload_blob stride payloads =
    if stride == 0
    then ok (concat payloads, 0)
    else (do blob ← fixed_stride_blob stride payloads; ok (blob, fixed_stride))

-- The descriptor that `pack_tensor_section_data` makes.
abbrev pub desc_of : TensorSectionData → Bytes → Bytes → Bytes → ℕ → TensorSectionDesc
desc_of section codec_table length_table payload_blob flags = record {
  role_id = section.role_id;
  codec_id = section.default_codec_id;
  dtype_id = section.dtype_id;
  layout_id = section.layout_id;
  scale_policy = section.scale_policy;
  flags = if length codec_table == 0 then flags else bit_or flags mixed_codec;
  element_count_per_tile = section.element_count_per_tile;
  codec_table_bytes = length codec_table;
  length_table_bytes = length length_table;
  payload_bytes = length payload_blob;
  payload_stride_bytes = section.payload_stride_bytes;
  reserved = 0;
}

unfoldable pub pack_tensor_section_data : TensorSectionData → Result Bytes
unfolding build_codec_table pack_length build_section_payload_blob pack_tensor_section
pack_tensor_section_data section = do
  codec_table ←
      build_codec_table section.default_codec_id (length section.tile_payloads) section.codec_ids
  length_table ← write_all pack_length section.tile_payloads
  (payload_blob, flags) ←
      build_section_payload_blob section.payload_stride_bytes section.tile_payloads
  pack_tensor_section (desc_of section codec_table length_table payload_blob flags) codec_table
      length_table payload_blob
