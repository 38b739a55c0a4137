-- ===== src/Body/Inline.antt =====
-- core/packet.py: inline object blocks, a 16-byte header and a payload, padded with zeros to a
-- multiple of eight.
pub mod RoundTrip
use nnrp_py.Common.{
  ℕ, ◌+◌, ◌-◌, ◌*◌, ◌/◌, Option, some, List, [], ◌∷◌, ◌++◌, ◌==◌, leb, length, take, drop, zeros,
  all_zero, Result, ok, ◌>>=◌, ◌>>◌, require,
}
use nnrp_py.Struct.{Bytes}
use nnrp_py.Stream.{read_all}
use nnrp_py.Metadata
use nnrp_py.Metadata.InlineObjectBlock
use nnrp_py.Metadata.InlineObjectBlock.{InlineObjectBlockHeader}
use nnrp_py.Body.Slices.{slice}

-- `_align_up` at the only alignment that is used, 8.
unfoldable pub align_up : ℕ → ℕ
align_up value = (value + 7) / 8 * 8

pub record InlineObjectBlockView : Type 0 where
  pub header : InlineObjectBlockHeader
  pub payload : Bytes

unfoldable pub pack_inline_object_block : InlineObjectBlockHeader → Bytes → Result Bytes
unfolding align_up
pack_inline_object_block header payload = do
  require (length payload == header.object_bytes)
  packed ← Metadata.pack InlineObjectBlock.codec header
  let buffer = packed ++ payload
  ok (buffer ++ zeros (align_up (length buffer) - length buffer))

unfoldable pub unpack_inline_object_block : Bytes → Result InlineObjectBlockView
unfolding align_up
unpack_inline_object_block view = do
  require (leb 16 (length view))
  header ← Metadata.unpack InlineObjectBlock.codec (take 16 view)
  let payload_end = 16 + header.object_bytes
  require (leb payload_end (length view))
  let aligned_end = align_up payload_end
  require (length view == aligned_end)
  require (all_zero (slice payload_end aligned_end view))
  ok (record { header = header; payload = slice 16 payload_end view })

-- One round of `_split_inline_object_region`: `view` is the region from `cursor` on.
unfoldable pub read_block : Bytes → Result (Bytes × Bytes)
unfolding align_up
read_block view = do
  require (leb 16 (length view))
  header ← Metadata.unpack InlineObjectBlock.codec (take 16 view)
  let total_bytes = align_up (16 + header.object_bytes)
  require (leb total_bytes (length view))
  ok (take total_bytes view, drop total_bytes view)

unfoldable pub split_inline_object_region : Bytes → Result (List Bytes)
split_inline_object_region = read_all read_block (λ block. ok (some block))

unfoldable pub unpack_each : List Bytes → Result (List InlineObjectBlockView)
unpack_each [] = ok []
unpack_each (block ∷ blocks) = do
  view ← unpack_inline_object_block block
  views ← unpack_each blocks
  ok (view ∷ views)

unfoldable pub unpack_inline_object_blocks : Bytes → Result (List InlineObjectBlockView)
unfolding unpack_each
unpack_inline_object_blocks region = do
  blocks ← split_inline_object_region region
  unpack_each blocks
