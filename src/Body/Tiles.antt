-- ===== src/Body/Tiles.antt =====
-- core/packet.py: `pack_tile_index_block` and `unpack_tile_index_block`. Tile ids, the base and the
-- count are non-negative by their types; the source tests for it.
pub mod Bitset
pub mod Deltas
pub mod Errors
pub mod RoundTrip
use nnrp_py.Common.{
  ℕ, zero, suc, ◌+◌, ◌-◌, ◌*◌, ◌/◌, ◌%◌, ◌^◌, Option, none, some, Bool, true, false, ◌&&◌, not,
  List, [], ◌∷◌, ◌++◌, length, ltb, leb, ◌==◌, if◌then◌else◌, zeros, bit_or, has_bit, Result, ok,
  err, index_error, ◌>>=◌, ◌>>◌, require,
}
use nnrp_py.Struct.{Bytes, pack}
use nnrp_py.Stream.{write_all}
use nnrp_py.Body.Words.{words}
use nnrp_py.Metadata.DataEnums.{TileIndexMode}

abbrev pub tile_id_entry_size : ℕ
tile_id_entry_size = 2

unfoldable pub validate_tile_ids : List ℕ → Result (Unit {0})
validate_tile_ids [] = ok tt
validate_tile_ids (id ∷ ids) = do require (leb id 0xFFFF); validate_tile_ids ids

-- `zip(tile_ids, tile_ids[1:])`
unfoldable pub validate_strictly_increasing_tile_ids : List ℕ → Result (Unit {0})
validate_strictly_increasing_tile_ids [] = ok tt
validate_strictly_increasing_tile_ids (previous ∷ []) = ok tt
validate_strictly_increasing_tile_ids (previous ∷ current ∷ ids) = do
  require (not (leb current previous))
  validate_strictly_increasing_tile_ids (current ∷ ids)

unfoldable pub pack_u16 : ℕ → Result Bytes
pack_u16 v = do require (leb v 0xFFFF); pack (tile_id_entry_size ∷ []) (v ∷ [])

-- `range(first, first + count)`
abbrev pub range : ℕ → ℕ → List ℕ
range first zero = []
range first (suc count) = first ∷ range (suc first) count

abbrev pub same_ids : List ℕ → List ℕ → Bool
same_ids [] [] = true
same_ids (id ∷ ids) (e ∷ expected) = id == e && same_ids ids expected
same_ids _ _ = false

abbrev pub delta_of : Option ℕ → ℕ → ℕ
delta_of none id = id
delta_of (some previous) id = id - previous

abbrev pub sum_of : Option ℕ → ℕ → ℕ
sum_of none v = v
sum_of (some previous) v = previous + v

-- The loop over the deltas; `previous_tile_id` is None on the first id. The ids ascend, so that no
-- difference is negative.
unfoldable pub pack_deltas : Option ℕ → List ℕ → Result Bytes
unfolding pack_u16
pack_deltas previous [] = ok []
pack_deltas previous (id ∷ ids) = do
  require (leb (delta_of previous id) 0xFFFF)
  first ← pack_u16 (delta_of previous id)
  rest ← pack_deltas (some id) ids
  ok (first ++ rest)

unfoldable pub unpack_deltas : Option ℕ → List ℕ → List ℕ
unpack_deltas previous [] = []
unpack_deltas previous (v ∷ vs) = sum_of previous v ∷ unpack_deltas (some (sum_of previous v)) vs

-- `payload[i] |= 1 << offset`
unfoldable pub set_bit : ℕ → ℕ → Bytes → Result Bytes
set_bit i offset [] = err index_error
set_bit zero offset (b ∷ bs) = ok (bit_or b (2 ^ offset) ∷ bs)
set_bit (suc i) offset (b ∷ bs) = do rest ← set_bit i offset bs; ok (b ∷ rest)

unfoldable pub set_bits : List ℕ → Bytes → Result Bytes
unfolding set_bit
set_bits [] payload = ok payload
set_bits (id ∷ ids) payload = do next ← set_bit (id / 8) (id % 8) payload; set_bits ids next

-- `tile_ids[-1]`, of a tuple that is not empty
abbrev pub last_id : ℕ → List ℕ → ℕ
last_id id [] = id
last_id id (next ∷ ids) = last_id next ids

unfoldable pub pack_bitset : List ℕ → Result Bytes
unfolding set_bits
pack_bitset [] = ok []
pack_bitset (id ∷ ids) = set_bits (id ∷ ids) (zeros (last_id id ids / 8 + 1))

-- The offsets of one byte, `for bit_offset in range(8) if value & (1 << bit_offset)`.
abbrev pub offsets_from : ℕ → ℕ → ℕ → List ℕ
offsets_from offset zero value = []
offsets_from offset (suc count) value =
    let rest = offsets_from (suc offset) count value in
    if has_bit value (2 ^ offset) then offset ∷ rest else rest

abbrev pub shift_ids : ℕ → List ℕ → List ℕ
shift_ids by [] = []
shift_ids by (o ∷ os) = (by + o) ∷ shift_ids by os

unfoldable pub bit_indices : ℕ → Bytes → List ℕ
bit_indices i [] = []
bit_indices i (value ∷ bs) = shift_ids (i * 8) (offsets_from 0 8 value) ++ bit_indices (suc i) bs

unfoldable pub pack_tile_index_block : TileIndexMode → ℕ → List ℕ → Result Bytes
unfolding validate_tile_ids validate_strictly_increasing_tile_ids pack_deltas pack_bitset
pack_tile_index_block TileIndexMode.dense_range base ids = do
  validate_tile_ids ids
  require (same_ids ids (range base (length ids)))
  ok []
pack_tile_index_block TileIndexMode.raw_u16 base ids = do
  validate_tile_ids ids
  write_all pack_u16 ids
pack_tile_index_block TileIndexMode.delta_u16 base ids = do
  validate_tile_ids ids
  validate_strictly_increasing_tile_ids ids
  pack_deltas none ids
pack_tile_index_block TileIndexMode.bitset base ids = do
  validate_tile_ids ids
  validate_strictly_increasing_tile_ids ids
  pack_bitset ids

unfoldable pub unpack_tile_index_block : TileIndexMode → ℕ → ℕ → Bytes → Result (List ℕ)
unfolding unpack_deltas bit_indices
unpack_tile_index_block TileIndexMode.dense_range count base bs = do
  require (length bs == 0)
  ok (range base count)
unpack_tile_index_block TileIndexMode.raw_u16 count base bs = do
  require (length bs == count * tile_id_entry_size)
  ok (words tile_id_entry_size count bs)
unpack_tile_index_block TileIndexMode.delta_u16 count base bs = do
  require (length bs == count * tile_id_entry_size)
  ok (unpack_deltas none (words tile_id_entry_size count bs))
unpack_tile_index_block TileIndexMode.bitset count base bs = do
  let ids = bit_indices 0 bs
  require (length ids == count)
  ok ids
