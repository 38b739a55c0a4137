-- ===== src/Body/Tiles/Errors.antt =====
-- core/packet.py: the exceptions of the tile index codings. `payload[i]` is never out of range.
use nnrp_py.Common.{
  ℕ, zero, suc, ◌+◌, ◌<◌, ◌≤◌, ◌/◌, ◌%◌, ◌≡◌, Option, none, some, List, [], ◌∷◌, length,
  length-replicate, zeros, All, leb, leb→le, not, require, require-eq-ok, RaisesOnly, ok-RaisesOnly,
  require-RaisesOnly, >>=-RaisesOnly, arith,
}
use nnrp_py.Struct.{Bytes}
use nnrp_py.Struct.RoundTrip.{pack_total}
use nnrp_py.Stream.{write_all}
use nnrp_py.Body.Tiles.{
  delta_of, validate_tile_ids, validate_strictly_increasing_tile_ids, pack_u16, range, same_ids,
  last_id, set_bit, set_bits, pack_deltas, pack_bitset, pack_tile_index_block,
}
use nnrp_py.Body.Tiles.Deltas.{AscendsFrom, Ascends, Ascends-of_validate}
use nnrp_py.Body.Tiles.Bitset.{length-set_bit}
use nnrp_py.Metadata.DataEnums.{TileIndexMode}

validate_tile_ids-RaisesOnly : (ids : List ℕ) → RaisesOnly (validate_tile_ids ids)
unfolding validate_tile_ids
validate_tile_ids-RaisesOnly [] = ok-RaisesOnly tt
validate_tile_ids-RaisesOnly (id ∷ ids) =
    >>=-RaisesOnly (require (leb id 0xFFFF)) _ (require-RaisesOnly _)
      λ _ _. validate_tile_ids-RaisesOnly ids

validate_increasing-RaisesOnly :
    (ids : List ℕ) → RaisesOnly (validate_strictly_increasing_tile_ids ids)
unfolding validate_strictly_increasing_tile_ids
validate_increasing-RaisesOnly [] = ok-RaisesOnly tt
validate_increasing-RaisesOnly (a ∷ []) = ok-RaisesOnly tt
validate_increasing-RaisesOnly (a ∷ b ∷ ids) =
    >>=-RaisesOnly (require (not (leb b a))) _ (require-RaisesOnly _)
      λ _ _. validate_increasing-RaisesOnly (b ∷ ids)

pack_u16-RaisesOnly : (v : ℕ) → RaisesOnly (pack_u16 v)
unfolding pack_u16
pack_u16-RaisesOnly v = >>=-RaisesOnly (require (leb v 0xFFFF)) _ (require-RaisesOnly _) λ _ test.
    let fits : v ≤ 0xFFFF = leb→le v 0xFFFF (require-eq-ok _ test) in
    let (bs, packed) = pack_total (2 ∷ []) (v ∷ []) (omega arith, tt) in
    rw packed (ok-RaisesOnly bs)

write_u16s-RaisesOnly : (ids : List ℕ) → RaisesOnly (write_all pack_u16 ids)
unfolding write_all
write_u16s-RaisesOnly [] = ok-RaisesOnly []
write_u16s-RaisesOnly (id ∷ ids) = >>=-RaisesOnly (pack_u16 id) _ (pack_u16-RaisesOnly id) λ _ _.
    >>=-RaisesOnly (write_all pack_u16 ids) _ (write_u16s-RaisesOnly ids) λ _ _. ok-RaisesOnly _

pack_deltas-RaisesOnly :
    (previous : Option ℕ) (ids : List ℕ) → RaisesOnly (pack_deltas previous ids)
unfolding pack_deltas
pack_deltas-RaisesOnly previous [] = ok-RaisesOnly []
pack_deltas-RaisesOnly previous (id ∷ ids) =
    >>=-RaisesOnly (require (leb (delta_of previous id) 0xFFFF)) _ (require-RaisesOnly _) λ _ _.
      >>=-RaisesOnly (pack_u16 (delta_of previous id)) _ (pack_u16-RaisesOnly _) λ _ _.
        >>=-RaisesOnly (pack_deltas (some id) ids) _ (pack_deltas-RaisesOnly (some id) ids)
          λ _ _. ok-RaisesOnly _

set_bit-RaisesOnly : (i offset : ℕ) (bs : Bytes) → i < length bs → RaisesOnly (set_bit i offset bs)
unfolding set_bit
set_bit-RaisesOnly i offset [] inside = absurd (omega arith)
set_bit-RaisesOnly zero offset (b ∷ bs) inside = ok-RaisesOnly _
set_bit-RaisesOnly (suc i) offset (b ∷ bs) inside =
    >>=-RaisesOnly (set_bit i offset bs) _ (set_bit-RaisesOnly i offset bs (omega arith))
      λ _ _. ok-RaisesOnly _

set_bits-RaisesOnly :
    (ids : List ℕ) (bs : Bytes) → All (λ id. id / 8 < length bs) ids → RaisesOnly (set_bits ids bs)
unfolding set_bits
set_bits-RaisesOnly [] bs inside = ok-RaisesOnly bs
set_bits-RaisesOnly (id ∷ ids) bs (inside, others) =
    >>=-RaisesOnly (set_bit (id / 8) (id % 8) bs) _ (set_bit-RaisesOnly (id / 8) (id % 8) bs inside)
      λ next found.
        let (_, same) = length-set_bit (id / 8) (id % 8) bs next found in
        set_bits-RaisesOnly ids next (rw same others)

first≤last : (id : ℕ) (ids : List ℕ) → AscendsFrom id ids → id ≤ last_id id ids
first≤last id [] h = omega arith
first≤last id (next ∷ ids) (above, h) = omega (arith, first≤last next ids h)

All-inside :
    (id : ℕ) (ids : List ℕ) (size : ℕ)
    → AscendsFrom id ids
    → last_id id ids / 8 < size
    → All (λ i. i / 8 < size) (id ∷ ids)
All-inside id [] size h room = (room, tt)
All-inside id (next ∷ ids) size (above, h) room =
    (omega (arith, first≤last next ids h), All-inside next ids size h room)

pack_bitset-RaisesOnly : (ids : List ℕ) → Ascends ids → RaisesOnly (pack_bitset ids)
unfolding pack_bitset
pack_bitset-RaisesOnly [] h = ok-RaisesOnly []
pack_bitset-RaisesOnly (id ∷ ids) h =
    let payload : Bytes = zeros (last_id id ids / 8 + 1) in
    let room : length payload ≡ last_id id ids / 8 + 1 =
      length-replicate {A = ℕ} (last_id id ids / 8 + 1) 0 in
    set_bits-RaisesOnly (id ∷ ids) payload
      (All-inside id ids (length payload) h (omega (arith, room)))

-- In every mode the packer raises ValueError or nothing: struct.pack takes every entry that is
-- written, and the bitset has a byte for every id.
pub pack_tile_index_block-raises :
    (mode : TileIndexMode) (base : ℕ) (ids : List ℕ)
    → RaisesOnly (pack_tile_index_block mode base ids)
unfolding pack_tile_index_block
pack_tile_index_block-raises TileIndexMode.dense_range base ids =
    >>=-RaisesOnly (validate_tile_ids ids) _ (validate_tile_ids-RaisesOnly ids) λ _ _.
      >>=-RaisesOnly (require (same_ids ids (range base (length ids)))) _ (require-RaisesOnly _)
        λ _ _. ok-RaisesOnly []
pack_tile_index_block-raises TileIndexMode.raw_u16 base ids =
    >>=-RaisesOnly (validate_tile_ids ids) _ (validate_tile_ids-RaisesOnly ids)
      λ _ _. write_u16s-RaisesOnly ids
pack_tile_index_block-raises TileIndexMode.delta_u16 base ids =
    >>=-RaisesOnly (validate_tile_ids ids) _ (validate_tile_ids-RaisesOnly ids) λ _ _.
      >>=-RaisesOnly (validate_strictly_increasing_tile_ids ids) _
        (validate_increasing-RaisesOnly ids) λ _ _. pack_deltas-RaisesOnly none ids
pack_tile_index_block-raises TileIndexMode.bitset base ids =
    >>=-RaisesOnly (validate_tile_ids ids) _ (validate_tile_ids-RaisesOnly ids) λ _ _.
      >>=-RaisesOnly (validate_strictly_increasing_tile_ids ids) _
        (validate_increasing-RaisesOnly ids)
        λ _ valid. pack_bitset-RaisesOnly ids (Ascends-of_validate ids valid)
