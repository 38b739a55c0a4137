-- ===== src/Body/Tiles/RoundTrip.antt =====
-- core/packet.py: what `unpack_tile_index_block` makes of the bytes of `pack_tile_index_block`.
use nnrp_py.Common.{
  ℕ, ◌+◌, ◌*◌, ◌/◌, ◌≡◌, refl, sym, ap, none, List, [], ◌∷◌, length, leb, ==_self, ok, >>=-eq-ok,
  from_ok, require, require-eq-ok, arith,
}
use nnrp_py.Struct.{Bytes}
use nnrp_py.Body.Words.{WritesWord, words-write_all, length-write_words}
use nnrp_py.Body.Tiles.{
  validate_tile_ids, validate_strictly_increasing_tile_ids, pack_u16, range, same_ids, last_id,
  bit_indices, pack_bitset, pack_tile_index_block, unpack_tile_index_block,
}
use nnrp_py.Body.Tiles.Deltas.{
  Ascends, Ascends-of_validate, deltas, length-deltas, write_all-deltas, unpack_deltas-deltas,
}
use nnrp_py.Body.Tiles.Bitset.{same_ids→eq, bit_indices-set_zeros}
use nnrp_py.Metadata.DataEnums.{TileIndexMode}

pack_u16-WritesWord : WritesWord 2 pack_u16
unfolding pack_u16
pack_u16-WritesWord v bs h = (>>=-eq-ok (require (leb v 0xFFFF)) _ h).2

bit_indices-pack_bitset :
    (ids : List ℕ) (bs : Bytes) → Ascends ids → pack_bitset ids ≡ ok bs → bit_indices 0 bs ≡ ids
unfolding pack_bitset
bit_indices-pack_bitset [] bs ascends h = unfold bit_indices in rw (← from_ok [] bs h) refl
bit_indices-pack_bitset (id ∷ ids) bs ascends h =
    bit_indices-set_zeros id ids (last_id id ids / 8 + 1) bs ascends h

-- In every mode, what the packer wrote of some tile ids, it does not raise then, is unpacked, with
-- the number of the ids and the same base, to these ids.
pub unpack-pack_tile_index_block :
    (mode : TileIndexMode) (base : ℕ) (ids : List ℕ) (bs : Bytes)
    → pack_tile_index_block mode base ids ≡ ok bs
    → unpack_tile_index_block mode (length ids) base bs ≡ ok ids
unfolding pack_tile_index_block unpack_tile_index_block
unpack-pack_tile_index_block TileIndexMode.dense_range base ids bs h =
    let (_, _, h1) = >>=-eq-ok (validate_tile_ids ids) _ h in
    let (_, same, h2) = >>=-eq-ok (require (same_ids ids (range base (length ids)))) _ h1 in
    rw (← from_ok [] bs h2) (ap ok (sym (same_ids→eq _ _ (require-eq-ok _ same))))
unpack-pack_tile_index_block TileIndexMode.raw_u16 base ids bs h =
    let (_, _, h1) = >>=-eq-ok (validate_tile_ids ids) _ h in
    rw (==_self _ _ (length-write_words 2 pack_u16 pack_u16-WritesWord ids bs h1))
      (ap ok (words-write_all 2 pack_u16 pack_u16-WritesWord ids bs h1))
unpack-pack_tile_index_block TileIndexMode.delta_u16 base ids bs h =
    let (_, _, h1) = >>=-eq-ok (validate_tile_ids ids) _ h in
    let (_, valid, h2) = >>=-eq-ok (validate_strictly_increasing_tile_ids ids) _ h1 in
    let wrote = write_all-deltas none ids bs h2 in
    let count = length-deltas none ids in
    let size = length-write_words 2 pack_u16 pack_u16-WritesWord (deltas none ids) bs wrote in
    let read = words-write_all 2 pack_u16 pack_u16-WritesWord (deltas none ids) bs wrote in
    rw (==_self (length bs) (length ids * 2) (omega (arith, size, count)), ← count, read)
      (ap ok (unpack_deltas-deltas ids (Ascends-of_validate ids valid)))
unpack-pack_tile_index_block TileIndexMode.bitset base ids bs h =
    let (_, _, h1) = >>=-eq-ok (validate_tile_ids ids) _ h in
    let (_, valid, h2) = >>=-eq-ok (validate_strictly_increasing_tile_ids ids) _ h1 in
    let read = bit_indices-pack_bitset ids bs (Ascends-of_validate ids valid) h2 in
    rw (read, ==_self (length ids) (length ids) refl) refl
