-- ===== src/Body/Inline/RoundTrip.antt =====
-- core/packet.py: inline object blocks, alone and one behind the other in their region.
use nnrp_py.Common.{
  ℕ, ◌+◌, ◌-◌, ◌≤◌, ◌<◌, ◌≡◌, refl, sym, ap, ◌∙◌, some, List, [], ◌∷◌, ◌++◌, ◌==◌, ==_self, ==_iff,
  leb, le→leb, leb→le, length, length-append, length-replicate, take, drop, take-append,
  drop-append, take-append_le, take_all, append_assoc, zeros, all_zero-zeros, Result, ok, ◌>>=◌,
  >>=-eq-ok, require, require-eq-ok, from_ok, All, arith,
}
use nnrp_py.Struct.{Bytes}
use nnrp_py.Stream.{write_all, keep_all}
use nnrp_py.Stream.RoundTrip.{Inverts, read_all-write_all}
use nnrp_py.Metadata
use nnrp_py.Metadata.InlineObjectBlock
use nnrp_py.Metadata.InlineObjectBlock.{InlineObjectBlockHeader}
use nnrp_py.Body.Slices.{slice}
use nnrp_py.Body.Inline.{
  InlineObjectBlockView, align_up, pack_inline_object_block, unpack_inline_object_block, read_block,
  split_inline_object_region, unpack_each, unpack_inline_object_blocks,
}

pub align_up_bounds : (n : ℕ) → (n ≤ align_up n) × (align_up n < n + 8)
unfolding align_up
align_up_bounds n = omega arith

-- What `pack_inline_object_block` has checked, and its three parts.
pack_block_inv :
    (h : InlineObjectBlockHeader) (payload block : Bytes)
    → pack_inline_object_block h payload ≡ ok block
    → (packed : Bytes) × (Metadata.pack InlineObjectBlock.codec h ≡ ok packed)
      × (length packed ≡ 16)
      × (length payload ≡ h.object_bytes)
      × (packed ++ (payload ++ zeros (align_up (16 + h.object_bytes) - (16 + h.object_bytes)))
          ≡ block)
unfolding pack_inline_object_block
pack_block_inv h payload block e =
    let (_, same, e1) = >>=-eq-ok (require (length payload == h.object_bytes)) _ e in
    let (packed, wrote, e2) = >>=-eq-ok (Metadata.pack InlineObjectBlock.codec h) _ e1 in
    let size_is : length packed ≡ 16 =
      Metadata.length-pack InlineObjectBlock.codec h packed wrote in
    let payload_is : length payload ≡ h.object_bytes = ground arith in
    let buffer_is : length (packed ++ payload) ≡ 16 + h.object_bytes =
      omega (arith, length-append packed payload) in
    let pad = zeros (align_up (16 + h.object_bytes) - (16 + h.object_bytes)) in
    (
      packed,
      wrote,
      size_is,
      payload_is,
      sym (append_assoc packed payload pad) ∙ rw buffer_is at (from_ok _ _ e2),
    )

-- A block of a valid header is read back whole.
pub unpack-pack_block :
    (h : InlineObjectBlockHeader) (payload block : Bytes)
    → InlineObjectBlock.check h ≡ ok tt
    → pack_inline_object_block h payload ≡ ok block
    → unpack_inline_object_block block ≡ ok (record { header = h; payload = payload })
unfolding unpack_inline_object_block
unpack-pack_block h payload block valid e =
    let (packed, wrote, size_is, payload_is, block_is) = pack_block_inv h payload block e in
    let end : ℕ = 16 + h.object_bytes in
    let pad : Bytes = zeros (align_up end - end) in
    let bounds = align_up_bounds end in
    let pad_len : length pad ≡ align_up end - end = length-replicate (align_up end - end) 0 in
    let whole : Bytes = packed ++ (payload ++ pad) in
    let total : length whole ≡ align_up end =
      omega (arith, length-append packed (payload ++ pad), length-append payload pad) in
    let read =
      Metadata.unpack-pack InlineObjectBlock.codec h packed
        (InlineObjectBlock.from_tuple-to_tuple h valid) wrote in
    let after : drop 16 whole ≡ payload ++ pad =
      drop-append 16 packed (payload ++ pad) (sym size_is) in
    let width : 16 + h.object_bytes - 16 ≡ h.object_bytes = omega arith in
    let payload_cut : slice 16 end whole ≡ payload =
      rw (after, width) (take-append h.object_bytes payload pad (sym payload_is)) in
    let front : length (packed ++ payload) ≡ end = omega (arith, length-append packed payload) in
    let at_pad : drop end whole ≡ pad =
      ap (drop end) (sym (append_assoc packed payload pad))
      ∙ drop-append end (packed ++ payload) pad (sym front) in
    let pad_cut : slice end (align_up end) whole ≡ pad =
      rw at_pad (take_all (align_up end - end) pad (omega arith)) in
    rw (
      ← block_is,
      le→leb 16 (length whole) (omega arith),
      take-append 16 packed (payload ++ pad) (sym size_is),
      read,
      le→leb end (length whole) (omega arith),
      ==_self _ _ total,
      pad_cut,
      all_zero-zeros (align_up end - end),
      payload_cut,
    )

-- A block that unpacks is what `read_block` takes off the front of a region.
abbrev write_block : Bytes → Result Bytes
write_block block = unpack_inline_object_block block >>= λ view. ok block

block-Inverts : Inverts read_block write_block
unfolding read_block unpack_inline_object_block
block-Inverts = record {
  read-write = λ block bs rest e.
      let (view, opened, e1) = >>=-eq-ok (unpack_inline_object_block block) _ e in
      let (_, wide, e2) = >>=-eq-ok (require (leb 16 (length block))) _ opened in
      let (header, read, e3) =
        >>=-eq-ok (Metadata.unpack InlineObjectBlock.codec (take 16 block)) _ e2 in
      let (_, holds, e4) =
        >>=-eq-ok (require (leb (16 + header.object_bytes) (length block))) _ e3 in
      let (_, exact, e5) =
        >>=-eq-ok (require (length block == align_up (16 + header.object_bytes))) _ e4 in
      let total : length block ≡ align_up (16 + header.object_bytes) =
        (==_iff _ _).0 (require-eq-ok _ exact) in
      let wide_is = leb→le 16 (length block) (require-eq-ok _ wide) in
      rw (
        ← from_ok block bs e1,
        le→leb 16 (length (block ++ rest)) (omega (arith, length-append block rest)),
        take-append_le 16 block rest wide_is,
        read,
        ← total,
        le→leb (length block) (length (block ++ rest)) (omega (arith, length-append block rest)),
        take-append (length block) block rest refl,
        drop-append (length block) block rest refl,
      );
  length-write = λ block bs e.
      let (view, opened, e1) = >>=-eq-ok (unpack_inline_object_block block) _ e in
      let (_, wide, e2) = >>=-eq-ok (require (leb 16 (length block))) _ opened in
      let wide_is = leb→le 16 (length block) (require-eq-ok _ wide) in
      rw (← from_ok block bs e1) (omega arith);
}

abbrev pub pack_view : InlineObjectBlockView → Result Bytes
pack_view v = pack_inline_object_block v.header v.payload

keep_all-some : (blocks : List Bytes) → keep_all (λ block. ok (some block)) blocks ≡ ok blocks
unfolding keep_all
keep_all-some [] = refl
keep_all-some (block ∷ blocks) = rw (keep_all-some blocks)

-- The blocks that a region is joined from, each of which unpacks.
written_blocks :
    (views : List InlineObjectBlockView) (region : Bytes)
    → All (λ v. InlineObjectBlock.check v.header ≡ ok tt) views
    → write_all pack_view views ≡ ok region
    → (blocks : List Bytes) × (write_all write_block blocks ≡ ok region)
      × (unpack_each blocks ≡ ok views)
unfolding write_all unpack_each
written_blocks [] region valid e = ([], e, refl)
written_blocks (v ∷ vs) region valid e =
    let (block, wrote, e1) = >>=-eq-ok (pack_view v) _ e in
    let (others, wrote_others, e2) = >>=-eq-ok (write_all pack_view vs) _ e1 in
    let (blocks, joined, opened) = written_blocks vs others valid.1 wrote_others in
    let view = unpack-pack_block v.header v.payload block valid.0 wrote in
    (block ∷ blocks, rw (view, joined) e2, rw (view, opened))

-- Views with valid headers, each packed and all joined, are unpacked from the region as they were.
pub unpack-pack_blocks :
    (views : List InlineObjectBlockView) (region : Bytes)
    → All (λ v. InlineObjectBlock.check v.header ≡ ok tt) views
    → write_all pack_view views ≡ ok region
    → unpack_inline_object_blocks region ≡ ok views
unfolding unpack_inline_object_blocks split_inline_object_region
unpack-pack_blocks views region valid e =
    let (blocks, joined, opened) = written_blocks views region valid e in
    rw (
      read_all-write_all block-Inverts (λ block. ok (some block)) blocks region joined,
      keep_all-some blocks,
      opened,
    )
