-- ===== src/Body/Sections/RoundTrip.antt =====
-- core/packet.py: a tensor section that was packed, read off the front of a tensor body.
use nnrp_py.Common.{
  ◌+◌, ◌≤◌, ◌≡◌, refl, sym, ap, ◌∙◌, List, ◌++◌, append_assoc, length, length-append, take, drop,
  take-append, drop-append, le→leb, ◌==◌, ==_iff, ok, >>=-eq-ok, from_ok, require, require-eq-ok,
  arith,
}
use nnrp_py.Struct.{Bytes}
use nnrp_py.Stream.{write_all}
use nnrp_py.Metadata
use nnrp_py.Metadata.TensorSection
use nnrp_py.Metadata.TensorSection.{TensorSectionDesc}
use nnrp_py.Body.Slices.{slice, slice-middle}
use nnrp_py.Body.Sections.{
  TensorSectionView, tile_lengths, TensorSectionData, desc_of, check_section, payload_slices,
  build_tensor_section_view, pack_tensor_section, parse_tensor_section, build_codec_table,
  pack_length, build_section_payload_blob, pack_tensor_section_data,
}
use nnrp_py.Body.Sections.Blob.{lengths_of, tile_lengths-written, payload_slices-blob}

-- A view that is built holds its four parts.
pub build_view_parts :
    (d : TensorSectionDesc) (codecs lengths payload : Bytes) (v : TensorSectionView)
    → build_tensor_section_view d codecs lengths payload ≡ ok v
    → record { desc = d; codec_table = codecs; length_table = lengths; payload = payload } ≡ v
unfolding build_tensor_section_view
build_view_parts d codecs lengths payload v h =
    let (_, _, h1) = >>=-eq-ok (check_section d codecs lengths payload) _ h in from_ok _ v h1

-- The bytes of a section, cut where its descriptor says.
abbrev tables : Bytes → Bytes → Bytes → Bytes
tables codecs lengths payload = codecs ++ (lengths ++ payload)

-- What `pack_tensor_section` has checked, and the four parts that it joins.
pub pack_section_inv :
    (d : TensorSectionDesc) (codecs lengths payload bs : Bytes)
    → pack_tensor_section d codecs lengths payload ≡ ok bs
    → (v : TensorSectionView) × (slices : List Bytes) × (packed : Bytes) × (length codecs
        ≡ d.codec_table_bytes)
      × (length lengths ≡ d.length_table_bytes)
      × (length payload ≡ d.payload_bytes)
      × (build_tensor_section_view d codecs lengths payload ≡ ok v)
      × (payload_slices v ≡ ok slices)
      × (Metadata.pack TensorSection.codec d ≡ ok packed)
      × (packed ++ tables codecs lengths payload ≡ bs)
unfolding pack_tensor_section
pack_section_inv d codecs lengths payload bs h =
    let (_, a, h1) = >>=-eq-ok (require (length codecs == d.codec_table_bytes)) _ h in
    let (_, b, h2) = >>=-eq-ok (require (length lengths == d.length_table_bytes)) _ h1 in
    let (_, c, h3) = >>=-eq-ok (require (length payload == d.payload_bytes)) _ h2 in
    let (v, built, h4) = >>=-eq-ok (build_tensor_section_view d codecs lengths payload) _ h3 in
    let (slices, cut, h5) = >>=-eq-ok (payload_slices v) _ h4 in
    let (packed, wrote, h6) = >>=-eq-ok (Metadata.pack TensorSection.codec d) _ h5 in
    (
      v,
      slices,
      packed,
      (==_iff _ _).0 (require-eq-ok _ a),
      (==_iff _ _).0 (require-eq-ok _ b),
      (==_iff _ _).0 (require-eq-ok _ c),
      built,
      cut,
      wrote,
      from_ok _ bs h6,
    )

-- A section that `pack_tensor_section` wrote is taken off the front of what follows it.
pub parse-pack_tensor_section :
    (d : TensorSectionDesc) (codecs lengths payload bs rest : Bytes)
    → pack_tensor_section d codecs lengths payload ≡ ok bs
    → parse_tensor_section (bs ++ rest)
      ≡ ok (
        record { desc = d; codec_table = codecs; length_table = lengths; payload = payload },
        length bs,
      )
unfolding parse_tensor_section
parse-pack_tensor_section d codecs lengths payload bs rest h =
    let (v, cut, packed, a, b, c, built, slices, wrote, joined) =
      pack_section_inv d codecs lengths payload bs h in
    let size : length packed ≡ 32 = Metadata.length-pack TensorSection.codec d packed wrote in
    let read =
      Metadata.unpack-pack TensorSection.codec d packed (TensorSection.from_tuple-to_tuple d)
        wrote in
    let body : Bytes = tables codecs lengths payload in
    let body_len : length body ≡ d.codec_table_bytes + d.length_table_bytes + d.payload_bytes =
      omega (arith, length-append codecs (lengths ++ payload), length-append lengths payload) in
    let total : length bs ≡ 32 + (d.codec_table_bytes + d.length_table_bytes + d.payload_bytes) =
      omega (arith, ap length joined, length-append packed body) in
    let whole : bs ++ rest ≡ packed ++ (body ++ rest) =
      ap (λ l. l ++ rest) (sym joined) ∙ append_assoc packed body rest in
    let wide : 32 + (d.codec_table_bytes + d.length_table_bytes + d.payload_bytes)
        ≤ length (bs ++ rest) =
      omega (arith, length-append bs rest) in
    let tail : slice 32 (32 + (d.codec_table_bytes + d.length_table_bytes + d.payload_bytes))
          (bs ++ rest)
        ≡ body =
      rw whole (slice-middle 32 _ packed body rest (sym size) (omega arith)) in
    let codec_cut : take d.codec_table_bytes body ≡ codecs =
      take-append d.codec_table_bytes codecs (lengths ++ payload) (sym a) in
    let length_cut : slice d.codec_table_bytes (d.codec_table_bytes + d.length_table_bytes) body
        ≡ lengths =
      slice-middle _ _ codecs lengths payload (sym a) (omega arith) in
    let payload_cut : drop (d.codec_table_bytes + d.length_table_bytes) body ≡ payload =
      ap (drop (d.codec_table_bytes + d.length_table_bytes))
        (sym (append_assoc codecs lengths payload))
      ∙ drop-append _ (codecs ++ lengths) payload (omega (arith, length-append codecs lengths)) in
    let same = build_view_parts d codecs lengths payload v built in
    rw (
      le→leb 32 (length (bs ++ rest)) (omega arith),
      whole,
      take-append 32 packed (body ++ rest) (sym size),
      read,
      ← whole,
      le→leb _ _ wide,
      tail,
      codec_cut,
      length_cut,
      payload_cut,
      built,
      slices,
      same,
      total,
    )

-- A section that `pack_tensor_section_data` wrote is read off the front of what follows it: the
-- view has the section's role and codec table, and its slices are the payloads of the tiles.
pub parse-pack_tensor_section_data :
    (section : TensorSectionData) (bs rest : Bytes)
    → pack_tensor_section_data section ≡ ok bs
    → (v : TensorSectionView) × (parse_tensor_section (bs ++ rest) ≡ ok (v, length bs))
      × (payload_slices v ≡ ok section.tile_payloads)
      × (v.desc.role_id ≡ section.role_id)
      × (build_codec_table section.default_codec_id (length section.tile_payloads) section.codec_ids
          ≡ ok v.codec_table)
      × (tile_lengths v ≡ ok (lengths_of section.tile_payloads))
unfolding pack_tensor_section_data
parse-pack_tensor_section_data section bs rest h =
    let (codecs, codecs_made, h1) =
      >>=-eq-ok
        (build_codec_table section.default_codec_id (length section.tile_payloads)
          section.codec_ids)
        _ h in
    let (lengths, lengths_made, h2) =
      >>=-eq-ok (write_all pack_length section.tile_payloads) _ h1 in
    let ((blob, flags), blob_made, h3) =
      >>=-eq-ok (build_section_payload_blob section.payload_stride_bytes section.tile_payloads) _
        h2 in
    let d = desc_of section codecs lengths blob flags in
    let v : TensorSectionView = record {
      desc = d;
      codec_table = codecs;
      length_table = lengths;
      payload = blob;
    } in
    (
      v,
      parse-pack_tensor_section d codecs lengths blob bs rest h3,
      payload_slices-blob section.tile_payloads flags v lengths_made blob_made,
      refl,
      codecs_made,
      tile_lengths-written section.tile_payloads v lengths_made,
    )

-- A packed section takes at least its descriptor.
pub length-pack_tensor_section_data :
    (section : TensorSectionData) (bs : Bytes)
    → pack_tensor_section_data section ≡ ok bs
    → 32 ≤ length bs
unfolding pack_tensor_section_data
length-pack_tensor_section_data section bs h =
    let (codecs, codecs_made, h1) =
      >>=-eq-ok
        (build_codec_table section.default_codec_id (length section.tile_payloads)
          section.codec_ids)
        _ h in
    let (lengths, lengths_made, h2) =
      >>=-eq-ok (write_all pack_length section.tile_payloads) _ h1 in
    let ((blob, flags), blob_made, h3) =
      >>=-eq-ok (build_section_payload_blob section.payload_stride_bytes section.tile_payloads) _
        h2 in
    let d = desc_of section codecs lengths blob flags in
    let (v, cut, packed, a, b, c, built, slices, wrote, joined) =
      pack_section_inv d codecs lengths blob bs h3 in
    let size : length packed ≡ 32 = Metadata.length-pack TensorSection.codec d packed wrote in
    omega (arith, ap length joined, length-append packed (tables codecs lengths blob))
