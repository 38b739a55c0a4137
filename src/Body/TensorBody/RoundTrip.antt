-- ===== src/Body/TensorBody/RoundTrip.antt =====
-- core/packet.py: the sections that `_pack_section_sequence` packs and `_pack_tensor_section_region`
-- joins, read by `unpack_tensor_body`.
use nnrp_py.Common.{
  ℕ, suc, ◌+◌, ◌-◌, ◌≤◌, ◌<◌, ◌≡◌, All, refl, sym, ap, ◌∙◌, Option, none, some, List, [], ◌∷◌, ◌++◌,
  append-nil, append_assoc, false, length, length-append, length-replicate, length-drop, drop,
  drop-drop, take-append, drop-append, le→leb, ◌==◌, ==_self, zeros, all_zero-zeros, ok, >>=-eq-ok,
  from_ok, require, if◌then◌else◌, arith,
}
use nnrp_py.Struct.{Bytes}
use nnrp_py.Body.Inline.{align_up}
use nnrp_py.Body.Inline.RoundTrip.{align_up_bounds}
use nnrp_py.Body.Sections.{
  TensorSectionView, TensorSectionData, tile_lengths, payload_slices, parse_tensor_section,
  pack_tensor_section_data, build_codec_table,
}
use nnrp_py.Body.Sections.Blob.{lengths_of, length-lengths_of}
use nnrp_py.Body.Sections.RoundTrip.{
  parse-pack_tensor_section_data, length-pack_tensor_section_data,
}
use nnrp_py.Body.TensorBody.{
  is_above, pack_section_sequence, region_loop, pack_tensor_section_region, check_tile_count,
  skip_padding, sections_loop, unpack_tensor_body,
}

-- What follows `n` bytes when sections are added.
abbrev tail_of : ℕ → List Bytes → Bytes
tail_of n [] = []
tail_of n (s ∷ ss) = zeros (align_up n - n) ++ (s ++ tail_of (align_up n + length s) ss)

pad_len : (n : ℕ) → length (zeros (align_up n - n)) ≡ align_up n - n
pad_len n = length-replicate {A = ℕ} (align_up n - n) 0

region_loop_tail :
    (buffer : Bytes) (ss : List Bytes)
    → region_loop buffer ss ≡ buffer ++ tail_of (length buffer) ss
unfolding region_loop
region_loop_tail buffer [] = sym (append-nil buffer)
region_loop_tail buffer (s ∷ ss) =
    let pad = zeros (align_up (length buffer) - length buffer) in
    let padded = pad_len (length buffer) in
    let bounds = align_up_bounds (length buffer) in
    let size : length ((buffer ++ pad) ++ s) ≡ align_up (length buffer) + length s =
      omega (arith, length-append (buffer ++ pad) s, length-append buffer pad) in
    let rest : Bytes = tail_of (align_up (length buffer) + length s) ss in
    region_loop_tail ((buffer ++ pad) ++ s) ss
    ∙ (rw size (append_assoc (buffer ++ pad) s rest ∙ append_assoc buffer pad (s ++ rest)))

skip_padding-zeros :
    (view : Bytes) (cursor : ℕ) (s : Bytes) (ss : List Bytes)
    → 0 < length s
    → drop cursor view ≡ tail_of cursor (s ∷ ss)
    → (skip_padding view cursor ≡ ok (align_up cursor))
      × (drop (align_up cursor) view ≡ s ++ tail_of (align_up cursor + length s) ss)
unfolding skip_padding
skip_padding-zeros view cursor s ss some_bytes h =
    let bounds = align_up_bounds cursor in
    let rest : Bytes = s ++ tail_of (align_up cursor + length s) ss in
    let pad : Bytes = zeros (align_up cursor - cursor) in
    let room : align_up cursor ≤ length view = omega (
      arith,
      ap length h,
      length-drop cursor view,
      length-append pad rest,
      pad_len cursor,
      length-append s (tail_of (align_up cursor + length s) ss),
    ) in
    let sum : cursor + (align_up cursor - cursor) ≡ align_up cursor = omega arith in
    (
      rw (
        le→leb (align_up cursor) (length view) room,
        h,
        take-append (align_up cursor - cursor) pad rest (sym (pad_len cursor)),
        all_zero-zeros (align_up cursor - cursor),
      ),
      ap (λ n. drop n view) (sym sum)
          ∙ sym (drop-drop cursor (align_up cursor - cursor) view)
          ∙ ap (drop (align_up cursor - cursor)) h
          ∙ drop-append (align_up cursor - cursor) pad rest (sym (pad_len cursor)),
    )

-- The sections from a cursor on, the first of which begins there.
abbrev from_cursor : ℕ → List Bytes → Bytes
from_cursor n [] = []
from_cursor n (s ∷ ss) = s ++ tail_of (n + length s) ss

packed_sizes :
    (tile_count : ℕ) (previous : Option ℕ) (sections : List TensorSectionData) (packed : List Bytes)
    → pack_section_sequence tile_count previous sections ≡ ok packed
    → All (λ p. 0 < length p) packed × (length packed ≡ length sections)
unfolding pack_section_sequence
packed_sizes tile_count previous [] packed h = rw (← from_ok [] packed h) (tt, refl)
packed_sizes tile_count previous (s ∷ sections) packed h =
    let (_, _, h1) = >>=-eq-ok (require (is_above previous s.role_id)) _ h in
    let (_, _, h2) = >>=-eq-ok (require (length s.tile_payloads == tile_count)) _ h1 in
    let (p, wrote, h3) = >>=-eq-ok (pack_tensor_section_data s) _ h2 in
    let (others, wrote_others, h4) =
      >>=-eq-ok (pack_section_sequence tile_count (some s.role_id) sections) _ h3 in
    let (sizes, count) = packed_sizes tile_count (some s.role_id) sections others wrote_others in
    let wide = length-pack_tensor_section_data s p wrote in
    rw (← from_ok _ packed h4) ((omega arith, sizes), ap suc count)

suc-not_zero : (n : ℕ) → (suc n == 0) ≡ false
suc-not_zero n = ground arith

-- Where the loop goes on behind a section.
advance :
    (view : Bytes) (cursor : ℕ) (ss : List Bytes)
    → All (λ p. 0 < length p) ss
    → cursor ≤ length view
    → drop cursor view ≡ tail_of cursor ss
    → (next : ℕ) × ((if length ss == 0 then ok cursor else skip_padding view cursor) ≡ ok next)
      × (next ≤ length view)
      × (drop next view ≡ from_cursor next ss)
advance view cursor [] sizes inside h = (cursor, refl, inside, h)
advance view cursor (s ∷ ss) (size, sizes) inside h =
    let (skipped, left) = skip_padding-zeros view cursor s ss size h in
    let found : 0 < length (drop (align_up cursor) view) =
      omega (arith, ap length left, length-append s (tail_of (align_up cursor + length s) ss)) in
    (
      align_up cursor,
      rw (suc-not_zero (length ss)) skipped,
      omega (arith, length-drop (align_up cursor) view),
      left,
    )

-- A view that reads as the section does: its role, its codecs, its tiles.
abbrev pub Reads : TensorSectionData → TensorSectionView → Type 0
Reads s v =
    (v.desc.role_id ≡ s.role_id)
    × (build_codec_table s.default_codec_id (length s.tile_payloads) s.codec_ids ≡ ok v.codec_table)
    × (payload_slices v ≡ ok s.tile_payloads)

abbrev pub ReadAll : List TensorSectionData → List TensorSectionView → Type 0
ReadAll [] [] = Unit
ReadAll (s ∷ sections) (v ∷ views) = Reads s v × ReadAll sections views
ReadAll _ _ = ⊥

loop_round :
    (view : Bytes) (count : Option ℕ) (left cursor : ℕ) (previous : Option ℕ)
    (v : TensorSectionView) (consumed next end : ℕ) (views : List TensorSectionView)
    → parse_tensor_section (drop cursor view) ≡ ok (v, consumed)
    → require (is_above previous v.desc.role_id) ≡ ok tt
    → check_tile_count count v ≡ ok tt
    → (if left == 0 then ok (cursor + consumed) else skip_padding view (cursor + consumed))
      ≡ ok next
    → sections_loop view count left next (some v.desc.role_id) ≡ ok (views, end)
    → sections_loop view count (suc left) cursor previous ≡ ok (v ∷ views, end)
unfolding sections_loop
loop_round view count left cursor previous v consumed next end views a b c d e = rw (a, b, c, d, e)

check_tile_count-read :
    (tile_count : ℕ) (s : TensorSectionData) (v : TensorSectionView)
    → require (length s.tile_payloads == tile_count) ≡ ok tt
    → tile_lengths v ≡ ok (lengths_of s.tile_payloads)
    → check_tile_count (some tile_count) v ≡ ok tt
unfolding check_tile_count
check_tile_count-read tile_count s v h lengths = rw (lengths, length-lengths_of s.tile_payloads) h

sections_loop-packed :
    (tile_count : ℕ) (previous : Option ℕ) (sections : List TensorSectionData) (packed : List Bytes)
    (view : Bytes) (cursor : ℕ)
    → pack_section_sequence tile_count previous sections ≡ ok packed
    → cursor ≤ length view
    → drop cursor view ≡ from_cursor cursor packed
    → (views : List TensorSectionView) × (sections_loop view
          (some tile_count)
          (length sections)
          cursor
          previous
        ≡ ok (views, length view))
      × ReadAll sections views
unfolding pack_section_sequence sections_loop
sections_loop-packed tile_count previous [] packed view cursor h inside at =
    let none_left : drop cursor view ≡ [] = rw (← from_ok [] packed h) at at in
    let end : cursor ≡ length view = omega (arith, ap length none_left, length-drop cursor view) in
    ([], ap (λ n. ok ([], n)) end, tt)
sections_loop-packed tile_count previous (s ∷ sections) packed view cursor h inside at =
    let (_, above, h1) = >>=-eq-ok (require (is_above previous s.role_id)) _ h in
    let (_, same_count, h2) = >>=-eq-ok (require (length s.tile_payloads == tile_count)) _ h1 in
    let (p, wrote, h3) = >>=-eq-ok (pack_tensor_section_data s) _ h2 in
    let (others, wrote_others, h4) =
      >>=-eq-ok (pack_section_sequence tile_count (some s.role_id) sections) _ h3 in
    let (sizes, count) = packed_sizes tile_count (some s.role_id) sections others wrote_others in
    let rest : Bytes = tail_of (cursor + length p) others in
    let front : drop cursor view ≡ p ++ rest = rw (← from_ok _ packed h4) at at in
    let (v, parsed, tiles, role, codecs, lengths) = parse-pack_tensor_section_data s p rest wrote in
    let left : cursor + length p ≤ length view =
      omega (arith, ap length front, length-drop cursor view, length-append p rest) in
    let behind : drop (cursor + length p) view ≡ rest =
      sym (drop-drop cursor (length p) view)
      ∙ ap (drop (length p)) front
      ∙ drop-append (length p) p rest refl in
    let (next, moved, next_inside, next_at) =
      advance view (cursor + length p) others sizes left behind in
    let (views, looped, read) =
      sections_loop-packed tile_count (some s.role_id) sections others view next wrote_others
        next_inside next_at in
    (
      v ∷ views,
      loop_round view (some tile_count) (length sections) cursor previous v (length p) next
          (length view) views (ap parse_tensor_section front ∙ parsed)
          (ap (λ r. require (is_above previous r)) role ∙ above)
          (check_tile_count-read tile_count s v same_count lengths)
          (ap
              (λ n.
                if n == 0 then ok (cursor + length p) else skip_padding view (cursor + length p))
              (sym count)
            ∙ moved)
          (ap (λ r. sections_loop view (some tile_count) (length sections) next (some r)) role
            ∙ looped),
      ((role, codecs, tiles), read),
    )

body_made :
    (view : Bytes) (section_count : ℕ) (tile_count : Option ℕ) (start : ℕ)
    (views : List TensorSectionView)
    → (if section_count == 0 then ok 0 else skip_padding view 0) ≡ ok start
    → sections_loop view tile_count section_count start none ≡ ok (views, length view)
    → unpack_tensor_body view 0 section_count tile_count
      ≡ ok (record { tile_index_block = []; sections = views })
unfolding unpack_tensor_body
body_made view section_count tile_count start views moved looped =
    rw (
      moved,
      looped,
      le→leb 0 (length view) (omega arith),
      ==_self (length view) (length view) refl,
    )

-- The sections that are packed for a number of tiles, with none or more roles in ascending order,
-- and joined with padding are unpacked as many, each as it was packed.
pub unpack-pack_tensor_body :
    (tile_count : ℕ) (sections : List TensorSectionData) (packed : List Bytes)
    → pack_section_sequence tile_count none sections ≡ ok packed
    → (views : List TensorSectionView) × (unpack_tensor_body
          (pack_tensor_section_region packed)
          0
          (length sections)
          (some tile_count)
        ≡ ok (record { tile_index_block = []; sections = views }))
      × ReadAll sections views
unfolding pack_tensor_section_region
unpack-pack_tensor_body tile_count sections packed h =
    let region : Bytes = pack_tensor_section_region packed in
    let (sizes, count) = packed_sizes tile_count none sections packed h in
    let whole : region ≡ tail_of 0 packed = region_loop_tail [] packed in
    let (start, moved, inside, at) = advance region 0 packed sizes (omega arith) whole in
    let (views, looped, read) =
      sections_loop-packed tile_count none sections packed region start h inside at in
    let from_start = ap (λ n. if n == 0 then ok 0 else skip_padding region 0) (sym count) ∙ moved in
    (
      views,
      body_made region (length sections) (some tile_count) start views from_start looped,
      read,
    )
