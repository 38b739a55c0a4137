-- ===== src/Body/Typed/RoundTrip.antt =====
-- core/packet.py: typed payload frames and their descriptor table.
use nnrp_py.Common.{
  ℕ, ◌+◌, ◌≤◌, ◌≡◌, refl, ap, List, [], ◌∷◌, ◌++◌, ◌==◌, ==_self, not, bit_and, length,
  length-append, take, drop, take-append, drop-append, append_assoc, map, ok, >>=-eq-ok, require,
  from_ok, arith,
}
use nnrp_py.Struct.{Bytes}
use nnrp_py.Metadata.Coerce.{is_single_bit}
use nnrp_py.Metadata.TypedPayload
use nnrp_py.Metadata.TypedPayload.{TypedPayloadDescriptor}
use nnrp_py.Body.Table.{unpack_table-pack_table}
use nnrp_py.Body.Tables.{
  pack_typed_payload_descriptors, unpack_typed_payload_descriptors, typed_payload_laws,
}
use nnrp_py.Body.Offsets.{InOrder, accepted_iff}
use nnrp_py.Body.Typed.{
  TypedPayloadFrame, descriptor_at, build_typed_payload_frame, place_frames,
  pack_typed_payload_frames, span, kind_union, validate_typed_payload_kind_union, frame_at,
  unpack_typed_payload_frames,
}

build_same : (f g : TypedPayloadFrame) → build_typed_payload_frame f ≡ ok g → f ≡ g
unfolding build_typed_payload_frame
build_same f g h =
    let (_, single, h1) = >>=-eq-ok (require (is_single_bit f.payload_kind)) _ h in
    let (_, other, h2) = >>=-eq-ok (require (not (f.payload_kind == 0x01))) _ h1 in
    let (_, valid, h3) = >>=-eq-ok (TypedPayload.check (descriptor_at 0 f)) _ h2 in from_ok f g h3

-- The descriptors and the region of the frames placed from `offset` on.
abbrev pub placed : ℕ → List TypedPayloadFrame → List TypedPayloadDescriptor
placed offset [] = []
placed offset (f ∷ fs) = descriptor_at offset f ∷ placed (offset + length f.payload) fs

abbrev joined : List TypedPayloadFrame → Bytes
joined [] = []
joined (f ∷ fs) = f.payload ++ joined fs

place_frames_inv :
    (offset : ℕ) (fs : List TypedPayloadFrame) (ds : List TypedPayloadDescriptor) (region : Bytes)
    → place_frames offset fs ≡ ok (ds, region)
    → (placed offset fs ≡ ds) × (joined fs ≡ region)
unfolding place_frames
place_frames_inv offset [] ds region h =
    let same = from_ok ([], []) (ds, region) h in
    (
      ap (λ (p : List TypedPayloadDescriptor × Bytes). p.0) same,
      ap (λ (p : List TypedPayloadDescriptor × Bytes). p.1) same,
    )
place_frames_inv offset (f ∷ fs) ds region h =
    let (g, built, h1) = >>=-eq-ok (build_typed_payload_frame f) _ h in
    let (_, valid, h2) = >>=-eq-ok (TypedPayload.check (descriptor_at offset g)) _ h1 in
    let ((ds', region'), rest, h3) = >>=-eq-ok (place_frames (offset + length g.payload) fs) _ h2 in
    let f_is : f ≡ g = build_same f g built in
    let (ds_is, region_is) = place_frames_inv (offset + length g.payload) fs ds' region' rest in
    let same = from_ok (descriptor_at offset g ∷ ds', g.payload ++ region') (ds, region) h3 in
    (
      rw (f_is, ds_is) (ap (λ (p : List TypedPayloadDescriptor × Bytes). p.0) same),
      rw (f_is, region_is) (ap (λ (p : List TypedPayloadDescriptor × Bytes). p.1) same),
    )

placed-InOrder :
    (offset region : ℕ) (fs : List TypedPayloadFrame)
    → offset + length (joined fs) ≤ region
    → InOrder offset region (map span (placed offset fs))
placed-InOrder offset region [] h = tt
placed-InOrder offset region (f ∷ fs) h =
    let size = length-append f.payload (joined fs) in
    (omega arith, omega arith, placed-InOrder (offset + length f.payload) region fs (omega arith))

-- Behind any bytes that fill the region up to the offset, the frames are cut out again.
frames_at-placed :
    (before : Bytes) (offset : ℕ) (fs : List TypedPayloadFrame)
    → offset ≡ length before
    → map (frame_at (before ++ joined fs)) (placed offset fs) ≡ fs
frames_at-placed before offset [] h = refl
frames_at-placed before offset (f ∷ fs) h =
    let front : drop offset (before ++ (f.payload ++ joined fs)) ≡ f.payload ++ joined fs =
      drop-append offset before _ h in
    let cut : take (length f.payload) (f.payload ++ joined fs) ≡ f.payload =
      take-append (length f.payload) f.payload _ refl in
    let further : offset + length f.payload ≡ length (before ++ f.payload) =
      omega (arith, length-append before f.payload) in
    let flat : (before ++ f.payload) ++ joined fs ≡ before ++ (f.payload ++ joined fs) =
      append_assoc before f.payload (joined fs) in
    let ih = frames_at-placed (before ++ f.payload) (offset + length f.payload) fs further in
    rw (front, cut) (ap (λ l. f ∷ l) (rw flat at ih))

-- Frames that pack are read back whole from their table and region, under every bitmap whose bits
-- of the six known kinds other than TENSOR are the union of their kinds.
pub unpack-pack_frames :
    (frames : List TypedPayloadFrame) (table region : Bytes) (payload_kind_bitmap : ℕ)
    → kind_union (placed 0 frames) 0 ≡ bit_and payload_kind_bitmap 0x7e
    → pack_typed_payload_frames frames ≡ ok (table, region)
    → unpack_typed_payload_frames table region payload_kind_bitmap ≡ ok frames
unfolding pack_typed_payload_frames unpack_typed_payload_frames validate_typed_payload_kind_union
unpack-pack_frames frames table region bitmap union h =
    let ((ds, reg), found, h1) = >>=-eq-ok (place_frames 0 frames) _ h in
    let (tab, packed, h2) = >>=-eq-ok (pack_typed_payload_descriptors ds) _ h1 in
    let same = from_ok (tab, reg) (table, region) h2 in
    let table_is : tab ≡ table = ap (λ (p : Bytes × Bytes). p.0) same in
    let region_is : reg ≡ region = ap (λ (p : Bytes × Bytes). p.1) same in
    let (ds_is, joined_is) = place_frames_inv 0 frames ds reg found in
    let read : unpack_typed_payload_descriptors tab ≡ ok ds =
      unfold pack_typed_payload_descriptors unpack_typed_payload_descriptors in
      unpack_table-pack_table typed_payload_laws ds tab packed in
    let ordered =
      (accepted_iff (length (joined frames)) (map span (placed 0 frames))).1
        (placed-InOrder 0 (length (joined frames)) frames (omega arith)) in
    rw (← table_is, read, ← region_is, ← joined_is, ← ds_is, ordered, ==_self _ _ union)
      (ap ok (frames_at-placed [] 0 frames refl))
