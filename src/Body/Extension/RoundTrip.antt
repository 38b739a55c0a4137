-- ===== src/Body/Extension/RoundTrip.antt =====
-- core/packet.py: extension frames and their descriptor table.
use nnrp_py.Common.{
  ℕ, ◌+◌, ◌≤◌, ◌≡◌, refl, Bool, false, not, ◌&&◌, ◌||◌, Option, List, [], ◌∷◌, ◌++◌, if◌then◌else◌,
  has_bit, length, length-append, take, drop, take-append, drop-append, append_assoc, map, ok, err,
  value_error, >>=-eq-ok, from_ok, arith,
}
use nnrp_py.Struct.{Bytes}
use nnrp_py.Metadata.ExtensionFrame as Descriptor
use nnrp_py.Metadata.ExtensionFrame.{ExtensionFrameDescriptor}
use nnrp_py.Body.Table.{unpack_table-pack_table}
use nnrp_py.Body.Tables.{
  pack_extension_frame_descriptors, unpack_extension_frame_descriptors, extension_frame_laws,
}
use nnrp_py.Body.Offsets.{InOrder, accepted_iff}
use nnrp_py.Body.Regions.{extension_span}
use nnrp_py.Body.Extension.{
  ExtensionFrame, extension_descriptor, build_extension_frame, place_extensions,
  pack_extension_frames, is_known_kind, take_extensions, unpack_extension_frames,
}

-- The descriptors and the region of the frames placed from `offset` on.
abbrev extensions_placed : ℕ → List ExtensionFrame → List ExtensionFrameDescriptor
extensions_placed offset [] = []
extensions_placed offset (f ∷ fs) =
    extension_descriptor offset f ∷ extensions_placed (offset + length f.payload) fs

abbrev payloads : List ExtensionFrame → Bytes
payloads [] = []
payloads (f ∷ fs) = f.payload ++ payloads fs

place_extensions_inv :
    (offset : ℕ) (fs : List ExtensionFrame) (ds : List ExtensionFrameDescriptor) (region : Bytes)
    → place_extensions offset fs ≡ ok (ds, region)
    → (extensions_placed offset fs ≡ ds) × (payloads fs ≡ region)
unfolding place_extensions build_extension_frame
place_extensions_inv offset [] ds region h = (cc h, cc h)
place_extensions_inv offset (f ∷ fs) ds region h =
    let (g, built, h1) = >>=-eq-ok (build_extension_frame f) _ h in
    let (_, valid, h2) = >>=-eq-ok (Descriptor.check (extension_descriptor offset g)) _ h1 in
    let ((rest_ds, rest_region), rest, h3) =
      >>=-eq-ok (place_extensions (offset + length g.payload) fs) _ h2 in
    let (_, _, h4) = >>=-eq-ok (Descriptor.check (extension_descriptor 0 f)) _ built in
    let f_is : f ≡ g = from_ok f g h4 in
    let (ds_is, region_is) =
      place_extensions_inv (offset + length g.payload) fs rest_ds rest_region rest in
    (rw (f_is, ds_is) (cc h3), rw (f_is, region_is) (cc h3))

extensions_placed-InOrder :
    (offset region : ℕ) (fs : List ExtensionFrame)
    → offset + length (payloads fs) ≤ region
    → InOrder offset region (map extension_span (extensions_placed offset fs))
extensions_placed-InOrder offset region [] h = tt
extensions_placed-InOrder offset region (f ∷ fs) h =
    let size = length-append f.payload (payloads fs) in
    (
      omega arith,
      omega arith,
      extensions_placed-InOrder (offset + length f.payload) region fs (omega arith),
    )

-- A frame of unknown kind that may not be skipped.
abbrev pub has_unknown_critical_frame : Option (ℕ → Bool) → List ExtensionFrame → Bool
has_unknown_critical_frame known [] = false
has_unknown_critical_frame known (f ∷ fs) =
    not (is_known_kind known f.extension_kind) && has_bit f.extension_flags 0x01
    || has_unknown_critical_frame known fs

abbrev pub known_frames : Option (ℕ → Bool) → List ExtensionFrame → List ExtensionFrame
known_frames known [] = []
known_frames known (f ∷ fs) =
    if is_known_kind known f.extension_kind
    then f ∷ known_frames known fs
    else known_frames known fs

-- Behind any bytes that fill the region up to the offset, the frames of known kinds are cut out again.
take_extensions-placed :
    (known : Option (ℕ → Bool)) (before : Bytes) (offset : ℕ) (fs : List ExtensionFrame)
    → offset ≡ length before
    → take_extensions known (before ++ payloads fs) (extensions_placed offset fs) ≡ (
        if has_unknown_critical_frame known fs then err value_error else ok (known_frames known fs))
unfolding take_extensions
take_extensions-placed known before offset [] h = refl
take_extensions-placed known before offset (f ∷ fs) h =
    let front : drop offset (before ++ (f.payload ++ payloads fs)) ≡ f.payload ++ payloads fs =
      drop-append offset before _ h in
    let cut : take (length f.payload) (f.payload ++ payloads fs) ≡ f.payload =
      take-append (length f.payload) f.payload _ refl in
    let further : offset + length f.payload ≡ length (before ++ f.payload) =
      omega (arith, length-append before f.payload) in
    let flat : (before ++ f.payload) ++ payloads fs ≡ before ++ (f.payload ++ payloads fs) =
      append_assoc before f.payload (payloads fs) in
    let ih =
      rw flat at (
        take_extensions-placed known (before ++ f.payload) (offset + length f.payload) fs
          further) in
    rw (front, cut, ih) (ground arith)

-- Extension frames that pack, read with any set of known kinds, give ValueError if one of them is of an
-- unknown kind and marked critical, and otherwise the frames of known kinds in their order.
pub unpack-pack_extension_frames :
    (known : Option (ℕ → Bool)) (frames : List ExtensionFrame) (table region : Bytes)
    → pack_extension_frames frames ≡ ok (table, region)
    → unpack_extension_frames known table region ≡ (
        if has_unknown_critical_frame known frames
        then err value_error
        else ok (known_frames known frames))
unfolding pack_extension_frames unpack_extension_frames
unpack-pack_extension_frames known frames table region h =
    let ((ds, reg), found, h1) = >>=-eq-ok (place_extensions 0 frames) _ h in
    let (tab, packed, h2) = >>=-eq-ok (pack_extension_frame_descriptors ds) _ h1 in
    let table_is : tab ≡ table = cc h2 in
    let region_is : reg ≡ region = cc h2 in
    let (ds_is, joined_is) = place_extensions_inv 0 frames ds reg found in
    let read : unpack_extension_frame_descriptors tab ≡ ok ds =
      unfold pack_extension_frame_descriptors unpack_extension_frame_descriptors in
      unpack_table-pack_table extension_frame_laws ds tab packed in
    let ordered =
      (accepted_iff (length (payloads frames)) (map extension_span (extensions_placed 0 frames))).1
        (extensions_placed-InOrder 0 (length (payloads frames)) frames (omega arith)) in
    rw (← table_is, read, ← region_is, ← joined_is, ← ds_is, ordered)
      (take_extensions-placed known [] 0 frames refl)
