-- ===== src/Body/Regions/RoundTrip.antt =====
-- core/packet.py: `pack_body` and `unpack_body` together.
use nnrp_py.Common.{
  ℕ, ◌+◌, ◌≡◌, refl, sym, ap, subst, List, [], ◌∷◌, ◌++◌, ==_self, ◌==◌, leb, take, require, le→leb,
  length, length-append, take-append, ok, ◌>>◌, >>=-eq-ok, from_ok, arith,
}
use nnrp_py.Struct.{Bytes}
use nnrp_py.Metadata
use nnrp_py.Metadata.BodyRegionPrelude
use nnrp_py.Body.Slices.{concat, slices, slices-concat}
use nnrp_py.Body.Regions.{
  Regions, BodyView, cut_regions, body_end, region_list, prelude_of, pack_body, check_regions,
  unpack_body,
}

-- The list of the slices, read as the regions.
abbrev of_list : Regions → List Bytes → Regions
of_list r (a ∷ b ∷ c ∷ d ∷ e ∷ f ∷ []) = record {
  inline_object_region = a;
  object_reference_region = b;
  typed_payload_descriptor_region = c;
  typed_payload_frame_region = d;
  extension_descriptor_region = e;
  extension_payload_region = f;
}
of_list r _ = r

abbrev sizes : List Bytes → ℕ
sizes [] = 0
sizes (r ∷ rs) = length r + sizes rs

length-concat : (rs : List Bytes) → length (concat rs) ≡ sizes rs
length-concat [] = refl
length-concat (r ∷ rs) = omega (arith, length-append r (concat rs), length-concat rs)

-- A packed body unpacks to its prelude and its regions exactly when the regions pass the checks
-- that unpacking makes of them, and it raises what those checks raise.
pub unpack-pack_body :
    (r : Regions) (bs : Bytes)
    → pack_body r ≡ ok bs
    → unpack_body bs ≡ (check_regions r >> ok (record { prelude = prelude_of r; regions = r }))
unfolding pack_body unpack_body
unpack-pack_body r bs e =
    let (_, valid, e1) = >>=-eq-ok (BodyRegionPrelude.check (prelude_of r)) _ e in
    let (packed, wrote, e2) =
      >>=-eq-ok (Metadata.pack BodyRegionPrelude.codec (prelude_of r)) _ e1 in
    let size_is : length packed ≡ 32 =
      Metadata.length-pack BodyRegionPrelude.codec (prelude_of r) packed wrote in
    let whole : Bytes = packed ++ concat (region_list r) in
    let size = length-append packed (concat (region_list r)) in
    let sum = length-concat (region_list r) in
    let read =
      Metadata.unpack-pack BodyRegionPrelude.codec (prelude_of r) packed
        (BodyRegionPrelude.from_tuple-to_tuple (prelude_of r) valid) wrote in
    let cut : of_list r (slices 32 (region_list r) whole) ≡ r =
      ap (of_list r) (slices-concat 32 (region_list r) packed (sym size_is)) in
    rw (
      ← from_ok _ _ e2,
      le→leb 32 (length whole) (omega arith),
      take-append 32 packed (concat (region_list r)) (sym size_is),
      read,
      ==_self
          (32
            + length r.inline_object_region
            + length r.object_reference_region
            + length r.typed_payload_descriptor_region
            + length r.typed_payload_frame_region
            + length r.extension_descriptor_region
            + length r.extension_payload_region)
          (length whole) (omega arith),
      cut,
    )

-- The regions of a body that was unpacked have passed the checks.
pub check_regions-unpack_body :
    (bs : Bytes) (view : BodyView) → unpack_body bs ≡ ok view → check_regions view.regions ≡ ok tt
unfolding unpack_body
check_regions-unpack_body bs view h =
    let (_, _, h1) = >>=-eq-ok (require (leb 32 (length bs))) _ h in
    let (prelude, _, h2) = >>=-eq-ok (Metadata.unpack BodyRegionPrelude.codec (take 32 bs)) _ h1 in
    let (_, _, h3) = >>=-eq-ok (require (body_end prelude == length bs)) _ h2 in
    let (_, checked, h4) = >>=-eq-ok (check_regions (cut_regions prelude bs)) _ h3 in
    subst (λ w. check_regions w.regions ≡ ok tt) (from_ok _ view h4) checked
