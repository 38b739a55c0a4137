-- ===== src/Body/Contracts/Submit.antt =====
-- core/packet.py: what an accepted FRAME_SUBMIT body references and carries.
use nnrp_py.Common.{
  ℕ, ◌≡◌, refl, ap, ◌∙◌, Bool, true, false, ◌&&◌, not, ◌≤◌, List, [], ◌∷◌, length, leb, leb→le,
  ◌==◌, ==_iff, has_bit, bits_outside, if◌then◌else◌, ok, >>=-eq-ok, require, require-eq-ok,
  from_ok, All, arith,
}
use nnrp_py.Metadata.ControlEnums.{CacheObjectKind, cache_object_kind_value}
use nnrp_py.Metadata.FrameSubmit.{FrameSubmitMetadata}
use nnrp_py.Metadata.ObjectReference.{ObjectReferenceBlock}
use nnrp_py.Body.Inline.{InlineObjectBlockView, unpack_inline_object_blocks}
use nnrp_py.Body.Tables.{unpack_object_reference_blocks}
use nnrp_py.Body.Regions.{BodyView}
use nnrp_py.Body.Contracts.{
  inline_of, references_of, is_empty, check_matches, check_reference_mode, slots_loop, kinds_of,
  same_kinds, standard_reference_slots, known_object_ref_mask, is_mode,
  validate_frame_submit_object_contract,
}
use nnrp_py.Metadata.DataEnums.{SubmitMode}

-- The kinds of the bits of a mask, in the order of the slots.
abbrev pub kinds_in : ℕ → List (ℕ × CacheObjectKind) → List ℕ
kinds_in mask [] = []
kinds_in mask ((bit, kind) ∷ slots) =
    let rest = kinds_in mask slots in
    if has_bit mask bit then cache_object_kind_value kind ∷ rest else rest

-- A slot whose bit is set has one reference and nothing inline, and no reference otherwise; it has
-- one inline block at most.
abbrev pub Slot :
    ℕ → List InlineObjectBlockView → List ObjectReferenceBlock → ℕ × CacheObjectKind → Type 0
Slot mask inlines references (bit, kind) =
    (length (references_of kind references) ≡ (if has_bit mask bit then 1 else 0))
    × (length (inline_of kind inlines) ≤ (if has_bit mask bit then 0 else 1))

abbrev pub values_of : List CacheObjectKind → List ℕ
values_of [] = []
values_of (kind ∷ kinds) = cache_object_kind_value kind ∷ values_of kinds

same_kinds→eq :
    (kinds others : List CacheObjectKind)
    → same_kinds kinds others ≡ true
    → values_of kinds ≡ values_of others
same_kinds→eq [] [] h = refl
same_kinds→eq [] (b ∷ others) h = cc
same_kinds→eq (a ∷ kinds) [] h = cc
same_kinds→eq (a ∷ kinds) (b ∷ others) h =
    let rest : values_of kinds ≡ values_of others = same_kinds→eq kinds others (ground arith) in
    let first : cache_object_kind_value a ≡ cache_object_kind_value b = ground arith in
    rw (first, rest)

length_of_empty : {A : Type 0} (xs : List A) → is_empty xs ≡ true → length xs ≡ 0
length_of_empty [] h = refl
length_of_empty (x ∷ xs) h = cc

values_if :
    (set : Bool) (kind : CacheObjectKind) (rest : List CacheObjectKind) (kinds : List ℕ)
    → values_of rest ≡ kinds
    → values_of (if set then kind ∷ rest else rest)
      ≡ (if set then cache_object_kind_value kind ∷ kinds else kinds)
values_if true kind rest kinds h = ap (λ l. cache_object_kind_value kind ∷ l) h
values_if false kind rest kinds h = h

matches_are :
    (set : Bool) (inlines : List InlineObjectBlockView) (references : List ObjectReferenceBlock)
    → check_matches set inlines references ≡ ok tt
    → length inlines ≤ 1
    → (length references ≡ (if set then 1 else 0)) × (length inlines ≤ (if set then 0 else 1))
unfolding check_matches
matches_are true inlines references h few =
    let (_, none_inline, h1) = >>=-eq-ok (require (is_empty inlines)) _ h in
    let one = require-eq-ok (length references == 1) h1 in
    ((==_iff _ _).0 one, omega (arith, length_of_empty inlines (require-eq-ok _ none_inline)))
matches_are false inlines references h few = (length_of_empty references (require-eq-ok _ h), few)

slots_loop-Slot :
    (mask : ℕ) (inlines : List InlineObjectBlockView) (references : List ObjectReferenceBlock)
    (slots : List (ℕ × CacheObjectKind)) (expected : List CacheObjectKind)
    → slots_loop mask inlines references slots ≡ ok expected
    → (values_of expected ≡ kinds_in mask slots) × All (Slot mask inlines references) slots
unfolding slots_loop
slots_loop-Slot mask inlines references [] expected h = rw (← from_ok [] expected h) (refl, tt)
slots_loop-Slot mask inlines references ((bit, kind) ∷ slots) expected h =
    let mine = inline_of kind inlines in
    let theirs = references_of kind references in
    let (_, few, h1) = >>=-eq-ok (require (leb (length mine) 1)) _ h in
    let (_, _, h2) = >>=-eq-ok (require (leb (length theirs) 1)) _ h1 in
    let (_, matched, h3) = >>=-eq-ok (check_matches (has_bit mask bit) mine theirs) _ h2 in
    let (rest, looped, h4) = >>=-eq-ok (slots_loop mask inlines references slots) _ h3 in
    let (values, slots_are) = slots_loop-Slot mask inlines references slots rest looped in
    let slot =
      matches_are (has_bit mask bit) mine theirs matched (leb→le _ 1 (require-eq-ok _ few)) in
    (
      rw (← from_ok _ expected h4) (values_if (has_bit mask bit) kind rest _ values),
      (slot, slots_are),
    )

-- What an accepted FRAME_SUBMIT body carries: the mask has no bit but the four of the standard
-- objects, the region of references holds one reference for each bit that is set, in the order of
-- the bits, and nothing else, and no standard object is there twice or both ways.
pub references-of_accepted_submit :
    (m : FrameSubmitMetadata) (body_view : BodyView)
    → validate_frame_submit_object_contract m body_view ≡ ok tt
    → (inlines : List InlineObjectBlockView) × (references : List ObjectReferenceBlock)
      × (unpack_inline_object_blocks body_view.regions.inline_object_region ≡ ok inlines)
      × (unpack_object_reference_blocks body_view.regions.object_reference_region ≡ ok references)
      × (bits_outside m.object_ref_mask known_object_ref_mask ≡ 0)
      × (values_of (kinds_of references) ≡ kinds_in m.object_ref_mask standard_reference_slots)
      × All (Slot m.object_ref_mask inlines references) standard_reference_slots
unfolding validate_frame_submit_object_contract
references-of_accepted_submit m body_view h =
    let mask = m.object_ref_mask in
    let (_, known, h1) = >>=-eq-ok (require (bits_outside mask known_object_ref_mask == 0)) _ h in
    let (inlines, read, h2) =
      >>=-eq-ok (unpack_inline_object_blocks body_view.regions.inline_object_region) _ h1 in
    let (references, referred, h3) =
      >>=-eq-ok (unpack_object_reference_blocks body_view.regions.object_reference_region) _ h2 in
    let (_, _, h4) =
      >>=-eq-ok (require (not (is_mode SubmitMode.inline m && not (mask == 0)))) _ h3 in
    let (_, _, h5) =
      >>=-eq-ok (require (not (is_mode SubmitMode.inline m && not (is_empty references)))) _ h4 in
    let (expected, looped, h6) =
      >>=-eq-ok (slots_loop mask inlines references standard_reference_slots) _ h5 in
    let (_, _, h7) = >>=-eq-ok (check_reference_mode m inlines) _ h6 in
    let (_, same, h8) = >>=-eq-ok (require (same_kinds (kinds_of references) expected)) _ h7 in
    let (values, slots) =
      slots_loop-Slot mask inlines references standard_reference_slots expected looped in
    (
      inlines,
      references,
      read,
      referred,
      (==_iff _ _).0 (require-eq-ok _ known),
      same_kinds→eq (kinds_of references) expected (require-eq-ok _ same) ∙ values,
      slots,
    )
