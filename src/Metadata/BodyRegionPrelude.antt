-- ===== src/Metadata/BodyRegionPrelude.antt =====
-- core/messages/data.py: the prelude that gives the sizes of the six regions of a body.
use nnrp_py.Common.{
  ℕ, ◌%◌, ◌≡◌, List, [], ◌∷◌, ◌==◌, Result, ok, err, struct_error, ◌>>◌, >>=-eq-ok, require,
  from_ok, arith,
}
use nnrp_py.Struct.{Struct}
use nnrp_py.Metadata.{FixedWidth}

pub record BodyRegionPrelude : Type 0 where
  pub inline_object_bytes : ℕ
  pub object_reference_bytes : ℕ
  pub typed_payload_descriptor_bytes : ℕ
  pub typed_payload_frame_bytes : ℕ
  pub extension_descriptor_bytes : ℕ
  pub extension_payload_bytes : ℕ
  pub body_flags : ℕ
  pub reserved : ℕ

abbrev pub struct : Struct
struct = 4 ∷ 4 ∷ 4 ∷ 4 ∷ 4 ∷ 4 ∷ 4 ∷ 4 ∷ []

-- `__post_init__`
unfoldable pub check : BodyRegionPrelude → Result (Unit {0})
check m = do
  require (m.body_flags == 0)
  require (m.reserved == 0)
  require (m.object_reference_bytes % 24 == 0)
  require (m.typed_payload_descriptor_bytes % 24 == 0)
  require (m.extension_descriptor_bytes % 16 == 0)

abbrev pub to_tuple : BodyRegionPrelude → List ℕ
to_tuple m =
    m.inline_object_bytes ∷ m.object_reference_bytes ∷ m.typed_payload_descriptor_bytes
    ∷ m.typed_payload_frame_bytes ∷ m.extension_descriptor_bytes ∷ m.extension_payload_bytes
    ∷ m.body_flags ∷ m.reserved ∷ []

unfoldable pub from_tuple : List ℕ → Result BodyRegionPrelude
from_tuple
      (inline_object_bytes ∷ object_reference_bytes ∷ typed_payload_descriptor_bytes
        ∷ typed_payload_frame_bytes ∷ extension_descriptor_bytes ∷ extension_payload_bytes
        ∷ body_flags ∷ reserved ∷ []) =
    do
      let made : BodyRegionPrelude = record {
        inline_object_bytes = inline_object_bytes;
        object_reference_bytes = object_reference_bytes;
        typed_payload_descriptor_bytes = typed_payload_descriptor_bytes;
        typed_payload_frame_bytes = typed_payload_frame_bytes;
        extension_descriptor_bytes = extension_descriptor_bytes;
        extension_payload_bytes = extension_payload_bytes;
        body_flags = body_flags;
        reserved = reserved;
      }
      check made
      ok made
from_tuple _ = err struct_error

abbrev pub codec : FixedWidth BodyRegionPrelude
codec = record {
  struct = struct;
  check_pack = λ _. ok tt;
  to_tuple = to_tuple;
  from_tuple = from_tuple;
}

pub from_tuple-to_tuple : (m : BodyRegionPrelude) → check m ≡ ok tt → from_tuple (to_tuple m) ≡ ok m
unfolding from_tuple
from_tuple-to_tuple m valid = rw (valid)

pub to_tuple-from_tuple :
    (vs : List ℕ) (m : BodyRegionPrelude)
    → from_tuple vs ≡ ok m
    → (to_tuple m ≡ vs) × (check m ≡ ok tt)
unfolding from_tuple
to_tuple-from_tuple
      (inline_object_bytes ∷ object_reference_bytes ∷ typed_payload_descriptor_bytes
        ∷ typed_payload_frame_bytes ∷ extension_descriptor_bytes ∷ extension_payload_bytes
        ∷ body_flags ∷ reserved ∷ [])
      m h0 =
    let made : BodyRegionPrelude = record {
      inline_object_bytes = inline_object_bytes;
      object_reference_bytes = object_reference_bytes;
      typed_payload_descriptor_bytes = typed_payload_descriptor_bytes;
      typed_payload_frame_bytes = typed_payload_frame_bytes;
      extension_descriptor_bytes = extension_descriptor_bytes;
      extension_payload_bytes = extension_payload_bytes;
      body_flags = body_flags;
      reserved = reserved;
    } in
    let (_, valid, h1) = >>=-eq-ok (check made) _ h0 in
    let same : made ≡ m = from_ok made m h1 in (ground arith, rw (← same) valid)
to_tuple-from_tuple _ m h = cc
