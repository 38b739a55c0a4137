-- ===== src/Metadata/ExtensionFrame.antt =====
-- core/messages/data.py: the descriptor of an extension frame.
use nnrp_py.Common.{
  ℕ, ◌≡◌, List, [], ◌∷◌, ◌==◌, Result, ok, err, struct_error, ◌>>=◌, ◌>>◌, >>=-eq-ok, require,
  from_ok, arith,
}
use nnrp_py.Struct.{Struct}
use nnrp_py.Metadata.{FixedWidth}
use nnrp_py.Metadata.Coerce.{coerce_extension_frame_flags, coerce_extension_frame_flags_same}

pub record ExtensionFrameDescriptor : Type 0 where
  pub extension_kind : ℕ
  pub extension_flags : ℕ
  pub profile_id : ℕ
  pub reserved0 : ℕ
  pub payload_offset : ℕ
  pub payload_length : ℕ

abbrev pub struct : Struct
struct = 2 ∷ 2 ∷ 2 ∷ 2 ∷ 4 ∷ 4 ∷ []

check_fields : ExtensionFrameDescriptor → Result (Unit {0})
check_fields m = require (m.reserved0 == 0)

-- `__post_init__`
unfoldable pub check : ExtensionFrameDescriptor → Result (Unit {0})
unfolding check_fields
check m = do flags ← coerce_extension_frame_flags m.extension_flags; check_fields m

abbrev pub to_tuple : ExtensionFrameDescriptor → List ℕ
to_tuple m =
    m.extension_kind ∷ m.extension_flags ∷ m.profile_id ∷ m.reserved0 ∷ m.payload_offset
    ∷ m.payload_length ∷ []

unfoldable pub from_tuple : List ℕ → Result ExtensionFrameDescriptor
from_tuple
      (extension_kind ∷ extension_flags ∷ profile_id ∷ reserved0 ∷ payload_offset ∷ payload_length
        ∷ []) =
    do
      extension_flags_checked ← coerce_extension_frame_flags extension_flags
      let made : ExtensionFrameDescriptor = record {
        extension_kind = extension_kind;
        extension_flags = extension_flags_checked;
        profile_id = profile_id;
        reserved0 = reserved0;
        payload_offset = payload_offset;
        payload_length = payload_length;
      }
      check made
      ok made
from_tuple _ = err struct_error

abbrev pub codec : FixedWidth ExtensionFrameDescriptor
codec = record {
  struct = struct;
  check_pack = λ _. ok tt;
  to_tuple = to_tuple;
  from_tuple = from_tuple;
}

coerced :
    (m : ExtensionFrameDescriptor)
    → check m ≡ ok tt
    → (coerce_extension_frame_flags m.extension_flags ≡ ok m.extension_flags)
unfolding check
coerced m valid =
    let (v0, found0, rest0) = >>=-eq-ok (coerce_extension_frame_flags m.extension_flags) _ valid in
    let same0 = coerce_extension_frame_flags_same m.extension_flags v0 found0 in ground arith

pub from_tuple-to_tuple :
    (m : ExtensionFrameDescriptor) → check m ≡ ok tt → from_tuple (to_tuple m) ≡ ok m
unfolding from_tuple
from_tuple-to_tuple m valid = rw (coerced m valid, valid)

pub to_tuple-from_tuple :
    (vs : List ℕ) (m : ExtensionFrameDescriptor)
    → from_tuple vs ≡ ok m
    → (to_tuple m ≡ vs) × (check m ≡ ok tt)
unfolding from_tuple
to_tuple-from_tuple
      (extension_kind ∷ extension_flags ∷ profile_id ∷ reserved0 ∷ payload_offset ∷ payload_length
        ∷ [])
      m h0 =
    let (extension_flags_checked, found_0, h1) =
      >>=-eq-ok (coerce_extension_frame_flags extension_flags) _ h0 in
    let value_0 =
      coerce_extension_frame_flags_same extension_flags extension_flags_checked found_0 in
    let made : ExtensionFrameDescriptor = record {
      extension_kind = extension_kind;
      extension_flags = extension_flags_checked;
      profile_id = profile_id;
      reserved0 = reserved0;
      payload_offset = payload_offset;
      payload_length = payload_length;
    } in
    let (_, valid, h2) = >>=-eq-ok (check made) _ h1 in
    let same : made ≡ m = from_ok made m h2 in (ground arith, rw (← same) valid)
to_tuple-from_tuple _ m h = cc
