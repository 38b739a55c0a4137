-- ===== src/Metadata/TypedPayload.antt =====
-- schema.py: the descriptor of a typed payload.
use nnrp_py.Common.{
  ℕ, ◌≡◌, List, [], ◌∷◌, ◌==◌, leb, bits_outside, Result, ok, err, struct_error, ◌>>◌, >>=-eq-ok,
  require, from_ok, arith,
}
use nnrp_py.Struct.{Struct}
use nnrp_py.Metadata.{FixedWidth}
use nnrp_py.Metadata.Coerce.{is_single_bit}

pub record TypedPayloadDescriptor : Type 0 where
  pub profile_id : ℕ
  pub payload_kind : ℕ
  pub descriptor_flags : ℕ
  pub schema_id : ℕ
  pub schema_version : ℕ
  pub stream_semantics : ℕ
  pub offset : ℕ
  pub length : ℕ

abbrev pub struct : Struct
struct = 2 ∷ 1 ∷ 1 ∷ 4 ∷ 4 ∷ 2 ∷ 2 ∷ 4 ∷ 4 ∷ []

-- `__post_init__`
unfoldable pub check : TypedPayloadDescriptor → Result (Unit {0})
check m = do
  require (leb m.profile_id 0xffff)
  require (is_single_bit m.payload_kind)
  require (bits_outside m.descriptor_flags 0x000f == 0)
  require (leb m.schema_id 0xffffffff)
  require (leb m.schema_version 0xffffffff)
  require (leb m.stream_semantics 0xffff)
  require (leb m.offset 0xffffffff)
  require (leb m.length 0xffffffff)

abbrev pub to_tuple : TypedPayloadDescriptor → List ℕ
to_tuple m =
    m.profile_id ∷ m.payload_kind ∷ m.descriptor_flags ∷ m.schema_id ∷ m.schema_version
    ∷ m.stream_semantics ∷ 0 ∷ m.offset ∷ m.length ∷ []

unfoldable pub from_tuple : List ℕ → Result TypedPayloadDescriptor
from_tuple
      (profile_id ∷ payload_kind ∷ descriptor_flags ∷ schema_id ∷ schema_version ∷ stream_semantics
        ∷ reserved0 ∷ offset ∷ length ∷ []) =
    do
      require (reserved0 == 0)
      let made : TypedPayloadDescriptor = record {
        profile_id = profile_id;
        payload_kind = payload_kind;
        descriptor_flags = descriptor_flags;
        schema_id = schema_id;
        schema_version = schema_version;
        stream_semantics = stream_semantics;
        offset = offset;
        length = length;
      }
      check made
      ok made
from_tuple _ = err struct_error

abbrev pub codec : FixedWidth TypedPayloadDescriptor
codec = record {
  struct = struct;
  check_pack = λ _. ok tt;
  to_tuple = to_tuple;
  from_tuple = from_tuple;
}

pub from_tuple-to_tuple :
    (m : TypedPayloadDescriptor) → check m ≡ ok tt → from_tuple (to_tuple m) ≡ ok m
unfolding from_tuple
from_tuple-to_tuple m valid = rw (valid)

pub to_tuple-from_tuple :
    (vs : List ℕ) (m : TypedPayloadDescriptor)
    → from_tuple vs ≡ ok m
    → (to_tuple m ≡ vs) × (check m ≡ ok tt)
unfolding from_tuple
to_tuple-from_tuple
      (profile_id ∷ payload_kind ∷ descriptor_flags ∷ schema_id ∷ schema_version ∷ stream_semantics
        ∷ reserved0 ∷ offset ∷ length ∷ [])
      m h0 =
    let (_, zero_0, h1) = >>=-eq-ok (require (reserved0 == 0)) _ h0 in
    let made : TypedPayloadDescriptor = record {
      profile_id = profile_id;
      payload_kind = payload_kind;
      descriptor_flags = descriptor_flags;
      schema_id = schema_id;
      schema_version = schema_version;
      stream_semantics = stream_semantics;
      offset = offset;
      length = length;
    } in
    let (_, valid, h2) = >>=-eq-ok (check made) _ h1 in
    let same : made ≡ m = from_ok made m h2 in (ground arith, rw (← same) valid)
to_tuple-from_tuple _ m h = cc
