-- ===== src/Metadata/SchemaDescriptor.antt =====
-- schema.py: the header of a schema descriptor.
use nnrp_py.Common.{
  ℕ, ◌≡◌, List, [], ◌∷◌, ◌==◌, leb, bits_outside, Result, ok, err, struct_error, ◌>>◌, >>=-eq-ok,
  require, from_ok, arith,
}
use nnrp_py.Struct.{Struct}
use nnrp_py.Metadata.{FixedWidth}

pub record SchemaDescriptorHeader : Type 0 where
  pub schema_id : ℕ
  pub schema_version : ℕ
  pub profile_id : ℕ
  pub schema_flags : ℕ
  pub min_version_major : ℕ
  pub max_version_major : ℕ
  pub body_bytes : ℕ
  pub dependency_count : ℕ
  pub default_stream_semantics : ℕ
  pub schema_hash : ℕ

abbrev pub struct : Struct
struct = 4 ∷ 4 ∷ 2 ∷ 2 ∷ 1 ∷ 1 ∷ 2 ∷ 4 ∷ 2 ∷ 2 ∷ 8 ∷ []

-- `__post_init__`
unfoldable pub check : SchemaDescriptorHeader → Result (Unit {0})
check m = do
  require (leb m.schema_id 0xffffffff)
  require (leb m.schema_version 0xffffffff)
  require (leb m.profile_id 0xffff)
  require (bits_outside m.schema_flags 0x000f == 0)
  require (leb m.min_version_major 0xff)
  require (leb m.max_version_major 0xff)
  require (leb m.body_bytes 0xffffffff)
  require (leb m.dependency_count 0xffff)
  require (leb m.default_stream_semantics 0xffff)
  require (leb m.schema_hash 0xffffffffffffffff)

abbrev pub to_tuple : SchemaDescriptorHeader → List ℕ
to_tuple m =
    m.schema_id ∷ m.schema_version ∷ m.profile_id ∷ m.schema_flags ∷ m.min_version_major
    ∷ m.max_version_major ∷ 0 ∷ m.body_bytes ∷ m.dependency_count ∷ m.default_stream_semantics
    ∷ m.schema_hash ∷ []

unfoldable pub from_tuple : List ℕ → Result SchemaDescriptorHeader
from_tuple
      (schema_id ∷ schema_version ∷ profile_id ∷ schema_flags ∷ min_version_major
        ∷ max_version_major ∷ reserved0 ∷ body_bytes ∷ dependency_count ∷ default_stream_semantics
        ∷ schema_hash ∷ []) =
    do
      require (reserved0 == 0)
      let made : SchemaDescriptorHeader = record {
        schema_id = schema_id;
        schema_version = schema_version;
        profile_id = profile_id;
        schema_flags = schema_flags;
        min_version_major = min_version_major;
        max_version_major = max_version_major;
        body_bytes = body_bytes;
        dependency_count = dependency_count;
        default_stream_semantics = default_stream_semantics;
        schema_hash = schema_hash;
      }
      check made
      ok made
from_tuple _ = err struct_error

abbrev pub codec : FixedWidth SchemaDescriptorHeader
codec = record {
  struct = struct;
  check_pack = λ _. ok tt;
  to_tuple = to_tuple;
  from_tuple = from_tuple;
}

pub from_tuple-to_tuple :
    (m : SchemaDescriptorHeader) → check m ≡ ok tt → from_tuple (to_tuple m) ≡ ok m
unfolding from_tuple
from_tuple-to_tuple m valid = rw (valid)

pub to_tuple-from_tuple :
    (vs : List ℕ) (m : SchemaDescriptorHeader)
    → from_tuple vs ≡ ok m
    → (to_tuple m ≡ vs) × (check m ≡ ok tt)
unfolding from_tuple
to_tuple-from_tuple
      (schema_id ∷ schema_version ∷ profile_id ∷ schema_flags ∷ min_version_major
        ∷ max_version_major ∷ reserved0 ∷ body_bytes ∷ dependency_count ∷ default_stream_semantics
        ∷ schema_hash ∷ [])
      m h0 =
    let (_, zero_0, h1) = >>=-eq-ok (require (reserved0 == 0)) _ h0 in
    let made : SchemaDescriptorHeader = record {
      schema_id = schema_id;
      schema_version = schema_version;
      profile_id = profile_id;
      schema_flags = schema_flags;
      min_version_major = min_version_major;
      max_version_major = max_version_major;
      body_bytes = body_bytes;
      dependency_count = dependency_count;
      default_stream_semantics = default_stream_semantics;
      schema_hash = schema_hash;
    } in
    let (_, valid, h2) = >>=-eq-ok (check made) _ h1 in
    let same : made ≡ m = from_ok made m h2 in (ground arith, rw (← same) valid)
to_tuple-from_tuple _ m h = cc
