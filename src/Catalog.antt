-- ===== src/Catalog.antt =====
-- schema.py: SchemaRegistryCatalog, the descriptors that a host has installed, keyed by schema id
-- and version.
pub mod Laws
pub mod Versions
use nnrp_py.Common.{
  ℕ, ◌≡◌, ◌↔◌, Option, none, some, List, [], ◌∷◌, Bool, true, false, not, ◌&&◌, ◌||◌, ◌==◌, leb,
  if◌then◌else◌, max, map, Result, ok, err, value_error, ◌>>=◌, ◌>>◌, require, pair_key, Dict, get,
  set, remove, arith,
}
use nnrp_py.Metadata.SchemaDescriptor.{SchemaDescriptorHeader}
use nnrp_py.Metadata.TypedPayload.{TypedPayloadDescriptor}

abbrev pub SchemaKey : Type 0
SchemaKey = ℕ × ℕ

pub data SchemaRegistryAction : Type 0 where
  installed already_installed updated invalidated : SchemaRegistryAction

-- `failure` is always VERSION_UNKNOWN here.
pub record SchemaVersionMismatch : Type 0 where
  pub requested_schema_id : ℕ
  pub requested_schema_version : ℕ
  pub available_schema_version : Option ℕ
  pub profile_id : ℕ

abbrev pub Descriptors : Type 0
Descriptors = Dict SchemaKey SchemaDescriptorHeader

-- The equality of the dataclass: of all its fields.
abbrev pub same_descriptor : SchemaDescriptorHeader → SchemaDescriptorHeader → Bool
same_descriptor a b =
    (a.schema_id == b.schema_id)
    && (a.schema_version == b.schema_version)
    && (a.profile_id == b.profile_id)
    && (a.schema_flags == b.schema_flags)
    && (a.min_version_major == b.min_version_major)
    && (a.max_version_major == b.max_version_major)
    && (a.body_bytes == b.body_bytes)
    && (a.dependency_count == b.dependency_count)
    && (a.default_stream_semantics == b.default_stream_semantics)
    && (a.schema_hash == b.schema_hash)

abbrev pub key_of : SchemaDescriptorHeader → SchemaKey
key_of d = (d.schema_id, d.schema_version)

-- `any(schema_id == descriptor.schema_id for schema_id, _ in self._descriptors)`
abbrev pub has_schema : ℕ → Descriptors → Bool
has_schema schema_id [] = false
has_schema schema_id (((id, _), _) ∷ ds) = (id == schema_id) || has_schema schema_id ds

-- Storing the descriptor once no conflict was found.
unfoldable pub store : SchemaDescriptorHeader → Descriptors → SchemaRegistryAction × Descriptors
store descriptor ds = (
  if has_schema descriptor.schema_id ds then updated else installed,
  set (key_of descriptor) descriptor ds,
)

unfoldable pub install_over :
    Option SchemaDescriptorHeader
    → SchemaDescriptorHeader
    → Descriptors
    → Result (SchemaRegistryAction × Descriptors)
unfolding store
install_over none descriptor ds = ok (store descriptor ds)
install_over (some existing) descriptor ds =
    if same_descriptor existing descriptor
    then ok (already_installed, ds)
    else if not (existing.schema_hash == descriptor.schema_hash)
    then err value_error
    else ok (store descriptor ds)

unfoldable pub install :
    SchemaDescriptorHeader → Descriptors → Result (SchemaRegistryAction × Descriptors)
unfolding install_over
install descriptor ds = install_over (get (key_of descriptor) ds) descriptor ds

-- `__init__`
unfoldable pub install_all : List SchemaDescriptorHeader → Descriptors → Result Descriptors
install_all [] ds = ok ds
install_all (descriptor ∷ descriptors) ds = do
  (_, ds2) ← install descriptor ds
  install_all descriptors ds2

unfoldable pub lookup : ℕ → ℕ → Descriptors → Result (Option SchemaDescriptorHeader)
lookup schema_id schema_version ds = do
  require (leb schema_id 0xffffffff)
  require (leb schema_version 0xffffffff)
  ok (get (schema_id, schema_version) ds)

abbrev pub with_profile : ℕ → Descriptors → List SchemaDescriptorHeader
with_profile profile_id [] = []
with_profile profile_id ((_, d) ∷ ds) =
    if d.profile_id == profile_id
    then d ∷ with_profile profile_id ds
    else with_profile profile_id ds

unfoldable pub lookup_profile : ℕ → Descriptors → Result (List SchemaDescriptorHeader)
lookup_profile profile_id ds = do require (leb profile_id 0xffff); ok (with_profile profile_id ds)

unfoldable pub invalidate : ℕ → ℕ → Descriptors → Result (SchemaRegistryAction × Descriptors)
invalidate schema_id schema_version ds = do
  require (leb schema_id 0xffffffff)
  require (leb schema_version 0xffffffff)
  ok (invalidated, remove (schema_id, schema_version) ds)

abbrev pub larger : ℕ → Option ℕ → ℕ
larger version none = version
larger version (some other) = max version other

-- The largest installed version of a schema, if it has one: `available_versions` and its `max`.
unfoldable pub available_version : ℕ → Descriptors → Option ℕ
available_version schema_id [] = none
available_version schema_id (((id, version), _) ∷ ds) =
    let rest = available_version schema_id ds in
    if id == schema_id then some (larger version rest) else rest

-- What follows the look-up of the requested version.
abbrev pub mismatch_of :
    ℕ → ℕ → ℕ → Descriptors → Option SchemaDescriptorHeader → Option SchemaVersionMismatch
mismatch_of schema_id requested profile_id ds (some _) = none
mismatch_of schema_id requested profile_id ds none = some (record {
  requested_schema_id = schema_id;
  requested_schema_version = requested;
  available_schema_version = available_version schema_id ds;
  profile_id = profile_id;
})

-- The fields of the mismatch are checked again as it is made: those that are given pass, and the
-- available version is that of an installed descriptor.
unfoldable pub version_mismatch : ℕ → ℕ → ℕ → Descriptors → Result (Option SchemaVersionMismatch)
unfolding lookup
version_mismatch schema_id requested profile_id ds = do
  require (leb schema_id 0xffffffff)
  require (leb requested 0xffffffff)
  require (leb profile_id 0xffff)
  found ← lookup schema_id requested ds
  ok (mismatch_of schema_id requested profile_id ds found)

-- `validate_typed_payload_binding` without a codec; 0 is StandardProfile.UNSPECIFIED.
abbrev pub binds : TypedPayloadDescriptor → SchemaDescriptorHeader → Bool
binds d s =
    (s.schema_id == d.schema_id)
    && (s.schema_version == d.schema_version)
    && (s.profile_id == d.profile_id)

abbrev pub any_binds : TypedPayloadDescriptor → List SchemaDescriptorHeader → Bool
any_binds d [] = false
any_binds d (s ∷ schemas) = binds d s || any_binds d schemas

unfoldable pub validate_typed_payload_binding :
    List SchemaDescriptorHeader → TypedPayloadDescriptor → Result (Unit {0})
validate_typed_payload_binding schemas d =
    if d.profile_id == 0 then ok tt else require (any_binds d schemas)
