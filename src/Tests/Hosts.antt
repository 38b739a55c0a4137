-- ===== src/Tests/Hosts.antt =====
-- Catalogs, result buffers, connection snapshots and leases at concrete values.
use mathlib.Core.List.{Perm}
use mathlib.Core.List.{Perm}
use nnrp_py.Common.{
  pair_key, ℕ, ◌≡◌, ◌↔◌, ◌≤◌, refl, true, false, ◌==◌, ◌&&◌, if◌then◌else◌, none, some, List, [],
  ◌∷◌, All, ok, err, value_error, ◌>>=◌, nat_key, get, set, remove, has_key, arith,
}
use nnrp_py.Metadata.ControlEnums.{SessionPriorityClass}
use nnrp_py.Metadata.SchemaDescriptor.{SchemaDescriptorHeader}
use nnrp_py.Catalog.{
  installed, invalidated, updated, SchemaVersionMismatch, Descriptors, store, install, lookup,
  invalidate, available_version, version_mismatch,
}
use nnrp_py.Catalog.Laws.{Conflict, install-err_iff, lookup-install}
use nnrp_py.Catalog.Versions.{version_mismatch-some}
use nnrp_py.OrderedBuffer.{
  FrameResultBuffer, heappush, empty_buffer, add, peek_next_frame_id, pop_next, pop_frame,
}
use nnrp_py.OrderedBuffer.Order.{IsWellFormed}
use nnrp_py.OrderedBuffer.Reached.{
  Reached, made, added, peeked, popped_next, popped_frame, Reached-IsWellFormed, pop_next-none,
  peek_next_frame_id-Reached,
}
use nnrp_py.OrderedBuffer.Drain.{drain, Ascends, drain-Reached}
use nnrp_py.OrderedBuffer.Pops.{IsLeast, peek_next_frame_id_iff, pop_next_least}
use nnrp_py.Lifecycle.{
  closed_state, SessionLifecycleState, closed, SessionLifecycleSnapshot,
  ConnectionLifecycleSnapshot, place_session, sort_sessions, is_session_closed, connection_snapshot,
}
use nnrp_py.Lifecycle.Sessions.{StrictlyAscending, connection_snapshot_made}
use nnrp_py.Cache.{
  CacheLeaseDescriptor, CacheLeaseOwnerScope, CacheObjectIdentity, check_lease, is_expired,
  as_renewed,
}
use nnrp_py.Cache.Lease.{as_renewed-is_expired}

abbrev schema : ℕ → ℕ → SchemaDescriptorHeader
schema version hash = record {
  schema_id = 5;
  schema_version = version;
  profile_id = 1;
  schema_flags = 0;
  min_version_major = 1;
  max_version_major = 1;
  body_bytes = 0;
  dependency_count = 0;
  default_stream_semantics = 0;
  schema_hash = hash;
}

abbrev one_schema : Descriptors
one_schema = ((5, 1), schema 1 10) ∷ []

abbrev two_schemas : Descriptors
two_schemas = ((5, 1), schema 1 10) ∷ ((5, 4), schema 4 11) ∷ []

installed_first : install (schema 1 10) [] ≡ ok (installed, one_schema)
unfolding install store get set
installed_first = refl

installed_second : install (schema 4 11) one_schema ≡ ok (updated, two_schemas)
unfolding install store get set
installed_second = refl

install-err_iff_example :
    (install (schema 1 12) one_schema ≡ err value_error) ↔ Conflict (schema 1 12) one_schema
install-err_iff_example = install-err_iff (schema 1 12) one_schema

lookup-install_example : lookup 5 4 two_schemas ≡ (
    lookup 5 4 one_schema >>= λ before.
    ok (if (5 == 5) && (4 == 4) then some (schema 4 11) else before))
lookup-install_example =
    lookup-install (schema 4 11) one_schema two_schemas updated 5 4 installed_second

invalidated_first : invalidate 5 4 two_schemas ≡ ok (invalidated, one_schema)
unfolding invalidate remove
invalidated_first = refl

abbrev mismatch : SchemaVersionMismatch
mismatch = record {
  requested_schema_id = 5;
  requested_schema_version = 3;
  available_schema_version = some 4;
  profile_id = 1;
}

mismatched : version_mismatch 5 3 1 two_schemas ≡ ok (some mismatch)
unfolding version_mismatch lookup get available_version
mismatched = refl

version_mismatch-some_example :
    (lookup 5 3 two_schemas ≡ ok none)
    × ((v : ℕ) → some 4 ≡ some v → has_key (5, v) two_schemas ≡ true)
    × ((w : ℕ) → has_key (5, w) two_schemas ≡ true → (v : ℕ) × (some 4 ≡ some v) × (w ≤ v))
version_mismatch-some_example = version_mismatch-some 5 3 1 two_schemas mismatch mismatched

abbrev no_packets : FrameResultBuffer ℕ
no_packets = empty_buffer

-- Frame 7 and then frame 3.
abbrev buffer : FrameResultBuffer ℕ
buffer = add 3 30 (add 7 70 no_packets)

buffer-Reached : Reached buffer
buffer-Reached = added 3 30 (added 7 70 made)

buffer-IsWellFormed : IsWellFormed buffer
buffer-IsWellFormed = Reached-IsWellFormed buffer buffer-Reached

-- What is left when both are popped, the second by its id.
abbrev drained : FrameResultBuffer ℕ
drained = (pop_frame 7 (pop_next none (peek_next_frame_id buffer).1).1).1

drained-Reached : Reached drained
drained-Reached = popped_frame 7 (popped_next none (peeked buffer-Reached))

drained_gives_none : (pop_next none drained).0 ≡ none
unfolding add set get remove heappush peek_next_frame_id pop_next pop_frame
drained_gives_none = refl

pop_next-none_example : drained.by_frame_id ≡ []
pop_next-none_example = pop_next-none drained drained-Reached drained_gives_none

peek_next_frame_id-Reached_example :
    ((peek_next_frame_id buffer).0 ≡ some 3) ↔ IsLeast 3 buffer.by_frame_id
peek_next_frame_id-Reached_example = peek_next_frame_id-Reached buffer 3 buffer-Reached

peeked-IsLeast : ((peek_next_frame_id buffer).0 ≡ some 3) ↔ IsLeast 3 buffer.by_frame_id
peeked-IsLeast = peek_next_frame_id_iff buffer 3 buffer-IsWellFormed

peeked_first : (peek_next_frame_id buffer).0 ≡ some 3
unfolding add set heappush peek_next_frame_id
peeked_first = refl

pop_next_least_example :
    ((pop_next (some 4) buffer).0 ≡ none)
    × ((pop_next (some 4) buffer).1.by_frame_id ≡ buffer.by_frame_id)
pop_next_least_example =
    pop_next_least (some 4) 3 buffer buffer-IsWellFormed (peeked-IsLeast.0 peeked_first)

drain-Reached_example : Perm buffer.by_frame_id (drain 2 buffer) × Ascends (drain 2 buffer)
unfolding add set
drain-Reached_example = drain-Reached buffer buffer-Reached

drained_in_order : drain 2 buffer ≡ (3, 30) ∷ (7, 70) ∷ []
unfolding drain add set get remove heappush peek_next_frame_id pop_next
drained_in_order = refl

abbrev session : ℕ → SessionLifecycleState → SessionLifecycleSnapshot
session id state = record {
  session_id = id;
  state = state;
  profile_id = 1;
  priority_class = SessionPriorityClass.balanced;
  schema_id = 0;
  schema_version = 0;
  max_in_flight_operations = 4;
  route_scope_id = 0;
  last_operation_id = 0;
  session_error_code = 0;
}

abbrev sessions : List SessionLifecycleSnapshot
sessions = session 2 closed ∷ session 1 closed ∷ []

abbrev snapshot : ConnectionLifecycleSnapshot
snapshot = record { state = closed_state; sessions = session 1 closed ∷ session 2 closed ∷ [] }

snapshot_made : connection_snapshot closed_state sessions ≡ ok snapshot
unfolding connection_snapshot sort_sessions place_session
snapshot_made = refl

connection_snapshot_made_example :
    (snapshot.state ≡ closed_state)
    × Perm snapshot.sessions sessions
    × StrictlyAscending snapshot.sessions
    × (closed_state ≡ closed_state
        → All
            (λ (s : SessionLifecycleSnapshot). is_session_closed s.state ≡ true)
            snapshot.sessions)
connection_snapshot_made_example =
    connection_snapshot_made closed_state sessions snapshot snapshot_made

abbrev identity : CacheObjectIdentity
identity = record { cache_namespace = 1; object_kind = 2; cache_key_hi = 3; cache_key_lo = 4 }

abbrev lease : ℕ → CacheLeaseDescriptor
lease granted_at_ms = record {
  identity = identity;
  object_version = 1;
  lease_id = 1;
  owner_scope = CacheLeaseOwnerScope.session;
  owner_id = 9;
  granted_at_ms = granted_at_ms;
  ttl_ms = 50;
}

renewed_at_200 : as_renewed (lease 100) 1 1 200 none ≡ ok (lease 200)
unfolding as_renewed check_lease
renewed_at_200 = refl

as_renewed-is_expired_example :
    (is_expired (lease 200) 200 ≡ ok false)
    × ((lease 200).identity ≡ (lease 100).identity)
    × ((lease 200).owner_scope ≡ (lease 100).owner_scope)
    × ((lease 200).owner_id ≡ (lease 100).owner_id)
    × (check_lease (lease 200) ≡ ok tt)
as_renewed-is_expired_example =
    as_renewed-is_expired (lease 100) (lease 200) 1 1 200 none (omega arith) (omega arith)
      renewed_at_200
