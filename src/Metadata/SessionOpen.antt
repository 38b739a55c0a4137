-- ===== src/Metadata/SessionOpen.antt =====
-- core/messages/control.py: SESSION_OPEN.
use nnrp_py.Common.{
  ℕ, ◌≡◌, List, [], ◌∷◌, ◌==◌, leb, bits_outside, Result, ok, err, struct_error, ◌>>=◌, ◌>>◌,
  >>=-eq-ok, require, from_ok, arith,
}
use nnrp_py.Struct.{Struct}
use nnrp_py.Metadata.{FixedWidth}
use nnrp_py.Metadata.ControlEnums.{
  SessionPriorityClass, session_priority_class_value, to_session_priority_class,
  to_session_priority_class-value, value-to_session_priority_class,
}

pub record SessionOpenMetadata : Type 0 where
  pub requested_session_id : ℕ
  pub profile_id : ℕ
  pub priority_class : SessionPriorityClass
  pub session_flags : ℕ
  pub schema_id : ℕ
  pub schema_version : ℕ
  pub default_deadline_ms : ℕ
  pub max_in_flight_operations : ℕ
  pub lease_ttl_hint_ms : ℕ
  pub resume_token_bytes : ℕ
  pub auth_bytes : ℕ
  pub session_extension_bytes : ℕ
  pub client_session_tag : ℕ

abbrev pub struct : Struct
struct = 4 ∷ 2 ∷ 1 ∷ 1 ∷ 4 ∷ 4 ∷ 4 ∷ 2 ∷ 2 ∷ 4 ∷ 4 ∷ 4 ∷ 4 ∷ 8 ∷ []

-- `_validate`
unfoldable pub check : SessionOpenMetadata → Result (Unit {0})
check m = do
  require (leb m.requested_session_id 0xffffffff)
  require (leb m.profile_id 0xffff)
  require (bits_outside m.session_flags 0x0f == 0)
  require (leb m.schema_id 0xffffffff)
  require (leb m.schema_version 0xffffffff)
  require (leb m.default_deadline_ms 0xffffffff)
  require (leb m.lease_ttl_hint_ms 0xffffffff)
  require (leb m.resume_token_bytes 0xffffffff)
  require (leb m.auth_bytes 0xffffffff)
  require (leb m.session_extension_bytes 0xffffffff)
  require (leb m.max_in_flight_operations 0xffff)
  require (leb m.client_session_tag 0xffffffffffffffff)

abbrev pub to_tuple : SessionOpenMetadata → List ℕ
to_tuple m =
    m.requested_session_id
    ∷ m.profile_id
    ∷ session_priority_class_value m.priority_class
    ∷ m.session_flags
    ∷ m.schema_id
    ∷ m.schema_version
    ∷ m.default_deadline_ms
    ∷ m.max_in_flight_operations
    ∷ 0
    ∷ m.lease_ttl_hint_ms
    ∷ m.resume_token_bytes
    ∷ m.auth_bytes
    ∷ m.session_extension_bytes
    ∷ m.client_session_tag
    ∷ []

unfoldable pub from_tuple : List ℕ → Result SessionOpenMetadata
from_tuple
      (requested_session_id ∷ profile_id ∷ priority_class ∷ session_flags ∷ schema_id
        ∷ schema_version ∷ default_deadline_ms ∷ max_in_flight_operations ∷ reserved0
        ∷ lease_ttl_hint_ms ∷ resume_token_bytes ∷ auth_bytes ∷ session_extension_bytes
        ∷ client_session_tag ∷ []) =
    do
      require (reserved0 == 0)
      priority_class_member ← to_session_priority_class priority_class
      let made : SessionOpenMetadata = record {
        requested_session_id = requested_session_id;
        profile_id = profile_id;
        priority_class = priority_class_member;
        session_flags = session_flags;
        schema_id = schema_id;
        schema_version = schema_version;
        default_deadline_ms = default_deadline_ms;
        max_in_flight_operations = max_in_flight_operations;
        lease_ttl_hint_ms = lease_ttl_hint_ms;
        resume_token_bytes = resume_token_bytes;
        auth_bytes = auth_bytes;
        session_extension_bytes = session_extension_bytes;
        client_session_tag = client_session_tag;
      }
      check made
      ok made
from_tuple _ = err struct_error

abbrev pub codec : FixedWidth SessionOpenMetadata
codec = record { struct = struct; check_pack = check; to_tuple = to_tuple; from_tuple = from_tuple }

pub from_tuple-to_tuple :
    (m : SessionOpenMetadata) → check m ≡ ok tt → from_tuple (to_tuple m) ≡ ok m
unfolding from_tuple
from_tuple-to_tuple m valid = rw (to_session_priority_class-value m.priority_class, valid)

pub to_tuple-from_tuple :
    (vs : List ℕ) (m : SessionOpenMetadata)
    → from_tuple vs ≡ ok m
    → (to_tuple m ≡ vs) × (check m ≡ ok tt)
unfolding from_tuple
to_tuple-from_tuple
      (requested_session_id ∷ profile_id ∷ priority_class ∷ session_flags ∷ schema_id
        ∷ schema_version ∷ default_deadline_ms ∷ max_in_flight_operations ∷ reserved0
        ∷ lease_ttl_hint_ms ∷ resume_token_bytes ∷ auth_bytes ∷ session_extension_bytes
        ∷ client_session_tag ∷ [])
      m h0 =
    let (_, zero_0, h1) = >>=-eq-ok (require (reserved0 == 0)) _ h0 in
    let (priority_class_member, found_1, h2) =
      >>=-eq-ok (to_session_priority_class priority_class) _ h1 in
    let value_1 = value-to_session_priority_class priority_class priority_class_member found_1 in
    let made : SessionOpenMetadata = record {
      requested_session_id = requested_session_id;
      profile_id = profile_id;
      priority_class = priority_class_member;
      session_flags = session_flags;
      schema_id = schema_id;
      schema_version = schema_version;
      default_deadline_ms = default_deadline_ms;
      max_in_flight_operations = max_in_flight_operations;
      lease_ttl_hint_ms = lease_ttl_hint_ms;
      resume_token_bytes = resume_token_bytes;
      auth_bytes = auth_bytes;
      session_extension_bytes = session_extension_bytes;
      client_session_tag = client_session_tag;
    } in
    let (_, valid, h3) = >>=-eq-ok (check made) _ h2 in
    let same : made ≡ m = from_ok made m h3 in (ground arith, rw (← same) valid)
to_tuple-from_tuple _ m h = cc
