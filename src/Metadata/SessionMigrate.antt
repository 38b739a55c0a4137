-- ===== src/Metadata/SessionMigrate.antt =====
-- core/messages/control.py: SESSION_MIGRATE. Neither transport may be UNSPECIFIED.
use nnrp_py.Common.{
  ℕ, ◌≡◌, List, [], ◌∷◌, false, Result, ok, err, struct_error, ◌>>=◌, >>=-eq-ok, arith,
}
use nnrp_py.Struct.{Struct}
use nnrp_py.Metadata.{FixedWidth}
use nnrp_py.Metadata.ControlEnums.{TransportId, transport_id_value}
use nnrp_py.Metadata.Coerce.{
  coerce_transport_id, coerce_transport_id-value, value-coerce_transport_id,
}

pub record SessionMigrateMetadata : Type 0 where
  pub old_transport_id : TransportId
  pub new_transport_id : TransportId
  pub last_result_frame_id : ℕ
  pub client_migrate_ts_us : ℕ

abbrev pub struct : Struct
struct = 4 ∷ 4 ∷ 8 ∷ 8 ∷ []

-- `_validate`
unfoldable pub check : SessionMigrateMetadata → Result (Unit {0})
check m = do
  old_transport_id ← coerce_transport_id false (transport_id_value m.old_transport_id)
  new_transport_id ← coerce_transport_id false (transport_id_value m.new_transport_id)
  ok tt

abbrev pub to_tuple : SessionMigrateMetadata → List ℕ
to_tuple m =
    transport_id_value m.old_transport_id
    ∷ transport_id_value m.new_transport_id
    ∷ m.last_result_frame_id
    ∷ m.client_migrate_ts_us
    ∷ []

unfoldable pub from_tuple : List ℕ → Result SessionMigrateMetadata
from_tuple (old ∷ new ∷ last_result_frame_id ∷ client_migrate_ts_us ∷ []) = do
  old_transport_id ← coerce_transport_id false old
  new_transport_id ← coerce_transport_id false new
  ok (record {
    old_transport_id = old_transport_id;
    new_transport_id = new_transport_id;
    last_result_frame_id = last_result_frame_id;
    client_migrate_ts_us = client_migrate_ts_us;
  })
from_tuple _ = err struct_error

abbrev pub codec : FixedWidth SessionMigrateMetadata
codec = record { struct = struct; check_pack = check; to_tuple = to_tuple; from_tuple = from_tuple }

pub from_tuple-to_tuple :
    (m : SessionMigrateMetadata) → check m ≡ ok tt → from_tuple (to_tuple m) ≡ ok m
unfolding from_tuple check
from_tuple-to_tuple m valid =
    let (a, found_a, rest) =
      >>=-eq-ok (coerce_transport_id false (transport_id_value m.old_transport_id)) _ valid in
    let (b, found_b, done) =
      >>=-eq-ok (coerce_transport_id false (transport_id_value m.new_transport_id)) _ rest in
    let same_a = coerce_transport_id-value false m.old_transport_id a found_a in
    let same_b = coerce_transport_id-value false m.new_transport_id b found_b in ground arith

pub to_tuple-from_tuple :
    (vs : List ℕ) (m : SessionMigrateMetadata)
    → from_tuple vs ≡ ok m
    → (to_tuple m ≡ vs) × (check m ≡ ok tt)
unfolding from_tuple check
to_tuple-from_tuple (old ∷ new ∷ last ∷ ts ∷ []) m h =
    let (a, found_a, rest) = >>=-eq-ok (coerce_transport_id false old) _ h in
    let (b, found_b, done) = >>=-eq-ok (coerce_transport_id false new) _ rest in
    let (value_a, again_a) = value-coerce_transport_id false old a found_a in
    let (value_b, again_b) = value-coerce_transport_id false new b found_b in ground arith
to_tuple-from_tuple _ m h = cc
