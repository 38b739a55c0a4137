-- ===== src/Metadata/SessionMigrateAck.antt =====
-- core/messages/control.py: SESSION_MIGRATE_ACK.
use nnrp_py.Common.{ℕ, ◌≡◌, List, [], ◌∷◌, Result, ok, err, struct_error, arith, refl}
use nnrp_py.Struct.{Struct}
use nnrp_py.Metadata.{FixedWidth}

pub record SessionMigrateAckMetadata : Type 0 where
  pub accept_code : ℕ
  pub resume_from_frame_id : ℕ
  pub grace_window_ms : ℕ
  pub server_migrate_ts_us : ℕ

abbrev pub struct : Struct
struct = 4 ∷ 8 ∷ 4 ∷ 8 ∷ []

abbrev pub to_tuple : SessionMigrateAckMetadata → List ℕ
to_tuple m =
    m.accept_code ∷ m.resume_from_frame_id ∷ m.grace_window_ms ∷ m.server_migrate_ts_us ∷ []

unfoldable pub from_tuple : List ℕ → Result SessionMigrateAckMetadata
from_tuple (accept_code ∷ resume_from_frame_id ∷ grace_window_ms ∷ server_migrate_ts_us ∷ []) =
    ok (record {
      accept_code = accept_code;
      resume_from_frame_id = resume_from_frame_id;
      grace_window_ms = grace_window_ms;
      server_migrate_ts_us = server_migrate_ts_us;
    })
from_tuple _ = err struct_error

abbrev pub codec : FixedWidth SessionMigrateAckMetadata
codec = record {
  struct = struct;
  check_pack = λ _. ok tt;
  to_tuple = to_tuple;
  from_tuple = from_tuple;
}

pub from_tuple-to_tuple : (m : SessionMigrateAckMetadata) → from_tuple (to_tuple m) ≡ ok m
unfolding from_tuple
from_tuple-to_tuple m = refl

pub to_tuple-from_tuple :
    (vs : List ℕ) (m : SessionMigrateAckMetadata) → from_tuple vs ≡ ok m → (to_tuple m ≡ vs)
unfolding from_tuple
to_tuple-from_tuple
      (accept_code ∷ resume_from_frame_id ∷ grace_window_ms ∷ server_migrate_ts_us ∷ []) m h0 =
    ground arith
to_tuple-from_tuple _ m h = cc
