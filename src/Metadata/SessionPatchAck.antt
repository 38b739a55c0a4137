-- ===== src/Metadata/SessionPatchAck.antt =====
-- core/messages/control.py: SESSION_PATCH_ACK.
use nnrp_py.Common.{ℕ, ◌≡◌, List, [], ◌∷◌, Result, ok, err, struct_error, ◌>>=◌, >>=-eq-ok, arith}
use nnrp_py.Struct.{Struct}
use nnrp_py.Metadata.{FixedWidth}
use nnrp_py.Metadata.ControlEnums.{
  SessionPatchAckStatus, session_patch_ack_status_value, to_session_patch_ack_status,
  to_session_patch_ack_status-value, value-to_session_patch_ack_status, SessionPatchRejectReason,
  session_patch_reject_reason_value, to_session_patch_reject_reason,
  to_session_patch_reject_reason-value, value-to_session_patch_reject_reason,
}

pub record SessionPatchAckMetadata : Type 0 where
  pub ack_status : SessionPatchAckStatus
  pub reject_reason : SessionPatchRejectReason
  pub applied_patch_mask : ℕ
  pub rejected_patch_mask : ℕ
  pub retry_after_ms : ℕ
  pub effective_profile_id : ℕ
  pub reserved0 : ℕ
  pub effective_target_cadence_x100 : ℕ
  pub effective_quality_tier : ℕ
  pub effective_degrade_policy : ℕ
  pub effective_lane_mask : ℕ
  pub effective_codec_bitmap : ℕ
  pub effective_compression_bitmap : ℕ
  pub profile_patch_ack_bytes : ℕ

abbrev pub struct : Struct
struct = 2 ∷ 2 ∷ 4 ∷ 4 ∷ 4 ∷ 2 ∷ 2 ∷ 4 ∷ 2 ∷ 2 ∷ 8 ∷ 4 ∷ 4 ∷ 4 ∷ []

abbrev pub to_tuple : SessionPatchAckMetadata → List ℕ
to_tuple m =
    session_patch_ack_status_value m.ack_status
    ∷ session_patch_reject_reason_value m.reject_reason
    ∷ m.applied_patch_mask
    ∷ m.rejected_patch_mask
    ∷ m.retry_after_ms
    ∷ m.effective_profile_id
    ∷ m.reserved0
    ∷ m.effective_target_cadence_x100
    ∷ m.effective_quality_tier
    ∷ m.effective_degrade_policy
    ∷ m.effective_lane_mask
    ∷ m.effective_codec_bitmap
    ∷ m.effective_compression_bitmap
    ∷ m.profile_patch_ack_bytes
    ∷ []

unfoldable pub from_tuple : List ℕ → Result SessionPatchAckMetadata
from_tuple
      (ack_status ∷ reject_reason ∷ applied_patch_mask ∷ rejected_patch_mask ∷ retry_after_ms
        ∷ effective_profile_id ∷ reserved0 ∷ effective_target_cadence_x100 ∷ effective_quality_tier
        ∷ effective_degrade_policy ∷ effective_lane_mask ∷ effective_codec_bitmap
        ∷ effective_compression_bitmap ∷ profile_patch_ack_bytes ∷ []) =
    do
      ack_status_member ← to_session_patch_ack_status ack_status
      reject_reason_member ← to_session_patch_reject_reason reject_reason
      ok (record {
        ack_status = ack_status_member;
        reject_reason = reject_reason_member;
        applied_patch_mask = applied_patch_mask;
        rejected_patch_mask = rejected_patch_mask;
        retry_after_ms = retry_after_ms;
        effective_profile_id = effective_profile_id;
        reserved0 = reserved0;
        effective_target_cadence_x100 = effective_target_cadence_x100;
        effective_quality_tier = effective_quality_tier;
        effective_degrade_policy = effective_degrade_policy;
        effective_lane_mask = effective_lane_mask;
        effective_codec_bitmap = effective_codec_bitmap;
        effective_compression_bitmap = effective_compression_bitmap;
        profile_patch_ack_bytes = profile_patch_ack_bytes;
      })
from_tuple _ = err struct_error

abbrev pub codec : FixedWidth SessionPatchAckMetadata
codec = record {
  struct = struct;
  check_pack = λ _. ok tt;
  to_tuple = to_tuple;
  from_tuple = from_tuple;
}

pub from_tuple-to_tuple : (m : SessionPatchAckMetadata) → from_tuple (to_tuple m) ≡ ok m
unfolding from_tuple
from_tuple-to_tuple m = rw (
  to_session_patch_ack_status-value m.ack_status,
  to_session_patch_reject_reason-value m.reject_reason,
)

pub to_tuple-from_tuple :
    (vs : List ℕ) (m : SessionPatchAckMetadata) → from_tuple vs ≡ ok m → (to_tuple m ≡ vs)
unfolding from_tuple
to_tuple-from_tuple
      (ack_status ∷ reject_reason ∷ applied_patch_mask ∷ rejected_patch_mask ∷ retry_after_ms
        ∷ effective_profile_id ∷ reserved0 ∷ effective_target_cadence_x100 ∷ effective_quality_tier
        ∷ effective_degrade_policy ∷ effective_lane_mask ∷ effective_codec_bitmap
        ∷ effective_compression_bitmap ∷ profile_patch_ack_bytes ∷ [])
      m h0 =
    let (ack_status_member, found_0, h1) =
      >>=-eq-ok (to_session_patch_ack_status ack_status) _ h0 in
    let value_0 = value-to_session_patch_ack_status ack_status ack_status_member found_0 in
    let (reject_reason_member, found_1, h2) =
      >>=-eq-ok (to_session_patch_reject_reason reject_reason) _ h1 in
    let value_1 = value-to_session_patch_reject_reason reject_reason reject_reason_member found_1 in
    ground arith
to_tuple-from_tuple _ m h = cc
