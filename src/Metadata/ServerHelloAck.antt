-- ===== src/Metadata/ServerHelloAck.antt =====
-- core/messages/control.py: SERVER_HELLO_ACK.
use nnrp_py.Common.{ℕ, ◌≡◌, List, [], ◌∷◌, Result, ok, err, struct_error, arith, refl}
use nnrp_py.Struct.{Struct}
use nnrp_py.Metadata.{FixedWidth}

pub record ServerHelloAckMetadata : Type 0 where
  pub selected_version_major : ℕ
  pub selected_wire_format : ℕ
  pub auth_status : ℕ
  pub reserved0 : ℕ
  pub session_id : ℕ
  pub accepted_profile_bitmap : ℕ
  pub accepted_payload_kind_bitmap : ℕ
  pub accepted_codec_bitmap : ℕ
  pub accepted_compression_bitmap : ℕ
  pub accepted_dtype_bitmap : ℕ
  pub accepted_layout_bitmap : ℕ
  pub cache_digest_bitmap : ℕ
  pub cache_object_bitmap : ℕ
  pub max_cache_entries : ℕ
  pub max_cache_bytes : ℕ
  pub max_lane_count : ℕ
  pub max_concurrent_frames : ℕ
  pub target_cadence_x100 : ℕ
  pub latency_budget_ms : ℕ
  pub quality_tier : ℕ
  pub degrade_policy : ℕ
  pub max_body_bytes : ℕ
  pub token_ttl_ms : ℕ
  pub retry_after_ms : ℕ
  pub control_extension_bytes : ℕ
  pub server_flags : ℕ

abbrev pub struct : Struct
struct =
    1 ∷ 1 ∷ 1 ∷ 1 ∷ 4 ∷ 4 ∷ 4 ∷ 4 ∷ 4 ∷ 4 ∷ 4 ∷ 4 ∷ 4 ∷ 4 ∷ 4 ∷ 2 ∷ 2 ∷ 2 ∷ 2 ∷ 2 ∷ 2 ∷ 4 ∷ 4 ∷ 4
    ∷ 4 ∷ 4 ∷ []

abbrev pub to_tuple : ServerHelloAckMetadata → List ℕ
to_tuple m =
    m.selected_version_major ∷ m.selected_wire_format ∷ m.auth_status ∷ m.reserved0 ∷ m.session_id
    ∷ m.accepted_profile_bitmap ∷ m.accepted_payload_kind_bitmap ∷ m.accepted_codec_bitmap
    ∷ m.accepted_compression_bitmap ∷ m.accepted_dtype_bitmap ∷ m.accepted_layout_bitmap
    ∷ m.cache_digest_bitmap ∷ m.cache_object_bitmap ∷ m.max_cache_entries ∷ m.max_cache_bytes
    ∷ m.max_lane_count ∷ m.max_concurrent_frames ∷ m.target_cadence_x100 ∷ m.latency_budget_ms
    ∷ m.quality_tier ∷ m.degrade_policy ∷ m.max_body_bytes ∷ m.token_ttl_ms ∷ m.retry_after_ms
    ∷ m.control_extension_bytes ∷ m.server_flags ∷ []

unfoldable pub from_tuple : List ℕ → Result ServerHelloAckMetadata
from_tuple
      (selected_version_major ∷ selected_wire_format ∷ auth_status ∷ reserved0 ∷ session_id
        ∷ accepted_profile_bitmap ∷ accepted_payload_kind_bitmap ∷ accepted_codec_bitmap
        ∷ accepted_compression_bitmap ∷ accepted_dtype_bitmap ∷ accepted_layout_bitmap
        ∷ cache_digest_bitmap ∷ cache_object_bitmap ∷ max_cache_entries ∷ max_cache_bytes
        ∷ max_lane_count ∷ max_concurrent_frames ∷ target_cadence_x100 ∷ latency_budget_ms
        ∷ quality_tier ∷ degrade_policy ∷ max_body_bytes ∷ token_ttl_ms ∷ retry_after_ms
        ∷ control_extension_bytes ∷ server_flags ∷ []) =
    ok (record {
      selected_version_major = selected_version_major;
      selected_wire_format = selected_wire_format;
      auth_status = auth_status;
      reserved0 = reserved0;
      session_id = session_id;
      accepted_profile_bitmap = accepted_profile_bitmap;
      accepted_payload_kind_bitmap = accepted_payload_kind_bitmap;
      accepted_codec_bitmap = accepted_codec_bitmap;
      accepted_compression_bitmap = accepted_compression_bitmap;
      accepted_dtype_bitmap = accepted_dtype_bitmap;
      accepted_layout_bitmap = accepted_layout_bitmap;
      cache_digest_bitmap = cache_digest_bitmap;
      cache_object_bitmap = cache_object_bitmap;
      max_cache_entries = max_cache_entries;
      max_cache_bytes = max_cache_bytes;
      max_lane_count = max_lane_count;
      max_concurrent_frames = max_concurrent_frames;
      target_cadence_x100 = target_cadence_x100;
      latency_budget_ms = latency_budget_ms;
      quality_tier = quality_tier;
      degrade_policy = degrade_policy;
      max_body_bytes = max_body_bytes;
      token_ttl_ms = token_ttl_ms;
      retry_after_ms = retry_after_ms;
      control_extension_bytes = control_extension_bytes;
      server_flags = server_flags;
    })
from_tuple _ = err struct_error

abbrev pub codec : FixedWidth ServerHelloAckMetadata
codec = record {
  struct = struct;
  check_pack = λ _. ok tt;
  to_tuple = to_tuple;
  from_tuple = from_tuple;
}

pub from_tuple-to_tuple : (m : ServerHelloAckMetadata) → from_tuple (to_tuple m) ≡ ok m
unfolding from_tuple
from_tuple-to_tuple m = refl

pub to_tuple-from_tuple :
    (vs : List ℕ) (m : ServerHelloAckMetadata) → from_tuple vs ≡ ok m → (to_tuple m ≡ vs)
unfolding from_tuple
to_tuple-from_tuple
      (selected_version_major ∷ selected_wire_format ∷ auth_status ∷ reserved0 ∷ session_id
        ∷ accepted_profile_bitmap ∷ accepted_payload_kind_bitmap ∷ accepted_codec_bitmap
        ∷ accepted_compression_bitmap ∷ accepted_dtype_bitmap ∷ accepted_layout_bitmap
        ∷ cache_digest_bitmap ∷ cache_object_bitmap ∷ max_cache_entries ∷ max_cache_bytes
        ∷ max_lane_count ∷ max_concurrent_frames ∷ target_cadence_x100 ∷ latency_budget_ms
        ∷ quality_tier ∷ degrade_policy ∷ max_body_bytes ∷ token_ttl_ms ∷ retry_after_ms
        ∷ control_extension_bytes ∷ server_flags ∷ [])
      m h0 =
    ground arith
to_tuple-from_tuple _ m h = cc
