-- ===== src/Metadata/ClientHello.antt =====
-- core/messages/control.py: CLIENT_HELLO.
use nnrp_py.Common.{ℕ, ◌≡◌, List, [], ◌∷◌, Result, ok, err, struct_error, arith, refl}
use nnrp_py.Struct.{Struct}
use nnrp_py.Metadata.{FixedWidth}

pub record ClientHelloMetadata : Type 0 where
  pub min_version_major : ℕ
  pub max_version_major : ℕ
  pub supported_wire_format_bitmap : ℕ
  pub supported_profile_bitmap : ℕ
  pub supported_payload_kind_bitmap : ℕ
  pub supported_codec_bitmap : ℕ
  pub supported_compression_bitmap : ℕ
  pub supported_dtype_bitmap : ℕ
  pub supported_layout_bitmap : ℕ
  pub cache_digest_bitmap : ℕ
  pub cache_object_bitmap : ℕ
  pub cache_namespace_count : ℕ
  pub max_lane_count : ℕ
  pub max_cache_entries : ℕ
  pub max_cache_bytes : ℕ
  pub target_cadence_x100 : ℕ
  pub latency_budget_ms : ℕ
  pub quality_tier : ℕ
  pub degrade_policy : ℕ
  pub requested_session_id : ℕ
  pub auth_bytes : ℕ
  pub control_extension_bytes : ℕ

abbrev pub struct : Struct
struct = 1 ∷ 1 ∷ 2 ∷ 4 ∷ 4 ∷ 4 ∷ 4 ∷ 4 ∷ 4 ∷ 2 ∷ 2 ∷ 2 ∷ 2 ∷ 4 ∷ 4 ∷ 2 ∷ 2 ∷ 2 ∷ 2 ∷ 4 ∷ 4 ∷ 4 ∷ []

abbrev pub to_tuple : ClientHelloMetadata → List ℕ
to_tuple m =
    m.min_version_major ∷ m.max_version_major ∷ m.supported_wire_format_bitmap
    ∷ m.supported_profile_bitmap ∷ m.supported_payload_kind_bitmap ∷ m.supported_codec_bitmap
    ∷ m.supported_compression_bitmap ∷ m.supported_dtype_bitmap ∷ m.supported_layout_bitmap
    ∷ m.cache_digest_bitmap ∷ m.cache_object_bitmap ∷ m.cache_namespace_count ∷ m.max_lane_count
    ∷ m.max_cache_entries ∷ m.max_cache_bytes ∷ m.target_cadence_x100 ∷ m.latency_budget_ms
    ∷ m.quality_tier ∷ m.degrade_policy ∷ m.requested_session_id ∷ m.auth_bytes
    ∷ m.control_extension_bytes ∷ []

unfoldable pub from_tuple : List ℕ → Result ClientHelloMetadata
from_tuple
      (min_version_major ∷ max_version_major ∷ supported_wire_format_bitmap
        ∷ supported_profile_bitmap ∷ supported_payload_kind_bitmap ∷ supported_codec_bitmap
        ∷ supported_compression_bitmap ∷ supported_dtype_bitmap ∷ supported_layout_bitmap
        ∷ cache_digest_bitmap ∷ cache_object_bitmap ∷ cache_namespace_count ∷ max_lane_count
        ∷ max_cache_entries ∷ max_cache_bytes ∷ target_cadence_x100 ∷ latency_budget_ms
        ∷ quality_tier ∷ degrade_policy ∷ requested_session_id ∷ auth_bytes
        ∷ control_extension_bytes ∷ []) =
    ok (record {
      min_version_major = min_version_major;
      max_version_major = max_version_major;
      supported_wire_format_bitmap = supported_wire_format_bitmap;
      supported_profile_bitmap = supported_profile_bitmap;
      supported_payload_kind_bitmap = supported_payload_kind_bitmap;
      supported_codec_bitmap = supported_codec_bitmap;
      supported_compression_bitmap = supported_compression_bitmap;
      supported_dtype_bitmap = supported_dtype_bitmap;
      supported_layout_bitmap = supported_layout_bitmap;
      cache_digest_bitmap = cache_digest_bitmap;
      cache_object_bitmap = cache_object_bitmap;
      cache_namespace_count = cache_namespace_count;
      max_lane_count = max_lane_count;
      max_cache_entries = max_cache_entries;
      max_cache_bytes = max_cache_bytes;
      target_cadence_x100 = target_cadence_x100;
      latency_budget_ms = latency_budget_ms;
      quality_tier = quality_tier;
      degrade_policy = degrade_policy;
      requested_session_id = requested_session_id;
      auth_bytes = auth_bytes;
      control_extension_bytes = control_extension_bytes;
    })
from_tuple _ = err struct_error

abbrev pub codec : FixedWidth ClientHelloMetadata
codec = record {
  struct = struct;
  check_pack = λ _. ok tt;
  to_tuple = to_tuple;
  from_tuple = from_tuple;
}

pub from_tuple-to_tuple : (m : ClientHelloMetadata) → from_tuple (to_tuple m) ≡ ok m
unfolding from_tuple
from_tuple-to_tuple m = refl

pub to_tuple-from_tuple :
    (vs : List ℕ) (m : ClientHelloMetadata) → from_tuple vs ≡ ok m → (to_tuple m ≡ vs)
unfolding from_tuple
to_tuple-from_tuple
      (min_version_major ∷ max_version_major ∷ supported_wire_format_bitmap
        ∷ supported_profile_bitmap ∷ supported_payload_kind_bitmap ∷ supported_codec_bitmap
        ∷ supported_compression_bitmap ∷ supported_dtype_bitmap ∷ supported_layout_bitmap
        ∷ cache_digest_bitmap ∷ cache_object_bitmap ∷ cache_namespace_count ∷ max_lane_count
        ∷ max_cache_entries ∷ max_cache_bytes ∷ target_cadence_x100 ∷ latency_budget_ms
        ∷ quality_tier ∷ degrade_policy ∷ requested_session_id ∷ auth_bytes
        ∷ control_extension_bytes ∷ [])
      m h0 =
    ground arith
to_tuple-from_tuple _ m h = cc
