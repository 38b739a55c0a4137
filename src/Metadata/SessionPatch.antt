-- ===== src/Metadata/SessionPatch.antt =====
-- core/messages/control.py: SESSION_PATCH.
use nnrp_py.Common.{ℕ, ◌≡◌, List, [], ◌∷◌, Result, ok, err, struct_error, arith, refl}
use nnrp_py.Struct.{Struct}
use nnrp_py.Metadata.{FixedWidth}

pub record SessionPatchMetadata : Type 0 where
  pub profile_id : ℕ
  pub reserved0 : ℕ
  pub patch_mask : ℕ
  pub target_cadence_x100 : ℕ
  pub quality_tier : ℕ
  pub degrade_policy : ℕ
  pub active_lane_mask : ℕ
  pub preferred_codec_bitmap : ℕ
  pub preferred_compression_bitmap : ℕ
  pub profile_patch_bytes : ℕ

abbrev pub struct : Struct
struct = 2 ∷ 2 ∷ 4 ∷ 4 ∷ 2 ∷ 2 ∷ 8 ∷ 4 ∷ 4 ∷ 4 ∷ []

abbrev pub to_tuple : SessionPatchMetadata → List ℕ
to_tuple m =
    m.profile_id ∷ m.reserved0 ∷ m.patch_mask ∷ m.target_cadence_x100 ∷ m.quality_tier
    ∷ m.degrade_policy ∷ m.active_lane_mask ∷ m.preferred_codec_bitmap
    ∷ m.preferred_compression_bitmap ∷ m.profile_patch_bytes ∷ []

unfoldable pub from_tuple : List ℕ → Result SessionPatchMetadata
from_tuple
      (profile_id ∷ reserved0 ∷ patch_mask ∷ target_cadence_x100 ∷ quality_tier ∷ degrade_policy
        ∷ active_lane_mask ∷ preferred_codec_bitmap ∷ preferred_compression_bitmap
        ∷ profile_patch_bytes ∷ []) =
    ok (record {
      profile_id = profile_id;
      reserved0 = reserved0;
      patch_mask = patch_mask;
      target_cadence_x100 = target_cadence_x100;
      quality_tier = quality_tier;
      degrade_policy = degrade_policy;
      active_lane_mask = active_lane_mask;
      preferred_codec_bitmap = preferred_codec_bitmap;
      preferred_compression_bitmap = preferred_compression_bitmap;
      profile_patch_bytes = profile_patch_bytes;
    })
from_tuple _ = err struct_error

abbrev pub codec : FixedWidth SessionPatchMetadata
codec = record {
  struct = struct;
  check_pack = λ _. ok tt;
  to_tuple = to_tuple;
  from_tuple = from_tuple;
}

pub from_tuple-to_tuple : (m : SessionPatchMetadata) → from_tuple (to_tuple m) ≡ ok m
unfolding from_tuple
from_tuple-to_tuple m = refl

pub to_tuple-from_tuple :
    (vs : List ℕ) (m : SessionPatchMetadata) → from_tuple vs ≡ ok m → (to_tuple m ≡ vs)
unfolding from_tuple
to_tuple-from_tuple
      (profile_id ∷ reserved0 ∷ patch_mask ∷ target_cadence_x100 ∷ quality_tier ∷ degrade_policy
        ∷ active_lane_mask ∷ preferred_codec_bitmap ∷ preferred_compression_bitmap
        ∷ profile_patch_bytes ∷ [])
      m h0 =
    ground arith
to_tuple-from_tuple _ m h = cc
