-- ===== src/Metadata/FrameSubmit.antt =====
-- core/messages/data.py: FRAME_SUBMIT.
use nnrp_py.Common.{
  ℕ, ◌≡◌, List, [], ◌∷◌, not, ◌==◌, if◌then◌else◌, has_bit, Result, ok, err, struct_error, ◌>>=◌,
  ◌>>◌, >>=-eq-ok, require, from_ok, arith,
}
use nnrp_py.Struct.{Struct}
use nnrp_py.Metadata.{FixedWidth}
use nnrp_py.Metadata.DataEnums.{
  InputProfile, input_profile_value, to_input_profile, to_input_profile-value,
  value-to_input_profile, TileIndexMode, tile_index_mode_value, to_tile_index_mode,
  to_tile_index_mode-value, value-to_tile_index_mode, SubmitMode, submit_mode_value, to_submit_mode,
  to_submit_mode-value, value-to_submit_mode,
}
use nnrp_py.Metadata.Coerce.{
  coerce_budget_policy, coerce_loss_tolerance_policy, coerce_payload_kind_bitmap,
  coerce_budget_policy_same, coerce_loss_tolerance_policy_same, coerce_payload_kind_bitmap_same,
}

pub record FrameSubmitMetadata : Type 0 where
  pub src_width : ℕ
  pub src_height : ℕ
  pub tile_width : ℕ
  pub tile_height : ℕ
  pub tile_count : ℕ
  pub section_count : ℕ
  pub frame_class : ℕ
  pub input_profile : InputProfile
  pub tile_index_mode : TileIndexMode
  pub reserved0 : ℕ
  pub latency_budget_ms : ℕ
  pub target_fps_x100 : ℕ
  pub retry_of_frame : ℕ
  pub tile_base_id : ℕ
  pub camera_bytes : ℕ
  pub tile_index_bytes : ℕ
  pub reserved1 : ℕ
  pub operation_id : ℕ
  pub reserved2 : ℕ
  pub submit_mode : SubmitMode
  pub budget_policy : ℕ
  pub loss_tolerance_policy : ℕ
  pub reserved3 : ℕ
  pub object_ref_mask : ℕ
  pub dependency_frame_id : ℕ
  pub payload_kind_bitmap : ℕ
  pub payload_frame_count : ℕ
  pub reserved4 : ℕ

abbrev pub struct : Struct
struct =
    2 ∷ 2 ∷ 2 ∷ 2 ∷ 2 ∷ 2 ∷ 1 ∷ 1 ∷ 1 ∷ 1 ∷ 2 ∷ 2 ∷ 4 ∷ 4 ∷ 4 ∷ 4 ∷ 4 ∷ 8 ∷ 4 ∷ 1 ∷ 1 ∷ 1 ∷ 1 ∷ 4
    ∷ 4 ∷ 4 ∷ 2 ∷ 2 ∷ []

-- `_validate_non_tensor_submit_fields`
unfoldable pub check_non_tensor_fields : FrameSubmitMetadata → Result (Unit {0})
check_non_tensor_fields m = if has_bit m.payload_kind_bitmap 0x01 then ok tt else do
  require (m.src_width == 0)
  require (m.src_height == 0)
  require (m.tile_width == 0)
  require (m.tile_height == 0)
  require (m.tile_count == 0)
  require (m.section_count == 0)
  require (m.tile_base_id == 0)
  require (m.camera_bytes == 0)
  require (m.tile_index_bytes == 0)
  require (input_profile_value m.input_profile == 0)

-- `__post_init__`
unfoldable pub check : FrameSubmitMetadata → Result (Unit {0})
unfolding check_non_tensor_fields
check m = do
  budget_policy ← coerce_budget_policy m.budget_policy
  loss_tolerance_policy ← coerce_loss_tolerance_policy m.loss_tolerance_policy
  payload_kind_bitmap ← coerce_payload_kind_bitmap m.payload_kind_bitmap
  require (not (m.operation_id == 0))
  check_non_tensor_fields m

abbrev pub to_tuple : FrameSubmitMetadata → List ℕ
to_tuple m =
    m.src_width
    ∷ m.src_height
    ∷ m.tile_width
    ∷ m.tile_height
    ∷ m.tile_count
    ∷ m.section_count
    ∷ m.frame_class
    ∷ input_profile_value m.input_profile
    ∷ tile_index_mode_value m.tile_index_mode
    ∷ m.reserved0
    ∷ m.latency_budget_ms
    ∷ m.target_fps_x100
    ∷ m.retry_of_frame
    ∷ m.tile_base_id
    ∷ m.camera_bytes
    ∷ m.tile_index_bytes
    ∷ m.reserved1
    ∷ m.operation_id
    ∷ m.reserved2
    ∷ submit_mode_value m.submit_mode
    ∷ m.budget_policy
    ∷ m.loss_tolerance_policy
    ∷ m.reserved3
    ∷ m.object_ref_mask
    ∷ m.dependency_frame_id
    ∷ m.payload_kind_bitmap
    ∷ m.payload_frame_count
    ∷ m.reserved4
    ∷ []

unfoldable pub from_tuple : List ℕ → Result FrameSubmitMetadata
from_tuple
      (src_width ∷ src_height ∷ tile_width ∷ tile_height ∷ tile_count ∷ section_count ∷ frame_class
        ∷ input_profile ∷ tile_index_mode ∷ reserved0 ∷ latency_budget_ms ∷ target_fps_x100
        ∷ retry_of_frame ∷ tile_base_id ∷ camera_bytes ∷ tile_index_bytes ∷ reserved1 ∷ operation_id
        ∷ reserved2 ∷ submit_mode ∷ budget_policy ∷ loss_tolerance_policy ∷ reserved3
        ∷ object_ref_mask ∷ dependency_frame_id ∷ payload_kind_bitmap ∷ payload_frame_count
        ∷ reserved4 ∷ []) =
    do
      input_profile_member ← to_input_profile input_profile
      tile_index_mode_member ← to_tile_index_mode tile_index_mode
      submit_mode_member ← to_submit_mode submit_mode
      budget_policy_checked ← coerce_budget_policy budget_policy
      loss_tolerance_policy_checked ← coerce_loss_tolerance_policy loss_tolerance_policy
      payload_kind_bitmap_checked ← coerce_payload_kind_bitmap payload_kind_bitmap
      let made : FrameSubmitMetadata = record {
        src_width = src_width;
        src_height = src_height;
        tile_width = tile_width;
        tile_height = tile_height;
        tile_count = tile_count;
        section_count = section_count;
        frame_class = frame_class;
        input_profile = input_profile_member;
        tile_index_mode = tile_index_mode_member;
        reserved0 = reserved0;
        latency_budget_ms = latency_budget_ms;
        target_fps_x100 = target_fps_x100;
        retry_of_frame = retry_of_frame;
        tile_base_id = tile_base_id;
        camera_bytes = camera_bytes;
        tile_index_bytes = tile_index_bytes;
        reserved1 = reserved1;
        operation_id = operation_id;
        reserved2 = reserved2;
        submit_mode = submit_mode_member;
        budget_policy = budget_policy_checked;
        loss_tolerance_policy = loss_tolerance_policy_checked;
        reserved3 = reserved3;
        object_ref_mask = object_ref_mask;
        dependency_frame_id = dependency_frame_id;
        payload_kind_bitmap = payload_kind_bitmap_checked;
        payload_frame_count = payload_frame_count;
        reserved4 = reserved4;
      }
      check made
      ok made
from_tuple _ = err struct_error

abbrev pub codec : FixedWidth FrameSubmitMetadata
codec = record {
  struct = struct;
  check_pack = λ _. ok tt;
  to_tuple = to_tuple;
  from_tuple = from_tuple;
}

coerced :
    (m : FrameSubmitMetadata)
    → check m ≡ ok tt
    → (coerce_budget_policy m.budget_policy ≡ ok m.budget_policy)
      × (coerce_loss_tolerance_policy m.loss_tolerance_policy ≡ ok m.loss_tolerance_policy)
      × (coerce_payload_kind_bitmap m.payload_kind_bitmap ≡ ok m.payload_kind_bitmap)
unfolding check
coerced m valid =
    let (v0, found0, rest0) = >>=-eq-ok (coerce_budget_policy m.budget_policy) _ valid in
    let same0 = coerce_budget_policy_same m.budget_policy v0 found0 in
    let (v1, found1, rest1) =
      >>=-eq-ok (coerce_loss_tolerance_policy m.loss_tolerance_policy) _ rest0 in
    let same1 = coerce_loss_tolerance_policy_same m.loss_tolerance_policy v1 found1 in
    let (v2, found2, rest2) =
      >>=-eq-ok (coerce_payload_kind_bitmap m.payload_kind_bitmap) _ rest1 in
    let same2 = coerce_payload_kind_bitmap_same m.payload_kind_bitmap v2 found2 in
    (ground arith, ground arith, ground arith)

pub from_tuple-to_tuple :
    (m : FrameSubmitMetadata) → check m ≡ ok tt → from_tuple (to_tuple m) ≡ ok m
unfolding from_tuple
from_tuple-to_tuple m valid =
    let (b, l, p) = coerced m valid in
    rw (
      to_input_profile-value m.input_profile,
      to_tile_index_mode-value m.tile_index_mode,
      to_submit_mode-value m.submit_mode,
      b,
      l,
      p,
      valid,
    )

pub to_tuple-from_tuple :
    (vs : List ℕ) (m : FrameSubmitMetadata)
    → from_tuple vs ≡ ok m
    → (to_tuple m ≡ vs) × (check m ≡ ok tt)
unfolding from_tuple
to_tuple-from_tuple
      (src_width ∷ src_height ∷ tile_width ∷ tile_height ∷ tile_count ∷ section_count ∷ frame_class
        ∷ input_profile ∷ tile_index_mode ∷ reserved0 ∷ latency_budget_ms ∷ target_fps_x100
        ∷ retry_of_frame ∷ tile_base_id ∷ camera_bytes ∷ tile_index_bytes ∷ reserved1 ∷ operation_id
        ∷ reserved2 ∷ submit_mode ∷ budget_policy ∷ loss_tolerance_policy ∷ reserved3
        ∷ object_ref_mask ∷ dependency_frame_id ∷ payload_kind_bitmap ∷ payload_frame_count
        ∷ reserved4 ∷ [])
      m h0 =
    let (input_profile_member, found_0, h1) = >>=-eq-ok (to_input_profile input_profile) _ h0 in
    let value_0 = value-to_input_profile input_profile input_profile_member found_0 in
    let (tile_index_mode_member, found_1, h2) =
      >>=-eq-ok (to_tile_index_mode tile_index_mode) _ h1 in
    let value_1 = value-to_tile_index_mode tile_index_mode tile_index_mode_member found_1 in
    let (submit_mode_member, found_2, h3) = >>=-eq-ok (to_submit_mode submit_mode) _ h2 in
    let value_2 = value-to_submit_mode submit_mode submit_mode_member found_2 in
    let (budget_policy_checked, found_3, h4) =
      >>=-eq-ok (coerce_budget_policy budget_policy) _ h3 in
    let value_3 = coerce_budget_policy_same budget_policy budget_policy_checked found_3 in
    let (loss_tolerance_policy_checked, found_4, h5) =
      >>=-eq-ok (coerce_loss_tolerance_policy loss_tolerance_policy) _ h4 in
    let value_4 =
      coerce_loss_tolerance_policy_same loss_tolerance_policy loss_tolerance_policy_checked
        found_4 in
    let (payload_kind_bitmap_checked, found_5, h6) =
      >>=-eq-ok (coerce_payload_kind_bitmap payload_kind_bitmap) _ h5 in
    let value_5 =
      coerce_payload_kind_bitmap_same payload_kind_bitmap payload_kind_bitmap_checked found_5 in
    let made : FrameSubmitMetadata = record {
      src_width = src_width;
      src_height = src_height;
      tile_width = tile_width;
      tile_height = tile_height;
      tile_count = tile_count;
      section_count = section_count;
      frame_class = frame_class;
      input_profile = input_profile_member;
      tile_index_mode = tile_index_mode_member;
      reserved0 = reserved0;
      latency_budget_ms = latency_budget_ms;
      target_fps_x100 = target_fps_x100;
      retry_of_frame = retry_of_frame;
      tile_base_id = tile_base_id;
      camera_bytes = camera_bytes;
      tile_index_bytes = tile_index_bytes;
      reserved1 = reserved1;
      operation_id = operation_id;
      reserved2 = reserved2;
      submit_mode = submit_mode_member;
      budget_policy = budget_policy_checked;
      loss_tolerance_policy = loss_tolerance_policy_checked;
      reserved3 = reserved3;
      object_ref_mask = object_ref_mask;
      dependency_frame_id = dependency_frame_id;
      payload_kind_bitmap = payload_kind_bitmap_checked;
      payload_frame_count = payload_frame_count;
      reserved4 = reserved4;
    } in
    let (_, valid, h7) = >>=-eq-ok (check made) _ h6 in
    let same : made ≡ m = from_ok made m h7 in (ground arith, rw (← same) valid)
to_tuple-from_tuple _ m h = cc
