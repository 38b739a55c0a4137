-- ===== src/Metadata/ResultPush.antt =====
-- core/messages/data.py: RESULT_PUSH.
use nnrp_py.Common.{
  ℕ, ◌+◌, ◌≡◌, List, [], ◌∷◌, Bool, not, ◌&&◌, ◌||◌, ◌==◌, leb, if◌then◌else◌, has_bit, Result, ok,
  err, struct_error, ◌>>=◌, ◌>>◌, >>=-eq-ok, require, from_ok, arith,
}
use nnrp_py.Struct.{Struct}
use nnrp_py.Metadata.{FixedWidth}
use nnrp_py.Metadata.DataEnums.{
  ResultClass, result_class_value, to_result_class, to_result_class-value, value-to_result_class,
}
use nnrp_py.Metadata.Coerce.{
  coerce_budget_policy, coerce_result_flags, coerce_payload_kind_bitmap, coerce_budget_policy_same,
  coerce_result_flags_same, coerce_payload_kind_bitmap_same,
}

pub record ResultPushMetadata : Type 0 where
  pub status_code : ℕ
  pub result_flags : ℕ
  pub section_count : ℕ
  pub tile_count : ℕ
  pub active_profile_id : ℕ
  pub reserved0 : ℕ
  pub inference_ms : ℕ
  pub queue_ms : ℕ
  pub server_total_ms : ℕ
  pub reserved1 : ℕ
  pub tile_base_id : ℕ
  pub tile_index_bytes : ℕ
  pub reserved2 : ℕ
  pub reserved3 : ℕ
  pub result_class : ResultClass
  pub applied_budget_policy : ℕ
  pub reserved4 : ℕ
  pub reused_frame_id : ℕ
  pub covered_tile_count : ℕ
  pub dropped_tile_count : ℕ
  pub payload_kind_bitmap : ℕ
  pub payload_frame_count : ℕ
  pub reserved5 : ℕ

abbrev pub struct : Struct
struct =
    2 ∷ 2 ∷ 2 ∷ 2 ∷ 2 ∷ 2 ∷ 2 ∷ 2 ∷ 2 ∷ 2 ∷ 4 ∷ 4 ∷ 8 ∷ 8 ∷ 1 ∷ 1 ∷ 2 ∷ 4 ∷ 2 ∷ 2 ∷ 4 ∷ 2 ∷ 2 ∷ []

-- `_validate_non_tensor_result_fields`
unfoldable pub check_non_tensor_fields : ResultPushMetadata → Result (Unit {0})
check_non_tensor_fields m = if has_bit m.payload_kind_bitmap 0x01 then ok tt else do
  require (m.section_count == 0)
  require (m.tile_count == 0)
  require (m.tile_base_id == 0)
  require (m.tile_index_bytes == 0)
  require (m.covered_tile_count == 0)
  require (m.dropped_tile_count == 0)

abbrev pub is_stale : ResultPushMetadata → Bool
is_stale m = result_class_value m.result_class == 2 || has_bit m.result_flags 0x01

abbrev pub is_partial : ResultPushMetadata → Bool
is_partial m = result_class_value m.result_class == 1 || has_bit m.result_flags 0x04

check_coverage : ResultPushMetadata → Result (Unit {0})
check_coverage m =
    if has_bit m.payload_kind_bitmap 0x01
    then (do
      require (not (is_partial m && m.dropped_tile_count == 0))
      require (leb m.covered_tile_count m.tile_count && leb m.dropped_tile_count m.tile_count)
      require (m.covered_tile_count + m.dropped_tile_count == m.tile_count))
    else ok tt

-- `_validate_result_push_contract`
unfoldable pub check_contract : ResultPushMetadata → Result (Unit {0})
unfolding check_coverage
check_contract m = do
  require (if is_stale m then not (m.reused_frame_id == 0) else m.reused_frame_id == 0)
  check_coverage m

-- `__post_init__`
unfoldable pub check : ResultPushMetadata → Result (Unit {0})
unfolding check_non_tensor_fields check_contract
check m = do
  result_flags ← coerce_result_flags m.result_flags
  applied_budget_policy ← coerce_budget_policy m.applied_budget_policy
  payload_kind_bitmap ← coerce_payload_kind_bitmap m.payload_kind_bitmap
  check_non_tensor_fields m
  check_contract m

abbrev pub to_tuple : ResultPushMetadata → List ℕ
to_tuple m =
    m.status_code
    ∷ m.result_flags
    ∷ m.section_count
    ∷ m.tile_count
    ∷ m.active_profile_id
    ∷ m.reserved0
    ∷ m.inference_ms
    ∷ m.queue_ms
    ∷ m.server_total_ms
    ∷ m.reserved1
    ∷ m.tile_base_id
    ∷ m.tile_index_bytes
    ∷ m.reserved2
    ∷ m.reserved3
    ∷ result_class_value m.result_class
    ∷ m.applied_budget_policy
    ∷ m.reserved4
    ∷ m.reused_frame_id
    ∷ m.covered_tile_count
    ∷ m.dropped_tile_count
    ∷ m.payload_kind_bitmap
    ∷ m.payload_frame_count
    ∷ m.reserved5
    ∷ []

unfoldable pub from_tuple : List ℕ → Result ResultPushMetadata
from_tuple
      (status_code ∷ result_flags ∷ section_count ∷ tile_count ∷ active_profile_id ∷ reserved0
        ∷ inference_ms ∷ queue_ms ∷ server_total_ms ∷ reserved1 ∷ tile_base_id ∷ tile_index_bytes
        ∷ reserved2 ∷ reserved3 ∷ result_class ∷ applied_budget_policy ∷ reserved4 ∷ reused_frame_id
        ∷ covered_tile_count ∷ dropped_tile_count ∷ payload_kind_bitmap ∷ payload_frame_count
        ∷ reserved5 ∷ []) =
    do
      result_flags_checked ← coerce_result_flags result_flags
      result_class_member ← to_result_class result_class
      applied_budget_policy_checked ← coerce_budget_policy applied_budget_policy
      payload_kind_bitmap_checked ← coerce_payload_kind_bitmap payload_kind_bitmap
      let made : ResultPushMetadata = record {
        status_code = status_code;
        result_flags = result_flags_checked;
        section_count = section_count;
        tile_count = tile_count;
        active_profile_id = active_profile_id;
        reserved0 = reserved0;
        inference_ms = inference_ms;
        queue_ms = queue_ms;
        server_total_ms = server_total_ms;
        reserved1 = reserved1;
        tile_base_id = tile_base_id;
        tile_index_bytes = tile_index_bytes;
        reserved2 = reserved2;
        reserved3 = reserved3;
        result_class = result_class_member;
        applied_budget_policy = applied_budget_policy_checked;
        reserved4 = reserved4;
        reused_frame_id = reused_frame_id;
        covered_tile_count = covered_tile_count;
        dropped_tile_count = dropped_tile_count;
        payload_kind_bitmap = payload_kind_bitmap_checked;
        payload_frame_count = payload_frame_count;
        reserved5 = reserved5;
      }
      check made
      ok made
from_tuple _ = err struct_error

abbrev pub codec : FixedWidth ResultPushMetadata
codec = record {
  struct = struct;
  check_pack = λ _. ok tt;
  to_tuple = to_tuple;
  from_tuple = from_tuple;
}

coerced :
    (m : ResultPushMetadata)
    → check m ≡ ok tt
    → (coerce_result_flags m.result_flags ≡ ok m.result_flags)
      × (coerce_budget_policy m.applied_budget_policy ≡ ok m.applied_budget_policy)
      × (coerce_payload_kind_bitmap m.payload_kind_bitmap ≡ ok m.payload_kind_bitmap)
unfolding check
coerced m valid =
    let (v0, found0, rest0) = >>=-eq-ok (coerce_result_flags m.result_flags) _ valid in
    let same0 = coerce_result_flags_same m.result_flags v0 found0 in
    let (v1, found1, rest1) = >>=-eq-ok (coerce_budget_policy m.applied_budget_policy) _ rest0 in
    let same1 = coerce_budget_policy_same m.applied_budget_policy v1 found1 in
    let (v2, found2, rest2) =
      >>=-eq-ok (coerce_payload_kind_bitmap m.payload_kind_bitmap) _ rest1 in
    let same2 = coerce_payload_kind_bitmap_same m.payload_kind_bitmap v2 found2 in
    (ground arith, ground arith, ground arith)

pub from_tuple-to_tuple :
    (m : ResultPushMetadata) → check m ≡ ok tt → from_tuple (to_tuple m) ≡ ok m
unfolding from_tuple
from_tuple-to_tuple m valid =
    let (f, b, p) = coerced m valid in rw (to_result_class-value m.result_class, f, b, p, valid)

pub to_tuple-from_tuple :
    (vs : List ℕ) (m : ResultPushMetadata)
    → from_tuple vs ≡ ok m
    → (to_tuple m ≡ vs) × (check m ≡ ok tt)
unfolding from_tuple
to_tuple-from_tuple
      (status_code ∷ result_flags ∷ section_count ∷ tile_count ∷ active_profile_id ∷ reserved0
        ∷ inference_ms ∷ queue_ms ∷ server_total_ms ∷ reserved1 ∷ tile_base_id ∷ tile_index_bytes
        ∷ reserved2 ∷ reserved3 ∷ result_class ∷ applied_budget_policy ∷ reserved4 ∷ reused_frame_id
        ∷ covered_tile_count ∷ dropped_tile_count ∷ payload_kind_bitmap ∷ payload_frame_count
        ∷ reserved5 ∷ [])
      m h0 =
    let (result_flags_checked, found_0, h1) = >>=-eq-ok (coerce_result_flags result_flags) _ h0 in
    let value_0 = coerce_result_flags_same result_flags result_flags_checked found_0 in
    let (result_class_member, found_1, h2) = >>=-eq-ok (to_result_class result_class) _ h1 in
    let value_1 = value-to_result_class result_class result_class_member found_1 in
    let (applied_budget_policy_checked, found_2, h3) =
      >>=-eq-ok (coerce_budget_policy applied_budget_policy) _ h2 in
    let value_2 =
      coerce_budget_policy_same applied_budget_policy applied_budget_policy_checked found_2 in
    let (payload_kind_bitmap_checked, found_3, h4) =
      >>=-eq-ok (coerce_payload_kind_bitmap payload_kind_bitmap) _ h3 in
    let value_3 =
      coerce_payload_kind_bitmap_same payload_kind_bitmap payload_kind_bitmap_checked found_3 in
    let made : ResultPushMetadata = record {
      status_code = status_code;
      result_flags = result_flags_checked;
      section_count = section_count;
      tile_count = tile_count;
      active_profile_id = active_profile_id;
      reserved0 = reserved0;
      inference_ms = inference_ms;
      queue_ms = queue_ms;
      server_total_ms = server_total_ms;
      reserved1 = reserved1;
      tile_base_id = tile_base_id;
      tile_index_bytes = tile_index_bytes;
      reserved2 = reserved2;
      reserved3 = reserved3;
      result_class = result_class_member;
      applied_budget_policy = applied_budget_policy_checked;
      reserved4 = reserved4;
      reused_frame_id = reused_frame_id;
      covered_tile_count = covered_tile_count;
      dropped_tile_count = dropped_tile_count;
      payload_kind_bitmap = payload_kind_bitmap_checked;
      payload_frame_count = payload_frame_count;
      reserved5 = reserved5;
    } in
    let (_, valid, h5) = >>=-eq-ok (check made) _ h4 in
    let same : made ≡ m = from_ok made m h5 in (ground arith, rw (← same) valid)
to_tuple-from_tuple _ m h = cc
