-- ===== src/Metadata/DataEnums.antt =====
-- core/messages/data.py: the enumerations that metadata carries.
use nnrp_py.Common.{ℕ, ◌≡◌, refl, [], ◌∷◌, Result, ok, find_member, find_member_value}

pub data InputProfile : Type 0 where
  unspecified changed_tiles_luma dense_luma_frame : InputProfile

abbrev pub input_profile_value : InputProfile → ℕ
input_profile_value InputProfile.unspecified = 0
input_profile_value InputProfile.changed_tiles_luma = 1
input_profile_value InputProfile.dense_luma_frame = 2

unfoldable pub to_input_profile : ℕ → Result InputProfile
to_input_profile = find_member input_profile_value (
    InputProfile.unspecified ∷ InputProfile.changed_tiles_luma ∷ InputProfile.dense_luma_frame ∷ [])

pub to_input_profile-value : (a : InputProfile) → to_input_profile (input_profile_value a) ≡ ok a
unfolding to_input_profile
to_input_profile-value InputProfile.unspecified = refl
to_input_profile-value _ = refl

pub value-to_input_profile :
    (n : ℕ) (a : InputProfile) → to_input_profile n ≡ ok a → input_profile_value a ≡ n
unfolding to_input_profile
value-to_input_profile = find_member_value input_profile_value (
    InputProfile.unspecified ∷ InputProfile.changed_tiles_luma ∷ InputProfile.dense_luma_frame ∷ [])

pub data TileIndexMode : Type 0 where
  dense_range raw_u16 delta_u16 bitset : TileIndexMode

abbrev pub tile_index_mode_value : TileIndexMode → ℕ
tile_index_mode_value TileIndexMode.dense_range = 0
tile_index_mode_value TileIndexMode.raw_u16 = 1
tile_index_mode_value TileIndexMode.delta_u16 = 2
tile_index_mode_value TileIndexMode.bitset = 3

unfoldable pub to_tile_index_mode : ℕ → Result TileIndexMode
to_tile_index_mode = find_member tile_index_mode_value (
    TileIndexMode.dense_range ∷ TileIndexMode.raw_u16 ∷ TileIndexMode.delta_u16
    ∷ TileIndexMode.bitset ∷ [])

pub to_tile_index_mode-value :
    (a : TileIndexMode) → to_tile_index_mode (tile_index_mode_value a) ≡ ok a
unfolding to_tile_index_mode
to_tile_index_mode-value TileIndexMode.dense_range = refl
to_tile_index_mode-value _ = refl

pub value-to_tile_index_mode :
    (n : ℕ) (a : TileIndexMode) → to_tile_index_mode n ≡ ok a → tile_index_mode_value a ≡ n
unfolding to_tile_index_mode
value-to_tile_index_mode = find_member_value tile_index_mode_value (
    TileIndexMode.dense_range ∷ TileIndexMode.raw_u16 ∷ TileIndexMode.delta_u16
    ∷ TileIndexMode.bitset ∷ [])

pub data TensorDType : Type 0 where
  fp16 fp32 fp8_e4m3 fp8_e5m2 int8 uint8 int16 uint16 : TensorDType

abbrev pub tensor_d_type_value : TensorDType → ℕ
tensor_d_type_value TensorDType.fp16 = 0
tensor_d_type_value TensorDType.fp32 = 1
tensor_d_type_value TensorDType.fp8_e4m3 = 2
tensor_d_type_value TensorDType.fp8_e5m2 = 3
tensor_d_type_value TensorDType.int8 = 4
tensor_d_type_value TensorDType.uint8 = 5
tensor_d_type_value TensorDType.int16 = 6
tensor_d_type_value TensorDType.uint16 = 7

unfoldable pub to_tensor_d_type : ℕ → Result TensorDType
to_tensor_d_type = find_member tensor_d_type_value (
    TensorDType.fp16 ∷ TensorDType.fp32 ∷ TensorDType.fp8_e4m3 ∷ TensorDType.fp8_e5m2
    ∷ TensorDType.int8 ∷ TensorDType.uint8 ∷ TensorDType.int16 ∷ TensorDType.uint16 ∷ [])

pub to_tensor_d_type-value : (a : TensorDType) → to_tensor_d_type (tensor_d_type_value a) ≡ ok a
unfolding to_tensor_d_type
to_tensor_d_type-value TensorDType.fp16 = refl
to_tensor_d_type-value _ = refl

pub value-to_tensor_d_type :
    (n : ℕ) (a : TensorDType) → to_tensor_d_type n ≡ ok a → tensor_d_type_value a ≡ n
unfolding to_tensor_d_type
value-to_tensor_d_type = find_member_value tensor_d_type_value (
    TensorDType.fp16 ∷ TensorDType.fp32 ∷ TensorDType.fp8_e4m3 ∷ TensorDType.fp8_e5m2
    ∷ TensorDType.int8 ∷ TensorDType.uint8 ∷ TensorDType.int16 ∷ TensorDType.uint16 ∷ [])

pub data TensorLayout : Type 0 where
  nhwc nchw : TensorLayout

abbrev pub tensor_layout_value : TensorLayout → ℕ
tensor_layout_value TensorLayout.nhwc = 0
tensor_layout_value TensorLayout.nchw = 1

unfoldable pub to_tensor_layout : ℕ → Result TensorLayout
to_tensor_layout = find_member tensor_layout_value (TensorLayout.nhwc ∷ TensorLayout.nchw ∷ [])

pub to_tensor_layout-value : (a : TensorLayout) → to_tensor_layout (tensor_layout_value a) ≡ ok a
unfolding to_tensor_layout
to_tensor_layout-value TensorLayout.nhwc = refl
to_tensor_layout-value _ = refl

pub value-to_tensor_layout :
    (n : ℕ) (a : TensorLayout) → to_tensor_layout n ≡ ok a → tensor_layout_value a ≡ n
unfolding to_tensor_layout
value-to_tensor_layout =
    find_member_value tensor_layout_value (TensorLayout.nhwc ∷ TensorLayout.nchw ∷ [])

pub data ScalePolicy : Type 0 where
  none linear zero_point : ScalePolicy

abbrev pub scale_policy_value : ScalePolicy → ℕ
scale_policy_value ScalePolicy.none = 0
scale_policy_value ScalePolicy.linear = 1
scale_policy_value ScalePolicy.zero_point = 2

unfoldable pub to_scale_policy : ℕ → Result ScalePolicy
to_scale_policy =
    find_member scale_policy_value
      (ScalePolicy.none ∷ ScalePolicy.linear ∷ ScalePolicy.zero_point ∷ [])

pub to_scale_policy-value : (a : ScalePolicy) → to_scale_policy (scale_policy_value a) ≡ ok a
unfolding to_scale_policy
to_scale_policy-value ScalePolicy.none = refl
to_scale_policy-value _ = refl

pub value-to_scale_policy :
    (n : ℕ) (a : ScalePolicy) → to_scale_policy n ≡ ok a → scale_policy_value a ≡ n
unfolding to_scale_policy
value-to_scale_policy =
    find_member_value scale_policy_value
      (ScalePolicy.none ∷ ScalePolicy.linear ∷ ScalePolicy.zero_point ∷ [])

pub data SubmitMode : Type 0 where
  inline reference mixed : SubmitMode

abbrev pub submit_mode_value : SubmitMode → ℕ
submit_mode_value SubmitMode.inline = 0
submit_mode_value SubmitMode.reference = 1
submit_mode_value SubmitMode.mixed = 2

unfoldable pub to_submit_mode : ℕ → Result SubmitMode
to_submit_mode =
    find_member submit_mode_value (SubmitMode.inline ∷ SubmitMode.reference ∷ SubmitMode.mixed ∷ [])

pub to_submit_mode-value : (a : SubmitMode) → to_submit_mode (submit_mode_value a) ≡ ok a
unfolding to_submit_mode
to_submit_mode-value SubmitMode.inline = refl
to_submit_mode-value _ = refl

pub value-to_submit_mode :
    (n : ℕ) (a : SubmitMode) → to_submit_mode n ≡ ok a → submit_mode_value a ≡ n
unfolding to_submit_mode
value-to_submit_mode =
    find_member_value submit_mode_value
      (SubmitMode.inline ∷ SubmitMode.reference ∷ SubmitMode.mixed ∷ [])

pub data ResultClass : Type 0 where
  complete partial stale_reuse degraded : ResultClass

abbrev pub result_class_value : ResultClass → ℕ
result_class_value ResultClass.complete = 0
result_class_value ResultClass.partial = 1
result_class_value ResultClass.stale_reuse = 2
result_class_value ResultClass.degraded = 3

unfoldable pub to_result_class : ℕ → Result ResultClass
to_result_class = find_member result_class_value (
    ResultClass.complete ∷ ResultClass.partial ∷ ResultClass.stale_reuse ∷ ResultClass.degraded
    ∷ [])

pub to_result_class-value : (a : ResultClass) → to_result_class (result_class_value a) ≡ ok a
unfolding to_result_class
to_result_class-value ResultClass.complete = refl
to_result_class-value _ = refl

pub value-to_result_class :
    (n : ℕ) (a : ResultClass) → to_result_class n ≡ ok a → result_class_value a ≡ n
unfolding to_result_class
value-to_result_class = find_member_value result_class_value (
    ResultClass.complete ∷ ResultClass.partial ∷ ResultClass.stale_reuse ∷ ResultClass.degraded
    ∷ [])
