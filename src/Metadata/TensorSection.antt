-- ===== src/Metadata/TensorSection.antt =====
-- core/messages/data.py: the descriptor of a tensor section.
use nnrp_py.Common.{ℕ, ◌≡◌, List, [], ◌∷◌, Result, ok, err, struct_error, ◌>>=◌, >>=-eq-ok, arith}
use nnrp_py.Struct.{Struct}
use nnrp_py.Metadata.{FixedWidth}
use nnrp_py.Metadata.DataEnums.{
  TensorDType, tensor_d_type_value, to_tensor_d_type, to_tensor_d_type-value,
  value-to_tensor_d_type, TensorLayout, tensor_layout_value, to_tensor_layout,
  to_tensor_layout-value, value-to_tensor_layout, ScalePolicy, scale_policy_value, to_scale_policy,
  to_scale_policy-value, value-to_scale_policy,
}

pub record TensorSectionDesc : Type 0 where
  pub role_id : ℕ
  pub codec_id : ℕ
  pub dtype_id : TensorDType
  pub layout_id : TensorLayout
  pub scale_policy : ScalePolicy
  pub flags : ℕ
  pub element_count_per_tile : ℕ
  pub codec_table_bytes : ℕ
  pub length_table_bytes : ℕ
  pub payload_bytes : ℕ
  pub payload_stride_bytes : ℕ
  pub reserved : ℕ

abbrev pub struct : Struct
struct = 2 ∷ 1 ∷ 1 ∷ 1 ∷ 1 ∷ 2 ∷ 4 ∷ 4 ∷ 4 ∷ 4 ∷ 4 ∷ 4 ∷ []

abbrev pub to_tuple : TensorSectionDesc → List ℕ
to_tuple m =
    m.role_id
    ∷ m.codec_id
    ∷ tensor_d_type_value m.dtype_id
    ∷ tensor_layout_value m.layout_id
    ∷ scale_policy_value m.scale_policy
    ∷ m.flags
    ∷ m.element_count_per_tile
    ∷ m.codec_table_bytes
    ∷ m.length_table_bytes
    ∷ m.payload_bytes
    ∷ m.payload_stride_bytes
    ∷ m.reserved
    ∷ []

unfoldable pub from_tuple : List ℕ → Result TensorSectionDesc
from_tuple
      (role_id ∷ codec_id ∷ dtype_id ∷ layout_id ∷ scale_policy ∷ flags ∷ element_count_per_tile
        ∷ codec_table_bytes ∷ length_table_bytes ∷ payload_bytes ∷ payload_stride_bytes ∷ reserved
        ∷ []) =
    do
      dtype_id_member ← to_tensor_d_type dtype_id
      layout_id_member ← to_tensor_layout layout_id
      scale_policy_member ← to_scale_policy scale_policy
      ok (record {
        role_id = role_id;
        codec_id = codec_id;
        dtype_id = dtype_id_member;
        layout_id = layout_id_member;
        scale_policy = scale_policy_member;
        flags = flags;
        element_count_per_tile = element_count_per_tile;
        codec_table_bytes = codec_table_bytes;
        length_table_bytes = length_table_bytes;
        payload_bytes = payload_bytes;
        payload_stride_bytes = payload_stride_bytes;
        reserved = reserved;
      })
from_tuple _ = err struct_error

abbrev pub codec : FixedWidth TensorSectionDesc
codec = record {
  struct = struct;
  check_pack = λ _. ok tt;
  to_tuple = to_tuple;
  from_tuple = from_tuple;
}

pub from_tuple-to_tuple : (m : TensorSectionDesc) → from_tuple (to_tuple m) ≡ ok m
unfolding from_tuple
from_tuple-to_tuple m = rw (
  to_tensor_d_type-value m.dtype_id,
  to_tensor_layout-value m.layout_id,
  to_scale_policy-value m.scale_policy,
)

pub to_tuple-from_tuple :
    (vs : List ℕ) (m : TensorSectionDesc) → from_tuple vs ≡ ok m → (to_tuple m ≡ vs)
unfolding from_tuple
to_tuple-from_tuple
      (role_id ∷ codec_id ∷ dtype_id ∷ layout_id ∷ scale_policy ∷ flags ∷ element_count_per_tile
        ∷ codec_table_bytes ∷ length_table_bytes ∷ payload_bytes ∷ payload_stride_bytes ∷ reserved
        ∷ [])
      m h0 =
    let (dtype_id_member, found_0, h1) = >>=-eq-ok (to_tensor_d_type dtype_id) _ h0 in
    let value_0 = value-to_tensor_d_type dtype_id dtype_id_member found_0 in
    let (layout_id_member, found_1, h2) = >>=-eq-ok (to_tensor_layout layout_id) _ h1 in
    let value_1 = value-to_tensor_layout layout_id layout_id_member found_1 in
    let (scale_policy_member, found_2, h3) = >>=-eq-ok (to_scale_policy scale_policy) _ h2 in
    let value_2 = value-to_scale_policy scale_policy scale_policy_member found_2 in ground arith
to_tuple-from_tuple _ m h = cc
