-- ===== src/Metadata/Coerce.antt =====
-- core/messages/control.py and data.py: the `_coerce_…` helpers, which let a value through or raise
-- ValueError.
use nnrp_py.Common.{
  ℕ, ◌-◌, ◌≡◌, Bool, not, ◌&&◌, ◌||◌, ◌==◌, if◌then◌else◌, bits_outside, bit_and, Result, ok, ◌>>=◌,
  ◌>>◌, require, arith,
}
use nnrp_py.Metadata.ControlEnums.{
  TransportId, transport_id_value, to_transport_id, to_transport_id-value, value-to_transport_id,
  to_loss_tolerance,
}

unfoldable pub coerce_result_flags : ℕ → Result ℕ
coerce_result_flags value = do require (bits_outside value 0x07 == 0); ok value

unfoldable pub coerce_budget_policy : ℕ → Result ℕ
coerce_budget_policy value = do require (bits_outside value 0x0f == 0); ok value

unfoldable pub coerce_payload_kind_bitmap : ℕ → Result ℕ
coerce_payload_kind_bitmap value = do require (bits_outside value 0x7f == 0); ok value

-- Exactly one bit: `x & (x - 1)` clears the lowest bit of a positive x.
abbrev pub is_single_bit : ℕ → Bool
is_single_bit value = not (value == 0) && bit_and value (value - 1) == 0

unfoldable pub coerce_single_payload_kind : ℕ → Result ℕ
unfolding coerce_payload_kind_bitmap
coerce_single_payload_kind value = do
  bitmap ← coerce_payload_kind_bitmap value
  require (is_single_bit bitmap)
  ok bitmap

unfoldable pub coerce_extension_frame_flags : ℕ → Result ℕ
coerce_extension_frame_flags value = do require (bits_outside value 0x01 == 0); ok value

-- 0xff stands for the session's policy.
unfoldable pub coerce_loss_tolerance_policy : ℕ → Result ℕ
coerce_loss_tolerance_policy value =
    if value == 0xff then ok value else do member ← to_loss_tolerance value; ok value

unfoldable pub coerce_transport_id : Bool → ℕ → Result TransportId
coerce_transport_id allow_unspecified value = do
  transport_id ← to_transport_id value
  require (allow_unspecified || not (transport_id_value transport_id == 0))
  ok transport_id

-- What they let through is the value itself.
pub coerce_result_flags_same : (value a : ℕ) → coerce_result_flags value ≡ ok a → value ≡ a
unfolding coerce_result_flags
coerce_result_flags_same value a h = ground arith

pub coerce_budget_policy_same : (value a : ℕ) → coerce_budget_policy value ≡ ok a → value ≡ a
unfolding coerce_budget_policy
coerce_budget_policy_same value a h = ground arith

pub coerce_payload_kind_bitmap_same :
    (value a : ℕ) → coerce_payload_kind_bitmap value ≡ ok a → value ≡ a
unfolding coerce_payload_kind_bitmap
coerce_payload_kind_bitmap_same value a h = ground arith

pub coerce_extension_frame_flags_same :
    (value a : ℕ) → coerce_extension_frame_flags value ≡ ok a → value ≡ a
unfolding coerce_extension_frame_flags
coerce_extension_frame_flags_same value a h = ground arith

pub coerce_loss_tolerance_policy_same :
    (value a : ℕ) → coerce_loss_tolerance_policy value ≡ ok a → value ≡ a
unfolding coerce_loss_tolerance_policy
coerce_loss_tolerance_policy_same value a h = ground arith

pub coerce_transport_id-value :
    (allow : Bool) (t a : TransportId)
    → coerce_transport_id allow (transport_id_value t) ≡ ok a
    → a ≡ t
unfolding coerce_transport_id
coerce_transport_id-value allow t a h = ground (arith, to_transport_id-value t)

pub value-coerce_transport_id :
    (allow : Bool) (n : ℕ) (a : TransportId)
    → coerce_transport_id allow n ≡ ok a
    → (transport_id_value a ≡ n) × (coerce_transport_id allow (transport_id_value a) ≡ ok a)
unfolding coerce_transport_id
value-coerce_transport_id allow n a h =
    ground (arith, value-to_transport_id n a, to_transport_id-value a)
