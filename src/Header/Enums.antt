-- ===== src/Header/Enums.antt =====
-- core/enums.py: the values that a header carries.
use nnrp_py.Common.{
  ℕ, ◌<◌, ◌≡◌, refl, List, [], ◌∷◌, Result, ok, arith, find_member, find_member_value,
  find_member-RaisesOnly, RaisesOnly,
}

pub data WireFormat : Type 0 where
  current : WireFormat

abbrev pub wire_format_value : WireFormat → ℕ
wire_format_value current = 0

unfoldable pub to_wire_format : ℕ → Result WireFormat
to_wire_format = find_member wire_format_value (current ∷ [])

pub data MessageType : Type 0 where
  client_hello server_hello_ack session_patch session_patch_ack close error session_open :
      MessageType
  session_open_ack session_close session_close_ack flow_update result_hint transport_probe :
      MessageType
  transport_probe_ack session_migrate session_migrate_ack frame_submit frame_cancel : MessageType
  result_push result_drop cache_put cache_ack cache_invalidate ping pong cancel abort : MessageType
  priority_update deadline expire_at supersede budget_update progress partial_result : MessageType
  backpressure credit_update capability_negotiation degrade_profile route_hint : MessageType
  execution_hint trace_context result_drop_reason object_declare object_ref object_release :
      MessageType
  object_patch object_delta cache_reference cache_miss error_recoverable retry_after : MessageType

abbrev pub message_type_value : MessageType → ℕ
message_type_value client_hello = 0x01
message_type_value server_hello_ack = 0x02
message_type_value session_patch = 0x03
message_type_value session_patch_ack = 0x04
message_type_value close = 0x05
message_type_value error = 0x06
message_type_value session_open = 0x07
message_type_value session_open_ack = 0x08
message_type_value session_close = 0x09
message_type_value session_close_ack = 0x0a
message_type_value flow_update = 0x17
message_type_value result_hint = 0x18
message_type_value transport_probe = 0x19
message_type_value transport_probe_ack = 0x1a
message_type_value session_migrate = 0x1b
message_type_value session_migrate_ack = 0x1c
message_type_value frame_submit = 0x10
message_type_value frame_cancel = 0x11
message_type_value result_push = 0x12
message_type_value result_drop = 0x13
message_type_value cache_put = 0x14
message_type_value cache_ack = 0x15
message_type_value cache_invalidate = 0x16
message_type_value ping = 0x20
message_type_value pong = 0x21
message_type_value cancel = 0x30
message_type_value abort = 0x31
message_type_value priority_update = 0x32
message_type_value deadline = 0x33
message_type_value expire_at = 0x34
message_type_value supersede = 0x35
message_type_value budget_update = 0x36
message_type_value progress = 0x37
message_type_value partial_result = 0x38
message_type_value backpressure = 0x39
message_type_value credit_update = 0x3a
message_type_value capability_negotiation = 0x3b
message_type_value degrade_profile = 0x3c
message_type_value route_hint = 0x3d
message_type_value execution_hint = 0x3e
message_type_value trace_context = 0x3f
message_type_value result_drop_reason = 0x40
message_type_value object_declare = 0x41
message_type_value object_ref = 0x42
message_type_value object_release = 0x43
message_type_value object_patch = 0x44
message_type_value object_delta = 0x45
message_type_value cache_reference = 0x46
message_type_value cache_miss = 0x47
message_type_value error_recoverable = 0x48
message_type_value retry_after = 0x49

abbrev members : List MessageType
members =
    client_hello ∷ server_hello_ack ∷ session_patch ∷ session_patch_ack ∷ close ∷ error
    ∷ session_open ∷ session_open_ack ∷ session_close ∷ session_close_ack ∷ flow_update
    ∷ result_hint ∷ transport_probe ∷ transport_probe_ack ∷ session_migrate ∷ session_migrate_ack
    ∷ frame_submit ∷ frame_cancel ∷ result_push ∷ result_drop ∷ cache_put ∷ cache_ack
    ∷ cache_invalidate ∷ ping ∷ pong ∷ cancel ∷ abort ∷ priority_update ∷ deadline ∷ expire_at
    ∷ supersede ∷ budget_update ∷ progress ∷ partial_result ∷ backpressure ∷ credit_update
    ∷ capability_negotiation ∷ degrade_profile ∷ route_hint ∷ execution_hint ∷ trace_context
    ∷ result_drop_reason ∷ object_declare ∷ object_ref ∷ object_release ∷ object_patch
    ∷ object_delta ∷ cache_reference ∷ cache_miss ∷ error_recoverable ∷ retry_after ∷ []

unfoldable pub to_message_type : ℕ → Result MessageType
to_message_type = find_member message_type_value members

-- The value of a member finds that member, and a found member has the value that was looked up.
pub to_wire_format-value : (w : WireFormat) → to_wire_format (wire_format_value w) ≡ ok w
unfolding to_wire_format
to_wire_format-value current = refl

pub value-to_wire_format :
    (n : ℕ) (w : WireFormat) → to_wire_format n ≡ ok w → wire_format_value w ≡ n
unfolding to_wire_format
value-to_wire_format = find_member_value wire_format_value (current ∷ [])

pub to_message_type-value : (t : MessageType) → to_message_type (message_type_value t) ≡ ok t
unfolding to_message_type
to_message_type-value client_hello = refl
to_message_type-value _ = refl

pub value-to_message_type :
    (n : ℕ) (t : MessageType) → to_message_type n ≡ ok t → message_type_value t ≡ n
unfolding to_message_type
value-to_message_type = find_member_value message_type_value members

pub wire_format_value-lt : (w : WireFormat) → wire_format_value w < 256
wire_format_value-lt current = omega arith

pub message_type_value-lt : (t : MessageType) → message_type_value t < 256
message_type_value-lt client_hello = omega arith
message_type_value-lt _ = omega arith

pub to_wire_format-RaisesOnly : (n : ℕ) → RaisesOnly (to_wire_format n)
unfolding to_wire_format
to_wire_format-RaisesOnly n = find_member-RaisesOnly wire_format_value (current ∷ []) n

pub to_message_type-RaisesOnly : (n : ℕ) → RaisesOnly (to_message_type n)
unfolding to_message_type
to_message_type-RaisesOnly n = find_member-RaisesOnly message_type_value members n
