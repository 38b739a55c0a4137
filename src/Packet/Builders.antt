-- ===== src/Packet/Builders.antt =====
-- core/packet.py: the functions that build one kind of packet each, from the metadata of its class
-- and the header fields that it takes. A field that a function does not take is 0.
pub mod Received
pub mod ResultPush
use nnrp_py.Common.{
  ℕ, Bool, true, false, not, ◌&&◌, ◌==◌, length, [], Result, ok, ◌>>=◌, ◌>>◌, require,
}
use nnrp_py.Struct.{Bytes}
use nnrp_py.Header.Enums.{WireFormat, MessageType}
use nnrp_py.Metadata
use nnrp_py.Metadata.ControlEnums.{FlowUpdateScopeKind}
use nnrp_py.Metadata.FlowUpdate
use nnrp_py.Metadata.FlowUpdate.{FlowUpdateMetadata}
use nnrp_py.Metadata.ResultHint
use nnrp_py.Metadata.ResultHint.{ResultHintMetadata}
use nnrp_py.Metadata.TransportProbe
use nnrp_py.Metadata.TransportProbe.{TransportProbeMetadata}
use nnrp_py.Metadata.TransportProbeAck
use nnrp_py.Metadata.TransportProbeAck.{TransportProbeAckMetadata}
use nnrp_py.Metadata.SessionMigrate
use nnrp_py.Metadata.SessionMigrate.{SessionMigrateMetadata}
use nnrp_py.Metadata.SessionMigrateAck
use nnrp_py.Metadata.SessionMigrateAck.{SessionMigrateAckMetadata}
use nnrp_py.Packet
use nnrp_py.Packet.{NnrpPacket, Fields}

-- The keyword arguments of `build_header_only_packet` but the type.
pub record Route : Type 0 where
  pub session_id : ℕ
  pub frame_id : ℕ
  pub view_id : ℕ
  pub route_id : ℕ
  pub trace_id : ℕ
  pub flags : ℕ

abbrev pub current_fields : MessageType → Route → Fields
current_fields msg_type r = record {
  version_major = 1;
  wire_format = WireFormat.current;
  msg_type = msg_type;
  flags = r.flags;
  session_id = r.session_id;
  frame_id = r.frame_id;
  view_id = r.view_id;
  route_id = r.route_id;
  trace_id = r.trace_id;
}

abbrev pub is_header_only : MessageType → Bool
is_header_only MessageType.frame_cancel = true
is_header_only MessageType.ping = true
is_header_only MessageType.pong = true
is_header_only _ = false

unfoldable pub build_header_only_packet : MessageType → Route → Result NnrpPacket
build_header_only_packet msg_type r = do
  require (is_header_only msg_type)
  ok (Packet.build (current_fields msg_type r) [] [])

-- The route of a function that takes a session, a route, a trace and flags, in this order.
abbrev pub session_route : ℕ → ℕ → ℕ → ℕ → Route
session_route session_id route_id trace_id flags = record {
  session_id = session_id;
  frame_id = 0;
  view_id = 0;
  route_id = route_id;
  trace_id = trace_id;
  flags = flags;
}

abbrev pub build_frame_cancel_packet : Route → Result NnrpPacket
build_frame_cancel_packet r = build_header_only_packet MessageType.frame_cancel r

abbrev pub build_ping_packet : ℕ → ℕ → ℕ → ℕ → Result NnrpPacket
build_ping_packet session_id route_id trace_id flags =
    build_header_only_packet MessageType.ping (session_route session_id route_id trace_id flags)

abbrev pub build_pong_packet : ℕ → ℕ → ℕ → ℕ → Result NnrpPacket
build_pong_packet session_id route_id trace_id flags =
    build_header_only_packet MessageType.pong (session_route session_id route_id trace_id flags)

abbrev pub build_result_drop_packet : Route → NnrpPacket
build_result_drop_packet r = Packet.build (current_fields MessageType.result_drop r) [] []

abbrev pub is_connection_scope : FlowUpdateScopeKind → Bool
is_connection_scope FlowUpdateScopeKind.connection = true
is_connection_scope _ = false

abbrev pub is_session_or_operation_scope : FlowUpdateScopeKind → Bool
is_session_or_operation_scope FlowUpdateScopeKind.session = true
is_session_or_operation_scope FlowUpdateScopeKind.operation = true
is_session_or_operation_scope _ = false

unfoldable pub build_flow_update_packet : FlowUpdateMetadata → ℕ → ℕ → ℕ → ℕ → Result NnrpPacket
build_flow_update_packet m session_id route_id trace_id flags = do
  require (not (is_connection_scope m.scope_kind && not (session_id == 0)))
  require (not (is_session_or_operation_scope m.scope_kind && session_id == 0))
  metadata ← Metadata.pack FlowUpdate.codec m
  ok (
      Packet.build
        (current_fields MessageType.flow_update (session_route session_id route_id trace_id flags))
        metadata [])

unfoldable pub build_result_hint_packet : ResultHintMetadata → ℕ → ℕ → ℕ → ℕ → ℕ → Result NnrpPacket
build_result_hint_packet m session_id frame_id route_id trace_id flags = do
  metadata ← Metadata.pack ResultHint.codec m
  ok (
      Packet.build
        (current_fields MessageType.result_hint (record {
          session_id = session_id;
          frame_id = frame_id;
          view_id = 0;
          route_id = route_id;
          trace_id = trace_id;
          flags = flags;
        }))
        metadata [])

unfoldable pub build_transport_probe_packet :
    TransportProbeMetadata → Bytes → ℕ → ℕ → ℕ → ℕ → Result NnrpPacket
build_transport_probe_packet m body session_id route_id trace_id flags = do
  require (m.probe_payload_bytes == length body)
  metadata ← Metadata.pack TransportProbe.codec m
  ok (
      Packet.build
        (current_fields MessageType.transport_probe
          (session_route session_id route_id trace_id flags))
        metadata body)

unfoldable pub build_transport_probe_ack_packet :
    TransportProbeAckMetadata → ℕ → ℕ → ℕ → ℕ → Result NnrpPacket
build_transport_probe_ack_packet m session_id route_id trace_id flags = do
  metadata ← Metadata.pack TransportProbeAck.codec m
  ok (
      Packet.build
        (current_fields MessageType.transport_probe_ack
          (session_route session_id route_id trace_id flags))
        metadata [])

unfoldable pub build_session_migrate_packet :
    SessionMigrateMetadata → ℕ → ℕ → ℕ → ℕ → Bytes → Result NnrpPacket
build_session_migrate_packet m session_id route_id trace_id flags body = do
  metadata ← Metadata.pack SessionMigrate.codec m
  ok (
      Packet.build
        (current_fields MessageType.session_migrate
          (session_route session_id route_id trace_id flags))
        metadata body)

unfoldable pub build_session_migrate_ack_packet :
    SessionMigrateAckMetadata → ℕ → ℕ → ℕ → ℕ → Bytes → Result NnrpPacket
build_session_migrate_ack_packet m session_id route_id trace_id flags body = do
  metadata ← Metadata.pack SessionMigrateAck.codec m
  ok (
      Packet.build
        (current_fields MessageType.session_migrate_ack
          (session_route session_id route_id trace_id flags))
        metadata body)

-- A call of one of these functions, with its arguments.
pub data Call : Type 0 where
  header_only : MessageType → Route → Call
  result_drop : Route → Call
  flow_update : FlowUpdateMetadata → ℕ → ℕ → ℕ → ℕ → Call
  result_hint : ResultHintMetadata → ℕ → ℕ → ℕ → ℕ → ℕ → Call
  transport_probe : TransportProbeMetadata → Bytes → ℕ → ℕ → ℕ → ℕ → Call
  transport_probe_ack : TransportProbeAckMetadata → ℕ → ℕ → ℕ → ℕ → Call
  session_migrate : SessionMigrateMetadata → ℕ → ℕ → ℕ → ℕ → Bytes → Call
  session_migrate_ack : SessionMigrateAckMetadata → ℕ → ℕ → ℕ → ℕ → Bytes → Call

unfoldable pub build_for : Call → Result NnrpPacket
build_for (Call.header_only t r) = build_header_only_packet t r
build_for (Call.result_drop r) = ok (build_result_drop_packet r)
build_for (Call.flow_update m s r t f) = build_flow_update_packet m s r t f
build_for (Call.result_hint m s n r t f) = build_result_hint_packet m s n r t f
build_for (Call.transport_probe m body s r t f) = build_transport_probe_packet m body s r t f
build_for (Call.transport_probe_ack m s r t f) = build_transport_probe_ack_packet m s r t f
build_for (Call.session_migrate m s r t f body) = build_session_migrate_packet m s r t f body
build_for (Call.session_migrate_ack m s r t f body) =
    build_session_migrate_ack_packet m s r t f body
