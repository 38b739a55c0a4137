-- ===== src/Packet/Builders/Received.antt =====
-- core/packet.py: what the receiver of a built packet reads.
use nnrp_py.Common.{
  ℕ, ◌<◌, ◌^◌, ◌≡◌, refl, length, [], Option, none, some, ◌==◌, ◌&&◌, not, Result, ok, ◌>>=◌, ◌>>◌,
  require, from_ok, arith, Bool, true, Bool-cases, inl, inr, sym,
}
use nnrp_py.Struct.{Bytes}
use nnrp_py.Header.Enums.{MessageType}
use nnrp_py.Metadata
use nnrp_py.Metadata.{FixedWidth}
use nnrp_py.Metadata.FlowUpdate
use nnrp_py.Metadata.FlowUpdate.{FlowUpdateMetadata}
use nnrp_py.Metadata.ControlEnums.{FlowUpdateScopeKind}
use nnrp_py.Metadata.ResultHint
use nnrp_py.Metadata.TransportProbe
use nnrp_py.Metadata.TransportProbeAck
use nnrp_py.Metadata.SessionMigrate
use nnrp_py.Metadata.SessionMigrateAck
use nnrp_py.Metadata.Message.{Message}
use nnrp_py.Metadata.Message as Messages
use nnrp_py.Packet
use nnrp_py.Packet.{NnrpPacket, Fields}
use nnrp_py.Packet.RoundTrip.{FieldsFit, unpack-pack-build}
use nnrp_py.Packet.Builders.{
  Call, Route, build_for, current_fields, session_route, is_header_only, build_header_only_packet,
  is_connection_scope, is_session_or_operation_scope, build_flow_update_packet,
  build_result_hint_packet, build_transport_probe_packet, build_transport_probe_ack_packet,
  build_session_migrate_packet, build_session_migrate_ack_packet,
}

-- The metadata, the type, the route and the body that a call names.
abbrev pub message_of : Call → Option Message
message_of (Call.header_only t r) = none
message_of (Call.result_drop r) = none
message_of (Call.flow_update m s r t f) = some (Message.flow_update m)
message_of (Call.result_hint m s n r t f) = some (Message.result_hint m)
message_of (Call.transport_probe m body s r t f) = some (Message.transport_probe m)
message_of (Call.transport_probe_ack m s r t f) = some (Message.transport_probe_ack m)
message_of (Call.session_migrate m s r t f body) = some (Message.session_migrate m)
message_of (Call.session_migrate_ack m s r t f body) = some (Message.session_migrate_ack m)

abbrev pub type_of : Call → MessageType
type_of (Call.header_only t r) = t
type_of (Call.result_drop r) = MessageType.result_drop
type_of (Call.flow_update m s r t f) = MessageType.flow_update
type_of (Call.result_hint m s n r t f) = MessageType.result_hint
type_of (Call.transport_probe m body s r t f) = MessageType.transport_probe
type_of (Call.transport_probe_ack m s r t f) = MessageType.transport_probe_ack
type_of (Call.session_migrate m s r t f body) = MessageType.session_migrate
type_of (Call.session_migrate_ack m s r t f body) = MessageType.session_migrate_ack

abbrev pub route_of : Call → Route
route_of (Call.header_only t r) = r
route_of (Call.result_drop r) = r
route_of (Call.flow_update m s r t f) = session_route s r t f
route_of (Call.result_hint m s n r t f) = record {
  session_id = s;
  frame_id = n;
  view_id = 0;
  route_id = r;
  trace_id = t;
  flags = f;
}
route_of (Call.transport_probe m body s r t f) = session_route s r t f
route_of (Call.transport_probe_ack m s r t f) = session_route s r t f
route_of (Call.session_migrate m s r t f body) = session_route s r t f
route_of (Call.session_migrate_ack m s r t f body) = session_route s r t f

abbrev pub body_of : Call → Bytes
body_of (Call.transport_probe m body s r t f) = body
body_of (Call.session_migrate m s r t f body) = body
body_of (Call.session_migrate_ack m s r t f body) = body
body_of _ = []

-- The bytes are the metadata: none, or what its class reads as it.
abbrev pub IsRead : Option Message → Bytes → Type 0
IsRead none bs = bs ≡ []
IsRead (some m) bs = Messages.unpack (Messages.kind m) bs ≡ ok m

abbrev pub allows : FlowUpdateScopeKind → ℕ → Bool
allows FlowUpdateScopeKind.connection session_id = session_id == 0
allows _ session_id = not (session_id == 0)

-- What a builder demands: a type without metadata and body, session id 0 exactly in the scope of the
-- connection, the declared length of a probe.
abbrev pub accepts : Call → Bool
accepts (Call.header_only t r) = is_header_only t
accepts (Call.flow_update m s r t f) = allows m.scope_kind s
accepts (Call.transport_probe m body s r t f) = m.probe_payload_bytes == length body
accepts _ = true

abbrev pub pack_message : Option Message → Result Bytes
pack_message none = ok []
pack_message (some m) = Messages.pack m

abbrev pub fields_of : Call → Fields
fields_of c = current_fields (type_of c) (route_of c)

guards :
    (k : FlowUpdateScopeKind) (s : ℕ) (rest : Result NnrpPacket)
    → (do
      require (not (is_connection_scope k && not (s == 0)))
      require (not (is_session_or_operation_scope k && s == 0))
      rest)
      ≡ (do require (allows k s); rest)
guards FlowUpdateScopeKind.connection s rest = elim (Bool-cases (s == 0)) [
  | inl same ↦ rw same refl
  | inr other ↦ rw other refl
]
guards FlowUpdateScopeKind.session s rest = refl
guards FlowUpdateScopeKind.operation s rest = refl

-- The two guards of `build_flow_update_packet` are one condition.
flow_update-eq :
    (m : FlowUpdateMetadata) (s r t f : ℕ)
    → build_flow_update_packet m s r t f ≡ (do
      require (allows m.scope_kind s)
      metadata ← Metadata.pack FlowUpdate.codec m
      ok (
          Packet.build
            (current_fields MessageType.flow_update (session_route s r t f))
            metadata
            []))
unfolding build_flow_update_packet
flow_update-eq m s r t f = guards m.scope_kind s _

-- Every builder in one line.
pub build_for-eq :
    (c : Call)
    → build_for c ≡ (do
      require (accepts c)
      metadata ← pack_message (message_of c)
      ok (Packet.build (fields_of c) metadata (body_of c)))
unfolding build_for build_header_only_packet build_flow_update_packet build_result_hint_packet
    build_transport_probe_packet build_transport_probe_ack_packet build_session_migrate_packet
    build_session_migrate_ack_packet Messages.pack
build_for-eq (Call.header_only t r) = refl
build_for-eq (Call.result_drop r) = refl
build_for-eq (Call.flow_update m s r t f) = flow_update-eq m s r t f
build_for-eq (Call.result_hint m s n r t f) = refl
build_for-eq (Call.transport_probe m body s r t f) = refl
build_for-eq (Call.transport_probe_ack m s r t f) = refl
build_for-eq (Call.session_migrate m s r t f body) = refl
build_for-eq (Call.session_migrate_ack m s r t f body) = refl

pub IsRead-pack :
    (c : Call) (bs : Bytes)
    → pack_message (message_of c) ≡ ok bs
    → IsRead (message_of c) bs × (length bs < 2 ^ 32)
unfolding Messages.pack Messages.check
IsRead-pack (Call.header_only t r) bs h = (sym (from_ok [] bs h), ground arith)
IsRead-pack (Call.result_drop r) bs h = (sym (from_ok [] bs h), ground arith)
IsRead-pack (Call.flow_update m s r t f) bs h = (
  Messages.RoundTrip.unpack-pack_message (Message.flow_update m) bs
      (Metadata.check_of_pack FlowUpdate.codec m bs h) h,
  omega (arith, Metadata.length-pack FlowUpdate.codec m bs h),
)
IsRead-pack (Call.result_hint m s n r t f) bs h = (
  Messages.RoundTrip.unpack-pack_message (Message.result_hint m) bs refl h,
  omega (arith, Metadata.length-pack ResultHint.codec m bs h),
)
IsRead-pack (Call.transport_probe m body s r t f) bs h = (
  Messages.RoundTrip.unpack-pack_message (Message.transport_probe m) bs refl h,
  omega (arith, Metadata.length-pack TransportProbe.codec m bs h),
)
IsRead-pack (Call.transport_probe_ack m s r t f) bs h = (
  Messages.RoundTrip.unpack-pack_message (Message.transport_probe_ack m) bs refl h,
  omega (arith, Metadata.length-pack TransportProbeAck.codec m bs h),
)
IsRead-pack (Call.session_migrate m s r t f body) bs h = (
  Messages.RoundTrip.unpack-pack_message (Message.session_migrate m) bs
      (Metadata.check_of_pack SessionMigrate.codec m bs h) h,
  omega (arith, Metadata.length-pack SessionMigrate.codec m bs h),
)
IsRead-pack (Call.session_migrate_ack m s r t f body) bs h = (
  Messages.RoundTrip.unpack-pack_message (Message.session_migrate_ack m) bs refl h,
  omega (arith, Metadata.length-pack SessionMigrateAck.codec m bs h),
)

-- A call whose condition holds and whose metadata packs returns a packet; where the route fits the
-- header and the body has fewer than 2 ^ 32 bytes, that packet packs, and the receiver of its bytes
-- reads the type, the route's session, the body and the metadata that the call named.
pub received-build_for :
    (c : Call) (metadata : Bytes)
    → accepts c ≡ true
    → pack_message (message_of c) ≡ ok metadata
    → FieldsFit (fields_of c)
    → length (body_of c) < 2 ^ 32
    → (p : NnrpPacket) × (bs : Bytes) × (build_for c ≡ ok p)
      × (Packet.pack p ≡ ok bs)
      × (Packet.unpack bs ≡ ok p)
      × (p.header.msg_type ≡ type_of c)
      × (p.header.session_id ≡ (route_of c).session_id)
      × (p.body ≡ body_of c)
      × IsRead (message_of c) p.metadata
unfolding Packet.build
received-build_for c metadata accepted packed fit body_fits =
    let (read, meta_fits) = IsRead-pack c metadata packed in
    let p : NnrpPacket = Packet.build (fields_of c) metadata (body_of c) in
    let built : build_for c ≡ ok p = rw (build_for-eq c, accepted, packed) in
    let (bs, written, unpacked, size) =
      unpack-pack-build (fields_of c) metadata (body_of c) fit meta_fits body_fits in
    (p, bs, built, written, unpacked, refl, refl, refl, read)
