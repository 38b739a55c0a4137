-- ===== src/Metadata/Message.antt =====
-- core/messages/control.py, data.py and schema.py: every class with fixed-width metadata, and what
-- `pack` and `unpack` do for each.
pub mod RoundTrip
pub mod Canonical
use nnrp_py.Common.{Result, ok, ◌>>=◌}
use nnrp_py.Struct.{Bytes}
use nnrp_py.Metadata
use nnrp_py.Metadata.{FixedWidth}
use nnrp_py.Metadata.TransportProbe
use nnrp_py.Metadata.TransportProbe.{TransportProbeMetadata}
use nnrp_py.Metadata.TransportProbeAck
use nnrp_py.Metadata.TransportProbeAck.{TransportProbeAckMetadata}
use nnrp_py.Metadata.SessionOpen
use nnrp_py.Metadata.SessionOpen.{SessionOpenMetadata}
use nnrp_py.Metadata.FlowUpdate
use nnrp_py.Metadata.FlowUpdate.{FlowUpdateMetadata}
use nnrp_py.Metadata.ResultHint
use nnrp_py.Metadata.ResultHint.{ResultHintMetadata}
use nnrp_py.Metadata.SessionMigrateAck
use nnrp_py.Metadata.SessionMigrateAck.{SessionMigrateAckMetadata}
use nnrp_py.Metadata.ClientHello
use nnrp_py.Metadata.ClientHello.{ClientHelloMetadata}
use nnrp_py.Metadata.ServerHelloAck
use nnrp_py.Metadata.ServerHelloAck.{ServerHelloAckMetadata}
use nnrp_py.Metadata.SessionPatch
use nnrp_py.Metadata.SessionPatch.{SessionPatchMetadata}
use nnrp_py.Metadata.SessionPatchAck
use nnrp_py.Metadata.SessionPatchAck.{SessionPatchAckMetadata}
use nnrp_py.Metadata.TensorProfilePatch
use nnrp_py.Metadata.TensorProfilePatch.{TensorProfilePatchBlock}
use nnrp_py.Metadata.TensorProfilePatchAck
use nnrp_py.Metadata.TensorProfilePatchAck.{TensorProfilePatchAckBlock}
use nnrp_py.Metadata.ErrorReport
use nnrp_py.Metadata.ErrorReport.{ErrorMetadata}
use nnrp_py.Metadata.CachePut
use nnrp_py.Metadata.CachePut.{CachePutMetadata}
use nnrp_py.Metadata.CacheAck
use nnrp_py.Metadata.CacheAck.{CacheAckMetadata}
use nnrp_py.Metadata.CacheInvalidate
use nnrp_py.Metadata.CacheInvalidate.{CacheInvalidateMetadata}
use nnrp_py.Metadata.BodyRegionPrelude
use nnrp_py.Metadata.BodyRegionPrelude.{BodyRegionPrelude}
use nnrp_py.Metadata.InlineObjectBlock
use nnrp_py.Metadata.InlineObjectBlock.{InlineObjectBlockHeader}
use nnrp_py.Metadata.ObjectReference
use nnrp_py.Metadata.ObjectReference.{ObjectReferenceBlock}
use nnrp_py.Metadata.ExtensionFrame
use nnrp_py.Metadata.ExtensionFrame.{ExtensionFrameDescriptor}
use nnrp_py.Metadata.FrameSubmit
use nnrp_py.Metadata.FrameSubmit.{FrameSubmitMetadata}
use nnrp_py.Metadata.TensorSection
use nnrp_py.Metadata.TensorSection.{TensorSectionDesc}
use nnrp_py.Metadata.ResultPush
use nnrp_py.Metadata.ResultPush.{ResultPushMetadata}
use nnrp_py.Metadata.SchemaDescriptor
use nnrp_py.Metadata.SchemaDescriptor.{SchemaDescriptorHeader}
use nnrp_py.Metadata.TypedPayload
use nnrp_py.Metadata.TypedPayload.{TypedPayloadDescriptor}
use nnrp_py.Metadata.SessionMigrate
use nnrp_py.Metadata.SessionMigrate.{SessionMigrateMetadata}

pub data Kind : Type 0 where
  transport_probe transport_probe_ack session_open flow_update result_hint session_migrate_ack
        client_hello server_hello_ack session_patch session_patch_ack tensor_profile_patch
        tensor_profile_patch_ack error_report cache_put cache_ack cache_invalidate
        body_region_prelude inline_object_block object_reference extension_frame frame_submit
        tensor_section result_push schema_descriptor typed_payload session_migrate :
      Kind

pub data Message : Type 0 where
  transport_probe : TransportProbeMetadata → Message
  transport_probe_ack : TransportProbeAckMetadata → Message
  session_open : SessionOpenMetadata → Message
  flow_update : FlowUpdateMetadata → Message
  result_hint : ResultHintMetadata → Message
  session_migrate_ack : SessionMigrateAckMetadata → Message
  client_hello : ClientHelloMetadata → Message
  server_hello_ack : ServerHelloAckMetadata → Message
  session_patch : SessionPatchMetadata → Message
  session_patch_ack : SessionPatchAckMetadata → Message
  tensor_profile_patch : TensorProfilePatchBlock → Message
  tensor_profile_patch_ack : TensorProfilePatchAckBlock → Message
  error_report : ErrorMetadata → Message
  cache_put : CachePutMetadata → Message
  cache_ack : CacheAckMetadata → Message
  cache_invalidate : CacheInvalidateMetadata → Message
  body_region_prelude : BodyRegionPrelude → Message
  inline_object_block : InlineObjectBlockHeader → Message
  object_reference : ObjectReferenceBlock → Message
  extension_frame : ExtensionFrameDescriptor → Message
  frame_submit : FrameSubmitMetadata → Message
  tensor_section : TensorSectionDesc → Message
  result_push : ResultPushMetadata → Message
  schema_descriptor : SchemaDescriptorHeader → Message
  typed_payload : TypedPayloadDescriptor → Message
  session_migrate : SessionMigrateMetadata → Message

abbrev pub kind : Message → Kind
kind (Message.transport_probe m) = Kind.transport_probe
kind (Message.transport_probe_ack m) = Kind.transport_probe_ack
kind (Message.session_open m) = Kind.session_open
kind (Message.flow_update m) = Kind.flow_update
kind (Message.result_hint m) = Kind.result_hint
kind (Message.session_migrate_ack m) = Kind.session_migrate_ack
kind (Message.client_hello m) = Kind.client_hello
kind (Message.server_hello_ack m) = Kind.server_hello_ack
kind (Message.session_patch m) = Kind.session_patch
kind (Message.session_patch_ack m) = Kind.session_patch_ack
kind (Message.tensor_profile_patch m) = Kind.tensor_profile_patch
kind (Message.tensor_profile_patch_ack m) = Kind.tensor_profile_patch_ack
kind (Message.error_report m) = Kind.error_report
kind (Message.cache_put m) = Kind.cache_put
kind (Message.cache_ack m) = Kind.cache_ack
kind (Message.cache_invalidate m) = Kind.cache_invalidate
kind (Message.body_region_prelude m) = Kind.body_region_prelude
kind (Message.inline_object_block m) = Kind.inline_object_block
kind (Message.object_reference m) = Kind.object_reference
kind (Message.extension_frame m) = Kind.extension_frame
kind (Message.frame_submit m) = Kind.frame_submit
kind (Message.tensor_section m) = Kind.tensor_section
kind (Message.result_push m) = Kind.result_push
kind (Message.schema_descriptor m) = Kind.schema_descriptor
kind (Message.typed_payload m) = Kind.typed_payload
kind (Message.session_migrate m) = Kind.session_migrate

-- The checks of the class: its `_validate`, or its `__post_init__`.
unfoldable pub check : Message → Result (Unit {0})
check (Message.transport_probe m) = ok tt
check (Message.transport_probe_ack m) = ok tt
check (Message.session_open m) = SessionOpen.check m
check (Message.flow_update m) = FlowUpdate.check m
check (Message.result_hint m) = ok tt
check (Message.session_migrate_ack m) = ok tt
check (Message.client_hello m) = ok tt
check (Message.server_hello_ack m) = ok tt
check (Message.session_patch m) = ok tt
check (Message.session_patch_ack m) = ok tt
check (Message.tensor_profile_patch m) = ok tt
check (Message.tensor_profile_patch_ack m) = ok tt
check (Message.error_report m) = ok tt
check (Message.cache_put m) = CachePut.check m
check (Message.cache_ack m) = ok tt
check (Message.cache_invalidate m) = CacheInvalidate.check m
check (Message.body_region_prelude m) = BodyRegionPrelude.check m
check (Message.inline_object_block m) = InlineObjectBlock.check m
check (Message.object_reference m) = ObjectReference.check m
check (Message.extension_frame m) = ExtensionFrame.check m
check (Message.frame_submit m) = FrameSubmit.check m
check (Message.tensor_section m) = ok tt
check (Message.result_push m) = ResultPush.check m
check (Message.schema_descriptor m) = SchemaDescriptor.check m
check (Message.typed_payload m) = TypedPayload.check m
check (Message.session_migrate m) = SessionMigrate.check m

unfoldable pub pack : Message → Result Bytes
pack (Message.transport_probe m) = Metadata.pack TransportProbe.codec m
pack (Message.transport_probe_ack m) = Metadata.pack TransportProbeAck.codec m
pack (Message.session_open m) = Metadata.pack SessionOpen.codec m
pack (Message.flow_update m) = Metadata.pack FlowUpdate.codec m
pack (Message.result_hint m) = Metadata.pack ResultHint.codec m
pack (Message.session_migrate_ack m) = Metadata.pack SessionMigrateAck.codec m
pack (Message.client_hello m) = Metadata.pack ClientHello.codec m
pack (Message.server_hello_ack m) = Metadata.pack ServerHelloAck.codec m
pack (Message.session_patch m) = Metadata.pack SessionPatch.codec m
pack (Message.session_patch_ack m) = Metadata.pack SessionPatchAck.codec m
pack (Message.tensor_profile_patch m) = Metadata.pack TensorProfilePatch.codec m
pack (Message.tensor_profile_patch_ack m) = Metadata.pack TensorProfilePatchAck.codec m
pack (Message.error_report m) = Metadata.pack ErrorReport.codec m
pack (Message.cache_put m) = Metadata.pack CachePut.codec m
pack (Message.cache_ack m) = Metadata.pack CacheAck.codec m
pack (Message.cache_invalidate m) = Metadata.pack CacheInvalidate.codec m
pack (Message.body_region_prelude m) = Metadata.pack BodyRegionPrelude.codec m
pack (Message.inline_object_block m) = Metadata.pack InlineObjectBlock.codec m
pack (Message.object_reference m) = Metadata.pack ObjectReference.codec m
pack (Message.extension_frame m) = Metadata.pack ExtensionFrame.codec m
pack (Message.frame_submit m) = Metadata.pack FrameSubmit.codec m
pack (Message.tensor_section m) = Metadata.pack TensorSection.codec m
pack (Message.result_push m) = Metadata.pack ResultPush.codec m
pack (Message.schema_descriptor m) = Metadata.pack SchemaDescriptor.codec m
pack (Message.typed_payload m) = Metadata.pack TypedPayload.codec m
pack (Message.session_migrate m) = Metadata.pack SessionMigrate.codec m

unfoldable pub unpack : Kind → Bytes → Result Message
unpack Kind.transport_probe bs = do
  m ← Metadata.unpack TransportProbe.codec bs
  ok (Message.transport_probe m)
unpack Kind.transport_probe_ack bs = do
  m ← Metadata.unpack TransportProbeAck.codec bs
  ok (Message.transport_probe_ack m)
unpack Kind.session_open bs = do
  m ← Metadata.unpack SessionOpen.codec bs
  ok (Message.session_open m)
unpack Kind.flow_update bs = do m ← Metadata.unpack FlowUpdate.codec bs; ok (Message.flow_update m)
unpack Kind.result_hint bs = do m ← Metadata.unpack ResultHint.codec bs; ok (Message.result_hint m)
unpack Kind.session_migrate_ack bs = do
  m ← Metadata.unpack SessionMigrateAck.codec bs
  ok (Message.session_migrate_ack m)
unpack Kind.client_hello bs = do
  m ← Metadata.unpack ClientHello.codec bs
  ok (Message.client_hello m)
unpack Kind.server_hello_ack bs = do
  m ← Metadata.unpack ServerHelloAck.codec bs
  ok (Message.server_hello_ack m)
unpack Kind.session_patch bs = do
  m ← Metadata.unpack SessionPatch.codec bs
  ok (Message.session_patch m)
unpack Kind.session_patch_ack bs = do
  m ← Metadata.unpack SessionPatchAck.codec bs
  ok (Message.session_patch_ack m)
unpack Kind.tensor_profile_patch bs = do
  m ← Metadata.unpack TensorProfilePatch.codec bs
  ok (Message.tensor_profile_patch m)
unpack Kind.tensor_profile_patch_ack bs = do
  m ← Metadata.unpack TensorProfilePatchAck.codec bs
  ok (Message.tensor_profile_patch_ack m)
unpack Kind.error_report bs = do
  m ← Metadata.unpack ErrorReport.codec bs
  ok (Message.error_report m)
unpack Kind.cache_put bs = do m ← Metadata.unpack CachePut.codec bs; ok (Message.cache_put m)
unpack Kind.cache_ack bs = do m ← Metadata.unpack CacheAck.codec bs; ok (Message.cache_ack m)
unpack Kind.cache_invalidate bs = do
  m ← Metadata.unpack CacheInvalidate.codec bs
  ok (Message.cache_invalidate m)
unpack Kind.body_region_prelude bs = do
  m ← Metadata.unpack BodyRegionPrelude.codec bs
  ok (Message.body_region_prelude m)
unpack Kind.inline_object_block bs = do
  m ← Metadata.unpack InlineObjectBlock.codec bs
  ok (Message.inline_object_block m)
unpack Kind.object_reference bs = do
  m ← Metadata.unpack ObjectReference.codec bs
  ok (Message.object_reference m)
unpack Kind.extension_frame bs = do
  m ← Metadata.unpack ExtensionFrame.codec bs
  ok (Message.extension_frame m)
unpack Kind.frame_submit bs = do
  m ← Metadata.unpack FrameSubmit.codec bs
  ok (Message.frame_submit m)
unpack Kind.tensor_section bs = do
  m ← Metadata.unpack TensorSection.codec bs
  ok (Message.tensor_section m)
unpack Kind.result_push bs = do m ← Metadata.unpack ResultPush.codec bs; ok (Message.result_push m)
unpack Kind.schema_descriptor bs = do
  m ← Metadata.unpack SchemaDescriptor.codec bs
  ok (Message.schema_descriptor m)
unpack Kind.typed_payload bs = do
  m ← Metadata.unpack TypedPayload.codec bs
  ok (Message.typed_payload m)
unpack Kind.session_migrate bs = do
  m ← Metadata.unpack SessionMigrate.codec bs
  ok (Message.session_migrate m)
