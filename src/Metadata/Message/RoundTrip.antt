-- ===== src/Metadata/Message/RoundTrip.antt =====
-- core/messages/control.py, data.py and schema.py: a message packed and read by its class.
use nnrp_py.Common.{◌≡◌, ok, ◌>>=◌}
use nnrp_py.Struct.{Bytes}
use nnrp_py.Metadata
use nnrp_py.Metadata.{FixedWidth}
use nnrp_py.Metadata.Message.{Message, kind, check, pack, unpack}
use nnrp_py.Metadata.TransportProbe
use nnrp_py.Metadata.TransportProbe.{TransportProbeMetadata}
use nnrp_py.Metadata.TransportProbeAck
use nnrp_py.Metadata.TransportProbeAck.{TransportProbeAckMetadata}
use nnrp_py.Metadata.SessionOpen
use nnrp_py.Metadata.SessionOpen.{SessionOpenMetadata}
use nnrp_py.Metadata.FlowUpdate
use nnrp_py.Metadata.FlowUpdate.{FlowUpdateMetadata}
use nnrp_py.Metadata.ResultHint
use nnrp_py.Metadata.ResultHint.{ResultHintMetadata}
use nnrp_py.Metadata.SessionMigrateAck
use nnrp_py.Metadata.SessionMigrateAck.{SessionMigrateAckMetadata}
use nnrp_py.Metadata.ClientHello
use nnrp_py.Metadata.ClientHello.{ClientHelloMetadata}
use nnrp_py.Metadata.ServerHelloAck
use nnrp_py.Metadata.ServerHelloAck.{ServerHelloAckMetadata}
use nnrp_py.Metadata.SessionPatch
use nnrp_py.Metadata.SessionPatch.{SessionPatchMetadata}
use nnrp_py.Metadata.SessionPatchAck
use nnrp_py.Metadata.SessionPatchAck.{SessionPatchAckMetadata}
use nnrp_py.Metadata.TensorProfilePatch
use nnrp_py.Metadata.TensorProfilePatch.{TensorProfilePatchBlock}
use nnrp_py.Metadata.TensorProfilePatchAck
use nnrp_py.Metadata.TensorProfilePatchAck.{TensorProfilePatchAckBlock}
use nnrp_py.Metadata.ErrorReport
use nnrp_py.Metadata.ErrorReport.{ErrorMetadata}
use nnrp_py.Metadata.CachePut
use nnrp_py.Metadata.CachePut.{CachePutMetadata}
use nnrp_py.Metadata.CacheAck
use nnrp_py.Metadata.CacheAck.{CacheAckMetadata}
use nnrp_py.Metadata.CacheInvalidate
use nnrp_py.Metadata.CacheInvalidate.{CacheInvalidateMetadata}
use nnrp_py.Metadata.BodyRegionPrelude
use nnrp_py.Metadata.BodyRegionPrelude.{BodyRegionPrelude}
use nnrp_py.Metadata.InlineObjectBlock
use nnrp_py.Metadata.InlineObjectBlock.{InlineObjectBlockHeader}
use nnrp_py.Metadata.ObjectReference
use nnrp_py.Metadata.ObjectReference.{ObjectReferenceBlock}
use nnrp_py.Metadata.ExtensionFrame
use nnrp_py.Metadata.ExtensionFrame.{ExtensionFrameDescriptor}
use nnrp_py.Metadata.FrameSubmit
use nnrp_py.Metadata.FrameSubmit.{FrameSubmitMetadata}
use nnrp_py.Metadata.TensorSection
use nnrp_py.Metadata.TensorSection.{TensorSectionDesc}
use nnrp_py.Metadata.ResultPush
use nnrp_py.Metadata.ResultPush.{ResultPushMetadata}
use nnrp_py.Metadata.SchemaDescriptor
use nnrp_py.Metadata.SchemaDescriptor.{SchemaDescriptorHeader}
use nnrp_py.Metadata.TypedPayload
use nnrp_py.Metadata.TypedPayload.{TypedPayloadDescriptor}
use nnrp_py.Metadata.SessionMigrate
use nnrp_py.Metadata.SessionMigrate.{SessionMigrateMetadata}

module _ {M : Type 0} (c : FixedWidth M) (wrap : M → Message) where
  read_back :
      (m : M) (bs : Bytes)
      → c.from_tuple (c.to_tuple m) ≡ ok m
      → Metadata.pack c m ≡ ok bs
      → (Metadata.unpack c bs >>= λ x. ok (wrap x)) ≡ ok (wrap m)
  read_back m bs law h = rw (Metadata.unpack-pack c m bs law h)

-- A message that passes its class's checks and packs is read back whole by its class.
pub unpack-pack_message :
    (m : Message) (bs : Bytes) → check m ≡ ok tt → pack m ≡ ok bs → unpack (kind m) bs ≡ ok m
unfolding check pack unpack
unpack-pack_message (Message.transport_probe m) bs v h =
    read_back TransportProbe.codec (λ x. Message.transport_probe x) m bs
      (TransportProbe.from_tuple-to_tuple m) h
unpack-pack_message (Message.transport_probe_ack m) bs v h =
    read_back TransportProbeAck.codec (λ x. Message.transport_probe_ack x) m bs
      (TransportProbeAck.from_tuple-to_tuple m) h
unpack-pack_message (Message.session_open m) bs v h =
    read_back SessionOpen.codec (λ x. Message.session_open x) m bs
      (SessionOpen.from_tuple-to_tuple m v) h
unpack-pack_message (Message.flow_update m) bs v h =
    read_back FlowUpdate.codec (λ x. Message.flow_update x) m bs
      (FlowUpdate.from_tuple-to_tuple m v) h
unpack-pack_message (Message.result_hint m) bs v h =
    read_back ResultHint.codec (λ x. Message.result_hint x) m bs (ResultHint.from_tuple-to_tuple m)
      h
unpack-pack_message (Message.session_migrate_ack m) bs v h =
    read_back SessionMigrateAck.codec (λ x. Message.session_migrate_ack x) m bs
      (SessionMigrateAck.from_tuple-to_tuple m) h
unpack-pack_message (Message.client_hello m) bs v h =
    read_back ClientHello.codec (λ x. Message.client_hello x) m bs
      (ClientHello.from_tuple-to_tuple m) h
unpack-pack_message (Message.server_hello_ack m) bs v h =
    read_back ServerHelloAck.codec (λ x. Message.server_hello_ack x) m bs
      (ServerHelloAck.from_tuple-to_tuple m) h
unpack-pack_message (Message.session_patch m) bs v h =
    read_back SessionPatch.codec (λ x. Message.session_patch x) m bs
      (SessionPatch.from_tuple-to_tuple m) h
unpack-pack_message (Message.session_patch_ack m) bs v h =
    read_back SessionPatchAck.codec (λ x. Message.session_patch_ack x) m bs
      (SessionPatchAck.from_tuple-to_tuple m) h
unpack-pack_message (Message.tensor_profile_patch m) bs v h =
    read_back TensorProfilePatch.codec (λ x. Message.tensor_profile_patch x) m bs
      (TensorProfilePatch.from_tuple-to_tuple m) h
unpack-pack_message (Message.tensor_profile_patch_ack m) bs v h =
    read_back TensorProfilePatchAck.codec (λ x. Message.tensor_profile_patch_ack x) m bs
      (TensorProfilePatchAck.from_tuple-to_tuple m) h
unpack-pack_message (Message.error_report m) bs v h =
    read_back ErrorReport.codec (λ x. Message.error_report x) m bs
      (ErrorReport.from_tuple-to_tuple m) h
unpack-pack_message (Message.cache_put m) bs v h =
    read_back CachePut.codec (λ x. Message.cache_put x) m bs (CachePut.from_tuple-to_tuple m v) h
unpack-pack_message (Message.cache_ack m) bs v h =
    read_back CacheAck.codec (λ x. Message.cache_ack x) m bs (CacheAck.from_tuple-to_tuple m) h
unpack-pack_message (Message.cache_invalidate m) bs v h =
    read_back CacheInvalidate.codec (λ x. Message.cache_invalidate x) m bs
      (CacheInvalidate.from_tuple-to_tuple m v) h
unpack-pack_message (Message.body_region_prelude m) bs v h =
    read_back BodyRegionPrelude.codec (λ x. Message.body_region_prelude x) m bs
      (BodyRegionPrelude.from_tuple-to_tuple m v) h
unpack-pack_message (Message.inline_object_block m) bs v h =
    read_back InlineObjectBlock.codec (λ x. Message.inline_object_block x) m bs
      (InlineObjectBlock.from_tuple-to_tuple m v) h
unpack-pack_message (Message.object_reference m) bs v h =
    read_back ObjectReference.codec (λ x. Message.object_reference x) m bs
      (ObjectReference.from_tuple-to_tuple m v) h
unpack-pack_message (Message.extension_frame m) bs v h =
    read_back ExtensionFrame.codec (λ x. Message.extension_frame x) m bs
      (ExtensionFrame.from_tuple-to_tuple m v) h
unpack-pack_message (Message.frame_submit m) bs v h =
    read_back FrameSubmit.codec (λ x. Message.frame_submit x) m bs
      (FrameSubmit.from_tuple-to_tuple m v) h
unpack-pack_message (Message.tensor_section m) bs v h =
    read_back TensorSection.codec (λ x. Message.tensor_section x) m bs
      (TensorSection.from_tuple-to_tuple m) h
unpack-pack_message (Message.result_push m) bs v h =
    read_back ResultPush.codec (λ x. Message.result_push x) m bs
      (ResultPush.from_tuple-to_tuple m v) h
unpack-pack_message (Message.schema_descriptor m) bs v h =
    read_back SchemaDescriptor.codec (λ x. Message.schema_descriptor x) m bs
      (SchemaDescriptor.from_tuple-to_tuple m v) h
unpack-pack_message (Message.typed_payload m) bs v h =
    read_back TypedPayload.codec (λ x. Message.typed_payload x) m bs
      (TypedPayload.from_tuple-to_tuple m v) h
unpack-pack_message (Message.session_migrate m) bs v h =
    read_back SessionMigrate.codec (λ x. Message.session_migrate x) m bs
      (SessionMigrate.from_tuple-to_tuple m v) h
