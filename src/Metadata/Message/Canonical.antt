-- ===== src/Metadata/Message/Canonical.antt =====
-- core/messages/control.py, data.py and schema.py: a message read by its class and packed.
use nnrp_py.Common.{◌≡◌, ◌≢◌, All, refl, ok, >>=-eq-ok, from_ok}
use nnrp_py.Struct.{Bytes, IsByte}
use nnrp_py.Metadata
use nnrp_py.Metadata.{FixedWidth}
use nnrp_py.Metadata.Message.{Message, Kind, check, pack, unpack}
use nnrp_py.Metadata.TransportProbe
use nnrp_py.Metadata.TransportProbe.{TransportProbeMetadata}
use nnrp_py.Metadata.TransportProbeAck
use nnrp_py.Metadata.TransportProbeAck.{TransportProbeAckMetadata}
use nnrp_py.Metadata.SessionOpen
use nnrp_py.Metadata.SessionOpen.{SessionOpenMetadata}
use nnrp_py.Metadata.ResultHint
use nnrp_py.Metadata.ResultHint.{ResultHintMetadata}
use nnrp_py.Metadata.SessionMigrateAck
use nnrp_py.Metadata.SessionMigrateAck.{SessionMigrateAckMetadata}
use nnrp_py.Metadata.ClientHello
use nnrp_py.Metadata.ClientHello.{ClientHelloMetadata}
use nnrp_py.Metadata.ServerHelloAck
use nnrp_py.Metadata.ServerHelloAck.{ServerHelloAckMetadata}
use nnrp_py.Metadata.SessionPatch
use nnrp_py.Metadata.SessionPatch.{SessionPatchMetadata}
use nnrp_py.Metadata.SessionPatchAck
use nnrp_py.Metadata.SessionPatchAck.{SessionPatchAckMetadata}
use nnrp_py.Metadata.TensorProfilePatch
use nnrp_py.Metadata.TensorProfilePatch.{TensorProfilePatchBlock}
use nnrp_py.Metadata.TensorProfilePatchAck
use nnrp_py.Metadata.TensorProfilePatchAck.{TensorProfilePatchAckBlock}
use nnrp_py.Metadata.ErrorReport
use nnrp_py.Metadata.ErrorReport.{ErrorMetadata}
use nnrp_py.Metadata.CachePut
use nnrp_py.Metadata.CachePut.{CachePutMetadata}
use nnrp_py.Metadata.CacheAck
use nnrp_py.Metadata.CacheAck.{CacheAckMetadata}
use nnrp_py.Metadata.CacheInvalidate
use nnrp_py.Metadata.CacheInvalidate.{CacheInvalidateMetadata}
use nnrp_py.Metadata.BodyRegionPrelude
use nnrp_py.Metadata.BodyRegionPrelude.{BodyRegionPrelude}
use nnrp_py.Metadata.InlineObjectBlock
use nnrp_py.Metadata.InlineObjectBlock.{InlineObjectBlockHeader}
use nnrp_py.Metadata.ObjectReference
use nnrp_py.Metadata.ObjectReference.{ObjectReferenceBlock}
use nnrp_py.Metadata.ExtensionFrame
use nnrp_py.Metadata.ExtensionFrame.{ExtensionFrameDescriptor}
use nnrp_py.Metadata.FrameSubmit
use nnrp_py.Metadata.FrameSubmit.{FrameSubmitMetadata}
use nnrp_py.Metadata.TensorSection
use nnrp_py.Metadata.TensorSection.{TensorSectionDesc}
use nnrp_py.Metadata.ResultPush
use nnrp_py.Metadata.ResultPush.{ResultPushMetadata}
use nnrp_py.Metadata.SchemaDescriptor
use nnrp_py.Metadata.SchemaDescriptor.{SchemaDescriptorHeader}
use nnrp_py.Metadata.TypedPayload
use nnrp_py.Metadata.TypedPayload.{TypedPayloadDescriptor}
use nnrp_py.Metadata.SessionMigrate
use nnrp_py.Metadata.SessionMigrate.{SessionMigrateMetadata}

-- What is read by a class is valid for it, and, unless it is a FLOW_UPDATE, whose reserved fields
-- are not looked at, it packs to the bytes that were read.
pub pack-unpack_message :
    (k : Kind) (bs : Bytes) (m : Message)
    → All IsByte bs
    → k ≢ Kind.flow_update
    → unpack k bs ≡ ok m
    → (check m ≡ ok tt) × (pack m ≡ ok bs)
unfolding check pack unpack
pack-unpack_message Kind.transport_probe bs m bytes other h =
    let (x, read, made) = >>=-eq-ok (Metadata.unpack TransportProbe.codec bs) _ h in
    let packed =
      Metadata.pack-unpack TransportProbe.codec bs x
        (λ vs made. (TransportProbe.to_tuple-from_tuple vs x made, refl)) bytes read in
    let same = from_ok (Message.transport_probe x) m made in rw (← same) (refl, packed)
pack-unpack_message Kind.transport_probe_ack bs m bytes other h =
    let (x, read, made) = >>=-eq-ok (Metadata.unpack TransportProbeAck.codec bs) _ h in
    let packed =
      Metadata.pack-unpack TransportProbeAck.codec bs x
        (λ vs made. (TransportProbeAck.to_tuple-from_tuple vs x made, refl)) bytes read in
    let same = from_ok (Message.transport_probe_ack x) m made in rw (← same) (refl, packed)
pack-unpack_message Kind.session_open bs m bytes other h =
    let (x, read, made) = >>=-eq-ok (Metadata.unpack SessionOpen.codec bs) _ h in
    let packed =
      Metadata.pack-unpack SessionOpen.codec bs x
        (λ vs made. let (same, valid) = SessionOpen.to_tuple-from_tuple vs x made in (same, valid))
        bytes read in
    let same = from_ok (Message.session_open x) m made in
    let valid =
      Metadata.unpack-valid SessionOpen.codec SessionOpen.check bs x
        (λ vs e. (SessionOpen.to_tuple-from_tuple vs x e).1) read in
    rw (← same) (valid, packed)
pack-unpack_message Kind.flow_update bs m bytes other h = absurd (other refl)
pack-unpack_message Kind.result_hint bs m bytes other h =
    let (x, read, made) = >>=-eq-ok (Metadata.unpack ResultHint.codec bs) _ h in
    let packed =
      Metadata.pack-unpack ResultHint.codec bs x
        (λ vs made. (ResultHint.to_tuple-from_tuple vs x made, refl)) bytes read in
    let same = from_ok (Message.result_hint x) m made in rw (← same) (refl, packed)
pack-unpack_message Kind.session_migrate_ack bs m bytes other h =
    let (x, read, made) = >>=-eq-ok (Metadata.unpack SessionMigrateAck.codec bs) _ h in
    let packed =
      Metadata.pack-unpack SessionMigrateAck.codec bs x
        (λ vs made. (SessionMigrateAck.to_tuple-from_tuple vs x made, refl)) bytes read in
    let same = from_ok (Message.session_migrate_ack x) m made in rw (← same) (refl, packed)
pack-unpack_message Kind.client_hello bs m bytes other h =
    let (x, read, made) = >>=-eq-ok (Metadata.unpack ClientHello.codec bs) _ h in
    let packed =
      Metadata.pack-unpack ClientHello.codec bs x
        (λ vs made. (ClientHello.to_tuple-from_tuple vs x made, refl)) bytes read in
    let same = from_ok (Message.client_hello x) m made in rw (← same) (refl, packed)
pack-unpack_message Kind.server_hello_ack bs m bytes other h =
    let (x, read, made) = >>=-eq-ok (Metadata.unpack ServerHelloAck.codec bs) _ h in
    let packed =
      Metadata.pack-unpack ServerHelloAck.codec bs x
        (λ vs made. (ServerHelloAck.to_tuple-from_tuple vs x made, refl)) bytes read in
    let same = from_ok (Message.server_hello_ack x) m made in rw (← same) (refl, packed)
pack-unpack_message Kind.session_patch bs m bytes other h =
    let (x, read, made) = >>=-eq-ok (Metadata.unpack SessionPatch.codec bs) _ h in
    let packed =
      Metadata.pack-unpack SessionPatch.codec bs x
        (λ vs made. (SessionPatch.to_tuple-from_tuple vs x made, refl)) bytes read in
    let same = from_ok (Message.session_patch x) m made in rw (← same) (refl, packed)
pack-unpack_message Kind.session_patch_ack bs m bytes other h =
    let (x, read, made) = >>=-eq-ok (Metadata.unpack SessionPatchAck.codec bs) _ h in
    let packed =
      Metadata.pack-unpack SessionPatchAck.codec bs x
        (λ vs made. (SessionPatchAck.to_tuple-from_tuple vs x made, refl)) bytes read in
    let same = from_ok (Message.session_patch_ack x) m made in rw (← same) (refl, packed)
pack-unpack_message Kind.tensor_profile_patch bs m bytes other h =
    let (x, read, made) = >>=-eq-ok (Metadata.unpack TensorProfilePatch.codec bs) _ h in
    let packed =
      Metadata.pack-unpack TensorProfilePatch.codec bs x
        (λ vs made. (TensorProfilePatch.to_tuple-from_tuple vs x made, refl)) bytes read in
    let same = from_ok (Message.tensor_profile_patch x) m made in rw (← same) (refl, packed)
pack-unpack_message Kind.tensor_profile_patch_ack bs m bytes other h =
    let (x, read, made) = >>=-eq-ok (Metadata.unpack TensorProfilePatchAck.codec bs) _ h in
    let packed =
      Metadata.pack-unpack TensorProfilePatchAck.codec bs x
        (λ vs made. (TensorProfilePatchAck.to_tuple-from_tuple vs x made, refl)) bytes read in
    let same = from_ok (Message.tensor_profile_patch_ack x) m made in rw (← same) (refl, packed)
pack-unpack_message Kind.error_report bs m bytes other h =
    let (x, read, made) = >>=-eq-ok (Metadata.unpack ErrorReport.codec bs) _ h in
    let packed =
      Metadata.pack-unpack ErrorReport.codec bs x
        (λ vs made. (ErrorReport.to_tuple-from_tuple vs x made, refl)) bytes read in
    let same = from_ok (Message.error_report x) m made in rw (← same) (refl, packed)
pack-unpack_message Kind.cache_put bs m bytes other h =
    let (x, read, made) = >>=-eq-ok (Metadata.unpack CachePut.codec bs) _ h in
    let packed =
      Metadata.pack-unpack CachePut.codec bs x
        (λ vs made. let (same, valid) = CachePut.to_tuple-from_tuple vs x made in (same, refl))
        bytes read in
    let same = from_ok (Message.cache_put x) m made in
    let valid =
      Metadata.unpack-valid CachePut.codec CachePut.check bs x
        (λ vs e. (CachePut.to_tuple-from_tuple vs x e).1) read in
    rw (← same) (valid, packed)
pack-unpack_message Kind.cache_ack bs m bytes other h =
    let (x, read, made) = >>=-eq-ok (Metadata.unpack CacheAck.codec bs) _ h in
    let packed =
      Metadata.pack-unpack CacheAck.codec bs x
        (λ vs made. (CacheAck.to_tuple-from_tuple vs x made, refl)) bytes read in
    let same = from_ok (Message.cache_ack x) m made in rw (← same) (refl, packed)
pack-unpack_message Kind.cache_invalidate bs m bytes other h =
    let (x, read, made) = >>=-eq-ok (Metadata.unpack CacheInvalidate.codec bs) _ h in
    let packed =
      Metadata.pack-unpack CacheInvalidate.codec bs x
        (λ vs made.
          let (same, valid) = CacheInvalidate.to_tuple-from_tuple vs x made in (same, refl))
        bytes read in
    let same = from_ok (Message.cache_invalidate x) m made in
    let valid =
      Metadata.unpack-valid CacheInvalidate.codec CacheInvalidate.check bs x
        (λ vs e. (CacheInvalidate.to_tuple-from_tuple vs x e).1) read in
    rw (← same) (valid, packed)
pack-unpack_message Kind.body_region_prelude bs m bytes other h =
    let (x, read, made) = >>=-eq-ok (Metadata.unpack BodyRegionPrelude.codec bs) _ h in
    let packed =
      Metadata.pack-unpack BodyRegionPrelude.codec bs x
        (λ vs made.
          let (same, valid) = BodyRegionPrelude.to_tuple-from_tuple vs x made in (same, refl))
        bytes read in
    let same = from_ok (Message.body_region_prelude x) m made in
    let valid =
      Metadata.unpack-valid BodyRegionPrelude.codec BodyRegionPrelude.check bs x
        (λ vs e. (BodyRegionPrelude.to_tuple-from_tuple vs x e).1) read in
    rw (← same) (valid, packed)
pack-unpack_message Kind.inline_object_block bs m bytes other h =
    let (x, read, made) = >>=-eq-ok (Metadata.unpack InlineObjectBlock.codec bs) _ h in
    let packed =
      Metadata.pack-unpack InlineObjectBlock.codec bs x
        (λ vs made.
          let (same, valid) = InlineObjectBlock.to_tuple-from_tuple vs x made in (same, refl))
        bytes read in
    let same = from_ok (Message.inline_object_block x) m made in
    let valid =
      Metadata.unpack-valid InlineObjectBlock.codec InlineObjectBlock.check bs x
        (λ vs e. (InlineObjectBlock.to_tuple-from_tuple vs x e).1) read in
    rw (← same) (valid, packed)
pack-unpack_message Kind.object_reference bs m bytes other h =
    let (x, read, made) = >>=-eq-ok (Metadata.unpack ObjectReference.codec bs) _ h in
    let packed =
      Metadata.pack-unpack ObjectReference.codec bs x
        (λ vs made.
          let (same, valid) = ObjectReference.to_tuple-from_tuple vs x made in (same, refl))
        bytes read in
    let same = from_ok (Message.object_reference x) m made in
    let valid =
      Metadata.unpack-valid ObjectReference.codec ObjectReference.check bs x
        (λ vs e. (ObjectReference.to_tuple-from_tuple vs x e).1) read in
    rw (← same) (valid, packed)
pack-unpack_message Kind.extension_frame bs m bytes other h =
    let (x, read, made) = >>=-eq-ok (Metadata.unpack ExtensionFrame.codec bs) _ h in
    let packed =
      Metadata.pack-unpack ExtensionFrame.codec bs x
        (λ vs made.
          let (same, valid) = ExtensionFrame.to_tuple-from_tuple vs x made in (same, refl))
        bytes read in
    let same = from_ok (Message.extension_frame x) m made in
    let valid =
      Metadata.unpack-valid ExtensionFrame.codec ExtensionFrame.check bs x
        (λ vs e. (ExtensionFrame.to_tuple-from_tuple vs x e).1) read in
    rw (← same) (valid, packed)
pack-unpack_message Kind.frame_submit bs m bytes other h =
    let (x, read, made) = >>=-eq-ok (Metadata.unpack FrameSubmit.codec bs) _ h in
    let packed =
      Metadata.pack-unpack FrameSubmit.codec bs x
        (λ vs made. let (same, valid) = FrameSubmit.to_tuple-from_tuple vs x made in (same, refl))
        bytes read in
    let same = from_ok (Message.frame_submit x) m made in
    let valid =
      Metadata.unpack-valid FrameSubmit.codec FrameSubmit.check bs x
        (λ vs e. (FrameSubmit.to_tuple-from_tuple vs x e).1) read in
    rw (← same) (valid, packed)
pack-unpack_message Kind.tensor_section bs m bytes other h =
    let (x, read, made) = >>=-eq-ok (Metadata.unpack TensorSection.codec bs) _ h in
    let packed =
      Metadata.pack-unpack TensorSection.codec bs x
        (λ vs made. (TensorSection.to_tuple-from_tuple vs x made, refl)) bytes read in
    let same = from_ok (Message.tensor_section x) m made in rw (← same) (refl, packed)
pack-unpack_message Kind.result_push bs m bytes other h =
    let (x, read, made) = >>=-eq-ok (Metadata.unpack ResultPush.codec bs) _ h in
    let packed =
      Metadata.pack-unpack ResultPush.codec bs x
        (λ vs made. let (same, valid) = ResultPush.to_tuple-from_tuple vs x made in (same, refl))
        bytes read in
    let same = from_ok (Message.result_push x) m made in
    let valid =
      Metadata.unpack-valid ResultPush.codec ResultPush.check bs x
        (λ vs e. (ResultPush.to_tuple-from_tuple vs x e).1) read in
    rw (← same) (valid, packed)
pack-unpack_message Kind.schema_descriptor bs m bytes other h =
    let (x, read, made) = >>=-eq-ok (Metadata.unpack SchemaDescriptor.codec bs) _ h in
    let packed =
      Metadata.pack-unpack SchemaDescriptor.codec bs x
        (λ vs made.
          let (same, valid) = SchemaDescriptor.to_tuple-from_tuple vs x made in (same, refl))
        bytes read in
    let same = from_ok (Message.schema_descriptor x) m made in
    let valid =
      Metadata.unpack-valid SchemaDescriptor.codec SchemaDescriptor.check bs x
        (λ vs e. (SchemaDescriptor.to_tuple-from_tuple vs x e).1) read in
    rw (← same) (valid, packed)
pack-unpack_message Kind.typed_payload bs m bytes other h =
    let (x, read, made) = >>=-eq-ok (Metadata.unpack TypedPayload.codec bs) _ h in
    let packed =
      Metadata.pack-unpack TypedPayload.codec bs x
        (λ vs made. let (same, valid) = TypedPayload.to_tuple-from_tuple vs x made in (same, refl))
        bytes read in
    let same = from_ok (Message.typed_payload x) m made in
    let valid =
      Metadata.unpack-valid TypedPayload.codec TypedPayload.check bs x
        (λ vs e. (TypedPayload.to_tuple-from_tuple vs x e).1) read in
    rw (← same) (valid, packed)
pack-unpack_message Kind.session_migrate bs m bytes other h =
    let (x, read, made) = >>=-eq-ok (Metadata.unpack SessionMigrate.codec bs) _ h in
    let packed =
      Metadata.pack-unpack SessionMigrate.codec bs x
        (λ vs made.
          let (same, valid) = SessionMigrate.to_tuple-from_tuple vs x made in (same, valid))
        bytes read in
    let same = from_ok (Message.session_migrate x) m made in
    let valid =
      Metadata.unpack-valid SessionMigrate.codec SessionMigrate.check bs x
        (λ vs e. (SessionMigrate.to_tuple-from_tuple vs x e).1) read in
    rw (← same) (valid, packed)
