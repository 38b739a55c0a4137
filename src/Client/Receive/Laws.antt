-- ===== src/Client/Receive/Laws.antt =====
-- client/transport.py: what `receive_result` returns once the body of a RESULT_PUSH is accepted.
use nnrp_py.Common.{
  ℕ, ◌≡◌, refl, sym, ap, ◌∙◌, subst, false, Option, none, some, List, [], length, map, Bool-cases,
  inl, inr, ok, ◌>>=◌, >>=-eq-ok, from_ok, require, ◌==◌, not, ◌&&◌, ◌*◌,
}
use nnrp_py.Struct.{Bytes}
use nnrp_py.Header.Enums.{MessageType}
use nnrp_py.Metadata
use nnrp_py.Metadata.ResultPush
use nnrp_py.Metadata.ResultPush.{ResultPushMetadata}
use nnrp_py.Metadata.TypedPayload.{TypedPayloadDescriptor}
use nnrp_py.Packet.{NnrpPacket}
use nnrp_py.Body.Inline.{unpack_inline_object_blocks}
use nnrp_py.Body.Tables.{unpack_object_reference_blocks, unpack_typed_payload_descriptors}
use nnrp_py.Body.Offsets.{validate_descriptor_offsets}
use nnrp_py.Body.Typed.{
  TypedPayloadFrame, span, frame_at, validate_typed_payload_kind_union, unpack_typed_payload_frames,
}
use nnrp_py.Body.Regions.{BodyView, check_regions, unpack_body}
use nnrp_py.Body.TensorBody.{TensorBodyView}
use nnrp_py.Body.Contracts.{check_no_tensor, validate_body_metadata_contract}
use nnrp_py.Body.Contracts.Push.{
  has_tensor, validate_result_push_body, validate_result_push_tensor_coverage,
  validate_result_push_object_contract, unpack_current_tensor_body,
}
use nnrp_py.Body.Contracts.Received.{tensors_of_accepted_push}
use nnrp_py.Body.Regions.RoundTrip.{check_regions-unpack_body}
use nnrp_py.Client.Receive.{
  ClientResult, from_core_frames, tensor_body_of, is_bare, read_body, bare_result, receive_push,
  receive_type, receive_result, tile_ids, ids_of,
}

frames_read :
    (view : BodyView) (bitmap : ℕ) (ds : List TypedPayloadDescriptor)
    → unpack_typed_payload_descriptors view.regions.typed_payload_descriptor_region ≡ ok ds
    → validate_descriptor_offsets (length view.regions.typed_payload_frame_region) (map span ds)
      ≡ ok tt
    → validate_typed_payload_kind_union bitmap ds ≡ ok tt
    → (frames : List TypedPayloadFrame) × (unpack_typed_payload_frames
          view.regions.typed_payload_descriptor_region view.regions.typed_payload_frame_region
          bitmap
        ≡ ok frames)
unfolding unpack_typed_payload_frames
frames_read view bitmap ds read offsets union =
    (map (frame_at view.regions.typed_payload_frame_region) ds, rw (read, offsets, union))

accepted_parts :
    (m : ResultPushMetadata) (body : Bytes) (view : BodyView)
    → validate_result_push_body m body ≡ ok view
    → (check_regions view.regions ≡ ok tt)
      × (validate_body_metadata_contract m.payload_kind_bitmap m.payload_frame_count view ≡ ok tt)
unfolding validate_result_push_body
accepted_parts m body view h =
    let (v, opened, h1) = >>=-eq-ok (unpack_body body) _ h in
    let (_, _, h2) = >>=-eq-ok (validate_result_push_tensor_coverage m) _ h1 in
    let (_, contract, h3) =
      >>=-eq-ok (validate_body_metadata_contract m.payload_kind_bitmap m.payload_frame_count v) _
        h2 in
    let (_, _, h4) = >>=-eq-ok (validate_result_push_object_contract m v) _ h3 in
    let same = from_ok v view h4 in
    subst
      (λ w.
        (check_regions w.regions ≡ ok tt)
        × (validate_body_metadata_contract m.payload_kind_bitmap m.payload_frame_count w ≡ ok tt))
      same (check_regions-unpack_body body v opened, contract)

tensor_body_total :
    (m : ResultPushMetadata) (body : Bytes) (view : BodyView)
    → validate_result_push_body m body ≡ ok view
    → (t : Option TensorBodyView) × (tensor_body_of m view ≡ ok t)
unfolding tensor_body_of
tensor_body_total m body view h = elim (Bool-cases (has_tensor m)) [
  | inl tensor ↦
      let (t, read, _, _) = tensors_of_accepted_push m body view h in (some t, rw (tensor, read))
  | inr other ↦ (none, rw other)
]

push_is :
    (packet : NnrpPacket) (m : ResultPushMetadata) (view : BodyView)
    (frames : List TypedPayloadFrame) (t : Option TensorBodyView)
    → Metadata.unpack ResultPush.codec packet.metadata ≡ ok m
    → is_bare packet m ≡ false
    → validate_result_push_body m packet.body ≡ ok view
    → unpack_typed_payload_frames view.regions.typed_payload_descriptor_region
        view.regions.typed_payload_frame_region m.payload_kind_bitmap
      ≡ ok frames
    → tensor_body_of m view ≡ ok t
    → receive_push packet ≡ (
        from_core_frames frames >>= λ payloads.
        ok (record {
          packet = packet;
          metadata = some m;
          tensor_body = t;
          typed_payloads = payloads;
        }))
unfolding receive_push read_body
push_is packet m view frames t a b c d e = rw (a, b, c, d, e)

frames_of_view :
    (bitmap count : ℕ) (view : BodyView)
    → check_regions view.regions ≡ ok tt
    → validate_body_metadata_contract bitmap count view ≡ ok tt
    → (frames : List TypedPayloadFrame) × (unpack_typed_payload_frames
          view.regions.typed_payload_descriptor_region view.regions.typed_payload_frame_region
          bitmap
        ≡ ok frames)
unfolding check_regions validate_body_metadata_contract unpack_typed_payload_frames
frames_of_view bitmap count view h valid =
    let r = view.regions in
    let (_, _, h1) = >>=-eq-ok (unpack_inline_object_blocks r.inline_object_region) _ h in
    let (_, _, h2) = >>=-eq-ok (unpack_object_reference_blocks r.object_reference_region) _ h1 in
    let (ds, read, h3) =
      >>=-eq-ok (unpack_typed_payload_descriptors r.typed_payload_descriptor_region) _ h2 in
    let (_, offsets, _) =
      >>=-eq-ok (validate_descriptor_offsets (length r.typed_payload_frame_region) (map span ds)) _
        h3 in
    let (es, again, v1) =
      >>=-eq-ok (unpack_typed_payload_descriptors r.typed_payload_descriptor_region) _ valid in
    let (_, _, v2) = >>=-eq-ok (require (length es == count)) _ v1 in
    let (_, _, v3) =
      >>=-eq-ok (require (view.prelude.typed_payload_descriptor_bytes == count * 24)) _ v2 in
    let (_, _, v4) =
      >>=-eq-ok (require (not (count == 0 && not (view.prelude.typed_payload_frame_bytes == 0)))) _
        v3 in
    let (_, _, union) = >>=-eq-ok (check_no_tensor es) _ v4 in
    let same : ds ≡ es = from_ok ds es (sym read ∙ again) in
    frames_read view bitmap ds read offsets (rw (← same) at union)

-- Once the body of a RESULT_PUSH that is not bare is accepted, `receive_result` raises nothing but
-- what the constructor of a typed payload raises: the frames and the tensors are unpacked.
pub receive_result-accepted :
    (packet : NnrpPacket) (m : ResultPushMetadata) (view : BodyView)
    → packet.header.msg_type ≡ MessageType.result_push
    → Metadata.unpack ResultPush.codec packet.metadata ≡ ok m
    → is_bare packet m ≡ false
    → validate_result_push_body m packet.body ≡ ok view
    → (frames : List TypedPayloadFrame) × (tensor_body : Option TensorBodyView)
      × (unpack_typed_payload_frames view.regions.typed_payload_descriptor_region
            view.regions.typed_payload_frame_region m.payload_kind_bitmap
          ≡ ok frames)
      × (receive_result packet ≡ (
          from_core_frames frames >>= λ payloads. ok (record {
            packet = packet;
            metadata = some m;
            tensor_body = tensor_body;
            typed_payloads = payloads;
          })))
unfolding receive_result
receive_result-accepted packet m view kind read full valid =
    let (checked, contract) = accepted_parts m packet.body view valid in
    let (frames, framed) =
      frames_of_view m.payload_kind_bitmap m.payload_frame_count view checked contract in
    let (t, found) = tensor_body_total m packet.body view valid in
    (
      frames,
      t,
      framed,
      ap (λ k. receive_type k packet) kind
          ∙ push_is packet m view frames t read full valid framed found,
    )

ids_of_body :
    (m : ResultPushMetadata) (body : Bytes) (view : BodyView) (t : Option TensorBodyView)
    → validate_result_push_body m body ≡ ok view
    → tensor_body_of m view ≡ ok t
    → (ids : List ℕ) × (ids_of (some m) t ≡ ok ids)
unfolding tensor_body_of
ids_of_body m body view t valid h = elim (Bool-cases (has_tensor m)) [
  | inl tensor ↦
      let (found, read, ids, ids_read) = tensors_of_accepted_push m body view valid in
      let (again, took, made) =
        >>=-eq-ok (unpack_current_tensor_body view m.section_count m.tile_count) _
          (rw tensor at h) in
      let same : some found ≡ t =
        ap some (from_ok found again (sym read ∙ took)) ∙ from_ok _ t made in
      (ids, subst (λ b. ids_of (some m) b ≡ ok ids) same (unfold ids_of in ids_read))
  | inr other ↦ (
    [],
    subst (λ b. ids_of (some m) b ≡ ok []) (from_ok none t (rw other at h)) (unfold ids_of in refl),
  )
]

ids_of_push :
    (packet : NnrpPacket) (r : ClientResult)
    → receive_push packet ≡ ok r
    → (ids : List ℕ) × (tile_ids r ≡ ok ids)
unfolding receive_push read_body tile_ids
ids_of_push packet r h =
    let (m, _, h1) = >>=-eq-ok (Metadata.unpack ResultPush.codec packet.metadata) _ h in
    elim (Bool-cases (is_bare packet m)) [
      | inl bare ↦
          let same = from_ok (bare_result packet (some m)) r (rw bare at h1) in
          subst (λ x. (ids : List ℕ) × (tile_ids x ≡ ok ids)) same ([], unfold ids_of in refl)
      | inr full ↦
          let (view, valid, h2) =
            >>=-eq-ok (validate_result_push_body m packet.body) _ (rw full at h1) in
          let (frames, _, h3) =
            >>=-eq-ok
              (unpack_typed_payload_frames view.regions.typed_payload_descriptor_region
                view.regions.typed_payload_frame_region m.payload_kind_bitmap)
              _ h2 in
          let (payloads, _, h4) = >>=-eq-ok (from_core_frames frames) _ h3 in
          let (t, found, h5) = >>=-eq-ok (tensor_body_of m view) _ h4 in
          subst (λ x. (ids : List ℕ) × (tile_ids x ≡ ok ids)) (from_ok _ r h5)
            (ids_of_body m packet.body view t valid found)
    ]

ids_of_type :
    (kind : MessageType) (packet : NnrpPacket) (r : ClientResult)
    → receive_type kind packet ≡ ok r
    → (ids : List ℕ) × (tile_ids r ≡ ok ids)
unfolding receive_type tile_ids
ids_of_type MessageType.result_drop packet r h =
    subst (λ x. (ids : List ℕ) × (tile_ids x ≡ ok ids)) (from_ok _ r h) ([], unfold ids_of in refl)
ids_of_type MessageType.result_push packet r h = ids_of_push packet r h
ids_of_type _ packet r h = cc

-- The tile ids of every result that was received are read without an exception.
pub tile_ids-receive_result :
    (packet : NnrpPacket) (r : ClientResult)
    → receive_result packet ≡ ok r
    → (ids : List ℕ) × (tile_ids r ≡ ok ids)
unfolding receive_result receive_type tile_ids
tile_ids-receive_result packet r h = ids_of_type packet.header.msg_type packet r h
