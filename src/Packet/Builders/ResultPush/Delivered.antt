-- ===== src/Packet/Builders/ResultPush/Delivered.antt =====
-- core/packet.py and client/transport.py: a built RESULT_PUSH, sent and received.
use nnrp_py.Common.{
  ℕ, ◌<◌, ◌^◌, ◌≡◌, refl, sym, ap, ◌∙◌, subst, true, false, Option, some, List, [], length, map, ok,
  >>=-eq-ok, from_ok, require, if◌then◌else◌, arith,
}
use nnrp_py.Struct.{Bytes}
use nnrp_py.Metadata
use nnrp_py.Metadata.ResultPush
use nnrp_py.Metadata.ResultPush.{ResultPushMetadata}
use nnrp_py.Body.Tables.{unpack_typed_payload_descriptors}
use nnrp_py.Body.Table
use nnrp_py.Stream.{read_all, read_loop}
use nnrp_py.Body.Offsets.{validate_descriptor_offsets}
use nnrp_py.Body.Typed.{
  TypedPayloadFrame, span, frame_at, validate_typed_payload_kind_union, unpack_typed_payload_frames,
}
use nnrp_py.Body.Regions.{Regions, BodyView, pack_body, check_regions, unpack_body}
use nnrp_py.Body.Regions.RoundTrip.{unpack-pack_body}
use nnrp_py.Body.TensorBody.{TensorBodyView}
use nnrp_py.Body.Contracts.{validate_body_metadata_contract}
use nnrp_py.Body.Contracts.Push.{
  validate_result_push_body, validate_result_push_tensor_coverage,
  validate_result_push_object_contract,
}
use nnrp_py.Packet
use nnrp_py.Packet.{NnrpPacket}
use nnrp_py.Packet.RoundTrip.{FieldsFit, unpack-pack-build}
use nnrp_py.Packet.Builders.ResultPush.{
  ResultPushArguments, TensorParts, tensor_enabled, is_representable, inline_only, tensor_parts,
  no_tensor_parts, metadata_of, push_fields, build_result_push_packet,
}
use nnrp_py.Client.Receive.{from_core_frames, is_bare, receive_result}
use nnrp_py.Client.Receive.Laws.{receive_result-accepted}

-- The steps of a call that returned.
built_inv :
    (a : ResultPushArguments) (p : NnrpPacket)
    → build_result_push_packet a ≡ ok p
    → (parts : TensorParts) × (body : Bytes) × (view : BodyView) × (metadata : Bytes) × (pack_body
          (inline_only parts.inline_object_region)
        ≡ ok body)
      × (ResultPush.check (metadata_of a parts) ≡ ok tt)
      × (validate_result_push_body (metadata_of a parts) body ≡ ok view)
      × (Metadata.pack ResultPush.codec (metadata_of a parts) ≡ ok metadata)
      × (Packet.build (push_fields a) metadata body ≡ p)
unfolding build_result_push_packet
built_inv a p h =
    let (_, _, h1) = >>=-eq-ok (require (is_representable a.tile_index_mode)) _ h in
    let (parts, _, h2) =
      >>=-eq-ok (if tensor_enabled a then tensor_parts a else no_tensor_parts a) _ h1 in
    let (body, packed, h3) = >>=-eq-ok (pack_body (inline_only parts.inline_object_region)) _ h2 in
    let (_, checked, h4) = >>=-eq-ok (ResultPush.check (metadata_of a parts)) _ h3 in
    let (_, _, h5) = >>=-eq-ok (validate_result_push_tensor_coverage (metadata_of a parts)) _ h4 in
    let (view, valid, h6) = >>=-eq-ok (validate_result_push_body (metadata_of a parts) body) _ h5 in
    let (metadata, written, h7) =
      >>=-eq-ok (Metadata.pack ResultPush.codec (metadata_of a parts)) _ h6 in
    (parts, body, view, metadata, packed, checked, valid, written, from_ok _ p h7)

-- An accepted view of a packed body holds the regions that were packed.
regions_of_view :
    (m : ResultPushMetadata) (r : Regions) (body : Bytes) (view : BodyView)
    → pack_body r ≡ ok body
    → validate_result_push_body m body ≡ ok view
    → view.regions ≡ r
unfolding validate_result_push_body
regions_of_view m r body view packed valid =
    let (v, opened, h1) = >>=-eq-ok (unpack_body body) _ valid in
    let (_, _, h2) = >>=-eq-ok (validate_result_push_tensor_coverage m) _ h1 in
    let (_, _, h3) =
      >>=-eq-ok (validate_body_metadata_contract m.payload_kind_bitmap m.payload_frame_count v) _
        h2 in
    let (_, _, h4) = >>=-eq-ok (validate_result_push_object_contract m v) _ h3 in
    let (_, _, made) =
      >>=-eq-ok (check_regions r) _ (sym (unpack-pack_body r body packed) ∙ opened) in
    sym (ap (λ w. w.regions) (from_ok _ v made ∙ from_ok v view h4))

no_rows : unpack_typed_payload_descriptors [] ≡ ok []
unfolding unpack_typed_payload_descriptors Table.unpack_table read_all read_loop
no_rows = refl

no_frames :
    (bitmap : ℕ) (frames : List TypedPayloadFrame)
    → unpack_typed_payload_frames [] [] bitmap ≡ ok frames
    → frames ≡ []
unfolding unpack_typed_payload_frames
no_frames bitmap frames h =
    let (ds, read, h1) = >>=-eq-ok (unpack_typed_payload_descriptors []) _ h in
    let none_read : [] ≡ ds = from_ok [] ds (sym no_rows ∙ read) in
    let (_, _, h2) = >>=-eq-ok (validate_descriptor_offsets 0 (map span ds)) _ h1 in
    let (_, _, h3) = >>=-eq-ok (validate_typed_payload_kind_union bitmap ds) _ h2 in
    sym (from_ok _ frames h3) ∙ ap (map (frame_at [])) (sym none_read)

-- A tensor RESULT_PUSH that a builder returns, of a route that fits the header and a body below
-- 2 ^ 32 bytes, packs, and the client that reads its bytes gets a result: `receive_result` does not
-- raise, and gives the metadata of the arguments and no typed payloads.
pub received-build_result_push_packet :
    (a : ResultPushArguments) (p : NnrpPacket)
    → build_result_push_packet a ≡ ok p
    → tensor_enabled a ≡ true
    → FieldsFit (push_fields a)
    → length p.body < 2 ^ 32
    → (bs : Bytes) × (parts : TensorParts) × (tensor_body : Option TensorBodyView) × (Packet.pack p
        ≡ ok bs)
      × (Packet.unpack bs ≡ ok p)
      × (receive_result p
          ≡ ok (record {
            packet = p;
            metadata = some (metadata_of a parts);
            tensor_body = tensor_body;
            typed_payloads = [];
          }))
unfolding Packet.build from_core_frames
received-build_result_push_packet a p h tensor fit body_fits =
    let (parts, body, view, metadata, packed, checked, valid, written, same) = built_inv a p h in
    let m : ResultPushMetadata = metadata_of a parts in
    let q : NnrpPacket = Packet.build (push_fields a) metadata body in
    let read : Metadata.unpack ResultPush.codec metadata ≡ ok m =
      Metadata.unpack-pack ResultPush.codec m metadata (ResultPush.from_tuple-to_tuple m checked)
        written in
    let full : is_bare q m ≡ false = rw tensor (ground arith) in
    let (frames, t, framed, result) = receive_result-accepted q m view refl read full valid in
    let same_regions =
      regions_of_view m (inline_only parts.inline_object_region) body view packed valid in
    let none_framed : frames ≡ [] =
      no_frames m.payload_kind_bitmap frames (rw same_regions at framed) in
    let small : length body < 2 ^ 32 = subst (λ x. length x.body < 2 ^ 32) (sym same) body_fits in
    let (bs, sent, unpacked, size) =
      unpack-pack-build (push_fields a) metadata body fit
        (omega (arith, Metadata.length-pack ResultPush.codec m metadata written)) small in
    let got = rw none_framed at result in
    subst
      (λ x.
        (bs : Bytes) × (parts : TensorParts) × (tensor_body : Option TensorBodyView) × (Packet.pack
            x
          ≡ ok bs)
        × (Packet.unpack bs ≡ ok x)
        × (receive_result x
            ≡ ok (record {
              packet = x;
              metadata = some (metadata_of a parts);
              tensor_body = tensor_body;
              typed_payloads = [];
            })))
      same (bs, parts, t, sent, unpacked, got)
