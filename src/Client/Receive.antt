-- ===== src/Client/Receive.antt =====
-- client/transport.py: `ClientSession.receive_result`, on the packet that the connection returns,
-- and the class `Result`.
pub mod Laws
use nnrp_py.Common.{
  ℕ, Bool, true, false, not, ◌&&◌, Option, none, some, List, [], ◌∷◌, ◌==◌, if◌then◌else◌, Result,
  ok, err, value_error, ◌>>=◌,
}
use nnrp_py.Struct.{Bytes}
use nnrp_py.Header.Enums.{MessageType}
use nnrp_py.Metadata
use nnrp_py.Metadata.ResultPush
use nnrp_py.Metadata.ResultPush.{ResultPushMetadata}
use nnrp_py.Packet.{NnrpPacket}
use nnrp_py.Body.Typed.{TypedPayloadFrame, build_typed_payload_frame, unpack_typed_payload_frames}
use nnrp_py.Body.Regions.{BodyView}
use nnrp_py.Body.Tiles.{unpack_tile_index_block}
use nnrp_py.Body.TensorBody.{TensorBodyView}
use nnrp_py.Body.Contracts.{is_empty}
use nnrp_py.Body.Contracts.Push.{
  has_tensor, index_mode, validate_result_push_body, unpack_current_tensor_body,
}

-- The class `Result`, which has the name of the model's own results.
pub record ClientResult : Type 0 where
  pub packet : NnrpPacket
  pub metadata : Option ResultPushMetadata
  pub tensor_body : Option TensorBodyView
  pub typed_payloads : List TypedPayloadFrame

-- `TypedPayload.from_core_frame` of each frame: its constructor builds the frame again.
unfoldable pub from_core_frames : List TypedPayloadFrame → Result (List TypedPayloadFrame)
from_core_frames [] = ok []
from_core_frames (f ∷ frames) = do
  payload ← build_typed_payload_frame f
  payloads ← from_core_frames frames
  ok (payload ∷ payloads)

unfoldable pub tensor_body_of : ResultPushMetadata → BodyView → Result (Option TensorBodyView)
tensor_body_of m body_view =
    if has_tensor m
    then (do t ← unpack_current_tensor_body body_view m.section_count m.tile_count; ok (some t))
    else ok none

-- A RESULT_PUSH that carries nothing.
abbrev pub is_bare : NnrpPacket → ResultPushMetadata → Bool
is_bare packet m = is_empty packet.body && m.payload_frame_count == 0 && not (has_tensor m)

unfoldable pub read_body : NnrpPacket → ResultPushMetadata → Result ClientResult
unfolding from_core_frames tensor_body_of
read_body packet m = do
  body_view ← validate_result_push_body m packet.body
  frames ←
      unpack_typed_payload_frames body_view.regions.typed_payload_descriptor_region
        body_view.regions.typed_payload_frame_region m.payload_kind_bitmap
  payloads ← from_core_frames frames
  tensor_body ← tensor_body_of m body_view
  ok (record {
    packet = packet;
    metadata = some m;
    tensor_body = tensor_body;
    typed_payloads = payloads;
  })

abbrev pub bare_result : NnrpPacket → Option ResultPushMetadata → ClientResult
bare_result packet m = record {
  packet = packet;
  metadata = m;
  tensor_body = none;
  typed_payloads = [];
}

unfoldable pub receive_push : NnrpPacket → Result ClientResult
unfolding read_body
receive_push packet = do
  m ← Metadata.unpack ResultPush.codec packet.metadata
  (if is_bare packet m then ok (bare_result packet (some m)) else read_body packet m)

unfoldable pub receive_type : MessageType → NnrpPacket → Result ClientResult
unfolding receive_push
receive_type MessageType.result_drop packet = ok (bare_result packet none)
receive_type MessageType.result_push packet = receive_push packet
receive_type _ packet = err value_error

unfoldable pub receive_result : NnrpPacket → Result ClientResult
unfolding receive_type
receive_result packet = receive_type packet.header.msg_type packet

-- `Result.tile_ids`
unfoldable pub ids_of : Option ResultPushMetadata → Option TensorBodyView → Result (List ℕ)
ids_of (some m) (some t) =
    unpack_tile_index_block (index_mode m.tile_index_bytes) m.tile_count m.tile_base_id
      t.tile_index_block
ids_of (some m) none = ok []
ids_of none t = ok []

unfoldable pub tile_ids : ClientResult → Result (List ℕ)
unfolding ids_of
tile_ids r = ids_of r.metadata r.tensor_body
