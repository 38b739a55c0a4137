-- ===== src/Packet/Websocket.antt =====
-- runtime/__init__.py: frames as WebSocket binary messages, alone and back to back in a batch.
pub mod Frame
pub mod Batch
pub mod Errors
use nnrp_py.Common.{
  ℕ, zero, suc, ◌+◌, List, [], ◌∷◌, ◌++◌, ◌==◌, ◌||◌, leb, ltb, none, length, take, drop, Result,
  ok, err, out_of_fuel, ◌>>=◌, ◌>>◌, require,
}
use nnrp_py.Struct.{Bytes}
use nnrp_py.Header
use nnrp_py.Header.{NnrpHeader, header_length}
use nnrp_py.Header.Enums.{WireFormat, MessageType}

pub record RuntimeFrameHeader : Type 0 where
  pub message_type : MessageType
  pub flags : ℕ
  pub session_id : ℕ
  pub frame_id : ℕ
  pub view_id : ℕ
  pub route_id : ℕ
  pub trace_id : ℕ
  pub version_major : ℕ
  pub wire_format : WireFormat

pub record DecodedRuntimeFrame : Type 0 where
  pub header : RuntimeFrameHeader
  pub metadata : Bytes
  pub body : Bytes

abbrev pub packet_header : RuntimeFrameHeader → ℕ → ℕ → NnrpHeader
packet_header h meta_len body_len = record {
  version_major = h.version_major;
  wire_format = h.wire_format;
  msg_type = h.message_type;
  flags = h.flags;
  meta_len = meta_len;
  body_len = body_len;
  session_id = h.session_id;
  frame_id = h.frame_id;
  view_id = h.view_id;
  route_id = h.route_id;
  trace_id = h.trace_id;
  header_len = header_length;
}

unfoldable pub encode_websocket_binary_frame : RuntimeFrameHeader → Bytes → Bytes → Result Bytes
encode_websocket_binary_frame header metadata body = do
  packed ← Header.pack (packet_header header (length metadata) (length body))
  ok (packed ++ (metadata ++ body))

abbrev pub runtime_frame_header_from_header : NnrpHeader → RuntimeFrameHeader
runtime_frame_header_from_header h = record {
  message_type = h.msg_type;
  flags = h.flags;
  session_id = h.session_id;
  frame_id = h.frame_id;
  view_id = h.view_id;
  route_id = h.route_id;
  trace_id = h.trace_id;
  version_major = h.version_major;
  wire_format = h.wire_format;
}

unfoldable pub decode_websocket_binary_frame : Bytes → Result DecodedRuntimeFrame
decode_websocket_binary_frame frame = do
  require (leb header_length (length frame))
  header ← Header.unpack none (take header_length frame)
  require (length frame == header.header_len + header.meta_len + header.body_len)
  ok (record {
    header = runtime_frame_header_from_header header;
    metadata = take header.meta_len (drop header.header_len frame);
    body = drop (header.header_len + header.meta_len) frame;
  })

-- One round of the batch loop: `bs` is the batch from `cursor` on.
unfoldable pub read_frame : Bytes → Result (DecodedRuntimeFrame × Bytes)
read_frame bs = do
  require (leb header_length (length bs))
  header ← Header.unpack none (take header_length bs)
  let frame_len = header.header_len + header.meta_len + header.body_len
  require (leb frame_len (length bs))
  frame ← decode_websocket_binary_frame (take frame_len bs)
  ok (frame, drop frame_len bs)

-- The loop, with the number of frames read so far. A limit of 0 is no limit.
unfoldable pub batch_loop : ℕ → ℕ → ℕ → Bytes → Result (List DecodedRuntimeFrame)
batch_loop limit count fuel [] = ok []
batch_loop limit count zero (b ∷ bs) = err out_of_fuel
batch_loop limit count (suc fuel) (b ∷ bs) = do
  require (limit == 0 || ltb count limit)
  (frame, rest) ← read_frame (b ∷ bs)
  frames ← batch_loop limit (count + 1) fuel rest
  ok (frame ∷ frames)

-- Each frame takes 40 bytes at least, so as many rounds as there are bytes are enough.
unfoldable pub decode_websocket_binary_frame_batch : ℕ → Bytes → Result (List DecodedRuntimeFrame)
unfolding batch_loop
decode_websocket_binary_frame_batch limit batch = batch_loop limit 0 (length batch) batch
